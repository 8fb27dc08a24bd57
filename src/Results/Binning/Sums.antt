-- ===== src/Results/Binning/Sums.antt =====
-- Binning loses no occurrence: the frequencies of the bins add up to those of the items.
use mquery.Base.{
  ℕ, ◌+◌, ◌%◌, ◌<◌, ◌≡◌, ◌∙◌, List, [], ◌∷◌, Option, some, inl, inr, arith, false, Bool-cases,
  Option-cases, length, ◌==◌,
}
use mquery.Base.Word.{add64-eq-add, slt64, sign_bit}
use mquery.Base.Float.{Floats}
use mquery.Base.Sort.{Sorter}
use mquery.Base.Total.{total, total-perm}
use mquery.Base.Text.{String}
use mquery.Results.{FreqDistribItem}
use mquery.Results.Binning.{
  BinData, returned, Outcome-cases, bins_of, items_per_bin, bd_num_zero_freq, earlier, empty_bin,
  to_dates, grouped, fill_bins, binned, bin_as_data_series, bd_moving_zscores,
}

abbrev bin_freq : BinData → ℕ
bin_freq d = d.freq

module _ {F : Type 0} where
  -- The sum of the frequencies, as a natural number.
  abbrev pub sum_freq : List (FreqDistribItem F) → ℕ
  sum_freq = total (λ (v : FreqDistribItem F). v.freq)

  sum-to_dates :
      (to_int : String → Option ℕ) (flist : List (FreqDistribItem F)) (dates : List BinData)
      → to_dates to_int flist ≡ some dates
      → total bin_freq dates ≡ sum_freq flist
  unfolding to_dates
  sum-to_dates to_int [] dates h = ground arith
  sum-to_dates to_int (v ∷ vs) dates h = elim (Option-cases (to_int v.word)) [
    | inl e ↦ cc
    | inr (idx, e) ↦ elim (Option-cases (to_dates to_int vs)) [
      | inl e' ↦ cc
      | inr (ds, e') ↦ ground (arith, sum-to_dates to_int vs ds e')
    ]
  ]

slt64_pos : (a : ℕ) → a < sign_bit → slt64 0 a ≡ false → a ≡ 0
unfolding slt64
slt64_pos a h e = ground arith

module _ (f32 : Floats) where
  open f32 use {Float}

  sum-fill_bins :
      (per i : ℕ) (cur : BinData) (items : List BinData)
      → cur.freq + total bin_freq items < sign_bit
      → sum_freq (fill_bins f32 per i cur items) ≡ cur.freq + total bin_freq items
  unfolding fill_bins grouped
  sum-fill_bins per i cur [] h = ground (arith, slt64_pos cur.freq)
  sum-fill_bins per i cur (d ∷ ds) h = elim (Bool-cases ((i + 1) % per == 0)) [
    | inl e ↦
        rw (e, fill_bins)
          (omega (arith, sum-fill_bins per (i + 1) empty_bin ds, add64-eq-add cur.freq d.freq))
    | inr e ↦
        rw (e, fill_bins)
          (omega
            (arith, sum-fill_bins per (i + 1) (grouped cur d) ds, add64-eq-add cur.freq d.freq))
  ]

module _ (f32 f64 : Floats) where
  open f32 use {Float}

  sum-bins_of :
      (scores : List f64.Float) (dates : List BinData)
      → total bin_freq dates < sign_bit
      → sum_freq (bins_of f32 f64 scores dates) ≡ total bin_freq dates
  unfolding bins_of
  sum-bins_of scores dates h = omega (
    arith,
    sum-fill_bins f32 (items_per_bin f64 (length dates) (bd_num_zero_freq dates) _) 0 empty_bin
        dates,
  )

  sum-binned :
      (dates : List BinData) (w : ℕ) (bins : List (FreqDistribItem Float))
      → total bin_freq dates < sign_bit
      → binned f32 f64 dates w ≡ returned bins
      → sum_freq bins ≡ total bin_freq dates
  unfolding binned
  sum-binned dates w bins h e = elim (Outcome-cases (bd_moving_zscores f64 dates w)) [
    | inl p ↦ cc
    | inr (scores, p) ↦ ground (arith, sum-bins_of scores dates h)
  ]

module _ (f32 f64 : Floats) (sort : Sorter earlier) (to_int : String → Option ℕ) where
  open f32 use {Float}

  -- If the frequencies add up to less than 2 ^ 63, those of the series that `BinAsDataSeries` returns
  -- add up to the same number, on every path on which it returns.
  pub sum-bin_as_data_series :
      (flist : List (FreqDistribItem Float)) (w : ℕ) (bins : List (FreqDistribItem Float))
      → sum_freq flist < sign_bit
      → bin_as_data_series f32 f64 sort to_int flist w ≡ returned bins
      → sum_freq bins ≡ sum_freq flist
  unfolding bin_as_data_series
  sum-bin_as_data_series flist w bins h e = elim (Option-cases (to_dates to_int flist)) [
    | inl p ↦ ground arith
    | inr (dates, p) ↦
        let same = total-perm bin_freq (sort.run-perm dates) ∙ sum-to_dates to_int flist dates p in
        ground (arith, same, sum-binned f32 f64 (sort.run dates) w bins)
  ]
