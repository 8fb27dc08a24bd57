-- ===== src/Results/Binning/Panics.antt =====
-- When `BinAsDataSeries` panics.
use mquery.Base.{
  ℕ, ◌<◌, ◌≤◌, ◌≡◌, ◌↔◌, ◌⊎◌, refl, ◌∙◌, List, [], ◌∷◌, Option, some, inl, inr, arith, Option-cases,
  length, All,
}
use mquery.Base.Float.{Floats}
use mquery.Base.Sort.{Sorter}
use mquery.Base.Total.{length-perm}
use mquery.Base.Text.{String}
use mquery.Results.{FreqDistribItem}
use mquery.Results.Binning.{
  BinData, panicked, earlier, date_of, to_dates, bd_moving_zscores, binned, bin_as_data_series,
}

module _ {F : Type 0} where
  length-to_dates :
      (to_int : String → Option ℕ) (flist : List (FreqDistribItem F)) (dates : List BinData)
      → to_dates to_int flist ≡ some dates
      → length dates ≡ length flist
  unfolding to_dates
  length-to_dates to_int [] dates h = ground arith
  length-to_dates to_int (v ∷ vs) dates h = elim (Option-cases (to_int v.word)) [
    | inl e ↦ cc
    | inr (idx, e) ↦ elim (Option-cases (to_dates to_int vs)) [
      | inl e' ↦ cc
      | inr (ds, e') ↦ ground (arith, length-to_dates to_int vs ds e')
    ]
  ]

  -- Items that all parse have their dates.
  pub to_dates_total :
      (to_int : String → Option ℕ) (flist : List (FreqDistribItem F))
      → All (λ (v : FreqDistribItem F). (n : ℕ) × (to_int v.word ≡ some n)) flist
      → (dates : List BinData) × (to_dates to_int flist ≡ some dates)
  unfolding to_dates
  to_dates_total to_int [] h = ([], refl)
  to_dates_total to_int (v ∷ vs) ((n, e), h) =
      let (dates, e') = to_dates_total to_int vs h in (date_of n v ∷ dates, ground (arith, e, e'))

module _ (f32 f64 : Floats) (sort : Sorter earlier) (to_int : String → Option ℕ) where
  open f32 use {Float}

  binned-panics :
      (dates : List BinData) (w : ℕ) → (binned f32 f64 dates w ≡ panicked) ↔ (length dates < w)
  unfolding binned bd_moving_zscores
  binned-panics dates w = (λ h. ground arith, λ h. ground arith)

  -- On items that all parse, `BinAsDataSeries` panics exactly when there are at least five of them
  -- and the window is of size 0 or 1 or longer than the list.
  pub bin_as_data_series-panics :
      (flist : List (FreqDistribItem Float)) (w : ℕ) (dates : List BinData)
      → to_dates to_int flist ≡ some dates
      → (bin_as_data_series f32 f64 sort to_int flist w ≡ panicked)
        ↔ ((5 ≤ length flist) × ((w ≤ 1) ⊎ (length flist < w)))
  unfolding bin_as_data_series
  bin_as_data_series-panics flist w dates p =
      let size = length-perm (sort.run-perm dates) ∙ length-to_dates to_int flist dates p in
      let inner = binned-panics (sort.run dates) w in
      (λ h. ground (arith, size, inner), λ h. ground (arith, size, inner))
