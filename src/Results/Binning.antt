-- ===== src/Results/Binning.antt =====
-- rdb/results/results.go and rdb/results/tfbinning.go: `BinAsDataSeries` and its moving z-scores.
-- The lists are far shorter than 2 ^ 49, so `math.Ceil` and `math.RoundToEven` of a quotient of two
-- lengths are the integer operations below. A window size that is not positive acts as 0.
pub mod Sums
pub mod Counts
pub mod Panics
use mquery.Base.{
  ℕ, zero, suc, ◌+◌, ◌-◌, ◌*◌, ◌/◌, ◌%◌, ◌≡◌, refl, ◌⊎◌, inl, inr, Bool, true, false, List, [], ◌∷◌,
  Option, none, some, if◌then◌else◌, ltb, leb, ◌==◌, length, take,
}
use mquery.Base.Word.{add64, sub64, slt64}
use mquery.Base.Float.{Floats}
use mquery.Base.Sort.{Sorter}
use mquery.Base.Text.{String, str_eq}
use mquery.Results.{FreqDistribItem, ipm_of}

-- `zScore` is never read or written.
pub record BinData : Type 0 where
  pub date_bucket : ℕ
  pub freq : ℕ
  pub base : ℕ
  pub label : String
  pub num_grouped : ℕ

-- A call that returns, or panics.
pub data Outcome (A : Type 0) : Type 0 where
  returned : A → Outcome A
  panicked : Outcome A

abbrev pub empty_bin : BinData
empty_bin = record { date_bucket = 0; freq = 0; base = 0; label = ""; num_grouped = 0 }

pub Outcome-cases : {A : Type 0} (o : Outcome A) → (o ≡ panicked) ⊎ ((a : A) × (o ≡ returned a))
Outcome-cases (returned a) = inr (a, refl)
Outcome-cases panicked = inl refl

-- The comparison that `slices.SortFunc` is given: the difference of two buckets is negative.
abbrev pub earlier : BinData → BinData → Bool
earlier d1 d2 = slt64 (sub64 d1.date_bucket d2.date_bucket) 0

-- math.Ceil(a / b)
abbrev pub ceil_div : ℕ → ℕ → ℕ
ceil_div a b = (a + b - 1) / b

-- math.RoundToEven(a / b)
unfoldable pub round_to_even : ℕ → ℕ → ℕ
round_to_even a b =
    let q = a / b in
    let twice = 2 * (a % b) in
    if ltb twice b then q else if ltb b twice then q + 1 else if q % 2 == 0 then q else q + 1

unfoldable pub bd_num_zero_freq : List BinData → ℕ
bd_num_zero_freq [] = 0
bd_num_zero_freq (v ∷ vs) = let rest = bd_num_zero_freq vs in if v.freq == 0 then suc rest else rest

module _ (f64 : Floats) where
  open f64 use {Float, of_int, plus, minus, times, over, sqrt, abs, less}

  unfoldable pub total_freq : Float → List BinData → Float
  total_freq total [] = total
  total_freq total (item ∷ rest) = total_freq (plus total (of_int item.freq)) rest

  unfoldable pub squares : Float → ℕ → Float → List BinData → Float
  squares avg n stdev [] = stdev
  squares avg n stdev (item ∷ rest) =
      let d = minus (of_int item.freq) avg in
      squares avg n (plus stdev (over (times d d) (of_int (n - 1)))) rest

  unfoldable pub bd_stdev : List BinData → Float
  unfolding total_freq squares
  bd_stdev window =
      let avg = over (total_freq (of_int 0) window) (of_int (length window)) in
      sqrt (squares avg (length window) (of_int 0) window)

  unfoldable pub bd_mean : List BinData → Float
  unfolding total_freq
  bd_mean window = over (total_freq (of_int 0) window) (of_int (length window))

  -- The scores of the first `n` positions, `n` at most the length.
  unfoldable pub zscores : ℕ → ℕ → List BinData → List Float
  unfolding bd_stdev bd_mean
  zscores zero window_size items = []
  zscores (suc n) window_size [] = []
  zscores (suc n) window_size (item ∷ rest) =
      let window = take window_size (item ∷ rest) in
      over (minus (of_int item.freq) (bd_mean window)) (bd_stdev window)
      ∷ zscores n window_size rest

  unfoldable pub bd_moving_zscores : List BinData → ℕ → Outcome (List Float)
  unfolding zscores
  bd_moving_zscores items window_size =
      if ltb (length items) window_size
      then panicked
      else returned (zscores (length items - window_size + 1) window_size items)

  unfoldable pub max_zscore : Float → List Float → Float
  max_zscore m [] = m
  max_zscore m (z ∷ zs) = max_zscore (f64.max m (abs z)) zs

  -- The heuristic for the number of bins.
  unfoldable pub num_bins : ℕ → ℕ → Float → ℕ
  num_bins n num_zero z =
      if ltb 10 n
      then (if less z (over (of_int 5) (of_int 2))
          then (if ltb (n / 10) num_zero then ceil_div n 10 else ceil_div n 5)
          else if less z (over (of_int 7) (of_int 2))
          then ceil_div n 3
          else n)
      else n

  unfoldable pub items_per_bin : ℕ → ℕ → Float → ℕ
  unfolding num_bins round_to_even
  items_per_bin n num_zero z = round_to_even n (num_bins n num_zero z)

module _ {F : Type 0} where
  abbrev pub date_of : ℕ → FreqDistribItem F → BinData
  date_of idx item = record {
    date_bucket = idx;
    freq = item.freq;
    base = item.base;
    label = item.word;
    num_grouped = 0;
  }

  -- The loop over the items; `none` is its early return.
  unfoldable pub to_dates : (String → Option ℕ) → List (FreqDistribItem F) → Option (List BinData)
  to_dates to_int [] = some []
  to_dates to_int (item ∷ rest) = elim (to_int item.word) [
    | none ↦ none
    | some idx ↦ elim (to_dates to_int rest) [
      | none ↦ none
      | some dates ↦ some (date_of idx item ∷ dates)
    ]
  ]

unfoldable pub grouped : BinData → BinData → BinData
grouped cur item = record cur {
  freq = add64 cur.freq item.freq;
  base = add64 cur.base item.base;
  num_grouped = cur.num_grouped + 1;
  label = if str_eq cur.label "" then item.label else cur.label;
}

module _ (f32 : Floats) where
  open f32 use {Float}

  abbrev pub bin_item : BinData → FreqDistribItem Float
  bin_item cur = record {
    word = cur.label;
    freq = cur.freq;
    base = cur.base;
    ipm = ipm_of f32 cur.freq cur.base;
  }

  -- The loop that fills the bins, from the item at index `i` on.
  unfoldable pub fill_bins : ℕ → ℕ → BinData → List BinData → List (FreqDistribItem Float)
  fill_bins per i cur [] = if slt64 0 cur.freq then bin_item cur ∷ [] else []
  fill_bins per i cur (item ∷ rest) = elim ((i + 1) % per == 0) [
    | true ↦ bin_item (grouped cur item) ∷ fill_bins per (i + 1) empty_bin rest
    | false ↦ fill_bins per (i + 1) (grouped cur item) rest
  ]

module _ (f32 f64 : Floats) where
  open f64 use {Float}

  -- What follows the z-scores.
  unfoldable pub bins_of : List Float → List BinData → List (FreqDistribItem f32.Float)
  unfolding max_zscore bd_num_zero_freq items_per_bin fill_bins
  bins_of scores dates =
      let z = max_zscore f64 (f64.of_int 0) scores in
      let per = items_per_bin f64 (length dates) (bd_num_zero_freq dates) z in
      fill_bins f32 per 0 empty_bin dates

  -- What follows the sorting of the dates.
  unfoldable pub binned : List BinData → ℕ → Outcome (List (FreqDistribItem f32.Float))
  unfolding bd_moving_zscores bins_of
  binned dates window_size = elim (bd_moving_zscores f64 dates window_size) [
    | panicked ↦ panicked
    | returned scores ↦ returned (bins_of scores dates)
  ]

module _ (f32 f64 : Floats) (sort : Sorter earlier) (to_int : String → Option ℕ) where
  open f32 use {Float}

  unfoldable pub bin_as_data_series :
      List (FreqDistribItem Float) → ℕ → Outcome (List (FreqDistribItem Float))
  unfolding to_dates binned
  bin_as_data_series flist window_size =
      if ltb (length flist) 5
      then returned flist
      else if leb window_size 1
      then panicked
      else elim (to_dates to_int flist) [
        | none ↦ returned flist
        | some dates ↦ binned f32 f64 (sort.run dates) window_size
      ]
