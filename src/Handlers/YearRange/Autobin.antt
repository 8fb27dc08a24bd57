-- ===== src/Handlers/YearRange/Autobin.antt =====
-- The automatic binning of a chunk.
use mquery.Base.{
  ℕ, ◌≤◌, ◌≡◌, ◌↔◌, true, List, [], ◌∷◌, some, inl, inr, arith, Bool-cases, Option-cases, length,
  All, ◌<◌,
}
use mquery.Base.Float.{Floats}
use mquery.Base.Sort.{Sorter}
use mquery.Base.Text.{String}
use mquery.Results.{FreqDistribItem}
use mquery.Results.Binning.{panicked, earlier}
use mquery.Results.Binning.Panics.{to_dates_total, bin_as_data_series-panics}
use mquery.Handlers.YearRange.{
  TimeLayout, datetime_to_int, keeps, filter_words, window_size, filter_chunk,
}

module _ (layout : TimeLayout) where
  open layout use {Time}

  keeps-parses :
      (from to : Time) (w : String)
      → keeps layout from to w ≡ true
      → (n : ℕ) × (datetime_to_int layout w ≡ some n)
  unfolding keeps datetime_to_int
  keeps-parses from to w h = elim (Option-cases (layout.parse w)) [
    | inl e ↦ ground arith
    | inr (t, e) ↦ (layout.unix t, ground arith)
  ]

  kept-parses :
      {F : Type 0} (from to : Time) (freqs : List (FreqDistribItem F))
      → All
          (λ (v : FreqDistribItem F). (n : ℕ) × (datetime_to_int layout v.word ≡ some n))
          (filter_words (keeps layout from to) freqs)
  unfolding filter_words
  kept-parses from to [] = tt
  kept-parses from to (v ∷ vs) = elim (Bool-cases (keeps layout from to v.word)) [
    | inr drop ↦ rw drop (kept-parses from to vs)
    | inl keep ↦ rw keep (keeps-parses from to v.word keep, kept-parses from to vs)
  ]

window_size_bounds :
    (n : ℕ) → (10 ≤ window_size n) × (n < window_size n → n ≤ 9) × (n ≤ 9 → window_size n ≡ 10)
unfolding window_size
window_size_bounds n = ground arith

module _ (f32 f64 : Floats) (sort : Sorter earlier) (layout : TimeLayout) where
  open f32 use {Float}
  open layout use {Time}

  -- With `autobin`, the goroutine that filters a chunk panics exactly when between five and nine
  -- items are left.
  pub filter_chunk-panics :
      (from to : Time) (freqs : List (FreqDistribItem Float))
      → (filter_chunk f32 f64 sort layout from to true freqs ≡ panicked) ↔ (
          (5 ≤ length (filter_words (keeps layout from to) freqs))
          × (length (filter_words (keeps layout from to) freqs) ≤ 9))
  unfolding filter_chunk
  filter_chunk-panics from to freqs =
      let kept = filter_words (keeps layout from to) freqs in
      let (dates, e) =
        to_dates_total (datetime_to_int layout) kept (kept-parses layout from to freqs) in
      let panics =
        bin_as_data_series-panics f32 f64 sort (datetime_to_int layout) kept
          (window_size (length kept)) dates e in
      let w = window_size_bounds (length kept) in
      (λ h. omega (arith, panics.0 h), λ h. panics.1 (h.0, inr (omega (arith, w.0))))
