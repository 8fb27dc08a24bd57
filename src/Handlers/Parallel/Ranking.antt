-- ===== src/Handlers/Parallel/Ranking.antt =====
-- The items that `FreqDistribParallel` responds with.
use mquery.Base.{
  ℕ, zero, suc, ◌≡◌, refl, subst, List, length, take-length, arith, ltb, Bool-cases, inl, inr,
}
use mquery.Base.Int.{ℤ, pos, negsuc}
use mquery.Base.Float.{Floats}
use mquery.Base.Sort.{slice_stable, stable_sorter, slice_stable-perm}
use mquery.Base.Total.{length-perm}
use mquery.Results.{FreqDistribItem, FreqDistrib, cut}
use mquery.Worker.FreqResult.{more_frequent}
use mquery.Worker.FreqResult.Top.{IsTop, take-IsTop}
use mquery.Handlers.Parallel.{
  Response, response, handler_panicked, cut_items, max_freq_result_items, ranked,
}

module _ (f32 : Floats) where
  open f32 use {Float}

  -- A limit of 0 stands for the default.
  abbrev pub limit_of : ℕ → ℕ
  limit_of zero = max_freq_result_items
  limit_of (suc n) = suc n

  cut-IsTop :
      (n : ℕ) (items : List (FreqDistribItem Float))
      → IsTop f32 (stable_sorter more_frequent) n items (cut (slice_stable more_frequent items) n)
  unfolding cut
  cut-IsTop n items =
      let ranked_items = slice_stable more_frequent items in
      let size = length-perm (slice_stable-perm more_frequent items) in
      let top = λ (k : ℕ). take-IsTop f32 (stable_sorter more_frequent) n k items in
      elim (Bool-cases (ltb n (length ranked_items))) [
        | inl e ↦ rw (e, cut) (top n (ground (arith, e, size)))
        | inr e ↦
            let whole = top (length ranked_items) (ground (arith, e, size)) in
            rw (e, cut)
              (subst (λ t. IsTop f32 (stable_sorter more_frequent) n items t)
                (take-length ranked_items) whole)
      ]

  -- What the response to a request is.
  abbrev pub IsRanked : ℤ → FreqDistrib Float → Response (FreqDistrib Float) → Type 0
  IsRanked (negsuc n) result r = r ≡ handler_panicked
  IsRanked (pos n) result r =
      (items : List (FreqDistribItem Float)) × (r ≡ response (record result { freqs = items }))
      × IsTop f32 (stable_sorter more_frequent) (limit_of n) result.freqs items

  -- For a limit that is not negative the handler responds, with the merged result and the top of its
  -- items: the most frequent ones in descending order, as many as the limit, or 20 for a limit of 0.
  -- For a negative limit it panics.
  pub ranked-IsTop :
      (max_items : ℤ) (result : FreqDistrib Float)
      → IsRanked max_items result (ranked f32 max_items result)
  unfolding ranked cut_items
  ranked-IsTop (negsuc n) result = refl
  ranked-IsTop (pos zero) result = (_, refl, cut-IsTop max_freq_result_items result.freqs)
  ranked-IsTop (pos (suc n)) result = (_, refl, cut-IsTop (suc n) result.freqs)
