-- ===== src/Handlers/Parallel/Waiting.antt =====
-- When `FreqDistribParallel` never responds.
use mquery.Base.{
  ℕ, zero, suc, ◌+◌, ◌≡◌, refl, ◌≢◌, ◌↔◌, ◌<◌, ◌≤◌, Bool, false, List, [], ◌∷◌, ◌⊎◌, inl, inr,
  Bool-cases, arith, Option, some, length, if◌then◌else◌,
}
use mquery.Base.Int.{ℤ}
use mquery.Base.Float.{Floats}
use mquery.Results.{FreqDistrib}
use mquery.Rdb.Query.{FreqDistribArgs}
use mquery.Handlers.Parallel.{
  Group, new_group, Turn, publishing, merging, publish_chunk, end_chunk, run_turns, waited,
  run_chunks, pending, waits_forever, ranked, cut_items,
}

module _ (publishes : FreqDistribArgs → Bool) where
  -- Some query of the list cannot be published.
  abbrev pub IsCut : List FreqDistribArgs → Type 0
  IsCut [] = ⊥
  IsCut (a ∷ rest) = (publishes a ≡ false) ⊎ IsCut rest

  -- How many queries of the list cannot be published.
  unfoldable unpublished : List FreqDistribArgs → ℕ
  unpublished [] = 0
  unpublished (a ∷ rest_args) =
      let rest = unpublished rest_args in if publishes a then rest else suc rest

  unpublished_pos : (queries : List FreqDistribArgs) → (0 < unpublished queries) ↔ IsCut queries
  unfolding unpublished
  unpublished_pos [] = ground arith
  unpublished_pos (a ∷ rest) = elim (Bool-cases (publishes a)) [
    | inl e ↦ ground (arith, unpublished_pos rest)
    | inr e ↦ (λ h. inl e, λ h. ground arith)
  ]

  unpublished-length : (queries : List FreqDistribArgs) → unpublished queries ≤ length queries
  unfolding unpublished
  unpublished-length [] = omega arith
  unpublished-length (a ∷ rest) = ground (arith, unpublished-length rest)

module _ (f32 : Floats) (publishes : FreqDistribArgs → Bool) where
  open f32 use {Float}

  abbrev group : List FreqDistribArgs → ℕ → ℕ → FreqDistrib Float → Group f32
  group todo counter goroutines result = record {
    todo = todo;
    counter = counter;
    goroutines = goroutines;
    result = result;
  }

  -- The counter counts the queries that are still to be published, the goroutines that have not
  -- ended, and those of `lost` queries that were skipped.
  abbrev Counts : ℕ → Group f32 → Type 0
  Counts lost g = (g.counter + unpublished publishes g.todo ≡ length g.todo + g.goroutines + lost)

  publish_chunk-Counts :
      (lost : ℕ) (todo : List FreqDistribArgs) (counter goroutines : ℕ) (result : FreqDistrib Float)
      → Counts lost (group todo counter goroutines result)
      → Counts lost (publish_chunk f32 publishes (group todo counter goroutines result))
  unfolding publish_chunk unpublished
  publish_chunk-Counts lost [] counter goroutines result h = h
  publish_chunk-Counts lost (a ∷ rest) counter goroutines result h = ground (arith, h)

  -- No goroutine ends with a counter of 0.
  end_chunk-Counts :
      (lost : ℕ) (next : Option (FreqDistrib Float)) (todo : List FreqDistribArgs)
      (counter goroutines : ℕ) (result : FreqDistrib Float)
      → Counts lost (group todo counter goroutines result)
      → (u : Group f32) × (end_chunk f32 next (group todo counter goroutines result) ≡ some u)
        × Counts lost u
  unfolding end_chunk
  end_chunk-Counts lost next todo counter zero result h = (_, refl, h)
  end_chunk-Counts lost next todo zero (suc n) result h =
      absurd (ground (arith, h, unpublished-length publishes todo))
  end_chunk-Counts lost next todo (suc c) (suc n) result h = (_, refl, ground (arith, h))

  run_turns-Counts :
      (lost : ℕ) (turns : List (Turn f32)) (g : Group f32)
      → Counts lost g
      → (u : Group f32) × (run_turns f32 publishes turns g ≡ some u) × Counts lost u
  unfolding run_turns
  run_turns-Counts lost [] g h = (g, refl, h)
  run_turns-Counts lost (publishing ∷ rest) g h =
      run_turns-Counts lost rest (publish_chunk f32 publishes g)
        (publish_chunk-Counts lost g.todo g.counter g.goroutines g.result h)
  run_turns-Counts lost (merging next ∷ rest) g h =
      let (u, e, here) = end_chunk-Counts lost next g.todo g.counter g.goroutines g.result h in
      rw (e, run_turns) (run_turns-Counts lost rest u here)

  -- The loop has ended and every goroutine, too.
  abbrev pub IsAtRest : Group f32 → Type 0
  IsAtRest g = (g.todo ≡ []) × (g.goroutines ≡ 0)

  ranked-responds :
      (max_items : ℤ) (result : FreqDistrib Float) → ranked f32 max_items result ≢ waits_forever
  unfolding ranked cut_items
  ranked-responds max_items result h = ground arith

  ranked-ends : (max_items : ℤ) (result : FreqDistrib Float) → ranked f32 max_items result ≢ pending
  unfolding ranked cut_items
  ranked-ends max_items result h = ground arith

  waited-pending :
      (max_items : ℤ) (lost : ℕ) (todo : List FreqDistribArgs) (counter goroutines : ℕ)
      (result : FreqDistrib Float)
      → Counts lost (group todo counter goroutines result)
      → (waited f32 max_items (group todo counter goroutines result) ≡ pending)
        ↔ ¬ (IsAtRest (group todo counter goroutines result))
  unfolding waited unpublished
  waited-pending max_items lost (a ∷ rest) counter goroutines result h = ground arith
  waited-pending max_items lost [] zero zero result h =
      (λ w. absurd (ranked-ends max_items result w), λ r. absurd (r (refl, refl)))
  waited-pending max_items lost [] zero (suc n) result h = absurd (ground (arith, h))
  waited-pending max_items lost [] (suc c) zero result h = ground arith
  waited-pending max_items lost [] (suc c) (suc n) result h = ground arith

  waited-IsCut :
      (max_items : ℤ) (queries todo : List FreqDistribArgs) (counter goroutines : ℕ)
      (result : FreqDistrib Float)
      → Counts (unpublished publishes queries) (group todo counter goroutines result)
      → (waited f32 max_items (group todo counter goroutines result) ≡ waits_forever)
        ↔ (IsAtRest (group todo counter goroutines result) × IsCut publishes queries)
  unfolding waited unpublished
  waited-IsCut max_items queries (a ∷ rest) counter goroutines result h = ground arith
  waited-IsCut max_items queries [] zero goroutines result h =
      let counted = unpublished_pos publishes queries in
      let responds = ranked-responds max_items result in
      (λ w. absurd (responds w), λ r. absurd (ground (arith, h, counted.1 r.1)))
  waited-IsCut max_items queries [] (suc c) zero result h =
      let counted = unpublished_pos publishes queries in
      (λ w. ((refl, refl), counted.0 (ground (arith, h))), λ r. refl)
  waited-IsCut max_items queries [] (suc c) (suc n) result h = ground arith

  -- Whatever turns the loop and the goroutines have taken, in any order and with any results, no
  -- `wg.Done()` has panicked; the outcome of the handler is open exactly as long as the loop or some
  -- goroutine has not ended; and the handler waits forever exactly if they have all ended and the
  -- query of some chunk could not be published.
  pub run_chunks-waits :
      (queries : List FreqDistribArgs) (turns : List (Turn f32)) (max_items : ℤ)
      → (g : Group f32) × (run_turns f32 publishes turns (new_group f32 queries) ≡ some g)
        × ((run_chunks f32 publishes queries turns max_items ≡ pending) ↔ ¬ (IsAtRest g))
        × ((run_chunks f32 publishes queries turns max_items ≡ waits_forever)
            ↔ (IsAtRest g × IsCut publishes queries))
  unfolding run_chunks
  run_chunks-waits queries turns max_items =
      let lost = unpublished publishes queries in
      let (g, e, h) = run_turns-Counts lost turns (new_group f32 queries) (omega arith) in
      let here = waited-IsCut max_items queries g.todo g.counter g.goroutines g.result h in
      let ends = waited-pending max_items lost g.todo g.counter g.goroutines g.result h in
      (g, e, rw (e, run_chunks) ends, rw (e, run_chunks) here)
