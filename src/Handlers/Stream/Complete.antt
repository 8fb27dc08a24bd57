-- ===== src/Handlers/Stream/Complete.antt =====
-- What the last merge of a stream leaves to its message.
use mquery.Base.{
  ℕ, zero, suc, ◌+◌, ◌≤◌, ◌≡◌, refl, ap, ap₂, ◌∙◌, List, [], ◌∷◌, ◌++◌, map, length, length-append,
  take, take-length, All, arith,
}
use mquery.Base.Float.{Floats}
use mquery.Base.Sort.{insert_sorted, slice_stable}
use mquery.Results.{FreqDistrib, merge_all}
use mquery.Results.Steps.{all_steps, merge_steps, run_steps-all_steps}
use mquery.Handlers.Parallel.{empty_distrib}
use mquery.Handlers.Stream.{
  ChunkOutcome, chunk_answer, Moments, chunk_answers, merged_before, merge_order, chunk_results,
  steps_until, snapshot, result_at, with_items_of, shared_copy, chunk_message, stream_calc,
}

take-all {ℓ} : {A : Type ℓ} (n : ℕ) (xs : List A) → length xs ≤ n → take n xs ≡ xs
take-all zero [] h = refl
take-all (suc n) [] h = refl
take-all zero (x ∷ xs) h = ground (arith, h)
take-all (suc n) (x ∷ xs) h = ap (λ ys. x ∷ ys) (take-all n xs (omega (arith, h)))

module _ {F : Type 0} (place : ℕ) where
  -- No merge comes after the one at `place`.
  abbrev pub IsLastMerge : List (ℕ × FreqDistrib F) → Type 0
  IsLastMerge merges = All (λ a. a.0 ≤ place) merges

  insert_sorted-IsLastMerge :
      (x : ℕ × FreqDistrib F) (ys : List (ℕ × FreqDistrib F))
      → x.0 ≤ place
      → IsLastMerge ys
      → IsLastMerge (insert_sorted merged_before x ys)
  unfolding insert_sorted
  insert_sorted-IsLastMerge x [] p h = (p, tt)
  insert_sorted-IsLastMerge x (y ∷ ys) p h =
      ground (arith, p, h, insert_sorted-IsLastMerge x ys p h.1)

  slice_stable-IsLastMerge :
      (xs : List (ℕ × FreqDistrib F)) → IsLastMerge xs → IsLastMerge (slice_stable merged_before xs)
  unfolding slice_stable
  slice_stable-IsLastMerge [] h = tt
  slice_stable-IsLastMerge (x ∷ xs) h =
      insert_sorted-IsLastMerge x (slice_stable merged_before xs) h.0
        (slice_stable-IsLastMerge xs h.1)

  steps_until-length :
      (merges : List (ℕ × FreqDistrib F))
      → IsLastMerge merges
      → length (all_steps (chunk_results merges)) ≤ steps_until place merges
  unfolding steps_until
  steps_until-length [] h = omega arith
  steps_until-length ((k, next) ∷ rest) h =
      let others = steps_until-length rest h.1 in
      let joined = length-append (merge_steps next) (all_steps (chunk_results rest)) in
      ground (arith, others, joined, h.0)

module _ (f32 : Floats) where
  open f32 use {Float}

  result_at-end :
      (merges : List (ℕ × FreqDistrib Float)) (n : ℕ)
      → length (all_steps (chunk_results merges)) ≤ n
      → result_at f32 merges n ≡ merge_all f32 (empty_distrib f32) (chunk_results merges)
  result_at-end merges n h =
      rw (take-all n (all_steps (chunk_results merges)) h)
        (run_steps-all_steps f32 (empty_distrib f32) (chunk_results merges))

  shared_copy_complete :
      (merges : List (ℕ × FreqDistrib Float)) (m : Moments)
      → IsLastMerge m.merged merges
      → shared_copy f32 merges m ≡ merge_all f32 (empty_distrib f32) (chunk_results merges)
  unfolding shared_copy
  shared_copy_complete merges m h =
      let copied = steps_until m.merged merges + m.copied in
      let all = merge_all f32 (empty_distrib f32) (chunk_results merges) in
      let enough = steps_until-length m.merged merges h in
      ap₂ (with_items_of f32) (result_at-end merges copied (omega (arith, enough)))
        (result_at-end merges (copied + m.encoded) (omega (arith, enough)))
      ∙ ap (λ vs. record all { freqs = vs }) (take-length all.freqs)

  map-append {ℓ κ} :
      {A : Type ℓ} {B : Type κ} (f : A → B) (xs ys : List A)
      → map f (xs ++ ys) ≡ map f xs ++ map f ys
  map-append f [] ys = refl
  map-append f (x ∷ xs) ys = ap (λ zs. f x ∷ zs) (map-append f xs ys)

  -- If no answer of a stream is merged after that of a chunk, then the message of this chunk holds the
  -- merge of all the answers in the order of their merges, whenever it is copied and encoded, and
  -- stands between the messages of the outcomes before and after it, with its number and its error.
  pub stream_calc_complete :
      (before after : List (ℕ × ChunkOutcome Float)) (i : ℕ) (next : FreqDistrib Float)
      (m : Moments)
      → IsLastMerge m.merged (chunk_answers (before ++ (i, chunk_answer next m) ∷ after))
      → let arrivals = before ++ (i, chunk_answer next m) ∷ after in
        let message = chunk_message f32 (length arrivals) (merge_order arrivals) in
        let merged = merge_all f32 (empty_distrib f32) (chunk_results (merge_order arrivals)) in
        stream_calc f32 arrivals
        ≡ map message before
          ++ snapshot f32 (length arrivals) i merged next.error ∷ map message after
  unfolding stream_calc chunk_message
  stream_calc_complete before after i next m last =
      let arrivals = before ++ (i, chunk_answer next m) ∷ after in
      let message = chunk_message f32 (length arrivals) (merge_order arrivals) in
      let all =
        shared_copy_complete (merge_order arrivals) m
          (slice_stable-IsLastMerge m.merged (chunk_answers arrivals) last) in
      map-append message before ((i, chunk_answer next m) ∷ after)
      ∙ ap
          (λ r.
            map message before ++ snapshot f32 (length arrivals) i r next.error ∷ map message after)
          all
