-- ===== src/Edit/Split/Cover.antt =====
-- The chunks of `SplitCorpus` cover the corpus.
use mquery.Base.{
  none, ℕ, zero, suc, ◌+◌, ◌-◌, ◌*◌, ◌/◌, ◌<◌, ◌≤◌, ◌≡◌, refl, sym, ◌∙◌, subst, List, [], ◌∷◌, ◌++◌,
  Option, arith, min, inl, inr, Option-cases,
}
use mquery.Base.Int.{ℤ, pos}
use mquery.Base.Text.{String}
use mquery.Errors.{GoError}
use mquery.Edit.Split.{Chunk, split, chunk_at, write_chunks, num_chunks, split_corpus}

-- The chunks lie one after the other from `a` to `b`, none is empty and none is longer than `c`.
abbrev pub Covers : ℕ → ℕ → ℕ → List Chunk → Type 0
Covers c a b [] = a ≡ b
Covers c a b (k ∷ ks) =
    (k.from_idx ≡ a)
    × (k.from_idx < k.to_idx)
    × (k.to_idx ≤ k.from_idx + c)
    × Covers c k.to_idx b ks

Covers-append :
    (c a b : ℕ) (ks : List Chunk) (k : Chunk)
    → Covers c a b ks
    → k.from_idx ≡ b
    → k.from_idx < k.to_idx
    → k.to_idx ≤ k.from_idx + c
    → Covers c a k.to_idx (ks ++ k ∷ [])
Covers-append c a b [] k h e p q = (e ∙ sym h, p, q, refl)
Covers-append c a b (x ∷ ks) k h e p q = (h.0, h.1, h.2, Covers-append c x.to_idx b ks k h.3 e p q)

module _ (path_of : ℕ → String) (write : String → List ℕ → Option GoError) where
  -- With `n` rounds left at index `i`, the rounds just reach the size.
  write_chunks-Covers :
      (n i size c b : ℕ) (done out : List Chunk)
      → 0 < c
      → size ≤ (i + n) * c
      → (i + n) * c < size + c
      → b ≡ min (i * c) size
      → Covers c 0 b done
      → write_chunks path_of write n i size c done ≡ split out
      → Covers c 0 size out
  unfolding write_chunks
  write_chunks-Covers zero i size c b done out hc lo hi at h e =
      let all : b ≡ size = omega arith in
      subst (λ t. Covers c 0 size t) (cc) (subst (λ t. Covers c 0 t done) all h)
  write_chunks-Covers (suc n) i size c b done out hc lo hi at h e =
      elim (Option-cases (write (path_of i) (chunk_at path_of write size c i).content)) [
        | inr (x, p) ↦ absurd (ground arith)
        | inl p ↦
            let k = chunk_at path_of write size c i in
            write_chunks-Covers n (i + 1) size c k.to_idx (done ++ k ∷ []) out hc (omega arith)
              (omega arith) refl
              (Covers-append c 0 b done k h (omega arith) (omega arith) (omega arith))
              (ground arith)
      ]

  split_corpus-covered :
      (nonfinite : ℤ) (size c : ℕ) (out : List Chunk)
      → 0 < c
      → split_corpus path_of write nonfinite none size (pos c) ≡ split out
      → Covers c 0 size out
  unfolding split_corpus
  split_corpus-covered nonfinite size c out hc e =
      let n = (size + c - 1) / c in
      write_chunks-Covers n 0 size c 0 [] out hc (grind arith) (grind arith) (omega arith) refl
        (ground arith)

  write_chunks-split :
      ((path : String) (bytes : List ℕ) → write path bytes ≡ none)
      → (n i size c : ℕ) (done : List Chunk)
      → (out : List Chunk) × (write_chunks path_of write n i size c done ≡ split out)
  unfolding write_chunks
  write_chunks-split w zero i size c done = (done, refl)
  write_chunks-split w (suc n) i size c done =
      let k = chunk_at path_of write size c i in
      rw (w k.path k.content, write_chunks) (write_chunks-split w n (i + 1) size c (done ++ k ∷ []))

  -- If the files can be written, a corpus is split for every positive chunk size for which there are
  -- at most 200 chunks. The chunks cover it from its first token to its last, are not empty, not
  -- longer than the chunk size, and do not overlap.
  pub split_corpus-Covers :
      (nonfinite : ℤ) (size c : ℕ)
      → ((path : String) (bytes : List ℕ) → write path bytes ≡ none)
      → 0 < c
      → (size + c - 1) / c ≤ 200
      → (out : List Chunk) × (split_corpus path_of write nonfinite none size (pos c) ≡ split out)
        × Covers c 0 size out
  unfolding split_corpus num_chunks
  split_corpus-Covers nonfinite size c w hc few =
      let (out, e) = write_chunks-split w ((size + c - 1) / c) 0 size c [] in
      let same : split_corpus path_of write nonfinite none size (pos c) ≡ split out =
        ground (arith, e) in
      (out, same, split_corpus-covered nonfinite size c out hc same)
