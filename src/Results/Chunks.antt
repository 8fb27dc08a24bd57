-- ===== src/Results/Chunks.antt =====
-- The chunks of a split corpus answer in any order; the merged counts do not depend on it.
use native.Mathlib.Nat.{ℕ_set}
use mathlib.Core.List.{Perm, Permᴰ}
use mathlib.Core.Logic.{∥∥₁_elim}
use mquery.Base.{ℕ, ◌<◌, ◌≡◌, refl, sym, ◌∙◌, ap, ap₂, List, [], ◌∷◌}
use mquery.Base.Word.{add64, add64-lt, add64-zero, add64_comm, add64_assoc, word_mod}
use mquery.Base.Float.{Floats}
use mquery.Base.Text.{String}
use mquery.Results.{FreqDistrib, merge_with, merge_all}
use mquery.Results.Merge.{freq_of, freq_of-lt, freq_of-merge_with}

module _ {ℓ} {A : Type ℓ} (f : A → ℕ) where
  -- The int64 sum of `f` over a list.
  pub total64 : List A → ℕ
  total64 [] = 0
  total64 (x ∷ xs) = add64 (f x) (total64 xs)

  add64_left_comm : (a b c : ℕ) → add64 a (add64 b c) ≡ add64 b (add64 a c)
  add64_left_comm a b c =
      sym (add64_assoc a b c) ∙ ap (λ t. add64 t c) (add64_comm a b) ∙ add64_assoc b a c

  total64-perm_data : {xs ys : List A} → Permᴰ xs ys → total64 xs ≡ total64 ys
  unfolding total64
  total64-perm_data Permᴰ.nil = refl
  total64-perm_data (Permᴰ.cons e p) = ap₂ add64 (ap f e) (total64-perm_data p)
  total64-perm_data (Permᴰ.swap {a = a} {b = b} {l = l} e d) =
      rw (sym e, sym d) (add64_left_comm (f a) (f b) (total64 l))
  total64-perm_data (Permᴰ.trans p q) = total64-perm_data p ∙ total64-perm_data q

  pub total64-perm : {xs ys : List A} → Perm xs ys → total64 xs ≡ total64 ys
  total64-perm {xs} {ys} p = ∥∥₁_elim p (ℕ_set (total64 xs) (total64 ys)) total64-perm_data

module _ (f32 : Floats) where
  open f32 use {Float}

  freq_of-merge_all :
      (k : String) (res : FreqDistrib Float) (rs : List (FreqDistrib Float))
      → freq_of k (merge_all f32 res rs).freqs
        ≡ add64 (freq_of k res.freqs) (total64 (λ (r : FreqDistrib Float). freq_of k r.freqs) rs)
  unfolding merge_all total64
  freq_of-merge_all k res [] = sym (add64-zero (freq_of k res.freqs) (freq_of-lt k res.freqs))
  freq_of-merge_all k res (r ∷ rs) =
      freq_of-merge_all k (merge_with f32 res r) rs
      ∙ rw (freq_of-merge_with f32 k res r)
          (add64_assoc (freq_of k res.freqs) (freq_of k r.freqs) _)

  conc_size-merge_all :
      (res : FreqDistrib Float) (rs : List (FreqDistrib Float))
      → res.conc_size < word_mod
      → (merge_all f32 res rs).conc_size
        ≡ add64 res.conc_size (total64 (λ (r : FreqDistrib Float). r.conc_size) rs)
  unfolding merge_all merge_with total64
  conc_size-merge_all res [] h = sym (add64-zero res.conc_size h)
  conc_size-merge_all res (r ∷ rs) h =
      conc_size-merge_all (merge_with f32 res r) rs (add64-lt res.conc_size r.conc_size)
      ∙ add64_assoc res.conc_size r.conc_size _

  -- Whatever the order in which the chunks answer, the merged distribution has the same frequency
  -- of every word and the same concordance size, if that of the initial distribution is an int64.
  pub merge_all-perm :
      (res : FreqDistrib Float) (rs ss : List (FreqDistrib Float))
      → res.conc_size < word_mod
      → Perm rs ss
      → ((k : String)
          → freq_of k (merge_all f32 res rs).freqs ≡ freq_of k (merge_all f32 res ss).freqs)
        × ((merge_all f32 res rs).conc_size ≡ (merge_all f32 res ss).conc_size)
  merge_all-perm res rs ss h p = (
    λ k.
        freq_of-merge_all k res rs
        ∙ ap (add64 (freq_of k res.freqs))
            (total64-perm (λ (r : FreqDistrib Float). freq_of k r.freqs) p)
        ∙ sym (freq_of-merge_all k res ss),
    conc_size-merge_all res rs h
        ∙ ap (add64 res.conc_size) (total64-perm (λ (r : FreqDistrib Float). r.conc_size) p)
        ∙ sym (conc_size-merge_all res ss h),
  )
