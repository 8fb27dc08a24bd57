-- ===== src/Base/Sort.antt =====
-- Sorting of Go's standard library. `slices.SortFunc` and `sort.Slice` promise a permutation in
-- order and say nothing of equal elements, so they are a parameter with that promise; an insertion
-- sort, which is what `sort.SliceStable` returns, meets it.
use mathlib.Core.Path.{◌≡◌}
use mathlib.Core.Bool.{Bool, true, false}
use mathlib.Core.Logic.{inl, inr}
use mathlib.Core.List.{List, [], ◌∷◌, Perm}
use mathlib.Core.List.Perm
use native.Mathlib.Omega.{arith}
use mquery.Base.Tests.{if◌then◌else◌, Bool-cases}

module _ {ℓ} {A : Type ℓ} (less : A → A → Bool) where
  -- No element is less than the one before it.
  abbrev pub IsOrdered : List A → Type 0
  IsOrdered [] = Unit
  IsOrdered (x ∷ []) = Unit
  IsOrdered (x ∷ y ∷ ys) = (less y x ≡ false) × IsOrdered (y ∷ ys)

  unfoldable pub insert_sorted : A → List A → List A
  insert_sorted x [] = x ∷ []
  insert_sorted x (y ∷ ys) =
      let rest = insert_sorted x ys in if less y x then y ∷ rest else x ∷ y ∷ ys

  -- sort.SliceStable: equal elements keep their order.
  unfoldable pub slice_stable : List A → List A
  unfolding insert_sorted
  slice_stable [] = []
  slice_stable (x ∷ xs) = insert_sorted x (slice_stable xs)

  pub insert_sorted-perm : (x : A) (ys : List A) → Perm (insert_sorted x ys) (x ∷ ys)
  unfolding insert_sorted
  insert_sorted-perm x [] = Perm.refl (x ∷ [])
  insert_sorted-perm x (y ∷ ys) =
      let rest = Perm.trans (Perm.cons y (insert_sorted-perm x ys)) (Perm.swap x y ys) in
      ground (arith, rest, Perm.refl (x ∷ y ∷ ys))

  pub slice_stable-perm : (xs : List A) → Perm (slice_stable xs) xs
  unfolding slice_stable
  slice_stable-perm [] = Perm.refl []
  slice_stable-perm (x ∷ xs) =
      Perm.trans (insert_sorted-perm x (slice_stable xs)) (Perm.cons x (slice_stable-perm xs))

-- What Go asks of an order: it is asymmetric, and to be not less is transitive.
pub record IsStrictWeak {ℓ} {A : Type ℓ} (less : A → A → Bool) : Type ℓ where
  pub asym : (x y : A) → less x y ≡ true → less y x ≡ false
  pub not_less_trans : (x y z : A) → less x y ≡ false → less y z ≡ false → less x z ≡ false

-- What an unstable sort by `less` promises: a permutation, and in order if `less` is one.
pub record Sorter {ℓ} {A : Type ℓ} (less : A → A → Bool) : Type ℓ where
  pub run : List A → List A
  pub run-perm : (xs : List A) → Perm (run xs) xs
  pub run-IsOrdered : IsStrictWeak less → (xs : List A) → IsOrdered less (run xs)

module _ {ℓ} {A : Type ℓ} (less : A → A → Bool) (strict : IsStrictWeak less) where
  insert_sorted-IsOrdered :
      (x : A) (ys : List A) → IsOrdered less ys → IsOrdered less (insert_sorted less x ys)
  unfolding insert_sorted
  insert_sorted-IsOrdered x [] h = tt
  insert_sorted-IsOrdered x (y ∷ []) h = elim (Bool-cases (less y x)) [
    | inl e ↦ rw e (strict.asym y x e, tt)
    | inr e ↦ rw e (e, tt)
  ]
  insert_sorted-IsOrdered x (y ∷ z ∷ ys) h = elim (Bool-cases (less y x)) [
    | inr e ↦ rw e (e, h)
    | inl e ↦
        let rest = insert_sorted-IsOrdered x (z ∷ ys) h.1 in
        elim (Bool-cases (less z x)) [
          | inl d ↦ rw e (rw d (h.0, rw d at rest))
          | inr d ↦ rw e (rw d (strict.asym y x e, rw d at rest))
        ]
  ]

  pub slice_stable-IsOrdered : (xs : List A) → IsOrdered less (slice_stable less xs)
  unfolding slice_stable
  slice_stable-IsOrdered [] = tt
  slice_stable-IsOrdered (x ∷ xs) =
      insert_sorted-IsOrdered x (slice_stable less xs) (slice_stable-IsOrdered xs)

-- The insertion sort keeps that promise.
abbrev pub stable_sorter {ℓ} : {A : Type ℓ} (less : A → A → Bool) → Sorter less
stable_sorter less = record {
  run = slice_stable less;
  run-perm = slice_stable-perm less;
  run-IsOrdered = slice_stable-IsOrdered less;
}
