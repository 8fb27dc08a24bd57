-- ===== src/Base/Total.antt =====
-- Sums over a list, which forget its order.
use Prim.Native.Nat.{ℕ, ◌+◌}
use native.Mathlib.Nat.{ℕ_set}
use mathlib.Core.List.{List, [], ◌∷◌, ◌++◌, Perm, Permᴰ}
use mathlib.Core.Logic.{∥∥₁_elim}
use mathlib.Core.Path.{◌≡◌, refl, sym, ◌∙◌, ap, ap₂}
use native.Mathlib.Omega.{arith}
use mquery.Base.Lists.{length}

module _ {ℓ} {A : Type ℓ} (f : A → ℕ) where
  abbrev pub total : List A → ℕ
  total [] = 0
  total (x ∷ xs) = f x + total xs

  total-perm_data : {xs ys : List A} → Permᴰ xs ys → total xs ≡ total ys
  total-perm_data Permᴰ.nil = refl
  total-perm_data (Permᴰ.cons e p) = ap₂ ◌+◌ (ap f e) (total-perm_data p)
  total-perm_data (Permᴰ.swap {a = a} {b = b} {l = l} e d) = rw (sym e, sym d) (omega arith)
  total-perm_data (Permᴰ.trans p q) = total-perm_data p ∙ total-perm_data q

  pub total-perm : {xs ys : List A} → Perm xs ys → total xs ≡ total ys
  total-perm {xs} {ys} p = ∥∥₁_elim p (ℕ_set (total xs) (total ys)) total-perm_data

  pub total-append : (xs ys : List A) → total (xs ++ ys) ≡ total xs + total ys
  total-append [] ys = omega arith
  total-append (x ∷ xs) ys = omega (arith, total-append xs ys)

module _ {ℓ} {A : Type ℓ} where
  total-one : (xs : List A) → total (λ _. 1) xs ≡ length xs
  total-one [] = refl
  total-one (x ∷ xs) = omega (arith, total-one xs)

  pub length-perm : {xs ys : List A} → Perm xs ys → length xs ≡ length ys
  length-perm {xs} {ys} p = sym (total-one xs) ∙ total-perm (λ _. 1) p ∙ total-one ys
