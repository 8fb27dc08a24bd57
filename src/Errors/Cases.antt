-- ===== src/Errors/Cases.antt =====
-- The two cases of a fallible result.
use mquery.Base.{◌≡◌, ◌⊎◌, refl, inl, inr}
use mquery.Errors.{GoError, Result, ok, err}

pub Result-cases {ℓ} :
    {A : Type ℓ} (r : Result A) → ((e : GoError) × (r ≡ err e)) ⊎ ((a : A) × (r ≡ ok a))
Result-cases (err e) = inl (e, refl)
Result-cases (ok a) = inr (a, refl)
