-- ===== src/Worker/FreqResult/Norms.antt =====
-- The values of a text type: which of them `CompileFreqResult` lists, and with which base.
use mquery.Base.{
  ℕ, ◌≡◌, refl, subst, true, false, List, [], ◌∷◌, ◌++◌, none, some, inl, inr, arith, All,
  All-append, Bool-cases, Option-cases, if◌then◌else◌,
}
use mquery.Base.Word.{slt64}
use mquery.Base.Float.{Floats}
use mquery.Base.Text.{String, str_eq_iff}
use mquery.Results.{FreqDistribItem}
use mquery.Worker.FreqResult.{
  Norms, get_norm, is_text_types, compiled, freq_item, zero_item, keep_positive, matched_items,
  is_present, absent_items,
}

-- The keys of a map are distinct.
abbrev pub IsMap : Norms → Type 0
IsMap [] = Unit
IsMap ((k, n) ∷ rest) = (get_norm k rest ≡ none) × IsMap rest

module _ (f32 : Floats) where
  open f32 use {Float}

  is_present-append :
      (k : String) (xs ys : List (FreqDistribItem Float))
      → is_present f32 (xs ++ ys) k ≡ (if is_present f32 xs k then true else is_present f32 ys k)
  unfolding is_present
  is_present-append k [] ys = refl
  is_present-append k (x ∷ xs) ys = ground (arith, is_present-append k xs ys)

  absent-present :
      (k : String) (n : ℕ) (present : List (FreqDistribItem Float)) (norms : Norms)
      → get_norm k norms ≡ some n
      → is_present f32 present k ≡ false
      → is_present f32 (absent_items f32 present norms) k ≡ true
  unfolding absent_items get_norm
  absent-present k n present [] h p = cc
  absent-present k n present ((j, m) ∷ rest) h p =
      ground (arith, absent-present k n present rest, str_eq_iff j k)

  -- Every value that has a norm is listed: with its matches, or else with frequency 0.
  pub norms-is_present :
      (k : String) (n : ℕ) (ans : List (FreqDistribItem Float)) (norms : Norms)
      → get_norm k norms ≡ some n
      → is_present f32 (ans ++ absent_items f32 ans norms) k ≡ true
  norms-is_present k n ans norms h =
      ground (
        arith,
        is_present-append k ans (absent_items f32 ans norms),
        absent-present k n ans norms h,
      )

  module _ (P : FreqDistribItem Float → Type 0) where
    absent_items-All :
        (present : List (FreqDistribItem Float)) (norms : Norms)
        → ((k : String) (n : ℕ) → get_norm k norms ≡ some n → P (zero_item f32 k n))
        → IsMap norms
        → All P (absent_items f32 present norms)
    unfolding absent_items get_norm
    absent_items-All present [] base m = tt
    absent_items-All present ((k, n) ∷ rest) base m =
        let tail =
          absent_items-All present rest (λ k' n' e. base k' n' (ground (arith, str_eq_iff k k')))
            m.1 in
        elim (Bool-cases (is_present f32 present k)) [
          | inl e ↦ rw e tail
          | inr e ↦ rw e (base k n (ground (arith, str_eq_iff k k)), tail)
        ]

    keep_positive-All :
        (w : String) (f n : ℕ) (ans : List (FreqDistribItem Float))
        → P (freq_item f32 w f n)
        → All P ans
        → All P (keep_positive f32 w f n ans)
    keep_positive-All w f n ans p h = elim (Bool-cases (slt64 0 n)) [
      | inl e ↦ rw e (All-append P ans (freq_item f32 w f n ∷ []) h (p, tt))
      | inr e ↦ rw e h
    ]

    matched_items-All :
        (norms : Norms) (size : ℕ) (ans out : List (FreqDistribItem Float)) (fs : List ℕ)
        (ws : List String)
        → is_text_types norms ≡ true
        → ((w : String) (f n : ℕ) → get_norm w norms ≡ some n → P (freq_item f32 w f n))
        → All P ans
        → matched_items f32 norms size ans fs ws ≡ compiled out
        → All P out
    unfolding matched_items
    matched_items-All norms size ans out [] ws t base h e = subst (All P) (cc) h
    matched_items-All norms size ans out (f ∷ fs) [] t base h e = absurd (cc)
    matched_items-All norms size ans out (f ∷ fs) (w ∷ ws) t base h e =
        elim (Option-cases (get_norm w norms)) [
          | inl p ↦ absurd (ground arith)
          | inr (n, p) ↦
              matched_items-All norms size (keep_positive f32 w f n ans) out fs ws t base
                (keep_positive-All w f n ans (base w f n p) h) (ground arith)
        ]

  -- When norms are given, as a map, every listed item has the norm of its word for a base, whether it
  -- was matched or not.
  pub bases-norms :
      (norms : Norms) (size : ℕ) (ans : List (FreqDistribItem Float)) (fs : List ℕ)
      (ws : List String)
      → is_text_types norms ≡ true
      → IsMap norms
      → matched_items f32 norms size [] fs ws ≡ compiled ans
      → All
          (λ (v : FreqDistribItem Float). get_norm v.word norms ≡ some v.base)
          (ans ++ absent_items f32 ans norms)
  bases-norms norms size ans fs ws t m e =
      All-append P ans (absent_items f32 ans norms)
        (matched_items-All P norms size [] ans fs ws t (λ w f n p. p) tt e)
        (absent_items-All P ans norms (λ k n p. p) m)
    where
      P : FreqDistribItem Float → Type 0
      P v = get_norm v.word norms ≡ some v.base
