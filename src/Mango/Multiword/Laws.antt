-- ===== src/Mango/Multiword/Laws.antt =====
-- What is normal in a normalized word.
use Prim.Native.Char.{Char, code}
use mquery.Base.{◌≡◌, refl, ap, ◌∙◌, false, inl, inr, Bool-cases}
use mquery.Base.Text.{String}
use mquery.Mango.Multiword.{
  is_space, blank, blanks, trim_left, cons_trimmed, trim_right, normalize_multiword,
}

is_space-blank : (c : Char) → is_space (code (blank c)) ≡ is_space (code c)
is_space-blank c = elim (Bool-cases (is_space (code c))) [
  | inl e ↦ rw (e) refl
  | inr e ↦ rw (e, e) refl
]

blank-blank : (c : Char) → blank (blank c) ≡ blank c
blank-blank c = elim (Bool-cases (is_space (code c))) [
  | inl e ↦ rw (e) refl
  | inr e ↦ rw (e, e) refl
]

blanks-blanks : (s : String) → blanks (blanks s) ≡ blanks s
unfolding blanks
blanks-blanks String.[] = refl
blanks-blanks (String.◌∷◌ c s) = rw (blank-blank c, blanks-blanks s) refl

blanks-trim_left : (s : String) → blanks (trim_left s) ≡ trim_left (blanks s)
unfolding blanks trim_left
blanks-trim_left String.[] = refl
blanks-trim_left (String.◌∷◌ c s) = elim (Bool-cases (is_space (code c))) [
  | inl e ↦ rw (is_space-blank c, e) (blanks-trim_left s)
  | inr e ↦ rw (is_space-blank c, e, e) refl
]

blanks-cons_trimmed :
    (c : Char) (s : String) → blanks (cons_trimmed c s) ≡ cons_trimmed (blank c) (blanks s)
unfolding blanks
blanks-cons_trimmed c String.[] = elim (Bool-cases (is_space (code c))) [
  | inl e ↦ rw (is_space-blank c, e) refl
  | inr e ↦ rw (is_space-blank c, e, e) refl
]
blanks-cons_trimmed c (String.◌∷◌ d s) = refl

blanks-trim_right : (s : String) → blanks (trim_right s) ≡ trim_right (blanks s)
unfolding blanks trim_right
blanks-trim_right String.[] = refl
blanks-trim_right (String.◌∷◌ c s) =
    blanks-cons_trimmed c (trim_right s) ∙ ap (cons_trimmed (blank c)) (blanks-trim_right s)

trim_left-trim_left : (s : String) → trim_left (trim_left s) ≡ trim_left s
unfolding trim_left
trim_left-trim_left String.[] = refl
trim_left-trim_left (String.◌∷◌ c s) = elim (Bool-cases (is_space (code c))) [
  | inl e ↦ rw (e) (trim_left-trim_left s)
  | inr e ↦ rw (e, e) refl
]

cons_trimmed-twice :
    (c : Char) (s : String) → trim_right s ≡ s → trim_right (cons_trimmed c s) ≡ cons_trimmed c s
unfolding trim_right
cons_trimmed-twice c String.[] h = elim (Bool-cases (is_space (code c))) [
  | inl e ↦ rw (e) refl
  | inr e ↦ rw (e, e) refl
]
cons_trimmed-twice c (String.◌∷◌ d s) h = rw (h) refl

trim_right-trim_right : (s : String) → trim_right (trim_right s) ≡ trim_right s
unfolding trim_right
trim_right-trim_right String.[] = refl
trim_right-trim_right (String.◌∷◌ c s) =
    cons_trimmed-twice c (trim_right s) (trim_right-trim_right s)

-- A text that has nothing to trim on the left has nothing after its right was trimmed.
trim_left-cons_trimmed :
    (c : Char) (s : String)
    → is_space (code c) ≡ false
    → trim_left (cons_trimmed c s) ≡ cons_trimmed c s
unfolding trim_left
trim_left-cons_trimmed c String.[] h = rw (h, h) refl
trim_left-cons_trimmed c (String.◌∷◌ d s) h = rw (h) refl

trim_left-trim_right :
    (s : String) → trim_left (trim_right (trim_left s)) ≡ trim_right (trim_left s)
unfolding trim_left trim_right
trim_left-trim_right String.[] = refl
trim_left-trim_right (String.◌∷◌ c s) = elim (Bool-cases (is_space (code c))) [
  | inl e ↦ rw (e) (trim_left-trim_right s)
  | inr e ↦ rw (e) (trim_left-cons_trimmed c (trim_right s) e)
]

-- To normalize a word again changes nothing.
pub normalize_multiword_idempotent :
    (w : String) → normalize_multiword (normalize_multiword w) ≡ normalize_multiword w
unfolding normalize_multiword
normalize_multiword_idempotent w =
    let s = blanks w in
    ap trim_right (
      ap trim_left (
        blanks-trim_right (trim_left s)
        ∙ ap trim_right (blanks-trim_left s ∙ ap trim_left (blanks-blanks w))))
    ∙ ap trim_right (trim_left-trim_right s)
    ∙ trim_right-trim_right (trim_left s)
