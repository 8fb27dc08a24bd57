-- ===== src/Base/Join.antt =====
-- Texts joined by a separator can be told apart where the first part does not hold the separator.
use Prim.Native.Char.{Char, code}
use Prim.Native.String.{String, ◌++◌}
use mathlib.Core.Bool.{Bool, true, false}
use mathlib.Core.Path.{◌≡◌, refl, ap}
use native.Mathlib.Omega.{arith}
use text.Mathlib.TextLemmas.{cons-append, nil-append, cons-eq-cons}
use mquery.Base.Tests.{◌==◌, if◌then◌else◌}

-- The text holds no character of that code.
abbrev pub is_free : Prim.Native.Nat.ℕ → String → Bool
is_free n String.[] = true
is_free n (String.◌∷◌ c s) = let rest = is_free n s in if code c == n then false else rest

-- fmt.Sprintf("%s#%s", a, b), for any separator
abbrev pub join : String → Char → String → String
join a sep b = a ++ String.◌∷◌ sep b

pub join_inj :
    (sep : Char) (a b c d : String)
    → is_free (code sep) a ≡ true
    → is_free (code sep) c ≡ true
    → join a sep b ≡ join c sep d
    → (a ≡ c) × (b ≡ d)
join_inj sep String.[] b String.[] d ha hc e =
    (refl, (cons-eq-cons.0 (rw (nil-append, nil-append) at e)).1)
join_inj sep String.[] b (String.◌∷◌ y c) d ha hc e =
    let same = (cons-eq-cons.0 (rw (nil-append, cons-append) at e)).0 in
    absurd (ground (arith, ap code same))
join_inj sep (String.◌∷◌ x a) b String.[] d ha hc e =
    let same = (cons-eq-cons.0 (rw (nil-append, cons-append) at e)).0 in
    absurd (ground (arith, ap code same))
join_inj sep (String.◌∷◌ x a) b (String.◌∷◌ y c) d ha hc e =
    let parts = cons-eq-cons.0 (rw (cons-append x a, cons-append y c) at e) in
    let rest = join_inj sep a b c d (ground arith) (ground arith) parts.1 in
    (cons-eq-cons.1 (parts.0, rest.0), rest.1)
