-- ===== src/Base/Text.antt =====
-- Texts: the equality test of the native strings, and what follows from it.
use Prim.Native.Char.{Char, code}
use Prim.Native.String.{String, ◌++◌}
use mathlib.Core.Path.{◌≡◌}
use mathlib.Core.Logic.{◌↔◌}
use mathlib.Core.Bool.{Bool, true, false}
use mathlib.Core.List.{List, [], ◌∷◌}
use text.Mathlib.Text.{◌==◌ as text_eq}
use text.Mathlib.TextEquality.{eq_iff as text_eq_iff}
use mquery.Base.Tests.{if◌then◌else◌, ◌==◌}
pub use Prim.Native.String.{String}

abbrev pub str_eq : String → String → Bool
str_eq s t = text_eq s t

pub str_eq_iff : (s t : String) → (str_eq s t ≡ true) ↔ (s ≡ t)
str_eq_iff s t = text_eq_iff s t

-- fmt.Sprintf with one %s in its text
abbrev pub around : String → String → String → String
around before s after = before ++ s ++ after

-- slices.Contains
abbrev pub contains : List String → String → Bool
contains [] s = false
contains (x ∷ xs) s = if str_eq x s then true else contains xs s

-- strings.Split, for a separator of one character
abbrev push : Char → List String → List String
push c [] = String.◌∷◌ c String.[] ∷ []
push c (w ∷ ws) = String.◌∷◌ c w ∷ ws

unfoldable pub split : String → Char → List String
split String.[] sep = "" ∷ []
split (String.◌∷◌ c s) sep =
    let rest = split s sep in if code c == code sep then "" ∷ rest else push c rest
