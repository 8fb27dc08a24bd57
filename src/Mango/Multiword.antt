-- ===== src/Mango/Multiword.antt =====
-- mango/mango.go: `normalizeMultiword`.
pub mod Laws
use Prim.Native.Char.{Char, code}
use mquery.Base.{ℕ, Bool, true, false, ◌||◌, ◌&&◌, if◌then◌else◌, leb, ◌==◌}
use mquery.Base.Text.{String}

-- unicode.IsSpace
abbrev pub is_space : ℕ → Bool
is_space c =
    leb 9 c && leb c 13
    || c == 32
    || c == 0x85
    || c == 0xa0
    || c == 0x1680
    || leb 0x2000 c && leb c 0x200a
    || c == 0x2028
    || c == 0x2029
    || c == 0x202f
    || c == 0x205f
    || c == 0x3000

abbrev pub blank : Char → Char
blank c = if is_space (code c) then " " else c

-- strings.Map of `blank`
unfoldable pub blanks : String → String
blanks String.[] = String.[]
blanks (String.◌∷◌ c s) = String.◌∷◌ (blank c) (blanks s)

unfoldable pub trim_left : String → String
trim_left String.[] = String.[]
trim_left (String.◌∷◌ c s) =
    let rest = trim_left s in if is_space (code c) then rest else String.◌∷◌ c s

abbrev pub cons_trimmed : Char → String → String
cons_trimmed c String.[] = if is_space (code c) then String.[] else String.◌∷◌ c String.[]
cons_trimmed c (String.◌∷◌ d s) = String.◌∷◌ c (String.◌∷◌ d s)

unfoldable pub trim_right : String → String
trim_right String.[] = String.[]
trim_right (String.◌∷◌ c s) = cons_trimmed c (trim_right s)

unfoldable pub normalize_multiword : String → String
unfolding blanks trim_left trim_right
normalize_multiword w = trim_right (trim_left (blanks w))
