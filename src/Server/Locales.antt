-- ===== src/Server/Locales.antt =====
-- cnf/conf.go: the locales of the server.
use mquery.Base.{Bool, true, false, List, [], ◌∷◌, if◌then◌else◌}
use mquery.Base.Text.{String, str_eq, split}

pub record LocaleConf : Type 0 where
  pub name : String
  pub is_default : Bool

-- The part before the first `-`, or without one before the first `_`.
abbrev pub parts_of : List String → List String → String → String
parts_of (a ∷ b ∷ rest) us name = a
parts_of ds (a ∷ b ∷ rest) name = a
parts_of ds us name = name

abbrev pub language_of : String → String
language_of name = parts_of (split name "-") (split name "_") name

unfoldable pub has_locale : String → List LocaleConf → Bool
has_locale name [] = false
has_locale name (c ∷ cs) = if str_eq c.name name then true else has_locale name cs

unfoldable pub supports_locale : List LocaleConf → String → Bool
unfolding has_locale
supports_locale conf name = has_locale (language_of name) conf

unfoldable pub default_locale : List LocaleConf → String
default_locale [] = "en"
default_locale (c ∷ cs) = let rest = default_locale cs in if c.is_default then c.name else rest
