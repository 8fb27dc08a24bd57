-- ===== src/Mango/Measure.antt =====
-- mango/vbridge.go: the names of the collocation measures and their codes in Manatee. The range over
-- the map is over the list below; Go leaves its order open, and no code has two names.
use mquery.Base.{
  ◌≡◌, ◌⊎◌, refl, Option-cases, List, [], ◌∷◌, Option, none, some, inl, inr, arith, if◌then◌else◌,
  Bool-cases,
}
use mquery.Base.Text.{String, str_eq, str_eq_iff}

-- A byte is the text of one character that it is.
abbrev pub coll_func : List (String × String)
coll_func =
    ("absFreq", "f")
    ∷ ("logLikelihood", "l")
    ∷ ("logDice", "d")
    ∷ ("minSensitivity", "s")
    ∷ ("mutualInfo", "m")
    ∷ ("mutualInfo3", "3")
    ∷ ("mutualInfoLogF", "p")
    ∷ ("relFreq", "r")
    ∷ ("tScore", "t")
    ∷ []

pub code_of : List (String × String) → String → Option String
code_of [] v = none
code_of ((k, c) ∷ rest) v = if str_eq k v then some c else code_of rest v

pub name_of : List (String × String) → String → Option String
name_of [] v = none
name_of ((k, c) ∷ rest) v = if str_eq c v then some k else name_of rest v

pub has_code : List (String × String) → String → Option String
has_code [] v = none
has_code ((k, c) ∷ rest) v = if str_eq v c then some c else has_code rest v

-- `none` is ErrUnsupportedValue.
pub import_coll_measure : String → Option String
unfolding code_of has_code
import_coll_measure v = elim (code_of coll_func v) [
  | some imp ↦ some imp
  | none ↦ has_code coll_func v
]

pub normalize_coll_measure_name : String → Option String
unfolding code_of name_of
normalize_coll_measure_name v = elim (code_of coll_func v) [
  | some c ↦ some v
  | none ↦ name_of coll_func v
]

-- The keys are distinct.
abbrev IsMap : List (String × String) → Type 0
IsMap [] = Unit
IsMap ((k, c) ∷ rest) = (code_of rest k ≡ none) × IsMap rest

coll_func-IsMap : IsMap coll_func
unfolding code_of
coll_func-IsMap = (refl, (refl, (refl, (refl, (refl, (refl, (refl, (refl, (refl, tt)))))))))

code_of-name_of :
    (m : List (String × String)) (v k : String)
    → IsMap m
    → name_of m v ≡ some k
    → code_of m k ≡ some v
unfolding code_of name_of
code_of-name_of [] v k d h = cc
code_of-name_of ((j, c) ∷ rest) v k d h =
    ground (arith, code_of-name_of rest v k d.1, str_eq_iff c v, str_eq_iff j k)

name_of-cases :
    (m : List (String × String)) (v : String)
    → ((name_of m v ≡ none) × (has_code m v ≡ none))
      ⊎ ((k : String) × (name_of m v ≡ some k) × (has_code m v ≡ some v))
unfolding name_of has_code
name_of-cases [] v = inl (refl, refl)
name_of-cases ((j, c) ∷ rest) v = elim (Bool-cases (str_eq c v)) [
  | inl e ↦ inr (j, ground arith, ground (arith, str_eq_iff c v, str_eq_iff v c))
  | inr e ↦ elim (name_of-cases rest v) [
    | inl p ↦ inl (ground arith, ground (arith, p, str_eq_iff c v, str_eq_iff v c))
    | inr (k, p, q) ↦ inr (k, ground arith, ground (arith, q, str_eq_iff c v, str_eq_iff v c))
  ]
]

-- A measure can be imported exactly if its name can be normalised, and the normal name then imports
-- as the same code, and is normal.
pub import-normalize :
    (v : String)
    → ((import_coll_measure v ≡ none) × (normalize_coll_measure_name v ≡ none))
      ⊎ ((c k : String) × (import_coll_measure v ≡ some c)
          × (normalize_coll_measure_name v ≡ some k)
          × (import_coll_measure k ≡ some c)
          × (normalize_coll_measure_name k ≡ some k))
unfolding import_coll_measure normalize_coll_measure_name
import-normalize v = elim (Option-cases (code_of coll_func v)) [
  | inr (c, e) ↦
      let imported : import_coll_measure v ≡ some c = rw (e, import_coll_measure) in
      let normal : normalize_coll_measure_name v ≡ some v = rw (e, normalize_coll_measure_name) in
      inr (c, v, imported, normal, imported, normal)
  | inl e ↦ elim (name_of-cases coll_func v) [
    | inl p ↦ inl (rw (e, import_coll_measure) p.1, rw (e, normalize_coll_measure_name) p.0)
    | inr (k, p, q) ↦
        let named = code_of-name_of coll_func v k coll_func-IsMap p in
        inr (
          v,
          k,
          rw (e, import_coll_measure) q,
          rw (e, normalize_coll_measure_name) p,
          rw (named, import_coll_measure),
          rw (named, normalize_coll_measure_name),
        )
  ]
]
