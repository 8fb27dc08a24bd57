-- ===== src/Corpora/Setup.antt =====
-- corpus/corpconf.go: the configuration of a corpus, its validation, and the search in the
-- configured ones. A map is the list of its entries.
pub mod Defaults
use mquery.Base.{ℕ, Bool, true, false, List, [], ◌∷◌, Option, none, some, if◌then◌else◌, ◌==◌}
use mquery.Base.Int.{ℤ, pos, eqb_ℤ}
use mquery.Base.Text.{String, str_eq}
use mquery.Errors.{GoError, plain_error, Result, ok, err}

abbrev pub dflt_maximum_records : ℕ
dflt_maximum_records = 50

abbrev pub dflt_maximum_token_context_window : ℕ
dflt_maximum_token_context_window = 50

abbrev pub Texts : Type 0
Texts = List (String × String)

pub record Variant : Type 0 where
  pub id : String
  pub full_name : Texts
  pub description : Texts

-- The values of each attribute of a configured subcorpus.
abbrev pub TextTypes : Type 0
TextTypes = List (String × List String)

-- The fields that are read here. Those from `conc_text_props_attrs` on are what methods of the
-- package mquery-common compute from the configuration: ConcTextPropsAttrs, KnownStructures,
-- ListOverviewProps.
pub record MqCorpusSetup : Type 0 where
  pub id : String
  pub full_name : Texts
  pub description : Texts
  pub variants : List (String × Variant)
  pub pos_attrs : List String
  pub text_properties : List String
  pub maximum_records : ℤ
  pub maximum_token_context_window : ℤ
  pub full_conc_text_props_attrs : List String
  pub subcorpora : List (String × TextTypes)
  pub property_names : Texts
  pub conc_markup_structures : List String
  pub syntax_result_attrs : List String
  pub syntax_parent_attr : String
  pub view_context_struct : String
  pub has_public_audio : Bool
  pub conc_text_props_attrs : List String
  pub known_structures : List String
  pub overview_props : Texts

-- A value of a map, empty if it is missing.
unfoldable pub text_of : String → Texts → String
text_of k [] = ""
text_of k ((j, v) ∷ rest) = if str_eq j k then v else text_of k rest

-- len(names) == 0 || names["en"] == ""
abbrev pub lacks_english : Texts → Bool
lacks_english names = str_eq (text_of "en" names) ""

unfoldable pub some_variant_lacks : List (String × Variant) → Bool
some_variant_lacks [] = false
some_variant_lacks ((k, v) ∷ rest) =
    if lacks_english v.full_name then true else some_variant_lacks rest

unfoldable pub all_valid : (String → Bool) → List String → Bool
all_valid valid [] = true
all_valid valid (p ∷ ps) = if valid p then all_valid valid ps else false

abbrev pub or_default : ℕ → ℤ → ℤ
or_default dflt n = if eqb_ℤ n (pos 0) then pos dflt else n

-- `is_dynamic` and `valid_property` are methods of the package mquery-common.
module _ (is_dynamic : String → List (String × Variant) → Bool)
    (valid_property : String → Bool) where
  abbrev pub name_is_missing : MqCorpusSetup → Bool
  name_is_missing cs =
      if is_dynamic cs.id cs.variants
      then some_variant_lacks cs.variants
      else lacks_english cs.full_name

  abbrev pub with_defaults : MqCorpusSetup → MqCorpusSetup
  with_defaults cs = record cs {
    maximum_records = or_default dflt_maximum_records cs.maximum_records;
    maximum_token_context_window =
        or_default dflt_maximum_token_context_window cs.maximum_token_context_window;
  }

  -- The name of the property is left out of the last message.
  unfoldable pub validate_and_defaults : MqCorpusSetup → Result MqCorpusSetup
  unfolding all_valid
  validate_and_defaults cs =
      if name_is_missing cs
      then err (plain_error "missing corpus `fullName`, at least `en` value must be set")
      else elim cs.pos_attrs [
        | [] ↦ err (plain_error "at least one positional attribute in `posAttrs` must be defined")
        | _ ↦
            if all_valid valid_property cs.text_properties
            then ok (with_defaults cs)
            else err (plain_error "invalid text property")
      ]

abbrev pick : Texts → Texts → Texts
pick [] old = old
pick new old = new

unfoldable pub find_variant : String → List (String × Variant) → Option Variant
find_variant name [] = none
find_variant name ((k, v) ∷ rest) = if str_eq k name then some v else find_variant name rest

abbrev pub merged_variant : MqCorpusSetup → Variant → MqCorpusSetup
merged_variant v variant = record v {
  variants = [];
  id = variant.id;
  full_name = pick variant.full_name v.full_name;
  description = pick variant.description v.description;
}

-- Resources.get. `has_star` and `matches` are strings.Contains of a `*` and the regular expression
-- in which it stands for any text.
unfoldable pub get_resource :
    (String → Bool) → (String → String → Bool) → List MqCorpusSetup → String → Option MqCorpusSetup
unfolding find_variant
get_resource has_star matches [] name = none
get_resource has_star matches (v ∷ rest) name =
    let later = get_resource has_star matches rest name in
    if has_star v.id
    then (if matches v.id name
        then elim (find_variant name v.variants) [
          | none ↦ later
          | some variant ↦ some (merged_variant v variant)
        ]
        else later)
    else if str_eq v.id name
    then some v
    else later
