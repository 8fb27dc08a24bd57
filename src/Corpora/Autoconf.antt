-- ===== src/Corpora/Autoconf.antt =====
-- corpus/autoconf.go: what is extracted from a registry file. A document is what the parser of registry
-- files gives.
pub mod Generate
pub mod Props
pub mod Valid
use Prim.Native.String.{◌++◌}
use mquery.Base.{
  ℕ, suc, Bool, true, false, ◌||◌, List, [], ◌∷◌, ◌++◌ as append, Option, none, some, map,
  if◌then◌else◌, leb,
}
use mquery.Base.Int.{pos}
use mquery.Base.Text.{String, str_eq, contains}
use mquery.Errors.{GoError, plain_error, Result, ok, err}
use mquery.Corpora.Setup.{Texts, MqCorpusSetup, validate_and_defaults}

-- An attribute with its LABEL.
pub record RegAttr : Type 0 where
  pub name : String
  pub label : String

pub record Structure : Type 0 where
  pub name : String
  pub attrs : List RegAttr

-- `corpus_name` and `path` are the entries NAME and PATH.
pub record Document : Type 0 where
  pub corpus_name : String
  pub path : String
  pub pos_attrs : List RegAttr
  pub structures : List Structure

abbrev pub key_posattrs : List String
key_posattrs = "word" ∷ "sword" ∷ "lemma" ∷ "sublemma" ∷ "tag" ∷ []

abbrev pub key_ud_posattrs : List String
key_ud_posattrs = "word" ∷ "sword" ∷ "lemma" ∷ "upos" ∷ "feats" ∷ "deprel" ∷ "parent" ∷ []

abbrev pub markup_structs : List String
markup_structs =
    "p" ∷ "s" ∷ "hi" ∷ "lb" ∷ "note" ∷ "table" ∷ "ref" ∷ "email" ∷ "graphic" ∷ "geo" ∷ "g" ∷ "head"
    ∷ "bold" ∷ "em" ∷ "emph" ∷ "strong" ∷ "br" ∷ "quote" ∷ "seg" ∷ []

abbrev pub text_segment_structs : List String
text_segment_structs = "doc" ∷ "text" ∷ "file" ∷ "sp" ∷ "speech" ∷ []

-- The loop of isLikelyUDCorpus: whether two of the names were met, from a number of matches on.
unfoldable pub has_two_matches : List RegAttr → ℕ → Bool
has_two_matches [] n = false
has_two_matches (attr ∷ attrs) n =
    let matches = str_eq attr.name "upos" || str_eq attr.name "feats" in
    let m = if matches then suc n else n in
    let rest = has_two_matches attrs m in if leb 2 m then true else rest

unfoldable pub get_sel_attr_set : Document → List String
unfolding has_two_matches
get_sel_attr_set reg = if has_two_matches reg.pos_attrs 0 then key_ud_posattrs else key_posattrs

-- corp.PosAttr: a name and its description in English.
abbrev pub PosAttr : Type 0
PosAttr = String × Texts

unfoldable pub extract_pos_attrs : List RegAttr → List String → List PosAttr
extract_pos_attrs [] sel_attrs = []
extract_pos_attrs (p ∷ ps) sel_attrs =
    let rest = extract_pos_attrs ps sel_attrs in
    if contains sel_attrs p.name then (p.name, ("en", p.label) ∷ []) ∷ rest else rest

unfoldable pub extract_markup_structs : List Structure → List String
extract_markup_structs [] = []
extract_markup_structs (strct ∷ rest) =
    let others = extract_markup_structs rest in
    if contains markup_structs strct.name then strct.name ∷ others else others

-- `has_pos_attr` tells whether GetPosAttr finds an attribute.
unfoldable pub get_sentence_struct : (String → Bool) → String
get_sentence_struct has_pos_attr =
    if has_pos_attr "s"
    then "s"
    else if has_pos_attr "sent"
    then "sent"
    else if has_pos_attr "sen"
    then "sen"
    else if has_pos_attr "sp"
    then "sp"
    else ""

abbrev full_name : String → String → String
full_name strct attr = strct ++ "." ++ attr

abbrev attr_names : String → List RegAttr → List String
attr_names strct [] = []
attr_names strct (attr ∷ attrs) = full_name strct attr.name ∷ attr_names strct attrs

unfoldable pub get_all_text_props : List Structure → List String
get_all_text_props [] = []
get_all_text_props (strct ∷ rest) =
    append (attr_names strct.name strct.attrs) (get_all_text_props rest)

-- The names of the text properties, constants of the package mquery-common.
pub record TextProperties : Type 0 where
  pub author : String
  pub pub_year : String
  pub pub_date : String
  pub title : String
  pub origina_lang : String
  pub text_type : String
  pub medium : String

pub record TtPropertyConf : Type 0 where
  pub name : String
  pub is_in_overview : Bool
  pub date_format : String

-- corp.TextTypeProperties, a map.
abbrev pub PropertyConfs : Type 0
PropertyConfs = List (String × TtPropertyConf)

unfoldable pub property_conf : String → PropertyConfs → Option TtPropertyConf
property_conf k [] = none
property_conf k ((j, v) ∷ rest) = if str_eq j k then some v else property_conf k rest

-- An assignment to a key of the map.
unfoldable pub set_property : String → TtPropertyConf → PropertyConfs → PropertyConfs
set_property k v [] = (k, v) ∷ []
set_property k v ((j, w) ∷ rest) =
    let others = set_property k v rest in if str_eq j k then (k, v) ∷ rest else (j, w) ∷ others

module _ (props : TextProperties) where
  -- The key and the date format for the name of an attribute; the key is empty for other names.
  unfoldable pub property_key : String → String × String
  property_key name =
      if str_eq name "author"
      then (props.author, "")
      else if contains ("year" ∷ "pubyear" ∷ "rok" ∷ "rokvyd" ∷ []) name
      then (props.pub_year, "2006")
      else if contains ("date" ∷ "pubdate" ∷ "datum" ∷ []) name
      then (props.pub_date, "2006-01-02")
      else if str_eq name "title"
      then (props.title, "")
      else if str_eq name "srclang"
      then (props.origina_lang, "")
      else if str_eq name "txtype"
      then (props.text_type, "")
      else if contains ("medium" ∷ "media_type" ∷ []) name
      then (props.medium, "")
      else ("", "")

  abbrev pub conf_of : String → String → TtPropertyConf
  conf_of strct attr = record {
    name = full_name strct attr;
    is_in_overview = true;
    date_format = (property_key attr).1;
  }

  -- The inner loop, over the attributes of a structure.
  unfoldable pub extract_attrs : String → List RegAttr → PropertyConfs → PropertyConfs
  unfolding property_key set_property
  extract_attrs strct [] common = common
  extract_attrs strct (attr ∷ attrs) common =
      let key = (property_key attr.name).0 in
      extract_attrs strct attrs
        (if str_eq key "" then common else set_property key (conf_of strct attr.name) common)

  unfoldable pub extract_structs : List Structure → PropertyConfs → PropertyConfs
  unfolding extract_attrs
  extract_structs [] common = common
  extract_structs (strct ∷ rest) common = extract_structs rest (
      if contains text_segment_structs strct.name
      then extract_attrs strct.name strct.attrs common
      else common)

  unfoldable pub extract_text_props_strucattrs : Document → PropertyConfs
  unfolding extract_structs
  extract_text_props_strucattrs reg = extract_structs reg.structures []
