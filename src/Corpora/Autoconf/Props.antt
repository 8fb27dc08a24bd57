-- ===== src/Corpora/Autoconf/Props.antt =====
-- Which attribute of a registry gives a text property.
use mquery.Base.{
  ◌≡◌, refl, ap, ◌∙◌, false, List, [], ◌∷◌, Option, none, some, if◌then◌else◌, arith, inl, inr,
  Bool-cases,
}
use mquery.Base.Text.{String, str_eq, str_eq_iff, contains}
use mquery.Corpora.Autoconf.{
  RegAttr, Structure, Document, text_segment_structs, TextProperties, TtPropertyConf, PropertyConfs,
  property_conf, set_property, property_key, conf_of, extract_attrs, extract_structs,
  extract_text_props_strucattrs,
}

-- The configuration of the last attribute of a list with a key, or else the given one.
unfoldable pub last_attr :
    TextProperties → String → String → List RegAttr → Option TtPropertyConf → Option TtPropertyConf
unfolding property_key
last_attr props key strct [] found = found
last_attr props key strct (attr ∷ attrs) found = last_attr props key strct attrs (
    if str_eq (property_key props attr.name).0 key
    then some (conf_of props strct attr.name)
    else found)

-- The same for the structures of texts.
unfoldable pub last_in :
    TextProperties → String → List Structure → Option TtPropertyConf → Option TtPropertyConf
unfolding last_attr
last_in props key [] found = found
last_in props key (strct ∷ rest) found = last_in props key rest (
    if contains text_segment_structs strct.name
    then last_attr props key strct.name strct.attrs found
    else found)

property_conf-set_property :
    (k j : String) (v : TtPropertyConf) (m : PropertyConfs)
    → property_conf k (set_property j v m) ≡ (if str_eq j k then some v else property_conf k m)
unfolding property_conf set_property
property_conf-set_property k j v [] = refl
property_conf-set_property k j v ((i, w) ∷ rest) =
    ground
      (arith, property_conf-set_property k j v rest, str_eq_iff i j, str_eq_iff i k, str_eq_iff j k)

module _ (props : TextProperties) (key : String) where
  abbrev step : (strct : String) (attr : RegAttr) (common : PropertyConfs) → PropertyConfs
  step strct attr common =
      let k = (property_key props attr.name).0 in
      if str_eq k "" then common else set_property k (conf_of props strct attr.name) common

  property_conf-step :
      (strct : String) (attr : RegAttr) (common : PropertyConfs)
      → str_eq key "" ≡ false
      → property_conf key (step strct attr common) ≡ (
          if str_eq (property_key props attr.name).0 key
          then some (conf_of props strct attr.name)
          else property_conf key common)
  property_conf-step strct attr common h =
      let k = (property_key props attr.name).0 in
      ground (
        arith,
        property_conf-set_property key k (conf_of props strct attr.name) common,
        str_eq_iff k "",
        str_eq_iff k key,
        str_eq_iff key "",
        h,
      )

  property_conf-extract_attrs :
      (strct : String) (attrs : List RegAttr) (common : PropertyConfs)
      → str_eq key "" ≡ false
      → property_conf key (extract_attrs props strct attrs common)
        ≡ last_attr props key strct attrs (property_conf key common)
  unfolding extract_attrs last_attr
  property_conf-extract_attrs strct [] common h = refl
  property_conf-extract_attrs strct (attr ∷ attrs) common h =
      property_conf-extract_attrs strct attrs (step strct attr common) h
      ∙ ap (last_attr props key strct attrs) (property_conf-step strct attr common h)

  property_conf-structure :
      (strct : Structure) (common : PropertyConfs)
      → str_eq key "" ≡ false
      → property_conf key (
          if contains text_segment_structs strct.name
          then extract_attrs props strct.name strct.attrs common
          else common)
        ≡ (if contains text_segment_structs strct.name
            then last_attr props key strct.name strct.attrs (property_conf key common)
            else property_conf key common)
  property_conf-structure strct common h =
      elim (Bool-cases (contains text_segment_structs strct.name)) [
        | inl e ↦ rw (e) (property_conf-extract_attrs strct.name strct.attrs common h)
        | inr e ↦ rw (e) refl
      ]

  property_conf-extract_structs :
      (structures : List Structure) (common : PropertyConfs)
      → str_eq key "" ≡ false
      → property_conf key (extract_structs props structures common)
        ≡ last_in props key structures (property_conf key common)
  unfolding extract_structs last_in
  property_conf-extract_structs [] common h = refl
  property_conf-extract_structs (strct ∷ rest) common h =
      property_conf-extract_structs rest
        (if contains text_segment_structs strct.name
          then extract_attrs props strct.name strct.attrs common
          else common)
        h
      ∙ ap (last_in props key rest) (property_conf-structure strct common h)

-- The generated text property of a key that is not empty is the last attribute with that key in the
-- structures of texts, in the order of the registry, with its date format; there is none if no
-- attribute has the key.
pub property_conf-extract_text_props_strucattrs :
    (props : TextProperties) (key : String) (reg : Document)
    → str_eq key "" ≡ false
    → property_conf key (extract_text_props_strucattrs props reg)
      ≡ last_in props key reg.structures none
unfolding extract_text_props_strucattrs property_conf
property_conf-extract_text_props_strucattrs props key reg h =
    property_conf-extract_structs props key reg.structures [] h
