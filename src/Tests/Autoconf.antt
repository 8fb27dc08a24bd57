-- ===== src/Tests/Autoconf.antt =====
-- The configuration that is generated from a small registry.
use mquery.Base.{◌≡◌, refl, arith, Bool, true, false, List, [], ◌∷◌, Option, none, some}
use mquery.Base.Text.{String}
use mquery.Errors.{ok}
use mquery.Corpora.Setup.{Texts, MqCorpusSetup}
use mquery.Corpora.Lookup.{corp, cached, get_corp}
use mquery.Corpora.Autoconf.{
  RegAttr, Document, TextProperties, PropertyConfs, property_conf, extract_text_props_strucattrs,
}
use mquery.Corpora.Autoconf.Generate.{Registry}
use mquery.Corpora.Autoconf.Props.{last_in, property_conf-extract_text_props_strucattrs}
use mquery.Corpora.Autoconf.Valid.{AreAccepted, validate, generate, get_corp-AreAccepted}

abbrev attr : String → RegAttr
attr n = record { name = n; label = n }

abbrev reg : Document
reg = record {
  corpus_name = "A corpus";
  path = "/data/a";
  pos_attrs = attr "word" ∷ attr "lemma" ∷ attr "case" ∷ [];
  structures =
      record { name = "doc"; attrs = attr "author" ∷ attr "year" ∷ [] }
      ∷ record { name = "s"; attrs = attr "year" ∷ [] }
      ∷ record { name = "text"; attrs = attr "pubyear" ∷ [] }
      ∷ [];
}

abbrev props : TextProperties
props = record {
  author = "author";
  pub_year = "pub-year";
  pub_date = "pub-date";
  title = "title";
  origina_lang = "srclang";
  text_type = "text-type";
  medium = "medium";
}

-- The later of two structures of texts gives the year; the structure of a sentence gives none.
year_example :
    last_in props "pub-year" reg.structures none
    ≡ some (record { name = "text.pubyear"; is_in_overview = true; date_format = "2006" })
unfolding last_in
year_example = refl

property_conf-extract_text_props_strucattrs_example :
    property_conf "pub-year" (extract_text_props_strucattrs props reg)
    ≡ last_in props "pub-year" reg.structures none
property_conf-extract_text_props_strucattrs_example =
    property_conf-extract_text_props_strucattrs props "pub-year" reg refl

abbrev registry : Registry
registry = record { parsed = λ p. some reg; parsed_later = λ p. some reg; is_dir = λ p. ok true }

abbrev not_dynamic : String → Bool
not_dynamic id = false

abbrev known : String → Bool
known p = true

abbrev has_pos_attr : Document → String → Bool
has_pos_attr doc n = false

abbrev same : List String → List String
same xs = xs

abbrev no_attrs : PropertyConfs → List String
no_attrs ps = []

abbrev no_texts : PropertyConfs → Texts
no_texts ps = []

abbrev nothing : String → Option MqCorpusSetup
nothing id = none

abbrev make : String → Option MqCorpusSetup
make = generate props not_dynamic known has_pos_attr same no_attrs no_texts registry (λ id. id)

empty-AreAccepted : AreAccepted props not_dynamic known has_pos_attr same no_attrs no_texts []
unfolding cached
empty-AreAccepted k c h = absurd (ground (arith, h))

get_corp-AreAccepted_example :
    ((c : MqCorpusSetup)
      → (get_corp nothing nothing make true "a" []).0 ≡ corp c
      → validate props not_dynamic known has_pos_attr same no_attrs no_texts c ≡ ok c)
    × AreAccepted props not_dynamic known has_pos_attr same no_attrs no_texts
        (get_corp nothing nothing make true "a" []).1
get_corp-AreAccepted_example =
    get_corp-AreAccepted props not_dynamic known has_pos_attr same no_attrs no_texts registry
      (λ id. id) nothing nothing "a" [] refl empty-AreAccepted
