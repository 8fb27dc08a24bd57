-- ===== src/Corpora/Lookup.antt =====
-- corpus/conf.go: `GetCorp` with its cache of generated configurations.
pub mod Cache
use mquery.Base.{Bool, true, false, List, [], ◌∷◌, Option, none, some, if◌then◌else◌}
use mquery.Base.Text.{String, str_eq}
use mquery.Corpora.Setup.{MqCorpusSetup}

-- autoConfCache; a nil value is none.
abbrev pub AutoConfCache : Type 0
AutoConfCache = List (String × Option MqCorpusSetup)

unfoldable pub cached : String → AutoConfCache → Option (Option MqCorpusSetup)
cached k [] = none
cached k ((j, v) ∷ rest) = if str_eq j k then some v else cached k rest

-- What the caller gets: a configuration or nil, or a panic for a nil pointer.
pub data Found : Type 0 where
  corp : MqCorpusSetup → Found
  no_corp : Found
  nil_dereference : Found

abbrev pub found_of : Option MqCorpusSetup → Found
found_of none = no_corp
found_of (some c) = corp c

-- `resource` is Resources.get, `generate_min` and `generate` are AutogenerateMinConf and
-- AutogenerateConf, which read the registry.
module _ (resource : String → Option MqCorpusSetup)
    (generate_min generate : String → Option MqCorpusSetup) (zero_conf_corpora : Bool) where
  abbrev pub configured : String → MqCorpusSetup → AutoConfCache → Found
  configured corpus_id c cache = elim (cached corpus_id cache) [
    | some v ↦ corp c
    | none ↦ elim (generate_min corpus_id) [
      | none ↦ nil_dereference
      | some tmp ↦ corp (record c { full_conc_text_props_attrs = tmp.full_conc_text_props_attrs })
    ]
  ]

  unfoldable pub get_corp : String → AutoConfCache → Found × AutoConfCache
  unfolding cached
  get_corp corpus_id cache = elim (resource corpus_id) [
    | some c ↦ (configured corpus_id c cache, cache)
    | none ↦
        if zero_conf_corpora
        then elim (cached corpus_id cache) [
          | some auto_conf ↦ (found_of auto_conf, cache)
          | none ↦
              let auto_conf = generate corpus_id in
              (found_of auto_conf, (corpus_id, auto_conf) ∷ cache)
        ]
        else (no_corp, cache)
  ]
