-- ===== src/Corpora/Info.antt =====
-- corpus/infoload: the information on a corpus and its cache. corpus/common.go: OpenSplitCorpus.
-- corpus/info.go and corpus/filenames.go.
pub mod Loaded
use Prim.Native.String.{◌++◌}
use mquery.Base.{
  ℕ, Bool, true, false, List, [], ◌∷◌, ◌++◌ as append, Option, none, some, map, if◌then◌else◌,
}
use mquery.Base.Join.{join}
use mquery.Base.Text.{String, str_eq, split}
use mquery.Errors.{GoError, Result, ok, err}
use mquery.Rdb.Query.{Args, corpus_info_args}
use mquery.Results.Types.{Payloads, CorpusInfo, FuncResult}
use mquery.Results.Binning.{Outcome, returned, panicked}
use mquery.Corpora.Setup.{MqCorpusSetup}
use mquery.Corpora.Lookup.{Found, corp, no_corp, nil_dereference}
use mquery.Handlers.Exchange.{Asked, not_published, received, as_corpus_info}
use mquery.Handlers.Info.{InfoLoaded, info_loaded, info_not_found, info_error}

-- corp.Attr and corp.Overview, the fields that are set here.
pub record InfoAttr : Type 0 where
  pub name : String
  pub size : ℕ
  pub description : String

pub record CorpusOverview : Type 0 where
  pub description : String
  pub attr_list : List InfoAttr
  pub struct_list : List InfoAttr
  pub srch_keywords : List String

-- A loop of FillStructAndAttrs: the attributes until one has no size, and then the error.
unfoldable pub sized_attrs :
    (String → Result ℕ) → List String → List InfoAttr → List InfoAttr × Option GoError
sized_attrs size_of [] attrs = (attrs, none)
sized_attrs size_of (v ∷ vs) attrs = elim (size_of v) [
  | err e ↦ (attrs, some e)
  | ok size ↦
      sized_attrs size_of vs
        (append attrs (record { name = v; size = size; description = "" } ∷ []))
]

abbrev with_structs :
    CorpusOverview → List InfoAttr × Option GoError → CorpusOverview × Option GoError
with_structs cinfo (structs, e) = (record cinfo { struct_list = structs }, e)

-- The parameters are GetCorpusConf, GetPosAttrSize and GetStructSize.
module _ (corpus_conf : String → String → Result String)
    (pos_attr_size struct_size : String → String → Result ℕ) where
  abbrev pub fill_structs : String → CorpusOverview → CorpusOverview × Option GoError
  unfolding sized_attrs
  fill_structs path cinfo = elim (corpus_conf path "STRUCTLIST") [
    | err e ↦ (cinfo, some e)
    | ok structs ↦
        with_structs cinfo (sized_attrs (struct_size path) (split structs ",") cinfo.struct_list)
  ]

  abbrev pub after_attrs :
      String → CorpusOverview → List InfoAttr × Option GoError → CorpusOverview × Option GoError
  after_attrs path cinfo (attrs, some e) = (record cinfo { attr_list = attrs }, some e)
  after_attrs path cinfo (attrs, none) = fill_structs path (record cinfo { attr_list = attrs })

  unfoldable pub fill_struct_and_attrs : String → CorpusOverview → CorpusOverview × Option GoError
  unfolding sized_attrs
  fill_struct_and_attrs path cinfo = elim (corpus_conf path "ATTRLIST") [
    | err e ↦ (cinfo, some e)
    | ok attrs ↦
        after_attrs path cinfo (sized_attrs (pos_attr_size path) (split attrs ",") cinfo.attr_list)
  ]

-- The methods of mquery-common for a configuration: the description of a positional attribute in a
-- language if it is configured, that of the corpus, and the keywords.
pub record ConfTexts : Type 0 where
  pub attr_description : MqCorpusSetup → String → String → Option String
  pub locale_description : MqCorpusSetup → String → String
  pub srch_keywords : MqCorpusSetup → List String

abbrev pub described : Option String → InfoAttr → InfoAttr
described none attr = attr
described (some d) attr = record attr { description = d }

unfoldable pub extend_corpus_info :
    ConfTexts → MqCorpusSetup → String → CorpusOverview → CorpusOverview
extend_corpus_info texts conf lang cinfo =
    let desc = texts.locale_description conf lang in
    record cinfo {
      attr_list =
          map (λ attr. described (texts.attr_description conf attr.name lang) attr) cinfo.attr_list;
      description = if str_eq desc "" then cinfo.description else desc;
      srch_keywords = texts.srch_keywords conf;
    }

abbrev pub make_cache_key : String → String → String
make_cache_key corpus_id language = join corpus_id "#" language

module _ (ty : Payloads) where
  abbrev pub InfoCache : Type 0
  InfoCache = List (String × CorpusInfo ty.Overview)

  unfoldable pub cached_info : String → InfoCache → Option (CorpusInfo ty.Overview)
  cached_info k [] = none
  cached_info k ((j, v) ∷ rest) = if str_eq j k then some v else cached_info k rest

  abbrev pub InfoResult : Type 0
  InfoResult = Outcome (InfoLoaded (CorpusInfo ty.Overview)) × InfoCache

  abbrev pub unless_error : Option GoError → InfoCache → InfoResult → InfoResult
  unless_error (some e) cache next = (returned info_error, cache)
  unless_error none cache next = next

  -- `file` is fs.IsFile, `ask` the exchange with a worker, and `extend` is extendCorpusInfo.
  module _ (registry_path : String → String) (file : String → Result Bool)
      (find_corp : String → Found) (ask : String → Args → Asked ty)
      (extend : MqCorpusSetup → String → CorpusInfo ty.Overview → CorpusInfo ty.Overview) where
    abbrev pub cached_extended :
        String → String → CorpusInfo ty.Overview → InfoCache → Found → InfoResult
    cached_extended corpus_id language info cache no_corp = (returned info_not_found, cache)
    cached_extended corpus_id language info cache nil_dereference = (panicked, cache)
    cached_extended corpus_id language info cache (corp conf) =
        let extended = extend conf language info in
        (returned (info_loaded extended), (make_cache_key corpus_id language, extended) ∷ cache)

    abbrev pub typed_info :
        String → String → InfoCache → Option (CorpusInfo ty.Overview) → InfoResult
    typed_info corpus_id language cache none = (returned info_error, cache)
    typed_info corpus_id language cache (some info) =
        unless_error info.error cache
          (cached_extended corpus_id language info cache (find_corp corpus_id))

    -- A value of nil is of no type.
    abbrev pub answered_info : String → String → InfoCache → Asked ty → InfoResult
    answered_info corpus_id language cache not_published = (returned info_error, cache)
    answered_info corpus_id language cache (received none user_error) = (returned info_error, cache)
    answered_info corpus_id language cache (received (some v) user_error) =
        typed_info corpus_id language cache (as_corpus_info v)

    abbrev pub asked_info : String → String → InfoCache → InfoResult
    asked_info corpus_id language cache =
        let path = registry_path corpus_id in
        answered_info corpus_id language cache
          (ask "corpusInfo" (corpus_info_args (record { corpus_path = path; language = language })))

    unfoldable pub load_corpus_info : String → String → InfoCache → InfoResult
    unfolding cached_info
    load_corpus_info corpus_id language cache =
        elim (cached_info (make_cache_key corpus_id language) cache) [
          | some info ↦ (returned (info_loaded info), cache)
          | none ↦ elim (file (registry_path corpus_id)) [
            | err e ↦ (returned info_error, cache)
            | ok false ↦ (returned info_not_found, cache)
            | ok true ↦ asked_info corpus_id language cache
          ]
        ]

-- OpenSplitCorpus: the files with the extension of a subcorpus. `ext` and `joined` are filepath.Ext
-- and filepath.Join of the directory.
unfoldable pub split_files : (String → String) → (String → String) → List String → List String
split_files ext joined [] = []
split_files ext joined (item ∷ rest) =
    let others = split_files ext joined rest in
    if str_eq (ext item) ".subc" then joined item ∷ others else others

unfoldable pub open_split_corpus :
    (String → String) → (String → String) → Result (List String) → Result (List String)
unfolding split_files
open_split_corpus ext joined (err e) = err e
open_split_corpus ext joined (ok files) = ok (split_files ext joined files)

-- DBInfo.GroupedName, of the name and the parallel corpus.
abbrev pub grouped_name : String → String → String
grouped_name name parallel_corpus = if str_eq parallel_corpus "" then name else parallel_corpus

-- LoadSizes; a map is the list of its entries, for distinct corpora.
abbrev cons_size : String → ℕ → Result (List (String × ℕ)) → Result (List (String × ℕ))
cons_size id size (ok rest) = ok ((id, size) ∷ rest)
cons_size id size (err e) = err e

unfoldable pub load_sizes : (String → Result ℕ) → List String → Result (List (String × ℕ))
load_sizes size_of [] = ok []
load_sizes size_of (corpus_id ∷ rest) =
    let others = load_sizes size_of rest in
    elim (size_of corpus_id) [ err e ↦ err e | ok size ↦ cons_size corpus_id size others ]

-- `submatch` is the version in the name of a corpus of InterCorp.
abbrev pub gen_corpus_group_name : (String → Option String) → String → String
gen_corpus_group_name submatch corpus_id = elim (submatch corpus_id) [
  | some v ↦ "intercorp_v" ++ v
  | none ↦ corpus_id
]
