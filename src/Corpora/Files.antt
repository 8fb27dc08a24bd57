-- ===== src/Corpora/Files.antt =====
-- corpus/conf.go: the delimiters, the list of all corpora and the validation of CorporaSetup.
-- corpus/corpconf.go: the loading of the configuration files.
use mquery.Base.{
  ℕ, Bool, true, false, ◌||◌, List, [], ◌∷◌, ◌++◌ as append, Option, none, some, if◌then◌else◌,
  ◌==◌,
}
use mquery.Base.Int.{ℤ}
use mquery.Base.Text.{String, str_eq}
use mquery.Errors.{GoError, plain_error, Result, ok, err}
use mquery.Results.Binning.{Outcome, returned, panicked}
use mquery.Corpora.Setup.{Variant, MqCorpusSetup}
use mquery.Corpora.Lookup.{Found, corp}

-- PosAttrDelimiter: a tab, a unit separator or a slash.
abbrev pub is_delimiter : ℕ → Bool
is_delimiter pad = pad == 9 || pad == 31 || pad == 47

unfoldable pub delimiter_text : ℕ → Outcome String
delimiter_text pad =
    if pad == 9
    then returned "\t"
    else if pad == 31
    then returned "\u{1f}"
    else if pad == 47
    then returned "/"
    else panicked

pub record CorporaSetup : Type 0 where
  pub registry_dir : String
  pub split_corpora_dir : String
  pub multiproc_chunk_size : ℤ
  pub mktokencov_path : String
  pub resources : List MqCorpusSetup
  pub zero_conf_corpora : Bool

-- Resources.Load. A file gives no configuration if it cannot be read or parsed.
pub record ConfFile : Type 0 where
  pub conf : MqCorpusSetup
  pub is_disabled : Bool

-- The corpora of which the registry file is checked: the variants of a pattern, or the corpus.
abbrev pub variant_ids : List (String × Variant) → List String
variant_ids [] = []
variant_ids ((k, v) ∷ rest) = k ∷ variant_ids rest

module _ (has_star : String → Bool) (check_registry : String → Option GoError) where
  abbrev pub checked_ids : MqCorpusSetup → List String
  checked_ids conf = elim conf.variants [
    | [] ↦ conf.id ∷ []
    | v ∷ vs ↦ if has_star conf.id then variant_ids (v ∷ vs) else conf.id ∷ []
  ]

  unfoldable pub check_all : List String → Option GoError
  check_all [] = none
  check_all (id ∷ ids) = elim (check_registry id) [ some e ↦ some e | none ↦ check_all ids ]

  -- The loop over the files: the loaded configurations, and an error if a registry file is invalid.
  unfoldable pub load_all :
      List (Option ConfFile) → List MqCorpusSetup → Option GoError × List MqCorpusSetup
  unfolding check_all
  load_all [] rscs = (none, rscs)
  load_all (none ∷ files) rscs = load_all files rscs
  load_all (some f ∷ files) rscs =
      if f.is_disabled then load_all files rscs else elim (check_all (checked_ids f.conf)) [
        | some e ↦ (some e, rscs)
        | none ↦ load_all files (append rscs (f.conf ∷ []))
      ]

-- CorporaSetup.ValidateAndDefaults. `dir` and `file` are fs.IsDir and fs.IsFile.
module _ (dir file : String → Result Bool) (validate : MqCorpusSetup → Result MqCorpusSetup) where
  abbrev pub is_dir_error : String → Option GoError
  is_dir_error path =
      if str_eq path "" then some (plain_error "missing directory") else elim (dir path) [
        | err e ↦ some e
        | ok false ↦ some (plain_error "not a directory")
        | ok true ↦ none
      ]

  abbrev pub is_file_error : String → Option GoError
  is_file_error path = elim (file path) [
    | err e ↦ some e
    | ok false ↦ some (plain_error "does not point to a file")
    | ok true ↦ none
  ]

  abbrev cons_valid :
      Result MqCorpusSetup → Result (List MqCorpusSetup) → Result (List MqCorpusSetup)
  cons_valid (err e) rest = err e
  cons_valid (ok c) (err e) = err e
  cons_valid (ok c) (ok cs) = ok (c ∷ cs)

  unfoldable pub validate_resources : List MqCorpusSetup → Result (List MqCorpusSetup)
  validate_resources [] = ok []
  validate_resources (c ∷ cs) = cons_valid (validate c) (validate_resources cs)

  abbrev pub with_resources : CorporaSetup → Result (List MqCorpusSetup) → Result CorporaSetup
  with_resources cs (err e) = err e
  with_resources cs (ok rs) = ok (record cs { resources = rs })

  -- A chunk size of 0 stays 0; the paths in the messages are left out.
  unfoldable pub validate_corpora : Option CorporaSetup → Result CorporaSetup
  unfolding validate_resources
  validate_corpora none = err (plain_error "missing configuration section")
  validate_corpora (some cs) = elim (is_dir_error cs.registry_dir) [
    | some e ↦ err e
    | none ↦ elim (is_dir_error cs.split_corpora_dir) [
      | some e ↦ err e
      | none ↦ elim (is_file_error cs.mktokencov_path) [
        | some e ↦ err e
        | none ↦ with_resources cs (validate_resources cs.resources)
      ]
    ]
  ]

-- GetAllCorpora. `resource` is Resources.get, which may give nil, here `none`; `find_corp` is GetCorp.
module _ (resource : String → Option MqCorpusSetup) (find_corp : String → Found)
    (matches_filter : String → Bool) where
  unfoldable pub variants_of : List (String × Variant) → List (Option MqCorpusSetup)
  variants_of [] = []
  variants_of ((k, v) ∷ rest) = resource v.id ∷ variants_of rest

  unfoldable pub configured_corpora : List MqCorpusSetup → List (Option MqCorpusSetup)
  unfolding variants_of
  configured_corpora [] = []
  configured_corpora (v ∷ vs) = elim v.variants [
    | [] ↦ some v ∷ configured_corpora vs
    | w ∷ ws ↦ append (variants_of (w ∷ ws)) (configured_corpora vs)
  ]

  -- safeGetCorp recovers from a panic.
  abbrev pub safe_get_corp : String → Option MqCorpusSetup
  safe_get_corp id = elim (find_corp id) [ corp c ↦ some c | _ ↦ none ]

  unfoldable pub registered_corpora : List String → List (Option MqCorpusSetup)
  registered_corpora [] = []
  registered_corpora (f ∷ fs) =
      let rest = registered_corpora fs in
      if matches_filter f
      then elim (safe_get_corp f) [ none ↦ rest | some c ↦ some c ∷ rest ]
      else rest

  -- `files` are those of the registry; `none` if they cannot be listed.
  unfoldable pub get_all_corpora :
      CorporaSetup → Option (List String) → Outcome (List (Option MqCorpusSetup))
  unfolding configured_corpora registered_corpora
  get_all_corpora cs files =
      if cs.zero_conf_corpora
      then elim files [ none ↦ panicked | some fs ↦ returned (registered_corpora fs) ]
      else returned (configured_corpora cs.resources)
