-- ===== src/Corpora/Autoconf/Generate.antt =====
-- corpus/autoconf.go: a generated configuration. checkRegistryFile of corpus/corpconf.go.
use mquery.Base.{Bool, true, false, List, [], ◌∷◌, Option, none, some}
use mquery.Base.Int.{pos}
use mquery.Base.Text.{String}
use mquery.Errors.{GoError, plain_error, Result, ok, err}
use mquery.Corpora.Setup.{Texts, MqCorpusSetup, validate_and_defaults}
use mquery.Corpora.Autoconf.{
  Document, PosAttr, TextProperties, PropertyConfs, get_sel_attr_set, extract_pos_attrs,
  extract_markup_structs, get_sentence_struct, get_all_text_props, extract_text_props_strucattrs,
}

-- What reads a registry file: filepath.Join of the directory and the name, os.ReadFile and the parser
-- of registry files at one time, and at the later time of the check.
pub record Registry : Type 0 where
  pub parsed : String → Option Document
  pub parsed_later : String → Option Document
  pub is_dir : String → Result Bool

unfoldable pub check_registry_file : Registry → String → Option GoError
check_registry_file r reg_path = elim (r.parsed_later reg_path) [
  | none ↦ some (plain_error "failed to read or parse registry file")
  | some reg ↦ elim (r.is_dir reg.path) [
    | err e ↦ some (plain_error "failed to validate corpus data path")
    | ok false ↦ some (plain_error "corpus data path is not a directory")
    | ok true ↦ none
  ]
]

unfoldable pub load_registry : Registry → String → Result Document
unfolding check_registry_file
load_registry r reg_path = elim (r.parsed reg_path) [
  | none ↦ err (plain_error "failed to autogenerate corpus config")
  | some reg ↦ elim (check_registry_file r reg_path) [
    | some e ↦
        err (plain_error "failed to validate corpus autoconfiguration; corpus won't be available")
    | none ↦ ok reg
  ]
]

abbrev keys : PropertyConfs → List String
keys [] = []
keys ((k, v) ∷ rest) = k ∷ keys rest

abbrev names : PropertyConfs → Texts
names [] = []
names ((k, v) ∷ rest) = (k, v.name) ∷ names rest

abbrev pos_attr_names : List PosAttr → List String
pos_attr_names [] = []
pos_attr_names ((n, d) ∷ rest) = n ∷ pos_attr_names rest

-- `empty_setup` is the configuration with the ID that has no other value; `known_structures_of`,
-- `conc_attrs_of` and `overview_of` are the methods of mquery-common.
module _ (props : TextProperties) (is_dynamic : String → Bool) (valid_property : String → Bool)
    (has_pos_attr : Document → String → Bool) (known_structures_of : List String → List String)
    (conc_attrs_of : PropertyConfs → List String) (overview_of : PropertyConfs → Texts) where
  abbrev pub new_conf : String → Document → MqCorpusSetup
  unfolding extract_text_props_strucattrs extract_pos_attrs extract_markup_structs get_sel_attr_set
      get_all_text_props get_sentence_struct
  new_conf corpus_id reg =
      let text_props = extract_text_props_strucattrs props reg in
      let markup = extract_markup_structs reg.structures in
      record {
        id = corpus_id;
        full_name = ("en", reg.corpus_name) ∷ [];
        description = [];
        variants = [];
        pos_attrs = pos_attr_names (extract_pos_attrs reg.pos_attrs (get_sel_attr_set reg));
        text_properties = keys text_props;
        maximum_records = pos 0;
        maximum_token_context_window = pos 0;
        full_conc_text_props_attrs = get_all_text_props reg.structures;
        subcorpora = [];
        property_names = names text_props;
        conc_markup_structures = markup;
        syntax_result_attrs = [];
        syntax_parent_attr = "";
        view_context_struct = get_sentence_struct (has_pos_attr reg);
        has_public_audio = false;
        conc_text_props_attrs = conc_attrs_of text_props;
        known_structures = known_structures_of markup;
        overview_props = overview_of text_props;
      }

  abbrev or_nil : Result MqCorpusSetup → Option MqCorpusSetup
  or_nil (ok c) = some c
  or_nil (err e) = none

  -- A nil pointer is `none`.
  unfoldable pub autogenerate_conf : Registry → (String → String) → String → Option MqCorpusSetup
  unfolding load_registry validate_and_defaults
  autogenerate_conf r registry_path corpus_id = elim (load_registry r (registry_path corpus_id)) [
    | err e ↦ none
    | ok reg ↦ or_nil (
        validate_and_defaults (λ id variants. is_dynamic id) valid_property
          (new_conf corpus_id reg))
  ]
