-- ===== src/Handlers/Conc/Args.antt =====
-- corpus/handlers/conc.go: the arguments of the queries.
use mquery.Base.{ℕ, Bool, true, false, not, List, [], ◌∷◌, Option, none, some, if◌then◌else◌}
use mquery.Base.Int.{ℤ, pos, ltb_ℤ}
use mquery.Base.Text.{String, str_eq, split}
use mquery.Rdb.Query.{ConcordanceArgs}
use mquery.Results.Types.{Concordance}
use mquery.Corpora.Setup.{MqCorpusSetup}
use mquery.Corpora.Markdown.{ConcLine}
use mquery.Handlers.Request.{Url, default_query, query_of, is_set}
use mquery.Handlers.QueryProps.{QueryProps}

abbrev pub concordance_max_width : ℕ
concordance_max_width = 50

abbrev pub concordance_default_width : ℕ
concordance_default_width = 10

abbrev pub term_freq_context : ℕ
term_freq_context = 5

-- concFormat.Validate
abbrev pub is_format : String → Bool
is_format cf = if str_eq cf "json" then true else str_eq cf "markdown"

-- A concordance is written as JSON or as Markdown.
pub data ConcBody : Type 0 where
  conc_json : Concordance ConcLine → ConcBody
  conc_markdown : String → ConcBody

-- The range of the collocate: of no use without a query for it; `none` is status 400.
unfoldable pub coll_range : (String → Option ℤ) → String → String → Option (ℤ × ℤ)
coll_range atoi coll_query rng =
    if str_eq coll_query ""
    then some (pos 0, pos 0)
    else if str_eq rng ""
    then some (pos 0, pos 0)
    else elim (split rng ",") [
      | left ∷ right ∷ [] ↦ elim (atoi left) [
        | none ↦ none
        | some l ↦ elim (atoi right) [ none ↦ none | some r ↦ some (l, r) ]
      ]
      | _ ↦ none
    ]

abbrev pub show_structs : Url → MqCorpusSetup → List String
show_structs url conf = if is_set "showMarkup" url then conf.conc_markup_structures else []

abbrev pub show_refs : Url → MqCorpusSetup → List String
show_refs url conf =
    if str_eq (query_of "showTextProps" url) "1"
    then conf.conc_text_props_attrs
    else if str_eq (query_of "showTextProps" url) "2"
    then conf.full_conc_text_props_attrs
    else []

abbrev pub positive_or : ℤ → ℤ → ℤ
positive_or dflt n = if ltb_ℤ (pos 0) n then n else dflt

-- The validator of SyntaxConcordance and of Sentences.
abbrev pub has_sentences : ConcordanceArgs → Bool
has_sentences args = not (str_eq args.view_context_struct "")

-- conf is what `props.corpus_conf` points to.
module _ (registry_path : String → String) (url : Url) (props : QueryProps)
    (conf : MqCorpusSetup) where
  unfoldable pub syntax_args : ConcordanceArgs
  syntax_args = record {
    corpus_path = registry_path conf.id;
    subc_path = "";
    query = props.query;
    query_lemma = query_of "lemma" url;
    coll_query = "";
    coll_lft_ctx = pos 0;
    coll_rgt_ctx = pos 0;
    attrs = conf.syntax_result_attrs;
    show_structs = [];
    show_refs = [];
    max_items = conf.maximum_records;
    shuffle = true;
    rows_offset = pos 0;
    max_context = pos concordance_max_width;
    view_context_struct = conf.view_context_struct;
    parent_idx_attr = conf.syntax_parent_attr;
  }

  unfoldable pub conc_args : ℤ → ℤ → ℤ → ℤ × ℤ → ConcordanceArgs
  conc_args context_width max_rows rows_offset range = record {
    corpus_path = registry_path conf.id;
    subc_path = props.saved_subcorpus;
    query = props.query;
    query_lemma = "";
    coll_query = query_of "coll" url;
    coll_lft_ctx = range.0;
    coll_rgt_ctx = range.1;
    attrs = conf.pos_attrs;
    show_structs = show_structs url conf;
    show_refs = show_refs url conf;
    max_items = positive_or conf.maximum_records max_rows;
    shuffle = not (is_set "noShuffle" url);
    rows_offset = rows_offset;
    max_context = context_width;
    view_context_struct = default_query "contextStruct" conf.view_context_struct url;
    parent_idx_attr = conf.syntax_parent_attr;
  }

  unfoldable pub sentences_args : ℤ → ConcordanceArgs
  sentences_args rows_offset = record {
    corpus_path = registry_path conf.id;
    subc_path = props.saved_subcorpus;
    query = props.query;
    query_lemma = "";
    coll_query = "";
    coll_lft_ctx = pos 0;
    coll_rgt_ctx = pos 0;
    attrs = conf.pos_attrs;
    show_structs = show_structs url conf;
    show_refs = show_refs url conf;
    max_items = conf.maximum_records;
    shuffle = not (is_set "noShuffle" url);
    rows_offset = rows_offset;
    max_context = pos concordance_max_width;
    view_context_struct = conf.view_context_struct;
    parent_idx_attr = conf.syntax_parent_attr;
  }

unfoldable pub term_args : (String → String) → QueryProps → MqCorpusSetup → ConcordanceArgs
term_args registry_path props conf = record {
  corpus_path = registry_path conf.id;
  subc_path = props.saved_subcorpus;
  query = props.query;
  query_lemma = "";
  coll_query = "";
  coll_lft_ctx = pos 0;
  coll_rgt_ctx = pos 0;
  attrs = conf.pos_attrs;
  show_structs = [];
  show_refs = [];
  max_items = pos 1;
  shuffle = false;
  rows_offset = pos 0;
  max_context = pos term_freq_context;
  view_context_struct = conf.view_context_struct;
  parent_idx_attr = conf.syntax_parent_attr;
}

abbrev pub ArgsBuilder : Type 0
ArgsBuilder = QueryProps → MqCorpusSetup → ConcordanceArgs

abbrev pub some_refs : List String → Bool
some_refs [] = false
some_refs (r ∷ rs) = true
