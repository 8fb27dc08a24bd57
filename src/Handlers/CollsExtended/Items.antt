-- ===== src/Handlers/CollsExtended/Items.antt =====
-- corpus/handlers/collswithex.go: the items and messages of a stream of collocations.
use Prim.Native.Char.{code}
use Prim.Native.String.{◌++◌}
use mquery.Base.{ℕ, zero, suc, true, List, [], ◌∷◌, Option, none, if◌then◌else◌, map, ◌==◌}
use mquery.Base.Int.{ℤ, pos}
use mquery.Base.Text.{String}
use mquery.Errors.{GoError}
use mquery.Rdb.Query.{ConcordanceArgs}
use mquery.Results.Types.{GoCollItem, Concordance}
use mquery.Corpora.Setup.{MqCorpusSetup}
use mquery.Handlers.Request.{Url, arg, query_of}
use mquery.Handlers.QueryProps.{QueryProps}
use mquery.Handlers.Collocations.{CollUrl, CollArgs, negated}

abbrev pub default_examples_per_coll : ℕ
default_examples_per_coll = 5

abbrev pub coll_url : Url → CollUrl
coll_url url = record {
  measure = query_of "measure" url;
  srch_left = arg "srchLeft" url;
  srch_right = arg "srchRight" url;
  min_coll_freq = arg "minCollFreq" url;
  min_corp_freq = arg "minCorpFreq" url;
  max_items = arg "maxItems" url;
  event = query_of "event" url;
  srch_attr = query_of "srchAttr" url;
}

-- strings.ReplaceAll of `"` by `\"`
unfoldable pub escaped : String → String
escaped String.[] = ""
escaped (String.◌∷◌ c s) = if code c == 34 then "\\\"" ++ escaped s else String.◌∷◌ c (escaped s)

-- An item of the stream; `Comparison` is never set.
pub record ExtendedCollItem (Line F : Type 0) : Type 0 where
  pub word : String
  pub score : F
  pub freq : ℕ
  pub interaction_id : String
  pub examples : List (Line × String)
  pub err : Option GoError

-- `SubcSize` and `Error` are never set.
pub record EndpointResult (Line F : Type 0) : Type 0 where
  pub corpus_size : ℕ
  pub colls : List (ExtendedCollItem Line F)
  pub cmp_colls : List (GoCollItem F)
  pub measure : String
  pub srch_range : ℤ × ℤ

-- A message of the stream, with its event, or an error message.
pub data StreamMessage (Line F : Type 0) : Type 0 where
  event_data : String → EndpointResult Line F → StreamMessage Line F
  stream_error : StreamMessage Line F

module _ {Line F : Type 0} where
  abbrev pub bare_item : GoCollItem F → ExtendedCollItem Line F
  bare_item v = record {
    word = v.word;
    score = v.score;
    freq = v.freq;
    interaction_id = "";
    examples = [];
    err = none;
  }

  -- The item that a goroutine delivers for a concordance.
  abbrev pub item_with_examples : String → GoCollItem F → Concordance Line → ExtendedCollItem Line F
  item_with_examples id v conc = record {
    word = v.word;
    score = v.score;
    freq = v.freq;
    interaction_id = id;
    examples = map (λ l. (l, id)) conc.lines;
    err = conc.error;
  }

  -- ans.Colls[i] = item
  unfoldable pub set_at :
      ℕ → ExtendedCollItem Line F → List (ExtendedCollItem Line F) → List (ExtendedCollItem Line F)
  set_at i x [] = []
  set_at zero x (y ∷ ys) = x ∷ ys
  set_at (suc i) x (y ∷ ys) = y ∷ set_at i x ys

  abbrev pub with_item : ℕ → ExtendedCollItem Line F → EndpointResult Line F → EndpointResult Line F
  with_item i x ans = record ans { colls = set_at i x ans.colls }

-- What a goroutine does with the answer to its query: an item, an error response in the midst of the
-- stream, or a panic, which ends the process.
pub data Delivery (Line F : Type 0) : Type 0 where
  delivered : ExtendedCollItem Line F → Delivery Line F
  responded : ℕ → Delivery Line F
  goroutine_panicked : Delivery Line F

-- The query for the examples of a collocate.
unfoldable pub example_args :
    String → QueryProps → MqCorpusSetup → CollArgs → String → ℤ → ℤ → String → ConcordanceArgs
unfolding escaped
example_args corpus_path props conf args srch_attr width examples word = record {
  corpus_path = corpus_path;
  subc_path = "";
  query = props.query;
  query_lemma = "";
  coll_query = "[" ++ srch_attr ++ "==\"" ++ escaped word ++ "\"]";
  coll_lft_ctx = negated args.srch_left;
  coll_rgt_ctx = args.srch_right;
  attrs = conf.pos_attrs;
  show_structs = [];
  show_refs = conf.conc_text_props_attrs;
  max_items = examples;
  shuffle = true;
  rows_offset = pos 0;
  max_context = width;
  view_context_struct = conf.view_context_struct;
  parent_idx_attr = "";
}
