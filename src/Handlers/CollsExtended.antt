-- ===== src/Handlers/CollsExtended.antt =====
-- corpus/handlers/collswithex.go: CollocationsExtended, a stream of collocations that are completed
-- with examples; and Collocations of corpus/handlers/colls.go as a whole. The goroutines of the
-- collocates are taken in the order in which they deliver.
pub mod Items
pub mod Examples
pub mod Events
use Prim.Native.Char.{code}
use Prim.Native.String.{◌++◌}
use mquery.Base.{
  ℕ, zero, suc, Bool, true, false, List, [], ◌∷◌, Option, none, some, if◌then◌else◌, get_elem?, map,
  ◌==◌,
}
use mquery.Base.Int.{ℤ, pos, ltb_ℤ}
use mquery.Base.Float.{Floats}
use mquery.Base.Text.{String, str_eq}
use mquery.Errors.{GoError}
use mquery.Rdb.Query.{Args, CollocationsArgs, ConcordanceArgs, collocations_args, concordance_args}
use mquery.Results.Binning.{Outcome, returned, panicked}
use mquery.Results.Types.{Payloads, GoCollItem, Collocations, Concordance, FuncResult, err_of}
use mquery.Corpora.Setup.{MqCorpusSetup}
use mquery.Corpora.Lookup.{Found, corp}
use mquery.Handlers.Request.{
  Url, arg, query_of, Write, error_status, body, Served, nothing, writing, failing, responding,
  panicking, asking, with_int,
}
use mquery.Handlers.Parallel.{int_arg}
use mquery.Handlers.QueryProps.{QueryProps, determine_query_props}
use mquery.Handlers.Collocations.{
  CollUrl, CollArgs, FetchedArgs, coll_args, coll_rejected, or_else, fetch_coll_action_args,
  negated, coll_query_args, coll_response,
}
use mquery.Handlers.Conc.{concordance_max_width, concordance_default_width}
use mquery.Handlers.Exchange.{
  Actions, Asked, not_published, received, typed_or_respond_error, exchange, as_collocations,
  as_concordance,
}
unfoldable pub use Items.*

-- `uuid` gives the interaction of a collocate, and `arrivals` are the positions of the collocates in
-- the order in which their goroutines deliver.
module _ {ty : Payloads} (a : Actions ty) (uuid : ℕ → String) (arrivals : List ℕ) where
  abbrev pub Message : Type 0
  Message = StreamMessage ty.Line ty.Float64

  -- If the query cannot be published, the item carries the error of the collocations, which is nil.
  abbrev pub deliver_value :
      ℕ
      → GoCollItem ty.Float64
      → Option GoError
      → Option (FuncResult ty)
      → Bool
      → Delivery ty.Line ty.Float64
  deliver_value i v e none user_error = goroutine_panicked
  deliver_value i v e (some r) user_error = elim (err_of r) [
    | some x ↦ responded (if user_error then 400 else 500)
    | none ↦ elim (as_concordance r) [
      | none ↦ responded 500
      | some conc ↦ delivered (item_with_examples (uuid i) v conc)
    ]
  ]

  abbrev pub deliver :
      ℕ → GoCollItem ty.Float64 → Option GoError → Asked ty → Delivery ty.Line ty.Float64
  deliver i v e not_published = delivered (record (bare_item v) { err = e })
  deliver i v e (received r user_error) = deliver_value i v e r user_error

  module _ (event : String) (args_of : String → ConcordanceArgs)
      (result : Collocations ty.Float64) where
    abbrev pub EndResult : Type 0
    EndResult = EndpointResult ty.Line ty.Float64

    abbrev pub streamed :
        ℕ → EndResult → Delivery ty.Line ty.Float64 → (EndResult → Served Message) → Served Message
    streamed i ans (delivered x) next =
        writing (body (event_data event (with_item i x ans))) (next (with_item i x ans))
    streamed i ans (responded status) next = writing (error_status status) (next ans)
    streamed i ans goroutine_panicked next = panicking

    -- The loop over the results, from an answer on.
    unfoldable pub deliveries : EndResult → List ℕ → Served Message
    deliveries ans [] = nothing
    deliveries ans (i ∷ rest) = elim (get_elem? result.colls i) [
      | none ↦ deliveries ans rest
      | some v ↦
          let args = concordance_args (args_of v.word) in
          asking "concordance" args (
            streamed i ans (deliver i v result.error (a.ask "concordance" args))
              (λ after. deliveries after rest))
    ]

  abbrev pub streaming_failure : Served Message
  streaming_failure = responding stream_error

  -- HandleWorkerErrorStreaming and TypedOrRespondErrorStreaming, with what follows.
  unfoldable pub streamed_value :
      Option (FuncResult ty) → (Collocations ty.Float64 → Served Message) → Served Message
  streamed_value none next = panicking
  streamed_value (some r) next = elim (err_of r) [
    | some e ↦ streaming_failure
    | none ↦ elim (as_collocations r) [ none ↦ streaming_failure | some res ↦ next res ]
  ]

  abbrev pub answer_of :
      Collocations ty.Float64 → List (GoCollItem ty.Float64) → EndpointResult ty.Line ty.Float64
  answer_of result cmp = record {
    corpus_size = result.corpus_size;
    colls = map bare_item result.colls;
    cmp_colls = cmp;
    measure = result.measure;
    srch_range = result.srch_range;
  }

  module _ (url : Url) (props : QueryProps) (args : CollArgs) (width : ℤ) where
    abbrev pub srch_attr_of : String
    srch_attr_of = or_else "lemma" (query_of "srchAttr" url)

    abbrev pub corpus_path_of : String → String
    corpus_path_of id = a.registry_path id

    -- What follows the first message.
    abbrev pub stream_examples :
        Found → Collocations ty.Float64 → List (GoCollItem ty.Float64) → ℤ → Served Message
    stream_examples (corp conf) result cmp examples =
        deliveries args.event
          (example_args (corpus_path_of props.corpus) props conf args srch_attr_of width examples)
          result (answer_of result cmp) arrivals
    stream_examples _ result cmp examples = panicking

    abbrev pub stream_from : Collocations ty.Float64 → List (GoCollItem ty.Float64) → Served Message
    stream_from result cmp =
        writing (body (event_data args.event (answer_of result cmp)))
          (elim (int_arg a.atoi (pos default_examples_per_coll) (arg "examplesPerColl" url)) [
            | none ↦ streaming_failure
            | some examples ↦ stream_examples (a.find_corp props.corpus) result cmp examples
          ])

    -- The second result: an empty one if there is no corpus to compare with.
    abbrev pub compared : Collocations ty.Float64 → Option (FuncResult ty) → Served Message
    compared result none = stream_from (coll_response result) []
    compared result r = streamed_value r (λ second. stream_from (coll_response result) second.colls)

    -- The saved subcorpus is not part of the query.
    abbrev pub ext_query : String → Args
    ext_query corpus_id =
        collocations_args
          (coll_query_args (corpus_path_of corpus_id) "" props.query (coll_url url) args)

    abbrev pub both_answers : Asked ty → Asked ty → Served Message
    both_answers not_published second = failing 500
    both_answers first not_published = failing 500
    both_answers (received r1 u1) (received r2 u2) =
        streamed_value r1 (λ result. compared result r2)

    -- The comparison is published only if the first query was, and both before any answer is read.
    abbrev pub second_query : Asked ty → Served Message
    second_query not_published = failing 500
    second_query (received r u) =
        let cmp_corp = query_of "cmpCorp" url in
        if str_eq cmp_corp ""
        then both_answers (received r u) (received none false)
        else asking "collocations" (ext_query cmp_corp)
            (both_answers (received r u) (a.ask "collocations" (ext_query cmp_corp)))

    unfoldable pub extended_queries : Served Message
    unfolding deliveries streamed_value example_args
    extended_queries =
        let args = ext_query props.corpus in
        asking "collocations" args (second_query (a.ask "collocations" args))

  abbrev pub extended_for : Url → QueryProps → FetchedArgs → Served Message
  extended_for url props (coll_rejected status) = failing status
  extended_for url props (coll_args args) =
      with_int a.atoi a.bad_int "contextWidth" (pos concordance_default_width) url λ width.
        if ltb_ℤ (pos concordance_max_width) width
        then failing 400
        else extended_queries url props args width

  abbrev pub extended_props : Url → Outcome QueryProps → Served Message
  extended_props url panicked = panicking
  extended_props url (returned props) = elim props.status [
    | some status ↦ failing status
    | none ↦ extended_for url props (fetch_coll_action_args a.atoi a.bad_int (coll_url url))
  ]

  unfoldable pub collocations_extended : Url → Served Message
  unfolding extended_queries
  collocations_extended url =
      extended_props url (determine_query_props a.find_corp a.saved_subcorpus_of url)

-- Collocations of corpus/handlers/colls.go.
module _ {ty : Payloads} (a : Actions ty) where
  abbrev pub collocations_for : Url → QueryProps → FetchedArgs → Served (Collocations ty.Float64)
  collocations_for url props (coll_rejected status) = failing status
  collocations_for url props (coll_args args) =
      exchange a.ask "collocations"
        (collocations_args (
          coll_query_args (a.registry_path props.corpus) props.saved_subcorpus props.query
            (coll_url url) args))
        (typed_or_respond_error as_collocations (λ result. responding (coll_response result)))

  abbrev pub collocations_props : Url → Outcome QueryProps → Served (Collocations ty.Float64)
  collocations_props url panicked = panicking
  collocations_props url (returned props) = elim props.status [
    | some status ↦ failing status
    | none ↦ collocations_for url props (fetch_coll_action_args a.atoi a.bad_int (coll_url url))
  ]

  unfoldable pub collocations_action : Url → Served (Collocations ty.Float64)
  collocations_action url =
      collocations_props url (determine_query_props a.find_corp a.saved_subcorpus_of url)
