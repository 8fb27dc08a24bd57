-- ===== src/Handlers/Conc.antt =====
-- corpus/handlers/conc.go: the concordances and the frequency of a term, from the arguments of the
-- request to the response.
pub mod Args
pub mod Limits
use mquery.Base.{
  ℕ, zero, suc, Bool, true, false, not, ◌&&◌, List, [], ◌∷◌, Option, none, some, if◌then◌else◌,
}
use mquery.Base.Int.{ℤ, pos, ltb_ℤ}
use mquery.Base.Float.{Floats}
use mquery.Base.Text.{String, str_eq, split}
use mquery.Rdb.Query.{ConcordanceArgs, concordance_args, term_frequency_args}
use mquery.Results.Binning.{Outcome, returned, panicked}
use mquery.Results.Types.{ConcSize, Concordance, FuncResult}
use mquery.Worker.Actions.{payloads}
use mquery.Corpora.Setup.{MqCorpusSetup}
use mquery.Corpora.Lookup.{Found, corp, no_corp, nil_dereference}
use mquery.Corpora.Markdown.{ConcLine, apply_text_properties_mapping, conc_to_markdown}
use mquery.Handlers.Request.{
  Url, arg, default_query, query_of, is_set, Write, error_status, Served, writing, failing,
  responding, panicking, with_int,
}
use mquery.Handlers.QueryProps.{QueryProps, determine_query_props}
use mquery.Handlers.Exchange.{
  Actions, typed_or_respond_error, exchange, as_concordance, as_conc_size,
}
unfoldable pub use Args.*

module _ (f32 f64 : Floats) {Overview : Type 0}
    (a : Actions (payloads f32 f64 ConcLine Overview)) where
  abbrev pub markdown_response : Outcome String → Served ConcBody
  markdown_response panicked = panicking
  markdown_response (returned md) = responding (conc_markdown md)

  -- A nil configuration has no attributes to read.
  abbrev pub markdown_for : List String → Concordance ConcLine → Found → Served ConcBody
  markdown_for refs result (corp conf) =
      markdown_response (conc_to_markdown conf result (some_refs refs))
  markdown_for refs result no_corp = panicking
  markdown_for refs result nil_dereference = panicking

  -- What is written for the format.
  unfoldable pub formatted :
      String → QueryProps → List String → Concordance ConcLine → Served ConcBody
  formatted format props refs result =
      if str_eq format "json"
      then responding (conc_json result)
      else if str_eq format "markdown"
      then markdown_for refs result (a.find_corp props.corpus)
      else failing 422

  abbrev pub answer_concordance :
      String
      → QueryProps
      → MqCorpusSetup
      → ConcordanceArgs
      → FuncResult (payloads f32 f64 ConcLine Overview)
      → Served ConcBody
  answer_concordance format props conf args = typed_or_respond_error as_concordance (λ result.
      formatted format props args.show_refs (apply_text_properties_mapping (a.prop_of conf) result))

  unfoldable pub published_concordance :
      String → ArgsBuilder → (ConcordanceArgs → Bool) → QueryProps → MqCorpusSetup → Served ConcBody
  unfolding formatted
  published_concordance format builder valid props conf =
      let args = builder props conf in
      if valid args
      then exchange a.ask "concordance" (concordance_args args)
          (answer_concordance format props conf args)
      else failing 400

  unfoldable pub concordance_for :
      String → ArgsBuilder → (ConcordanceArgs → Bool) → Outcome QueryProps → Served ConcBody
  unfolding published_concordance
  concordance_for format builder valid panicked = panicking
  concordance_for format builder valid (returned props) = elim props.status [
    | some status ↦ failing status
    | none ↦ elim props.corpus_conf [
      | none ↦ panicking
      | some conf ↦ published_concordance format builder valid props conf
    ]
  ]

  unfoldable pub any_concordance :
      Url → String → ArgsBuilder → (ConcordanceArgs → Bool) → Served ConcBody
  unfolding concordance_for
  any_concordance url format builder valid =
      concordance_for format builder valid
        (determine_query_props a.find_corp a.saved_subcorpus_of url)

  unfoldable pub syntax_concordance : Url → Served ConcBody
  unfolding any_concordance
  syntax_concordance url =
      any_concordance url "json" (syntax_args a.registry_path url) has_sentences

  -- Concordance, with the integer arguments and the range of the collocate.
  abbrev pub ranged : Url → String → ℤ → ℤ → ℤ → Option (ℤ × ℤ) → Served ConcBody
  ranged url format width max_rows rows_offset none = failing 400
  ranged url format width max_rows rows_offset (some range) =
      any_concordance url format
        (λ props conf. conc_args a.registry_path url props conf width max_rows rows_offset range)
        (λ args. true)

  unfoldable pub concordance_action : Url → Served ConcBody
  unfolding any_concordance coll_range
  concordance_action url =
      let format = default_query "format" "json" url in
      if is_format format
      then (with_int a.atoi a.bad_int "contextWidth" (pos concordance_default_width) url λ width.
          if ltb_ℤ (pos concordance_max_width) width
          then failing 400
          else with_int a.atoi a.bad_int "maxRows" (pos 0) url λ max_rows.
            with_int a.atoi a.bad_int "rowsOffset" (pos 0) url λ rows_offset.
              ranged url format width max_rows rows_offset
                (coll_range a.atoi (query_of "coll" url) (query_of "collRange" url)))
      else failing 400

  unfoldable pub sentences : Url → Served ConcBody
  unfolding any_concordance
  sentences url =
      let format = default_query "format" "json" url in
      if is_format format
      then (with_int a.atoi a.bad_int "rowsOffset" (pos 0) url λ rows_offset.
          any_concordance url format
            (λ props conf. sentences_args a.registry_path url props conf rows_offset) has_sentences)
      else failing 400

  -- After an error of the query properties is written, the action goes on, with a nil configuration
  -- if there is no such corpus.
  unfoldable pub term_query : QueryProps → Served (ConcSize f64.Float)
  term_query props = elim props.corpus_conf [
    | none ↦ panicking
    | some conf ↦
        exchange a.ask "termFrequency" (term_frequency_args (term_args a.registry_path props conf))
          (typed_or_respond_error as_conc_size (λ result. responding result))
  ]

  unfoldable pub term_frequency_for : Outcome QueryProps → Served (ConcSize f64.Float)
  unfolding term_query
  term_frequency_for panicked = panicking
  term_frequency_for (returned props) = elim props.status [
    | none ↦ term_query props
    | some status ↦ writing (error_status status) (term_query props)
  ]

  unfoldable pub term_frequency : Url → Served (ConcSize f64.Float)
  unfolding term_frequency_for
  term_frequency url =
      term_frequency_for (determine_query_props a.find_corp a.saved_subcorpus_of url)
