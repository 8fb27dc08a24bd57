-- ===== src/Handlers/StreamActions.antt =====
-- corpus/handlers/ttchunked.go: TextTypesStreamed and FreqsByYears. What they write is a list of
-- events as texts. corpus/handlers/common.go: WriteStreamingError.
pub mod Complete
use Prim.Native.String.{◌++◌}
use mquery.Base.{ℕ, Bool, true, false, ◌&&◌, List, [], ◌∷◌, Option, none, some, if◌then◌else◌}
use mquery.Base.Int.{ℤ}
use mquery.Base.Float.{Floats}
use mquery.Base.Sort.{Sorter}
use mquery.Base.Text.{String, str_eq}
use mquery.Errors.{GoError, message, Result, ok, err}
use mquery.Results.Binning.{Outcome, returned, panicked, earlier}
use mquery.Corpora.Setup.{MqCorpusSetup}
use mquery.Corpora.Lookup.{Found, corp, no_corp, nil_dereference}
use mquery.Corpora.Autoconf.{TtPropertyConf, PropertyConfs}
use mquery.Handlers.YearRange.{TimeLayout, StreamData, filter_by_year_range}
use mquery.Handlers.Stream.{
  StreamedFreqsBaseArgs, StreamUrl, base_args, rejected, tt_streamed_base, ChunkOutcome,
  stream_calc,
}
use mquery.Handlers.Request.{
  Url, arg, query_of, is_set, body, Served, nothing, panicking, writing, failing, responding,
}

-- The text of an event; an event without a name has only its data.
unfoldable pub event_text : String → String → String
event_text event message_json =
    if str_eq event ""
    then "data: " ++ message_json ++ "\n\n"
    else "event: " ++ event ++ "\ndata: " ++ message_json ++ "\n\n"

-- `error_json` is the JSON of a streamingError with a text, if it can be encoded.
unfoldable pub streaming_error : (String → Option String) → GoError → String
streaming_error error_json e = elim (error_json (message e)) [
  | some json ↦ "data: " ++ json ++ "\n\n"
  | none ↦ "data: " ++ "{\"error\": \"failed to encode error\"}" ++ "\n\n"
]

abbrev pub stream_url : Url → StreamUrl
stream_url url = record {
  q = query_of "q" url;
  attr = query_of "attr" url;
  fcrit = query_of "fcrit" url;
  event = query_of "event" url;
  flimit = arg "flimit" url;
  max_items = arg "maxItems" url;
}

-- The two limits, with the deprecated arguments if both are empty.
abbrev pub limits_of : Url → String × String
limits_of url =
    if str_eq (query_of "fromDate" url) "" && str_eq (query_of "toDate" url) ""
    then (query_of "fromYear" url, query_of "toYear" url)
    else (query_of "fromDate" url, query_of "toDate" url)

-- The first property with a name, or the given one. A map is the list of its entries.
unfoldable pub named_property : String → PropertyConfs → TtPropertyConf → TtPropertyConf
named_property name [] dflt = dflt
named_property name ((k, v) ∷ rest) dflt =
    if str_eq v.name name then v else named_property name rest dflt

-- What the actions read. `chunk_outcomes` is what opening the split corpus and the queries of its
-- chunks give, in the order in which the goroutines merge. `marshal` is json.Marshal of a message.
-- `get_property` and `is_zero` are methods of the package mquery-common.
module _ (f32 : Floats) (atoi : String → Option ℤ) (bad_int : ℕ)
    (chunk_outcomes : StreamedFreqsBaseArgs → Result (List (ℕ × ChunkOutcome f32.Float)))
    (marshal : StreamData f32.Float → Result String) (error_json : String → Option String) where
  -- The loop over the messages.
  unfoldable pub write_messages : String → List (StreamData f32.Float) → Served String
  unfolding event_text streaming_error
  write_messages event [] = nothing
  write_messages event (m ∷ ms) = elim (marshal m) [
    | err e ↦ responding (streaming_error error_json e)
    | ok json ↦ writing (body (event_text event json)) (write_messages event ms)
  ]

  -- streamCalc, and what follows if the split corpus is there.
  unfoldable pub with_calc :
      StreamedFreqsBaseArgs → (List (StreamData f32.Float) → Served String) → Served String
  unfolding streaming_error stream_calc
  with_calc args next = elim (chunk_outcomes args) [
    | err e ↦ responding (streaming_error error_json e)
    | ok arrivals ↦ next (stream_calc f32 arrivals)
  ]

  unfoldable pub text_types_streamed : Url → Served String
  unfolding tt_streamed_base with_calc write_messages
  text_types_streamed url = elim (tt_streamed_base atoi bad_int (stream_url url)) [
    | rejected status ↦ failing status
    | base_args args ↦ with_calc args (write_messages args.event)
  ]

  module _ (f64 : Floats) (sort : Sorter earlier) (layout_of : String → TimeLayout)
      (find_corp : String → Found) (text_properties_of : MqCorpusSetup → PropertyConfs)
      (get_property : PropertyConfs → String → TtPropertyConf)
      (is_zero : TtPropertyConf → Bool) where
    abbrev pub date_property : PropertyConfs → String → TtPropertyConf
    date_property props attr =
        let tprop = get_property props attr in
        if is_zero tprop then named_property attr props tprop else tprop

    -- A panic of the goroutine of the filter ends the process.
    abbrev pub write_filtered : String → Outcome (List (StreamData f32.Float)) → Served String
    write_filtered event panicked = panicking
    write_filtered event (returned ms) = write_messages event ms

    abbrev pub by_dates : Url → StreamedFreqsBaseArgs → String → Served String
    by_dates url args date_format = with_calc args (λ calc. write_filtered args.event (
        filter_by_year_range f32 f64 sort (layout_of date_format) calc (limits_of url).0
          (limits_of url).1 (is_set "autobin" url)))

    unfoldable pub by_years_of : Url → StreamedFreqsBaseArgs → Found → Served String
    unfolding named_property with_calc
    by_years_of url args no_corp = panicking
    by_years_of url args nil_dereference = panicking
    by_years_of url args (corp cinfo) =
        let tprop = date_property (text_properties_of cinfo) args.attr in
        if str_eq tprop.date_format "" then failing 422 else by_dates url args tprop.date_format

    unfoldable pub freqs_by_years : Url → Served String
    unfolding tt_streamed_base by_years_of
    freqs_by_years url = elim (tt_streamed_base atoi bad_int (stream_url url)) [
      | rejected status ↦ failing status
      | base_args args ↦ by_years_of url args (find_corp (query_of "corpusId" url))
    ]
