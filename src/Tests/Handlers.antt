-- ===== src/Tests/Handlers.antt =====
-- A server with one corpus, for the actions.
use mquery.Errors.{is_prefix}
use mquery.Handlers.Audio.Ranges.{sends, serve_range_lem}
use mquery.Handlers.Audio.{get_range, serve_range, digits, value_from}
use mquery.Base.{
  List, [], ◌∷◌, ◌<◌, ◌≤◌, ℕ, ◌≡◌, refl, none, some, [], ◌∷◌, true, false, Bool, if◌then◌else◌,
}
use mquery.Base.Int.{negsuc, pos}
use mquery.Base.Text.{String, str_eq, split}
use mquery.Results.Binning.{Outcome, returned}
use mquery.Results.Types.{concordance, collocations, Collocations, FuncResult}
use mquery.Worker.Actions.{payloads}
use mquery.Corpora.Setup.{MqCorpusSetup}
use mquery.Corpora.Lookup.{Found, corp, no_corp}
use mquery.Corpora.Markdown.{ConcLine, token, get_attrs, row_of, lines_text, conc_to_markdown}
use mquery.Handlers.Request.{panicking, Url, arg}
use mquery.Handlers.QueryProps.{
  QueryProps, text_types_of, subcorpus_to_cql, props_of, determine_query_props,
}
use mquery.Handlers.QueryProps.Restriction.{IsDetermined, determine_query_props-IsDetermined}
use mquery.Handlers.Exchange.{Actions, received}
use mquery.Handlers.Exchange.Once.{AnswersOnce}
use mquery.Handlers.Conc.{concordance_action, sentences, syntax_concordance}
use mquery.Handlers.Conc.Limits.{IsNarrow, concordances-AnswersOnce}
use mquery.Handlers.CollsExtended.{collocations_extended}
use mquery.Handlers.CollsExtended.Events.{IsSteady, collocations_extended-IsSteady}
use mquery.Tests.{nat_floats}
use mquery.Tests.Corpora.{setup}

abbrev fiction : MqCorpusSetup
fiction = record (setup "syn") {
  subcorpora = ("fiction", ("text.genre", "novel" ∷ "tale" ∷ []) ∷ []) ∷ [];
}

abbrev find_corp : String → Found
find_corp id = if str_eq id "syn" then corp fiction else no_corp

abbrev no_saved : String → Outcome (String × Bool)
no_saved subc = returned ("", false)

abbrev Answer : Type 0
Answer = FuncResult (payloads nat_floats nat_floats ConcLine String)

abbrev colls : Collocations ℕ
colls = record {
  conc_size = 8;
  corpus_size = 1000;
  subc_size = 0;
  colls = record { word = "black"; score = 9; freq = 4 } ∷ [];
  measure = "logDice";
  srch_range = (pos 0, pos 5);
  error = none;
}

abbrev line : ConcLine
line = record {
  elements =
      token (record { word = "a"; strong = false; attrs = [] })
      ∷ token (record { word = "cat"; strong = true; attrs = [] })
      ∷ [];
  props = [];
}

abbrev answer : String → Answer
answer func =
    if str_eq func "collocations"
    then collocations colls
    else concordance (record { lines = line ∷ []; conc_size = 1; corpus_size = 1000; error = none })

abbrev acts : Actions (payloads nat_floats nat_floats ConcLine String)
acts = record {
  find_corp = find_corp;
  saved_subcorpus_of = no_saved;
  registry_path = λ id. id;
  prop_of = λ c attr. "";
  atoi = λ s. none;
  bad_int = 400;
  ask = λ func args. received (some (answer func)) false;
}

abbrev url : Url
url = ("corpusId", "syn") ∷ ("q", "[lemma=\"cat\"]") ∷ ("subcorpus", "fiction") ∷ []

concordances-AnswersOnce_example :
    AnswersOnce IsNarrow (concordance_action nat_floats nat_floats acts url)
    × AnswersOnce IsNarrow (sentences nat_floats nat_floats acts url)
    × AnswersOnce IsNarrow (syntax_concordance nat_floats nat_floats acts url)
concordances-AnswersOnce_example = concordances-AnswersOnce nat_floats nat_floats acts url

abbrev restricted : QueryProps
restricted = props_of "syn" fiction "" "[lemma=\"cat\"] within <text genre=\"novel|tale\" />"

determine_query_props-IsDetermined_example : IsDetermined find_corp no_saved url restricted
unfolding determine_query_props subcorpus_to_cql text_types_of arg split
determine_query_props-IsDetermined_example =
    determine_query_props-IsDetermined find_corp no_saved url restricted refl refl

abbrev uuid : ℕ → String
uuid n = "f0"

collocations_extended-IsSteady_example :
    IsSteady acts uuid (0 ∷ []) (collocations_extended acts uuid (0 ∷ []) url)
collocations_extended-IsSteady_example = collocations_extended-IsSteady acts uuid (0 ∷ []) url

-- A concordance as a table.
markdown_test :
    conc_to_markdown fiction
      (record { lines = line ∷ []; conc_size = 1; corpus_size = 1000; error = none })
      false
    ≡ returned
        "|left context | KWIC | right context |\n|-------:|:----:|:-------|\n| …  a |  **cat** …|\n|| [] ||\n\n\n"
unfolding conc_to_markdown lines_text row_of get_attrs
markdown_test = refl

abbrev bytes : List ℕ
bytes = 10 ∷ 11 ∷ 12 ∷ 13 ∷ []

serve_range_lem_example :
    (1 < 3
      → 3 ≤ 4
      → get_range "bytes=1-3" ≡ some (pos 1, pos 3)
      → serve_range "bytes=1-3" bytes ≡ sends "bytes=1-3" bytes (11 ∷ 12 ∷ []))
    × (0 < 4 → serve_range "" bytes ≡ sends "" bytes bytes)
    × (4 < 1
        → get_range "bytes=1-3" ≡ some (pos 1, negsuc 0)
        → serve_range "bytes=1-3" bytes ≡ panicking)
serve_range_lem_example = serve_range_lem bytes 1 3 "bytes=1-3"

-- The range that the header asks for.
range_test : get_range "bytes=1-3" ≡ some (pos 1, pos 3)
unfolding get_range digits value_from is_prefix
range_test = refl
