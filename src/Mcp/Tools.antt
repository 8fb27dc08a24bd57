-- ===== src/Mcp/Tools.antt =====
-- mcp/tools.go: what each tool asks of the API, and its result.
pub mod Results
use mquery.Base.{ℕ, Bool, true, false, List, [], ◌∷◌, Option, none, some, if◌then◌else◌}
use mquery.Base.Int.{ℤ, pos}
use mquery.Base.Text.{String, str_eq}
use mquery.Errors.{GoError, Result, ok, err}
use mquery.Mcp.{
  ArgValue, text, number, flag, UrlQuery, UrlPackage, join_url, HttpClientError, is_soft_error,
  is_hard_error, HttpReply, http_request,
}

-- mcp.CallToolRequest: the value of an argument, or a default.
pub record ToolRequest : Type 0 where
  pub get_string : String → String → String
  pub get_int : String → ℤ → ℤ
  pub get_bool : String → Bool → Bool

-- An argument that a tool declares; its description is left out. A value that is not required and has
-- no default is `optional`.
pub data Need : Type 0 where
  required : Need
  optional : Need
  default_ : ArgValue → Need

abbrev pub Params : Type 0
Params = List (String × Need)

pub record Tool : Type 0 where
  pub name : String
  pub params : Params
  pub endpoint : String
  pub args : ToolRequest → List (String × ArgValue)

abbrev text_arg : String → String → String → ToolRequest → String × ArgValue
text_arg key name dflt req = (key, text (req.get_string name dflt))

abbrev number_arg : String → String → ℕ → ToolRequest → String × ArgValue
number_arg key name dflt req = (key, number (req.get_int name (pos dflt)))

abbrev bool_arg : String → String → ToolRequest → String × ArgValue
bool_arg key name req = (key, flag (req.get_bool name false))

abbrev pub corp_info_tool : Tool
corp_info_tool = record {
  name = "corpus_info";
  params = ("corpus_id", required) ∷ [];
  endpoint = "info";
  args = λ req. [];
}

abbrev pub term_srch_tool : Tool
term_srch_tool = record {
  name = "term_frequency";
  params = ("corpus_id", required) ∷ ("subcorpus", optional) ∷ ("q", required) ∷ [];
  endpoint = "term-frequency";
  args = λ req. text_arg "subcorpus" "subcorpus" "" req ∷ text_arg "q" "q" "" req ∷ [];
}

abbrev pub freqs_tool : Tool
freqs_tool = record {
  name = "freqs";
  params =
      ("corpus_id", required)
      ∷ ("subcorpus", optional)
      ∷ ("q", required)
      ∷ ("attr", default_ (text "lemma"))
      ∷ ("match_case", optional)
      ∷ ("max_items", default_ (number (pos 20)))
      ∷ ("flimit", default_ (number (pos 1)))
      ∷ [];
  endpoint = "freqs";
  args = λ req.
      text_arg "subcorpus" "subcorpus" "" req
      ∷ text_arg "q" "q" "" req
      ∷ text_arg "attr" "attr" "lemma" req
      ∷ bool_arg "matchCase" "match_case" req
      ∷ number_arg "maxItems" "max_items" 20 req
      ∷ number_arg "flimit" "flimit" 1 req
      ∷ [];
}

abbrev pub text_types_tool : Tool
text_types_tool = record {
  name = "text_types";
  params =
      ("corpus_id", required)
      ∷ ("subcorpus", optional)
      ∷ ("attr", required)
      ∷ ("max_items", default_ (number (pos 20)))
      ∷ ("flimit", default_ (number (pos 1)))
      ∷ [];
  endpoint = "text-types";
  args = λ req.
      text_arg "subcorpus" "subcorpus" "" req
      ∷ text_arg "q" "q" "" req
      ∷ text_arg "attr" "attr" "" req
      ∷ number_arg "maxItems" "max_items" 20 req
      ∷ number_arg "flimit" "flimit" 1 req
      ∷ [];
}

abbrev pub text_types_overview_tool : Tool
text_types_overview_tool = record {
  name = "text_types_overview";
  params =
      ("corpus_id", required)
      ∷ ("subcorpus", optional)
      ∷ ("q", required)
      ∷ ("flimit", default_ (number (pos 1)))
      ∷ [];
  endpoint = "text-types-overview";
  args = λ req.
      text_arg "subcorpus" "subcorpus" "" req
      ∷ text_arg "q" "q" "" req
      ∷ number_arg "flimit" "flimit" 1 req
      ∷ [];
}

abbrev pub collocations_tool : Tool
collocations_tool = record {
  name = "collocations";
  params =
      ("corpus_id", required)
      ∷ ("subcorpus", optional)
      ∷ ("q", required)
      ∷ ("measure", default_ (text "logDice"))
      ∷ ("srch_left", default_ (number (pos 5)))
      ∷ ("srch_right", default_ (number (pos 5)))
      ∷ ("srch_attr", default_ (text "lemma"))
      ∷ ("min_coll_freq", default_ (number (pos 3)))
      ∷ ("max_items", default_ (number (pos 20)))
      ∷ [];
  endpoint = "collocations";
  args = λ req.
      text_arg "subcorpus" "subcorpus" "" req
      ∷ text_arg "q" "q" "" req
      ∷ text_arg "measure" "measure" "logDice" req
      ∷ number_arg "srchLeft" "srch_left" 5 req
      ∷ number_arg "srchRight" "srch_right" 5 req
      ∷ text_arg "srchAttr" "srch_attr" "lemma" req
      ∷ number_arg "minCollFreq" "min_coll_freq" 3 req
      ∷ number_arg "maxItems" "max_items" 20 req
      ∷ [];
}

abbrev pub concordance_tool : Tool
concordance_tool = record {
  name = "concordance";
  params =
      ("corpus_id", required)
      ∷ ("subcorpus", optional)
      ∷ ("q", required)
      ∷ ("format", default_ (text "json"))
      ∷ ("show_markup", default_ (flag false))
      ∷ ("text_props_verbosity", default_ (number (pos 0)))
      ∷ ("context_width", default_ (number (pos 10)))
      ∷ ("context_struct", optional)
      ∷ ("rows_offset", default_ (number (pos 0)))
      ∷ ("max_rows", optional)
      ∷ ("coll", optional)
      ∷ ("coll_range", optional)
      ∷ ("no_shuffle", optional)
      ∷ [];
  endpoint = "concordance";
  args = λ req.
      text_arg "subcorpus" "subcorpus" "" req
      ∷ text_arg "q" "q" "" req
      ∷ text_arg "format" "format" "json" req
      ∷ bool_arg "showMarkup" "show_markup" req
      ∷ number_arg "textPropsVerbosity" "text_props_verbosity" 0 req
      ∷ number_arg "contextWidth" "context_width" 10 req
      ∷ text_arg "contextStruct" "context_struct" "" req
      ∷ number_arg "rowsOffset" "rows_offset" 0 req
      ∷ number_arg "maxRows" "max_rows" 100 req
      ∷ text_arg "coll" "coll" "" req
      ∷ text_arg "collRange" "coll_range" "" req
      ∷ bool_arg "noShuffle" "no_shuffle" req
      ∷ [];
}

abbrev pub text_types_avail_values_tool : Tool
text_types_avail_values_tool = record {
  name = "text_types_avail_values";
  params = ("corpus_id", required) ∷ [];
  endpoint = "text-types-avail-values";
  args = λ req. [];
}

-- The result of a tool, or the error that it returns instead.
pub data ToolResult : Type 0 where
  text_result : String → ToolResult
  error_result : String → ToolResult
  url_failed : GoError → ToolResult
  request_failed : HttpClientError → ToolResult

-- The message is that of the error of the API; its status is left out of it.
unfoldable pub result_of : String × Option HttpClientError → ToolResult
result_of (ans, none) = text_result ans
result_of (ans, some e) =
    if is_soft_error (some e)
    then error_result e.msg
    else if is_hard_error (some e)
    then request_failed e
    else text_result ans

module _ (pkg : UrlPackage) (show : ℤ → String) (send : String → String → UrlQuery → HttpReply)
    (api_url : String) (api_headers : UrlQuery) where
  abbrev pub with_url : Tool → ToolRequest → Result String → ToolResult
  unfolding http_request result_of
  with_url tool req (err e) = url_failed e
  with_url tool req (ok url) =
      result_of (http_request pkg show send "GET" url (tool.args req) api_headers)

  unfoldable pub call_tool : Tool → ToolRequest → ToolResult
  unfolding join_url result_of http_request
  call_tool tool req =
      let corpus_id = req.get_string "corpus_id" "" in
      if str_eq corpus_id ""
      then error_result "missing corpus_id argument"
      else with_url tool req (join_url pkg api_url (tool.endpoint ∷ corpus_id ∷ []))
