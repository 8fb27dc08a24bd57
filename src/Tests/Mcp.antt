-- ===== src/Tests/Mcp.antt =====
-- Tools over an API that knows one corpus.
use mquery.Base.{◌≡◌, refl, [], ◌∷◌, some, if◌then◌else◌}
use mquery.Base.Int.{ℤ}
use mquery.Base.Text.{String, str_eq}
use mquery.Mcp.{UrlQuery, UrlPackage, HttpReply, replied}
use mquery.Mcp.Env.{headers_from_env}
use mquery.Server.Auth.{cut_prefix}
use mquery.Mcp.Tools.{ToolRequest, term_srch_tool, error_result, call_tool}

-- An URL is its path.
abbrev paths : UrlPackage
paths = record {
  Url = String;
  parse = λ s. some s;
  path = λ u. u;
  with_path = λ u p. p;
  with_query = λ u q. u;
}

abbrev show : ℤ → String
show n = "0"

abbrev send : String → String → UrlQuery → HttpReply
send method url headers =
    if str_eq url "/api/term-frequency/a" then replied 200 "found" else replied 404 "not found"

abbrev tool_request : String → ToolRequest
tool_request id = record {
  get_string = λ name dflt. if str_eq name "corpus_id" then id else dflt;
  get_int = λ name dflt. dflt;
  get_bool = λ name dflt. dflt;
}

call_tool_unknown :
    call_tool paths show send "/api/" [] term_srch_tool (tool_request "b")
    ≡ error_result "not found"
unfolding call_tool
call_tool_unknown = refl

headers_from_env_example :
    headers_from_env
      (λ k. k)
      ("MQUERY_API_HEADER_X_API_KEY=se=cret" ∷ "MQUERY_API_HEADER_=x" ∷ "A=1" ∷ [])
      []
    ≡ ("X-API-KEY", "se=cret") ∷ []
unfolding headers_from_env cut_prefix
headers_from_env_example = refl
