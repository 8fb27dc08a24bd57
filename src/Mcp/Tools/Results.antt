-- ===== src/Mcp/Tools/Results.antt =====
-- When a tool gives a text.
use mquery.Base.{ℕ, ◌≡◌, false, [], ◌∷◌, some}
use mquery.Base.Int.{ℤ}
use mquery.Base.Text.{String}
use mquery.Mcp.{
  UrlQuery, UrlPackage, trim_slashes, HttpReply, replied, is_error_status, query_values,
}
use mquery.Mcp.Segments.{extended}
use mquery.Mcp.Tools.{ToolRequest, Tool, ToolResult, call_tool}

-- The reply is a body whose status is none of an error.
abbrev pub IsSuccess : HttpReply → String → Type 0
IsSuccess reply body =
    (status : ℕ) × (reply ≡ replied status body) × (is_error_status status ≡ false)

module _ (pkg : UrlPackage) (show : ℤ → String) (send : String → String → UrlQuery → HttpReply)
    (api_url : String) (api_headers : UrlQuery) where
  abbrev pub run_tool : Tool → ToolRequest → ToolResult
  run_tool = call_tool pkg show send api_url api_headers

  -- The path of the request of a tool, below that of the API.
  abbrev pub tool_path : pkg.Url → Tool → String → String
  tool_path base tool corpus_id =
      extended (trim_slashes (pkg.path base)) (tool.endpoint ∷ corpus_id ∷ [])

  -- The reply to the request of the tool for that path is a success.
  abbrev pub IsAsked : pkg.Url → Tool → ToolRequest → String → Type 0
  IsAsked base tool req t =
      (url : pkg.Url) × (pkg.parse
          (pkg.with_path base (tool_path base tool (req.get_string "corpus_id" "")))
        ≡ some url)
      × IsSuccess (send "GET" (pkg.with_query url (query_values show (tool.args req))) api_headers)
          t
