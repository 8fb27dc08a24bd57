-- ===== src/Mcp.antt =====
-- mcp/server.go: the requests that the MCP server sends to the API. The packages `net/url` and
-- `net/http` are parameters.
pub mod Segments
pub mod Tools
pub mod Env
use Prim.Native.Char.{code}
use Prim.Native.String.{◌++◌}
use mquery.Base.{
  ℕ, Bool, true, false, ◌&&◌, ◌||◌, List, [], ◌∷◌, Option, none, some, if◌then◌else◌, ltb, leb,
  ◌==◌,
}
use mquery.Base.Int.{ℤ}
use mquery.Base.Text.{String, str_eq}
use mquery.Errors.{plain_error, Result, ok, err}

-- A value of the map of arguments.
pub data ArgValue : Type 0 where
  text : String → ArgValue
  number : ℤ → ArgValue
  flag : Bool → ArgValue

-- `show` is fmt.Sprint of a number.
abbrev pub arg_to_string : (ℤ → String) → ArgValue → String
arg_to_string show (text s) = s
arg_to_string show (number n) = show n
arg_to_string show (flag b) = if b then "1" else "0"

abbrev pub UrlQuery : Type 0
UrlQuery = List (String × String)

unfoldable pub query_values : (ℤ → String) → List (String × ArgValue) → UrlQuery
query_values show [] = []
query_values show ((k, v) ∷ rest) = (k, arg_to_string show v) ∷ query_values show rest

pub record UrlPackage : Type 1 where
  pub Url : Type 0
  pub parse : String → Option Url
  pub path : Url → String
  -- The text of an URL with another path, and with an encoded query.
  pub with_path : Url → String → String
  pub with_query : Url → UrlQuery → String

-- strings.TrimRight of the slash.
unfoldable pub trim_slashes : String → String
trim_slashes String.[] = String.[]
trim_slashes (String.◌∷◌ c s) =
    let rest = trim_slashes s in
    if code c == b'/' && str_eq rest "" then String.[] else String.◌∷◌ c rest

-- strings.ContainsAny
unfoldable pub has_reserved : String → Bool
has_reserved String.[] = false
has_reserved (String.◌∷◌ c s) = code c == b'/' || code c == b'?' || code c == b'#' || has_reserved s

-- The path with the chunks, from the segments before them on.
unfoldable pub join_chunks : String → List String → Result String
unfolding has_reserved
join_chunks path [] = ok path
join_chunks path (c ∷ cs) =
    let rest = join_chunks (path ++ "/" ++ c) cs in
    if str_eq c ""
    then err (plain_error "failed to join URL: empty path chunk")
    else if has_reserved c
    then err (plain_error "failed to join URL: invalid path chunk")
    else rest

module _ (pkg : UrlPackage) where
  abbrev with_joined : pkg.Url → Result String → Result String
  with_joined u (ok path) = ok (pkg.with_path u path)
  with_joined u (err e) = err e

  unfoldable pub join_url : String → List String → Result String
  unfolding trim_slashes join_chunks
  join_url base chunks = elim (pkg.parse base) [
    | none ↦ err (plain_error "failed to join URL")
    | some u ↦ with_joined u (join_chunks (trim_slashes (pkg.path u)) chunks)
  ]

-- httpClientError; a nil pointer is `none`.
pub record HttpClientError : Type 0 where
  pub status : ℕ
  pub msg : String

abbrev pub is_soft_error : Option HttpClientError → Bool
is_soft_error none = false
is_soft_error (some e) = ltb 0 e.status

abbrev pub is_hard_error : Option HttpClientError → Bool
is_hard_error none = false
is_hard_error (some e) = e.status == 0

-- What http.Client and io.ReadAll give: a message of an error, or a status and a body.
pub data HttpReply : Type 0 where
  no_reply : String → HttpReply
  replied : ℕ → String → HttpReply

abbrev pub is_error_status : ℕ → Bool
is_error_status status = leb 400 status && ltb status 600

unfoldable pub checked_reply : HttpReply → String × Option HttpClientError
checked_reply (no_reply m) = ("", some (record { status = 0; msg = m }))
checked_reply (replied status body) =
    (body, if is_error_status status then some (record { status = status; msg = body }) else none)

-- `send` takes the method, the URL and the headers.
unfoldable pub http_request :
    (pkg : UrlPackage)
    → (ℤ → String)
    → (String → String → UrlQuery → HttpReply)
    → String
    → String
    → List (String × ArgValue)
    → UrlQuery
    → String × Option HttpClientError
unfolding checked_reply query_values
http_request pkg show send method raw_url args headers = elim (pkg.parse raw_url) [
  | none ↦ ("", some (record { status = 0; msg = "invalid URL" }))
  | some u ↦ checked_reply (send method (pkg.with_query u (query_values show args)) headers)
]
