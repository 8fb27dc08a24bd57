-- ===== src/Mcp/Env.antt =====
-- cmd/mqmcp/mqmcp.go: the headers that are configured by environment variables.
use Prim.Native.Char.{Char, code}
use mquery.Base.{List, [], ◌∷◌, Option, none, some, if◌then◌else◌, ◌==◌}
use mquery.Base.Text.{String, str_eq}
use mquery.Server.Auth.{cut_prefix}

-- strings.Cut at the first `=`.
abbrev before : Char → Option (String × String) → Option (String × String)
before c none = none
before c (some (name, value)) = some (String.◌∷◌ c name, value)

unfoldable pub cut_equals : String → Option (String × String)
cut_equals String.[] = none
cut_equals (String.◌∷◌ c s) =
    let rest = cut_equals s in if code c == b'=' then some ("", s) else before c rest

-- strings.ReplaceAll of underscores
unfoldable pub dashes : String → String
dashes String.[] = String.[]
dashes (String.◌∷◌ c s) =
    let rest = dashes s in if code c == b'_' then String.◌∷◌ "-" rest else String.◌∷◌ c rest

-- An assignment to a key of the map.
unfoldable pub set_header : String → String → List (String × String) → List (String × String)
set_header k v [] = (k, v) ∷ []
set_header k v ((j, w) ∷ rest) =
    let others = set_header k v rest in if str_eq j k then (k, v) ∷ rest else (j, w) ∷ others

-- `canonical` is http.CanonicalHeaderKey.
module _ (canonical : String → String) where
  unfoldable pub header_of : String → Option (String × String)
  unfolding cut_equals dashes
  header_of kv = elim (cut_equals kv) [
    | none ↦ none
    | some (name, value) ↦ elim (cut_prefix name "MQUERY_API_HEADER_") [
      | none ↦ none
      | some rest ↦ if str_eq (dashes rest) "" then none else some (canonical (dashes rest), value)
    ]
  ]

  abbrev with_header : Option (String × String) → List (String × String) → List (String × String)
  with_header none headers = headers
  with_header (some (k, v)) headers = set_header k v headers

  -- The loop over the environment, from some headers on.
  unfoldable pub headers_from_env : List String → List (String × String) → List (String × String)
  unfolding header_of set_header
  headers_from_env [] headers = headers
  headers_from_env (kv ∷ rest) headers = headers_from_env rest (with_header (header_of kv) headers)
