-- ===== src/Server/Cors.antt =====
-- cmd/mquery/mquery.go: `CORSMiddleware`, `CustomTimeoutMiddleware`, `getRequestOrigin` and `getEnv`.
use Prim.Native.String.{◌++◌}
use mquery.Base.{Bool, true, false, List, [], ◌∷◌, Option, none, some, if◌then◌else◌}
use mquery.Base.Int.{ℤ}
use mquery.Base.Text.{String, str_eq, split}

-- A header and its value.
abbrev pub Headers : Type 0
Headers = List (String × String)

-- The values of a header of the request; the first of them if the header is there.
abbrev pub get_request_origin : Option (List String) → String
get_request_origin none = ""
get_request_origin (some []) = ""
get_request_origin (some (o ∷ os)) = o

-- The loop over the configured origins.
unfoldable pub allowed_origin : List String → String → String
allowed_origin [] curr_origin = ""
allowed_origin (origin ∷ rest) curr_origin =
    if str_eq curr_origin origin then origin else allowed_origin rest curr_origin

abbrev pub openapi_headers : Headers
openapi_headers =
    ("Access-Control-Allow-Origin", "*")
    ∷ ("Access-Control-Allow-Methods", "GET")
    ∷ ("Access-Control-Allow-Headers", "Content-Type")
    ∷ []

abbrev pub origin_headers : String → Headers
origin_headers origin =
    if str_eq origin ""
    then []
    else ("Access-Control-Allow-Origin", origin)
      ∷ ("Access-Control-Allow-Credentials", "true")
      ∷ (
        "Access-Control-Allow-Headers",
        "Content-Type, Content-Length, Accept-Encoding, Authorization, Accept, Origin, Cache-Control, "
            ++ "X-Requested-With",
      )
      ∷ ("Access-Control-Allow-Methods", "POST, OPTIONS, GET, PUT, DELETE")
      ∷ []

-- The headers that are set, and whether the request goes on or ends with status 204. `is_openapi`
-- tells whether the path ends with /openapi.
unfoldable pub cors_middleware : List String → Bool → Bool → Option (List String) → Headers × Bool
unfolding allowed_origin
cors_middleware origins is_openapi is_options origin =
    if is_openapi then (openapi_headers, true) else (
      origin_headers (allowed_origin origins (get_request_origin origin)),
      if is_options then false else true,
    )

-- What becomes of the header with a timeout: no value, a number of seconds, or an error response
-- with status 400.
pub data TimeoutHeader : Type 0 where
  no_timeout : TimeoutHeader
  timeout_secs : ℤ → TimeoutHeader
  bad_timeout : TimeoutHeader

unfoldable pub custom_timeout_middleware : (String → Option ℤ) → String → TimeoutHeader
custom_timeout_middleware atoi header_val =
    if str_eq header_val ""
    then no_timeout
    else elim (atoi header_val) [ none ↦ bad_timeout | some tmo ↦ timeout_secs tmo ]

-- The loop of getEnv over os.Environ; a value that holds a `=` is not found.
unfoldable pub get_env : List String → String → String
get_env [] name = ""
get_env (p ∷ ps) name =
    let later = get_env ps name in
    elim (split p "=") [ key ∷ value ∷ [] ↦ if str_eq key name then value else later | _ ↦ later ]
