-- ===== src/Tests/Routes.antt =====
-- The routes of a server whose authentication is for the actions of /tools only.
use mquery.Base.{◌≡◌, refl, Bool, true, false, [], ◌∷◌, Option, none, some}
use mquery.Base.Int.{ℤ}
use mquery.Base.Text.{String, str_eq, split}
use mquery.Server.Auth.{NetPackage, auth_required, auth_token_matches}
use mquery.Server.Config.{is_defined}
use mquery.Server.Cors.{get_env, cors_middleware, custom_timeout_middleware}
use mquery.Server.Routes.{
  Route, ApiConf, ApiRequest, handled, ended, delete_split, corpus_info, auth_is_defined, serve,
}
use mquery.Server.Routes.Authorized.{changes_files, passes, serve-IsAuthorized}

abbrev net : NetPackage
net = record {
  Ip = String;
  Network = String;
  parse_ip = λ s. some s;
  parse_cidr = λ s. some s;
  holds = λ n ip. str_eq n ip;
  split_host_port = λ s. some s;
}

-- The authentication is for the actions of /tools only.
abbrev api : ApiConf
api = record {
  listen_address = "127.0.0.1";
  auth = some (record {
    section = record { token_header_name = "X-Token"; tokens = "secret" ∷ [] };
    known_proxies = [];
    local_networks = "10.0.0.2" ∷ [];
    apply_to_admin_actions_only = true;
  });
  allow_custom_timeouts = true;
  cors_allowed_origins = [];
  audio_files_dir = "";
  cql_translator_url = "";
}

abbrev request : String → String → String → ApiRequest
request method path token = record {
  method = method;
  path = path;
  remote_addr = "10.0.0.9";
  token = token;
  timeout_header = "";
  origin = none;
}

abbrev sum : String → String
sum s = s

abbrev atoi : String → Option ℤ
atoi s = none

abbrev no_openapi : String → Bool
no_openapi s = false

abbrev same_pattern : Route → String → Bool
same_pattern r path = str_eq r.pattern path

serve_deletes :
    serve net sum atoi no_openapi same_pattern true api
      (request "DELETE" "/split/:corpusId" "secret")
    ≡ handled delete_split none
unfolding serve cors_middleware is_defined custom_timeout_middleware auth_required
    auth_token_matches
serve_deletes = refl

serve_refuses :
    serve net sum atoi no_openapi same_pattern true api
      (request "DELETE" "/split/:corpusId" "guess")
    ≡ ended 401
unfolding serve cors_middleware is_defined custom_timeout_middleware auth_required
    auth_token_matches
serve_refuses = refl

serve_reads :
    serve net sum atoi no_openapi same_pattern true api (request "GET" "/info/:corpusId" "guess")
    ≡ handled corpus_info none
unfolding serve cors_middleware is_defined custom_timeout_middleware
serve_reads = refl

serve-IsAuthorized_example :
    (auth_is_defined api ≡ true)
    × (passes net sum atoi no_openapi same_pattern true api
          (request "DELETE" "/split/:corpusId" "secret")
        ≡ true)
unfolding changes_files
serve-IsAuthorized_example =
    serve-IsAuthorized net sum atoi no_openapi same_pattern true api
      (request "DELETE" "/split/:corpusId" "secret") delete_split none serve_deletes refl

get_env_example : get_env ("A=1" ∷ "B=2=3" ∷ "C=4" ∷ []) "C" ≡ "4"
unfolding get_env split
get_env_example = refl

get_env_other_value : get_env ("A=1" ∷ "B=2=3" ∷ []) "B" ≡ ""
unfolding get_env split
get_env_other_value = refl
