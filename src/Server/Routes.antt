-- ===== src/Server/Routes.antt =====
-- cmd/mquery/apiserver.go: the routes of the server and the middleware that runs before them.
pub mod Chains
pub mod Authorized
use mquery.Base.{
  ℕ, Bool, true, false, not, ◌&&◌, ◌||◌, List, [], ◌∷◌, ◌++◌, Option, none, some, if◌then◌else◌,
}
use mquery.Base.Int.{ℤ}
use mquery.Base.Text.{String, str_eq}
use mquery.Server.Auth.{AuthConf, NetPackage, auth_required}
use mquery.Server.Config.{AuthSection, is_defined}
use mquery.Server.Cors.{
  TimeoutHeader, no_timeout, timeout_secs, bad_timeout, cors_middleware, custom_timeout_middleware,
}

-- The handlers, by the names of the methods of Actions where they are methods.
pub data Handler : Type 0 where
  server_info : Handler
  privacy_policy : Handler
  docs : Handler
  openapi : Handler
  split_corpus : Handler
  delete_split : Handler
  corpus_info : Handler
  corplist : Handler
  term_frequency : Handler
  freq_distrib : Handler
  freq_distrib_parallel : Handler
  text_types_norms : Handler
  text_types_streamed : Handler
  freqs_by_years : Handler
  text_types : Handler
  text_types_parallel : Handler
  text_types_overview : Handler
  text_types_avail_values : Handler
  collocations : Handler
  collocations_extended : Handler
  word_forms : Handler
  other_forms : Handler
  syntax_concordance : Handler
  concordance : Handler
  token_context : Handler
  sentences : Handler
  audio : Handler
  remote_query_translator : Handler
  not_found_handler : Handler

-- A pattern and whether it belongs to the group /tools.
pub record Route : Type 0 where
  pub method : String
  pub is_protected : Bool
  pub pattern : String
  pub handler : Handler

-- What is read of the configuration. The section on authentication is absent if the pointer is nil.
pub record AuthBlock : Type 0 where
  pub section : AuthSection
  pub known_proxies : List String
  pub local_networks : List String
  pub apply_to_admin_actions_only : Bool

pub record ApiConf : Type 0 where
  pub listen_address : String
  pub auth : Option AuthBlock
  pub allow_custom_timeouts : Bool
  pub cors_allowed_origins : List String
  pub audio_files_dir : String
  pub cql_translator_url : String

abbrev pub section_of : Option AuthBlock → Option AuthSection
section_of none = none
section_of (some b) = some b.section

abbrev pub auth_is_defined : ApiConf → Bool
auth_is_defined conf = is_defined (section_of conf.auth)

abbrev pub admin_only : Option AuthBlock → Bool
admin_only none = false
admin_only (some b) = b.apply_to_admin_actions_only

abbrev pub auth_conf_of : ApiConf → AuthConf
auth_conf_of conf = elim conf.auth [
  | none ↦ record {
    listen_address = conf.listen_address;
    known_proxies = [];
    local_networks = [];
    tokens = [];
  }
  | some b ↦ record {
    listen_address = conf.listen_address;
    known_proxies = b.known_proxies;
    local_networks = b.local_networks;
    tokens = b.section.tokens;
  }
]

-- A middleware that can end a request or changes what the handler sees. Those that log, recover or
-- set the type of the content are left out.
pub data Middleware : Type 0 where
  cors : Middleware
  auth : Middleware
  custom_timeout : Middleware
  unauthorized : Middleware

unfoldable pub engine_chain : ApiConf → List Middleware
engine_chain conf =
    cors ∷ (if auth_is_defined conf && not (admin_only conf.auth) then auth ∷ [] else [])
    ++ (if conf.allow_custom_timeouts then custom_timeout ∷ [] else [])

-- What the group /tools adds.
unfoldable pub group_chain : ApiConf → List Middleware
group_chain conf =
    if auth_is_defined conf
    then (if admin_only conf.auth then auth ∷ [] else [])
    else unauthorized ∷ []

abbrev pub get_route : String → Handler → Route
get_route pattern handler = record {
  method = "GET";
  is_protected = false;
  pattern = pattern;
  handler = handler;
}

abbrev pub tool_route : String → String → Handler → Route
tool_route method pattern handler = record {
  method = method;
  is_protected = true;
  pattern = pattern;
  handler = handler;
}

abbrev pub fixed_routes : List Route
fixed_routes =
    get_route "/" server_info
    ∷ get_route "/privacy-policy" privacy_policy
    ∷ get_route "/docs/*any" docs
    ∷ get_route "/openapi" openapi
    ∷ tool_route "POST" "/split/:corpusId" split_corpus
    ∷ tool_route "DELETE" "/split/:corpusId" delete_split
    ∷ get_route "/info/:corpusId" corpus_info
    ∷ get_route "/corplist" corplist
    ∷ get_route "/term-frequency/:corpusId" term_frequency
    ∷ get_route "/freqs/:corpusId" freq_distrib
    ∷ get_route "/freqs2/:corpusId" freq_distrib_parallel
    ∷ get_route "/text-types-norms/:corpusId" text_types_norms
    ∷ get_route "/text-types-streamed/:corpusId" text_types_streamed
    ∷ get_route "/freqs-by-year-streamed/:corpusId" freqs_by_years
    ∷ get_route "/text-types/:corpusId" text_types
    ∷ get_route "/text-types2/:corpusId" text_types_parallel
    ∷ get_route "/text-types-overview/:corpusId" text_types_overview
    ∷ get_route "/text-types-avail-values/:corpusId" text_types_avail_values
    ∷ get_route "/collocations/:corpusId" collocations
    ∷ get_route "/collocations-extended/:corpusId" collocations_extended
    ∷ get_route "/word-forms/:corpusId/:lemma" word_forms
    ∷ get_route "/other-forms/:corpusId/:wordForm" other_forms
    ∷ get_route "/conc-examples/:corpusId" syntax_concordance
    ∷ get_route "/concordance/:corpusId" concordance
    ∷ get_route "/token-context/:corpusId" token_context
    ∷ get_route "/sentences/:corpusId" sentences
    ∷ []

unfoldable pub optional_routes : ApiConf → List Route
optional_routes conf =
    (if str_eq conf.audio_files_dir "" then [] else get_route "/audio/:corpusId" audio ∷ [])
    ++ (if str_eq conf.cql_translator_url ""
        then []
        else get_route "/translate" remote_query_translator ∷ [])

unfoldable pub routes : ApiConf → List Route
unfolding optional_routes
routes conf = fixed_routes ++ optional_routes conf

-- What the middleware reads of a request.
pub record ApiRequest : Type 0 where
  pub method : String
  pub path : String
  pub remote_addr : String
  pub token : String
  pub timeout_header : String
  pub origin : Option (List String)

-- The handler that runs, with the timeout in seconds that it sees, or the status of what ended the
-- request before.
pub data ApiOutcome : Type 0 where
  handled : Handler → Option ℤ → ApiOutcome
  ended : ℕ → ApiOutcome

-- `matches` is the matching of patterns of gin: whether a path, less the prefix of the group, matches.
-- `error_ends` tells whether the error response of uniresp ends the chain of gin.
module _ (net : NetPackage) (sha256_hex : String → String) (atoi : String → Option ℤ)
    (ends_with_openapi : String → Bool) (matches : Route → String → Bool) (error_ends : Bool) where
  unfoldable pub find_route : List Route → ApiRequest → Option Route
  find_route [] req = none
  find_route (r ∷ rs) req =
      let later = find_route rs req in
      if str_eq r.method req.method && matches r req.path then some r else later

  abbrev pub passes_auth : ApiConf → ApiRequest → Bool
  passes_auth conf req = auth_required net sha256_hex (auth_conf_of conf) req.remote_addr req.token

  abbrev pub passes_cors : ApiConf → ApiRequest → Bool
  passes_cors conf req =
      (cors_middleware conf.cors_allowed_origins (ends_with_openapi req.path)
        (str_eq req.method "OPTIONS") req.origin).1

  -- The chain before a handler.
  unfoldable pub run_chain :
      ApiConf → ApiRequest → Handler → List Middleware → Option ℤ → ApiOutcome
  run_chain conf req h [] tmo = handled h tmo
  run_chain conf req h (cors ∷ rest) tmo =
      let later = run_chain conf req h rest tmo in if passes_cors conf req then later else ended 204
  run_chain conf req h (auth ∷ rest) tmo =
      let later = run_chain conf req h rest tmo in if passes_auth conf req then later else ended 401
  run_chain conf req h (custom_timeout ∷ rest) tmo =
      elim (custom_timeout_middleware atoi req.timeout_header) [
        | no_timeout ↦ run_chain conf req h rest tmo
        | timeout_secs n ↦ run_chain conf req h rest (some n)
        | bad_timeout ↦ if error_ends then ended 400 else run_chain conf req h rest tmo
      ]
  run_chain conf req h (unauthorized ∷ rest) tmo = ended 401

  abbrev pub chain_of : ApiConf → Option Route → List Middleware
  chain_of conf none = engine_chain conf
  chain_of conf (some r) = engine_chain conf ++ (if r.is_protected then group_chain conf else [])

  abbrev pub handler_of : Option Route → Handler
  handler_of none = not_found_handler
  handler_of (some r) = r.handler

  unfoldable pub serve : ApiConf → ApiRequest → ApiOutcome
  unfolding find_route run_chain routes engine_chain group_chain
  serve conf req =
      let route = find_route (routes conf) req in
      run_chain conf req (handler_of route) (chain_of conf route) none
