-- ===== src/Server/Routes/Authorized.antt =====
-- Who reaches which handler.
use mquery.Base.{
  ◌≡◌, refl, sym, subst, Bool, true, false, not, ◌&&◌, ◌||◌, List, [], ◌∷◌, ◌++◌, Option, none,
  some, arith, inl, inr, Bool-cases, Option-cases,
}
use mquery.Base.Int.{ℤ}
use mquery.Base.Text.{String, str_eq}
use mquery.Server.Auth.{NetPackage}
use mquery.Server.Routes.Chains.{
  is_auth, is_refusal, some_of, some_of-right, run-handler, run-passes, run-refusal,
}
use mquery.Server.Routes.{
  Handler, split_corpus, delete_split, Route, ApiConf, auth_is_defined, admin_only, Middleware,
  engine_chain, group_chain, optional_routes, routes, ApiRequest, ApiOutcome, handled, find_route,
  passes_auth, chain_of, handler_of, serve,
}

-- The handlers that write or remove files.
unfoldable pub changes_files : Handler → Bool
changes_files split_corpus = true
changes_files delete_split = true
changes_files _ = false

abbrev pub needs_auth : ApiConf → Handler → Bool
needs_auth conf h = changes_files h || auth_is_defined conf && not (admin_only conf.auth)

-- A route whose handler changes files is protected.
abbrev is_guarded : Route → Bool
is_guarded r = not (changes_files r.handler) || r.is_protected

unfoldable all_guarded : List Route → Bool
all_guarded [] = true
all_guarded (r ∷ rs) = is_guarded r && all_guarded rs

routes-guarded : (conf : ApiConf) → all_guarded (routes conf) ≡ true
unfolding routes optional_routes all_guarded changes_files
routes-guarded conf = elim (Bool-cases (str_eq conf.audio_files_dir "")) [
  | inl a ↦ elim (Bool-cases (str_eq conf.cql_translator_url "")) [
    | inl t ↦ rw (a, t) refl
    | inr t ↦ rw (a, t) refl
  ]
  | inr a ↦ elim (Bool-cases (str_eq conf.cql_translator_url "")) [
    | inl t ↦ rw (a, t) refl
    | inr t ↦ rw (a, t) refl
  ]
]

module _ (net : NetPackage) (sha256_hex : String → String) (atoi : String → Option ℤ)
    (ends_with_openapi : String → Bool) (matches : Route → String → Bool) (error_ends : Bool) where
  abbrev find_in : List Route → ApiRequest → Option Route
  find_in = find_route net sha256_hex atoi ends_with_openapi matches error_ends

  abbrev pub passes : ApiConf → ApiRequest → Bool
  passes = passes_auth net sha256_hex atoi ends_with_openapi matches error_ends

  abbrev pub served : ApiConf → ApiRequest → ApiOutcome
  served = serve net sha256_hex atoi ends_with_openapi matches error_ends

  find_in-guarded :
      (rs : List Route) (req : ApiRequest) (r : Route)
      → all_guarded rs ≡ true
      → find_in rs req ≡ some r
      → is_guarded r ≡ true
  unfolding find_route all_guarded
  find_in-guarded [] req r all h = absurd (ground (arith, h))
  find_in-guarded (s ∷ rs) req r all h =
      elim (Bool-cases (str_eq s.method req.method && matches s req.path)) [
        | inl e ↦
            let same : s ≡ r = ground (arith, e, h) in
            subst (λ x. is_guarded x ≡ true) same (ground (arith, all))
        | inr e ↦ find_in-guarded rs req r (ground (arith, all)) (ground (arith, e, h))
      ]

  abbrev route_of : ApiConf → ApiRequest → Option Route
  route_of conf req = find_in (routes conf) req

  abbrev chain : ApiConf → Option Route → List Middleware
  chain = chain_of net sha256_hex atoi ends_with_openapi matches error_ends

  abbrev handler_at : Option Route → Handler
  handler_at = handler_of net sha256_hex atoi ends_with_openapi matches error_ends

  -- The chain before a handler that changes files ends with that of the group.
  chain-group :
      (conf : ApiConf) (req : ApiRequest)
      → changes_files (handler_at (route_of conf req)) ≡ true
      → chain conf (route_of conf req) ≡ engine_chain conf ++ group_chain conf
  unfolding changes_files
  chain-group conf req h = elim (Option-cases (route_of conf req)) [
    | inl e ↦ absurd (ground (arith, e, h))
    | inr (r, e) ↦
        let guarded = find_in-guarded (routes conf) req r (routes-guarded conf) e in
        ground (arith, e, h, guarded)
  ]

  engine-auth :
      (conf : ApiConf) (route : Option Route)
      → (auth_is_defined conf && not (admin_only conf.auth)) ≡ true
      → some_of is_auth (chain conf route) ≡ true
  unfolding engine_chain some_of is_auth
  engine-auth conf none h = rw (h) refl
  engine-auth conf (some r) h = rw (h) refl

  group-auth :
      (conf : ApiConf)
      → auth_is_defined conf ≡ true
      → admin_only conf.auth ≡ true
      → some_of is_auth (engine_chain conf ++ group_chain conf) ≡ true
  unfolding group_chain some_of is_auth
  group-auth conf d a =
      some_of-right is_auth (engine_chain conf) (group_chain conf) (rw (d, a, group_chain) refl)

  group-refusal :
      (conf : ApiConf)
      → auth_is_defined conf ≡ false
      → some_of is_refusal (engine_chain conf ++ group_chain conf) ≡ true
  unfolding group_chain some_of is_refusal
  group-refusal conf d =
      some_of-right is_refusal (engine_chain conf) (group_chain conf) (rw (d, group_chain) refl)

  -- A request reaches a handler that changes files only if the authentication is configured and the
  -- request passes it; if the authentication is configured and not limited to these handlers, this
  -- holds for every handler. It holds for any matching of patterns, any timeout and origin, and
  -- whether or not an error response ends the chain.
  pub serve-IsAuthorized :
      (conf : ApiConf) (req : ApiRequest) (h : Handler) (tmo : Option ℤ)
      → served conf req ≡ handled h tmo
      → needs_auth conf h ≡ true
      → (auth_is_defined conf ≡ true) × (passes conf req ≡ true)
  unfolding serve
  serve-IsAuthorized conf req h tmo e needs =
      let route = route_of conf req in
      let here = handler_at route in
      let same : here ≡ h =
        run-handler net sha256_hex atoi ends_with_openapi matches error_ends conf req here h
          (chain conf route) none tmo e in
      let needs_here : needs_auth conf here ≡ true =
        subst (λ x. needs_auth conf x ≡ true) (sym same) needs in
      elim (Bool-cases (auth_is_defined conf && not (admin_only conf.auth))) [
        | inl d ↦ (
          ground (arith, d),
          run-passes net sha256_hex atoi ends_with_openapi matches error_ends conf req here h
              (chain conf route) none tmo (engine-auth conf route d) e,
        )
        | inr d ↦
            let changes : changes_files here ≡ true = ground (arith, d, needs_here) in
            let group = chain-group conf req changes in
            elim (Bool-cases (auth_is_defined conf)) [
              | inl a ↦ (
                a,
                run-passes net sha256_hex atoi ends_with_openapi matches error_ends conf req here h
                    (chain conf route) none tmo
                    (subst (λ c. some_of is_auth c ≡ true) (sym group)
                      (group-auth conf a (ground (arith, d, a))))
                    e,
              )
              | inr a ↦
                  let refuses =
                    run-refusal net sha256_hex atoi ends_with_openapi matches error_ends conf req
                      here h (chain conf route) none tmo e in
                  let refusal =
                    subst (λ c. some_of is_refusal c ≡ true) (sym group) (group-refusal conf a) in
                  absurd (ground (arith, refuses, refusal))
            ]
      ]
