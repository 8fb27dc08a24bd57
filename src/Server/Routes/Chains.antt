-- ===== src/Server/Routes/Chains.antt =====
-- What a chain of middleware lets pass.
use mquery.Base.{
  ◌≡◌, refl, Bool, true, false, ◌||◌, List, [], ◌∷◌, ◌++◌, Option, some, arith, inl, inr,
  Bool-cases,
}
use mquery.Base.Int.{ℤ}
use mquery.Base.Text.{String}
use mquery.Server.Auth.{NetPackage}
use mquery.Server.Cors.{timeout_secs, custom_timeout_middleware}
use mquery.Server.Routes.{
  Handler, Route, ApiConf, Middleware, cors, auth, custom_timeout, unauthorized, ApiRequest,
  ApiOutcome, handled, passes_auth, run_chain,
}

unfoldable pub is_auth : Middleware → Bool
is_auth auth = true
is_auth _ = false

unfoldable pub is_refusal : Middleware → Bool
is_refusal unauthorized = true
is_refusal _ = false

unfoldable pub some_of : (Middleware → Bool) → List Middleware → Bool
some_of p [] = false
some_of p (m ∷ ms) = p m || some_of p ms

pub some_of-right :
    (p : Middleware → Bool) (xs ys : List Middleware)
    → some_of p ys ≡ true
    → some_of p (xs ++ ys) ≡ true
unfolding some_of
some_of-right p [] ys h = h
some_of-right p (x ∷ xs) ys h = ground (arith, some_of-right p xs ys h)

module _ (net : NetPackage) (sha256_hex : String → String) (atoi : String → Option ℤ)
    (ends_with_openapi : String → Bool) (matches : Route → String → Bool) (error_ends : Bool) where
  abbrev pub run : ApiConf → ApiRequest → Handler → List Middleware → Option ℤ → ApiOutcome
  run = run_chain net sha256_hex atoi ends_with_openapi matches error_ends

  abbrev pub passes : ApiConf → ApiRequest → Bool
  passes = passes_auth net sha256_hex atoi ends_with_openapi matches error_ends

  -- The timeout that the chain after a middleware starts with.
  abbrev next_timeout : ApiRequest → Middleware → Option ℤ → Option ℤ
  next_timeout req custom_timeout tmo = elim (custom_timeout_middleware atoi req.timeout_header) [
    | timeout_secs n ↦ some n
    | _ ↦ tmo
  ]
  next_timeout req _ tmo = tmo

  run-tail :
      (conf : ApiConf) (req : ApiRequest) (h g : Handler) (m : Middleware) (rest : List Middleware)
      (tmo out : Option ℤ)
      → run conf req h (m ∷ rest) tmo ≡ handled g out
      → run conf req h rest (next_timeout req m tmo) ≡ handled g out
  unfolding run_chain
  run-tail conf req h g cors rest tmo out e = ground (arith, e)
  run-tail conf req h g auth rest tmo out e = ground (arith, e)
  run-tail conf req h g custom_timeout rest tmo out e = ground (arith, e)
  run-tail conf req h g unauthorized rest tmo out e = absurd (ground (arith, e))

  pub run-handler :
      (conf : ApiConf) (req : ApiRequest) (h g : Handler) (ms : List Middleware)
      (tmo out : Option ℤ)
      → run conf req h ms tmo ≡ handled g out
      → h ≡ g
  unfolding run_chain
  run-handler conf req h g [] tmo out e = ground (arith, e)
  run-handler conf req h g (m ∷ ms) tmo out e =
      run-handler conf req h g ms (next_timeout req m tmo) out
        (run-tail conf req h g m ms tmo out e)

  run-auth :
      (conf : ApiConf) (req : ApiRequest) (h g : Handler) (m : Middleware) (rest : List Middleware)
      (tmo out : Option ℤ)
      → is_auth m ≡ true
      → run conf req h (m ∷ rest) tmo ≡ handled g out
      → passes conf req ≡ true
  unfolding run_chain is_auth
  run-auth conf req h g auth rest tmo out i e = ground (arith, e)
  run-auth conf req h g cors rest tmo out i e = absurd (ground (arith, i))
  run-auth conf req h g custom_timeout rest tmo out i e = absurd (ground (arith, i))
  run-auth conf req h g unauthorized rest tmo out i e = absurd (ground (arith, i))

  -- A chain with the authentication lets only an authorized request pass.
  pub run-passes :
      (conf : ApiConf) (req : ApiRequest) (h g : Handler) (ms : List Middleware)
      (tmo out : Option ℤ)
      → some_of is_auth ms ≡ true
      → run conf req h ms tmo ≡ handled g out
      → passes conf req ≡ true
  unfolding some_of
  run-passes conf req h g [] tmo out i e = absurd (ground (arith, i))
  run-passes conf req h g (m ∷ ms) tmo out i e = elim (Bool-cases (is_auth m)) [
    | inl a ↦ run-auth conf req h g m ms tmo out a e
    | inr a ↦
        run-passes conf req h g ms (next_timeout req m tmo) out (ground (arith, a, i))
          (run-tail conf req h g m ms tmo out e)
  ]

  run-refused :
      (conf : ApiConf) (req : ApiRequest) (h g : Handler) (m : Middleware) (rest : List Middleware)
      (tmo out : Option ℤ)
      → run conf req h (m ∷ rest) tmo ≡ handled g out
      → is_refusal m ≡ false
  unfolding run_chain is_refusal
  run-refused conf req h g auth rest tmo out e = refl
  run-refused conf req h g cors rest tmo out e = refl
  run-refused conf req h g custom_timeout rest tmo out e = refl
  run-refused conf req h g unauthorized rest tmo out e = absurd (ground (arith, e))

  -- A chain with the refusal lets no request pass.
  pub run-refusal :
      (conf : ApiConf) (req : ApiRequest) (h g : Handler) (ms : List Middleware)
      (tmo out : Option ℤ)
      → run conf req h ms tmo ≡ handled g out
      → some_of is_refusal ms ≡ false
  unfolding some_of
  run-refusal conf req h g [] tmo out e = refl
  run-refusal conf req h g (m ∷ ms) tmo out e = ground (
    arith,
    run-refused conf req h g m ms tmo out e,
    run-refusal conf req h g ms (next_timeout req m tmo) out (run-tail conf req h g m ms tmo out e),
  )
