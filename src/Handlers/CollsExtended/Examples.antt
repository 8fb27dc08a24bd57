-- ===== src/Handlers/CollsExtended/Examples.antt =====
-- The messages for the examples that the goroutines deliver.
use mquery.Base.{
  ℕ, zero, suc, ◌≤◌, ◌≡◌, refl, sym, ◌∙◌, ap, ap₂, Bool, List, [], ◌∷◌, Option, none, some,
  get_elem?, map, length, All, inl, inr, Option-cases, arith,
}
use mquery.Base.Text.{String}
use mquery.Errors.{GoError}
use mquery.Rdb.Query.{Args, ConcordanceArgs, concordance_args}
use mquery.Results.Types.{Payloads, GoCollItem, Collocations, FuncResult, err_of}
use mquery.Handlers.Request.{Write, error_status, body, asking, Served}
use mquery.Handlers.Exchange.{Actions, Asked, not_published, received, as_concordance}
use mquery.Handlers.CollsExtended.{
  ExtendedCollItem, EndpointResult, StreamMessage, event_data, stream_error, bare_item, set_at,
  with_item, Delivery, delivered, responded, goroutine_panicked, deliver_value, deliver, streamed,
  deliveries,
}

-- What a collocate is, apart from its examples.
abbrev pub Key : Type 0 → Type 0
Key F = String × F × ℕ

abbrev pub key_of : {F : Type 0} → GoCollItem F → Key F
key_of v = (v.word, v.score, v.freq)

abbrev or_else : {A : Type 0} → A → Option A → A
or_else dflt none = dflt
or_else dflt (some x) = x

abbrev head : {A : Type 0} → A → List A → A
head dflt [] = dflt
head dflt (x ∷ xs) = x

abbrev tail : {A : Type 0} → List A → List A
tail [] = []
tail (x ∷ xs) = xs

module _ {Line F : Type 0} where
  abbrev pub item_key : ExtendedCollItem Line F → Key F
  item_key x = (x.word, x.score, x.freq)

  -- A message of results has these collocates, in this order.
  abbrev pub HasKeys : List (Key F) → Write (StreamMessage Line F) → Type 0
  HasKeys ks (body (event_data event ans)) = map item_key ans.colls ≡ ks
  HasKeys ks (body stream_error) = Unit
  HasKeys ks (error_status status) = Unit

  set_at-keys :
      (i : ℕ) (x : ExtendedCollItem Line F) (v : GoCollItem F) (vs : List (GoCollItem F))
      (ys : List (ExtendedCollItem Line F))
      → get_elem? vs i ≡ some v
      → item_key x ≡ key_of v
      → map item_key ys ≡ map key_of vs
      → map item_key (set_at i x ys) ≡ map key_of vs
  unfolding set_at
  set_at-keys i x v [] ys g k h = absurd (cc)
  set_at-keys i x v (w ∷ vs) [] g k h = absurd (cc)
  set_at-keys zero x v (w ∷ vs) (y ∷ ys) g k h =
      let same : key_of v ≡ key_of w = ap (λ o. key_of (or_else w o)) (sym g) in
      ap₂ (λ a b. a ∷ b) (k ∙ same) (ap tail h)
  set_at-keys (suc i) x v (w ∷ vs) (y ∷ ys) g k h =
      ap₂ (λ a b. a ∷ b) (ap (head (item_key y)) h) (set_at-keys i x v vs ys g k (ap tail h))

pub bare-keys :
    {F : Type 0} (Line : Type 0) (vs : List (GoCollItem F))
    → map item_key (map (bare_item {Line = Line}) vs) ≡ map key_of vs
bare-keys Line [] = refl
bare-keys Line (v ∷ vs) = ap (λ ks. key_of v ∷ ks) (bare-keys Line vs)

-- At most n messages, and those with results have these collocates.
pub record IsStream {Line F : Type 0} (ks : List (Key F)) (n : ℕ)
    (s : Served (StreamMessage Line F)) : Type 0 where
  pub keys : All (HasKeys ks) s.writes
  pub short : length s.writes ≤ n

module _ {ty : Payloads} (a : Actions ty) (uuid : ℕ → String) (arrivals : List ℕ) where
  abbrev D : Type 0
  D = Delivery ty.Line ty.Float64

  abbrev delivered_in :
      ExtendedCollItem ty.Line ty.Float64 → D → ExtendedCollItem ty.Line ty.Float64
  delivered_in dflt (delivered x) = x
  delivered_in dflt _ = dflt

  -- What is delivered is the collocate.
  abbrev IsOf : GoCollItem ty.Float64 → D → Type 0
  IsOf v (delivered x) = item_key x ≡ key_of v
  IsOf v _ = Unit

  value-IsOf :
      (i : ℕ) (v : GoCollItem ty.Float64) (e : Option GoError) (r : Option (FuncResult ty))
      (u : Bool)
      → IsOf v (deliver_value a uuid arrivals i v e r u)
  value-IsOf i v e none u = tt
  value-IsOf i v e (some r) u = elim (Option-cases (err_of r)) [
    | inr (x, h) ↦ rw (h, deliver_value) tt
    | inl h ↦ elim (Option-cases (as_concordance r)) [
      | inl n ↦ rw (h, deliver_value) (rw n tt)
      | inr (c, n) ↦ rw (h, deliver_value) (rw n refl)
    ]
  ]

  deliver-IsOf :
      (i : ℕ) (v : GoCollItem ty.Float64) (e : Option GoError) (r : Asked ty)
      → IsOf v (deliver a uuid arrivals i v e r)
  deliver-IsOf i v e not_published = refl
  deliver-IsOf i v e (received r u) = value-IsOf i v e r u

  abbrev Stream : Type 0
  Stream = Served (StreamMessage ty.Line ty.Float64)

  asked-IsStream :
      {ks : List (Key ty.Float64)} {n : ℕ} (args : Args) (s : Stream)
      → IsStream ks n s
      → IsStream ks n (asking "concordance" args s)
  asked-IsStream args s h = record { keys = h.keys; short = h.short }

  module _ (event : String) (args_of : String → ConcordanceArgs)
      (result : Collocations ty.Float64) where
    step-IsStream :
        (ans : EndpointResult ty.Line ty.Float64) (i : ℕ) (is : List ℕ) (v : GoCollItem ty.Float64)
        (d : D)
        → get_elem? result.colls i ≡ some v
        → IsOf v d
        → map item_key ans.colls ≡ map key_of result.colls
        → ((after : EndpointResult ty.Line ty.Float64)
            → map item_key after.colls ≡ map key_of result.colls
            → IsStream
                (map key_of result.colls)
                (length is)
                (deliveries a uuid arrivals event args_of result after is))
        → IsStream (map key_of result.colls) (suc (length is)) (
            streamed a uuid arrivals event args_of result i ans d
              (λ after. deliveries a uuid arrivals event args_of result after is))
    step-IsStream ans i is v (delivered x) g e h next =
        let kept = set_at-keys i x v result.colls ans.colls g e h in
        let rest = next (with_item i x ans) kept in
        record { keys = (kept, rest.keys); short = omega (arith, rest.short) }
    step-IsStream ans i is v (responded status) g e h next =
        let rest = next ans h in
        record { keys = (tt, rest.keys); short = omega (arith, rest.short) }
    step-IsStream ans i is v goroutine_panicked g e h next = record {
      keys = tt;
      short = omega arith;
    }

    pub deliveries-IsStream :
        (ans : EndpointResult ty.Line ty.Float64) (is : List ℕ)
        → map item_key ans.colls ≡ map key_of result.colls
        → IsStream
            (map key_of result.colls)
            (length is)
            (deliveries a uuid arrivals event args_of result ans is)
    unfolding deliveries
    deliveries-IsStream ans [] h = record { keys = tt; short = omega arith }
    deliveries-IsStream ans (i ∷ is) h = elim (Option-cases (get_elem? result.colls i)) [
      | inl g ↦
          let rest = deliveries-IsStream ans is h in
          rw (g, deliveries) (record { keys = rest.keys; short = omega (arith, rest.short) })
      | inr (v, g) ↦
          let d =
            deliver a uuid arrivals i v result.error
              (a.ask "concordance" (concordance_args (args_of v.word))) in
          rw (g, deliveries)
            (asked-IsStream {ks = map key_of result.colls} _ _ (
              step-IsStream ans i is v d g (deliver-IsOf i v result.error _) h
                (λ after k. deliveries-IsStream after is k)))
    ]
