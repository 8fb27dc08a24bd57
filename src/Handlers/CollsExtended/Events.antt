-- ===== src/Handlers/CollsExtended/Events.antt =====
-- The messages of a stream of collocations with examples.
use mquery.Base.{
  ℕ, ◌+◌, false, List, [], Option, none, some, map, length, inl, inr, Option-cases, Bool-cases,
  arith,
}
use mquery.Base.Int.{ℤ, pos, ltb_ℤ}
use mquery.Base.Text.{String, str_eq}
use mquery.Rdb.Query.{Args}
use mquery.Results.Types.{Payloads, GoCollItem, Collocations, FuncResult, err_of}
use mquery.Handlers.Request.{
  body, asking, writing, Served, Url, arg, query_of, with_int, failing, panicking,
}
use mquery.Handlers.Exchange.{Actions, Asked, not_published, received, as_collocations}
use mquery.Corpora.Lookup.{Found, corp, no_corp, nil_dereference}
use mquery.Results.Binning.{Outcome, returned, panicked}
use mquery.Handlers.Parallel.{int_arg}
use mquery.Handlers.QueryProps.{QueryProps, determine_query_props}
use mquery.Handlers.Collocations.{
  CollArgs, FetchedArgs, coll_args, coll_rejected, coll_response, fetch_coll_action_args,
}
use mquery.Handlers.Conc.{concordance_max_width, concordance_default_width}
use mquery.Handlers.CollsExtended.{
  coll_url, default_examples_per_coll, compared, both_answers, second_query, extended_queries,
  extended_for, extended_props, collocations_extended, streamed_value, streaming_failure, answer_of,
  stream_examples, stream_from, StreamMessage, event_data,
}
use mquery.Handlers.CollsExtended.Examples.{Key, key_of, IsStream, bare-keys, deliveries-IsStream}

module _ {ty : Payloads} (a : Actions ty) (uuid : ℕ → String) (arrivals : List ℕ) where
  abbrev pub Stream : Type 0
  Stream = Served (StreamMessage ty.Line ty.Float64)

  -- A stream with the same collocates in every message, of at most two messages more than there are
  -- goroutines.
  abbrev pub IsSteady : Stream → Type 0
  IsSteady s = (ks : List (Key ty.Float64)) × IsStream ks (length arrivals + 2) s

  failing-IsSteady : (status : ℕ) → IsSteady (failing status)
  failing-IsSteady status = ([], record { keys = (tt, tt); short = omega arith })

  panicking-IsSteady : IsSteady panicking
  panicking-IsSteady = ([], record { keys = tt; short = omega arith })

  streaming_failure-IsSteady : IsSteady (streaming_failure a uuid arrivals)
  streaming_failure-IsSteady = ([], record { keys = (tt, tt); short = omega arith })

  asking-IsSteady :
      (args : Args) (s : Stream) → IsSteady s → IsSteady (asking "collocations" args s)
  asking-IsSteady args s h = (h.0, record { keys = h.1.keys; short = h.1.short })

  streamed_value-IsSteady :
      (r : Option (FuncResult ty)) (next : Collocations ty.Float64 → Stream)
      → ((res : Collocations ty.Float64) → IsSteady (next res))
      → IsSteady (streamed_value a uuid arrivals r next)
  unfolding streamed_value
  streamed_value-IsSteady none next h = panicking-IsSteady
  streamed_value-IsSteady (some r) next h = elim (Option-cases (err_of r)) [
    | inr (e, p) ↦ rw (p, streamed_value) streaming_failure-IsSteady
    | inl p ↦ elim (Option-cases (as_collocations r)) [
      | inl n ↦ rw (p, streamed_value) (rw n streaming_failure-IsSteady)
      | inr (res, n) ↦ rw (p, streamed_value) (rw n (h res))
    ]
  ]

  module _ (url : Url) (props : QueryProps) (args : CollArgs) (width : ℤ) where
    -- What follows the first message.
    abbrev After : Collocations ty.Float64 → Stream → Type 0
    After result s = IsStream (map key_of result.colls) (length arrivals + 1) s

    examples-After :
        (o : Found) (result : Collocations ty.Float64) (cmp : List (GoCollItem ty.Float64)) (n : ℤ)
        → After result (stream_examples a uuid arrivals url props args width o result cmp n)
    examples-After (corp conf) result cmp n =
        let s =
          deliveries-IsStream a uuid arrivals args.event _ result
            (answer_of a uuid arrivals result cmp) arrivals (bare-keys ty.Line result.colls) in
        record { keys = s.keys; short = omega (arith, s.short) }
    examples-After no_corp result cmp n = record { keys = tt; short = omega arith }
    examples-After nil_dereference result cmp n = record { keys = tt; short = omega arith }

    first-IsSteady :
        (result : Collocations ty.Float64) (cmp : List (GoCollItem ty.Float64)) (s : Stream)
        → After result s
        → IsSteady (writing (body (event_data args.event (answer_of a uuid arrivals result cmp))) s)
    first-IsSteady result cmp s h = (
      map key_of result.colls,
      record { keys = (bare-keys ty.Line result.colls, h.keys); short = omega (arith, h.short) },
    )

    stream_from-IsSteady :
        (result : Collocations ty.Float64) (cmp : List (GoCollItem ty.Float64))
        → IsSteady (stream_from a uuid arrivals url props args width result cmp)
    stream_from-IsSteady result cmp =
        elim (Option-cases
          (int_arg a.atoi (pos default_examples_per_coll) (arg "examplesPerColl" url))) [
            | inl e ↦
                rw (e, stream_from)
                  (first-IsSteady result cmp (streaming_failure a uuid arrivals)
                    (record { keys = (tt, tt); short = omega arith }))
            | inr (n, e) ↦
                rw (e, stream_from)
                  (first-IsSteady result cmp _
                    (examples-After (a.find_corp props.corpus) result cmp n))
          ]

    compared-IsSteady :
        (result : Collocations ty.Float64) (r : Option (FuncResult ty))
        → IsSteady (compared a uuid arrivals url props args width result r)
    compared-IsSteady result none = stream_from-IsSteady (coll_response result) []
    compared-IsSteady result (some r) =
        streamed_value-IsSteady (some r) _
          (λ second. stream_from-IsSteady (coll_response result) second.colls)

    both-IsSteady :
        (first second : Asked ty)
        → IsSteady (both_answers a uuid arrivals url props args width first second)
    both-IsSteady not_published second = failing-IsSteady 500
    both-IsSteady (received r1 u1) not_published = failing-IsSteady 500
    both-IsSteady (received r1 u1) (received r2 u2) =
        streamed_value-IsSteady r1 _ (λ result. compared-IsSteady result r2)

    second-IsSteady :
        (first : Asked ty) → IsSteady (second_query a uuid arrivals url props args width first)
    second-IsSteady not_published = failing-IsSteady 500
    second-IsSteady (received r u) = elim (Bool-cases (str_eq (query_of "cmpCorp" url) "")) [
      | inl e ↦ rw (e, second_query) (both-IsSteady (received r u) (received none false))
      | inr e ↦ rw (e, second_query) (asking-IsSteady _ _ (both-IsSteady (received r u) _))
    ]

    extended_queries-IsSteady : IsSteady (extended_queries a uuid arrivals url props args width)
    unfolding extended_queries
    extended_queries-IsSteady = asking-IsSteady _ _ (second-IsSteady _)

  fetched-IsSteady :
      (url : Url) (props : QueryProps) (o : FetchedArgs)
      → IsSteady (extended_for a uuid arrivals url props o)
  fetched-IsSteady url props (coll_rejected status) = failing-IsSteady status
  fetched-IsSteady url props (coll_args args) =
      elim (Option-cases
        (int_arg a.atoi (pos concordance_default_width) (arg "contextWidth" url))) [
          | inl e ↦ rw (e, extended_for, with_int) (failing-IsSteady a.bad_int)
          | inr (width, e) ↦ elim (Bool-cases (ltb_ℤ (pos concordance_max_width) width)) [
            | inl w ↦ rw (e, extended_for, with_int) (rw w (failing-IsSteady 400))
            | inr w ↦
                rw (e, extended_for, with_int)
                  (rw w (extended_queries-IsSteady url props args width))
          ]
        ]

  props-IsSteady :
      (url : Url) (o : Outcome QueryProps) → IsSteady (extended_props a uuid arrivals url o)
  props-IsSteady url panicked = panicking-IsSteady
  props-IsSteady url (returned props) = elim (Option-cases props.status) [
    | inr (status, e) ↦ rw (e, extended_props) (failing-IsSteady status)
    | inl e ↦
        rw (e, extended_props)
          (fetched-IsSteady url props (fetch_coll_action_args a.atoi a.bad_int (coll_url url)))
  ]

  -- Whatever the workers answer and in whatever order the goroutines deliver, a stream of
  -- collocations with examples writes at most two messages more than there are goroutines, and all
  -- its messages with results hold the same collocates in the same order, with the same scores and
  -- frequencies: only their examples change.
  pub collocations_extended-IsSteady :
      (url : Url) → IsSteady (collocations_extended a uuid arrivals url)
  unfolding collocations_extended
  collocations_extended-IsSteady url =
      props-IsSteady url (determine_query_props a.find_corp a.saved_subcorpus_of url)
