-- ===== src/Worker/Run/Answers.antt =====
-- Every query that a worker runs is answered, once.
use mquery.Base.{
  Bool, true, false, ◌≡◌, refl, ◌∙◌, ap, inl, inr, List, ◌∷◌, Option, none, some, Bool-cases,
  Option-cases, arith,
}
use mquery.Base.Float.{Floats}
use mquery.Base.Sort.{Sorter}
use mquery.Base.Text.{String}
use mquery.Errors.{GoError, plain_error, wrap_error}
use mquery.Errors.Wrap.{wrap_error_lem}
use mquery.Rdb.Query.{Query}
use mquery.Results.Types.{
  Payloads, FuncResult, corpus_info, freq_distrib, conc_size, concordance, collocations,
  coll_freq_data, text_type_norms, token_context, text_types_avail_values, error_result,
  ErrorResult, err_of, set_err, WorkerResult,
}
use mquery.Worker.FreqResult.{more_frequent}
use mquery.Worker.NormsCache.{NormsCache}
use mquery.Worker.Actions.{Manatee, Acted, answered, action_panicked, payloads}
use mquery.Worker.Run.{
  Value, World, error_encodes, wrapped, sent_result, encodes, publish_value, publish_answer, retry,
  report, act, fallback_of, finish, run_query_protected, run_query,
}

module _ {ty : Payloads} where
  pub err_of-set_err : (e : Option GoError) (v : FuncResult ty) → err_of (set_err e v) ≡ e
  unfolding err_of set_err
  err_of-set_err e (corpus_info res) = refl
  err_of-set_err e (freq_distrib res) = refl
  err_of-set_err e (conc_size res) = refl
  err_of-set_err e (concordance res) = refl
  err_of-set_err e (collocations res) = refl
  err_of-set_err e (coll_freq_data res) = refl
  err_of-set_err e (text_type_norms res) = refl
  err_of-set_err e (token_context res) = refl
  err_of-set_err e (text_types_avail_values res) = refl
  err_of-set_err e (error_result res) = refl

  -- A wrapped error is of a type that gob knows.
  wrapped-error_encodes : (v : FuncResult ty) → error_encodes (err_of (wrapped v)) ≡ true
  unfolding wrapped
  wrapped-error_encodes v = elim (Option-cases (err_of v)) [
    | inl p ↦ rw (p, wrapped) (rw p refl)
    | inr (e, p) ↦
        rw (p, wrapped) (rw (err_of-set_err (some (wrap_error e)) v) (wrap_error_lem e).0)
  ]

module _ {ty : Payloads} (encodable : FuncResult ty → Bool)
    (redis : List (WorkerResult ty) → Option GoError) where
  -- What a worker promises of the results that it has sent: one more, on the channel, that encodes.
  abbrev pub IsAnswered : String → List (WorkerResult ty) → List (WorkerResult ty) → Type 0
  IsAnswered channel before after =
      (v : FuncResult ty) × (encodes encodable redis v ≡ true)
      × (after ≡ sent_result channel v ∷ before)

  publish-encodes :
      (channel : String) (v : FuncResult ty) (sent : List (WorkerResult ty))
      → encodes encodable redis v ≡ true
      → redis sent ≡ none
      → publish_value encodable redis channel v sent ≡ (none, sent_result channel v ∷ sent)
  unfolding publish_value
  publish-encodes channel v sent h r = rw (h, publish_value) (rw r refl)

  publish-fails :
      (channel : String) (v : FuncResult ty) (sent : List (WorkerResult ty))
      → encodes encodable redis v ≡ false
      → publish_value encodable redis channel v sent
        ≡ (some (plain_error "failed to serialize result"), sent)
  unfolding publish_value
  publish-fails channel v sent h = rw (h, publish_value) refl

  -- Either a result was sent and there is no error, or there is an error and no result.
  abbrev IsPublished :
      String → List (WorkerResult ty) → Option GoError × List (WorkerResult ty) → Type 0
  IsPublished channel sent (none, after) = IsAnswered channel sent after
  IsPublished channel sent (some e, after) = after ≡ sent

  publish_value-IsPublished :
      (channel : String) (v : FuncResult ty) (sent : List (WorkerResult ty))
      → redis sent ≡ none
      → IsPublished channel sent (publish_value encodable redis channel v sent)
  publish_value-IsPublished channel v sent r = elim (Bool-cases (encodes encodable redis v)) [
    | inl h ↦ rw (publish-encodes channel v sent h r) (v, h, refl)
    | inr h ↦ rw (publish-fails channel v sent h) refl
  ]

  retry-IsPublished :
      (channel : String) (fallback : Option (GoError → FuncResult ty))
      (sent : List (WorkerResult ty)) (first : Option GoError × List (WorkerResult ty))
      → ((s : List (WorkerResult ty)) → redis s ≡ none)
      → IsPublished channel sent first
      → IsPublished channel sent (retry encodable redis channel fallback first)
  retry-IsPublished channel fallback sent (none, after) r h = h
  retry-IsPublished channel none sent (some e, after) r h = h
  retry-IsPublished channel (some f) sent (some e, after) r h =
      rw h (publish_value-IsPublished channel (f e) sent (r sent))

module _ (f32 f64 : Floats) {Line Overview : Type 0} (lib : Manatee Line Overview f64.Float)
    (sort : Sorter (more_frequent {F = f32.Float})) (encodable : Value f32 f64 lib → Bool)
    (redis : List (WorkerResult (payloads f32 f64 Line Overview)) → Option GoError)
    (available : (s : List (WorkerResult (payloads f32 f64 Line Overview))) → redis s ≡ none) where
  finish-IsPublished :
      (q : Query) (w : World f32 f64 lib sort encodable redis)
      (a : Acted (Value f32 f64 lib × NormsCache))
      → IsPublished encodable redis q.channel w.1 (
        (finish f32 f64 lib sort encodable redis q w a).0,
        (finish f32 f64 lib sort encodable redis q w a).1.1,
      )
  unfolding finish publish_answer
  finish-IsPublished q w (action_panicked m) = refl
  finish-IsPublished q w (answered (v, nc)) =
      retry-IsPublished encodable redis q.channel (fallback_of f32 f64 lib q.args) w.1
        (publish_value encodable redis q.channel (wrapped v) w.1) available
        (publish_value-IsPublished encodable redis q.channel (wrapped v) w.1 (available w.1))

  module _ (reports : (r : ErrorResult) → encodable (error_result r) ≡ true) where
    report-IsAnswered :
        (q : Query) (before : List (WorkerResult (payloads f32 f64 Line Overview)))
        (x : Option GoError × World f32 f64 lib sort encodable redis)
        → IsPublished encodable redis q.channel before (x.0, x.1.1)
        → IsAnswered encodable redis q.channel before
            (report f32 f64 lib sort encodable redis q x).1
    unfolding err_of
    report-IsAnswered q before (none, after) h = h
    report-IsAnswered q before (some e, (nc, after)) h =
        let failure : ErrorResult = record { func = q.func; error = some (wrap_error e) } in
        let known : encodes encodable redis (error_result failure) ≡ true =
          ground (arith, reports failure, (wrap_error_lem e).0) in
        rw
          (
            h,
            publish-encodes encodable redis q.channel (error_result failure) before known
                (available before),
          )
          (error_result failure, known, refl)

    -- While Redis is available, a query that a worker runs adds exactly one result to those that
    -- were sent, on the channel of the query and able to be encoded: whatever the query is, also if its action
    -- panics or its answer cannot be encoded. A result of the type `ErrorResult` is assumed to be
    -- encodable apart from its error.
    pub run_query-answers :
        (q : Query) (w : World f32 f64 lib sort encodable redis)
        → IsAnswered encodable redis q.channel w.1
            (run_query f32 f64 lib sort encodable redis q w).1
    unfolding run_query run_query_protected
    run_query-answers q w =
        report-IsAnswered q w.1 (run_query_protected f32 f64 lib sort encodable redis q w)
          (finish-IsPublished q w (act f32 f64 lib sort q.func q.args w.0))

  -- While Redis is available, an answer of an action that can be encoded apart from its error is
  -- sent as it is with its error wrapped, as the only result, and the cache is that of the action.
  pub run_query-value :
      (q : Query) (w : World f32 f64 lib sort encodable redis) (v : Value f32 f64 lib)
      (nc : NormsCache)
      → act f32 f64 lib sort q.func q.args w.0 ≡ answered (v, nc)
      → encodable (wrapped v) ≡ true
      → run_query f32 f64 lib sort encodable redis q w
        ≡ (nc, sent_result q.channel (wrapped v) ∷ w.1)
  unfolding run_query run_query_protected finish publish_answer
  run_query-value q w v nc a h =
      let known : encodes encodable redis (wrapped v) ≡ true =
        ground (arith, h, wrapped-error_encodes v) in
      let sent = publish-encodes encodable redis q.channel (wrapped v) w.1 known (available w.1) in
      let after = report f32 f64 lib sort encodable redis q in
      let again = retry encodable redis q.channel (fallback_of f32 f64 lib q.args) in
      ap (λ x. after (finish f32 f64 lib sort encodable redis q w x)) a
      ∙ ap (λ p. after ((again p).0, (nc, (again p).1))) sent
