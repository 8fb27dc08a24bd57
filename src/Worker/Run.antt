-- ===== src/Worker/Run.antt =====
-- worker/worker.go: a worker runs a query and publishes its result. `sent` are the results that a
-- client is notified of, the last first.
pub mod Answers
pub mod Typed
use Prim.Native.String.{◌++◌}
use mquery.Base.{ℕ, Bool, true, false, ◌&&◌, List, [], ◌∷◌, Option, none, some, if◌then◌else◌}
use mquery.Base.Int.{pos}
use mquery.Base.Float.{Floats}
use mquery.Base.Sort.{Sorter}
use mquery.Base.Text.{String}
use mquery.Errors.{
  message, GoError, plain_error, internal_error, is_user_error, wrap_error, panic_text,
  panic_value_to_err, Result, ok, err,
}
use mquery.Errors.Wrap.{is_registered}
use mquery.Rdb.Adapter.{Dequeued, query, empty_queue, dequeue_error}
use mquery.Rdb.Query.{
  Args, corpus_info_args, freq_distrib_args, term_frequency_args, concordance_args,
  collocations_args, calc_coll_freq_data_args, text_type_norms_args, token_context_args,
  text_types_avail_values_args, other_args, Query,
}
use mquery.Results.Types.{
  Payloads, FuncResult, corpus_info, freq_distrib, conc_size, concordance, collocations,
  coll_freq_data, text_type_norms, token_context, text_types_avail_values, error_result, err_of,
  set_err, WorkerResult,
}
use mquery.Worker.FreqResult.{more_frequent}
use mquery.Worker.NormsCache.{NormsCache}
use mquery.Worker.Actions.{
  Manatee, Acted, answered, action_panicked, payloads, corpus_info_of, freqs_error, freq_distrib_of,
  colls_error, collocations_of, conc_size_of,
}
use mquery.Worker.Lines.{concordance_of, no_rows, token_context_of}
use mquery.Worker.TextTypes.{calc_coll_freq_data_of, text_type_norms_of, text_types_avail_values_of}

abbrev pub map_acted : {A B : Type 0} → (A → B) → Acted A → Acted B
map_acted f (answered a) = answered (f a)
map_acted f (action_panicked m) = action_panicked m

-- HasUserError of `PublishResult`.
abbrev pub user_error : Option GoError → Bool
user_error none = false
user_error (some e) = is_user_error e

abbrev pub error_encodes : Option GoError → Bool
error_encodes none = true
error_encodes (some e) = is_registered e

module _ {ty : Payloads} where
  -- `if ans.Error != nil { ans.Error = wrapError(ans.Error) }`
  unfoldable pub wrapped : FuncResult ty → FuncResult ty
  wrapped v = elim (err_of v) [ none ↦ v | some e ↦ set_err (some (wrap_error e)) v ]

  abbrev pub sent_result : String → FuncResult ty → WorkerResult ty
  sent_result channel v = record {
    channel = channel;
    value = v;
    has_user_error = user_error (err_of v);
  }

-- `encodable` says of a result, apart from its error, that gob can encode it, and `redis` gives the
-- error of SET or of PUBLISH after some results, as `PublishResult` returns it.
module _ {ty : Payloads} (encodable : FuncResult ty → Bool)
    (redis : List (WorkerResult ty) → Option GoError) where
  abbrev pub encodes : FuncResult ty → Bool
  encodes v = encodable v && error_encodes (err_of v)

  -- PublishResult of rdb/client.go.
  unfoldable pub publish_value :
      String → FuncResult ty → List (WorkerResult ty) → Option GoError × List (WorkerResult ty)
  publish_value channel v sent =
      if encodes v
      then elim (redis sent) [
        | some e ↦ (some e, sent)
        | none ↦ (none, sent_result channel v ∷ sent)
      ]
      else (some (plain_error "failed to serialize result"), sent)

  -- What follows the first attempt.
  abbrev pub retry :
      String
      → Option (GoError → FuncResult ty)
      → Option GoError × List (WorkerResult ty)
      → Option GoError × List (WorkerResult ty)
  retry channel fallback (none, sent) = (none, sent)
  retry channel none (some e, sent) = (some e, sent)
  retry channel (some f) (some e, sent) = publish_value channel (f e) sent

  -- The result and, if it cannot be published, a result with that error.
  unfoldable pub publish_answer :
      String
      → Option (GoError → FuncResult ty)
      → FuncResult ty
      → List (WorkerResult ty)
      → Option GoError × List (WorkerResult ty)
  publish_answer channel fallback v sent = retry channel fallback (publish_value channel v sent)

module _ (f32 f64 : Floats) {Line Overview : Type 0} (lib : Manatee Line Overview f64.Float) where
  abbrev pub Value : Type 0
  Value = FuncResult (payloads f32 f64 Line Overview)

  -- The result that is published with the error of the first attempt. That for a token context is of
  -- another type.
  abbrev pub fallback_of : Args → Option (GoError → Value)
  fallback_of (corpus_info_args a) =
      some (λ e. corpus_info (record { data_ = lib.no_overview; error = some e }))
  fallback_of (freq_distrib_args a) = some (λ e. freq_distrib (freqs_error f32 lib e))
  fallback_of (term_frequency_args a) =
      some
        (λ e. conc_size (record { total = 0; arf = f64.of_int 0; corpus_size = 0; error = some e }))
  fallback_of (concordance_args a) = some (λ e. concordance (no_rows lib e))
  fallback_of (collocations_args a) = some (λ e. collocations (colls_error lib e))
  fallback_of (calc_coll_freq_data_args a) = some (λ e. coll_freq_data (record { error = some e }))
  fallback_of (text_type_norms_args a) =
      some (λ e. text_type_norms (record { sizes = []; error = some e }))
  fallback_of (token_context_args a) =
      some (λ e. text_type_norms (record { sizes = []; error = some e }))
  fallback_of (text_types_avail_values_args a) =
      some (λ e. text_types_avail_values (record { attributes = []; error = some e }))
  fallback_of other_args = none

  module _ (sort : Sorter (more_frequent {F = f32.Float})) where
    -- The switch over the arguments: the answer of the action and the cache after it.
    unfoldable pub act : String → Args → NormsCache → Acted (Value × NormsCache)
    act func (corpus_info_args a) nc = answered (corpus_info (corpus_info_of lib a), nc)
    act func (freq_distrib_args a) nc =
        map_acted (λ r. (freq_distrib r, nc)) (freq_distrib_of f32 lib sort a nc)
    act func (term_frequency_args a) nc =
        answered (conc_size (conc_size_of lib (f64.of_int 0) a), nc)
    act func (concordance_args a) nc = map_acted (λ r. (concordance r, nc)) (concordance_of lib a)
    act func (collocations_args a) nc = answered (collocations (collocations_of lib a), nc)
    act func (calc_coll_freq_data_args a) nc =
        answered (coll_freq_data (calc_coll_freq_data_of lib a), nc)
    act func (text_type_norms_args a) nc =
        let (r, after) = text_type_norms_of lib a nc in answered (text_type_norms r, after)
    act func (token_context_args a) nc =
        map_acted (λ r. (token_context r, nc)) (token_context_of lib a)
    act func (text_types_avail_values_args a) nc =
        answered (text_types_avail_values (text_types_avail_values_of lib a), nc)
    act func other_args nc = answered (
      error_result (record {
        func = "";
        error = some (internal_error ("unknown query function: " ++ func));
      }),
      nc,
    )

    module _ (encodable : Value → Bool)
        (redis : List (WorkerResult (payloads f32 f64 Line Overview)) → Option GoError) where
      abbrev pub World : Type 0
      World = NormsCache × List (WorkerResult (payloads f32 f64 Line Overview))

      -- A panic becomes the returned error.
      unfoldable pub finish : Query → World → Acted (Value × NormsCache) → Option GoError × World
      finish q w (action_panicked m) = (some (panic_value_to_err (panic_text m)), w)
      finish q w (answered (v, nc)) =
          let (e, sent) =
            publish_answer encodable redis q.channel (fallback_of q.args) (wrapped v) w.1 in
          (e, (nc, sent))

      unfoldable pub run_query_protected : Query → World → Option GoError × World
      unfolding act finish
      run_query_protected q w = finish q w (act q.func q.args w.0)

      -- A returned error is published as a result of its own.
      abbrev pub report : Query → Option GoError × World → World
      report q (none, after) = after
      report q (some e, after) =
          let failure : Value =
            error_result (record { func = q.func; error = some (wrap_error e) }) in
          (after.0, (publish_value encodable redis q.channel failure after.1).1)

      -- What is done with a query that someone waits for.
      unfoldable pub run_query : Query → World → World
      unfolding run_query_protected
      run_query q w = report q (run_query_protected q w)

      unfoldable pub try_next : Dequeued Query → (String → Result Bool) → World → World
      unfolding run_query
      try_next empty_queue listens w = w
      try_next (dequeue_error e) listens w = w
      try_next (query q) listens w = elim (listens q.channel) [
        | err e ↦ w
        | ok false ↦ w
        | ok true ↦ run_query q w
      ]
