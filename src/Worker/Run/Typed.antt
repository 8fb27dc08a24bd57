-- ===== src/Worker/Run/Typed.antt =====
-- The results that a worker sends have the types that the handlers assert.
use mquery.Base.{
  ◌≡◌, refl, Bool, true, false, inl, inr, List, Option, none, some, All, Bool-cases, Option-cases,
  if◌then◌else◌,
}
use mquery.Base.Float.{Floats}
use mquery.Base.Sort.{Sorter}
use mquery.Base.Text.{String}
use mquery.Errors.{GoError, wrap_error}
use mquery.Handlers.Exchange.{
  as_freqs, as_conc_size, as_concordance, as_collocations, as_norms, as_token_context,
  as_avail_values, as_corpus_info, as_coll_freq_data,
}
use mquery.Rdb.Query.{
  Args, corpus_info_args, freq_distrib_args, term_frequency_args, concordance_args,
  collocations_args, calc_coll_freq_data_args, text_type_norms_args, token_context_args,
  text_types_avail_values_args, other_args, Query,
}
use mquery.Results.Types.{
  Payloads, FuncResult, corpus_info, freq_distrib, conc_size, concordance, collocations,
  coll_freq_data, text_type_norms, token_context, text_types_avail_values, error_result, err_of,
  set_err, WorkerResult,
}
use mquery.Worker.FreqResult.{more_frequent}
use mquery.Worker.NormsCache.{NormsCache}
use mquery.Worker.Actions.{
  Manatee, Acted, answered, action_panicked, payloads, freq_distrib_of, corpus_info_of,
  conc_size_of, collocations_of,
}
use mquery.Worker.Lines.{concordance_of, token_context_of}
use mquery.Worker.TextTypes.{text_type_norms_of, calc_coll_freq_data_of, text_types_avail_values_of}
use mquery.Worker.Run.{
  Value, World, map_acted, wrapped, encodes, publish_value, publish_answer, retry, report, act,
  fallback_of, finish, run_query_protected, run_query,
}
use mquery.Worker.Run.Answers.{err_of-set_err}

abbrev pub is_some : {A : Type 0} → Option A → Bool
is_some none = false
is_some (some a) = true

module _ {ty : Payloads} where
  -- The type assertion for the answer of a query holds.
  abbrev pub asserted : Args → FuncResult ty → Bool
  asserted (corpus_info_args a) v = is_some (as_corpus_info v)
  asserted (freq_distrib_args a) v = is_some (as_freqs v)
  asserted (term_frequency_args a) v = is_some (as_conc_size v)
  asserted (concordance_args a) v = is_some (as_concordance v)
  asserted (collocations_args a) v = is_some (as_collocations v)
  asserted (calc_coll_freq_data_args a) v = is_some (as_coll_freq_data v)
  asserted (text_type_norms_args a) v = is_some (as_norms v)
  asserted (token_context_args a) v = is_some (as_token_context v)
  asserted (text_types_avail_values_args a) v = is_some (as_avail_values v)
  asserted other_args v = false

  -- An error, or a value of the asserted type.
  abbrev pub is_fit : Args → FuncResult ty → Bool
  is_fit args v = if is_some (err_of v) then true else asserted args v

  -- A result on the channel of a query is fit for it.
  abbrev pub FitsQuery : Query → WorkerResult ty → Type 0
  FitsQuery q r = r.channel ≡ q.channel → is_fit q.args r.value ≡ true

  error-is_fit :
      (args : Args) (v : FuncResult ty) (e : GoError) → err_of v ≡ some e → is_fit args v ≡ true
  error-is_fit args v e h = rw (h, is_fit) refl

  wrapped-is_fit :
      (args : Args) (v : FuncResult ty) → is_fit args v ≡ true → is_fit args (wrapped v) ≡ true
  unfolding wrapped
  wrapped-is_fit args v h = elim (Option-cases (err_of v)) [
    | inl p ↦ rw (p, wrapped) h
    | inr (e, p) ↦
        rw (p, wrapped)
          (error-is_fit args (set_err (some (wrap_error e)) v) (wrap_error e)
            (err_of-set_err (some (wrap_error e)) v))
  ]

  abbrev FallbackFits : Args → Option (GoError → FuncResult ty) → Type 0
  FallbackFits args none = Unit
  FallbackFits args (some f) = (e : GoError) → is_fit args (f e) ≡ true

  module _ (encodable : FuncResult ty → Bool) (redis : List (WorkerResult ty) → Option GoError)
      (q : Query) where
    publish_value-fits :
        (v : FuncResult ty) (sent : List (WorkerResult ty))
        → is_fit q.args v ≡ true
        → All (FitsQuery q) sent
        → All (FitsQuery q) (publish_value encodable redis q.channel v sent).1
    unfolding publish_value
    publish_value-fits v sent h all = elim (Bool-cases (encodes encodable redis v)) [
      | inr n ↦ rw (n, publish_value) all
      | inl y ↦ elim (Option-cases (redis sent)) [
        | inr (e, r) ↦ rw (y, publish_value) (rw r all)
        | inl r ↦ rw (y, publish_value) (rw r ((λ c. h), all))
      ]
    ]

    retry-fits :
        (fallback : Option (GoError → FuncResult ty))
        (first : Option GoError × List (WorkerResult ty))
        → FallbackFits q.args fallback
        → All (FitsQuery q) first.1
        → All (FitsQuery q) (retry encodable redis q.channel fallback first).1
    retry-fits fallback (none, sent) h all = all
    retry-fits none (some e, sent) h all = all
    retry-fits (some f) (some e, sent) h all = publish_value-fits (f e) sent (h e) all

-- Of an action that answers, the answer and the cache satisfy P.
abbrev AnswerHolds : {A : Type 0} → (A → Type 0) → Acted A → Type 0
AnswerHolds P (answered x) = P x
AnswerHolds P (action_panicked m) = Unit

module _ (f32 f64 : Floats) {Line Overview : Type 0} (lib : Manatee Line Overview f64.Float)
    (sort : Sorter (more_frequent {F = f32.Float})) where
  abbrev Fit : Args → Value f32 f64 lib × NormsCache → Type 0
  Fit args x = is_fit args x.0 ≡ true

  mapped-fits :
      {A : Type 0} (args : Args) (f : A → Value f32 f64 lib × NormsCache)
      → ((x : A) → Fit args (f x))
      → (o : Acted A) → AnswerHolds (Fit args) (map_acted f o)
  mapped-fits args f h (answered x) = h x
  mapped-fits args f h (action_panicked m) = tt

  asserted-fits :
      (args : Args) (v : Value f32 f64 lib) → asserted args v ≡ true → is_fit args v ≡ true
  asserted-fits args v h = elim (Option-cases (err_of v)) [
    | inl e ↦ rw (e, is_fit) h
    | inr (e, p) ↦ error-is_fit args v e p
  ]

  act-fits :
      (func : String) (args : Args) (nc : NormsCache)
      → AnswerHolds (Fit args) (act f32 f64 lib sort func args nc)
  unfolding act err_of
  act-fits func (corpus_info_args a) nc =
      asserted-fits (corpus_info_args a) (corpus_info (corpus_info_of lib a)) refl
  act-fits func (freq_distrib_args a) nc =
      mapped-fits (freq_distrib_args a) _
        (λ r. asserted-fits (freq_distrib_args a) (freq_distrib r) refl)
        (freq_distrib_of f32 lib sort a nc)
  act-fits func (term_frequency_args a) nc =
      asserted-fits (term_frequency_args a) (conc_size (conc_size_of lib (f64.of_int 0) a)) refl
  act-fits func (concordance_args a) nc =
      mapped-fits (concordance_args a) _
        (λ r. asserted-fits (concordance_args a) (concordance r) refl) (concordance_of lib a)
  act-fits func (collocations_args a) nc =
      asserted-fits (collocations_args a) (collocations (collocations_of lib a)) refl
  act-fits func (calc_coll_freq_data_args a) nc =
      asserted-fits (calc_coll_freq_data_args a) (coll_freq_data (calc_coll_freq_data_of lib a))
        refl
  act-fits func (text_type_norms_args a) nc =
      asserted-fits (text_type_norms_args a) (text_type_norms (text_type_norms_of lib a nc).0) refl
  act-fits func (token_context_args a) nc =
      mapped-fits (token_context_args a) _
        (λ r. asserted-fits (token_context_args a) (token_context r) refl) (token_context_of lib a)
  act-fits func (text_types_avail_values_args a) nc =
      asserted-fits (text_types_avail_values_args a)
        (text_types_avail_values (text_types_avail_values_of lib a)) refl
  act-fits func other_args nc = refl

  fallback-fits : (args : Args) → FallbackFits args (fallback_of f32 f64 lib args)
  unfolding err_of
  fallback-fits (corpus_info_args a) = λ e. refl
  fallback-fits (freq_distrib_args a) = λ e. refl
  fallback-fits (term_frequency_args a) = λ e. refl
  fallback-fits (concordance_args a) = λ e. refl
  fallback-fits (collocations_args a) = λ e. refl
  fallback-fits (calc_coll_freq_data_args a) = λ e. refl
  fallback-fits (text_type_norms_args a) = λ e. refl
  fallback-fits (token_context_args a) = λ e. refl
  fallback-fits (text_types_avail_values_args a) = λ e. refl
  fallback-fits other_args = tt

  module _ (encodable : Value f32 f64 lib → Bool)
      (redis : List (WorkerResult (payloads f32 f64 Line Overview)) → Option GoError) where
    finish-fits :
        (q : Query) (w : World f32 f64 lib sort encodable redis)
        (o : Acted (Value f32 f64 lib × NormsCache))
        → AnswerHolds (Fit q.args) o
        → All (FitsQuery q) w.1
        → All (FitsQuery q) (finish f32 f64 lib sort encodable redis q w o).1.1
    unfolding finish publish_answer
    finish-fits q w (action_panicked m) h all = all
    finish-fits q w (answered (v, nc)) h all =
        retry-fits encodable redis q (fallback_of f32 f64 lib q.args)
          (publish_value encodable redis q.channel (wrapped v) w.1) (fallback-fits q.args)
          (publish_value-fits encodable redis q (wrapped v) w.1 (wrapped-is_fit q.args v h) all)

    report-fits :
        (q : Query) (x : Option GoError × World f32 f64 lib sort encodable redis)
        → All (FitsQuery q) x.1.1
        → All (FitsQuery q) (report f32 f64 lib sort encodable redis q x).1
    unfolding err_of
    report-fits q (none, after) all = all
    report-fits q (some e, after) all =
        publish_value-fits encodable redis q
          (error_result (record { func = q.func; error = some (wrap_error e) })) after.1 refl all

    -- Whatever a worker runs and whether or not Redis is available: if the results that were sent
    -- on the channel of a query are fit for it, they still are after the worker has run it; each has
    -- an error or is of the type that the handler of that query asserts.
    pub run_query-FitsQuery :
        (q : Query) (w : World f32 f64 lib sort encodable redis)
        → All (FitsQuery q) w.1
        → All (FitsQuery q) (run_query f32 f64 lib sort encodable redis q w).1
    unfolding run_query run_query_protected
    run_query-FitsQuery q w all =
        report-fits q (run_query_protected f32 f64 lib sort encodable redis q w) (
          finish-fits q w (act f32 f64 lib sort q.func q.args w.0) (act-fits q.func q.args w.0) all)
