-- ===== src/Handlers/Exchange/Once.antt =====
-- Actions that answer a request once.
use mquery.Base.{
  ℕ, ◌≡◌, refl, Bool, Option, none, some, length, All, if◌then◌else◌, inl, inr, Option-cases,
}
use mquery.Base.Int.{ℤ}
use mquery.Base.Text.{String}
use mquery.Rdb.Query.{Args}
use mquery.Results.Types.{Payloads, FuncResult, err_of}
use mquery.Handlers.Parallel.{int_arg}
use mquery.Handlers.Request.{Url, arg, Served, failing, panicking, with_int}
use mquery.Handlers.Exchange.{
  Asked, not_published, received, handle_worker_error, typed_or_respond_error, with_reply, exchange,
}

module _ {B : Type 0} (P : String × Args → Type 0) where
  -- One response, or none after a panic; and every published query has the property.
  pub record AnswersOnce (s : Served B) : Type 0 where
    pub asked_all : All P s.asked
    pub once : length s.writes ≡ (if s.panics then 0 else 1)

  pub failing-AnswersOnce : (status : ℕ) → AnswersOnce (failing status)
  failing-AnswersOnce status = record { asked_all = tt; once = refl }

  pub panicking-AnswersOnce : AnswersOnce panicking
  panicking-AnswersOnce = record { asked_all = tt; once = refl }

  module _ {ty : Payloads} (next : FuncResult ty → Served B)
      (final : (v : FuncResult ty) → AnswersOnce (next v)) where
    handle_worker_error-AnswersOnce :
        (o : Option (FuncResult ty)) (b : Bool) → AnswersOnce (handle_worker_error o b next)
    unfolding handle_worker_error
    handle_worker_error-AnswersOnce none b = panicking-AnswersOnce
    handle_worker_error-AnswersOnce (some v) b = elim (Option-cases (err_of v)) [
      | inl e ↦ rw (e, handle_worker_error) (final v)
      | inr (err, e) ↦ rw (e, handle_worker_error) (failing-AnswersOnce (if b then 400 else 500))
    ]

    with_reply-AnswersOnce : (r : Asked ty) → AnswersOnce (with_reply r next)
    unfolding with_reply
    with_reply-AnswersOnce not_published = failing-AnswersOnce 500
    with_reply-AnswersOnce (received o b) = handle_worker_error-AnswersOnce o b

    pub exchange-AnswersOnce :
        (ask : String → Args → Asked ty) (func : String) (args : Args)
        → P (func, args)
        → AnswersOnce (exchange ask func args next)
    exchange-AnswersOnce ask func args p =
        let rest = with_reply-AnswersOnce (ask func args) in
        record { asked_all = (p, rest.asked_all); once = rest.once }

  module _ {ty : Payloads} {A : Type 0} where
    pub typed-AnswersOnce :
        (as_type : FuncResult ty → Option A) (next : A → Served B)
        → ((x : A) → AnswersOnce (next x))
        → (v : FuncResult ty) → AnswersOnce (typed_or_respond_error as_type next v)
    typed-AnswersOnce as_type next final v = elim (Option-cases (as_type v)) [
      | inl e ↦ rw (e, typed_or_respond_error) (failing-AnswersOnce 500)
      | inr (x, e) ↦ rw (e, typed_or_respond_error) (final x)
    ]

  pub with_int-AnswersOnce :
      (atoi : String → Option ℤ) (status : ℕ) (name : String) (dflt : ℤ) (url : Url)
      (next : ℤ → Served B)
      → ((n : ℤ) → AnswersOnce (next n))
      → AnswersOnce (with_int atoi status name dflt url next)
  with_int-AnswersOnce atoi status name dflt url next final =
      elim (Option-cases (int_arg atoi dflt (arg name url))) [
        | inl e ↦ rw (e, with_int) (failing-AnswersOnce status)
        | inr (n, e) ↦ rw (e, with_int) (final n)
      ]
