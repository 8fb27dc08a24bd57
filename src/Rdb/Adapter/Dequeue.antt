-- ===== src/Rdb/Adapter/Dequeue.antt =====
-- What `DequeueQuery` makes of a reply.
use mquery.Base.{◌≡◌, ◌↔◌, ◌⊎◌, inl, inr, refl, ap, subst, false, arith}
use mquery.Base.Text.{String, str_eq, str_eq_iff}
use mquery.Errors.{Result, ok}
use mquery.Rdb.Adapter.{Reply, value, no_value, redis_error, query, empty_queue, dequeue_query}

-- `DequeueQuery` gives a query exactly if Redis replies with a text that is not empty and decodes as
-- that query. It reports an empty queue exactly for an empty text, for no value, and for every error
-- of Redis.
pub dequeue_query_lem :
    {Q : Type 0} (decode : String → Result Q) (cmd : Reply String)
    → ((q : Q)
        → (dequeue_query decode cmd ≡ query q)
          ↔ ((s : String) × (cmd ≡ value s) × (str_eq s "" ≡ false) × (decode s ≡ ok q)))
      × ((dequeue_query decode cmd ≡ empty_queue)
          ↔ ((cmd ≡ value "") ⊎ (cmd ≡ no_value) ⊎ ((e : String) × (cmd ≡ redis_error e))))
unfolding dequeue_query
dequeue_query_lem decode (value s) = (
  λ q. (
    λ h. (s, refl, ground (arith, h), ground (arith, h)),
    λ h.
        let same : h.0 ≡ s = cc (h.1) in
        let filled = subst (λ x. str_eq x "" ≡ false) same h.2 in
        let decoded = subst (λ x. decode x ≡ ok q) same h.3 in
        rw (filled, dequeue_query) (rw decoded refl),
  ),
  (
    λ h. inl (ap value ((str_eq_iff s "").0 (ground (arith, h)))),
    λ h. elim h [
      | inl e ↦ let same : s ≡ "" = cc e in rw same refl
      | inr (inl e) ↦ absurd (cc e)
      | inr (inr (x, e)) ↦ absurd (cc e)
    ],
  ),
)
dequeue_query_lem decode no_value =
    (λ q. (λ h. absurd (cc h), λ h. absurd (cc (h.1))), (λ h. inr (inl refl), λ h. refl))
dequeue_query_lem decode (redis_error e) =
    (λ q. (λ h. absurd (cc h), λ h. absurd (cc (h.1))), (λ h. inr (inr (e, refl)), λ h. refl))
