-- ===== src/Rdb/Protocol/Delivery.antt =====
-- A result is stored before its channel is notified, so a notified client finds its key until it expires.
use mquery.Base.{
  ◌≡◌, subst, true, List, [], ◌∷◌, Option, none, some, arith, All, inl, inr, Bool-cases,
}
use mquery.Base.Text.{String, str_eq, str_eq_iff, contains}
use mquery.Rdb.Protocol.{
  Job, Answer, result, lost, unread, undecodable, timed_out, Reading, get_works, get_fails,
  decoding_fails, Net, remove_first, stored_result, read_answer, publish_query,
  publish_query_failed, start_query, try_next_query, without_query, drop_query, publish_unnotified,
  give_up, publish_result, receive, time_out, Step, published, publish_failed, taken, dropped,
  unnotified, gave_up, finished, received, timed, expired, pop_last,
}

module _ (P : String → Type 0) where
  remove_first-All : (k : String) (cs : List String) → All P cs → All P (remove_first k cs)
  unfolding remove_first
  remove_first-All k [] h = tt
  remove_first-All k (c ∷ cs) h = elim (Bool-cases (str_eq c k)) [
    | inl e ↦ rw e h.1
    | inr e ↦ rw e (h.0, remove_first-All k cs h.1)
  ]

  All-contains : (k : String) (cs : List String) → All P cs → contains cs k ≡ true → P k
  All-contains k [] h c = absurd (ground arith)
  All-contains k (x ∷ cs) h c = elim (Bool-cases (str_eq x k)) [
    | inl e ↦ subst P ((str_eq_iff x k).0 e) h.0
    | inr e ↦ All-contains k cs h.1 (ground (arith, e, c))
  ]

module _ {R : Type 0} where
  abbrev IsStored : List (String × R) → String → Type 0
  IsStored store c = (r : R) × (stored_result c store ≡ some r)

  IsStored-new : (c : String) (r : R) (store : List (String × R)) → IsStored ((c, r) ∷ store) c
  unfolding stored_result
  IsStored-new c r store = (r, ground (arith, str_eq_iff c c))

  IsStored-more :
      (k : String) (x : R) (store : List (String × R)) (c : String)
      → IsStored store c
      → IsStored ((k, x) ∷ store) c
  unfolding stored_result
  IsStored-more k x store c (r, h) = elim (Bool-cases (str_eq k c)) [
    | inl e ↦ (x, ground (arith, e))
    | inr e ↦ (r, ground (arith, e, h))
  ]

  inbox-more :
      (k : String) (x : R) (store : List (String × R)) (cs : List String)
      → All (IsStored store) cs
      → All (IsStored ((k, x) ∷ store)) cs
  inbox-more k x store [] h = tt
  inbox-more k x store (c ∷ cs) h = (IsStored-more k x store c h.0, inbox-more k x store cs h.1)

module _ {Q R : Type 0} (runs : Job Q → R → Type 0) where
  -- Any step but the expiry of results.
  abbrev pub IsLasting : {s t : Net Q R} → Step runs s t → Type 0
  IsLasting (expired gone kept e) = ⊥
  IsLasting (published j f) = Unit
  IsLasting (publish_failed j) = Unit
  IsLasting taken = Unit
  IsLasting dropped = Unit
  IsLasting (unnotified j before after r e p) = Unit
  IsLasting (gave_up j before after e) = Unit
  IsLasting (finished j before after r e p) = Unit
  IsLasting (received g c w i) = Unit
  IsLasting (timed c w) = Unit

  pub data ReachLasting : Net Q R → Type 0 where
    start_lasting : ReachLasting (record {
      issued = [];
      queue = [];
      subs = [];
      running = [];
      store = [];
      inbox = [];
      waiting = [];
      answers = [];
    })
    next_lasting :
        {s t : Net Q R} → ReachLasting s → (st : Step runs s t) → IsLasting st → ReachLasting t

  abbrev pub IsFound : Answer R → Type 0
  IsFound lost = ⊥
  IsFound (result r) = Unit
  IsFound unread = Unit
  IsFound undecodable = Unit
  IsFound timed_out = Unit

  abbrev IsDelivered : Net Q R → Type 0
  IsDelivered s =
      All (IsStored s.store) s.inbox × All (λ (e : String × Answer R). IsFound e.1) s.answers

  start_query-IsDelivered :
      (s : Net Q R) (o : Option (Job Q × List (Job Q)))
      → IsDelivered s
      → IsDelivered (start_query o s)
  start_query-IsDelivered s none h = h
  start_query-IsDelivered s (some (j, rest)) h = elim (Bool-cases (contains s.subs j.channel)) [
    | inl e ↦ rw e h
    | inr e ↦ rw e h
  ]

  without_query-IsDelivered :
      (s : Net Q R) (o : Option (Job Q × List (Job Q)))
      → IsDelivered s
      → IsDelivered (without_query o s)
  without_query-IsDelivered s none h = h
  without_query-IsDelivered s (some (j, rest)) h = h

  read-IsFound : (g : Reading) (o : Option R) (r : R) → o ≡ some r → IsFound (read_answer g o)
  read-IsFound g none r h = absurd (cc h)
  read-IsFound get_works (some x) r h = tt
  read-IsFound get_fails (some x) r h = tt
  read-IsFound decoding_fails (some x) r h = tt

  Step-IsDelivered :
      {s t : Net Q R} (st : Step runs s t) → IsLasting st → IsDelivered s → IsDelivered t
  unfolding publish_query publish_query_failed try_next_query drop_query publish_result
      publish_unnotified give_up receive time_out
  Step-IsDelivered {s} (published j f) l h = h
  Step-IsDelivered {s} (publish_failed j) l h = h
  Step-IsDelivered {s} taken l h = start_query-IsDelivered s (pop_last s.queue) h
  Step-IsDelivered {s} dropped l h = without_query-IsDelivered s (pop_last s.queue) h
  Step-IsDelivered {s} (unnotified j before after r e p) l h =
      (inbox-more j.channel r s.store s.inbox h.0, h.1)
  Step-IsDelivered {s} (gave_up j before after e) l h = h
  Step-IsDelivered {s} (finished j before after r e p) l h =
      let old = inbox-more j.channel r s.store s.inbox h.0 in
      elim (Bool-cases (contains s.subs j.channel)) [
        | inl q ↦ rw q ((IsStored-new j.channel r s.store, old), h.1)
        | inr q ↦ rw q (old, h.1)
      ]
  Step-IsDelivered {s} (received g c w i) l h =
      let (r, e) = All-contains (IsStored s.store) c s.inbox h.0 i in
      (
        remove_first-All (IsStored s.store) c s.inbox h.0,
        (read-IsFound g (stored_result c s.store) r e, h.1),
      )
  Step-IsDelivered {s} (timed c w) l h = (h.0, (tt, h.1))
  Step-IsDelivered {s} (expired gone kept e) l h = absurd l

  ReachLasting-IsDelivered : {s : Net Q R} → ReachLasting s → IsDelivered s
  ReachLasting-IsDelivered start_lasting = (tt, tt)
  ReachLasting-IsDelivered (next_lasting r st l) =
      Step-IsDelivered st l (ReachLasting-IsDelivered r)

  -- In every state that is reached without the expiry of a stored result, no client that was notified
  -- has found its key absent: each answer that was given is a result, a timeout, or the error of a
  -- connection or a decoder that failed while a result was stored.
  pub ReachLasting-answers :
      {s : Net Q R} → ReachLasting s → All (λ (e : String × Answer R). IsFound e.1) s.answers
  ReachLasting-answers r = (ReachLasting-IsDelivered r).1
