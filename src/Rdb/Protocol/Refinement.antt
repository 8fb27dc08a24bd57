-- ===== src/Rdb/Protocol/Refinement.antt =====
-- The exchange over Redis refines the abstract service.
use mquery.Base.{
  ◌≤◌, ◌≡◌, refl, sym, ◌∙◌, ap, subst, inl, inr, true, List, [], ◌∷◌, Option, none, some, All,
  Bool-cases, arith,
}
use mquery.Base.Text.{String, str_eq, str_eq_iff, contains}
use mquery.Rdb.Service.{
  Service, pending_on, without, call, reply, IsReply, ServiceReach, opened, called, replied,
}
use mquery.Rdb.Protocol.{
  Job, Answer, result, lost, unread, undecodable, timed_out, Net, remove_first, publish_query,
  publish_query_failed, publish_result, publish_unnotified, give_up, receive, time_out, expire,
  stored_result, read_answer, channels, Step, published, publish_failed, taken, dropped, unnotified,
  gave_up, finished, received, timed, expired, Reach, start, next,
}
use mquery.Rdb.Protocol.Counts.{count, Reach-answered_once, try_next_query-same, drop_query-same}
use mquery.Rdb.Protocol.Results.{
  In, IsServed, IsAnswerOf, stored_result-IsAnswerOf, Reach-IsOwned, All-map,
}

module _ {Q : Type 0} where
  In-count :
      (c : String) (j : Job Q) (js : List (Job Q))
      → In j js
      → j.channel ≡ c
      → 1 ≤ count c (channels js)
  unfolding count
  In-count c j [] h e = absurd h
  In-count c j (k ∷ js) (inl p) e =
      ground (arith, str_eq_iff k.channel c, ap (λ (x : Job Q). x.channel) p, e)
  In-count c j (k ∷ js) (inr h) e = ground (arith, In-count c j js h e)

  -- The first call on a channel that waits.
  record IsPending (c : String) (js : List (Job Q)) : Type 0 where
    job : Job Q
    on : job.channel ≡ c
    found : pending_on c js ≡ some job
    others : channels (without c js) ≡ remove_first c (channels js)

  waiting-IsPending :
      (c : String) (js : List (Job Q)) → contains (channels js) c ≡ true → IsPending c js
  unfolding pending_on without remove_first
  waiting-IsPending c [] h = absurd (cc)
  waiting-IsPending c (k ∷ js) h = elim (Bool-cases (str_eq k.channel c)) [
    | inl e ↦ record {
      job = k;
      on = (str_eq_iff k.channel c).0 e;
      found = rw e refl;
      others = rw e refl;
    }
    | inr e ↦
        let p = waiting-IsPending c js (rw e at h) in
        record {
          job = p.job;
          on = p.on;
          found = rw e p.found;
          others = rw e (ap (λ cs. k.channel ∷ cs) p.others);
        }
  ]

module _ {Q : Type 0} (P : Job Q → Type 0) where
  All-without : (c : String) (js : List (Job Q)) → All P js → All P (without c js)
  unfolding without
  All-without c [] h = tt
  All-without c (k ∷ js) h = elim (Bool-cases (str_eq k.channel c)) [
    | inl e ↦ rw e h.1
    | inr e ↦ rw e (h.0, All-without c js h.1)
  ]

  All-found :
      (c : String) (js : List (Job Q)) (j : Job Q) → pending_on c js ≡ some j → All P js → P j
  unfolding pending_on
  All-found c [] j e h = absurd (cc)
  All-found c (k ∷ js) j e h = elim (Bool-cases (str_eq k.channel c)) [
    | inl p ↦
        subst P (ap (λ (o : Option (Job Q)). elim o [ none ↦ k | some x ↦ x ]) (rw p at e)) h.0
    | inr p ↦ All-found c js j (rw p at e) h.1
  ]

module _ {Q R : Type 0} (runs : Job Q → R → Type 0) where
  served-count :
      (c : String) (r : R) (js : List (Job Q)) → IsServed runs js c r → 1 ≤ count c (channels js)
  unfolding count
  served-count c r [] h = absurd h
  served-count c r (k ∷ js) (inl (on, run)) = ground (arith, str_eq_iff k.channel c, on)
  served-count c r (k ∷ js) (inr h) = ground (arith, served-count c r js h)

  -- If the channel has one query, the result is one of that query.
  served_once :
      (c : String) (j : Job Q) (r : R) (js : List (Job Q))
      → IsServed runs js c r
      → In j js
      → j.channel ≡ c
      → count c (channels js) ≤ 1
      → runs j r
  unfolding count
  served_once c j r [] h i e once = absurd h
  served_once c j r (k ∷ js) (inl (on, run)) (inl p) e once = subst (λ x. runs x r) p run
  served_once c j r (k ∷ js) (inl (on, run)) (inr i) e once =
      absurd (ground (arith, In-count c j js i e, str_eq_iff k.channel c, on, once))
  served_once c j r (k ∷ js) (inr h) (inl p) e once = absurd (
      ground (
        arith,
        served-count c r js h,
        str_eq_iff k.channel c,
        ap (λ (x : Job Q). x.channel) p,
        e,
        once,
      ))
  served_once c j r (k ∷ js) (inr h) (inr i) e once =
      served_once c j r js h i e (ground (arith, once))

  -- The state of the service that a state of the exchange implements.
  pub record IsImplementedBy (v : Service Q R) (s : Net Q R) : Type 0 where
    pub calls : v.calls ≡ s.issued
    pub waits : channels v.pending ≡ s.waiting
    pub replies : v.replies ≡ s.answers
    pub owned : All (λ j. In j s.issued) v.pending

  abbrev Implements : Net Q R → Type 0
  Implements s = (v : Service Q R) × ServiceReach runs v × IsImplementedBy v s

  -- A reply to the call that waits on a channel.
  replied-Implements :
      {s t : Net Q R} (c : String) (a : Answer R)
      → Implements s
      → contains s.waiting c ≡ true
      → ((j : Job Q) → In j s.issued → j.channel ≡ c → IsReply runs j a)
      → t.issued ≡ s.issued
      → t.waiting ≡ remove_first c s.waiting
      → t.answers ≡ (c, a) ∷ s.answers
      → Implements t
  unfolding reply
  replied-Implements {s} {t} c a (v, r, i) w ok issued waiting answers =
      let p = waiting-IsPending c v.pending (rw i.waits w) in
      let own = All-found (λ j. In j s.issued) c v.pending p.job p.found i.owned in
      let reached : ServiceReach runs (reply c a v) =
        subst (λ k. ServiceReach runs (reply k a v)) p.on
          (replied r p.job a (rw p.on p.found) (ok p.job own p.on)) in
      (
        reply c a v,
        reached,
        record {
          calls = i.calls ∙ sym issued;
          waits = p.others ∙ ap (remove_first c) i.waits ∙ sym waiting;
          replies = ap (λ rs. (c, a) ∷ rs) i.replies ∙ sym answers;
          owned = rw issued (All-without (λ j. In j s.issued) c v.pending i.owned);
        },
      )

  kept-Implements :
      {s t : Net Q R}
      → Implements s
      → t.waiting ≡ s.waiting
      → t.answers ≡ s.answers
      → t.issued ≡ s.issued
      → Implements t
  kept-Implements {s} {t} (v, r, i) w an is = (
    v,
    r,
    record {
      calls = i.calls ∙ sym is;
      waits = i.waits ∙ sym w;
      replies = i.replies ∙ sym an;
      owned = rw is i.owned;
    },
  )

  found-IsReply :
      (s : Net Q R) (c : String) (a : Answer R)
      → IsAnswerOf runs s.issued c a
      → count c (channels s.issued) ≤ 1
      → (j : Job Q) → In j s.issued
      → j.channel ≡ c
      → IsReply runs j a
  found-IsReply s c (result x) h once j i e = served_once c j x s.issued h i e once
  found-IsReply s c lost h once j i e = tt
  found-IsReply s c unread h once j i e = tt
  found-IsReply s c undecodable h once j i e = tt
  found-IsReply s c timed_out h once j i e = tt

  Step-Implements : {s t : Net Q R} → Reach runs s → Step runs s t → Implements s → Implements t
  unfolding publish_query publish_query_failed publish_result publish_unnotified give_up receive
      time_out expire call
  Step-Implements {s} reach (published j f) (v, r, i) = (
    call j v,
    called r j (rw i.calls f),
    record {
      calls = ap (λ js. j ∷ js) i.calls;
      waits = ap (λ cs. j.channel ∷ cs) i.waits;
      replies = i.replies;
      owned = (inl refl, All-map (λ x h. inr h) v.pending i.owned);
    },
  )
  Step-Implements {s} reach (publish_failed j) m = kept-Implements m refl refl refl
  Step-Implements {s} reach taken m =
      let same = try_next_query-same s in kept-Implements m same.0 same.1 same.2
  Step-Implements {s} reach dropped m =
      let same = drop_query-same s in kept-Implements m same.0 same.1 same.2
  Step-Implements {s} reach (unnotified j before after r e p) m = kept-Implements m refl refl refl
  Step-Implements {s} reach (gave_up j before after e) m = kept-Implements m refl refl refl
  Step-Implements {s} reach (finished j before after r e p) m = kept-Implements m refl refl refl
  Step-Implements {s} reach (received g c w n) m =
      let a = read_answer g (stored_result c s.store) in
      replied-Implements c a m w
        (found-IsReply s c a
          (stored_result-IsAnswerOf runs g s.issued c s.store (Reach-IsOwned runs reach).2)
          (Reach-answered_once runs c reach).1)
        refl refl refl
  Step-Implements {s} reach (timed c w) m =
      replied-Implements c timed_out m w (λ j h e. tt) refl refl refl
  Step-Implements {s} reach (expired gone kept e) m = kept-Implements m refl refl refl

  -- The exchange over Redis, in which queries are queued, taken, dropped, stored, notified and expire
  -- in any order, refines the abstract service: every reachable state implements a state of the
  -- service that is reachable by calls on new channels and replies to calls that wait, in which a
  -- result is given only to a call whose run gives it. Its calls, its waiting channels and its
  -- replies are those of the exchange.
  pub Reach-Implements :
      {s : Net Q R} → Reach runs s → (v : Service Q R) × ServiceReach runs v × IsImplementedBy v s
  Reach-Implements start = (
    record { calls = []; pending = []; replies = [] },
    opened,
    record { calls = refl; waits = refl; replies = refl; owned = tt },
  )
  Reach-Implements (next r st) = Step-Implements r st (Reach-Implements r)
