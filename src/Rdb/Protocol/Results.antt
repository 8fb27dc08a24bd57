-- ===== src/Rdb/Protocol/Results.antt =====
-- The result that a client gets is one of its own query.
use mquery.Base.{
  ◌≡◌, ◌⊎◌, inl, inr, refl, sym, subst, List, [], ◌∷◌, ◌++◌, if◌then◌else◌, Option, none, some, All,
  All-append, Bool-cases, ap,
}
use mquery.Base.Text.{String, str_eq, str_eq_iff, contains}
use mquery.Rdb.Protocol.{
  Job, Answer, result, lost, unread, undecodable, timed_out, Reading, get_works, get_fails,
  decoding_fails, Net, publish_query, publish_query_failed, try_next_query, start_query, drop_query,
  without_query, publish_unnotified, give_up, dropped, unnotified, gave_up, publish_result, receive,
  time_out, expire, Step, published, publish_failed, taken, finished, received, timed, expired,
  Reach, start, next, pop_last, stored_result, read_answer,
}

module _ {A : Type 0} {P P' : A → Type 0} where
  pub All-map : ((x : A) → P x → P' x) → (xs : List A) → All P xs → All P' xs
  All-map f [] h = tt
  All-map f (x ∷ xs) h = (f x h.0, All-map f xs h.1)

module _ {A : Type 0} (P : A → Type 0) where
  All-parts : (xs ys : List A) → All P (xs ++ ys) → All P xs × All P ys
  All-parts [] ys h = (tt, h)
  All-parts (x ∷ xs) ys h = let rest = All-parts xs ys h.1 in ((h.0, rest.0), rest.1)

  -- The elements of a list in whose middle one stands.
  All-middle : (xs : List A) (x : A) (ys : List A) → All P (xs ++ x ∷ ys) → P x × All P (xs ++ ys)
  All-middle xs x ys h =
      let parts = All-parts xs (x ∷ ys) h in (parts.1.0, All-append P xs ys parts.0 parts.1.1)

abbrev pub In : {A : Type 0} → A → List A → Type 0
In x [] = ⊥
In x (y ∷ ys) = (y ≡ x) ⊎ In x ys

module _ {Q : Type 0} (P : Job Q → Type 0) where
  -- Holds of what was popped and of what is left.
  abbrev IsPopped : Option (Job Q × List (Job Q)) → Type 0
  IsPopped none = Unit
  IsPopped (some (j, rest)) = P j × All P rest

  IsPopped-pushed :
      (x : Job Q) (o : Option (Job Q × List (Job Q)))
      → P x
      → IsPopped o
      → IsPopped (elim o [ none ↦ some (x, []) | some (l, rest) ↦ some (l, x ∷ rest) ])
  IsPopped-pushed x none h ih = (h, tt)
  IsPopped-pushed x (some (l, rest)) h ih = (ih.0, (h, ih.1))

  pop_last-All : (js : List (Job Q)) → All P js → IsPopped (pop_last js)
  unfolding pop_last
  pop_last-All [] h = tt
  pop_last-All (x ∷ js) h = IsPopped-pushed x (pop_last js) h.0 (pop_last-All js h.1)

module _ {Q R : Type 0} (runs : Job Q → R → Type 0) where
  -- Some query of the list has the channel, and a run of it may give the result.
  abbrev pub IsServed : List (Job Q) → String → R → Type 0
  IsServed [] c r = ⊥
  IsServed (j ∷ js) c r = ((j.channel ≡ c) × runs j r) ⊎ IsServed js c r

  abbrev pub IsAnswerOf : List (Job Q) → String → Answer R → Type 0
  IsAnswerOf js c (result r) = IsServed js c r
  IsAnswerOf js c lost = Unit
  IsAnswerOf js c unread = Unit
  IsAnswerOf js c undecodable = Unit
  IsAnswerOf js c timed_out = Unit

  IsServed-In :
      (js : List (Job Q)) (j : Job Q) (r : R) → In j js → runs j r → IsServed js j.channel r
  IsServed-In [] j r h p = h
  IsServed-In (k ∷ js) j r (inl e) p = inl (ap (λ x. x.channel) e, subst (λ x. runs x r) (sym e) p)
  IsServed-In (k ∷ js) j r (inr h) p = inr (IsServed-In js j r h p)

  IsAnswerOf-found :
      (js : List (Job Q)) (c k : String) (r : R) (o : Option R)
      → IsServed js k r
      → IsAnswerOf js c (read_answer get_works o)
      → IsAnswerOf js c (read_answer get_works (if str_eq k c then some r else o))
  IsAnswerOf-found js c k r o h ih = elim (Bool-cases (str_eq k c)) [
    | inl e ↦ rw e (subst (λ x. IsServed js x r) ((str_eq_iff k c).0 e) h)
    | inr e ↦ rw e ih
  ]

  found-IsAnswerOf :
      (js : List (Job Q)) (c : String) (store : List (String × R))
      → All (λ e. IsServed js e.0 e.1) store
      → IsAnswerOf js c (read_answer get_works (stored_result c store))
  unfolding stored_result
  found-IsAnswerOf js c [] h = tt
  found-IsAnswerOf js c ((k, x) ∷ store) h =
      IsAnswerOf-found js c k x (stored_result c store) h.0 (found-IsAnswerOf js c store h.1)

  -- A failure of the reading gives no result.
  read-IsAnswerOf :
      (g : Reading) (js : List (Job Q)) (c : String) (o : Option R)
      → IsAnswerOf js c (read_answer get_works o)
      → IsAnswerOf js c (read_answer g o)
  read-IsAnswerOf get_works js c o h = h
  read-IsAnswerOf get_fails js c o h = tt
  read-IsAnswerOf decoding_fails js c none h = tt
  read-IsAnswerOf decoding_fails js c (some r) h = tt

  pub stored_result-IsAnswerOf :
      (g : Reading) (js : List (Job Q)) (c : String) (store : List (String × R))
      → All (λ e. IsServed js e.0 e.1) store
      → IsAnswerOf js c (read_answer g (stored_result c store))
  stored_result-IsAnswerOf g js c store h =
      read-IsAnswerOf g js c (stored_result c store) (found-IsAnswerOf js c store h)

  -- What is in the queue, at the workers, in the store and in the answers belongs to the queries.
  abbrev pub IsOwned : Net Q R → Type 0
  IsOwned s =
      All (λ j. In j s.issued) s.queue
      × All (λ j. In j s.issued) s.running
      × All (λ e. IsServed s.issued e.0 e.1) s.store
      × All (λ e. IsAnswerOf s.issued e.0 e.1) s.answers

  IsAnswerOf-more :
      (j : Job Q) (js : List (Job Q)) (c : String) (a : Answer R)
      → IsAnswerOf js c a
      → IsAnswerOf (j ∷ js) c a
  IsAnswerOf-more j js c (result r) h = inr h
  IsAnswerOf-more j js c lost h = tt
  IsAnswerOf-more j js c unread h = tt
  IsAnswerOf-more j js c undecodable h = tt
  IsAnswerOf-more j js c timed_out h = tt

  start_query-IsOwned :
      (s : Net Q R) (o : Option (Job Q × List (Job Q)))
      → IsOwned s
      → IsPopped (λ j. In j s.issued) o
      → IsOwned (start_query o s)
  start_query-IsOwned s none h p = h
  start_query-IsOwned s (some (j, rest)) h p = elim (Bool-cases (contains s.subs j.channel)) [
    | inl e ↦ rw e (p.1, (p.0, h.1), h.2, h.3)
    | inr e ↦ rw e (p.1, h.1, h.2, h.3)
  ]

  try_next_query-IsOwned : (s : Net Q R) → IsOwned s → IsOwned (try_next_query s)
  unfolding try_next_query
  try_next_query-IsOwned s h =
      start_query-IsOwned s (pop_last s.queue) h (pop_last-All (λ j. In j s.issued) s.queue h.0)

  without_query-IsOwned :
      (s : Net Q R) (o : Option (Job Q × List (Job Q)))
      → IsOwned s
      → IsPopped (λ j. In j s.issued) o
      → IsOwned (without_query o s)
  without_query-IsOwned s none h p = h
  without_query-IsOwned s (some (j, rest)) h p = (p.1, h.1, h.2, h.3)

  drop_query-IsOwned : (s : Net Q R) → IsOwned s → IsOwned (drop_query s)
  unfolding drop_query
  drop_query-IsOwned s h =
      without_query-IsOwned s (pop_last s.queue) h (pop_last-All (λ j. In j s.issued) s.queue h.0)

  Step-IsOwned : {s t : Net Q R} → Step runs s t → IsOwned s → IsOwned t
  unfolding publish_query publish_query_failed publish_result publish_unnotified give_up receive
      time_out expire
  Step-IsOwned {s} (published j f) (q, w, st, an) = (
    (inl refl, All-map (λ x h. inr h) s.queue q),
    All-map (λ x h. inr h) s.running w,
    All-map (λ x h. inr h) s.store st,
    All-map (λ x h. IsAnswerOf-more j s.issued x.0 x.1 h) s.answers an,
  )
  Step-IsOwned {s} (publish_failed j) h = h
  Step-IsOwned {s} taken h = try_next_query-IsOwned s h
  Step-IsOwned {s} dropped h = drop_query-IsOwned s h
  Step-IsOwned {s} (unnotified j before after r e p) (q, w, st, an) =
      let parts = All-middle (λ x. In x s.issued) before j after (rw e at w) in
      (q, w, (IsServed-In s.issued j r parts.0 p, st), an)
  Step-IsOwned {s} (gave_up j before after e) (q, w, st, an) =
      (q, (All-middle (λ x. In x s.issued) before j after (rw e at w)).1, st, an)
  Step-IsOwned {s} (finished j before after r e p) (q, w, st, an) =
      let parts = All-middle (λ x. In x s.issued) before j after (rw e at w) in
      (q, parts.1, (IsServed-In s.issued j r parts.0 p, st), an)
  Step-IsOwned {s} (received g c w i) (q, ru, st, an) =
      (q, ru, st, (stored_result-IsAnswerOf g s.issued c s.store st, an))
  Step-IsOwned {s} (timed c w) (q, ru, st, an) = (q, ru, st, (tt, an))
  Step-IsOwned {s} (expired gone kept e) (q, ru, st, an) =
      (q, ru, (All-parts (λ x. IsServed s.issued x.0 x.1) kept gone (rw e at st)).0, an)

  pub Reach-IsOwned : {s : Net Q R} → Reach runs s → IsOwned s
  Reach-IsOwned start = (tt, tt, tt, tt)
  Reach-IsOwned (next r st) = Step-IsOwned st (Reach-IsOwned r)

  -- In every reachable state each answer that holds a result was given on the channel of some query
  -- that was published, and a worker which runs that query may publish that result.
  pub Reach-answers :
      {s : Net Q R} → Reach runs s → All (λ e. IsAnswerOf s.issued e.0 e.1) s.answers
  Reach-answers r = (Reach-IsOwned r).3
