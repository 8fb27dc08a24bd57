-- ===== src/Rdb/Protocol/Drain.antt =====
-- That the turns of a worker (worker/worker.go) come to the end of the queue.
use mquery.Base.{
  ℕ, zero, suc, ◌+◌, ◌-◌, ◌≤◌, ◌≡◌, refl, sym, ap, subst, inl, inr, List, [], ◌∷◌, ◌++◌, Option,
  none, some, length, length-append, Bool-cases, arith,
}
use mquery.Base.Text.{contains}
use mquery.Rdb.Protocol.{
  Job, Net, pop_last, start_query, try_next_query, without_query, drop_query, publish_query,
  publish_query_failed, publish_unnotified, give_up, publish_result, receive, time_out, expire,
  Step, published, publish_failed, taken, dropped, unnotified, gave_up, finished, received, timed,
  expired, Reach,
}
use mquery.Rdb.Protocol.Turns.{
  RunOf, end_run, end_turn, turn, take_queries, new_queries, Turns, stopped, other, found_empty,
  not_run, began, stored, ended, failed, Turns-Reach, IsRun,
}

module _ {Q : Type 0} where
  -- The popped query is the last of the list.
  IsLast : List (Job Q) → Option (Job Q × List (Job Q)) → Type 0
  IsLast q none = q ≡ []
  IsLast q (some (j, rest)) = q ≡ rest ++ j ∷ []

  pushed-IsLast :
      (x : Job Q) (q : List (Job Q)) (o : Option (Job Q × List (Job Q)))
      → IsLast q o
      → IsLast (x ∷ q) (elim o [ none ↦ some (x, []) | some (l, rest) ↦ some (l, x ∷ rest) ])
  unfolding IsLast
  pushed-IsLast x q none h = ap (λ js. x ∷ js) h
  pushed-IsLast x q (some (l, rest)) h = ap (λ js. x ∷ js) h

  pop_last-IsLast : (q : List (Job Q)) → IsLast q (pop_last q)
  unfolding pop_last IsLast
  pop_last-IsLast [] = refl
  pop_last-IsLast (x ∷ q) = pushed-IsLast x q (pop_last q) (pop_last-IsLast q)

  length-popped :
      (q : List (Job Q)) (j : Job Q) (rest : List (Job Q))
      → pop_last q ≡ some (j, rest)
      → length q ≡ suc (length rest)
  unfolding IsLast
  length-popped q j rest h =
      let last : q ≡ rest ++ j ∷ [] = subst (IsLast q) h (pop_last-IsLast q) in
      omega (arith, ap length last, length-append rest (j ∷ []))

  -- A queue with a last element is not empty, and one without is.
  pop_last-none : (q : List (Job Q)) → pop_last q ≡ none → q ≡ []
  unfolding IsLast
  pop_last-none q h = subst (IsLast q) h (pop_last-IsLast q)

length-zero : {A : Type 0} (xs : List A) → length xs ≤ 0 → xs ≡ []
length-zero [] h = refl
length-zero (x ∷ xs) h = absurd (omega (arith, h))

module _ {Q R : Type 0} (runs : Job Q → R → Type 0) where
  -- A worker that takes or drops a query shortens the queue.
  started-length :
      (s : Net Q R) (o : Option (Job Q × List (Job Q)))
      → pop_last s.queue ≡ o
      → length (start_query o s).queue ≤ length s.queue - 1
  started-length s none e = omega (arith, ap length (pop_last-none s.queue e))
  started-length s (some (j, rest)) e = elim (Bool-cases (contains s.subs j.channel)) [
    | inl l ↦ rw l (omega (arith, length-popped s.queue j rest e))
    | inr l ↦ rw l (omega (arith, length-popped s.queue j rest e))
  ]

  dropped-length :
      (s : Net Q R) (o : Option (Job Q × List (Job Q)))
      → pop_last s.queue ≡ o
      → length (without_query o s).queue ≤ length s.queue - 1
  dropped-length s none e = omega (arith, ap length (pop_last-none s.queue e))
  dropped-length s (some (j, rest)) e = omega (arith, length-popped s.queue j rest e)

  try_next_query-length : (s : Net Q R) → length (try_next_query s).queue ≤ length s.queue - 1
  unfolding try_next_query
  try_next_query-length s = started-length s (pop_last s.queue) refl

  drop_query-length : (s : Net Q R) → length (drop_query s).queue ≤ length s.queue - 1
  unfolding drop_query
  drop_query-length s = dropped-length s (pop_last s.queue) refl

  Step-length :
      {s t : Net Q R} (st : Step runs s t) → length t.queue ≤ new_queries runs st + length s.queue
  unfolding publish_query publish_query_failed publish_result publish_unnotified give_up receive
      time_out expire
  Step-length {s} (published j f) = omega arith
  Step-length {s} (publish_failed j) = omega arith
  Step-length {s} taken = omega (arith, try_next_query-length s)
  Step-length {s} dropped = omega (arith, drop_query-length s)
  Step-length {s} (unnotified j before after r e p) = omega arith
  Step-length {s} (gave_up j before after e) = omega arith
  Step-length {s} (finished j before after r e p) = omega arith
  Step-length {s} (received g c w i) = omega arith
  Step-length {s} (timed c w) = omega arith
  Step-length {s} (expired gone kept e) = omega arith

  Turns-length :
      {m : Option (Job Q)} {n p : ℕ} {s u : Net Q R}
      → Turns runs m n p s u
      → length u.queue ≤ (length s.queue - n) + p
  unfolding publish_result publish_unnotified give_up
  Turns-length stopped = omega arith
  Turns-length (other st ts) = omega (arith, Turns-length ts, Step-length st)
  Turns-length (found_empty e ts) = omega (arith, Turns-length ts, ap length e)
  Turns-length {s = s} (not_run ts) = omega (arith, Turns-length ts, drop_query-length s)
  Turns-length {s = s} (began j rest e l ts) =
      omega (arith, Turns-length ts, try_next_query-length s)
  Turns-length (stored j before after x e p ts) = Turns-length ts
  Turns-length (ended j before after x e p ts) = Turns-length ts
  Turns-length (failed j before after e ts) = Turns-length ts

  end_run-Turns :
      {n p : ℕ} {u : Net Q R} (j : Job Q) (others : List (Job Q)) (xs : List R) (o : Option R)
      (s : Net Q R)
      → IsRun runs j (xs, o)
      → s.running ≡ j ∷ others
      → Turns runs none n p (end_run j others (xs, o) s) u
      → Turns runs (some j) n p s u
  unfolding end_run publish_unnotified
  end_run-Turns j others [] none s h e ts = failed j [] others e ts
  end_run-Turns j others [] (some r) s h e ts = ended j [] others r e h.1 ts
  end_run-Turns j others (x ∷ xs) none s h e ts =
      stored j [] others x e h.0
        (end_run-Turns j others xs none (publish_unnotified j x s) h.1 e ts)
  end_run-Turns j others (x ∷ xs) (some r) s h e ts =
      stored j [] others x e h.0.0
        (end_run-Turns j others xs (some r) (publish_unnotified j x s) (h.0.1, h.1) e ts)

  module _ (run : Job Q → RunOf R) (sound : (j : Job Q) → IsRun runs j (run j)) where
    end_turn-Turns :
        {n p : ℕ} {u : Net Q R} (s : Net Q R) (o : Option (Job Q × List (Job Q)))
        → pop_last s.queue ≡ o
        → Turns runs none n p (end_turn run o s) u
        → Turns runs none (suc n) p s u
    unfolding try_next_query drop_query
    end_turn-Turns s none e ts = found_empty (pop_last-none s.queue e) ts
    end_turn-Turns {n} {p} {u} s (some (j, rest)) e ts =
        elim (Bool-cases (contains s.subs j.channel)) [
          | inl l ↦
              let now = record s { queue = rest; running = j ∷ s.running } in
              began j rest e l (
                subst (λ o. Turns runs (some j) n p (start_query o s) u) (sym e)
                  (rw l (
                    end_run-Turns j s.running (run j).0 (run j).1 now (sound j) refl (rw l at ts))))
          | inr l ↦
              not_run (subst (λ o. Turns runs none n p (without_query o s) u) (sym e) (rw l at ts))
        ]

    take_queries-Turns : (n : ℕ) (s : Net Q R) → Turns runs none n 0 s (take_queries run n s)
    unfolding take_queries turn
    take_queries-Turns zero s = stopped
    take_queries-Turns (suc n) s =
        end_turn-Turns s (pop_last s.queue) refl (take_queries-Turns n (turn run s))

    -- Whatever steps other processes take between and during the n turns of a worker: the state is
    -- one of the protocol, and the queue is shorter by n, or empty, but for the queries that were
    -- published meanwhile. From there the worker alone comes to the end of the queue in as many turns
    -- as it holds queries, in each of which it runs at most one query and ends with it.
    pub take_queries-IsDrained :
        (n p : ℕ) (s u : Net Q R)
        → Reach runs s
        → Turns runs none n p s u
        → let left = length u.queue in
          Reach runs u
          × (left ≤ (length s.queue - n) + p)
          × Turns runs none left 0 u (take_queries run left u)
          × ((take_queries run left u).queue ≡ [])
    take_queries-IsDrained n p s u reach ts =
        let left = length u.queue in
        let alone = take_queries-Turns left u in
        (
          Turns-Reach runs ts reach,
          Turns-length ts,
          alone,
          length-zero (take_queries run left u).queue (omega (arith, Turns-length alone)),
        )
