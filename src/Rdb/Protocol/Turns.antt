-- ===== src/Rdb/Protocol/Turns.antt =====
-- worker/worker.go: the turns of `tryNextQuery` in the loop of `Start`, each of which takes a query,
-- runs it and publishes its result before the next, while other processes take their steps.
use mquery.Base.{
  ℕ, zero, suc, ◌+◌, ◌≡◌, true, List, [], ◌∷◌, ◌++◌, Option, none, some, if◌then◌else◌, All,
}
use mquery.Base.Text.{contains}
use mquery.Rdb.Protocol.{
  Job, Net, pop_last, start_query, try_next_query, drop_query, publish_unnotified, give_up,
  publish_result, Step, published, publish_failed, taken, dropped, unnotified, gave_up, finished,
  received, timed, expired, Reach, next,
}

-- What comes of running a query: the results that are stored without a notification, one after the
-- other, and the one that is published in the end, if the worker does not give up.
abbrev pub RunOf : Type 0 → Type 0
RunOf R = List R × Option R

module _ {Q R : Type 0} where
  unfoldable pub end_run : Job Q → List (Job Q) → RunOf R → Net Q R → Net Q R
  end_run j others ([], none) s = give_up others s
  end_run j others ([], some r) s = publish_result j others r s
  end_run j others (x ∷ xs, o) s = end_run j others (xs, o) (publish_unnotified j x s)

  -- A turn of `tryNextQuery` in which no other process takes a step.
  abbrev pub end_turn : (Job Q → RunOf R) → Option (Job Q × List (Job Q)) → Net Q R → Net Q R
  end_turn run none s = s
  end_turn run (some (j, rest)) s =
      if contains s.subs j.channel
      then end_run j s.running (run j) (start_query (some (j, rest)) s)
      else start_query (some (j, rest)) s

  unfoldable pub turn : (Job Q → RunOf R) → Net Q R → Net Q R
  unfolding end_run pop_last
  turn run s = end_turn run (pop_last s.queue) s

  -- n turns, one after the other.
  unfoldable pub take_queries : (Job Q → RunOf R) → ℕ → Net Q R → Net Q R
  take_queries run zero s = s
  take_queries run (suc n) s = take_queries run n (turn run s)

module _ {Q R : Type 0} (runs : Job Q → R → Type 0) where
  -- The number of queries that a step publishes.
  abbrev pub new_queries : {s t : Net Q R} → Step runs s t → ℕ
  new_queries (published j f) = 1
  new_queries (publish_failed j) = 0
  new_queries taken = 0
  new_queries dropped = 0
  new_queries (unnotified j before after r e p) = 0
  new_queries (gave_up j before after e) = 0
  new_queries (finished j before after r e p) = 0
  new_queries (received g c w i) = 0
  new_queries (timed c w) = 0
  new_queries (expired gone kept e) = 0

  -- The worker, idle or with the query that it runs, makes n turns, and other processes publish p
  -- queries meanwhile. A turn whose RPOP fails takes nothing and is not counted.
  pub data Turns : Option (Job Q) → ℕ → ℕ → Net Q R → Net Q R → Type 0 where
    stopped : {s : Net Q R} → Turns none 0 0 s s
    other :
        {m : Option (Job Q)} {n p : ℕ} {s t u : Net Q R} (st : Step runs s t)
        → Turns m n p t u
        → Turns m n (new_queries st + p) s u
    found_empty :
        {n p : ℕ} {s u : Net Q R} → s.queue ≡ [] → Turns none n p s u → Turns none (suc n) p s u
    not_run : {n p : ℕ} {s u : Net Q R} → Turns none n p (drop_query s) u → Turns none (suc n) p s u
    began :
        {n p : ℕ} {s u : Net Q R} (j : Job Q) (rest : List (Job Q))
        → pop_last s.queue ≡ some (j, rest)
        → contains s.subs j.channel ≡ true
        → Turns (some j) n p (try_next_query s) u
        → Turns none (suc n) p s u
    stored :
        {n p : ℕ} {s u : Net Q R} (j : Job Q) (before after : List (Job Q)) (r : R)
        → s.running ≡ before ++ j ∷ after
        → runs j r
        → Turns (some j) n p (publish_unnotified j r s) u
        → Turns (some j) n p s u
    ended :
        {n p : ℕ} {s u : Net Q R} (j : Job Q) (before after : List (Job Q)) (r : R)
        → s.running ≡ before ++ j ∷ after
        → runs j r
        → Turns none n p (publish_result j (before ++ after) r s) u
        → Turns (some j) n p s u
    failed :
        {n p : ℕ} {s u : Net Q R} (j : Job Q) (before after : List (Job Q))
        → s.running ≡ before ++ j ∷ after
        → Turns none n p (give_up (before ++ after) s) u
        → Turns (some j) n p s u

  -- Such a course is one of the protocol.
  pub Turns-Reach :
      {m : Option (Job Q)} {n p : ℕ} {s u : Net Q R} → Turns m n p s u → Reach runs s → Reach runs u
  Turns-Reach stopped r = r
  Turns-Reach (other st ts) r = Turns-Reach ts (next r st)
  Turns-Reach (found_empty e ts) r = Turns-Reach ts r
  Turns-Reach (not_run ts) r = Turns-Reach ts (next r dropped)
  Turns-Reach (began j rest e l ts) r = Turns-Reach ts (next r taken)
  Turns-Reach (stored j before after x e p ts) r =
      Turns-Reach ts (next r (unnotified j before after x e p))
  Turns-Reach (ended j before after x e p ts) r =
      Turns-Reach ts (next r (finished j before after x e p))
  Turns-Reach (failed j before after e ts) r = Turns-Reach ts (next r (gave_up j before after e))

  -- All the results of the run are results of the query.
  abbrev pub IsRun : Job Q → RunOf R → Type 0
  IsRun j (xs, none) = All (runs j) xs
  IsRun j (xs, some r) = All (runs j) xs × runs j r
