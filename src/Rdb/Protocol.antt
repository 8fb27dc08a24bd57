-- ===== src/Rdb/Protocol.antt =====
-- rdb/client.go and worker/worker.go: the exchange of a query and its result. The state is that of
-- Redis, of the goroutines that wait for a result, and of the workers.
pub mod Counts
pub mod Results
pub mod Delivery
pub mod Refinement
pub mod Turns
pub mod Drain
use mquery.Base.{
  ℕ, ◌≡◌, ◌⊎◌, inl, inr, Bool, true, false, List, [], ◌∷◌, ◌++◌, Option, none, some, if◌then◌else◌,
}
use mquery.Base.Text.{String, str_eq, contains}

-- A query with the channel of its result, for any type of arguments.
pub record Job (Q : Type 0) : Type 0 where
  pub channel : String
  pub args : Q

-- What a waiting goroutine sends to its caller: the result, or an error because the key is absent,
-- because GET fails otherwise, because the stored bytes do not decode, or for the timeout.
pub data Answer (R : Type 0) : Type 0 where
  result : R → Answer R
  lost : Answer R
  unread : Answer R
  undecodable : Answer R
  timed_out : Answer R

pub record Net (Q R : Type 0) : Type 0 where
  -- All queries that were published, the last first.
  pub issued : List (Job Q)
  -- The list of Redis; LPUSH is at its head.
  pub queue : List (Job Q)
  -- The subscriptions to result channels.
  pub subs : List String
  -- The queries that workers are running.
  pub running : List (Job Q)
  -- The stored results, the last first.
  pub store : List (String × R)
  -- The notifications that have been delivered and not been read.
  pub inbox : List String
  -- The goroutines that wait, by their channels, and what they have answered.
  pub waiting : List String
  pub answers : List (String × Answer R)

unfoldable pub remove_first : String → List String → List String
remove_first k [] = []
remove_first k (c ∷ cs) = if str_eq c k then cs else c ∷ remove_first k cs

-- GET of a key.
unfoldable pub stored_result : {R : Type 0} → String → List (String × R) → Option R
stored_result k [] = none
stored_result k ((c, r) ∷ rest) = if str_eq c k then some r else stored_result k rest

-- How the reading of a result goes, apart from whether its key is there: GET and the decoder work,
-- the connection to Redis fails, or the decoder of gob fails.
pub data Reading : Type 0 where
  get_works : Reading
  get_fails : Reading
  decoding_fails : Reading

abbrev pub read_answer : {R : Type 0} → Reading → Option R → Answer R
read_answer get_fails o = unread
read_answer get_works none = lost
read_answer get_works (some r) = result r
read_answer decoding_fails none = lost
read_answer decoding_fails (some r) = undecodable

-- RPOP: the last element, and what is before it.
unfoldable pub pop_last : {Q : Type 0} → List (Job Q) → Option (Job Q × List (Job Q))
pop_last [] = none
pop_last (j ∷ js) = elim (pop_last js) [ none ↦ some (j, []) | some (l, rest) ↦ some (l, j ∷ rest) ]

abbrev pub channels : {Q : Type 0} → List (Job Q) → List String
channels [] = []
channels (j ∷ js) = j.channel ∷ channels js

module _ {Q R : Type 0} where
  -- PublishQuery: it subscribes, then pushes the query, then waits.
  unfoldable pub publish_query : Job Q → Net Q R → Net Q R
  publish_query j s = record s {
    issued = j ∷ s.issued;
    subs = j.channel ∷ s.subs;
    queue = j ∷ s.queue;
    waiting = j.channel ∷ s.waiting;
  }

  -- LPUSH fails: the subscription stays.
  pub publish_query_failed : Job Q → Net Q R → Net Q R
  publish_query_failed j s = record s { subs = j.channel ∷ s.subs }

  -- A worker that took a query runs it if someone listens for its result.
  abbrev pub start_query : Option (Job Q × List (Job Q)) → Net Q R → Net Q R
  start_query none s = s
  start_query (some (j, rest)) s =
      if contains s.subs j.channel
      then record s { queue = rest; running = j ∷ s.running }
      else record s { queue = rest }

  -- A worker takes the oldest query.
  unfoldable pub try_next_query : Net Q R → Net Q R
  unfolding pop_last
  try_next_query s = start_query (pop_last s.queue) s

  -- The query is taken and not run: the test for listeners fails, or the worker ends.
  abbrev pub without_query : Option (Job Q × List (Job Q)) → Net Q R → Net Q R
  without_query none s = s
  without_query (some (j, rest)) s = record s { queue = rest }

  pub drop_query : Net Q R → Net Q R
  unfolding pop_last
  drop_query s = without_query (pop_last s.queue) s

  -- The result is stored and the notification fails; the worker goes on to publish the error.
  pub publish_unnotified : Job Q → R → Net Q R → Net Q R
  publish_unnotified j r s = record s { store = (j.channel, r) ∷ s.store }

  -- The worker has not published the result, and gives up.
  pub give_up : List (Job Q) → Net Q R → Net Q R
  give_up others s = record s { running = others }

  -- PublishResult: the result is stored before the channel is notified.
  unfoldable pub publish_result : Job Q → List (Job Q) → R → Net Q R → Net Q R
  publish_result j others r s = record s {
    running = others;
    store = (j.channel, r) ∷ s.store;
    inbox = if contains s.subs j.channel then j.channel ∷ s.inbox else s.inbox;
  }

  -- The goroutine reads the notification, gets the result or an error, and ends.
  unfoldable pub receive : Reading → String → Net Q R → Net Q R
  unfolding remove_first stored_result
  receive g c s = record s {
    inbox = remove_first c s.inbox;
    subs = remove_first c s.subs;
    waiting = remove_first c s.waiting;
    answers = (c, read_answer g (stored_result c s.store)) ∷ s.answers;
  }

  -- The timer of the goroutine fires first.
  pub time_out : String → Net Q R → Net Q R
  unfolding remove_first
  time_out c s = record s {
    subs = remove_first c s.subs;
    waiting = remove_first c s.waiting;
    answers = (c, timed_out) ∷ s.answers;
  }

  -- Stored results expire after ten minutes, the oldest first.
  pub expire : List (String × R) → Net Q R → Net Q R
  expire kept s = record s { store = kept }

  -- A channel is the prefix and a new UUID.
  abbrev pub IsFresh : String → Net Q R → Type 0
  IsFresh c s = contains (channels s.issued) c ≡ false

-- One step of some process. `runs j r` says that a worker which runs `j` may publish `r`.
module _ {Q R : Type 0} (runs : Job Q → R → Type 0) where
  pub data Step (s : Net Q R) : Net Q R → Type 0 where
    published : (j : Job Q) → IsFresh j.channel s → Step s (publish_query j s)
    publish_failed : (j : Job Q) → Step s (publish_query_failed j s)
    taken : Step s (try_next_query s)
    dropped : Step s (drop_query s)
    unnotified :
        (j : Job Q) (before after : List (Job Q)) (r : R)
        → s.running ≡ before ++ j ∷ after
        → runs j r
        → Step s (publish_unnotified j r s)
    gave_up :
        (j : Job Q) (before after : List (Job Q))
        → s.running ≡ before ++ j ∷ after
        → Step s (give_up (before ++ after) s)
    finished :
        (j : Job Q) (before after : List (Job Q)) (r : R)
        → s.running ≡ before ++ j ∷ after
        → runs j r
        → Step s (publish_result j (before ++ after) r s)
    received :
        (g : Reading) (c : String)
        → contains s.waiting c ≡ true
        → contains s.inbox c ≡ true
        → Step s (receive g c s)
    timed : (c : String) → contains s.waiting c ≡ true → Step s (time_out c s)
    expired : (gone kept : List (String × R)) → s.store ≡ kept ++ gone → Step s (expire kept s)

  pub data Reach : Net Q R → Type 0 where
    start : Reach (record {
      issued = [];
      queue = [];
      subs = [];
      running = [];
      store = [];
      inbox = [];
      waiting = [];
      answers = [];
    })
    next : {s t : Net Q R} → Reach s → Step s t → Reach t
