-- ===== src/Rdb/Adapter.antt =====
-- rdb/client.go: the settings of an adapter, and its operations on one reply of Redis.
pub mod Settings
pub mod Dequeue
use Prim.Native.String.{◌++◌}
use mquery.Base.{ℕ, ◌*◌, ◌%◌, Bool, Option, none, some, if◌then◌else◌, ltb, ◌==◌}
use mquery.Base.Text.{String, str_eq}
use mquery.Base.Word.{word_mod, slt64}
use mquery.Errors.{message, GoError, Result, ok, err, plain_error}

-- The seconds are an `int`, a timeout is a time.Duration in nanoseconds: both are bit patterns of 64
-- bits (Base/Word).
pub record Conf : Type 0 where
  pub channel_query : String
  pub channel_result_prefix : String
  pub query_answer_timeout_secs : ℕ

pub record Adapter : Type 0 where
  pub channel_query : String
  pub channel_result_prefix : String
  pub query_answer_timeout : ℕ

abbrev pub default_result_channel_prefix : String
default_result_channel_prefix = "mqueryResults"

-- time.Second
abbrev pub time_second : ℕ
time_second = 1000000000

abbrev pub default_query_answer_timeout : ℕ
default_query_answer_timeout = 60 * time_second

-- time.Duration(secs) * time.Second
abbrev pub secs_duration : ℕ → ℕ
secs_duration secs = secs * time_second % word_mod

-- The default for `chQuery` is bound to a new variable of the inner block, so the outer one keeps the
-- value of the configuration.
unfoldable pub new_adapter : Conf → Adapter
new_adapter conf = record {
  channel_query = conf.channel_query;
  channel_result_prefix =
      if str_eq conf.channel_result_prefix ""
      then default_result_channel_prefix
      else conf.channel_result_prefix;
  query_answer_timeout =
      let timeout = secs_duration conf.query_answer_timeout_secs in
      if timeout == 0 then default_query_answer_timeout else timeout;
}

-- The timeout of a query; a custom one that is not positive is replaced.
unfoldable pub effective_timeout : Adapter → ℕ → ℕ
effective_timeout a custom = if slt64 0 custom then custom else a.query_answer_timeout

-- A reply of Redis. `no_value` is the error `redis.Nil`.
pub data Reply (A : Type 0) : Type 0 where
  value : A → Reply A
  no_value : Reply A
  redis_error : String → Reply A

-- cmd.Val() of a string reply: the empty text where there is none.
abbrev pub val : Reply String → String
val (value s) = s
val no_value = ""
val (redis_error e) = ""

abbrev pub reply_err : Reply String → Option GoError
reply_err (value s) = none
reply_err no_value = some (plain_error "redis: nil")
reply_err (redis_error e) = some (plain_error e)

pub data Dequeued (Q : Type 0) : Type 0 where
  query : Q → Dequeued Q
  empty_queue : Dequeued Q
  dequeue_error : GoError → Dequeued Q

-- DequeueQuery, for the reply of RPOP and the decoder of gob.
unfoldable pub dequeue_query : {Q : Type 0} → (String → Result Q) → Reply String → Dequeued Q
dequeue_query decode cmd = if str_eq (val cmd) "" then empty_queue else elim (reply_err cmd) [
  | some e ↦ dequeue_error (plain_error ("failed to dequeue query: " ++ message e))
  | none ↦ elim (decode (val cmd)) [
    | ok q ↦ query q
    | err e ↦ dequeue_error (plain_error ("failed to deserialize query: " ++ message e))
  ]
]

-- SomeoneListens, for the reply of PUBSUB NUMSUB.
unfoldable pub someone_listens : Reply ℕ → Result Bool
someone_listens (value n) = ok (ltb 0 n)
someone_listens no_value = err (plain_error "failed to check channel listeners: redis: nil")
someone_listens (redis_error e) = err (plain_error ("failed to check channel listeners: " ++ e))
