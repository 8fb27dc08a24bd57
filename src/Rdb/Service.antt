-- ===== src/Rdb/Service.antt =====
-- What PublishQuery promises to its callers: an abstract service, without a queue, workers or a
-- store. A call waits until it gets one reply, which is a result of that call, or none.
use mquery.Base.{◌≡◌, false, List, [], ◌∷◌, Option, none, some, if◌then◌else◌}
use mquery.Base.Text.{String, str_eq, contains}
use mquery.Rdb.Protocol.{Job, Answer, result, lost, unread, undecodable, timed_out, channels}

pub record Service (Q R : Type 0) : Type 0 where
  -- All calls, and those that wait, the last first; and the replies.
  pub calls : List (Job Q)
  pub pending : List (Job Q)
  pub replies : List (String × Answer R)

-- The call that waits on a channel, and the calls without it.
unfoldable pub pending_on : {Q : Type 0} → String → List (Job Q) → Option (Job Q)
pending_on c [] = none
pending_on c (j ∷ js) = if str_eq j.channel c then some j else pending_on c js

unfoldable pub without : {Q : Type 0} → String → List (Job Q) → List (Job Q)
without c [] = []
without c (j ∷ js) = if str_eq j.channel c then js else j ∷ without c js

module _ {Q R : Type 0} where
  unfoldable pub call : Job Q → Service Q R → Service Q R
  call j v = record v { calls = j ∷ v.calls; pending = j ∷ v.pending }

  unfoldable pub reply : String → Answer R → Service Q R → Service Q R
  unfolding without
  reply c a v = record v { pending = without c v.pending; replies = (c, a) ∷ v.replies }

module _ {Q R : Type 0} (runs : Job Q → R → Type 0) where
  -- A reply may be given to the call: its result is one that a run of this call gives.
  abbrev pub IsReply : Job Q → Answer R → Type 0
  IsReply j (result r) = runs j r
  IsReply j lost = Unit
  IsReply j unread = Unit
  IsReply j undecodable = Unit
  IsReply j timed_out = Unit

  pub data ServiceReach : Service Q R → Type 0 where
    opened : ServiceReach (record { calls = []; pending = []; replies = [] })
    called :
        {v : Service Q R}
        → ServiceReach v
        → (j : Job Q) → contains (channels v.calls) j.channel ≡ false
        → ServiceReach (call j v)
    replied :
        {v : Service Q R}
        → ServiceReach v
        → (j : Job Q) (a : Answer R) → pending_on j.channel v.pending ≡ some j
        → IsReply j a
        → ServiceReach (reply j.channel a v)
