-- ===== src/Tests/Rdb.antt =====
-- One query, from its publication to its result. A query is a number and its result the number after.
use mquery.Rdb.Protocol.Turns.{
  RunOf, IsRun, Turns, began, other, ended, stopped, turn, take_queries,
}
use mquery.Rdb.Protocol.Drain.{take_queries-IsDrained}
use mquery.Rdb.Protocol.Refinement.{IsImplementedBy, Reach-Implements}
use mquery.Rdb.Service.{Service, ServiceReach}
use mquery.Rdb.Protocol.Delivery.{
  ReachLasting, start_lasting, next_lasting, IsFound, ReachLasting-answers,
}
use mquery.Rdb.Adapter.Dequeue.{dequeue_query_lem}
use mquery.Rdb.Adapter.Settings.{new_adapter_lem}
use mquery.Rdb.Adapter.{
  Conf, new_adapter, effective_timeout, Reply, value, no_value, redis_error, query, empty_queue,
  dequeue_query,
}
use mquery.Errors.{Result, ok, err, plain_error}
use mquery.Base.{
  arith, none, some, ◌∷◌, length, true, false, ◌↔◌, ◌⊎◌, if◌then◌else◌, ℕ, suc, ◌+◌, ◌≡◌, ◌≤◌, refl,
  [], All,
}
use mquery.Base.Text.{str_eq, String}
use mquery.Base.Word.{slt64}
use mquery.Rdb.Protocol.{
  Job, Net, Answer, get_works, publish_query, try_next_query, publish_result, receive, pop_last,
  Reach, start, next, published, taken, finished, received, channels,
}
use mquery.Rdb.Protocol.Results.{IsAnswerOf, Reach-answers}
use mquery.Rdb.Protocol.Counts.{count, answered, Reach-answered_once}

abbrev IsSucc : Job ℕ → ℕ → Type 0
IsSucc j r = suc j.args ≡ r

abbrev job : Job ℕ
job = record { channel = "mqueryResults:a1"; args = 6 }

abbrev idle : Net ℕ ℕ
idle = record {
  issued = [];
  queue = [];
  subs = [];
  running = [];
  store = [];
  inbox = [];
  waiting = [];
  answers = [];
}

abbrev done : Net ℕ ℕ
done =
    receive get_works job.channel
      (publish_result job [] 7 (try_next_query (publish_query job idle)))

done-Reach : Reach IsSucc done
unfolding publish_query try_next_query publish_result receive pop_last
done-Reach =
    next (next (next (next start (published job refl)) taken) (finished job [] [] 7 refl refl))
      (received get_works job.channel refl refl)

Reach-answers_example :
    All (λ (e : String × Answer ℕ). IsAnswerOf IsSucc done.issued e.0 e.1) done.answers
Reach-answers_example = Reach-answers IsSucc done-Reach

Reach-answered_once_example :
    (count job.channel done.waiting + count job.channel (answered done.answers)
      ≡ count job.channel (channels done.issued))
    × (count job.channel (channels done.issued) ≤ 1)
Reach-answered_once_example = Reach-answered_once IsSucc job.channel done-Reach

abbrev configured : ℕ → Conf
configured secs = record {
  channel_query = "";
  channel_result_prefix = "";
  query_answer_timeout_secs = secs;
}

-- The custom timeout is -4.
new_adapter_lem_example :
    (effective_timeout (new_adapter (configured 30)) 18446744073709551612 ≡ 30000000000)
    × (slt64 0 (effective_timeout (new_adapter (configured 30)) 18446744073709551612) ≡ true)
    × (str_eq (new_adapter (configured 30)).channel_result_prefix "" ≡ false)
    × ((new_adapter (configured 30)).channel_query ≡ "")
unfolding slt64
new_adapter_lem_example = new_adapter_lem (configured 30) 18446744073709551612 (omega arith)

-- One second more than a time.Duration holds is a negative timeout.
new_adapter_overflow : slt64 (effective_timeout (new_adapter (configured 9223372037)) 0) 0 ≡ true
unfolding new_adapter effective_timeout slt64
new_adapter_overflow = refl

abbrev decode : String → Result ℕ
decode s = if str_eq s "six" then ok 6 else err (plain_error "EOF")

dequeue_query_lem_example :
    ((q : ℕ)
      → (dequeue_query decode (value "six") ≡ query q) ↔ (
          (s : String) × (◌≡◌ {A = Reply String} (value "six") (value s))
          × (str_eq s "" ≡ false)
          × (decode s ≡ ok q)))
    × ((dequeue_query decode (value "six") ≡ empty_queue) ↔ (
        (◌≡◌ {A = Reply String} (value "six") (value ""))
        ⊎ (◌≡◌ {A = Reply String} (value "six") no_value)
        ⊎ ((e : String) × (◌≡◌ {A = Reply String} (value "six") (redis_error e)))))
dequeue_query_lem_example = dequeue_query_lem decode (value "six")

done-ReachLasting : ReachLasting IsSucc done
unfolding publish_query try_next_query publish_result receive pop_last
done-ReachLasting =
    next_lasting
      (next_lasting (next_lasting (next_lasting start_lasting (published job refl) tt) taken tt)
        (finished job [] [] 7 refl refl) tt)
      (received get_works job.channel refl refl) tt

ReachLasting-answers_example : All (λ (e : String × Answer ℕ). IsFound IsSucc e.1) done.answers
ReachLasting-answers_example = ReachLasting-answers IsSucc done-ReachLasting

Reach-Implements_example : (v : Service ℕ ℕ) × ServiceReach IsSucc v × IsImplementedBy IsSucc v done
Reach-Implements_example = Reach-Implements IsSucc done-Reach

abbrev other_job : Job ℕ
other_job = record { channel = "mqueryResults:b2"; args = 8 }

abbrev two_queued : Net ℕ ℕ
two_queued = publish_query other_job (publish_query job idle)

abbrev run : Job ℕ → RunOf ℕ
run j = ([], some (suc j.args))

abbrev run-IsRun : (j : Job ℕ) → IsRun IsSucc j (run j)
run-IsRun j = (tt, refl)

-- The worker has begun a query when another one is published.
abbrev during : Net ℕ ℕ
during = publish_query other_job (try_next_query (publish_query job idle))

one_turn : Turns IsSucc none 1 1 (publish_query job idle) (publish_result job [] 7 during)
unfolding publish_query try_next_query pop_last publish_result
one_turn =
    began job [] refl refl (other (published other_job refl) (ended job [] [] 7 refl refl stopped))

take_queries-IsDrained_example :
    let after = publish_result job [] 7 during in
    Reach IsSucc after
    × (length after.queue ≤ 1)
    × Turns IsSucc none 1 0 after (take_queries run 1 after)
    × ((take_queries run 1 after).queue ≡ [])
unfolding publish_query try_next_query pop_last publish_result
take_queries-IsDrained_example =
    take_queries-IsDrained IsSucc run run-IsRun 1 1 (publish_query job idle)
      (publish_result job [] 7 during) (next start (published job refl)) one_turn

take_queries_example :
    (take_queries run 2 two_queued).store ≡ (other_job.channel, 9) ∷ (job.channel, 7) ∷ []
unfolding publish_query take_queries turn publish_result
take_queries_example = refl
