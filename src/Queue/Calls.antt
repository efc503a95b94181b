-- ===== src/Queue/Calls.antt =====
-- The calls of the interface Queue on a RedisQueue (internal/queue/redis.go), where no call of Redis
-- fails.
use distributed_task_schedul.Errors.{Result, Error, err, ok}
use distributed_task_schedul.Prelude.{Option, ℕ, some, List, none, ◌∷◌, []}
use distributed_task_schedul.Queue.Redis.{Codec, Redis}
use distributed_task_schedul.Models.Job.{Job}
use distributed_task_schedul.Queue.Pool.{
  Call, enqueues, dequeues, acknowledges, requeues, nacks, passes,
}
use distributed_task_schedul.Queue.Operations.{enqueue, dequeue, acknowledge, requeue, nack}

-- `(v, err)` of a call, and a mere error.
abbrev pub answer_job : Result Job → Result (Option Job)
answer_job (err e) = err e
answer_job (ok j) = ok (some j)

abbrev pub answer_error : Option Error → Result (Option Job)
answer_error none = ok none
answer_error (some e) = err e

module _ (c : Codec) (r : Redis c.Blob) (id_low : ℕ → ℕ) where
  unfoldable pub queue_call : r.State → Call → r.State × Result (Option Job)
  queue_call s (enqueues now j) =
      let (s', e) = enqueue c r none none now j s in (s', answer_error e)
  queue_call s (dequeues clock_ms worker timeout) =
      let (s', res) = dequeue c r none none clock_ms worker timeout s in (s', answer_job res)
  queue_call s (acknowledges id worker) =
      let (s', e) = acknowledge c r none id worker s in (s', answer_error e)
  queue_call s (requeues j) = let (s', e) = requeue c r none j s in (s', answer_error e)
  queue_call s (nacks now j worker msg) =
      let (s', _, e) = nack c r id_low none now j worker msg s in (s', answer_error e)
  queue_call s (passes ms) = (r.elapse ms s, ok none)

  unfoldable pub queue_calls : r.State → List Call → r.State × List (Result (Option Job))
  queue_calls s [] = (s, [])
  queue_calls s (call ∷ calls) =
      let (s', answer) = queue_call s call in
      let (s'', answers) = queue_calls s' calls in (s'', answer ∷ answers)
