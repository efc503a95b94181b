-- ===== src/Queue/Refine.antt =====
-- RedisQueue (internal/queue/redis.go) behaves as the pool of the jobs that it holds.
use distributed_task_schedul.Queue.Redis.{Codec, Redis, ready, get_last?}
use distributed_task_schedul.Prelude.{
  ℕ, Option, ◌≡◌, none, some, Option-cases, inl, ◌∙◌, inr, ap, pair_ext, refl, ℤ, Bool-cases, true,
  String, List, ◌∷◌, pos, ◌+ℤ◌, [], ◌/◌, false, arith,
}
use distributed_task_schedul.Errors.{Result, ok}
use distributed_task_schedul.Models.Job.{Job, is_retryable, next_retry_time, shift_one}
use distributed_task_schedul.Queue.Operations.{
  pop_first, decode_reply, dequeue, priorities, acknowledge, nack, retried, buried,
}
use distributed_task_schedul.Queue.Contents.{
  kept_of, contents, decoded, contents-hold, contents-rpop, contents-release, contents-del,
  contents-elapse,
}
use distributed_task_schedul.Queue.Pool.{
  Pool, next, answer_of, hand_out, hold, pool_step, pool_run, forget, Call, enqueues, dequeues,
  acknowledges, requeues, nacks, urgencies, passes, may_retry, tried_again, dead_job,
}
use distributed_task_schedul.Queue.Calls.{answer_job, queue_call, queue_calls}
use distributed_task_schedul.Queue.Dequeue.{taken}
use distributed_task_schedul.Queue.Writing.{enqueue_refines, requeue_refines, move_to_dlq_refines}
use distributed_task_schedul.Models.Status.{status_eq, failed}

module _ (c : Codec) (r : Redis c.Blob) where
  open r use {State, get, items, zadd, zrem, lpush, rpop, set, del}

  -- What the script of Dequeue does with the job that comes next.
  abbrev popped :
      String → (expiry : ℤ) → State → Option (ℕ × ℕ) → State × Option (ℕ × Option c.Blob)
  popped worker expiry s none = (s, none)
  popped worker expiry s (some (p, id)) = (taken c r p worker expiry id s, some (id, get s id))

  pop_first-next :
      (ps : List ℕ) (worker : String) (expiry : ℤ) (s : State)
      → pop_first c r ps worker expiry s ≡ popped worker expiry s (next ps (contents c r s).waiting)
  unfolding pop_first next
  pop_first-next [] worker expiry s = refl
  pop_first-next (p ∷ ps) worker expiry s =
      elim (Option-cases (get_last? (items s (ready (pos p))))) [
        | inl e ↦ rw (pop_first, next, e) (pop_first-next ps worker expiry s)
        | inr (id, e) ↦ rw (pop_first, next, e) (simp (r.get-zadd, r.get-rpop))
      ]

  answer-known :
      (id : ℕ) (text : Option c.Blob)
      → answer_job (decode_reply c r (some (id, text))) ≡ answer_of (decoded c r text)
  unfolding decode_reply
  answer-known id none = rw (decode_reply, c.unmarshal-empty) refl
  answer-known id (some b) = elim (Option-cases (c.unmarshal b)) [
    | inl e ↦ rw (decode_reply, e) refl
    | inr (j, e) ↦ rw (decode_reply, e) refl
  ]

  popped_refines :
      (worker : String) (expiry : ℤ) (s : State) (o : Option (ℕ × ℕ))
      → let (s', reply) = popped worker expiry s o in
        ◌≡◌ {A = Pool × Result (Option Job)}
          (contents c r s', answer_job (decode_reply c r reply))
          (hand_out worker o (contents c r s))
  unfolding decode_reply
  popped_refines worker expiry s none = refl
  popped_refines worker expiry s (some (p, id)) =
      pair_ext
        (
          contents c r (taken c r p worker expiry id s),
          answer_job (decode_reply c r (some (id, get s id))),
        )
        (contents-hold c r worker expiry id (rpop (ready (pos p)) s)
          ∙ ap (hold worker id true) (contents-rpop c r (pos p) s))
        (answer-known id (get s id))

  dequeue_refines :
      (clock_ms : ℤ) (worker : String) (timeout : ℕ) (s : State)
      → let (s', res) = dequeue c r none none clock_ms worker timeout s in
        ◌≡◌ {A = Pool × Result (Option Job)}
          (contents c r s', answer_job res)
          (hand_out worker (next urgencies (contents c r s).waiting) (contents c r s))
  unfolding dequeue
  dequeue_refines clock_ms worker timeout s =
      let expiry = clock_ms +ℤ pos (timeout / 1000000) in
      ap (λ p. (contents c r p.0, answer_job (decode_reply c r p.1)))
        (pop_first-next priorities worker expiry s)
      ∙ popped_refines worker expiry s (next urgencies (contents c r s).waiting)

  acknowledge_refines :
      (id : ℕ) (worker : String) (s : State)
      → contents c r (acknowledge c r none id worker s).0
        ≡ hold worker id false (forget id (contents c r s))
  unfolding acknowledge
  acknowledge_refines id worker s =
      contents-release c r worker id (del id s) ∙ ap (hold worker id false) (contents-del c r id s)

-- What Nack makes of a job is what the specification says.
is_retryable-may_retry : (j : Job) → may_retry j ≡ is_retryable j
unfolding is_retryable
is_retryable-may_retry j = elim (Bool-cases (status_eq j.status failed)) [
  | inl e ↦ ground (arith, e)
  | inr e ↦ ground (arith, e)
]

retried-tried_again :
    (id_low : ℕ → ℕ) (now : ℤ) (j : Job) (msg : String)
    → retried id_low now j msg ≡ tried_again id_low now j msg
unfolding retried next_retry_time shift_one
retried-tried_again id_low now j msg = refl

buried-dead_job : (j : Job) (msg : String) → buried j msg ≡ dead_job j msg
unfolding buried
buried-dead_job j msg = refl

module _ (c : Codec) (r : Redis c.Blob) (id_low : ℕ → ℕ) where
  open r use {State}

  -- What a call leaves and answers, with its state seen as a pool.
  abbrev seen : State × Result (Option Job) → Pool × Result (Option Job)
  seen p = (contents c r p.0, p.1)

  -- Each call leaves the pool and gives the answer that the specification says.
  queue_call_refines :
      (call : Call) (s : State)
      → seen (queue_call c r id_low s call) ≡ pool_step (kept_of c r) id_low (contents c r s) call
  unfolding queue_call pool_step nack acknowledge
  queue_call_refines (enqueues now j) s = enqueue_refines c r now j s
  queue_call_refines (dequeues clock_ms worker timeout) s =
      dequeue_refines c r clock_ms worker timeout s
  queue_call_refines (acknowledges id worker) s =
      ap (λ q. (q, ok none)) (acknowledge_refines c r id worker s)
  queue_call_refines (requeues j) s = requeue_refines c r j s
  queue_call_refines (nacks now j worker msg) s = elim (Bool-cases (is_retryable j)) [
    | inl e ↦
        let allowed : may_retry j ≡ true = is_retryable-may_retry j ∙ e in
        rw (e, allowed, retried-tried_again id_low now j msg)
          (requeue_refines c r (tried_again id_low now j msg) s)
    | inr e ↦
        let spent : may_retry j ≡ false = is_retryable-may_retry j ∙ e in
        rw (e, spent, buried-dead_job j msg) (move_to_dlq_refines c r (dead_job j msg) worker s)
  ]
  queue_call_refines (passes ms) s = ap (λ q. (q, ok none)) (contents-elapse c r ms s)

  -- No sequence of Enqueue, Dequeue, Acknowledge, Requeue and Nack, with any times between them, tells the Redis queue from the pool of jobs that it holds: all answers are the same, and so is what is held in the end, where no call of Redis fails. In that pool every priority is first in, first out, the lowest of the priorities 0 to 9 that has a job is served first, a job that is written is known for 7 days and a dead one for 30; a failed job that has retries left waits again at once, with one more retry counted and a time that is 5 seconds doubled as often as it was retried, and up to a second, away, in the arithmetic of an int64, and any other that fails is dead.
  pub queue_calls_refines :
      (calls : List Call) (s : State)
      → let (s', answers) = queue_calls c r id_low s calls in
        ◌≡◌ {A = Pool × List (Result (Option Job))}
          (contents c r s', answers)
          (pool_run (kept_of c r) id_low (contents c r s) calls)
  unfolding queue_calls pool_run
  queue_calls_refines [] s = refl
  queue_calls_refines (call ∷ calls) s =
      let step = queue_call_refines call s in
      let rest = queue_calls_refines calls (queue_call c r id_low s call).0 in
      rw (← step) (ap (λ p. (p.0, (queue_call c r id_low s call).1 ∷ p.1)) rest)
