-- ===== src/Queue/Operations.antt =====
-- The operations of RedisQueue (internal/queue/redis.go). A call of the Redis client is given the
-- error with which it fails, or `none`: then the server runs it. `now` is the clock in nanoseconds.
use distributed_task_schedul.Prelude.{
  ℕ, ◌+◌, ◌/◌, String, List, [], ◌∷◌, Option, none, some, if◌then◌else◌, ℤ, pos, negsuc, ◌+ℤ◌,
  leb_ℤ, Bool, true, false,
}
use distributed_task_schedul.Errors.{Error, err_queue_empty, foreign, wrap, Result, ok, err}
use distributed_task_schedul.Models.Status.{pending, dead_letter}
use distributed_task_schedul.Models.Job.{Job, is_retryable, next_retry_time}
use distributed_task_schedul.Queue.Redis.{ready, dlq, delayed, inflight, get_last?, Redis, Codec}

-- A pipeline whose Exec reports an error: its commands, counted from 0, need not all have failed.
pub record Outage : Type 0 where
  pub ran : ℕ → Bool
  pub cause : Error

-- What a command of a pipeline does, if it was run.
abbrev pub partly {ℓ} : {S : Type ℓ} → (ran : Bool) → (S → S) → S → S
partly true command s = command s
partly false command s = s

-- time.Time.UnixMilli
unfoldable pub unix_milli : ℤ → ℤ
unix_milli (pos n) = pos (n / 1000000)
unix_milli (negsuc n) = negsuc (n / 1000000)

-- The priorities that Dequeue looks at, in its order.
abbrev pub priorities : List ℕ
priorities = 0 ∷ 1 ∷ 2 ∷ 3 ∷ 4 ∷ 5 ∷ 6 ∷ 7 ∷ 8 ∷ 9 ∷ []

-- 7 and 30 days, in seconds.
abbrev pub job_ttl : ℕ
job_ttl = 604800

abbrev pub dlq_ttl : ℕ
dlq_ttl = 2592000

-- Five seconds, the base delay of a retry.
abbrev pub nack_delay : ℤ
nack_delay = pos 5000000000

-- What Nack writes to the job before it requeues it, or moves it to the dead letters.
unfoldable pub retried : (ℕ → ℕ) → ℤ → Job → String → Job
retried id_low now j msg =
    let counted = record j {
      retry_count = j.retry_count + 1;
      status = pending;
      error_message = msg;
    } in
    record counted { scheduled_at = next_retry_time id_low now nack_delay counted }

unfoldable pub buried : Job → String → Job
buried j msg = record j { status = dead_letter; error_message = msg }

-- What ReclaimOrphaned writes to a job.
unfoldable pub reclaimed_job : (ℕ → ℕ) → ℤ → Job → Job
reclaimed_job id_low now j =
    let counted = record j { retry_count = j.retry_count + 1; status = pending; worker_id = "" } in
    record counted { scheduled_at = next_retry_time id_low now nack_delay counted }

module _ (c : Codec) (r : Redis c.Blob) where
  open c use {Blob, empty, marshal, unmarshal}
  open r use {State, get, items, range, set, del, lpush, rpop, zadd, zrem}

  -- The Lua script of Enqueue.
  unfoldable pub enqueue_script : ℕ → Blob → (priority scheduled_at now : ℤ) → State → State
  enqueue_script id data_ priority scheduled_at now s =
      let stored = set id data_ job_ttl s in
      if leb_ℤ scheduled_at now
      then lpush (ready priority) id stored
      else zadd delayed scheduled_at id stored

  -- `sha` and `full` are the failures of EvalSha and of the fallback Eval.
  unfoldable pub enqueue :
      (sha full : Option Error) → (now : ℤ) → Job → State → State × Option Error
  unfolding enqueue_script
  enqueue sha full now j s = elim (marshal j) [
    | none ↦ (s, some (wrap "marshal job" (foreign "json")))
    | some data_ ↦
        let done =
          enqueue_script j.id data_ j.priority (unix_milli j.scheduled_at) (unix_milli now) s in
        elim sha [
          | none ↦ (done, none)
          | some _ ↦ elim full [ none ↦ (done, none) | some e ↦ (s, some (wrap "enqueue job" e)) ]
        ]
  ]

  -- The loop of the Lua script of Dequeue over the ready queues: the id that is taken and its text.
  unfoldable pub pop_first :
      List ℕ → String → (expiry : ℤ) → State → State × Option (ℕ × Option Blob)
  pop_first [] worker expiry s = (s, none)
  pop_first (p ∷ ps) worker expiry s =
      let rest = pop_first ps worker expiry s in
      elim (get_last? (items s (ready (pos p)))) [
        | none ↦ rest
        | some id ↦
            let moved = zadd (inflight worker) expiry id (rpop (ready (pos p)) s) in
            (moved, some (id, get moved id))
      ]

  -- A text that is missing reads as the empty text.
  abbrev text_of : Option Blob → Blob
  text_of none = empty
  text_of (some b) = b

  -- What Dequeue makes of the reply of the script.
  unfoldable pub decode_reply : Option (ℕ × Option Blob) → Result Job
  decode_reply none = err err_queue_empty
  decode_reply (some (id, data_)) = elim (unmarshal (text_of data_)) [
    | none ↦ err (wrap "unmarshal job data" (foreign "json"))
    | some j ↦ ok j
  ]

  -- `clock_ms` is what TIME says, in milliseconds; `timeout` is in nanoseconds.
  unfoldable pub dequeue :
      (sha full : Option Error)
      → (clock_ms : ℤ) → String
      → (timeout : ℕ) → State
      → State × Result Job
  unfolding decode_reply
  dequeue sha full clock_ms worker timeout s =
      let (moved, reply) = pop_first priorities worker (clock_ms +ℤ pos (timeout / 1000000)) s in
      elim sha [
        | none ↦ (moved, decode_reply reply)
        | some _ ↦ elim full [
          | none ↦ (moved, decode_reply reply)
          | some e ↦ (s, err (wrap "dequeue" e))
        ]
      ]

  unfoldable pub acknowledge : (pipe : Option Outage) → ℕ → String → State → State × Option Error
  acknowledge none id worker s = (zrem (inflight worker) id (del id s), none)
  acknowledge (some o) id worker s = (
    partly (o.ran 1) (zrem (inflight worker) id) (partly (o.ran 0) (del id) s),
    some (wrap "acknowledge job" o.cause),
  )

  unfoldable pub requeue : (pipe : Option Outage) → Job → State → State × Option Error
  requeue pipe j s = elim (marshal j) [
    | none ↦ (s, some (wrap "marshal job" (foreign "json")))
    | some data_ ↦ elim pipe [
      | none ↦ (lpush (ready j.priority) j.id (set j.id data_ job_ttl s), none)
      | some o ↦ (
        partly (o.ran 1) (lpush (ready j.priority) j.id)
            (partly (o.ran 0) (set j.id data_ job_ttl) s),
        some (wrap "requeue job" o.cause),
      )
    ]
  ]

  unfoldable pub move_to_dlq : (pipe : Option Outage) → Job → String → State → State × Option Error
  move_to_dlq pipe j worker s = elim (marshal j) [
    | none ↦ (s, some (wrap "marshal job" (foreign "json")))
    | some data_ ↦ elim pipe [
      | none ↦ (zrem (inflight worker) j.id (lpush dlq j.id (set j.id data_ dlq_ttl s)), none)
      | some o ↦ (
        partly (o.ran 2) (zrem (inflight worker) j.id)
            (partly (o.ran 1) (lpush dlq j.id) (partly (o.ran 0) (set j.id data_ dlq_ttl) s)),
        some (wrap "move to dlq" o.cause),
      )
    ]
  ]

  -- Nack also changes the job that its caller holds, which is the second part of the result.
  unfoldable pub nack :
      (id_low : ℕ → ℕ)
      → (pipe : Option Outage) → (now : ℤ) → Job
      → (worker msg : String) → State
      → State × Job × Option Error
  unfolding retried buried
  nack id_low pipe now j worker msg s =
      let again = requeue pipe (retried id_low now j msg) s in
      let dead = move_to_dlq pipe (buried j msg) worker s in
      if is_retryable j
      then (again.0, retried id_low now j msg, again.1)
      else (dead.0, buried j msg, dead.1)
