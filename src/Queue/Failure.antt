-- ===== src/Queue/Failure.antt =====
-- What Nack does with a job that failed (internal/queue/redis.go).
use distributed_task_schedul.Prelude.{
  ℕ, ◌+◌, ◌*◌, ◌^◌, ◌<◌, String, ◌≡◌, refl, true, false, ◌∷◌, Option, none, some, arith, ℤ, pos,
  ◌+ℤ◌, ◌≤ℤ◌, ==_refl, ◌<ℤ◌,
}
use distributed_task_schedul.Models.Status.{dead_letter, pending}
use distributed_task_schedul.Models.Job.{Job, is_retryable}
use distributed_task_schedul.Models.Schedule.{next_retry_time_window, retry_base}
use distributed_task_schedul.Queue.Redis.{
  ready, dlq, ZsetKey, inflight, list_key_eq, list_key_eq_refl, zset_key_eq_refl, Redis, Codec,
}
use distributed_task_schedul.Queue.Operations.{
  job_ttl, dlq_ttl, retried, buried, requeue, move_to_dlq, nack, Outage,
}

module _ (c : Codec) (r : Redis c.Blob) where
  open r use {State, get, items, score, set, del, lpush, rpop, zadd, zrem}

  pub requeue-done :
      (j : Job) (b : c.Blob) (s : State)
      → c.marshal j ≡ some b
      → requeue c r none j s ≡ (lpush (ready j.priority) j.id (set j.id b job_ttl s), none)
  unfolding requeue
  requeue-done j b s m = rw (m, requeue)

  move_to_dlq-done :
      (j : Job) (b : c.Blob) (worker : String) (s : State)
      → c.marshal j ≡ some b
      → move_to_dlq c r none j worker s
        ≡ (zrem (inflight worker) j.id (lpush dlq j.id (set j.id b dlq_ttl s)), none)
  unfolding move_to_dlq
  move_to_dlq-done j b worker s m = rw (m, move_to_dlq)

  pub nack-again :
      (id_low : ℕ → ℕ) (pipe : Option Outage) (now : ℤ) (j : Job) (worker msg : String) (s : State)
      → is_retryable j ≡ true
      → let (s', e) = requeue c r pipe (retried id_low now j msg) s in
        nack c r id_low pipe now j worker msg s ≡ (s', retried id_low now j msg, e)
  unfolding nack
  nack-again id_low pipe now j worker msg s h = rw h

  pub nack-dead :
      (id_low : ℕ → ℕ) (pipe : Option Outage) (now : ℤ) (j : Job) (worker msg : String) (s : State)
      → is_retryable j ≡ false
      → let (s', e) = move_to_dlq c r pipe (buried j msg) worker s in
        nack c r id_low pipe now j worker msg s ≡ (s', buried j msg, e)
  unfolding nack
  nack-dead id_low pipe now j worker msg s h = rw h

  -- A job that is not retryable goes to the head of the dead-letter list, with its status there
  -- dead_letter and the error stored; its in-flight entry is gone, and no ready queue changes.
  pub nack-buries :
      (id_low : ℕ → ℕ) (now : ℤ) (j : Job) (b : c.Blob) (worker msg : String) (s : State)
      → is_retryable j ≡ false
      → c.marshal (buried j msg) ≡ some b
      → let (s', j', e) = nack c r id_low none now j worker msg s in
        (e ≡ none)
        × (j' ≡ record j { status = dead_letter; error_message = msg })
        × (items s' dlq ≡ j.id ∷ items s dlq)
        × ((p : ℤ) → items s' (ready p) ≡ items s (ready p))
        × (get s' j.id ≡ some b)
        × (score s' (inflight worker) j.id ≡ none)
  unfolding buried list_key_eq
  nack-buries id_low now j b worker msg s h m =
      rw (nack-dead id_low none now j worker msg s h, move_to_dlq-done (buried j msg) b worker s m)
        (
          refl,
          refl,
          simp (r.items-zrem, r.items-lpush, r.items-set),
          λ p. simp (r.items-zrem, r.items-lpush, r.items-set),
          simp (r.get-zrem, r.get-lpush, r.get-set, ==_refl),
          simp (r.score-zrem, zset_key_eq_refl, ==_refl),
        )

  -- Nack of a retryable job with fewer than 20 retries that can be written, where Redis serves the pipeline, writes the job with one more retry and the message: for its n-th retry it is due between 5 * 2 ^ n seconds and one second more after now, but goes to the head of
  -- its ready queue at once. Its in-flight entry stays, as do all sorted sets, so the reclaimer
  -- finds it there while it may run again.
  pub nack-requeues :
      (id_low : ℕ → ℕ) (now : ℤ) (j : Job) (b : c.Blob) (worker msg : String) (s : State)
      → is_retryable j ≡ true
      → j.retry_count < 20
      → c.marshal (retried id_low now j msg) ≡ some b
      → let (s', j', e) = nack c r id_low none now j worker msg s in
        (e ≡ none)
        × (j'.retry_count ≡ j.retry_count + 1)
        × (j'.status ≡ pending)
        × (j'.error_message ≡ msg)
        × (j'.id ≡ j.id)
        × (c.marshal j' ≡ some b)
        × (now +ℤ pos (retry_base * 2 ^ (j.retry_count + 1)) ≤ℤ j'.scheduled_at)
        × (j'.scheduled_at <ℤ now +ℤ pos (retry_base * 2 ^ (j.retry_count + 1) + 1000000000))
        × (items s' (ready j.priority) ≡ j.id ∷ items s (ready j.priority))
        × (get s' j.id ≡ some b)
        × ((k : ZsetKey) (i : ℕ) → score s' k i ≡ score s k i)
  unfolding retried
  nack-requeues id_low now j b worker msg s h few m =
      let counted = record j {
        retry_count = j.retry_count + 1;
        status = pending;
        error_message = msg;
      } in
      rw
        (nack-again id_low none now j worker msg s h, requeue-done (retried id_low now j msg) b s m)
        (
          refl,
          refl,
          refl,
          refl,
          refl,
          m,
          (next_retry_time_window id_low now counted (omega arith)).0,
          (next_retry_time_window id_low now counted (omega arith)).1,
          simp (r.items-lpush, r.items-set, list_key_eq_refl),
          simp (r.get-lpush, r.get-set, ==_refl),
          λ k i. simp (r.score-lpush, r.score-set),
        )
