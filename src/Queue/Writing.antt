-- ===== src/Queue/Writing.antt =====
-- The operations of RedisQueue that write a job (internal/queue/redis.go), on the pool that the
-- database holds.
use distributed_task_schedul.Queue.Redis.{Codec, Redis, ready, inflight, dlq}
use distributed_task_schedul.Prelude.{
  Option, ◌≡◌, none, some, Option-cases, inl, ◌∙◌, inr, ap, refl, ℤ, sym, Bool-cases, leb_ℤ, String,
  false, ℕ,
}
use distributed_task_schedul.Errors.{Result, Error, ok}
use distributed_task_schedul.Models.Job.{Job}
use distributed_task_schedul.Queue.Operations.{
  requeue, job_ttl, enqueue, enqueue_script, unix_milli, move_to_dlq, dlq_ttl,
}
use distributed_task_schedul.Queue.Contents.{
  kept_of, contents, contents-lpush, contents-set, contents-postpone, contents-release,
  contents-bury,
}
use distributed_task_schedul.Queue.Pool.{
  Pool, written, wait, learn, unwritable, arrive, written-lost, written-kept, postpone, hold, bury,
  entomb,
}
use distributed_task_schedul.Queue.Calls.{answer_error}

module _ (c : Codec) (r : Redis c.Blob) where
  open r use {State, get, items, zadd, zrem, lpush, rpop, set, del}

  -- A job is kept as what its text is read as.
  marshal-kept :
      (j : Job) (b : c.Blob)
      → c.marshal j ≡ some b
      → (k : Job) × (c.unmarshal b ≡ some k) × (kept_of c r j ≡ some k)
  marshal-kept j b m = let (k, u, _) = c.unmarshal-marshal j b m in (k, u, rw (m, u) refl)

  marshal-lost : (j : Job) → c.marshal j ≡ none → kept_of c r j ≡ none
  marshal-lost j m = rw m refl

  queued :
      (j : Job) (b : c.Blob) (k : Job) (s : State)
      → c.unmarshal b ≡ some k
      → contents c r (lpush (ready j.priority) j.id (set j.id b job_ttl s))
        ≡ wait j.priority j.id (learn 7 j.id k (contents c r s))
  queued j b k s u =
      contents-lpush c r j.priority j.id (set j.id b job_ttl s)
      ∙ ap (wait j.priority j.id) (contents-set c r j.id b k 7 s u)

  requeue-lost :
      (j : Job) (s : State) → c.marshal j ≡ none → requeue c r none j s ≡ (s, some unwritable)
  unfolding requeue
  requeue-lost j s m = rw (requeue, m) refl

  requeue-done :
      (j : Job) (b : c.Blob) (s : State)
      → c.marshal j ≡ some b
      → requeue c r none j s ≡ (lpush (ready j.priority) j.id (set j.id b job_ttl s), none)
  unfolding requeue
  requeue-done j b s m = rw (requeue, m) refl

  -- A call that writes a job, whatever it changes then.
  abbrev pub Writes : (days : ℕ) → Job → (Job → Pool → Pool) → State → State × Option Error → Type 0
  Writes days j change s p =
      ◌≡◌ {A = Pool × Result (Option Job)} (contents c r p.0, answer_error p.1)
        (written (kept_of c r) days j change (contents c r s))

  Writes-lost :
      (days : ℕ) (j : Job) (change : Job → Pool → Pool) (s : State) (p : State × Option Error)
      → c.marshal j ≡ none
      → p ≡ (s, some unwritable)
      → Writes days j change s p
  Writes-lost days j change s p m e =
      ap (λ x. (contents c r x.0, answer_error x.1)) e
      ∙ sym (written-lost (kept_of c r) days j change (contents c r s) (marshal-lost j m))

  Writes-done :
      (days : ℕ) (j : Job) (change : Job → Pool → Pool) (s s' : State) (p : State × Option Error)
      (k : Job)
      → kept_of c r j ≡ some k
      → p ≡ (s', none)
      → contents c r s' ≡ change j (learn days j.id k (contents c r s))
      → Writes days j change s p
  Writes-done days j change s s' p k m e view =
      ap (λ x. (contents c r x.0, answer_error x.1)) e
      ∙ ap (λ x. (x, ok none)) view
      ∙ sym (written-kept (kept_of c r) days j change (contents c r s) k m)

  pub requeue_refines :
      (j : Job) (s : State) → Writes 7 j (λ k. wait k.priority k.id) s (requeue c r none j s)
  requeue_refines j s = elim (Option-cases (c.marshal j)) [
    | inl m ↦
        Writes-lost 7 j (λ k. wait k.priority k.id) s (requeue c r none j s) m (requeue-lost j s m)
    | inr (b, m) ↦
        let (k, u, e) = marshal-kept j b m in
        Writes-done 7 j (λ k. wait k.priority k.id) s
          (lpush (ready j.priority) j.id (set j.id b job_ttl s)) (requeue c r none j s) k e
          (requeue-done j b s m) (queued j b k s u)
  ]

  enqueue-lost :
      (now : ℤ) (j : Job) (s : State)
      → c.marshal j ≡ none
      → enqueue c r none none now j s ≡ (s, some unwritable)
  unfolding enqueue
  enqueue-lost now j s m = rw (enqueue, m) refl

  enqueue-done :
      (now : ℤ) (j : Job) (b : c.Blob) (s : State)
      → c.marshal j ≡ some b
      → enqueue c r none none now j s ≡ (
        enqueue_script c r j.id b j.priority (unix_milli j.scheduled_at) (unix_milli now) s,
        none,
      )
  unfolding enqueue
  enqueue-done now j b s m = rw (enqueue, m) refl

  arrived :
      (now : ℤ) (j : Job) (b : c.Blob) (k : Job) (s : State)
      → c.unmarshal b ≡ some k
      → contents c r
          (enqueue_script c r j.id b j.priority (unix_milli j.scheduled_at) (unix_milli now) s)
        ≡ arrive now j (learn 7 j.id k (contents c r s))
  unfolding enqueue_script
  arrived now j b k s u = elim (Bool-cases (leb_ℤ (unix_milli j.scheduled_at) (unix_milli now))) [
    | inl due ↦ rw (enqueue_script, due) (queued j b k s u)
    | inr not_due ↦
        rw (enqueue_script, not_due)
          (contents-postpone c r (unix_milli j.scheduled_at) j.id (set j.id b job_ttl s)
            ∙ ap (postpone j.id) (contents-set c r j.id b k 7 s u))
  ]

  pub enqueue_refines :
      (now : ℤ) (j : Job) (s : State) → Writes 7 j (arrive now) s (enqueue c r none none now j s)
  enqueue_refines now j s = elim (Option-cases (c.marshal j)) [
    | inl m ↦
        Writes-lost 7 j (arrive now) s (enqueue c r none none now j s) m (enqueue-lost now j s m)
    | inr (b, m) ↦
        let (k, u, e) = marshal-kept j b m in
        Writes-done 7 j (arrive now) s
          (enqueue_script c r j.id b j.priority (unix_milli j.scheduled_at) (unix_milli now) s)
          (enqueue c r none none now j s) k e (enqueue-done now j b s m) (arrived now j b k s u)
  ]

  move_to_dlq-lost :
      (j : Job) (worker : String) (s : State)
      → c.marshal j ≡ none
      → move_to_dlq c r none j worker s ≡ (s, some unwritable)
  unfolding move_to_dlq
  move_to_dlq-lost j worker s m = rw (move_to_dlq, m) refl

  abbrev entombed : Job → c.Blob → String → State → State
  entombed j b worker s = zrem (inflight worker) j.id (lpush dlq j.id (set j.id b dlq_ttl s))

  move_to_dlq-done :
      (j : Job) (b : c.Blob) (worker : String) (s : State)
      → c.marshal j ≡ some b
      → move_to_dlq c r none j worker s ≡ (entombed j b worker s, none)
  unfolding move_to_dlq
  move_to_dlq-done j b worker s m = rw (move_to_dlq, m) refl

  contents-entombed :
      (j : Job) (b : c.Blob) (k : Job) (worker : String) (s : State)
      → c.unmarshal b ≡ some k
      → contents c r (entombed j b worker s) ≡ bury worker j (learn 30 j.id k (contents c r s))
  contents-entombed j b k worker s u =
      contents-release c r worker j.id (lpush dlq j.id (set j.id b dlq_ttl s))
      ∙ ap (hold worker j.id false) (
          contents-bury c r j.id (set j.id b dlq_ttl s)
          ∙ ap (entomb j.id) (contents-set c r j.id b k 30 s u))

  pub move_to_dlq_refines :
      (j : Job) (worker : String) (s : State)
      → Writes 30 j (bury worker) s (move_to_dlq c r none j worker s)
  move_to_dlq_refines j worker s = elim (Option-cases (c.marshal j)) [
    | inl m ↦
        Writes-lost 30 j (bury worker) s (move_to_dlq c r none j worker s) m
          (move_to_dlq-lost j worker s m)
    | inr (b, m) ↦
        let (k, u, e) = marshal-kept j b m in
        Writes-done 30 j (bury worker) s (entombed j b worker s) (move_to_dlq c r none j worker s) k
          e (move_to_dlq-done j b worker s m) (contents-entombed j b k worker s u)
  ]
