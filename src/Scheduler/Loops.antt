-- ===== src/Scheduler/Loops.antt =====
-- What the delayed loop and the reclaim loop of Core do at each tick: processDelayedJobs and
-- reclaimOrphanedJobs (internal/scheduler/scheduler.go), on the keys of the locks and a queue.
use distributed_task_schedul.Prelude.{String, ℕ, ℤ, Option, none, pos, List}
use distributed_task_schedul.Queue.Redis.{Codec, Redis}
use distributed_task_schedul.Errors.{Error, Result, err, ok}
use distributed_task_schedul.Lock.Server.{Server}
use distributed_task_schedul.Queue.Background.{move_delayed, reclaim_orphaned}
use distributed_task_schedul.Lock.Operations.{release, acquire}
use distributed_task_schedul.Queue.Operations.{Outage}

abbrev pub processor_key : String
processor_key = "delayed-job-processor"

-- 5*time.Second
abbrev pub processor_ttl : ℕ
processor_ttl = 5000000000

abbrev pub delayed_batch : ℕ
delayed_batch = 1000

-- 2*time.Minute
abbrev pub max_inflight_age : ℤ
max_inflight_age = pos 120000000000

-- The keys of the locks, and the queue.
pub record Shared (L Q : Type 0) : Type 0 where
  pub locks : L
  pub queue : Q

-- The failures that the calls of one tick meet.
pub record TickFailures : Type 0 where
  pub acquiring : Option Error
  pub releasing : Option Error
  pub scan : Option Error
  pub pipe : Option Outage
  pub reads : ℕ → Option Error

-- No call of a tick fails.
abbrev pub calm : TickFailures
calm = record { acquiring = none; releasing = none; scan = none; pipe = none; reads = λ i. none }

module _ (c : Codec) (r : Redis c.Blob) where
  -- With the lock, whose Release is deferred.
  unfoldable pub move_locked :
      (v : Server)
      → TickFailures
      → (now : ℤ) → String
      → Shared v.State r.State
      → Shared v.State r.State
  move_locked v k now token s =
      let (queue, _, _) = move_delayed c r k.scan k.pipe k.reads delayed_batch now s.queue in
      let (locks, _) = release v k.releasing processor_key token s.locks in
      record { locks = locks; queue = queue }

  -- `drawn` is the token that Acquire draws, or the error of the random source.
  unfoldable pub process_delayed_jobs :
      (v : Server)
      → TickFailures
      → (now : ℤ) → Result String
      → Shared v.State r.State
      → Shared v.State r.State
  unfolding move_locked
  process_delayed_jobs v k now drawn s =
      let (locks, answer) = acquire v k.acquiring drawn processor_key processor_ttl s.locks in
      elim answer [
        | err e ↦ record s { locks = locks }
        | ok token ↦ move_locked v k now token (record s { locks = locks })
      ]

  -- `workers` are the workers whose in-flight keys SCAN finds.
  unfoldable pub reclaim_orphaned_jobs :
      (id_low : ℕ → ℕ)
      → (scanning : Option Error) → (ranges : String → Option Error) → (reads : ℕ → Option Error)
      → (pipes : ℕ → Option Outage) → (removes : ℕ → Option Error) → (now : ℤ) → List String
      → r.State
      → r.State
  reclaim_orphaned_jobs id_low scanning ranges reads pipes removes now workers s =
      (reclaim_orphaned c r id_low scanning ranges reads pipes removes now max_inflight_age workers
        s).0
