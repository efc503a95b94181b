-- ===== src/Worker/Journey.antt =====
-- A job from Enqueue (internal/queue/redis.go) to its completion by a worker
-- (internal/worker/pool.go).
use distributed_task_schedul.Queue.Redis.{Codec, Redis}
use distributed_task_schedul.Store.Tables.{Postgres}
use distributed_task_schedul.Prelude.{ℕ, String, Option, ℤ, none}
use distributed_task_schedul.Errors.{Error}
use distributed_task_schedul.Worker.Registry.{Registry}
use distributed_task_schedul.Models.Job.{Job}
use distributed_task_schedul.Worker.Execution.{World}
use distributed_task_schedul.Queue.Operations.{enqueue}

module _ (c : Codec) (r : Redis c.Blob) (d : Postgres) (id_low : ℕ → ℕ)
    (text : Error → String) where
  open r use {State, items}

  -- So many milliseconds after an Enqueue.
  abbrev pub enqueued : Option Error → ℤ → (ms : ℕ) → Job → World State → World State
  enqueued sha now ms j w = record w { queue = r.elapse ms (enqueue c r sha none now j w.queue).0 }
