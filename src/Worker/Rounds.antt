-- ===== src/Worker/Rounds.antt =====
-- One round of the loop of a worker goroutine (internal/worker/pool.go): Dequeue, and then
-- executeJob or a wait.
use distributed_task_schedul.Queue.Operations.{dequeue}
use distributed_task_schedul.Prelude.{refl, Option, ℕ, ℤ, String, ◌≡◌, none, some}
use distributed_task_schedul.Queue.Redis.{Codec, Redis, inflight, ListKey}
use distributed_task_schedul.Errors.{Error, err, ok}
use distributed_task_schedul.Store.Tables.{Postgres, Row, find_row}
use distributed_task_schedul.Worker.Execution.{Calls, World, execute_job}
use distributed_task_schedul.Worker.Polling.{Config, poll_of, poll_round}
use distributed_task_schedul.Worker.Registry.{Registry}
use distributed_task_schedul.Models.Job.{Job}
use distributed_task_schedul.Models.Status.{completed}

-- What the calls of one round meet: the failures of the scripts of Dequeue and the clock of Redis,
-- and the calls of the execution.
pub record RoundCalls : Type 0 where
  pub sha : Option Error
  pub full : Option Error
  pub clock_ms : ℤ
  pub execution : Calls

-- 5*time.Second
abbrev pub dequeue_timeout : ℕ
dequeue_timeout = 5000000000

module _ (c : Codec) (r : Redis c.Blob) (d : Postgres) (id_low : ℕ → ℕ)
    (text : Error → String) where
  -- The world, the wait of the round, and `pollInterval` after it.
  unfoldable pub worker_round :
      Config → Registry → RoundCalls → (interval : ℕ) → World r.State → World r.State × ℕ × ℕ
  worker_round cfg handlers k interval w =
      let (queue, res) =
        dequeue c r k.sha k.full k.clock_ms k.execution.worker_id dequeue_timeout w.queue in
      let (wait, next) = poll_round cfg (poll_of res) interval in
      let taken = record w { queue = queue } in
      (
        elim res [
          | err e ↦ taken
          | ok j ↦ execute_job c r d id_low text handlers k.execution j taken
        ],
        wait,
        next,
      )

  pub round-finds :
      (cfg : Config) (handlers : Registry) (k : RoundCalls) (interval : ℕ) (w : World r.State)
      (j : Job)
      → (dequeue c r k.sha k.full k.clock_ms k.execution.worker_id dequeue_timeout w.queue).1 ≡ ok j
      → worker_round cfg handlers k interval w ≡ (
        execute_job c r d id_low text handlers k.execution j (record w {
          queue =
              (dequeue c r k.sha k.full k.clock_ms k.execution.worker_id dequeue_timeout w.queue).0;
        }),
        0,
        cfg.poll_interval,
      )
  unfolding worker_round poll_of poll_round
  round-finds cfg handlers k interval w j e = rw (worker_round, e) refl

  -- What has become of a job that a round has completed: it is in no list that it was not in before the round, its text and its in-flight entry are gone, and the store says completed.
  pub record IsCompleted (id : ℕ) (worker : String) (now : ℤ) (before : r.State) (w : World r.State)
      : Type 0 where
    pub text_gone : r.get w.queue id ≡ none
    pub not_inflight : r.score w.queue (inflight worker) id ≡ none
    pub lists_kept : (l : ListKey) → r.items w.queue l ≡ r.items before l
    pub row : Row
    pub found : find_row id w.tables.jobs ≡ some row
    pub completed : row.status ≡ completed
    pub at_time : row.completed_at ≡ some (d.timestamp now)
