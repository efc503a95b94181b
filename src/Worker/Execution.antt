-- ===== src/Worker/Execution.antt =====
-- executeJob, runWithRecovery, handleJobSuccess and handleJobError (internal/worker/pool.go), on a
-- queue and the tables of the store. Logging is left out; what the metrics are told is in Measures.
use distributed_task_schedul.Prelude.{
  ℕ, String, ℤ, Option, Bool, some, none, if◌then◌else◌, true, not, ◌∷◌, false, [],
}
use distributed_task_schedul.Worker.Registry.{
  panics, returns, times_out, JobHandler, returns, Registry, get_handler,
}
use distributed_task_schedul.Store.Tables.{Tables, Postgres}
use distributed_task_schedul.Queue.Redis.{Codec, Redis}
use distributed_task_schedul.Models.Job.{Job, is_retryable}
use distributed_task_schedul.Errors.{Error, errorf}
use distributed_task_schedul.Queue.Operations.{acknowledge, nack, Outage}
use distributed_task_schedul.Models.Status.{JobStatus, completed, dead_letter, running, failed}
use distributed_task_schedul.Store.Jobs.{
  update_job_status, with_worker_id, with_error_message, with_completed_at, with_started_at,
}

-- What the clocks say in one execution: time.Now for WithStartedAt, in Nack and for
-- WithCompletedAt, and NOW() of PostgreSQL in the two updates.
pub record Times : Type 0 where
  pub started : ℤ
  pub start_update : ℤ
  pub nacked : ℤ
  pub ended : ℤ
  pub end_update : ℤ

-- What the calls of one execution meet: the failures of Redis and PostgreSQL, the clocks, and the
-- error of the context when the handler is done.
pub record Calls : Type 0 where
  pub worker_id : String
  pub times : Times
  pub start_failure : Option Error
  pub queue_failure : Option Outage
  pub finish_failure : Option Error
  pub context_error : Option Error

-- The bool that runWithRecovery returns.
unfoldable pub run_with_recovery : JobHandler → Job → Bool
run_with_recovery h j = elim (h.execute j) [
  | returns e ↦ elim e [ none ↦ true | some _ ↦ false ]
  | panics ↦ false
  | times_out ↦ false
]

-- A store of jobs and a queue.
pub record World (S : Type 0) : Type 0 where
  pub queue : S
  pub tables : Tables

-- `id_low` is as in Nack, and `text` is the method Error of an error.
module _ (c : Codec) (r : Redis c.Blob) (d : Postgres) (id_low : ℕ → ℕ)
    (text : Error → String) where
  abbrev pub no_handler : Job → Error
  no_handler j = errorf "no handler registered for job type"

  unfoldable pub handle_job_success : Calls → Job → World r.State → World r.State
  handle_job_success k j w = record {
    queue = (acknowledge c r k.queue_failure j.id k.worker_id w.queue).0;
    tables =
        (update_job_status d k.finish_failure k.times.end_update j.id completed
          (with_completed_at k.times.ended ∷ []) w.tables).0;
  }

  -- execErr.Error(), or the empty text for nil.
  abbrev pub error_text : Option Error → String
  error_text none = ""
  error_text (some e) = text e

  -- The status that handleJobError writes to the store, from the job as Nack leaves it.
  unfoldable pub status_after : Job → JobStatus
  status_after j = if not (is_retryable j) then dead_letter else failed

  unfoldable pub handle_job_error : Calls → Job → Option Error → World r.State → World r.State
  handle_job_error k j exec_err w =
      let msg = error_text exec_err in
      let nacked = nack c r id_low k.queue_failure k.times.nacked j k.worker_id msg w.queue in
      record {
        queue = nacked.0;
        tables =
            (update_job_status d k.finish_failure k.times.end_update j.id (status_after nacked.1)
              (with_error_message msg ∷ []) w.tables).0;
      }

  unfoldable pub execute_job : Registry → Calls → Job → World r.State → World r.State
  execute_job handlers k j w =
      let opts = with_worker_id k.worker_id ∷ with_started_at k.times.started ∷ [] in
      let begun = record w {
        tables =
            (update_job_status d k.start_failure k.times.start_update j.id running opts w.tables).0;
      } in
      elim (get_handler j.job_type handlers) [
        | none ↦ handle_job_error k j (some (no_handler j)) begun
        | some h ↦
            if run_with_recovery h j
            then handle_job_success k j begun
            else handle_job_error k j k.context_error begun
      ]
