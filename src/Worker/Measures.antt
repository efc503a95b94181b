-- ===== src/Worker/Measures.antt =====
-- What executeJob, handleJobSuccess and handleJobError (internal/worker/pool.go) tell the metrics
-- (internal/metrics/prometheus.go), and what the counters say after any number of jobs.
use distributed_task_schedul.Worker.Execution.{
  Calls, error_text, World, execute_job, run_with_recovery, no_handler,
}
use distributed_task_schedul.Metrics.Client.{Prometheus}
use distributed_task_schedul.Models.Job.{Job, is_retryable}
use distributed_task_schedul.Queue.Redis.{Codec, Redis}
use distributed_task_schedul.Prelude.{
  ℤ, ℕ, String, Option, List, true, if◌then◌else◌, none, ◌∷◌, not, some, [], false,
}
use distributed_task_schedul.Store.Tables.{Postgres}
use distributed_task_schedul.Errors.{Error}
use distributed_task_schedul.Metrics.Collector.{
  Collector, record_job_processed, record_job_latency, record_job_execution_time, record_job_dlq,
  record_job_retried,
}
use distributed_task_schedul.Worker.Registry.{Registry, get_handler}
use distributed_task_schedul.Queue.Operations.{nack}

-- One execution, with the durations that are observed.
pub record Run : Type 0 where
  pub calls : Calls
  pub job : Job
  pub elapsed : ℤ
  pub latency : ℤ

module _ (m : Prometheus) (c : Codec) (r : Redis c.Blob) (d : Postgres) (id_low : ℕ → ℕ)
    (text : Error → String) where
  open r use {State}
  open m use {count, add}

  -- The calls in handleJobError; Nack does not change the type of the job.
  unfoldable pub measure_error : Calls → Job → Option Error → State → Collector m → Collector m
  measure_error k j exec_err s co =
      let msg = error_text c r d id_low text exec_err in
      let nacked = nack c r id_low k.queue_failure k.times.nacked j k.worker_id msg s in
      let counted =
        if not (is_retryable nacked.1)
        then record_job_dlq m j.job_type co
        else record_job_retried m j.job_type co in
      record_job_processed m k.worker_id j.job_type false counted

  -- The calls in handleJobSuccess.
  unfoldable pub measure_success : Calls → Job → (latency : ℤ) → Collector m → Collector m
  measure_success k j latency co =
      record_job_latency m j.job_type latency
        (record_job_processed m k.worker_id j.job_type true co)

  unfoldable pub measure_job : Registry → Run → State → Collector m → Collector m
  measure_job handlers x s co =
      let k = x.calls in
      let j = x.job in
      let timed = record_job_execution_time m j.job_type x.elapsed co in
      elim (get_handler j.job_type handlers) [
        | none ↦ measure_error k j (some (no_handler c r d id_low text j)) s co
        | some h ↦
            if run_with_recovery h j
            then measure_success k j x.latency timed
            else measure_error k j k.context_error s timed
      ]

  -- The executions of the workers of a pool, which share its id and its collector, one after the
  -- other in the order of their calls.
  unfoldable pub measured_jobs :
      Registry
      → (worker : String) → List Run
      → World State × Collector m
      → World State × Collector m
  measured_jobs handlers worker [] (w, co) = (w, co)
  measured_jobs handlers worker (x ∷ xs) (w, co) =
      let k = record x.calls { worker_id = worker } in
      measured_jobs handlers worker xs (
        execute_job c r d id_low text handlers k x.job w,
        measure_job handlers (record x { calls = k }) w.queue co,
      )
