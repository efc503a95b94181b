-- ===== src/Api/Handlers.antt =====
-- The handlers of internal/scheduler/api.go for one job, and GetJob and GetJobStatus of Core
-- (internal/scheduler/scheduler.go). The decoded body of a request and the parsed id in its path are
-- arguments: json.Decode and uuid.Parse are not part of the repository.
use distributed_task_schedul.Models.Job.{Job}
use distributed_task_schedul.Store.Tables.{Postgres, Tables}
use distributed_task_schedul.Api.Responses.{
  render_error, render_failure, render_json, JobStatusResponse, Handled, Response, healthy,
  responds, submitted, status_of, panics, job, retry_queued, header_only,
}
use distributed_task_schedul.Queue.Redis.{Codec, Redis}
use distributed_task_schedul.Prelude.{Option, String, ℤ, ℕ, if◌then◌else◌, str_eq, some, none}
use distributed_task_schedul.Scheduler.Jobs.{
  Reply, Failures, replies, panicked, SubmitJobRequest, submit_job, validate_request, remove_job,
  retry_job,
}
use distributed_task_schedul.Errors.{Error, Result, is_job_not_found, err, ◌>>=◌, ok}
use distributed_task_schedul.Cron.Text.{Text}
use distributed_task_schedul.Worker.Execution.{World}
use distributed_task_schedul.Scheduler.Recurring.{Core, register_cron_job}
use distributed_task_schedul.Store.Jobs.{get_job}

-- Core.GetJobStatus
unfoldable pub status_response : Job → JobStatusResponse
status_response j = record {
  id = j.id;
  job_type = j.job_type;
  status = j.status;
  priority = j.priority;
  retry_count = j.retry_count;
  max_retries = j.max_retries;
  scheduled_at = j.scheduled_at;
  started_at = j.started_at;
  completed_at = j.completed_at;
  worker_id = j.worker_id;
  error_message = j.error_message;
  cron = j.cron_expression;
}

unfoldable pub get_job_status :
    Postgres → (failure : Option Error) → ℕ → Tables → Result JobStatusResponse
unfolding status_response
get_job_status d failure id t = do j ← get_job d failure id t; ok (status_response j)

-- The answer to an error of Core, where a job that is not found is told apart.
unfoldable pub render_missing : String → Error → Response
unfolding render_error render_failure
render_missing text e =
    if is_job_not_found e then render_error 404 "job not found" else render_failure 500 text e

unfoldable pub handle_get_job :
    Postgres → (failure : Option Error) → (parsed : Result ℕ) → Tables → Response
unfolding render_error render_json render_missing
handle_get_job d failure (err e) t = render_error 400 "invalid job id"
handle_get_job d failure (ok id) t = elim (get_job d failure id t) [
  | err e ↦ render_missing "failed to get job: " e
  | ok j ↦ render_json 200 (job j)
]

unfoldable pub handle_get_job_status :
    Postgres → (failure : Option Error) → (parsed : Result ℕ) → Tables → Response
unfolding render_error render_json render_missing
handle_get_job_status d failure (err e) t = render_error 400 "invalid job id"
handle_get_job_status d failure (ok id) t = elim (get_job_status d failure id t) [
  | err e ↦ render_missing "failed to get job status: " e
  | ok s ↦ render_json 200 (status_of s)
]

-- What handleSubmitJob answers once Core has replied.
unfoldable pub submission_answer : Reply Job → Handled
unfolding render_failure render_json
submission_answer (replies (err e)) = responds (render_failure 500 "failed to submit job: " e)
submission_answer (replies (ok j)) = responds (
    render_json 201
      (submitted (record { id = j.id; status = j.status; created_at = j.created_at })))
submission_answer panicked = panics

module _ (c : Codec) (r : Redis c.Blob) (d : Postgres) where
  -- A request that is valid goes to RegisterCronJob or SubmitJob.
  unfoldable pub dispatch_request :
      (code_points : String → Text)
      → Failures
      → (now : ℤ) → ℕ
      → SubmitJobRequest
      → Core r.State
      → Core r.State × Reply Job
  dispatch_request code_points k now id req st =
      let (w, reply) = submit_job c r d code_points k now id req st.world in
      if str_eq req.cron ""
      then (record st { world = w }, reply)
      else register_cron_job c r d code_points k now id req st

  unfoldable pub handle_submit_job :
      (code_points : String → Text)
      → Failures
      → (now : ℤ) → ℕ
      → (decoded : Result SubmitJobRequest) → Core r.State
      → Core r.State × Handled
  unfolding dispatch_request submission_answer render_failure
  handle_submit_job code_points k now id (err e) st =
      (st, responds (render_failure 400 "invalid request body: " e))
  handle_submit_job code_points k now id (ok req) st = elim (validate_request req) [
    | err e ↦ (st, responds (render_failure 400 "" e))
    | ok valid ↦
        let (st', reply) = dispatch_request code_points k now id req st in
        (st', submission_answer reply)
  ]

  unfoldable pub handle_delete_job :
      Failures → (parsed : Result ℕ) → World r.State → World r.State × Response
  unfolding render_error render_json render_missing
  handle_delete_job k (err e) w = (w, render_error 400 "invalid job id")
  handle_delete_job k (ok id) w =
      let (w', e) = remove_job c r d k id w in
      (w', elim e [ some x ↦ render_missing "failed to delete job: " x | none ↦ header_only 204 ])

  unfoldable pub handle_retry_job :
      Failures → (now : ℤ) → (parsed : Result ℕ) → World r.State → World r.State × Response
  unfolding render_error render_json render_failure
  handle_retry_job k now (err e) w = (w, render_error 400 "invalid job id")
  handle_retry_job k now (ok id) w =
      let (w', e) = retry_job c r d k now id w in
      (
        w',
        elim e [
          | some x ↦ render_failure 500 "failed to retry job: " x
          | none ↦ render_json 200 retry_queued
        ],
      )

unfoldable pub handle_health : (now : ℤ) → Response
unfolding render_json
handle_health now = render_json 200 (healthy now)
