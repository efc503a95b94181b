-- ===== src/Scheduler/Jobs.antt =====
-- SubmitJob, DeleteJob and RetryJob of Core (internal/scheduler/scheduler.go), and SubmitJobRequest
-- (internal/models/job.go). `id` is what uuid.New() returns, `now` the clock, from 1970 on, and
-- `code_points` gives those of a text. Metrics and logging are left out.
use distributed_task_schedul.Prelude.{
  ℕ, String, Option, List, ℤ, if◌then◌else◌, str_eq, [], some, ◌∷◌, ltb_ℤ, none, pos, ◌++◌, ◌||◌,
  pos_part, not,
}
use distributed_task_schedul.Errors.{
  Result, Error, err, err_invalid_job_type, wrap, ok, err_invalid_priority, errorf,
}
use distributed_task_schedul.Queue.Redis.{Codec, Redis}
use distributed_task_schedul.Models.Job.{
  JobOption, with_priority, Job, with_scheduled_at, with_max_retries, new_job, with_timeout,
  with_cron,
}
use distributed_task_schedul.Store.Tables.{Postgres}
use distributed_task_schedul.Cron.Text.{Text}
use distributed_task_schedul.Worker.Execution.{World}
use distributed_task_schedul.Store.Jobs.{create_job, get_job, delete_job, update_job_status}
use distributed_task_schedul.Models.Status.{pending, status_eq, running, is_terminal}
use distributed_task_schedul.Queue.Operations.{enqueue}
use distributed_task_schedul.Cron.Schedule.{parse_cron, fails, at, crashes}

pub record SubmitJobRequest : Type 0 where
  pub job_type : String
  pub payload : String
  pub priority : ℤ
  pub max_retries : ℤ
  pub timeout : ℤ
  pub scheduled_at : Option ℤ
  pub cron : String

-- SubmitJobRequest.Validate
unfoldable pub validate_request : SubmitJobRequest → Result (Unit {0})
validate_request req =
    if str_eq req.job_type ""
    then err err_invalid_job_type
    else if ltb_ℤ req.priority (pos 0) || ltb_ℤ (pos 9) req.priority
    then err err_invalid_priority
    else ok tt

abbrev when_given : Option ℤ → List JobOption
when_given none = []
when_given (some t) = with_scheduled_at t ∷ []

-- The options that SubmitJob makes of a request.
unfoldable pub request_options : SubmitJobRequest → List JobOption
request_options req =
    with_priority req.priority
    ∷ with_max_retries req.max_retries
    ∷ with_timeout req.timeout
    ∷ (when_given req.scheduled_at ++ (if str_eq req.cron "" then [] else with_cron req.cron ∷ []))

-- What a call comes to: it replies, or a panic ends it.
pub data Reply {ℓ} (A : Type ℓ) : Type ℓ where
  replies : Result A → Reply A
  panicked : Reply A

-- The failures that the calls of an operation meet: of the store, of EvalSha and of Eval.
pub record Failures : Type 0 where
  pub reading : Option Error
  pub writing : Option Error
  pub sha : Option Error
  pub full : Option Error

-- What RetryJob writes to the job that it enqueues.
unfoldable pub reset_job : (now : ℤ) → Job → Job
reset_job now j = record j {
  retry_count = 0;
  status = pending;
  error_message = "";
  worker_id = "";
  scheduled_at = now;
  started_at = none;
  completed_at = none;
}

-- Nothing fails but, perhaps, EvalSha.
abbrev pub serving : Option Error → Failures
serving sha = record { reading = none; writing = none; sha = sha; full = none }

module _ (c : Codec) (r : Redis c.Blob) (d : Postgres) where
  -- The job is stored first; a failure to enqueue it is only logged.
  unfoldable pub persist : Failures → (now : ℤ) → Job → World r.State → World r.State × Reply Job
  persist k now j w =
      let (tables, e) = create_job d k.writing j w.tables in
      let (queue, _) = enqueue c r k.sha k.full now j w.queue in
      elim e [
        | some x ↦ (w, replies (err (wrap "persist job" x)))
        | none ↦ (record { queue = queue; tables = tables }, replies (ok j))
      ]

  unfoldable pub submit_job :
      (code_points : String → Text)
      → Failures
      → (now : ℤ) → ℕ
      → SubmitJobRequest
      → World r.State
      → World r.State × Reply Job
  unfolding persist
  submit_job code_points k now id req w =
      elim (new_job id now req.job_type req.payload (request_options req)) [
        | err e ↦ (w, replies (err (wrap "create job" e)))
        | ok j ↦
            if str_eq req.cron ""
            then persist k now j w
            else elim (parse_cron (code_points req.cron) (pos_part now)) [
              | fails e ↦ (w, replies (err (wrap "parse cron" e)))
              | crashes ↦ (w, panicked)
              | at next ↦ persist k now (record j { cron_next_run = some (pos next) }) w
            ]
      ]

  -- DeleteJob
  unfoldable pub remove_job : Failures → ℕ → World r.State → World r.State × Option Error
  remove_job k id w = elim (get_job d k.reading id w.tables) [
    | err e ↦ (w, some e)
    | ok j ↦
        let (tables, e) = delete_job k.writing id w.tables in
        if status_eq j.status running
        then (w, some (errorf "cannot delete a running job"))
        else (record w { tables = tables }, e)
  ]

  unfoldable pub retry_job : Failures → (now : ℤ) → ℕ → World r.State → World r.State × Option Error
  unfolding reset_job
  retry_job k now id w = elim (get_job d k.reading id w.tables) [
    | err e ↦ (w, some e)
    | ok j ↦
        let (tables, e) = update_job_status d k.writing now j.id pending [] w.tables in
        let (queue, e') = enqueue c r k.sha k.full now (reset_job now j) w.queue in
        if not (is_terminal j.status)
        then (w, some (errorf "job status does not allow retry"))
        else elim e [
          | some x ↦ (record w { tables = tables }, some (wrap "update job status" x))
          | none ↦ (
            record { queue = queue; tables = tables },
            elim e' [ none ↦ none | some x ↦ some (wrap "enqueue job" x) ],
          )
        ]
  ]
