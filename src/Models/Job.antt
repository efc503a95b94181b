-- ===== src/Models/Job.antt =====
-- Job, its options, NewJob and Validate (internal/models/job.go). Times are nanoseconds since the
-- Unix epoch; `now` is what the clock reads during the call. A job's id is the number that its
-- UUID stands for, and uuid.New() is an argument.
use distributed_task_schedul.Prelude.{
  ℕ, ◌*◌, ◌^◌, ◌%◌, String, Bool, ◌&&◌, ◌||◌, List, Option, none, foldl, str_eq, if◌then◌else◌, ℤ,
  pos, ◌+ℤ◌, ◌*ℤ◌, ltb_ℤ, leb_ℤ, wrap64,
}
use distributed_task_schedul.Errors.{
  err_invalid_job_type, err_invalid_priority, errorf, Result, ok, err, ◌>>◌,
}
use distributed_task_schedul.Models.Status.{JobStatus, pending, failed, status_eq}

pub record Job : Type 0 where
  pub id : ℕ
  pub job_type : String
  pub payload : String
  pub priority : ℤ
  pub status : JobStatus
  pub scheduled_at : ℤ
  pub retry_count : ℕ
  pub max_retries : ℤ
  pub timeout : ℤ
  pub cron_expression : String
  pub cron_next_run : Option ℤ
  pub started_at : Option ℤ
  pub completed_at : Option ℤ
  pub worker_id : String
  pub error_message : String
  pub created_at : ℤ
  pub updated_at : ℤ

unfoldable pub validate : Job → Result (Unit {0})
validate j =
    if str_eq j.job_type ""
    then err err_invalid_job_type
    else if ltb_ℤ j.priority (pos 0) || ltb_ℤ (pos 9) j.priority
    then err err_invalid_priority
    else if ltb_ℤ j.max_retries (pos 0) || ltb_ℤ (pos 20) j.max_retries
    then err (errorf "max_retries must be between 0 and 20")
    else if leb_ℤ j.timeout (pos 0) || ltb_ℤ (pos 3600000) j.timeout
    then err (errorf "timeout must be between 1 and 3600000 ms")
    else ok tt

-- A JobOption writes to the job.
abbrev pub JobOption : Type 0
JobOption = Job → Job

unfoldable pub with_priority : ℤ → JobOption
with_priority p j = record j { priority = p }

unfoldable pub with_max_retries : ℤ → JobOption
with_max_retries n j = record j { max_retries = n }

unfoldable pub with_timeout : ℤ → JobOption
with_timeout ms j = record j { timeout = ms }

unfoldable pub with_scheduled_at : ℤ → JobOption
with_scheduled_at t j = record j { scheduled_at = t }

unfoldable pub with_cron : String → JobOption
with_cron expr j = record j { cron_expression = expr }

-- The struct literal of NewJob.
abbrev pub default_job : ℕ → ℤ → String → String → Job
default_job id now job_type payload = record {
  id = id;
  job_type = job_type;
  payload = payload;
  priority = pos 5;
  status = pending;
  scheduled_at = now;
  retry_count = 0;
  max_retries = pos 3;
  timeout = pos 30000;
  cron_expression = "";
  cron_next_run = none;
  started_at = none;
  completed_at = none;
  worker_id = "";
  error_message = "";
  created_at = now;
  updated_at = now;
}

abbrev pub apply_options : Job → List JobOption → Job
apply_options = foldl (λ j opt. opt j)

unfoldable pub new_job : ℕ → ℤ → String → String → List JobOption → Result Job
new_job id now job_type payload opts =
    if str_eq job_type ""
    then err err_invalid_job_type
    else do let job = apply_options (default_job id now job_type payload) opts; validate job; ok job

unfoldable pub is_retryable : Job → Bool
unfolding status_eq
is_retryable j = ltb_ℤ (pos j.retry_count) j.max_retries && status_eq j.status failed

-- 1 << n on an int64.
unfoldable pub shift_one : ℕ → ℤ
shift_one n = wrap64 (pos (2 ^ n))

-- `id_low` is what ID() of the job's UUID returns, a uint32.
unfoldable pub next_retry_time : (ℕ → ℕ) → ℤ → ℤ → Job → ℤ
unfolding shift_one
next_retry_time id_low now base_delay j =
    let backoff = wrap64 (base_delay *ℤ shift_one j.retry_count) in
    let jitter = pos (id_low j.id % 1000 * 1000000) in now +ℤ wrap64 (backoff +ℤ jitter)

unfoldable pub execution_timeout : Job → ℤ
execution_timeout j = wrap64 (j.timeout *ℤ pos 1000000)
