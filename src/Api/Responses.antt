-- ===== src/Api/Responses.antt =====
-- What the handlers of internal/scheduler/api.go answer with, and the response types of
-- internal/models/job.go. The encoding of a body as JSON is that of a library.
use distributed_task_schedul.Prelude.{ℕ, String, ℤ, Option, List}
use distributed_task_schedul.Models.Status.{JobStatus}
use distributed_task_schedul.Errors.{Error}
use distributed_task_schedul.Models.Job.{Job}

-- JobStatusResponse
pub record JobStatusResponse : Type 0 where
  pub id : ℕ
  pub job_type : String
  pub status : JobStatus
  pub priority : ℤ
  pub retry_count : ℕ
  pub max_retries : ℤ
  pub scheduled_at : ℤ
  pub started_at : Option ℤ
  pub completed_at : Option ℤ
  pub worker_id : String
  pub error_message : String
  pub cron : String

-- JobResponse
pub record JobResponse : Type 0 where
  pub id : ℕ
  pub status : JobStatus
  pub created_at : ℤ

pub data Body : Type 0 where
  -- {"error": message}
  message : String → Body
  -- {"error": message + err.Error()}
  failure : String → Error → Body
  submitted : JobResponse → Body
  job : Job → Body
  status_of : JobStatusResponse → Body
  retry_queued : Body
  page : List Job → (total : ℕ) → (limit offset : ℤ) → Body
  healthy : (now : ℤ) → Body
  no_body : Body

pub record Response : Type 0 where
  pub status : ℕ
  pub body : Body

-- What a handler comes to: it writes a response, or a panic ends it.
pub data Handled : Type 0 where
  responds : Response → Handled
  panics : Handled

-- renderJSON
unfoldable pub render_json : ℕ → Body → Response
render_json status body = record { status = status; body = body }

-- renderError, with a message and with that of an error
unfoldable pub render_error : ℕ → String → Response
unfolding render_json
render_error status text = render_json status (message text)

unfoldable pub render_failure : ℕ → String → Error → Response
unfolding render_json
render_failure status text e = render_json status (failure text e)

-- w.WriteHeader, with no body
abbrev pub header_only : ℕ → Response
header_only status = record { status = status; body = no_body }
