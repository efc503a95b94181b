-- ===== src/Store/Jobs.antt =====
-- CreateJob, GetJob, UpdateJobStatus and DeleteJob (internal/store/postgres.go), with the triggers
-- of migrations/001_init.sql. `failure` is the error of a call that does not reach the tables, and
-- `now` what NOW() reads.
use mathlib.Core.Option
use distributed_task_schedul.Prelude.{
  ℕ, String, Bool, true, false, ◌&&◌, List, [], ◌∷◌, ◌++◌, foldl, Option, none, some, ◌==◌,
  if◌then◌else◌, ℤ, str_eq, ◌||◌,
}
use distributed_task_schedul.Errors.{
  ◌>>=◌, Error, foreign, Result, wrap, err, err_job_not_found, wrap_err, ok,
}
use distributed_task_schedul.Store.Tables.{
  Postgres, columns_valid, Row, Entry, cron_valid, Tables, find_row, is_known,
}
use distributed_task_schedul.Models.Job.{Job}
use distributed_task_schedul.Models.Status.{JobStatus, status_eq}

-- What the server reports where a constraint refuses a row.
abbrev pub refused : Error
refused = foreign "constraint violation"

abbrev text_or_empty : Option String → String
text_or_empty none = ""
text_or_empty (some s) = s

abbrev is_absent {ℓ} : {A : Type ℓ} → Option A → Bool
is_absent none = true
is_absent (some a) = false

-- The row that CreateJob inserts: the columns that its INSERT does not name are NULL.
unfoldable pub row_of : Postgres → Job → (payload : String) → Row
row_of d j payload = record {
  id = j.id;
  job_type = j.job_type;
  payload = payload;
  priority = j.priority;
  status = j.status;
  scheduled_at = d.timestamp j.scheduled_at;
  retry_count = j.retry_count;
  max_retries = j.max_retries;
  timeout_ms = j.timeout;
  cron_expression = some j.cron_expression;
  cron_next_run =
      if str_eq j.cron_expression "" then none else Option.map d.timestamp j.cron_next_run;
  started_at = none;
  completed_at = none;
  worker_id = none;
  error_message = none;
  created_at = d.timestamp j.created_at;
  updated_at = d.timestamp j.updated_at;
}

-- Whether the server takes the row: its columns, chk_cron_valid, and the primary key.
unfoldable pub accepts : Postgres → Row → Tables → Bool
unfolding columns_valid cron_valid
accepts d row t =
    columns_valid d row
    && (d.fits 64 (text_or_empty row.cron_expression)
        && cron_valid row.cron_expression row.cron_next_run)
    && is_absent (find_row row.id t.jobs)

unfoldable pub create_job :
    Postgres → (failure : Option Error) → Job → Tables → Tables × Option Error
create_job d (some e) j t = (t, some (wrap "insert job" e))
create_job d none j t = elim (d.jsonb j.payload) [
  | none ↦ (t, some (wrap "insert job" refused))
  | some payload ↦
      let row = row_of d j payload in
      if accepts d row t
      then (record t { jobs = t.jobs ++ (row ∷ []) }, none)
      else (t, some (wrap "insert job" refused))
]

-- Scan: the texts are read one after the other, and a NULL is an error.
unfoldable pub scan_job : Postgres → Row → Result Job
scan_job d row = do
  cron ← d.scan_text row.cron_expression
  worker ← d.scan_text row.worker_id
  message ← d.scan_text row.error_message
  ok record {
    id = row.id;
    job_type = row.job_type;
    payload = row.payload;
    priority = row.priority;
    status = row.status;
    scheduled_at = row.scheduled_at;
    retry_count = row.retry_count;
    max_retries = row.max_retries;
    timeout = row.timeout_ms;
    cron_expression = cron;
    cron_next_run = row.cron_next_run;
    started_at = row.started_at;
    completed_at = row.completed_at;
    worker_id = worker;
    error_message = message;
    created_at = row.created_at;
    updated_at = row.updated_at;
  }

unfoldable pub get_job : Postgres → (failure : Option Error) → ℕ → Tables → Result Job
get_job d (some e) i t = err (wrap "get job" e)
get_job d none i t = elim (find_row i t.jobs) [
  | none ↦ err err_job_not_found
  | some row ↦ wrap_err "get job" (scan_job d row)
]

-- updateOpts, and the options that fill it.
pub record UpdateOpts : Type 0 where
  pub worker_id : String
  pub error_message : String
  pub started_at : Option ℤ
  pub completed_at : Option ℤ

abbrev pub UpdateOpt : Type 0
UpdateOpt = UpdateOpts → UpdateOpts

abbrev pub with_worker_id : String → UpdateOpt
with_worker_id w o = record o { worker_id = w }

abbrev pub with_error_message : String → UpdateOpt
with_error_message m o = record o { error_message = m }

abbrev pub with_started_at : ℤ → UpdateOpt
with_started_at t o = record o { started_at = some t }

abbrev pub with_completed_at : ℤ → UpdateOpt
with_completed_at t o = record o { completed_at = some t }

abbrev pub options_of : List UpdateOpt → UpdateOpts
options_of =
    foldl (λ o opt. opt o)
      (record { worker_id = ""; error_message = ""; started_at = none; completed_at = none })

-- COALESCE
abbrev pub coalesce {ℓ} : {A : Type ℓ} → Option A → Option A → Option A
coalesce none b = b
coalesce (some a) b = some a

-- NULLIF(…, '')
abbrev pub null_if_empty : String → Option String
null_if_empty s = if str_eq s "" then none else some s

-- The SET clause of UpdateJobStatus; a Go string is never NULL.
unfoldable pub updated_row : Postgres → JobStatus → UpdateOpts → (now : ℤ) → Row → Row
updated_row d status o now row = record row {
  status = status;
  worker_id = coalesce (null_if_empty o.worker_id) row.worker_id;
  error_message = coalesce (some o.error_message) row.error_message;
  started_at = coalesce (Option.map d.timestamp o.started_at) row.started_at;
  completed_at = coalesce (Option.map d.timestamp o.completed_at) row.completed_at;
  updated_at = now;
}

-- UPDATE jobs SET … WHERE id = …, on the rows.
unfoldable pub update_rows : (Row → Row) → ℕ → List Row → List Row
update_rows f i [] = []
update_rows f i (row ∷ rows) =
    if row.id == i then f row ∷ update_rows f i rows else row ∷ update_rows f i rows

-- log_job_status_change, for a row before and after the update.
unfoldable pub log_change : (now : ℤ) → Row → Row → List Entry
log_change now old new =
    if status_eq old.status new.status
    then []
    else record {
      job_id = new.id;
      old_status = old.status;
      new_status = new.status;
      worker_id = new.worker_id;
      error_message = new.error_message;
      retry_count = new.retry_count;
      scheduled_at = new.scheduled_at;
      created_at = now;
    }
      ∷ []

unfoldable pub update_job_status :
    Postgres
    → (failure : Option Error) → (now : ℤ) → ℕ
    → JobStatus
    → List UpdateOpt
    → Tables
    → Tables × Option Error
unfolding updated_row log_change
update_job_status d (some e) now i status opts t = (t, some (wrap "update job status" e))
update_job_status d none now i status opts t =
    let change = updated_row d status (options_of opts) now in
    let o = options_of opts in
    if is_known status
    then elim (find_row i t.jobs) [
      | none ↦ (t, some err_job_not_found)
      | some row ↦
          if str_eq o.worker_id "" || d.fits 64 o.worker_id
          then (
            record t {
              jobs = update_rows change i t.jobs;
              history = t.history ++ log_change now row (change row);
            },
            none,
          )
          else (t, some (wrap "update job status" refused))
    ]
    else (t, some (wrap "update job status" refused))

-- ON DELETE CASCADE also removes the history of the job.
unfoldable pub delete_rows : ℕ → List Row → List Row
delete_rows i [] = []
delete_rows i (row ∷ rows) = if row.id == i then delete_rows i rows else row ∷ delete_rows i rows

unfoldable pub delete_history : ℕ → List Entry → List Entry
delete_history i [] = []
delete_history i (e ∷ es) = if e.job_id == i then delete_history i es else e ∷ delete_history i es

unfoldable pub delete_job : (failure : Option Error) → ℕ → Tables → Tables × Option Error
delete_job (some e) i t = (t, some (wrap "delete job" e))
delete_job none i t = elim (find_row i t.jobs) [
  | none ↦ (t, some err_job_not_found)
  | some row ↦
      (record t { jobs = delete_rows i t.jobs; history = delete_history i t.history }, none)
]
