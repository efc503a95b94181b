-- ===== src/Store/Tables.antt =====
-- The tables of migrations/001_init.sql as internal/store/postgres.go uses them, and what it uses
-- of PostgreSQL's types and of pgx, which are not part of the repository: a parameter.
use distributed_task_schedul.Prelude.{
  ℕ, String, ◌≡◌, Bool, true, false, ◌&&◌, List, [], ◌∷◌, Option, none, some, ltb, ◌==◌,
  if◌then◌else◌, ℤ, pos, ltb_ℤ, leb_ℤ, ◌≤ℤ◌,
}
use distributed_task_schedul.Errors.{Error, Result, ok, err}
use distributed_task_schedul.Models.Status.{JobStatus, other}

-- A row of `jobs`; a column that may be NULL is an Option.
pub record Row : Type 0 where
  pub id : ℕ
  pub job_type : String
  pub payload : String
  pub priority : ℤ
  pub status : JobStatus
  pub scheduled_at : ℤ
  pub retry_count : ℕ
  pub max_retries : ℤ
  pub timeout_ms : ℤ
  pub cron_expression : Option String
  pub cron_next_run : Option ℤ
  pub started_at : Option ℤ
  pub completed_at : Option ℤ
  pub worker_id : Option String
  pub error_message : Option String
  pub created_at : ℤ
  pub updated_at : ℤ

-- A row of `job_history`; `retry_count` and `scheduled_at` are its metadata.
pub record Entry : Type 0 where
  pub job_id : ℕ
  pub old_status : JobStatus
  pub new_status : JobStatus
  pub worker_id : Option String
  pub error_message : Option String
  pub retry_count : ℕ
  pub scheduled_at : ℤ
  pub created_at : ℤ

-- WorkerHeartbeat, a row of `worker_heartbeats`.
pub record WorkerHeartbeat : Type 0 where
  pub worker_id : String
  pub hostname : String
  pub concurrency : ℤ
  pub active_jobs : ℤ
  pub last_heartbeat : ℤ
  pub started_at : ℤ

-- The rows in the order in which they were inserted.
pub record Tables : Type 0 where
  pub jobs : List Row
  pub history : List Entry
  pub heartbeats : List WorkerHeartbeat

pub record Postgres : Type 0 where
  -- a time.Time as a TIMESTAMPTZ, which counts microseconds
  pub timestamp : ℤ → ℤ
  pub timestamp_mono : (a b : ℤ) → a ≤ℤ b → timestamp a ≤ℤ timestamp b
  -- a text as JSONB; none if it is not JSON
  pub jsonb : String → Option String
  -- whether a text fits into VARCHAR(n)
  pub fits : ℕ → String → Bool
  -- Scan of a nullable text into a *string, which cannot take NULL
  pub scan_text : Option String → Result String
  pub scan_text-some : (s : String) → scan_text (some s) ≡ ok s
  pub scan_text-none : (e : Error) × (scan_text none ≡ err e)

-- WHERE id = …
unfoldable pub find_row : ℕ → List Row → Option Row
find_row i [] = none
find_row i (row ∷ rows) = if row.id == i then some row else find_row i rows

-- WHERE job_id = …
unfoldable pub history_of : ℕ → List Entry → List Entry
history_of i [] = []
history_of i (e ∷ es) = if e.job_id == i then e ∷ history_of i es else history_of i es

-- The enum job_status has no other values than the six.
unfoldable pub is_known : JobStatus → Bool
is_known (other s) = false
is_known _ = true

-- chk_cron_valid
unfoldable pub cron_valid : Option String → Option ℤ → Bool
cron_valid none none = true
cron_valid (some _) (some _) = true
cron_valid _ _ = false

-- The other constraints of the columns that CreateJob writes.
unfoldable pub columns_valid : Postgres → Row → Bool
unfolding is_known
columns_valid d row =
    d.fits 128 row.job_type
    && (leb_ℤ (pos 0) row.priority && leb_ℤ row.priority (pos 9))
    && is_known row.status
    && ltb row.retry_count 2147483648
    && (leb_ℤ (pos 0) row.max_retries && leb_ℤ row.max_retries (pos 20))
    && (ltb_ℤ (pos 0) row.timeout_ms && leb_ℤ row.timeout_ms (pos 3600000))
