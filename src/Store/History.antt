-- ===== src/Store/History.antt =====
-- GetJobHistory (internal/store/postgres.go). `order` is what ORDER BY created_at DESC does to the
-- rows. The id of an entry, which the database draws, is left out.
use distributed_task_schedul.Prelude.{
  ℕ, ℤ, Option, if◌then◌else◌, List, leb_ℤ, String, pos, ◌||◌, some, ◌∷◌, ltb_ℤ, pos_part, [], take,
  drop, none,
}
use distributed_task_schedul.Store.Tables.{Postgres, Entry, Tables, history_of}
use distributed_task_schedul.Models.Status.{JobStatus}
use distributed_task_schedul.Errors.{Result, Error, ◌>>=◌, ok, wrap_err, err, wrap, foreign}

-- JobHistory; `retry_count` and `scheduled_at` are its metadata.
pub record JobHistory : Type 0 where
  pub job_id : ℕ
  pub old_status : Option JobStatus
  pub new_status : JobStatus
  pub worker_id : String
  pub error_message : String
  pub retry_count : ℕ
  pub scheduled_at : ℤ
  pub created_at : ℤ

-- The default of the limit.
unfoldable pub history_limit : ℤ → ℕ
history_limit limit = if leb_ℤ limit (pos 0) || ltb_ℤ (pos 1000) limit then 100 else pos_part limit

-- Scan: the worker and the message are read into texts, which cannot take NULL.
unfoldable pub scan_history : Postgres → Entry → Result JobHistory
scan_history d e = do
  worker ← d.scan_text e.worker_id
  message ← d.scan_text e.error_message
  ok record {
    job_id = e.job_id;
    old_status = some e.old_status;
    new_status = e.new_status;
    worker_id = worker;
    error_message = message;
    retry_count = e.retry_count;
    scheduled_at = e.scheduled_at;
    created_at = e.created_at;
  }

-- The loop over the rows, which ends at the first that cannot be scanned.
unfoldable pub collect_history : Postgres → List Entry → Result (List JobHistory)
collect_history d [] = ok []
collect_history d (e ∷ es) = do
  entry ← wrap_err "scan history" (scan_history d e)
  entries ← collect_history d es
  ok (entry ∷ entries)

-- The server refuses a negative offset, which rows.Err() reports.
unfoldable pub get_job_history :
    Postgres
    → (order : List Entry → List Entry) → (failure : Option Error) → ℕ
    → (limit offset : ℤ) → Tables
    → Result (List JobHistory)
unfolding collect_history history_limit
get_job_history d order (some e) id limit offset t = err (wrap "get job history" e)
get_job_history d order none id limit offset t =
    let found = order (history_of id t.history) in
    if ltb_ℤ offset (pos 0)
    then err (foreign "OFFSET must not be negative")
    else collect_history d (take (history_limit limit) (drop (pos_part offset) found))
