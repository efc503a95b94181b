-- ===== src/Store/Examples.antt =====
-- The properties of the store at concrete tables.
use distributed_task_schedul.Prelude.{
  ◌≡◌, Option, List, none, String, pos, some, [], ◌∷◌, true, Bool, refl, subst, sym,
}
use distributed_task_schedul.Store.Tables.{
  Postgres, Tables, Row, find_row, is_known, history_of, WorkerHeartbeat, columns_valid, cron_valid,
}
use distributed_task_schedul.Models.Job.{Job, default_job}
use distributed_task_schedul.Store.Jobs.{
  create_job, row_of, get_job, UpdateOpt, update_job_status, accepts, with_worker_id,
  with_started_at, scan_job,
}
use distributed_task_schedul.Errors.{Error, Result, ok, foreign, err}
use distributed_task_schedul.Store.Listing.{
  JobFilter, select, matches, page_limit, page_offset, list_jobs, collect_jobs,
}
use distributed_task_schedul.Models.Status.{pending, running, dead_letter}
use distributed_task_schedul.Store.Trail.{Update, apply_updates, IsTrail, updates-IsTrail, start}
use distributed_task_schedul.Store.Lookup.{update_job_status-get_job}

-- A text that can be read, or the error for NULL.
abbrev pub scan_plain : Option String → Result String
scan_plain (some s) = ok s
scan_plain none = err (foreign "cannot scan NULL into *string")

abbrev pub plain_postgres : Postgres
plain_postgres = record {
  timestamp = λ t. t;
  timestamp_mono = λ a b h. h;
  jsonb = λ s. some s;
  fits = λ n s. true;
  scan_text = scan_plain;
  scan_text-some = λ s. refl;
  scan_text-none = (foreign "cannot scan NULL into *string", refl);
}

abbrev pub empty_tables : Tables
empty_tables = record { jobs = []; history = []; heartbeats = [] }

abbrev pub email : Job
email = default_job 7 (pos 1000) "send-email" "{}"

abbrev pub nightly : Job
nightly = record email { id = 8; cron_expression = "0 2 * * *"; cron_next_run = some (pos 5000) }

abbrev pub nightly_row : Row
nightly_row = record {
  id = 8;
  job_type = "send-email";
  payload = "{}";
  priority = pos 5;
  status = pending;
  scheduled_at = pos 1000;
  retry_count = 0;
  max_retries = pos 3;
  timeout_ms = pos 30000;
  cron_expression = some "0 2 * * *";
  cron_next_run = some (pos 5000);
  started_at = none;
  completed_at = none;
  worker_id = none;
  error_message = none;
  created_at = pos 1000;
  updated_at = pos 1000;
}

abbrev pub stored : Tables
stored = record empty_tables { jobs = nightly_row ∷ [] }

-- CreateJob stores this job as that row.
nightly-stored : create_job plain_postgres none nightly empty_tables ≡ (stored, none)
unfolding create_job row_of accepts columns_valid is_known cron_valid find_row
nightly-stored = refl

abbrev started : List UpdateOpt
started = with_worker_id "w1" ∷ with_started_at (pos 6000) ∷ []

row_found : find_row 8 stored.jobs ≡ some nightly_row
unfolding find_row
row_found = refl

running_known : is_known running ≡ true
unfolding is_known
running_known = refl

abbrev running_job : Tables × Option Error
running_job = update_job_status plain_postgres none (pos 6000) 8 running started stored

update_job_status-get_job_example :
    (running_job.1 ≡ none)
    × ((j : Job) × (get_job plain_postgres none 8 running_job.0 ≡ ok j)
        × (j.status ≡ running)
        × (j.worker_id ≡ "w1")
        × (j.error_message ≡ "")
        × (j.started_at ≡ some (pos 6000))
        × (j.completed_at ≡ none)
        × (j.cron_expression ≡ "0 2 * * *")
        × (j.priority ≡ pos 5)
        × (j.retry_count ≡ 0)
        × (j.id ≡ 8)
        × (j.job_type ≡ nightly_row.job_type)
        × (j.payload ≡ nightly_row.payload)
        × (j.scheduled_at ≡ nightly_row.scheduled_at)
        × (j.max_retries ≡ nightly_row.max_retries)
        × (j.timeout ≡ nightly_row.timeout_ms)
        × (j.cron_next_run ≡ nightly_row.cron_next_run)
        × (j.created_at ≡ nightly_row.created_at)
        × (j.updated_at ≡ pos 6000))
update_job_status-get_job_example =
    update_job_status-get_job plain_postgres (pos 6000) 8 running started stored nightly_row
      "0 2 * * *" row_found refl running_known refl refl

abbrev two_updates : List Update
two_updates =
    record { failure = none; now = pos 6000; id = 8; status = running; opts = started }
    ∷ record { failure = none; now = pos 7000; id = 8; status = dead_letter; opts = [] }
    ∷ []

no_history : history_of 8 [] ≡ []
unfolding history_of
no_history = refl

updates-IsTrail_example :
    (row' : Row) × (find_row 8 (apply_updates plain_postgres two_updates stored).jobs ≡ some row')
    × IsTrail pending
        (history_of 8 (apply_updates plain_postgres two_updates stored).history)
        row'.status
updates-IsTrail_example =
    updates-IsTrail plain_postgres 8 pending two_updates stored nightly_row row_found
      (subst (λ es. IsTrail pending es pending) (sym no_history) start)

-- Every job, twenty at a time.
abbrev all_jobs : JobFilter
all_jobs = record {
  status = none;
  job_type = "";
  priority = none;
  worker_id = "";
  limit = pos 20;
  offset = pos 0;
  order_by = "";
  order_desc = true;
}

abbrev pub as_stored : String → Bool → List Row → List Row
as_stored column desc rows = rows

abbrev pub read_tables : Tables
read_tables = record stored {
  jobs = record nightly_row { worker_id = some "w1"; error_message = some "" } ∷ [];
}

abbrev pub listed : List Job
listed = record nightly { worker_id = "w1" } ∷ []

all_listed : list_jobs plain_postgres as_stored none none all_jobs read_tables ≡ ok (listed, 1)
unfolding list_jobs matches select page_limit page_offset collect_jobs scan_job
all_listed = refl

abbrev beat : WorkerHeartbeat
beat = record {
  worker_id = "w1";
  hostname = "w1";
  concurrency = pos 4;
  active_jobs = pos 0;
  last_heartbeat = pos 9000;
  started_at = pos 9000;
}

abbrev beaten : Tables
beaten = record empty_tables { heartbeats = beat ∷ [] }
