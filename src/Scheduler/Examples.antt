-- ===== src/Scheduler/Examples.antt =====
-- The properties of the scheduler's operations at a concrete queue and store.
use distributed_task_schedul.Cron.Schedule.{
  search, parse_cron, five_fields, next_of, matches_at, match_cron_field, at,
}
use distributed_task_schedul.Prelude.{
  ◌≡◌, String, Option, pos, some, [], ◌∷◌, none, refl, false, true,
}
use distributed_task_schedul.Queue.Redis.{Redis, ready}
use distributed_task_schedul.Worker.Execution.{World}
use distributed_task_schedul.Scheduler.Jobs.{
  SubmitJobRequest, retry_job, submit_job, serving, replies, Reply, persist, request_options,
}
use distributed_task_schedul.Errors.{Error, ok, err}
use distributed_task_schedul.Store.Tables.{Row, find_row, columns_valid, is_known, cron_valid}
use distributed_task_schedul.Models.Job.{
  Job, default_job, new_job, validate, with_priority, with_max_retries, with_timeout, with_cron,
}
use distributed_task_schedul.Store.Jobs.{get_job, scan_job, create_job, accepts, row_of}
use distributed_task_schedul.Cron.Text.{Text, fields, cut, non_empty, is_space}
use distributed_task_schedul.Queue.Memory.{Database, plain_codec, memory, empty_database}
use distributed_task_schedul.Store.Examples.{plain_postgres}
use distributed_task_schedul.Models.Status.{completed, is_terminal, pending}
use distributed_task_schedul.Scheduler.Submission.{submit_job-one_time}
use distributed_task_schedul.Scheduler.Retries.{retry_job-terminal}

abbrev pub db : Redis (Option Job)
db = memory (Option Job)

abbrev no_text : String → Text
no_text s = []

-- "* * * * *", whatever the text is.
abbrev pub stars : String → Text
stars s = 42 ∷ 32 ∷ 42 ∷ 32 ∷ 42 ∷ 32 ∷ 42 ∷ 32 ∷ 42 ∷ []

abbrev pub empty_world : World (Database (Option Job))
empty_world = record {
  queue = empty_database;
  tables = record { jobs = []; history = []; heartbeats = [] };
}

abbrev pub email_request : SubmitJobRequest
email_request = record {
  job_type = "send-email";
  payload = "{}";
  priority = pos 5;
  max_retries = pos 3;
  timeout = pos 30000;
  scheduled_at = none;
  cron = "";
}

submit_job-one_time_example :
    (x : Error) × (submit_job plain_codec db plain_postgres no_text
        (serving none)
        (pos 1000)
        7
        email_request
        empty_world
      ≡ (empty_world, replies (err x)))
submit_job-one_time_example =
    submit_job-one_time plain_codec db plain_postgres no_text (serving none) (pos 1000) 7
      email_request empty_world refl

abbrev pub done_row : Row
done_row = record {
  id = 8;
  job_type = "send-email";
  payload = "{}";
  priority = pos 5;
  status = completed;
  scheduled_at = pos 1000;
  retry_count = 2;
  max_retries = pos 3;
  timeout_ms = pos 30000;
  cron_expression = some "0 2 * * *";
  cron_next_run = some (pos 5000);
  started_at = some (pos 6000);
  completed_at = some (pos 7000);
  worker_id = some "w1";
  error_message = some "";
  created_at = pos 1000;
  updated_at = pos 7000;
}

abbrev pub done_job : Job
done_job = record {
  id = 8;
  job_type = "send-email";
  payload = "{}";
  priority = pos 5;
  status = completed;
  scheduled_at = pos 1000;
  retry_count = 2;
  max_retries = pos 3;
  timeout = pos 30000;
  cron_expression = "0 2 * * *";
  cron_next_run = some (pos 5000);
  started_at = some (pos 6000);
  completed_at = some (pos 7000);
  worker_id = "w1";
  error_message = "";
  created_at = pos 1000;
  updated_at = pos 7000;
}

abbrev pub done_world : World (Database (Option Job))
done_world = record {
  queue = empty_database;
  tables = record { jobs = done_row ∷ []; history = []; heartbeats = [] };
}

pub done_found : find_row 8 done_world.tables.jobs ≡ some done_row
unfolding find_row
done_found = refl

pub done_read : get_job plain_postgres none 8 done_world.tables ≡ ok done_job
unfolding get_job find_row scan_job
done_read = refl

-- What RetryJob puts into the queue.
abbrev reopened : Job
reopened = record done_job {
  retry_count = 0;
  status = pending;
  error_message = "";
  worker_id = "";
  scheduled_at = pos 9000;
  started_at = none;
  completed_at = none;
}

retry_job-terminal_example :
    let (w', e) = retry_job plain_codec db plain_postgres (serving none) (pos 9000) 8 done_world in
    (is_terminal completed ≡ false → (w' ≡ done_world) × ((x : Error) × (e ≡ some x)))
    × (is_terminal completed ≡ true
        → (e ≡ none)
          × (db.items w'.queue (ready (pos 5)) ≡ 8 ∷ [])
          × (db.get w'.queue 8 ≡ some (some reopened))
          × ((row' : Row) × (find_row 8 w'.tables.jobs ≡ some row')
              × (row'.status ≡ pending)
              × (row'.retry_count ≡ 2)))
retry_job-terminal_example =
    retry_job-terminal plain_codec db plain_postgres none (pos 9000) done_world done_job done_row
      (some reopened) done_read done_found refl

-- A cron request, and the job that SubmitJob makes of it in minute 0 of the epoch.
abbrev pub minutely_request : SubmitJobRequest
minutely_request = record email_request { cron = "* * * * *" }

abbrev pub minutely : Job
minutely = record (default_job 8 (pos 1000) "send-email" "{}") {
  cron_expression = "* * * * *";
  cron_next_run = some (pos 60000000000);
}

abbrev submitted : World (Database (Option Job)) × Reply Job
submitted =
    submit_job plain_codec db plain_postgres stars (serving none) (pos 1000) 8 minutely_request
      empty_world

abbrev persisted : World (Database (Option Job)) × Reply Job
persisted = persist plain_codec db plain_postgres (serving none) (pos 1000) minutely empty_world

minutely_made :
    new_job 8 (pos 1000) "send-email" "{}" (request_options minutely_request)
    ≡ ok (record minutely { cron_next_run = none })
unfolding new_job validate request_options with_priority with_max_retries with_timeout with_cron
minutely_made = refl

pub next_minute : parse_cron (stars "* * * * *") 1000 ≡ at 60000000000
unfolding parse_cron five_fields fields cut non_empty is_space next_of search matches_at
    match_cron_field
next_minute = refl

submission_done : submitted ≡ (persisted.0, replies (ok minutely))
unfolding submit_job persist create_job accepts columns_valid is_known cron_valid row_of find_row
submission_done = rw (submitted, submit_job, minutely_made, next_minute) refl
