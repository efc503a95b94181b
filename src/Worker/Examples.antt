-- ===== src/Worker/Examples.antt =====
-- The properties of the worker at a concrete queue, store and registry.
use distributed_task_schedul.Worker.Measures.{Run, measured_jobs}
use distributed_task_schedul.Prelude.{◌≡◌, Option, pos, String, some, none, refl, ◌∷◌, [], ℤ, List}
use distributed_task_schedul.Queue.Redis.{Redis, inflight, dlq, ready}
use distributed_task_schedul.Models.Job.{Job, default_job}
use distributed_task_schedul.Store.Tables.{Row, find_row}
use distributed_task_schedul.Worker.Execution.{
  World, run_with_recovery, execute_job, handle_job_error, Calls, Times,
}
use distributed_task_schedul.Worker.Registry.{JobHandler, get_handler, returns, panics, Registry}
use distributed_task_schedul.Errors.{Error}
use distributed_task_schedul.Worker.Failures.{
  served, handle_job_error-dead_letter, execute_job-buries,
}
use distributed_task_schedul.Queue.Memory.{Database, plain_codec, memory, empty_database}
use distributed_task_schedul.Models.Status.{failed, pending, status_eq, dead_letter}
use distributed_task_schedul.Store.Examples.{plain_postgres}
use distributed_task_schedul.Queue.Operations.{buried}
use distributed_task_schedul.Worker.Counters.{Tally, count_type, measured_jobs-Tally}
use distributed_task_schedul.Metrics.Memory.{plain_metrics}
use distributed_task_schedul.Metrics.Collector.{new_collector}

abbrev pub db : Redis (Option Job)
db = memory (Option Job)

abbrev pub report : Job
report = default_job 8 (pos 1000) "generate-report" "{}"

-- The row of the job in the store.
abbrev pub report_row : Row
report_row = record {
  id = 8;
  job_type = "generate-report";
  payload = "{}";
  priority = pos 5;
  status = pending;
  scheduled_at = pos 1000;
  retry_count = 0;
  max_retries = pos 3;
  timeout_ms = pos 30000;
  cron_expression = some "0 2 * * *";
  cron_next_run = some (pos 5000);
  started_at = none;
  completed_at = none;
  worker_id = none;
  error_message = none;
  created_at = pos 1000;
  updated_at = pos 1000;
}

abbrev pub world : World (Database (Option Job))
world = record {
  queue = empty_database;
  tables = record { jobs = report_row ∷ []; history = []; heartbeats = [] };
}

-- An execution in the seventh second.
abbrev pub six_seconds : Times
six_seconds = record {
  started = pos 6000;
  start_update = pos 6001;
  nacked = pos 6400;
  ended = pos 6500;
  end_update = pos 6501;
}

abbrev pub reports_done : JobHandler
reports_done = record { name = "generate-report"; execute = λ j. returns none }

abbrev pub reports_panic : JobHandler
reports_panic = record { name = "generate-report"; execute = λ j. panics }

abbrev pub error_name : Error → String
error_name e = "error"

pub row_found : find_row 8 world.tables.jobs ≡ some report_row
unfolding find_row
row_found = refl

execute_job-buries_example :
    let k = served plain_codec db plain_postgres (λ i. i) error_name "w1" six_seconds none none in
    let w' =
      execute_job plain_codec db plain_postgres
        (λ i. i)
        error_name
        (("generate-report", reports_panic) ∷ [])
        k
        report
        world in
    (db.items w'.queue dlq ≡ 8 ∷ [])
    × ((p : ℤ) → db.items w'.queue (ready p) ≡ [])
    × (db.score w'.queue (inflight "w1") 8 ≡ none)
    × ((row' : Row) × (find_row 8 w'.tables.jobs ≡ some row') × (row'.status ≡ dead_letter))
unfolding get_handler run_with_recovery status_eq
execute_job-buries_example =
    execute_job-buries plain_codec db plain_postgres (λ i. i) error_name
      (("generate-report", reports_panic) ∷ []) "w1" six_seconds none none report none world
      report_row (some (buried report "")) refl refl row_found refl

-- A job that Nack requeues.
abbrev failed_report : Job
failed_report = record report { status = failed }

handle_job_error-dead_letter_example :
    let k = served plain_codec db plain_postgres (λ i. i) error_name "w1" six_seconds none none in
    let w' =
      handle_job_error plain_codec db plain_postgres
        (λ i. i)
        error_name
        k
        failed_report
        none
        world in
    (row' : Row) × (find_row 8 w'.tables.jobs ≡ some row')
    × (row'.status ≡ dead_letter)
    × (row'.error_message ≡ some "")
handle_job_error-dead_letter_example =
    handle_job_error-dead_letter plain_codec db plain_postgres (λ i. i) error_name
      (served plain_codec db plain_postgres (λ i. i) error_name "w1" six_seconds none none)
      failed_report none world report_row row_found

-- One job of each outcome, and a job that no handler is registered for.
abbrev plain_calls : Calls
plain_calls = served plain_codec db plain_postgres (λ i. i) error_name "w1" six_seconds none none

abbrev three_handlers : Registry
three_handlers = ("generate-report", reports_done) ∷ ("other", reports_panic) ∷ []

abbrev three_runs : List Run
three_runs =
    record { calls = plain_calls; job = report; elapsed = pos 5; latency = pos 6 }
    ∷ record {
      calls = plain_calls;
      job = record report { job_type = "other" };
      elapsed = pos 7;
      latency = pos 8;
    }
    ∷ record {
      calls = plain_calls;
      job = record report { job_type = "unknown" };
      elapsed = pos 9;
      latency = pos 10;
    }
    ∷ []

measured_jobs-Tally_example :
    Tally plain_metrics plain_codec db plain_postgres
      (λ i. i)
      error_name
      "w1"
      "generate-report"
      (count_type plain_metrics plain_codec db plain_postgres
        (λ i. i)
        error_name
        "generate-report"
        three_runs)
      (measured_jobs plain_metrics plain_codec db plain_postgres
        (λ i. i)
        error_name
        three_handlers
        "w1"
        three_runs
        (world, new_collector plain_metrics)).1
measured_jobs-Tally_example =
    measured_jobs-Tally plain_metrics plain_codec db plain_postgres (λ i. i) error_name
      three_handlers "w1" "generate-report" three_runs world

one_report :
    count_type plain_metrics plain_codec db plain_postgres
      (λ i. i)
      error_name
      "generate-report"
      three_runs
    ≡ 1
unfolding count_type
one_report = refl
