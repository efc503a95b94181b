-- ===== src/Worker/Scenarios.antt =====
-- A job from Enqueue to its completion, at a concrete queue, store and registry
-- (internal/worker/pool.go).
use distributed_task_schedul.Worker.Served.{Kind}
use distributed_task_schedul.Worker.Registry.{Registry}
use distributed_task_schedul.Worker.Examples.{
  reports_done, reports_panic, db, error_name, report, world, report_row, row_found, six_seconds,
}
use distributed_task_schedul.Prelude.{
  ◌∷◌, [], pos, none, ◌≡◌, some, refl, List, negsuc, if◌then◌else◌, str_eq,
}
use distributed_task_schedul.Worker.Failures.{served}
use distributed_task_schedul.Queue.Memory.{plain_codec}
use distributed_task_schedul.Store.Examples.{plain_postgres, empty_tables}
use distributed_task_schedul.Worker.Heartbeat.{
  Beat, latest, Reports, heartbeat_loop, heartbeat_loop-IsAlive,
}
use distributed_task_schedul.Store.Heartbeats.{find_worker}
use distributed_task_schedul.Worker.Handlers.{
  Outside, set_headers, process_payment, register_handlers, set_header,
}
use distributed_task_schedul.Worker.Execution.{execute_job}
use distributed_task_schedul.Worker.Outcomes.{Served, execute_job-status}
use distributed_task_schedul.Errors.{foreign, err, errorf, ok}
use distributed_task_schedul.Store.Tables.{Row, find_row}
use distributed_task_schedul.Models.Status.{completed, dead_letter}

abbrev both_handlers : Registry
both_handlers = ("generate-report", reports_done) ∷ ("other", reports_panic) ∷ []

-- The third heartbeat of a worker is lost.
abbrev more_beats : List Beat
more_beats =
    record { failure = none; now = pos 20; started = pos 21 }
    ∷ record { failure = some (foreign "timeout"); now = pos 30; started = pos 31 }
    ∷ []

abbrev first_beat : Beat
first_beat = record { failure = none; now = pos 10; started = pos 11 }

heartbeat_loop-IsAlive_example :
    Reports plain_postgres "w1"
      (pos 4)
      (pos 11)
      (latest plain_postgres "w1" (pos 4) (pos 10) more_beats)
      empty_tables
      (heartbeat_loop plain_postgres "w1" (pos 4) (first_beat ∷ more_beats) empty_tables)
unfolding find_worker
heartbeat_loop-IsAlive_example =
    heartbeat_loop-IsAlive plain_postgres "w1" (pos 4) first_beat more_beats empty_tables refl refl
      refl refl

last_taken : latest plain_postgres "w1" (pos 4) (pos 10) more_beats ≡ pos 20
unfolding latest
last_taken = refl

-- Payloads that name a URL, a table, …; the server of the webhook answers with 204, and everything is done in time.
abbrev calm : Outside
calm = record {
  email_of = λ s. err (foreign "unexpected end of JSON input");
  payment_of = λ s. ok record {
    order_id = s;
    amount = record { mantissa = negsuc 4; exponent = pos 0 };
    currency = "EUR";
    payment_method = "card";
    customer_id = "c1";
  };
  report_of = λ s.
      ok record {
        report_type = s;
        format = "";
        start = "";
        end = "";
        filters = [];
        recipients = [];
      };
  webhook_of = λ s. ok record {
    url = s;
    method = "";
    headers = ("content-type", "text/plain") ∷ [];
    body = "";
    max_retries = pos 0;
    timeout = pos 0;
  };
  cleanup_of = λ s. ok record { table = s; older_than = "720h"; batch_size = pos 0 };
  id_text = λ i. "8";
  canonical = λ k. if str_eq k "content-type" then "Content-Type" else k;
  refuses = λ method url. none;
  respond = λ req. ok (pos 204);
  done_within = λ ns. none;
}

execute_job-status_example :
    let k = served plain_codec db plain_postgres (λ i. i) error_name "w1" six_seconds none none in
    let w' =
      execute_job plain_codec db plain_postgres
        (λ i. i)
        error_name
        (register_handlers calm)
        k
        report
        world in
    (row' : Row) × (find_row 8 w'.tables.jobs ≡ some row')
    × (Served calm report → row'.status ≡ completed)
    × (¬ (Served calm report) → row'.status ≡ dead_letter)
execute_job-status_example =
    execute_job-status plain_codec db plain_postgres (λ i. i) error_name calm "w1" six_seconds none
      none report world report_row row_found

report-Served : Served calm report
report-Served = (Kind.report, refl, (_, refl, refl))

-- A header of the payload replaces the one that the handler has set.
plain_text :
    set_headers calm.canonical
      (("content-type", "text/plain") ∷ [])
      (set_header calm.canonical "Content-Type" "application/json" [])
    ≡ ("Content-Type", "text/plain") ∷ []
unfolding set_headers set_header
plain_text = refl

-- A payment of a negative amount is refused.
negative_amount : process_payment calm report ≡ some (errorf "invalid payment amount")
unfolding process_payment
negative_amount = refl
