-- ===== src/Api/Examples.antt =====
-- The answers of the HTTP API at concrete requests.
use distributed_task_schedul.Scheduler.Recurring.{Core}
use distributed_task_schedul.Scheduler.Jobs.{validate_request, serving}
use distributed_task_schedul.Api.Handlers.{
  handle_submit_job, handle_delete_job, handle_get_job, handle_get_job_status, handle_retry_job,
}
use distributed_task_schedul.Prelude.{
  String, ℕ, none, pos, Option, ◌≡◌, ◌∷◌, [], ◌≤◌, refl, length, min, true, ◌-◌, false, map, take,
  drop,
}
use distributed_task_schedul.Api.Listing.{Query, handle_list_jobs, filter_of, int_param}
use distributed_task_schedul.Queue.Memory.{Database, plain_codec}
use distributed_task_schedul.Scheduler.Examples.{
  minutely_request, db, empty_world, stars, done_world, minutely, next_minute, done_job, done_row,
  done_read, done_found,
}
use distributed_task_schedul.Cron.Text.{Text, atoi, digits, positive_int, digits_from}
use distributed_task_schedul.Store.Listing.{
  list_jobs, matches, select, page_limit, page_offset, collect_jobs, known_status,
}
use distributed_task_schedul.Errors.{Result, ok, err, foreign, err_job_not_found}
use distributed_task_schedul.Models.Job.{Job}
use distributed_task_schedul.Store.Examples.{plain_postgres, read_tables, as_stored, listed}
use distributed_task_schedul.Api.Submitted.{
  Answered, handle_submit_job-Answered, created_answer, handle_submit_job-unread,
}
use distributed_task_schedul.Api.Middleware.{recover}
use distributed_task_schedul.Models.Status.{status_eq, completed, running}
use distributed_task_schedul.Scheduler.Scenarios.{registered, cron_made, cron_stored}
use distributed_task_schedul.Api.Responses.{render_error, header_only, page}
use distributed_task_schedul.Store.Jobs.{scan_job, get_job}
use distributed_task_schedul.Api.Pages.{
  handle_list_jobs-page, number_or, number_in, start_of, wanted, asked_for,
}
use distributed_task_schedul.Api.Answers.{missing_id-statuses, handle_delete_job-handle_get_job}

abbrev quiet : Core (Database (Option Job))
quiet = record { world = empty_world; cron_jobs = [] }

minutely_valid : validate_request minutely_request ≡ ok tt
unfolding validate_request
minutely_valid = refl

handle_submit_job-Answered_example :
    let (st', h) =
      handle_submit_job plain_codec db plain_postgres stars
        (serving none)
        (pos 1000)
        8
        (ok minutely_request)
        quiet in
    Answered plain_codec db plain_postgres stars
      (ok minutely_request)
      (pos 1000)
      quiet
      st'
      (recover h)
handle_submit_job-Answered_example =
    handle_submit_job-Answered plain_codec db plain_postgres stars (serving none) (pos 1000) 8
      (ok minutely_request) quiet

handle_submit_job-unread_example :
    let (st', h) =
      handle_submit_job plain_codec db plain_postgres stars
        (serving none)
        (pos 1000)
        8
        (ok minutely_request)
        quiet in
    (recover h ≡ created_answer plain_codec db plain_postgres stars registered)
    × ((handle_get_job plain_postgres none (ok registered.id) st'.world.tables).status ≡ 500)
    × ((handle_get_job_status plain_postgres none (ok registered.id) st'.world.tables).status ≡ 500)
handle_submit_job-unread_example =
    handle_submit_job-unread plain_codec db plain_postgres stars (serving none) (pos 1000) 8
      minutely_request quiet 60000000000 (record minutely { cron_next_run = none }) minutely_valid
      refl next_minute cron_made cron_stored

missing_id-statuses_example :
    let k = serving none in
    let bad : Result ℕ = err (foreign "invalid UUID") in
    ((handle_get_job plain_postgres none bad empty_world.tables).status ≡ 400)
    × ((handle_get_job_status plain_postgres none bad empty_world.tables).status ≡ 400)
    × (handle_delete_job plain_codec db plain_postgres k bad empty_world
        ≡ (empty_world, render_error 400 "invalid job id"))
    × (handle_retry_job plain_codec db plain_postgres k (pos 1000) bad empty_world
        ≡ (empty_world, render_error 400 "invalid job id"))
    × (get_job plain_postgres none 7 empty_world.tables ≡ err err_job_not_found
        → let (deleted, removal) =
            handle_delete_job plain_codec db plain_postgres k (ok 7) empty_world in
          let (retried, retrial) =
            handle_retry_job plain_codec db plain_postgres k (pos 1000) (ok 7) empty_world in
          ((handle_get_job plain_postgres none (ok 7) empty_world.tables).status ≡ 404)
          × ((handle_get_job_status plain_postgres none (ok 7) empty_world.tables).status ≡ 404)
          × (removal.status ≡ 404)
          × (deleted ≡ empty_world)
          × (retrial.status ≡ 500)
          × (retried ≡ empty_world))
missing_id-statuses_example =
    missing_id-statuses plain_codec db plain_postgres (serving none) (pos 1000) 7
      (foreign "invalid UUID") empty_world

handle_delete_job-handle_get_job_example :
    let (w', answer) =
      handle_delete_job plain_codec db plain_postgres (serving none) (ok 8) done_world in
    (status_eq completed running ≡ true → (answer.status ≡ 500) × (w' ≡ done_world))
    × (status_eq completed running ≡ false
        → (answer ≡ header_only 204)
          × (handle_get_job plain_postgres none (ok 8) w'.tables ≡ render_error 404 "job not found")
          × (w'.queue ≡ done_world.queue))
handle_delete_job-handle_get_job_example =
    handle_delete_job-handle_get_job plain_codec db plain_postgres done_world done_job done_row
      done_read done_found

-- GET /jobs?limit=5, whatever else the parameters say.
abbrev five : String → Text
five s = 53 ∷ []

abbrev first_five : Query
first_five = record {
  status = "";
  job_type = "";
  priority = "";
  limit = "5";
  offset = "";
  worker_id = "";
  order = "";
}

five-listed :
    handle_list_jobs plain_postgres five as_stored none none first_five read_tables
    ≡ record { status = 200; body = page listed 1 (pos 5) (pos 0) }
unfolding handle_list_jobs list_jobs matches select page_limit page_offset collect_jobs scan_job
    known_status filter_of int_param atoi digits positive_int digits_from
five-listed = refl

handle_list_jobs-page_example :
    (l : ℕ) × (o : ℕ) × (pos 5 ≡ pos l)
    × (pos 0 ≡ pos o)
    × (pos 5 ≡ number_or five (number_in five (pos 1) (pos 1000) first_five.limit) (pos 100))
    × (pos 0 ≡ start_of five first_five.offset)
    × (1 ≤ l)
    × (l ≤ 1000)
    × (1 ≡ length (select (wanted five first_five) read_tables.jobs))
    × (map
          (scan_job plain_postgres)
          (take l (drop o (asked_for five as_stored first_five read_tables)))
        ≡ map ok listed)
    × (1 ≡ min l (1 - o))
handle_list_jobs-page_example =
    handle_list_jobs-page five plain_postgres as_stored first_five read_tables listed 1 (pos 5)
      (pos 0) (λ column desc rows. refl) five-listed
