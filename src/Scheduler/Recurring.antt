-- ===== src/Scheduler/Recurring.antt =====
-- RegisterCronJob, processCronJobs and scheduleCronInstance of Core (internal/scheduler/scheduler.go).
-- As in Jobs, `now` is the clock, from 1970 on, and uuid.New() an argument.
use distributed_task_schedul.Models.Job.{
  Job, JobOption, with_priority, with_max_retries, with_timeout, with_cron, new_job,
}
use distributed_task_schedul.Worker.Execution.{World}
use distributed_task_schedul.Prelude.{
  List, ℕ, ℤ, ◌∷◌, Option, Bool, some, if◌then◌else◌, none, pos, ◌==◌, false, String, [], ltb_ℤ,
  pos_part, true, str_eq,
}
use distributed_task_schedul.Scheduler.Jobs.{SubmitJobRequest, Failures, Reply, replies, panicked}
use distributed_task_schedul.Queue.Redis.{Codec, Redis}
use distributed_task_schedul.Store.Tables.{Postgres}
use distributed_task_schedul.Models.Status.{pending}
use distributed_task_schedul.Cron.Text.{Text}
use distributed_task_schedul.Cron.Schedule.{parse_cron, fails, at, crashes}
use distributed_task_schedul.Store.Jobs.{create_job}
use distributed_task_schedul.Errors.{err, wrap, errorf, ok}
use distributed_task_schedul.Queue.Operations.{enqueue}

-- What Core changes: its map of cron jobs, in the order in which a loop ranges over it, with the
-- queue and the tables.
pub record Core (S : Type 0) : Type 0 where
  pub world : World S
  pub cron_jobs : List Job

-- c.cronJobs[job.ID.String()] = job
unfoldable pub put_cron : Job → List Job → List Job
put_cron j [] = j ∷ []
put_cron j (k ∷ ks) = let rest = put_cron j ks in if k.id == j.id then j ∷ ks else k ∷ rest

unfoldable pub find_cron : ℕ → List Job → Option Job
find_cron id [] = none
find_cron id (k ∷ ks) = let rest = find_cron id ks in if k.id == id then some k else rest

-- The options that RegisterCronJob makes of a request.
unfoldable pub cron_options : SubmitJobRequest → List JobOption
cron_options req =
    with_priority req.priority
    ∷ with_max_retries req.max_retries
    ∷ with_timeout req.timeout
    ∷ with_cron req.cron
    ∷ []

-- Those that scheduleCronInstance makes of a cron job.
unfoldable pub instance_options : Job → List JobOption
instance_options j =
    with_priority j.priority ∷ with_max_retries j.max_retries ∷ with_timeout j.timeout ∷ []

-- job.CronNextRun != nil && job.CronNextRun.Before(now)
unfoldable pub is_due : (now : ℤ) → Job → Bool
is_due now j = elim j.cron_next_run [ none ↦ false | some next ↦ ltb_ℤ next now ]

-- The definition that RegisterCronJob stores.
unfoldable pub cron_definition : (next : ℕ) → Job → Job
cron_definition next j = record j { cron_next_run = some (pos next); status = pending }

module _ (c : Codec) (r : Redis c.Blob) (d : Postgres) (code_points : String → Text) where
  -- CreateJob and the registration in memory; the job is not enqueued.
  unfoldable pub keep_cron : Failures → Job → Core r.State → Core r.State × Reply Job
  keep_cron k j st =
      let (tables, e) = create_job d k.writing j st.world.tables in
      elim e [
        | some x ↦ (st, replies (err (wrap "persist cron job" x)))
        | none ↦ (
          record {
            world = record st.world { tables = tables };
            cron_jobs = put_cron j st.cron_jobs;
          },
          replies (ok j),
        )
      ]

  unfoldable pub register_cron_job :
      Failures → (now : ℤ) → ℕ → SubmitJobRequest → Core r.State → Core r.State × Reply Job
  unfolding keep_cron
  register_cron_job k now id req st =
      if str_eq req.cron ""
      then (st, replies (err (errorf "cron expression is required")))
      else elim (parse_cron (code_points req.cron) (pos_part now)) [
        | fails e ↦ (st, replies (err (wrap "invalid cron expression" e)))
        | crashes ↦ (st, panicked)
        | at next ↦ elim (new_job id now req.job_type req.payload (cron_options req)) [
          | err e ↦ (st, replies (err (wrap "create cron job" e)))
          | ok j ↦ keep_cron k (cron_definition next j) st
        ]
      ]

  -- After the instance has been stored and enqueued: the next run of its definition. True is a panic.
  unfoldable pub advance_cron : (now : ℤ) → Job → Core r.State → Core r.State × Bool
  advance_cron now j st = elim (parse_cron (code_points j.cron_expression) (pos_part now)) [
    | fails e ↦ (st, false)
    | crashes ↦ (st, true)
    | at next ↦ (
      record st {
        cron_jobs = put_cron (record j { cron_next_run = some (pos next) }) st.cron_jobs;
      },
      false,
    )
  ]

  -- True is a panic.
  unfoldable pub schedule_cron_instance :
      Failures → (now : ℤ) → ℕ → Job → Core r.State → Core r.State × Bool
  unfolding advance_cron
  schedule_cron_instance k now id j st =
      elim (new_job id now j.job_type j.payload (instance_options j)) [
        | err e ↦ (st, false)
        | ok made ↦
            let (tables, e) = create_job d k.writing made st.world.tables in
            let (queue, e') = enqueue c r k.sha k.full now made st.world.queue in
            elim e [
              | some x ↦ (st, false)
              | none ↦
                  let st' = record st { world = record { queue = queue; tables = tables } } in
                  elim e' [ some x ↦ (st', false) | none ↦ advance_cron now j st' ]
            ]
      ]

  -- One turn of the loop over the cron jobs.
  unfoldable pub cron_turn : Failures → (now : ℤ) → ℕ → Job → Core r.State → Core r.State × Bool
  cron_turn k now id j st =
      if is_due now j then schedule_cron_instance k now id j st else (st, false)

  -- The loop over the cron jobs; `ids` gives the UUID that is drawn for the instance of each.
  unfoldable pub run_due :
      Failures → (now : ℤ) → (ids : ℕ → ℕ) → List Job → Core r.State → Core r.State × Bool
  run_due k now ids [] st = (st, false)
  run_due k now ids (j ∷ js) st =
      let (st', crashed) = cron_turn k now (ids j.id) j st in
      elim crashed [ true ↦ (st', true) | false ↦ run_due k now ids js st' ]

  unfoldable pub process_cron_jobs :
      Failures → (now : ℤ) → (ids : ℕ → ℕ) → Core r.State → Core r.State × Bool
  unfolding run_due
  process_cron_jobs k now ids st = run_due k now ids st.cron_jobs st
