-- ===== src/Scheduler/Scenarios.antt =====
-- Cron jobs and the delayed loop of the scheduler at concrete inputs.
use distributed_task_schedul.Scheduler.Recurring.{
  Core, register_cron_job, is_due, process_cron_jobs, cron_definition, cron_options,
}
use distributed_task_schedul.Models.Job.{
  Job, new_job, validate, with_priority, with_max_retries, with_timeout, with_cron,
}
use distributed_task_schedul.Store.Jobs.{create_job, accepts, row_of}
use distributed_task_schedul.Scheduler.Instances.{
  IsRegistered, kept, register_cron_job-IsRegistered, register_cron_job-done,
  process_cron_jobs-idle,
}
use distributed_task_schedul.Scheduler.Loops.{Shared, processor_key, process_delayed_jobs, calm}
use distributed_task_schedul.Prelude.{
  List, Option, pos, none, ◌≡◌, [], true, some, ◌∷◌, refl, false, arith, if◌then◌else◌,
}
use distributed_task_schedul.Lock.Exclusion.{lock_run, Event, acquires, elapses}
use distributed_task_schedul.Scheduler.Ticks.{
  HasMoved, process_delayed_jobs-excludes, process_delayed_jobs-HasMoved,
}
use distributed_task_schedul.Queue.Memory.{Database, plain_codec, empty_database, range_in}
use distributed_task_schedul.Lock.Examples.{Keys, keys_server, set_key, no_keys}
use distributed_task_schedul.Scheduler.Examples.{
  minutely, db, empty_world, stars, minutely_request, next_minute,
}
use distributed_task_schedul.Store.Tables.{columns_valid, is_known, cron_valid, find_row}
use distributed_task_schedul.Store.Examples.{plain_postgres}
use distributed_task_schedul.Errors.{ok}
use distributed_task_schedul.Scheduler.Jobs.{serving, replies}
use distributed_task_schedul.Queue.Redis.{zset_key_eq, delayed}

abbrev minute_0 : Core (Database (Option Job))
minute_0 = record { world = empty_world; cron_jobs = [] }

-- The job that RegisterCronJob makes of the request, due in minute 1.
abbrev pub registered : Job
registered = cron_definition 60000000000 (record minutely { cron_next_run = none })

abbrev pub minute_1 : Core (Database (Option Job))
minute_1 = kept plain_codec db plain_postgres stars (serving none) registered minute_0

pub cron_made :
    new_job 8 (pos 1000) "send-email" "{}" (cron_options minutely_request)
    ≡ ok (record minutely { cron_next_run = none })
unfolding new_job validate cron_options with_priority with_max_retries with_timeout with_cron
cron_made = refl

pub cron_stored : (create_job plain_postgres none registered minute_0.world.tables).1 ≡ none
unfolding create_job accepts columns_valid is_known cron_valid row_of find_row cron_definition
cron_stored = refl

cron_done :
    register_cron_job plain_codec db plain_postgres stars
      (serving none)
      (pos 1000)
      8
      minutely_request
      minute_0
    ≡ (minute_1, replies (ok registered))
cron_done =
    register_cron_job-done plain_codec db plain_postgres stars (serving none) (pos 1000) 8
      minutely_request minute_0 60000000000 (record minutely { cron_next_run = none }) refl
      next_minute cron_made cron_stored

register_cron_job-IsRegistered_example :
    IsRegistered plain_codec db plain_postgres stars
      (pos 1000)
      minutely_request
      registered
      minute_0
      minute_1
register_cron_job-IsRegistered_example =
    register_cron_job-IsRegistered plain_codec db plain_postgres stars (serving none) (pos 1000) 8
      minutely_request minute_0 minute_1 registered cron_done

-- In minute 2 the registered job is due.
minutely_due : is_due (pos 120000000000) registered ≡ true
unfolding is_due cron_definition
minutely_due = refl

process_cron_jobs-idle_example :
    process_cron_jobs plain_codec db plain_postgres stars
      (serving none)
      (pos 120000000000)
      (λ i. 9)
      minute_1
    ≡ (minute_1, false)
process_cron_jobs-idle_example =
    process_cron_jobs-idle plain_codec db plain_postgres stars (serving none) (pos 120000000000)
      (λ i. 9) minute_1

-- Another scheduler has the lock of the delayed loop; then it is free.
abbrev others_turn : Shared Keys (Database (Option Job))
others_turn = record {
  locks = set_key processor_key (some ("alice", 5000)) no_keys;
  queue = empty_database;
}

abbrev meanwhile : List Event
meanwhile = acquires "bob" processor_key 5000000000 ∷ elapses 4000 ∷ []

process_delayed_jobs-excludes_example :
    let after = record others_turn { locks = lock_run keys_server others_turn.locks meanwhile } in
    process_delayed_jobs plain_codec db keys_server calm (pos 1000) (ok "carol") after ≡ after
process_delayed_jobs-excludes_example =
    process_delayed_jobs-excludes plain_codec db keys_server calm (pos 1000) "alice" (ok "carol")
      meanwhile others_turn refl (refl, (refl, tt)) (omega arith)

-- Job 8 is due since millisecond 0, job 9 in an hour.
abbrev own_turn : Shared Keys (Database (Option Job))
own_turn = record {
  locks = no_keys;
  queue = record {
    texts = λ i. some (some (record minutely { id = i }));
    lives = λ i. 604800000;
    lists = λ l. [];
    sets = λ k. if zset_key_eq delayed k then (8, pos 0) ∷ (9, pos 3600000) ∷ [] else [];
  };
}

process_delayed_jobs-HasMoved_example :
    HasMoved plain_codec db keys_server
      (pos 1000)
      own_turn
      (process_delayed_jobs plain_codec db keys_server calm (pos 1000) (ok "carol") own_turn)
process_delayed_jobs-HasMoved_example =
    process_delayed_jobs-HasMoved plain_codec db keys_server (pos 1000) "carol" own_turn refl

-- Only job 8 is taken.
taken_now : db.range own_turn.queue delayed (pos 0) (pos 0) ≡ 8 ∷ []
unfolding zset_key_eq range_in
taken_now = refl
