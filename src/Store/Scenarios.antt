-- ===== src/Store/Scenarios.antt =====
-- The audit trail at a concrete store (internal/store/postgres.go).
use mathlib.Core.List.{reverse}
use distributed_task_schedul.Prelude.{
  List, take, pos, drop, some, ◌∷◌, none, ◌≡◌, [], false, map, true, ◌≤◌, length, refl, ◌+◌,
}
use distributed_task_schedul.Store.Tables.{Tables, Entry, history_of, find_row, is_known}
use distributed_task_schedul.Store.History.{
  get_job_history, history_limit, collect_history, scan_history,
}
use distributed_task_schedul.Models.Status.{pending, running, cancelled, completed, other}
use distributed_task_schedul.Store.Examples.{stored, plain_postgres, nightly}
use distributed_task_schedul.Store.Audit.{has_null, shown, get_job_history-page}
use distributed_task_schedul.Errors.{ok, Error, err, wrap, foreign}
use distributed_task_schedul.Store.Reachable.{
  Write, updates, store_calls, creates, store_calls-IsSound, deletes, prunes,
}
use distributed_task_schedul.Store.Soundness.{IsSound}
use distributed_task_schedul.Store.Jobs.{with_worker_id}
use distributed_task_schedul.Store.Listing.{QueueStats, get_queue_stats}

-- Job 8 was started by a worker and completed; job 9 was cancelled before any worker had it.
abbrev entries : List Entry
entries =
    record {
      job_id = 8;
      old_status = pending;
      new_status = running;
      worker_id = some "w1";
      error_message = some "";
      retry_count = 0;
      scheduled_at = pos 1000;
      created_at = pos 6000;
    }
    ∷ record {
      job_id = 9;
      old_status = pending;
      new_status = cancelled;
      worker_id = none;
      error_message = some "";
      retry_count = 0;
      scheduled_at = pos 1000;
      created_at = pos 6500;
    }
    ∷ record {
      job_id = 8;
      old_status = running;
      new_status = completed;
      worker_id = some "w1";
      error_message = some "";
      retry_count = 0;
      scheduled_at = pos 1000;
      created_at = pos 7000;
    }
    ∷ []

abbrev audited : Tables
audited = record stored { history = entries }

abbrev newest_first : List Entry → List Entry
newest_first = reverse

get_job_history-page_example :
    let page =
      take (history_limit (pos 0)) (drop 0 (newest_first (history_of 8 audited.history))) in
    let answer = get_job_history plain_postgres newest_first none 8 (pos 0) (pos 0) audited in
    (has_null page ≡ false → answer ≡ ok (map shown page))
    × (has_null page ≡ true → (x : Error) × (answer ≡ err x))
    × (1 ≤ history_limit (pos 0))
    × (history_limit (pos 0) ≤ 1000)
    × (length page ≤ history_limit (pos 0))
get_job_history-page_example = get_job_history-page plain_postgres newest_first 8 (pos 0) 0 audited

-- The page of job 9 cannot be shown.
cancelled_unread :
    get_job_history plain_postgres newest_first none 9 (pos 0) (pos 0) audited
    ≡ err (wrap "scan history" (foreign "cannot scan NULL into *string"))
unfolding get_job_history history_of history_limit collect_history scan_history
cancelled_unread = refl

stored-IsSound : IsSound stored
unfolding find_row is_known
stored-IsSound = record { rows_sound = (refl, refl, tt); history_sound = tt }

-- Job 8 is started, a second CreateJob of it and an unknown status are refused, a job that is not there is deleted.
abbrev writes : List Write
writes =
    updates none (pos 6000) 8 running (with_worker_id "w1" ∷ [])
    ∷ creates none nightly
    ∷ updates none (pos 6500) 8 (other "paused") []
    ∷ deletes none 9
    ∷ updates none (pos 7000) 8 completed []
    ∷ prunes none (pos 8000) (pos 60)
    ∷ []

store_calls-IsSound_example :
    IsSound (store_calls plain_postgres stored writes)
    × ((stats : QueueStats)
        → get_queue_stats (λ ds. none) none (store_calls plain_postgres stored writes) ≡ ok stats
        → stats.pending_count + stats.running_count + stats.completed_count + stats.failed_count
            + stats.dead_letter_count + stats.cancelled_count
          ≡ stats.total)
store_calls-IsSound_example =
    store_calls-IsSound plain_postgres (λ ds. none) writes stored stored-IsSound
