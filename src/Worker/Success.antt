-- ===== src/Worker/Success.antt =====
-- What becomes of a job whose execution succeeds (internal/worker/pool.go).
use distributed_task_schedul.Prelude.{
  ℕ, ◌≡◌, String, true, refl, Option, some, none, ◌∷◌, [], ==_refl,
}
use distributed_task_schedul.Queue.Redis.{Codec, Redis, inflight, ListKey, zset_key_eq_refl}
use distributed_task_schedul.Store.Tables.{Postgres, is_known, Row, find_row}
use distributed_task_schedul.Errors.{Error}
use distributed_task_schedul.Worker.Execution.{
  execute_job, handle_job_success, Calls, run_with_recovery, World, Times,
}
use distributed_task_schedul.Models.Status.{completed, running}
use distributed_task_schedul.Worker.Registry.{Registry, JobHandler, get_handler, returns}
use distributed_task_schedul.Queue.Operations.{acknowledge}
use distributed_task_schedul.Models.Job.{Job}
use distributed_task_schedul.Worker.Failures.{begun, served}
use distributed_task_schedul.Store.Jobs.{with_worker_id, with_started_at, with_completed_at}
use distributed_task_schedul.Store.Trail.{update_job_status-found, update_job_status-writes}

module _ (c : Codec) (r : Redis c.Blob) (d : Postgres) (id_low : ℕ → ℕ)
    (text : Error → String) where
  open r use {items, get, score}

  completed-known : is_known completed ≡ true
  unfolding is_known
  completed-known = refl

  execute_job-done :
      (handlers : Registry) (k : Calls) (j : Job) (w : World r.State) (h : JobHandler)
      → get_handler j.job_type handlers ≡ some h
      → run_with_recovery h j ≡ true
      → execute_job c r d id_low text handlers k j w
        ≡ handle_job_success c r d id_low text k j (begun c r d id_low text k j w)
  unfolding execute_job
  execute_job-done handlers k j w h n t = rw (execute_job, n, t) refl

  -- A job whose handler returns no error: its text and its in-flight entry are gone, no list of the queue changes, and the store says completed, with the time.
  pub execute_job-completes :
      (handlers : Registry) (worker : String) (times : Times)
      (start_failure context_error : Option Error) (j : Job) (w : World r.State) (row : Row)
      (h : JobHandler)
      → get_handler j.job_type handlers ≡ some h
      → h.execute j ≡ returns none
      → find_row j.id w.tables.jobs ≡ some row
      → let k = served c r d id_low text worker times start_failure context_error in
        let w' = execute_job c r d id_low text handlers k j w in
        (get w'.queue j.id ≡ none)
        × (score w'.queue (inflight worker) j.id ≡ none)
        × ((l : ListKey) → items w'.queue l ≡ items w.queue l)
        × ((row' : Row) × (find_row j.id w'.tables.jobs ≡ some row')
            × (row'.status ≡ completed)
            × (row'.completed_at ≡ some (d.timestamp times.ended)))
  unfolding handle_job_success acknowledge run_with_recovery
  execute_job-completes handlers worker times start_failure context_error j w row h g e f =
      let k = served c r d id_low text worker times start_failure context_error in
      let opts = with_worker_id worker ∷ with_started_at times.started ∷ [] in
      let (row1, h1) =
        update_job_status-found d start_failure times.start_update j.id running opts w.tables j.id
          row f in
      let b = begun c r d id_low text k j w in
      let (row', found, status, _, at) =
        update_job_status-writes d times.end_update j.id completed
          (with_completed_at times.ended ∷ []) b.tables row1 h1 completed-known refl in
      rw (execute_job-done handlers k j w h g (rw (run_with_recovery, e) refl)) (
        simp (r.get-zrem, r.get-del, ==_refl),
        simp (r.score-zrem, zset_key_eq_refl, ==_refl),
        λ l. simp (r.items-zrem, r.items-del),
        (row', found, status, at),
      )
