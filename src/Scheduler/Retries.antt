-- ===== src/Scheduler/Retries.antt =====
-- RetryJob and DeleteJob (internal/scheduler/scheduler.go) on a stored job.
use distributed_task_schedul.Prelude.{
  ◌≡◌, Option, ℤ, none, some, false, true, ◌∷◌, refl, [], ap, ==_refl, arith,
}
use distributed_task_schedul.Queue.Redis.{Codec, Redis, ready}
use distributed_task_schedul.Store.Tables.{Postgres, Row, find_row, is_known, Tables}
use distributed_task_schedul.Scheduler.Jobs.{retry_job, remove_job, reset_job, serving}
use distributed_task_schedul.Worker.Execution.{World}
use distributed_task_schedul.Errors.{Error, ok, err, err_job_not_found, errorf}
use distributed_task_schedul.Models.Job.{Job}
use distributed_task_schedul.Store.Jobs.{
  get_job, updated_row, update_job_status, options_of, delete_job,
}
use distributed_task_schedul.Models.Status.{status_eq, is_terminal, running, pending}
use distributed_task_schedul.Queue.Delivery.{enqueue-routes}
use distributed_task_schedul.Store.Lookup.{update_job_status-done, delete_job-removes}
use distributed_task_schedul.Queue.Operations.{enqueue}
use distributed_task_schedul.Store.Rows.{find_row-update}

module _ (c : Codec) (r : Redis c.Blob) (d : Postgres) where
  open r use {items, get}

  retry_job-refused :
      (sha : Option Error) (now : ℤ) (w : World r.State) (j : Job)
      → get_job d none j.id w.tables ≡ ok j
      → is_terminal j.status ≡ false
      → retry_job c r d (serving sha) now j.id w
        ≡ (w, some (errorf "job status does not allow retry"))
  unfolding retry_job
  retry_job-refused sha now w j g t = rw (retry_job, g, t) refl

  updated : ℤ → Row → Row
  updated now = updated_row d pending (options_of []) now

  pending_known : is_known pending ≡ true
  unfolding is_known
  pending_known = refl

  abbrev written : ℤ → Job → World r.State → Tables
  written now j w = (update_job_status d none now j.id pending [] w.tables).0

  written-done :
      (now : ℤ) (j : Job) (w : World r.State) (row : Row)
      → find_row j.id w.tables.jobs ≡ some row
      → ((update_job_status d none now j.id pending [] w.tables).1 ≡ none)
        × ((row' : Row) × (find_row j.id (written now j w).jobs ≡ some row')
            × (row'.status ≡ pending)
            × (row'.retry_count ≡ row.retry_count))
  unfolding updated_row
  written-done now j w row h =
      let change = updated_row d pending (options_of []) now in
      let done = update_job_status-done d now j.id pending [] w.tables row h pending_known refl in
      let found = find_row-update change j.id w.tables.jobs j.id (λ x. refl) in
      (
        ap (λ x. x.1) done,
        (change row, rw (written, done, found, ==_refl j.id, h) refl, refl, refl),
      )

  retry_job-taken :
      (sha : Option Error) (now : ℤ) (w : World r.State) (j : Job)
      → get_job d none j.id w.tables ≡ ok j
      → is_terminal j.status ≡ true
      → (update_job_status d none now j.id pending [] w.tables).1 ≡ none
      → (enqueue c r sha none now (reset_job now j) w.queue).1 ≡ none
      → retry_job c r d (serving sha) now j.id w ≡ (
        record {
          queue = (enqueue c r sha none now (reset_job now j) w.queue).0;
          tables = written now j w;
        },
        none,
      )
  unfolding retry_job
  retry_job-taken sha now w j g t e q = rw (retry_job, g, t, e, q) refl

  pub remove_job-refused :
      (w : World r.State) (j : Job)
      → get_job d none j.id w.tables ≡ ok j
      → status_eq j.status running ≡ true
      → remove_job c r d (serving none) j.id w ≡ (w, some (errorf "cannot delete a running job"))
  unfolding remove_job
  remove_job-refused w j g t = rw (remove_job, g, t) refl

  pub remove_job-done :
      (w : World r.State) (j : Job)
      → get_job d none j.id w.tables ≡ ok j
      → status_eq j.status running ≡ false
      → remove_job c r d (serving none) j.id w ≡ (
        record w { tables = (delete_job none j.id w.tables).0 },
        (delete_job none j.id w.tables).1,
      )
  unfolding remove_job
  remove_job-done w j g t = rw (remove_job, g, t) refl

  -- RetryJob of a job that GetJob can read and that can be written again, where the calls of the store and of the queue succeed, refuses a job that is not terminal, one that failed included, and takes one that is, a completed one included: it heads its ready queue, its text there says pending, due at once, no retries, no worker, no message and no times, and the store says pending, but keeps its count of retries.
  pub retry_job-terminal :
      (sha : Option Error) (now : ℤ) (w : World r.State) (j : Job) (row : Row) (b : c.Blob)
      → get_job d none j.id w.tables ≡ ok j
      → find_row j.id w.tables.jobs ≡ some row
      → c.marshal (record j {
        retry_count = 0;
        status = pending;
        error_message = "";
        worker_id = "";
        scheduled_at = now;
        started_at = none;
        completed_at = none;
      })
        ≡ some b
      → let (w', e) = retry_job c r d (serving sha) now j.id w in
        (is_terminal j.status ≡ false → (w' ≡ w) × ((x : Error) × (e ≡ some x)))
        × (is_terminal j.status ≡ true
            → (e ≡ none)
              × (items w'.queue (ready j.priority) ≡ j.id ∷ items w.queue (ready j.priority))
              × (get w'.queue j.id ≡ some b)
              × ((row' : Row) × (find_row j.id w'.tables.jobs ≡ some row')
                  × (row'.status ≡ pending)
                  × (row'.retry_count ≡ row.retry_count)))
  unfolding reset_job
  retry_job-terminal sha now w j row b g h m =
      let (updated, stored) = written-done now j w row h in
      let (sent, text, due, _) = enqueue-routes c r sha now (reset_job now j) b w.queue m in
      (
        λ t.
            rw (retry_job-refused sha now w j g t)
              (refl, (errorf "job status does not allow retry", refl)),
        λ t.
            rw (retry_job-taken sha now w j g t updated sent)
              (refl, (due (omega arith)).0, text, stored),
      )

  -- DeleteJob refuses a running job and changes nothing; any other stored job it removes from the store, while the queue keeps it.
  pub remove_job-running :
      (w : World r.State) (j : Job) (row : Row)
      → get_job d none j.id w.tables ≡ ok j
      → find_row j.id w.tables.jobs ≡ some row
      → let (w', e) = remove_job c r d (serving none) j.id w in
        (status_eq j.status running ≡ true → (w' ≡ w) × ((x : Error) × (e ≡ some x)))
        × (status_eq j.status running ≡ false
            → (e ≡ none)
              × (w'.queue ≡ w.queue)
              × (get_job d none j.id w'.tables ≡ err err_job_not_found))
  remove_job-running w j row g h =
      let (gone, missing, _, _) = delete_job-removes d j.id w.tables row h in
      (
        λ t. rw (remove_job-refused w j g t) (refl, (errorf "cannot delete a running job", refl)),
        λ t. rw (remove_job-done w j g t) (gone, refl, missing),
      )
