-- ===== src/Worker/Failures.antt =====
-- What becomes of a job whose execution fails (internal/worker/pool.go).
use distributed_task_schedul.Prelude.{
  ℕ, ◌≡◌, String, Option, some, none, ◌∷◌, ℤ, false, if◌then◌else◌, [], Bool-cases, inl, inr, arith,
  refl, true, Option-cases,
}
use distributed_task_schedul.Queue.Redis.{Codec, Redis, dlq, ready, inflight}
use distributed_task_schedul.Store.Tables.{Postgres, is_known, Row, find_row, Tables}
use distributed_task_schedul.Errors.{Error, errorf}
use distributed_task_schedul.Queue.Operations.{nack, retried, buried, Outage}
use distributed_task_schedul.Worker.Execution.{
  handle_job_error, Calls, execute_job, status_after, World, error_text, run_with_recovery, Times,
}
use distributed_task_schedul.Worker.Registry.{Registry, get_handler}
use distributed_task_schedul.Models.Job.{Job, is_retryable}
use distributed_task_schedul.Store.Jobs.{
  with_worker_id, with_started_at, update_job_status, with_error_message,
}
use distributed_task_schedul.Models.Status.{status_eq, failed, dead_letter, running}
use distributed_task_schedul.Queue.Failure.{nack-again, nack-dead, nack-buries}
use distributed_task_schedul.Store.Trail.{update_job_status-writes, update_job_status-found}

module _ (c : Codec) (r : Redis c.Blob) (d : Postgres) (id_low : ℕ → ℕ)
    (text : Error → String) where
  open r use {items, get, score}

  retried-spent :
      (now : ℤ) (j : Job) (msg : String) → is_retryable (retried id_low now j msg) ≡ false
  unfolding retried is_retryable status_eq
  retried-spent now j msg = ground arith

  buried-spent : (j : Job) (msg : String) → is_retryable (buried j msg) ≡ false
  unfolding buried is_retryable status_eq
  buried-spent j msg = ground arith

  -- Neither a job that Nack requeues nor one that it buries counts as retryable afterwards.
  pub nack-spent :
      (pipe : Option Outage) (now : ℤ) (j : Job) (worker msg : String) (s : r.State)
      → is_retryable (nack c r id_low pipe now j worker msg s).1 ≡ false
  nack-spent pipe now j worker msg s = elim (Bool-cases (is_retryable j)) [
    | inl h ↦ rw (nack-again c r id_low pipe now j worker msg s h) (retried-spent now j msg)
    | inr h ↦ rw (nack-dead c r id_low pipe now j worker msg s h) (buried-spent j msg)
  ]

  status_after-spent :
      (j : Job) → is_retryable j ≡ false → status_after c r d id_low text j ≡ dead_letter
  unfolding status_after
  status_after-spent j h = rw h refl

  dead_letter-known : is_known dead_letter ≡ true
  unfolding is_known
  dead_letter-known = refl

  dead_letter-written :
      (now : ℤ) (i : ℕ) (msg : String) (t : Tables) (row : Row)
      → find_row i t.jobs ≡ some row
      → let t' = (update_job_status d none now i dead_letter (with_error_message msg ∷ []) t).0 in
        (row' : Row) × (find_row i t'.jobs ≡ some row')
        × (row'.status ≡ dead_letter)
        × (row'.error_message ≡ some msg)
  dead_letter-written now i msg t row h =
      let (row', found, status, message, _) =
        update_job_status-writes d now i dead_letter (with_error_message msg ∷ []) t row h
          dead_letter-known refl in
      (row', found, status, message)

  -- handleJobError leaves every failed job in the store as dead_letter, those too that Nack has put back into a ready queue, with the text of the context's error for a message.
  pub handle_job_error-dead_letter :
      (k : Calls) (j : Job) (exec_err : Option Error) (w : World r.State) (row : Row)
      → find_row j.id w.tables.jobs ≡ some row
      → let w' =
          handle_job_error c r d id_low text (record k { finish_failure = none }) j exec_err w in
        (row' : Row) × (find_row j.id w'.tables.jobs ≡ some row')
        × (row'.status ≡ dead_letter)
        × (row'.error_message ≡ some (error_text c r d id_low text exec_err))
  unfolding handle_job_error
  handle_job_error-dead_letter k j exec_err w row h =
      let msg = error_text c r d id_low text exec_err in
      let nacked = nack c r id_low k.queue_failure k.times.nacked j k.worker_id msg w.queue in
      let spent =
        status_after-spent nacked.1
          (nack-spent k.queue_failure k.times.nacked j k.worker_id msg w.queue) in
      rw spent (dead_letter-written k.times.end_update j.id msg w.tables row h)

  -- The calls of an execution in which Redis and PostgreSQL serve all that follows its start.
  abbrev pub served :
      (worker : String) → (times : Times) → (start_failure context_error : Option Error) → Calls
  served worker times start_failure context_error = record {
    worker_id = worker;
    times = times;
    start_failure = start_failure;
    queue_failure = none;
    finish_failure = none;
    context_error = context_error;
  }

  -- Whether the execution of a job fails, and the error that handleJobError is given.
  abbrev pub fails_with : Registry → (context_error : Option Error) → Job → Option (Option Error)
  fails_with handlers context_error j = elim (get_handler j.job_type handlers) [
    | none ↦ some (some (errorf "no handler registered for job type"))
    | some h ↦ if run_with_recovery h j then none else some context_error
  ]

  -- The world after the status update with which an execution begins.
  abbrev pub begun : Calls → Job → World r.State → World r.State
  begun k j w =
      let opts = with_worker_id k.worker_id ∷ with_started_at k.times.started ∷ [] in
      record w {
        tables =
            (update_job_status d k.start_failure k.times.start_update j.id running opts w.tables).0;
      }

  execute_job-fails :
      (handlers : Registry) (k : Calls) (j : Job) (exec_err : Option Error) (w : World r.State)
      → fails_with handlers k.context_error j ≡ some exec_err
      → execute_job c r d id_low text handlers k j w
        ≡ handle_job_error c r d id_low text k j exec_err (begun k j w)
  unfolding execute_job
  execute_job-fails handlers k j exec_err w h =
      elim (Option-cases (get_handler j.job_type handlers)) [
        | inl n ↦ ground (arith, n, h)
        | inr (g, n) ↦ elim (Bool-cases (run_with_recovery g j)) [
          | inl t ↦ ground (arith, n, t, h)
          | inr t ↦ ground (arith, n, t, h)
        ]
      ]

  waiting-spent : (j : Job) → status_eq j.status failed ≡ false → is_retryable j ≡ false
  unfolding is_retryable
  waiting-spent j h = ground (arith, h)

  begun-dead_letter :
      (worker : String) (times : Times) (start_failure context_error : Option Error) (j : Job)
      (exec_err : Option Error) (w : World r.State) (row : Row)
      → find_row j.id w.tables.jobs ≡ some row
      → let k = served worker times start_failure context_error in
        let w' = handle_job_error c r d id_low text k j exec_err (begun k j w) in
        (row' : Row) × (find_row j.id w'.tables.jobs ≡ some row') × (row'.status ≡ dead_letter)
  begun-dead_letter worker times start_failure context_error j exec_err w row h =
      let k = served worker times start_failure context_error in
      let opts = with_worker_id worker ∷ with_started_at times.started ∷ [] in
      let (row1, h1) =
        update_job_status-found d start_failure times.start_update j.id running opts w.tables j.id
          row h in
      let (row', found, status, _) =
        handle_job_error-dead_letter k j exec_err (begun k j w) row1 h1 in
      (row', found, status)

  -- A failed execution leaves dead_letter in the store.
  pub execute_job-dead_letter :
      (handlers : Registry) (worker : String) (times : Times)
      (start_failure context_error : Option Error) (j : Job) (exec_err : Option Error)
      (w : World r.State) (row : Row)
      → fails_with handlers context_error j ≡ some exec_err
      → find_row j.id w.tables.jobs ≡ some row
      → let k = served worker times start_failure context_error in
        let w' = execute_job c r d id_low text handlers k j w in
        (row' : Row) × (find_row j.id w'.tables.jobs ≡ some row') × (row'.status ≡ dead_letter)
  execute_job-dead_letter handlers worker times start_failure context_error j exec_err w row fl h =
      let k = served worker times start_failure context_error in
      rw (execute_job-fails handlers k j exec_err w fl)
        (begun-dead_letter worker times start_failure context_error j exec_err w row h)

  -- A job that is not marked as failed goes to the dead letters when its first execution fails, whatever retries it has left: it heads the dead-letter list, no ready queue changes, its in-flight entry is gone, and the store says dead_letter.
  pub execute_job-buries :
      (handlers : Registry) (worker : String) (times : Times)
      (start_failure context_error : Option Error) (j : Job) (exec_err : Option Error)
      (w : World r.State) (row : Row) (b : c.Blob)
      → status_eq j.status failed ≡ false
      → fails_with handlers context_error j ≡ some exec_err
      → find_row j.id w.tables.jobs ≡ some row
      → c.marshal (buried j (error_text c r d id_low text exec_err)) ≡ some b
      → let k = served worker times start_failure context_error in
        let w' = execute_job c r d id_low text handlers k j w in
        (items w'.queue dlq ≡ j.id ∷ items w.queue dlq)
        × ((p : ℤ) → items w'.queue (ready p) ≡ items w.queue (ready p))
        × (score w'.queue (inflight worker) j.id ≡ none)
        × ((row' : Row) × (find_row j.id w'.tables.jobs ≡ some row') × (row'.status ≡ dead_letter))
  unfolding handle_job_error
  execute_job-buries handlers worker times start_failure context_error j exec_err w row b st fl h
        m =
      let k = served worker times start_failure context_error in
      let msg = error_text c r d id_low text exec_err in
      let (_, _, dead, others, _, gone) =
        nack-buries c r id_low times.nacked j b worker msg w.queue (waiting-spent j st) m in
      let stored = begun-dead_letter worker times start_failure context_error j exec_err w row h in
      rw (execute_job-fails handlers k j exec_err w fl) (dead, others, gone, stored)
