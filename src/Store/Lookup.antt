-- ===== src/Store/Lookup.antt =====
-- What GetJob and the history see after CreateJob, UpdateJobStatus and DeleteJob
-- (internal/store/postgres.go).
use mathlib.Core.Option
use distributed_task_schedul.Prelude.{
  ℕ, ◌≡◌, Option, String, str_eq, none, ℤ, true, some, false, List, arith, Option-cases, inl, [],
  ◌==◌, inr, ==_refl, ◌++◌, ◌⊎◌, ap, refl, ◌||◌, ◌∷◌, Bool-cases,
}
use distributed_task_schedul.Store.Tables.{
  Postgres, cron_valid, Tables, Row, find_row, history_of, is_known,
}
use distributed_task_schedul.Store.Jobs.{
  accepts, create_job, update_job_status, delete_job, row_of, get_job, scan_job, updated_row,
  UpdateOpt, refused, options_of, coalesce, update_rows, log_change,
}
use distributed_task_schedul.Errors.{Error, err, wrap, err_job_not_found, ok, Result-cases}
use distributed_task_schedul.Models.Job.{Job}
use distributed_task_schedul.Models.Status.{JobStatus}
use distributed_task_schedul.Store.Rows.{
  find_row-delete, history_of-delete, find_row-append, find_row-update,
}

module _ (d : Postgres) where
  row_of-one_time :
      (j : Job) (payload : String)
      → str_eq j.cron_expression "" ≡ true
      → (t : Tables) → accepts d (row_of d j payload) t ≡ false
  unfolding accepts row_of cron_valid
  row_of-one_time j payload h t = ground (arith, h)

  create_job-refused :
      (j : Job) (t : Tables)
      → ((payload : String) → accepts d (row_of d j payload) t ≡ false)
      → create_job d none j t ≡ (t, some (wrap "insert job" refused))
  unfolding create_job
  create_job-refused j t h = elim (Option-cases (d.jsonb j.payload)) [
    | inl p ↦ rw (p, create_job) refl
    | inr (payload, p) ↦ rw (p, create_job, h payload) refl
  ]

  create_job-done :
      (j : Job) (t : Tables) (payload : String)
      → d.jsonb j.payload ≡ some payload
      → accepts d (row_of d j payload) t ≡ true
      → create_job d none j t ≡ (record t { jobs = t.jobs ++ (row_of d j payload ∷ []) }, none)
  unfolding create_job
  create_job-done j t payload p h = rw (p, create_job, h) refl

  pub create_job-cases :
      (j : Job) (t : Tables)
      → (create_job d none j t ≡ (t, some (wrap "insert job" refused)))
        ⊎ ((payload : String) × (d.jsonb j.payload ≡ some payload)
            × (accepts d (row_of d j payload) t ≡ true)
            × (create_job d none j t
                ≡ (record t { jobs = t.jobs ++ (row_of d j payload ∷ []) }, none)))
  unfolding create_job
  create_job-cases j t = elim (Option-cases (d.jsonb j.payload)) [
    | inl p ↦ inl (rw (p, create_job) refl)
    | inr (payload, p) ↦ elim (Bool-cases (accepts d (row_of d j payload) t)) [
      | inl h ↦ inr (payload, p, h, create_job-done j t payload p h)
      | inr h ↦ inl (rw (p, create_job, h) refl)
    ]
  ]

  -- CreateJob refuses every job that has no cron expression, and leaves the tables as they were: it writes the empty text where chk_cron_valid wants NULL.
  pub create_job-one_time :
      (failure : Option Error) (j : Job) (t : Tables)
      → str_eq j.cron_expression "" ≡ true
      → let (t', e) = create_job d failure j t in (t' ≡ t) × ((x : Error) × (e ≡ some x))
  unfolding create_job
  create_job-one_time (some e) j t h = (refl, (wrap "insert job" e, refl))
  create_job-one_time none j t h =
      let r = create_job-refused j t (λ payload. row_of-one_time j payload h t) in
      (ap (λ x. x.0) r, (wrap "insert job" refused, ap (λ x. x.1) r))

  pub accepts-absent :
      (row : Row) (t : Tables) → accepts d row t ≡ true → find_row row.id t.jobs ≡ none
  unfolding accepts
  accepts-absent row t h = elim (Option-cases (find_row row.id t.jobs)) [
    | inl e ↦ e
    | inr (x, e) ↦ ground (arith, e)
  ]

  scan_job-worker : (row : Row) → row.worker_id ≡ none → (e : Error) × (scan_job d row ≡ err e)
  unfolding scan_job
  scan_job-worker row h = elim (Result-cases (d.scan_text row.cron_expression)) [
    | inl (v, e) ↦ (d.scan_text-none.0, rw (e, h, d.scan_text-none.1) refl)
    | inr (x, e) ↦ (x, rw e refl)
  ]

  pub create_job-null :
      (j : Job) (t : Tables)
      → (create_job d none j t).1 ≡ none
      → (x : Error) × (get_job d none j.id (create_job d none j t).0 ≡ err (wrap "get job" x))
  unfolding get_job row_of
  create_job-null j t h = elim (create_job-cases j t) [
    | inl e ↦ cc (h, e)
    | inr (payload, p, a, e) ↦
        let row = row_of d j payload in
        let (x, unread) = scan_job-worker row refl in
        (
          x,
          rw
              (
                e,
                get_job,
                find_row-append row t.jobs j.id (accepts-absent row t a),
                ==_refl j.id,
                unread,
              )
              refl,
        )
  ]

  -- A job that CreateJob has stored cannot be read by GetJob before its status is updated: its worker and its message are NULL.
  pub create_job-unread :
      (j : Job) (t : Tables)
      → (create_job d none j t).1 ≡ none
      → (e : Error) × (get_job d none j.id (create_job d none j t).0 ≡ err e)
  create_job-unread j t h = let (x, e) = create_job-null j t h in (wrap "get job" x, e)

  abbrev job_of : Row → (cron worker message : String) → Job
  job_of row cron worker message = record {
    id = row.id;
    job_type = row.job_type;
    payload = row.payload;
    priority = row.priority;
    status = row.status;
    scheduled_at = row.scheduled_at;
    retry_count = row.retry_count;
    max_retries = row.max_retries;
    timeout = row.timeout_ms;
    cron_expression = cron;
    cron_next_run = row.cron_next_run;
    started_at = row.started_at;
    completed_at = row.completed_at;
    worker_id = worker;
    error_message = message;
    created_at = row.created_at;
    updated_at = row.updated_at;
  }

  scan_job-ok :
      (row : Row) (cron worker message : String)
      → row.cron_expression ≡ some cron
      → row.worker_id ≡ some worker
      → row.error_message ≡ some message
      → scan_job d row ≡ ok (job_of row cron worker message)
  unfolding scan_job
  scan_job-ok row cron worker message c w m =
      rw (c, w, m, d.scan_text-some cron, d.scan_text-some worker, d.scan_text-some message) refl

  -- UpdateJobStatus on a stored job, where the server takes the values.
  pub update_job_status-done :
      (now : ℤ) (i : ℕ) (status : JobStatus) (opts : List UpdateOpt) (t : Tables) (row : Row)
      → find_row i t.jobs ≡ some row
      → is_known status ≡ true
      → (str_eq (options_of opts).worker_id "" || d.fits 64 (options_of opts).worker_id) ≡ true
      → let change = updated_row d status (options_of opts) now in
        update_job_status d none now i status opts t ≡ (
          record t {
            jobs = update_rows change i t.jobs;
            history = t.history ++ log_change now row (change row);
          },
          none,
        )
  unfolding update_job_status
  update_job_status-done now i status opts t row h k f = rw (k, h, f) refl

  -- UpdateJobStatus of a stored job, with a worker and a status that the server takes, then GetJob, where no call fails: every field of the job is as it was stored, but for the new status, worker, message and times; a message that is not given is emptied, times that are not given stay.
  pub update_job_status-get_job :
      (now : ℤ) (i : ℕ) (status : JobStatus) (opts : List UpdateOpt) (t : Tables) (row : Row)
      (cron : String)
      → find_row i t.jobs ≡ some row
      → row.cron_expression ≡ some cron
      → is_known status ≡ true
      → str_eq (options_of opts).worker_id "" ≡ false
      → d.fits 64 (options_of opts).worker_id ≡ true
      → let o = options_of opts in
        let (t', e) = update_job_status d none now i status opts t in
        (e ≡ none)
        × ((j : Job) × (get_job d none i t' ≡ ok j)
            × (j.status ≡ status)
            × (j.worker_id ≡ o.worker_id)
            × (j.error_message ≡ o.error_message)
            × (j.started_at ≡ coalesce (Option.map d.timestamp o.started_at) row.started_at)
            × (j.completed_at ≡ coalesce (Option.map d.timestamp o.completed_at) row.completed_at)
            × (j.cron_expression ≡ cron)
            × (j.priority ≡ row.priority)
            × (j.retry_count ≡ row.retry_count)
            × (j.id ≡ row.id)
            × (j.job_type ≡ row.job_type)
            × (j.payload ≡ row.payload)
            × (j.scheduled_at ≡ row.scheduled_at)
            × (j.max_retries ≡ row.max_retries)
            × (j.timeout ≡ row.timeout_ms)
            × (j.cron_next_run ≡ row.cron_next_run)
            × (j.created_at ≡ row.created_at)
            × (j.updated_at ≡ now))
  unfolding get_job updated_row
  update_job_status-get_job now i status opts t row cron h hc k w f =
      let o = options_of opts in
      let change = updated_row d status o now in
      let done = update_job_status-done now i status opts t row h k (rw (w, f) refl) in
      let found = find_row-update change i t.jobs i (λ r. refl) in
      let scanned = scan_job-ok (change row) cron o.worker_id o.error_message hc (rw w refl) refl in
      (
        ap (λ x. x.1) done,
        (
          job_of (change row) cron o.worker_id o.error_message,
          rw (done, get_job, found, ==_refl i, h, scanned) refl,
          refl,
          refl,
          refl,
          refl,
          refl,
          refl,
          refl,
          refl,
          refl,
          refl,
          refl,
          refl,
          refl,
          refl,
          refl,
          refl,
          refl,
        ),
      )

  -- After DeleteJob of a stored job neither GetJob nor its history find it, and every other job keeps its row and its history.
  pub delete_job-removes :
      (i : ℕ) (t : Tables) (row : Row)
      → find_row i t.jobs ≡ some row
      → let (t', e) = delete_job none i t in
        (e ≡ none)
        × (get_job d none i t' ≡ err err_job_not_found)
        × (history_of i t'.history ≡ [])
        × ((k : ℕ)
            → (i == k) ≡ false
            → (find_row k t'.jobs ≡ find_row k t.jobs)
              × (history_of k t'.history ≡ history_of k t.history))
  unfolding delete_job get_job
  delete_job-removes i t row h =
      rw (h, delete_job)
        (
          refl,
          rw (get_job, find_row-delete i t.jobs i, ==_refl i) refl,
          simp (history_of-delete, ==_refl),
          λ k ne. (
            rw (find_row-delete i t.jobs k, ne) refl,
            rw (history_of-delete i t.history k, ne) refl,
          ),
        )
