-- ===== src/Scheduler/Submission.antt =====
-- What SubmitJob does with one-time jobs and with jobs that it accepts
-- (internal/scheduler/scheduler.go).
use distributed_task_schedul.Prelude.{
  refl, ℕ, ◌≡◌, String, ℤ, str_eq, true, some, inr, inl, Option-cases, eq_iff, sym, ap, ◌∙◌, ◌⊎◌,
  Bool-cases, Option, none, pos_part, pos, ==_refl, subst,
}
use distributed_task_schedul.Queue.Redis.{Codec, Redis}
use distributed_task_schedul.Store.Tables.{Postgres, Row, find_row, Tables}
use distributed_task_schedul.Cron.Text.{Text}
use distributed_task_schedul.Models.Job.{
  new_job, with_priority, with_max_retries, Job, with_timeout, with_scheduled_at, apply_options,
  default_job,
}
use distributed_task_schedul.Scheduler.Jobs.{
  persist, submit_job, request_options, Failures, SubmitJobRequest, replies, panicked,
}
use distributed_task_schedul.Worker.Execution.{World}
use distributed_task_schedul.Errors.{ok, Error, err, Result-cases, wrap}
use distributed_task_schedul.Store.Lookup.{create_job-one_time, create_job-cases, accepts-absent}
use distributed_task_schedul.Models.Valid.{new_job-options}
use distributed_task_schedul.Store.Jobs.{create_job, row_of}
use distributed_task_schedul.Cron.Schedule.{Next-cases, parse_cron}
use distributed_task_schedul.Store.Rows.{find_row-append}
use distributed_task_schedul.Queue.Operations.{enqueue}

module _ (c : Codec) (r : Redis c.Blob) (d : Postgres) (code_points : String → Text) where
  -- The options of a request without a cron expression leave that of a job empty.
  request_options-cron :
      (req : SubmitJobRequest) (made : Job)
      → str_eq req.cron "" ≡ true
      → (apply_options made (request_options req)).cron_expression ≡ made.cron_expression
  unfolding request_options with_priority with_max_retries with_timeout with_scheduled_at
  request_options-cron req made h = elim (Option-cases req.scheduled_at) [
    | inl n ↦ rw (request_options, n, h) refl
    | inr (t, n) ↦ rw (request_options, n, h) refl
  ]

  new_job-cron :
      (id : ℕ) (now : ℤ) (req : SubmitJobRequest) (j : Job)
      → str_eq req.cron "" ≡ true
      → new_job id now req.job_type req.payload (request_options req) ≡ ok j
      → str_eq j.cron_expression "" ≡ true
  new_job-cron id now req j h e =
      let made = default_job id now req.job_type req.payload in
      let same = new_job-options id now req.job_type req.payload (request_options req) e in
      (eq_iff j.cron_expression "").1
        (sym (ap (λ x. x.cron_expression) same) ∙ request_options-cron req made h)

  persist-refused :
      (k : Failures) (now : ℤ) (j : Job) (w : World r.State)
      → str_eq j.cron_expression "" ≡ true
      → (x : Error) × (persist c r d k now j w ≡ (w, replies (err x)))
  unfolding persist
  persist-refused k now j w h =
      let (x, e) = (create_job-one_time d k.writing j w.tables h).1 in
      (wrap "persist job" x, rw (persist, e) refl)

  -- On the shipped schema SubmitJob answers every request without a cron expression with an error, and changes neither the store nor the queue.
  pub submit_job-one_time :
      (k : Failures) (now : ℤ) (id : ℕ) (req : SubmitJobRequest) (w : World r.State)
      → str_eq req.cron "" ≡ true
      → (x : Error) × (submit_job c r d code_points k now id req w ≡ (w, replies (err x)))
  unfolding submit_job
  submit_job-one_time k now id req w h =
      elim (Result-cases (new_job id now req.job_type req.payload (request_options req))) [
        | inr (x, e) ↦ (wrap "create job" x, rw (submit_job, e) refl)
        | inl (j, e) ↦
            let (x, p) = persist-refused k now j w (new_job-cron id now req j h e) in
            (x, rw (submit_job, e, h) p)
      ]

  submit_job-cases :
      (k : Failures) (now : ℤ) (id : ℕ) (req : SubmitJobRequest) (w : World r.State)
      → ((x : Error) × (submit_job c r d code_points k now id req w ≡ (w, replies (err x))))
        ⊎ ((submit_job c r d code_points k now id req w ≡ (w, panicked))
            ⊎ ((made : Job) × (submit_job c r d code_points k now id req w
                  ≡ persist c r d k now made w)))
  unfolding submit_job
  submit_job-cases k now id req w =
      elim (Result-cases (new_job id now req.job_type req.payload (request_options req))) [
        | inr (x, e) ↦ inl (wrap "create job" x, rw (submit_job, e) refl)
        | inl (j, e) ↦ elim (Bool-cases (str_eq req.cron "")) [
          | inl b ↦ inr (inr (j, rw (submit_job, e, b) refl))
          | inr b ↦ elim (Next-cases (parse_cron (code_points req.cron) (pos_part now))) [
            | inl (t, n) ↦
                inr (inr (record j { cron_next_run = some (pos t) }, rw (submit_job, e, b, n) refl))
            | inr (inl (x, n)) ↦ inl (wrap "parse cron" x, rw (submit_job, e, b, n) refl)
            | inr (inr n) ↦ inr (inl (rw (submit_job, e, b, n) refl))
          ]
        ]
      ]

  -- The store has the row of a job.
  abbrev pub IsStored : Job → Tables → Type 0
  IsStored j t =
      (row : Row) × (find_row j.id t.jobs ≡ some row)
      × (row.status ≡ j.status)
      × (row.max_retries ≡ j.max_retries)
      × (row.timeout_ms ≡ j.timeout)

  pub create_job-IsStored :
      (failure : Option Error) (j : Job) (t : Tables)
      → (create_job d failure j t).1 ≡ none
      → IsStored j (create_job d failure j t).0
  unfolding create_job row_of
  create_job-IsStored (some e) j t h = cc
  create_job-IsStored none j t h = elim (create_job-cases d j t) [
    | inl e ↦ cc (h, e)
    | inr (payload, _, a, e) ↦
        let row = row_of d j payload in
        let found = find_row-append row t.jobs j.id (accepts-absent d row t a) in
        (row, rw (e, found, ==_refl j.id) refl, refl, refl, refl)
  ]

  persist-failed :
      (k : Failures) (now : ℤ) (made : Job) (w : World r.State) (x : Error)
      → (create_job d k.writing made w.tables).1 ≡ some x
      → persist c r d k now made w ≡ (w, replies (err (wrap "persist job" x)))
  unfolding persist
  persist-failed k now made w x e = rw (persist, e) refl

  persist-done :
      (k : Failures) (now : ℤ) (made : Job) (w : World r.State)
      → (create_job d k.writing made w.tables).1 ≡ none
      → persist c r d k now made w ≡ (
        record {
          queue = (enqueue c r k.sha k.full now made w.queue).0;
          tables = (create_job d k.writing made w.tables).0;
        },
        replies (ok made),
      )
  unfolding persist
  persist-done k now made w e = rw (persist, e) refl

  pub same_job : (a b : Job) → replies (ok a) ≡ replies (ok b) → a ≡ b
  same_job a b h = cc

  persist-IsStored :
      (k : Failures) (now : ℤ) (made : Job) (w w' : World r.State) (j : Job)
      → persist c r d k now made w ≡ (w', replies (ok j))
      → IsStored j w'.tables
  persist-IsStored k now made w w' j h =
      elim (Option-cases (create_job d k.writing made w.tables).1) [
        | inr (x, e) ↦ cc (h, persist-failed k now made w x e)
        | inl e ↦
            let ends = sym (persist-done k now made w e) ∙ h in
            subst (λ x. IsStored j x) (ap (λ x. x.0.tables) ends)
              (subst (λ x. IsStored x (create_job d k.writing made w.tables).0)
                (same_job made j (ap (λ x. x.1) ends))
                (create_job-IsStored k.writing made w.tables e))
      ]

  -- A job that SubmitJob answers with has been stored, with its status, its max_retries and its timeout, even if it could not be enqueued.
  pub submit_job-IsStored :
      (k : Failures) (now : ℤ) (id : ℕ) (req : SubmitJobRequest) (w w' : World r.State) (j : Job)
      → submit_job c r d code_points k now id req w ≡ (w', replies (ok j))
      → IsStored j w'.tables
  submit_job-IsStored k now id req w w' j h = elim (submit_job-cases k now id req w) [
    | inl (x, e) ↦ cc (h, e)
    | inr (inl e) ↦ cc (h, e)
    | inr (inr (made, e)) ↦ persist-IsStored k now made w w' j (sym e ∙ h)
  ]
