-- ===== src/Scheduler/Instances.antt =====
-- Cron jobs from their registration to their instances (internal/scheduler/scheduler.go).
use distributed_task_schedul.Scheduler.Recurring.{
  find_cron, put_cron, instance_options, schedule_cron_instance, run_due, process_cron_jobs,
  register_cron_job, keep_cron, cron_options, Core, is_due, cron_definition, cron_turn,
}
use distributed_task_schedul.Queue.Redis.{Codec, Redis}
use distributed_task_schedul.Models.Job.{
  Job, with_priority, with_max_retries, with_timeout, new_job, with_cron,
}
use distributed_task_schedul.Store.Tables.{Postgres, Tables}
use distributed_task_schedul.Prelude.{
  List, String, ℕ, ◌≡◌, ℤ, if◌then◌else◌, ◌==◌, false, ◌∷◌, some, Bool-cases, ◌∙◌, none, pos_part,
  arith, inr, [], refl, str_eq, inl, ◌⊎◌, pos, true, sym, eq_iff, ap, Option-cases, subst, pair_eq,
}
use distributed_task_schedul.Cron.Text.{Text}
use distributed_task_schedul.Scheduler.Jobs.{Failures, SubmitJobRequest, replies, panicked}
use distributed_task_schedul.Errors.{Error, Result-cases, ok, err, wrap, errorf}
use distributed_task_schedul.Store.Jobs.{create_job}
use distributed_task_schedul.Cron.Schedule.{parse_cron, at, Next-cases}
use distributed_task_schedul.Models.Valid.{new_job-options}
use distributed_task_schedul.Store.Lookup.{create_job-one_time}
use distributed_task_schedul.Scheduler.Submission.{IsStored, create_job-IsStored, same_job}

pub find_cron-put_cron :
    (j : Job) (ks : List Job) (id : ℕ)
    → find_cron id (put_cron j ks) ≡ (if j.id == id then some j else find_cron id ks)
unfolding find_cron put_cron
find_cron-put_cron j [] id = refl
find_cron-put_cron j (k ∷ ks) id = ground (arith, find_cron-put_cron j ks id)

module _ (c : Codec) (r : Redis c.Blob) (d : Postgres) (code_points : String → Text) where
  -- The options of an instance leave its cron expression empty.
  instance-cron :
      (id : ℕ) (now : ℤ) (j made : Job)
      → new_job id now j.job_type j.payload (instance_options j) ≡ ok made
      → str_eq made.cron_expression "" ≡ true
  unfolding instance_options with_priority with_max_retries with_timeout
  instance-cron id now j made e =
      let same = new_job-options id now j.job_type j.payload (instance_options j) e in
      (eq_iff made.cron_expression "").1 (sym (ap (λ x. x.cron_expression) same))

  schedule-refused :
      (k : Failures) (now : ℤ) (id : ℕ) (j made : Job) (st : Core r.State) (x : Error)
      → new_job id now j.job_type j.payload (instance_options j) ≡ ok made
      → (create_job d k.writing made st.world.tables).1 ≡ some x
      → schedule_cron_instance c r d code_points k now id j st ≡ (st, false)
  unfolding schedule_cron_instance
  schedule-refused k now id j made st x e f = rw (schedule_cron_instance, e, f) refl

  -- No instance is stored: chk_cron_valid refuses it.
  schedule-idle :
      (k : Failures) (now : ℤ) (id : ℕ) (j : Job) (st : Core r.State)
      → schedule_cron_instance c r d code_points k now id j st ≡ (st, false)
  unfolding schedule_cron_instance
  schedule-idle k now id j st =
      elim (Result-cases (new_job id now j.job_type j.payload (instance_options j))) [
        | inr (x, e) ↦ rw (schedule_cron_instance, e) refl
        | inl (made, e) ↦
            let empty = instance-cron id now j made e in
            let (x, f) = (create_job-one_time d k.writing made st.world.tables empty).1 in
            schedule-refused k now id j made st x e f
      ]

  cron_turn-idle :
      (k : Failures) (now : ℤ) (id : ℕ) (j : Job) (st : Core r.State)
      → cron_turn c r d code_points k now id j st ≡ (st, false)
  unfolding cron_turn
  cron_turn-idle k now id j st = elim (Bool-cases (is_due now j)) [
    | inl e ↦ rw e (schedule-idle k now id j st)
    | inr e ↦ rw e refl
  ]

  run_due-idle :
      (k : Failures) (now : ℤ) (ids : ℕ → ℕ) (js : List Job) (st : Core r.State)
      → run_due c r d code_points k now ids js st ≡ (st, false)
  unfolding run_due
  run_due-idle k now ids [] st = refl
  run_due-idle k now ids (j ∷ js) st =
      let idle = cron_turn-idle k now (ids j.id) j st in
      rw (run_due, idle, idle) (run_due-idle k now ids js st)

  -- On the shipped schema the cron loop never runs a cron job: whatever is registered and due, a round of it leaves the queue, the store and the next run times as they are.
  pub process_cron_jobs-idle :
      (k : Failures) (now : ℤ) (ids : ℕ → ℕ) (st : Core r.State)
      → process_cron_jobs c r d code_points k now ids st ≡ (st, false)
  unfolding process_cron_jobs
  process_cron_jobs-idle k now ids st = run_due-idle k now ids st.cron_jobs st

  register-cases :
      (k : Failures) (now : ℤ) (id : ℕ) (req : SubmitJobRequest) (st : Core r.State)
      → ((x : Error) × (register_cron_job c r d code_points k now id req st
            ≡ (st, replies (err x))))
        ⊎ ((register_cron_job c r d code_points k now id req st ≡ (st, panicked))
            ⊎ ((t : ℕ) × (made : Job) × (parse_cron (code_points req.cron) (pos_part now) ≡ at t)
                × (new_job id now req.job_type req.payload (cron_options req) ≡ ok made)
                × (register_cron_job c r d code_points k now id req st
                    ≡ keep_cron c r d code_points k (cron_definition t made) st)))
  unfolding register_cron_job
  register-cases k now id req st = elim (Bool-cases (str_eq req.cron "")) [
    | inl b ↦ inl (errorf "cron expression is required", rw (register_cron_job, b) refl)
    | inr b ↦ elim (Next-cases (parse_cron (code_points req.cron) (pos_part now))) [
      | inr (inl (x, n)) ↦ inl (wrap "invalid cron expression" x, rw (register_cron_job, b, n) refl)
      | inr (inr n) ↦ inr (inl (rw (register_cron_job, b, n) refl))
      | inl (t, n) ↦
          elim (Result-cases (new_job id now req.job_type req.payload (cron_options req))) [
            | inr (x, e) ↦ inl (wrap "create cron job" x, rw (register_cron_job, b, n, e) refl)
            | inl (made, e) ↦ inr (inr (t, made, n, e, rw (register_cron_job, b, n, e) refl))
          ]
    ]
  ]

  keep_cron-failed :
      (k : Failures) (j : Job) (st : Core r.State) (x : Error)
      → (create_job d k.writing j st.world.tables).1 ≡ some x
      → keep_cron c r d code_points k j st ≡ (st, replies (err (wrap "persist cron job" x)))
  unfolding keep_cron
  keep_cron-failed k j st x e = rw (keep_cron, e) refl

  abbrev pub kept : Failures → Job → Core r.State → Core r.State
  kept k j st = record {
    world = record st.world { tables = (create_job d k.writing j st.world.tables).0 };
    cron_jobs = put_cron j st.cron_jobs;
  }

  keep_cron-done :
      (k : Failures) (j : Job) (st : Core r.State)
      → (create_job d k.writing j st.world.tables).1 ≡ none
      → keep_cron c r d code_points k j st ≡ (kept k j st, replies (ok j))
  unfolding keep_cron
  keep_cron-done k j st e = rw (keep_cron, e) refl

  definition-options :
      (id : ℕ) (now : ℤ) (req : SubmitJobRequest) (made : Job)
      → new_job id now req.job_type req.payload (cron_options req) ≡ ok made
      → (made.cron_expression ≡ req.cron) × (made.id ≡ id)
  unfolding cron_options with_priority with_max_retries with_timeout with_cron
  definition-options id now req made e =
      let same = new_job-options id now req.job_type req.payload (cron_options req) e in
      (sym (ap (λ x. x.cron_expression) same), sym (ap (λ x. x.id) same))

  -- What RegisterCronJob has done when it answers with a job.
  pub record IsRegistered (now : ℤ) (req : SubmitJobRequest) (j : Job) (st st' : Core r.State)
      : Type 0 where
    pub next : ℕ
    pub parsed : parse_cron (code_points req.cron) (pos_part now) ≡ at next
    pub due_next : j.cron_next_run ≡ some (pos next)
    pub expression : j.cron_expression ≡ req.cron
    pub stored : IsStored c r d code_points j st'.world.tables
    pub created : (create_job d none j st.world.tables ≡ (st'.world.tables, none))
    pub queue_kept : st'.world.queue ≡ st.world.queue
    pub registered :
        (i : ℕ)
        → find_cron i st'.cron_jobs ≡ (if j.id == i then some j else find_cron i st.cron_jobs)

  create_job-reached :
      (k : Failures) (j : Job) (t : Tables)
      → (create_job d k.writing j t).1 ≡ none
      → create_job d none j t ≡ ((create_job d k.writing j t).0, none)
  unfolding create_job
  create_job-reached k j t e = elim (Option-cases k.writing) [
    | inl w ↦ rw w (rw w at (pair_eq (create_job d k.writing j t) e))
    | inr (x, w) ↦ cc (e, w)
  ]

  kept-IsRegistered :
      (k : Failures) (now : ℤ) (id : ℕ) (req : SubmitJobRequest) (t : ℕ) (made : Job)
      (st : Core r.State)
      → parse_cron (code_points req.cron) (pos_part now) ≡ at t
      → new_job id now req.job_type req.payload (cron_options req) ≡ ok made
      → (create_job d k.writing (cron_definition t made) st.world.tables).1 ≡ none
      → IsRegistered now req (cron_definition t made) st (kept k (cron_definition t made) st)
  unfolding cron_definition
  kept-IsRegistered k now id req t made st n e f = record {
    next = t;
    parsed = n;
    due_next = refl;
    expression = (definition-options id now req made e).0;
    stored =
        create_job-IsStored c r d code_points k.writing (cron_definition t made) st.world.tables f;
    created = create_job-reached k (cron_definition t made) st.world.tables f;
    queue_kept = refl;
    registered = find_cron-put_cron (cron_definition t made) st.cron_jobs;
  }

  -- A job that RegisterCronJob answers with is stored and registered in memory with the expression of the request and the first time that it matches; it is in no queue, and every other registration is kept.
  pub register_cron_job-IsRegistered :
      (k : Failures) (now : ℤ) (id : ℕ) (req : SubmitJobRequest) (st st' : Core r.State) (j : Job)
      → register_cron_job c r d code_points k now id req st ≡ (st', replies (ok j))
      → IsRegistered now req j st st'
  register_cron_job-IsRegistered k now id req st st' j h = elim (register-cases k now id req st) [
    | inl (x, e) ↦ cc (h, e)
    | inr (inl e) ↦ cc (h, e)
    | inr (inr (t, made, n, m, e)) ↦
        let def = cron_definition t made in
        elim (Option-cases (create_job d k.writing def st.world.tables).1) [
          | inr (x, f) ↦ cc (h, e, keep_cron-failed k def st x f)
          | inl f ↦
              let ends = sym (e ∙ keep_cron-done k def st f) ∙ h in
              subst (λ x. IsRegistered now req j st x) (ap (λ x. x.0) ends)
                (subst (λ x. IsRegistered now req x st (kept k def st))
                  (same_job c r d code_points def j (ap (λ x. x.1) ends))
                  (kept-IsRegistered k now id req t made st n m f))
        ]
  ]

  pub register_cron_job-cases :
      (k : Failures) (now : ℤ) (id : ℕ) (req : SubmitJobRequest) (st : Core r.State)
      → let done = register_cron_job c r d code_points k now id req st in
        ((x : Error) × (done ≡ (st, replies (err x))))
        ⊎ ((done ≡ (st, panicked))
            ⊎ ((j : Job) × (st' : Core r.State) × (done ≡ (st', replies (ok j)))))
  register_cron_job-cases k now id req st = elim (register-cases k now id req st) [
    | inl (x, e) ↦ inl (x, e)
    | inr (inl e) ↦ inr (inl e)
    | inr (inr (t, made, n, m, e)) ↦
        let def = cron_definition t made in
        elim (Option-cases (create_job d k.writing def st.world.tables).1) [
          | inr (x, f) ↦ inl (wrap "persist cron job" x, e ∙ keep_cron-failed k def st x f)
          | inl f ↦ inr (inr (def, kept k def st, e ∙ keep_cron-done k def st f))
        ]
  ]

  pub register_cron_job-done :
      (k : Failures) (now : ℤ) (id : ℕ) (req : SubmitJobRequest) (st : Core r.State) (t : ℕ)
      (made : Job)
      → str_eq req.cron "" ≡ false
      → parse_cron (code_points req.cron) (pos_part now) ≡ at t
      → new_job id now req.job_type req.payload (cron_options req) ≡ ok made
      → (create_job d k.writing (cron_definition t made) st.world.tables).1 ≡ none
      → register_cron_job c r d code_points k now id req st
        ≡ (kept k (cron_definition t made) st, replies (ok (cron_definition t made)))
  unfolding register_cron_job
  register_cron_job-done k now id req st t made h n m w =
      rw (register_cron_job, h, n, m) (keep_cron-done k (cron_definition t made) st w)
