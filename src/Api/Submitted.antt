-- ===== src/Api/Submitted.antt =====
-- What handleSubmitJob answers, and what the client reads afterwards (internal/scheduler/api.go).
use distributed_task_schedul.Queue.Redis.{Codec, Redis}
use distributed_task_schedul.Store.Tables.{Postgres, Tables}
use distributed_task_schedul.Prelude.{
  String, ℤ, ℕ, ◌≡◌, str_eq, false, true, ◌⊎◌, inl, inr, Bool-cases, refl, ◌∙◌, pos_part, none, ap,
  subst,
}
use distributed_task_schedul.Cron.Text.{Text}
use distributed_task_schedul.Models.Job.{Job, new_job}
use distributed_task_schedul.Api.Handlers.{
  dispatch_request, handle_submit_job, submission_answer, handle_get_job, handle_get_job_status,
  get_job_status, render_missing,
}
use distributed_task_schedul.Scheduler.Jobs.{
  Failures, SubmitJobRequest, replies, validate_request, Reply, panicked,
}
use distributed_task_schedul.Errors.{Result, Error, err, ok, Result-cases, wrap}
use distributed_task_schedul.Api.Responses.{Response, submitted, responds, failure, Body, message}
use distributed_task_schedul.Api.Middleware.{recover}
use distributed_task_schedul.Scheduler.Recurring.{
  Core, register_cron_job, cron_options, cron_definition,
}
use distributed_task_schedul.Scheduler.Instances.{
  IsRegistered, register_cron_job-cases, register_cron_job-IsRegistered, register_cron_job-done,
  kept,
}
use distributed_task_schedul.Scheduler.Submission.{submit_job-one_time}
use distributed_task_schedul.Cron.Schedule.{parse_cron, at}
use distributed_task_schedul.Store.Jobs.{get_job, create_job}
use distributed_task_schedul.Store.Lookup.{create_job-null}

module _ (c : Codec) (r : Redis c.Blob) (d : Postgres) (code_points : String → Text) where
  -- The answer to a job.
  abbrev pub created_answer : Job → Response
  created_answer j = record {
    status = 201;
    body = submitted (record { id = j.id; status = j.status; created_at = j.created_at });
  }

  dispatch-cron :
      (k : Failures) (now : ℤ) (id : ℕ) (req : SubmitJobRequest) (st : Core r.State)
      → str_eq req.cron "" ≡ false
      → dispatch_request c r d code_points k now id req st
        ≡ register_cron_job c r d code_points k now id req st
  unfolding dispatch_request
  dispatch-cron k now id req st h = rw (dispatch_request, h) refl

  dispatch-one_time :
      (k : Failures) (now : ℤ) (id : ℕ) (req : SubmitJobRequest) (st : Core r.State)
      → str_eq req.cron "" ≡ true
      → (x : Error) × (dispatch_request c r d code_points k now id req st ≡ (st, replies (err x)))
  unfolding dispatch_request
  dispatch-one_time k now id req st h =
      let (x, e) = submit_job-one_time c r d code_points k now id req st.world h in
      (x, rw (dispatch_request, h, e) refl)

  -- Core replies with a registered job, or nothing has changed.
  dispatch-cases :
      (k : Failures) (now : ℤ) (id : ℕ) (req : SubmitJobRequest) (st : Core r.State)
      → let done = dispatch_request c r d code_points k now id req st in
        ((x : Error) × (done ≡ (st, replies (err x))))
        ⊎ ((done ≡ (st, panicked))
            ⊎ ((j : Job) × (st' : Core r.State) × (done ≡ (st', replies (ok j)))
                × IsRegistered c r d code_points now req j st st'))
  dispatch-cases k now id req st = elim (Bool-cases (str_eq req.cron "")) [
    | inl h ↦ inl (dispatch-one_time k now id req st h)
    | inr h ↦
        let same = dispatch-cron k now id req st h in
        elim (register_cron_job-cases c r d code_points k now id req st) [
          | inl (x, e) ↦ inl (x, same ∙ e)
          | inr (inl e) ↦ inr (inl (same ∙ e))
          | inr (inr (j, st', e)) ↦
              let kept = register_cron_job-IsRegistered c r d code_points k now id req st st' j e in
              inr (inr (j, st', same ∙ e, kept))
        ]
  ]

  handle-invalid :
      (k : Failures) (now : ℤ) (id : ℕ) (req : SubmitJobRequest) (st : Core r.State) (x : Error)
      → validate_request req ≡ err x
      → handle_submit_job c r d code_points k now id (ok req) st
        ≡ (st, responds (record { status = 400; body = failure "" x }))
  unfolding handle_submit_job
  handle-invalid k now id req st x e = rw (handle_submit_job, e) refl

  handle-valid :
      (k : Failures) (now : ℤ) (id : ℕ) (req : SubmitJobRequest) (st st' : Core r.State)
      (valid : Unit {0}) (reply : Reply Job)
      → validate_request req ≡ ok valid
      → dispatch_request c r d code_points k now id req st ≡ (st', reply)
      → handle_submit_job c r d code_points k now id (ok req) st ≡ (st', submission_answer reply)
  unfolding handle_submit_job
  handle-valid k now id req st st' valid reply e f = rw (handle_submit_job, e, f) refl

  -- A request is malformed where its body cannot be decoded or is not valid.
  abbrev IsMalformed : Result SubmitJobRequest → Type 0
  IsMalformed decoded =
      ((x : Error) × (decoded ≡ err x))
      ⊎ ((req : SubmitJobRequest) × (x : Error) × (decoded ≡ ok req)
          × (validate_request req ≡ err x))

  -- What POST /jobs comes to, behind the middleware.
  pub data Answered (decoded : Result SubmitJobRequest) (now : ℤ) (st st' : Core r.State)
      : Response → Type 0 where
    created :
        (req : SubmitJobRequest) (j : Job)
        → decoded ≡ ok req
        → IsRegistered c r d code_points now req j st st'
        → Answered decoded now st st' (created_answer j)
    malformed :
        (b : Body)
        → IsMalformed decoded
        → st' ≡ st
        → Answered decoded now st st' (record { status = 400; body = b })
    failed : (b : Body) → st' ≡ st → Answered decoded now st st' (record { status = 500; body = b })

  valid-Answered :
      (k : Failures) (now : ℤ) (id : ℕ) (req : SubmitJobRequest) (st : Core r.State)
      (valid : Unit {0})
      → validate_request req ≡ ok valid
      → let (st', h) = handle_submit_job c r d code_points k now id (ok req) st in
        Answered (ok req) now st st' (recover h)
  unfolding submission_answer recover
  valid-Answered k now id req st valid v = elim (dispatch-cases k now id req st) [
    | inl (x, e) ↦
        rw (handle-valid k now id req st st valid (replies (err x)) v e)
          (failed (failure "failed to submit job: " x) refl)
    | inr (inl e) ↦
        rw (handle-valid k now id req st st valid panicked v e)
          (failed (message "internal server error") refl)
    | inr (inr (j, st', e, registered)) ↦
        rw (handle-valid k now id req st st' valid (replies (ok j)) v e)
          (created req j refl registered)
  ]

  -- POST /jobs answers 201 only with a cron job that it has stored and registered; it answers 400 only to a body that cannot be decoded or is not valid; every other answer is 500, a panic of the cron parser included; and whenever the answer is not 201 nothing has changed.
  pub handle_submit_job-Answered :
      (k : Failures) (now : ℤ) (id : ℕ) (decoded : Result SubmitJobRequest) (st : Core r.State)
      → let (st', h) = handle_submit_job c r d code_points k now id decoded st in
        Answered decoded now st st' (recover h)
  unfolding handle_submit_job recover
  handle_submit_job-Answered k now id (err x) st =
      malformed (failure "invalid request body: " x) (inl (x, refl)) refl
  handle_submit_job-Answered k now id (ok req) st = elim (Result-cases (validate_request req)) [
    | inl (valid, v) ↦ valid-Answered k now id req st valid v
    | inr (x, e) ↦
        rw (handle-invalid k now id req st x e)
          (malformed (failure "" x) (inr (req, x, refl, e)) refl)
  ]

  handle_get_job-failed :
      (id : ℕ) (t : Tables) (x : Error)
      → get_job d none id t ≡ err (wrap "get job" x)
      → ((handle_get_job d none (ok id) t).status ≡ 500)
        × ((handle_get_job_status d none (ok id) t).status ≡ 500)
  unfolding handle_get_job handle_get_job_status get_job_status render_missing
  handle_get_job-failed id t x e =
      (rw (handle_get_job, e) refl, rw (handle_get_job_status, get_job_status, e) refl)

  -- A job that RegisterCronJob has just stored cannot be read.
  registered-unread :
      (now : ℤ) (req : SubmitJobRequest) (j : Job) (st st' : Core r.State)
      → IsRegistered c r d code_points now req j st st'
      → (x : Error) × (get_job d none j.id st'.world.tables ≡ err (wrap "get job" x))
  registered-unread now req j st st' h =
      let (x, e) = create_job-null d j st.world.tables (ap (λ p. p.1) h.created) in
      (x, subst (λ t. get_job d none j.id t ≡ err (wrap "get job" x)) (ap (λ p. p.0) h.created) e)

  -- POST /jobs answers a valid request with 201 if its cron expression has a next time, NewJob takes it and the store takes its row; right after it, GET /jobs/:id and GET /jobs/:id/status of its id then answer 500.
  pub handle_submit_job-unread :
      (k : Failures) (now : ℤ) (id : ℕ) (req : SubmitJobRequest) (st : Core r.State) (next : ℕ)
      (made : Job)
      → validate_request req ≡ ok tt
      → str_eq req.cron "" ≡ false
      → parse_cron (code_points req.cron) (pos_part now) ≡ at next
      → new_job id now req.job_type req.payload (cron_options req) ≡ ok made
      → (create_job d k.writing (cron_definition next made) st.world.tables).1 ≡ none
      → let (st', h) = handle_submit_job c r d code_points k now id (ok req) st in
        let j = cron_definition next made in
        (recover h ≡ created_answer j)
        × ((handle_get_job d none (ok j.id) st'.world.tables).status ≡ 500)
        × ((handle_get_job_status d none (ok j.id) st'.world.tables).status ≡ 500)
  unfolding submission_answer recover
  handle_submit_job-unread k now id req st next made v h n m w =
      let j = cron_definition next made in
      let done = register_cron_job-done c r d code_points k now id req st next made h n m w in
      let st' = kept c r d code_points k j st in
      let registered =
        register_cron_job-IsRegistered c r d code_points k now id req st st' j done in
      let (x, unread) = registered-unread now req j st st' registered in
      let (details, status) = handle_get_job-failed j.id st'.world.tables x unread in
      rw
        (handle-valid k now id req st st' tt (replies (ok j)) v
          (dispatch-cron k now id req st h ∙ done))
        (refl, details, status)
