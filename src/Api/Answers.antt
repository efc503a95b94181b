-- ===== src/Api/Answers.antt =====
-- The answers of the handlers for one job (internal/scheduler/api.go).
use distributed_task_schedul.Queue.Redis.{Codec, Redis}
use distributed_task_schedul.Store.Tables.{Postgres, Tables, Row, find_row}
use distributed_task_schedul.Api.Handlers.{
  handle_get_job, handle_get_job_status, handle_delete_job, handle_retry_job, get_job_status,
  render_missing,
}
use distributed_task_schedul.Prelude.{ℕ, none, ℤ, ◌≡◌, refl, Option, String, some, true, false}
use distributed_task_schedul.Errors.{Error, err, ok, err_job_not_found, errorf}
use distributed_task_schedul.Store.Jobs.{get_job, delete_job}
use distributed_task_schedul.Scheduler.Jobs.{Failures, remove_job, retry_job, serving}
use distributed_task_schedul.Worker.Execution.{World}
use distributed_task_schedul.Api.Responses.{render_error, header_only, render_failure}
use distributed_task_schedul.Models.Job.{Job}
use distributed_task_schedul.Models.Status.{status_eq, running}
use distributed_task_schedul.Store.Lookup.{delete_job-removes}
use distributed_task_schedul.Scheduler.Retries.{remove_job-refused, remove_job-done}

module _ (c : Codec) (r : Redis c.Blob) (d : Postgres) where
  -- An id that cannot be parsed is answered with 400. For an id that the store does not have, the details, the status and the deletion are answered with 404, a retry with 500. Nothing is changed.
  pub missing_id-statuses :
      (k : Failures) (now : ℤ) (id : ℕ) (x : Error) (w : World r.State)
      → ((handle_get_job d none (err x) w.tables).status ≡ 400)
        × ((handle_get_job_status d none (err x) w.tables).status ≡ 400)
        × (handle_delete_job c r d k (err x) w ≡ (w, render_error 400 "invalid job id"))
        × (handle_retry_job c r d k now (err x) w ≡ (w, render_error 400 "invalid job id"))
        × (get_job d none id w.tables ≡ err err_job_not_found
            → let (deleted, removal) = handle_delete_job c r d (serving none) (ok id) w in
              let (retried, retrial) = handle_retry_job c r d (serving none) now (ok id) w in
              ((handle_get_job d none (ok id) w.tables).status ≡ 404)
              × ((handle_get_job_status d none (ok id) w.tables).status ≡ 404)
              × (removal.status ≡ 404)
              × (deleted ≡ w)
              × (retrial.status ≡ 500)
              × (retried ≡ w))
  unfolding handle_get_job handle_get_job_status handle_delete_job handle_retry_job get_job_status
      remove_job retry_job render_missing
  missing_id-statuses k now id x w = (
    refl,
    refl,
    refl,
    refl,
    λ h.
        rw
          (
            handle_get_job, handle_get_job_status, handle_delete_job, handle_retry_job,
            get_job_status, remove_job, retry_job, h,
          )
          (refl, refl, refl, refl, refl, refl),
  )

  delete_answer :
      (id : ℕ) (w w' : World r.State) (e : Option Error)
      → remove_job c r d (serving none) id w ≡ (w', e)
      → (e ≡ none → handle_delete_job c r d (serving none) (ok id) w ≡ (w', header_only 204))
        × ((text : String)
            → e ≡ some (errorf text)
            → handle_delete_job c r d (serving none) (ok id) w
              ≡ (w', render_failure 500 "failed to delete job: " (errorf text)))
  unfolding handle_delete_job render_missing
  delete_answer id w w' e h =
      (λ n. rw (handle_delete_job, h, n) refl, λ text n. rw (handle_delete_job, h, n) refl)

  handle_get_job-missing :
      (id : ℕ) (t : Tables)
      → get_job d none id t ≡ err err_job_not_found
      → handle_get_job d none (ok id) t ≡ render_error 404 "job not found"
  unfolding handle_get_job render_missing
  handle_get_job-missing id t h = rw (handle_get_job, h) refl

  -- Where the calls of the store succeed and GetJob can read the job: DELETE of a running job is answered with 500 and changes nothing; of any other one with 204, and then GET of the job with 404, while the queue keeps it.
  pub handle_delete_job-handle_get_job :
      (w : World r.State) (j : Job) (row : Row)
      → get_job d none j.id w.tables ≡ ok j
      → find_row j.id w.tables.jobs ≡ some row
      → let (w', answer) = handle_delete_job c r d (serving none) (ok j.id) w in
        (status_eq j.status running ≡ true → (answer.status ≡ 500) × (w' ≡ w))
        × (status_eq j.status running ≡ false
            → (answer ≡ header_only 204)
              × (handle_get_job d none (ok j.id) w'.tables ≡ render_error 404 "job not found")
              × (w'.queue ≡ w.queue))
  unfolding render_failure
  handle_delete_job-handle_get_job w j row g h =
      let (gone, missing, _, _) = delete_job-removes d j.id w.tables row h in
      let deleted = record w { tables = (delete_job none j.id w.tables).0 } in
      (
        λ t.
            let refused = remove_job-refused c r d w j g t in
            let answer =
              (delete_answer j.id w w (some (errorf "cannot delete a running job")) refused).1
                "cannot delete a running job" refl in
            rw answer (refl, refl),
        λ t.
            let done = remove_job-done c r d w j g t in
            let answer =
              (delete_answer j.id w deleted (delete_job none j.id w.tables).1 done).0 gone in
            rw answer
              (refl, handle_get_job-missing j.id (delete_job none j.id w.tables).0 missing, refl),
      )
