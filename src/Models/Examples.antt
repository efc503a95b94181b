-- ===== src/Models/Examples.antt =====
-- The theorems on jobs at concrete inputs, and tests of the definitions (internal/models/job.go).
use distributed_task_schedul.Prelude.{ℕ, ◌≡◌, refl, ◌↔◌, true, [], ◌∷◌, arith, pos, eq_iff}
use distributed_task_schedul.Errors.{err_invalid_priority, ok, err}
use distributed_task_schedul.Models.Status.{
  pending, running, failed, can_transition_to, ◌⟶◌, can_transition_to-⟶,
}
use distributed_task_schedul.Models.Job.{Job, default_job, new_job, validate, with_priority}
use distributed_task_schedul.Models.Valid.{IsValid}

-- A job as NewJob makes it, at time 1000.
abbrev pub email : Job
email = default_job 7 (pos 1000) "send-email" "{}"

-- The same job, failed after some retries.
abbrev pub failed_email : ℕ → Job
failed_email n = record email { status = failed; retry_count = n }

can_transition_to-⟶_example : (can_transition_to pending running ≡ true) ↔ (pending ⟶ running)
can_transition_to-⟶_example = can_transition_to-⟶ pending running

made :
    new_job 7 (pos 1000) "send-email" "{}" (with_priority (pos 2) ∷ [])
    ≡ ok (record email { priority = pos 2 })
unfolding new_job validate with_priority
made = refl

refused :
    new_job 7 (pos 1000) "send-email" "{}" (with_priority (pos 12) ∷ []) ≡ err err_invalid_priority
unfolding new_job validate with_priority
refused = refl

email-IsValid : IsValid email
email-IsValid = ground (arith, eq_iff "send-email" "")
