-- ===== src/Models/Valid.antt =====
-- What Validate and NewJob guarantee (internal/models/job.go).
use distributed_task_schedul.Prelude.{
  ℕ, String, ◌≡◌, ◌≢◌, ◌↔◌, List, arith, eq_iff, ℤ, pos, ◌≤ℤ◌, ◌<ℤ◌, Bool-cases, str_eq, inl, subst,
  inr,
}
use distributed_task_schedul.Errors.{ok, ◌>>◌, Result-cases}
use distributed_task_schedul.Models.Job.{
  Job, JobOption, validate, new_job, apply_options, default_job,
}

pub record IsValid (j : Job) : Type 0 where
  pub typed : j.job_type ≢ ""
  pub priority_low : pos 0 ≤ℤ j.priority
  pub priority_high : j.priority ≤ℤ pos 9
  pub retries_low : pos 0 ≤ℤ j.max_retries
  pub retries_high : j.max_retries ≤ℤ pos 20
  pub timeout_low : pos 0 <ℤ j.timeout
  pub timeout_high : j.timeout ≤ℤ pos 3600000

validate_sound : (j : Job) → validate j ≡ ok tt → IsValid j
unfolding validate
validate_sound j h = ground (arith, eq_iff j.job_type "")

validate_complete : (j : Job) → IsValid j → validate j ≡ ok tt
unfolding validate
validate_complete j v = ground (arith, eq_iff j.job_type "")

-- Validate accepts a job exactly when its type is not empty, its priority is in 0..9, its
-- max_retries in 0..20 and its timeout in 1..3600000 ms.
pub validate-IsValid : (j : Job) → (validate j ≡ ok tt) ↔ IsValid j
validate-IsValid j = (validate_sound j, validate_complete j)

checked-IsValid : (made : Job) {j : Job} → (validate made >> ok made) ≡ ok j → IsValid j
checked-IsValid made h = elim (Result-cases (validate made)) [
  | inl (tt, e) ↦ subst IsValid (ground arith) (validate_sound made e)
  | inr (e, r) ↦ cc
]

-- Whatever options are given, a job that NewJob returns is valid.
pub new_job-IsValid :
    (id : ℕ) (now : ℤ) (job_type payload : String) (opts : List JobOption) {j : Job}
    → new_job id now job_type payload opts ≡ ok j
    → IsValid j
unfolding new_job
new_job-IsValid id now job_type payload opts h = elim (Bool-cases (str_eq job_type "")) [
  | inl e ↦ cc
  | inr e ↦ checked-IsValid _ (rw e at h)
]

checked-made : (made : Job) {j : Job} → (validate made >> ok made) ≡ ok j → made ≡ j
checked-made made h = elim (Result-cases (validate made)) [
  | inl (tt, e) ↦ ground (arith, h, e)
  | inr (e, r) ↦ cc
]

-- A job that NewJob returns is what the options make of the defaults.
pub new_job-options :
    (id : ℕ) (now : ℤ) (job_type payload : String) (opts : List JobOption) {j : Job}
    → new_job id now job_type payload opts ≡ ok j
    → apply_options (default_job id now job_type payload) opts ≡ j
unfolding new_job
new_job-options id now job_type payload opts h = elim (Bool-cases (str_eq job_type "")) [
  | inl e ↦ cc
  | inr e ↦ checked-made _ (rw e at h)
]
