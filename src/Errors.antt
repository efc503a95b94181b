-- ===== src/Errors.antt =====
-- Go's `error` values: the sentinel errors that the packages declare, and the errors that
-- `fmt.Errorf` makes, with and without `%w` (internal/models/job.go, internal/queue/redis.go,
-- internal/lock/redis_lock.go). A result is a value or an error.
use distributed_task_schedul.Prelude.{
  String, ◌≡◌, refl, Bool, true, false, Option, none, some, ◌⊎◌, inl, inr,
}

pub data Error : Type 0 where
  err_job_not_found err_job_already_completed err_invalid_job_type : Error
  err_invalid_priority err_invalid_cron_expression err_job_timeout err_max_retries_exceeded : Error
  err_queue_empty err_job_already_exists err_redis_unavailable : Error
  err_lock_held err_lock_not_held err_lock_timeout : Error
  -- an error of a package that is not part of the repository, such as a broken connection
  foreign : String → Error
  -- fmt.Errorf("…")
  errorf : String → Error
  -- fmt.Errorf("…: %w", err)
  wrap : String → Error → Error
  -- fmt.Errorf("…: %w", nil)
  wrap_nil : String → Error

-- errors.Is(err, ErrLockHeld)
abbrev pub is_lock_held : Error → Bool
is_lock_held err_lock_held = true
is_lock_held (wrap _ e) = is_lock_held e
is_lock_held _ = false

-- err == models.ErrJobNotFound, which does not look through `%w`
abbrev pub is_job_not_found : Error → Bool
is_job_not_found err_job_not_found = true
is_job_not_found _ = false

-- `(v, err)` as Go's functions return it: the error comes first, since every caller tests it first.
pub data Result {ℓ} (V : Type ℓ) : Type ℓ where
  err : Error → Result V
  ok : V → Result V

-- return nil, fmt.Errorf("…: %w", err)
abbrev pub wrap_err {ℓ} : {V : Type ℓ} → String → Result V → Result V
wrap_err s (err cause) = err (wrap s cause)
wrap_err s (ok v) = ok v

-- The error that a result carries; `none` is Go's nil.
abbrev pub error_of {ℓ} : {V : Type ℓ} → Result V → Option Error
error_of (err cause) = some cause
error_of (ok v) = none

-- if err != nil { return err }
infixl 5 ◌>>=◌
abbrev pub ◌>>=◌ {ℓ κ} : {V : Type ℓ} {W : Type κ} → Result V → (V → Result W) → Result W
err cause >>= rest = err cause
ok v >>= rest = rest v

infixl 5 ◌>>◌
abbrev pub ◌>>◌ {ℓ} : {W : Type ℓ} → Result (Unit {0}) → Result W → Result W
check >> rest = check >>= (λ done. rest)

pub Result-cases {ℓ} :
    {V : Type ℓ} (r : Result V) → ((v : V) × (r ≡ ok v)) ⊎ ((e : Error) × (r ≡ err e))
Result-cases (err e) = inr (e, refl)
Result-cases (ok v) = inl (v, refl)
