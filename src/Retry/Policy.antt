-- ===== src/Retry/Policy.antt =====
-- Retry policies and Engine.ShouldRetry (internal/retry/retry.go). Durations are nanoseconds.
-- rand.Int63n(n) is `draw % n`: the number that is drawn is an argument.
use distributed_task_schedul.Prelude.{
  ℕ, ◌%◌, String, Bool, false, not, Option, none, some, str_eq, if◌then◌else◌, ℤ, pos, pos_part,
  ◌+ℤ◌, ◌*ℤ◌, ltb_ℤ, leb_ℤ, wrap64,
}
use distributed_task_schedul.Errors.{Error, Result, ok, err, wrap, err_max_retries_exceeded}
use distributed_task_schedul.Models.Job.{Job, shift_one}

abbrev pub default_base_delay : ℤ
default_base_delay = pos 5000000000

abbrev pub default_max_delay : ℤ
default_max_delay = pos 1800000000000

abbrev pub default_max_jitter : ℤ
default_max_jitter = pos 1000000000

abbrev pub default_max_retries : ℤ
default_max_retries = pos 3

pub record Policy : Type 0 where
  pub max_retries : ℤ
  pub base_delay : ℤ
  pub max_delay : ℤ
  pub max_jitter : ℤ
  -- `none` is Go's nil: every error is retryable.
  pub retryable : Option (Error → Bool)

abbrev pub default_policy : Policy
default_policy = record {
  max_retries = default_max_retries;
  base_delay = default_base_delay;
  max_delay = default_max_delay;
  max_jitter = default_max_jitter;
  retryable = none;
}

abbrev pub aggressive_policy : Policy
aggressive_policy = record {
  max_retries = pos 5;
  base_delay = pos 1000000000;
  max_delay = pos 300000000000;
  max_jitter = pos 500000000;
  retryable = none;
}

abbrev pub conservative_policy : Policy
conservative_policy = record {
  max_retries = pos 3;
  base_delay = pos 60000000000;
  max_delay = pos 3600000000000;
  max_jitter = pos 10000000000;
  retryable = none;
}

-- policy.Retryable != nil && !policy.Retryable(err)
abbrev pub refuses : Option (Error → Bool) → Error → Bool
refuses none e = false
refuses (some f) e = not (f e)

-- min(base * 2^attempt, maxDelay), without the jitter.
unfoldable pub capped_backoff : ℕ → Policy → ℤ
capped_backoff attempt policy =
    let backoff = wrap64 (policy.base_delay *ℤ shift_one attempt) in
    if ltb_ℤ policy.max_delay backoff then policy.max_delay else backoff

unfoldable pub calculate_backoff : ℕ → Policy → ℕ → ℤ
calculate_backoff attempt policy draw =
    let backoff = capped_backoff attempt policy in
    if ltb_ℤ (pos 0) policy.max_jitter
    then wrap64 (backoff +ℤ pos (draw % pos_part policy.max_jitter))
    else backoff

unfoldable pub should_retry : Job → Error → Policy → ℕ → Result ℤ
should_retry j exec_err policy draw =
    if refuses policy.retryable exec_err
    then err (wrap "non-retryable error" exec_err)
    else if leb_ℤ policy.max_retries (pos j.retry_count)
    then err (wrap "retry_count, max_retries" err_max_retries_exceeded)
    else ok (calculate_backoff j.retry_count policy draw)

-- The map of DefaultPolicyForJob, and its default.
unfoldable pub default_policy_for_job : String → Policy
default_policy_for_job job_type =
    if str_eq job_type "send-email"
    then default_policy
    else if str_eq job_type "process-payment"
    then aggressive_policy
    else if str_eq job_type "generate-report"
    then conservative_policy
    else if str_eq job_type "webhook-call"
    then aggressive_policy
    else default_policy
