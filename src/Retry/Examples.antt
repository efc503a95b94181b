-- ===== src/Retry/Examples.antt =====
-- The theorems on retries at concrete inputs, and tests of the definitions (internal/retry/retry.go).
use distributed_task_schedul.Prelude.{
  wrap64, ℕ, ◌≤◌, ◌<◌, ◌≡◌, refl, [], ◌∷◌, Option, none, some, arith, ℤ, pos, ◌+ℤ◌, ◌*ℤ◌, ◌≤ℤ◌,
  ◌<ℤ◌, length, ltb, if◌then◌else◌,
}
use distributed_task_schedul.Errors.{
  Error, err_job_timeout, err_max_retries_exceeded, wrap, foreign, Result, ok, err,
}
use distributed_task_schedul.Models.Job.{Job, default_job, shift_one}
use distributed_task_schedul.Retry.Policy.{
  default_policy, default_policy_for_job, capped_backoff, should_retry,
}
use distributed_task_schedul.Retry.Backoff.{IsBounded, should_retry_window}
use distributed_task_schedul.Retry.Executor.{execute}
use distributed_task_schedul.Retry.Executor.Outcomes.{
  Retries, execute-succeeds, execute-exhausts, execute-calls-le,
}
use distributed_task_schedul.Retry.Breaker.{circuit_open, CircuitBreaker, new_circuit_breaker, run}
use distributed_task_schedul.Retry.Breaker.Invariant.{failures_at, failures-open}

default_policy-IsBounded : IsBounded default_policy
default_policy-IsBounded = omega arith

capped : capped_backoff 20 default_policy ≡ pos 1800000000000
unfolding capped_backoff shift_one wrap64 ◌*ℤ◌
capped = refl

abbrev payment : Job
payment = default_job 3 (pos 0) "process-payment" "{}"

should_retry_window_example :
    (pos 0 <ℤ pos 5
      → (d : ℤ) × (should_retry payment err_job_timeout (default_policy_for_job "process-payment") 4
          ≡ ok d)
        × (pos 1000000000 ≤ℤ d)
        × (d ≤ℤ pos 3610000000000))
    × (pos 5 ≤ℤ pos 0
        → should_retry payment err_job_timeout (default_policy_for_job "process-payment") 4
          ≡ err (wrap "retry_count, max_retries" err_max_retries_exceeded))
unfolding default_policy_for_job
should_retry_window_example = should_retry_window payment err_job_timeout 4

-- Two failures, then success.
abbrev flaky : ℕ → Option Error
flaky n = if ltb n 2 then some err_job_timeout else none

abbrev calm : ℕ → Option Error
calm n = none

flaky-Retries : (i : ℕ) → i < 2 → Retries default_policy calm (λ n. n) flaky i
flaky-Retries i h = (err_job_timeout, ground arith, refl, refl)

execute-succeeds_example :
    let r = execute default_policy calm (λ n. n) flaky in (r.result ≡ none) × (r.calls ≡ 3)
execute-succeeds_example =
    execute-succeeds default_policy calm (λ n. n) 3 flaky 2 refl (omega arith) refl flaky-Retries

abbrev broken : ℕ → Option Error
broken n = some (foreign "connection refused")

execute-exhausts_example :
    let r = execute default_policy calm (λ n. n) broken in
    (r.result ≡ some (wrap "all retries exhausted" (foreign "connection refused"))) × (r.calls ≡ 4)
execute-exhausts_example =
    execute-exhausts default_policy calm (λ n. n) 3 broken (foreign "connection refused") refl
      (λ i h. (foreign "connection refused", refl, refl, refl)) refl refl

execute-calls-le_example :
    let r = execute default_policy calm (λ n. n) broken in
    (r.calls ≤ 4) × (length r.waits ≤ r.calls)
unfolding ◌+ℤ◌
execute-calls-le_example = execute-calls-le default_policy calm (λ n. n) broken

abbrev third : ℕ → Result ℕ
third n = if ltb n 2 then err err_job_timeout else ok 42

abbrev breaker : CircuitBreaker
unfolding new_circuit_breaker
breaker = new_circuit_breaker (pos 0) (pos 3) (pos 100)

abbrev tripped : CircuitBreaker
tripped = record {
  failures = 3;
  threshold = pos 3;
  timeout = pos 100;
  last_failure = pos 50;
  state = circuit_open;
}

failures-open_example :
    (run breaker (failures_at (pos 5 ∷ pos 6 ∷ pos 7 ∷ []))).state ≡ circuit_open
unfolding new_circuit_breaker
failures-open_example = failures-open (pos 0) (pos 100) 3 (pos 5 ∷ pos 6 ∷ pos 7 ∷ []) (omega arith)
