-- ===== src/Retry/Executor.antt =====
-- Executor.Execute and ExecuteWithResult (internal/retry/retry.go). `fn i` is what the call of the
-- function at attempt i returns, `ctx i` the context's error if it is done during the wait after
-- attempt i, and `draws i` the number drawn for the jitter of that wait.
pub mod Outcomes
use distributed_task_schedul.Prelude.{
  ℕ, zero, suc, ◌+◌, Bool, List, [], ◌∷◌, Option, none, some, if◌then◌else◌, ℤ, pos, pos_part, ◌+ℤ◌,
  leb_ℤ,
}
use distributed_task_schedul.Errors.{Error, Result, ok, err, wrap, wrap_nil}
use distributed_task_schedul.Retry.Policy.{Policy, refuses, calculate_backoff}

-- What a run has done: the calls made, the delays waited, and what it returns.
pub record Run (A : Type 0) : Type 0 where
  pub calls : ℕ
  pub waits : List ℤ
  pub result : A

abbrev stop : {A : Type 0} → A → Run A
stop a = record { calls = 1; waits = []; result = a }

abbrev wait : {A : Type 0} → ℤ → Run A → Run A
wait d r = record { calls = suc r.calls; waits = d ∷ r.waits; result = r.result }

-- fmt.Errorf("all %d retries exhausted: %w", …, lastErr)
abbrev pub exhausted : Option Error → Error
exhausted none = wrap_nil "all retries exhausted"
exhausted (some e) = wrap "all retries exhausted" e

module _ (policy : Policy) (ctx : ℕ → Option Error) (draws : ℕ → ℕ) where
  -- The rounds of `for attempt := 0; attempt <= MaxRetries; attempt++` from one attempt on.
  execute_loop : (fn : ℕ → Option Error) (left attempt : ℕ) → Option Error → Run (Option Error)
  execute_loop fn zero attempt last = record {
    calls = 0;
    waits = [];
    result = some (exhausted last);
  }
  execute_loop fn (suc left) attempt last =
      let rest = λ (e : Error).
        wait (calculate_backoff attempt policy (draws attempt))
          (execute_loop fn left (suc attempt) (some e)) in
      elim (fn attempt) [
        | none ↦ stop none
        | some e ↦
            if refuses policy.retryable e
            then stop (some (wrap "non-retryable error" e))
            else if leb_ℤ policy.max_retries (pos attempt)
            then stop (some (exhausted (some e)))
            else elim (ctx attempt) [
              | some c ↦ stop (some (wrap "context cancelled during retry" c))
              | none ↦ rest e
            ]
      ]

  unfoldable pub execute : (ℕ → Option Error) → Run (Option Error)
  unfolding execute_loop
  execute fn = execute_loop fn (pos_part (policy.max_retries +ℤ pos 1)) 0 none

  result_loop : {T : Type 0} (fn : ℕ → Result T) (left attempt : ℕ) → Option Error → Run (Result T)
  result_loop fn zero attempt last = record { calls = 0; waits = []; result = err (exhausted last) }
  result_loop fn (suc left) attempt last =
      let rest = λ (e : Error).
        wait (calculate_backoff attempt policy (draws attempt))
          (result_loop fn left (suc attempt) (some e)) in
      elim (fn attempt) [
        | ok result ↦ stop (ok result)
        | err e ↦
            if refuses policy.retryable e
            then stop (err (wrap "non-retryable error" e))
            else if leb_ℤ policy.max_retries (pos attempt)
            then stop (err (exhausted (some e)))
            else elim (ctx attempt) [
              | some c ↦ stop (err (wrap "context cancelled during retry" c))
              | none ↦ rest e
            ]
      ]

  unfoldable pub execute_with_result : {T : Type 0} → (ℕ → Result T) → Run (Result T)
  unfolding result_loop
  execute_with_result fn = result_loop fn (pos_part (policy.max_retries +ℤ pos 1)) 0 none
