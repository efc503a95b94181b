-- ===== src/Retry/Breaker/Invariant.antt =====
-- When the circuit breaker opens, closes and lets calls through (internal/retry/retry.go).
use distributed_task_schedul.Prelude.{
  ap, ◌∙◌, ℕ, ◌+◌, ◌<◌, ◌≡◌, refl, Bool, true, false, List, [], ◌∷◌, arith, length, leb,
  if◌then◌else◌, ℤ, pos, ◌+ℤ◌, ◌≤ℤ◌, ◌<ℤ◌,
}
use distributed_task_schedul.Retry.Breaker.{
  circuit_closed, circuit_open, circuit_half_open, CircuitBreaker, new_circuit_breaker, allow,
  record_success, record_failure, Event, allows, succeeds, fails, step, run,
}

-- A closed breaker has counted fewer failures than its threshold.
pub record Inv (threshold : ℤ) (cb : CircuitBreaker) : Type 0 where
  pub kept : cb.threshold ≡ threshold
  pub below : cb.state ≡ circuit_closed → pos cb.failures <ℤ threshold

step-Inv :
    (threshold : ℤ) (cb : CircuitBreaker) (e : Event)
    → pos 0 <ℤ threshold
    → Inv threshold cb
    → Inv threshold (step cb e)
unfolding step
step-Inv t cb (allows busy now) h v = ground arith
step-Inv t cb (succeeds busy) h v = ground arith
step-Inv t cb (fails busy now) h v = ground arith

run-Inv :
    (threshold : ℤ) (cb : CircuitBreaker) (es : List Event)
    → pos 0 <ℤ threshold
    → Inv threshold cb
    → Inv threshold (run cb es)
unfolding run
run-Inv t cb [] h v = v
run-Inv t cb (e ∷ es) h v = run-Inv t (step cb e) es h (step-Inv t cb e h v)

-- Whatever calls a new breaker with a positive threshold has served, contended ones included, while
-- it is closed it has counted fewer failures than the threshold.
pub run-closed :
    (zero_time threshold timeout : ℤ) (es : List Event)
    → pos 0 <ℤ threshold
    → (run (new_circuit_breaker zero_time threshold timeout) es).state ≡ circuit_closed
    → pos (run (new_circuit_breaker zero_time threshold timeout) es).failures <ℤ threshold
unfolding new_circuit_breaker
run-closed z t to es h c = (run-Inv t _ es h (record { kept = refl; below = λ _. h })).below c

-- Failures at the given times, one after the other, with no contention.
abbrev pub failures_at : List ℤ → List Event
failures_at [] = []
failures_at (t ∷ ts) = fails false t ∷ failures_at ts

-- A breaker that has counted `n` failures in a row.
abbrev counted : ℕ → ℕ → ℤ → ℤ → CircuitBreaker
counted n threshold timeout last = record {
  failures = n;
  threshold = pos threshold;
  timeout = timeout;
  last_failure = last;
  state = if leb threshold n then circuit_open else circuit_closed;
}

counted-step :
    (n threshold : ℕ) (timeout last t : ℤ)
    → step (counted n threshold timeout last) (fails false t) ≡ counted (n + 1) threshold timeout t
unfolding step
counted-step n threshold timeout last t = ground arith

counted-run :
    (n threshold : ℕ) (timeout last : ℤ) (ts : List ℤ)
    → (run (counted n threshold timeout last) (failures_at ts)).state
      ≡ (if leb threshold (n + length ts) then circuit_open else circuit_closed)
unfolding run
counted-run n k to last [] = ground arith
counted-run n k to last (t ∷ ts) =
    ap (λ cb. (run cb (failures_at ts)).state) (counted-step n k to last t)
    ∙ counted-run (n + 1) k to t ts
    ∙ ap (λ m. if leb k m then circuit_open else circuit_closed) (omega arith)

new-counted :
    (zero_time timeout : ℤ) (threshold : ℕ)
    → 0 < threshold
    → new_circuit_breaker zero_time (pos threshold) timeout ≡ counted 0 threshold timeout zero_time
unfolding new_circuit_breaker
new-counted z to k h = ground arith

-- A new breaker opens exactly when the number of failures in a row reaches the threshold.
pub failures-open :
    (zero_time timeout : ℤ) (threshold : ℕ) (ts : List ℤ)
    → 0 < threshold
    → (run (new_circuit_breaker zero_time (pos threshold) timeout) (failures_at ts)).state
      ≡ (if leb threshold (length ts) then circuit_open else circuit_closed)
failures-open z to k ts h = rw (new-counted z to k h) (
    counted-run 0 k to z ts
    ∙ ap (λ m. if leb k m then circuit_open else circuit_closed) (omega arith))

-- An open breaker refuses every call until its timeout has passed since the last failure, and is
-- unchanged. Then a call that finds the lock free passes as the trial; a success recorded after it
-- closes the breaker and clears the count.
pub open-recovers :
    (cb : CircuitBreaker) (busy : Bool) (now : ℤ)
    → cb.state ≡ circuit_open
    → (now ≤ℤ cb.last_failure +ℤ cb.timeout → allow busy now cb ≡ (cb, false))
      × (cb.last_failure +ℤ cb.timeout <ℤ now
          → let (trial, passed) = allow false now cb in
            let closed = record_success false trial in
            (passed ≡ true)
            × (trial.state ≡ circuit_half_open)
            × (closed.state ≡ circuit_closed)
            × (closed.failures ≡ 0))
unfolding allow record_success
open-recovers cb busy now o = ground arith

-- A success that is recorded while the breaker is open, by a call that began before, clears the
-- count and leaves it open. With a threshold above 1 the failure of the next trial then does not
-- open the breaker again: it stays half-open and lets every call through.
pub late_success-half_open :
    (cb : CircuitBreaker) (now later after : ℤ)
    → cb.state ≡ circuit_open
    → pos 1 <ℤ cb.threshold
    → cb.last_failure +ℤ cb.timeout <ℤ now
    → let trial = (allow false now (record_success false cb)).0 in
      let failed = record_failure false later trial in
      (failed.state ≡ circuit_half_open) × (allow false after failed ≡ (failed, true))
unfolding allow record_success record_failure
late_success-half_open cb now later after o t h = ground arith
