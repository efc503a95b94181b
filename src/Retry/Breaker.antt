-- ===== src/Retry/Breaker.antt =====
-- CircuitBreaker (internal/retry/retry.go). The channel `mu` is tried, never waited for: `busy`
-- says that another goroutine holds it during the call. `now` is what the clock reads.
pub mod Invariant
use distributed_task_schedul.Prelude.{
  ℕ, suc, ◌+◌, Bool, true, false, List, [], ◌∷◌, if◌then◌else◌, ℤ, pos, ◌+ℤ◌, ltb_ℤ, leb_ℤ,
}

pub data CircuitState : Type 0 where
  circuit_closed circuit_open circuit_half_open : CircuitState

pub record CircuitBreaker : Type 0 where
  pub failures : ℕ
  pub threshold : ℤ
  pub timeout : ℤ
  pub last_failure : ℤ
  pub state : CircuitState

-- `zero_time` is the zero time.Time.
unfoldable pub new_circuit_breaker : ℤ → ℤ → ℤ → CircuitBreaker
new_circuit_breaker zero_time threshold timeout = record {
  failures = 0;
  threshold = threshold;
  timeout = timeout;
  last_failure = zero_time;
  state = circuit_closed;
}

-- The `switch` of Allow. time.Since(lastFailure) > timeout is `lastFailure + timeout < now`.
allow_in : CircuitState → ℤ → CircuitBreaker → CircuitBreaker × Bool
allow_in circuit_closed now cb = (cb, true)
allow_in circuit_open now cb =
    if ltb_ℤ (cb.last_failure +ℤ cb.timeout) now
    then (record cb { state = circuit_half_open }, true)
    else (cb, false)
allow_in circuit_half_open now cb = (cb, true)

unfoldable pub allow : (busy : Bool) → ℤ → CircuitBreaker → CircuitBreaker × Bool
unfolding allow_in
allow busy now cb = if busy then (cb, false) else allow_in cb.state now cb

after_success : CircuitState → CircuitState
after_success circuit_half_open = circuit_closed
after_success s = s

unfoldable pub record_success : (busy : Bool) → CircuitBreaker → CircuitBreaker
unfolding after_success
record_success busy cb =
    if busy then cb else record cb { failures = 0; state = after_success cb.state }

unfoldable pub record_failure : (busy : Bool) → ℤ → CircuitBreaker → CircuitBreaker
record_failure busy now cb =
    let counted = record cb { failures = cb.failures + 1; last_failure = now } in
    if busy
    then cb
    else if leb_ℤ counted.threshold (pos counted.failures)
    then record counted { state = circuit_open }
    else counted

unfoldable pub state_of : (busy : Bool) → CircuitBreaker → CircuitState
state_of busy cb = if busy then circuit_open else cb.state

-- The calls that clients make, one at a time.
pub data Event : Type 0 where
  allows : (busy : Bool) → ℤ → Event
  succeeds : (busy : Bool) → Event
  fails : (busy : Bool) → ℤ → Event

unfoldable pub step : CircuitBreaker → Event → CircuitBreaker
unfolding allow record_success record_failure
step cb (allows busy now) = (allow busy now cb).0
step cb (succeeds busy) = record_success busy cb
step cb (fails busy now) = record_failure busy now cb

unfoldable pub run : CircuitBreaker → List Event → CircuitBreaker
run cb [] = cb
run cb (e ∷ es) = run (step cb e) es
