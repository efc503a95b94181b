-- ===== src/Retry/Executor/Outcomes.antt =====
-- What Execute and ExecuteWithResult return, and after how many calls (internal/retry/retry.go).
use distributed_task_schedul.Prelude.{
  Option-cases, inl, inr, ℕ, suc, ◌≡◌, false, Option, none, some, arith, pos, ◌<ℤ◌, ◌<◌, ◌+◌, ◌+ℤ◌,
  subst, ◌∙◌, ap, zero, pos_part, ◌≤ℤ◌, ◌≤◌, +ℤ-pos, length, refl,
}
use distributed_task_schedul.Errors.{Error, Result, error_of, Result-cases}
use distributed_task_schedul.Retry.Policy.{Policy, refuses}
use distributed_task_schedul.Retry.Executor.{
  execute_loop, execute, exhausted, result_loop, execute_with_result,
}

module _ (policy : Policy) (ctx : ℕ → Option Error) (draws : ℕ → ℕ) where
  -- The call at attempt i fails with an error that the policy retries, and the wait after it is
  -- not cancelled.
  abbrev pub Retries : (ℕ → Option Error) → ℕ → Type 0
  Retries fn i =
      (e : Error) × (fn i ≡ some e) × (refuses policy.retryable e ≡ false) × (ctx i ≡ none)

  -- One round that fails and is retried.
  round_retries :
      (fn : ℕ → Option Error) (left attempt : ℕ) (last : Option Error) (e : Error)
      → fn attempt ≡ some e
      → refuses policy.retryable e ≡ false
      → ctx attempt ≡ none
      → pos attempt <ℤ policy.max_retries
      → let r = execute_loop policy ctx draws fn (suc left) attempt last in
        let rest = execute_loop policy ctx draws fn left (suc attempt) (some e) in
        (r.calls ≡ suc rest.calls) × (r.result ≡ rest.result)
  unfolding execute_loop
  round_retries fn left attempt last e f k c h = ground arith

  round_stops :
      (fn : ℕ → Option Error) (left attempt : ℕ) (last : Option Error)
      → fn attempt ≡ none
      → let r = execute_loop policy ctx draws fn (suc left) attempt last in
        (r.result ≡ none) × (r.calls ≡ 1)
  unfolding execute_loop
  round_stops fn left attempt last f = ground arith

  -- The context of a loop moved on by one attempt.
  shift :
      (fn : ℕ → Option Error) (a k : ℕ)
      → ((i : ℕ) → i < suc k → Retries fn (a + i))
      → (i : ℕ) → i < k
      → Retries fn (suc a + i)
  shift fn a k f i h =
      subst (Retries fn) (let e : a + suc i ≡ suc a + i = omega arith in e)
        (f (suc i) (omega arith))

  loop_succeeds :
      (m : ℕ) (fn : ℕ → Option Error) (left attempt : ℕ) (last : Option Error) (k : ℕ)
      → policy.max_retries ≡ pos m
      → attempt + left ≡ suc m
      → k < left
      → fn (attempt + k) ≡ none
      → ((i : ℕ) → i < k → Retries fn (attempt + i))
      → let r = execute_loop policy ctx draws fn left attempt last in
        (r.result ≡ none) × (r.calls ≡ suc k)
  loop_succeeds m fn zero a last k bound c h s f = absurd (omega arith)
  loop_succeeds m fn (suc left) a last zero bound c h s f =
      round_stops fn left a last (subst (λ n. fn n ≡ none) (let e : a + 0 ≡ a = omega arith in e) s)
  loop_succeeds m fn (suc left) a last (suc k) bound c h s f =
      let (e, fails, kept, running) =
        subst (Retries fn) (let q : a + 0 ≡ a = omega arith in q) (f 0 (omega arith)) in
      let (calls, result) =
        round_retries fn left a last e fails kept running (rw bound (omega arith)) in
      let (done, count) =
        loop_succeeds m fn left (suc a) (some e) k bound (omega arith) (omega arith)
          (subst (λ n. fn n ≡ none) (let q : a + suc k ≡ suc a + k = omega arith in q) s)
          (shift fn a k f) in
      (result ∙ done, calls ∙ ap suc count)

  rounds : (m : ℕ) → policy.max_retries ≡ pos m → pos_part (policy.max_retries +ℤ pos 1) ≡ suc m
  rounds m bound = rw (bound, +ℤ-pos m 1) (omega arith)

  -- If the call at attempt k is the first to succeed, within the retries allowed, and all before it
  -- fail with errors that are retried, Execute returns nil after k + 1 calls.
  pub execute-succeeds :
      (m : ℕ) (fn : ℕ → Option Error) (k : ℕ)
      → policy.max_retries ≡ pos m
      → k ≤ m
      → fn k ≡ none
      → ((i : ℕ) → i < k → Retries fn i)
      → let r = execute policy ctx draws fn in (r.result ≡ none) × (r.calls ≡ suc k)
  unfolding execute
  execute-succeeds m fn k bound h s f = rw (rounds m bound) (
      loop_succeeds m fn (suc m) 0 none k bound (omega arith) (omega arith)
        (subst (λ n. fn n ≡ none) (let q : k ≡ 0 + k = omega arith in q) s)
        (λ i p. subst (Retries fn) (let q : i ≡ 0 + i = omega arith in q) (f i p)))

  round_gives_up :
      (fn : ℕ → Option Error) (left attempt : ℕ) (last : Option Error) (e : Error)
      → fn attempt ≡ some e
      → refuses policy.retryable e ≡ false
      → policy.max_retries ≤ℤ pos attempt
      → let r = execute_loop policy ctx draws fn (suc left) attempt last in
        (r.result ≡ some (exhausted (some e))) × (r.calls ≡ 1)
  unfolding execute_loop
  round_gives_up fn left attempt last e f k h = ground arith

  loop_exhausts :
      (m : ℕ) (fn : ℕ → Option Error) (left attempt : ℕ) (last : Option Error) (e : Error)
      → policy.max_retries ≡ pos m
      → attempt + suc left ≡ suc m
      → ((i : ℕ) → i < left → Retries fn (attempt + i))
      → fn m ≡ some e
      → refuses policy.retryable e ≡ false
      → let r = execute_loop policy ctx draws fn (suc left) attempt last in
        (r.result ≡ some (exhausted (some e))) × (r.calls ≡ suc left)
  loop_exhausts m fn zero a last e bound c f g k =
      round_gives_up fn zero a last e
        (subst (λ n. fn n ≡ some e) (let q : m ≡ a = omega arith in q) g) k (rw bound (omega arith))
  loop_exhausts m fn (suc left) a last e bound c f g k =
      let (e', fails, kept, running) =
        subst (Retries fn) (let q : a + 0 ≡ a = omega arith in q) (f 0 (omega arith)) in
      let (calls, result) =
        round_retries fn (suc left) a last e' fails kept running (rw bound (omega arith)) in
      let (done, count) =
        loop_exhausts m fn left (suc a) (some e') e bound (omega arith) (shift fn a left f) g k in
      (result ∙ done, calls ∙ ap suc count)

  -- If every call fails with an error that is retried and no wait is cancelled, Execute makes
  -- max_retries + 1 calls and returns the last error, wrapped.
  pub execute-exhausts :
      (m : ℕ) (fn : ℕ → Option Error) (e : Error)
      → policy.max_retries ≡ pos m
      → ((i : ℕ) → i < m → Retries fn i)
      → fn m ≡ some e
      → refuses policy.retryable e ≡ false
      → let r = execute policy ctx draws fn in
        (r.result ≡ some (exhausted (some e))) × (r.calls ≡ suc m)
  unfolding execute
  execute-exhausts m fn e bound f g k = rw (rounds m bound) (
      loop_exhausts m fn m 0 none e bound (omega arith)
        (λ i p. subst (Retries fn) (let q : i ≡ 0 + i = omega arith in q) (f i p)) g k)

  loop_waits :
      (fn : ℕ → Option Error) (left attempt : ℕ) (last : Option Error)
      → let r = execute_loop policy ctx draws fn left attempt last in
        (r.calls ≤ left) × (length r.waits ≤ r.calls)
  unfolding execute_loop
  loop_waits fn zero a last = omega arith
  loop_waits fn (suc left) a last = elim (Option-cases (fn a)) [
    | inl q ↦ ground arith
    | inr (e, q) ↦ ground (arith, loop_waits fn left (suc a) (some e))
  ]

  -- Execute makes at most max_retries + 1 calls, none where max_retries is negative, and waits at
  -- most once after each: whatever the calls return, it ends.
  pub execute-calls-le :
      (fn : ℕ → Option Error)
      → let r = execute policy ctx draws fn in
        (r.calls ≤ pos_part (policy.max_retries +ℤ pos 1)) × (length r.waits ≤ r.calls)
  unfolding execute
  execute-calls-le fn = loop_waits fn (pos_part (policy.max_retries +ℤ pos 1)) 0 none

  loop-result :
      {T : Type 0} (fn : ℕ → Result T) (left attempt : ℕ) (last : Option Error)
      → let r = result_loop policy ctx draws fn left attempt last in
        let s = execute_loop policy ctx draws (λ i. error_of (fn i)) left attempt last in
        (r.calls ≡ s.calls) × (r.waits ≡ s.waits) × (error_of r.result ≡ s.result)
  unfolding execute_loop result_loop
  loop-result fn zero a last = (refl, refl, refl)
  loop-result fn (suc left) a last = elim (Result-cases (fn a)) [
    | inl (x, q) ↦ ground arith
    | inr (e, q) ↦ ground (arith, loop-result fn left (suc a) (some e))
  ]

  -- ExecuteWithResult makes the calls and the waits that Execute makes on the function that forgets
  -- the result, and fails with the same error or succeeds as it does.
  pub execute_with_result-execute :
      {T : Type 0} (fn : ℕ → Result T)
      → let r = execute_with_result policy ctx draws fn in
        let s = execute policy ctx draws (λ i. error_of (fn i)) in
        (r.calls ≡ s.calls) × (r.waits ≡ s.waits) × (error_of r.result ≡ s.result)
  unfolding execute_with_result execute
  execute_with_result-execute fn = loop-result fn (pos_part (policy.max_retries +ℤ pos 1)) 0 none
