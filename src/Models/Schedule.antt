-- ===== src/Models/Schedule.antt =====
-- When a job runs again: IsRetryable and NextRetryTime (internal/models/job.go).
use distributed_task_schedul.Prelude.{
  zero, suc, refl, ◌-◌, subst, sym, negsuc, int64_mod, int_laws, ℕ, ◌+◌, ◌*◌, ◌^◌, ◌%◌, ◌≤◌, ◌<◌,
  ◌≡◌, ◌↔◌, true, arith, ℤ, pos, ◌+ℤ◌, ◌*ℤ◌, ◌≤ℤ◌, ◌<ℤ◌, wrap64, wrap64-pos, *ℤ-pos, +ℤ-pos,
  int64_half, int_laws, int64_mod, suc,
}
use distributed_task_schedul.Models.Job.{Job, is_retryable, shift_one, next_retry_time}
use native.Mathlib.Nat.{pow-le-pow_right, two-pow-succ}
use distributed_task_schedul.Models.Status.{failed}

-- A job is retryable exactly when it has failed and has used fewer retries than max_retries.
pub is_retryable_iff :
    (j : Job)
    → (is_retryable j ≡ true) ↔ ((pos j.retry_count <ℤ j.max_retries) × (j.status ≡ failed))
unfolding is_retryable
is_retryable_iff j = ground arith

pub shift_one-pos : (n : ℕ) → 2 ^ n < int64_half → shift_one n ≡ pos (2 ^ n)
unfolding shift_one
shift_one-pos n h = wrap64-pos (2 ^ n) h

-- The product that the backoff formulas compute, where it fits an int64.
pub backoff-pos :
    (base n : ℕ)
    → 0 < base
    → base * 2 ^ n < int64_half
    → wrap64 (pos base *ℤ shift_one n) ≡ pos (base * 2 ^ n)
backoff-pos base n b h = rw (shift_one-pos n (grind arith), *ℤ-pos) (wrap64-pos _ h)

next_retry_time-exact :
    (id_low : ℕ → ℕ) (now : ℤ) (base : ℕ) (j : Job)
    → 0 < base
    → base * 2 ^ j.retry_count + 1000000000 ≤ int64_half
    → next_retry_time id_low now (pos base) j
      ≡ now +ℤ pos (base * 2 ^ j.retry_count + id_low j.id % 1000 * 1000000)
unfolding next_retry_time
next_retry_time-exact id_low now base j b h = rw (
  backoff-pos base j.retry_count b (omega arith),
  +ℤ-pos,
  wrap64-pos (base * 2 ^ j.retry_count + id_low j.id % 1000 * 1000000) (omega arith),
)

-- The delay that Nack asks for: 5 * time.Second.
abbrev pub retry_base : ℕ
retry_base = 5000000000

retry_delay-le : (n : ℕ) → n ≤ 20 → retry_base * 2 ^ n + 1000000000 ≤ int64_half
retry_delay-le n h = omega (arith, pow-le-pow_right {n = 2} (omega arith) {i = n} {j = 20} h)

-- With the base delay of 5 seconds and at most 20 retries counted, the next retry time is exactly
-- 5 * 2 ^ retry_count seconds after now, plus a jitter below one second: nothing overflows.
pub next_retry_time_window :
    (id_low : ℕ → ℕ) (now : ℤ) (j : Job)
    → j.retry_count ≤ 20
    → let delay = retry_base * 2 ^ j.retry_count in
      (now +ℤ pos delay ≤ℤ next_retry_time id_low now (pos retry_base) j)
      × (next_retry_time id_low now (pos retry_base) j <ℤ now +ℤ pos (delay + 1000000000))
next_retry_time_window id_low now j h =
    rw
      (next_retry_time-exact id_low now retry_base j (omega arith) (retry_delay-le j.retry_count h))
      (omega int_laws, omega int_laws)

pow_shift : (k : ℕ) → 2 ^ (k + 64) % int64_mod ≡ 0
pow_shift zero = refl
pow_shift (suc k) =
    rw (let e : suc k + 64 ≡ suc (k + 64) = omega arith in e)
      (omega (arith, two-pow-succ (k + 64), pow_shift k))

pub shift_one-overflow : (n : ℕ) → 64 ≤ n → shift_one n ≡ pos 0
unfolding shift_one wrap64
shift_one-overflow n h =
    let e : n ≡ n - 64 + 64 = omega arith in
    rw (subst (λ m. 2 ^ m % int64_mod ≡ 0) (sym e) (pow_shift (n - 64)))

pub *ℤ-zero : (a : ℤ) → a *ℤ pos 0 ≡ pos 0
unfolding ◌*ℤ◌
*ℤ-zero a = ground arith

-- From 64 retries on, the shift of NextRetryTime has lost its bit and the backoff is 0: the retry
-- is due within a second, whatever the base delay.
pub next_retry_time-overflow :
    (id_low : ℕ → ℕ) (now base_delay : ℤ) (j : Job)
    → 64 ≤ j.retry_count
    → next_retry_time id_low now base_delay j ≡ now +ℤ pos (id_low j.id % 1000 * 1000000)
unfolding next_retry_time
next_retry_time-overflow id_low now base_delay j h = rw (
  shift_one-overflow j.retry_count h,
  *ℤ-zero base_delay,
  wrap64-pos 0 (omega arith),
  +ℤ-pos 0,
  wrap64-pos (0 + id_low j.id % 1000 * 1000000) (omega arith),
  let e : 0 + id_low j.id % 1000 * 1000000 ≡ id_low j.id % 1000 * 1000000 = omega arith in e,
)

nanoseconds :
    (t : ℤ)
    → pos 0 <ℤ t
    → t ≤ℤ pos 3600000
    → (wrap64 (t *ℤ pos 1000000) ≡ t *ℤ pos 1000000)
      × (pos 0 <ℤ t *ℤ pos 1000000)
      × (t *ℤ pos 1000000 ≤ℤ pos 3600000000000)
nanoseconds (pos n) lo hi =
    rw (*ℤ-pos n 1000000) (wrap64-pos (n * 1000000) (omega arith), omega arith, omega arith)
nanoseconds (negsuc n) lo hi = absurd (omega arith)
