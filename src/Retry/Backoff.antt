-- ===== src/Retry/Backoff.antt =====
-- How long a retry waits (internal/retry/retry.go).
use native.Mathlib.Nat.{pow-le-pow_right, mul-le-mul_left, one-le-pow}
use distributed_task_schedul.Prelude.{
  zero, suc, negsuc, *ℤ-pos, ltb_ℤ, ℕ, ◌+◌, ◌*◌, ◌^◌, ◌%◌, ◌≤◌, ◌<◌, ◌≡◌, String, none, arith, min,
  ℤ, pos, pos_part, ◌+ℤ◌, ◌*ℤ◌, ◌≤ℤ◌, ◌<ℤ◌, wrap64, wrap64-pos, +ℤ-pos, int64_half, int64_mod,
  if◌then◌else◌, ltb_ℤ,
}
use distributed_task_schedul.Errors.{Error, ok, err, wrap, err_max_retries_exceeded}
use distributed_task_schedul.Models.Job.{Job, shift_one}
use distributed_task_schedul.Models.Schedule.{backoff-pos, shift_one-pos}
use distributed_task_schedul.Retry.Policy.{
  Policy, capped_backoff, calculate_backoff, should_retry, default_policy_for_job,
}

-- The bounds that the three policies of the package meet: they are positive and small enough for
-- the sum of the largest delay and the largest jitter.
pub record IsBounded (p : Policy) : Type 0 where
  pub base_low : pos 0 <ℤ p.base_delay
  pub cap_low : pos 0 ≤ℤ p.max_delay
  pub jitter_low : pos 0 ≤ℤ p.max_jitter
  pub sum_high : pos_part p.max_delay + pos_part p.max_jitter < int64_half

capped :
    (base cap : ℤ) (n : ℕ)
    → pos 0 <ℤ base
    → pos 0 ≤ℤ cap
    → pos_part base * 2 ^ n < int64_half
    → let raw = wrap64 (base *ℤ shift_one n) in
      (if ltb_ℤ cap raw then cap else raw) ≡ pos (min (pos_part base * 2 ^ n) (pos_part cap))
capped (pos b) (pos c) n lo hi h = rw (backoff-pos b n (omega arith) h) (ground arith)
capped (pos b) (negsuc c) n lo hi h = absurd (omega arith)
capped (negsuc b) cap n lo hi h = absurd (omega arith)

-- Where the product fits an int64, the delay without the jitter is the smaller of
-- base * 2 ^ attempt and the largest delay.
pub capped_backoff-min :
    (n : ℕ) (p : Policy)
    → IsBounded p
    → pos_part p.base_delay * 2 ^ n < int64_half
    → capped_backoff n p ≡ pos (min (pos_part p.base_delay * 2 ^ n) (pos_part p.max_delay))
unfolding capped_backoff
capped_backoff-min n p b h = capped p.base_delay p.max_delay n b.base_low b.cap_low h

jittered :
    (d : ℕ) (jitter : ℤ) (draw : ℕ)
    → pos 0 ≤ℤ jitter
    → d + pos_part jitter < int64_half
    → let delay =
        if ltb_ℤ (pos 0) jitter then wrap64 (pos d +ℤ pos (draw % pos_part jitter)) else pos d in
      (pos d ≤ℤ delay) × (delay ≤ℤ pos (d + pos_part jitter))
jittered d (pos zero) draw h fits = (omega arith, omega arith)
jittered d (pos (suc j)) draw h fits =
    rw (+ℤ-pos d (draw % suc j), wrap64-pos (d + draw % suc j) (omega arith)) (ground arith)
jittered d (negsuc j) draw h fits = absurd (omega arith)

-- Where base * 2 ^ attempt fits an int64, the delay lies between that product, capped at the
-- largest delay, and the same plus the largest jitter.
pub calculate_backoff_window :
    (n : ℕ) (p : Policy) (draw : ℕ)
    → IsBounded p
    → pos_part p.base_delay * 2 ^ n < int64_half
    → let d = min (pos_part p.base_delay * 2 ^ n) (pos_part p.max_delay) in
      (pos d ≤ℤ calculate_backoff n p draw)
      × (calculate_backoff n p draw ≤ℤ pos (d + pos_part p.max_jitter))
unfolding calculate_backoff
calculate_backoff_window n p draw b h = rw (capped_backoff-min n p b h) (
    jittered (min (pos_part p.base_delay * 2 ^ n) (pos_part p.max_delay)) p.max_jitter draw
      b.jitter_low (omega (arith, b.sum_high)))

raw-negative :
    (b n : ℕ)
    → 0 < b
    → 2 ^ n < int64_half
    → int64_half ≤ b * 2 ^ n
    → b * 2 ^ n < int64_mod
    → wrap64 (pos b *ℤ shift_one n) <ℤ pos 0
unfolding wrap64
raw-negative b n lo s h k = rw (shift_one-pos n s, *ℤ-pos b (2 ^ n)) (ground arith)

uncapped :
    (raw cap : ℤ) → pos 0 ≤ℤ cap → raw <ℤ pos 0 → (if ltb_ℤ cap raw then cap else raw) <ℤ pos 0
uncapped raw cap h k = ground arith

-- The cap does not catch an overflow: at an attempt whose product needs the 64th bit the delay
-- without the jitter is negative.
pub capped_backoff-overflow :
    (b n : ℕ) (p : Policy)
    → p.base_delay ≡ pos b
    → pos 0 ≤ℤ p.max_delay
    → 0 < b
    → 2 ^ n < int64_half
    → int64_half ≤ b * 2 ^ n
    → b * 2 ^ n < int64_mod
    → capped_backoff n p <ℤ pos 0
unfolding capped_backoff
capped_backoff-overflow b n p e cap lo s h k =
    uncapped (wrap64 (p.base_delay *ℤ shift_one n)) p.max_delay cap
      (rw e (raw-negative b n lo s h k))

default_policy_for_job-IsBounded : (job_type : String) → IsBounded (default_policy_for_job job_type)
unfolding default_policy_for_job
default_policy_for_job-IsBounded t = ground arith

policy_retries-le : (t : String) → (default_policy_for_job t).max_retries ≤ℤ pos 5
unfolding default_policy_for_job
policy_retries-le t = ground arith

policy_base-le : (t : String) → pos_part (default_policy_for_job t).base_delay ≤ 60000000000
unfolding default_policy_for_job
policy_base-le t = ground arith

policy_fits :
    (job_type : String) (n : ℕ)
    → pos n <ℤ (default_policy_for_job job_type).max_retries
    → pos_part (default_policy_for_job job_type).base_delay * 2 ^ n < int64_half
policy_fits t n h =
    let small : 2 ^ n ≤ 2 ^ 5 =
      pow-le-pow_right {n = 2} (omega arith) {j = 5} (omega (arith, policy_retries-le t)) in
    omega (
      arith,
      policy_base-le t,
      mul-le-mul_left (pos_part (default_policy_for_job t).base_delay) small,
    )

-- The ranges of the fields over the policies that the package selects.
record HasRanges (p : Policy) : Type 0 where
  base_low : 1000000000 ≤ pos_part p.base_delay
  cap_low : 1000000000 ≤ pos_part p.max_delay
  cap_high : pos_part p.max_delay ≤ 3600000000000
  jitter_high : pos_part p.max_jitter ≤ 10000000000
  any_error : p.retryable ≡ none

default_policy_for_job-HasRanges : (t : String) → HasRanges (default_policy_for_job t)
unfolding default_policy_for_job
default_policy_for_job-HasRanges t = ground arith

granted_bounds :
    (p : Policy) (n : ℕ) (d : ℤ)
    → HasRanges p
    → let low = min (pos_part p.base_delay * 2 ^ n) (pos_part p.max_delay) in
      pos low ≤ℤ d
      → d ≤ℤ pos (low + pos_part p.max_jitter)
      → (pos 1000000000 ≤ℤ d) × (d ≤ℤ pos 3610000000000)
granted_bounds p n d r lo hi =
    let grows : pos_part p.base_delay * 1 ≤ pos_part p.base_delay * 2 ^ n =
      mul-le-mul_left (pos_part p.base_delay) (one-le-pow n 2 (omega arith)) in
    omega (arith, r.base_low, r.cap_low, r.cap_high, r.jitter_high)

granted :
    (j : Job) (e : Error) (p : Policy) (draw : ℕ)
    → p.retryable ≡ none
    → pos j.retry_count <ℤ p.max_retries
    → should_retry j e p draw ≡ ok (calculate_backoff j.retry_count p draw)
unfolding should_retry
granted j e p draw a h = rw a (ground arith)

exhausted :
    (j : Job) (e : Error) (p : Policy) (draw : ℕ)
    → p.retryable ≡ none
    → p.max_retries ≤ℤ pos j.retry_count
    → should_retry j e p draw ≡ err (wrap "retry_count, max_retries" err_max_retries_exceeded)
unfolding should_retry
exhausted j e p draw a h = rw a (ground arith)

-- Under the policy that the package selects for a job's type, ShouldRetry grants a retry exactly
-- while the job has used fewer retries than the policy allows. The delay that it grants is at
-- least a second and at most an hour and ten seconds; otherwise the error is
-- ErrMaxRetriesExceeded, wrapped.
pub should_retry_window :
    (j : Job) (e : Error) (draw : ℕ)
    → let p = default_policy_for_job j.job_type in
      (pos j.retry_count <ℤ p.max_retries
        → (d : ℤ) × (should_retry j e p draw ≡ ok d)
          × (pos 1000000000 ≤ℤ d)
          × (d ≤ℤ pos 3610000000000))
      × (p.max_retries ≤ℤ pos j.retry_count
          → should_retry j e p draw
            ≡ err (wrap "retry_count, max_retries" err_max_retries_exceeded))
should_retry_window j e draw =
    let p = default_policy_for_job j.job_type in
    let r = default_policy_for_job-HasRanges j.job_type in
    (
      λ h.
          let (lo, hi) =
            calculate_backoff_window j.retry_count p draw
              (default_policy_for_job-IsBounded j.job_type)
              (policy_fits j.job_type j.retry_count h) in
          let (a, b) =
            granted_bounds p j.retry_count (calculate_backoff j.retry_count p draw) r lo hi in
          (calculate_backoff j.retry_count p draw, granted j e p draw r.any_error h, a, b),
      exhausted j e p draw r.any_error,
    )
