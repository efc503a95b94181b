-- ===== src/Queue/Pool.antt =====
-- What a job queue promises (the interface Queue of internal/queue/redis.go, as RedisQueue keeps
-- it), with no word of Redis: which jobs wait at which priority and in which order, which are put
-- off, held by a worker or dead, and what is known of each. It is a specification, not a model.
use distributed_task_schedul.Prelude.{
  refl, ℤ, ℕ, String, List, Option, Bool, if◌then◌else◌, some, none, ◌∷◌, ◌==◌, str_eq, eqb_ℤ,
  leb_ℤ, false, [], ◌&&◌, pos, true, ◌≡◌, ◌*◌, ltb, ◌+◌, ◌-◌, ltb_ℤ, ◌+ℤ◌, wrap64, ◌*ℤ◌, ◌^◌, ◌%◌,
}
use distributed_task_schedul.Errors.{Error, wrap, Result, foreign, err, ok, err_queue_empty}
use distributed_task_schedul.Models.Job.{Job}
use distributed_task_schedul.Queue.Redis.{get_last?, drop_last}
use distributed_task_schedul.Queue.Operations.{unix_milli}
use distributed_task_schedul.Models.Status.{status_eq, dead_letter, failed, pending}

pub record Pool : Type 0 where
  -- the ids that wait at a priority, the latest first
  pub waiting : ℤ → List ℕ
  pub dead : List ℕ
  pub later : ℕ → Bool
  pub held : String → ℕ → Bool
  pub known : ℕ → Option Job
  -- for how many milliseconds it is known still
  pub lives : ℕ → ℕ

pub data Call : Type 0 where
  enqueues : (now : ℤ) → Job → Call
  dequeues : (clock_ms : ℤ) (worker : String) → (timeout : ℕ) → Call
  acknowledges : ℕ → (worker : String) → Call
  requeues : Job → Call
  nacks : (now : ℤ) → Job → (worker msg : String) → Call
  -- time passes between two calls
  passes : (ms : ℕ) → Call

abbrev pub put {ℓ} : {V : Type ℓ} → ℕ → V → (ℕ → V) → ℕ → V
put i v f j = if i == j then v else f j

abbrev pub put_held : String → ℕ → Bool → (String → ℕ → Bool) → String → ℕ → Bool
put_held worker i b f w j = if str_eq worker w && i == j then b else f w j

abbrev pub wait : ℤ → ℕ → Pool → Pool
wait p id q = record q { waiting = λ x. if eqb_ℤ p x then id ∷ q.waiting x else q.waiting x }

abbrev pub postpone : ℕ → Pool → Pool
postpone id q = record q { later = put id true q.later }

abbrev pub hold : String → ℕ → Bool → Pool → Pool
hold worker id b q = record q { held = put_held worker id b q.held }

abbrev pub forget : ℕ → Pool → Pool
forget id q = record q { known = put id none q.known; lives = put id 0 q.lives }

abbrev pub entomb : ℕ → Pool → Pool
entomb id q = record q { dead = id ∷ q.dead }

abbrev pub take_oldest : ℤ → Pool → Pool
take_oldest p q = record q {
  waiting = λ x. if eqb_ℤ p x then drop_last (q.waiting x) else q.waiting x;
}

-- What is written is known for so many days.
abbrev pub learn : (days : ℕ) → ℕ → Job → Pool → Pool
learn days id k q = record q {
  known = put id (some k) q.known;
  lives = put id (days * 86400000) q.lives;
}

abbrev pub grow_old : (ms : ℕ) → Pool → Pool
grow_old ms q = record q {
  known = λ i. if ltb ms (q.lives i) then q.known i else none;
  lives = λ i. q.lives i - ms;
}

-- The priorities, the most urgent first.
abbrev pub urgencies : List ℕ
urgencies = 0 ∷ 1 ∷ 2 ∷ 3 ∷ 4 ∷ 5 ∷ 6 ∷ 7 ∷ 8 ∷ 9 ∷ []

-- A job that failed is tried again while it has retries left, with a time that is 5 seconds away,
-- doubled for each retry with this one, and a jitter below a second, all in the arithmetic of an
-- int64; and else it is dead.
abbrev pub may_retry : Job → Bool
may_retry j = status_eq j.status failed && ltb_ℤ (pos j.retry_count) j.max_retries

abbrev pub tried_again : (id_low : ℕ → ℕ) → (now : ℤ) → Job → String → Job
tried_again id_low now j msg = record j {
  retry_count = j.retry_count + 1;
  status = pending;
  error_message = msg;
  scheduled_at =
      now
      +ℤ wrap64 (
          wrap64 (pos 5000000000 *ℤ wrap64 (pos (2 ^ (j.retry_count + 1))))
          +ℤ pos (id_low j.id % 1000 * 1000000));
}

abbrev pub dead_job : Job → String → Job
dead_job j msg = record j { status = dead_letter; error_message = msg }

-- The first priority at which a job waits, and the job that has waited longest there.
unfoldable pub next : List ℕ → (ℤ → List ℕ) → Option (ℕ × ℕ)
next [] waiting = none
next (p ∷ ps) waiting = elim (get_last? (waiting (pos p))) [
  | none ↦ next ps waiting
  | some id ↦ some (p, id)
]

abbrev pub unreadable : Error
unreadable = wrap "unmarshal job data" (foreign "json")

abbrev pub answer_of : Option Job → Result (Option Job)
answer_of none = err unreadable
answer_of (some j) = ok (some j)

abbrev pub unwritable : Error
unwritable = wrap "marshal job" (foreign "json")

abbrev pub arrive : (now : ℤ) → Job → Pool → Pool
arrive now j q =
    if leb_ℤ (unix_milli j.scheduled_at) (unix_milli now)
    then wait j.priority j.id q
    else postpone j.id q

abbrev pub hand_out : String → Option (ℕ × ℕ) → Pool → Pool × Result (Option Job)
hand_out worker none q = (q, err err_queue_empty)
hand_out worker (some (p, id)) q =
    (hold worker id true (take_oldest (pos p) q), answer_of (q.known id))

abbrev pub bury : String → Job → Pool → Pool
bury worker j q = hold worker j.id false (entomb j.id q)

-- `kept j` is what is kept of a job that is written, if it can be.
module _ (kept : Job → Option Job) where
  abbrev pub written : (days : ℕ) → Job → (Job → Pool → Pool) → Pool → Pool × Result (Option Job)
  written days j change q = elim (kept j) [
    | none ↦ (q, err unwritable)
    | some k ↦ (change j (learn days j.id k q), ok none)
  ]

  pub written-lost :
      (days : ℕ) (j : Job) (change : Job → Pool → Pool) (q : Pool)
      → kept j ≡ none
      → written days j change q ≡ (q, err unwritable)
  written-lost days j change q e = rw (written, e) refl

  pub written-kept :
      (days : ℕ) (j : Job) (change : Job → Pool → Pool) (q : Pool) (k : Job)
      → kept j ≡ some k
      → written days j change q ≡ (change j (learn days j.id k q), ok none)
  written-kept days j change q k e = rw (written, e) refl

module _ (kept : Job → Option Job) (id_low : ℕ → ℕ) where
  unfoldable pub pool_step : Pool → Call → Pool × Result (Option Job)
  pool_step q (enqueues now j) = written kept 7 j (arrive now) q
  pool_step q (dequeues clock_ms worker timeout) = hand_out worker (next urgencies q.waiting) q
  pool_step q (acknowledges id worker) = (hold worker id false (forget id q), ok none)
  pool_step q (requeues j) = written kept 7 j (λ k. wait k.priority k.id) q
  pool_step q (nacks now j worker msg) =
      if may_retry j
      then written kept 7 (tried_again id_low now j msg) (λ k. wait k.priority k.id) q
      else written kept 30 (dead_job j msg) (bury worker) q
  pool_step q (passes ms) = (grow_old ms q, ok none)

  unfoldable pub pool_run : Pool → List Call → Pool × List (Result (Option Job))
  pool_run q [] = (q, [])
  pool_run q (call ∷ calls) =
      let (q', answer) = pool_step q call in
      let (q'', answers) = pool_run q' calls in (q'', answer ∷ answers)
