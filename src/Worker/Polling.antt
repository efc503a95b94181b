-- ===== src/Worker/Polling.antt =====
-- The waits of the loop of a worker goroutine (internal/worker/pool.go), in nanoseconds.
use distributed_task_schedul.Prelude.{
  ℕ, ◌≡◌, ◌+◌, List, ◌≤◌, if◌then◌else◌, ◌∷◌, [], min, ltb, suc, ◌*◌, zero, inl, inr, arith,
  Bool-cases, refl, ltb→lt, ◌∙◌,
}
use distributed_task_schedul.Models.Job.{Job}
use distributed_task_schedul.Errors.{err_queue_empty, Result, Error, ok, err}

-- The intervals of Config.
pub record Config : Type 0 where
  pub poll_interval : ℕ
  pub queue_empty_backoff : ℕ

-- One second and 100 milliseconds.
abbrev pub default_config : Config
default_config = record { poll_interval = 1000000000; queue_empty_backoff = 100000000 }

-- 30 seconds.
abbrev pub max_poll : ℕ
max_poll = 30000000000

-- What Dequeue returns in one round.
pub data Poll : Type 0 where
  finds : Job → Poll
  empty_queue : Poll
  breaks : Error → Poll

unfoldable pub poll_of : Result Job → Poll
poll_of (ok j) = finds j
poll_of (err err_queue_empty) = empty_queue
poll_of (err e) = breaks e

-- The wait of a round, and `pollInterval` after it.
unfoldable pub poll_round : Config → Poll → ℕ → ℕ × ℕ
poll_round cfg (finds j) interval = (0, cfg.poll_interval)
poll_round cfg empty_queue interval =
    let longer = interval + cfg.queue_empty_backoff in
    (interval, if ltb max_poll longer then max_poll else longer)
poll_round cfg (breaks e) interval = (cfg.poll_interval, interval)

unfoldable pub poll_rounds : Config → List Poll → ℕ → List ℕ × ℕ
unfolding poll_round
poll_rounds cfg [] interval = ([], interval)
poll_rounds cfg (p ∷ ps) interval =
    let (wait, after) = poll_round cfg p interval in
    let (waits, last) = poll_rounds cfg ps after in (wait ∷ waits, last)

abbrev pub empties : ℕ → List Poll
empties zero = []
empties (suc n) = empty_queue ∷ empties n

capped :
    (interval b n : ℕ)
    → min max_poll ((if ltb max_poll (interval + b) then max_poll else interval + b) + n * b)
      ≡ min max_poll (interval + suc n * b)
capped interval b n = elim (Bool-cases (ltb max_poll (interval + b))) [
  | inl e ↦ rw e (omega (arith, ltb→lt max_poll (interval + b) e))
  | inr e ↦ rw e (omega arith)
]

rounds-grow :
    (cfg : Config) (n interval : ℕ)
    → interval ≤ max_poll
    → (poll_rounds cfg (empties n) interval).1
      ≡ min max_poll (interval + n * cfg.queue_empty_backoff)
unfolding poll_rounds
rounds-grow cfg zero interval h = omega arith
rounds-grow cfg (suc n) interval h =
    let longer = interval + cfg.queue_empty_backoff in
    let next = if ltb max_poll longer then max_poll else longer in
    rounds-grow cfg n next (ground arith) ∙ capped interval cfg.queue_empty_backoff n

-- After n polls of an empty queue in a row the interval has grown by n backoffs, and stops at 30 seconds; a job that is found resets it.
pub poll_rounds-grows :
    (cfg : Config) (n : ℕ)
    → cfg.poll_interval ≤ max_poll
    → ((poll_rounds cfg (empties n) cfg.poll_interval).1
        ≡ min max_poll (cfg.poll_interval + n * cfg.queue_empty_backoff))
      × ((j : Job) (interval : ℕ)
          → (poll_rounds cfg (finds j ∷ empties n) interval).1
            ≡ (poll_rounds cfg (empties n) cfg.poll_interval).1)
unfolding poll_rounds
poll_rounds-grows cfg n h = (rounds-grow cfg n cfg.poll_interval h, λ j interval. refl)
