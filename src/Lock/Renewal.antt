-- ===== src/Lock/Renewal.antt =====
-- DistributedLock (internal/lock/redis_lock.go): a lock that is extended in the background until it
-- is released. The ticks of autoExtend are a list, each with what the other clients do before it.
use distributed_task_schedul.Prelude.{
  ◌∷◌, [], String, Option, ℕ, List, ◌≡◌, Bool, false, some, none, true, if◌then◌else◌, All, ◌==◌,
  eq_iff, ◌<◌, refl,
}
use distributed_task_schedul.Lock.Server.{Server}
use distributed_task_schedul.Errors.{Error, Result, err, ok}
use distributed_task_schedul.Lock.Operations.{extend, release, acquire, millis}
use distributed_task_schedul.Lock.Exclusion.{
  Event, foreign_to, total_duration, extend_script-own, lock_run, lock_run-excludes,
}

pub record DistributedLock : Type 0 where
  pub key : String
  pub token : String
  pub ttl : ℕ
  -- whether the channel `done` is closed
  pub done : Bool

-- NewDistributedLock
unfoldable pub new_distributed_lock : String → (ttl : ℕ) → DistributedLock
new_distributed_lock key ttl = record { key = key; token = ""; ttl = ttl; done = false }

-- What a call comes to: it returns an error or nil, or closing a closed channel panics.
pub data Closed : Type 0 where
  returned : Option Error → Closed
  panicked : Closed

module _ (v : Server) where
  open v use {State}

  -- DistributedLock.Acquire; `drawn` is as in Acquire of the locker.
  unfoldable pub acquire_lock :
      (failure : Option Error)
      → (drawn : Result String) → DistributedLock
      → State
      → State × DistributedLock × Option Error
  acquire_lock failure drawn dl s =
      let (s', answer) = acquire v failure drawn dl.key dl.ttl s in
      elim answer [ err e ↦ (s', dl, some e) | ok token ↦ (s', record dl { token = token }, none) ]

  -- One tick of autoExtend, and whether it goes on.
  unfoldable pub extend_tick : (failure : Option Error) → DistributedLock → State → State × Bool
  extend_tick failure dl s =
      let (s', e) = extend v failure dl.key dl.token dl.ttl s in
      (s', elim e [ none ↦ true | some x ↦ false ])

  -- The loop of autoExtend, over its ticks, with the failures of Extend: it ends when the channel
  -- is closed or an extension fails, and then the others go on without it.
  unfoldable pub auto_extend :
      DistributedLock → List (List Event × Option Error) → State → State × Bool
  auto_extend dl [] s = (s, true)
  auto_extend dl ((others, failure) ∷ ticks) s =
      let before = lock_run v s others in
      let (s', goes_on) = extend_tick failure dl before in
      elim dl.done [
        | true ↦ (before, false)
        | false ↦ elim goes_on [ true ↦ auto_extend dl ticks s' | false ↦ (s', false) ]
      ]

  -- DistributedLock.Release
  unfoldable pub release_lock :
      (failure : Option Error) → DistributedLock → State → State × DistributedLock × Closed
  release_lock failure dl s =
      let (s', e) = release v failure dl.key dl.token s in
      if dl.done then (s, dl, panicked) else (s', record dl { done = true }, returned e)

  -- The lock is held by its token for its whole time to live.
  abbrev pub IsHeld : DistributedLock → State → Type 0
  IsHeld dl s = (v.get s dl.key ≡ some dl.token) × (v.pttl s dl.key ≡ millis dl.ttl)

  extend_tick-own :
      (dl : DistributedLock) (s : State)
      → v.get s dl.key ≡ some dl.token
      → (millis dl.ttl == 0) ≡ false
      → let (s', goes_on) = extend_tick none dl s in (goes_on ≡ true) × IsHeld dl s'
  unfolding extend_tick extend
  extend_tick-own dl s h positive =
      let own = (eq_iff dl.token dl.token).1 refl in
      let same = (eq_iff dl.key dl.key).1 refl in
      let done = extend_script-own v dl.key dl.token dl.token (millis dl.ttl) s h own in
      rw (extend_tick, extend, done)
        (
          refl,
          (
            rw (v.get-pexpire dl.key (millis dl.ttl) s dl.key, same, positive) h,
            rw (v.pttl-pexpire dl.key (millis dl.ttl) s dl.key dl.token h, same) refl,
          ),
        )

  -- What may come before a tick: calls of other clients, in less time than the lock has.
  abbrev pub InTime : DistributedLock → List (List Event × Option Error) → Type 0
  InTime dl = All λ tick.
      All (λ e. foreign_to dl.token e ≡ true) tick.0
      × (total_duration tick.0 < millis dl.ttl)
      × (tick.1 ≡ none)

  auto_extend-step :
      (dl : DistributedLock) (others : List Event) (failure : Option Error)
      (ticks : List (List Event × Option Error)) (s : State)
      → dl.done ≡ false
      → (extend_tick failure dl (lock_run v s others)).1 ≡ true
      → auto_extend dl ((others, failure) ∷ ticks) s
        ≡ auto_extend dl ticks (extend_tick failure dl (lock_run v s others)).0
  unfolding auto_extend extend_tick
  auto_extend-step dl others failure ticks s open_ go = rw (auto_extend, open_, go) refl

  -- A lock that is extended in time is never lost: whatever the other clients do, in whatever order, after any number of ticks that each come before the time to live is over, it is still held by its holder for all of that time.
  pub auto_extend-IsHeld :
      (dl : DistributedLock) (ticks : List (List Event × Option Error)) (s : State)
      → dl.done ≡ false
      → (millis dl.ttl == 0) ≡ false
      → IsHeld dl s
      → InTime dl ticks
      → let (s', goes_on) = auto_extend dl ticks s in (goes_on ≡ true) × IsHeld dl s'
  unfolding auto_extend
  auto_extend-IsHeld dl [] s open_ positive h t = (refl, h)
  auto_extend-IsHeld dl ((others, failure) ∷ ticks) s open_ positive h ((f, d, e), t) =
      let (held, _, _) = lock_run-excludes v dl.token dl.key others s h.0 f (rw (h.1) d) in
      let before = lock_run v s others in
      let (go, again) = extend_tick-own dl before held positive in
      rw e (
        rw (auto_extend-step dl others none ticks s open_ go)
          (auto_extend-IsHeld dl ticks (extend_tick none dl before).0 open_ positive again t))
