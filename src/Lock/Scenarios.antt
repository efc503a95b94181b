-- ===== src/Lock/Scenarios.antt =====
-- A lock that is extended in the background, at a concrete server (internal/lock/redis_lock.go).
use distributed_task_schedul.Lock.Renewal.{
  DistributedLock, auto_extend, release_lock, extend_tick, IsHeld, panicked, auto_extend-IsHeld,
}
use distributed_task_schedul.Prelude.{
  List, false, All, Option, ◌≡◌, none, ◌∷◌, true, [], refl, arith, ◌<◌,
}
use distributed_task_schedul.Lock.Exclusion.{
  foreign_to, Event, acquires, elapses, lock_run, releases, lock_step, total_duration,
}
use distributed_task_schedul.Lock.Examples.{keys_server, held_keys}
use distributed_task_schedul.Lock.Operations.{extend, extend_script, millis}
use distributed_task_schedul.Errors.{Error}

abbrev leader_lock : DistributedLock
leader_lock = record { key = "leader"; token = "alice"; ttl = 2000000000; done = false }

-- What comes before each of three ticks; 2000/3 milliseconds lie between them, and a bit more.
abbrev attempts : List Event
attempts = acquires "bob" "leader" 1000000000 ∷ elapses 667 ∷ releases "carol" "leader" ∷ []

abbrev three_ticks : List (List Event × Option Error)
three_ticks = (attempts, none) ∷ (elapses 668 ∷ [], none) ∷ (attempts, none) ∷ []

attempts_foreign : All (λ e. foreign_to "alice" e ≡ true) attempts
attempts_foreign = (refl, (refl, (refl, tt)))

attempts_in_time :
    All (λ e. foreign_to "alice" e ≡ true) attempts
    × (total_duration attempts < millis leader_lock.ttl)
    × (◌≡◌ {A = Option Error} none none)
attempts_in_time = (attempts_foreign, omega arith, refl)

brief :
    All (λ e. foreign_to "alice" e ≡ true) (elapses 668 ∷ [])
    × (total_duration (elapses 668 ∷ []) < millis leader_lock.ttl)
    × (◌≡◌ {A = Option Error} none none)
brief = ((refl, tt), omega arith, refl)

auto_extend-IsHeld_example :
    let (s', goes_on) = auto_extend keys_server leader_lock three_ticks held_keys in
    (goes_on ≡ true) × IsHeld keys_server leader_lock s'
auto_extend-IsHeld_example =
    auto_extend-IsHeld keys_server leader_lock three_ticks held_keys refl refl (refl, refl)
      (attempts_in_time, (brief, (attempts_in_time, tt)))

-- The tick whose extension fails is the last one.
lost_at_once :
    (auto_extend keys_server leader_lock ((elapses 2500 ∷ [], none) ∷ three_ticks) held_keys).1
    ≡ false
unfolding auto_extend extend_tick extend extend_script lock_run lock_step
lost_at_once = refl

-- A second Release closes a closed channel.
released_twice :
    let (s', dl, _) = release_lock keys_server none leader_lock held_keys in
    (release_lock keys_server none dl s').2 ≡ panicked
unfolding release_lock
released_twice = refl
