-- ===== src/Lock/Waiting.antt =====
-- TryAcquire (internal/lock/redis_lock.go).
use distributed_task_schedul.Prelude.{
  refl, ℕ, ◌≡◌, String, List, Option, ◌∷◌, some, ◌==◌, [], none, false, if◌then◌else◌, ◌++◌, not,
  ◌+◌, length, suc, ◌∙◌, ap, arith,
}
use distributed_task_schedul.Lock.Server.{Server}
use distributed_task_schedul.Errors.{
  Result, Error, ok, err, err_lock_held, is_lock_held, wrap, err_lock_timeout,
}
use distributed_task_schedul.Lock.Operations.{acquire, acquire_script, acquired, millis}
use distributed_task_schedul.Lock.Exclusion.{Event, lock_run}

module _ (v : Server) where
  open v use {State, get}

  -- The loop, from one attempt on. At the i-th wait the ticker fires after the i-th events of the
  -- list; at the wait after the last of them the context is done, with the text of its error.
  unfoldable pub try_acquire :
      (tokens : ℕ → Result String)
      → (failures : ℕ → Option Error) → (key : String) → (ttl : ℕ) → (done : String)
      → List (List Event)
      → (attempt : ℕ) → State
      → State × Result String
  try_acquire tokens failures key ttl done [] attempt s =
      let (s', answer) = acquire v (failures attempt) (tokens attempt) key ttl s in
      elim answer [
        | ok token ↦ (s', ok token)
        | err e ↦
            if not (is_lock_held e) then (s', err e) else (s', err (wrap done err_lock_timeout))
      ]
  try_acquire tokens failures key ttl done (es ∷ waits) attempt s =
      let (s', answer) = acquire v (failures attempt) (tokens attempt) key ttl s in
      let rest = try_acquire tokens failures key ttl done waits (suc attempt) (lock_run v s' es) in
      elim answer [
        | ok token ↦ (s', ok token)
        | err e ↦ if not (is_lock_held e) then (s', err e) else rest
      ]

  -- The key is held at each of the attempts, and the state at the one after them.
  abbrev pub IsHeld : String → List (List Event) → State → Type 0
  IsHeld key [] s = Unit
  IsHeld key (es ∷ waits) s =
      ((held : String) × (get s key ≡ some held)) × IsHeld key waits (lock_run v s es)

  abbrev pub after : List (List Event) → State → State
  after [] s = s
  after (es ∷ waits) s = after waits (lock_run v s es)

  held-answer :
      (token key held : String) (ttl : ℕ) (s : State)
      → get s key ≡ some held
      → acquire v none (ok token) key ttl s ≡ (s, err err_lock_held)
  unfolding acquire acquire_script acquired
  held-answer token key held ttl s h = rw (acquire_script, h) refl

  free-answer :
      (token key : String) (ttl : ℕ) (s : State)
      → (millis ttl == 0) ≡ false
      → get s key ≡ none
      → acquire v none (ok token) key ttl s ≡ (v.set_px key token (millis ttl) s, ok token)
  unfolding acquire acquire_script acquired
  free-answer token key ttl s z h = rw (acquire_script, h, z) refl

  try_acquire-free :
      (tokens : ℕ → String) (key : String) (ttl : ℕ) (done : String) (waits : List (List Event))
      (attempt : ℕ) (s : State)
      → (millis ttl == 0) ≡ false
      → get s key ≡ none
      → (try_acquire (λ i. ok (tokens i)) (λ _. none) key ttl done waits attempt s).1
        ≡ ok (tokens attempt)
  unfolding try_acquire
  try_acquire-free tokens key ttl done [] attempt s z h =
      rw (try_acquire, free-answer (tokens attempt) key ttl s z h) refl
  try_acquire-free tokens key ttl done (es ∷ waits) attempt s z h =
      rw (try_acquire, free-answer (tokens attempt) key ttl s z h) refl

  try_acquire-next :
      (tokens : ℕ → String) (key held : String) (ttl : ℕ) (done : String) (es : List Event)
      (waits : List (List Event)) (attempt : ℕ) (s : State)
      → get s key ≡ some held
      → try_acquire (λ i. ok (tokens i)) (λ _. none) key ttl done (es ∷ waits) attempt s
        ≡ try_acquire
            (λ i. ok (tokens i))
            (λ _. none)
            key
            ttl
            done
            waits
            (suc attempt)
            (lock_run v s es)
  unfolding try_acquire
  try_acquire-next tokens key held ttl done es waits attempt s h =
      let d = held-answer (tokens attempt) key held ttl s h in rw (try_acquire, d, d) refl

  add_suc : (a n : ℕ) → suc a + n ≡ a + suc n
  add_suc a n = omega arith

  add_zero : (a : ℕ) → a ≡ a + 0
  add_zero a = omega arith

  -- TryAcquire goes on while the key is held, and takes it at the first attempt that finds it free, with the token of that attempt; if the context is done before, it answers with a timeout and has changed nothing itself.
  pub try_acquire-first :
      (tokens : ℕ → String) (key : String) (ttl : ℕ) (done : String)
      (waits more : List (List Event)) (attempt : ℕ) (s : State)
      → (millis ttl == 0) ≡ false
      → IsHeld key waits s
      → (get (after waits s) key ≡ none
          → (try_acquire (λ i. ok (tokens i)) (λ _. none) key ttl done (waits ++ more) attempt s).1
            ≡ ok (tokens (attempt + length waits)))
        × ((held : String)
            → get (after waits s) key ≡ some held
            → try_acquire (λ i. ok (tokens i)) (λ _. none) key ttl done waits attempt s
              ≡ (after waits s, err (wrap done err_lock_timeout)))
  unfolding try_acquire
  try_acquire-first tokens key ttl done [] more attempt s z h = (
    λ n.
        try_acquire-free tokens key ttl done more attempt s z n
        ∙ ap (λ k. ok (tokens k)) (add_zero attempt),
    λ held n. let d = held-answer (tokens attempt) key held ttl s n in rw (try_acquire, d, d) refl,
  )
  try_acquire-first tokens key ttl done (es ∷ waits) more attempt s z h =
      let s' = lock_run v s es in
      let (found, timeout) =
        try_acquire-first tokens key ttl done waits more (suc attempt) s' z h.1 in
      (
        λ n.
            rw (try_acquire-next tokens key h.0.0 ttl done es (waits ++ more) attempt s h.0.1)
              (found n ∙ ap (λ k. ok (tokens k)) (add_suc attempt (length waits))),
        λ held n.
            rw (try_acquire-next tokens key h.0.0 ttl done es waits attempt s h.0.1)
              (timeout held n),
      )
