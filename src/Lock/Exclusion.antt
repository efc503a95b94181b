-- ===== src/Lock/Exclusion.antt =====
-- The lock of internal/lock/redis_lock.go under any interleaving of its clients. Tokens are random,
-- so that those of different acquisitions differ.
use distributed_task_schedul.Prelude.{
  ℕ, ◌≡◌, String, List, Bool, ◌∷◌, some, not, ◌+◌, none, [], All, str_eq, true, ◌<◌, ◌==◌, ◌-◌,
  false, eq_iff, arith, refl, ◌∙◌, ap, Option-cases, inl, inr,
}
use distributed_task_schedul.Lock.Server.{Server}
use distributed_task_schedul.Lock.Operations.{
  acquire, release, acquire_script, extend, acquired, release_script, millis, extend_script,
}
use distributed_task_schedul.Errors.{ok, err, err_lock_not_held, err_lock_held}

-- A call of a client, with the token that it draws or holds, or the passing of time.
pub data Event : Type 0 where
  acquires : (token key : String) → (ttl : ℕ) → Event
  releases : (token key : String) → Event
  extends : (token key : String) → (ttl : ℕ) → Event
  elapses : (ms : ℕ) → Event

-- The event is not one of the client that holds the token.
abbrev pub foreign_to : String → Event → Bool
foreign_to mine (acquires token key ttl) = not (str_eq mine token)
foreign_to mine (releases token key) = not (str_eq mine token)
foreign_to mine (extends token key ttl) = not (str_eq mine token)
foreign_to mine (elapses ms) = true

abbrev pub duration : Event → ℕ
duration (elapses ms) = ms
duration _ = 0

abbrev pub total_duration : List Event → ℕ
total_duration [] = 0
total_duration (e ∷ es) = duration e + total_duration es

module _ (v : Server) where
  open v use {State, get, pttl}

  unfoldable pub lock_step : State → Event → State
  lock_step s (acquires token key ttl) = (acquire v none (ok token) key ttl s).0
  lock_step s (releases token key) = (release v none key token s).0
  lock_step s (extends token key ttl) = (extend v none key token ttl s).0
  lock_step s (elapses ms) = v.elapse ms s

  unfoldable pub lock_run : State → List Event → State
  lock_run s [] = s
  lock_run s (e ∷ es) = lock_run (lock_step s e) es

  acquire_script-free :
      (key token : String) (ms : ℕ) (s : State)
      → (ms == 0) ≡ false
      → get s key ≡ none
      → acquire_script v key token ms s ≡ (v.set_px key token ms s, ok true)
  unfolding acquire_script
  acquire_script-free key token ms s h n = rw (acquire_script, n, h) refl

  acquire_script-held :
      (key token held : String) (ms : ℕ) (s : State)
      → get s key ≡ some held
      → acquire_script v key token ms s ≡ (s, ok false)
  unfolding acquire_script
  acquire_script-held key token held ms s n = rw (acquire_script, n) refl

  pub release_script-own :
      (key token held : String) (s : State)
      → get s key ≡ some held
      → str_eq held token ≡ true
      → release_script v key token s ≡ (v.del key s, true)
  unfolding release_script
  release_script-own key token held s n e = rw (release_script, n, e) refl

  release_script-other :
      (key token held : String) (s : State)
      → get s key ≡ some held
      → str_eq held token ≡ false
      → release_script v key token s ≡ (s, false)
  unfolding release_script
  release_script-other key token held s n e = rw (release_script, n, e) refl

  pub extend_script-own :
      (key token held : String) (ms : ℕ) (s : State)
      → get s key ≡ some held
      → str_eq held token ≡ true
      → extend_script v key token ms s ≡ (v.pexpire key ms s, true)
  unfolding extend_script
  extend_script-own key token held ms s n e = rw (extend_script, n, e) refl

  extend_script-other :
      (key token held : String) (ms : ℕ) (s : State)
      → get s key ≡ some held
      → str_eq held token ≡ false
      → extend_script v key token ms s ≡ (s, false)
  unfolding extend_script
  extend_script-other key token held ms s n e = rw (extend_script, n, e) refl

  -- Acquire takes a free key for the given time and answers with the token; a held key it leaves alone and answers that it is held.
  pub acquire-grants :
      (token key : String) (ttl : ℕ) (s : State)
      → (millis ttl == 0) ≡ false
      → let (s', answer) = acquire v none (ok token) key ttl s in
        (get s key ≡ none
          → (answer ≡ ok token)
            × (get s' key ≡ some token)
            × (pttl s' key ≡ millis ttl)
            × ((l : String) → str_eq key l ≡ false → get s' l ≡ get s l))
        × ((held : String) → get s key ≡ some held → (answer ≡ err err_lock_held) × (s' ≡ s))
  unfolding acquire acquire_script acquired
  acquire-grants token key ttl s h =
      let free = acquire_script-free key token (millis ttl) s h in
      let same = (eq_iff key key).1 refl in
      (
        λ n. rw (free n) (
          refl,
          rw (v.get-set_px key token (millis ttl) s key, same) refl,
          rw (v.pttl-set_px key token (millis ttl) s key, same) refl,
          λ l other. rw (v.get-set_px key token (millis ttl) s l, other) refl,
        ),
        λ held n. rw (acquire_script-held key token held (millis ttl) s n) (refl, refl),
      )

  -- A held key and the time that it has left.
  abbrev Holds : State → String → String → ℕ → Type 0
  Holds s key mine left = (get s key ≡ some mine) × (pttl s key ≡ left)

  step-Holds :
      (mine key : String) (e : Event) (s : State) (left : ℕ)
      → Holds s key mine left
      → foreign_to mine e ≡ true
      → duration e < left
      → Holds (lock_step s e) key mine (left - duration e)
  unfolding lock_step acquire release extend acquire_script release_script extend_script
  step-Holds mine key (acquires token k ttl) s left h f d = ground (
    arith,
    h.0,
    h.1,
    eq_iff k key,
    v.get-set_px k token (millis ttl) s key,
    v.pttl-set_px k token (millis ttl) s key,
  )
  step-Holds mine key (releases token k) s left h f d =
      ground (arith, h.0, h.1, f, eq_iff k key, v.get-del k s key, v.pttl-del k s key)
  step-Holds mine key (extends token k ttl) s left h f d = elim (Option-cases (get s k)) [
    | inl n ↦ ground (arith, h.0, h.1, n)
    | inr (held, n) ↦ ground (
      arith,
      h.0,
      h.1,
      f,
      n,
      eq_iff k key,
      v.get-pexpire k (millis ttl) s key,
      v.pttl-pexpire k (millis ttl) s key held n,
    )
  ]
  step-Holds mine key (elapses ms) s left h f d = (
    v.get-elapse ms s key (rw (h.1) d) ∙ h.0,
    v.pttl-elapse ms s key (rw (h.1) d) ∙ ap (λ n. n - ms) h.1,
  )

  -- As long as a lock's time to live is not over, whatever the other clients do, and in whatever order, its key holds the token of its holder, and every Acquire of the key is answered that it is held.
  pub lock_run-excludes :
      (mine key : String) (es : List Event) (s : State)
      → get s key ≡ some mine
      → All (λ e. foreign_to mine e ≡ true) es
      → total_duration es < pttl s key
      → (get (lock_run s es) key ≡ some mine)
        × (pttl (lock_run s es) key ≡ pttl s key - total_duration es)
        × ((token : String) (ttl : ℕ)
            → acquire v none (ok token) key ttl (lock_run s es)
              ≡ (lock_run s es, err err_lock_held))
  unfolding lock_run acquire
  lock_run-excludes mine key [] s h f d = (
    h,
    omega arith,
    λ token ttl. rw (acquire, acquire_script-held key token mine (millis ttl) s h) refl,
  )
  lock_run-excludes mine key (e ∷ es) s h f d =
      let (h', p) = step-Holds mine key e s (pttl s key) (h, refl) f.0 (omega (arith, d)) in
      let (g, q, denied) =
        lock_run-excludes mine key es (lock_step s e) h' f.1 (omega (arith, d, p)) in
      (g, omega (arith, p, q), denied)

  -- Release and Extend act only for the holder: with its token Release frees the key and Extend gives it the new time; with any other token both answer that the lock is not held and change nothing.
  pub release-extend :
      (key held token : String) (ttl : ℕ) (s : State)
      → get s key ≡ some held
      → let (freed, e) = release v none key token s in
        let (longer, e') = extend v none key token ttl s in
        (str_eq held token ≡ true
          → (e ≡ none) × (get freed key ≡ none) × (e' ≡ none) × (pttl longer key ≡ millis ttl))
        × (str_eq held token ≡ false
            → (e ≡ some err_lock_not_held)
              × (freed ≡ s)
              × (e' ≡ some err_lock_not_held)
              × (longer ≡ s))
  unfolding release extend release_script extend_script
  release-extend key held token ttl s h =
      let same = (eq_iff key key).1 refl in
      (
        λ e.
            rw
              (
                release_script-own key token held s h e,
                extend_script-own key token held (millis ttl) s h e,
              )
              (
                refl,
                rw (v.get-del key s key, same) refl,
                refl,
                rw (v.pttl-pexpire key (millis ttl) s key held h, same) refl,
              ),
        λ e.
            rw
              (
                release_script-other key token held s h e,
                extend_script-other key token held (millis ttl) s h e,
              )
              (refl, refl, refl, refl),
      )
