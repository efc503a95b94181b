-- ===== src/Lock/Operations.antt =====
-- RedisLocker (internal/lock/redis_lock.go): Acquire, Release, Extend and IsHeld with their scripts.
-- `token` is what generateToken returns, `failure` the error of the call of Redis; a `ttl` is in
-- nanoseconds.
use distributed_task_schedul.Prelude.{
  ℕ, ◌/◌, String, Option, Bool, some, false, if◌then◌else◌, ◌==◌, true, none, str_eq,
}
use distributed_task_schedul.Lock.Server.{Server}
use distributed_task_schedul.Errors.{
  Result, Error, err, ok, wrap, err_lock_held, err_lock_not_held, foreign,
}

-- time.Duration.Milliseconds
abbrev pub millis : ℕ → ℕ
millis ttl = ttl / 1000000

module _ (v : Server) where
  open v use {State, get, set_px, del, pexpire}

  -- The reply of a script, or its error; SET … PX 0 is one.
  unfoldable pub acquire_script : String → String → (ms : ℕ) → State → State × Result Bool
  acquire_script key token ms s = elim (get s key) [
    | some held ↦ (s, ok false)
    | none ↦
        if ms == 0
        then (s, err (foreign "invalid expire time"))
        else (set_px key token ms s, ok true)
  ]

  unfoldable pub release_script : String → String → State → State × Bool
  release_script key token s = elim (get s key) [
    | none ↦ (s, false)
    | some held ↦ if str_eq held token then (del key s, true) else (s, false)
  ]

  unfoldable pub extend_script : String → String → (ms : ℕ) → State → State × Bool
  extend_script key token ms s = elim (get s key) [
    | none ↦ (s, false)
    | some held ↦ if str_eq held token then (pexpire key ms s, true) else (s, false)
  ]

  -- What Acquire makes of the reply.
  unfoldable pub acquired : String → Result Bool → Result String
  acquired token (err e) = err (wrap "acquire lock" e)
  acquired token (ok true) = ok token
  acquired token (ok false) = err err_lock_held

  unfoldable pub acquire :
      (failure : Option Error) → Result String → String → (ttl : ℕ) → State → State × Result String
  unfolding acquired
  acquire failure (err e) key ttl s = (s, err (wrap "generate lock token" e))
  acquire (some e) (ok token) key ttl s = (s, err (wrap "acquire lock" e))
  acquire none (ok token) key ttl s =
      let (s', reply) = acquire_script key token (millis ttl) s in (s', acquired token reply)

  unfoldable pub release : (failure : Option Error) → String → String → State → State × Option Error
  release (some e) key token s = (s, some (wrap "release lock" e))
  release none key token s =
      let (s', released) = release_script key token s in
      (s', if released then none else some err_lock_not_held)

  unfoldable pub extend :
      (failure : Option Error) → String → String → (ttl : ℕ) → State → State × Option Error
  extend (some e) key token ttl s = (s, some (wrap "extend lock" e))
  extend none key token ttl s =
      let (s', extended) = extend_script key token (millis ttl) s in
      (s', if extended then none else some err_lock_not_held)

  unfoldable pub is_held : (failure : Option Error) → String → String → State → Result Bool
  is_held (some e) key token s = err (wrap "check lock" e)
  is_held none key token s = elim (get s key) [
    | none ↦ ok false
    | some held ↦ ok (str_eq held token)
  ]
