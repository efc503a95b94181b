-- ===== src/Lock/Server.antt =====
-- What internal/lock/redis_lock.go uses of the Redis server, which is not part of the repository:
-- string keys that expire. The keys are those of the locks, without the prefix scheduler:lock:.
use distributed_task_schedul.Prelude.{
  ℕ, ◌-◌, ◌<◌, String, ◌≡◌, false, ◌&&◌, Option, none, some, str_eq, ◌==◌, if◌then◌else◌,
}

pub record Server : Type 1 where
  pub State : Type 0
  -- GET, nil for a key that has expired
  pub get : State → String → Option String
  -- PTTL, in milliseconds
  pub pttl : State → String → ℕ
  -- SET key value PX ms
  pub set_px : (key value : String) → (ms : ℕ) → State → State
  pub del : String → State → State
  pub pexpire : String → (ms : ℕ) → State → State
  -- the clock of the server goes on
  pub elapse : (ms : ℕ) → State → State
  pub get-set_px :
      (k v : String) (ms : ℕ) (s : State) (l : String)
      → get (set_px k v ms s) l ≡ (if str_eq k l then some v else get s l)
  pub pttl-set_px :
      (k v : String) (ms : ℕ) (s : State) (l : String)
      → pttl (set_px k v ms s) l ≡ (if str_eq k l then ms else pttl s l)
  pub get-del :
      (k : String) (s : State) (l : String)
      → get (del k s) l ≡ (if str_eq k l then none else get s l)
  pub pttl-del :
      (k : String) (s : State) (l : String) → str_eq k l ≡ false → pttl (del k s) l ≡ pttl s l
  -- PEXPIRE with 0 milliseconds deletes the key
  pub get-pexpire :
      (k : String) (ms : ℕ) (s : State) (l : String)
      → get (pexpire k ms s) l ≡ (if str_eq k l && ms == 0 then none else get s l)
  pub pttl-pexpire :
      (k : String) (ms : ℕ) (s : State) (l held : String)
      → get s k ≡ some held
      → pttl (pexpire k ms s) l ≡ (if str_eq k l then ms else pttl s l)
  -- a key lives until its time is up
  pub get-elapse : (ms : ℕ) (s : State) (l : String) → ms < pttl s l → get (elapse ms s) l ≡ get s l
  pub pttl-elapse :
      (ms : ℕ) (s : State) (l : String) → ms < pttl s l → pttl (elapse ms s) l ≡ pttl s l - ms
  pub get-expired : (ms : ℕ) (s : State) (l : String) → pttl s l < ms → get (elapse ms s) l ≡ none
