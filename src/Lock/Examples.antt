-- ===== src/Lock/Examples.antt =====
-- The properties of the lock at a concrete server: a list of keys with their values and times.
use distributed_task_schedul.Prelude.{
  ℕ, ◌≡◌, String, Option, none, some, List, if◌then◌else◌, ◌<◌, arith, ◌-◌, leb, ◌==◌, refl, str_eq,
  eq_iff, ◌∷◌, false, [], ◌&&◌,
}
use distributed_task_schedul.Lock.Server.{Server}
use distributed_task_schedul.Lock.Operations.{acquire}
use distributed_task_schedul.Lock.Exclusion.{
  lock_run, Event, elapses, acquires, releases, lock_run-excludes,
}
use distributed_task_schedul.Errors.{ok, err, err_lock_held}

-- A value and the milliseconds that it has left, for each key.
abbrev pub Keys : Type 0
Keys = String → Option (String × ℕ)

abbrev pub value_of : Option (String × ℕ) → Option String
value_of none = none
value_of (some (x, left)) = some x

abbrev pub left_of : Option (String × ℕ) → ℕ
left_of none = 0
left_of (some (x, left)) = left

abbrev pub aged : ℕ → Option (String × ℕ) → Option (String × ℕ)
aged ms none = none
aged ms (some (x, left)) = if leb left ms then none else some (x, left - ms)

abbrev pub renewed : ℕ → Option (String × ℕ) → Option (String × ℕ)
renewed ms none = none
renewed ms (some (x, left)) = if ms == 0 then none else some (x, ms)

pub value-aged :
    (ms : ℕ) (o : Option (String × ℕ)) → ms < left_of o → value_of (aged ms o) ≡ value_of o
value-aged ms none h = refl
value-aged ms (some (x, left)) h = ground arith

pub left-aged :
    (ms : ℕ) (o : Option (String × ℕ)) → ms < left_of o → left_of (aged ms o) ≡ left_of o - ms
left-aged ms none h = omega arith
left-aged ms (some (x, left)) h = ground arith

pub value-expired :
    (ms : ℕ) (o : Option (String × ℕ)) → left_of o < ms → value_of (aged ms o) ≡ none
value-expired ms none h = refl
value-expired ms (some (x, left)) h = ground arith

value-renewed :
    (ms : ℕ) (o : Option (String × ℕ))
    → value_of (renewed ms o) ≡ (if ms == 0 then none else value_of o)
value-renewed ms none = ground arith
value-renewed ms (some (x, left)) = ground arith

left-renewed :
    (ms : ℕ) (o : Option (String × ℕ)) (held : String)
    → value_of o ≡ some held
    → left_of (renewed ms o) ≡ ms
left-renewed ms none held h = cc
left-renewed ms (some (x, left)) held h = ground arith

abbrev pub set_key : String → Option (String × ℕ) → Keys → Keys
set_key k o s l = if str_eq k l then o else s l

pub value-set :
    (k : String) (o : Option (String × ℕ)) (s : Keys) (l : String)
    → value_of (set_key k o s l) ≡ (if str_eq k l then value_of o else value_of (s l))
value-set k o s l = ground arith

pub left-set :
    (k : String) (o : Option (String × ℕ)) (s : Keys) (l : String)
    → left_of (set_key k o s l) ≡ (if str_eq k l then left_of o else left_of (s l))
left-set k o s l = ground arith

pub left-del :
    (k : String) (s : Keys) (l : String)
    → str_eq k l ≡ false
    → left_of (set_key k none s l) ≡ left_of (s l)
left-del k s l h = ground (arith, h)

pub value-pexpire :
    (k : String) (ms : ℕ) (s : Keys) (l : String)
    → value_of (set_key k (renewed ms (s k)) s l)
      ≡ (if str_eq k l && ms == 0 then none else value_of (s l))
value-pexpire k ms s l = ground (arith, eq_iff k l, value-renewed ms (s k))

pub left-pexpire :
    (k : String) (ms : ℕ) (s : Keys) (l held : String)
    → value_of (s k) ≡ some held
    → left_of (set_key k (renewed ms (s k)) s l) ≡ (if str_eq k l then ms else left_of (s l))
left-pexpire k ms s l held h = ground (arith, left-renewed ms (s k) held h)

abbrev pub keys_server : Server
keys_server = record {
  State = Keys;
  get = λ s k. value_of (s k);
  pttl = λ s k. left_of (s k);
  set_px = λ k x ms. set_key k (some (x, ms));
  del = λ k. set_key k none;
  pexpire = λ k ms s. set_key k (renewed ms (s k)) s;
  elapse = λ ms s k. aged ms (s k);
  get-set_px = λ k x ms s l. value-set k (some (x, ms)) s l;
  pttl-set_px = λ k x ms s l. left-set k (some (x, ms)) s l;
  get-del = λ k s l. value-set k none s l;
  pttl-del = left-del;
  get-pexpire = value-pexpire;
  pttl-pexpire = left-pexpire;
  get-elapse = λ ms s l h. value-aged ms (s l) h;
  pttl-elapse = λ ms s l h. left-aged ms (s l) h;
  get-expired = λ ms s l h. value-expired ms (s l) h;
}

abbrev pub no_keys : Keys
no_keys k = none

-- The leader's lock, for two seconds.
abbrev pub held_keys : Keys
held_keys = set_key "leader" (some ("alice", 2000)) no_keys

abbrev others : List Event
others = acquires "bob" "leader" 1000000000 ∷ elapses 1500 ∷ releases "carol" "leader" ∷ []

lock_run-excludes_example :
    (value_of (lock_run keys_server held_keys others "leader") ≡ some "alice")
    × (left_of (lock_run keys_server held_keys others "leader") ≡ 2000 - 1500)
    × ((token : String) (ttl : ℕ)
        → acquire keys_server none (ok token) "leader" ttl (lock_run keys_server held_keys others)
          ≡ (lock_run keys_server held_keys others, err err_lock_held))
lock_run-excludes_example =
    lock_run-excludes keys_server "alice" "leader" others held_keys refl (refl, (refl, (refl, tt)))
      (omega arith)
