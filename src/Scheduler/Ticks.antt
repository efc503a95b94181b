-- ===== src/Scheduler/Ticks.antt =====
-- The delayed loop of several schedulers, which the lock keeps apart (internal/scheduler/scheduler.go).
use distributed_task_schedul.Lock.Operations.{millis, acquire, release}
use distributed_task_schedul.Queue.Redis.{
  Codec, Redis, delayed, contains, ZsetKey, zset_key_eq, ready, ListKey,
}
use distributed_task_schedul.Scheduler.Loops.{
  processor_ttl, process_delayed_jobs, TickFailures, Shared, processor_key, move_locked,
  delayed_batch, calm,
}
use distributed_task_schedul.Prelude.{
  ◌==◌, ◌≡◌, ℤ, false, Option, String, refl, List, some, none, All, str_eq, true, ◌<◌,
  if◌then◌else◌, pair_eq, eq_iff, pair_ext, ℕ, inr, pos, ◌≤ℤ◌, length, ◌≤◌, take, ◌&&◌,
}
use distributed_task_schedul.Lock.Server.{Server}
use distributed_task_schedul.Errors.{Result, Error, err, ok, wrap, err_lock_held}
use distributed_task_schedul.Lock.Exclusion.{
  Event, foreign_to, acquire-grants, total_duration, lock_run, lock_run-excludes,
  release_script-own,
}
use distributed_task_schedul.Queue.Delayed.{move_delayed-moves}
use distributed_task_schedul.Queue.Operations.{unix_milli}
use distributed_task_schedul.Models.Job.{Job}

ttl_above_zero : (millis processor_ttl == 0) ≡ false
ttl_above_zero = refl

module _ (c : Codec) (r : Redis c.Blob) (v : Server) where
  tick-refused :
      (k : TickFailures) (now : ℤ) (drawn : Result String) (s : Shared v.State r.State) (x : Error)
      → acquire v k.acquiring drawn processor_key processor_ttl s.locks ≡ (s.locks, err x)
      → process_delayed_jobs c r v k now drawn s ≡ s
  unfolding process_delayed_jobs
  tick-refused k now drawn s x e = rw (process_delayed_jobs, e, e) refl

  tick-granted :
      (k : TickFailures) (now : ℤ) (drawn : Result String) (s : Shared v.State r.State)
      (locks : v.State) (token : String)
      → acquire v k.acquiring drawn processor_key processor_ttl s.locks ≡ (locks, ok token)
      → process_delayed_jobs c r v k now drawn s
        ≡ move_locked c r v k now token (record s { locks = locks })
  unfolding process_delayed_jobs
  tick-granted k now drawn s locks token e = rw (process_delayed_jobs, e, e) refl

  -- Every Acquire of a held key fails, and leaves the keys alone.
  acquire-fails :
      (failure : Option Error) (drawn : Result String) (s : v.State) (held : String)
      → v.get s processor_key ≡ some held
      → (x : Error) × (acquire v failure drawn processor_key processor_ttl s ≡ (s, err x))
  unfolding acquire
  acquire-fails failure (err e) s held h = (wrap "generate lock token" e, refl)
  acquire-fails (some e) (ok token) s held h = (wrap "acquire lock" e, refl)
  acquire-fails none (ok token) s held h =
      let reply = acquire v none (ok token) processor_key processor_ttl s in
      let grants = acquire-grants v token processor_key processor_ttl s ttl_above_zero in
      let (denied, same) = grants.1 held h in (err_lock_held, pair_ext reply same denied)

  -- While a scheduler holds the lock of the delayed loop and its five seconds are not over, a tick of any other, whatever the others did in between, changes neither the lock nor the queue.
  pub process_delayed_jobs-excludes :
      (k : TickFailures) (now : ℤ) (mine : String) (drawn : Result String) (es : List Event)
      (s : Shared v.State r.State)
      → v.get s.locks processor_key ≡ some mine
      → All (λ e. foreign_to mine e ≡ true) es
      → total_duration es < v.pttl s.locks processor_key
      → let after = record s { locks = lock_run v s.locks es } in
        process_delayed_jobs c r v k now drawn after ≡ after
  process_delayed_jobs-excludes k now mine drawn es s h f d =
      let (held, _, _) = lock_run-excludes v mine processor_key es s.locks h f d in
      let (x, e) = acquire-fails k.acquiring drawn (lock_run v s.locks es) mine held in
      tick-refused k now drawn (record s { locks = lock_run v s.locks es }) x e

  -- The delayed jobs with a score from 0 to now.
  abbrev pub all_due : (now : ℤ) → Shared v.State r.State → List ℕ
  all_due now s = r.range s.queue delayed (pos 0) (unix_milli now)

  -- What a tick has done that took the lock with a token: of the delayed jobs with a score from 0 to now, all are taken if they are at most a thousand, and else the first thousand that Redis lists.
  pub record HasMoved (now : ℤ) (s s' : Shared v.State r.State) : Type 0 where
    pub due :
        (i : ℕ) (x : ℤ)
        → r.score s.queue delayed i ≡ some x
        → pos 0 ≤ℤ x
        → x ≤ℤ unix_milli now
        → length (all_due now s) ≤ 1000
        → contains (take 1000 (all_due now s)) i ≡ true
    pub left_set :
        (k : ZsetKey) (i : ℕ)
        → r.score s'.queue k i ≡ (
            if zset_key_eq delayed k && contains (take 1000 (all_due now s)) i
            then none
            else r.score s.queue k i)
    pub ready_now :
        (i : ℕ) (b : c.Blob) (j : Job)
        → contains (take 1000 (all_due now s)) i ≡ true
        → r.get s.queue i ≡ some b
        → c.unmarshal b ≡ some j
        → contains (r.items s'.queue (ready j.priority)) i ≡ true
    pub still_listed :
        (l : ListKey) (i : ℕ)
        → contains (r.items s.queue l) i ≡ true
        → contains (r.items s'.queue l) i ≡ true
    pub freed : v.get s'.locks processor_key ≡ none
    pub others :
        (key : String) → str_eq processor_key key ≡ false → v.get s'.locks key ≡ v.get s.locks key

  release-frees :
      (key token : String) (s : v.State)
      → v.get s key ≡ some token
      → (l : String)
      → v.get (release v none key token s).0 l ≡ (if str_eq key l then none else v.get s l)
  unfolding release
  release-frees key token s h l =
      let own = release_script-own v key token token s h ((eq_iff token token).1 refl) in
      rw (release, own) (v.get-del key s l)

  locked-HasMoved :
      (now : ℤ) (token : String) (s : Shared v.State r.State) (locks : v.State)
      → v.get locks processor_key ≡ some token
      → ((l : String) → str_eq processor_key l ≡ false → v.get locks l ≡ v.get s.locks l)
      → HasMoved now s (move_locked c r v calm now token (record s { locks = locks }))
  unfolding move_locked
  locked-HasMoved now token s locks h same =
      let (_, due, scores, pushed, kept, _) =
        move_delayed-moves c r (λ i. none) delayed_batch now s.queue in
      record {
        due = λ i x e low high few. due i x e low high (inr few);
        left_set = scores;
        ready_now = λ i b j m g u. pushed i b j m refl g u;
        still_listed = kept;
        freed = release-frees processor_key token locks h processor_key;
        others = λ l other. rw (release-frees processor_key token locks h l, other) (same l other);
      }

  -- A tick that finds the lock free, where no call fails: of the delayed jobs with a score from 0 to now it takes all, if they are at most a thousand, and else the first thousand that Redis lists; these leave the delayed set, and each whose text decodes is then in the ready queue of its priority, while nothing else leaves a sorted set and nothing leaves a list. The lock is free then, and all other locks are as before.
  pub process_delayed_jobs-HasMoved :
      (now : ℤ) (token : String) (s : Shared v.State r.State)
      → v.get s.locks processor_key ≡ none
      → HasMoved now s (process_delayed_jobs c r v calm now (ok token) s)
  process_delayed_jobs-HasMoved now token s h =
      let taken = acquire v none (ok token) processor_key processor_ttl s.locks in
      let (granted, held, _, same) =
        (acquire-grants v token processor_key processor_ttl s.locks ttl_above_zero).0 h in
      rw (tick-granted calm now (ok token) s taken.0 token (pair_eq taken granted))
        (locked-HasMoved now token s taken.0 held same)
