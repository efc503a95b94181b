-- ===== src/Queue/Contents.antt =====
-- The pool of jobs that a Redis database holds (internal/queue/redis.go), and what each command does
-- to it.
use distributed_task_schedul.Prelude.{
  Option, Bool, ℤ, false, ◌≡◌, ℕ, some, String, true, none, ap, arith, ◌*◌,
}
use distributed_task_schedul.Queue.Pool.{
  Pool, learn, wait, entomb, take_oldest, hold, postpone, forget, grow_old,
}
use distributed_task_schedul.Queue.Redis.{
  Codec, Redis, ready, list_key_eq, zset_key_eq, dlq, inflight, delayed,
}
use distributed_task_schedul.Models.Job.{Job}

abbrev pub is_some {ℓ} : {A : Type ℓ} → Option A → Bool
is_some none = false
is_some (some a) = true

Pool-ext :
    (a b : Pool)
    → ((p : ℤ) → a.waiting p ≡ b.waiting p)
    → a.dead ≡ b.dead
    → ((i : ℕ) → a.later i ≡ b.later i)
    → ((w : String) (i : ℕ) → a.held w i ≡ b.held w i)
    → ((i : ℕ) → a.known i ≡ b.known i)
    → ((i : ℕ) → a.lives i ≡ b.lives i)
    → a ≡ b
Pool-ext a b w d l h k n i = record {
  waiting = λ p. w p i;
  dead = d i;
  later = λ j. l j i;
  held = λ x j. h x j i;
  known = λ j. k j i;
  lives = λ j. n j i;
}

module _ (c : Codec) (r : Redis c.Blob) where
  open r use {State, get, items, score, set, del, lpush, rpop, zadd, zrem}

  abbrev pub decoded : Option c.Blob → Option Job
  decoded none = none
  decoded (some b) = c.unmarshal b

  -- What is kept of a job that is written and read.
  abbrev pub kept_of : Job → Option Job
  kept_of j = decoded (c.marshal j)

  -- The pool that a database holds.
  abbrev pub contents : State → Pool
  contents s = record {
    waiting = λ p. items s (ready p);
    dead = items s dlq;
    later = λ i. is_some (score s delayed i);
    held = λ w i. is_some (score s (inflight w) i);
    known = λ i. decoded (get s i);
    lives = λ i. r.ttl s i;
  }

  pub contents-set :
      (id : ℕ) (b : c.Blob) (k : Job) (days : ℕ) (s : State)
      → c.unmarshal b ≡ some k
      → contents (set id b (days * 86400) s) ≡ learn days id k (contents s)
  contents-set id b k days s u =
      Pool-ext (contents (set id b (days * 86400) s)) (learn days id k (contents s))
        (λ p. r.items-set id b (days * 86400) s (ready p)) (r.items-set id b (days * 86400) s dlq)
        (λ i. ap is_some (r.score-set id b (days * 86400) s delayed i))
        (λ w i. ap is_some (r.score-set id b (days * 86400) s (inflight w) i))
        (λ i. ground (arith, r.get-set id b (days * 86400) s i, u))
        (λ i. ground (arith, r.ttl-set id b (days * 86400) s i))

  pub contents-lpush :
      (p : ℤ) (id : ℕ) (s : State) → contents (lpush (ready p) id s) ≡ wait p id (contents s)
  unfolding list_key_eq
  contents-lpush p id s =
      Pool-ext (contents (lpush (ready p) id s)) (wait p id (contents s))
        (λ q. r.items-lpush (ready p) id s (ready q)) (r.items-lpush (ready p) id s dlq)
        (λ i. ap is_some (r.score-lpush (ready p) id s delayed i))
        (λ w i. ap is_some (r.score-lpush (ready p) id s (inflight w) i))
        (λ i. ap decoded (r.get-lpush (ready p) id s i)) (λ i. r.ttl-lpush (ready p) id s i)

  pub contents-bury : (id : ℕ) (s : State) → contents (lpush dlq id s) ≡ entomb id (contents s)
  unfolding list_key_eq
  contents-bury id s =
      Pool-ext (contents (lpush dlq id s)) (entomb id (contents s))
        (λ q. r.items-lpush dlq id s (ready q)) (r.items-lpush dlq id s dlq)
        (λ i. ap is_some (r.score-lpush dlq id s delayed i))
        (λ w i. ap is_some (r.score-lpush dlq id s (inflight w) i))
        (λ i. ap decoded (r.get-lpush dlq id s i)) (λ i. r.ttl-lpush dlq id s i)

  pub contents-rpop : (p : ℤ) (s : State) → contents (rpop (ready p) s) ≡ take_oldest p (contents s)
  unfolding list_key_eq
  contents-rpop p s =
      Pool-ext (contents (rpop (ready p) s)) (take_oldest p (contents s))
        (λ q. r.items-rpop (ready p) s (ready q)) (r.items-rpop (ready p) s dlq)
        (λ i. ap is_some (r.score-rpop (ready p) s delayed i))
        (λ w i. ap is_some (r.score-rpop (ready p) s (inflight w) i))
        (λ i. ap decoded (r.get-rpop (ready p) s i)) (λ i. r.ttl-rpop (ready p) s i)

  pub contents-hold :
      (w : String) (x : ℤ) (id : ℕ) (s : State)
      → contents (zadd (inflight w) x id s) ≡ hold w id true (contents s)
  unfolding zset_key_eq
  contents-hold w x id s =
      Pool-ext (contents (zadd (inflight w) x id s)) (hold w id true (contents s))
        (λ q. r.items-zadd (inflight w) x id s (ready q)) (r.items-zadd (inflight w) x id s dlq)
        (λ i. ap is_some (r.score-zadd (inflight w) x id s delayed i))
        (λ v i. ground (arith, r.score-zadd (inflight w) x id s (inflight v) i))
        (λ i. ap decoded (r.get-zadd (inflight w) x id s i)) (λ i. r.ttl-zadd (inflight w) x id s i)

  pub contents-release :
      (w : String) (id : ℕ) (s : State)
      → contents (zrem (inflight w) id s) ≡ hold w id false (contents s)
  unfolding zset_key_eq
  contents-release w id s =
      Pool-ext (contents (zrem (inflight w) id s)) (hold w id false (contents s))
        (λ q. r.items-zrem (inflight w) id s (ready q)) (r.items-zrem (inflight w) id s dlq)
        (λ i. ap is_some (r.score-zrem (inflight w) id s delayed i))
        (λ v i. ground (arith, r.score-zrem (inflight w) id s (inflight v) i))
        (λ i. ap decoded (r.get-zrem (inflight w) id s i)) (λ i. r.ttl-zrem (inflight w) id s i)

  pub contents-postpone :
      (x : ℤ) (id : ℕ) (s : State) → contents (zadd delayed x id s) ≡ postpone id (contents s)
  unfolding zset_key_eq
  contents-postpone x id s =
      Pool-ext (contents (zadd delayed x id s)) (postpone id (contents s))
        (λ q. r.items-zadd delayed x id s (ready q)) (r.items-zadd delayed x id s dlq)
        (λ i. ground (arith, r.score-zadd delayed x id s delayed i))
        (λ v i. ap is_some (r.score-zadd delayed x id s (inflight v) i))
        (λ i. ap decoded (r.get-zadd delayed x id s i)) (λ i. r.ttl-zadd delayed x id s i)

  pub contents-del : (id : ℕ) (s : State) → contents (del id s) ≡ forget id (contents s)
  contents-del id s =
      Pool-ext (contents (del id s)) (forget id (contents s)) (λ q. r.items-del id s (ready q))
        (r.items-del id s dlq) (λ i. ap is_some (r.score-del id s delayed i))
        (λ v i. ap is_some (r.score-del id s (inflight v) i))
        (λ i. ground (arith, r.get-del id s i)) (λ i. ground (arith, r.ttl-del id s i))

  pub contents-elapse : (ms : ℕ) (s : State) → contents (r.elapse ms s) ≡ grow_old ms (contents s)
  contents-elapse ms s =
      Pool-ext (contents (r.elapse ms s)) (grow_old ms (contents s))
        (λ q. r.items-elapse ms s (ready q)) (r.items-elapse ms s dlq)
        (λ i. ap is_some (r.score-elapse ms s delayed i))
        (λ v i. ap is_some (r.score-elapse ms s (inflight v) i))
        (λ i. ground (arith, r.get-elapse ms s i)) (λ i. r.ttl-elapse ms s i)
