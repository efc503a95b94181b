-- ===== src/Queue/Delivery.antt =====
-- Jobs on their way from Enqueue to a worker and to Acknowledge (internal/queue/redis.go).
use distributed_task_schedul.Prelude.{
  ℕ, ◌≡◌, refl, false, List, [], ◌∷◌, ◌++◌, Option, none, some, arith, ℤ, ◌≤ℤ◌, ◌<ℤ◌, leb_ℤ, ap,
  Bool-cases, inl, ==_refl, inr, ◌<◌, ◌∙◌, ltb, true,
}
use distributed_task_schedul.Errors.{Error}
use distributed_task_schedul.Models.Job.{Job}
use distributed_task_schedul.Queue.Redis.{
  ListKey, ready, ZsetKey, delayed, list_key_eq, get_last?, drop_last, Redis, Codec,
  list_key_eq_refl, zset_key_eq_refl,
}
use distributed_task_schedul.Queue.Operations.{unix_milli, job_ttl, enqueue, enqueue_script}

pub get_last?-snoc {ℓ} : {A : Type ℓ} (xs : List A) (x : A) → get_last? (xs ++ x ∷ []) ≡ some x
unfolding get_last?
get_last?-snoc [] x = refl
get_last?-snoc (y ∷ []) x = refl
get_last?-snoc (y ∷ z ∷ xs) x = get_last?-snoc (z ∷ xs) x

pub drop_last-snoc {ℓ} : {A : Type ℓ} (xs : List A) (x : A) → drop_last (xs ++ x ∷ []) ≡ xs
unfolding drop_last
drop_last-snoc [] x = refl
drop_last-snoc (y ∷ []) x = refl
drop_last-snoc (y ∷ z ∷ xs) x = ap (◌∷◌ y) (drop_last-snoc (z ∷ xs) x)

module _ (c : Codec) (r : Redis c.Blob) where
  open r use {State, get, items, score, set, lpush, rpop, zadd}

  script_due :
      (j : Job) (b : c.Blob) (now : ℤ) (s : State)
      → unix_milli j.scheduled_at ≤ℤ now
      → enqueue_script c r j.id b j.priority (unix_milli j.scheduled_at) now s
        ≡ lpush (ready j.priority) j.id (set j.id b job_ttl s)
  unfolding enqueue_script
  script_due j b now s h = ground arith

  script_later :
      (j : Job) (b : c.Blob) (now : ℤ) (s : State)
      → now <ℤ unix_milli j.scheduled_at
      → enqueue_script c r j.id b j.priority (unix_milli j.scheduled_at) now s
        ≡ zadd delayed (unix_milli j.scheduled_at) j.id (set j.id b job_ttl s)
  unfolding enqueue_script
  script_later j b now s h = ground arith

  script_stores :
      (id : ℕ) (b : c.Blob) (priority scheduled_at now : ℤ) (s : State)
      → get (enqueue_script c r id b priority scheduled_at now s) id ≡ some b
  unfolding enqueue_script
  script_stores id b p t now s = elim (Bool-cases (leb_ℤ t now)) [
    | inl e ↦ rw e (simp (r.get-lpush, r.get-set, ==_refl))
    | inr e ↦ rw e (simp (r.get-zadd, r.get-set, ==_refl))
  ]

  -- 7 days, in milliseconds.
  script_lasts :
      (id : ℕ) (b : c.Blob) (priority scheduled_at now : ℤ) (s : State)
      → r.ttl (enqueue_script c r id b priority scheduled_at now s) id ≡ 604800000
  unfolding enqueue_script
  script_lasts id b p t now s = elim (Bool-cases (leb_ℤ t now)) [
    | inl e ↦ rw e (simp (r.ttl-lpush, r.ttl-set, ==_refl))
    | inr e ↦ rw e (simp (r.ttl-zadd, r.ttl-set, ==_refl))
  ]

  enqueue-script :
      (sha : Option Error) (now : ℤ) (j : Job) (b : c.Blob) (s : State)
      → c.marshal j ≡ some b
      → enqueue c r sha none now j s ≡ (
        enqueue_script c r j.id b j.priority (unix_milli j.scheduled_at) (unix_milli now) s,
        none,
      )
  unfolding enqueue
  enqueue-script none now j b s m = rw (m, enqueue)
  enqueue-script (some e) now j b s m = rw (m, enqueue)

  -- Enqueue stores the text of the job under its id. A job that is due goes to the head of the ready
  -- queue of its priority and to no other list, and the sorted sets stay as they are. A job for
  -- later goes to the delayed set, with its time in milliseconds as its score, and the lists stay
  -- as they are. Either way it does not matter whether the script was cached.
  pub enqueue-routes :
      (sha : Option Error) (now : ℤ) (j : Job) (b : c.Blob) (s : State)
      → c.marshal j ≡ some b
      → let (s', e) = enqueue c r sha none now j s in
        (e ≡ none)
        × (get s' j.id ≡ some b)
        × (unix_milli j.scheduled_at ≤ℤ unix_milli now
            → (items s' (ready j.priority) ≡ j.id ∷ items s (ready j.priority))
              × ((l : ListKey) → list_key_eq (ready j.priority) l ≡ false → items s' l ≡ items s l)
              × ((k : ZsetKey) (i : ℕ) → score s' k i ≡ score s k i))
        × (unix_milli now <ℤ unix_milli j.scheduled_at
            → (score s' delayed j.id ≡ some (unix_milli j.scheduled_at))
              × ((l : ListKey) → items s' l ≡ items s l))
  enqueue-routes sha now j b s m = rw (enqueue-script sha now j b s m) (
    refl,
    script_stores j.id b j.priority (unix_milli j.scheduled_at) (unix_milli now) s,
    λ h. rw (script_due j b (unix_milli now) s h) (
      simp (r.items-lpush, r.items-set, list_key_eq_refl),
      λ l other. simp (r.items-lpush, r.items-set, other),
      λ k i. simp (r.score-lpush, r.score-set),
    ),
    λ h.
        rw (script_later j b (unix_milli now) s h)
          (simp (r.score-zadd, zset_key_eq_refl, ==_refl), λ l. simp (r.items-zadd, r.items-set)),
  )

  -- The text that Enqueue stores is there for 7 days.
  pub enqueue-elapse :
      (sha : Option Error) (now : ℤ) (j : Job) (b : c.Blob) (ms : ℕ) (s : State)
      → c.marshal j ≡ some b
      → ms < 604800000
      → get (r.elapse ms (enqueue c r sha none now j s).0) j.id ≡ some b
  enqueue-elapse sha now j b ms s m young =
      let s' = (enqueue c r sha none now j s).0 in
      let (_, stored, _, _) = enqueue-routes sha now j b s m in
      let lasts : r.ttl s' j.id ≡ 604800000 =
        ap (λ x. r.ttl x.0 j.id) (enqueue-script sha now j b s m)
        ∙ script_lasts j.id b j.priority (unix_milli j.scheduled_at) (unix_milli now) s in
      let alive : ltb ms (r.ttl s' j.id) ≡ true = rw lasts (ground (arith, young)) in
      rw (r.get-elapse ms s' j.id, alive) stored
