-- ===== src/Queue/Delayed.antt =====
-- Delayed jobs on their way to the ready queues: MoveDelayed (internal/queue/redis.go).
use distributed_task_schedul.Prelude.{
  ℕ, ◌<◌, ◌≤◌, ◌≡◌, refl, true, false, ◌&&◌, List, [], ◌∷◌, Option, none, some, arith, ℤ, pos, ◌<ℤ◌,
  if◌then◌else◌, length, take, ◌==◌, Bool-cases, inl, inr, length-take-le, ==-suc_zero, ◌≤ℤ◌, ◌⊎◌,
}
use distributed_task_schedul.Errors.{Error}
use distributed_task_schedul.Models.Job.{Job}
use distributed_task_schedul.Queue.Redis.{
  ListKey, ready, ZsetKey, delayed, zset_key_eq, contains, Redis, Codec,
}
use distributed_task_schedul.Queue.Operations.{unix_milli}
use distributed_task_schedul.Queue.Background.{
  read_job, move_plan, move_count, exec, due_keys, move_delayed,
}
use distributed_task_schedul.Queue.Plan.{
  take_all, plan-score, plan-pushed, plan-kept, plan-unread, move_count-le, contains-take,
}

module _ (c : Codec) (r : Redis c.Blob) (reads : ℕ → Option Error) (batch : ℕ) (now : ℤ) where
  open r use {State, items, score}

  -- What MoveDelayed returns once it has the due keys.
  abbrev run_plan : State → List ℕ → State × ℕ × Option Error
  run_plan s keys = (exec c r (move_plan c r reads s keys) s, move_count c r reads s keys, none)

  moved_or_idle :
      (s : State) (keys : List ℕ)
      → ◌≡◌ {A = State × ℕ × Option Error}
          (if length keys == 0 then (s, 0, none) else run_plan s keys)
          (run_plan s keys)
  unfolding move_plan move_count exec
  moved_or_idle s [] = refl
  moved_or_idle s (x ∷ xs) = rw (==-suc_zero (length xs))

  move_delayed-run :
      (s : State)
      → let due = due_keys c r batch now s in
        move_delayed c r none none reads batch now s ≡ run_plan s due
  unfolding move_delayed
  move_delayed-run s = moved_or_idle s (due_keys c r batch now s)

  length-due_keys : (s : State) → 0 < batch → length (due_keys c r batch now s) ≤ batch
  unfolding due_keys
  length-due_keys s h =
      ground (arith, length-take-le batch (r.range s delayed (pos 0) (unix_milli now)))

  due_keys-range :
      (s : State) (i : ℕ)
      → contains (due_keys c r batch now s) i ≡ true
      → contains (r.range s delayed (pos 0) (unix_milli now)) i ≡ true
  unfolding due_keys
  due_keys-range s i h =
      ground (arith, contains-take batch (r.range s delayed (pos 0) (unix_milli now)) i)

  later_not_due :
      (s : State) (i : ℕ) (x : ℤ)
      → score s delayed i ≡ some x
      → unix_milli now <ℤ x
      → contains (due_keys c r batch now s) i ≡ false
  later_not_due s i x e later = elim (Bool-cases (contains (due_keys c r batch now s) i)) [
    | inl h ↦
        let (y, q, _, soon) =
          (r.range_iff s delayed (pos 0) (unix_milli now) i).0 (due_keys-range s i h) in
        ground arith
    | inr h ↦ h
  ]

  -- The keys that the delayed set has from score 0 to now, and the first `batch` of them.
  abbrev pub due_now : State → List ℕ
  due_now s = r.range s delayed (pos 0) (unix_milli now)

  abbrev pub in_batch : State → List ℕ
  in_batch s = if batch == 0 then due_now s else take batch (due_now s)

  in_batch-due :
      (s : State) (i : ℕ) (x : ℤ)
      → score s delayed i ≡ some x
      → pos 0 ≤ℤ x
      → x ≤ℤ unix_milli now
      → (batch ≡ 0) ⊎ (length (due_now s) ≤ batch)
      → contains (in_batch s) i ≡ true
  in_batch-due s i x e low high enough =
      let found = (r.range_iff s delayed (pos 0) (unix_milli now) i).1 (x, e, low, high) in
      elim enough [
        | inl none_given ↦ rw (none_given) found
        | inr fits ↦ ground (arith, found, take_all batch (due_now s) fits)
      ]

  read_job-some :
      (s : State) (i : ℕ) (b : c.Blob) (j : Job)
      → reads i ≡ none
      → r.get s i ≡ some b
      → c.unmarshal b ≡ some j
      → read_job c r reads s i ≡ some j
  unfolding read_job
  read_job-some s i b j n g u = rw (read_job, n, g, u) refl

  -- MoveDelayed, where its SCAN and its pipeline go through. Every job with a score from 0 to now is due; if the batch has room for all of them, or its size is 0, all are taken, and else the first ones that Redis lists. The jobs taken leave the delayed set, and each whose GET succeeds, with a text that decodes, is then in the ready queue of its priority. Nothing else leaves a sorted set, and nothing leaves a list. With a batch size above 0, at most that many jobs are counted as moved.
  pub move_delayed-moves :
      (s : State)
      → let (s', moved, e) = move_delayed c r none none reads batch now s in
        (e ≡ none)
        × ((i : ℕ) (x : ℤ)
            → score s delayed i ≡ some x
            → pos 0 ≤ℤ x
            → x ≤ℤ unix_milli now
            → (batch ≡ 0) ⊎ (length (due_now s) ≤ batch)
            → contains (in_batch s) i ≡ true)
        × ((k : ZsetKey) (i : ℕ)
            → score s' k i
              ≡ (if zset_key_eq delayed k && contains (in_batch s) i then none else score s k i))
        × ((i : ℕ) (b : c.Blob) (j : Job)
            → contains (in_batch s) i ≡ true
            → reads i ≡ none
            → r.get s i ≡ some b
            → c.unmarshal b ≡ some j
            → contains (items s' (ready j.priority)) i ≡ true)
        × ((l : ListKey) (i : ℕ) → contains (items s l) i ≡ true → contains (items s' l) i ≡ true)
        × (0 < batch → moved ≤ batch)
  unfolding due_keys
  move_delayed-moves s =
      let due = due_keys c r batch now s in
      rw (move_delayed-run s) (
        refl,
        in_batch-due s,
        plan-score c r reads s due s,
        λ i b j h n g u. plan-pushed c r reads s due s i j h (read_job-some s i b j n g u),
        plan-kept c r reads s due s,
        λ h. omega (arith, length-due_keys s h, move_count-le c r reads s due),
      )

  -- A job that is not due stays in the delayed set with its score.
  pub move_delayed-waits :
      (s : State) (i : ℕ) (x : ℤ)
      → score s delayed i ≡ some x
      → unix_milli now <ℤ x
      → score (move_delayed c r none none reads batch now s).0 delayed i ≡ some x
  unfolding zset_key_eq
  move_delayed-waits s i x e later =
      rw
        (
          move_delayed-run s,
          plan-score c r reads s (due_keys c r batch now s) s delayed i,
          later_not_due s i x e later,
        )
        e

  -- Where the texts of the due jobs cannot be read, be it for a failure of Redis, the jobs leave the
  -- delayed set and go to no list.
  pub move_delayed-loses :
      (s : State)
      → ((i : ℕ) → contains (due_keys c r batch now s) i ≡ true → read_job c r reads s i ≡ none)
      → let (s', moved, e) = move_delayed c r none none reads batch now s in
        ((l : ListKey) → items s' l ≡ items s l)
        × ((i : ℕ) → contains (due_keys c r batch now s) i ≡ true → score s' delayed i ≡ none)
  unfolding zset_key_eq
  move_delayed-loses s h =
      let due = due_keys c r batch now s in
      rw (move_delayed-run s) (
        λ l. plan-unread c r reads s due s l h,
        λ i p. rw (plan-score c r reads s due s delayed i, p),
      )
