-- ===== src/Queue/Plan.antt =====
-- The pipeline of MoveDelayed (internal/queue/redis.go), command by command.
use distributed_task_schedul.Prelude.{
  ℕ, zero, suc, ◌≤◌, ◌≡◌, refl, true, ◌&&◌, List, [], ◌∷◌, ◌++◌, Option, none, some, arith,
  if◌then◌else◌, length, take, ◌==◌, ==_refl, Bool-cases, ◌∙◌, inl, ap, ==_iff, inr,
}
use distributed_task_schedul.Errors.{Error}
use distributed_task_schedul.Models.Job.{Job}
use distributed_task_schedul.Queue.Redis.{
  ListKey, ready, ZsetKey, delayed, zset_key_eq, list_key_eq_refl, contains, Redis, Codec,
}
use distributed_task_schedul.Queue.Background.{
  Command, read_job, move_commands, move_plan, move_count, exec,
}

pub contains-take :
    (n : ℕ) (xs : List ℕ) (i : ℕ) → contains (take n xs) i ≡ true → contains xs i ≡ true
unfolding contains
contains-take zero xs i h = cc
contains-take (suc n) [] i h = h
contains-take (suc n) (x ∷ xs) i h = ground (arith, contains-take n xs i)

pub take_all : (n : ℕ) (xs : List ℕ) → length xs ≤ n → take n xs ≡ xs
take_all zero [] h = refl
take_all (suc n) [] h = refl
take_all zero (x ∷ xs) h = absurd (omega (arith, h))
take_all (suc n) (x ∷ xs) h = ap (◌∷◌ x) (take_all n xs (omega (arith, h)))

module _ (c : Codec) (r : Redis c.Blob) (reads : ℕ → Option Error) (seen : r.State) where
  open r use {State, get, items, score, range, set, del, lpush, rpop, zadd, zrem}

  -- The effect of the commands for one job.
  move_one : Option Job → ℕ → State → State
  move_one none id s = zrem delayed id s
  move_one (some j) id s = zrem delayed id (lpush (ready j.priority) id s)

  exec-nil : (s : State) → exec c r [] s ≡ s
  unfolding exec
  exec-nil s = refl

  exec-commands :
      (o : Option Job) (id : ℕ) (cs : List Command) (s : State)
      → exec c r (move_commands c r o id ++ cs) s ≡ exec c r cs (move_one o id s)
  unfolding exec move_commands move_one
  exec-commands none id cs s = refl
  exec-commands (some j) id cs s = refl

  move_one-score :
      (o : Option Job) (id : ℕ) (s : State) (k : ZsetKey) (i : ℕ)
      → score (move_one o id s) k i
        ≡ (if zset_key_eq delayed k && id == i then none else score s k i)
  unfolding move_one
  move_one-score none id s k i = r.score-zrem delayed id s k i
  move_one-score (some j) id s k i = simp (r.score-zrem, r.score-lpush)

  move_one-kept :
      (o : Option Job) (id : ℕ) (s : State) (l : ListKey) (i : ℕ)
      → contains (items s l) i ≡ true
      → contains (items (move_one o id s) l) i ≡ true
  unfolding move_one contains
  move_one-kept none id s l i h = simp r.items-zrem h
  move_one-kept (some j) id s l i h = simp (r.items-zrem, r.items-lpush) (ground arith)

  move_one-pushed :
      (j : Job) (id : ℕ) (s : State)
      → contains (items (move_one (some j) id s) (ready j.priority)) id ≡ true
  unfolding move_one contains
  move_one-pushed j id s = simp (r.items-zrem, r.items-lpush, list_key_eq_refl, ==_refl)

  pub plan-score :
      (ids : List ℕ) (s : State) (k : ZsetKey) (i : ℕ)
      → score (exec c r (move_plan c r reads seen ids) s) k i
        ≡ (if zset_key_eq delayed k && contains ids i then none else score s k i)
  unfolding move_plan contains
  plan-score [] s k i = rw (exec-nil s) (ground arith)
  plan-score (id ∷ ids) s k i =
      rw (exec-commands (read_job c r reads seen id) id (move_plan c r reads seen ids) s) (
        ground (
          arith,
          plan-score ids (move_one (read_job c r reads seen id) id s) k i,
          move_one-score (read_job c r reads seen id) id s k i,
        ))

  pub plan-kept :
      (ids : List ℕ) (s : State) (l : ListKey) (i : ℕ)
      → contains (items s l) i ≡ true
      → contains (items (exec c r (move_plan c r reads seen ids) s) l) i ≡ true
  unfolding move_plan
  plan-kept [] s l i h = rw (exec-nil s) h
  plan-kept (id ∷ ids) s l i h =
      rw (exec-commands (read_job c r reads seen id) id (move_plan c r reads seen ids) s) (
        plan-kept ids (move_one (read_job c r reads seen id) id s) l i
          (move_one-kept (read_job c r reads seen id) id s l i h))

  pub plan-pushed :
      (ids : List ℕ) (s : State) (i : ℕ) (j : Job)
      → contains ids i ≡ true
      → read_job c r reads seen i ≡ some j
      → contains (items (exec c r (move_plan c r reads seen ids) s) (ready j.priority)) i ≡ true
  unfolding move_plan contains
  plan-pushed [] s i j h e = cc
  plan-pushed (id ∷ ids) s i j h e =
      rw (exec-commands (read_job c r reads seen id) id (move_plan c r reads seen ids) s)
        (elim (Bool-cases (id == i)) [
          | inl same ↦
              let at : id ≡ i = (==_iff id i).0 same in
              rw (ap (read_job c r reads seen) at ∙ e, at)
                (plan-kept ids (move_one (some j) i s) (ready j.priority) i (move_one-pushed j i s))
          | inr not_here ↦
              plan-pushed ids (move_one (read_job c r reads seen id) id s) i j (ground arith) e
        ])

  move_one-lists : (id : ℕ) (s : State) (l : ListKey) → items (move_one none id s) l ≡ items s l
  unfolding move_one
  move_one-lists id s l = r.items-zrem delayed id s l

  pub plan-unread :
      (ids : List ℕ) (s : State) (l : ListKey)
      → ((i : ℕ) → contains ids i ≡ true → read_job c r reads seen i ≡ none)
      → items (exec c r (move_plan c r reads seen ids) s) l ≡ items s l
  unfolding move_plan contains
  plan-unread [] s l h = rw (exec-nil s)
  plan-unread (id ∷ ids) s l h =
      rw (exec-commands (read_job c r reads seen id) id (move_plan c r reads seen ids) s) (
        plan-unread ids (move_one (read_job c r reads seen id) id s) l (λ i p. h i (ground arith))
        ∙ ap (λ o. items (move_one o id s) l) (h id (ground arith))
        ∙ move_one-lists id s l)

  pub move_count-le : (ids : List ℕ) → move_count c r reads seen ids ≤ length ids
  unfolding move_count
  move_count-le [] = omega arith
  move_count-le (id ∷ ids) = ground (arith, move_count-le ids)
