-- ===== src/Queue/Draining.antt =====
-- Dequeue (internal/queue/redis.go), called by any workers until nothing waits.

use distributed_task_schedul.Prelude.{
  List, ℕ, ◌∷◌, ℤ, ◌≡◌, pos, none, some, [], refl, ap, Option-cases, inl, arith, inr, subst, Option,
  String, drop, length, sym, true, suc, ◌∙◌, zero,
}
use distributed_task_schedul.Queue.Redis.{Codec, Redis, ready}
use distributed_task_schedul.Queue.Pool.{
  next, Call, Pool, pool_run, dequeues, pool_step, answer_of, hold, take_oldest, urgencies,
}
use distributed_task_schedul.Models.Job.{Job}
use distributed_task_schedul.Errors.{Result, err, err_queue_empty}
use distributed_task_schedul.Queue.Calls.{queue_calls}
use distributed_task_schedul.Queue.Contents.{decoded, contents, kept_of}
use distributed_task_schedul.Queue.Refine.{queue_calls_refines}
use distributed_task_schedul.Queue.Order.{
  in_order, in_order-none, in_order-next, Different, without,
}

-- Polls of workers: the clock of Redis, the worker, and the timeout of each.
abbrev pub Polls : Type 0
Polls = List (ℤ × String × ℕ)

abbrev pub polled : Polls → List Call
polled [] = []
polled ((clock_ms, worker, timeout) ∷ polls) = dequeues clock_ms worker timeout ∷ polled polls

-- The answers to the polls, if the jobs are handed out in this order.
unfoldable pub answers_in : (ℕ → Option Job) → List ℕ → Polls → List (Result (Option Job))
answers_in known ids [] = []
answers_in known [] (x ∷ polls) = err err_queue_empty ∷ answers_in known [] polls
answers_in known (i ∷ ids) (x ∷ polls) = answer_of (known i) ∷ answers_in known ids polls

urgencies-Different : Different urgencies
urgencies-Different = ground arith

-- The answers, and what is left to hand out.
abbrev Drains : (ℕ → Option Job) → List ℕ → Polls → List (Result (Option Job)) → List ℕ → Type 0
Drains known ids polls answers rest =
    (answers ≡ answers_in known ids polls) × (rest ≡ drop (length polls) ids)

drop_none : (n : ℕ) → drop {A = ℕ} n [] ≡ []
drop_none zero = refl
drop_none (suc n) = refl

Drains-empty :
    (known : ℕ → Option Job) (ids : List ℕ) (x : ℤ × String × ℕ) (polls : Polls)
    (answers : List (Result (Option Job))) (rest : List ℕ)
    → ids ≡ []
    → Drains known ids polls answers rest
    → Drains known ids (x ∷ polls) (err err_queue_empty ∷ answers) rest
unfolding answers_in
Drains-empty known ids x polls answers rest e (a, b) = rw e (
  ap (◌∷◌ (err err_queue_empty)) (rw⁻¹ e a),
  b ∙ ap (drop (length polls)) e ∙ drop_none (length polls),
)

Drains-next :
    (known : ℕ → Option Job) (ids : List ℕ) (i : ℕ) (left : List ℕ) (x : ℤ × String × ℕ)
    (polls : Polls) (answers : List (Result (Option Job))) (rest : List ℕ)
    → ids ≡ i ∷ left
    → Drains known left polls answers rest
    → Drains known ids (x ∷ polls) (answer_of (known i) ∷ answers) rest
unfolding answers_in
Drains-next known ids i left x polls answers rest e (a, b) =
    rw e (ap (◌∷◌ (answer_of (known i))) a, b)

module _ (kept : Job → Option Job) (id_low : ℕ → ℕ) where
  step-none :
      (q : Pool) (clock_ms : ℤ) (worker : String) (timeout : ℕ)
      → next urgencies q.waiting ≡ none
      → pool_step kept id_low q (dequeues clock_ms worker timeout) ≡ (q, err err_queue_empty)
  unfolding pool_step
  step-none q clock_ms worker timeout n = rw n refl

  step-some :
      (q : Pool) (clock_ms : ℤ) (worker : String) (timeout p i : ℕ)
      → next urgencies q.waiting ≡ some (p, i)
      → pool_step kept id_low q (dequeues clock_ms worker timeout)
        ≡ (hold worker i true (take_oldest (pos p) q), answer_of (q.known i))
  unfolding pool_step
  step-some q clock_ms worker timeout p i n = rw n refl

  run-step :
      (q q1 : Pool) (call : Call) (calls : List Call) (a : Result (Option Job))
      → pool_step kept id_low q call ≡ (q1, a)
      → pool_run kept id_low q (call ∷ calls)
        ≡ ((pool_run kept id_low q1 calls).0, a ∷ (pool_run kept id_low q1 calls).1)
  unfolding pool_run
  run-step q q1 call calls a e = rw e refl

  pool_run-Drains :
      (polls : Polls) (q : Pool)
      → let (q', answers) = pool_run kept id_low q (polled polls) in
        Drains q.known (in_order urgencies q.waiting) polls answers (in_order urgencies q'.waiting)
  unfolding pool_run answers_in without
  pool_run-Drains [] q = (refl, refl)
  pool_run-Drains ((clock_ms, worker, timeout) ∷ polls) q =
      let ids = in_order urgencies q.waiting in
      let x : ℤ × String × ℕ = (clock_ms, worker, timeout) in
      elim (Option-cases (next urgencies q.waiting)) [
        | inl n ↦
            let run = pool_run kept id_low q (polled polls) in
            subst (λ y. Drains q.known ids (x ∷ polls) y.1 (in_order urgencies y.0.waiting))
              (sym (
                run-step q q (dequeues clock_ms worker timeout) (polled polls) _
                  (step-none q clock_ms worker timeout n)))
              (Drains-empty q.known ids x polls run.1 (in_order urgencies run.0.waiting)
                (in_order-none urgencies q.waiting n) (pool_run-Drains polls q))
        | inr ((p, i), n) ↦
            let q1 = hold worker i true (take_oldest (pos p) q) in
            let run = pool_run kept id_low q1 (polled polls) in
            subst (λ y. Drains q.known ids (x ∷ polls) y.1 (in_order urgencies y.0.waiting))
              (sym (
                run-step q q1 (dequeues clock_ms worker timeout) (polled polls) _
                  (step-some q clock_ms worker timeout p i n)))
              (Drains-next q.known ids i (in_order urgencies q1.waiting) x polls run.1
                (in_order urgencies run.0.waiting)
                (in_order-next urgencies q.waiting p i urgencies-Different n)
                (pool_run-Drains polls q1))
      ]

module _ (c : Codec) (r : Redis c.Blob) (id_low : ℕ → ℕ) where
  -- All ids in the ready queues, in the order in which they are to be served.
  abbrev pub waiting_ids : r.State → List ℕ
  waiting_ids s = in_order urgencies (λ p. r.items s (ready p))

  -- Whoever polls, in a row and where no call of Redis fails, the jobs that wait at the priorities 0 to 9 are handed out priority by priority, from 0 on, and in a priority in the order in which they came, each as often as it waits; a poll after the last one finds the queue empty, and the others are left to wait in the same order.
  pub dequeues-Drains :
      (polls : Polls) (s : r.State)
      → let (s', answers) = queue_calls c r id_low s (polled polls) in
        (answers ≡ answers_in (λ i. decoded c r (r.get s i)) (waiting_ids s) polls)
        × (waiting_ids s' ≡ drop (length polls) (waiting_ids s))
  dequeues-Drains polls s =
      subst
        (λ y.
          let q = contents c r s in
          Drains q.known (in_order urgencies q.waiting) polls y.1 (in_order urgencies y.0.waiting))
        (sym (queue_calls_refines c r id_low (polled polls) s))
        (pool_run-Drains (kept_of c r) id_low polls (contents c r s))
