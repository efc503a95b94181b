-- ===== src/Queue/Examples.antt =====
-- The theorems on the queue at concrete inputs (internal/queue/redis.go), over the database in memory.
use distributed_task_schedul.Prelude.{
  ℕ, ◌*◌, ◌^◌, ◌≤◌, ◌<◌, ◌≡◌, refl, true, ◌&&◌, [], ◌∷◌, Option, none, some, arith, ℤ, pos, ◌+ℤ◌,
  ◌≤ℤ◌, ◌<ℤ◌, if◌then◌else◌, ◌-ℤ◌, ◌+◌, ◌⊎◌, length,
}
use distributed_task_schedul.Errors.{Error, foreign}
use distributed_task_schedul.Models.Status.{failed, pending}
use distributed_task_schedul.Models.Job.{Job, default_job, is_retryable}
use distributed_task_schedul.Models.Schedule.{retry_base}
use distributed_task_schedul.Queue.Redis.{
  ListKey, ready, ZsetKey, delayed, inflight, list_key_eq, zset_key_eq, contains, Redis,
}
use distributed_task_schedul.Queue.Memory.{Database, empty_database, memory, plain_codec}
use distributed_task_schedul.Queue.Operations.{unix_milli, retried, nack, reclaimed_job}
use distributed_task_schedul.Queue.Background.{read_job, due_keys, move_delayed, reclaim_worker}
use distributed_task_schedul.Queue.Failure.{nack-requeues}
use distributed_task_schedul.Queue.Delayed.{
  move_delayed-moves, move_delayed-loses, in_batch, due_now,
}
use distributed_task_schedul.Queue.Reclaim.{reclaim_worker-requeues}
use distributed_task_schedul.Queue.Reclaim.One.{IsNamed}

abbrev db : Redis (Option Job)
db = memory (Option Job)

abbrev fresh : Database (Option Job)
fresh = empty_database

abbrev report : Job
report = default_job 4 (pos 1000) "generate-report" "{}"

-- Two jobs wait, 8 since longer than 9; job 5 is delayed until millisecond 20.
abbrev busy : Database (Option Job)
busy = record {
  texts = λ i. some (some (record report { id = i }));
  lives = λ i. 604800000;
  lists = λ l. if list_key_eq (ready (pos 5)) l then 9 ∷ 8 ∷ [] else [];
  sets = λ k. if zset_key_eq delayed k then (5, pos 20) ∷ [] else [];
}

abbrev failing : Job
failing = record report { status = failed; retry_count = 1 }

nack-requeues_example :
    let (s', j', e) = nack plain_codec db (λ i. i) none (pos 3000) failing "worker-1" "boom" busy in
    (e ≡ none)
    × (j'.retry_count ≡ 2)
    × (j'.status ≡ pending)
    × (j'.error_message ≡ "boom")
    × (j'.id ≡ 4)
    × (◌≡◌ {A = Option (Option Job)}
        (some (some j'))
        (some (some (retried (λ i. i) (pos 3000) failing "boom"))))
    × (pos 3000 +ℤ pos (retry_base * 2 ^ 2) ≤ℤ j'.scheduled_at)
    × (j'.scheduled_at <ℤ pos 3000 +ℤ pos (retry_base * 2 ^ 2 + 1000000000))
    × (db.items s' (ready (pos 5)) ≡ 4 ∷ db.items busy (ready (pos 5)))
    × (db.get s' 4 ≡ some (some (retried (λ i. i) (pos 3000) failing "boom")))
    × ((k : ZsetKey) (i : ℕ) → db.score s' k i ≡ db.score busy k i)
unfolding is_retryable
nack-requeues_example =
    nack-requeues plain_codec db (λ i. i) (pos 3000) failing
      (some (retried (λ i. i) (pos 3000) failing "boom")) "worker-1" "boom" busy refl (omega arith)
      refl

abbrev healthy : ℕ → Option Error
healthy i = none

abbrev down : ℕ → Option Error
down i = some (foreign "i/o timeout")

move_delayed-moves_example :
    let now = pos 20000000 in
    let (s', moved, e) = move_delayed plain_codec db none none healthy 1000 now busy in
    let taken = in_batch plain_codec db healthy 1000 now busy in
    (e ≡ none)
    × ((i : ℕ) (x : ℤ)
        → db.score busy delayed i ≡ some x
        → pos 0 ≤ℤ x
        → x ≤ℤ unix_milli now
        → (◌≡◌ {A = ℕ} 1000 0) ⊎ (length (due_now plain_codec db healthy 1000 now busy) ≤ 1000)
        → contains taken i ≡ true)
    × ((k : ZsetKey) (i : ℕ)
        → db.score s' k i
          ≡ (if zset_key_eq delayed k && contains taken i then none else db.score busy k i))
    × ((i : ℕ) (b : Option Job) (j : Job)
        → contains taken i ≡ true
        → healthy i ≡ none
        → db.get busy i ≡ some b
        → b ≡ some j
        → contains (db.items s' (ready j.priority)) i ≡ true)
    × ((l : ListKey) (i : ℕ)
        → contains (db.items busy l) i ≡ true
        → contains (db.items s' l) i ≡ true)
    × (0 < 1000 → moved ≤ 1000)
move_delayed-moves_example = move_delayed-moves plain_codec db healthy 1000 (pos 20000000) busy

unread : (i : ℕ) → read_job plain_codec db down busy i ≡ none
unfolding read_job
unread i = refl

move_delayed-loses_example :
    let (s', moved, e) = move_delayed plain_codec db none none down 1000 (pos 20000000) busy in
    ((l : ListKey) → db.items s' l ≡ db.items busy l)
    × ((i : ℕ)
        → contains (due_keys plain_codec db 1000 (pos 20000000) busy) i ≡ true
        → db.score s' delayed i ≡ none)
move_delayed-loses_example =
    move_delayed-loses plain_codec db down 1000 (pos 20000000) busy (λ i h. unread i)

-- Job 8 is in flight until millisecond 10, job 9 until millisecond 90000.
abbrev flying : Database (Option Job)
flying = record busy {
  sets = λ k. if zset_key_eq (inflight "w1") k then (8, pos 10) ∷ (9, pos 90000) ∷ [] else [];
}

flying-IsNamed : IsNamed plain_codec db (λ i. i) (pos 200000000000) "w1" flying
flying-IsNamed i b j g u = ground (arith, g, u)

reclaim_worker-requeues_example :
    let cutoff = unix_milli (pos 200000000000 -ℤ pos 120000000000) in
    let s' =
      (reclaim_worker plain_codec db
        (λ i. i)
        none
        (λ _. none)
        (λ _. none)
        (λ _. none)
        (pos 200000000000)
        (pos 120000000000)
        "w1"
        flying).0 in
    ((k : ℕ) (j : Job) (b : Option Job) (x : ℤ)
      → db.score flying (inflight "w1") k ≡ some x
      → pos 0 ≤ℤ x
      → x ≤ℤ cutoff
      → flying.texts k ≡ some b
      → b ≡ some j
      → (contains (db.items s' (ready j.priority)) k ≡ true)
        × (db.score s' (inflight "w1") k ≡ none))
    × ((k : ℕ) (x : ℤ)
        → db.score flying (inflight "w1") k ≡ some x
        → cutoff <ℤ x
        → db.score s' (inflight "w1") k ≡ some x)
reclaim_worker-requeues_example =
    reclaim_worker-requeues plain_codec db (λ i. i) (pos 200000000000) "w1"
      (λ text j u. (some (reclaimed_job (λ i. i) (pos 200000000000) j), refl)) (pos 120000000000)
      flying flying-IsNamed
