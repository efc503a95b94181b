-- ===== src/Queue/Background.antt =====
-- The background work of RedisQueue: MoveDelayed, QueueDepth and ReclaimOrphaned
-- (internal/queue/redis.go). Failures of the Redis client are arguments, as in Operations.
use distributed_task_schedul.Prelude.{
  ◌-ℤ◌, ◌++◌, map, ℕ, ◌+◌, String, List, [], ◌∷◌, Option, none, some, if◌then◌else◌, ℤ, pos, ◌++◌,
  ◌==◌, length, map, ◌-ℤ◌, take, Bool, suc,
}
use distributed_task_schedul.Errors.{Error, wrap, Result, ok, err}
use distributed_task_schedul.Models.Job.{Job}
use distributed_task_schedul.Queue.Redis.{ListKey, ready, ZsetKey, delayed, inflight, Redis, Codec}
use distributed_task_schedul.Queue.Operations.{
  unix_milli, priorities, reclaimed_job, requeue, Outage, partly,
}

-- A command of a pipeline.
pub data Command : Type 0 where
  push : ListKey → ℕ → Command
  remove : ZsetKey → ℕ → Command

module _ (c : Codec) (r : Redis c.Blob) where
  open c use {Blob, empty, marshal, unmarshal}
  open r use {State, get, items, range, set, del, lpush, rpop, zadd, zrem}

  -- What the GET of a job's text and json.Unmarshal give; `reads i` is the failure of the GET.
  unfoldable pub read_job : (reads : ℕ → Option Error) → State → ℕ → Option Job
  read_job reads s id = elim (reads id) [
    | some e ↦ none
    | none ↦ elim (get s id) [ none ↦ none | some data_ ↦ unmarshal data_ ]
  ]

  -- The commands that MoveDelayed puts into its pipeline for one job.
  unfoldable pub move_commands : Option Job → ℕ → List Command
  move_commands none id = remove delayed id ∷ []
  move_commands (some j) id = push (ready j.priority) id ∷ remove delayed id ∷ []

  abbrev pub moved_by : Option Job → ℕ
  moved_by none = 0
  moved_by (some j) = 1

  unfoldable pub move_plan : (reads : ℕ → Option Error) → State → List ℕ → List Command
  unfolding move_commands
  move_plan reads s [] = []
  move_plan reads s (id ∷ ids) = move_commands (read_job reads s id) id ++ move_plan reads s ids

  unfoldable pub move_count : (reads : ℕ → Option Error) → State → List ℕ → ℕ
  move_count reads s [] = 0
  move_count reads s (id ∷ ids) = moved_by (read_job reads s id) + move_count reads s ids

  unfoldable pub exec : List Command → State → State
  exec [] s = s
  exec (push k id ∷ cs) s = exec cs (lpush k id s)
  exec (remove k id ∷ cs) s = exec cs (zrem k id s)

  -- The commands that were run, of a pipeline that fails.
  unfoldable pub exec_some : (ran : ℕ → Bool) → List Command → State → State
  exec_some ran [] s = s
  exec_some ran (push k id ∷ cs) s = exec_some (λ n. ran (suc n)) cs (partly (ran 0) (lpush k id) s)
  exec_some ran (remove k id ∷ cs) s =
      exec_some (λ n. ran (suc n)) cs (partly (ran 0) (zrem k id) s)

  -- ZRANGEBYSCORE delayed 0 now LIMIT 0 batchSize; go-redis sends no LIMIT where batchSize is 0.
  unfoldable pub due_keys : (batch : ℕ) → (now : ℤ) → State → List ℕ
  due_keys batch now s =
      let keys = range s delayed (pos 0) (unix_milli now) in
      if batch == 0 then keys else take batch keys

  unfoldable pub move_delayed :
      (scan : Option Error)
      → (pipe : Option Outage) → (reads : ℕ → Option Error) → (batch : ℕ) → (now : ℤ) → State
      → State × ℕ × Option Error
  unfolding due_keys
  move_delayed scan pipe reads batch now s =
      let keys = due_keys batch now s in
      let moved = move_count reads s keys in
      elim scan [
        | some e ↦ (s, 0, some (wrap "get delayed jobs" e))
        | none ↦ if length keys == 0 then (s, 0, none) else elim pipe [
          | some o ↦ (
            exec_some o.ran (move_plan reads s keys) s,
            moved,
            some (wrap "move delayed jobs" o.cause),
          )
          | none ↦ (exec (move_plan reads s keys) s, moved, none)
        ]
      ]

  -- The depths of the ten ready queues, in the order of the priorities.
  unfoldable pub queue_depth : (pipe : Option Error) → State → Result (List ℕ)
  queue_depth (some e) s = err (wrap "get queue depths" e)
  queue_depth none s = ok (map (λ p. length (items s (ready (pos p)))) priorities)

  -- ZRem of an in-flight entry, whose error is not looked at.
  abbrev pub let_go : (removes : ℕ → Option Error) → String → ℕ → State → State
  let_go removes worker id s = elim (removes id) [ none ↦ zrem (inflight worker) id s | some e ↦ s ]

  -- The body of the inner loop of ReclaimOrphaned, for one job of one worker; 1 if it is reclaimed.
  unfoldable pub reclaim_one :
      (id_low : ℕ → ℕ)
      → (reads : ℕ → Option Error) → (pipes : ℕ → Option Outage) → (removes : ℕ → Option Error)
      → (now : ℤ) → String
      → ℕ
      → State
      → State × ℕ
  unfolding reclaimed_job
  reclaim_one id_low reads pipes removes now worker id s = elim (read_job reads s id) [
    | none ↦ (let_go removes worker id s, 0)
    | some j ↦
        let (queued, e) = requeue c r (pipes id) (reclaimed_job id_low now j) s in
        elim e [ none ↦ (let_go removes worker id queued, 1) | some _ ↦ (queued, 0) ]
  ]

  unfoldable pub reclaim_jobs :
      (id_low : ℕ → ℕ)
      → (reads : ℕ → Option Error) → (pipes : ℕ → Option Outage) → (removes : ℕ → Option Error)
      → (now : ℤ) → String
      → List ℕ
      → State
      → State × ℕ
  reclaim_jobs id_low reads pipes removes now worker [] s = (s, 0)
  reclaim_jobs id_low reads pipes removes now worker (id ∷ ids) s =
      let (s', n) = reclaim_one id_low reads pipes removes now worker id s in
      let (s'', m) = reclaim_jobs id_low reads pipes removes now worker ids s' in (s'', n + m)

  -- The loop over the keys that SCAN finds; `ranges` has the failures of ZRANGEBYSCORE. To delete
  -- the key of a set that has become empty changes nothing: Redis keeps no empty sets.
  unfoldable pub reclaim_worker :
      (id_low : ℕ → ℕ)
      → (range_error : Option Error) → (reads : ℕ → Option Error) → (pipes : ℕ → Option Outage)
      → (removes : ℕ → Option Error) → (now : ℤ) → (max_age : ℤ) → String
      → State
      → State × ℕ
  reclaim_worker id_low (some e) reads pipes removes now max_age worker s = (s, 0)
  reclaim_worker id_low none reads pipes removes now max_age worker s =
      reclaim_jobs id_low reads pipes removes now worker
        (range s (inflight worker) (pos 0) (unix_milli (now -ℤ max_age))) s

  unfoldable pub reclaim_workers :
      (id_low : ℕ → ℕ)
      → (ranges : String → Option Error) → (reads : ℕ → Option Error) → (pipes : ℕ → Option Outage)
      → (removes : ℕ → Option Error) → (now : ℤ) → (max_age : ℤ) → List String
      → State
      → State × ℕ
  reclaim_workers id_low ranges reads pipes removes now max_age [] s = (s, 0)
  reclaim_workers id_low ranges reads pipes removes now max_age (worker ∷ workers) s =
      let (s', n) =
        reclaim_worker id_low (ranges worker) reads pipes removes now max_age worker s in
      let (s'', m) = reclaim_workers id_low ranges reads pipes removes now max_age workers s' in
      (s'', n + m)

  -- `scanning` is the error with which SCAN stops, after the keys of `workers`.
  unfoldable pub reclaim_orphaned :
      (id_low : ℕ → ℕ)
      → (scanning : Option Error) → (ranges : String → Option Error) → (reads : ℕ → Option Error)
      → (pipes : ℕ → Option Outage) → (removes : ℕ → Option Error) → (now : ℤ) → (max_age : ℤ)
      → List String
      → State
      → State × Result ℕ
  unfolding reclaim_workers
  reclaim_orphaned id_low scanning ranges reads pipes removes now max_age workers s =
      let (s', n) = reclaim_workers id_low ranges reads pipes removes now max_age workers s in
      (s', elim scanning [ none ↦ ok n | some e ↦ err (wrap "scan in-flight keys" e) ])
