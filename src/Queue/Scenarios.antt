-- ===== src/Queue/Scenarios.antt =====
-- Runs of the whole queue and pages of its dead letters at concrete inputs (internal/queue/redis.go).
use distributed_task_schedul.Queue.Redis.{
  Redis, list_key_eq, get_last?, drop_last, dlq, contains, ready,
}
use distributed_task_schedul.Queue.Memory.{Database, plain_codec, memory, empty_database}
use distributed_task_schedul.Models.Job.{Job, default_job}
use distributed_task_schedul.Prelude.{
  List, Option, ◌∷◌, pos, ◌≡◌, if◌then◌else◌, [], ◌==◌, none, some, ℕ, true, refl, arith, drop,
  ◌+ℤ◌, wrap64, ◌*ℤ◌,
}
use distributed_task_schedul.Queue.Calls.{queue_calls}
use distributed_task_schedul.Queue.Pool.{
  pool_run, Call, pool_step, enqueues, next, dequeues, Pool, acknowledges, nacks, passes, requeues,
  unreadable,
}
use distributed_task_schedul.Models.Status.{failed, pending, status_eq}
use distributed_task_schedul.Queue.Letters.{get_dlq, nil_reply, get_dlq-page}
use distributed_task_schedul.Errors.{Result, ok, err, err_queue_empty, wrap}
use distributed_task_schedul.Queue.Contents.{contents, kept_of, decoded}
use distributed_task_schedul.Queue.Operations.{unix_milli}
use distributed_task_schedul.Queue.Refine.{queue_calls_refines}
use distributed_task_schedul.Queue.Draining.{
  Polls, polled, answers_in, waiting_ids, dequeues-Drains,
}
use distributed_task_schedul.Queue.Order.{in_order, oldest_first}

abbrev db : Redis (Option Job)
db = memory (Option Job)

abbrev fresh : Database (Option Job)
fresh = empty_database

abbrev urgent : Job
urgent = record (default_job 6 (pos 1000) "page-oncall" "{}") { priority = pos 1 }

abbrev routine : Job
routine = default_job 4 (pos 1000) "generate-report" "{}"

abbrev failed_routine : Job
failed_routine = record routine { status = failed }

-- The urgent job, though it came second, is served first; the other is then buried. Then it is tried
-- again once, and the second time its text is gone when a worker comes.
abbrev shift : List Call
shift =
    enqueues (pos 2000) routine
    ∷ enqueues (pos 2000) urgent
    ∷ dequeues (pos 70) "worker-1" 5000000000
    ∷ acknowledges 6 "worker-1"
    ∷ dequeues (pos 71) "worker-1" 5000000000
    ∷ nacks (pos 3000) routine "worker-1" "boom"
    ∷ dequeues (pos 72) "worker-1" 5000000000
    ∷ nacks (pos 3000) failed_routine "worker-1" "again"
    ∷ passes 3000
    ∷ dequeues (pos 73) "worker-2" 5000000000
    ∷ requeues routine
    ∷ passes 604800000
    ∷ dequeues (pos 74) "worker-2" 5000000000
    ∷ []

queue_calls_refines_example :
    let (s', answers) = queue_calls plain_codec db (λ i. i) fresh shift in
    ◌≡◌ {A = Pool × List (Result (Option Job))}
      (contents plain_codec db s', answers)
      (pool_run (kept_of plain_codec db) (λ i. i) (contents plain_codec db fresh) shift)
queue_calls_refines_example = queue_calls_refines plain_codec db (λ i. i) shift fresh

-- The answers of that run.
shift_answers :
    (pool_run (kept_of plain_codec db) (λ i. i) (contents plain_codec db fresh) shift).1
    ≡ ok none
      ∷ ok none
      ∷ ok (some urgent)
      ∷ ok none
      ∷ ok (some routine)
      ∷ ok none
      ∷ err err_queue_empty
      ∷ ok none
      ∷ ok none
      ∷ ok (
          some (record failed_routine {
            retry_count = 1;
            status = pending;
            error_message = "again";
            scheduled_at = pos 10004003000;
          }))
      ∷ ok none
      ∷ ok none
      ∷ err unreadable
      ∷ []
unfolding pool_run pool_step next get_last? drop_last unix_milli status_eq ◌+ℤ◌ wrap64 ◌*ℤ◌
shift_answers = refl

-- Three dead letters; the text of job 3 is gone.
abbrev graveyard : Database (Option Job)
graveyard = record {
  texts = λ i. if i == 3 then none else some (some (record routine { id = i }));
  lives = λ i. 604800000;
  lists = λ l. if list_key_eq dlq l then 2 ∷ 1 ∷ 3 ∷ [] else [];
  sets = λ k. [];
}

get_dlq-page_example :
    let page : List ℕ = 2 ∷ 1 ∷ [] in
    let answer = get_dlq plain_codec db none none (pos 2) (pos 0) graveyard in
    ((job : ℕ → Job)
      → ((id : ℕ)
          → contains page id ≡ true
          → (b : Option Job) × (graveyard.texts id ≡ some b) × (b ≡ some (job id)))
      → answer ≡ ok (job 2 ∷ job 1 ∷ []))
    × ((id : ℕ)
        → contains page id ≡ true
        → graveyard.texts id ≡ none
        → answer ≡ err (wrap "get dlq job data" nil_reply))
unfolding list_key_eq
get_dlq-page_example = get_dlq-page plain_codec db 1 0 graveyard (omega arith)

-- Job 8 waits since longer than job 9, and job 7 is more urgent than both.
abbrev three_waiting : Database (Option Job)
three_waiting = record {
  texts = λ i. some (some (record routine { id = i }));
  lives = λ i. 604800000;
  lists = λ l.
      if list_key_eq (ready (pos 5)) l
      then 9 ∷ 8 ∷ []
      else if list_key_eq (ready (pos 2)) l
      then 7 ∷ []
      else [];
  sets = λ k. [];
}

abbrev four_polls : Polls
four_polls =
    (pos 70, "worker-1", 5000000000)
    ∷ (pos 71, "worker-2", 5000000000)
    ∷ (pos 72, "worker-2", 5000000000)
    ∷ (pos 73, "worker-1", 5000000000)
    ∷ []

dequeues-Drains_example :
    let (s', answers) = queue_calls plain_codec db (λ i. i) three_waiting (polled four_polls) in
    (answers
      ≡ answers_in
          (λ i. decoded plain_codec db (three_waiting.texts i))
          (waiting_ids plain_codec db (λ i. i) three_waiting)
          four_polls)
    × (waiting_ids plain_codec db (λ i. i) s'
        ≡ drop 4 (waiting_ids plain_codec db (λ i. i) three_waiting))
dequeues-Drains_example = dequeues-Drains plain_codec db (λ i. i) four_polls three_waiting

-- The order in which they are served.
served_order : waiting_ids plain_codec db (λ i. i) three_waiting ≡ 7 ∷ 8 ∷ 9 ∷ []
unfolding in_order oldest_first list_key_eq
served_order = refl
