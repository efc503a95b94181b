-- ===== src/Lib.antt =====
-- Verification of the distributed task scheduler.
--
-- The program takes jobs over HTTP, keeps them in PostgreSQL and in queues on Redis, and runs them
-- in worker processes. A job is submitted to the scheduler, which stores it and enqueues it; it
-- waits in the ready queue of its priority, or in the delayed set until its time; a worker dequeues
-- it, which puts it into the worker's in-flight set, runs the handler of its type, and acknowledges
-- it, or reports the failure, after which the job is requeued or goes to the dead letters. The store
-- has the job's status, and its triggers log each change. Background loops of the scheduler move
-- delayed jobs that are due and reclaim jobs of workers that stopped; a lock on Redis keeps
-- two schedulers from moving the delayed jobs at once.
--
-- Files, and the code that they model (paths from the root of the repository):
-- - Prelude: names and lemmas that all modules share; integers over the native natural numbers
--   (Prelude/Int) with the wrap-around of an int64.
-- - Errors: the error values of all packages, with `wrap` for `%w`, and results.
-- - Models, internal/models/job.go: Status is JobStatus with CanTransitionTo; Job has NewJob, its
--   options, Validate and IsRetryable; Schedule is about IsRetryable and NextRetryTime.
-- - Retry, internal/retry/retry.go: Policy and Backoff (Engine.ShouldRetry, calculateBackoff),
--   Executor (Executor.Execute, ExecuteWithResult), Breaker (CircuitBreaker).
-- - Queue, internal/queue/redis.go: Redis is the interface of the server and of the JSON encoding,
--   Memory an instance of both; Operations has Enqueue, Dequeue, Acknowledge, Requeue and Nack with
--   their Lua scripts; Background has MoveDelayed, QueueDepth and ReclaimOrphaned, Letters GetDLQ.
--   Plan and Delayed are about the batch that MoveDelayed takes, Reclaim about a worker's in-flight
--   set. Pool is the queue as its clients see it, jobs with a place each, the order of priorities,
--   the retries and the days that a job is kept, in words of its own; Calls are its operations, and
--   Refine relates the two; Order and Draining are about the order in which Dequeue serves.
-- - Store, internal/store/postgres.go on the tables of migrations/001_init.sql: Tables is the
--   schema; Jobs has CreateJob, GetJob, UpdateJobStatus and DeleteJob with the triggers; Listing has
--   ListJobs and GetQueueStats, History GetJobHistory, Heartbeats the records of the workers.
--   Reachable is about any sequence of writing calls.
-- - Worker, internal/worker: Registry is the registry of handler.go, Handlers has the handlers of
--   that file; Execution has executeJob, handleJobSuccess and handleJobError of pool.go on a queue
--   and a store, Polling the waits of its poll loop, Rounds a round of that loop, Heartbeat the
--   reports of a pool; Measures is what an execution tells the metrics, and Counters what they say
--   then; Outcomes is about executeJob with the handlers of cmd/worker/main.go, and Journey
--   goes from Enqueue to the completion of a job.
-- - Lock, internal/lock/redis_lock.go: Server is the interface of the Redis server; Operations has
--   the scripts and the methods of RedisLocker, Waiting has TryAcquire; Exclusion is about clients
--   whose calls interleave, Renewal about DistributedLock and its ticks.
-- - Cron, matchCronField and ParseCron of internal/scheduler/scheduler.go: Text and Calendar have what
--   they use of strings, strconv and time, Schedule the two functions; Numbers and Fields are about
--   the forms of a field, Next about the time that is found.
-- - Scheduler, internal/scheduler/scheduler.go: Jobs has SubmitJob, DeleteJob and RetryJob of Core,
--   Recurring RegisterCronJob and the cron instances, Loops what a tick of each background loop does.
-- - Api, internal/scheduler/api.go: Responses, the handlers in Handlers and Listing, Middleware.
-- - Metrics, internal/metrics/prometheus.go: Client is the interface of the Prometheus client, Memory
--   an instance, Collector the methods that record.
-- Files named Examples or Scenarios apply the theorems to concrete inputs.
--
-- A definition has the name of what it models, in lower case with underscores. State is passed
-- explicitly: an operation takes the state and returns the new one with its result. A call that can
-- fail outside the program (of Redis, of PostgreSQL, of a context) takes the error with which it
-- fails, or `none`, as an argument. A clock is an argument too, in nanoseconds since the Unix
-- epoch; an execution has one for each of its readings (Times). The texts of Redis have a time to
-- live, and `elapse` lets time pass; within one operation the server's time stands still. Redis,
-- PostgreSQL's types with pgx, encoding/json and the Prometheus client are parameters, with
-- documented behaviour as laws; for each of them a concrete instance meets the laws. Ids stand for
-- UUIDs, and a key of Redis is a constructor with the variable part of the key's text.
--
-- Loops are structural recursions: over the list that the loop ranges over, over the number of
-- rounds left (Execute runs MaxRetries + 1 rounds, ParseCron 366 * 24 * 60), or over the list of
-- waits that the environment grants (TryAcquire, which stops when its context is done).
--
-- A pipeline of go-redis that reports an error may have run any of its commands (Outage, in
-- Acknowledge, Requeue, Nack and MoveDelayed). Any other call that reports an error is taken not to
-- have been run; that a connection is lost after the server has run it is not covered.
--
-- Not modelled: the routes of the HTTP layer and the JSON of its requests and answers, the names,
-- the buckets and the endpoint of the metrics, logging, the set-up of connections, cmd/ but for the
-- handlers that it registers, and the deployment files. Goroutines appear as sequences of the atomic
-- steps that they make (Lock, Retry/Breaker, the ticks and rounds of the loops); their start and
-- stop, and the tickers, are not modelled.
pub mod Prelude
pub mod Errors
pub mod Models
pub mod Retry
pub mod Queue
pub mod Store
pub mod Worker
pub mod Lock
pub mod Cron
pub mod Scheduler
pub mod Api
pub mod Metrics
