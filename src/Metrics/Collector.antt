-- ===== src/Metrics/Collector.antt =====
-- Collector and WorkerActivityTracker (internal/metrics/prometheus.go). The number that
-- fmt.Sprintf("%d", …) writes for a priority is an argument, `show`.
use distributed_task_schedul.Metrics.Client.{Prometheus}
use distributed_task_schedul.Prelude.{ℤ, String, ℕ, ◌∷◌, [], Bool, List, if◌then◌else◌, pos}

module _ (m : Prometheus) where
  open m use {Counter, Gauge, Histogram, add, set, observe, new_counter, new_gauge, new_histogram}

  pub record Collector : Type 0 where
    pub jobs_submitted : Counter
    pub jobs_executed : Counter
    pub jobs_failed : Counter
    pub jobs_retried : Counter
    pub jobs_dlq : Counter
    pub jobs_cancelled : Counter
    pub job_latency : Histogram
    pub job_execution_time : Histogram
    pub enqueue_latency : Histogram
    pub dequeue_latency : Histogram
    pub workers_active : Gauge
    pub queue_depth : Gauge
    pub jobs_inflight : Gauge
    pub cron_jobs_active : Gauge
    pub scheduler_loop_duration : Histogram
    pub delayed_jobs_moved : Counter
    pub retry_attempts : Counter
    pub circuit_breaker_state : Gauge

  abbrev pub new_collector : Collector
  new_collector = record {
    jobs_submitted = new_counter;
    jobs_executed = new_counter;
    jobs_failed = new_counter;
    jobs_retried = new_counter;
    jobs_dlq = new_counter;
    jobs_cancelled = new_counter;
    job_latency = new_histogram;
    job_execution_time = new_histogram;
    enqueue_latency = new_histogram;
    dequeue_latency = new_histogram;
    workers_active = new_gauge;
    queue_depth = new_gauge;
    jobs_inflight = new_gauge;
    cron_jobs_active = new_gauge;
    scheduler_loop_duration = new_histogram;
    delayed_jobs_moved = new_counter;
    retry_attempts = new_counter;
    circuit_breaker_state = new_gauge;
  }

  unfoldable pub record_job_submitted :
      (show : ℤ → String) → (job_type : String) → (priority : ℤ) → Collector → Collector
  record_job_submitted show t p c = record c {
    jobs_submitted = add (t ∷ show p ∷ []) 1 c.jobs_submitted;
  }

  unfoldable pub record_job_executed : (job_type status : String) → Collector → Collector
  record_job_executed t status c = record c {
    jobs_executed = add (t ∷ status ∷ []) 1 c.jobs_executed;
  }

  unfoldable pub record_job_failed : (job_type worker_id : String) → Collector → Collector
  record_job_failed t worker c = record c { jobs_failed = add (t ∷ worker ∷ []) 1 c.jobs_failed }

  unfoldable pub record_job_retried : (job_type : String) → Collector → Collector
  record_job_retried t c = record c { jobs_retried = add (t ∷ []) 1 c.jobs_retried }

  unfoldable pub record_job_dlq : (job_type : String) → Collector → Collector
  record_job_dlq t c = record c { jobs_dlq = add (t ∷ []) 1 c.jobs_dlq }

  unfoldable pub record_job_cancelled : (job_type : String) → Collector → Collector
  record_job_cancelled t c = record c { jobs_cancelled = add (t ∷ []) 1 c.jobs_cancelled }

  unfoldable pub record_job_latency : (job_type : String) → (duration : ℤ) → Collector → Collector
  record_job_latency t x c = record c { job_latency = observe (t ∷ []) x c.job_latency }

  unfoldable pub record_job_execution_time :
      (job_type : String) → (duration : ℤ) → Collector → Collector
  record_job_execution_time t x c = record c {
    job_execution_time = observe (t ∷ []) x c.job_execution_time;
  }

  unfoldable pub record_enqueue_latency : (duration : ℤ) → Collector → Collector
  record_enqueue_latency x c = record c { enqueue_latency = observe [] x c.enqueue_latency }

  unfoldable pub record_dequeue_latency : (duration : ℤ) → Collector → Collector
  record_dequeue_latency x c = record c { dequeue_latency = observe [] x c.dequeue_latency }

  unfoldable pub set_worker_active : (worker_id : String) → (active : ℤ) → Collector → Collector
  set_worker_active worker x c = record c { workers_active = set (worker ∷ []) x c.workers_active }

  unfoldable pub set_queue_depth :
      (show : ℤ → String) → (priority depth : ℤ) → Collector → Collector
  set_queue_depth show p x c = record c { queue_depth = set (show p ∷ []) x c.queue_depth }

  unfoldable pub set_jobs_inflight : (count : ℤ) → Collector → Collector
  set_jobs_inflight x c = record c { jobs_inflight = set [] x c.jobs_inflight }

  unfoldable pub set_cron_jobs_active : (count : ℤ) → Collector → Collector
  set_cron_jobs_active x c = record c { cron_jobs_active = set [] x c.cron_jobs_active }

  unfoldable pub record_scheduler_loop : (duration : ℤ) → Collector → Collector
  record_scheduler_loop x c = record c {
    scheduler_loop_duration = observe [] x c.scheduler_loop_duration;
  }

  unfoldable pub record_delayed_jobs_moved : (count : ℕ) → Collector → Collector
  record_delayed_jobs_moved n c = record c { delayed_jobs_moved = add [] n c.delayed_jobs_moved }

  unfoldable pub record_retry_attempt : (job_type status : String) → Collector → Collector
  record_retry_attempt t status c = record c {
    retry_attempts = add (t ∷ status ∷ []) 1 c.retry_attempts;
  }

  unfoldable pub set_circuit_breaker_state :
      (job_type : String) → (state : ℤ) → Collector → Collector
  set_circuit_breaker_state t x c = record c {
    circuit_breaker_state = set (t ∷ []) x c.circuit_breaker_state;
  }

  -- WorkerActivityTracker.RecordJobProcessed; the tracker is the id of its worker.
  unfoldable pub record_job_processed :
      (worker_id : String) → (job_type : String) → (success : Bool) → Collector → Collector
  record_job_processed worker t success c =
      if success
      then record_job_executed t "success" c
      else record_job_executed t "failure" (record_job_failed t worker c)

  -- WorkerActivityTracker.SetActive
  unfoldable pub set_active : (worker_id : String) → (active : Bool) → Collector → Collector
  set_active worker active c = set_worker_active worker (if active then pos 1 else pos 0) c

  -- UpdateQueueDepth, over the entries of the map in the order in which the loop ranges over them
  unfoldable pub update_queue_depth : (show : ℤ → String) → List (ℤ × ℕ) → Collector → Collector
  update_queue_depth show [] c = c
  update_queue_depth show ((p, n) ∷ depths) c =
      update_queue_depth show depths (set_queue_depth show p (pos n) c)
