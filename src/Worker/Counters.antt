-- ===== src/Worker/Counters.antt =====
-- What the counters of internal/metrics/prometheus.go say after any number of executions
-- (internal/worker/pool.go).
use distributed_task_schedul.Worker.Execution.{
  Calls, error_text, World, execute_job, run_with_recovery, no_handler,
}
use distributed_task_schedul.Metrics.Client.{Prometheus, labels_eq}
use distributed_task_schedul.Models.Job.{Job}
use distributed_task_schedul.Queue.Redis.{Codec, Redis}
use distributed_task_schedul.Prelude.{
  ℕ, String, Option, List, if◌then◌else◌, ◌∷◌, some, ◌≡◌, [], ◌+◌, str_eq, eq_iff, arith, refl,
  Option-cases, subst, inl, ◌∙◌, inr, sym, Bool-cases,
}
use distributed_task_schedul.Store.Tables.{Postgres}
use distributed_task_schedul.Errors.{Error}
use distributed_task_schedul.Metrics.Collector.{
  Collector, record_job_processed, record_job_latency, record_job_execution_time,
  record_job_executed, record_job_failed, record_job_dlq, new_collector,
}
use distributed_task_schedul.Worker.Registry.{Registry, get_handler}
use distributed_task_schedul.Worker.Failures.{nack-spent}
use distributed_task_schedul.Worker.Measures.{
  measure_job, measure_error, measure_success, measured_jobs, Run,
}

module _ (m : Prometheus) (c : Codec) (r : Redis c.Blob) (d : Postgres) (id_low : ℕ → ℕ)
    (text : Error → String) where
  open r use {State}
  open m use {count, add}

  measure_error-counts :
      (k : Calls) (j : Job) (e : Option Error) (s : State) (co : Collector m)
      → measure_error m c r d id_low text k j e s co ≡ record co {
        jobs_executed = add (j.job_type ∷ "failure" ∷ []) 1 co.jobs_executed;
        jobs_failed = add (j.job_type ∷ k.worker_id ∷ []) 1 co.jobs_failed;
        jobs_dlq = add (j.job_type ∷ []) 1 co.jobs_dlq;
      }
  unfolding measure_error record_job_processed record_job_executed record_job_failed record_job_dlq
  measure_error-counts k j e s co =
      let msg = error_text c r d id_low text e in
      rw (nack-spent c r d id_low text k.queue_failure k.times.nacked j k.worker_id msg s) refl

  -- What the counters say of the jobs of a type, of which so many have been executed.
  pub record Tally (worker t : String) (executed : ℕ) (co : Collector m) : Type 0 where
    pub failed_once :
        count (t ∷ worker ∷ []) co.jobs_failed ≡ count (t ∷ "failure" ∷ []) co.jobs_executed
    pub all_dead : count (t ∷ []) co.jobs_dlq ≡ count (t ∷ "failure" ∷ []) co.jobs_executed
    pub none_retried : count (t ∷ []) co.jobs_retried ≡ 0
    pub total :
        count (t ∷ "success" ∷ []) co.jobs_executed + count (t ∷ "failure" ∷ []) co.jobs_executed
        ≡ executed

  -- The counters after a job that fails.
  abbrev failing : (worker t : String) → Collector m → Collector m
  failing worker t co = record co {
    jobs_executed = add (t ∷ "failure" ∷ []) 1 co.jobs_executed;
    jobs_failed = add (t ∷ worker ∷ []) 1 co.jobs_failed;
    jobs_dlq = add (t ∷ []) 1 co.jobs_dlq;
  }

  Tally-failing :
      (worker t u : String) (n : ℕ) (co : Collector m)
      → Tally worker u n co
      → Tally worker u (if str_eq t u then n + 1 else n) (failing worker t co)
  unfolding labels_eq
  Tally-failing worker t u n co a =
      let same = (eq_iff worker worker).1 refl in
      record {
        failed_once = ground (
          arith,
          same,
          a.failed_once,
          m.count-add (t ∷ worker ∷ []) 1 co.jobs_failed (u ∷ worker ∷ []),
          m.count-add (t ∷ "failure" ∷ []) 1 co.jobs_executed (u ∷ "failure" ∷ []),
        );
        all_dead = ground (
          arith,
          a.all_dead,
          m.count-add (t ∷ []) 1 co.jobs_dlq (u ∷ []),
          m.count-add (t ∷ "failure" ∷ []) 1 co.jobs_executed (u ∷ "failure" ∷ []),
        );
        none_retried = a.none_retried;
        total = ground (
          arith,
          a.total,
          m.count-add (t ∷ "failure" ∷ []) 1 co.jobs_executed (u ∷ "success" ∷ []),
          m.count-add (t ∷ "failure" ∷ []) 1 co.jobs_executed (u ∷ "failure" ∷ []),
        );
      }

  Tally-succeeding :
      (worker t u : String) (n : ℕ) (co : Collector m)
      → Tally worker u n co
      → Tally worker u
          (if str_eq t u then n + 1 else n)
          (record co { jobs_executed = add (t ∷ "success" ∷ []) 1 co.jobs_executed })
  unfolding labels_eq
  Tally-succeeding worker t u n co a =
      let kept = m.count-add (t ∷ "success" ∷ []) 1 co.jobs_executed (u ∷ "failure" ∷ []) in
      record {
        failed_once = ground (arith, a.failed_once, kept);
        all_dead = ground (arith, a.all_dead, kept);
        none_retried = a.none_retried;
        total = ground (
          arith,
          a.total,
          kept,
          m.count-add (t ∷ "success" ∷ []) 1 co.jobs_executed (u ∷ "success" ∷ []),
        );
      }

  -- Histograms do not count.
  Tally-observe :
      (worker u : String) (n : ℕ) (co : Collector m) (g h : m.Histogram)
      → Tally worker u n co
      → Tally worker u n (record co { job_execution_time = g; job_latency = h })
  Tally-observe worker u n co g h a = record {
    failed_once = a.failed_once;
    all_dead = a.all_dead;
    none_retried = a.none_retried;
    total = a.total;
  }

  measure_job-Tally :
      (handlers : Registry) (x : Run) (s : State) (u : String) (n : ℕ) (co : Collector m)
      → Tally x.calls.worker_id u n co
      → Tally x.calls.worker_id u
          (if str_eq x.job.job_type u then n + 1 else n)
          (measure_job m c r d id_low text handlers x s co)
  unfolding measure_job measure_success record_job_processed record_job_executed record_job_latency
      record_job_execution_time
  measure_job-Tally handlers x s u n co a =
      let k = x.calls in
      let j = x.job in
      let worker = k.worker_id in
      let t = j.job_type in
      let timed = record_job_execution_time m t x.elapsed co in
      let b : Tally worker u n timed =
        Tally-observe worker u n co timed.job_execution_time co.job_latency a in
      elim (Option-cases (get_handler t handlers)) [
        | inl e ↦
            rw
              (
                measure_job,
                e,
                measure_error-counts k j (some (no_handler c r d id_low text j)) s co,
              )
              (Tally-failing worker t u n co a)
        | inr (h, e) ↦ elim (Bool-cases (run_with_recovery h j)) [
          | inl y ↦
              let done = measure_success m c r d id_low text k j x.latency timed in
              rw (measure_job, e, y)
                (Tally-observe worker u _ _ timed.job_execution_time done.job_latency
                  (Tally-succeeding worker t u n timed b))
          | inr y ↦
              rw (measure_job, e, y, measure_error-counts k j k.context_error s timed)
                (Tally-failing worker t u n timed b)
        ]
      ]

  -- How many jobs of a type are executed.
  unfoldable pub count_type : (t : String) → List Run → ℕ
  count_type t [] = 0
  count_type t (x ∷ xs) =
      let rest = count_type t xs in if str_eq x.job.job_type t then rest + 1 else rest

  jobs-Tally :
      (handlers : Registry) (worker u : String) (n : ℕ) (xs : List Run) (w : World State)
      (co : Collector m)
      → Tally worker u n co
      → Tally worker u
          (n + count_type u xs)
          (measured_jobs m c r d id_low text handlers worker xs (w, co)).1
  unfolding measured_jobs count_type
  jobs-Tally handlers worker u n [] w co a = subst (λ k. Tally worker u k co) (omega arith) a
  jobs-Tally handlers worker u n (x ∷ xs) w co a =
      let k = record x.calls { worker_id = worker } in
      let y = record x { calls = k } in
      let step = measure_job-Tally handlers y w.queue u n co a in
      let next = if str_eq x.job.job_type u then n + 1 else n in
      let rest =
        jobs-Tally handlers worker u next xs (execute_job c r d id_low text handlers k x.job w)
          (measure_job m c r d id_low text handlers y w.queue co) step in
      subst
        (λ k.
          Tally worker u k (measured_jobs m c r d id_low text handlers worker (x ∷ xs) (w, co)).1)
        (ground arith) rest

  -- After any executions by the workers of a pool, from a new collector on, the counters of a job type add up: successes and failures are the executions, each failure is counted once under the id of the pool, and once as a dead letter; no job is ever counted as retried.
  pub measured_jobs-Tally :
      (handlers : Registry) (worker t : String) (xs : List Run) (w : World State)
      → Tally worker t
          (count_type t xs)
          (measured_jobs m c r d id_low text handlers worker xs (w, new_collector m)).1
  measured_jobs-Tally handlers worker t xs w =
      let none_yet = m.count-new_counter in
      let fresh : Tally worker t 0 (new_collector m) = record {
        failed_once = none_yet (t ∷ worker ∷ []) ∙ sym (none_yet (t ∷ "failure" ∷ []));
        all_dead = none_yet (t ∷ []) ∙ sym (none_yet (t ∷ "failure" ∷ []));
        none_retried = none_yet (t ∷ []);
        total = rw (none_yet (t ∷ "success" ∷ []), none_yet (t ∷ "failure" ∷ [])) refl;
      } in
      subst
        (λ k.
          Tally worker t k
            (measured_jobs m c r d id_low text handlers worker xs (w, new_collector m)).1)
        (omega arith) (jobs-Tally handlers worker t 0 xs w (new_collector m) fresh)
