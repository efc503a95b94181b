-- ===== src/Store/Listing.antt =====
-- ListJobs and GetQueueStats (internal/store/postgres.go). `order` is what ORDER BY does to the rows.
use distributed_task_schedul.Prelude.{
  ℕ, ◌≡◌, Option, if◌then◌else◌, String, Bool, List, ℤ, leb_ℤ, ltb_ℤ, str_eq, false, true, ◌&&◌,
  ◌∷◌, length, All, pos, some, ◌||◌, drop, take, none, pos_part, eqb_ℤ, arith, ◌-◌, min, ◌+◌, suc,
  ◌≤◌, zero, [], inr, refl, inl, ◌-ℤ◌, wrap64, ◌*ℤ◌, map,
}
use distributed_task_schedul.Store.Tables.{Row, Postgres, Tables, is_known}
use distributed_task_schedul.Models.Status.{
  JobStatus, status_eq, pending, running, completed, failed, dead_letter, cancelled,
}
use distributed_task_schedul.Errors.{Result, Error, ok, err, wrap, ◌>>=◌, Result-cases, wrap_err}
use distributed_task_schedul.Models.Job.{Job}
use distributed_task_schedul.Store.Jobs.{scan_job, refused}

pub record JobFilter : Type 0 where
  pub status : Option JobStatus
  pub job_type : String
  pub priority : Option ℤ
  pub worker_id : String
  pub limit : ℤ
  pub offset : ℤ
  pub order_by : String
  pub order_desc : Bool

-- The defaults of the pagination.
unfoldable pub page_limit : JobFilter → ℕ
page_limit f = if leb_ℤ f.limit (pos 0) || ltb_ℤ (pos 1000) f.limit then 100 else pos_part f.limit

unfoldable pub page_offset : JobFilter → ℕ
page_offset f = if ltb_ℤ f.offset (pos 0) then 0 else pos_part f.offset

abbrev pub order_column : JobFilter → String
order_column f = if str_eq f.order_by "" then "created_at" else f.order_by

-- A column that is NULL equals nothing.
abbrev column_eq : Option String → String → Bool
column_eq none s = false
column_eq (some c) s = str_eq c s

abbrev wants {ℓ} : {A : Type ℓ} → Option A → (A → Bool) → Bool
wants none test = true
wants (some a) test = test a

-- The WHERE clause.
unfoldable pub matches : JobFilter → Row → Bool
matches f row =
    wants f.status (λ s. status_eq row.status s)
    && (str_eq f.job_type "" || str_eq row.job_type f.job_type)
    && wants f.priority (λ p. eqb_ℤ row.priority p)
    && (str_eq f.worker_id "" || column_eq row.worker_id f.worker_id)

unfoldable pub select {ℓ} : {A : Type ℓ} → (A → Bool) → List A → List A
select test [] = []
select test (x ∷ xs) = let rest = select test xs in if test x then x ∷ rest else rest

-- pgx.CollectRows
unfoldable pub collect_jobs : Postgres → List Row → Result (List Job)
collect_jobs d [] = ok []
collect_jobs d (row ∷ rows) = do job ← scan_job d row; jobs ← collect_jobs d rows; ok (job ∷ jobs)

-- The server takes no text for a status that the enum job_status does not have.
unfoldable pub known_status : Option JobStatus → Result (Unit {0})
known_status none = ok tt
known_status (some s) = if is_known s then ok tt else err (wrap "count jobs" refused)

unfoldable pub list_jobs :
    Postgres
    → (order : String → Bool → List Row → List Row) → (counting listing : Option Error) → JobFilter
    → Tables
    → Result (List Job × ℕ)
unfolding matches select page_limit page_offset collect_jobs known_status
list_jobs d order (some e) listing f t = err (wrap "count jobs" e)
list_jobs d order none (some e) f t = do known ← known_status f.status; err (wrap "list jobs" e)
list_jobs d order none none f t = do
  known ← known_status f.status
  let found = select (matches f) t.jobs
  let sorted = order (order_column f) f.order_desc found
  jobs ← wrap_err "scan jobs" (collect_jobs d (take (page_limit f) (drop (page_offset f) sorted)))
  ok (jobs, length found)

pub record QueueStats : Type 0 where
  pub pending_count : ℕ
  pub running_count : ℕ
  pub completed_count : ℕ
  pub failed_count : ℕ
  pub dead_letter_count : ℕ
  pub cancelled_count : ℕ
  pub total : ℕ
  pub avg_duration : Option ℤ

-- COUNT(*) FILTER (WHERE status = …)
unfoldable pub count_status : JobStatus → List Row → ℕ
count_status s rows = length (select (λ row. status_eq row.status s) rows)

-- completed_at - started_at, where neither is NULL: AVG leaves the others out.
unfoldable pub durations : List Row → List ℤ
durations [] = []
durations (row ∷ rows) =
    let rest = durations rows in
    elim row.completed_at [
      | none ↦ rest
      | some done ↦ elim row.started_at [ none ↦ rest | some start ↦ (done -ℤ start) ∷ rest ]
    ]

-- time.Duration(ms) * time.Millisecond
abbrev in_milliseconds : Option ℤ → Option ℤ
in_milliseconds none = none
in_milliseconds (some ms) = some (wrap64 (ms *ℤ pos 1000000))

-- `average` is the AVG of PostgreSQL times 1000, and the conversion of that number to an int64.
unfoldable pub get_queue_stats :
    (average : List ℤ → Option ℤ) → (failure : Option Error) → Tables → Result QueueStats
get_queue_stats average (some e) t = err (wrap "get queue stats" e)
get_queue_stats average none t = ok record {
  pending_count = count_status pending t.jobs;
  running_count = count_status running t.jobs;
  completed_count = count_status completed t.jobs;
  failed_count = count_status failed t.jobs;
  dead_letter_count = count_status dead_letter t.jobs;
  cancelled_count = count_status cancelled t.jobs;
  total = length t.jobs;
  avg_duration = in_milliseconds (average (durations t.jobs));
}

length-collect_jobs :
    (d : Postgres) (rows : List Row) (jobs : List Job)
    → collect_jobs d rows ≡ ok jobs
    → length jobs ≡ length rows
unfolding collect_jobs
length-collect_jobs d [] jobs h = ground arith
length-collect_jobs d (row ∷ rows) jobs h = elim (Result-cases (scan_job d row)) [
  | inr (e, x) ↦ ground (arith, x)
  | inl (j, x) ↦ elim (Result-cases (collect_jobs d rows)) [
    | inr (e, y) ↦ ground (arith, x, y)
    | inl (js, y) ↦ ground (arith, x, y, length-collect_jobs d rows js y)
  ]
]

-- What is collected is what each row scans to, in the order of the rows.
pub collect_jobs-scan_job :
    (d : Postgres) (rows : List Row) (jobs : List Job)
    → collect_jobs d rows ≡ ok jobs
    → map (scan_job d) rows ≡ map ok jobs
unfolding collect_jobs
collect_jobs-scan_job d [] jobs h = ground (arith, h)
collect_jobs-scan_job d (row ∷ rows) jobs h = elim (Result-cases (scan_job d row)) [
  | inr (e, x) ↦ ground (arith, x)
  | inl (j, x) ↦ elim (Result-cases (collect_jobs d rows)) [
    | inr (e, y) ↦ ground (arith, x, y)
    | inl (js, y) ↦ ground (arith, x, y, collect_jobs-scan_job d rows js y)
  ]
]

length-drop : {A : Type 0} (n : ℕ) (xs : List A) → length (drop n xs) ≡ length xs - n
length-drop zero xs = omega arith
length-drop (suc n) [] = omega arith
length-drop (suc n) (x ∷ xs) = omega (arith, length-drop n xs)

length-take : {A : Type 0} (n : ℕ) (xs : List A) → length (take n xs) ≡ min n (length xs)
length-take zero xs = omega arith
length-take (suc n) [] = omega arith
length-take (suc n) (x ∷ xs) = omega (arith, length-take n xs)

page_limit_bounds : (f : JobFilter) → (1 ≤ page_limit f) × (page_limit f ≤ 1000)
unfolding page_limit
page_limit_bounds f = (ground arith, ground arith)

-- The rows that a page shows.
abbrev pub page_of : (String → Bool → List Row → List Row) → JobFilter → Tables → List Row
page_of order f t =
    take (page_limit f)
      (drop (page_offset f) (order (order_column f) f.order_desc (select (matches f) t.jobs)))

pub list_jobs-done :
    (d : Postgres) (order : String → Bool → List Row → List Row) (f : JobFilter) (t : Tables)
    (jobs : List Job) (total : ℕ)
    → list_jobs d order none none f t ≡ ok (jobs, total)
    → (collect_jobs d (page_of order f t) ≡ ok jobs) × (total ≡ length (select (matches f) t.jobs))
unfolding list_jobs
list_jobs-done d order f t jobs total h = elim (Result-cases (collect_jobs d (page_of order f t))) [
  | inr (e, x) ↦ ground (arith, x)
  | inl (js, x) ↦ ground (arith, x)
]

-- A page of ListJobs has the rows from the offset on, at most `limit` of them and never more than 1000, and the count is that of all matching jobs.
pub length-list_jobs :
    (d : Postgres) (order : String → Bool → List Row → List Row) (f : JobFilter) (t : Tables)
    (jobs : List Job) (total : ℕ)
    → ((column : String) (desc : Bool) (rows : List Row)
        → length (order column desc rows) ≡ length rows)
    → list_jobs d order none none f t ≡ ok (jobs, total)
    → (total ≡ length (select (matches f) t.jobs))
      × (length jobs ≡ min (page_limit f) (total - page_offset f))
      × (1 ≤ page_limit f)
      × (page_limit f ≤ 1000)
length-list_jobs d order f t jobs total perm h =
    let (collected, all) = list_jobs-done d order f t jobs total h in
    let found = select (matches f) t.jobs in
    let sorted = order (order_column f) f.order_desc found in
    let shown = length-collect_jobs d (page_of order f t) jobs collected in
    let taken = length-take (page_limit f) (drop (page_offset f) sorted) in
    let dropped = length-drop (page_offset f) sorted in
    let kept = perm (order_column f) f.order_desc found in
    (
      all,
      omega (arith, shown, taken, dropped, kept, all),
      (page_limit_bounds f).0,
      (page_limit_bounds f).1,
    )

count-split :
    (rows : List Row)
    → All (λ row. is_known row.status ≡ true) rows
    → count_status pending rows
        + count_status running rows
        + count_status completed rows
        + count_status failed rows
        + count_status dead_letter rows
        + count_status cancelled rows
      ≡ length rows
unfolding count_status select status_eq is_known
count-split [] k = refl
count-split (row ∷ rows) k = ground (arith, count-split rows k.1)

-- The six counts of GetQueueStats add up to its total, where the statuses are those of the enum.
pub get_queue_stats-total :
    (average : List ℤ → Option ℤ) (t : Tables) (stats : QueueStats)
    → All (λ row. is_known row.status ≡ true) t.jobs
    → get_queue_stats average none t ≡ ok stats
    → stats.pending_count + stats.running_count + stats.completed_count + stats.failed_count
        + stats.dead_letter_count + stats.cancelled_count
      ≡ stats.total
unfolding get_queue_stats
get_queue_stats-total average t stats k h = ground (arith, count-split t.jobs k)
