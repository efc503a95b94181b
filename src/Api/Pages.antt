-- ===== src/Api/Pages.antt =====
-- The pages that handleListJobs answers with (internal/scheduler/api.go).
use mathlib.Core.Option.{some-injective}
use distributed_task_schedul.Prelude.{
  String, Option, ℤ, Bool, ◌≡◌, some, true, Bool-cases, pos, str_eq, arith, inl, inr, Option-cases,
  subst, none, List, refl, ℕ, if◌then◌else◌, ◌||◌, leb_ℤ, ◌&&◌, eqb_ℤ, false, ltb_ℤ, ap, length,
  ◌∷◌, take, ◌≤◌, [], drop, map, min, ◌-◌, sym, ◌∙◌,
}
use distributed_task_schedul.Cron.Text.{Text, atoi}
use distributed_task_schedul.Api.Listing.{
  int_param, filter_of, Query, limit_ok, offset_ok, or_default, handle_list_jobs, to_status,
}
use distributed_task_schedul.Store.Listing.{
  page_limit, page_offset, JobFilter, list_jobs, matches, select, page_of, length-list_jobs,
  list_jobs-done, collect_jobs-scan_job,
}
use distributed_task_schedul.Store.Tables.{Postgres, Row, Tables}
use distributed_task_schedul.Errors.{Error, err, ok, Result-cases}
use distributed_task_schedul.Models.Job.{Job}
use distributed_task_schedul.Api.Responses.{failure, page}
use distributed_task_schedul.Models.Status.{status_eq}
use distributed_task_schedul.Store.Jobs.{scan_job}

module _ (code_points : String → Text) where
  int_param-in :
      (test : ℤ → Bool) (s : String) (n : ℤ) → int_param code_points test s ≡ some n → test n ≡ true
  unfolding int_param
  int_param-in test s n h = elim (Bool-cases (str_eq s "")) [
    | inl e ↦ cc (rw e at h)
    | inr e ↦ elim (Option-cases (atoi (code_points s))) [
      | inl a ↦ cc (rw (e, a) at h)
      | inr (m, a) ↦ elim (Bool-cases (test m)) [
        | inl p ↦ subst (λ x. test x ≡ true) (some-injective m n (rw (e, a, p) at h)) p
        | inr p ↦ cc (rw (e, a, p) at h)
      ]
    ]
  ]

  limit_in :
      (o : Option ℤ)
      → ((n : ℤ) → o ≡ some n → limit_ok n ≡ true)
      → limit_ok (or_default o (pos 100)) ≡ true
  limit_in none h = refl
  limit_in (some n) h = h n refl

  offset_in :
      (o : Option ℤ)
      → ((n : ℤ) → o ≡ some n → offset_ok n ≡ true)
      → offset_ok (or_default o (pos 0)) ≡ true
  offset_in none h = refl
  offset_in (some n) h = h n refl

  filter_of-in :
      (q : Query)
      → (limit_ok (filter_of code_points q).limit ≡ true)
        × (offset_ok (filter_of code_points q).offset ≡ true)
  unfolding filter_of
  filter_of-in q = (
    limit_in (int_param code_points limit_ok q.limit) (int_param-in limit_ok q.limit),
    offset_in (int_param code_points offset_ok q.offset) (int_param-in offset_ok q.offset),
  )

  -- ListJobs takes such a limit and such an offset as they are.
  page_limit-ok : (f : JobFilter) → limit_ok f.limit ≡ true → f.limit ≡ pos (page_limit f)
  unfolding page_limit
  page_limit-ok f h = ground arith

  page_offset-ok : (f : JobFilter) → offset_ok f.offset ≡ true → f.offset ≡ pos (page_offset f)
  unfolding page_offset
  page_offset-ok f h = ground arith

  answer-err :
      (d : Postgres) (ordering : String → Bool → List Row → List Row) (q : Query) (t : Tables)
      (x : Error)
      → list_jobs d ordering none none (filter_of code_points q) t ≡ err x
      → handle_list_jobs d code_points ordering none none q t
        ≡ record { status = 500; body = failure "failed to list jobs: " x }
  unfolding handle_list_jobs
  answer-err d ordering q t x e = rw (handle_list_jobs, e) refl

  answer-ok :
      (d : Postgres) (ordering : String → Bool → List Row → List Row) (q : Query) (t : Tables)
      (jobs : List Job) (total : ℕ)
      → list_jobs d ordering none none (filter_of code_points q) t ≡ ok (jobs, total)
      → let f = filter_of code_points q in
        handle_list_jobs d code_points ordering none none q t
        ≡ record { status = 200; body = page jobs total f.limit f.offset }
  unfolding handle_list_jobs
  answer-ok d ordering q t jobs total e = rw (handle_list_jobs, e) refl

  -- The number that a parameter gives, if there is one and it lies in the range.
  abbrev pub number_in : (low high : ℤ) → String → Option ℤ
  number_in low high s = if str_eq s "" then none else elim (atoi (code_points s)) [
    | none ↦ none
    | some n ↦ if leb_ℤ low n && leb_ℤ n high then some n else none
  ]

  abbrev pub number_or : Option ℤ → ℤ → ℤ
  number_or none n = n
  number_or (some m) n = m

  -- Where the page starts.
  abbrev pub start_of : String → ℤ
  start_of s = if str_eq s "" then pos 0 else elim (atoi (code_points s)) [
    | none ↦ pos 0
    | some n ↦ if ltb_ℤ n (pos 0) then pos 0 else n
  ]

  -- A row that the query asks for; an empty parameter asks for all.
  abbrev pub wanted : Query → Row → Bool
  wanted q row =
      (str_eq q.status "" || status_eq row.status (to_status q.status))
      && (str_eq q.job_type "" || str_eq row.job_type q.job_type)
      && elim (number_in (pos 0) (pos 9) q.priority) [ none ↦ true | some p ↦ eqb_ℤ row.priority p ]
      && (str_eq q.worker_id ""
          || elim row.worker_id [ none ↦ false | some worker ↦ str_eq worker q.worker_id ])

  limit_number : (s : String) → int_param code_points limit_ok s ≡ number_in (pos 1) (pos 1000) s
  unfolding int_param
  limit_number s = ground arith

  matches-wanted : (q : Query) (row : Row) → matches (filter_of code_points q) row ≡ wanted q row
  unfolding matches filter_of int_param
  matches-wanted q row = ground arith

  offset_number : (s : String) → or_default (int_param code_points offset_ok s) (pos 0) ≡ start_of s
  unfolding int_param
  offset_number s = ground arith

  select_same :
      (p q : Row → Bool) (rows : List Row)
      → ((row : Row) → p row ≡ q row)
      → select p rows ≡ select q rows
  unfolding select
  select_same p q [] e = refl
  select_same p q (row ∷ rows) e = ground (arith, e row, select_same p q rows e)

  -- The rows that a query asks for, in the order that the database is asked for.
  abbrev pub asked_for : (String → Bool → List Row → List Row) → Query → Tables → List Row
  asked_for ordering q t = ordering "created_at" (str_eq q.order "desc") (select (wanted q) t.jobs)

  page_of-asked_for :
      (ordering : String → Bool → List Row → List Row) (q : Query) (t : Tables)
      → let f = filter_of code_points q in
        page_of ordering f t ≡ take (page_limit f) (drop (page_offset f) (asked_for ordering q t))
  unfolding filter_of
  page_of-asked_for ordering q t =
      ap
        (λ rows.
          let f = filter_of code_points q in
          take (page_limit f)
            (drop (page_offset f) (ordering "created_at" (str_eq q.order "desc") rows)))
        (select_same (matches (filter_of code_points q)) (wanted q) t.jobs (matches-wanted q))

  filter_of-numbers :
      (q : Query)
      → let f = filter_of code_points q in
        (f.limit ≡ number_or (number_in (pos 1) (pos 1000) q.limit) (pos 100))
        × (f.offset ≡ start_of q.offset)
  unfolding filter_of
  filter_of-numbers q =
      (ap (λ o. number_or o (pos 100)) (limit_number q.limit), offset_number q.offset)

  -- A page that GET /jobs answers with, where no call of the store fails and its ordering keeps the number of rows, has the limit of the query, if that is a number from 1 to 1000, and 100 else, and the offset of the query, if that is a number from 0 on, and 0 else. Of the rows that meet every parameter given, in the order asked of the database, it shows those that limit and offset cut out, each as it is scanned, and it reports how many there are.
  pub handle_list_jobs-page :
      (d : Postgres) (ordering : String → Bool → List Row → List Row) (q : Query) (t : Tables)
      (jobs : List Job) (total : ℕ) (limit offset : ℤ)
      → ((column : String) (desc : Bool) (rows : List Row)
          → length (ordering column desc rows) ≡ length rows)
      → handle_list_jobs d code_points ordering none none q t
        ≡ record { status = 200; body = page jobs total limit offset }
      → (l : ℕ) × (o : ℕ) × (limit ≡ pos l)
        × (offset ≡ pos o)
        × (limit ≡ number_or (number_in (pos 1) (pos 1000) q.limit) (pos 100))
        × (offset ≡ start_of q.offset)
        × (1 ≤ l)
        × (l ≤ 1000)
        × (total ≡ length (select (wanted q) t.jobs))
        × (map (scan_job d) (take l (drop o (asked_for ordering q t))) ≡ map ok jobs)
        × (length jobs ≡ min l (total - o))
  handle_list_jobs-page d ordering q t jobs total limit offset kept h =
      let f = filter_of code_points q in
      let (limits, offsets) = filter_of-in q in
      let (given_limit, given_offset) = filter_of-numbers q in
      elim (Result-cases (list_jobs d ordering none none f t)) [
        | inr (x, e) ↦ cc (h, answer-err d ordering q t x e)
        | inl ((js, n), e) ↦
            let same = sym (answer-ok d ordering q t js n e) ∙ h in
            let (matched, cut, low, high) = length-list_jobs d ordering f t js n kept e in
            let (collected, _) = list_jobs-done d ordering f t js n e in
            let at_limit : limit ≡ f.limit = cc same in
            let at_offset : offset ≡ f.offset = cc same in
            let same_jobs : js ≡ jobs = cc same in
            let same_total : n ≡ total = cc same in
            let shown = collect_jobs-scan_job d (page_of ordering f t) js collected in
            (
              page_limit f,
              page_offset f,
              at_limit ∙ page_limit-ok f limits,
              at_offset ∙ page_offset-ok f offsets,
              at_limit ∙ given_limit,
              at_offset ∙ given_offset,
              low,
              high,
              sym same_total
                  ∙ matched
                  ∙ ap length (select_same (matches f) (wanted q) t.jobs (matches-wanted q)),
              ap (map (scan_job d)) (sym (page_of-asked_for ordering q t))
                  ∙ shown
                  ∙ ap (map ok) same_jobs,
              omega (arith, ap length same_jobs, cut, same_total),
            )
      ]
