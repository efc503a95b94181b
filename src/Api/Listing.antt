-- ===== src/Api/Listing.antt =====
-- handleListJobs (internal/scheduler/api.go): the filter that it makes of the query parameters.
use distributed_task_schedul.Prelude.{
  String, Option, ℤ, some, Bool, if◌then◌else◌, none, leb_ℤ, ltb_ℤ, str_eq, pos, List, ◌&&◌,
}
use distributed_task_schedul.Api.Responses.{render_failure, render_json, Response, page}
use distributed_task_schedul.Models.Status.{
  JobStatus, pending, running, completed, failed, dead_letter, cancelled, other,
}
use distributed_task_schedul.Cron.Text.{Text, atoi}
use distributed_task_schedul.Store.Listing.{JobFilter, list_jobs}
use distributed_task_schedul.Store.Tables.{Postgres, Row, Tables}
use distributed_task_schedul.Errors.{Error, err, ok}

-- r.URL.Query().Get(…), the empty text for a parameter that is not given
pub record Query : Type 0 where
  pub status : String
  pub job_type : String
  pub priority : String
  pub limit : String
  pub offset : String
  pub worker_id : String
  pub order : String

-- models.JobStatus(s)
unfoldable pub to_status : String → JobStatus
to_status s =
    if str_eq s "pending"
    then pending
    else if str_eq s "running"
    then running
    else if str_eq s "completed"
    then completed
    else if str_eq s "failed"
    then failed
    else if str_eq s "dead_letter"
    then dead_letter
    else if str_eq s "cancelled"
    then cancelled
    else other s

-- The number of a parameter, if it is one and meets the test.
unfoldable pub int_param : (code_points : String → Text) → (ℤ → Bool) → String → Option ℤ
int_param code_points test s =
    if str_eq s ""
    then none
    else elim (atoi (code_points s)) [ none ↦ none | some n ↦ if test n then some n else none ]

abbrev pub or_default : Option ℤ → ℤ → ℤ
or_default none n = n
or_default (some m) n = m

abbrev pub priority_ok : ℤ → Bool
priority_ok p = leb_ℤ (pos 0) p && leb_ℤ p (pos 9)

abbrev pub limit_ok : ℤ → Bool
limit_ok l = ltb_ℤ (pos 0) l && leb_ℤ l (pos 1000)

abbrev pub offset_ok : ℤ → Bool
offset_ok o = leb_ℤ (pos 0) o

unfoldable pub filter_of : (code_points : String → Text) → Query → JobFilter
filter_of code_points q = record {
  status = if str_eq q.status "" then none else some (to_status q.status);
  job_type = q.job_type;
  priority = int_param code_points priority_ok q.priority;
  worker_id = q.worker_id;
  limit = or_default (int_param code_points limit_ok q.limit) (pos 100);
  offset = or_default (int_param code_points offset_ok q.offset) (pos 0);
  order_by = "";
  order_desc = str_eq q.order "desc";
}

-- `ordering` is what ORDER BY does to the rows.
unfoldable pub handle_list_jobs :
    Postgres
    → (code_points : String → Text) → (ordering : String → Bool → List Row → List Row)
    → (counting listing : Option Error) → Query
    → Tables
    → Response
unfolding filter_of render_failure render_json
handle_list_jobs d code_points ordering counting listing q t =
    let f = filter_of code_points q in
    elim (list_jobs d ordering counting listing f t) [
      | err e ↦ render_failure 500 "failed to list jobs: " e
      | ok (jobs, total) ↦ render_json 200 (page jobs total f.limit f.offset)
    ]
