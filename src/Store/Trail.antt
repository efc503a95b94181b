-- ===== src/Store/Trail.antt =====
-- The audit trail that log_job_status_change writes (migrations/001_init.sql), under any sequence of
-- status updates.
use mathlib.Core.Option
use mathlib.Core.Option.{some-injective}
use mathlib.Core.List.{append-nil}
use distributed_task_schedul.Prelude.{
  ℕ, ◌≡◌, Option, List, ℤ, true, ◌∷◌, [], arith, some, false, ◌++◌, ◌⊎◌, inl, Option-cases, refl,
  if◌then◌else◌, Bool-cases, inr, str_eq, ◌==◌, ◌||◌, subst, ==_iff, sym, ◌∙◌, none, ap, ==_refl,
  String,
}
use distributed_task_schedul.Models.Status.{JobStatus, status_eq}
use distributed_task_schedul.Store.Tables.{
  Postgres, is_known, Tables, Row, Entry, find_row, history_of,
}
use distributed_task_schedul.Errors.{Error}
use distributed_task_schedul.Store.Jobs.{
  update_job_status, UpdateOpt, updated_row, update_rows, log_change, options_of, coalesce,
}
use distributed_task_schedul.Store.Rows.{find_row-update, history_of-append, find_row-id}
use distributed_task_schedul.Store.Lookup.{update_job_status-done}

-- The entries lead from one status to another, and each of them is a change.
pub data IsTrail (s : JobStatus) : List Entry → JobStatus → Type 0 where
  start : IsTrail s [] s
  change :
      {es : List Entry} {t : JobStatus} (e : Entry)
      → IsTrail s es t
      → e.old_status ≡ t
      → status_eq t e.new_status ≡ false
      → IsTrail s (es ++ (e ∷ [])) e.new_status

-- A call of UpdateJobStatus.
pub record Update : Type 0 where
  pub failure : Option Error
  pub now : ℤ
  pub id : ℕ
  pub status : JobStatus
  pub opts : List UpdateOpt

status_eq-known : (s t : JobStatus) → is_known t ≡ true → status_eq s t ≡ true → s ≡ t
unfolding status_eq is_known
status_eq-known s t k h = ground arith

module _ (d : Postgres) where
  abbrev pub apply_update : Tables → Update → Tables
  apply_update t u = (update_job_status d u.failure u.now u.id u.status u.opts t).0

  pub apply_updates : List Update → Tables → Tables
  apply_updates [] t = t
  apply_updates (u ∷ us) t = apply_updates us (apply_update t u)

  pub update_job_status-cases :
      (failure : Option Error) (now : ℤ) (i : ℕ) (status : JobStatus) (opts : List UpdateOpt)
      (t : Tables)
      → ((update_job_status d failure now i status opts t).0 ≡ t)
        ⊎ ((row : Row) × (find_row i t.jobs ≡ some row)
            × (is_known status ≡ true)
            × (failure ≡ none)
            × ((str_eq (options_of opts).worker_id "" || d.fits 64 (options_of opts).worker_id)
                ≡ true))
  unfolding update_job_status
  update_job_status-cases (some e) now i status opts t = inl refl
  update_job_status-cases none now i status opts t = elim (Bool-cases (is_known status)) [
    | inr k ↦ inl (rw (update_job_status, k) refl)
    | inl k ↦ elim (Option-cases (find_row i t.jobs)) [
      | inl n ↦ inl (rw (update_job_status, k, n) refl)
      | inr (row, h) ↦
          let w = (options_of opts).worker_id in
          elim (Bool-cases (str_eq w "" || d.fits 64 w)) [
            | inl b ↦ inr (row, h, k, refl, b)
            | inr b ↦ inl (rw (update_job_status, k, h, b) refl)
          ]
    ]
  ]

  -- A status update loses no row.
  pub update_job_status-found :
      (failure : Option Error) (now : ℤ) (i : ℕ) (status : JobStatus) (opts : List UpdateOpt)
      (t : Tables) (k : ℕ) (row : Row)
      → find_row k t.jobs ≡ some row
      → (row' : Row) × (find_row k (update_job_status d failure now i status opts t).0.jobs
          ≡ some row')
  unfolding updated_row
  update_job_status-found failure now i status opts t k row h =
      let change = updated_row d status (options_of opts) now in
      elim (update_job_status-cases failure now i status opts t) [
        | inl e ↦ (row, rw e h)
        | inr (mine, found, known, sent, fits) ↦
            let done = update_job_status-done d now i status opts t mine found known fits in
            let after = find_row-update change i t.jobs k (λ x. refl) in
            elim (Bool-cases (i == k)) [
              | inl e ↦ (change row, rw (sent, done, after, e, h) refl)
              | inr e ↦ (row, rw (sent, done, after, e, h) refl)
            ]
      ]

  unnamed_fits : (name : String) → name ≡ "" → (str_eq name "" || d.fits 64 name) ≡ true
  unnamed_fits name e = rw e refl

  -- A status update that names no worker leaves its status and its message in the row.
  pub update_job_status-writes :
      (now : ℤ) (i : ℕ) (status : JobStatus) (opts : List UpdateOpt) (t : Tables) (row : Row)
      → find_row i t.jobs ≡ some row
      → is_known status ≡ true
      → (options_of opts).worker_id ≡ ""
      → (row' : Row) × (find_row i (update_job_status d none now i status opts t).0.jobs
          ≡ some row')
        × (row'.status ≡ status)
        × (row'.error_message ≡ some (options_of opts).error_message)
        × (row'.completed_at
            ≡ coalesce (Option.map d.timestamp (options_of opts).completed_at) row.completed_at)
  unfolding updated_row
  update_job_status-writes now i status opts t row h k w =
      let change = updated_row d status (options_of opts) now in
      let done =
        update_job_status-done d now i status opts t row h k
          (unnamed_fits (options_of opts).worker_id w) in
      let after = find_row-update change i t.jobs i (λ x. refl) in
      (change row, rw (done, after, ==_refl i, h) refl, refl, refl, refl)

  abbrev changed_by : Update → Row → Row
  changed_by u = updated_row d u.status (options_of u.opts) u.now

  abbrev applied : Update → Row → Tables → Tables
  applied u row t = record t {
    jobs = update_rows (changed_by u) u.id t.jobs;
    history = t.history ++ log_change u.now row (changed_by u row);
  }

  apply_update-done :
      (t : Tables) (u : Update) (row : Row)
      → find_row u.id t.jobs ≡ some row
      → is_known u.status ≡ true
      → u.failure ≡ none
      → (str_eq (options_of u.opts).worker_id "" || d.fits 64 (options_of u.opts).worker_id) ≡ true
      → apply_update t u ≡ applied u row t
  apply_update-done t u row h k sent w =
      ap (λ f. (update_job_status d f u.now u.id u.status u.opts t).0) sent
      ∙ ap (λ x. x.0) (update_job_status-done d u.now u.id u.status u.opts t row h k w)

  abbrev Logged : JobStatus → ℕ → Tables → Type 0
  Logged s i t =
      (row : Row) × (find_row i t.jobs ≡ some row) × IsTrail s (history_of i t.history) row.status

  log_change-equal :
      (now : ℤ) (old new : Row)
      → status_eq old.status new.status ≡ true
      → log_change now old new ≡ []
  unfolding log_change
  log_change-equal now old new h = rw h refl

  -- The entry that the trigger writes for a change.
  abbrev entry_of : ℤ → Row → Row → Entry
  entry_of now old new = record {
    job_id = new.id;
    old_status = old.status;
    new_status = new.status;
    worker_id = new.worker_id;
    error_message = new.error_message;
    retry_count = new.retry_count;
    scheduled_at = new.scheduled_at;
    created_at = now;
  }

  log_change-differs :
      (now : ℤ) (old new : Row)
      → status_eq old.status new.status ≡ false
      → log_change now old new ≡ entry_of now old new ∷ []
  unfolding log_change
  log_change-differs now old new h = rw h refl

  history_of-log :
      (i : ℕ) (now : ℤ) (old new : Row)
      → history_of i (log_change now old new) ≡ (if new.id == i then log_change now old new else [])
  unfolding log_change history_of
  history_of-log i now old new = ground arith

  history_of-logged :
      (i : ℕ) (u : Update) (row : Row)
      → row.id ≡ u.id
      → history_of i (log_change u.now row (changed_by u row))
        ≡ (if u.id == i then log_change u.now row (changed_by u row) else [])
  unfolding updated_row
  history_of-logged i u row h =
      subst
        (λ k.
          history_of i (log_change u.now row (changed_by u row))
          ≡ (if k == i then log_change u.now row (changed_by u row) else []))
        h (history_of-log i u.now row (changed_by u row))

  IsTrail-log :
      (s : JobStatus) (es : List Entry) (u : Update) (row : Row)
      → is_known u.status ≡ true
      → IsTrail s es row.status
      → IsTrail s (es ++ log_change u.now row (changed_by u row)) u.status
  unfolding updated_row
  IsTrail-log s es u row k r = elim (Bool-cases (status_eq row.status u.status)) [
    | inl e ↦
        rw (log_change-equal u.now row (changed_by u row) e, append-nil es)
          (subst (IsTrail s es) (status_eq-known row.status u.status k e) r)
    | inr e ↦
        rw (log_change-differs u.now row (changed_by u row) e)
          (change (entry_of u.now row (changed_by u row)) r refl e)
  ]

  applied-Logged :
      (s : JobStatus) (i : ℕ) (t : Tables) (u : Update) (row : Row)
      → find_row u.id t.jobs ≡ some row
      → is_known u.status ≡ true
      → Logged s i t
      → Logged s i (applied u row t)
  unfolding updated_row
  applied-Logged s i t u row h k (mine, f, r) = elim (Bool-cases (u.id == i)) [
    | inl e ↦
        let q = (==_iff u.id i).0 e in
        let found = subst (λ k. find_row k t.jobs ≡ some row) q h in
        let same = some-injective mine row (sym f ∙ found) in
        (
          changed_by u row,
          rw (find_row-update (changed_by u) u.id t.jobs i (λ x. refl), e, found) refl,
          rw
              (
                history_of-append i t.history (log_change u.now row (changed_by u row)),
                history_of-logged i u row (find_row-id u.id t.jobs row h),
                e,
              )
              (IsTrail-log s (history_of i t.history) u row k
                (subst (λ x. IsTrail s (history_of i t.history) x.status) same r)),
        )
    | inr e ↦ (
      mine,
      rw (find_row-update (changed_by u) u.id t.jobs i (λ x. refl), e) f,
      rw
          (
            history_of-append i t.history (log_change u.now row (changed_by u row)),
            history_of-logged i u row (find_row-id u.id t.jobs row h),
            e,
            append-nil (history_of i t.history),
          )
          r,
    )
  ]

  update-Logged :
      (s : JobStatus) (i : ℕ) (t : Tables) (u : Update)
      → Logged s i t
      → Logged s i (apply_update t u)
  update-Logged s i t u l = elim (update_job_status-cases u.failure u.now u.id u.status u.opts t) [
    | inl e ↦ rw e l
    | inr (row, h, k, sent, w) ↦
        rw (apply_update-done t u row h k sent w) (applied-Logged s i t u row h k l)
  ]

  -- The status of every job is where its trail ends, from the status that it was created with, whatever updates are made, failed ones included.
  pub updates-IsTrail :
      (i : ℕ) (s : JobStatus) (us : List Update) (t : Tables) (row : Row)
      → find_row i t.jobs ≡ some row
      → IsTrail s (history_of i t.history) row.status
      → (row' : Row) × (find_row i (apply_updates us t).jobs ≡ some row')
        × IsTrail s (history_of i (apply_updates us t).history) row'.status
  unfolding apply_updates
  updates-IsTrail i s [] t row h r = (row, h, r)
  updates-IsTrail i s (u ∷ us) t row h r =
      let (row', h', r') = update-Logged s i t u (row, h, r) in
      updates-IsTrail i s us (apply_update t u) row' h' r'
