-- ===== src/Store/Audit.antt =====
-- What GetJobHistory shows of the audit trail (internal/store/postgres.go).
use distributed_task_schedul.Prelude.{
  Option, List, String, Bool, ℕ, true, false, some, ◌≡◌, ◌||◌, ℤ, none, ◌∷◌, ◌≤◌, [], map, arith,
  pos, take, refl, Bool-cases, drop, inl, inr, length, ◌∙◌, length-take-le,
}
use distributed_task_schedul.Store.Tables.{Entry, Postgres, Tables, history_of}
use distributed_task_schedul.Store.History.{
  JobHistory, scan_history, collect_history, history_limit, get_job_history,
}
use distributed_task_schedul.Errors.{ok, Error, err, wrap}

abbrev is_null : Option String → Bool
is_null none = true
is_null (some s) = false

-- Some entry has no worker or no message.
abbrev pub has_null : List Entry → Bool
has_null [] = false
has_null (e ∷ es) = is_null e.worker_id || is_null e.error_message || has_null es

-- The entry that is shown for a row.
abbrev text_in : Option String → String
text_in none = ""
text_in (some s) = s

abbrev pub shown : Entry → JobHistory
shown e = record {
  job_id = e.job_id;
  old_status = some e.old_status;
  new_status = e.new_status;
  worker_id = text_in e.worker_id;
  error_message = text_in e.error_message;
  retry_count = e.retry_count;
  scheduled_at = e.scheduled_at;
  created_at = e.created_at;
}

module _ (d : Postgres) where
  scan_text-is_null :
      (o : Option String)
      → (is_null o ≡ false → d.scan_text o ≡ ok (text_in o))
        × (is_null o ≡ true → (x : Error) × (d.scan_text o ≡ err x))
  scan_text-is_null none = (λ h. cc, λ h. d.scan_text-none)
  scan_text-is_null (some s) = (λ h. d.scan_text-some s, λ h. cc)

  scan_history-shown :
      (e : Entry)
      → is_null e.worker_id ≡ false
      → is_null e.error_message ≡ false
      → scan_history d e ≡ ok (shown e)
  unfolding scan_history
  scan_history-shown e w m =
      let worker = (scan_text-is_null e.worker_id).0 w in
      let message = (scan_text-is_null e.error_message).0 m in rw (worker, message) refl

  scan_history-null :
      (e : Entry)
      → (is_null e.worker_id || is_null e.error_message) ≡ true
      → (x : Error) × (scan_history d e ≡ err x)
  unfolding scan_history
  scan_history-null e h = elim (Bool-cases (is_null e.worker_id)) [
    | inl w ↦ let (x, n) = (scan_text-is_null e.worker_id).1 w in (x, rw n refl)
    | inr w ↦
        let worker = (scan_text-is_null e.worker_id).0 w in
        let (x, n) = (scan_text-is_null e.error_message).1 (ground (arith, h, w)) in
        (x, rw (worker, n) refl)
  ]

  collect-shown : (es : List Entry) → has_null es ≡ false → collect_history d es ≡ ok (map shown es)
  unfolding collect_history
  collect-shown [] h = refl
  collect-shown (e ∷ es) h =
      let first = scan_history-shown e (ground arith) (ground arith) in
      rw (first, collect-shown es (ground arith)) refl

  collect-null :
      (es : List Entry) → has_null es ≡ true → (x : Error) × (collect_history d es ≡ err x)
  unfolding collect_history
  collect-null [] h = cc
  collect-null (e ∷ es) h = elim (Bool-cases (is_null e.worker_id || is_null e.error_message)) [
    | inl n ↦ let (x, f) = scan_history-null e n in (wrap "scan history" x, rw f refl)
    | inr n ↦
        let first = scan_history-shown e (ground arith) (ground arith) in
        let (x, f) = collect-null es (ground arith) in (x, rw (first, f) refl)
  ]

  history_limit_bounds : (limit : ℤ) → (1 ≤ history_limit limit) × (history_limit limit ≤ 1000)
  unfolding history_limit
  history_limit_bounds limit = (ground arith, ground arith)

  get_job_history-run :
      (order : List Entry → List Entry) (id : ℕ) (limit : ℤ) (offset : ℕ) (t : Tables)
      → get_job_history d order none id limit (pos offset) t
        ≡ collect_history d
            (take (history_limit limit) (drop offset (order (history_of id t.history))))
  unfolding get_job_history
  get_job_history-run order id limit offset t = ground arith

  -- GetJobHistory shows the entries of the job from the offset on, in its order, between one and a thousand of them at most, if each has a worker and a message; a single entry of the page without a worker or a message makes it fail.
  pub get_job_history-page :
      (order : List Entry → List Entry) (id : ℕ) (limit : ℤ) (offset : ℕ) (t : Tables)
      → let page = take (history_limit limit) (drop offset (order (history_of id t.history))) in
        let answer = get_job_history d order none id limit (pos offset) t in
        (has_null page ≡ false → answer ≡ ok (map shown page))
        × (has_null page ≡ true → (x : Error) × (answer ≡ err x))
        × (1 ≤ history_limit limit)
        × (history_limit limit ≤ 1000)
        × (length page ≤ history_limit limit)
  get_job_history-page order id limit offset t =
      let rest = drop offset (order (history_of id t.history)) in
      let page = take (history_limit limit) rest in
      let run = get_job_history-run order id limit offset t in
      (
        λ h. run ∙ collect-shown page h,
        λ h. let (x, e) = collect-null page h in (x, run ∙ e),
        (history_limit_bounds limit).0,
        (history_limit_bounds limit).1,
        length-take-le (history_limit limit) rest,
      )
