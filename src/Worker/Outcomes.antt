-- ===== src/Worker/Outcomes.antt =====
-- What becomes of a job in a worker with the handlers of cmd/worker/main.go
-- (internal/worker/pool.go, internal/worker/handler.go).
use mathlib.Core.Option.{some-injective}
use distributed_task_schedul.Worker.Handlers.{
  Outside, send_email_handler, register_handlers, process_payment_handler, generate_report_handler,
  webhook_call_handler, data_cleanup_handler,
}
use distributed_task_schedul.Worker.Execution.{run_with_recovery, World, execute_job, Times}
use distributed_task_schedul.Worker.Registry.{
  get_handler, JobHandler, register, set_handler, returns,
}
use distributed_task_schedul.Queue.Redis.{Codec, Redis}
use distributed_task_schedul.Worker.Served.{
  Kind, kind_name, Accepts, email, payment, report, webhook, cleanup, send_email-Accepts,
  Accepts-send_email, process_payment-Accepts, Accepts-process_payment, generate_report-Accepts,
  Accepts-generate_report, call_webhook-Accepts, Accepts-call_webhook, clean_up-Accepts,
  Accepts-clean_up,
}
use distributed_task_schedul.Models.Job.{Job}
use distributed_task_schedul.Store.Tables.{Postgres, Row, find_row}
use distributed_task_schedul.Prelude.{
  ◌≡◌, ℕ, some, subst, String, true, Bool-cases, Option, str_eq, ◌⊎◌, none, inl, eq_iff, inr,
  Option-cases, refl, arith, ap, sym, ◌∙◌,
}
use distributed_task_schedul.Errors.{Error, errorf}
use distributed_task_schedul.Worker.Failures.{fails_with, served, execute_job-dead_letter}
use distributed_task_schedul.Models.Status.{completed, dead_letter}
use distributed_task_schedul.Worker.Success.{execute_job-completes}

abbrev handler_of : Outside → Kind → JobHandler
handler_of o email = send_email_handler o
handler_of o payment = process_payment_handler o
handler_of o report = generate_report_handler o
handler_of o webhook = webhook_call_handler o
handler_of o cleanup = data_cleanup_handler o

handler_of-Accepts :
    (o : Outside) (k : Kind) (j : Job)
    → (run_with_recovery (handler_of o k) j ≡ true → Accepts o k j)
      × (Accepts o k j → (handler_of o k).execute j ≡ returns none)
unfolding run_with_recovery send_email_handler process_payment_handler generate_report_handler
    webhook_call_handler data_cleanup_handler
handler_of-Accepts o email j =
    (λ h. send_email-Accepts o j (ground (arith, h)), λ a. ap returns (Accepts-send_email o j a))
handler_of-Accepts o payment j = (
  λ h. process_payment-Accepts o j (ground (arith, h)),
  λ a. ap returns (Accepts-process_payment o j a),
)
handler_of-Accepts o report j = (
  λ h. generate_report-Accepts o j (ground (arith, h)),
  λ a. ap returns (Accepts-generate_report o j a),
)
handler_of-Accepts o webhook j = (
  λ h. call_webhook-Accepts o j (ground (arith, h)),
  λ a. ap returns (Accepts-call_webhook o j a),
)
handler_of-Accepts o cleanup j =
    (λ h. clean_up-Accepts o j (ground (arith, h)), λ a. ap returns (Accepts-clean_up o j a))

get_handler-kind :
    (o : Outside) (k : Kind)
    → get_handler (kind_name k) (register_handlers o) ≡ some (handler_of o k)
unfolding get_handler register_handlers register set_handler send_email_handler
    process_payment_handler generate_report_handler webhook_call_handler data_cleanup_handler
get_handler-kind o email = refl
get_handler-kind o payment = refl
get_handler-kind o report = refl
get_handler-kind o webhook = refl
get_handler-kind o cleanup = refl

-- The type of a job that has a handler is one of the five.
get_handler-kinds :
    (o : Outside) (t : String) (h : JobHandler)
    → get_handler t (register_handlers o) ≡ some h
    → (k : Kind) × (kind_name k ≡ t)
unfolding get_handler register_handlers register set_handler send_email_handler
    process_payment_handler generate_report_handler webhook_call_handler data_cleanup_handler
get_handler-kinds o t h e = elim (Bool-cases (str_eq "send-email" t)) [
  | inl a ↦ (email, (eq_iff "send-email" t).0 a)
  | inr a ↦ elim (Bool-cases (str_eq "process-payment" t)) [
    | inl b ↦ (payment, (eq_iff "process-payment" t).0 b)
    | inr b ↦ elim (Bool-cases (str_eq "generate-report" t)) [
      | inl c ↦ (report, (eq_iff "generate-report" t).0 c)
      | inr c ↦ elim (Bool-cases (str_eq "webhook-call" t)) [
        | inl d ↦ (webhook, (eq_iff "webhook-call" t).0 d)
        | inr d ↦ elim (Bool-cases (str_eq "data-cleanup" t)) [
          | inl f ↦ (cleanup, (eq_iff "data-cleanup" t).0 f)
          | inr f ↦ ground (arith, a, b, c, d, f, e)
        ]
      ]
    ]
  ]
]

-- Some handler is registered for the job, and accepts it.
abbrev pub Served : Outside → Job → Type 0
Served o j = (k : Kind) × (kind_name k ≡ j.job_type) × Accepts o k j

-- The handler that is found for a job of some kind.
get_handler-kind_of :
    (o : Outside) (k : Kind) (j : Job)
    → kind_name k ≡ j.job_type
    → get_handler j.job_type (register_handlers o) ≡ some (handler_of o k)
get_handler-kind_of o k j e =
    subst (λ t. get_handler t (register_handlers o) ≡ some (handler_of o k)) e
      (get_handler-kind o k)

module _ (c : Codec) (r : Redis c.Blob) (d : Postgres) (id_low : ℕ → ℕ)
    (text : Error → String) where
  Served-runs :
      (o : Outside) (j : Job) (context_error : Option Error)
      → Served o j
      → fails_with c r d id_low text (register_handlers o) context_error j ≡ none
  unfolding run_with_recovery
  Served-runs o j ctx (k, e, a) =
      rw
        (fails_with, get_handler-kind_of o k j e, run_with_recovery, (handler_of-Accepts o k j).1 a)
        refl

  Served-cases :
      (o : Outside) (j : Job) (context_error : Option Error)
      → Served o j
        ⊎ ((e : Option Error) × (fails_with c r d id_low text (register_handlers o) context_error j
              ≡ some e))
  Served-cases o j ctx = elim (Option-cases (get_handler j.job_type (register_handlers o))) [
    | inl n ↦ inr (some (errorf "no handler registered for job type"), rw (fails_with, n) refl)
    | inr (h, n) ↦ elim (Bool-cases (run_with_recovery h j)) [
      | inr f ↦ inr (ctx, rw (fails_with, n, f) refl)
      | inl t ↦
          let (k, e) = get_handler-kinds o j.job_type h n in
          let same : handler_of o k ≡ h =
            some-injective (handler_of o k) h (sym (get_handler-kind_of o k j e) ∙ n) in
          inl (k, e, (handler_of-Accepts o k j).0 (rw same t))
    ]
  ]

  -- Whatever the job, its execution ends with one of two statuses in the store: completed if its type is one of the five, its payload is accepted by the handler of that type and the work is done before its context is; dead_letter else.
  pub execute_job-status :
      (o : Outside) (worker : String) (times : Times) (start_failure context_error : Option Error)
      (j : Job) (w : World r.State) (row : Row)
      → find_row j.id w.tables.jobs ≡ some row
      → let k = served c r d id_low text worker times start_failure context_error in
        let w' = execute_job c r d id_low text (register_handlers o) k j w in
        (row' : Row) × (find_row j.id w'.tables.jobs ≡ some row')
        × (Served o j → row'.status ≡ completed)
        × (¬ (Served o j) → row'.status ≡ dead_letter)
  execute_job-status o worker times start_failure context_error j w row f =
      elim (Served-cases o j context_error) [
        | inl (kind, e, a) ↦
            let (_, _, _, (row', found, status, _)) =
              execute_job-completes c r d id_low text (register_handlers o) worker times
                start_failure context_error j w row (handler_of o kind)
                (get_handler-kind_of o kind j e) ((handler_of-Accepts o kind j).1 a) f in
            (row', found, λ s. status, λ n. elim (n (kind, e, a)) [ ])
        | inr (e, fails) ↦
            let (row', found, status) =
              execute_job-dead_letter c r d id_low text (register_handlers o) worker times
                start_failure context_error j e w row fails f in
            (row', found, λ s. cc (Served-runs o j context_error s, fails), λ n. status)
      ]
