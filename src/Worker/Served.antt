-- ===== src/Worker/Served.antt =====
-- Which jobs the handlers of internal/worker/handler.go bring to an end without an error.
use distributed_task_schedul.Prelude.{
  String, ℤ, Option, pos, ◌≡◌, ◌≤ℤ◌, none, ◌<ℤ◌, arith, Bool-cases, refl, eq_iff, str_eq, inl, inr,
  Option-cases,
}
use distributed_task_schedul.Worker.Handlers.{
  Outside, send_email, generate_report, process_payment, clean_up, call_webhook, judge,
  with_payload, webhook_method, webhook_request,
}
use distributed_task_schedul.Errors.{Result, Error, ok, err}
use distributed_task_schedul.Models.Job.{Job}
use distributed_task_schedul.Worker.Payloads.{
  SendEmailPayload, PaymentPayload, ReportPayload, WebhookPayload, DataCleanupPayload,
}

-- The job types that registerHandlers (cmd/worker/main.go) serves.
pub data Kind : Type 0 where
  email payment report webhook cleanup : Kind

abbrev pub kind_name : Kind → String
kind_name email = "send-email"
kind_name payment = "process-payment"
kind_name report = "generate-report"
kind_name webhook = "webhook-call"
kind_name cleanup = "data-cleanup"

-- The payload can be read and is right, and the work is done before the context is.
abbrev pub Accepts : Outside → Kind → Job → Type 0
Accepts o email j =
    (p : SendEmailPayload) × (o.email_of j.payload ≡ ok p) × (o.done_within 100000000 ≡ none)
Accepts o payment j =
    (p : PaymentPayload) × (o.payment_of j.payload ≡ ok p)
    × (pos 0 <ℤ p.amount.mantissa)
    × (o.done_within 200000000 ≡ none)
Accepts o report j =
    (p : ReportPayload) × (o.report_of j.payload ≡ ok p) × (o.done_within 500000000 ≡ none)
Accepts o webhook j =
    (p : WebhookPayload) × (o.webhook_of j.payload ≡ ok p)
    × ¬ (p.url ≡ "")
    × (o.refuses (webhook_method p) p.url ≡ none)
    × ((status : ℤ) × (o.respond (webhook_request o j p) ≡ ok status)
        × (pos 200 ≤ℤ status)
        × (status <ℤ pos 300))
Accepts o cleanup j =
    (p : DataCleanupPayload) × (o.cleanup_of j.payload ≡ ok p)
    × ¬ (p.table ≡ "")
    × (o.done_within 300000000 ≡ none)

with_payload-none {ℓ} :
    {V : Type ℓ} (r : Result V) (f : V → Option Error)
    → with_payload r f ≡ none
    → (p : V) × (r ≡ ok p) × (f p ≡ none)
with_payload-none (err e) f h = cc h
with_payload-none (ok p) f h = (p, refl, h)

judge-none :
    (r : Result ℤ)
    → judge r ≡ none
    → (status : ℤ) × (r ≡ ok status) × (pos 200 ≤ℤ status) × (status <ℤ pos 300)
judge-none (err e) h = cc h
judge-none (ok status) h = (status, refl, ground (arith, h), ground (arith, h))

judge_within : (status : ℤ) → pos 200 ≤ℤ status → status <ℤ pos 300 → judge (ok status) ≡ none
judge_within status a b = ground arith

pub send_email-Accepts : (o : Outside) (j : Job) → send_email o j ≡ none → Accepts o email j
unfolding send_email
send_email-Accepts o j h = with_payload-none (o.email_of j.payload) _ h

pub generate_report-Accepts :
    (o : Outside) (j : Job) → generate_report o j ≡ none → Accepts o report j
unfolding generate_report
generate_report-Accepts o j h = with_payload-none (o.report_of j.payload) _ h

pub process_payment-Accepts :
    (o : Outside) (j : Job) → process_payment o j ≡ none → Accepts o payment j
unfolding process_payment
process_payment-Accepts o j h =
    let (p, e, n) = with_payload-none (o.payment_of j.payload) _ h in
    (p, e, ground (arith, n), ground (arith, n))

pub clean_up-Accepts : (o : Outside) (j : Job) → clean_up o j ≡ none → Accepts o cleanup j
unfolding clean_up
clean_up-Accepts o j h =
    let (p, e, n) = with_payload-none (o.cleanup_of j.payload) _ h in
    (p, e, λ u. ground (arith, n, eq_iff p.table "", u), ground (arith, n))

pub call_webhook-Accepts : (o : Outside) (j : Job) → call_webhook o j ≡ none → Accepts o webhook j
unfolding call_webhook
call_webhook-Accepts o j h =
    let (p, e, n) = with_payload-none (o.webhook_of j.payload) _ h in
    elim (Option-cases (o.refuses (webhook_method p) p.url)) [
      | inr (x, r) ↦ ground (arith, n, r)
      | inl r ↦ (
        p,
        e,
        λ u. ground (arith, n, eq_iff p.url "", u),
        r,
        judge-none (o.respond (webhook_request o j p)) (ground (arith, n, r)),
      )
    ]

pub Accepts-send_email : (o : Outside) (j : Job) → Accepts o email j → send_email o j ≡ none
unfolding send_email
Accepts-send_email o j (p, e, d) = rw e d

pub Accepts-process_payment :
    (o : Outside) (j : Job) → Accepts o payment j → process_payment o j ≡ none
unfolding process_payment
Accepts-process_payment o j (p, e, a, d) = rw e (ground arith)

pub Accepts-generate_report :
    (o : Outside) (j : Job) → Accepts o report j → generate_report o j ≡ none
unfolding generate_report
Accepts-generate_report o j (p, e, d) = rw e d

pub Accepts-call_webhook : (o : Outside) (j : Job) → Accepts o webhook j → call_webhook o j ≡ none
unfolding call_webhook
Accepts-call_webhook o j (p, e, u, r, (status, s, a, b)) =
    rw e (elim (Bool-cases (str_eq p.url "")) [
      | inl t ↦ elim (u ((eq_iff p.url "").0 t)) [ ]
      | inr f ↦ rw (f, r, s) (judge_within status a b)
    ])

pub Accepts-clean_up : (o : Outside) (j : Job) → Accepts o cleanup j → clean_up o j ≡ none
unfolding clean_up
Accepts-clean_up o j (p, e, u, d) = rw e (elim (Bool-cases (str_eq p.table "")) [
  | inl t ↦ elim (u ((eq_iff p.table "").0 t)) [ ]
  | inr f ↦ rw f d
])
