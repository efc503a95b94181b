-- ===== src/Worker/Handlers.antt =====
-- The five handlers of internal/worker/handler.go and registerHandlers of cmd/worker/main.go. What is
-- only logged is left out, and so are the values that a message of an error prints.
use distributed_task_schedul.Prelude.{
  String, Option, Bool, List, if◌then◌else◌, ℤ, leb_ℤ, ◌∷◌, str_eq, some, pos, [], none, ℕ, ltb_ℤ,
  ◌||◌,
}
use distributed_task_schedul.Errors.{Result, Error, err, errorf, wrap, ok}
use distributed_task_schedul.Models.Job.{Job}
use distributed_task_schedul.Worker.Payloads.{
  Float64, WebhookPayload, SendEmailPayload, Request, PaymentPayload, ReportPayload,
  DataCleanupPayload,
}
use distributed_task_schedul.Worker.Registry.{JobHandler, Registry, returns, register, new_registry}

-- What encoding/json, net/http and the context of a job answer: they are not part of the repository.
pub record Outside : Type 0 where
  -- json.Unmarshal into the payload of each handler
  pub email_of : String → Result SendEmailPayload
  pub payment_of : String → Result PaymentPayload
  pub report_of : String → Result ReportPayload
  pub webhook_of : String → Result WebhookPayload
  pub cleanup_of : String → Result DataCleanupPayload
  -- uuid.UUID.String
  pub id_text : ℕ → String
  -- the key under which http.Header keeps a value
  pub canonical : String → String
  -- why http.NewRequestWithContext refuses a method and a URL
  pub refuses : (method url : String) → Option Error
  -- http.Client.Do: the status of the response
  pub respond : Request → Result ℤ
  -- ctx.Err(), if the context is done before so many nanoseconds are over
  pub done_within : ℕ → Option Error

-- json.Unmarshal, and what follows it.
abbrev pub with_payload {ℓ} : {V : Type ℓ} → Result V → (V → Option Error) → Option Error
with_payload (err e) f = some (wrap "unmarshal payload" e)
with_payload (ok p) f = f p

unfoldable pub send_email : Outside → Job → Option Error
send_email o j = with_payload (o.email_of j.payload) λ p. o.done_within 100000000

-- payload.Amount <= 0
abbrev pub not_positive : Float64 → Bool
not_positive x = leb_ℤ x.mantissa (pos 0)

unfoldable pub process_payment : Outside → Job → Option Error
process_payment o j = with_payload (o.payment_of j.payload) λ p.
    if not_positive p.amount
    then some (errorf "invalid payment amount")
    else o.done_within 200000000

unfoldable pub generate_report : Outside → Job → Option Error
generate_report o j = with_payload (o.report_of j.payload) λ p. o.done_within 500000000

-- req.Header.Set
unfoldable pub set_header :
    (canonical : String → String)
    → (key value : String) → List (String × String)
    → List (String × String)
set_header f k v [] = (f k, v) ∷ []
set_header f k v ((l, u) ∷ hs) =
    let rest = set_header f k v hs in if str_eq l (f k) then (l, v) ∷ hs else (l, u) ∷ rest

-- The loop over the headers of the payload.
unfoldable pub set_headers :
    (canonical : String → String)
    → List (String × String)
    → List (String × String)
    → List (String × String)
set_headers f [] hs = hs
set_headers f ((k, v) ∷ more) hs = set_headers f more (set_header f k v hs)

unfoldable pub webhook_method : WebhookPayload → String
webhook_method p = if str_eq p.method "" then "POST" else p.method

unfoldable pub webhook_request : Outside → Job → WebhookPayload → Request
webhook_request o j p = record {
  method = webhook_method p;
  url = p.url;
  body = if str_eq p.body "" then none else some p.body;
  headers = set_headers o.canonical p.headers (
      set_header o.canonical "X-Webhook-ID" (o.id_text j.id)
        (set_header o.canonical "Content-Type" "application/json" []));
}

-- The test of the status of the response.
abbrev pub judge : Result ℤ → Option Error
judge (err e) = some (wrap "webhook request failed" e)
judge (ok status) =
    if ltb_ℤ status (pos 200) || leb_ℤ (pos 300) status
    then some (errorf "webhook returned status")
    else none

unfoldable pub call_webhook : Outside → Job → Option Error
call_webhook o j = with_payload (o.webhook_of j.payload) λ p.
    if str_eq p.url ""
    then some (errorf "webhook URL is required")
    else elim (o.refuses (webhook_method p) p.url) [
      | some e ↦ some (wrap "create request" e)
      | none ↦ judge (o.respond (webhook_request o j p))
    ]

unfoldable pub clean_up : Outside → Job → Option Error
clean_up o j = with_payload (o.cleanup_of j.payload) λ p.
    if str_eq p.table "" then some (errorf "table name is required") else o.done_within 300000000

-- The names of the handlers with their Execute.
unfoldable pub send_email_handler : Outside → JobHandler
send_email_handler o = record { name = "send-email"; execute = λ j. returns (send_email o j) }

unfoldable pub process_payment_handler : Outside → JobHandler
process_payment_handler o = record {
  name = "process-payment";
  execute = λ j. returns (process_payment o j);
}

unfoldable pub generate_report_handler : Outside → JobHandler
generate_report_handler o = record {
  name = "generate-report";
  execute = λ j. returns (generate_report o j);
}

unfoldable pub webhook_call_handler : Outside → JobHandler
webhook_call_handler o = record { name = "webhook-call"; execute = λ j. returns (call_webhook o j) }

unfoldable pub data_cleanup_handler : Outside → JobHandler
data_cleanup_handler o = record { name = "data-cleanup"; execute = λ j. returns (clean_up o j) }

unfoldable pub register_handlers : Outside → Registry
register_handlers o = register (some (data_cleanup_handler o)) (
    register (some (webhook_call_handler o)) (
      register (some (generate_report_handler o)) (
        register (some (process_payment_handler o))
          (register (some (send_email_handler o)) new_registry))))
