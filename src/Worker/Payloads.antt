-- ===== src/Worker/Payloads.antt =====
-- The payloads of internal/worker/handler.go, and the request that the webhook handler sends.
use distributed_task_schedul.Prelude.{ℤ, String, List, Option}

-- A finite float64, mantissa · 2 ^ exponent; JSON has no others.
pub record Float64 : Type 0 where
  pub mantissa : ℤ
  pub exponent : ℤ

pub record SendEmailPayload : Type 0 where
  pub to : String
  pub subject : String
  pub body : String
  pub from : String
  pub cc : List String
  pub bcc : List String

pub record PaymentPayload : Type 0 where
  pub order_id : String
  pub amount : Float64
  pub currency : String
  pub payment_method : String
  pub customer_id : String

pub record ReportPayload : Type 0 where
  pub report_type : String
  pub format : String
  pub start : String
  pub end : String
  pub filters : List (String × String)
  pub recipients : List String

-- The headers are in the order in which a loop ranges over them.
pub record WebhookPayload : Type 0 where
  pub url : String
  pub method : String
  pub headers : List (String × String)
  pub body : String
  pub max_retries : ℤ
  pub timeout : ℤ

pub record DataCleanupPayload : Type 0 where
  pub table : String
  pub older_than : String
  pub batch_size : ℤ

-- http.Request
pub record Request : Type 0 where
  pub method : String
  pub url : String
  pub body : Option String
  pub headers : List (String × String)
