-- ===== src/Api/Middleware.antt =====
-- The middleware of internal/scheduler/api.go.
use distributed_task_schedul.Api.Responses.{
  render_error, Handled, panics, Response, responds, header_only,
}
use distributed_task_schedul.Prelude.{ℕ, [], String, List, ◌++◌, if◌then◌else◌, ◌∷◌, str_eq}

-- recoveryMiddleware
unfoldable pub recover : Handled → Response
unfolding render_error
recover (responds response) = response
recover panics = render_error 500 "internal server error"

-- responseWriter: the status code is 200 until WriteHeader is called.
pub record ResponseWriter : Type 0 where
  pub status_code : ℕ
  pub sent : List ℕ

abbrev pub new_writer : ResponseWriter
new_writer = record { status_code = 200; sent = [] }

unfoldable pub write_header : ℕ → ResponseWriter → ResponseWriter
write_header code w = record { status_code = code; sent = w.sent ++ (code ∷ []) }

-- loggingMiddleware around recoveryMiddleware: the response, and the status that is logged.
unfoldable pub serve : Handled → Response × ℕ
unfolding recover write_header
serve h =
    let response = recover h in (response, (write_header response.status new_writer).status_code)

-- RequestIDMiddleware: the id that the context carries; `drawn` is what uuid.New() returns.
unfoldable pub request_id : (header drawn : String) → String
request_id header drawn = if str_eq header "" then drawn else header

-- CORS: the headers that it adds, and the response; a preflight request is answered at once.
unfoldable pub cors : (method : String) → Response → List (String × String) × Response
cors method next = (
  ("Access-Control-Allow-Origin", "*")
      ∷ ("Access-Control-Allow-Methods", "GET, POST, DELETE, OPTIONS")
      ∷ ("Access-Control-Allow-Headers", "Content-Type, Authorization")
      ∷ [],
  if str_eq method "OPTIONS" then header_only 200 else next,
)
