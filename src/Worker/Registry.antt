-- ===== src/Worker/Registry.antt =====
-- Registry (internal/worker/handler.go). A handler is its name and what its Execute does with a job;
-- handlers read the job that they are given and do not write to it.
use distributed_task_schedul.Prelude.{
  ◌≡◌, Option, String, List, [], ◌∷◌, some, none, if◌then◌else◌, str_eq, arith, refl, eq_iff,
}
use distributed_task_schedul.Errors.{Error}
use distributed_task_schedul.Models.Job.{Job}

-- How the goroutine of runWithRecovery ends: Execute returns, panics, or the context is done first.
pub data Outcome : Type 0 where
  returns : Option Error → Outcome
  panics : Outcome
  times_out : Outcome

pub record JobHandler : Type 0 where
  pub name : String
  pub execute : Job → Outcome

-- The map of a registry; the nil handler is `none`.
abbrev pub Registry : Type 0
Registry = List (String × JobHandler)

abbrev pub new_registry : Registry
new_registry = []

unfoldable pub set_handler : String → JobHandler → Registry → Registry
set_handler name h [] = (name, h) ∷ []
set_handler name h ((n, g) ∷ r) =
    let rest = set_handler name h r in if str_eq n name then (name, h) ∷ r else (n, g) ∷ rest

unfoldable pub register : Option JobHandler → Registry → Registry
unfolding set_handler
register none r = r
register (some h) r = set_handler h.name h r

unfoldable pub get_handler : String → Registry → Option JobHandler
get_handler job_type [] = none
get_handler job_type ((n, g) ∷ r) = if str_eq n job_type then some g else get_handler job_type r

unfoldable pub registered_types : Registry → List String
registered_types [] = []
registered_types ((n, g) ∷ r) = n ∷ registered_types r

get_handler-set :
    (name : String) (h : JobHandler) (r : Registry) (job_type : String)
    → get_handler job_type (set_handler name h r)
      ≡ (if str_eq name job_type then some h else get_handler job_type r)
unfolding get_handler set_handler
get_handler-set name h [] job_type = refl
get_handler-set name h ((n, g) ∷ r) job_type = ground (
  arith,
  get_handler-set name h r job_type,
  eq_iff n name,
  eq_iff name job_type,
  eq_iff n job_type,
)

-- Get finds, for every job type, the handler that was registered last under it; registering nil changes nothing.
pub get_handler-register :
    (h : Option JobHandler) (r : Registry) (job_type : String)
    → get_handler job_type (register h r) ≡ elim h [
      | none ↦ get_handler job_type r
      | some g ↦ if str_eq g.name job_type then some g else get_handler job_type r
    ]
unfolding register
get_handler-register none r job_type = refl
get_handler-register (some h) r job_type = get_handler-set h.name h r job_type
