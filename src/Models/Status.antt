-- ===== src/Models/Status.antt =====
-- JobStatus and its transitions (internal/models/job.go).
use distributed_task_schedul.Prelude.{
  String, ◌≡◌, refl, ◌↔◌, Bool, true, false, ◌||◌, arith, str_eq, if◌then◌else◌,
}

-- `type JobStatus string`: the six constants, and any other text.
pub data JobStatus : Type 0 where
  pending running completed failed dead_letter cancelled : JobStatus
  other : String → JobStatus

-- `==` on statuses.
unfoldable pub status_eq : JobStatus → JobStatus → Bool
status_eq pending pending = true
status_eq running running = true
status_eq completed completed = true
status_eq failed failed = true
status_eq dead_letter dead_letter = true
status_eq cancelled cancelled = true
status_eq (other a) (other b) = str_eq a b
status_eq _ _ = false

unfoldable pub is_terminal : JobStatus → Bool
is_terminal completed = true
is_terminal dead_letter = true
is_terminal cancelled = true
is_terminal _ = false

-- The `switch` of `CanTransitionTo`.
allowed : JobStatus → JobStatus → Bool
allowed pending target = status_eq target running || status_eq target cancelled
allowed running target =
    status_eq target completed || status_eq target failed || status_eq target cancelled
allowed failed target = status_eq target pending || status_eq target dead_letter
allowed _ target = false

unfoldable pub can_transition_to : JobStatus → JobStatus → Bool
unfolding allowed status_eq is_terminal
can_transition_to s target = if is_terminal s then false else allowed s target

-- The life cycle as a diagram.
infix 40 ◌⟶◌ ◌⟶*◌
pub data ◌⟶◌ : JobStatus → JobStatus → Type 0 where
  dequeue : pending ⟶ running
  withdraw : pending ⟶ cancelled
  succeed : running ⟶ completed
  fail : running ⟶ failed
  abort : running ⟶ cancelled
  retry : failed ⟶ pending
  give_up : failed ⟶ dead_letter

pub data ◌⟶*◌ : JobStatus → JobStatus → Type 0 where
  stays : {s : JobStatus} → s ⟶* s
  moves : {s after t : JobStatus} → s ⟶ after → after ⟶* t → s ⟶* t

ruleset edges = (dequeue, withdraw, succeed, fail, abort, retry, give_up)

allowed-⟶ : (s t : JobStatus) → can_transition_to s t ≡ true → s ⟶ t
unfolding can_transition_to
allowed-⟶ s t h = grind (arith, edges)

⟶-allowed : {s t : JobStatus} → s ⟶ t → can_transition_to s t ≡ true
unfolding can_transition_to
⟶-allowed dequeue = refl
⟶-allowed withdraw = refl
⟶-allowed succeed = refl
⟶-allowed fail = refl
⟶-allowed abort = refl
⟶-allowed retry = refl
⟶-allowed give_up = refl

-- CanTransitionTo accepts exactly the seven edges of the life cycle: a pending job starts or is cancelled, a running job completes, fails or is cancelled, and a failed job goes back to pending or to the dead letters.
pub can_transition_to-⟶ : (s t : JobStatus) → (can_transition_to s t ≡ true) ↔ (s ⟶ t)
can_transition_to-⟶ s t = (allowed-⟶ s t, ⟶-allowed)

no-⟶-terminal : {s t : JobStatus} → s ⟶ t → is_terminal s ≡ false
unfolding is_terminal
no-⟶-terminal dequeue = refl
no-⟶-terminal withdraw = refl
no-⟶-terminal succeed = refl
no-⟶-terminal fail = refl
no-⟶-terminal abort = refl
no-⟶-terminal retry = refl
no-⟶-terminal give_up = refl

-- A status that IsTerminal names is final: whatever it can still become by transitions that CanTransitionTo accepts is itself.
pub is_terminal-final : {s t : JobStatus} → is_terminal s ≡ true → s ⟶* t → s ≡ t
is_terminal-final h stays = refl
is_terminal-final h (moves e rest) = cc (h, no-⟶-terminal e)
