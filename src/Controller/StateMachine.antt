-- ===== src/Controller/StateMachine.antt =====
-- mediaorchard/controller/runtime/state_machine.py. A function that changes its `Step` returns the
-- new row; `TransitionError` is the error of a `Result`.
pub mod Lifecycle
pub mod Recovery
use media_orchard.Prelude.{
  ℕ, ◌+◌, String, Bool, List, [], ◌∷◌, Option, none, some, is_yes, any, leb, if◌then◌else◌,
}
use media_orchard.Prelude.Results.{Result, ok, err, ◌>>=◌, require}
use media_orchard.Prelude.Int.{ℤ, pos, int_eq}
use media_orchard.Shared.Enums.{
  StepStatus, pending, queued, assigned, running, completed, failed, skipped, cancelled,
  StepStatus-discrete,
}
use media_orchard.Shared.DateTimes.{DateTime}
use media_orchard.Controller.Models.{Step}

-- The messages of `TransitionError`.
pub data TransitionError : Type 0 where
  invalid_transition : StepStatus → StepStatus → TransitionError
  stale_epoch : ℕ → ℤ → TransitionError
  cannot_recover : StepStatus → TransitionError

abbrev pub same_status : StepStatus → StepStatus → Bool
same_status a b = is_yes (StepStatus-discrete a b)

-- `status in {…}`
abbrev pub is_in : StepStatus → List StepStatus → Bool
is_in s = any (same_status s)

abbrev pub legal_step_transitions : StepStatus → List StepStatus
legal_step_transitions pending = queued ∷ skipped ∷ cancelled ∷ []
legal_step_transitions queued = assigned ∷ cancelled ∷ []
legal_step_transitions assigned = running ∷ queued ∷ failed ∷ cancelled ∷ []
legal_step_transitions running = completed ∷ failed ∷ cancelled ∷ []
legal_step_transitions failed = queued ∷ []
legal_step_transitions skipped = []
legal_step_transitions cancelled = []
legal_step_transitions completed = []

unfoldable pub transition_step : StepStatus → StepStatus → Result TransitionError StepStatus
transition_step current target =
    if is_in target (legal_step_transitions current)
    then ok target
    else err (invalid_transition current target)

abbrev pub StepResult : Type 0 → Type 0
StepResult F = Result TransitionError (Step F)

abbrev heartbeat_timeout : Option String
heartbeat_timeout = some "worker_heartbeat_timeout"

module _ {F : Type 0} where
  -- The caller gives `now`.
  unfoldable pub assign_step : Step F → String → DateTime → StepResult F
  unfolding transition_step
  assign_step step node_id now = do
    status ← transition_step step.status assigned
    ok (record step {
      status = status;
      assigned_node_id = some node_id;
      assigned_at = some now;
      assignment_epoch = step.assignment_epoch + 1;
    })

  unfoldable pub validate_assignment_epoch : Step F → ℤ → Result TransitionError (Unit {0})
  validate_assignment_epoch step epoch =
      require (int_eq (pos step.assignment_epoch) epoch) (stale_epoch step.assignment_epoch epoch)

  recover_assigned : Step F → StepResult F
  unfolding transition_step
  recover_assigned step = do
    status ← transition_step step.status queued
    ok (record step {
      status = status;
      assigned_node_id = none;
      assigned_at = none;
      error_message = heartbeat_timeout;
      assignment_epoch = step.assignment_epoch + 1;
    })

  -- `if step.retry_count <= step.max_retries: …`
  requeue_if_retries_left : Step F → StepResult F
  unfolding transition_step
  requeue_if_retries_left step =
      if leb step.retry_count step.max_retries
      then (do status ← transition_step step.status queued; ok (record step { status = status }))
      else ok step

  recover_running : Step F → StepResult F
  unfolding transition_step requeue_if_retries_left
  recover_running step = do
    status ← transition_step step.status failed
    requeue_if_retries_left (record step {
      status = status;
      error_message = heartbeat_timeout;
      assigned_node_id = none;
      assigned_at = none;
      retry_count = step.retry_count + 1;
      assignment_epoch = step.assignment_epoch + 1;
    })

  unfoldable pub recover_timed_out_step : Step F → StepResult F
  unfolding recover_assigned recover_running
  recover_timed_out_step step =
      if same_status step.status assigned
      then recover_assigned step
      else if same_status step.status running
      then recover_running step
      else err (cannot_recover step.status)
