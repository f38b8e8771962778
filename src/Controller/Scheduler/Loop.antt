-- ===== src/Controller/Scheduler/Loop.antt =====
-- mediaorchard/controller/scheduler/loop.py: one assignment.
pub mod Assignment
use media_orchard.Prelude.{◌+◌, String, Option, none, some, List, [], ◌∷◌, ◌==◌, if◌then◌else◌}
use media_orchard.Prelude.Results.{Result, ok, err, ◌>>=◌, ◌>>◌, require}
use media_orchard.Prelude.Floats.{Floats}
use media_orchard.Shared.Enums.{StepStatus, queued}
use media_orchard.Shared.DateTimes.{DateTime}
use media_orchard.Controller.Models.{Node, Step}
use media_orchard.Controller.StateMachine.{TransitionError, same_status, assign_step}
use media_orchard.Controller.Scheduler.Policies.{
  SchedulerConfig, Raised, is_whisper_step, is_ffmpeg_step,
}
use media_orchard.Controller.Scheduler.Scoring.{SchedulerDecision, select_node_for_step}

-- What `assign_best_node` may raise: `SchedulerError`, `TransitionError`, or what the checks raise.
pub data AssignError : Type 0 where
  scheduler_error : StepStatus → AssignError
  transition_error : TransitionError → AssignError
  raised : Raised → AssignError

abbrev pub in_transition : {A : Type 0} → Result TransitionError A → Result AssignError A
in_transition (ok a) = ok a
in_transition (err e) = err (transition_error e)

abbrev pub in_selection : {A : Type 0} → Result Raised A → Result AssignError A
in_selection (ok a) = ok a
in_selection (err e) = err (raised e)

-- The step and the nodes as they are mutated, and the decision.
pub record Outcome (F : Type 0) : Type 0 where
  pub step : Step F
  pub nodes : List (Node F)
  pub decision : SchedulerDecision F

module _ {F : Type 0} where
  -- The counters of the selected node after the assignment.
  unfoldable pub count_assignment : Step F → Node F → Node F
  count_assignment step node =
      let busier = record node { active_jobs = node.active_jobs + 1 } in
      if is_whisper_step step
      then record busier { active_whisper_jobs = node.active_whisper_jobs + 1 }
      else if is_ffmpeg_step step
      then record busier { active_ffmpeg_jobs = node.active_ffmpeg_jobs + 1 }
      else busier

  -- The objects that `nodes` holds after an assignment to the one with this id. Ids are the table's
  -- primary key, so one object has it.
  unfoldable pub update_node : Step F → String → List (Node F) → List (Node F)
  unfolding count_assignment
  update_node step id [] = []
  update_node step id (n ∷ ns) =
      (if n.id == id then count_assignment step n else n) ∷ update_node step id ns

  unfoldable pub assign_selected :
      Step F
      → List (Node F)
      → DateTime
      → SchedulerDecision F
      → Option (Node F)
      → Result AssignError (Outcome F)
  unfolding update_node
  assign_selected step nodes now decision none =
      ok (record { step = step; nodes = nodes; decision = decision })
  assign_selected step nodes now decision (some node) = do
    step' ← in_transition (assign_step step node.id now)
    ok (record {
      step = step';
      nodes = update_node step node.id nodes;
      decision = record decision { selected_node = some (count_assignment step node) };
    })

unfoldable pub assign_best_node :
    {F : Type 0} (fl : Floats F)
    → Step F
    → List (Node F)
    → SchedulerConfig F
    → DateTime
    → Result AssignError (Outcome F)
unfolding assign_selected
assign_best_node fl step nodes config now = do
  require (same_status step.status queued) (scheduler_error step.status)
  decision ← in_selection (select_node_for_step fl step nodes config now)
  assign_selected step nodes now decision decision.selected_node
