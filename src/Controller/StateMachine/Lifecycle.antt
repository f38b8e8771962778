-- ===== src/Controller/StateMachine/Lifecycle.antt =====
-- The status diagram of a Step, as plan.md draws it, against `transition_step`.
use media_orchard.Prelude.{◌≡◌, refl, ◌↔◌, arith}
use media_orchard.Prelude.Results.{ok}
use media_orchard.Shared.Enums.{
  StepStatus, pending, queued, assigned, running, completed, failed, skipped, cancelled,
  StepStatus-discrete,
}
use media_orchard.Controller.StateMachine.{transition_step}

pub data Edge : StepStatus → StepStatus → Type 0 where
  admit : Edge pending queued
  skip : Edge pending skipped
  assign : Edge queued assigned
  start : Edge assigned running
  release : Edge assigned queued
  reject : Edge assigned failed
  finish : Edge running completed
  break : Edge running failed
  retry : Edge failed queued
  cancel_pending : Edge pending cancelled
  cancel_queued : Edge queued cancelled
  cancel_assigned : Edge assigned cancelled
  cancel_running : Edge running cancelled

ruleset edges = (
  admit, skip, assign, start, release, reject, finish, break, retry, cancel_pending, cancel_queued,
  cancel_assigned, cancel_running,
)

Edge-transition_step : {a b : StepStatus} → Edge a b → transition_step a b ≡ ok b
unfolding transition_step StepStatus-discrete
Edge-transition_step admit = refl
Edge-transition_step _ = refl

pub transition_step-Edge : (a b c : StepStatus) → transition_step a b ≡ ok c → Edge a b × (c ≡ b)
unfolding transition_step StepStatus-discrete
transition_step-Edge a b c h = grind (arith, edges)

-- `transition_step` returns its target along the edges of the diagram, and only there.
pub transition_step_iff : (a b c : StepStatus) → (transition_step a b ≡ ok c) ↔ (Edge a b × (c ≡ b))
transition_step_iff a b c = (transition_step-Edge a b c, λ p. rw p.1 (Edge-transition_step p.0))
