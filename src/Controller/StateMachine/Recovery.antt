-- ===== src/Controller/StateMachine/Recovery.antt =====
-- What `recover_timed_out_step` and `assign_step` do to a Step, and the fencing that follows.
use media_orchard.Prelude.{◌+◌, ◌≤◌, ◌<◌, String, ◌≡◌, ◌≢◌, ◌⊎◌, none, some, arith}
use media_orchard.Prelude.Results.{ok, err, Returns}
use media_orchard.Prelude.Int.{pos}
use media_orchard.Shared.Enums.{queued, assigned, running, failed, StepStatus-discrete}
use media_orchard.Shared.DateTimes.{DateTime}
use media_orchard.Controller.Models.{Step}
use media_orchard.Controller.StateMachine.{
  assign_step, validate_assignment_epoch, recover_timed_out_step, cannot_recover,
  invalid_transition, stale_epoch,
}

-- The recovery rules of plan.md for a Step whose Worker went silent.
pub record IsRecovered {F : Type 0} (s t : Step F) : Type 0 where
  pub unowned : t.assigned_node_id ≡ none
  pub unassigned : t.assigned_at ≡ none
  pub fenced : t.assignment_epoch ≡ s.assignment_epoch + 1
  pub explained : t.error_message ≡ some "worker_heartbeat_timeout"
  pub free_requeue : s.status ≡ assigned → (t.status ≡ queued) × (t.retry_count ≡ s.retry_count)
  pub counted : s.status ≡ running → t.retry_count ≡ s.retry_count + 1
  pub retried : s.status ≡ running → s.retry_count < s.max_retries → t.status ≡ queued
  pub exhausted : s.status ≡ running → s.max_retries ≤ s.retry_count → t.status ≡ failed

module _ {F : Type 0} where
  -- An assigned or running Step is always recovered, by the rules; any other raises.
  pub recover_timed_out_step_lem :
      (s : Step F)
      → ((s.status ≡ assigned) ⊎ (s.status ≡ running)
          → Returns (recover_timed_out_step s) (IsRecovered s))
        × (s.status ≢ assigned
            → s.status ≢ running
            → recover_timed_out_step s ≡ err (cannot_recover s.status))
  unfolding recover_timed_out_step StepStatus-discrete
  recover_timed_out_step_lem s = (λ h. ground arith, ground arith)

  -- `assign_step` takes a queued Step to one node and a new epoch; any other Step is refused.
  pub assign_step_lem :
      (s : Step F) (node : String) (now : DateTime)
      → (s.status ≡ queued
          → Returns (assign_step s node now) (λ t.
            (t.status ≡ assigned)
            × (t.assigned_node_id ≡ some node)
            × (t.assigned_at ≡ some now)
            × (t.assignment_epoch ≡ s.assignment_epoch + 1)))
        × (s.status ≢ queued → assign_step s node now ≡ err (invalid_transition s.status assigned))
  unfolding assign_step StepStatus-discrete
  assign_step_lem s node now = (λ h. ground arith, λ h. ground arith)

  epoch-recover :
      (s t : Step F) → recover_timed_out_step s ≡ ok t → t.assignment_epoch ≡ s.assignment_epoch + 1
  unfolding recover_timed_out_step StepStatus-discrete
  epoch-recover s t h = ground arith

  epoch-assign :
      (s t : Step F) (node : String) (now : DateTime)
      → assign_step s node now ≡ ok t
      → t.assignment_epoch ≡ s.assignment_epoch + 1
  unfolding assign_step StepStatus-discrete
  epoch-assign s t node now h = ground arith

  -- The epoch that a Worker was given is refused once its Step was recovered, and it stays refused
  -- after the Step is assigned again, to any Worker, whose own epoch is accepted.
  pub stale_after_recovery :
      (s t u : Step F) (node : String) (now : DateTime)
      → recover_timed_out_step s ≡ ok t
      → assign_step t node now ≡ ok u
      → (validate_assignment_epoch t (pos s.assignment_epoch)
          ≡ err (stale_epoch t.assignment_epoch (pos s.assignment_epoch)))
        × (validate_assignment_epoch u (pos s.assignment_epoch)
            ≡ err (stale_epoch u.assignment_epoch (pos s.assignment_epoch)))
        × (validate_assignment_epoch u (pos u.assignment_epoch) ≡ ok tt)
  unfolding validate_assignment_epoch
  stale_after_recovery s t u node now r a =
      ground (arith, epoch-recover s t r, epoch-assign t u node now a)
