-- ===== src/Examples/StepRuns.antt =====
-- The Step state machine and its rows on concrete Steps.
use media_orchard.Prelude.{◌≡◌, ◌≢◌, ◌⊎◌}
use media_orchard.Prelude.Results.{ok, err, Returns}
use media_orchard.Prelude.Int.{pos}
use media_orchard.Shared.Enums.{assigned, running}
use media_orchard.Shared.DateTimes.{aware}
use media_orchard.Controller.StateMachine.{
  recover_timed_out_step, validate_assignment_epoch, cannot_recover, stale_epoch,
}
use media_orchard.Controller.StateMachine.Recovery.{
  IsRecovered, recover_timed_out_step_lem, stale_after_recovery,
}
use media_orchard.Examples.Fixtures.{
  running_step, recovered_step, reassigned_step, recovered, reassigned,
}

recover_timed_out_step_lem_example :
    ((running_step.status ≡ assigned) ⊎ (running_step.status ≡ running)
      → Returns (recover_timed_out_step running_step) (IsRecovered running_step))
    × (running_step.status ≢ assigned
        → running_step.status ≢ running
        → recover_timed_out_step running_step ≡ err (cannot_recover running_step.status))
recover_timed_out_step_lem_example = recover_timed_out_step_lem running_step

stale_after_recovery_example :
    (validate_assignment_epoch recovered_step (pos 1) ≡ err (stale_epoch 2 (pos 1)))
    × (validate_assignment_epoch reassigned_step (pos 1) ≡ err (stale_epoch 3 (pos 1)))
    × (validate_assignment_epoch reassigned_step (pos 3) ≡ ok tt)
stale_after_recovery_example =
    stale_after_recovery running_step recovered_step reassigned_step "mini" (aware 3_000) recovered
      reassigned
