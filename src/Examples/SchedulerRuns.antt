-- ===== src/Examples/SchedulerRuns.antt =====
-- The scheduler on one node with room and one without.
use media_orchard.Prelude.{◌≡◌, refl, ◌↔◌, List, [], ◌∷◌, Both}
use media_orchard.Prelude.Results.{ok}
use media_orchard.Prelude.Int.{ℤ}
use media_orchard.Shared.Enums.{queued, StepStatus-discrete}
use media_orchard.Shared.Enums.{NodeStatus-discrete}
use media_orchard.Shared.DateTimes.{DateTime, aware}
use media_orchard.Controller.Models.{Node}
use media_orchard.Controller.StateMachine.{assign_step}
use media_orchard.Prelude.Order.{sort}
use media_orchard.Controller.Scheduler.Policies.{
  heartbeat_expired, default_config, is_avoided, battery_blocked, is_whisper_step, is_ffmpeg_step,
  whisper_concurrency_full, is_node_eligible,
}
use media_orchard.Controller.Scheduler.Policies.Eligibility.{
  IsEligible, accepted, rejected, is_node_eligible_iff,
}
use media_orchard.Controller.Scheduler.Scoring.{
  before, calculate_node_cost, SchedulerDecision, select_node_for_step,
}
use media_orchard.Controller.Scheduler.Scoring.Choice.{IsChoice, select_node_for_step-IsChoice}
use media_orchard.Controller.Scheduler.Loop.{Outcome, assign_best_node}
use media_orchard.Controller.Scheduler.Loop.Assignment.{
  IsOutcome, assign_best_node-IsOutcome, KeepsCaps,
}
use media_orchard.Prelude.Order.{text_lt}
use media_orchard.Controller.Scheduler.Scoring.{node_priority_bonus}
use media_orchard.Controller.Api.{Db}
use media_orchard.Controller.Api.Nodes.{after_assignment, schedule_queued_steps}
use media_orchard.Controller.Api.Nodes.Capacity.{schedule_queued_steps-KeepsCaps}
use media_orchard.Examples.Fixtures.{
  env, app, db_with, hundredths, hundredths-IsOrdered, mini, queued_step, config,
}

-- A node whose one whisper job is running.
abbrev full : Node ℤ
full = record mini { id = "full"; active_whisper_jobs = 1 }

abbrev now : DateTime
now = aware 1_500

is_node_eligible_iff_example :
    (is_node_eligible hundredths queued_step mini config now ≡ accepted)
    ↔ IsEligible hundredths queued_step mini config now
is_node_eligible_iff_example = is_node_eligible_iff hundredths queued_step mini config now

full_rejected :
    is_node_eligible hundredths queued_step full config now ≡ rejected whisper_concurrency_full
unfolding is_node_eligible NodeStatus-discrete heartbeat_expired default_config is_avoided
    battery_blocked is_whisper_step is_ffmpeg_step
full_rejected = refl

abbrev nodes : List (Node ℤ)
nodes = full ∷ mini ∷ []

decision :
    (d : SchedulerDecision ℤ) × (select_node_for_step hundredths queued_step nodes config now
      ≡ ok d)
unfolding select_node_for_step is_node_eligible NodeStatus-discrete heartbeat_expired default_config
    is_avoided battery_blocked is_whisper_step is_ffmpeg_step
decision = (_, refl)

outcome : (r : Outcome ℤ) × (assign_best_node hundredths queued_step nodes config now ≡ ok r)
unfolding assign_best_node select_node_for_step sort before calculate_node_cost assign_step
    StepStatus-discrete is_node_eligible NodeStatus-discrete heartbeat_expired default_config
    is_avoided battery_blocked is_whisper_step is_ffmpeg_step
outcome = (_, refl)

select_node_for_step-IsChoice_example :
    IsChoice hundredths queued_step config now nodes decision.0.selected_node
select_node_for_step-IsChoice_example =
    select_node_for_step-IsChoice hundredths queued_step config now hundredths-IsOrdered nodes
      decision.0 decision.1

assign_best_node-IsOutcome_example :
    (queued_step.status ≡ queued) × IsOutcome hundredths queued_step nodes config now outcome.0
assign_best_node-IsOutcome_example =
    assign_best_node-IsOutcome hundredths queued_step nodes config now outcome.0
      hundredths-IsOrdered outcome.1

-- A pass over two queued Steps, for which the one node has room once.
scheduled_pass :
    (db' : Db ℤ) × (schedule_queued_steps env app (aware 1_500) (db_with queued_step) ≡ ok db')
unfolding schedule_queued_steps after_assignment text_lt node_priority_bonus assign_best_node
    select_node_for_step sort before calculate_node_cost assign_step StepStatus-discrete
    is_node_eligible NodeStatus-discrete heartbeat_expired default_config is_avoided battery_blocked
    is_whisper_step is_ffmpeg_step
scheduled_pass = (_, refl)

schedule_queued_steps-KeepsCaps_example :
    Both KeepsCaps (db_with queued_step).nodes scheduled_pass.0.nodes
schedule_queued_steps-KeepsCaps_example =
    schedule_queued_steps-KeepsCaps env app hundredths-IsOrdered (aware 1_500) (db_with queued_step)
      scheduled_pass.0 (tt, tt) scheduled_pass.1
