-- ===== src/Shared/Enums.antt =====
-- mediaorchard/shared/enums.py

pub data NodeStatus : Type 0 where
  online offline cooldown : NodeStatus

pub data JobStatus : Type 0 where
  created planning waiting_approval queued running completed failed cancelled retrying : JobStatus

pub data StepStatus : Type 0 where
  pending queued assigned running completed failed skipped cancelled : StepStatus

unfoldable pub NodeStatus-discrete : Discrete NodeStatus
NodeStatus-discrete = hlevel

unfoldable pub JobStatus-discrete : Discrete JobStatus
JobStatus-discrete = hlevel

unfoldable pub StepStatus-discrete : Discrete StepStatus
StepStatus-discrete = hlevel
