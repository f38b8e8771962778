-- ===== src/Examples.antt =====
-- Concrete inputs for the theorems, and runs of the program on them.
pub mod Fixtures
pub mod Machines
pub mod StepRuns
pub mod ApiRuns
pub mod SchedulerRuns
pub mod SharedRuns
pub mod WorkerRuns
pub mod PipelineRuns
pub mod HostRuns
pub mod PriorityRuns
pub mod StartRuns
pub mod JobRuns
pub mod SystemRuns
pub mod DoctorRuns
