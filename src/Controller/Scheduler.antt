-- ===== src/Controller/Scheduler.antt =====
-- mediaorchard/controller/scheduler
pub mod Policies
pub mod Priorities
pub mod Scoring
pub mod Loop
