-- ===== src/Controller.antt =====
-- mediaorchard/controller
pub mod Models
pub mod StateMachine
pub mod Scheduler
pub mod Api
pub mod Startup
