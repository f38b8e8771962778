-- ===== src/Worker.antt =====
-- The Worker's side: what it posts to the Controller, and in which order.
pub mod Agent
pub mod Execution
pub mod Machine
pub mod Shell
pub mod Preflight
pub mod Bootstrap
pub mod MockPipeline
pub mod Quality
pub mod Commands
pub mod Transcripts
pub mod Smoke
pub mod RealPipeline
pub mod Srt
pub mod Claims
pub mod Runtime
pub mod Polling
pub mod Executor
pub mod ToolExecutor
