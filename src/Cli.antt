-- ===== src/Cli.antt =====
-- The command line: the HTTP clients of mediaorchard/cli/runtime.py, the start of the
-- Controller, and the commands of mediaorchard/cli/main.py.
pub mod Http
pub mod Launch
pub mod Commands
pub mod Starts
pub mod Hosts
