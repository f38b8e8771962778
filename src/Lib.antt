-- ===== src/Lib.antt =====
-- MediaOrchard: a Controller that keeps jobs, plans and steps in a database and hands the steps
-- to Worker nodes on the same machine or network, which claim, start, report and finish them over
-- HTTP.
--
-- The parts and their files, with the code of each under mediaorchard/:
--
-- - Shared: enums (shared/enums.py), the UTC column of controller/db/models.py (DateTimes),
--   shared/paths.py (Paths) and the keys and the redaction of shared/security.py (Security,
--   Redaction). Texts holds the operations on str that they use.
-- - Controller/Models: the rows of controller/db/models.py, as records over the type of floats.
-- - Controller/StateMachine: controller/runtime/state_machine.py. What mutates a Step returns the
--   new Step or the exception. Lifecycle and Recovery hold its theorems.
-- - Controller/Scheduler: policies.py, scoring.py and loop.py of controller/scheduler/. Policies
--   has the hard filters in the order of the early returns, Priorities the texts of node
--   priorities, Scoring the cost and the choice, Loop the assignment, which returns the Step and
--   the nodes that it mutated.
-- - Controller/Api: controller/main.py. A handler maps the committed database to its result and
--   the database after it; what is not committed when an exception is raised is rolled back. Auth
--   has the dependencies, Nodes, Jobs and Steps the endpoints by the names of their functions,
--   Server routes the requests and runs them one after the other, Invariants has the laws by
--   which every request keeps a property of the database, and Settled such a property. Startup is
--   `create_app` before its routes, and the module's `app`. A lifecycle request of Steps is a
--   read phase (`owned_step`, `next_status`) and a write phase (`start_write` and so on), since
--   requests run in threads of their own: a theorem about a write phase holds on whatever the
--   database has become in between.
-- - Worker: the posts of worker/agent.py (Agent); `execute_claimed_step` of cli/runtime.py
--   (Execution), which posts through a transport whose answer may depend on all earlier posts,
--   and in Service and Failures through one to the Controller's handlers, over a router and
--   codecs that are parameters; its loop `run_worker` (Polling) and `run_claimed_pipeline_step`
--   (Claims, Runtime). Machine is what tools and pipelines ask of the operating system and of
--   Python's library, as operations on a state of the computer, with the law that what is written
--   stays (KeepsFiles). Over it stand the pipelines of worker/mock_pipeline.py (MockPipeline) and
--   worker/real_media_smoke.py (Commands, Quality, Srt, Transcripts, RealPipeline, Smoke) and
--   `ToolExecutor` of worker/executor.py (Executor has the argv builders, ToolExecutor the
--   execution). Shell is `shlex.quote`, Preflight worker/preflight.py and Bootstrap
--   worker/bootstrap.py.
-- - Cli: the HTTP clients of cli/runtime.py (Http), over an abstract `urlopen`, `run_controller`
--   (Launch), and the commands of cli/main.py between the parsed options and the printed lines
--   (Commands; Starts has `controller start` and `worker start`, Hosts `doctor
--   worker-bootstrap`).
-- - Prelude has the lists, numbers, exceptions, actions, tables and orders that these share, and
--   Examples the concrete inputs.
--
-- Outside the model and taken as parameters: float arithmetic (Floats; a theorem that needs an
-- order of floats assumes IsOrdered), SHA-256, the file system's path resolution, the clock and
-- uuid4 (Env), and the computer on which a Worker runs commands (Machine, Host). Integers of the
-- program are unbounded; a count that the code keeps at zero or above is a natural number. Every
-- loop but one runs over a list. The loop of `run_worker` has fuel, one unit for each round;
-- `poll_once` or `max_polls` is the number of rounds that is enough. Requests are served by
-- `serve` in any order and number. The database library is modelled by what its statements do to
-- the tables: SELECT as a filter and a stable sort, UPDATE as a map over the rows that its
-- conditions hold of, a primary key that is already there as an error. An action of the Worker
-- that raises leaves the computer as it was at that point, with all that was done before.
--
-- Not modelled: the parsing of options by typer, and the session factory of
-- controller/db/session.py.
pub mod Prelude
pub mod Shared
pub mod Controller
pub mod Examples
pub mod Worker
pub mod Cli
