-- ===== src/Controller/Api/Nodes.antt =====
-- The node endpoints of create_app, and the scheduling pass of the heartbeat.
pub mod Capacity
use media_orchard.Prelude.{
  ℕ, String, Bool, false, ◌&&◌, none, some, List, [], ◌∷◌, if◌then◌else◌, take, drop, select,
  is_empty,
}
use media_orchard.Prelude.Results
use media_orchard.Prelude.Results.{Result, ok, err, require}
use media_orchard.Prelude.Int.{ℤ, pos}
use media_orchard.Prelude.Floats.{Floats}
use media_orchard.Prelude.Order.{text_lt, sort}
use media_orchard.Prelude.Tables.{get_row, write_row, save_row}
use media_orchard.Shared.Enums.{online, queued}
use media_orchard.Shared.DateTimes.{DateTime}
use media_orchard.Controller.Models.{Node, Step}
use media_orchard.Shared.Paths.{validate_shared_root}
use media_orchard.Controller.Api.Auth.{require_worker_auth}
use media_orchard.Controller.StateMachine.{same_status}
use media_orchard.Controller.Scheduler.Policies.{SchedulerConfig, default_config}
use media_orchard.Controller.Scheduler.Loop.{
  AssignError, scheduler_error, Outcome, assign_best_node,
}
use media_orchard.Controller.Api.{
  Env, App, Db, Headers, HttpError, node_not_found, bad_root, invalid_body, try_commit, or_raise,
  scheduling_failed, Handler, give, check, read, commit, ◌>>=◌, ◌>>◌, step_id, node_id,
}

pub record NodeRegisterRequest : Type 0 where
  pub node_id : String
  pub name : String
  pub shared_root : String
  pub max_ffmpeg_jobs : ℤ
  pub max_whisper_jobs : ℤ

-- The integers have `ge=0`.
pub record NodeHeartbeatRequest (F : Type 0) : Type 0 where
  pub cpu_percent : F
  pub memory_percent : F
  pub free_disk_gb : F
  pub active_jobs : ℕ
  pub active_ffmpeg_jobs : ℕ
  pub active_whisper_jobs : ℕ
  pub thermal_state : String
  pub on_battery : Bool

-- The loop of `schedule_queued_steps`: the steps that it changed, and the nodes.
pub record Schedule (F : Type 0) : Type 0 where
  pub steps : List (Step F)
  pub nodes : List (Node F)

module _ {F : Type 0} where
  -- by id, as `order_by(Step.id)`
  abbrev by_id : Step F → Step F → Bool
  by_id s t = text_lt s.id t.id

  unfoldable pub queued_steps : Db F → List (Step F)
  queued_steps db = sort by_id (select (λ s. same_status s.status queued) db.steps)

  -- One round: `SchedulerError` passes over the step, any other exception ends the request.
  unfoldable pub after_assignment :
      Schedule F → Result AssignError (Outcome F) → Result AssignError (Schedule F)
  after_assignment s (ok r) =
      ok (record { steps = write_row step_id r.step s.steps; nodes = r.nodes })
  after_assignment s (err (scheduler_error _)) = ok s
  after_assignment s (err e) = err e

module _ {F : Type 0} (fl : Floats F) (config : SchedulerConfig F) (now : DateTime) where
  unfoldable pub schedule_from : List (Step F) → Schedule F → Result AssignError (Schedule F)
  schedule_from [] s = ok s
  schedule_from (step ∷ rest) s =
      Results.◌>>=◌ (after_assignment s (assign_best_node fl step s.nodes config now))
        (schedule_from rest)

module _ {F : Type 0} (env : Env F) (app : App) where
  abbrev pub scheduler_config : SchedulerConfig F
  scheduler_config = default_config env.floats (env.fs.render app.shared_root) app.node_priorities

  abbrev pub scheduled : Db F → Result AssignError (Schedule F) → Result HttpError (Db F)
  scheduled db (ok s) = ok (record db { steps = s.steps; nodes = s.nodes })
  scheduled db (err e) = err (scheduling_failed e)

  unfoldable pub schedule_queued_steps : DateTime → Db F → Result HttpError (Db F)
  unfolding schedule_from queued_steps
  schedule_queued_steps now db =
      let steps = queued_steps db in
      if is_empty steps
      then ok db
      else scheduled db (
          schedule_from env.floats scheduler_config now steps
            (record { steps = db.steps; nodes = db.nodes }))

  -- Node(id=…, name=…, shared_root=…)
  new_node : NodeRegisterRequest → String → Node F
  new_node body root = record {
    id = body.node_id;
    name = body.name;
    host = none;
    status = online;
    shared_root = root;
    auth_key_id = none;
    max_ffmpeg_jobs = pos 1;
    max_whisper_jobs = pos 1;
    active_jobs = 0;
    active_ffmpeg_jobs = 0;
    active_whisper_jobs = 0;
    cpu_percent = env.floats.lit 0 1;
    memory_percent = env.floats.lit 0 1;
    free_disk_gb = env.floats.lit 0 1;
    thermal_state = "unknown";
    on_battery = false;
    last_heartbeat_at = none;
    created_at = env.clock 0;
    updated_at = env.clock 1;
  }

  registered : Headers → NodeRegisterRequest → String → Node F → Node F
  registered headers body root node = record node {
    name = body.name;
    host = headers.client_host;
    status = online;
    shared_root = root;
    max_ffmpeg_jobs = body.max_ffmpeg_jobs;
    max_whisper_jobs = body.max_whisper_jobs;
    updated_at = env.clock 2;
  }

  -- The node that the registration adds or changes.
  unfoldable pub registration : Headers → NodeRegisterRequest → Db F → Node F
  unfolding new_node registered
  registration headers body db =
      let root = env.fs.render (env.fs.resolve body.shared_root) in
      registered headers body root (elim (get_row node_id body.node_id db.nodes) [
        | none ↦ new_node body root
        | some node ↦ node
      ])

  unfoldable pub register_node : Headers → NodeRegisterRequest → Handler F (Node F)
  unfolding registration
  register_node headers body = do
    check (require_worker_auth env app headers)
    let shared_check = validate_shared_root env.fs body.shared_root (env.fs.render app.shared_root)
    check (require shared_check.is_ok (bad_root shared_check.reason))
    node ← read (registration headers body)
    commit (λ db. record db { nodes = save_row node_id node db.nodes })
    give node

  -- Field(ge=0)
  abbrev valid_heartbeat : NodeHeartbeatRequest F → Bool
  valid_heartbeat body =
      let zero_f = env.floats.of_int (pos 0) in
      env.floats.le zero_f body.cpu_percent
      && (env.floats.le zero_f body.memory_percent && env.floats.le zero_f body.free_disk_gb)

  abbrev pub reported : NodeHeartbeatRequest F → Node F → Node F
  reported body node = record node {
    cpu_percent = body.cpu_percent;
    memory_percent = body.memory_percent;
    free_disk_gb = body.free_disk_gb;
    active_jobs = body.active_jobs;
    active_ffmpeg_jobs = body.active_ffmpeg_jobs;
    active_whisper_jobs = body.active_whisper_jobs;
    thermal_state = body.thermal_state;
    on_battery = body.on_battery;
    last_heartbeat_at = some (env.clock 0);
    updated_at = env.clock 1;
  }

  -- The heartbeat's metrics and the assignments are one transaction.
  unfoldable pub heartbeat_node : Headers → String → NodeHeartbeatRequest F → Handler F (Node F)
  unfolding schedule_queued_steps
  heartbeat_node headers id body = do
    check (require_worker_auth env app headers)
    check (require (valid_heartbeat body) invalid_body)
    found ← read (λ db. get_row node_id id db.nodes)
    node ← check (or_raise found node_not_found)
    try_commit (λ db.
        schedule_queued_steps (env.clock 0)
          (record db { nodes = write_row node_id (reported body node) db.nodes }))
    refreshed ← read (λ db. get_row node_id id db.nodes)
    check (or_raise refreshed node_not_found)

  unfoldable pub list_nodes : Headers → ℕ → ℕ → Handler F (List (Node F))
  list_nodes headers limit offset = do
    check (require_worker_auth env app headers)
    read (λ db. take limit (drop offset db.nodes))

  unfoldable pub get_node : Headers → String → Handler F (Node F)
  get_node headers id = do
    check (require_worker_auth env app headers)
    found ← read (λ db. get_row node_id id db.nodes)
    check (or_raise found node_not_found)
