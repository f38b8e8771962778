-- ===== src/Worker/Agent.antt =====
-- mediaorchard/worker/agent.py: each method of WorkerAgent posts one JSON object to one path.
use media_orchard.Prelude.{String, Bool}
use media_orchard.Prelude.Int.{ℤ}
use media_orchard.Prelude.Json.{Json, Fields, bool, int, float, str, obj, end, field}
use media_orchard.Shared.Paths.{FileSystem}
use Prim.Native.String

pub record WorkerAgent : Type 0 where
  pub node_id : String
  pub node_name : String
  pub shared_root : String
  pub max_ffmpeg_jobs : ℤ
  pub max_whisper_jobs : ℤ

-- The arguments of `transport.post`.
pub record Post (F : Type 0) : Type 0 where
  pub path : String
  pub json : Fields F

-- The keyword arguments of `heartbeat`.
pub record Metrics (F : Type 0) : Type 0 where
  pub cpu_percent : F
  pub memory_percent : F
  pub free_disk_gb : F
  pub active_jobs : ℤ
  pub active_ffmpeg_jobs : ℤ
  pub active_whisper_jobs : ℤ
  pub thermal_state : String
  pub on_battery : Bool

-- f"/{table}/{id}/{action}"
abbrev route : String → String → String → String
route table id action =
    String.◌++◌ "/" (String.◌++◌ table (String.◌++◌ "/" (String.◌++◌ id (String.◌++◌ "/" action))))

module _ {F : Type 0} where
  unfoldable pub register : FileSystem → WorkerAgent → Post F
  register fs worker = record {
    path = "/nodes/register";
    json = field "node_id" (str worker.node_id) (
        field "name" (str worker.node_name) (
          field "shared_root" (str (fs.render (fs.resolve worker.shared_root))) (
            field "max_ffmpeg_jobs" (int worker.max_ffmpeg_jobs)
              (field "max_whisper_jobs" (int worker.max_whisper_jobs) end))));
  }

  unfoldable pub heartbeat : WorkerAgent → Metrics F → Post F
  heartbeat worker m = record {
    path = route "nodes" worker.node_id "heartbeat";
    json = field "cpu_percent" (float m.cpu_percent) (
        field "memory_percent" (float m.memory_percent) (
          field "free_disk_gb" (float m.free_disk_gb) (
            field "active_jobs" (int m.active_jobs) (
              field "active_ffmpeg_jobs" (int m.active_ffmpeg_jobs) (
                field "active_whisper_jobs" (int m.active_whisper_jobs) (
                  field "thermal_state" (str m.thermal_state)
                    (field "on_battery" (bool m.on_battery) end)))))));
  }

  unfoldable pub poll : WorkerAgent → Post F
  poll worker = record {
    path = "/steps/claim-next";
    json = field "node_id" (str worker.node_id) end;
  }

  -- `assignment_epoch` is the JSON value that a step has for it: an int, or a bool, which is an int too.
  unfoldable pub start : String → Json F → Post F
  start step_id assignment_epoch = record {
    path = route "steps" step_id "start";
    json = field "assignment_epoch" assignment_epoch end;
  }

  unfoldable pub complete : String → Json F → Fields F → Post F
  complete step_id assignment_epoch output_json = record {
    path = route "steps" step_id "complete";
    json = field "assignment_epoch" assignment_epoch (field "output_json" (obj output_json) end);
  }

  unfoldable pub fail : String → Json F → String → Post F
  fail step_id assignment_epoch error_message = record {
    path = route "steps" step_id "fail";
    json =
        field "assignment_epoch" assignment_epoch (field "error_message" (str error_message) end);
  }

  unfoldable pub report_interrupted : String → Json F → Post F
  unfolding fail
  report_interrupted step_id assignment_epoch =
      fail step_id assignment_epoch "interrupted_by_worker_shutdown"
