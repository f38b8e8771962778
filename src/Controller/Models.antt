-- ===== src/Controller/Models.antt =====
-- mediaorchard/controller/db/models.py: the tables' rows. `F` is the type of the floats.
-- No code reads or writes a `ToolCall`, an `AgentDecision` or a `QualityReport`.
use media_orchard.Prelude.{ℕ, String, Bool, Option, List}
use media_orchard.Prelude.Int.{ℤ}
use media_orchard.Prelude.Json.{Json, Fields}
use media_orchard.Shared.Enums.{NodeStatus, JobStatus, StepStatus}
use media_orchard.Shared.DateTimes.{DateTime}

pub record Node (F : Type 0) : Type 0 where
  pub id : String
  pub name : String
  pub host : Option String
  pub status : NodeStatus
  pub shared_root : String
  pub auth_key_id : Option String
  pub max_ffmpeg_jobs : ℤ
  pub max_whisper_jobs : ℤ
  pub active_jobs : ℕ
  pub active_ffmpeg_jobs : ℕ
  pub active_whisper_jobs : ℕ
  pub cpu_percent : F
  pub memory_percent : F
  pub free_disk_gb : F
  pub thermal_state : String
  pub on_battery : Bool
  pub last_heartbeat_at : Option DateTime
  pub created_at : DateTime
  pub updated_at : DateTime

pub record Job (F : Type 0) : Type 0 where
  pub id : String
  pub goal_type : String
  pub input_file : String
  pub output_dir : String
  pub status : JobStatus
  pub priority : ℤ
  pub language : Option String
  pub quality : String
  pub requested_outputs : List String
  pub user_request : Option String
  pub plan_id : Option String
  pub progress : F
  pub error_message : Option String
  pub created_at : DateTime
  pub updated_at : DateTime
  pub completed_at : Option DateTime

pub record Plan (F : Type 0) : Type 0 where
  pub id : String
  pub job_id : String
  pub status : String
  pub created_by : String
  pub plan_schema_version : String
  pub plan_json : Fields F
  pub created_at : DateTime
  pub updated_at : DateTime

pub record Step (F : Type 0) : Type 0 where
  pub id : String
  pub job_id : String
  pub plan_id : String
  pub step_type : String
  pub tool_name : String
  pub status : StepStatus
  pub depends_on : List String
  pub assigned_node_id : Option String
  pub assigned_at : Option DateTime
  pub claimed_at : Option DateTime
  pub assignment_epoch : ℕ
  pub input_json : Fields F
  pub output_json : Option (Fields F)
  pub retry_count : ℕ
  pub max_retries : ℕ
  pub started_at : Option DateTime
  pub completed_at : Option DateTime
  pub error_message : Option String

pub record ToolCall (F : Type 0) : Type 0 where
  pub id : String
  pub job_id : String
  pub step_id : String
  pub node_id : String
  pub tool_name : String
  pub args_json : Fields F
  pub status : String
  pub stdout_path : Option String
  pub stderr_path : Option String
  pub exit_code : Option ℤ
  pub started_at : Option DateTime
  pub completed_at : Option DateTime

pub record AgentDecision (F : Type 0) : Type 0 where
  pub id : String
  pub job_id : String
  pub agent_name : String
  pub decision_type : String
  pub decision_json : Fields F
  pub reason : String
  pub confidence : Option F
  pub created_at : DateTime

pub record QualityReport (F : Type 0) : Type 0 where
  pub id : String
  pub job_id : String
  pub status : String
  pub checks_json : Fields F
  pub warnings_json : List (Json F)
  pub recommendations_json : List (Json F)
  pub created_at : DateTime
