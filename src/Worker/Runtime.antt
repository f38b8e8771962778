-- ===== src/Worker/Runtime.antt =====
-- mediaorchard/cli/runtime.py: the Worker's configuration, and the pipeline that runs a claimed
-- Step.
pub mod Outputs
use media_orchard.Prelude.{String, Bool, Option, none, some, [], ◌∷◌, ◌==◌, if◌then◌else◌}
use media_orchard.Prelude.Actions.{Action, pure, raise, returning, ◌>>=◌, ◌>>◌}
use media_orchard.Prelude.Int.{ℤ}
use media_orchard.Prelude.Json.{Json, Fields, null, str, arr, obj, end, field, get}
use media_orchard.Prelude.Floats.{Floats}
use media_orchard.Shared.Texts.{concat}
use media_orchard.Worker.Claims.{claimed_request, items_of}
use media_orchard.Worker.Machine.{Machine}
use media_orchard.Worker.MockPipeline.{Request, PipelineResult, run_mock_video_to_subtitle_pipeline}
use media_orchard.Worker.RealPipeline.{run_real_video_to_subtitle_pipeline}
use media_orchard.Worker.Commands.{Tools}

-- `claim_interval_seconds` is the argument of `sleep`.
pub record WorkerRuntimeConfig (F : Type 0) : Type 0 where
  pub node_id : String
  pub node_name : String
  pub shared_root : String
  pub controller_url : String
  pub api_key : String
  pub max_ffmpeg_jobs : ℤ
  pub max_whisper_jobs : ℤ
  pub poll_once : Bool
  pub max_polls : Option ℤ
  pub claim_interval_seconds : F
  pub execute_claimed_steps : Bool
  pub execution_mode : String
  pub python_executable : String
  pub whisper_model : String
  pub tool_timeout_seconds : ℤ

module _ {F S : Type 0} (fl : Floats F) (m : Machine F S) (config : WorkerRuntimeConfig F) where
  -- step.get("tool_name") != "video_to_subtitle_pipeline"
  unfoldable pub check_tool : Fields F → Action S (Unit {0})
  check_tool step = elim (get "tool_name" step) [
    | some (str s) ↦
        if s == "video_to_subtitle_pipeline"
        then pure tt
        else raise (concat ("unsupported claimed step tool: " ∷ m.text_of (str s) ∷ []))
    | some value ↦ raise (concat ("unsupported claimed step tool: " ∷ m.text_of value ∷ []))
    | none ↦ raise (concat ("unsupported claimed step tool: " ∷ m.text_of null ∷ []))
  ]

  abbrev tools : Tools
  tools = record {
    python_executable = config.python_executable;
    whisper_model = config.whisper_model;
    timeout_seconds = config.tool_timeout_seconds;
  }

  unfoldable pub run_pipeline : Request → Action S (PipelineResult F)
  run_pipeline request =
      if config.execution_mode == "real"
      then run_real_video_to_subtitle_pipeline m tools fl request
      else if config.execution_mode == "deterministic"
      then run_mock_video_to_subtitle_pipeline fl m request
      else raise (concat ("unsupported execution mode: " ∷ config.execution_mode ∷ []))

  -- result.error_message or "pipeline failed"
  abbrev error_of : Option String → String
  error_of none = "pipeline failed"
  error_of (some message) = if message == "" then "pipeline failed" else message

  abbrev report_of : Option (Fields F) → Json F
  report_of none = null
  report_of (some report) = obj report

  unfoldable pub claimed_output : PipelineResult F → Fields F
  claimed_output result =
      if result.status == "completed"
      then field "status" (str result.status) (
          field "pipeline_steps" (arr (items_of result.steps)) (
            field "output_dir" (str (m.render result.output_dir)) (
              field "work_dir" (str (m.render result.work_dir)) (
                field "node_id" (str config.node_id)
                  (field "quality_report" (report_of result.quality_report) end)))))
      else field "status" (str "failed") (
          field "error_message" (str (error_of result.error_message)) (
            field "output_dir" (str (m.render result.output_dir))
              (field "work_dir" (str (m.render result.work_dir)) end)))

  unfoldable pub run_claimed_pipeline_step : Fields F → Action S (Fields F)
  run_claimed_pipeline_step step =
      check_tool step
      >> (returning (claimed_request step) >>= λ request.
          run_pipeline request >>= λ result. pure (claimed_output result))
