-- ===== src/Examples/WorkerRuns.antt =====
-- A Worker whose Controller answers every post.
use media_orchard.Prelude.{List, String, ◌≡◌, refl, none, []}
use media_orchard.Prelude.Results.{ok}
use media_orchard.Prelude.Int.{ℤ, pos}
use media_orchard.Prelude.Json.{Json, Fields, int, str, end, field}
use media_orchard.Shared.Paths.{resolve_allowlisted_path}
use media_orchard.Shared.Texts.{split_on}
use media_orchard.Worker.Executor.{
  ToolExecutionContext, extract_audio, required_str, resolve_existing, resolve_output, build_argv,
}
use media_orchard.Worker.Executor.Confinement.{IsConfined, build_argv-IsConfined}
use media_orchard.Worker.Execution.{
  Transport, StepRunner, execute_claimed_step, required_step_str, required_step_int,
}
use media_orchard.Worker.Execution.Reports.{IsReport, execute_claimed_step-IsReport}
use media_orchard.Examples.Fixtures.{hundredths, local_fs}

abbrev answering : Transport ℤ
answering log p = ok none

abbrev finishing : StepRunner ℤ
finishing step = ok (field "status" (str "completed") end)

abbrev claimed : Fields ℤ
claimed = field "id" (str "step_1") (field "assignment_epoch" (int (pos 1)) end)

abbrev no_text : Json ℤ → String
no_text value = ""

has_id : required_step_str claimed "id" ≡ ok "step_1"
unfolding required_step_str
has_id = refl

has_epoch : required_step_int claimed "assignment_epoch" ≡ ok (int (pos 1))
unfolding required_step_int
has_epoch = refl

execute_claimed_step-IsReport_example :
    IsReport hundredths no_text answering finishing claimed "step_1"
      (int (pos 1))
      []
      (execute_claimed_step hundredths no_text answering finishing claimed [])
execute_claimed_step-IsReport_example =
    execute_claimed_step-IsReport hundredths no_text answering finishing claimed "step_1"
      (int (pos 1)) [] has_id has_epoch

abbrev args : Fields ℤ
args =
    field "input_file" (str "/srv/media/in.mp4")
      (field "output_audio" (str "/srv/media/work/job_1/audio.wav") end)

abbrev context : ToolExecutionContext
context = record {
  job_id = "job_1";
  step_id = "step_1";
  node_id = "node_1";
  log_dir = "/srv/media/logs/job_1";
  shared_root = "/srv/media";
  work_dir = "/srv/media/work/job_1";
  output_dir = "/srv/media/output/job_1";
}

built : (argv : List String) × ((build_argv local_fs args context extract_audio).0 ≡ ok argv)
unfolding build_argv required_str resolve_existing resolve_output resolve_allowlisted_path split_on
built = (_, refl)

build_argv-IsConfined_example : IsConfined local_fs args context extract_audio built.0
build_argv-IsConfined_example =
    build_argv-IsConfined local_fs args context extract_audio built.0 built.1
