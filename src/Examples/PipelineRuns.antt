-- ===== src/Examples/PipelineRuns.antt =====
-- A Worker that makes subtitles on one computer.
use media_orchard.Prelude.{String, ◌≡◌, refl, ◌⊎◌, All, true, false, none, some, [], ◌∷◌, arith}
use media_orchard.Prelude.Results.{ok, err}
use media_orchard.Prelude.Int.{ℤ, pos}
use media_orchard.Prelude.Json.{Fields, str, int, arr, obj, nil, cons, end, field}
use media_orchard.Shared.Texts.{split_on}
use media_orchard.Shared.Paths.{path_name, last_part}
use media_orchard.Worker.Agent.{Metrics}
use media_orchard.Worker.Execution.{is_failed, required_step_str}
use media_orchard.Worker.Machine.{base, ◌/◌, name_of, write_text, write_json}
use media_orchard.Worker.MockPipeline.{
  Request, PipelineResult, unsupported_outputs, write_log, mock_prepare, mock_collect, mock_finish,
  run_checked, run_mock_video_to_subtitle_pipeline,
}
use media_orchard.Worker.MockPipeline.Completion.{run_mock-completes}
use media_orchard.Worker.MockPipeline.Outputs.{published_name, published_text, run_mock-publishes}
use media_orchard.Worker.RealPipeline.{
  make_media, run_supported, run_real_video_to_subtitle_pipeline,
}
use media_orchard.Worker.Transcripts.{
  read_payload, segments_of, write_transcript, write_human_report, report_and_judge, publish,
}
use media_orchard.Worker.Quality.{
  all_passed, build_quality_report, non_empty, has_logs, quality_checks,
}
use media_orchard.Worker.Commands.{Tools, run_command}
use media_orchard.Worker.RealPipeline.Delivery.{IsComplete, run_real-IsComplete}
use media_orchard.Worker.Srt.{
  srt_fields, srt_text, format_srt_timestamp, float_of, stripped_text, segment_chunk,
  segment_chunks, segments_to_srt, floor_divmod,
}
use media_orchard.Worker.Claims.{
  claimed_request, claimed_input, claimed_outputs, claimed_language, required_json_str, texts_of,
}
use media_orchard.Worker.Runtime.{
  WorkerRuntimeConfig, check_tool, run_pipeline, claimed_output, run_claimed_pipeline_step,
}
use media_orchard.Worker.Runtime.Outputs.{HasOutputs, run_claimed-HasOutputs}
use media_orchard.Worker.Polling.{Environment, run_worker, limit}
use media_orchard.Worker.Polling.Rounds.{fixed_run, run_worker-rounds}
use media_orchard.Examples.Fixtures.{hundredths, local_fs}
use media_orchard.Examples.Machines.{desk, no_files, desk-KeepsFiles, desk-NeverFails}

abbrev request : Request
request = record {
  input_file = "/srv/in.mp4";
  output_dir = "/srv/out";
  work_dir = "/srv/work";
  requested_outputs = "srt" ∷ "json" ∷ [];
  language = none;
  job_id = "job_1";
}

abbrev tools : Tools
tools = record { python_executable = "python3"; whisper_model = "tiny"; timeout_seconds = pos 120 }

mock_run :
    (result : PipelineResult ℤ) × ((run_mock_video_to_subtitle_pipeline hundredths desk request
        no_files).0
      ≡ ok result)
    × (result.status ≡ "completed")
unfolding run_mock_video_to_subtitle_pipeline run_checked unsupported_outputs mock_prepare
    mock_collect mock_finish write_log write_text write_json
mock_run = (_, refl, refl)

run_mock-publishes_example :
    (run_mock_video_to_subtitle_pipeline hundredths desk request no_files).1
      (base "/srv/out" / published_name "srt")
    ≡ some (published_text hundredths desk request "srt")
run_mock-publishes_example =
    run_mock-publishes hundredths desk request desk-KeepsFiles no_files mock_run.0 mock_run.1
      mock_run.2 "srt" refl

real_run :
    (result : PipelineResult ℤ) × ((run_real_video_to_subtitle_pipeline desk tools hundredths
        request no_files).0
      ≡ ok result)
unfolding run_real_video_to_subtitle_pipeline run_supported unsupported_outputs make_media
    run_command read_payload segments_of write_transcript write_human_report report_and_judge
    publish quality_checks all_passed build_quality_report non_empty has_logs write_text write_json
    srt_fields srt_text format_srt_timestamp float_of stripped_text segment_chunk segment_chunks
    segments_to_srt floor_divmod name_of path_name last_part split_on
real_run = (_, refl)

run_real-IsComplete_example :
    IsComplete desk
      (base "/srv/out")
      real_run.0
      (run_real_video_to_subtitle_pipeline desk tools hundredths request no_files).1
    × All (λ (o : String). (o ≡ "txt") ⊎ (o ≡ "json") ⊎ (o ≡ "srt")) ("srt" ∷ "json" ∷ [])
run_real-IsComplete_example =
    run_real-IsComplete desk desk-KeepsFiles tools hundredths request no_files real_run.0 real_run.1

abbrev step : Fields ℤ
step = field "id" (str "step_1") (
    field "job_id" (str "job_1") (
      field "tool_name" (str "video_to_subtitle_pipeline") (
        field "assignment_epoch" (int (pos 1)) (
          field "input_json"
            (obj (
              field "input_file" (str "/srv/in.mp4") (
                field "output_dir" (str "/srv/out") (
                  field "work_dir" (str "/srv/work") (
                    field "requested_outputs" (arr (cons (str "srt") (cons (str "json") nil)))
                      end)))))
            end))))

abbrev pub config : WorkerRuntimeConfig ℤ
config = record {
  node_id = "mini";
  node_name = "Mac mini";
  shared_root = "/srv/media";
  controller_url = "http://127.0.0.1:8000";
  api_key = "key";
  max_ffmpeg_jobs = pos 1;
  max_whisper_jobs = pos 1;
  poll_once = false;
  max_polls = some (pos 2);
  claim_interval_seconds = pos 200;
  execute_claimed_steps = true;
  execution_mode = "deterministic";
  python_executable = "python3";
  whisper_model = "tiny";
  tool_timeout_seconds = pos 120;
}

claimed_run :
    (output : Fields ℤ) × ((run_claimed_pipeline_step hundredths desk config step no_files).0
      ≡ ok output)
    × (is_failed output ≡ false)
unfolding run_claimed_pipeline_step check_tool run_pipeline claimed_output claimed_request
    claimed_input claimed_outputs claimed_language required_json_str required_step_str texts_of
    is_failed run_mock_video_to_subtitle_pipeline run_checked unsupported_outputs mock_prepare
    mock_collect mock_finish write_log write_text write_json
claimed_run = (_, refl, refl)

run_claimed-HasOutputs_example :
    (request : Request) × (claimed_request step ≡ ok request)
    × HasOutputs desk request (run_claimed_pipeline_step hundredths desk config step no_files).1
run_claimed-HasOutputs_example =
    run_claimed-HasOutputs hundredths desk desk-KeepsFiles config step no_files claimed_run.0
      claimed_run.1 claimed_run.2

abbrev idle : Metrics ℤ
idle = record {
  cpu_percent = pos 0;
  memory_percent = pos 0;
  free_disk_gb = pos 100;
  active_jobs = pos 0;
  active_ffmpeg_jobs = pos 0;
  active_whisper_jobs = pos 0;
  thermal_state = "unknown";
  on_battery = false;
}

abbrev environment : Environment ℤ
environment = record {
  fs = local_fs;
  post = λ log p. ok none;
  metrics = λ log. ok idle;
  runner = λ log claimed. err "no runner";
  text = λ value. "";
}

two_polls : limit config ≡ some 2
unfolding limit
two_polls = refl

run_worker-rounds_example :
    run_worker hundredths environment config 10 [] ≡ fixed_run hundredths environment config 2 []
run_worker-rounds_example =
    run_worker-rounds hundredths environment config 2 10 [] two_polls (omega arith)

run_mock-completes_example :
    (result : PipelineResult ℤ) × ((run_mock_video_to_subtitle_pipeline hundredths desk request
        no_files).0
      ≡ ok result)
    × (result.status ≡ "completed")
run_mock-completes_example =
    run_mock-completes hundredths desk request desk-NeverFails (refl, (refl, tt)) no_files
