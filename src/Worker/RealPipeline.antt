-- ===== src/Worker/RealPipeline.antt =====
-- mediaorchard/worker/real_media_smoke.py: the pipeline that runs ffprobe, ffmpeg and Whisper.
pub mod Delivery
use media_orchard.Prelude.{String, Bool, not, none, some, List, [], ◌∷◌, if◌then◌else◌, is_empty}
use media_orchard.Prelude.Actions.{Action, pure, raise, gets, ◌>>=◌, ◌>>◌}
use media_orchard.Prelude.Floats.{Floats}
use media_orchard.Shared.Texts.{concat}
use media_orchard.Worker.Machine.{Machine, FilePath, base, ◌/◌, name_of, write_text}
use media_orchard.Worker.MockPipeline.{
  Request, PipelineResult, unsupported_outputs, unsupported_message, or_auto,
}
use media_orchard.Worker.Quality.{build_quality_report}
use media_orchard.Worker.Commands.{Tools, transcribe_code, run_command}
use media_orchard.Worker.Transcripts.{Target, publish}

module _ {F S : Type 0} (m : Machine F S) (tools : Tools) (fl : Floats F) (request : Request) where
  abbrev out : FilePath
  out = base request.output_dir

  abbrev work : FilePath
  work = base request.work_dir

  abbrev source : FilePath
  source = m.resolve (base request.input_file)

  -- From `output_path.mkdir` to the end of the third command.
  unfoldable pub make_media : Action S (Unit {0})
  unfolding run_command
  make_media =
      m.mkdir out
      >> m.mkdir work
      >> m.mkdir (out / "logs")
      >> (run_command m tools "ffprobe"
            ("ffprobe"
              ∷ "-v"
              ∷ "error"
              ∷ "-print_format"
              ∷ "json"
              ∷ "-show_format"
              ∷ "-show_streams"
              ∷ m.render source
              ∷ [])
            (out / "logs")
          >>= λ stdout. write_text m (out / "input_meta.json") stdout)
      >> run_command m tools "ffmpeg_extract_audio"
          ("ffmpeg"
            ∷ "-y"
            ∷ "-i"
            ∷ m.render source
            ∷ "-vn"
            ∷ "-ac"
            ∷ "1"
            ∷ "-ar"
            ∷ "16000"
            ∷ m.render (out / "audio.wav")
            ∷ [])
          (out / "logs")
      >> run_command m tools "mlx_whisper"
          (tools.python_executable
            ∷ "-c"
            ∷ transcribe_code
            ∷ m.render (out / "audio.wav")
            ∷ m.render (work / "whisper_result.json")
            ∷ tools.whisper_model
            ∷ or_auto request.language
            ∷ [])
          (out / "logs")
      >> pure tt

  abbrev real_target : Target
  real_target = record {
    output_dir = out;
    work_dir = work;
    job_id = request.job_id;
    input_name = name_of source;
    whisper_model = tools.whisper_model;
  }

  abbrev pub real_result : String → List (String × Bool) → PipelineResult F
  real_result text checks = record {
    status = "completed";
    steps = "ffprobe" ∷ "ffmpeg_extract_audio" ∷ "mlx_whisper" ∷ [];
    output_dir = out;
    work_dir = work;
    error_message = none;
    quality_report = some (build_quality_report checks);
  }

  -- From `source = …` on.
  unfoldable pub run_supported : Action S (PipelineResult F)
  unfolding make_media publish
  run_supported =
      (gets (m.exists source) >>= λ found.
      if found then pure tt else raise (concat ("input does not exist: " ∷ m.render source ∷ [])))
      >> make_media
      >> publish m fl real_target real_result

  unfoldable pub run_real_video_to_subtitle_pipeline : Action S (PipelineResult F)
  unfolding unsupported_outputs run_supported
  run_real_video_to_subtitle_pipeline =
      (if is_empty (unsupported_outputs request.requested_outputs)
        then pure tt
        else raise (unsupported_message (unsupported_outputs request.requested_outputs)))
      >> run_supported
