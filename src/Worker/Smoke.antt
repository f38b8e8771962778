-- ===== src/Worker/Smoke.antt =====
-- `run_real_media_smoke` of mediaorchard/worker/real_media_smoke.py: the commands of the real pipeline
-- on a video that it makes itself.
pub mod Delivery
use media_orchard.Prelude.{String, Bool, List, [], ◌∷◌}
use media_orchard.Prelude.Actions.{Action, pure, ◌>>=◌, ◌>>◌}
use media_orchard.Prelude.Json.{Fields}
use media_orchard.Prelude.Floats.{Floats}
use media_orchard.Worker.Machine.{Machine, FilePath, ◌/◌, write_text}
use media_orchard.Worker.Quality.{build_quality_report}
use media_orchard.Worker.Commands.{Tools, transcribe_code, run_command}
use media_orchard.Worker.Transcripts.{Target, publish}

pub record RealMediaSmokeResult (F : Type 0) : Type 0 where
  pub status : String
  pub output_dir : FilePath
  pub transcript_text : String
  pub quality_report : Fields F

-- The keyword arguments that the other pipeline does not have.
pub record Speech : Type 0 where
  pub root : FilePath
  pub voice : String
  pub phrase : String

module _ {F S : Type 0} (m : Machine F S) (tools : Tools) (fl : Floats F) (speech : Speech) where
  abbrev pub smoke_out : FilePath
  smoke_out = speech.root / "output" / "real_smoke"

  abbrev smoke_work : FilePath
  smoke_work = speech.root / "work" / "real_smoke"

  -- The first two commands: a spoken text and a video of it.
  unfoldable pub make_input : Action S (Unit {0})
  make_input =
      run_command m tools "say"
        ("say"
          ∷ "-v"
          ∷ speech.voice
          ∷ "-o"
          ∷ m.render (smoke_work / "speech.aiff")
          ∷ speech.phrase
          ∷ [])
        (smoke_out / "logs")
      >> run_command m tools "ffmpeg_generate"
          ("ffmpeg"
            ∷ "-y"
            ∷ "-f"
            ∷ "lavfi"
            ∷ "-i"
            ∷ "color=c=black:s=320x240:d=4"
            ∷ "-i"
            ∷ m.render (smoke_work / "speech.aiff")
            ∷ "-shortest"
            ∷ "-c:v"
            ∷ "libx264"
            ∷ "-pix_fmt"
            ∷ "yuv420p"
            ∷ "-c:a"
            ∷ "aac"
            ∷ m.render (smoke_work / "demo.mp4")
            ∷ [])
          (smoke_out / "logs")
      >> pure tt

  -- The other three.
  unfoldable pub process_input : Action S (Unit {0})
  process_input =
      (run_command m tools "ffprobe"
          ("ffprobe"
            ∷ "-v"
            ∷ "error"
            ∷ "-print_format"
            ∷ "json"
            ∷ "-show_format"
            ∷ "-show_streams"
            ∷ m.render (smoke_work / "demo.mp4")
            ∷ [])
          (smoke_out / "logs")
        >>= λ stdout. write_text m (smoke_out / "input_meta.json") stdout)
      >> run_command m tools "ffmpeg_extract_audio"
          ("ffmpeg"
            ∷ "-y"
            ∷ "-i"
            ∷ m.render (smoke_work / "demo.mp4")
            ∷ "-vn"
            ∷ "-ac"
            ∷ "1"
            ∷ "-ar"
            ∷ "16000"
            ∷ m.render (smoke_out / "audio.wav")
            ∷ [])
          (smoke_out / "logs")
      >> run_command m tools "mlx_whisper"
          (tools.python_executable
            ∷ "-c"
            ∷ transcribe_code
            ∷ m.render (smoke_out / "audio.wav")
            ∷ m.render (smoke_work / "whisper_result.json")
            ∷ tools.whisper_model
            ∷ [])
          (smoke_out / "logs")
      >> pure tt

  abbrev pub smoke_result : String → List (String × Bool) → RealMediaSmokeResult F
  smoke_result text checks = record {
    status = "completed";
    output_dir = smoke_out;
    transcript_text = text;
    quality_report = build_quality_report checks;
  }

  abbrev smoke_target : Target
  smoke_target = record {
    output_dir = smoke_out;
    work_dir = smoke_work;
    job_id = "real_smoke";
    input_name = "demo.mp4";
    whisper_model = tools.whisper_model;
  }

  unfoldable pub run_real_media_smoke : Action S (RealMediaSmokeResult F)
  run_real_media_smoke =
      m.mkdir smoke_out
      >> m.mkdir smoke_work
      >> m.mkdir (smoke_out / "logs")
      >> make_input
      >> process_input
      >> publish m fl smoke_target smoke_result
