-- ===== src/Worker/MockPipeline.antt =====
-- mediaorchard/worker/mock_pipeline.py: the deterministic pipeline.
pub mod Outputs
pub mod Completion
use media_orchard.Prelude.{
  String, Bool, true, false, not, Option, none, some, List, [], ◌∷◌, ◌==◌, if◌then◌else◌, select,
}
use media_orchard.Prelude.Actions.{Action, pure, gets, when, ◌>>=◌, ◌>>◌}
use media_orchard.Prelude.Json.{Fields, bool, float, str, arr, obj, nil, cons, end, field}
use media_orchard.Prelude.Floats.{Floats}
use media_orchard.Shared.Texts.{has_text, concat, join, sorted_set}
use media_orchard.Worker.Machine.{Machine, FilePath, base, ◌/◌, name_of, write_text, write_json}

-- MockPipelineResult; the real pipeline's result has these fields and a quality report too.
pub record PipelineResult (F : Type 0) : Type 0 where
  pub status : String
  pub steps : List String
  pub output_dir : FilePath
  pub work_dir : FilePath
  pub error_message : Option String
  pub quality_report : Option (Fields F)

-- The keyword arguments of both pipelines.
pub record Request : Type 0 where
  pub input_file : String
  pub output_dir : String
  pub work_dir : String
  pub requested_outputs : List String
  pub language : Option String
  pub job_id : String

abbrev pub supported_outputs : List String
supported_outputs = "srt" ∷ "txt" ∷ "json" ∷ []

-- sorted(set(requested_outputs) - SUPPORTED_OUTPUTS)
unfoldable pub unsupported_outputs : List String → List String
unsupported_outputs requested =
    sorted_set (select (λ t. not (has_text t supported_outputs)) requested)

-- f"unsupported outputs: {', '.join(unsupported)}"
abbrev pub unsupported_message : List String → String
unsupported_message texts = concat ("unsupported outputs: " ∷ join ", " texts ∷ [])

abbrev pub mock_steps : List String
mock_steps =
    "probe_media" ∷ "extract_audio" ∷ "transcribe_audio" ∷ "collect_outputs" ∷ "quality_check"
    ∷ "write_report" ∷ []

-- language or "auto"
abbrev pub or_auto : Option String → String
or_auto none = "auto"
or_auto (some text) = if text == "" then "auto" else text

-- transcript_text
unfoldable pub mock_transcript : Request → String
unfolding name_of
mock_transcript request =
    concat ("Mock transcript for " ∷ name_of (base request.input_file) ∷ "." ∷ [])

unfoldable pub mock_subtitle : Request → String
mock_subtitle request =
    concat ("1\n00:00:00,000 --> 00:00:02,000\n" ∷ mock_transcript request ∷ "\n" ∷ [])

module _ {F S : Type 0} (fl : Floats F) (m : Machine F S) (request : Request) where
  abbrev out : FilePath
  out = base request.output_dir

  abbrev work : FilePath
  work = base request.work_dir

  abbrev attempt : FilePath
  attempt = work / "transcribe_audio" / "attempt_1"

  -- _write_log
  unfoldable pub write_log : String → String → Action S (Unit {0})
  unfolding write_text
  write_log step message =
      write_text m (out / "logs" / concat (step ∷ ".log" ∷ [])) (concat (message ∷ "\n" ∷ []))

  unfoldable pub mock_meta : Fields F
  mock_meta = field "job_id" (str request.job_id) (
      field "input_file" (str (m.render (base request.input_file))) (
        field "duration_seconds" (float (fl.lit 40 1))
          (field "video_codec" (str "mock") (field "audio_codec" (str "mock") end))))

  unfoldable pub mock_transcript_json : Fields F
  mock_transcript_json = field "language" (str (or_auto request.language)) (
      field "text" (str (mock_transcript request)) (
        field "segments"
          (arr (
            cons
              (obj (
                field "start" (float (fl.lit 0 1)) (
                  field "end" (float (fl.lit 20 1))
                    (field "text" (str (mock_transcript request)) end))))
              nil))
          end))

  -- The steps probe_media, extract_audio and transcribe_audio, with the directories made first.
  unfoldable pub mock_prepare : Action S (Unit {0})
  mock_prepare =
      m.mkdir out
      >> m.mkdir work
      >> m.mkdir (out / "logs")
      >> write_log "probe_media" (concat ("probed " ∷ name_of (base request.input_file) ∷ []))
      >> write_json m (work / "probe_media" / "input_meta.json") mock_meta
      >> write_json m (out / "input_meta.json") mock_meta
      >> write_log "extract_audio" "created mock 16 kHz mono audio"
      >> write_text m (work / "extract_audio" / "attempt_1" / "audio.wav") "MOCK-WAV-DATA\n"
      >> write_text m (out / "audio.wav") "MOCK-WAV-DATA\n"
      >> write_log "transcribe_audio" "created mock transcript and subtitle"
      >> write_text m (attempt / "transcript.txt") (concat (mock_transcript request ∷ "\n" ∷ []))
      >> write_json m (attempt / "transcript.json") mock_transcript_json
      >> write_text m (attempt / "subtitle.srt") (mock_subtitle request)

  -- The step collect_outputs.
  unfoldable pub mock_collect : Action S (Unit {0})
  mock_collect =
      write_log "collect_outputs" "published requested outputs"
      >> when (has_text "txt" request.requested_outputs)
          (write_text m (out / "transcript.txt") (concat (mock_transcript request ∷ "\n" ∷ [])))
      >> when (has_text "json" request.requested_outputs)
          (write_json m (out / "transcript.json") mock_transcript_json)
      >> when (has_text "srt" request.requested_outputs)
          (write_text m (out / "subtitle.srt") (mock_subtitle request))

  -- path.is_file()
  abbrev is_file : FilePath → S → Bool
  is_file p s = elim (m.read p s) [ none ↦ false | some _ ↦ true ]

  unfoldable pub mock_report : S → Fields F
  mock_report s = field "status" (str "passed") (
      field "checks"
        (obj (
          field "transcript_txt_exists" (bool (is_file (out / "transcript.txt") s)) (
            field "transcript_json_exists" (bool (is_file (out / "transcript.json") s)) (
              field "subtitle_srt_exists" (bool (is_file (out / "subtitle.srt") s)) (
                field "subtitle_text_non_empty" (bool (not (m.strip (mock_subtitle request) == "")))
                  end)))))
        (field "warnings" (arr nil) (field "recommendations" (arr nil) end)))

  unfoldable pub mock_job_report : String
  mock_job_report = join "\n" (
      "# MediaOrchard Job Report"
      ∷ ""
      ∷ concat ("- Job: " ∷ request.job_id ∷ [])
      ∷ concat ("- Input: " ∷ name_of (base request.input_file) ∷ [])
      ∷ "- Status: completed"
      ∷ "- Quality: passed"
      ∷ ""
      ∷ [])

  -- The steps quality_check and write_report.
  unfoldable pub mock_finish : Action S (Unit {0})
  mock_finish =
      write_log "quality_check" "quality checks passed"
      >> (gets mock_report >>= λ report. write_json m (out / "quality_report.json") report)
      >> write_log "write_report" "wrote human-readable report"
      >> write_text m (out / "report.md") mock_job_report

  abbrev mock_result : String → List String → Option String → PipelineResult F
  mock_result status steps message = record {
    status = status;
    steps = steps;
    output_dir = out;
    work_dir = work;
    error_message = message;
    quality_report = none;
  }

  -- From `if unsupported:` on.
  unfoldable pub run_checked : List String → Action S (PipelineResult F)
  run_checked [] =
      mock_prepare >> mock_collect >> mock_finish >> pure (mock_result "completed" mock_steps none)
  run_checked (t ∷ ts) = pure (mock_result "failed" [] (some (unsupported_message (t ∷ ts))))

  unfoldable pub run_mock_video_to_subtitle_pipeline : Action S (PipelineResult F)
  unfolding run_checked unsupported_outputs
  run_mock_video_to_subtitle_pipeline = run_checked (unsupported_outputs request.requested_outputs)
