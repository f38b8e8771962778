-- ===== src/Worker/Transcripts.antt =====
-- What both runs of mediaorchard/worker/real_media_smoke.py do when the commands have ended: they
-- publish the transcript and judge the output.
pub mod Delivery
use media_orchard.Prelude.{String, Bool, none, some, List, [], ◌∷◌, if◌then◌else◌}
use media_orchard.Prelude.Results.{Result, ok, err}
use media_orchard.Prelude.Actions.{Action, pure, raise, gets, returning, ◌>>=◌, ◌>>◌}
use media_orchard.Prelude.Json.{Json, Fields, float, str, arr, obj, nil, cons, end, field, get}
use media_orchard.Prelude.Floats.{Floats}
use media_orchard.Shared.Texts.{concat, join}
use media_orchard.Worker.Execution.{is_truthy}
use media_orchard.Worker.Machine.{Machine, FilePath, ◌/◌, write_text, write_json}
use media_orchard.Worker.Quality.{
  check_fields, all_passed, quality_status, build_quality_report, quality_checks,
}
use media_orchard.Worker.Srt.{stripped_text, segments_to_srt}

-- Where and of what the output is.
pub record Target : Type 0 where
  pub output_dir : FilePath
  pub work_dir : FilePath
  pub job_id : String
  pub input_name : String
  pub whisper_model : String

module _ {F S : Type 0} (m : Machine F S) (fl : Floats F) (target : Target) where
  -- json.loads(raw_transcript_json.read_text()), which must be an object
  unfoldable pub read_payload : S → Result String (Fields F)
  read_payload s = elim (m.read (target.work_dir / "whisper_result.json") s) [
    | none ↦ err (m.no_file (target.work_dir / "whisper_result.json"))
    | some text ↦ elim (m.loads text) [
      | err e ↦ err e
      | ok (obj payload) ↦ ok payload
      | ok value ↦ err (m.bad_type value)
    ]
  ]

  abbrev default_segments : String → Json F
  default_segments text = arr (
      cons
        (obj (
          field "start" (float (fl.lit 0 1))
            (field "end" (float (fl.lit 10 1)) (field "text" (str text) end))))
        nil)

  -- payload.get("segments") or […]
  unfoldable pub segments_of : Fields F → String → Json F
  segments_of payload text = elim (get "segments" payload) [
    | none ↦ default_segments text
    | some value ↦ if is_truthy fl value then value else default_segments text
  ]

  -- The files of the transcript.
  unfoldable pub write_transcript : Fields F → String → Action S (Unit {0})
  unfolding segments_to_srt segments_of
  write_transcript payload text =
      write_text m (target.output_dir / "transcript.txt") (concat (text ∷ "\n" ∷ []))
      >> write_json m (target.output_dir / "transcript.json") (
          field "text" (str text) (
            field "segments" (segments_of payload text)
              (field "model" (str target.whisper_model) end)))
      >> (returning (segments_to_srt fl m (segments_of payload text)) >>= λ srt.
          write_text m (target.output_dir / "subtitle.srt") srt)

  -- write_human_report
  unfoldable pub write_human_report : String → List (String × Bool) → Action S (Unit {0})
  unfolding build_quality_report
  write_human_report text checks =
      write_json m (target.output_dir / "quality_report.json") (build_quality_report checks)
      >> write_text m (target.output_dir / "report.md") (
          join "\n" (
            "# MediaOrchard Real Media Smoke Report"
            ∷ ""
            ∷ concat ("- Job: " ∷ target.job_id ∷ [])
            ∷ concat ("- Input: " ∷ target.input_name ∷ [])
            ∷ concat ("- Whisper model: " ∷ target.whisper_model ∷ [])
            ∷ concat ("- Quality: " ∷ quality_status checks ∷ [])
            ∷ ""
            ∷ "## Transcript Preview"
            ∷ ""
            ∷ m.strip text
            ∷ ""
            ∷ []))

  -- From `quality_report = build_quality_report(output_path)` on; `result` makes the result.
  unfoldable pub report_and_judge : {A : Type 0} → (List (String × Bool) → A) → String → Action S A
  unfolding quality_checks write_human_report all_passed
  report_and_judge result text = gets (quality_checks m target.output_dir) >>= λ checks.
      write_human_report text checks
      >> (if all_passed checks
          then pure (result checks)
          else raise
              (concat ("quality report failed: " ∷ m.text_of (obj (check_fields checks)) ∷ [])))

  -- From `transcript_payload = …` on.
  unfoldable pub publish : {A : Type 0} → (String → List (String × Bool) → A) → Action S A
  publish result = (λ s. (read_payload s, s)) >>= λ payload.
      returning (stripped_text fl m payload) >>= λ text.
      write_transcript payload text >> report_and_judge (result text) text
