-- ===== src/Worker/RealPipeline/Delivery.antt =====
-- What is on the disk when the pipeline of real_media_smoke.py has completed.
use media_orchard.Prelude.{
  String, ◌≡◌, refl, sym, ap, subst, ◌≢◌, ◌⊎◌, Bool, true, Option, none, some, List, [], ◌∷◌, arith,
  eq_iff, and-true, All, All-map, is_empty,
}
use media_orchard.Prelude.Json.{Fields, bool, str, obj, end, field, get}
use media_orchard.Shared.Texts.{concat, All-members}
use media_orchard.Worker.Quality.{
  check_fields, all_passed, build_quality_report, has_content, non_empty,
}
use media_orchard.Prelude.Results.{ok}
use media_orchard.Prelude.Actions.{Always, checked-Always, Always-last}
use media_orchard.Prelude.Floats.{Floats}
use media_orchard.Worker.Machine.{Machine, KeepsFiles, FilePath, base, ◌/◌}
use media_orchard.Worker.MockPipeline.{Request, PipelineResult, unsupported_outputs}
use media_orchard.Worker.Transcripts.Delivery.{
  artifact_names, HasPublished, IsDelivered, publish-IsDelivered,
}
use media_orchard.Worker.MockPipeline.Outputs.{supported, output-cases}
use media_orchard.Worker.RealPipeline.{
  real_result, run_supported, run_real_video_to_subtitle_pipeline,
}
use media_orchard.Worker.Commands.{Tools}

-- All values of the object are true.
pub AllTrue : {F : Type 0} → Fields F → Type 0
AllTrue end = Unit
AllTrue (field key value fields) = (value ≡ bool true) × AllTrue fields

-- The pipeline has completed with this result: each file that it promises is there and is not empty,
-- and the quality report on the disk is the returned one, which says that all checks have passed.
pub record IsComplete {F S : Type 0} (m : Machine F S) (dir : FilePath) (result : PipelineResult F)
    (s : S) : Type 0 where
  pub status : result.status ≡ "completed"
  pub no_error : result.error_message ≡ none
  pub report : Fields F
  pub returned : result.quality_report ≡ some report
  pub on_disk : m.read (dir / "quality_report.json") s ≡ some (concat (m.dumps report ∷ "\n" ∷ []))
  pub report_passed : get "status" report ≡ some (str "passed")
  pub checks : Fields F
  pub checked : get "checks" report ≡ some (obj checks)
  pub checks_passed : AllTrue checks
  pub files :
      All
        (λ name. (content : String) × (m.read (dir / name) s ≡ some content) × (content ≢ ""))
        ("input_meta.json" ∷ "audio.wav" ∷ "transcript.txt" ∷ "transcript.json" ∷ "subtitle.srt"
          ∷ [])

all_passed-AllTrue :
    (F : Type 0) (checks : List (String × Bool))
    → all_passed checks ≡ true
    → AllTrue (check_fields {F = F} checks)
unfolding all_passed AllTrue
all_passed-AllTrue F [] h = tt
all_passed-AllTrue F ((check, passed) ∷ checks) h =
    let (now, rest) = and-true passed _ h in (ap bool now, all_passed-AllTrue F checks rest)

has_content-some :
    (file : Option String)
    → has_content file ≡ true
    → (content : String) × (file ≡ some content) × (content ≢ "")
has_content-some none h = cc
has_content-some (some content) h = (content, refl, λ e. ground (arith, eq_iff content ""))

is_empty-nil : (texts : List String) → is_empty texts ≡ true → texts ≡ []
is_empty-nil [] e = refl
is_empty-nil (t ∷ texts) e = cc

module _ {F S : Type 0} (m : Machine F S) (files : KeepsFiles m) (tools : Tools) (fl : Floats F)
    (request : Request) where
  supported-HasPublished :
      Always
        (HasPublished m (base request.output_dir) (real_result m tools fl request))
        (run_supported m tools fl request)
  unfolding run_supported
  supported-HasPublished = Always-last _ _ (λ _. publish-IsDelivered m files fl _ _)

  real-HasPublished :
      Always
        (λ result s.
          HasPublished m (base request.output_dir) (real_result m tools fl request) result s
          × (unsupported_outputs request.requested_outputs ≡ []))
        (run_real_video_to_subtitle_pipeline m tools fl request)
  unfolding run_real_video_to_subtitle_pipeline
  real-HasPublished =
      checked-Always _ _ _ (λ h. record {
        at = λ s result f. (supported-HasPublished.at s result f, is_empty-nil _ h);
      })

  pub run_real-HasPublished :
      (s : S) (result : PipelineResult F)
      → (run_real_video_to_subtitle_pipeline m tools fl request s).0 ≡ ok result
      → HasPublished m
          (base request.output_dir)
          (real_result m tools fl request)
          result
          (run_real_video_to_subtitle_pipeline m tools fl request s).1
        × (unsupported_outputs request.requested_outputs ≡ [])
  run_real-HasPublished = real-HasPublished.at

  delivered-IsComplete :
      (text : String) (checks : List (String × Bool)) (s : S)
      → IsDelivered m (base request.output_dir) checks s
      → IsComplete m (base request.output_dir) (real_result m tools fl request text checks) s
  unfolding build_quality_report non_empty
  delivered-IsComplete text checks s delivered = record {
    status = refl;
    no_error = refl;
    report = build_quality_report checks;
    returned = refl;
    on_disk = delivered.reported;
    report_passed = rw delivered.passed refl;
    checks = check_fields checks;
    checked = refl;
    checks_passed = all_passed-AllTrue F checks delivered.passed;
    files =
        All-map (λ name. non_empty m (base request.output_dir / name) s ≡ true)
          (λ name.
            (content : String) × (m.read (base request.output_dir / name) s ≡ some content)
            × (content ≢ ""))
          (λ name h. has_content-some (m.read (base request.output_dir / name) s) h) artifact_names
          delivered.files;
  }

  -- On a machine that keeps files: when the pipeline has returned, its result has the status
  -- completed and no error, every requested output is txt, json or srt, at the end the media data, the
  -- audio, both transcripts and the subtitles are files that are not empty, and the quality report on
  -- the disk is the returned one, which says passed and has every check true.
  pub run_real-IsComplete :
      (s : S) (result : PipelineResult F)
      → (run_real_video_to_subtitle_pipeline m tools fl request s).0 ≡ ok result
      → IsComplete m
          (base request.output_dir)
          result
          (run_real_video_to_subtitle_pipeline m tools fl request s).1
        × All (λ o. (o ≡ "txt") ⊎ (o ≡ "json") ⊎ (o ≡ "srt")) request.requested_outputs
  unfolding HasPublished
  run_real-IsComplete s result f =
      let ((text, checks, e, delivered), u) = run_real-HasPublished s result f in
      (
        subst
            (λ r.
              IsComplete m (base request.output_dir) r
                (run_real_video_to_subtitle_pipeline m tools fl request s).1)
            (sym e) (delivered-IsComplete text checks _ delivered),
        All-members _ request.requested_outputs
            (λ o h. output-cases o (supported request.requested_outputs o u h)),
      )
