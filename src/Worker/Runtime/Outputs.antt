-- ===== src/Worker/Runtime/Outputs.antt =====
-- The files that are there when a Worker's pipeline has completed.
use media_orchard.Prelude.{
  String, ◌≡◌, refl, ap, ◌∙◌, inl, inr, Bool, true, false, not, [], ◌∷◌, ◌==◌, eq_iff,
  if◌then◌else◌, Bool-cases, All,
}
use Prim.Native.String
use text.Mathlib.TextLemmas.{append-ne-nil_of_right_ne-nil}
use media_orchard.Prelude.Results.{ok}
use media_orchard.Prelude.Actions.{
  Always, Always-last, Always-map, Always-returning, choice-Always, raise-Always, pure, ◌>>=◌,
}
use media_orchard.Prelude.Floats.{Floats}
use media_orchard.Prelude.Json.{Fields}
use media_orchard.Shared.Texts.{concat, has_text, All-members, members-All}
use media_orchard.Worker.Execution.{is_failed}
use media_orchard.Worker.Machine.{Machine, KeepsFiles, base, ◌/◌}
use media_orchard.Worker.MockPipeline.{
  Request, PipelineResult, supported_outputs, mock_transcript, mock_transcript_json, mock_subtitle,
  run_mock_video_to_subtitle_pipeline,
}
use media_orchard.Worker.MockPipeline.Outputs.{
  published_name, published_text, run_mock-publishes, supported, output-cases,
}
use media_orchard.Worker.RealPipeline.{run_real_video_to_subtitle_pipeline}
use media_orchard.Worker.Quality.{has_content, non_empty}
use media_orchard.Worker.RealPipeline.Delivery.{run_real-HasPublished}
use media_orchard.Worker.Transcripts.Delivery.{HasPublished, artifact_names}
use media_orchard.Worker.Claims.{claimed_request}
use media_orchard.Worker.Runtime.{
  WorkerRuntimeConfig, tools, check_tool, run_pipeline, claimed_output, run_claimed_pipeline_step,
}

-- Each requested output is a file with content in the output directory.
unfoldable pub HasOutputs : {F S : Type 0} → Machine F S → Request → S → Type 0
HasOutputs m request s =
    All (λ o. non_empty m (base request.output_dir / published_name o) s ≡ true)
      request.requested_outputs

append-some : (a b : String) → (b == "") ≡ false → (String.◌++◌ a b == "") ≡ false
append-some a b h = elim (Bool-cases (String.◌++◌ a b == "")) [
  | inl e ↦
      elim (append-ne-nil_of_right_ne-nil a (λ n. cc (ap (λ x. x == "") n)) ((eq_iff _ _).0 e)) [ ]
  | inr e ↦ e
]

if-some :
    (b : Bool) (x y : String)
    → (x == "") ≡ false
    → (y == "") ≡ false
    → ((if b then x else y) == "") ≡ false
if-some true x y g h = g
if-some false x y g h = h

published_text-some :
    {F S : Type 0} (fl : Floats F) (m : Machine F S) (request : Request) (o : String)
    → (published_text fl m request o == "") ≡ false
unfolding published_text mock_subtitle
published_text-some fl m request o =
    if-some (o == "txt") (concat (mock_transcript request ∷ "\n" ∷ [])) _
      (append-some (mock_transcript request) "\n" refl)
      (if-some (o == "json") (concat (m.dumps (mock_transcript_json fl m request) ∷ "\n" ∷ []))
        (mock_subtitle request)
        (append-some (m.dumps (mock_transcript_json fl m request)) "\n" refl)
        (append-some _ _ (append-some (mock_transcript request) "\n" refl)))

-- A supported output is one of the files that the real pipeline's quality report asks for.
published_name-artifact :
    (o : String)
    → has_text o supported_outputs ≡ true
    → has_text (published_name o) artifact_names ≡ true
unfolding published_name
published_name-artifact o v = elim (output-cases o v) [
  | inl e ↦ rw e refl
  | inr (inl e) ↦ rw e refl
  | inr (inr e) ↦ rw e refl
]

module _ {F S : Type 0} (fl : Floats F) (m : Machine F S) (files : KeepsFiles m)
    (config : WorkerRuntimeConfig F) where
  mock-HasOutputs :
      (request : Request)
      → Always
          (λ result s. result.status ≡ "completed" → HasOutputs m request s)
          (run_mock_video_to_subtitle_pipeline fl m request)
  unfolding HasOutputs non_empty
  mock-HasOutputs request = record {
    at = λ s result f c. All-members _ request.requested_outputs (λ o h.
        ap has_content (run_mock-publishes fl m request files s result f c o h)
        ∙ ap not (published_text-some fl m request o));
  }

  real-HasOutputs :
      (request : Request)
      → Always
          (λ result s. HasOutputs m request s)
          (run_real_video_to_subtitle_pipeline m (tools fl m config) fl request)
  unfolding HasOutputs HasPublished
  real-HasOutputs request = record {
    at = λ s result f.
        let ((_, _, _, delivered), u) =
          run_real-HasPublished m files (tools fl m config) fl request s result f in
        All-members _ request.requested_outputs (λ o h.
          members-All
            (λ name.
              non_empty m (base request.output_dir / name)
                (run_real_video_to_subtitle_pipeline m (tools fl m config) fl request s).1
              ≡ true)
            artifact_names (published_name o) delivered.files
            (published_name-artifact o (supported request.requested_outputs o u h)));
  }

  pipeline-HasOutputs :
      (request : Request)
      → Always
          (λ result s. result.status ≡ "completed" → HasOutputs m request s)
          (run_pipeline fl m config request)
  unfolding run_pipeline
  pipeline-HasOutputs request =
      choice-Always (config.execution_mode == "real") _ _
        (λ _. record { at = λ s result f c. (real-HasOutputs request).at s result f })
        (λ _.
          choice-Always (config.execution_mode == "deterministic") _ _
            (λ _. mock-HasOutputs request) (λ _. raise-Always _))

  not_failed :
      (result : PipelineResult F)
      → is_failed (claimed_output fl m config result) ≡ false
      → result.status ≡ "completed"
  unfolding claimed_output is_failed
  not_failed result h = elim (Bool-cases (result.status == "completed")) [
    | inl e ↦ (eq_iff _ _).0 e
    | inr e ↦ cc (rw (e, claimed_output) at h)
  ]

  after_pipeline :
      (request : Request)
      → Always
          (λ output s. is_failed output ≡ false → HasOutputs m request s)
          (run_pipeline fl m config request >>= λ result. pure (claimed_output fl m config result))
  after_pipeline request =
      Always-map (run_pipeline fl m config request) (claimed_output fl m config)
        (pipeline-HasOutputs request) (λ result s has h. has (not_failed result h))

  claimed-HasOutputs :
      (step : Fields F)
      → Always
          (λ output s.
            is_failed output ≡ false
            → (request : Request) × (claimed_request step ≡ ok request) × HasOutputs m request s)
          (run_claimed_pipeline_step fl m config step)
  unfolding run_claimed_pipeline_step
  claimed-HasOutputs step = Always-last (check_tool fl m config step) _ (λ _.
      Always-returning (claimed_request step) _ (λ request r. record {
        at = λ s output f h. (request, r, (after_pipeline request).at s output f h);
      }))

  -- In either mode, on a machine that keeps files: when the runner of a claimed Step has returned an
  -- output that is not a failure, every output that the Step requests is a file with content in the
  -- Step's output directory.
  pub run_claimed-HasOutputs :
      (step : Fields F) (s : S) (output : Fields F)
      → (run_claimed_pipeline_step fl m config step s).0 ≡ ok output
      → is_failed output ≡ false
      → (request : Request) × (claimed_request step ≡ ok request)
        × HasOutputs m request (run_claimed_pipeline_step fl m config step s).1
  run_claimed-HasOutputs step = (claimed-HasOutputs step).at
