-- ===== src/Worker/MockPipeline/Completion.antt =====
-- The deterministic pipeline completes.
use media_orchard.Prelude.{String, ◌≡◌, refl, ap, ◌≢◌, true, not, List, [], ◌∷◌, select, All}
use media_orchard.Prelude.Results.{Result, ok}
use media_orchard.Prelude.Actions.{pure, continue, ◌>>◌}
use media_orchard.Prelude.Floats.{Floats}
use media_orchard.Shared.Texts.{has_text, sorted_set}
use media_orchard.Worker.Machine.{Machine, write_json}
use media_orchard.Worker.Machine.Success.{
  NeverFails, Succeeds, Succeeds-mkdir, Succeeds-write_text, succeeds_rules,
}
use media_orchard.Worker.MockPipeline.{
  Request, PipelineResult, supported_outputs, unsupported_outputs, write_log, mock_prepare,
  mock_collect, mock_finish, run_checked, run_mock_video_to_subtitle_pipeline,
}

none-selected :
    (requested : List String)
    → All (λ o. has_text o supported_outputs ≡ true) requested
    → select (λ t. not (has_text t supported_outputs)) requested ≡ []
none-selected [] h = refl
none-selected (o ∷ requested) (h, hs) = rw (h, none-selected requested hs) refl

some_texts : (t : String) (ts : List String) → t ∷ ts ≢ []
some_texts t ts e = cc

continued-result :
    {S A B : Type 0} {r : Result String A} {a : A}
    → r ≡ ok a
    → (s : S) (b : B) → (continue r (λ _. pure b) s).0 ≡ ok b
continued-result e s b = rw e refl

module _ {F S : Type 0} (fl : Floats F) (m : Machine F S) (request : Request)
    (fine : NeverFails m) where
  work-Succeeds :
      Succeeds (mock_prepare fl m request >> mock_collect fl m request >> mock_finish fl m request)
  unfolding mock_prepare mock_collect mock_finish write_log write_json
  work-Succeeds = search (succeeds_rules, Succeeds-mkdir fine, Succeeds-write_text fine) depth 40

  pipeline-Succeeds :
      (result : PipelineResult F) (s : S)
      → ((mock_prepare fl m request
            >> mock_collect fl m request
            >> mock_finish fl m request
            >> pure result)
          s).0
        ≡ ok result
  pipeline-Succeeds result s = continued-result (work-Succeeds.at s).1 _ result

  checked-completes :
      (unsupported : List String)
      → unsupported ≡ []
      → (s : S)
      → (result : PipelineResult F) × ((run_checked fl m request unsupported s).0 ≡ ok result)
        × (result.status ≡ "completed")
  unfolding run_checked
  checked-completes [] e s = (_, pipeline-Succeeds _ s, refl)
  checked-completes (t ∷ ts) e s = elim (some_texts t ts e) [ ]

  -- On a computer where no directory and no file fails to be written: if every requested output is a
  -- supported one, the pipeline returns with the status completed.
  pub run_mock-completes :
      All (λ o. has_text o supported_outputs ≡ true) request.requested_outputs
      → (s : S)
      → (result : PipelineResult F) × ((run_mock_video_to_subtitle_pipeline fl m request s).0
          ≡ ok result)
        × (result.status ≡ "completed")
  unfolding run_mock_video_to_subtitle_pipeline unsupported_outputs
  run_mock-completes h =
      checked-completes (unsupported_outputs request.requested_outputs)
        (ap sorted_set (none-selected request.requested_outputs h))
