-- ===== src/Worker/Smoke/Delivery.antt =====
-- What is on the disk when the smoke test has completed.
use media_orchard.Prelude.{◌≡◌}
use media_orchard.Prelude.Results.{ok}
use media_orchard.Prelude.Actions.{Always, Always-last}
use media_orchard.Prelude.Floats.{Floats}
use media_orchard.Worker.Machine.{Machine, KeepsFiles}
use media_orchard.Worker.Commands.{Tools}
use media_orchard.Worker.Transcripts.Delivery.{HasPublished, publish-IsDelivered}
use media_orchard.Worker.Smoke.{
  Speech, RealMediaSmokeResult, smoke_out, smoke_result, run_real_media_smoke,
}

module _ {F S : Type 0} (m : Machine F S) (files : KeepsFiles m) (tools : Tools) (fl : Floats F)
    (speech : Speech) where
  smoke-HasPublished :
      Always
        (HasPublished m (smoke_out m tools fl speech) (smoke_result m tools fl speech))
        (run_real_media_smoke m tools fl speech)
  unfolding run_real_media_smoke
  smoke-HasPublished = Always-last _ _ (λ _. publish-IsDelivered m files fl _ _)

  -- On a machine that keeps files: when the smoke test has returned, its result has the status
  -- completed, the files that the quality report asks for have content, and the report on the disk is
  -- the returned one, whose checks have all passed.
  pub run_real_media_smoke-HasPublished :
      (s : S) (result : RealMediaSmokeResult F)
      → (run_real_media_smoke m tools fl speech s).0 ≡ ok result
      → HasPublished m
          (smoke_out m tools fl speech)
          (smoke_result m tools fl speech)
          result
          (run_real_media_smoke m tools fl speech s).1
  run_real_media_smoke-HasPublished = smoke-HasPublished.at
