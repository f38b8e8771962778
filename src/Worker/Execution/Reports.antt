-- ===== src/Worker/Execution/Reports.antt =====
-- What a Worker that runs a Step tells the Controller.
use media_orchard.Prelude.{
  String, ◌≡◌, inl, inr, true, false, Option, List, [], ◌∷◌, ◌++◌, Bool-cases,
}
use media_orchard.Prelude.Results.{Result-cases, Result, ok, err}
use media_orchard.Prelude.Floats.{Floats}
use media_orchard.Prelude.Json.{Json, Fields}
use media_orchard.Worker.Agent.{Post, start, complete, fail}
use media_orchard.Worker.Execution.{
  Transport, StepRunner, required_step_str, required_step_int, is_failed, failure_message, sent,
  after_start, try_step, or_report, execute_claimed_step,
}

module _ {F : Type 0} (fl : Floats F) (text : Json F → String) (post : Transport F)
    (run : StepRunner F) (step : Fields F) where
  -- The Controller answers this post, after these.
  abbrev IsAnswered : List (Post F) → Post F → Type 0
  IsAnswered log p = (reply : Option (Fields F)) × (post log p ≡ ok reply)

  module _ (id : String) (epoch : Json F) (log : List (Post F)) where
    abbrev begun : List (Post F)
    begun = log ++ (start id epoch ∷ [])

    -- The second post, by what the runner returned.
    pub data IsVerdict : Post F → Type 0 where
      success :
          (output : Fields F)
          → run step ≡ ok output
          → is_failed output ≡ false
          → IsVerdict (complete id epoch output)
      failure :
          (output : Fields F)
          → run step ≡ ok output
          → is_failed output ≡ true
          → IsVerdict (fail id epoch (failure_message fl text output))

    -- The ways in which the posts of one Step go.
    pub data IsReport : Result String (Unit {0}) × List (Post F) → Type 0 where
      told :
          (p : Post F)
          → IsAnswered log (start id epoch)
          → IsVerdict p
          → IsAnswered begun p
          → IsReport (ok tt, begun ++ (p ∷ []))
      unheard :
          (p : Post F) (message : String)
          → IsAnswered log (start id epoch)
          → IsVerdict p
          → post begun p ≡ err message
          → IsReport
              (sent fl text post run step id epoch (begun ++ (p ∷ [])) (fail id epoch message))
      not_started :
          (message : String)
          → post log (start id epoch) ≡ err message
          → IsReport (sent fl text post run step id epoch begun (fail id epoch message))
      crashed :
          (message : String)
          → IsAnswered log (start id epoch)
          → run step ≡ err message
          → IsReport (sent fl text post run step id epoch begun (fail id epoch message))

    sent-IsReport :
        (p : Post F)
        → IsAnswered log (start id epoch)
        → IsVerdict p
        → IsReport
            (or_report fl text post run step id epoch (sent fl text post run step id epoch begun p))
    unfolding or_report
    sent-IsReport p a v = elim (Result-cases (post begun p)) [
      | inl (e, h) ↦ rw h (unheard p e a v h)
      | inr (r, h) ↦ rw h (told p a v (r, h))
    ]

    after_start-IsReport :
        IsAnswered log (start id epoch)
        → IsReport (
            or_report fl text post run step id epoch
              (after_start fl text post run step id epoch begun))
    unfolding after_start or_report
    after_start-IsReport a = elim (Result-cases (run step)) [
      | inl (e, h) ↦ rw (h, or_report, after_start) (crashed e a h)
      | inr (output, h) ↦ elim (Bool-cases (is_failed output)) [
        | inl f ↦ rw (h, f, after_start) (sent-IsReport _ a (failure output h f))
        | inr f ↦ rw (h, f, after_start) (sent-IsReport _ a (success output h f))
      ]
    ]

    try_step-IsReport :
        IsReport
          (or_report fl text post run step id epoch (try_step fl text post run step id epoch log))
    unfolding try_step or_report
    try_step-IsReport = elim (Result-cases (post log (start id epoch))) [
      | inl (e, h) ↦ rw (h, or_report, try_step) (not_started e h)
      | inr (r, h) ↦ rw (h, try_step) (after_start-IsReport (r, h))
    ]

    -- The posts go as `IsReport` says. A Worker that runs a Step with an id and an epoch always starts it first. If that is answered
    -- and the runner returns, it posts a completion, or a failure if the output says so, and ends
    -- normally if that is answered. If the start, the runner or that second post raises, the last
    -- post is a failure with the exception's message. Every post has the id and the epoch.
    pub execute_claimed_step-IsReport :
        required_step_str step "id" ≡ ok id
        → required_step_int step "assignment_epoch" ≡ ok epoch
        → IsReport (execute_claimed_step fl text post run step log)
    unfolding execute_claimed_step
    execute_claimed_step-IsReport i e = rw (i, e, execute_claimed_step) try_step-IsReport
