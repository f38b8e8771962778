-- ===== src/Controller/Api/Invariants/Requests.antt =====
-- Every request, whatever its outcome, maintains an invariant.
use media_orchard.Prelude.{
  String, ◌≡◌, refl, inl, inr, Bool, true, Option, none, some, arith, ◌==◌, nat_eq, ◌&&◌,
  Bool-cases, count,
}
use media_orchard.Prelude.Int.{ℤ}
use media_orchard.Prelude.Tables.{update_where-Both}
use media_orchard.Shared.Enums.{StepStatus, running, completed, failed}
use media_orchard.Controller.Models.{Step}
use media_orchard.Controller.Api.Steps.{
  Claim, StepProgressRequest, StepCompleteRequest, StepFailRequest, is_claimable, claim_row,
  claim_found, owned_step, next_status, start_step, progress_step, complete_step, fail_step,
  claim_step, claim_next,
}
use media_orchard.Controller.Api.Server.Rows.{
  StepMoves, stay, StepMoves-one, claim, start, progress, complete, fail,
}
use media_orchard.Prelude.Results.{ok}
use media_orchard.Controller.StateMachine.{transition_step}
use media_orchard.Controller.Api.Steps.{in_transition}
use media_orchard.Controller.Api.Invariants.{
  Maintains, IsInvariant, Maintains-check, Maintains-bind, Maintains-read, Maintains-give,
  Maintains-commit, persist-Maintains, maintains_rules,
}
use media_orchard.Controller.Api.{Env, App, Db, Headers, Handler, ◌>>=◌}

in_transition-target :
    (current target status : StepStatus)
    → in_transition (transition_step current target) ≡ ok status
    → status ≡ target
unfolding transition_step
in_transition-target current target status h = ground arith

module _ {F : Type 0} {I : Db F → Type 0} (laws : IsInvariant I) (env : Env F) (app : App) where
  Maintains-target :
      {B : Type 0} (c : Claim F) (target : StepStatus) (k : StepStatus → Handler F B)
      → ((status : StepStatus) → status ≡ target → Maintains I (k status))
      → Maintains I (next_status env app c target >>= k)
  unfolding next_status
  Maintains-target c target k h =
      Maintains-check _ k
        (λ status e. h status (in_transition-target c.step.status target status e))

  owned_step-Maintains :
      (h : Headers) (id : String) (epoch : ℤ) (valid : Bool)
      → Maintains I (owned_step env app h id epoch valid)
  unfolding owned_step
  owned_step-Maintains h id epoch valid = search maintains_rules depth 20

  pub start_step-Maintains :
      (h : Headers) (id : String) (epoch : ℤ) → Maintains I (start_step env app h id epoch)
  unfolding start_step
  start_step-Maintains h id epoch = Maintains-bind _ _ (owned_step-Maintains h id epoch true) λ c.
      Maintains-target c running _ λ status e.
        Maintains-bind _ _
          (persist-Maintains laws c _ _ _
            (λ r u. start (env.clock 0) (ground arith) (ground (arith, e))))
          λ updated.
            Maintains-bind _ _ (Maintains-commit _ (laws.marked_running env updated.job_id))
              λ _. Maintains-give updated

  pub progress_step-Maintains :
      (h : Headers) (id : String) (body : StepProgressRequest F)
      → Maintains I (progress_step env app h id body)
  unfolding progress_step
  progress_step-Maintains h id body =
      Maintains-bind _ _ (owned_step-Maintains h id body.assignment_epoch _)
        λ c. persist-Maintains laws c _ _ _ (λ r u. progress _ (ground arith) refl)

  pub complete_step-Maintains :
      (h : Headers) (id : String) (body : StepCompleteRequest F)
      → Maintains I (complete_step env app h id body)
  unfolding complete_step
  complete_step-Maintains h id body =
      Maintains-bind _ _ (owned_step-Maintains h id body.assignment_epoch true) λ c.
        Maintains-target c completed _ λ status e.
          Maintains-bind _ _
            (persist-Maintains laws c _ _ _
              (λ r u. complete body.output_json (env.clock 0) (ground arith) (rw e refl)))
            λ updated.
              Maintains-bind _ _
                (Maintains-commit _ (laws.marked_after_completion env updated.job_id))
                λ _. Maintains-give updated

  pub fail_step-Maintains :
      (h : Headers) (id : String) (body : StepFailRequest)
      → Maintains I (fail_step env app h id body)
  unfolding fail_step
  fail_step-Maintains h id body =
      Maintains-bind _ _ (owned_step-Maintains h id body.assignment_epoch true) λ c.
        Maintains-target c failed _ λ status e.
          Maintains-bind _ _
            (persist-Maintains laws c _ _ _
              (λ r u. fail body.error_message (env.clock 0) (ground arith) (rw e refl)))
            λ updated.
              Maintains-bind _ _
                (Maintains-commit _ (laws.marked_failed env updated.job_id body.error_message))
                λ _. Maintains-give updated

  pub claim_step-Maintains :
      (h : Headers) (id : String) (epoch : ℤ) → Maintains I (claim_step env app h id epoch)
  unfolding claim_step
  claim_step-Maintains h id epoch = Maintains-bind _ _ (owned_step-Maintains h id epoch true) λ c.
      Maintains-check _ _ λ _ _.
        persist-Maintains laws c _ _ _
          (λ r u. claim (env.clock 0) (ground arith) (ground arith) refl)

  claim_row-Maintains : (worker : String) (step : Step F) → Maintains I (claim_row env worker step)
  unfolding claim_row
  claim_row-Maintains worker step = record {
    at = λ db s.
        let unclaimed = λ (s : Step F). s.id == step.id && is_claimable worker s in
        elim (Bool-cases (nat_eq (count unclaimed db.steps) 1)) [
          | inl one ↦
              rw (one, claim_row)
                (laws.moved db _
                  (update_where-Both StepMoves unclaimed _ (λ r. stay refl)
                    (λ r e. StepMoves-one (claim (env.clock 0) (ground arith) (ground arith) refl))
                    db.steps)
                  s)
          | inr other ↦ rw (other, claim_row) s
        ];
  }

  claim_found-Maintains :
      (worker : String) (found : Option (Step F)) → Maintains I (claim_found env worker found)
  unfolding claim_found
  claim_found-Maintains worker none = Maintains-give none
  claim_found-Maintains worker (some step) = claim_row-Maintains worker step

  pub claim_next-Maintains : (h : Headers) (id : String) → Maintains I (claim_next env app h id)
  unfolding claim_next
  claim_next-Maintains h id = Maintains-check _ _ λ _ _. Maintains-check _ _ λ worker _.
      Maintains-check _ _
        λ _ _. Maintains-bind _ _ (Maintains-read _) λ found. claim_found-Maintains worker found
