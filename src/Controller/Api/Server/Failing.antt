-- ===== src/Controller/Api/Server/Failing.antt =====
-- The last two requests of a Step that fails after its start, and what they make of its Job.
use media_orchard.Prelude.{String, ◌≡◌, refl, ap, ◌∙◌, some}
use media_orchard.Prelude.Results.{Result, ok}
use media_orchard.Prelude.Int.{pos}
use media_orchard.Prelude.Tables.{get_row, HasDistinctKeys}
use media_orchard.Shared.Enums
use media_orchard.Shared.Enums.{assigned}
use media_orchard.Controller.Models.{Job, Step}
use media_orchard.Controller.Api.Auth.{require_worker_auth, require_worker_node_id}
use media_orchard.Controller.Api.Jobs.{mark_job_running, mark_job_failed}
use media_orchard.Controller.Api.Jobs.Effects.{
  steps-mark_job_running, steps-mark_job_failed, jobs-mark_job_running, jobs-mark_job_failed,
}
use media_orchard.Controller.Api.Steps.{StepFailRequest, fail_step}
use media_orchard.Controller.Api.Steps.Answers.{start_step-starts, fail_step-fails}
use media_orchard.Controller.Api.Server.{steps_start, steps_fail, Response, handle}
use media_orchard.Controller.Api.Server.History.{row}
use media_orchard.Controller.Api.Server.Finishing.{started, handle-steps_start}
use media_orchard.Controller.Api.{Env, App, Db, Headers, HttpError, step_id, job_id, ◌>>=◌}

-- The Step that the second request leaves.
abbrev pub broken : {F : Type 0} → Env F → Env F → Step F → String → Step F
broken env₁ env₂ s message = record (started env₁ s) {
  status = Enums.StepStatus.failed;
  error_message = some message;
  completed_at = some (env₂.clock 0);
}

module _ {F : Type 0} (env : Env F) (app : App) (headers : Headers) (id : String) (db db' : Db F)
    (s : Step F) where
  handle-steps_fail :
      (body : StepFailRequest)
      → fail_step env app headers id body db ≡ (ok s, db')
      → handle env app headers (steps_fail id body) db ≡ (ok (Response.step (some s)), db')
  unfolding handle ◌>>=◌
  handle-steps_fail body e = rw e refl

module _ {F : Type 0} (env₁ env₂ : Env F) (app : App) (headers : Headers) (worker : String)
    (authorized₁ : require_worker_auth env₁ app headers ≡ ok tt)
    (authorized₂ : require_worker_auth env₂ app headers ≡ ok tt)
    (named : require_worker_node_id headers ≡ ok worker) (s : Step F) (message : String) (db : Db F)
    (d : HasDistinctKeys step_id db.steps) (g : row s.id db ≡ some s)
    (is_assigned : s.status ≡ assigned) (o : s.assigned_node_id ≡ some worker) where
  abbrev first : Result HttpError (Response F) × Db F
  first = handle env₁ app headers (steps_start s.id (pos s.assignment_epoch)) db

  abbrev second : Db F → Result HttpError (Response F) × Db F
  second = handle env₂ app headers (
      steps_fail s.id
        (record { assignment_epoch = pos s.assignment_epoch; error_message = message }))

  -- The start and then the failure of an assigned Step by its owner are answered, and leave the Step
  -- failed with the message, and its Job too.
  pub record HasFailed : Type 0 where
    pub first_answered : first.0 ≡ ok (Response.step (some (started env₁ s)))
    pub second_answered :
        (second first.1).0 ≡ ok (Response.step (some (broken env₁ env₂ s message)))
    pub step_failed : row s.id (second first.1).1 ≡ some (broken env₁ env₂ s message)
    pub job_failed :
        (job : Job F)
        → get_row job_id s.job_id db.jobs ≡ some job
        → (job' : Job F) × (get_row job_id s.job_id (second first.1).1.jobs ≡ some job')
          × (job'.status ≡ Enums.JobStatus.failed)
          × (job'.error_message ≡ some message)

  pub serve-fails : HasFailed
  serve-fails =
      let (rows₁, e₁, w₁) =
        start_step-starts env₁ app headers worker authorized₁ named s db d g is_assigned o in
      let db₁ = mark_job_running env₁ s.job_id (record db { steps = rows₁ }) in
      let same : db₁.steps ≡ rows₁ = steps-mark_job_running env₁ s.job_id _ in
      let (rows₂, e₂, w₂) =
        fail_step-fails env₂ app headers worker authorized₂ named (started env₁ s) message db₁
          (rw same w₁.distinct) (rw same w₁.there) refl o in
      let db₂ = record db₁ { steps = rows₂ } in
      let h₁ =
        handle-steps_start env₁ app headers s.id db db₁ (started env₁ s) (pos s.assignment_epoch)
          e₁ in
      let h₂ = handle-steps_fail env₂ app headers s.id db₁ _ (broken env₁ env₂ s message) _ e₂ in
      let both : second first.1 ≡ (
        ok (Response.step (some (broken env₁ env₂ s message))),
        mark_job_failed env₂ s.job_id message db₂,
      ) =
        ap (λ p. second p.1) h₁ ∙ h₂ in
      record {
        first_answered = ap (λ p. p.0) h₁;
        second_answered = ap (λ p. p.0) both;
        step_failed =
            ap (λ p. row s.id p.1) both
            ∙ ap (λ x. get_row step_id s.id x) (steps-mark_job_failed env₂ s.job_id message db₂)
            ∙ w₂.there;
        job_failed = λ job of_job.
            let (job₁, g₁) =
              jobs-mark_job_running env₁ s.job_id (record db { steps = rows₁ }) job of_job in
            let (job₂, g₂, failed, why) = jobs-mark_job_failed env₂ s.job_id message db₂ job₁ g₁ in
            (job₂, ap (λ p. get_row job_id s.job_id p.1.jobs) both ∙ g₂, failed, why);
      }
