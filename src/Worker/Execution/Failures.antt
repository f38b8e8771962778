-- ===== src/Worker/Execution/Failures.antt =====
-- A Worker whose step fails against the Controller.
use media_orchard.Prelude.{String, ◌≡◌, refl, ap, ◌∙◌, true, Option, some, List, [], ◌∷◌}
use media_orchard.Prelude.Results.{Result, ok, err}
use media_orchard.Prelude.Int.{pos}
use media_orchard.Prelude.Floats.{Floats}
use media_orchard.Prelude.Json.{Json, Fields, int}
use media_orchard.Prelude.Tables.{get_row, HasDistinctKeys}
use media_orchard.Shared.Enums
use media_orchard.Shared.Enums.{assigned}
use media_orchard.Controller.Models.{Job, Step}
use media_orchard.Controller.Api.Server.{Request, steps_start, steps_fail, Response, handle}
use media_orchard.Controller.Api.Server.History.{row}
use media_orchard.Controller.Api.Server.Finishing.{started}
use media_orchard.Controller.Api.Server.Failing.{broken, serve-fails}
use media_orchard.Controller.Api.{Env, App, Db, HttpError, step_id, job_id}
use media_orchard.Worker.Agent.{Post, start, fail}
use media_orchard.Worker.Execution.{
  Transport, StepRunner, required_step_str, required_step_int, is_failed, failure_message,
  after_start, try_step, or_report, execute_claimed_step,
}
use media_orchard.Worker.Execution.Service.{Link, IsLinked, served_after, served, transport_to}

module _ {F : Type 0} (fl : Floats F) (text : Json F → String) (run : StepRunner F)
    (step : Fields F) where
  -- How a run of the step fails, and the message that is reported.
  pub data Breaks : String → Type 0 where
    crashed : {message : String} → run step ≡ err message → Breaks message
    reported :
        (output : Fields F)
        → run step ≡ ok output
        → is_failed output ≡ true
        → Breaks (failure_message fl text output)

  -- The posts of a run in which the step alone fails.
  execute_claimed_step-breaks :
      (post : Transport F) (id : String) (epoch : Json F) (message : String)
      (reply reply' : Option (Fields F))
      → required_step_str step "id" ≡ ok id
      → required_step_int step "assignment_epoch" ≡ ok epoch
      → post [] (start id epoch) ≡ ok reply
      → Breaks message
      → post (start id epoch ∷ []) (fail id epoch message) ≡ ok reply'
      → execute_claimed_step fl text post run step []
        ≡ (ok tt, start id epoch ∷ fail id epoch message ∷ [])
  unfolding execute_claimed_step try_step after_start or_report
  execute_claimed_step-breaks post id epoch _ reply reply' i e a (crashed r) b =
      rw (i, e, execute_claimed_step, a, try_step, r, after_start, b) refl
  execute_claimed_step-breaks post id epoch _ reply reply' i e a (reported output r f) b =
      rw (i, e, execute_claimed_step, a, try_step, r, f, after_start, b) refl

module _ {F : Type 0} (link : Link F) (app : App) (worker : String) (s : Step F) where
  abbrev epoch : Json F
  epoch = int (pos s.assignment_epoch)

  module _ (linked : IsLinked link app worker s) (db : Db F)
      (distinct : HasDistinctKeys step_id db.steps) (there : row s.id db ≡ some s)
      (is_assigned : s.status ≡ assigned) (owned : s.assigned_node_id ≡ some worker) where
    abbrev env₁ : Env F
    env₁ = link.env []

    abbrev env₂ : Env F
    env₂ = link.env (start s.id epoch ∷ [])

    abbrev first : Request F → Result HttpError (Response F) × Db F
    first request = handle env₁ app link.headers request db

    abbrev second : Request F → Db F → Result HttpError (Response F) × Db F
    second request = handle env₂ app link.headers request

    -- The Worker's second post as the Controller serves it.
    second-routed :
        (message : String)
        → second (link.route (fail s.id epoch message)) (first (link.route (start s.id epoch))).1
          ≡ second
              (steps_fail s.id
                (record { assignment_epoch = pos s.assignment_epoch; error_message = message }))
              (first (steps_start s.id (pos s.assignment_epoch))).1
    second-routed message =
        ap (λ r. second (link.route (fail s.id epoch message)) (first r).1) linked.start_routed
        ∙ ap (λ r. second r (first (steps_start s.id (pos s.assignment_epoch))).1)
            (linked.fail_routed message)

    -- A Worker that runs a Step that it owns under the Step's epoch, against a Controller that has it
    -- assigned, in a table with distinct ids, and a runner that raises or returns a failure: the
    -- execution still ends normally after two posts, and then the Step has failed on the Controller
    -- with that message, and so has its Job.
    pub execute_claimed_step-fails :
        (fl : Floats F) (text : Json F → String) (run : StepRunner F) (step : Fields F)
        (message : String) (job : Job F)
        → required_step_str step "id" ≡ ok s.id
        → required_step_int step "assignment_epoch" ≡ ok epoch
        → Breaks fl text run step message
        → get_row job_id s.job_id db.jobs ≡ some job
        → (log : List (Post F)) × (execute_claimed_step fl text
              (transport_to link app db)
              run
              step
              []
            ≡ (ok tt, log))
          × (row s.id (served link app log db) ≡ some (broken env₁ env₂ s message))
          × ((job' : Job F) × (get_row job_id s.job_id (served link app log db).jobs ≡ some job')
              × (job'.status ≡ Enums.JobStatus.failed)
              × (job'.error_message ≡ some message))
    unfolding transport_to served_after
    execute_claimed_step-fails fl text run step message job i e breaks of_job =
        let failed =
          serve-fails env₁ env₂ app link.headers worker (linked.authorized [])
            (linked.authorized (start s.id epoch ∷ [])) linked.named s message db distinct there
            is_assigned owned in
        let (reply, a) = linked.answered (Response.step (some (started env₁ s))) in
        let (reply', b) = linked.answered (Response.step (some (broken env₁ env₂ s message))) in
        let (job', at, is_failed', why) = failed.job_failed job of_job in
        (
          start s.id epoch ∷ fail s.id epoch message ∷ [],
          execute_claimed_step-breaks fl text run step (transport_to link app db) s.id epoch message
              reply reply' i e
              (ap (λ r. link.answer (first r).0) linked.start_routed
                ∙ ap link.answer failed.first_answered
                ∙ a)
              breaks
              (ap (λ p. link.answer p.0) (second-routed message)
                ∙ ap link.answer failed.second_answered
                ∙ b),
          ap (λ p. row s.id p.1) (second-routed message) ∙ failed.step_failed,
          (
            job',
            ap (λ p. get_row job_id s.job_id p.1.jobs) (second-routed message) ∙ at,
            is_failed',
            why,
          ),
        )
