-- ===== src/Worker/Execution/Service.antt =====
-- A Worker that runs a claimed Step against the Controller: the posts of `execute_claimed_step`
-- are the Controller's requests, and its answers are the answers to the posts.
use media_orchard.Prelude.{
  String, ◌≡◌, refl, ap, ◌∙◌, ◌≢◌, false, Option, some, List, [], ◌∷◌, ◌++◌,
}
use media_orchard.Prelude.Results.{Result, ok}
use media_orchard.Prelude.Int.{pos}
use media_orchard.Prelude.Floats.{Floats}
use media_orchard.Prelude.Json.{Json, Fields, int}
use media_orchard.Prelude.Tables.{get_row, HasDistinctKeys}
use media_orchard.Shared.Enums
use media_orchard.Shared.Enums.{assigned}
use media_orchard.Controller.Models.{Job, Step}
use media_orchard.Controller.Api.Auth.{require_worker_auth, require_worker_node_id}
use media_orchard.Controller.Api.Server.{
  Request, steps_start, steps_complete, steps_fail, Response, handle, serve,
}
use media_orchard.Controller.Api.Server.History.{row}
use media_orchard.Controller.Api.Server.Finishing.{
  finishing, started, finished, finishing-answers, serve-finishes,
}
use media_orchard.Controller.Api.{Env, App, Db, Headers, HttpError, step_id, job_id}
use media_orchard.Worker.Agent.{Post, start, complete, fail}
use media_orchard.Worker.Execution.{
  Transport, StepRunner, required_step_str, required_step_int, is_failed, after_start, try_step,
  or_report, execute_claimed_step,
}

-- What stands between the Worker's transport and the handlers: the router and the parsing of
-- bodies, the headers of the Worker's requests, what the requests take from outside, by the posts
-- before, and the encoding of the answers.
pub record Link (F : Type 0) : Type 0 where
  pub route : Post F → Request F
  pub headers : Headers
  pub env : List (Post F) → Env F
  pub answer : Result HttpError (Response F) → Result String (Option (Fields F))

module _ {F : Type 0} (link : Link F) (app : App) where
  -- The database after these posts, of which `past` came before.
  unfoldable pub served_after : List (Post F) → List (Post F) → Db F → Db F
  served_after past [] db = db
  served_after past (p ∷ ps) db =
      served_after (past ++ (p ∷ [])) ps
        (handle (link.env past) app link.headers (link.route p) db).1

  abbrev pub served : List (Post F) → Db F → Db F
  served = served_after []

  -- The transport to a Controller with this database.
  unfoldable pub transport_to : Db F → Transport F
  unfolding served_after
  transport_to db log p =
      link.answer (handle (link.env log) app link.headers (link.route p) (served log db)).0

module _ {F : Type 0} (fl : Floats F) (text : Json F → String) (post : Transport F)
    (run : StepRunner F) (step : Fields F) (id : String) (epoch : Json F) where
  -- The posts of a run in which everything goes well.
  execute_claimed_step-completes :
      (output : Fields F) (reply reply' : Option (Fields F))
      → required_step_str step "id" ≡ ok id
      → required_step_int step "assignment_epoch" ≡ ok epoch
      → post [] (start id epoch) ≡ ok reply
      → run step ≡ ok output
      → is_failed output ≡ false
      → post (start id epoch ∷ []) (complete id epoch output) ≡ ok reply'
      → execute_claimed_step fl text post run step []
        ≡ (ok tt, start id epoch ∷ complete id epoch output ∷ [])
  unfolding execute_claimed_step try_step after_start or_report
  execute_claimed_step-completes output reply reply' i e a r f b =
      rw (i, e, execute_claimed_step, a, try_step, r, f, after_start, b) refl

module _ {F : Type 0} (link : Link F) (app : App) (worker : String) (s : Step F) where
  abbrev epoch : Json F
  epoch = int (pos s.assignment_epoch)

  -- The Controller takes the requests for this Worker's, and the router and the codecs bring the
  -- posts about the Step to their endpoints and answers that are no errors back.
  pub record IsLinked : Type 0 where
    pub authorized :
        (log : List (Post F)) → require_worker_auth (link.env log) app link.headers ≡ ok tt
    pub named : require_worker_node_id link.headers ≡ ok worker
    pub start_routed : link.route (start s.id epoch) ≡ steps_start s.id (pos s.assignment_epoch)
    pub complete_routed :
        (output : Fields F)
        → link.route (complete s.id epoch output)
          ≡ steps_complete s.id
              (record { assignment_epoch = pos s.assignment_epoch; output_json = output })
    pub fail_routed :
        (message : String)
        → link.route (fail s.id epoch message)
          ≡ steps_fail s.id
              (record { assignment_epoch = pos s.assignment_epoch; error_message = message })
    pub answered :
        (response : Response F)
        → (reply : Option (Fields F)) × (link.answer (ok response) ≡ ok reply)

  module _ (linked : IsLinked) (db : Db F) (distinct : HasDistinctKeys step_id db.steps)
      (there : row s.id db ≡ some s) (is_assigned : s.status ≡ assigned)
      (owned : s.assigned_node_id ≡ some worker) (output : Fields F) where
    abbrev env₁ : Env F
    env₁ = link.env []

    abbrev env₂ : Env F
    env₂ = link.env (start s.id epoch ∷ [])

    -- The answers of the two endpoints, by the request and the database.
    abbrev first : Request F → Result HttpError (Response F) × Db F
    first request = handle env₁ app link.headers request db

    abbrev second : Request F → Db F → Result HttpError (Response F) × Db F
    second request = handle env₂ app link.headers request

    -- The Controller serves the posts as the two requests.
    served-finishing :
        served link app (start s.id epoch ∷ complete s.id epoch output ∷ []) db
        ≡ serve app (finishing env₁ env₂ link.headers link.headers s output) db
    unfolding served_after serve
    served-finishing =
        ap (λ r. (second (link.route (complete s.id epoch output)) (first r).1).1)
          linked.start_routed
        ∙ ap (λ r. (second r (first (steps_start s.id (pos s.assignment_epoch))).1).1)
            (linked.complete_routed output)

    both_answered :
        ((reply : Option (Fields F)) × (transport_to link app db [] (start s.id epoch) ≡ ok reply))
        × ((reply : Option (Fields F)) × (transport_to link app db
                (start s.id epoch ∷ [])
                (complete s.id epoch output)
              ≡ ok reply))
    unfolding transport_to
    both_answered =
        let (a, b) =
          finishing-answers env₁ env₂ app link.headers link.headers worker (linked.authorized [])
            (linked.authorized (start s.id epoch ∷ [])) linked.named linked.named s output db
            distinct there is_assigned owned in
        let (reply, e) = linked.answered (Response.step (some (started env₁ s))) in
        let (reply', e') = linked.answered (Response.step (some (finished env₁ env₂ s output))) in
        (
          (reply, ap (λ r. link.answer (first r).0) linked.start_routed ∙ ap link.answer a ∙ e),
          (
            reply',
            ap (λ r. link.answer (second (link.route (complete s.id epoch output)) (first r).1).0)
                  linked.start_routed
                ∙ ap
                    (λ r.
                      link.answer
                        (second r (first (steps_start s.id (pos s.assignment_epoch))).1).0)
                    (linked.complete_routed output)
                ∙ ap link.answer b
                ∙ e',
          ),
        )

    -- A Worker that runs a Step that it owns under the Step's epoch, against a Controller that has it
    -- assigned, in a table with distinct ids, and a runner that succeeds: the execution ends
    -- normally after two posts, and then the Step is completed on the Controller with the runner's
    -- output, and its Job, if all its other Steps are completed, is completed.
    pub execute_claimed_step-finishes :
        (fl : Floats F) (text : Json F → String) (run : StepRunner F) (step : Fields F)
        (job : Job F)
        → required_step_str step "id" ≡ ok s.id
        → required_step_int step "assignment_epoch" ≡ ok epoch
        → run step ≡ ok output
        → is_failed output ≡ false
        → get_row job_id s.job_id db.jobs ≡ some job
        → ((t : Step F)
            → t.id ≢ s.id
            → row t.id db ≡ some t
            → t.job_id ≡ s.job_id
            → t.status ≡ Enums.StepStatus.completed)
        → (log : List (Post F)) × (execute_claimed_step fl text
              (transport_to link app db)
              run
              step
              []
            ≡ (ok tt, log))
          × (row s.id (served link app log db) ≡ some (finished env₁ env₂ s output))
          × ((job' : Job F) × (get_row job_id s.job_id (served link app log db).jobs ≡ some job')
              × (job'.status ≡ Enums.JobStatus.completed))
    execute_claimed_step-finishes fl text run step job i e r f of_job others =
        let ((reply, a), (reply', b)) = both_answered in
        let (written, kept, done) =
          serve-finishes env₁ env₂ app link.headers link.headers worker (linked.authorized [])
            (linked.authorized (start s.id epoch ∷ [])) linked.named linked.named s output db job
            distinct there is_assigned owned of_job others in
        (
          start s.id epoch ∷ complete s.id epoch output ∷ [],
          execute_claimed_step-completes fl text (transport_to link app db) run step s.id epoch
              output reply reply' i e a r f b,
          rw served-finishing written,
          rw served-finishing done,
        )
