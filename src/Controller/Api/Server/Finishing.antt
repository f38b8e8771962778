-- ===== src/Controller/Api/Server/Finishing.antt =====
-- The last two requests of a Step that goes well, and what they make of its Job.
use media_orchard.Prelude.{
  String, ◌≡◌, refl, sym, ap, ◌∙◌, ◌≢◌, inl, inr, true, some, List, [], ◌∷◌, arith, ◌==◌, eq_iff,
  eq_refl, Bool-cases, select, All,
}
use media_orchard.Prelude.Results.{Result, ok}
use media_orchard.Prelude.Int.{ℤ, pos}
use media_orchard.Prelude.Json.{Fields}
use media_orchard.Prelude.Tables.{get_row, HasDistinctKeys}
use media_orchard.Prelude.Rows.{rows-All, All-selected, select-found}
use media_orchard.Shared.Enums
use media_orchard.Shared.Enums.{assigned, running}
use media_orchard.Controller.Models.{Job, Step}
use media_orchard.Controller.Api.Auth.{require_worker_auth, require_worker_node_id}
use media_orchard.Controller.Api.Jobs.{completion, mark_job_running, mark_job_after_step_completion}
use media_orchard.Controller.Api.Jobs.Completion.{completion_lem}
use media_orchard.Controller.Api.Jobs.Effects.{
  steps-mark_job_running, steps-mark_job_after_step_completion, jobs-mark_job_running,
  jobs-mark_job_after_step_completion,
}
use media_orchard.Controller.Api.Steps.{StepCompleteRequest, start_step, complete_step}
use media_orchard.Controller.Api.Steps.Answers.{
  IsRewritten, start_step-starts, complete_step-completes,
}
use media_orchard.Controller.Api.Server.{steps_start, steps_complete, Response, handle, Call, serve}
use media_orchard.Controller.Api.Server.History.{row}
use media_orchard.Controller.Api.{Env, App, Db, Headers, HttpError, step_id, job_id, ◌>>=◌}

module _ {F : Type 0} where
  -- The Steps of a Job, if one of them is completed and every other one is too.
  Job-steps :
      (job : String) (s : Step F) (rows : List (Step F))
      → HasDistinctKeys step_id rows
      → get_row step_id s.id rows ≡ some s
      → s.status ≡ Enums.StepStatus.completed
      → ((t : Step F)
          → t.id ≢ s.id
          → get_row step_id t.id rows ≡ some t
          → t.job_id ≡ job
          → t.status ≡ Enums.StepStatus.completed)
      → All (λ t. t.status ≡ Enums.StepStatus.completed) (select (λ t. t.job_id == job) rows)
  Job-steps job s rows d there ends others = All-selected _ _ rows (
      rows-All step_id rows d λ t g (of_job : (t.job_id == job) ≡ true).
        elim (Bool-cases (t.id == s.id)) [
          | inl same ↦
              let same' : t.id ≡ s.id = (eq_iff t.id s.id).0 same in
              let is_s : t ≡ s = (let g' = rw same' at g in cc) in
              ap (λ (x : Step F). x.status) is_s ∙ ends
          | inr other ↦
              others t (λ e. ground (arith, eq_iff t.id s.id)) g ((eq_iff t.job_id job).0 of_job)
        ])

module _ {F : Type 0} (env : Env F) (app : App) (headers : Headers) (id : String) (db db' : Db F)
    (s : Step F) where
  pub handle-steps_start :
      (epoch : ℤ)
      → start_step env app headers id epoch db ≡ (ok s, db')
      → handle env app headers (steps_start id epoch) db ≡ (ok (Response.step (some s)), db')
  unfolding handle ◌>>=◌
  handle-steps_start epoch e = rw e refl

  handle-steps_complete :
      (body : StepCompleteRequest F)
      → complete_step env app headers id body db ≡ (ok s, db')
      → handle env app headers (steps_complete id body) db ≡ (ok (Response.step (some s)), db')
  unfolding handle ◌>>=◌
  handle-steps_complete body e = rw e refl

module _ {F : Type 0} (env₁ env₂ : Env F) (headers₁ headers₂ : Headers) (s : Step F)
    (output : Fields F) where
  abbrev pub completing : Call F
  completing = record {
    env = env₂;
    headers = headers₂;
    request =
        steps_complete s.id
          (record { assignment_epoch = pos s.assignment_epoch; output_json = output });
  }

  -- The requests, under the Step's epoch.
  abbrev pub finishing : List (Call F)
  finishing =
      record { env = env₁; headers = headers₁; request = steps_start s.id (pos s.assignment_epoch) }
      ∷ completing
      ∷ []

-- The Step that the first request leaves, and the second.
abbrev pub started : {F : Type 0} → Env F → Step F → Step F
started env s = record s { status = running; started_at = some (env.clock 0) }

abbrev pub finished : {F : Type 0} → Env F → Env F → Step F → Fields F → Step F
finished env₁ env₂ s output = record (started env₁ s) {
  status = Enums.StepStatus.completed;
  output_json = some output;
  completed_at = some (env₂.clock 0);
}

module _ {F : Type 0} (env₁ env₂ : Env F) (app : App) (headers₁ headers₂ : Headers)
    (worker : String) (authorized₁ : require_worker_auth env₁ app headers₁ ≡ ok tt)
    (authorized₂ : require_worker_auth env₂ app headers₂ ≡ ok tt)
    (named₁ : require_worker_node_id headers₁ ≡ ok worker)
    (named₂ : require_worker_node_id headers₂ ≡ ok worker) (s : Step F) (output : Fields F) where
  abbrev requests : List (Call F)
  requests = finishing env₁ env₂ headers₁ headers₂ s output

  abbrev result : Step F
  result = finished env₁ env₂ s output

  abbrev first : Db F → Result HttpError (Response F) × Db F
  first = handle env₁ app headers₁ (steps_start s.id (pos s.assignment_epoch))

  abbrev second : Db F → Result HttpError (Response F) × Db F
  second = handle env₂ app headers₂ (completing env₁ env₂ headers₁ headers₂ s output).request

  module _ (db : Db F) (d : HasDistinctKeys step_id db.steps) (g : row s.id db ≡ some s)
      (is_assigned : s.status ≡ assigned) (o : s.assigned_node_id ≡ some worker) where
    two_requests :
        (rows₁ rows₂ : List (Step F)) × (first db ≡ (
          ok (Response.step (some (started env₁ s))),
          mark_job_running env₁ s.job_id (record db { steps = rows₁ }),
        ))
        × (second (mark_job_running env₁ s.job_id (record db { steps = rows₁ })) ≡ (
          ok (Response.step (some result)),
          mark_job_after_step_completion env₂ s.job_id
              (record (mark_job_running env₁ s.job_id (record db { steps = rows₁ })) {
                steps = rows₂;
              }),
        ))
        × IsRewritten db.steps result rows₂
    two_requests =
        let (rows₁, e₁, w₁) =
          start_step-starts env₁ app headers₁ worker authorized₁ named₁ s db d g is_assigned o in
        let db₁ = mark_job_running env₁ s.job_id (record db { steps = rows₁ }) in
        let same : db₁.steps ≡ rows₁ = steps-mark_job_running env₁ s.job_id _ in
        let (rows₂, e₂, w₂) =
          complete_step-completes env₂ app headers₂ worker authorized₂ named₂ (started env₁ s)
            output db₁ (rw same w₁.distinct) (rw same w₁.there) refl o in
        (
          rows₁,
          rows₂,
          handle-steps_start env₁ app headers₁ s.id db db₁ (started env₁ s) (pos s.assignment_epoch)
              e₁,
          handle-steps_complete env₂ app headers₂ s.id db₁ _ result _ e₂,
          record {
            there = w₂.there;
            others = λ other n. w₂.others other n ∙ (rw same (w₁.others other n));
            distinct = w₂.distinct;
          },
        )

    -- Both requests are answered with the Step.
    pub finishing-answers :
        ((first db).0 ≡ ok (Response.step (some (started env₁ s))))
        × ((second (first db).1).0 ≡ ok (Response.step (some result)))
    finishing-answers =
        let (rows₁, rows₂, h₁, h₂, w) = two_requests in
        (ap (λ p. p.0) h₁, ap (λ p. (second p.1).0) h₁ ∙ ap (λ p. p.0) h₂)

  -- The start and the completion of an assigned Step by its owner, under its epoch and in a table
  -- with distinct ids, do what they are for: the Step is completed with the output, the other rows
  -- are as they were, and the Job of the Step, if all its other Steps are completed, is completed.
  pub serve-finishes :
      (db : Db F) (job : Job F)
      → HasDistinctKeys step_id db.steps
      → row s.id db ≡ some s
      → s.status ≡ assigned
      → s.assigned_node_id ≡ some worker
      → get_row job_id s.job_id db.jobs ≡ some job
      → ((t : Step F)
          → t.id ≢ s.id
          → row t.id db ≡ some t
          → t.job_id ≡ s.job_id
          → t.status ≡ Enums.StepStatus.completed)
      → (row s.id (serve app requests db) ≡ some result)
        × ((other : String) → other ≢ s.id → row other (serve app requests db) ≡ row other db)
        × ((job' : Job F) × (get_row job_id s.job_id (serve app requests db).jobs ≡ some job')
            × (job'.status ≡ Enums.JobStatus.completed))
  unfolding serve
  serve-finishes db job d g is_assigned o of_job others =
      let (rows₁, rows₂, h₁, h₂, w) = two_requests db d g is_assigned o in
      let running_job = mark_job_running env₁ s.job_id (record db { steps = rows₁ }) in
      let db₂ = record running_job { steps = rows₂ } in
      let e : serve app requests db ≡ mark_job_after_step_completion env₂ s.job_id db₂ =
        ap (λ p. (second p.1).1) h₁ ∙ ap (λ p. p.1) h₂ in
      let (job₁, g₁) =
        jobs-mark_job_running env₁ s.job_id (record db { steps = rows₁ }) job of_job in
      let steps : (serve app requests db).steps ≡ rows₂ =
        ap (λ x. x.steps) e ∙ steps-mark_job_after_step_completion env₂ s.job_id db₂ in
      let of_job₂ = select (λ t. t.job_id == s.job_id) rows₂ in
      (
        rw steps w.there,
        λ other n. rw steps (w.others other n),
        (
          completion env₂ of_job₂ job₁,
          ap (λ x. get_row job_id s.job_id x.jobs) e
              ∙ jobs-mark_job_after_step_completion env₂ s.job_id db₂ job₁ g₁,
          (completion_lem env₂ of_job₂ job₁).0
              (select-found step_id (λ t. t.job_id == s.job_id) s.id result rows₂ w.there
                (eq_refl s.job_id))
              (Job-steps s.job_id result rows₂ w.distinct w.there refl
                λ t n g'. others t n (sym (w.others t.id n) ∙ g')),
        ),
      )
