-- ===== src/Controller/Api/Settled.antt =====
-- Completed Jobs, whatever the requests: none of them has a Step that is not completed.
pub mod Reached
use media_orchard.Prelude.{
  String, ◌≡◌, sym, ap, ◌∙◌, true, List, ◌==◌, eq_iff, select, All, All-map, Both,
}
use media_orchard.Prelude.Tables.{has_row}
use media_orchard.Prelude.Rows.{All-unselected, All-Both}
use media_orchard.Shared.Enums
use media_orchard.Controller.Models.{Job, Step}
use media_orchard.Controller.Api.Jobs.{
  completion, mark_job_running, mark_job_after_step_completion, mark_job_failed,
}
use media_orchard.Controller.Api.Jobs.Completion.{completed-completion}
use media_orchard.Controller.Api.Server.Rows.{
  StepMoves, StepMoves-terminal, id-StepMoves, job_id-StepMoves,
}
use media_orchard.Prelude.Growth.{HasDistinctKeys-Both}
use media_orchard.Controller.Api.Jobs.Effects.{
  All-mark_job_running, All-mark_job_failed, All-mark_job_after_step_completion, id-completion,
  steps-mark_job_running, steps-mark_job_after_step_completion, steps-mark_job_failed,
  has_row-mark_job_running, has_row-mark_job_failed, has_row-mark_job_after_step_completion,
}
use media_orchard.Controller.Api.Server.Evolution.{HasDistinctSteps}
use media_orchard.Controller.Api.{Env, Db, step_id, job_id}

module _ {F : Type 0} where
  -- All the Steps of the Job are completed, if it is.
  abbrev pub IsDone : List (Step F) → Job F → Type 0
  IsDone steps job =
      job.status ≡ Enums.JobStatus.completed
      → All (λ s. s.job_id ≡ job.id → s.status ≡ Enums.StepStatus.completed) steps

  -- The ids of Steps are distinct, each Step has its Job, and completed Jobs are done.
  pub record IsSettled (db : Db F) : Type 0 where
    pub distinct : HasDistinctSteps db
    pub linked : All (λ s. has_row job_id s.job_id db.jobs ≡ true) db.steps
    pub jobs_done : All (IsDone db.steps) db.jobs

  -- A row that moves leaves a completed Job as done as it was.
  IsDone-StepMoves :
      (job : Job F) {rows rows' : List (Step F)}
      → Both StepMoves rows rows'
      → IsDone rows job
      → IsDone rows' job
  IsDone-StepMoves job moves h e =
      All-Both _
        (λ s t m q of_job.
          let done = q (sym (job_id-StepMoves s t m) ∙ of_job) in
          ap (λ (r : Step F). r.status) (StepMoves-terminal s t (rw done tt) m) ∙ done)
        moves (h e)

  -- Rows that move, and nothing else.
  pub IsSettled-moved :
      (db : Db F) (rows : List (Step F))
      → Both StepMoves db.steps rows
      → IsSettled db
      → IsSettled (record db { steps = rows })
  IsSettled-moved db rows moves s = record {
    distinct = HasDistinctKeys-Both step_id id-StepMoves moves s.distinct;
    linked = All-Both _ (λ r t m h. rw (job_id-StepMoves r t m) h) moves s.linked;
    jobs_done = All-map _ _ (λ job h. IsDone-StepMoves job moves h) db.jobs s.jobs_done;
  }

  -- A change that leaves the Steps alone and the ids of the Jobs.
  relinked :
      (db' db : Db F)
      → db'.steps ≡ db.steps
      → ((id : String) → has_row job_id id db'.jobs ≡ has_row job_id id db.jobs)
      → All (λ s. has_row job_id s.job_id db.jobs ≡ true) db.steps
      → All (λ s. has_row job_id s.job_id db'.jobs ≡ true) db'.steps
  relinked db' db same h linked = rw same (All-map _ _ (λ r q. h r.job_id ∙ q) db.steps linked)

module _ {F : Type 0} (env : Env F) where
  IsDone-carried :
      (steps : List (Step F)) (job job' : Job F)
      → job'.id ≡ job.id
      → (job'.status ≡ Enums.JobStatus.completed → job.status ≡ Enums.JobStatus.completed)
      → IsDone steps job
      → IsDone steps job'
  IsDone-carried steps job job' same back h e = rw same (h (back e))

  pub IsSettled-mark_job_running :
      (id : String) (db : Db F) → IsSettled db → IsSettled (mark_job_running env id db)
  IsSettled-mark_job_running id db s = record {
    distinct = rw (steps-mark_job_running env id db) s.distinct;
    linked =
        relinked (mark_job_running env id db) db (steps-mark_job_running env id db)
          (λ other. has_row-mark_job_running env id other db) s.linked;
    jobs_done =
        rw (steps-mark_job_running env id db)
          (All-mark_job_running env _ id db (IsDone-carried db.steps) s.jobs_done);
  }

  pub IsSettled-mark_job_failed :
      (id message : String) (db : Db F)
      → IsSettled db
      → IsSettled (mark_job_failed env id message db)
  IsSettled-mark_job_failed id message db s = record {
    distinct = rw (steps-mark_job_failed env id message db) s.distinct;
    linked =
        relinked (mark_job_failed env id message db) db (steps-mark_job_failed env id message db)
          (λ other. has_row-mark_job_failed env id message other db) s.linked;
    jobs_done =
        rw (steps-mark_job_failed env id message db)
          (All-mark_job_failed env _ id message db (IsDone-carried db.steps) s.jobs_done);
  }

  -- The one change that completes a Job looks at its Steps first.
  completion-IsDone :
      (id : String) (steps : List (Step F)) (job : Job F)
      → job.id ≡ id
      → IsDone steps (completion env (select (λ s. s.job_id == id) steps) job)
  completion-IsDone id steps job named e =
      All-map _ _
        (λ s h of_job. h ((eq_iff s.job_id id).1 (of_job ∙ id-completion env _ job ∙ named))) steps
        (All-unselected _ _ steps (completed-completion env _ job e))

  pub IsSettled-mark_job_after_step_completion :
      (id : String) (db : Db F)
      → IsSettled db
      → IsSettled (mark_job_after_step_completion env id db)
  IsSettled-mark_job_after_step_completion id db s = record {
    distinct = rw (steps-mark_job_after_step_completion env id db) s.distinct;
    linked =
        relinked (mark_job_after_step_completion env id db) db
          (steps-mark_job_after_step_completion env id db)
          (λ other. has_row-mark_job_after_step_completion env id other db) s.linked;
    jobs_done = rw (steps-mark_job_after_step_completion env id db) (
        All-mark_job_after_step_completion env _ id db (completion-IsDone id db.steps) s.jobs_done);
  }
