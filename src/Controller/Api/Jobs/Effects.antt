-- ===== src/Controller/Api/Jobs/Effects.antt =====
-- What the `mark_job_*` functions do to the tables.
use media_orchard.Prelude.{
  String, ◌≡◌, refl, ◌∙◌, some, ◌==◌, select, List, [], ◌∷◌, arith, All, inl, inr, Option-cases,
}
use media_orchard.Prelude.Tables.{get_row, has_row}
use media_orchard.Prelude.Rows.{
  key-get_row, get_row-write_row, All-get_row, All-write_row, has_row-write_row,
}
use media_orchard.Shared.Enums.{JobStatus}
use media_orchard.Controller.Models.{Job, Step}
use media_orchard.Controller.Api.Jobs.{
  change_job, completion, mark_job_running, mark_job_after_step_completion, mark_job_failed,
}
use media_orchard.Controller.Api.{Env, Db, job_id}

module _ {F : Type 0} where
  steps-change_job :
      (id : String) (change : Job F → Job F) (db : Db F)
      → (change_job id change db).steps ≡ db.steps
  unfolding change_job
  steps-change_job id change db = elim (Option-cases (get_row job_id id db.jobs)) [
    | inl e ↦ rw (e, change_job) refl
    | inr (job, e) ↦ rw (e, change_job) refl
  ]

  has_row-change_job :
      (id other : String) (change : Job F → Job F) (db : Db F)
      → has_row job_id other (change_job id change db).jobs ≡ has_row job_id other db.jobs
  unfolding change_job
  has_row-change_job id other change db = elim (Option-cases (get_row job_id id db.jobs)) [
    | inl e ↦ rw (e, change_job) refl
    | inr (job, e) ↦ rw (e, change_job) (has_row-write_row job_id other (change job) db.jobs)
  ]

  -- What holds of every Job, and of a Job that is changed if it did before, holds after the change.
  All-change_job :
      (P : Job F → Type 0) (id : String) (change : Job F → Job F) (db : Db F)
      → ((job : Job F) → job.id ≡ id → P job → P (change job))
      → All P db.jobs
      → All P (change_job id change db).jobs
  unfolding change_job
  All-change_job P id change db h all_jobs = elim (Option-cases (get_row job_id id db.jobs)) [
    | inl e ↦ rw (e, change_job) all_jobs
    | inr (job, e) ↦
        rw (e, change_job)
          (All-write_row P job_id (change job) db.jobs
            (h job (key-get_row job_id id db.jobs job e)
              (All-get_row job_id P id db.jobs job all_jobs e))
            all_jobs)
  ]

module _ {F : Type 0} (env : Env F) where
  pub steps-mark_job_running :
      (id : String) (db : Db F) → (mark_job_running env id db).steps ≡ db.steps
  unfolding mark_job_running
  steps-mark_job_running id db = steps-change_job id _ db

  pub steps-mark_job_after_step_completion :
      (id : String) (db : Db F) → (mark_job_after_step_completion env id db).steps ≡ db.steps
  unfolding mark_job_after_step_completion
  steps-mark_job_after_step_completion id db = steps-change_job id _ db

  pub steps-mark_job_failed :
      (id message : String) (db : Db F) → (mark_job_failed env id message db).steps ≡ db.steps
  unfolding mark_job_failed
  steps-mark_job_failed id message db = steps-change_job id _ db

  jobs-change_job :
      (id : String) (change : Job F → Job F) (db : Db F) (job : Job F)
      → (change job).id ≡ job.id
      → get_row job_id id db.jobs ≡ some job
      → get_row job_id id (change_job id change db).jobs ≡ some (change job)
  unfolding change_job
  jobs-change_job id change db job keeps g =
      rw (g, change_job)
        (get_row-write_row job_id id job (change job) db.jobs
          (keeps ∙ key-get_row job_id id db.jobs job g) g)

  -- A Job that is marked running is still there.
  pub jobs-mark_job_running :
      (id : String) (db : Db F) (job : Job F)
      → get_row job_id id db.jobs ≡ some job
      → (job' : Job F) × (get_row job_id id (mark_job_running env id db).jobs ≡ some job')
  unfolding mark_job_running
  jobs-mark_job_running id db job g = (_, jobs-change_job id _ db job (ground arith) g)

  pub id-completion : (steps : List (Step F)) (job : Job F) → (completion env steps job).id ≡ job.id
  unfolding completion
  id-completion [] job = refl
  id-completion (s ∷ ss) job = ground arith

  pub jobs-mark_job_after_step_completion :
      (id : String) (db : Db F) (job : Job F)
      → get_row job_id id db.jobs ≡ some job
      → get_row job_id id (mark_job_after_step_completion env id db).jobs
        ≡ some (completion env (select (λ s. s.job_id == id) db.steps) job)
  unfolding mark_job_after_step_completion
  jobs-mark_job_after_step_completion id db job g =
      jobs-change_job id _ db job (id-completion _ job) g

  -- What a change that completes no Job carries over.
  abbrev IsCarried : (Job F → Type 0) → Type 0
  IsCarried P =
      (job job' : Job F)
      → job'.id ≡ job.id
      → (job'.status ≡ JobStatus.completed → job.status ≡ JobStatus.completed)
      → P job
      → P job'

  pub All-mark_job_running :
      (P : Job F → Type 0) (id : String) (db : Db F)
      → IsCarried P
      → All P db.jobs
      → All P (mark_job_running env id db).jobs
  unfolding mark_job_running
  All-mark_job_running P id db carried =
      All-change_job P id _ db (λ job _. carried job _ (ground arith) (λ e. ground arith))

  pub All-mark_job_failed :
      (P : Job F → Type 0) (id message : String) (db : Db F)
      → IsCarried P
      → All P db.jobs
      → All P (mark_job_failed env id message db).jobs
  unfolding mark_job_failed
  All-mark_job_failed P id message db carried =
      All-change_job P id _ db (λ job _. carried job _ refl (λ e. cc))

  pub All-mark_job_after_step_completion :
      (P : Job F → Type 0) (id : String) (db : Db F)
      → ((job : Job F)
          → job.id ≡ id
          → P (completion env (select (λ s. s.job_id == id) db.steps) job))
      → All P db.jobs
      → All P (mark_job_after_step_completion env id db).jobs
  unfolding mark_job_after_step_completion
  All-mark_job_after_step_completion P id db h = All-change_job P id _ db (λ job e _. h job e)

  -- No Job comes or goes.
  pub has_row-mark_job_running :
      (id other : String) (db : Db F)
      → has_row job_id other (mark_job_running env id db).jobs ≡ has_row job_id other db.jobs
  unfolding mark_job_running
  has_row-mark_job_running id other db = has_row-change_job id other _ db

  pub has_row-mark_job_failed :
      (id message other : String) (db : Db F)
      → has_row job_id other (mark_job_failed env id message db).jobs ≡ has_row job_id other db.jobs
  unfolding mark_job_failed
  has_row-mark_job_failed id message other db = has_row-change_job id other _ db

  pub has_row-mark_job_after_step_completion :
      (id other : String) (db : Db F)
      → has_row job_id other (mark_job_after_step_completion env id db).jobs
        ≡ has_row job_id other db.jobs
  unfolding mark_job_after_step_completion
  has_row-mark_job_after_step_completion id other db = has_row-change_job id other _ db

  pub jobs-mark_job_failed :
      (id message : String) (db : Db F) (job : Job F)
      → get_row job_id id db.jobs ≡ some job
      → (job' : Job F) × (get_row job_id id (mark_job_failed env id message db).jobs ≡ some job')
        × (job'.status ≡ JobStatus.failed)
        × (job'.error_message ≡ some message)
  unfolding mark_job_failed
  jobs-mark_job_failed id message db job g = (_, jobs-change_job id _ db job refl g, refl, refl)
