-- ===== src/Controller/Api/Settled/Reached.antt =====
-- The databases that a Controller reaches from an empty one.
use media_orchard.Prelude.{◌≡◌, refl, sym, ◌∙◌, ◌≢◌, false, List, [], ◌∷◌, ◌++◌, arith, All-map}
use media_orchard.Prelude.Results.{ok}
use media_orchard.Prelude.Tables.{has_row}
use media_orchard.Prelude.Growth.{Lacks, any-Lacks, HasDistinctKeys-append}
use media_orchard.Prelude.Rows.{All-both, All-added, has_row-added, has_row-last}
use media_orchard.Shared.Enums
use media_orchard.Controller.Models.{Job, Step}
use media_orchard.Controller.Api.Jobs.{NewJob, insert_rows, new_job}
use media_orchard.Controller.Api.Server.{Call, serve}
use media_orchard.Controller.Api.Invariants.{IsInvariant}
use media_orchard.Controller.Api.Invariants.Arrivals.{serve-IsInvariant}
use media_orchard.Controller.Api.Settled.{
  IsDone, IsSettled, IsSettled-moved, IsSettled-mark_job_running, IsSettled-mark_job_failed,
  IsSettled-mark_job_after_step_completion,
}
use media_orchard.Controller.Api.{App, Db, step_id, job_id}

module _ {F : Type 0} where
  -- A new Step is none of an old Job's.
  IsDone-added :
      (steps : List (Step F)) (new : Step F) (job : Job F)
      → new.job_id ≢ job.id
      → IsDone steps job
      → IsDone (steps ++ (new ∷ [])) job
  IsDone-added steps new job other h e =
      All-added _ steps new (h e) (λ of_job. absurd (other of_job))

  -- The new rows of a Job that is not completed.
  IsSettled-insert_rows :
      (new : NewJob F) (db db' : Db F)
      → new.step.job_id ≡ new.job.id
      → new.job.status ≢ Enums.JobStatus.completed
      → IsSettled db
      → insert_rows new db ≡ ok db'
      → IsSettled db'
  unfolding insert_rows
  IsSettled-insert_rows new db db' own unfinished s h =
      let new_id : has_row job_id new.job.id db.jobs ≡ false = ground arith in
      let fresh : has_row step_id new.step.id db.steps ≡ false = ground arith in
      let steps : db'.steps ≡ db.steps ++ (new.step ∷ []) = ground arith in
      let jobs : db'.jobs ≡ db.jobs ++ (new.job ∷ []) = ground arith in
      let lacks : Lacks job_id new.job.id db.jobs = any-Lacks job_id new.job.id db.jobs new_id in
      record {
        distinct = rw steps (HasDistinctKeys-append step_id db.steps new.step fresh s.distinct);
        linked =
            rw (steps, jobs)
              (All-added _ db.steps new.step
                (All-map _ _ (λ r q. has_row-added job_id r.job_id db.jobs new.job q) db.steps
                  s.linked)
                (has_row-last job_id new.step.job_id db.jobs new.job (sym own)));
        jobs_done =
            rw (steps, jobs)
              (All-added _ db.jobs new.job
                (All-map _ _
                  (λ job (q, other).
                    IsDone-added db.steps new.step job (λ e. other (sym e ∙ own)) q)
                  db.jobs (All-both _ _ db.jobs s.jobs_done lacks))
                (λ e. absurd (unfinished e)));
      }

  IsSettled-IsInvariant : IsInvariant {F = F} IsSettled
  unfolding new_job
  IsSettled-IsInvariant = record {
    distinct = λ db s. s.distinct;
    moved = IsSettled-moved;
    nodes_changed =
        λ db nodes s. record { distinct = s.distinct; linked = s.linked; jobs_done = s.jobs_done };
    marked_running = IsSettled-mark_job_running;
    marked_failed = IsSettled-mark_job_failed;
    marked_after_completion = IsSettled-mark_job_after_step_completion;
    inserted = λ env app body paths db db'.
        IsSettled-insert_rows (new_job env app body paths) db db' refl (λ e. cc);
  }

  abbrev pub empty_db : Db F
  empty_db = record { nodes = []; jobs = []; plans = []; steps = [] }

  -- Whatever requests a Controller that started with an empty database has answered: the ids of the
  -- Steps are distinct, every Step's Job is there, and no Job that is completed has a Step
  -- that is not.
  pub serve-IsSettled : (app : App) (calls : List (Call F)) → IsSettled (serve app calls empty_db)
  serve-IsSettled app calls =
      serve-IsInvariant IsSettled-IsInvariant app calls empty_db
        (record { distinct = tt; linked = tt; jobs_done = tt })
