-- ===== src/Controller/Api/Jobs.antt =====
-- The job endpoints of create_app, and what the lifecycle of a Step does to its Job.
pub mod Effects
pub mod Completion
use media_orchard.Prelude.{
  ℕ, String, Bool, ◌||◌, Option, none, some, List, [], ◌∷◌, ◌++◌, ◌==◌, nat_eq, if◌then◌else◌,
  is_yes, length, take, drop, select, count,
}
use media_orchard.Prelude.Results
use media_orchard.Prelude.Results.{Result, ok, err, require}
use media_orchard.Prelude.Int.{ℤ, pos}
use media_orchard.Prelude.Json.{Json, Items, Fields, null, str, arr, nil, cons, end, field}
use media_orchard.Prelude.Tables.{get_row, has_row, write_row}
use media_orchard.Shared.Enums
use media_orchard.Shared.Enums.{JobStatus, JobStatus-discrete}
use media_orchard.Controller.Models.{Job, Plan, Step}
use media_orchard.Shared.Paths.{PathError, resolve_allowlisted_path, build_job_output_dir}
use media_orchard.Controller.StateMachine.{same_status}
use media_orchard.Controller.Api.Auth.{require_worker_auth}
use media_orchard.Controller.Api.{
  Env, App, Db, Headers, HttpError, job_not_found, unsupported_goal, bad_path, path_failed,
  try_commit, or_raise, prefixed_id, duplicate_key, Handler, give, check, read, ◌>>=◌, ◌>>◌,
  step_id, job_id,
}

pub record JobCreateRequest : Type 0 where
  pub goal_type : String
  pub input_file : String
  pub outputs : List String
  pub language : Option String
  pub quality : String
  pub priority : ℤ
  pub user_request : Option String

abbrev pub same_job_status : JobStatus → JobStatus → Bool
same_job_status a b = is_yes (JobStatus-discrete a b)

abbrev strings : {F : Type 0} → List String → Items F
strings [] = nil
strings (s ∷ ss) = cons (str s) (strings ss)

abbrev or_null : {F : Type 0} → Option String → Json F
or_null none = null
or_null (some s) = str s

-- The paths that create_job computes.
pub record JobPaths : Type 0 where
  pub input_file : String
  pub output_dir : String
  pub work_dir : String

-- The rows that it adds.
pub record NewJob (F : Type 0) : Type 0 where
  pub job : Job F
  pub plan : Plan F
  pub step : Step F

abbrev in_paths : {A : Type 0} → (PathError → HttpError) → Result PathError A → Result HttpError A
in_paths f (ok a) = ok a
in_paths f (err e) = err (f e)

module _ {F : Type 0} where
  -- INSERT of the three rows; a primary key that is there makes the commit raise.
  unfoldable pub insert_rows : NewJob F → Db F → Result HttpError (Db F)
  insert_rows new db =
      if has_row job_id new.job.id db.jobs
        || (has_row (λ p. p.id) new.plan.id db.plans || has_row step_id new.step.id db.steps)
      then err duplicate_key
      else ok (record db {
        jobs = db.jobs ++ (new.job ∷ []);
        plans = db.plans ++ (new.plan ∷ []);
        steps = db.steps ++ (new.step ∷ []);
      })

module _ {F : Type 0} (env : Env F) (app : App) where
  abbrev new_job_id : String
  new_job_id = prefixed_id "job" (env.hex 0)

  -- `resolve_allowlisted_path` is caught, `build_job_output_dir` is not.
  unfoldable pub job_paths : JobCreateRequest → Result HttpError JobPaths
  job_paths body =
      Results.◌>>=◌
        (in_paths bad_path
          (resolve_allowlisted_path env.fs body.input_file (env.fs.render app.shared_root ∷ [])))
        λ input.
          Results.◌>>=◌
            (in_paths path_failed (
              build_job_output_dir env.fs (env.fs.render (app.shared_root ++ ("output" ∷ [])))
                new_job_id))
            λ output. ok (record {
              input_file = env.fs.render input;
              output_dir = env.fs.render output;
              work_dir = env.fs.render (app.shared_root ++ ("work" ∷ new_job_id ∷ []));
            })

  plan_json : JobCreateRequest → Fields F
  plan_json body = field "version" (str "1") (
      field "goal_type" (str body.goal_type)
        (field "steps" (arr (strings ("video_to_subtitle_pipeline" ∷ []))) end))

  step_input : JobCreateRequest → JobPaths → Fields F
  step_input body paths = field "input_file" (str paths.input_file) (
      field "output_dir" (str paths.output_dir) (
        field "work_dir" (str paths.work_dir) (
          field "requested_outputs" (arr (strings body.outputs))
            (field "language" (or_null body.language) (field "quality" (str body.quality) end)))))

  unfoldable pub new_job : JobCreateRequest → JobPaths → NewJob F
  unfolding plan_json step_input
  new_job body paths =
      let plan_id = prefixed_id "plan" (env.hex 1) in
      record {
        job = record {
          id = new_job_id;
          goal_type = body.goal_type;
          input_file = paths.input_file;
          output_dir = paths.output_dir;
          status = JobStatus.queued;
          priority = body.priority;
          language = body.language;
          quality = body.quality;
          requested_outputs = body.outputs;
          user_request = body.user_request;
          plan_id = some plan_id;
          progress = env.floats.lit 0 1;
          error_message = none;
          created_at = env.clock 0;
          updated_at = env.clock 1;
          completed_at = none;
        };
        plan = record {
          id = plan_id;
          job_id = new_job_id;
          status = "queued";
          created_by = "rules";
          plan_schema_version = "1";
          plan_json = plan_json body;
          created_at = env.clock 2;
          updated_at = env.clock 3;
        };
        step = record {
          id = prefixed_id "step" (env.hex 2);
          job_id = new_job_id;
          plan_id = plan_id;
          step_type = "video_to_subtitle";
          tool_name = "video_to_subtitle_pipeline";
          status = Enums.StepStatus.queued;
          depends_on = [];
          assigned_node_id = none;
          assigned_at = none;
          claimed_at = none;
          assignment_epoch = 0;
          input_json = step_input body paths;
          output_json = none;
          retry_count = 0;
          max_retries = 2;
          started_at = none;
          completed_at = none;
          error_message = none;
        };
      }

  unfoldable pub create_job : Headers → JobCreateRequest → Handler F (Job F)
  unfolding insert_rows
  create_job headers body = do
    check (require_worker_auth env app headers)
    check (require (body.goal_type == "video_to_subtitle") unsupported_goal)
    paths ← check (job_paths body)
    let new = new_job body paths
    try_commit (insert_rows new)
    give new.job

  unfoldable pub list_jobs : Headers → ℕ → ℕ → Handler F (List (Job F))
  list_jobs headers limit offset = do
    check (require_worker_auth env app headers)
    read (λ db. take limit (drop offset db.jobs))

  unfoldable pub get_job : Headers → String → Handler F (Job F)
  get_job headers id = do
    check (require_worker_auth env app headers)
    found ← read (λ db. get_row job_id id db.jobs)
    check (or_raise found job_not_found)

module _ {F : Type 0} where
  abbrev pub is_completed : Step F → Bool
  is_completed s = same_status s.status Enums.StepStatus.completed

  -- job = session.get(Job, job_id); if job is None: return; …; session.commit()
  change_job : String → (Job F → Job F) → Db F → Db F
  change_job id change db = elim (get_row job_id id db.jobs) [
    | none ↦ db
    | some job ↦ record db { jobs = write_row job_id (change job) db.jobs }
  ]

module _ {F : Type 0} (env : Env F) where
  -- max(x, y)
  max_float : F → F → F
  max_float x y = if env.floats.lt x y then y else x

  unfoldable pub mark_job_running : String → Db F → Db F
  unfolding change_job max_float
  mark_job_running id = change_job id (λ job.
      if same_job_status job.status JobStatus.created || same_job_status job.status JobStatus.queued
      then record job {
        status = JobStatus.running;
        progress = max_float job.progress (env.floats.lit 10 1);
        updated_at = env.clock 1;
      }
      else job)

  -- round((completed / total) * 100, 2)
  unfoldable pub percent_done : ℕ → ℕ → F
  percent_done completed total =
      let ratio =
        env.floats.div (env.floats.of_int (pos completed)) (env.floats.of_int (pos total)) in
      env.floats.round (env.floats.mul ratio (env.floats.of_int (pos 100))) 2

  -- The Job after one of its steps completed.
  unfoldable pub completion : List (Step F) → Job F → Job F
  unfolding percent_done
  completion [] job = record job {
    status = JobStatus.failed;
    error_message = some "job has no steps";
    completed_at = some (env.clock 1);
    updated_at = env.clock 2;
  }
  completion (s ∷ ss) job =
      let steps = s ∷ ss in
      let completed = count is_completed steps in
      let job' = record job { progress = percent_done completed (length steps) } in
      if nat_eq completed (length steps)
      then record job' {
        status = JobStatus.completed;
        completed_at = some (env.clock 1);
        updated_at = env.clock 2;
      }
      else record job' { status = JobStatus.running; updated_at = env.clock 1 }

  unfoldable pub mark_job_after_step_completion : String → Db F → Db F
  unfolding change_job completion
  mark_job_after_step_completion id db =
      change_job id (completion (select (λ s. s.job_id == id) db.steps)) db

  unfoldable pub mark_job_failed : String → String → Db F → Db F
  unfolding change_job
  mark_job_failed id error_message = change_job id (λ job. record job {
    status = JobStatus.failed;
    error_message = some error_message;
    completed_at = some (env.clock 1);
    updated_at = env.clock 2;
  })
