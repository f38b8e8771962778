-- ===== src/Examples/JobRuns.antt =====
-- A Job with two Steps, one of which is completed already, and requests to an empty database.
use media_orchard.Prelude.{String, ◌≡◌, refl, ◌≢◌, none, some, List, [], ◌∷◌, arith, eq_iff, All}
use media_orchard.Prelude.Int.{ℤ, pos}
use media_orchard.Prelude.Json.{end}
use media_orchard.Prelude.Tables.{get_row, HasDistinctKeys}
use media_orchard.Prelude.Rows.{All-get_row}
use media_orchard.Shared.Enums
use media_orchard.Shared.Enums.{JobStatus}
use media_orchard.Controller.Models.{Job, Step}
use media_orchard.Controller.Api.{Db, step_id, job_id}
use media_orchard.Controller.Api.Jobs.{new_job}
use media_orchard.Controller.Api.Server.{Call, nodes_register, jobs_create, serve}
use media_orchard.Controller.Api.Settled.{IsSettled}
use media_orchard.Controller.Api.Settled.Reached.{empty_db, serve-IsSettled}
use media_orchard.Controller.Api.Server.History.{row}
use media_orchard.Controller.Api.Server.Finishing.{finishing, finished, serve-finishes}
use media_orchard.Examples.Fixtures.{env, app, headers, assigned_step, completed_step, mini}
use media_orchard.Examples.ApiRuns.{running_job, accepted_key, own_node}

abbrev pub last_step : Step ℤ
last_step = record assigned_step { job_id = running_job.id }

abbrev pub db : Db ℤ
db = record {
  nodes = mini ∷ [];
  jobs = running_job ∷ [];
  plans = [];
  steps = record completed_step { id = "step_0"; job_id = running_job.id } ∷ last_step ∷ [];
}

pub distinct_steps : HasDistinctKeys step_id db.steps
distinct_steps = ((λ same. ground (arith, eq_iff "step_0" "step_1"), tt), (tt, tt))

pub other_steps : All (λ t. t.id ≢ "step_1" → t.status ≡ Enums.StepStatus.completed) db.steps
other_steps = (λ _. refl, (λ n. absurd (n refl), tt))

pub its_job : get_row job_id last_step.job_id db.jobs ≡ some running_job
unfolding new_job
its_job = refl

serve-finishes_example :
    (row "step_1" (serve app (finishing env env headers headers last_step end) db)
      ≡ some (finished env env last_step end))
    × ((other : String)
        → other ≢ last_step.id
        → row other (serve app (finishing env env headers headers last_step end) db) ≡ row other db)
    × ((job : Job ℤ) × (get_row job_id last_step.job_id
            (serve app (finishing env env headers headers last_step end) db).jobs
          ≡ some job)
        × (job.status ≡ JobStatus.completed))
serve-finishes_example =
    serve-finishes env env app headers headers "mini" accepted_key accepted_key own_node own_node
      last_step end db running_job distinct_steps refl refl refl its_job
      λ t n g _.
        All-get_row step_id (λ r. r.id ≢ "step_1" → r.status ≡ Enums.StepStatus.completed) t.id
          db.steps t other_steps g n

-- A Worker's node registers, a client creates a Job, and the node says that it is there.
abbrev calls : List (Call ℤ)
calls =
    record {
      env = env;
      headers = headers;
      request = nodes_register (record {
        node_id = "mini";
        name = "Mac mini";
        shared_root = "/srv/media";
        max_ffmpeg_jobs = pos 1;
        max_whisper_jobs = pos 1;
      });
    }
    ∷ record {
      env = env;
      headers = headers;
      request = jobs_create (record {
        goal_type = "video_to_subtitle";
        input_file = "/srv/media/in.mp4";
        outputs = "srt" ∷ [];
        language = none;
        quality = "standard";
        priority = pos 5;
        user_request = none;
      });
    }
    ∷ []

serve-IsSettled_example : IsSettled (serve app calls empty_db)
serve-IsSettled_example = serve-IsSettled app calls
