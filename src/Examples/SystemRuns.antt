-- ===== src/Examples/SystemRuns.antt =====
-- A Worker and a Controller: the Worker runs the last Step of a Job, well and badly.
use media_orchard.Prelude.{
  String, ◌≡◌, ◌≢◌, refl, false, Option, none, some, List, [], ◌==◌, if◌then◌else◌,
}
use media_orchard.Prelude.Results.{Result, ok, err}
use media_orchard.Prelude.Int.{ℤ, pos}
use media_orchard.Prelude.Json.{Json, Fields, str, int, obj, end, field, get}
use media_orchard.Prelude.Tables.{get_row}
use media_orchard.Prelude.Rows.{All-get_row}
use media_orchard.Shared.Enums
use media_orchard.Shared.Enums.{JobStatus}
use media_orchard.Controller.Models.{Job}
use media_orchard.Controller.Api.{HttpError, step_id, job_id}
use media_orchard.Controller.Api.Server.{Request, steps_start, steps_complete, steps_fail, Response}
use media_orchard.Controller.Api.Server.History.{row}
use media_orchard.Controller.Api.Server.Finishing.{finished}
use media_orchard.Worker.Agent.{Post, start, complete, fail}
use media_orchard.Worker.Execution.{
  required_step_str, required_step_int, is_failed, execute_claimed_step,
}
use media_orchard.Worker.Execution.Service.{
  Link, IsLinked, served, transport_to, execute_claimed_step-finishes,
}
use media_orchard.Worker.Execution.Failures.{crashed, execute_claimed_step-fails}
use media_orchard.Controller.Api.Server.Failing.{broken}
use media_orchard.Examples.Fixtures.{env, app, headers, hundredths}
use media_orchard.Examples.ApiRuns.{running_job, accepted_key, own_node}
use media_orchard.Examples.JobRuns.{last_step, db, distinct_steps, other_steps, its_job}

abbrev output_of : Option (Json ℤ) → Fields ℤ
output_of (some (obj output)) = output
output_of _ = end

abbrev text_of : Option (Json ℤ) → String
text_of (some (str text)) = text
text_of _ = ""

abbrev route_of : Post ℤ → Request ℤ
route_of p =
    if p.path == "/steps/step_1/start"
    then steps_start "step_1" (pos 1)
    else if p.path == "/steps/step_1/fail"
    then steps_fail "step_1"
        (record { assignment_epoch = pos 1; error_message = text_of (get "error_message" p.json) })
    else steps_complete "step_1"
        (record { assignment_epoch = pos 1; output_json = output_of (get "output_json" p.json) })

abbrev answer_of : Result HttpError (Response ℤ) → Result String (Option (Fields ℤ))
answer_of (ok response) = ok none
answer_of (err e) = err "Controller request failed"

abbrev link : Link ℤ
link = record { route = route_of; headers = headers; env = λ log. env; answer = answer_of }

linked : IsLinked link app "mini" last_step
unfolding start complete fail
linked = record {
  authorized = λ log. accepted_key;
  named = own_node;
  start_routed = refl;
  complete_routed = λ output. refl;
  fail_routed = λ message. refl;
  answered = λ response. (none, refl);
}

abbrev claimed : Fields ℤ
claimed = field "id" (str "step_1") (field "assignment_epoch" (int (pos 1)) end)

abbrev output : Fields ℤ
output = field "status" (str "completed") end

its_id : required_step_str claimed "id" ≡ ok "step_1"
unfolding required_step_str
its_id = refl

its_epoch : required_step_int claimed "assignment_epoch" ≡ ok (int (pos 1))
unfolding required_step_int
its_epoch = refl

succeeds : is_failed output ≡ false
unfolding is_failed
succeeds = refl

execute_claimed_step-finishes_example :
    (log : List (Post ℤ)) × (execute_claimed_step hundredths
        (λ value. "")
        (transport_to link app db)
        (λ step. ok output)
        claimed
        []
      ≡ (ok tt, log))
    × (row "step_1" (served link app log db) ≡ some (finished env env last_step output))
    × ((job : Job ℤ) × (get_row job_id last_step.job_id (served link app log db).jobs ≡ some job)
        × (job.status ≡ JobStatus.completed))
execute_claimed_step-finishes_example =
    execute_claimed_step-finishes link app "mini" last_step linked db distinct_steps refl refl refl
      output hundredths (λ value. "") (λ step. ok output) claimed running_job its_id its_epoch refl
      succeeds its_job
      λ t n g _.
        All-get_row step_id (λ r. r.id ≢ "step_1" → r.status ≡ Enums.StepStatus.completed) t.id
          db.steps t other_steps g n

execute_claimed_step-fails_example :
    (log : List (Post ℤ)) × (execute_claimed_step hundredths
        (λ value. "")
        (transport_to link app db)
        (λ step. err "no runner")
        claimed
        []
      ≡ (ok tt, log))
    × (row "step_1" (served link app log db) ≡ some (broken env env last_step "no runner"))
    × ((job : Job ℤ) × (get_row job_id last_step.job_id (served link app log db).jobs ≡ some job)
        × (job.status ≡ JobStatus.failed)
        × (job.error_message ≡ some "no runner"))
execute_claimed_step-fails_example =
    execute_claimed_step-fails link app "mini" last_step linked db distinct_steps refl refl refl
      hundredths (λ value. "") (λ step. err "no runner") claimed "no runner" running_job its_id
      its_epoch (crashed refl) its_job
