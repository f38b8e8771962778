-- ===== src/Examples/ApiRuns.antt =====
-- Requests to the Controller on a database of two Steps.
use media_orchard.Prelude.{
  ◌≤◌, ◌≡◌, refl, ◌≢◌, inl, true, false, none, some, List, [], ◌∷◌, arith, eq_iff,
}
use media_orchard.Prelude.Results.{ok, err}
use media_orchard.Prelude.Int.{ℤ, pos}
use media_orchard.Prelude.Tables.{HasDistinctKeys}
use media_orchard.Shared.Enums.{assigned, running, completed, failed, StepStatus-discrete}
use media_orchard.Shared.DateTimes.{aware}
use media_orchard.Prelude.Json.{end}
use Prim.Native.String
use media_orchard.Controller.Models.{Job, Step}
use media_orchard.Controller.Api.Jobs.{new_job}
use media_orchard.Shared.Security.{verify_api_key, hash_api_key}
use media_orchard.Shared.Texts.{after_char}
use media_orchard.Controller.Api.Auth.{
  require_worker_auth, require_worker_node_id, is_bearer, presented_key,
}
use media_orchard.Controller.Api.Steps.{
  is_unchanged, is_claimable, persist_step_update, claim_write, complete_write, fail_write,
  claim_next,
}
use media_orchard.Controller.Api.Steps.Fencing.{
  IsWritten, persist_step_update-IsWritten, claim_write-once, finish_write-once,
}
use media_orchard.Controller.Api.Steps.Claiming.{
  IsClaimAnswer, claim_next-IsClaimAnswer, lease_outlives_recovery,
}
use media_orchard.Controller.Api.Server.{
  jobs_list, steps_claim, steps_start, steps_complete, handle, Call, serve,
}
use media_orchard.Controller.Api.Server.Rows.{Along, StepMoves}
use media_orchard.Controller.Api.Server.History.{
  row, serve-StepMoves, serve-Along, serve-terminal, serve-epoch,
}
use media_orchard.Controller.Api.Server.Access.{handle-unauthorized}
use media_orchard.Controller.Api.{missing_credentials, step_changed, step_id}
use media_orchard.Examples.Fixtures.{
  env, app, headers, db_with, claim_of, queued_step, assigned_step, running_step, completed_step,
  recovered_step, reassigned_step, recovered, reassigned,
}

distinct_ids : (s : Step ℤ) → s.id ≡ "step_1" → HasDistinctKeys step_id (db_with s).steps
distinct_ids s e = ((λ same. ground (arith, eq_iff "step_0" "step_1"), tt), (tt, tt))

-- The owner claims, starts and completes the Step.
abbrev calls : List (Call ℤ)
calls =
    record { env = env; headers = headers; request = steps_claim "step_1" (pos 1) }
    ∷ record { env = env; headers = headers; request = steps_start "step_1" (pos 1) }
    ∷ record {
      env = env;
      headers = headers;
      request = steps_complete "step_1" (record { assignment_epoch = pos 1; output_json = end });
    }
    ∷ []

serve-StepMoves_example :
    (t : Step ℤ) × (row "step_1" (serve app calls (db_with assigned_step)) ≡ some t)
    × StepMoves assigned_step t
serve-StepMoves_example =
    serve-StepMoves app calls (db_with assigned_step) (distinct_ids assigned_step refl) "step_1"
      assigned_step refl

serve-Along_example :
    (t : Step ℤ) × (row "step_1" (serve app calls (db_with assigned_step)) ≡ some t)
    × Along assigned_step.status t.status
serve-Along_example =
    serve-Along app calls (db_with assigned_step) (distinct_ids assigned_step refl) "step_1"
      assigned_step refl

serve-terminal_example :
    row "step_1" (serve app calls (db_with completed_step)) ≡ some completed_step
serve-terminal_example =
    serve-terminal app calls (db_with completed_step) (distinct_ids completed_step refl) "step_1"
      completed_step refl tt

serve-epoch_example :
    (t : Step ℤ) × (row "step_1" (serve app calls (db_with assigned_step)) ≡ some t)
    × (1 ≤ t.assignment_epoch)
    × (t.assignment_epoch ≡ 1 → t.assigned_node_id ≡ some "mini")
serve-epoch_example =
    serve-epoch app calls (db_with assigned_step) (distinct_ids assigned_step refl) "step_1"
      assigned_step refl

other_key :
    app.api_key_hash
    ≢ String.◌++◌ "sha256:"
        (env.sha256_hex (presented_key (record headers { authorization = some "Bearer other" })))
unfolding presented_key is_bearer after_char
other_key e = ground (arith, eq_iff "sha256:key" "sha256:other")

handle-unauthorized_example :
    handle env app
      (record headers { authorization = some "Bearer other" })
      (jobs_list 100 0)
      (db_with queued_step)
    ≡ (err missing_credentials, db_with queued_step)
handle-unauthorized_example =
    handle-unauthorized env app (record headers { authorization = some "Bearer other" })
      (jobs_list 100 0) (db_with queued_step) other_key

persist_step_update-IsWritten_example :
    IsWritten
      (claim_of assigned_step)
      (assigned ∷ [])
      (λ s. record s { status = running })
      false
      (db_with assigned_step)
      (persist_step_update
        (claim_of assigned_step)
        (assigned ∷ [])
        (λ s. record s { status = running })
        false
        (db_with assigned_step))
persist_step_update-IsWritten_example =
    persist_step_update-IsWritten (claim_of assigned_step) (assigned ∷ [])
      (λ s. record s { status = running }) false (db_with assigned_step) (λ r. refl)
      (distinct_ids assigned_step refl)

-- `assigned_step` with a lease of the claims' time.
abbrev leased_step : Step ℤ
leased_step = record assigned_step { claimed_at = some (aware 2_000) }

first_claim :
    claim_write env (claim_of assigned_step) (db_with assigned_step)
    ≡ (ok leased_step, db_with leased_step)
unfolding claim_write persist_step_update StepStatus-discrete
first_claim = refl

claim_write-once_example :
    claim_write env (claim_of assigned_step) (db_with leased_step)
    ≡ (err step_changed, db_with leased_step)
claim_write-once_example =
    claim_write-once env env (claim_of assigned_step) (claim_of assigned_step)
      (db_with assigned_step) (db_with leased_step) leased_step (distinct_ids assigned_step refl)
      refl first_claim

-- `running_step` after its completion.
abbrev finished_step : Step ℤ
finished_step = record running_step {
  status = completed;
  output_json = some end;
  completed_at = some (aware 2_000);
}

first_completion :
    complete_write env (claim_of running_step) completed end (db_with running_step)
    ≡ (ok finished_step, db_with finished_step)
unfolding complete_write persist_step_update StepStatus-discrete
first_completion = refl

finish_write-once_example :
    (complete_write env (claim_of running_step) completed end (db_with finished_step)
      ≡ (err step_changed, db_with finished_step))
    × (fail_write env (claim_of running_step) failed "boom" (db_with finished_step)
        ≡ (err step_changed, db_with finished_step))
finish_write-once_example =
    finish_write-once env env (claim_of running_step) (claim_of running_step) (db_with running_step)
      (db_with finished_step) finished_step end end "timeout" "boom"
      (distinct_ids running_step refl) refl (inl first_completion)

pub accepted_key : require_worker_auth env app headers ≡ ok tt
unfolding require_worker_auth verify_api_key hash_api_key presented_key is_bearer after_char
accepted_key = refl

pub own_node : require_worker_node_id headers ≡ ok "mini"
unfolding require_worker_node_id
own_node = refl

claim_next-IsClaimAnswer_example :
    IsClaimAnswer env "mini"
      (db_with assigned_step)
      (claim_next env app headers "mini" (db_with assigned_step))
claim_next-IsClaimAnswer_example =
    claim_next-IsClaimAnswer env app headers "mini" (db_with assigned_step) accepted_key own_node
      (distinct_ids assigned_step refl)

lease_outlives_recovery_example :
    (is_claimable "mini" reassigned_step ≡ false)
    × (is_unchanged (claim_of reassigned_step) (assigned ∷ []) true reassigned_step ≡ false)
lease_outlives_recovery_example =
    lease_outlives_recovery running_step recovered_step reassigned_step (aware 1_100) (aware 3_000)
      "mini" "mini" (claim_of reassigned_step) refl recovered reassigned

-- A new Job.
abbrev pub running_job : Job ℤ
running_job =
    (new_job env app
      (record {
        goal_type = "video_to_subtitle";
        input_file = "/srv/media/in.mp4";
        outputs = "srt" ∷ [];
        language = none;
        quality = "standard";
        priority = pos 5;
        user_request = none;
      })
      (record { input_file = ""; output_dir = ""; work_dir = "" })).job
