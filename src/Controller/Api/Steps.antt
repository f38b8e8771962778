-- ===== src/Controller/Api/Steps.antt =====
-- The Step endpoints of create_app. Each reads the Step, checks it, and then writes by a
-- conditional UPDATE, which other requests may precede: the two phases are functions of their own.
pub mod Fencing
pub mod Claiming
pub mod Answers
use media_orchard.Prelude.{
  String, Bool, true, false, not, ◌&&◌, ◌||◌, Option, none, some, List, [], ◌∷◌, ◌==◌, ltb, nat_eq,
  if◌then◌else◌, select, count,
}
use media_orchard.Prelude.Results.{Result, ok, err, require}
use media_orchard.Prelude.Int.{ℤ, pos}
use media_orchard.Prelude.Json.{Json, Fields, null, float, str, obj, end, field, put}
use media_orchard.Prelude.Order.{sort}
use media_orchard.Prelude.Tables.{update_where, get_row}
use media_orchard.Shared.Enums.{StepStatus, assigned, running, completed, failed}
use media_orchard.Shared.DateTimes.{DateTime, instant}
use media_orchard.Controller.Models.{Step}
use media_orchard.Controller.StateMachine.{
  TransitionError, same_status, is_in, transition_step, validate_assignment_epoch,
}
use media_orchard.Controller.Api.Auth.{require_worker_auth, require_worker_node_id}
use media_orchard.Controller.Api.Jobs.{
  mark_job_running, mark_job_after_step_completion, mark_job_failed,
}
use media_orchard.Controller.Api.{
  Env, App, Db, Headers, HttpError, node_id_mismatch, not_owner, step_not_found, bad_transition,
  step_changed, step_not_assigned, invalid_body, or_raise, Handler, give, check, read, commit,
  ◌>>=◌, ◌>>◌, step_id, job_id, node_id,
}

pub record StepProgressRequest (F : Type 0) : Type 0 where
  pub assignment_epoch : ℤ
  pub percent : Option F
  pub message : Option String

pub record StepCompleteRequest (F : Type 0) : Type 0 where
  pub assignment_epoch : ℤ
  pub output_json : Fields F

pub record StepFailRequest : Type 0 where
  pub assignment_epoch : ℤ
  pub error_message : String

-- A Step as a request read it, and the Worker that sent the request.
pub record Claim (F : Type 0) : Type 0 where
  pub step : Step F
  pub worker : String

abbrev pub in_transition : {A : Type 0} → Result TransitionError A → Result HttpError A
in_transition (ok a) = ok a
in_transition (err e) = err (bad_transition e)

abbrev pub is_none {ℓ} : {A : Type ℓ} → Option A → Bool
is_none none = true
is_none (some a) = false

-- column == text
abbrev pub is_text : Option String → String → Bool
is_text none s = false
is_text (some t) s = t == s

-- ORDER BY assigned_at: NULL comes first, and equal times keep the table's order.
abbrev assigned_before : Option DateTime → Option DateTime → Bool
assigned_before none none = false
assigned_before none (some _) = true
assigned_before (some _) none = false
assigned_before (some t) (some u) = ltb (instant t) (instant u)

module _ {F : Type 0} where
  -- The WHERE clauses of `persist_step_update_or_409`.
  abbrev pub is_unchanged : Claim F → List StepStatus → Bool → Step F → Bool
  is_unchanged c from_statuses require_unclaimed row =
      row.id == c.step.id
      && (nat_eq row.assignment_epoch c.step.assignment_epoch
          && (is_text row.assigned_node_id c.worker
              && (is_in row.status from_statuses
                  && (not require_unclaimed || is_none row.claimed_at))))

  -- `values` are the columns that the UPDATE sets.
  unfoldable pub persist_step_update :
      Claim F → List StepStatus → (Step F → Step F) → Bool → Handler F (Step F)
  persist_step_update c from_statuses values require_unclaimed db =
      let where_clause = is_unchanged c from_statuses require_unclaimed in
      if nat_eq (count where_clause db.steps) 1
      then (let db' = record db { steps = update_where where_clause values db.steps } in
          (or_raise (get_row step_id c.step.id db'.steps) step_not_found, db'))
      else (err step_changed, db)

  or_null_float : Option F → Json F
  or_null_float none = null
  or_null_float (some x) = float x

  or_null_text : Option String → Json F
  or_null_text none = null
  or_null_text (some s) = str s

  or_empty : Option (Fields F) → Fields F
  or_empty none = end
  or_empty (some fs) = fs

  -- {**(output or {}), "progress": {"percent": …, "message": …}}
  with_progress : StepProgressRequest F → Option (Fields F) → Fields F
  unfolding or_null_float or_null_text or_empty
  with_progress body output =
      put "progress"
        (obj (
          field "percent" (or_null_float body.percent)
            (field "message" (or_null_text body.message) end)))
        (or_empty output)

  -- The WHERE clauses that the SELECT and the UPDATE of claim_next share.
  abbrev pub is_claimable : String → Step F → Bool
  is_claimable worker s =
      same_status s.status assigned && (is_text s.assigned_node_id worker && is_none s.claimed_at)

  abbrev head? : List (Step F) → Option (Step F)
  head? [] = none
  head? (s ∷ _) = some s

  -- The SELECT of claim_next.
  unfoldable pub next_claimable : String → Db F → Option (Step F)
  unfolding instant
  next_claimable worker db = head? (
      sort (λ s t. assigned_before s.assigned_at t.assigned_at)
        (select (is_claimable worker) db.steps))

module _ {F : Type 0} (env : Env F) where
  -- Field(default=None, ge=0, le=100)
  valid_percent : Option F → Bool
  valid_percent none = true
  valid_percent (some x) =
      env.floats.le (env.floats.of_int (pos 0)) x && env.floats.le x (env.floats.of_int (pos 100))

  -- The UPDATE of claim_next; `none` is the answer 204.
  unfoldable pub claim_row : String → Step F → Handler F (Option (Step F))
  claim_row worker step db =
      let where_clause = λ (s : Step F). s.id == step.id && is_claimable worker s in
      if nat_eq (count where_clause db.steps) 1
      then (let steps =
            update_where where_clause (λ s. record s { claimed_at = some (env.clock 0) })
              db.steps in
          (ok (get_row step_id step.id steps), record db { steps = steps }))
      else (ok none, db)

  unfoldable pub claim_found : String → Option (Step F) → Handler F (Option (Step F))
  unfolding claim_row
  claim_found worker none = give none
  claim_found worker (some step) = claim_row worker step

  -- The second phases: the UPDATE of each request, on the database as it is by then.
  unfoldable pub start_write : Claim F → StepStatus → Handler F (Step F)
  start_write c status =
      persist_step_update c (assigned ∷ [])
        (λ s. record s { status = status; started_at = some (env.clock 0) }) false

  unfoldable pub progress_write : Claim F → StepProgressRequest F → Handler F (Step F)
  unfolding with_progress
  progress_write c body =
      persist_step_update c (running ∷ [])
        (λ s. record s { output_json = some (with_progress body c.step.output_json) }) false

  unfoldable pub complete_write : Claim F → StepStatus → Fields F → Handler F (Step F)
  complete_write c status output =
      persist_step_update c (running ∷ [])
        (λ s. record s {
          status = status;
          output_json = some output;
          completed_at = some (env.clock 0);
        })
        false

  unfoldable pub fail_write : Claim F → StepStatus → String → Handler F (Step F)
  fail_write c status message =
      persist_step_update c (assigned ∷ running ∷ [])
        (λ s. record s {
          status = status;
          error_message = some message;
          completed_at = some (env.clock 0);
        })
        false

  unfoldable pub claim_write : Claim F → Handler F (Step F)
  claim_write c =
      persist_step_update c (assigned ∷ []) (λ s. record s { claimed_at = some (env.clock 0) }) true

module _ {F : Type 0} (env : Env F) (app : App) where
  -- The first phase of every lifecycle request, up to the epoch.
  unfoldable pub owned_step : Headers → String → ℤ → Bool → Handler F (Claim F)
  owned_step headers id epoch valid_body = do
    check (require_worker_auth env app headers)
    worker ← check (require_worker_node_id headers)
    check (require valid_body invalid_body)
    found ← read (λ db. get_row step_id id db.steps)
    step ← check (or_raise found step_not_found)
    check (require (is_text step.assigned_node_id worker) not_owner)
    check (in_transition (validate_assignment_epoch step epoch))
    give (record { step = step; worker = worker })

  -- … and the status that the request leads to
  unfoldable pub next_status : Claim F → StepStatus → Handler F StepStatus
  next_status c target = check (in_transition (transition_step c.step.status target))

  unfoldable pub start_step : Headers → String → ℤ → Handler F (Step F)
  unfolding start_write
  start_step headers id epoch = do
    c ← owned_step headers id epoch true
    status ← next_status c running
    updated ← start_write env c status
    commit (mark_job_running env updated.job_id)
    give updated

  unfoldable pub progress_step : Headers → String → StepProgressRequest F → Handler F (Step F)
  unfolding progress_write valid_percent
  progress_step headers id body = do
    c ← owned_step headers id body.assignment_epoch (valid_percent env body.percent)
    progress_write env c body

  unfoldable pub complete_step : Headers → String → StepCompleteRequest F → Handler F (Step F)
  unfolding complete_write
  complete_step headers id body = do
    c ← owned_step headers id body.assignment_epoch true
    status ← next_status c completed
    updated ← complete_write env c status body.output_json
    commit (mark_job_after_step_completion env updated.job_id)
    give updated

  unfoldable pub fail_step : Headers → String → StepFailRequest → Handler F (Step F)
  unfolding fail_write
  fail_step headers id body = do
    c ← owned_step headers id body.assignment_epoch true
    status ← next_status c failed
    updated ← fail_write env c status body.error_message
    commit (mark_job_failed env updated.job_id body.error_message)
    give updated

  unfoldable pub claim_step : Headers → String → ℤ → Handler F (Step F)
  unfolding claim_write
  claim_step headers id epoch = do
    c ← owned_step headers id epoch true
    check (require (same_status c.step.status assigned) step_not_assigned)
    claim_write env c

  -- `node_id` is the body's.
  unfoldable pub claim_next : Headers → String → Handler F (Option (Step F))
  unfolding claim_found next_claimable
  claim_next headers node_id = do
    check (require_worker_auth env app headers)
    worker ← check (require_worker_node_id headers)
    check (require (node_id == worker) node_id_mismatch)
    found ← read (next_claimable worker)
    claim_found env worker found
