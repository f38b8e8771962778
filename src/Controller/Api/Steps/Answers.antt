-- ===== src/Controller/Api/Steps/Answers.antt =====
-- The lifecycle requests of a Step's owner, in the order of the life of a Step.
use media_orchard.Prelude.{
  String, ◌≡◌, refl, sym, ap, ◌∙◌, subst, ◌≢◌, true, false, some, List, [], ◌∷◌, arith, eq_refl,
}
use media_orchard.Prelude.Results.{ok}
use media_orchard.Prelude.Int.{pos}
use media_orchard.Prelude.Json.{Fields}
use media_orchard.Prelude.Tables.{update_where, get_row, HasDistinctKeys, update_where-Both}
use media_orchard.Prelude.Growth.{HasDistinctKeys-Both}
use media_orchard.Prelude.Updates.{count_one, updated_row, other_row}
use media_orchard.Shared.Enums.{
  StepStatus, assigned, running, completed, failed, StepStatus-discrete,
}
use media_orchard.Controller.Models.{Step}
use media_orchard.Controller.StateMachine.{transition_step, validate_assignment_epoch}
use media_orchard.Controller.Api.Auth.{require_worker_auth, require_worker_node_id}
use media_orchard.Controller.Api.Jobs.{
  mark_job_running, mark_job_after_step_completion, mark_job_failed,
}
use media_orchard.Controller.Api.Steps.{
  Claim, is_text, is_unchanged, persist_step_update, owned_step, next_status, start_write,
  complete_write, start_step, complete_step, fail_write, fail_step,
}
use media_orchard.Controller.Api.Steps.Fencing.{IsFenced, is_unchanged-Names, IsFenced-is_unchanged}
use media_orchard.Controller.Api.{Env, App, Db, Headers, step_id, ◌>>=◌}

-- One row of a Step table with distinct ids is another, and the rest is the same.
pub record IsRewritten {F : Type 0} (old : List (Step F)) (s : Step F) (rows : List (Step F))
    : Type 0 where
  pub there : get_row step_id s.id rows ≡ some s
  pub others :
      (other : String) → other ≢ s.id → get_row step_id other rows ≡ get_row step_id other old
  pub distinct : HasDistinctKeys step_id rows

module _ {F : Type 0} where
  -- The UPDATE of a request that still holds the row.
  persist_step_update-IsRewritten :
      (c : Claim F) (from_statuses : List StepStatus) (values : Step F → Step F) (db : Db F)
      → ((r : Step F) → (values r).id ≡ r.id)
      → HasDistinctKeys step_id db.steps
      → get_row step_id c.step.id db.steps ≡ some c.step
      → IsFenced c from_statuses false c.step
      → (rows : List (Step F)) × (persist_step_update c from_statuses values false db
          ≡ (ok (values c.step), record db { steps = rows }))
        × IsRewritten db.steps (values c.step) rows
  unfolding persist_step_update
  persist_step_update-IsRewritten c from_statuses values db keeps d g f =
      let p = is_unchanged c from_statuses false in
      let names = is_unchanged-Names c from_statuses false in
      let holds = IsFenced-is_unchanged c from_statuses false c.step refl f in
      let one = count_one step_id c.step.id p names db.steps c.step d g holds in
      let (r, g', h, u) = updated_row step_id c.step.id p names values keeps db.steps d one in
      let same : r ≡ c.step = (let e = sym g' ∙ g in cc) in
      let found = u ∙ ap (λ x. some (values x)) same in
      (
        update_where p values db.steps,
        rw (one, found, persist_step_update) refl,
        record {
          there =
              subst (λ k. get_row step_id k (update_where p values db.steps) ≡ some (values c.step))
                (sym (keeps c.step)) found;
          others = λ other n.
              other_row step_id c.step.id p names values keeps other
                (λ e. n (e ∙ sym (keeps c.step))) db.steps;
          distinct =
              HasDistinctKeys-Both step_id (λ x y e. e)
                (update_where-Both (λ x y. y.id ≡ x.id) p values (λ r. refl) (λ r _. keeps r)
                  db.steps)
                d;
        },
      )

  own_epoch : (s : Step F) → validate_assignment_epoch s (pos s.assignment_epoch) ≡ ok tt
  unfolding validate_assignment_epoch
  own_epoch s = ground arith

  transition_step-running :
      (s : Step F) → s.status ≡ assigned → transition_step s.status running ≡ ok running
  unfolding transition_step StepStatus-discrete
  transition_step-running s e = rw e refl

  transition_step-completed :
      (s : Step F) → s.status ≡ running → transition_step s.status completed ≡ ok completed
  unfolding transition_step StepStatus-discrete
  transition_step-completed s e = rw e refl

  transition_step-failed :
      (s : Step F) → s.status ≡ running → transition_step s.status failed ≡ ok failed
  unfolding transition_step StepStatus-discrete
  transition_step-failed s e = rw e refl

module _ {F : Type 0} (env : Env F) (app : App) (headers : Headers) (worker : String)
    (authorized : require_worker_auth env app headers ≡ ok tt)
    (named : require_worker_node_id headers ≡ ok worker) where
  -- The checks let the owner of the Step pass under its epoch.
  owned_step-accepts :
      (s : Step F) (db : Db F)
      → get_row step_id s.id db.steps ≡ some s
      → s.assigned_node_id ≡ some worker
      → owned_step env app headers s.id (pos s.assignment_epoch) true db
        ≡ (ok (record { step = s; worker = worker }), db)
  unfolding owned_step ◌>>=◌
  owned_step-accepts s db g o =
      let owns : is_text s.assigned_node_id worker ≡ true = rw o (eq_refl worker) in
      rw (authorized, named, g, owns, own_epoch s) refl

  -- The owner starts the Step.
  pub start_step-starts :
      (s : Step F) (db : Db F)
      → HasDistinctKeys step_id db.steps
      → get_row step_id s.id db.steps ≡ some s
      → s.status ≡ assigned
      → s.assigned_node_id ≡ some worker
      → (rows : List (Step F)) × (start_step env app headers s.id (pos s.assignment_epoch) db ≡ (
        ok (record s { status = running; started_at = some (env.clock 0) }),
        mark_job_running env s.job_id (record db { steps = rows }),
      ))
        × IsRewritten db.steps (record s { status = running; started_at = some (env.clock 0) }) rows
  unfolding start_step start_write next_status StepStatus-discrete ◌>>=◌
  start_step-starts s db d g is_assigned o =
      let (rows, e, w) =
        persist_step_update-IsRewritten (record { step = s; worker = worker }) (assigned ∷ [])
          (λ r. record r { status = running; started_at = some (env.clock 0) }) db (λ r. refl) d g
          (record {
            same_epoch = refl;
            same_owner = o;
            from = rw is_assigned refl;
            free = λ u. cc;
          }) in
      (rows, rw (owned_step-accepts s db g o, transition_step-running s is_assigned, e) refl, w)

  -- The owner completes it with an output.
  pub complete_step-completes :
      (s : Step F) (output : Fields F) (db : Db F)
      → HasDistinctKeys step_id db.steps
      → get_row step_id s.id db.steps ≡ some s
      → s.status ≡ running
      → s.assigned_node_id ≡ some worker
      → (rows : List (Step F)) × (complete_step env app headers s.id
            (record { assignment_epoch = pos s.assignment_epoch; output_json = output })
            db
          ≡ (
            ok (record s {
              status = completed;
              output_json = some output;
              completed_at = some (env.clock 0);
            }),
            mark_job_after_step_completion env s.job_id (record db { steps = rows }),
          ))
        × IsRewritten db.steps
            (record s {
              status = completed;
              output_json = some output;
              completed_at = some (env.clock 0);
            })
            rows
  unfolding complete_step complete_write next_status StepStatus-discrete ◌>>=◌
  complete_step-completes s output db d g is_running o =
      let (rows, e, w) =
        persist_step_update-IsRewritten (record { step = s; worker = worker }) (running ∷ [])
          (λ r. record r {
            status = completed;
            output_json = some output;
            completed_at = some (env.clock 0);
          })
          db (λ r. refl) d g
          (record {
            same_epoch = refl;
            same_owner = o;
            from = rw is_running refl;
            free = λ u. cc;
          }) in
      (rows, rw (owned_step-accepts s db g o, transition_step-completed s is_running, e) refl, w)

  -- The owner reports that it has failed.
  pub fail_step-fails :
      (s : Step F) (message : String) (db : Db F)
      → HasDistinctKeys step_id db.steps
      → get_row step_id s.id db.steps ≡ some s
      → s.status ≡ running
      → s.assigned_node_id ≡ some worker
      → (rows : List (Step F)) × (fail_step env app headers s.id
            (record { assignment_epoch = pos s.assignment_epoch; error_message = message })
            db
          ≡ (
            ok (record s {
              status = failed;
              error_message = some message;
              completed_at = some (env.clock 0);
            }),
            mark_job_failed env s.job_id message (record db { steps = rows }),
          ))
        × IsRewritten db.steps
            (record s {
              status = failed;
              error_message = some message;
              completed_at = some (env.clock 0);
            })
            rows
  unfolding fail_step fail_write next_status StepStatus-discrete ◌>>=◌
  fail_step-fails s message db d g is_running o =
      let (rows, e, w) =
        persist_step_update-IsRewritten (record { step = s; worker = worker })
          (assigned ∷ running ∷ [])
          (λ r. record r {
            status = failed;
            error_message = some message;
            completed_at = some (env.clock 0);
          })
          db (λ r. refl) d g
          (record {
            same_epoch = refl;
            same_owner = o;
            from = rw is_running refl;
            free = λ u. cc;
          }) in
      (rows, rw (owned_step-accepts s db g o, transition_step-failed s is_running, e) refl, w)
