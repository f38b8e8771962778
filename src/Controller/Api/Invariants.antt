-- ===== src/Controller/Api/Invariants.antt =====
-- Invariants of the database: what a property has to survive so that every request keeps it.
pub mod Requests
pub mod Arrivals
use media_orchard.Prelude.{
  String, ◌≡◌, refl, inl, inr, Bool, true, List, nat_eq, Bool-cases, count, Both,
}
use media_orchard.Prelude.Results.{Result, ok, err}
use media_orchard.Prelude.Tables.{update_where, update_where-Both}
use media_orchard.Shared.Enums
use media_orchard.Shared.Enums.{StepStatus}
use media_orchard.Controller.Models.{Node, Step}
use media_orchard.Controller.Api.Jobs.{
  JobCreateRequest, insert_rows, new_job, JobPaths, mark_job_running, mark_job_failed,
  mark_job_after_step_completion,
}
use media_orchard.Controller.Api.Steps.{Claim, is_unchanged, persist_step_update}
use media_orchard.Controller.Api.Server.Rows.{StepMove, StepMoves, stay, StepMoves-one}
use media_orchard.Controller.Api.Server.Evolution.{HasDistinctSteps}
use media_orchard.Controller.Api.{
  Env, App, Db, HttpError, Handler, give, check, read, commit, try_commit, committed, continue,
  ◌>>=◌,
}

-- The handler maintains the property, whether it returns or raises.
pub record Maintains {F : Type 0} (I : Db F → Type 0) {A : Type 0} (m : Handler F A) : Type 0 where
  pub at : (db : Db F) → I db → I (m db).1

-- The changes of the database that requests are made of.
pub record IsInvariant {F : Type 0} (I : Db F → Type 0) : Type 0 where
  pub distinct : (db : Db F) → I db → HasDistinctSteps db
  pub moved :
      (db : Db F) (rows : List (Step F))
      → Both StepMoves db.steps rows
      → I db
      → I (record db { steps = rows })
  pub nodes_changed : (db : Db F) (nodes : List (Node F)) → I db → I (record db { nodes = nodes })
  pub marked_running :
      (env : Env F) (id : String) (db : Db F) → I db → I (mark_job_running env id db)
  pub marked_failed :
      (env : Env F) (id message : String) (db : Db F) → I db → I (mark_job_failed env id message db)
  pub marked_after_completion :
      (env : Env F) (id : String) (db : Db F) → I db → I (mark_job_after_step_completion env id db)
  pub inserted :
      (env : Env F) (app : App) (body : JobCreateRequest) (paths : JobPaths) (db db' : Db F)
      → I db
      → insert_rows (new_job env app body paths) db ≡ ok db'
      → I db'

module _ {F : Type 0} {I : Db F → Type 0} where
  pub Maintains-check :
      {A B : Type 0} (r : Result HttpError A) (k : A → Handler F B)
      → ((a : A) → r ≡ ok a → Maintains I (k a))
      → Maintains I (check r >>= k)
  unfolding ◌>>=◌
  Maintains-check (ok a) k h = record { at = λ db s. (h a refl).at db s }
  Maintains-check (err e) k h = record { at = λ db s. s }

  Maintains-continue :
      {A B : Type 0} (r : Result HttpError A) (k : A → Handler F B)
      → ((a : A) → Maintains I (k a))
      → (db : Db F) → I db
      → I (continue r k db).1
  Maintains-continue (ok a) k q = (q a).at
  Maintains-continue (err e) k q = λ db s. s

  pub Maintains-bind :
      {A B : Type 0} (m : Handler F A) (k : A → Handler F B)
      → Maintains I m
      → ((a : A) → Maintains I (k a))
      → Maintains I (m >>= k)
  unfolding ◌>>=◌
  Maintains-bind m k p q = record {
    at = λ db s. let (r, db') = m db in Maintains-continue r k q db' (p.at db s);
  }

  pub Maintains-read : {A : Type 0} (f : Db F → A) → Maintains I (read f)
  unfolding ◌>>=◌
  Maintains-read f = record { at = λ db s. s }

  pub Maintains-give : {A : Type 0} (a : A) → Maintains I (give a)
  unfolding ◌>>=◌
  Maintains-give a = record { at = λ db s. s }

  pub Maintains-pure_check : {A : Type 0} (r : Result HttpError A) → Maintains I (check r)
  unfolding ◌>>=◌
  Maintains-pure_check r = record { at = λ db s. s }

  pub Maintains-commit :
      (f : Db F → Db F) → ((db : Db F) → I db → I (f db)) → Maintains I (commit f)
  unfolding ◌>>=◌
  Maintains-commit f h = record { at = h }

  committed-at :
      (db : Db F) (r : Result HttpError (Db F))
      → I db
      → ((db' : Db F) → r ≡ ok db' → I db')
      → I (committed r db).1
  committed-at db (ok db') s h = h db' refl
  committed-at db (err e) s h = s

  pub Maintains-try_commit :
      (f : Db F → Result HttpError (Db F))
      → ((db db' : Db F) → I db → f db ≡ ok db' → I db')
      → Maintains I (try_commit f)
  unfolding ◌>>=◌
  Maintains-try_commit f h = record {
    at = λ db s. committed-at db (f db) s (λ db' e. h db db' s e);
  }

  pub persist-Maintains :
      IsInvariant I
      → (c : Claim F) (from : List StepStatus) (values : Step F → Step F) (flag : Bool)
      → ((r : Step F) → is_unchanged c from flag r ≡ true → StepMove r (values r))
      → Maintains I (persist_step_update c from values flag)
  unfolding persist_step_update
  persist-Maintains laws c from values flag moves = record {
    at = λ db s. elim (Bool-cases (nat_eq (count (is_unchanged c from flag) db.steps) 1)) [
      | inl one ↦
          rw (one, persist_step_update)
            (laws.moved db (update_where (is_unchanged c from flag) values db.steps)
              (update_where-Both StepMoves (is_unchanged c from flag) values (λ r. stay refl)
                (λ r e. StepMoves-one (moves r e)) db.steps)
              s)
      | inr other ↦ rw (other, persist_step_update) s
    ];
  }

-- The rules for the ways to build a handler.
pub ruleset maintains_rules =
    (Maintains-check, Maintains-bind, Maintains-read, Maintains-give, Maintains-pure_check)
