-- ===== src/Controller/Api/Server/History.antt =====
-- The application over any sequence of requests: what a row of the Step table can go through.
use media_orchard.Prelude.{
  ◌≤◌, String, ◌≡◌, refl, ap, ◌∙◌, subst, inl, inr, true, false, Option, some, List, [], ◌∷◌, ◌==◌,
  Bool-cases,
}
use media_orchard.Prelude.Tables.{get_row}
use media_orchard.Prelude.Growth.{Extends, added, kept}
use media_orchard.Controller.Models.{Step}
use media_orchard.Controller.Api.Server.{Call, serve}
use media_orchard.Controller.Api.Server.Rows.{
  StepMoves, IsTerminal, StepMoves-terminal, Along, Along-StepMoves, epoch-StepMoves,
  owner-StepMoves, id-StepMoves,
}
use media_orchard.Controller.Api.Server.Evolution.{
  Evolves, HasDistinctSteps, Evolves-refl, Evolves-trans, Both-Evolves, insert_rows-Evolves,
}
use media_orchard.Controller.Api.Invariants.{IsInvariant}
use media_orchard.Controller.Api.Invariants.Arrivals.{serve-IsInvariant}
use media_orchard.Controller.Api.Jobs.{new_job}
use media_orchard.Controller.Api.Jobs.Effects.{
  steps-mark_job_running, steps-mark_job_after_step_completion, steps-mark_job_failed,
}
use media_orchard.Controller.Api.{App, Db, step_id}

module _ {F : Type 0} where
  -- What the rows of a database have come to so far is an invariant.
  Evolves-IsInvariant : (start : Db F) → IsInvariant (Evolves start)
  Evolves-IsInvariant start = record {
    distinct = λ db e. e.distinct;
    moved = λ db rows moves e.
        Evolves-trans start db _ e (Both-Evolves db rows _ refl moves e.distinct);
    nodes_changed = λ db nodes e. record { rows = e.rows; distinct = e.distinct };
    marked_running = λ env id db e. same_steps start db _ (steps-mark_job_running env id db) e;
    marked_failed =
        λ env id message db e. same_steps start db _ (steps-mark_job_failed env id message db) e;
    marked_after_completion =
        λ env id db e. same_steps start db _ (steps-mark_job_after_step_completion env id db) e;
    inserted = λ env app body paths db db' e h.
        Evolves-trans start db db' e
          (insert_rows-Evolves (new_job env app body paths) db db' e.distinct h);
  }
    where
      same_steps :
          (start db db' : Db F) → db'.steps ≡ db.steps → Evolves start db → Evolves start db'
      same_steps start db db' same e = record {
        rows = rw same e.rows;
        distinct = rw same e.distinct;
      }

  serve-Evolves :
      (app : App) (calls : List (Call F)) (db : Db F)
      → HasDistinctSteps db
      → Evolves db (serve app calls db)
  serve-Evolves app calls db d =
      serve-IsInvariant (Evolves-IsInvariant db) app calls db (Evolves-refl db d)

-- The row with this id, in the tables before and after.
abbrev pub row : {F : Type 0} → String → Db F → Option (Step F)
row id db = get_row step_id id db.steps

module _ {F : Type 0} where
  get_row-Extends :
      (id : String) (rows rows' : List (Step F)) (s : Step F)
      → Extends StepMoves rows rows'
      → get_row step_id id rows ≡ some s
      → (t : Step F) × (get_row step_id id rows' ≡ some t) × StepMoves s t
  get_row-Extends id [] rows' s (added _) e = cc
  get_row-Extends id (r ∷ rs) [] s x e = elim x [ ]
  get_row-Extends id (r ∷ rs) (r' ∷ rs') s (kept m x) e = elim (Bool-cases (r.id == id)) [
    | inl found ↦
        let is_r : r ≡ s = (let e' = rw found at e in cc) in
        let found' : (r'.id == id) ≡ true = rw (id-StepMoves r r' m) found in
        (r', rw found' refl, subst (λ q. StepMoves q r') is_r m)
    | inr other ↦
        let other' : (r'.id == id) ≡ false = rw (id-StepMoves r r' m) other in
        let e' : get_row step_id id rs ≡ some s = rw other at e in
        let (t, q, moves) = get_row-Extends id rs rs' s x e' in (t, rw other' q, moves)
  ]

  module _ (app : App) (calls : List (Call F)) (db : Db F) (d : HasDistinctSteps db) (id : String)
      (s : Step F) (e : row id db ≡ some s) where
    -- A row of a Step table with distinct ids is still there after any requests, and they changed it
    -- by the moves of `StepMove` alone.
    pub serve-StepMoves : (t : Step F) × (row id (serve app calls db) ≡ some t) × StepMoves s t
    serve-StepMoves = get_row-Extends id db.steps _ s (serve-Evolves app calls db d).rows e

    -- With distinct ids in the Step table, the status of a row moves, over any requests, along the edges of the diagram.
    pub serve-Along :
        (t : Step F) × (row id (serve app calls db) ≡ some t) × Along s.status t.status
    serve-Along = let (t, q, m) = serve-StepMoves in (t, q, Along-StepMoves s t m)

    -- With distinct ids in the Step table, a row whose status is terminal is the same row after any requests.
    pub serve-terminal : IsTerminal s.status → row id (serve app calls db) ≡ some s
    serve-terminal h = let (t, q, m) = serve-StepMoves in q ∙ ap some (StepMoves-terminal s t h m)

    -- With distinct ids in the Step table: after any requests the epoch of a row is not lower, and if
    -- it is the same, so is the node that owns the row.
    pub serve-epoch :
        (t : Step F) × (row id (serve app calls db) ≡ some t)
        × (s.assignment_epoch ≤ t.assignment_epoch)
        × (t.assignment_epoch ≡ s.assignment_epoch → t.assigned_node_id ≡ s.assigned_node_id)
    serve-epoch =
        let (t, q, m) = serve-StepMoves in (t, q, epoch-StepMoves s t m, owner-StepMoves s t m)
