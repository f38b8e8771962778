-- ===== src/Controller/Api/Server/Evolution.antt =====
-- Step tables whose rows change by `StepMove`s alone, and grow.
use media_orchard.Prelude.{◌≡◌, refl, List, Both}
use media_orchard.Prelude.Results.{ok}
use media_orchard.Prelude.Tables.{HasDistinctKeys}
use media_orchard.Prelude.Growth.{
  Extends, Extends-refl, Both-Extends, Extends-trans, HasDistinctKeys-Both,
}
use media_orchard.Controller.Models.{Step}
use media_orchard.Controller.Api.Server.Rows.{StepMoves, stay, StepMoves-trans, id-StepMoves}
use media_orchard.Controller.Api.Jobs.{NewJob, insert_rows}
use media_orchard.Prelude.{false, [], ◌∷◌, ◌++◌, arith}
use media_orchard.Prelude.Tables.{has_row}
use media_orchard.Prelude.Growth.{Extends-append, HasDistinctKeys-append}
use media_orchard.Controller.Api.{Db, step_id}

abbrev pub HasDistinctSteps : {F : Type 0} → Db F → Type 0
HasDistinctSteps db = HasDistinctKeys step_id db.steps

-- What a request makes of a database.
pub record Evolves {F : Type 0} (db db' : Db F) : Type 0 where
  pub rows : Extends StepMoves db.steps db'.steps
  pub distinct : HasDistinctSteps db'

module _ {F : Type 0} where
  pub Evolves-refl : (db : Db F) → HasDistinctSteps db → Evolves db db
  Evolves-refl db d = record { rows = Extends-refl (λ s. stay refl) db.steps; distinct = d }

  pub Evolves-trans : (a b c : Db F) → Evolves a b → Evolves b c → Evolves a c
  Evolves-trans a b c p q = record {
    rows = Extends-trans StepMoves-trans p.rows q.rows;
    distinct = q.distinct;
  }

  -- Rows that change in their places.
  pub Both-Evolves :
      (db : Db F) (steps : List (Step F)) (db' : Db F)
      → db'.steps ≡ steps
      → Both StepMoves db.steps steps
      → HasDistinctSteps db
      → Evolves db db'
  Both-Evolves db steps db' e b d = record {
    rows = rw e (Both-Extends b);
    distinct = rw e (HasDistinctKeys-Both step_id id-StepMoves b d);
  }

  pub insert_rows-Evolves :
      (new : NewJob F) (db db' : Db F)
      → HasDistinctSteps db
      → insert_rows new db ≡ ok db'
      → Evolves db db'
  unfolding insert_rows
  insert_rows-Evolves new db db' d h =
      let fresh : has_row step_id new.step.id db.steps ≡ false = ground arith in
      let grown : db'.steps ≡ db.steps ++ (new.step ∷ []) = ground arith in
      record {
        rows = rw grown (Extends-append (λ s. stay refl) db.steps (new.step ∷ []));
        distinct = rw grown (HasDistinctKeys-append step_id db.steps new.step fresh d);
      }
