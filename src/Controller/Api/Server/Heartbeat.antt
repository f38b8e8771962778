-- ===== src/Controller/Api/Server/Heartbeat.antt =====
-- The scheduling pass of a heartbeat gives queued rows to nodes, and changes no other row.
use media_orchard.Prelude.{
  ◌≡◌, refl, sym, ap, ◌∙◌, subst, ◌≢◌, inl, inr, List, [], ◌∷◌, arith, ◌==◌, eq_iff, Bool-cases,
  is_empty, All, Both, done, pair, Both-refl, Both-trans,
}
use media_orchard.Prelude.Results.{Result, ok, err, >>=-eq-ok}
use media_orchard.Prelude.Floats.{Floats}
use media_orchard.Prelude.Tables.{write_row, HasDistinctKeys}
use media_orchard.Prelude.Growth.{
  Lacks, All-select, All-sort, HasDistinctKeys-select, HasDistinctKeys-sort, Agrees,
  HasDistinctKeys-Agrees,
}
use media_orchard.Shared.DateTimes.{DateTime}
use media_orchard.Controller.Models.{Step}
use media_orchard.Controller.Scheduler.Policies.{SchedulerConfig}
use media_orchard.Controller.Scheduler.Loop.{
  AssignError, scheduler_error, transition_error, raised, Outcome, assign_best_node,
}
use media_orchard.Controller.Scheduler.Loop.Assignment.{
  IsGiven, left, taken, assign_best_node-IsGiven,
}
use media_orchard.Controller.Api.Nodes.{
  Schedule, queued_steps, after_assignment, schedule_from, schedule_queued_steps, scheduler_config,
  scheduled,
}
use media_orchard.Controller.Api.Server.Rows.{
  StepMoves, stay, assign, StepMoves-one, StepMoves-trans,
}
use media_orchard.Controller.Api.Server.Evolution.{HasDistinctSteps}
use media_orchard.Controller.Api.{Env, App, Db, step_id}

module _ {F : Type 0} where
  -- A Step by its key.
  abbrev AgreesIn : List (Step F) → Step F → Type 0
  AgreesIn rows s = Agrees step_id s rows

  IsGiven-StepMoves : (now : DateTime) (s t : Step F) → IsGiven now s t → StepMoves s t
  IsGiven-StepMoves now s t (left e) = stay e
  IsGiven-StepMoves now s t (taken node q e) = StepMoves-one (assign node now q e)

  id-IsGiven : (now : DateTime) (s t : Step F) → IsGiven now s t → t.id ≡ s.id
  id-IsGiven now s t (left e) = ap step_id e
  id-IsGiven now s t (taken node q e) = ap step_id e

  write_row-StepMoves :
      (s t : Step F) (rows : List (Step F))
      → t.id ≡ s.id
      → StepMoves s t
      → AgreesIn rows s
      → Both StepMoves rows (write_row step_id t rows)
  write_row-StepMoves s t [] e m a = done
  write_row-StepMoves s t (r ∷ rs) e m (a, rest) = elim (Bool-cases (r.id == t.id)) [
    | inl same ↦
        let is_s : r ≡ s = a ((eq_iff r.id t.id).0 same ∙ e) in
        rw same
          (pair (subst (λ q. StepMoves q t) (sym is_s) m) (write_row-StepMoves s t rs e m rest))
    | inr other ↦ rw other (pair (stay refl) (write_row-StepMoves s t rs e m rest))
  ]

  -- The other rows stay as they were.
  write_row-AgreesIn :
      (t other : Step F) (rows : List (Step F))
      → t.id ≢ other.id
      → AgreesIn rows other
      → AgreesIn (write_row step_id t rows) other
  write_row-AgreesIn t other [] n a = tt
  write_row-AgreesIn t other (r ∷ rs) n (a, rest) = elim (Bool-cases (r.id == t.id)) [
    | inl same ↦ rw same ((λ e. absurd (n e)), write_row-AgreesIn t other rs n rest)
    | inr differs ↦ rw differs (a, write_row-AgreesIn t other rs n rest)
  ]

  write_row-All-AgreesIn :
      (s t : Step F) (rows queue : List (Step F))
      → t.id ≡ s.id
      → Lacks step_id s.id queue
      → All (AgreesIn rows) queue
      → All (AgreesIn (write_row step_id t rows)) queue
  write_row-All-AgreesIn s t rows [] e l a = tt
  write_row-All-AgreesIn s t rows (q ∷ qs) e (l, ls) (a, rest) = (
    write_row-AgreesIn t q rows (λ same. l (sym same ∙ e)) a,
    write_row-All-AgreesIn s t rows qs e ls rest,
  )

module _ {F : Type 0} (now : DateTime) where
  -- One round of the pass writes the row of its Step, or no row.
  data IsRound (step : Step F) (rows rows' : List (Step F)) : Type 0 where
    skips : rows' ≡ rows → IsRound step rows rows'
    writes :
        (t : Step F)
        → IsGiven now step t
        → rows' ≡ write_row step_id t rows
        → IsRound step rows rows'

  after_assignment-IsRound :
      (step : Step F) (s s' : Schedule F) (r : Result AssignError (Outcome F))
      → ((o : Outcome F) → r ≡ ok o → IsGiven now step o.step)
      → after_assignment s r ≡ ok s'
      → IsRound step s.steps s'.steps
  unfolding after_assignment
  after_assignment-IsRound step s s' (ok o) h e = writes o.step (h o refl) (ground arith)
  after_assignment-IsRound step s s' (err (scheduler_error q)) h e = skips (ground arith)
  after_assignment-IsRound step s s' (err (transition_error q)) h e = cc
  after_assignment-IsRound step s s' (err (raised q)) h e = cc

  IsRound-StepMoves :
      (step : Step F) (rows rows' : List (Step F))
      → IsRound step rows rows'
      → AgreesIn rows step
      → Both StepMoves rows rows'
  IsRound-StepMoves step rows rows' (skips e) a = rw e (Both-refl (λ r. stay refl) rows)
  IsRound-StepMoves step rows rows' (writes t g e) a =
      rw e (
        write_row-StepMoves step t rows (id-IsGiven now step t g) (IsGiven-StepMoves now step t g)
          a)

  IsRound-AgreesIn :
      (step : Step F) (rows rows' queue : List (Step F))
      → IsRound step rows rows'
      → Lacks step_id step.id queue
      → All (AgreesIn rows) queue
      → All (AgreesIn rows') queue
  IsRound-AgreesIn step rows rows' queue (skips e) l a = rw e a
  IsRound-AgreesIn step rows rows' queue (writes t g e) l a =
      rw e (write_row-All-AgreesIn step t rows queue (id-IsGiven now step t g) l a)

module _ {F : Type 0} (fl : Floats F) (config : SchedulerConfig F) (now : DateTime) where
  schedule_from-Moves :
      (queue : List (Step F)) (s s' : Schedule F)
      → HasDistinctKeys step_id queue
      → All (AgreesIn s.steps) queue
      → schedule_from fl config now queue s ≡ ok s'
      → Both StepMoves s.steps s'.steps
  unfolding schedule_from
  schedule_from-Moves [] s s' d a h =
      let same : s'.steps ≡ s.steps = ground arith in rw same (Both-refl (λ r. stay refl) s.steps)
  schedule_from-Moves (step ∷ queue) s s' (l, d) (a, rest) h =
      let (m, e, h') =
        >>=-eq-ok (after_assignment s (assign_best_node fl step s.nodes config now)) _ h in
      let round =
        after_assignment-IsRound now step s m _
          (assign_best_node-IsGiven fl step s.nodes config now) e in
      Both-trans StepMoves-trans (IsRound-StepMoves now step s.steps m.steps round a) (
        schedule_from-Moves queue m s' d
          (IsRound-AgreesIn now step s.steps m.steps queue round l rest) h')

module _ {F : Type 0} (env : Env F) (app : App) where
  queued-AgreesIn : (db : Db F) → HasDistinctSteps db → All (AgreesIn db.steps) (queued_steps db)
  unfolding queued_steps
  queued-AgreesIn db d =
      All-sort _ _ _ (All-select _ _ db.steps (HasDistinctKeys-Agrees step_id db.steps d))

  queued-HasDistinctKeys :
      (db : Db F) → HasDistinctSteps db → HasDistinctKeys step_id (queued_steps db)
  unfolding queued_steps
  queued-HasDistinctKeys db d =
      HasDistinctKeys-sort step_id _ _ (HasDistinctKeys-select step_id _ db.steps d)

  scheduled-Moves :
      (db db' : Db F) (r : Result AssignError (Schedule F))
      → ((s : Schedule F) → r ≡ ok s → Both StepMoves db.steps s.steps)
      → scheduled env app db r ≡ ok db'
      → Both StepMoves db.steps db'.steps
  scheduled-Moves db db' (ok s) h e =
      let same : db'.steps ≡ s.steps = ground arith in rw same (h s refl)
  scheduled-Moves db db' (err q) h e = cc

  -- A pass of the scheduler assigns queued rows, and changes no other.
  pub schedule_queued_steps-Moves :
      (now : DateTime) (db db' : Db F)
      → HasDistinctSteps db
      → schedule_queued_steps env app now db ≡ ok db'
      → Both StepMoves db.steps db'.steps
  unfolding schedule_queued_steps
  schedule_queued_steps-Moves now db db' d h = elim (Bool-cases (is_empty (queued_steps db))) [
    | inl e ↦
        let h' = rw e at h in
        let same : db'.steps ≡ db.steps = ground arith in
        rw same (Both-refl (λ r. stay refl) db.steps)
    | inr e ↦
        let h' = rw e at h in
        scheduled-Moves db db' _
          (λ s.
            schedule_from-Moves env.floats (scheduler_config env app) now (queued_steps db) _ s
              (queued-HasDistinctKeys db d) (queued-AgreesIn db d))
          h'
  ]
