-- ===== src/Controller/Api/Server/Rows.antt =====
-- What a request may do to a row of the Step table, and what follows for the life of a row.
use media_orchard.Prelude.{
  ◌+◌, ◌≤◌, String, ◌≡◌, refl, sym, ap, ◌∙◌, ◌⊎◌, inl, inr, none, some, arith,
}
use media_orchard.Prelude.Json.{Fields}
use media_orchard.Shared.Enums.{
  StepStatus, queued, assigned, running, completed, failed, skipped, cancelled,
}
use media_orchard.Shared.DateTimes.{DateTime}
use media_orchard.Controller.Models.{Step}
use media_orchard.Controller.StateMachine.Lifecycle.{Edge}
use media_orchard.Controller.Scheduler.Loop.Assignment.{given_to}

-- One change of a row.
pub data StepMove {F : Type 0} (s t : Step F) : Type 0 where
  assign :
      (node : String) (now : DateTime) → s.status ≡ queued → t ≡ given_to node now s → StepMove s t
  claim :
      (now : DateTime)
      → s.status ≡ assigned
      → s.claimed_at ≡ none
      → t ≡ record s { claimed_at = some now }
      → StepMove s t
  start :
      (now : DateTime)
      → s.status ≡ assigned
      → t ≡ record s { status = running; started_at = some now }
      → StepMove s t
  progress :
      (output : Fields F)
      → s.status ≡ running
      → t ≡ record s { output_json = some output }
      → StepMove s t
  complete :
      (output : Fields F) (now : DateTime)
      → s.status ≡ running
      → t ≡ record s { status = completed; output_json = some output; completed_at = some now }
      → StepMove s t
  fail :
      (message : String) (now : DateTime)
      → (s.status ≡ assigned) ⊎ (s.status ≡ running)
      → t ≡ record s { status = failed; error_message = some message; completed_at = some now }
      → StepMove s t

-- Any number of changes.
pub data StepMoves {F : Type 0} : Step F → Step F → Type 0 where
  stay : {s t : Step F} → t ≡ s → StepMoves s t
  move : {s t : Step F} (m : Step F) → StepMove s m → StepMoves m t → StepMoves s t

-- The status goes along edges of the diagram.
pub data Along : StepStatus → StepStatus → Type 0 where
  stop : {a b : StepStatus} → b ≡ a → Along a b
  step : {a b : StepStatus} (c : StepStatus) → Edge a c → Along c b → Along a b

abbrev pub IsTerminal : StepStatus → Type 0
IsTerminal completed = Unit
IsTerminal failed = Unit
IsTerminal skipped = Unit
IsTerminal cancelled = Unit
IsTerminal _ = ⊥

Along-trans : (a b c : StepStatus) → Along a b → Along b c → Along a c
Along-trans a b c (stop e) q = rw e at q
Along-trans a b c (step d x p) q = step d x (Along-trans d b c p q)

module _ {F : Type 0} where
  pub StepMoves-trans : (s t u : Step F) → StepMoves s t → StepMoves t u → StepMoves s u
  StepMoves-trans s t u (stay e) q = rw e at q
  StepMoves-trans s t u (move m a p) q = move m a (StepMoves-trans m t u p q)

  pub StepMoves-one : {s t : Step F} → StepMove s t → StepMoves s t
  StepMoves-one {t} m = move t m (stay refl)

  id-StepMove : (s t : Step F) → StepMove s t → t.id ≡ s.id
  id-StepMove s t (assign node now q e) = ground arith
  id-StepMove s t (claim now q c e) = ground arith
  id-StepMove s t (start now q e) = ground arith
  id-StepMove s t (progress out q e) = ground arith
  id-StepMove s t (complete out now q e) = ground arith
  id-StepMove s t (fail msg now q e) = ground arith

  pub id-StepMoves : (s t : Step F) → StepMoves s t → t.id ≡ s.id
  id-StepMoves s t (stay e) = ap (λ (r : Step F). r.id) e
  id-StepMoves s t (move m a p) = id-StepMoves m t p ∙ id-StepMove s m a

  job_id-StepMove : (s t : Step F) → StepMove s t → t.job_id ≡ s.job_id
  job_id-StepMove s t (assign node now q e) = ground arith
  job_id-StepMove s t (claim now q c e) = ground arith
  job_id-StepMove s t (start now q e) = ground arith
  job_id-StepMove s t (progress out q e) = ground arith
  job_id-StepMove s t (complete out now q e) = ground arith
  job_id-StepMove s t (fail msg now q e) = ground arith

  pub job_id-StepMoves : (s t : Step F) → StepMoves s t → t.job_id ≡ s.job_id
  job_id-StepMoves s t (stay e) = ap (λ (r : Step F). r.job_id) e
  job_id-StepMoves s t (move m a p) = job_id-StepMoves m t p ∙ job_id-StepMove s m a

  Along-StepMove : (s t : Step F) → StepMove s t → Along s.status t.status
  Along-StepMove s t (assign node now q e) = step assigned (rw q Edge.assign) (stop (ground arith))
  Along-StepMove s t (claim now q c e) = stop (ground arith)
  Along-StepMove s t (start now q e) = step running (rw q Edge.start) (stop (ground arith))
  Along-StepMove s t (progress out q e) = stop (ground arith)
  Along-StepMove s t (complete out now q e) =
      step completed (rw q Edge.finish) (stop (ground arith))
  Along-StepMove s t (fail msg now (inl q) e) = step failed (rw q Edge.reject) (stop (ground arith))
  Along-StepMove s t (fail msg now (inr q) e) = step failed (rw q Edge.break) (stop (ground arith))

  not-IsTerminal : (s t : Step F) → StepMove s t → ¬ IsTerminal s.status
  not-IsTerminal s t (assign node now q e) = λ h. rw q at h
  not-IsTerminal s t (claim now q c e) = λ h. rw q at h
  not-IsTerminal s t (start now q e) = λ h. rw q at h
  not-IsTerminal s t (progress out q e) = λ h. rw q at h
  not-IsTerminal s t (complete out now q e) = λ h. rw q at h
  not-IsTerminal s t (fail msg now (inl q) e) = λ h. rw q at h
  not-IsTerminal s t (fail msg now (inr q) e) = λ h. rw q at h

  epoch-StepMove :
      (s t : Step F)
      → StepMove s t
      → (t.assignment_epoch ≡ s.assignment_epoch)
        ⊎ ((s.status ≡ queued) × (t.assignment_epoch ≡ s.assignment_epoch + 1))
  epoch-StepMove s t (assign node now q e) = ground arith
  epoch-StepMove s t (claim now q c e) = ground arith
  epoch-StepMove s t (start now q e) = ground arith
  epoch-StepMove s t (progress out q e) = ground arith
  epoch-StepMove s t (complete out now q e) = ground arith
  epoch-StepMove s t (fail msg now q e) = ground arith

  -- A row that has reached a terminal status is never changed again.
  pub StepMoves-terminal : (s t : Step F) → IsTerminal s.status → StepMoves s t → t ≡ s
  StepMoves-terminal s t h (stay e) = e
  StepMoves-terminal s t h (move m a p) = absurd (not-IsTerminal s m a h)

  pub Along-StepMoves : (s t : Step F) → StepMoves s t → Along s.status t.status
  Along-StepMoves s t (stay e) = stop (ap (λ (r : Step F). r.status) e)
  Along-StepMoves s t (move m a p) =
      Along-trans s.status m.status t.status (Along-StepMove s m a) (Along-StepMoves m t p)

  pub epoch-StepMoves : (s t : Step F) → StepMoves s t → s.assignment_epoch ≤ t.assignment_epoch
  epoch-StepMoves s t (stay e) = omega (arith, ap (λ (r : Step F). r.assignment_epoch) e)
  epoch-StepMoves s t (move m a p) = omega (arith, epoch-StepMove s m a, epoch-StepMoves m t p)

  owner-StepMove :
      (s t : Step F)
      → StepMove s t
      → t.assignment_epoch ≡ s.assignment_epoch
      → t.assigned_node_id ≡ s.assigned_node_id
  owner-StepMove s t (assign node now q e) h = ground arith
  owner-StepMove s t (claim now q c e) h = ground arith
  owner-StepMove s t (start now q e) h = ground arith
  owner-StepMove s t (progress out q e) h = ground arith
  owner-StepMove s t (complete out now q e) h = ground arith
  owner-StepMove s t (fail msg now q e) h = ground arith

  -- A Step passes to another node only under a new epoch.
  pub owner-StepMoves :
      (s t : Step F)
      → StepMoves s t
      → t.assignment_epoch ≡ s.assignment_epoch
      → t.assigned_node_id ≡ s.assigned_node_id
  owner-StepMoves s t (stay e) h = ap (λ (r : Step F). r.assigned_node_id) e
  owner-StepMoves s t (move m a p) h =
      let up = epoch-StepMove s m a in
      let up' = epoch-StepMoves m t p in
      let same : m.assignment_epoch ≡ s.assignment_epoch = omega (arith, up, up') in
      owner-StepMoves m t p (h ∙ sym same) ∙ owner-StepMove s m a same
