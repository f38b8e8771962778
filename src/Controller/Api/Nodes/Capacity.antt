-- ===== src/Controller/Api/Nodes/Capacity.antt =====
-- A whole scheduling pass against the concurrency caps of the nodes.
use media_orchard.Prelude.{
  ◌≡◌, refl, inl, inr, List, [], ◌∷◌, arith, Bool-cases, is_empty, Both, Both-refl, Both-trans,
}
use media_orchard.Prelude.Results.{Result, ok, err, >>=-eq-ok}
use media_orchard.Prelude.Floats.{Floats, IsOrdered}
use media_orchard.Prelude.Tables.{HasDistinctKeys}
use media_orchard.Prelude.Growth.{HasDistinctKeys-Both}
use media_orchard.Shared.DateTimes.{DateTime}
use media_orchard.Controller.Models.{Node, Step}
use media_orchard.Controller.Scheduler.Policies.{SchedulerConfig}
use media_orchard.Controller.Scheduler.Loop.{
  AssignError, scheduler_error, transition_error, raised, Outcome, assign_best_node,
}
use media_orchard.Controller.Scheduler.Loop.Assignment.{
  KeepsCaps, KeepsCaps-refl, KeepsCaps-trans, IsOutcome-KeepsCaps, assign_best_node-IsOutcome,
}
use media_orchard.Controller.Api.Nodes.{
  Schedule, after_assignment, schedule_from, queued_steps, schedule_queued_steps, scheduler_config,
  scheduled,
}
use media_orchard.Controller.Api.{Env, App, Db, node_id}

module _ {F : Type 0} where
  unchanged-KeepsCaps : (nodes : List (Node F)) → Both KeepsCaps nodes nodes
  unchanged-KeepsCaps = Both-refl KeepsCaps-refl

  after_assignment-KeepsCaps :
      (s s' : Schedule F) (r : Result AssignError (Outcome F))
      → ((o : Outcome F) → r ≡ ok o → Both KeepsCaps s.nodes o.nodes)
      → after_assignment s r ≡ ok s'
      → Both KeepsCaps s.nodes s'.nodes
  unfolding after_assignment
  after_assignment-KeepsCaps s s' (ok o) h e =
      let same : s'.nodes ≡ o.nodes = ground arith in rw same (h o refl)
  after_assignment-KeepsCaps s s' (err (scheduler_error q)) h e =
      let same : s'.nodes ≡ s.nodes = ground arith in rw same (unchanged-KeepsCaps s.nodes)
  after_assignment-KeepsCaps s s' (err (transition_error q)) h e = cc
  after_assignment-KeepsCaps s s' (err (raised q)) h e = cc

module _ {F : Type 0} (fl : Floats F) (config : SchedulerConfig F) (now : DateTime)
    (o : IsOrdered fl) where
  schedule_from-KeepsCaps :
      (queue : List (Step F)) (s s' : Schedule F)
      → HasDistinctKeys node_id s.nodes
      → schedule_from fl config now queue s ≡ ok s'
      → Both KeepsCaps s.nodes s'.nodes
  unfolding schedule_from
  schedule_from-KeepsCaps [] s s' d h =
      let same : s'.nodes ≡ s.nodes = ground arith in rw same (unchanged-KeepsCaps s.nodes)
  schedule_from-KeepsCaps (step ∷ queue) s s' d h =
      let (m, e, h') =
        >>=-eq-ok (after_assignment s (assign_best_node fl step s.nodes config now)) _ h in
      let once =
        after_assignment-KeepsCaps s m _
          (λ r a.
            IsOutcome-KeepsCaps fl step config now s.nodes r d
              (assign_best_node-IsOutcome fl step s.nodes config now r o a).1)
          e in
      let d' = HasDistinctKeys-Both node_id (λ k n kept. kept.same_id) once d in
      Both-trans KeepsCaps-trans once (schedule_from-KeepsCaps queue m s' d' h')

module _ {F : Type 0} (env : Env F) (app : App) where
  scheduled-KeepsCaps :
      (db db' : Db F) (r : Result AssignError (Schedule F))
      → ((s : Schedule F) → r ≡ ok s → Both KeepsCaps db.nodes s.nodes)
      → scheduled env app db r ≡ ok db'
      → Both KeepsCaps db.nodes db'.nodes
  scheduled-KeepsCaps db db' (ok s) h e =
      let same : db'.nodes ≡ s.nodes = ground arith in rw same (h s refl)
  scheduled-KeepsCaps db db' (err q) h e = cc

  -- With an order of floats and nodes whose ids differ, the pass that a heartbeat runs, over any
  -- number of queued Steps, keeps each node in its place and takes none over its whisper cap or its
  -- ffmpeg cap: a counter that the pass raises is at most the cap afterwards.
  pub schedule_queued_steps-KeepsCaps :
      IsOrdered env.floats
      → (now : DateTime) (db db' : Db F) → HasDistinctKeys node_id db.nodes
      → schedule_queued_steps env app now db ≡ ok db'
      → Both KeepsCaps db.nodes db'.nodes
  unfolding schedule_queued_steps
  schedule_queued_steps-KeepsCaps o now db db' d h =
      elim (Bool-cases (is_empty (queued_steps db))) [
        | inl e ↦
            let h' = rw e at h in
            let same : db'.nodes ≡ db.nodes = ground arith in rw same (unchanged-KeepsCaps db.nodes)
        | inr e ↦
            let h' = rw e at h in
            scheduled-KeepsCaps db db' _
              (λ s.
                schedule_from-KeepsCaps env.floats (scheduler_config env app) now o
                  (queued_steps db) _ s d)
              h'
      ]
