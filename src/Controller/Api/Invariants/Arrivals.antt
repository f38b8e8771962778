-- ===== src/Controller/Api/Invariants/Arrivals.antt =====
-- The other requests maintain an invariant too, and so does any sequence of requests.
use media_orchard.Prelude.{
  ℕ, String, ◌≡◌, refl, sym, subst, inl, inr, List, [], ◌∷◌, Bool-cases, is_empty,
}
use media_orchard.Prelude.Results.{Result, ok, err}
use media_orchard.Prelude.Actions.{ok-injective}
use media_orchard.Controller.Scheduler.Loop.{AssignError}
use media_orchard.Shared.DateTimes.{DateTime}
use media_orchard.Controller.Api.Nodes.{
  NodeRegisterRequest, NodeHeartbeatRequest, Schedule, queued_steps, scheduled,
  schedule_queued_steps, register_node, heartbeat_node, list_nodes, get_node,
}
use media_orchard.Controller.Api.Jobs.{JobCreateRequest, create_job, list_jobs, get_job}
use media_orchard.Controller.Api.Server.Heartbeat.{schedule_queued_steps-Moves}
use media_orchard.Controller.Api.Invariants.{
  Maintains, IsInvariant, Maintains-check, Maintains-bind, Maintains-read, Maintains-give,
  Maintains-pure_check, Maintains-commit, Maintains-try_commit, maintains_rules,
}
use media_orchard.Controller.Api.{Env, App, Db, Headers, Handler, give, ◌>>=◌}
use media_orchard.Controller.Api.Server.{
  Request, nodes_list, jobs_list, nodes_get, jobs_get, nodes_register, nodes_heartbeat, jobs_create,
  steps_claim_next, steps_start, steps_progress, steps_complete, steps_fail, steps_claim, handle,
  Call, serve,
}
use media_orchard.Controller.Api.Invariants.Requests.{
  start_step-Maintains, progress_step-Maintains, complete_step-Maintains, fail_step-Maintains,
  claim_step-Maintains, claim_next-Maintains,
}

module _ {F : Type 0} {I : Db F → Type 0} (laws : IsInvariant I) (env : Env F) (app : App) where
  list_nodes-Maintains :
      (h : Headers) (limit offset : ℕ) → Maintains I (list_nodes env app h limit offset)
  unfolding list_nodes
  list_nodes-Maintains h limit offset = search maintains_rules depth 20

  get_node-Maintains : (h : Headers) (id : String) → Maintains I (get_node env app h id)
  unfolding get_node
  get_node-Maintains h id = search maintains_rules depth 20

  list_jobs-Maintains :
      (h : Headers) (limit offset : ℕ) → Maintains I (list_jobs env app h limit offset)
  unfolding list_jobs
  list_jobs-Maintains h limit offset = search maintains_rules depth 20

  get_job-Maintains : (h : Headers) (id : String) → Maintains I (get_job env app h id)
  unfolding get_job
  get_job-Maintains h id = search maintains_rules depth 20

  register_node-Maintains :
      (h : Headers) (body : NodeRegisterRequest) → Maintains I (register_node env app h body)
  unfolding register_node
  register_node-Maintains h body = Maintains-check _ _ λ _ _. Maintains-check _ _ λ _ _.
      Maintains-bind _ _ (Maintains-read _) λ node.
        Maintains-bind _ _ (Maintains-commit _ (λ db. laws.nodes_changed db _))
          λ _. Maintains-give node

  scheduled-frame :
      (db db' : Db F) (r : Result AssignError (Schedule F))
      → scheduled env app db r ≡ ok db'
      → db' ≡ record db { nodes = db'.nodes; steps = db'.steps }
  scheduled-frame db db' (ok s) e =
      subst (λ x. x ≡ record db { nodes = x.nodes; steps = x.steps }) (ok-injective _ refl e) refl
  scheduled-frame db db' (err q) e = cc

  -- A pass of the scheduler changes nothing but nodes and Steps.
  schedule_queued_steps-frame :
      (now : DateTime) (db db' : Db F)
      → schedule_queued_steps env app now db ≡ ok db'
      → db' ≡ record db { nodes = db'.nodes; steps = db'.steps }
  unfolding schedule_queued_steps
  schedule_queued_steps-frame now db db' e = elim (Bool-cases (is_empty (queued_steps db))) [
    | inl h ↦
        let e' = rw h at e in
        subst (λ x. x ≡ record db { nodes = x.nodes; steps = x.steps }) (ok-injective _ refl e')
          refl
    | inr h ↦ scheduled-frame db db' _ (rw h at e)
  ]

  -- The transaction of a heartbeat.
  scheduled-at :
      (now : DateTime) (db db' : Db F)
      → I db
      → schedule_queued_steps env app now db ≡ ok db'
      → I db'
  scheduled-at now db db' i e =
      let moves = schedule_queued_steps-Moves env app now db db' (laws.distinct db i) e in
      subst I (sym (schedule_queued_steps-frame now db db' e)) (
        laws.nodes_changed (record db { steps = db'.steps }) db'.nodes
          (laws.moved db db'.steps moves i))

  heartbeat_node-Maintains :
      (h : Headers) (id : String) (body : NodeHeartbeatRequest F)
      → Maintains I (heartbeat_node env app h id body)
  unfolding heartbeat_node
  heartbeat_node-Maintains h id body = Maintains-check _ _ λ _ _. Maintains-check _ _ λ _ _.
      Maintains-bind _ _ (Maintains-read _) λ found. Maintains-check _ _ λ node _.
        Maintains-bind _ _
          (Maintains-try_commit _
            (λ db db' i e. scheduled-at (env.clock 0) _ db' (laws.nodes_changed db _ i) e))
          λ _. Maintains-bind _ _ (Maintains-read _) λ refreshed. Maintains-pure_check _

  create_job-Maintains :
      (h : Headers) (body : JobCreateRequest) → Maintains I (create_job env app h body)
  unfolding create_job
  create_job-Maintains h body = Maintains-check _ _ λ _ _. Maintains-check _ _ λ _ _.
      Maintains-check _ _ λ paths _.
        Maintains-bind _ _ (Maintains-try_commit _ (laws.inserted env app body paths))
          λ _. Maintains-give _

  wrapped-Maintains :
      {A B : Type 0} (m : Handler F A) (f : A → B)
      → Maintains I m
      → Maintains I (m >>= λ a. give (f a))
  wrapped-Maintains m f k = Maintains-bind m _ k λ a. Maintains-give (f a)

  handle-Maintains : (h : Headers) (request : Request F) → Maintains I (handle env app h request)
  unfolding handle
  handle-Maintains h (nodes_list limit offset) =
      wrapped-Maintains _ _ (list_nodes-Maintains h limit offset)
  handle-Maintains h (jobs_list limit offset) =
      wrapped-Maintains _ _ (list_jobs-Maintains h limit offset)
  handle-Maintains h (nodes_get id) = wrapped-Maintains _ _ (get_node-Maintains h id)
  handle-Maintains h (jobs_get id) = wrapped-Maintains _ _ (get_job-Maintains h id)
  handle-Maintains h (nodes_register body) = wrapped-Maintains _ _ (register_node-Maintains h body)
  handle-Maintains h (nodes_heartbeat id body) =
      wrapped-Maintains _ _ (heartbeat_node-Maintains h id body)
  handle-Maintains h (jobs_create body) = wrapped-Maintains _ _ (create_job-Maintains h body)
  handle-Maintains h (steps_claim_next id) =
      wrapped-Maintains _ _ (claim_next-Maintains laws env app h id)
  handle-Maintains h (steps_start id epoch) =
      wrapped-Maintains _ _ (start_step-Maintains laws env app h id epoch)
  handle-Maintains h (steps_progress id body) =
      wrapped-Maintains _ _ (progress_step-Maintains laws env app h id body)
  handle-Maintains h (steps_complete id body) =
      wrapped-Maintains _ _ (complete_step-Maintains laws env app h id body)
  handle-Maintains h (steps_fail id body) =
      wrapped-Maintains _ _ (fail_step-Maintains laws env app h id body)
  handle-Maintains h (steps_claim id epoch) =
      wrapped-Maintains _ _ (claim_step-Maintains laws env app h id epoch)

module _ {F : Type 0} {I : Db F → Type 0} (laws : IsInvariant I) (app : App) where
  -- What every change survives holds after any requests.
  pub serve-IsInvariant : (calls : List (Call F)) (db : Db F) → I db → I (serve app calls db)
  unfolding serve
  serve-IsInvariant [] db i = i
  serve-IsInvariant (c ∷ cs) db i =
      serve-IsInvariant cs _ ((handle-Maintains laws c.env app c.headers c.request).at db i)
