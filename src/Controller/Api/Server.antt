-- ===== src/Controller/Api/Server.antt =====
-- The application: the requests that create_app routes, one after the other.
pub mod Rows
pub mod Evolution
pub mod Heartbeat
pub mod History
pub mod Finishing
pub mod Failing
pub mod Access
use media_orchard.Prelude.{ℕ, String, Option, some, List, [], ◌∷◌}
use media_orchard.Prelude.Int.{ℤ}
use media_orchard.Controller.Models.{Node, Job, Step}
use media_orchard.Controller.Api.Nodes.{
  NodeRegisterRequest, NodeHeartbeatRequest, register_node, heartbeat_node, list_nodes, get_node,
}
use media_orchard.Controller.Api.Jobs.{JobCreateRequest, create_job, list_jobs, get_job}
use media_orchard.Controller.Api.Steps.{
  StepProgressRequest, StepCompleteRequest, StepFailRequest, start_step, progress_step,
  complete_step, fail_step, claim_step, claim_next,
}
use media_orchard.Controller.Api.{Env, App, Db, Headers, Handler, give, ◌>>=◌, ◌>>◌}

pub data Request (F : Type 0) : Type 0 where
  nodes_list jobs_list : (limit offset : ℕ) → Request F
  nodes_get jobs_get : String → Request F
  nodes_register : NodeRegisterRequest → Request F
  nodes_heartbeat : String → NodeHeartbeatRequest F → Request F
  jobs_create : JobCreateRequest → Request F
  steps_claim_next : String → Request F
  steps_start : String → ℤ → Request F
  steps_progress : String → StepProgressRequest F → Request F
  steps_complete : String → StepCompleteRequest F → Request F
  steps_fail : String → StepFailRequest → Request F
  steps_claim : String → ℤ → Request F

pub data Response (F : Type 0) : Type 0 where
  node : Node F → Response F
  nodes : List (Node F) → Response F
  job : Job F → Response F
  jobs : List (Job F) → Response F
  step : Option (Step F) → Response F

module _ {F : Type 0} (env : Env F) (app : App) where
  -- `mapped f m` is `m` with its result wrapped.
  abbrev mapped : {A B : Type 0} → (A → B) → Handler F A → Handler F B
  mapped f m = m >>= λ a. give (f a)

  unfoldable pub handle : Headers → Request F → Handler F (Response F)
  handle h (nodes_list limit offset) = mapped nodes (list_nodes env app h limit offset)
  handle h (jobs_list limit offset) = mapped jobs (list_jobs env app h limit offset)
  handle h (nodes_get id) = mapped node (get_node env app h id)
  handle h (jobs_get id) = mapped job (get_job env app h id)
  handle h (nodes_register body) = mapped node (register_node env app h body)
  handle h (nodes_heartbeat id body) = mapped node (heartbeat_node env app h id body)
  handle h (jobs_create body) = mapped job (create_job env app h body)
  handle h (steps_claim_next id) = mapped step (claim_next env app h id)
  handle h (steps_start id epoch) = mapped (λ s. step (some s)) (start_step env app h id epoch)
  handle h (steps_progress id body) = mapped (λ s. step (some s)) (progress_step env app h id body)
  handle h (steps_complete id body) = mapped (λ s. step (some s)) (complete_step env app h id body)
  handle h (steps_fail id body) = mapped (λ s. step (some s)) (fail_step env app h id body)
  handle h (steps_claim id epoch) = mapped (λ s. step (some s)) (claim_step env app h id epoch)

-- A request with what it takes from outside.
pub record Call (F : Type 0) : Type 0 where
  pub env : Env F
  pub headers : Headers
  pub request : Request F

-- The database after the requests, answered one by one.
unfoldable pub serve : {F : Type 0} → App → List (Call F) → Db F → Db F
serve app [] db = db
serve app (c ∷ cs) db = serve app cs (handle c.env app c.headers c.request db).1
