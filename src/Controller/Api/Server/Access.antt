-- ===== src/Controller/Api/Server/Access.antt =====
-- What the dependencies `require_worker_auth` and `require_worker_node_id` keep out.
use media_orchard.Prelude.{◌≡◌, refl, ◌≢◌, arith}
use media_orchard.Prelude.Results.{err}
use Prim.Native.String
use media_orchard.Shared.Security.{verify_api_key_iff}
use media_orchard.Controller.Api.Auth.{presented_key, require_worker_auth}
use media_orchard.Controller.Api.Nodes.{register_node, heartbeat_node, list_nodes, get_node}
use media_orchard.Controller.Api.Jobs.{create_job, list_jobs, get_job}
use media_orchard.Controller.Api.Steps.{
  owned_step, start_step, progress_step, complete_step, fail_step, claim_step, claim_next,
}
use media_orchard.Controller.Api.Server.{
  Request, nodes_list, jobs_list, nodes_get, jobs_get, nodes_register, nodes_heartbeat, jobs_create,
  steps_claim_next, steps_start, steps_progress, steps_complete, steps_fail, steps_claim, handle,
}
use media_orchard.Controller.Api.{Env, App, Db, Headers, missing_credentials, ◌>>=◌}

module _ {F : Type 0} (env : Env F) (app : App) where
  refused_auth :
      (h : Headers)
      → app.api_key_hash ≢ String.◌++◌ "sha256:" (env.sha256_hex (presented_key h))
      → require_worker_auth env app h ≡ err missing_credentials
  unfolding require_worker_auth
  refused_auth h n =
      ground (arith, verify_api_key_iff env.sha256_hex (presented_key h) app.api_key_hash)

  -- Without the key whose digest the Controller was started with, every request is answered 401 and
  -- changes nothing.
  pub handle-unauthorized :
      (h : Headers) (request : Request F) (db : Db F)
      → app.api_key_hash ≢ String.◌++◌ "sha256:" (env.sha256_hex (presented_key h))
      → handle env app h request db ≡ (err missing_credentials, db)
  unfolding handle list_nodes get_node register_node heartbeat_node list_jobs get_job create_job
      owned_step start_step progress_step complete_step fail_step claim_step claim_next ◌>>=◌
  handle-unauthorized h (nodes_list limit offset) db n = rw (refused_auth h n) refl
  handle-unauthorized h (jobs_list limit offset) db n = rw (refused_auth h n) refl
  handle-unauthorized h (nodes_get id) db n = rw (refused_auth h n) refl
  handle-unauthorized h (jobs_get id) db n = rw (refused_auth h n) refl
  handle-unauthorized h (nodes_register body) db n = rw (refused_auth h n) refl
  handle-unauthorized h (nodes_heartbeat id body) db n = rw (refused_auth h n) refl
  handle-unauthorized h (jobs_create body) db n = rw (refused_auth h n) refl
  handle-unauthorized h (steps_claim_next id) db n = rw (refused_auth h n) refl
  handle-unauthorized h (steps_start id epoch) db n = rw (refused_auth h n) refl
  handle-unauthorized h (steps_progress id body) db n = rw (refused_auth h n) refl
  handle-unauthorized h (steps_complete id body) db n = rw (refused_auth h n) refl
  handle-unauthorized h (steps_fail id body) db n = rw (refused_auth h n) refl
  handle-unauthorized h (steps_claim id epoch) db n = rw (refused_auth h n) refl
