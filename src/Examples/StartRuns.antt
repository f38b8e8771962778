-- ===== src/Examples/StartRuns.antt =====
-- The commands that start the services, with their options.
use media_orchard.Prelude.{◌≡◌, refl, ◌≢◌, ◌↔◌, true, none, some, [], ◌∷◌, arith, eq_iff}
use media_orchard.Prelude.Results.{ok, err}
use media_orchard.Prelude.Int.{ℤ, pos}
use media_orchard.Prelude.Json.{null, end}
use media_orchard.Shared.Texts.{split_on}
use media_orchard.Shared.Security.{hash_api_key}
use media_orchard.Controller.Api.Auth.{require_worker_auth, require_worker_node_id}
use media_orchard.Controller.Startup.{create_app, imported_app}
use media_orchard.Worker.Machine.{base, ◌/◌}
use media_orchard.Worker.Polling.{limit}
use media_orchard.Cli.Http.{
  Network, HttpWorkerTransport, ControllerApiClient, answered, worker_request, api_request,
}
use media_orchard.Cli.Http.Access.{IsDelivered, requests-AreAccepted}
use media_orchard.Prelude.Dicts.{lookup}
use media_orchard.Cli.Launch.{ControllerRuntimeConfig, run_controller}
use media_orchard.Cli.Launch.Configuration.{run_controller-configures}
use media_orchard.Cli.Starts.{Surroundings, worker_start}
use media_orchard.Cli.Starts.Ending.{IsWorkerStart, worker_start-IsWorkerStart}
use media_orchard.Cli.Hosts.{Report, check_wheel, doctor_worker_bootstrap}
use media_orchard.Cli.Hosts.Readiness.{AllReady, doctor_worker_bootstrap_iff}
use media_orchard.Examples.Fixtures.{env, app, headers, hundredths, local_fs}
use media_orchard.Examples.PriorityRuns.{numerals, numerals-ReadsBack, priorities, printable, fresh}
use media_orchard.Examples.PipelineRuns.{config}
use media_orchard.Examples.HostRuns.{bootstrap, counting}

abbrev launch : ControllerRuntimeConfig
launch = record {
  host = "0.0.0.0";
  port = pos 18_765;
  database_url = "sqlite:///orchard.db";
  api_key_hash = "sha256:key";
  shared_root = "/srv/media";
  node_priorities = priorities;
  log_level = "info";
  env_file = none;
}

resolved_once :
    local_fs.resolve (local_fs.render (local_fs.resolve "/srv/media"))
    ≡ local_fs.resolve "/srv/media"
unfolding split_on
resolved_once = refl

run_controller-configures_example :
    imported_app local_fs numerals
      (run_controller local_fs numerals launch (("MEDIAORCHARD_API_KEY_HASH", "old") ∷ [])).1
    ≡ ok (create_app local_fs "sqlite:///orchard.db" "sha256:key" "/srv/media" priorities)
run_controller-configures_example =
    run_controller-configures local_fs numerals numerals-ReadsBack launch
      (("MEDIAORCHARD_API_KEY_HASH", "old") ∷ []) printable fresh resolved_once

abbrev network : Network ℤ
network = record {
  urlopen = λ request. answered (pos 204) "";
  dumps = λ fields. "{}";
  loads = λ text. ok null;
  int_text = λ n. "204";
}

abbrev transport : HttpWorkerTransport
transport = record { controller_url = "http://mini.local"; api_key = "key"; node_id = "mini" }

abbrev client : ControllerApiClient
client = record { controller_url = "http://mini.local"; api_key = "key" }

from_worker : IsDelivered (worker_request network transport "/steps/claim-next" (some end)) headers
unfolding worker_request lookup
from_worker = record { of_authorization = refl; of_key = refl; of_node_id = refl }

from_client :
    IsDelivered
      (api_request network client "POST" "/steps/claim-next" (some end))
      (record headers { x_mediaorchard_node_id = none })
unfolding api_request lookup
from_client = record { of_authorization = refl; of_key = refl; of_node_id = refl }

key_hash : hash_api_key env.sha256_hex "key" ≡ ok app.api_key_hash
unfolding hash_api_key
key_hash = refl

named : transport.node_id ≢ ""
named e = ground (arith, eq_iff "mini" "")

requests-AreAccepted_example :
    (require_worker_auth env app headers ≡ ok tt)
    × (require_worker_node_id headers ≡ ok "mini")
    × (require_worker_auth env app (record headers { x_mediaorchard_node_id = none }) ≡ ok tt)
requests-AreAccepted_example =
    requests-AreAccepted env app network transport client "/steps/claim-next" "POST" (some end)
      headers (record headers { x_mediaorchard_node_id = none }) from_worker from_client key_hash
      refl named

abbrev surroundings : Surroundings ℤ
surroundings = record {
  fs = local_fs;
  network = λ log. network;
  readings = λ log. ok (record { cpu_percent = pos 0; memory_percent = pos 0; disk_free = 0 });
  runner = λ config log claimed. err "no runner";
  text = λ value. "";
  int_text = λ n. "0";
}

two_rounds : limit config ≡ some 2
unfolding limit
two_rounds = refl

worker_start-IsWorkerStart_example :
    IsWorkerStart hundredths surroundings []
      (some "key")
      none
      config
      2
      (worker_start hundredths surroundings 10 [] (some "key") none config)
worker_start-IsWorkerStart_example =
    worker_start-IsWorkerStart hundredths surroundings [] (some "key") none config 2 10 two_rounds
      (omega arith)

doctor_worker_bootstrap_iff_example :
    ((r : Report) × (doctor_worker_bootstrap
          (λ p. p)
          (λ p. "path")
          counting
          bootstrap
          true
          (λ p. true)
          (λ s. s)
          ("mini.local" ∷ [])
          0
        ≡ (ok r, 3))
      × (r.exit_code ≡ 0))
    ↔ ((check_wheel
            (λ p. p)
            (λ p. true)
            (some (base "/tmp" / "mediaorchard.whl"))
            "mediaorchard==0.1.0"
            true
          ≡ ok tt)
        × AllReady (λ p. p) (λ p. "path") counting bootstrap ("mini.local" ∷ []) 0 3)
doctor_worker_bootstrap_iff_example =
    doctor_worker_bootstrap_iff (λ p. p) (λ p. "path") counting (λ p. true) (λ s. s) bootstrap
      ("mini.local" ∷ []) 0 3
