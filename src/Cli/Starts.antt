-- ===== src/Cli/Starts.antt =====
-- `controller start` and `worker start` of mediaorchard/cli/main.py, between the parsed options and
-- the printed lines.
pub mod Ending
use media_orchard.Prelude.{
  ℕ, String, Bool, true, Option, none, some, List, [], ◌∷◌, if◌then◌else◌, length,
}
use media_orchard.Prelude.Results.{Result, ok, err, ◌>>=◌}
use media_orchard.Prelude.Int.{ℤ, pos}
use media_orchard.Prelude.Floats.{Floats}
use media_orchard.Prelude.Dicts.{Dict}
use media_orchard.Prelude.Json.{Json, Fields}
use media_orchard.Shared.Texts.{concat}
use media_orchard.Shared.Paths.{FileSystem}
use media_orchard.Controller.Scheduler.Priorities.{Numerals}
use media_orchard.Worker.Agent.{Post}
use media_orchard.Worker.Execution.{StepRunner}
use media_orchard.Worker.Runtime.{WorkerRuntimeConfig}
use media_orchard.Worker.Polling.{Environment, Readings, collect_worker_metrics, run_worker}
use media_orchard.Cli.Http.{Network, worker_transport, worker_post}
use media_orchard.Cli.Launch.{ControllerRuntimeConfig, Launch, run_controller}
use media_orchard.Cli.Commands.{require_api_key_hash, option_node_priorities, worker_start_config}

-- controller start: the printed line, and what the server starts with. `options` has everything but
-- the hash and the priorities; env_file keeps its default.
unfoldable pub controller_start :
    FileSystem
    → Numerals
    → Dict String
    → Option String
    → List String
    → ControllerRuntimeConfig
    → Result String (String × (Launch × Dict String))
unfolding require_api_key_hash option_node_priorities
controller_start fs numerals environ api_key_hash node_priority options = do
  hash ← require_api_key_hash environ api_key_hash
  priorities ← option_node_priorities numerals environ node_priority
  ok (
    concat ("Starting Controller on " ∷ options.host ∷ ":" ∷ numerals.int_text options.port ∷ []),
    run_controller fs numerals
        (record options { api_key_hash = hash; node_priorities = priorities; env_file = none })
        environ,
  )

-- What a Worker that is started finds: its runner is given the configuration, and the network may
-- answer by all that has been posted before.
pub record Surroundings (F : Type 0) : Type 0 where
  pub fs : FileSystem
  pub network : List (Post F) → Network F
  pub readings : List (Post F) → Result String (Readings F)
  pub runner : WorkerRuntimeConfig F → List (Post F) → StepRunner F
  -- str(value)
  pub text : Json F → String
  pub int_text : ℤ → String

-- The lines that `worker start` prints, how `run_worker` ended, and what was posted.
pub record WorkerRun (F : Type 0) : Type 0 where
  pub lines : List String
  pub ending : Result String (Option (List (Fields F)))
  pub posted : List (Post F)

-- once or max_polls is not None
abbrev pub is_limited : Bool → Option ℤ → Bool
is_limited once none = once
is_limited once (some _) = true

module _ {F : Type 0} (fl : Floats F) (around : Surroundings F) where
  -- The transport and the metrics of `run_worker` by default, and what it is given besides.
  unfoldable pub started_environment : WorkerRuntimeConfig F → Environment F
  unfolding worker_transport worker_post
  started_environment config = record {
    fs = around.fs;
    post = λ log p.
        worker_post (around.network log)
          (worker_transport config.controller_url config.api_key config.node_id) p.path
          (some p.json);
    metrics = λ log. around.readings log >>= λ readings. ok (collect_worker_metrics fl readings);
    runner = around.runner config;
    text = around.text;
  }

  -- The line after `run_worker` has returned.
  abbrev pub claimed_lines :
      WorkerRuntimeConfig F → Result String (Option (List (Fields F))) → List String
  claimed_lines config (err _) = []
  claimed_lines config (ok none) = []
  claimed_lines config (ok (some claimed)) =
      if is_limited config.poll_once config.max_polls
      then concat ("Claimed " ∷ around.int_text (pos (length claimed)) ∷ " step(s)" ∷ []) ∷ []
      else []

  abbrev pub started : ℕ → WorkerRuntimeConfig F → WorkerRun F
  started fuel config =
      let (ending, posted) = run_worker fl (started_environment config) config fuel [] in
      record {
        lines = concat ("Starting Worker " ∷ config.node_id ∷ []) ∷ claimed_lines config ending;
        ending = ending;
        posted = posted;
      }

  -- worker start, with fuel for the loop.
  unfoldable pub worker_start :
      ℕ
      → Dict String
      → Option String
      → Option String
      → WorkerRuntimeConfig F
      → Result String (WorkerRun F)
  unfolding worker_start_config
  worker_start fuel environ api_key node_name options =
      worker_start_config environ api_key node_name options >>= λ config. ok (started fuel config)
