-- ===== src/Worker/Polling.antt =====
-- `run_worker` of mediaorchard/cli/runtime.py: the loop of a Worker.
pub mod Rounds
use media_orchard.Prelude.{
  ℕ, zero, suc, ◌*◌, String, Bool, true, false, ◌||◌, Option, none, some, List, [], ◌∷◌, ◌++◌,
  if◌then◌else◌,
}
use media_orchard.Prelude.Results.{Result}
use media_orchard.Prelude.Actions.{Action, pure, ◌>>=◌, ◌>>◌}
use media_orchard.Prelude.Int.{ℤ, pos, negsuc, leb_ℤ}
use media_orchard.Prelude.Floats.{Floats}
use media_orchard.Prelude.Json.{Json, Fields}
use media_orchard.Shared.Paths.{FileSystem}
use media_orchard.Worker.Agent.{WorkerAgent, Post, Metrics, register, heartbeat, poll}
use media_orchard.Worker.Execution.{Transport, StepRunner, execute_claimed_step}
use media_orchard.Worker.Runtime.{WorkerRuntimeConfig}

-- What `run_worker` is called with. The metrics and what a step runner does may depend on all that
-- the Worker has posted before.
pub record Environment (F : Type 0) : Type 0 where
  pub fs : FileSystem
  pub post : Transport F
  pub metrics : List (Post F) → Result String (Metrics F)
  pub runner : List (Post F) → StepRunner F
  -- str(value)
  pub text : Json F → String

-- What psutil reads from the host; `disk_free` is in bytes.
pub record Readings (F : Type 0) : Type 0 where
  pub cpu_percent : F
  pub memory_percent : F
  pub disk_free : ℕ

-- The metrics of `run_worker` by default.
unfoldable pub collect_worker_metrics : {F : Type 0} → Floats F → Readings F → Metrics F
collect_worker_metrics fl readings = record {
  cpu_percent = readings.cpu_percent;
  memory_percent = readings.memory_percent;
  free_disk_gb =
      fl.div (fl.of_int (pos readings.disk_free)) (fl.of_int (pos (1_024 * (1_024 * 1_024))));
  active_jobs = pos 0;
  active_ffmpeg_jobs = pos 0;
  active_whisper_jobs = pos 0;
  thermal_state = "unknown";
  on_battery = false;
}

-- The tests that leave the loop, by `poll_once` and `max_polls`.
abbrev pub reached : Bool → Option ℤ → ℕ → Bool
reached once none polls = once
reached once (some n) polls = once || leb_ℤ n (pos polls)

unfoldable pub is_last : {F : Type 0} → WorkerRuntimeConfig F → ℕ → Bool
is_last config polls = reached config.poll_once config.max_polls polls

-- The number of rounds that `poll_once` and `max_polls` allow.
abbrev pub limit_of : Bool → Option ℤ → Option ℕ
limit_of true max = some 1
limit_of false none = none
limit_of false (some (pos zero)) = some 1
limit_of false (some (pos (suc n))) = some (suc n)
limit_of false (some (negsuc n)) = some 1

unfoldable pub limit : {F : Type 0} → WorkerRuntimeConfig F → Option ℕ
limit config = limit_of config.poll_once config.max_polls

module _ {F : Type 0} (fl : Floats F) (env : Environment F) (config : WorkerRuntimeConfig F) where
  -- `worker`
  abbrev worker : WorkerAgent
  worker = record {
    node_id = config.node_id;
    node_name = config.node_name;
    shared_root = config.shared_root;
    max_ffmpeg_jobs = config.max_ffmpeg_jobs;
    max_whisper_jobs = config.max_whisper_jobs;
  }

  -- transport.post
  abbrev send : Post F → Action (List (Post F)) (Option (Fields F))
  send p log = (env.post log p, log ++ (p ∷ []))

  -- What follows `claim_next`: the step is remembered, and run if the configuration says so.
  unfoldable pub take_claimed : Option (Fields F) → Action (List (Post F)) (List (Fields F))
  take_claimed none = pure []
  take_claimed (some step) =
      (if config.execute_claimed_steps
        then (λ log. execute_claimed_step fl env.text env.post (env.runner log) step log)
        else pure tt)
      >> pure (step ∷ [])

  -- The body of the loop, up to `polls += 1`: the steps that it has claimed.
  unfoldable pub poll_round : Action (List (Post F)) (List (Fields F))
  poll_round = (λ log. (env.metrics log, log)) >>= λ metrics.
      send (heartbeat worker metrics) >> (send (poll worker) >>= take_claimed)

  -- The loop; `none` is more rounds than `fuel`.
  unfoldable pub run_polls :
      (fuel : ℕ) → ℕ → List (Fields F) → Action (List (Post F)) (Option (List (Fields F)))
  run_polls zero polls claimed = pure none
  run_polls (suc fuel) polls claimed = poll_round >>= λ more.
      let rest = run_polls fuel (suc polls) (claimed ++ more) in
      if is_last config (suc polls) then pure (some (claimed ++ more)) else rest

  unfoldable pub run_worker : ℕ → Action (List (Post F)) (Option (List (Fields F)))
  run_worker fuel = send (register env.fs worker) >> run_polls fuel 0 []
