-- ===== src/Controller/Scheduler/Policies.antt =====
-- mediaorchard/controller/scheduler/policies.py: the hard filters of the scheduler.
pub mod Eligibility
use media_orchard.Prelude.{
  ℕ, ◌+◌, ◌*◌, String, Bool, true, false, not, ◌&&◌, ◌||◌, none, some, List, [], ◌∷◌, ◌==◌, ltb,
  if◌then◌else◌, is_yes, any, find,
}
use media_orchard.Prelude.Results.{Result, ok, err, ◌>>=◌, ◌>>◌, require}
use media_orchard.Prelude.Int.{ℤ, pos, leb_ℤ}
use media_orchard.Prelude.Floats.{Floats}
use media_orchard.Prelude.Json.{
  Json, Fields, null, bool, int, float, str, arr, obj, nil, cons, end, field, get, has_key,
  has_item,
}
use text.Mathlib.Text.{starts_with, find?}
use media_orchard.Shared.Enums.{online, NodeStatus-discrete}
use media_orchard.Shared.DateTimes.{DateTime, instant}
use media_orchard.Controller.Models.{Node, Step}

-- config.node_priorities: a `dict[str, int]`
abbrev pub Priorities : Type 0
Priorities = List (String × ℤ)

pub record SchedulerConfig (F : Type 0) : Type 0 where
  pub shared_root : String
  pub heartbeat_timeout_seconds : ℕ
  pub max_cpu_percent : F
  pub max_memory_percent : F
  pub min_free_disk_gb : F
  pub max_runtime_on_battery_minutes : ℕ
  pub node_priorities : Priorities

-- `SchedulerConfig(shared_root=…, node_priorities=…)`: the other fields have their defaults.
unfoldable pub default_config : {F : Type 0} → Floats F → String → Priorities → SchedulerConfig F
default_config fl root priorities = record {
  shared_root = root;
  heartbeat_timeout_seconds = 30;
  max_cpu_percent = fl.lit 850 1;
  max_memory_percent = fl.lit 850 1;
  min_free_disk_gb = fl.lit 200 1;
  max_runtime_on_battery_minutes = 20;
  node_priorities = priorities;
}

-- The values of `EligibilityResult.reason`; `eligible` is the one that comes
-- with `True`, and `heartbeat_stale` is "heartbeat_expired".
pub data Reason : Type 0 where
  eligible node_offline heartbeat_stale shared_root_mismatch cpu_too_high : Reason
  memory_too_high disk_too_low thermal_blocked node_avoided battery_runtime_blocked : Reason
  whisper_concurrency_full ffmpeg_concurrency_full : Reason

pub record EligibilityResult : Type 0 where
  pub is_eligible : Bool
  pub reason : Reason

-- What Python raises on a Step whose `input_json` has values of other types than the code expects.
pub data Raised : Type 0 where
  attribute_error type_error value_error : Raised

-- Why the checks end early.
pub data Stop : Type 0 where
  reject : Reason → Stop
  raise : Raised → Stop

abbrev may_raise {ℓ} : {A : Type ℓ} → Result Raised A → Result Stop A
may_raise (ok a) = ok a
may_raise (err e) = err (raise e)

-- `text in {…}`
abbrev pub is_one_of : String → List String → Bool
is_one_of s = any (λ t. t == s)

module _ {F : Type 0} where
  unfoldable pub is_whisper_step : Step F → Bool
  is_whisper_step step =
      is_one_of step.tool_name
        ("transcribe_audio" ∷ "mlx_whisper" ∷ "whisper" ∷ "whisper_tool" ∷ [])

  unfoldable pub is_ffmpeg_step : Step F → Bool
  is_ffmpeg_step step =
      is_one_of step.tool_name ("probe_media" ∷ "extract_audio" ∷ "ffprobe" ∷ "ffmpeg" ∷ [])
      || starts_with step.tool_name "ffmpeg_"

  -- step_constraints(step): a value that is no object has no `get`.
  unfoldable pub step_constraints : Step F → Result Raised (Fields F)
  step_constraints step = elim (get "constraints" step.input_json) [
    | none ↦ ok end
    | some (obj fs) ↦ ok fs
    | some _ ↦ err attribute_error
  ]

  -- `text in value`
  unfoldable pub in_value : String → Json F → Result Raised Bool
  in_value s (arr items) = ok (has_item s items)
  in_value s (obj fs) = ok (has_key s fs)
  in_value s (str t) = ok (elim (find? t s) [ none ↦ false | some _ ↦ true ])
  in_value s _ = err type_error

  -- node.id in step_constraints(step).get("avoid_nodes", [])
  unfoldable pub is_avoided : Step F → String → Result Raised Bool
  unfolding step_constraints in_value
  is_avoided step node_id = do
    constraints ← step_constraints step
    elim (get "avoid_nodes" constraints) [ none ↦ ok false | some value ↦ in_value node_id value ]

module _ {F : Type 0} (fl : Floats F) where
  -- float(value or 0)
  unfoldable pub float_or_zero : Json F → Result Raised F
  float_or_zero null = ok (fl.of_int (pos 0))
  float_or_zero (bool b) = ok (fl.of_int (if b then pos 1 else pos 0))
  float_or_zero (int n) = ok (fl.of_int n)
  float_or_zero (float x) = ok (if fl.is_zero x then fl.of_int (pos 0) else x)
  float_or_zero (str s) =
      if s == ""
      then ok (fl.of_int (pos 0))
      else elim (fl.of_text s) [ none ↦ err value_error | some x ↦ ok x ]
  float_or_zero (arr nil) = ok (fl.of_int (pos 0))
  float_or_zero (arr (cons _ _)) = err type_error
  float_or_zero (obj end) = ok (fl.of_int (pos 0))
  float_or_zero (obj (field _ _ _)) = err type_error

  unfoldable pub estimated_runtime_minutes : Step F → Result Raised F
  unfolding float_or_zero
  estimated_runtime_minutes step = elim (get "estimated_runtime_minutes" step.input_json) [
    | none ↦ ok (fl.of_int (pos 0))
    | some value ↦ float_or_zero value
  ]

  -- (now - last).total_seconds() > timeout, both read as UTC; times count microseconds
  unfoldable pub heartbeat_expired : Node F → SchedulerConfig F → DateTime → Bool
  unfolding instant
  heartbeat_expired node config now = elim node.last_heartbeat_at [
    | none ↦ true
    | some last ↦ ltb (instant last + config.heartbeat_timeout_seconds * 1_000_000) (instant now)
  ]

  -- `node.on_battery and estimated_runtime_minutes(step) > …`
  unfoldable pub battery_blocked : Step F → Node F → SchedulerConfig F → Result Raised Bool
  battery_blocked step node config =
      if node.on_battery
      then (do
        minutes ← estimated_runtime_minutes step
        ok (fl.lt (fl.of_int (pos config.max_runtime_on_battery_minutes)) minutes))
      else ok false

  -- The checks in their order; each early return is a `reject`.
  unfoldable pub run_checks :
      Step F → Node F → SchedulerConfig F → DateTime → Result Stop (Unit {0})
  run_checks step node config now = do
    require (is_yes (NodeStatus-discrete node.status online)) (reject node_offline)
    require (not (heartbeat_expired node config now)) (reject heartbeat_stale)
    require (node.shared_root == config.shared_root) (reject shared_root_mismatch)
    require (not (fl.lt config.max_cpu_percent node.cpu_percent)) (reject cpu_too_high)
    require (not (fl.lt config.max_memory_percent node.memory_percent)) (reject memory_too_high)
    require (not (fl.lt node.free_disk_gb config.min_free_disk_gb)) (reject disk_too_low)
    require (not (is_one_of node.thermal_state ("serious" ∷ "critical" ∷ [])))
        (reject thermal_blocked)
    avoided ← may_raise (is_avoided step node.id)
    require (not avoided) (reject node_avoided)
    blocked ← may_raise (battery_blocked step node config)
    require (not blocked) (reject battery_runtime_blocked)
    require
        (not (is_whisper_step step && leb_ℤ node.max_whisper_jobs (pos node.active_whisper_jobs)))
        (reject whisper_concurrency_full)
    require (not (is_ffmpeg_step step && leb_ℤ node.max_ffmpeg_jobs (pos node.active_ffmpeg_jobs)))
        (reject ffmpeg_concurrency_full)

  -- `err` is an exception that the checks did not catch.
  unfoldable pub is_node_eligible :
      Step F → Node F → SchedulerConfig F → DateTime → Result Raised EligibilityResult
  unfolding run_checks
  is_node_eligible step node config now = elim (run_checks step node config now) [
    | ok _ ↦ ok (record { is_eligible = true; reason = eligible })
    | err (reject why) ↦ ok (record { is_eligible = false; reason = why })
    | err (raise e) ↦ err e
  ]
