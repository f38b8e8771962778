-- ===== src/Worker/Execution.antt =====
-- `execute_claimed_step` of mediaorchard/cli/runtime.py: how a Worker runs a Step that it claimed.
pub mod Reports
pub mod Service
pub mod Failures
use media_orchard.Prelude.{
  String, Bool, true, false, not, Option, none, some, List, [], ◌∷◌, ◌++◌, ◌==◌, if◌then◌else◌,
}
use media_orchard.Prelude.Results.{Result, ok, err}
use Prim.Native.String
use media_orchard.Prelude.Int.{pos, int_eq}
use media_orchard.Prelude.Floats.{Floats}
use media_orchard.Prelude.Json.{
  Json, Fields, null, bool, int, float, str, arr, obj, nil, cons, end, field, get,
}
use media_orchard.Worker.Agent.{Post, start, complete, fail}

-- The Controller's answer to the next post, after these posts: a JSON object or nothing, or the
-- message of an exception.
abbrev pub Transport : Type 0 → Type 0
Transport F = List (Post F) → Post F → Result String (Option (Fields F))

-- A step runner, which may raise.
abbrev pub StepRunner : Type 0 → Type 0
StepRunner F = Fields F → Result String (Fields F)

-- bool(value)
abbrev pub is_truthy : {F : Type 0} → Floats F → Json F → Bool
is_truthy fl null = false
is_truthy fl (bool b) = b
is_truthy fl (int n) = not (int_eq n (pos 0))
is_truthy fl (float x) = not (fl.is_zero x)
is_truthy fl (str s) = not (s == "")
is_truthy fl (arr nil) = false
is_truthy fl (arr (cons _ _)) = true
is_truthy fl (obj end) = false
is_truthy fl (obj (field _ _ _)) = true

-- f"claimed step is missing {what}"
abbrev missing : String → String
missing what = String.◌++◌ "claimed step is missing " what

module _ {F : Type 0} where
  -- _required_step_str
  unfoldable pub required_step_str : Fields F → String → Result String String
  required_step_str step key = elim (get key step) [
    | none ↦ err (missing key)
    | some (str s) ↦ if s == "" then err (missing key) else ok s
    | some _ ↦ err (missing key)
  ]

  -- _required_step_int: the value as it stands; a bool is an int too.
  unfoldable pub required_step_int : Fields F → String → Result String (Json F)
  required_step_int step key = elim (get key step) [
    | none ↦ err (missing (String.◌++◌ "integer " key))
    | some (int n) ↦ ok (int n)
    | some (bool b) ↦ ok (bool b)
    | some _ ↦ err (missing (String.◌++◌ "integer " key))
  ]

  -- output_json.get("status") == "failed"
  unfoldable pub is_failed : Fields F → Bool
  is_failed output = elim (get "status" output) [
    | some (str s) ↦ s == "failed"
    | some _ ↦ false
    | none ↦ false
  ]

-- `text` is Python's str() of a JSON value.
module _ {F : Type 0} (fl : Floats F) (text : Json F → String) where
  -- str(output_json.get("error_message") or "step failed")
  unfoldable pub failure_message : Fields F → String
  failure_message output = elim (get "error_message" output) [
    | none ↦ text (str "step failed")
    | some value ↦ if is_truthy fl value then text value else text (str "step failed")
  ]

  module _ (post : Transport F) (run : StepRunner F) (step : Fields F) (id : String)
      (epoch : Json F) where
    -- The last post of a branch: how it ends, and all the posts.
    abbrev pub sent : List (Post F) → Post F → Result String (Unit {0}) × List (Post F)
    sent log p = (elim (post log p) [ err e ↦ err e | ok _ ↦ ok tt ], log ++ (p ∷ []))

    -- From `step_runner(step, config)` to the end of the `try` block.
    unfoldable pub after_start : List (Post F) → Result String (Unit {0}) × List (Post F)
    unfolding is_failed failure_message
    after_start log = elim (run step) [
      | err e ↦ (err e, log)
      | ok output ↦
          if is_failed output
          then sent log (fail id epoch (failure_message output))
          else sent log (complete id epoch output)
    ]

    -- The `try` block.
    unfoldable pub try_step : List (Post F) → Result String (Unit {0}) × List (Post F)
    unfolding after_start
    try_step log = elim (post log (start id epoch)) [
      | err e ↦ (err e, log ++ (start id epoch ∷ []))
      | ok _ ↦ after_start (log ++ (start id epoch ∷ []))
    ]

    -- except Exception as exc
    unfoldable pub or_report :
        Result String (Unit {0}) × List (Post F) → Result String (Unit {0}) × List (Post F)
    or_report (ok _, log) = (ok tt, log)
    or_report (err e, log) = sent log (fail id epoch e)

  unfoldable pub execute_claimed_step :
      Transport F
      → StepRunner F
      → Fields F
      → List (Post F)
      → Result String (Unit {0}) × List (Post F)
  unfolding required_step_str required_step_int try_step or_report
  execute_claimed_step post run step log = elim (required_step_str step "id") [
    | err e ↦ (err e, log)
    | ok id ↦ elim (required_step_int step "assignment_epoch") [
      | err e ↦ (err e, log)
      | ok epoch ↦ or_report post run step id epoch (try_step post run step id epoch log)
    ]
  ]
