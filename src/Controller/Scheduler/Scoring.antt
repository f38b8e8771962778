-- ===== src/Controller/Scheduler/Scoring.antt =====
-- mediaorchard/controller/scheduler/scoring.py: the cost of a node, and the choice of one.
pub mod Choice
use media_orchard.Prelude.{
  String, Bool, true, false, not, Option, none, some, List, [], ◌∷◌, ◌++◌, ◌==◌, if◌then◌else◌,
}
use media_orchard.Prelude.Results.{Result, ok, ◌>>=◌, ◌>>◌}
use media_orchard.Prelude.Int.{pos}
use media_orchard.Prelude.Floats.{Floats}
use media_orchard.Shared.DateTimes.{DateTime}
use media_orchard.Controller.Models.{Node, Step}
use media_orchard.Prelude.Dicts.{Dict, lookup, insert}
use media_orchard.Prelude.Order.{text_lt, sort}
use media_orchard.Controller.Scheduler.Policies.{
  SchedulerConfig, Reason, Raised, EligibilityResult, is_whisper_step, is_ffmpeg_step,
  is_node_eligible,
}

-- The keys of `NodeCost.components`; `total` is `NodeCost.total` too.
pub record NodeCost (F : Type 0) : Type 0 where
  pub cpu_load : F
  pub memory_pressure : F
  pub active_same_type_jobs : F
  pub thermal_penalty : F
  pub disk_io_penalty : F
  pub recent_usage_penalty : F
  pub file_locality_bonus : F
  pub benchmark_speed_bonus : F
  pub priority_bonus : F
  pub total : F

-- `reason`: "selected:…" or "no_eligible_nodes"
pub data DecisionReason : Type 0 where
  selected : String → DecisionReason
  no_eligible_nodes : DecisionReason

pub record SchedulerDecision (F : Type 0) : Type 0 where
  pub selected_node : Option (Node F)
  pub rejected_nodes : Dict Reason
  pub score_breakdown : Dict (NodeCost F)
  pub reason : DecisionReason

-- The variables of the loop of `select_node_for_step`.
pub record Tally (F : Type 0) : Type 0 where
  pub rejected : Dict Reason
  pub scores : Dict (NodeCost F)
  pub candidates : List (F × Node F)

abbrev pub empty_tally : {F : Type 0} → Tally F
empty_tally = record { rejected = []; scores = []; candidates = [] }

module _ {F : Type 0} (fl : Floats F) where
  unfoldable pub same_type_active_jobs : Step F → Node F → F
  same_type_active_jobs step node =
      if is_whisper_step step
      then fl.of_int (pos node.active_whisper_jobs)
      else if is_ffmpeg_step step
      then fl.of_int (pos node.active_ffmpeg_jobs)
      else fl.of_int (pos node.active_jobs)

  unfoldable pub thermal_penalty : Node F → F
  thermal_penalty node =
      if node.thermal_state == "normal"
      then fl.lit 0 1
      else if node.thermal_state == "fair"
      then fl.lit 200 1
      else if node.thermal_state == "serious"
      then fl.lit 1000 1
      else if node.thermal_state == "critical"
      then fl.lit 1000 1
      else fl.lit 100 1

  -- The bonus by host: an empty or missing host has none.
  host_bonus : Option String → SchedulerConfig F → F
  host_bonus none config = fl.lit 0 1
  host_bonus (some host) config =
      if host == ""
      then fl.lit 0 1
      else elim (lookup host config.node_priorities) [ none ↦ fl.lit 0 1 | some p ↦ fl.of_int p ]

  unfoldable pub node_priority_bonus : Node F → SchedulerConfig F → F
  unfolding host_bonus
  node_priority_bonus node config = elim (lookup node.id config.node_priorities) [
    | some p ↦ fl.of_int p
    | none ↦ host_bonus node.host config
  ]

  unfoldable pub calculate_node_cost : Step F → Node F → SchedulerConfig F → NodeCost F
  calculate_node_cost step node config =
      let cpu = fl.mul (fl.lit 30 2) node.cpu_percent in
      let memory = fl.mul (fl.lit 20 2) node.memory_percent in
      let active = fl.mul (fl.lit 15 2) (same_type_active_jobs step node) in
      let thermal = fl.mul (fl.lit 10 2) (thermal_penalty node) in
      let zero_bonus = fl.lit 0 1 in
      let priority = node_priority_bonus node config in
      let penalties =
        fl.add (fl.add (fl.add (fl.add (fl.add cpu memory) active) thermal) zero_bonus)
          zero_bonus in
      record {
        cpu_load = cpu;
        memory_pressure = memory;
        active_same_type_jobs = active;
        thermal_penalty = thermal;
        disk_io_penalty = zero_bonus;
        recent_usage_penalty = zero_bonus;
        file_locality_bonus = zero_bonus;
        benchmark_speed_bonus = zero_bonus;
        priority_bonus = priority;
        total = fl.sub (fl.sub (fl.sub penalties zero_bonus) zero_bonus) priority;
      }

  -- `(cost, id)` before `(cost', id')`, as Python compares tuples. Costs are never NaN.
  unfoldable pub before : F × Node F → F × Node F → Bool
  before (x, m) (y, n) = if fl.lt x y then true else if fl.lt y x then false else text_lt m.id n.id

  -- One round of the loop.
  unfoldable pub tally_node :
      Step F → SchedulerConfig F → Node F → EligibilityResult → Tally F → Tally F
  tally_node step config node eligibility t =
      if not eligibility.is_eligible
      then record t { rejected = insert node.id eligibility.reason t.rejected }
      else let cost = calculate_node_cost step node config in
        record t {
          scores = insert node.id cost t.scores;
          candidates = t.candidates ++ ((cost.total, node) ∷ []);
        }

  unfoldable pub tally_nodes :
      Step F → SchedulerConfig F → DateTime → List (Node F) → Tally F → Result Raised (Tally F)
  unfolding tally_node
  tally_nodes step config now [] t = ok t
  tally_nodes step config now (node ∷ nodes) t =
      is_node_eligible fl step node config now >>= λ eligibility.
      tally_nodes step config now nodes (tally_node step config node eligibility t)

  -- What follows `candidates.sort(…)`.
  unfoldable pub decide : Tally F → List (F × Node F) → SchedulerDecision F
  decide t [] = record {
    selected_node = none;
    rejected_nodes = t.rejected;
    score_breakdown = t.scores;
    reason = no_eligible_nodes;
  }
  decide t ((cost, node) ∷ _) = record {
    selected_node = some node;
    rejected_nodes = t.rejected;
    score_breakdown = t.scores;
    reason = selected node.id;
  }

  unfoldable pub select_node_for_step :
      Step F → List (Node F) → SchedulerConfig F → DateTime → Result Raised (SchedulerDecision F)
  unfolding tally_nodes decide
  select_node_for_step step nodes config now = do
    t ← tally_nodes step config now nodes empty_tally
    ok (decide t (sort before t.candidates))
