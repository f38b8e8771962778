-- ===== src/Controller/Scheduler/Loop/Assignment.antt =====
-- What one assignment does to the Step and to the nodes.
use media_orchard.Prelude.{
  ◌+◌, String, ◌≡◌, refl, sym, ap, ◌∙◌, subst, ◌⊎◌, inl, inr, true, not, ◌&&◌, ◌≢◌, if◌then◌else◌,
  Option, none, some, List, [], ◌∷◌, arith, ◌==◌, eq_iff, Bool-cases, All, Any, here, there,
  All-map, All-Any, Both, done, pair, Both-refl,
}
use media_orchard.Prelude.Tables.{HasDistinctKeys}
use media_orchard.Prelude.Results.{Result, ok, err, require, >>=-eq-ok}
use media_orchard.Prelude.Int.{pos, leb_ℤ}
use media_orchard.Prelude.Floats.{Floats, IsOrdered}
use media_orchard.Shared.Enums.{queued, assigned, StepStatus-discrete}
use media_orchard.Shared.DateTimes.{DateTime}
use media_orchard.Controller.Models.{Node, Step}
use media_orchard.Controller.StateMachine.{same_status, assign_step, transition_step}
use media_orchard.Controller.Scheduler.Policies.{
  SchedulerConfig, Raised, is_whisper_step, is_ffmpeg_step,
}
use media_orchard.Controller.Scheduler.Policies.Eligibility.{IsEligible}
use media_orchard.Controller.Scheduler.Scoring.{SchedulerDecision, select_node_for_step}
use media_orchard.Controller.Scheduler.Scoring.Choice.{
  IsChoice, chosen, select_node_for_step-IsChoice,
}
use media_orchard.Controller.Scheduler.Loop.{
  in_selection, count_assignment, update_node, Outcome, assign_selected, assign_best_node,
}

-- `step` after `assign_step` gave it to a node.
abbrev pub given_to : {F : Type 0} → String → DateTime → Step F → Step F
given_to node now step = record step {
  status = assigned;
  assigned_node_id = some node;
  assigned_at = some now;
  assignment_epoch = step.assignment_epoch + 1;
}

-- The primary key of the nodes.
abbrev pub node_id : {F : Type 0} → Node F → String
node_id n = n.id

-- A node with one Step more: it is counted once among all its jobs, and once among those of the
-- Step's tool, and nothing else of the node has changed.
pub record IsCounted {F : Type 0} (step : Step F) (n n' : Node F) : Type 0 where
  pub jobs : n'.active_jobs ≡ n.active_jobs + 1
  pub whisper :
      n'.active_whisper_jobs
      ≡ (if is_whisper_step step then n.active_whisper_jobs + 1 else n.active_whisper_jobs)
  pub ffmpeg : n'.active_ffmpeg_jobs ≡ (
      if not (is_whisper_step step) && is_ffmpeg_step step
      then n.active_ffmpeg_jobs + 1
      else n.active_ffmpeg_jobs)
  pub others : n' ≡ record n {
    active_jobs = n'.active_jobs;
    active_whisper_jobs = n'.active_whisper_jobs;
    active_ffmpeg_jobs = n'.active_ffmpeg_jobs;
  }

-- A node after an assignment to the one with this id.
pub data IsAfter {F : Type 0} (step : Step F) (id : String) (n n' : Node F) : Type 0 where
  busier : n.id ≡ id → IsCounted step n n' → IsAfter step id n n'
  same : n.id ≢ id → n' ≡ n → IsAfter step id n n'

module _ {F : Type 0} (step : Step F) where
  count_assignment-IsCounted : (n : Node F) → IsCounted step n (count_assignment step n)
  unfolding count_assignment
  count_assignment-IsCounted n = record {
    jobs = ground arith;
    whisper = ground arith;
    ffmpeg = ground arith;
    others = ground arith;
  }

  update_node-IsAfter :
      (id : String) (nodes : List (Node F))
      → Both (IsAfter step id) nodes (update_node step id nodes)
  unfolding update_node
  update_node-IsAfter id [] = done
  update_node-IsAfter id (n ∷ ns) = elim (Bool-cases (n.id == id)) [
    | inl e ↦ rw e (
        pair (busier ((eq_iff n.id id).0 e) (count_assignment-IsCounted n))
          (update_node-IsAfter id ns))
    | inr e ↦
        rw e (pair (same (λ q. ground (arith, eq_iff n.id id)) refl) (update_node-IsAfter id ns))
  ]

in_selection-ok : {A : Type 0} (r : Result Raised A) {a : A} → in_selection r ≡ ok a → r ≡ ok a
in_selection-ok (ok a) h = cc
in_selection-ok (err e) h = cc

module _ {F : Type 0} (fl : Floats F) (step : Step F) (nodes : List (Node F))
    (config : SchedulerConfig F) (now : DateTime) where
  -- The two ends of an assignment: no node is eligible and nothing changes, or the choice of the
  -- scheduler has the Step, under a new epoch, it and no other node is counted busier, and so it is
  -- returned.
  pub data IsOutcome (r : Outcome F) : Type 0 where
    unassigned :
        IsChoice fl step config now nodes none → r.step ≡ step → r.nodes ≡ nodes → IsOutcome r
    given :
        (n : Node F)
        → IsChoice fl step config now nodes (some n)
        → r.step ≡ given_to n.id now step
        → Both (IsAfter step n.id) nodes r.nodes
        → (n' : Node F) × (r.decision.selected_node ≡ some n') × IsCounted step n n'
        → IsOutcome r

  assign_selected-IsOutcome :
      (d : SchedulerDecision F) (choice : Option (Node F)) (r : Outcome F)
      → step.status ≡ queued
      → IsChoice fl step config now nodes choice
      → assign_selected step nodes now d choice ≡ ok r
      → IsOutcome r
  unfolding assign_selected assign_step transition_step StepStatus-discrete
  assign_selected-IsOutcome d none r q c h = unassigned c (ground arith) (ground arith)
  assign_selected-IsOutcome d (some n) r q c h =
      let e = rw q at h in
      given n c (ground arith)
        (subst (Both (IsAfter step n.id) nodes) (ground arith)
          (update_node-IsAfter step n.id nodes))
        (count_assignment step n, ground arith, count_assignment-IsCounted step n)

  -- With an order of floats, an assignment that returns was of a queued Step. It gives the Step under
  -- a new epoch to an eligible node that no eligible node precedes by cost and id, and counts one job
  -- more at that node and nowhere else, among all its jobs and among those of the Step's tool, whisper
  -- or ffmpeg, if it is one. Or no node is eligible, and Step and nodes stay as they were.
  pub assign_best_node-IsOutcome :
      (r : Outcome F)
      → IsOrdered fl
      → assign_best_node fl step nodes config now ≡ ok r
      → (step.status ≡ queued) × IsOutcome r
  unfolding assign_best_node
  assign_best_node-IsOutcome r o h =
      let (_, q, h₁) = >>=-eq-ok (require (same_status step.status queued) _) _ h in
      let (d, s, h₂) =
        >>=-eq-ok (in_selection (select_node_for_step fl step nodes config now)) _ h₁ in
      let queued_first : step.status ≡ queued = ground arith in
      let chose =
        select_node_for_step-IsChoice fl step config now o nodes d (in_selection-ok _ s) in
      (queued_first, assign_selected-IsOutcome d d.selected_node r queued_first chose h₂)

-- What becomes of the Step of an assignment, whatever the node.
pub data IsGiven {F : Type 0} (now : DateTime) (s t : Step F) : Type 0 where
  left : t ≡ s → IsGiven now s t
  taken : (node : String) → s.status ≡ queued → t ≡ given_to node now s → IsGiven now s t

module _ {F : Type 0} (fl : Floats F) (step : Step F) (nodes : List (Node F))
    (config : SchedulerConfig F) (now : DateTime) where
  assign_selected-IsGiven :
      (d : SchedulerDecision F) (choice : Option (Node F)) (r : Outcome F)
      → step.status ≡ queued
      → assign_selected step nodes now d choice ≡ ok r
      → IsGiven now step r.step
  unfolding assign_selected assign_step transition_step StepStatus-discrete
  assign_selected-IsGiven d none r q h = left (ground arith)
  assign_selected-IsGiven d (some n) r q h = let e = rw q at h in taken n.id q (ground arith)

  pub assign_best_node-IsGiven :
      (r : Outcome F) → assign_best_node fl step nodes config now ≡ ok r → IsGiven now step r.step
  unfolding assign_best_node
  assign_best_node-IsGiven r h =
      let (_, q, h₁) = >>=-eq-ok (require (same_status step.status queued) _) _ h in
      let (d, s, h₂) =
        >>=-eq-ok (in_selection (select_node_for_step fl step nodes config now)) _ h₁ in
      assign_selected-IsGiven d d.selected_node r (ground arith) h₂

-- A node and what assignments make of it: the same node, and a counter that grew is within its cap.
pub record KeepsCaps {F : Type 0} (m n : Node F) : Type 0 where
  pub same_id : n.id ≡ m.id
  pub same_caps :
      (n.max_whisper_jobs ≡ m.max_whisper_jobs) × (n.max_ffmpeg_jobs ≡ m.max_ffmpeg_jobs)
  pub whisper_within :
      (n.active_whisper_jobs ≡ m.active_whisper_jobs)
      ⊎ (leb_ℤ (pos n.active_whisper_jobs) n.max_whisper_jobs ≡ true)
  pub ffmpeg_within :
      (n.active_ffmpeg_jobs ≡ m.active_ffmpeg_jobs)
      ⊎ (leb_ℤ (pos n.active_ffmpeg_jobs) n.max_ffmpeg_jobs ≡ true)

module _ {F : Type 0} where
  pub KeepsCaps-refl : (n : Node F) → KeepsCaps n n
  KeepsCaps-refl n = record {
    same_id = refl;
    same_caps = (refl, refl);
    whisper_within = inl refl;
    ffmpeg_within = inl refl;
  }

  pub KeepsCaps-trans : (k m n : Node F) → KeepsCaps k m → KeepsCaps m n → KeepsCaps k n
  KeepsCaps-trans k m n p q = record {
    same_id = q.same_id ∙ p.same_id;
    same_caps = (q.same_caps.0 ∙ p.same_caps.0, q.same_caps.1 ∙ p.same_caps.1);
    whisper_within = ground arith;
    ffmpeg_within = ground arith;
  }

  distinct_at :
      (n : Node F) (nodes : List (Node F))
      → HasDistinctKeys node_id nodes
      → Any (λ m. m ≡ n) nodes
      → All (λ m. m.id ≡ n.id → m ≡ n) nodes
  distinct_at n [] d a = elim a [ ]
  distinct_at n (m ∷ ms) (d, ds) (here p) = (
    λ _. p,
    All-map _ _ (λ k other same. absurd (other (same ∙ ap (λ (j : Node F). j.id) (sym p)))) ms d,
  )
  distinct_at n (m ∷ ms) (d, ds) (there a) =
      (λ same. absurd (All-Any _ n ms d a (sym same)), distinct_at n ms ds a)

module _ {F : Type 0} (fl : Floats F) (step : Step F) (config : SchedulerConfig F)
    (now : DateTime) where
  IsCounted-KeepsCaps :
      (n n' : Node F) → IsEligible fl step n config now → IsCounted step n n' → KeepsCaps n n'
  IsCounted-KeepsCaps n n' e c = record {
    same_id = ap (λ (k : Node F). k.id) c.others;
    same_caps = (
      ap (λ (k : Node F). k.max_whisper_jobs) c.others,
      ap (λ (k : Node F). k.max_ffmpeg_jobs) c.others,
    );
    whisper_within = ground (arith, e.whisper_room, c.whisper);
    ffmpeg_within = ground (arith, e.ffmpeg_room, c.ffmpeg);
  }

  nodes-KeepsCaps :
      (n : Node F) (nodes nodes' : List (Node F))
      → IsEligible fl step n config now
      → All (λ m. m.id ≡ n.id → m ≡ n) nodes
      → Both (IsAfter step n.id) nodes nodes'
      → Both KeepsCaps nodes nodes'
  nodes-KeepsCaps n [] _ e u done = done
  nodes-KeepsCaps n (m ∷ ms) [] e u after = elim after [ ]
  nodes-KeepsCaps n (m ∷ ms) (m' ∷ ms') e (u, us) (pair (busier q c) rest) =
      let at_m = subst (λ k. IsEligible fl step k config now) (sym (u q)) e in
      pair (IsCounted-KeepsCaps m m' at_m c) (nodes-KeepsCaps n ms ms' e us rest)
  nodes-KeepsCaps n (m ∷ ms) (m' ∷ ms') e (u, us) (pair (same q k) rest) =
      pair (subst (KeepsCaps m) (sym k) (KeepsCaps-refl m)) (nodes-KeepsCaps n ms ms' e us rest)

  -- An assignment takes no node over its whisper cap or its ffmpeg cap.
  pub IsOutcome-KeepsCaps :
      (nodes : List (Node F)) (r : Outcome F)
      → HasDistinctKeys node_id nodes
      → IsOutcome fl step nodes config now r
      → Both KeepsCaps nodes r.nodes
  IsOutcome-KeepsCaps nodes r d (unassigned c s e) = rw e (Both-refl KeepsCaps-refl nodes)
  IsOutcome-KeepsCaps nodes r d (given n (chosen i el l) s after counted) =
      nodes-KeepsCaps n nodes r.nodes el (distinct_at n nodes d i) after
