-- ===== src/Controller/Scheduler/Scoring/Choice.antt =====
-- `select_node_for_step` chooses the cheapest eligible node.
use media_orchard.Prelude.{
  ◌≡◌, sym, ap, ◌∙◌, subst, ◌↔◌, inl, inr, Bool, true, false, Option, none, some, List, [], ◌∷◌,
  ◌++◌, arith, if◌then◌else◌, Bool-cases, All, Any, here, there, not-Any-nil, Any-cons,
}
use media_orchard.Prelude.Results.{ok, >>=-eq-ok}
use media_orchard.Prelude.Floats.{Floats, IsOrdered}
use media_orchard.Shared.DateTimes.{DateTime}
use media_orchard.Controller.Models.{Node, Step}
use media_orchard.Prelude.Order.{
  text_lt_asymm, text_not_lt_trans, IsWeakOrder, sort, IsLeast, Leads, nothing, least, sort-Leads,
}
use media_orchard.Controller.Scheduler.Policies.{SchedulerConfig, is_node_eligible}
use media_orchard.Controller.Scheduler.Policies.Eligibility.{
  IsEligible, is_node_eligible_iff, is_pass, is_pass-accepted,
}
use mathlib.Core.List.{append-nil, append_assoc}
use media_orchard.Controller.Scheduler.Scoring.{
  SchedulerDecision, Tally, empty_tally, calculate_node_cost, before, tally_node, tally_nodes,
  decide, select_node_for_step,
}

module _ {F : Type 0} (fl : Floats F) where
  before-IsWeakOrder : IsOrdered fl → IsWeakOrder (before fl)
  unfolding before
  before-IsWeakOrder o = record {
    asymm = λ (x, m) (y, n) h. ground (arith, o.lt_asymm x y, text_lt_asymm m.id n.id);
    not_lt_trans = λ (x, m) (y, n) (z, k) g h. ground (
      arith,
      o.lt_asymm x y,
      o.lt_asymm y z,
      o.lt_asymm x z,
      o.not_lt_trans x y z,
      o.not_lt_trans z y x,
      o.not_lt_trans x z y,
      o.not_lt_trans y x z,
      o.not_lt_trans y z x,
      o.not_lt_trans z x y,
      text_not_lt_trans m.id n.id k.id,
    );
  }

module _ {F : Type 0} (fl : Floats F) (step : Step F) (config : SchedulerConfig F)
    (now : DateTime) where
  -- The key by which nodes are compared: cost, then id.
  abbrev pub key : Node F → F × Node F
  key node = ((calculate_node_cost fl step node config).total, node)

  abbrev passes : Node F → Bool
  passes node = is_pass (is_node_eligible fl step node config now)

  passed : List (Node F) → List (F × Node F)
  passed [] = []
  passed (n ∷ ns) = let rest = passed ns in if passes n then key n ∷ rest else rest

  passes_iff : (n : Node F) → (passes n ≡ true) ↔ IsEligible fl step n config now
  passes_iff n =
      let iff = is_node_eligible_iff fl step n config now in
      (λ h. iff.0 (is_pass-accepted fl step n config now h), λ e. ap is_pass (iff.1 e))

  candidates-tally_nodes :
      (nodes : List (Node F)) (t u : Tally F)
      → tally_nodes fl step config now nodes t ≡ ok u
      → u.candidates ≡ t.candidates ++ passed nodes
  unfolding tally_nodes tally_node passed
  candidates-tally_nodes [] t u h = ground (arith, append-nil t.candidates)
  candidates-tally_nodes (n ∷ ns) t u h =
      let (r, e, k) = >>=-eq-ok (is_node_eligible fl step n config now) _ h in
      ground (
        arith,
        e,
        candidates-tally_nodes ns (tally_node fl step config n r t) u k,
        append_assoc t.candidates (key n ∷ []) (passed ns),
      )

  -- What it means that `choice` is the outcome for `nodes`: it is one of them, eligible, and no
  -- eligible one comes before it; or there is no eligible one.
  pub data IsChoice (nodes : List (Node F)) : Option (Node F) → Type 0 where
    chosen :
        {n : Node F}
        → Any (λ m. m ≡ n) nodes
        → IsEligible fl step n config now
        → All (λ m. IsEligible fl step m config now → before fl (key m) (key n) ≡ false) nodes
        → IsChoice nodes (some n)
    none_eligible : All (λ m. ¬ IsEligible fl step m config now) nodes → IsChoice nodes none

  Any-passed :
      (nodes : List (Node F)) (c : F) (n : Node F)
      → Any (λ k. k ≡ (c, n)) (passed nodes)
      → Any (λ m. m ≡ n) nodes × IsEligible fl step n config now × (key n ≡ (c, n))
  unfolding passed
  Any-passed [] c n a = absurd (not-Any-nil _ a)
  Any-passed (m ∷ ms) c n a = elim (Bool-cases (passes m)) [
    | inl p ↦ elim (Any-cons _ (rw p at a)) [
      | inl e ↦ (
        here (ap (λ (k : F × Node F). k.1) e),
        subst (λ (k : F × Node F). IsEligible fl step k.1 config now) e ((passes_iff m).0 p),
        ap (λ (k : F × Node F). key k.1) (sym e) ∙ e,
      )
      | inr b ↦ let (i, el, ke) = Any-passed ms c n b in (there i, el, ke)
    ]
    | inr p ↦ let (i, el, ke) = Any-passed ms c n (rw p at a) in (there i, el, ke)
  ]

  IsLeast-passed :
      (nodes : List (Node F)) (k : F × Node F)
      → IsLeast (before fl) k (passed nodes)
      → All (λ m. IsEligible fl step m config now → before fl (key m) k ≡ false) nodes
  unfolding passed
  IsLeast-passed [] k l = tt
  IsLeast-passed (m ∷ ms) k l = elim (Bool-cases (passes m)) [
    | inl p ↦
        let l' : IsLeast (before fl) k (key m ∷ passed ms) = rw p at l in
        (λ _. l'.0, IsLeast-passed ms k l'.1)
    | inr p ↦ (λ e. cc ((passes_iff m).1 e), IsLeast-passed ms k (rw p at l))
  ]

  passed-nil :
      (nodes : List (Node F))
      → [] ≡ passed nodes
      → All (λ m. ¬ IsEligible fl step m config now) nodes
  unfolding passed
  passed-nil [] h = tt
  passed-nil (m ∷ ms) h = elim (Bool-cases (passes m)) [
    | inl p ↦ cc (rw p at h)
    | inr p ↦ (λ e. cc ((passes_iff m).1 e), passed-nil ms (rw p at h))
  ]

  decide-IsChoice :
      (nodes : List (Node F)) (t : Tally F) {sorted candidates : List (F × Node F)}
      → candidates ≡ passed nodes
      → Leads (before fl) sorted candidates
      → IsChoice nodes (decide fl t sorted).selected_node
  unfolding decide
  decide-IsChoice nodes t e nothing = none_eligible (passed-nil nodes e)
  decide-IsChoice nodes t e (least {m = (c, n)} a l) =
      let (i, el, ke) = Any-passed nodes c n (rw e at a) in
      chosen i el (rw ke (IsLeast-passed nodes (c, n) (rw e at l)))

  -- With an order of floats, and if the checks of no node raise, the scheduler chooses among the
  -- eligible nodes one of least cost, and of least id among those, or none if no node is eligible.
  pub select_node_for_step-IsChoice :
      IsOrdered fl
      → (nodes : List (Node F)) (d : SchedulerDecision F)
      → select_node_for_step fl step nodes config now ≡ ok d
      → IsChoice nodes d.selected_node
  unfolding select_node_for_step
  select_node_for_step-IsChoice o nodes d h =
      let (t, e, k) = >>=-eq-ok (tally_nodes fl step config now nodes empty_tally) _ h in
      let made : decide fl t (sort (before fl) t.candidates) ≡ d = cc k in
      subst (λ (d' : SchedulerDecision F). IsChoice nodes d'.selected_node) made
        (decide-IsChoice nodes t (candidates-tally_nodes nodes empty_tally t e)
          (sort-Leads _ (before-IsWeakOrder fl o) t.candidates))
