-- ===== src/Controller/Api/Steps/Claiming.antt =====
-- `claim_next`: which Step a worker gets, and that it gets one whenever there is one.
use media_orchard.Prelude.{
  String, ◌≡◌, refl, sym, ap, subst, inl, inr, Bool, true, false, ◌&&◌, Option, none, some, List,
  [], ◌∷◌, arith, ◌==◌, eq_iff, eq_refl, nat_eq, Bool-cases, select, count, All, Any, here, there,
  All-Any,
}
use media_orchard.Prelude.Results.{Result, ok}
use media_orchard.Prelude.Order.{IsWeakOrder, IsLeast, Leads, nothing, least, sort-Leads}
use media_orchard.Prelude.Tables.{update_where, get_row, HasDistinctKeys}
use media_orchard.Prelude.Updates.{Names, count_one, updated_row, second_update}
use media_orchard.Shared.Enums.{assigned, StepStatus-discrete}
use media_orchard.Shared.DateTimes.{DateTime}
use media_orchard.Controller.Models.{Step}
use media_orchard.Controller.StateMachine.{assign_step, recover_timed_out_step}
use media_orchard.Controller.Api.Steps.Fencing.{is_text-some, is_none-none}
use media_orchard.Controller.Api.Auth.{require_worker_auth, require_worker_node_id}
use media_orchard.Controller.Api.Steps.{
  Claim, is_unchanged, is_none, is_claimable, next_claimable, claim_row, claim_found, claim_next,
  assigned_before, head?,
}
use media_orchard.Controller.Api.{Env, App, Db, Headers, HttpError, ◌>>=◌, step_id}

assigned_before-IsWeakOrder :
    {F : Type 0} → IsWeakOrder (λ (s t : Step F). assigned_before s.assigned_at t.assigned_at)
assigned_before-IsWeakOrder = record {
  asymm = λ s t. asymm s.assigned_at t.assigned_at;
  not_lt_trans = λ s t u. not_lt_trans s.assigned_at t.assigned_at u.assigned_at;
}
  where
    asymm : (x y : Option DateTime) → assigned_before x y ≡ true → assigned_before y x ≡ false
    asymm none none h = refl
    asymm none (some b) h = refl
    asymm (some a) none h = cc
    asymm (some a) (some b) h = ground arith

    not_lt_trans :
        (x y z : Option DateTime)
        → assigned_before y x ≡ false
        → assigned_before z y ≡ false
        → assigned_before z x ≡ false
    not_lt_trans none none none h k = refl
    not_lt_trans none none (some c) h k = refl
    not_lt_trans none (some b) none h k = refl
    not_lt_trans none (some b) (some c) h k = refl
    not_lt_trans (some a) none none h k = cc
    not_lt_trans (some a) none (some c) h k = cc
    not_lt_trans (some a) (some b) none h k = cc
    not_lt_trans (some a) (some b) (some c) h k = ground arith

module _ {F : Type 0} where
  -- The Step has waited at least as long for its worker as any that the worker may claim.
  pub record IsNext (worker : String) (db : Db F) (s : Step F) : Type 0 where
    pub in_table : Any (λ r. r ≡ s) db.steps
    pub assigned_to_worker : (s.status ≡ assigned) × (s.assigned_node_id ≡ some worker)
    pub unclaimed : s.claimed_at ≡ none
    pub first :
        All
          (λ r. is_claimable worker r ≡ true → assigned_before r.assigned_at s.assigned_at ≡ false)
          db.steps

  -- The answers to `claim_next`, with the databases after them.
  pub data IsClaimAnswer (env : Env F) (worker : String) (db : Db F)
      : Result HttpError (Option (Step F)) × Db F → Type 0 where
    nothing_to_do :
        All (λ r. is_claimable worker r ≡ false) db.steps
        → IsClaimAnswer env worker db (ok none, db)
    leased :
        (s : Step F) (db' : Db F)
        → IsNext worker db s
        → get_row step_id s.id db'.steps ≡ some (record s { claimed_at = some (env.clock 0) })
        → IsClaimAnswer env worker db
            (ok (some (record s { claimed_at = some (env.clock 0) })), db')

  Any-select :
      (p : Step F → Bool) (s : Step F) (rows : List (Step F))
      → Any (λ r. r ≡ s) (select p rows)
      → Any (λ r. r ≡ s) rows × (p s ≡ true)
  Any-select p s [] a = elim a [ ]
  Any-select p s (r ∷ rs) a = elim (Bool-cases (p r)) [
    | inl e ↦ elim (rw e at a) [
      | here same ↦ (here same, rw same at e)
      | there a' ↦ let (b, q) = Any-select p s rs a' in (there b, q)
    ]
    | inr e ↦ let (b, q) = Any-select p s rs (rw e at a) in (there b, q)
  ]

  select-All :
      (P : Step F → Type 0) (p : Step F → Bool) (rows : List (Step F))
      → All P (select p rows)
      → All (λ r. p r ≡ true → P r) rows
  select-All P p [] h = tt
  select-All P p (r ∷ rs) h = elim (Bool-cases (p r)) [
    | inl e ↦ let (q, h') = rw e at h in ((λ _. q), select-All P p rs h')
    | inr e ↦ ((λ e'. absurd (true_ne_false e' e)), select-All P p rs (rw e at h))
  ]
    where
      true_ne_false : {b : Bool} → b ≡ true → b ≡ false → ⊥
      true_ne_false h k = cc

  none_selected :
      (p : Step F → Bool) (rows : List (Step F)) → select p rows ≡ [] → All (λ r. p r ≡ false) rows
  none_selected p [] h = tt
  none_selected p (r ∷ rs) h = elim (Bool-cases (p r)) [
    | inl e ↦ let h' = rw e at h in cc
    | inr e ↦ (e, none_selected p rs (rw e at h))
  ]

  -- The two answers of the SELECT.
  data IsFound (worker : String) (db : Db F) : Option (Step F) → Type 0 where
    no_step : All (λ r. is_claimable worker r ≡ false) db.steps → IsFound worker db none
    one_step :
        (s : Step F)
        → Any (λ r. r ≡ s) db.steps
        → is_claimable worker s ≡ true
        → All
            (λ r.
              is_claimable worker r ≡ true → assigned_before r.assigned_at s.assigned_at ≡ false)
            db.steps
        → IsFound worker db (some s)

  next_claimable-IsFound :
      (worker : String) (db : Db F) → IsFound worker db (next_claimable worker db)
  unfolding next_claimable
  next_claimable-IsFound worker db =
      from_Leads _ _ refl (sort-Leads _ assigned_before-IsWeakOrder _)
    where
      from_Leads :
          (sorted found : List (Step F))
          → found ≡ select (is_claimable worker) db.steps
          → Leads (λ s t. assigned_before s.assigned_at t.assigned_at) sorted found
          → IsFound worker db (head? sorted)
      from_Leads sorted found e nothing = no_step (none_selected _ db.steps (sym e))
      from_Leads sorted found e (least {m} a l) =
          let (b, q) = Any-select (is_claimable worker) m db.steps (subst (Any (λ r. r ≡ m)) e a) in
          one_step m b q (
            select-All (λ r. assigned_before r.assigned_at m.assigned_at ≡ false)
              (is_claimable worker) db.steps
              (subst (IsLeast (λ u v. assigned_before u.assigned_at v.assigned_at) m) e l))

  is_claimable-IsNext :
      (worker : String) (db : Db F) (s : Step F)
      → Any (λ r. r ≡ s) db.steps
      → is_claimable worker s ≡ true
      → All
          (λ r. is_claimable worker r ≡ true → assigned_before r.assigned_at s.assigned_at ≡ false)
          db.steps
      → IsNext worker db s
  unfolding StepStatus-discrete
  is_claimable-IsNext worker db s a c l = record {
    in_table = a;
    assigned_to_worker = (ground arith, is_text-some s.assigned_node_id worker (ground arith));
    unclaimed = is_none-none s.claimed_at (ground arith);
    first = l;
  }

  get_row-Any :
      (s : Step F) (rows : List (Step F))
      → HasDistinctKeys step_id rows
      → Any (λ r. r ≡ s) rows
      → get_row step_id s.id rows ≡ some s
  get_row-Any s [] d a = elim a [ ]
  get_row-Any s (r ∷ rs) (n, d) (here e) = rw (ap step_id e, e, eq_refl s.id) refl
  get_row-Any s (r ∷ rs) (n, d) (there a) =
      let other : (r.id == s.id) ≡ false =
        ground (arith, eq_iff r.id s.id, λ (e : r.id ≡ s.id). All-Any _ s rs n a (sym e)) in
      rw other (get_row-Any s rs d a)

module _ {F : Type 0} (env : Env F) where
  claim_row-IsClaimAnswer :
      (worker : String) (db : Db F) (s : Step F)
      → HasDistinctKeys step_id db.steps
      → is_claimable worker s ≡ true
      → IsNext worker db s
      → IsClaimAnswer env worker db (claim_row env worker s db)
  unfolding claim_row
  claim_row-IsClaimAnswer worker db s d c next =
      let unclaimed = λ (r : Step F). r.id == s.id && is_claimable worker r in
      let names : Names step_id s.id unclaimed = λ r h. ground (arith, eq_iff r.id s.id) in
      let at_s = get_row-Any s db.steps d next.in_table in
      let one =
        count_one step_id s.id unclaimed names db.steps s d at_s (rw (c, eq_refl s.id) refl) in
      let (r, g, h, u) =
        updated_row step_id s.id unclaimed names (λ r. record r { claimed_at = some (env.clock 0) })
          (λ r. refl) db.steps d one in
      let is_s : r ≡ s = cc in let u' = rw is_s at u in rw (one, claim_row, u') (leased s _ next u')

  claim_found-IsClaimAnswer :
      (worker : String) (db : Db F) (found : Option (Step F))
      → HasDistinctKeys step_id db.steps
      → IsFound worker db found
      → IsClaimAnswer env worker db (claim_found env worker found db)
  unfolding claim_found ◌>>=◌
  claim_found-IsClaimAnswer worker db none d (no_step h) = nothing_to_do h
  claim_found-IsClaimAnswer worker db (some _) d (one_step s a c l) =
      claim_row-IsClaimAnswer worker db s d c (is_claimable-IsNext worker db s a c l)

  -- In a table with distinct ids, a worker with the key that asks for its own node gets a lease on the Step that has been
  -- assigned to it the longest and is unclaimed, and the row has the lease; only if there is no
  -- such Step the answer is 204, and then nothing changes.
  pub claim_next-IsClaimAnswer :
      (app : App) (h : Headers) (worker : String) (db : Db F)
      → require_worker_auth env app h ≡ ok tt
      → require_worker_node_id h ≡ ok worker
      → HasDistinctKeys step_id db.steps
      → IsClaimAnswer env worker db (claim_next env app h worker db)
  unfolding claim_next ◌>>=◌
  claim_next-IsClaimAnswer app h worker db auth node d =
      rw (auth, node, eq_refl worker)
        (claim_found-IsClaimAnswer worker db _ d (next_claimable-IsFound worker db))

-- With distinct ids, of two claims of the same Step that both found it free, the first UPDATE gets the lease; the
-- second one's answer is 204 and it changes nothing.
pub claim_row-once :
    {F : Type 0} (env₁ env₂ : Env F) (w₁ w₂ : String) (s₁ s₂ t : Step F) (db db' : Db F)
    → HasDistinctKeys step_id db.steps
    → s₂.id ≡ s₁.id
    → claim_row env₁ w₁ s₁ db ≡ (ok (some t), db')
    → claim_row env₂ w₂ s₂ db' ≡ (ok none, db')
unfolding claim_row
claim_row-once env₁ env₂ w₁ w₂ s₁ s₂ t db db' d same h =
    let first = λ (r : Step _). r.id == s₁.id && is_claimable w₁ r in
    let second = λ (r : Step _). r.id == s₂.id && is_claimable w₂ r in
    elim (Bool-cases (nat_eq (count first db.steps) 1)) [
      | inl one ↦
          let h' = rw one at h in
          let rows : db'.steps
              ≡ update_where first (λ r. record r { claimed_at = some (env₁.clock 0) }) db.steps =
            ap (λ (p : Result HttpError (Option (Step _)) × Db _). p.1.steps) (sym h') in
          let lost =
            second_update step_id s₁.id first (λ r e. ground (arith, eq_iff r.id s₁.id))
              (λ r. record r { claimed_at = some (env₁.clock 0) }) (λ r. refl) second
              (λ r e. ground (arith, eq_iff r.id s₂.id, same)) (λ r e. ground arith) db.steps d
              (ground arith) in
          rw (rows, lost, claim_row) refl
      | inr other ↦ let h' = rw other at h in ground arith
    ]

-- The lease of a Step outlives its recovery: once a claimed Step has timed out, been queued again
-- and been assigned again, no worker's `claim_next` selects it and no `claim` changes it.
pub lease_outlives_recovery :
    {F : Type 0} (s t u : Step F) (leased_at now : DateTime) (node worker : String) (c : Claim F)
    → s.claimed_at ≡ some leased_at
    → recover_timed_out_step s ≡ ok t
    → assign_step t node now ≡ ok u
    → (is_claimable worker u ≡ false) × (is_unchanged c (assigned ∷ []) true u ≡ false)
unfolding recover_timed_out_step assign_step
lease_outlives_recovery s t u leased_at now node worker c l r a =
    let kept₁ : t.claimed_at ≡ s.claimed_at = ground arith in
    let kept₂ : u.claimed_at ≡ t.claimed_at = ground arith in
    let held : is_none u.claimed_at ≡ false = rw (kept₂, kept₁, l) refl in
    (ground arith, ground arith)
