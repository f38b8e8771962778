-- ===== src/Controller/Api/Steps/Fencing.antt =====
-- `persist_step_update_or_409` against whatever other requests did since the Step was read.
use media_orchard.Prelude.{
  String, ◌≡◌, refl, sym, ap, ◌∙◌, ◌≢◌, ◌⊎◌, inl, inr, Bool, true, false, Option, none, some, List,
  arith, eq_iff, eq_refl, nat_eq, Bool-cases, count,
}
use media_orchard.Prelude.Results.{Result, ok, err}
use media_orchard.Prelude.Tables.{update_where, get_row, HasDistinctKeys}
use media_orchard.Prelude.Rows.{key-get_row}
use media_orchard.Prelude.Updates.{Names, count_one, updated_row, other_row, second_update}
use media_orchard.Shared.Enums.{StepStatus, completed, failed}
use media_orchard.Prelude.Json.{Fields}
use media_orchard.Controller.Models.{Step}
use media_orchard.Controller.StateMachine.{is_in}
use media_orchard.Controller.Api.Steps.{
  Claim, is_unchanged, is_none, is_text, persist_step_update, complete_write, fail_write,
  claim_write,
}
use media_orchard.Controller.Api.{Env, Db, HttpError, step_changed, step_id}

pub is_text-some : (t : Option String) (s : String) → is_text t s ≡ true → t ≡ some s
is_text-some none s h = cc
is_text-some (some u) s h = ap some ((eq_iff u s).0 h)

pub is_none-none : {A : Type 0} (x : Option A) → is_none x ≡ true → x ≡ none
is_none-none none h = refl
is_none-none (some a) h = cc

module _ {F : Type 0} where
  -- The row that a conditional UPDATE may change: it is still the request's own.
  pub record IsFenced (c : Claim F) (from_statuses : List StepStatus) (unclaimed : Bool)
      (r : Step F) : Type 0 where
    pub same_epoch : r.assignment_epoch ≡ c.step.assignment_epoch
    pub same_owner : r.assigned_node_id ≡ some c.worker
    pub from : is_in r.status from_statuses ≡ true
    pub free : unclaimed ≡ true → r.claimed_at ≡ none

  pub is_unchanged-Names :
      (c : Claim F) (from_statuses : List StepStatus) (unclaimed : Bool)
      → Names step_id c.step.id (is_unchanged c from_statuses unclaimed)
  is_unchanged-Names c from_statuses unclaimed r h = ground (arith, eq_iff r.id c.step.id)

  is_unchanged-IsFenced :
      (c : Claim F) (from_statuses : List StepStatus) (unclaimed : Bool) (r : Step F)
      → is_unchanged c from_statuses unclaimed r ≡ true
      → IsFenced c from_statuses unclaimed r
  is_unchanged-IsFenced c from_statuses unclaimed r h = record {
    same_epoch = ground arith;
    same_owner = is_text-some r.assigned_node_id c.worker (ground arith);
    from = ground arith;
    free = λ u. is_none-none r.claimed_at (ground arith);
  }

  pub IsFenced-is_unchanged :
      (c : Claim F) (from_statuses : List StepStatus) (unclaimed : Bool) (r : Step F)
      → r.id ≡ c.step.id
      → IsFenced c from_statuses unclaimed r
      → is_unchanged c from_statuses unclaimed r ≡ true
  IsFenced-is_unchanged c from_statuses true r same f =
      rw
        (same, f.same_epoch, f.same_owner, f.from, f.free refl, eq_refl c.step.id, eq_refl c.worker)
        (ground arith)
  IsFenced-is_unchanged c from_statuses false r same f =
      rw (same, f.same_epoch, f.same_owner, f.from, eq_refl c.step.id, eq_refl c.worker)
        (ground arith)

  -- What a conditional UPDATE did: one fenced row has the new values, or nothing changed.
  pub data IsWritten (c : Claim F) (from_statuses : List StepStatus) (values : Step F → Step F)
      (unclaimed : Bool) (db : Db F) : Result HttpError (Step F) × Db F → Type 0 where
    written :
        (r : Step F) (db' : Db F)
        → get_row step_id c.step.id db.steps ≡ some r
        → IsFenced c from_statuses unclaimed r
        → db' ≡ record db { steps = db'.steps }
        → ((id : String)
            → id ≢ c.step.id
            → get_row step_id id db'.steps ≡ get_row step_id id db.steps)
        → get_row step_id c.step.id db'.steps ≡ some (values r)
        → IsWritten c from_statuses values unclaimed db (ok (values r), db')
    refused :
        ((r : Step F)
          → get_row step_id c.step.id db.steps ≡ some r
          → ¬ IsFenced c from_statuses unclaimed r)
        → IsWritten c from_statuses values unclaimed db (err step_changed, db)

  module _ (c : Claim F) (from_statuses : List StepStatus) (values : Step F → Step F)
      (unclaimed : Bool) where
    -- Whatever the table holds by now, with distinct ids, an UPDATE whose values leave the id alone
    -- changes no row but the one with the request's id, and that one exactly if
    -- the row still has the epoch that the request read, the requesting worker as its owner and an
    -- expected status, and has no lease where that is required; then the answer is that row. Else the answer is 409 and nothing changes.
    pub persist_step_update-IsWritten :
        (db : Db F)
        → ((r : Step F) → (values r).id ≡ r.id)
        → HasDistinctKeys step_id db.steps
        → IsWritten c from_statuses values unclaimed db
            (persist_step_update c from_statuses values unclaimed db)
    unfolding persist_step_update
    persist_step_update-IsWritten db keeps d =
        elim (Bool-cases (nat_eq (count (is_unchanged c from_statuses unclaimed) db.steps) 1)) [
          | inl one ↦
              let (r, g, h, u) =
                updated_row step_id c.step.id _ (is_unchanged-Names c from_statuses unclaimed)
                  values keeps db.steps d (ground arith) in
              rw (one, persist_step_update, u)
                (written r _ g (is_unchanged-IsFenced c from_statuses unclaimed r h) refl
                  (λ id n.
                    other_row step_id c.step.id _ (is_unchanged-Names c from_statuses unclaimed)
                      values keeps id n db.steps)
                  u)
          | inr other ↦
              rw (other, persist_step_update)
                (refused λ r g f.
                  let one =
                    count_one step_id c.step.id _ (is_unchanged-Names c from_statuses unclaimed)
                      db.steps r d g
                      (IsFenced-is_unchanged c from_statuses unclaimed r
                        (key-get_row step_id c.step.id db.steps r g) f) in
                  ground arith)
        ]

  -- The row that one request wrote is out of the reach of another's UPDATE.
  lost_race :
      (c₁ c₂ : Claim F) (from₁ from₂ : List StepStatus) (values₁ values₂ : Step F → Step F)
      (unclaimed₁ unclaimed₂ : Bool) (db db' : Db F) (s : Step F)
      → ((r : Step F) → (values₁ r).id ≡ r.id)
      → ((r : Step F) → is_unchanged c₂ from₂ unclaimed₂ (values₁ r) ≡ false)
      → c₂.step.id ≡ c₁.step.id
      → HasDistinctKeys step_id db.steps
      → persist_step_update c₁ from₁ values₁ unclaimed₁ db ≡ (ok s, db')
      → persist_step_update c₂ from₂ values₂ unclaimed₂ db' ≡ (err step_changed, db')
  unfolding persist_step_update
  lost_race c₁ c₂ from₁ from₂ values₁ values₂ u₁ u₂ db db' s keeps out same d h =
      elim (Bool-cases (nat_eq (count (is_unchanged c₁ from₁ u₁) db.steps) 1)) [
        | inl one ↦
            let h' = rw one at h in
            let rows : db'.steps ≡ update_where (is_unchanged c₁ from₁ u₁) values₁ db.steps =
              ap (λ (p : Result HttpError (Step F) × Db F). p.1.steps) (sym h') in
            let none =
              second_update step_id c₁.step.id _ (is_unchanged-Names c₁ from₁ u₁) values₁ keeps
                (is_unchanged c₂ from₂ u₂) (λ r e. is_unchanged-Names c₂ from₂ u₂ r e ∙ same)
                (λ r e. out r) db.steps d (ground arith) in
            rw (rows, none, persist_step_update) refl
        | inr other ↦ let h' = rw other at h in ground arith
      ]

module _ {F : Type 0} (env₁ env₂ : Env F) (c₁ c₂ : Claim F) (db db' : Db F) (s : Step F) where
  -- With distinct ids, of two claims of the same Step that both passed their checks, only one has its UPDATE done,
  -- whoever sent them: after the first the second is answered 409 and changes nothing.
  pub claim_write-once :
      HasDistinctKeys step_id db.steps
      → c₂.step.id ≡ c₁.step.id
      → claim_write env₁ c₁ db ≡ (ok s, db')
      → claim_write env₂ c₂ db' ≡ (err step_changed, db')
  unfolding claim_write
  claim_write-once d same h =
      lost_race c₁ c₂ _ _ _ _ true true db db' s (λ r. refl) (λ r. ground arith) same d h

  -- In a table with distinct ids a Step ends once: after the UPDATE of a completion, those of any other completion and of any
  -- failure of the Step are answered 409 and change nothing; and so after the UPDATE of a failure.
  pub finish_write-once :
      (output output' : Fields F) (message message' : String)
      → HasDistinctKeys step_id db.steps
      → c₂.step.id ≡ c₁.step.id
      → (complete_write env₁ c₁ completed output db ≡ (ok s, db'))
        ⊎ (fail_write env₁ c₁ failed message db ≡ (ok s, db'))
      → (complete_write env₂ c₂ completed output' db' ≡ (err step_changed, db'))
        × (fail_write env₂ c₂ failed message' db' ≡ (err step_changed, db'))
  unfolding complete_write fail_write
  finish_write-once output output' message message' d same (inl h) = (
    lost_race c₁ c₂ _ _ _ _ false false db db' s (λ r. refl) (λ r. ground arith) same d h,
    lost_race c₁ c₂ _ _ _ _ false false db db' s (λ r. refl) (λ r. ground arith) same d h,
  )
  finish_write-once output output' message message' d same (inr h) = (
    lost_race c₁ c₂ _ _ _ _ false false db db' s (λ r. refl) (λ r. ground arith) same d h,
    lost_race c₁ c₂ _ _ _ _ false false db db' s (λ r. refl) (λ r. ground arith) same d h,
  )
