-- ===== src/Controller/Api/Jobs/Completion.antt =====
-- What a Job becomes when one of its Steps completed.
use media_orchard.Prelude.{
  suc, ◌≤◌, ◌≡◌, refl, ap, ◌≢◌, ◌↔◌, inl, inr, Bool, true, List, [], ◌∷◌, arith, Bool-cases, nat_eq,
  length, count, All, All-map,
}
use media_orchard.Controller.Models.{Job, Step}
use media_orchard.Shared.Enums
use media_orchard.Shared.Enums.{StepStatus-discrete}
use media_orchard.Controller.Api.Jobs.{is_completed, completion}
use media_orchard.Controller.Api.{Env}

module _ {ℓ} {A : Type ℓ} (p : A → Bool) where
  count-le-length : (xs : List A) → count p xs ≤ length xs
  count-le-length [] = omega arith
  count-le-length (x ∷ xs) = ground (arith, count-le-length xs)

  All-count : (xs : List A) → count p xs ≡ length xs → All (λ x. p x ≡ true) xs
  All-count [] e = tt
  All-count (x ∷ xs) e = elim (Bool-cases (p x)) [
    | inl h ↦ let e' = rw h at e in (h, All-count xs (omega (arith, e')))
    | inr h ↦ let e' = rw h at e in absurd (omega (arith, e', count-le-length xs))
  ]

  count-All : (xs : List A) → All (λ x. p x ≡ true) xs → count p xs ≡ length xs
  count-All [] h = refl
  count-All (x ∷ xs) (h, hs) = rw h (ap suc (count-All xs hs))

module _ {F : Type 0} (env : Env F) where
  completed_status :
      (s : Step F) → (is_completed s ≡ true) ↔ (s.status ≡ Enums.StepStatus.completed)
  unfolding StepStatus-discrete
  completed_status s = (λ h. ground arith, λ h. ground arith)

  -- A Job with Steps is completed exactly if all of its Steps are; else it is running. A Job without
  -- Steps has failed.
  pub completion_lem :
      (steps : List (Step F)) (job : Job F)
      → (steps ≢ []
          → All (λ s. s.status ≡ Enums.StepStatus.completed) steps
          → (completion env steps job).status ≡ Enums.JobStatus.completed)
        × (steps ≢ []
            → ¬ All (λ s. s.status ≡ Enums.StepStatus.completed) steps
            → (completion env steps job).status ≡ Enums.JobStatus.running)
        × (steps ≡ [] → (completion env steps job).status ≡ Enums.JobStatus.failed)
  unfolding completion
  completion_lem [] job = (λ n. absurd (n refl), λ n. absurd (n refl), λ _. refl)
  completion_lem (s ∷ ss) job =
      let steps = s ∷ ss in
      (
        λ _ h.
            let e =
              count-All is_completed steps
                (All-map _ _ (λ r q. (completed_status r).1 q) steps h) in
            ground (arith, e),
        λ _ h. ground (
          arith,
          λ (e : count is_completed steps ≡ length steps). h (
              All-map _ _ (λ r q. (completed_status r).0 q) steps (All-count is_completed steps e)),
        ),
        λ e. cc,
      )

  -- A Job that a completion has set completed has completed Steps alone.
  pub completed-completion :
      (steps : List (Step F)) (job : Job F)
      → (completion env steps job).status ≡ Enums.JobStatus.completed
      → All (λ s. s.status ≡ Enums.StepStatus.completed) steps
  unfolding completion
  completed-completion [] job e = tt
  completed-completion (s ∷ ss) job e =
      elim (Bool-cases (nat_eq (count is_completed (s ∷ ss)) (length (s ∷ ss)))) [
        | inl h ↦
            All-map _ _ (λ r q. (completed_status r).0 q) (s ∷ ss)
              (All-count is_completed (s ∷ ss) (ground arith))
        | inr h ↦ ground arith
      ]
