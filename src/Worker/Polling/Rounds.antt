-- ===== src/Worker/Polling/Rounds.antt =====
-- How often a Worker polls.
use media_orchard.Prelude.{
  ℕ, zero, suc, ◌+◌, ◌≤◌, ◌<◌, String, ◌≡◌, refl, ap, ◌∙◌, subst, ◌≢◌, Bool, true, false, Option,
  none, some, List, [], ◌++◌, arith, if◌then◌else◌,
}
use media_orchard.Prelude.Results.{Result, ok, err}
use media_orchard.Prelude.Actions.{Action, pure, continue, ◌>>=◌, ◌>>◌}
use media_orchard.Prelude.Int.{ℤ, pos, negsuc}
use media_orchard.Prelude.Floats.{Floats}
use media_orchard.Prelude.Json.{Fields}
use media_orchard.Worker.Agent.{Post, register}
use media_orchard.Worker.Runtime.{WorkerRuntimeConfig}
use media_orchard.Worker.Polling.{
  Environment, worker, send, poll_round, reached, is_last, run_polls, run_worker, limit_of, limit,
}

-- The first round after which the loop is left.
reached-limit :
    (once : Bool) (max : Option ℤ) (n : ℕ)
    → limit_of once max ≡ some (suc n)
    → (reached once max (suc n) ≡ true) × ((i : ℕ) → i < n → reached once max (suc i) ≡ false)
reached-limit true none n e = (ground arith, λ i h. ground arith)
reached-limit true (some m) n e = (ground arith, λ i h. ground arith)
reached-limit false none n e = cc
reached-limit false (some (pos zero)) n e = (ground arith, λ i h. ground arith)
reached-limit false (some (pos (suc m))) n e = (ground arith, λ i h. ground arith)
reached-limit false (some (negsuc m)) n e = (ground arith, λ i h. ground arith)

limit-some :
    (once : Bool) (max : Option ℤ) (n : ℕ) → limit_of once max ≡ some n → (k : ℕ) × (n ≡ suc k)
limit-some true none n e = (0, cc)
limit-some true (some m) n e = (0, cc)
limit-some false none n e = cc
limit-some false (some (pos zero)) n e = (0, cc)
limit-some false (some (pos (suc m))) n e = (m, cc)
limit-some false (some (negsuc m)) n e = (0, cc)

reached-no_limit :
    (once : Bool) (max : Option ℤ) (n : ℕ) → limit_of once max ≡ none → reached once max n ≡ false
reached-no_limit true none n e = cc
reached-no_limit true (some m) n e = cc
reached-no_limit false none n e = refl
reached-no_limit false (some (pos zero)) n e = cc
reached-no_limit false (some (pos (suc m))) n e = cc
reached-no_limit false (some (negsuc m)) n e = cc

module _ {F : Type 0} where
  has_claimed :
      (r : Result String (List (Fields F))) (log : List (Post F))
      → (continue r (λ claimed. pure (some claimed)) log).0 ≢ ok none
  has_claimed (err e) log h = cc
  has_claimed (ok claimed) log h = cc

  after_sending :
      (r : Result String (Option (Fields F))) (act : Action (List (Post F)) (List (Fields F)))
      (log : List (Post F))
      → (continue r (λ _. act >>= λ claimed. pure (some claimed)) log).0 ≢ ok none
  after_sending (err e) act log h = cc
  after_sending (ok _) act log h = has_claimed _ _ h

module _ {F : Type 0} (fl : Floats F) (env : Environment F) (config : WorkerRuntimeConfig F) where
  -- So many rounds one after the other, and the steps that they have claimed.
  unfoldable pub rounds : ℕ → List (Fields F) → Action (List (Post F)) (List (Fields F))
  rounds zero claimed = pure claimed
  rounds (suc n) claimed = poll_round fl env config >>= λ more. rounds n (claimed ++ more)

  -- A run of exactly `n` rounds after the registration.
  abbrev pub fixed_run : ℕ → Action (List (Post F)) (Option (List (Fields F)))
  fixed_run n =
      send fl env config (register env.fs (worker fl env config))
      >> (rounds n [] >>= λ claimed. pure (some claimed))

  -- A fixed run does not run out of fuel.
  pub fixed_run-ends : (n : ℕ) (log : List (Post F)) → (fixed_run n log).0 ≢ ok none
  fixed_run-ends n log =
      let sent = send fl env config (register env.fs (worker fl env config)) log in
      after_sending sent.0 (rounds n []) sent.1

  ends_here :
      (r : Result String (List (Fields F))) (fuel polls : ℕ) (claimed : List (Fields F))
      (log : List (Post F))
      → is_last config (suc polls) ≡ true
      → continue r
          (λ more.
            if is_last config (suc polls)
            then pure (some (claimed ++ more))
            else run_polls fl env config fuel (suc polls) (claimed ++ more))
          log
        ≡ continue
            (continue r (λ more. pure (claimed ++ more)) log).0
            (λ c. pure (some c))
            (continue r (λ more. pure (claimed ++ more)) log).1
  ends_here (err e) fuel polls claimed log h = refl
  ends_here (ok more) fuel polls claimed log h = rw h refl

  goes_on :
      (r : Result String (List (Fields F))) (k fuel polls : ℕ) (claimed : List (Fields F))
      (log : List (Post F))
      → is_last config (suc polls) ≡ false
      → ((c : List (Fields F)) (l : List (Post F))
          → run_polls fl env config fuel (suc polls) c l
            ≡ (rounds (suc k) c >>= λ c'. pure (some c')) l)
      → continue r
          (λ more.
            if is_last config (suc polls)
            then pure (some (claimed ++ more))
            else run_polls fl env config fuel (suc polls) (claimed ++ more))
          log
        ≡ continue
            (continue r (λ more. rounds (suc k) (claimed ++ more)) log).0
            (λ c. pure (some c))
            (continue r (λ more. rounds (suc k) (claimed ++ more)) log).1
  goes_on (err e) k fuel polls claimed log h same = refl
  goes_on (ok more) k fuel polls claimed log h same = rw h (same (claimed ++ more) log)

  run_polls-rounds :
      (k fuel polls : ℕ) (claimed : List (Fields F)) (log : List (Post F))
      → suc k ≤ fuel
      → ((i : ℕ) → i < k → is_last config (suc (polls + i)) ≡ false)
      → is_last config (suc (polls + k)) ≡ true
      → run_polls fl env config fuel polls claimed log
        ≡ (rounds (suc k) claimed >>= λ c. pure (some c)) log
  unfolding run_polls rounds
  run_polls-rounds k zero polls claimed log le before last = ground arith
  run_polls-rounds zero (suc fuel) polls claimed log le before last =
      ends_here (poll_round fl env config log).0 fuel polls claimed (poll_round fl env config log).1
        (subst (λ n. is_last config (suc n) ≡ true) (omega arith) last)
  run_polls-rounds (suc k) (suc fuel) polls claimed log le before last =
      goes_on (poll_round fl env config log).0 k fuel polls claimed (poll_round fl env config log).1
        (subst (λ n. is_last config (suc n) ≡ false) (omega arith) (before 0 (omega arith)))
        (λ c l.
          run_polls-rounds k fuel (suc polls) c l (omega arith)
            (λ i h.
              subst (λ n. is_last config (suc n) ≡ false) (omega arith)
                (before (suc i) (omega arith)))
            (subst (λ n. is_last config (suc n) ≡ true) (omega arith) last))

  after_registration :
      (r : Result String (Option (Fields F))) (n fuel : ℕ) (log : List (Post F))
      → limit config ≡ some n
      → n ≤ fuel
      → continue r (λ _. run_polls fl env config fuel 0 []) log
        ≡ continue r (λ _. rounds n [] >>= λ claimed. pure (some claimed)) log
  unfolding limit is_last
  after_registration (err e) n fuel log l le = refl
  after_registration (ok _) n fuel log l le =
      let (k, e) = limit-some config.poll_once config.max_polls n l in
      let (last, before) = reached-limit config.poll_once config.max_polls k (l ∙ ap some e) in
      rw e (
        run_polls-rounds k fuel 0 [] log (omega arith)
          (λ i h. subst (λ j. is_last config (suc j) ≡ false) (omega arith) (before i h))
          (subst (λ j. is_last config (suc j) ≡ true) (omega arith) last))

  -- With `poll_once` or `max_polls`, the loop ends: with at least as much fuel as the limit, the run is
  -- the registration and then exactly as many rounds as the limit says, unless an exception ends it.
  pub run_worker-rounds :
      (n fuel : ℕ) (log : List (Post F))
      → limit config ≡ some n
      → n ≤ fuel
      → run_worker fl env config fuel log ≡ fixed_run n log
  unfolding run_worker
  run_worker-rounds n fuel log l le = after_registration _ n fuel _ l le

  unending :
      (r : Result String (List (Fields F))) (fuel polls : ℕ) (claimed : List (Fields F))
      (log : List (Post F)) (steps : List (Fields F))
      → is_last config (suc polls) ≡ false
      → ((c : List (Fields F)) (l : List (Post F))
          → (run_polls fl env config fuel (suc polls) c l).0 ≢ ok (some steps))
      → (continue r
          (λ more.
            if is_last config (suc polls)
            then pure (some (claimed ++ more))
            else run_polls fl env config fuel (suc polls) (claimed ++ more))
          log).0
        ≢ ok (some steps)
  unending (err e) fuel polls claimed log steps h same f = cc
  unending (ok more) fuel polls claimed log steps h same f = same (claimed ++ more) log (rw h at f)

  run_polls-endless :
      (fuel polls : ℕ) (claimed : List (Fields F)) (log : List (Post F)) (steps : List (Fields F))
      → limit config ≡ none
      → (run_polls fl env config fuel polls claimed log).0 ≢ ok (some steps)
  unfolding run_polls limit is_last
  run_polls-endless zero polls claimed log steps l f = cc
  run_polls-endless (suc fuel) polls claimed log steps l f =
      unending _ fuel polls claimed _ steps
        (reached-no_limit config.poll_once config.max_polls (suc polls) l)
        (λ c l'. run_polls-endless fuel (suc polls) c l' steps l) f

  after_register :
      (r : Result String (Option (Fields F))) (fuel : ℕ) (log : List (Post F))
      (steps : List (Fields F))
      → limit config ≡ none
      → (continue r (λ _. run_polls fl env config fuel 0 []) log).0 ≢ ok (some steps)
  after_register (err e) fuel log steps l f = cc
  after_register (ok _) fuel log steps l f = run_polls-endless fuel 0 [] log steps l f

  -- Without a limit, the loop never returns, however much fuel it is given.
  pub run_worker-endless :
      (fuel : ℕ) (log : List (Post F)) (steps : List (Fields F))
      → limit config ≡ none
      → (run_worker fl env config fuel log).0 ≢ ok (some steps)
  unfolding run_worker
  run_worker-endless fuel log steps l = after_register _ fuel _ steps l
