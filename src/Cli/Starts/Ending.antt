-- ===== src/Cli/Starts/Ending.antt =====
-- How `worker start` ends.
use media_orchard.Prelude.{
  ℕ, ◌≤◌, String, ◌≡◌, refl, sym, subst, ◌≢◌, ◌⊎◌, inl, inr, Bool, true, false, Option, none, some,
  List, [], ◌∷◌, arith, ◌==◌, eq_iff, Bool-cases, length,
}
use media_orchard.Prelude.Results.{Result, ok, err, Result-cases}
use media_orchard.Prelude.Int.{ℤ, pos}
use media_orchard.Prelude.Floats.{Floats}
use media_orchard.Prelude.Dicts.{Dict}
use media_orchard.Prelude.Json.{Fields}
use media_orchard.Shared.Texts.{concat}
use media_orchard.Worker.Agent.{Post}
use media_orchard.Worker.Runtime.{WorkerRuntimeConfig}
use media_orchard.Worker.Polling.{limit, limit_of, run_worker}
use media_orchard.Worker.Polling.Rounds.{fixed_run, fixed_run-ends, run_worker-rounds}
use media_orchard.Cli.Commands.{or_else, require_api_key, worker_start_config}
use media_orchard.Cli.Starts.{
  Surroundings, WorkerRun, started_environment, is_limited, claimed_lines, started, worker_start,
}

is_limited-limit :
    (once : Bool) (max : Option ℤ) (n : ℕ) → limit_of once max ≡ some n → is_limited once max ≡ true
is_limited-limit true none n e = refl
is_limited-limit false none n e = cc
is_limited-limit once (some m) n e = refl

module _ {F : Type 0} (fl : Floats F) (around : Surroundings F) where
  -- A run of `worker start` with this configuration, for this number of rounds: it prints its first
  -- line, and has ended by an exception of the Worker, or with the Steps that it claimed and a line
  -- that counts them.
  pub data IsRun (config : WorkerRuntimeConfig F) (n : ℕ) : WorkerRun F → Type 0 where
    raised :
        (message : String) (posted : List (Post F))
        → fixed_run fl (started_environment fl around config) config n [] ≡ (err message, posted)
        → IsRun config n (record {
          lines = concat ("Starting Worker " ∷ config.node_id ∷ []) ∷ [];
          ending = err message;
          posted = posted;
        })
    returned :
        (claimed : List (Fields F)) (posted : List (Post F))
        → fixed_run fl (started_environment fl around config) config n []
          ≡ (ok (some claimed), posted)
        → IsRun config n (record {
          lines =
              concat ("Starting Worker " ∷ config.node_id ∷ [])
              ∷ concat ("Claimed " ∷ around.int_text (pos (length claimed)) ∷ " step(s)" ∷ [])
              ∷ [];
          ending = ok (some claimed);
          posted = posted;
        })

  module _ (config : WorkerRuntimeConfig F) (n : ℕ) where
    ending-IsRun :
        (ending : Result String (Option (List (Fields F)))) (posted : List (Post F))
        → fixed_run fl (started_environment fl around config) config n [] ≡ (ending, posted)
        → ending ≢ ok none
        → is_limited config.poll_once config.max_polls ≡ true
        → IsRun config n (record {
          lines =
              concat ("Starting Worker " ∷ config.node_id ∷ [])
              ∷ claimed_lines fl around config ending;
          ending = ending;
          posted = posted;
        })
    ending-IsRun (err message) posted e r l = raised message posted e
    ending-IsRun (ok none) posted e r l = absurd (r refl)
    ending-IsRun (ok (some claimed)) posted e r l = rw l (returned claimed posted e)

    started-IsRun :
        (fuel : ℕ)
        → limit config ≡ some n
        → n ≤ fuel
        → IsRun config n (started fl around fuel config)
    unfolding limit
    started-IsRun fuel l enough =
        let env = started_environment fl around config in
        let same = run_worker-rounds fl env config n fuel [] l enough in
        ending-IsRun (run_worker fl env config fuel []).0 (run_worker fl env config fuel []).1
          (sym same) (rw same (fixed_run-ends fl env config n []))
          (is_limited-limit config.poll_once config.max_polls n l)

  -- The name of the node: the one that is given, or if there is none or an empty one, the id.
  pub data IsName (id : String) : Option String → String → Type 0 where
    none_given : IsName id none id
    empty_given : IsName id (some "") id
    name_given : (name : String) → name ≢ "" → IsName id (some name) name

  or_else-IsName :
      (id : String) (name : Option String)
      → IsName id name (elim (or_else name none) [ none ↦ id | some text ↦ text ])
  or_else-IsName id none = none_given
  or_else-IsName id (some text) = elim (Bool-cases (text == "")) [
    | inl e ↦
        subst (λ t. IsName id (some t) (elim (or_else (some t) none) [ none ↦ id | some x ↦ x ]))
          (sym ((eq_iff text "").0 e)) empty_given
    | inr e ↦ rw e (name_given text (λ q. ground (arith, eq_iff text "")))
  ]

  module _ (environ : Dict String) (api_key node_name : Option String)
      (options : WorkerRuntimeConfig F) where
    -- What the command makes of its options, for this number of rounds: it needs a key that is not
    -- empty and a mode that `run_claimed_pipeline_step` knows, and then runs the Worker with these
    -- options, the key and the name, and to execute what it claims.
    pub data IsWorkerStart (n : ℕ) : Result String (WorkerRun F) → Type 0 where
      no_key :
          (message : String)
          → require_api_key environ api_key ≡ err message
          → IsWorkerStart n (err message)
      unknown_mode :
          options.execution_mode ≢ "deterministic"
          → options.execution_mode ≢ "real"
          → IsWorkerStart n (err "execution-mode must be deterministic or real")
      running :
          (key name : String) (run : WorkerRun F)
          → require_api_key environ api_key ≡ ok key
          → (options.execution_mode ≡ "deterministic") ⊎ (options.execution_mode ≡ "real")
          → IsName options.node_id node_name name
          → IsRun
              (record options { api_key = key; node_name = name; execute_claimed_steps = true })
              n
              run
          → IsWorkerStart n (ok run)

    -- With --once or --max-polls and at least as much fuel as they allow rounds, `worker start` never
    -- runs out of it: it refuses its options, which have no key or an unknown mode, or the mode is a
    -- known one and the Worker runs with the options, that key and its name for exactly that number
    -- of rounds, unless an exception ends it, and the lines say how it ended.
    pub worker_start-IsWorkerStart :
        (n fuel : ℕ)
        → limit options ≡ some n
        → n ≤ fuel
        → IsWorkerStart n (worker_start fl around fuel environ api_key node_name options)
    unfolding worker_start worker_start_config limit
    worker_start-IsWorkerStart n fuel l enough =
        let named = or_else-IsName options.node_id node_name in
        elim (Result-cases (require_api_key environ api_key)) [
          | inl (message, e) ↦ rw e (no_key message e)
          | inr (key, e) ↦ rw e (elim (Bool-cases (options.execution_mode == "deterministic")) [
            | inl d ↦
                rw d (
                  running key _ _ e (inl ((eq_iff _ _).0 d)) named
                    (started-IsRun _ n fuel l enough))
            | inr o ↦ elim (Bool-cases (options.execution_mode == "real")) [
              | inl r ↦
                  rw (o, r)
                    (running key _ _ e (inr ((eq_iff _ _).0 r)) named
                      (started-IsRun _ n fuel l enough))
              | inr m ↦
                  rw (o, m)
                    (unknown_mode
                      (λ q. ground (arith, eq_iff options.execution_mode "deterministic"))
                      (λ q. ground (arith, eq_iff options.execution_mode "real")))
            ]
          ])
        ]
