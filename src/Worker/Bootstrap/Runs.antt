-- ===== src/Worker/Bootstrap/Runs.antt =====
-- Which commands a bootstrap has run.
use media_orchard.Prelude.{
  String, ◌≡◌, refl, ap, inl, inr, true, false, List, [], ◌∷◌, ◌++◌, Bool-cases,
}
use media_orchard.Prelude.Int.{ℤ, pos, int_eq}
use media_orchard.Worker.Machine.{FilePath}
use media_orchard.Worker.Preflight.{Completed}
use media_orchard.Worker.Bootstrap.{
  WorkerBootstrapConfig, WorkerBootstrapResult, build_bootstrap_command_argv,
  build_bootstrap_script, copies, result_of, run_commands, run_worker_bootstrap,
}

module _ (expanduser : FilePath → FilePath) (render : FilePath → String)
    (config : WorkerBootstrapConfig) {S : Type 0}
    (run : List String → ℤ → String → S → Completed × S) where
  -- The state after these commands, all of which have succeeded.
  pub data Succeeded : List (List String) → S → S → Type 0 where
    none_left : {s : S} → Succeeded [] s s
    next :
        {argv : List String} {argvs : List (List String)} {s s' : S}
        → int_eq (run argv config.timeout_seconds "" s).0.returncode (pos 0) ≡ true
        → Succeeded argvs (run argv config.timeout_seconds "" s).1 s'
        → Succeeded (argv ∷ argvs) s s'

  -- How the commands and the script go from a state: the script was run after all of the commands
  -- have succeeded, or a command has failed and nothing was run after it.
  pub data IsRun (argvs : List (List String)) (s : S) : WorkerBootstrapResult × S → Type 0 where
    script :
        {s' : S} {ended : Completed × S}
        → Succeeded argvs s s'
        → run
            (build_bootstrap_command_argv config.target)
            config.timeout_seconds
            (build_bootstrap_script expanduser render config)
            s'
          ≡ ended
        → IsRun argvs s (result_of expanduser render config run ended.0, ended.1)
    stopped :
        {s' : S} {ended : Completed × S} (before after : List (List String)) (argv : List String)
        → argvs ≡ before ++ (argv ∷ after)
        → Succeeded before s s'
        → run argv config.timeout_seconds "" s' ≡ ended
        → int_eq ended.0.returncode (pos 0) ≡ false
        → IsRun argvs s (result_of expanduser render config run ended.0, ended.1)

  after_first :
      (argv : List String) (argvs : List (List String)) (s : S) (r : WorkerBootstrapResult × S)
      → int_eq (run argv config.timeout_seconds "" s).0.returncode (pos 0) ≡ true
      → IsRun argvs (run argv config.timeout_seconds "" s).1 r
      → IsRun (argv ∷ argvs) s r
  after_first argv argvs s r ok (script past last) = script (next ok past) last
  after_first argv argvs s r ok (stopped before after failed e past last fails) =
      stopped (argv ∷ before) after failed (ap (λ x. argv ∷ x) e) (next ok past) last fails

  run_commands-IsRun :
      (argvs : List (List String)) (s : S)
      → IsRun argvs s (run_commands expanduser render config run argvs s)
  unfolding run_commands
  run_commands-IsRun [] s = script none_left refl
  run_commands-IsRun (argv ∷ argvs) s =
      elim (Bool-cases (int_eq (run argv config.timeout_seconds "" s).0.returncode (pos 0))) [
        | inl h ↦ rw h (after_first argv argvs s _ h (run_commands-IsRun argvs _))
        | inr h ↦ rw h (stopped [] argvs argv refl none_left refl h)
      ]

  -- An execution runs the script after all the copies have succeeded, or stops at the first that fails,
  -- and returns how the last command ended; a dry run runs nothing.
  pub run_worker_bootstrap-IsRun :
      (s : S)
      → IsRun
          (copies expanduser render config)
          s
          (run_worker_bootstrap expanduser render config run true s)
        × ((run_worker_bootstrap expanduser render config run false s).1 ≡ s)
        × ((run_worker_bootstrap expanduser render config run false s).0.executed ≡ false)
  unfolding run_worker_bootstrap
  run_worker_bootstrap-IsRun s =
      (run_commands-IsRun (copies expanduser render config) s, refl, refl)
