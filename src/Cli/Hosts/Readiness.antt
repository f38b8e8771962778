-- ===== src/Cli/Hosts/Readiness.antt =====
-- When `doctor worker-bootstrap --execute` exits with 0.
use media_orchard.Prelude.{
  String, ◌≡◌, refl, ap, ◌∙◌, subst, ◌↔◌, Bool, true, List, [], ◌∷◌, arith, and-true, all,
}
use media_orchard.Prelude.Results.{Result, ok, err}
use media_orchard.Prelude.Actions.{ok-injective}
use media_orchard.Prelude.Int.{ℤ, pos, int_eq}
use media_orchard.Worker.Machine.{FilePath}
use media_orchard.Worker.Preflight.{Completed}
use media_orchard.Worker.Bootstrap.{
  WorkerBootstrapConfig, WorkerBootstrapResult, is_ok, build_bootstrap_command_argv,
  build_bootstrap_script, copies, result_of, run_commands, run_worker_bootstrap,
}
use media_orchard.Worker.Bootstrap.Runs.{
  Succeeded, none_left, next, IsRun, script, stopped, run_worker_bootstrap-IsRun,
}
use media_orchard.Cli.Hosts.{
  Report, or_local, report, check_wheel, checked, bootstrap_targets, doctor_worker_bootstrap,
}

module _ (expanduser : FilePath → FilePath) (render : FilePath → String) {S : Type 0}
    (run : List String → ℤ → String → S → Completed × S) where
  -- From the first state to the second, the copies to a target have all succeeded and then its
  -- script, which is run last.
  pub record IsReady (config : WorkerBootstrapConfig) (s s' : S) : Type 0 where
    pub copied : S
    pub copies_succeeded :
        Succeeded expanduser render config run (copies expanduser render config) s copied
    pub ended : Completed
    pub script_run :
        run
          (build_bootstrap_command_argv config.target)
          config.timeout_seconds
          (build_bootstrap_script expanduser render config)
          copied
        ≡ (ended, s')
    pub script_succeeded : int_eq ended.returncode (pos 0) ≡ true

  module _ (config : WorkerBootstrapConfig) where
    -- Commands that succeed leave the rest to the script.
    run_commands-Succeeded :
        {argvs : List (List String)} {s s' : S}
        → Succeeded expanduser render config run argvs s s'
        → run_commands expanduser render config run argvs s
          ≡ run_commands expanduser render config run [] s'
    unfolding run_commands
    run_commands-Succeeded none_left = refl
    run_commands-Succeeded (next h past) = rw h (run_commands-Succeeded past)

    -- A run that ends well is one of the copies and then the script.
    IsRun-IsReady :
        (s : S) (p : WorkerBootstrapResult × S)
        → IsRun expanduser render config run (copies expanduser render config) s p
        → is_ok p.0 ≡ true
        → IsReady config s p.1
    unfolding is_ok
    IsRun-IsReady s _ (script {s'} {ended} past last) h = record {
      copied = s';
      copies_succeeded = past;
      ended = ended.0;
      script_run = last;
      script_succeeded = h;
    }
    IsRun-IsReady s _ (stopped before after argv e past last fails) h = cc

    IsReady-ok :
        (s s' : S)
        → IsReady config s s'
        → (r : WorkerBootstrapResult) × (run_worker_bootstrap expanduser render config run true s
            ≡ (r, s'))
          × (is_ok r ≡ true)
    unfolding run_worker_bootstrap run_commands is_ok
    IsReady-ok s s' ready = (
      result_of expanduser render config run ready.ended,
      run_commands-Succeeded ready.copies_succeeded
          ∙ ap (λ (p : Completed × S). (result_of expanduser render config run p.0, p.1))
              ready.script_run,
      ready.script_succeeded,
    )

  -- All of the targets are made ready, one after the other.
  pub data AllReady (config : WorkerBootstrapConfig) : List String → S → S → Type 0 where
    no_target : {s : S} → AllReady config [] s s
    ready :
        {target : String} {targets : List String} {s s₁ s' : S}
        → IsReady (record config { target = target }) s s₁
        → AllReady config targets s₁ s'
        → AllReady config (target ∷ targets) s s'

  module _ (exists : FilePath → Bool) (strip : String → String)
      (config : WorkerBootstrapConfig) where
    targets-AllReady :
        (targets : List String) (s : S)
        → all is_ok (bootstrap_targets expanduser render run config true targets s).0 ≡ true
        → AllReady config targets s
            (bootstrap_targets expanduser render run config true targets s).1
    unfolding bootstrap_targets
    targets-AllReady [] s h = no_target
    targets-AllReady (target ∷ targets) s h =
        let config' = record config { target = target } in
        ready
          (IsRun-IsReady config' s _ (run_worker_bootstrap-IsRun expanduser render config' run s).0
            (and-true _ _ h).0)
          (targets-AllReady targets _ (and-true _ _ h).1)

    AllReady-targets :
        (targets : List String) (s s' : S)
        → AllReady config targets s s'
        → (results : List WorkerBootstrapResult) × (bootstrap_targets expanduser render run config
              true targets s
            ≡ (results, s'))
          × (all is_ok results ≡ true)
    unfolding bootstrap_targets
    AllReady-targets [] s _ no_target = ([], refl, refl)
    AllReady-targets (target ∷ targets) s s' (ready first rest) =
        let (r, e, h) = IsReady-ok _ _ _ first in
        let (rs, es, hs) = AllReady-targets targets _ s' rest in (r ∷ rs, rw (e, es) refl, rw h hs)

    report-zero :
        (results : List WorkerBootstrapResult)
        → (report strip results).exit_code ≡ 0
        → all is_ok results ≡ true
    unfolding report
    report-zero results h = ground (arith)

    checked-zero :
        (c : Result String (Unit {0})) (targets : List String) (s s' : S) (r : Report)
        → checked expanduser render run config true exists strip c targets s ≡ (ok r, s')
        → r.exit_code ≡ 0
        → (c ≡ ok tt) × AllReady config (or_local targets) s s'
    checked-zero (err _) targets s s' r e h = cc
    checked-zero (ok _) targets s s' r e h = (
      refl,
      subst (AllReady config (or_local targets) s) (ap (λ p. p.1) e) (
          targets-AllReady (or_local targets) s (
            report-zero _
              (subst (λ (x : Report). x.exit_code ≡ 0) (ok-injective _ (ap (λ p. p.0) e) refl) h))),
    )

    zero-checked :
        (c : Result String (Unit {0})) (targets : List String) (s s' : S)
        → c ≡ ok tt
        → AllReady config (or_local targets) s s'
        → (r : Report) × (checked expanduser render run config true exists strip c targets s
            ≡ (ok r, s'))
          × (r.exit_code ≡ 0)
    unfolding report
    zero-checked (err _) targets s s' e all_ready = cc
    zero-checked (ok _) targets s s' e all_ready =
        let (results, es, h) = AllReady-targets _ _ _ all_ready in
        (report strip results, rw es refl, rw h refl)

    -- With --execute the command exits with 0 exactly if its options pass the checks and every
    -- target, or this host if none is given, is made ready in its turn: all copies to it succeed,
    -- and then its script.
    pub doctor_worker_bootstrap_iff :
        (targets : List String) (s s' : S)
        → ((r : Report) × (doctor_worker_bootstrap expanduser render run config true exists strip
                targets s
              ≡ (ok r, s'))
            × (r.exit_code ≡ 0))
          ↔ ((check_wheel expanduser exists config.package_wheel config.package_spec
                  config.copy_wheel
                ≡ ok tt)
              × AllReady config (or_local targets) s s')
    unfolding doctor_worker_bootstrap
    doctor_worker_bootstrap_iff targets s s' = (
      λ (r, e, h). checked-zero _ targets s s' r e h,
      λ (c, all_ready). zero-checked _ targets s s' c all_ready,
    )
