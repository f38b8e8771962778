-- ===== src/Worker/ToolExecutor/Logs.antt =====
-- What the result and the logs of an executed tool say of its command.
use media_orchard.Prelude.{
  zero, suc, String, ◌≡◌, refl, sym, ap, ◌∙◌, subst, ◌≢◌, ◌⊎◌, inl, inr, true, false, Option, none,
  some, List, [], ◌++◌, arith, ◌==◌, eq_iff, eq_refl, if◌then◌else◌, Bool-cases, is_empty, All, any,
  ◌∷◌,
}
use Prim.Native.String
use text.Mathlib.TextLemmas.{append_cancel_left}
use media_orchard.Prelude.Results.{Result, ok, err}
use media_orchard.Prelude.Actions.{Action, ok-injective, bind-ok, ◌>>◌}
use media_orchard.Prelude.Int.{ℤ, pos, negsuc, int_eq}
use media_orchard.Prelude.Json.{Fields}
use media_orchard.Shared.Texts.{concat}
use media_orchard.Worker.Executor.{ToolExecutionContext}
use media_orchard.Worker.Machine.{
  Machine, KeepsFiles, FilePath, base, Stream, Outcome, exited, timed_out, name_of, stream_text,
}
use media_orchard.Worker.ToolExecutor.{
  ToolExecutionResult, Tools, validate_argv, ended, write_errors, write_tool_logs, log_path,
  execution_result, execute_argv, execute_tool, execute,
}

code-zero : (code : ℤ) → int_eq code (pos 0) ≡ true → code ≡ pos 0
code-zero (pos zero) h = refl
code-zero (pos (suc n)) h = ground arith
code-zero (negsuc n) h = ground arith

names-apart : (a b c : String) → (a == b) ≡ false → (String.◌++◌ c a == String.◌++◌ c b) ≡ false
names-apart a b c h = elim (Bool-cases (String.◌++◌ c a == String.◌++◌ c b)) [
  | inl e ↦ cc (ap (λ x. x == b) (append_cancel_left c a b ((eq_iff _ _).0 e)), eq_refl b)
  | inr e ↦ e
]

module _ {F S : Type 0} (m : Machine F S) (timeout : ℤ) where
  -- What comes before the command: the tool has made it, none of its parts is empty, and the directory
  -- of the logs is there.
  pub record IsPrepared (tools : Tools F S) (name : String) (args : Fields F)
      (context : ToolExecutionContext) (s : S) (argv : List String) (before : S) : Type 0 where
    pub build : Fields F → ToolExecutionContext → Action S (List String)
    pub found : tools name ≡ some build
    pub built : (build args context s).0 ≡ ok argv
    pub not_empty : argv ≢ []
    pub parts : All (λ part. part ≢ "") argv
    pub made : m.mkdir (base context.log_dir) (build args context s).1 ≡ (ok tt, before)

  -- What the result says of a command that has ended so, whose outputs were to be logged as these.
  pub data IsVerdict (outcome : Outcome) (out errors : String) (after final : S)
      (result : ToolExecutionResult F) : Type 0 where
    completed :
        outcome ≡ exited (pos 0) out errors
        → result.status ≡ "completed"
        → result.exit_code ≡ pos 0
        → m.read result.stdout_path final ≡ some out
        → m.read result.stderr_path final ≡ some errors
        → IsVerdict outcome out errors after final result
    failed :
        (code : ℤ)
        → outcome ≡ exited code out errors
        → code ≢ pos 0
        → result.status ≡ "failed"
        → result.exit_code ≡ code
        → m.read result.stdout_path final ≡ some out
        → m.read result.stderr_path final ≡ some errors
        → IsVerdict outcome out errors after final result
    late :
        (printed complained : Stream)
        → outcome ≡ timed_out printed complained
        → out ≡ stream_text m printed
        → errors
          ≡ concat (
              stream_text m complained
              ∷ concat ("tool timed out after " ∷ m.int_text timeout ∷ " seconds" ∷ [])
              ∷ "\n"
              ∷ [])
        → result.status ≡ "failed"
        → result.exit_code ≡ negsuc 0
        → m.read result.stdout_path final ≡ some out
        → m.read result.stderr_path final ≡ some errors
        → IsVerdict outcome out errors after final result
    unlogged :
        ((m.write result.stdout_path out after).0 ≢ ok tt)
          ⊎ ((m.write result.stderr_path errors (m.write result.stdout_path out after).1).0 ≢ ok tt)
        → result.status ≡ "failed"
        → result.exit_code ≡ negsuc 1
        → IsVerdict outcome out errors after final result

  -- From the first state to the last: the command was prepared and run, then its outputs were
  -- written to the logs, and nothing else was done.
  pub record IsRunOf (before : S) (result : ToolExecutionResult F) (final : S) : Type 0 where
    pub outcome : Outcome
    pub after : S
    pub ran : m.run result.argv timeout before ≡ (outcome, after)
    pub out : String
    pub errors : String
    pub written :
        final ≡ (m.write result.stderr_path errors (m.write result.stdout_path out after).1).1
    pub verdict : IsVerdict outcome out errors after final result

  module _ (files : KeepsFiles m) (name : String) (context : ToolExecutionContext)
      (argv : List String) where
    abbrev out_path : FilePath
    out_path = log_path m name context "stdout"

    abbrev err_path : FilePath
    err_path = log_path m name context "stderr"

    paths-apart : (name_of out_path == name_of err_path) ≡ false
    unfolding name_of
    paths-apart = names-apart _ _ context.step_id (
        names-apart _ _ "." (names-apart _ _ name (names-apart "stdout.log" "stderr.log" "." refl)))

    abbrev after_run : S → S
    after_run s = (m.run argv timeout s).1

    -- The result for these ends of the two writes.
    abbrev result_of :
        Outcome → Result String (Unit {0}) → Result String (Unit {0}) → ToolExecutionResult F
    result_of outcome r1 r2 =
        let errors = write_errors m out_path r1 ++ (write_errors m err_path r2 ++ []) in
        execution_result m name context argv
          (if is_empty errors then (ended m timeout outcome).exit_code else negsuc 1) errors

    abbrev Verdict : Outcome → S → S → ToolExecutionResult F → Type 0
    Verdict o after final =
        IsVerdict o (ended m timeout o).stdout (ended m timeout o).stderr after final

    not_ok : {E A : Type 0} (r : Result E A) (e : E) → r ≡ err e → (a : A) → r ≢ ok a
    not_ok r e q a p = cc

    outcome-IsVerdict :
        (after final : S) (o : Outcome) (r1 r2 : Result String (Unit {0}))
        → (m.write out_path (ended m timeout o).stdout after).0 ≡ r1
        → (m.write err_path
            (ended m timeout o).stderr
            (m.write out_path (ended m timeout o).stdout after).1).0
          ≡ r2
        → (r1 ≡ ok tt
            → r2 ≡ ok tt
            → (m.read out_path final ≡ some (ended m timeout o).stdout)
              × (m.read err_path final ≡ some (ended m timeout o).stderr))
        → Verdict o after final (result_of o r1 r2)
    unfolding execution_result ended
    outcome-IsVerdict after final o (err e) r2 w1 w2 logs =
        unlogged (inl (not_ok _ e w1 tt)) refl refl
    outcome-IsVerdict after final o (ok _) (err e) w1 w2 logs =
        unlogged (inr (not_ok _ e w2 tt)) refl refl
    outcome-IsVerdict after final (timed_out out errors) (ok _) (ok _) w1 w2 logs =
        let (a, b) = logs refl refl in late out errors refl refl refl refl refl a b
    outcome-IsVerdict after final (exited code out errors) (ok _) (ok _) w1 w2 logs =
        let (a, b) = logs refl refl in
        elim (Bool-cases (int_eq code (pos 0))) [
          | inl e ↦
              completed (ap (λ c. exited c out errors) (code-zero code e)) (rw e refl)
                (code-zero code e) a b
          | inr e ↦ failed code refl (λ q. cc (ap (λ c. int_eq c (pos 0)) q)) (rw e refl) refl a b
        ]

    -- The logs of two writes that have both succeeded.
    logs-written :
        (out errors : String) (s : S)
        → (m.write out_path out s).0 ≡ ok tt
        → (m.write err_path errors (m.write out_path out s).1).0 ≡ ok tt
        → (m.read out_path (m.write err_path errors (m.write out_path out s).1).1 ≡ some out)
          × (m.read err_path (m.write err_path errors (m.write out_path out s).1).1 ≡ some errors)
    logs-written out errors s h g = (
      files.read_write_other err_path out_path errors _ refl (λ e.
            cc (ap (λ p. name_of p == name_of err_path) e, eq_refl (name_of err_path), paths-apart))
          ∙ files.read_write out_path out s h,
      files.read_write err_path errors _ g,
    )

    execute_argv-IsRunOf :
        (tools : Tools F S) (s : S) (result : ToolExecutionResult F)
        → (execute_argv m tools timeout name context argv s).0 ≡ ok result
        → (result.argv ≡ argv)
          × IsRunOf s result (execute_argv m tools timeout name context argv s).1
    unfolding execute_argv write_tool_logs execution_result
    execute_argv-IsRunOf tools s result f =
        let o = (m.run argv timeout s).0 in
        let run = ended m timeout o in
        let r1 = m.write out_path run.stdout (after_run s) in
        let r2 = m.write err_path run.stderr r1.1 in
        subst (λ (x : ToolExecutionResult F). (x.argv ≡ argv) × IsRunOf s x r2.1)
          (ok-injective _ refl f)
          (
            refl,
            record {
              outcome = o;
              after = after_run s;
              ran = refl;
              out = run.stdout;
              errors = run.stderr;
              written = refl;
              verdict =
                  outcome-IsVerdict (after_run s) r2.1 o r1.0 r2.0 refl refl
                    (logs-written run.stdout run.stderr (after_run s));
            },
          )

  none-empty :
      (parts : List String) → any (λ p. p == "") parts ≡ false → All (λ part. part ≢ "") parts
  none-empty [] h = tt
  none-empty (part ∷ parts) h =
      (λ e. ground (arith, eq_iff part ""), none-empty parts (ground arith))

  validate_argv-ok :
      (argv : List String) (s : S)
      → (validate_argv m argv s).0 ≡ ok tt
      → (argv ≢ []) × All (λ part. part ≢ "") argv × ((validate_argv m argv s).1 ≡ s)
  unfolding validate_argv
  validate_argv-ok [] s h = cc
  validate_argv-ok (part ∷ parts) s h = elim (Bool-cases (any (λ p. p == "") (part ∷ parts))) [
    | inl e ↦ cc (rw e at h)
    | inr e ↦ (λ q. cc, none-empty (part ∷ parts) e, rw e refl)
  ]

  -- An execution of a tool: its command was prepared, and then run, and its outputs were logged.
  pub record IsExecution (tools : Tools F S) (name : String) (args : Fields F)
      (context : ToolExecutionContext) (s : S) (result : ToolExecutionResult F) (final : S)
      : Type 0 where
    pub before : S
    pub prepared : IsPrepared tools name args context s result.argv before
    pub run : IsRunOf before result final

  module _ (files : KeepsFiles m) (tools : Tools F S) (name : String) (args : Fields F)
      (context : ToolExecutionContext) (s : S) (result : ToolExecutionResult F) where
    tool-IsExecution :
        (tool : Option (Fields F → ToolExecutionContext → Action S (List String)))
        → tools name ≡ tool
        → (execute_tool m tools timeout tool name args context s).0 ≡ ok result
        → IsExecution tools name args context s result
            (execute_tool m tools timeout tool name args context s).1
    tool-IsExecution none found f = cc
    tool-IsExecution (some build) found f =
        let (argv, built, e₁) = bind-ok (build args context) _ s result f in
        let s₁ = (build args context s).1 in
        let (_, made, e₂) =
          bind-ok (validate_argv m argv >> m.mkdir (base context.log_dir))
            (λ _. execute_argv m tools timeout name context argv) s₁ result
            (sym (ap (λ p. p.0) e₁) ∙ f) in
        let (_, valid, e₃) =
          bind-ok (validate_argv m argv) (λ _. m.mkdir (base context.log_dir)) s₁ tt made in
        let (not_empty, parts, kept) = validate_argv-ok argv s₁ valid in
        let q = e₃ ∙ ap (λ x. m.mkdir (base context.log_dir) x) kept in
        let before = (m.mkdir (base context.log_dir) s₁).1 in
        let whole = e₁ ∙ e₂ ∙ ap (λ p. execute_argv m tools timeout name context argv p.1) q in
        let (same, run) =
          execute_argv-IsRunOf files name context argv tools before result
            (sym (ap (λ p. p.0) whole) ∙ f) in
        subst (IsExecution tools name args context s result) (sym (ap (λ p. p.1) whole)) (record {
          before = before;
          prepared =
              subst (λ a. IsPrepared tools name args context s a before) (sym same)
                (record {
                  build = build;
                  found = found;
                  built = built;
                  not_empty = not_empty;
                  parts = parts;
                  made = ap (λ r. (r, before)) (sym (ap (λ p. p.0) q) ∙ made);
                });
          run = run;
        })

    -- On a machine that keeps files, for any tools: when `execute` has returned, the tool has made the
    -- result's command, which has no empty part, the directory of the logs was made, then the command
    -- was run, once, and what it printed was written to the two logs, and after the tool nothing else
    -- was done. If both writes succeeded, the logs hold that at the end, and the result has the
    -- command's exit code, or -1 if it ran out of time, and the status completed exactly if that is 0;
    -- if a write failed, the exit code is -2 and the status failed.
    pub execute-IsExecution :
        (execute m tools timeout name args context s).0 ≡ ok result
        → IsExecution tools name args context s result
            (execute m tools timeout name args context s).1
    unfolding execute
    execute-IsExecution = tool-IsExecution (tools name) refl
