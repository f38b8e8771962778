-- ===== src/Worker/ToolExecutor.antt =====
-- `ToolExecutor.execute` of mediaorchard/worker/executor.py, over any tools.
pub mod Logs
use media_orchard.Prelude.{
  String, not, Option, none, some, List, [], ◌∷◌, ◌++◌, ◌==◌, if◌then◌else◌, any, is_empty,
}
use media_orchard.Prelude.Results.{Result, ok, err}
use media_orchard.Prelude.Actions.{Action, pure, raise, ◌>>=◌, ◌>>◌}
use media_orchard.Prelude.Int.{ℤ, pos, negsuc, int_eq}
use media_orchard.Prelude.Json.{Fields, int, str, arr, end, field}
use media_orchard.Shared.Texts.{concat}
use media_orchard.Worker.Claims.{items_of}
use media_orchard.Worker.Executor.{ToolExecutionContext}
use media_orchard.Worker.Machine.{
  Machine, FilePath, base, ◌/◌, Outcome, exited, timed_out, name_of, stream_text,
}

pub record ToolExecutionResult (F : Type 0) : Type 0 where
  pub tool_name : String
  pub status : String
  pub argv : List String
  pub exit_code : ℤ
  pub stdout_path : FilePath
  pub stderr_path : FilePath
  pub output_json : Fields F

-- The tools of an executor, by name: CommandToolSpec.build_argv, which may raise.
abbrev pub Tools : Type 0 → Type 0 → Type 0
Tools F S = String → Option (Fields F → ToolExecutionContext → Action S (List String))

-- What a command that ran leaves: exit_code, stdout and stderr.
pub record Ended : Type 0 where
  pub exit_code : ℤ
  pub stdout : String
  pub stderr : String

module _ {F S : Type 0} (m : Machine F S) where
  -- _validate_argv
  unfoldable pub validate_argv : List String → Action S (Unit {0})
  validate_argv [] = raise "argv must not be empty"
  validate_argv (part ∷ parts) =
      if any (λ p. p == "") (part ∷ parts)
      then raise "argv must contain only non-empty strings"
      else pure tt

  -- The `try` block, and `except subprocess.TimeoutExpired`.
  unfoldable pub ended : ℤ → Outcome → Ended
  ended timeout (exited code out errors) = record {
    exit_code = code;
    stdout = out;
    stderr = errors;
  }
  ended timeout (timed_out out errors) = record {
    exit_code = negsuc 0;
    stdout = stream_text m out;
    stderr = concat (
        stream_text m errors
        ∷ concat ("tool timed out after " ∷ m.int_text timeout ∷ " seconds" ∷ [])
        ∷ "\n"
        ∷ []);
  }

  -- The `errors` of one write: none, or f"{path.name}: {exc}".
  abbrev pub write_errors : FilePath → Result String (Unit {0}) → List String
  write_errors p (ok _) = []
  write_errors p (err exc) = concat (name_of p ∷ ": " ∷ exc ∷ []) ∷ []

  -- _write_tool_logs
  unfoldable pub write_tool_logs : List (FilePath × String) → Action S (List String)
  write_tool_logs [] = pure []
  write_tool_logs ((p, content) ∷ entries) =
      (λ s. (ok (write_errors p (m.write p content s).0), (m.write p content s).1)) >>= λ first.
      write_tool_logs entries >>= λ more. pure (first ++ more)

  abbrev log_path : String → ToolExecutionContext → String → FilePath
  log_path tool_name context stream =
      base context.log_dir / concat (context.step_id ∷ "." ∷ tool_name ∷ "." ∷ stream ∷ ".log" ∷ [])

  -- ToolExecutionResult(…), by `exit_code` and `log_write_errors`
  unfoldable pub execution_result :
      String → ToolExecutionContext → List String → ℤ → List String → ToolExecutionResult F
  execution_result tool_name context argv exit_code errors = record {
    tool_name = tool_name;
    status = if int_eq exit_code (pos 0) then "completed" else "failed";
    argv = argv;
    exit_code = exit_code;
    stdout_path = log_path tool_name context "stdout";
    stderr_path = log_path tool_name context "stderr";
    output_json = field "tool_name" (str tool_name) (
        field "argv" (arr (items_of argv)) (
          field "stdout_path" (str (m.render (log_path tool_name context "stdout"))) (
            field "stderr_path" (str (m.render (log_path tool_name context "stderr"))) (
              field "exit_code" (int exit_code)
                (field "log_write_errors" (arr (items_of errors)) end)))));
  }

  module _ (tools : Tools F S) (timeout_seconds : ℤ) where
    -- self._runner
    abbrev run_tool : List String → Action S Ended
    run_tool argv s = (
      ok (ended timeout_seconds (m.run argv timeout_seconds s).0),
      (m.run argv timeout_seconds s).1,
    )

    -- From `stdout_path = …` on.
    unfoldable pub execute_argv :
        String → ToolExecutionContext → List String → Action S (ToolExecutionResult F)
    execute_argv tool_name context argv = run_tool argv >>= λ run.
        write_tool_logs (
          (log_path tool_name context "stdout", run.stdout)
          ∷ (log_path tool_name context "stderr", run.stderr)
          ∷ [])
        >>= λ errors. pure (
            execution_result tool_name context argv
              (if is_empty errors then run.exit_code else negsuc 1) errors)

    -- What `execute` does with the tool that it finds.
    abbrev pub execute_tool :
        Option (Fields F → ToolExecutionContext → Action S (List String))
        → String
        → Fields F
        → ToolExecutionContext
        → Action S (ToolExecutionResult F)
    execute_tool none tool_name args context = raise (concat ("unknown tool: " ∷ tool_name ∷ []))
    execute_tool (some build) tool_name args context = build args context >>= λ argv.
        validate_argv argv >> m.mkdir (base context.log_dir) >> execute_argv tool_name context argv

    unfoldable pub execute :
        String → Fields F → ToolExecutionContext → Action S (ToolExecutionResult F)
    execute tool_name args context = execute_tool (tools tool_name) tool_name args context
