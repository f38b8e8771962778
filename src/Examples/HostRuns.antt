-- ===== src/Examples/HostRuns.antt =====
-- Tools, scripts and secrets on one host.
use media_orchard.Prelude.{ℕ, suc, String, ◌≡◌, refl, ◌↔◌, true, some, List, [], ◌∷◌}
use media_orchard.Prelude.Results.{ok}
use media_orchard.Prelude.Actions.{pure}
use media_orchard.Prelude.Int.{ℤ, pos}
use media_orchard.Prelude.Json.{Json, str, obj, end, field}
use media_orchard.Shared.Redaction.{default_redact_fields, redact_secrets, is_clean}
use media_orchard.Shared.Redaction.Secrets.{redact_secrets_lem}
use media_orchard.Worker.Machine.{base, ◌/◌}
use media_orchard.Worker.Executor.{ToolExecutionContext}
use media_orchard.Worker.ToolExecutor.{
  Tools, ToolExecutionResult, validate_argv, ended, write_tool_logs, execution_result, execute_argv,
  execute,
}
use media_orchard.Worker.ToolExecutor.Logs.{IsExecution, execute-IsExecution}
use media_orchard.Worker.Preflight.{Completed, build_command_argv}
use media_orchard.Worker.Preflight.Scripts.{RunsScript, build_command_argv-RunsScript}
use media_orchard.Worker.Bootstrap.{WorkerBootstrapConfig}
use media_orchard.Examples.Machines.{desk, Files, no_files, desk-KeepsFiles}

abbrev context : ToolExecutionContext
context = record {
  job_id = "job_1";
  step_id = "step_1";
  node_id = "mini";
  shared_root = "/srv/media";
  work_dir = "/srv/work";
  output_dir = "/srv/out";
  log_dir = "/srv/logs";
}

abbrev echo_tool : Tools ℤ Files
echo_tool name = some (λ args context. pure ("echo" ∷ "hello" ∷ []))

executed :
    (result : ToolExecutionResult ℤ) × ((execute desk echo_tool
        (pos 30)
        "echo"
        end
        context
        no_files).0
      ≡ ok result)
unfolding execute validate_argv execute_argv ended write_tool_logs execution_result
executed = (_, refl)

execute-IsExecution_example :
    IsExecution desk
      (pos 30)
      echo_tool
      "echo"
      end
      context
      no_files
      executed.0
      (execute desk echo_tool (pos 30) "echo" end context no_files).1
execute-IsExecution_example =
    execute-IsExecution desk (pos 30) desk-KeepsFiles echo_tool "echo" end context no_files
      executed.0 executed.1

build_command_argv-RunsScript_example :
    RunsScript "mini.local" "echo 'it'" (build_command_argv "mini.local" "echo 'it'")
build_command_argv-RunsScript_example = build_command_argv-RunsScript "mini.local" "echo 'it'"

abbrev pub bootstrap : WorkerBootstrapConfig
bootstrap = record {
  target = "mini.local";
  install_root = base "/opt/mediaorchard";
  shared_root = base "/srv/media";
  python_executable = "python3";
  package_spec = "mediaorchard==0.1.0";
  package_wheel = some (base "/tmp" / "mediaorchard.whl");
  copy_wheel = true;
  whisper_package = "mlx-whisper";
  timeout_seconds = pos 300;
}

-- A runner that counts its commands.
abbrev pub counting : List String → ℤ → String → ℕ → Completed × ℕ
counting argv timeout stdin n =
    let completed : Completed = record { returncode = pos 0; stdout = ""; stderr = "" } in
    (completed, suc n)

abbrev secrets : Json ℤ
secrets = obj (field "user" (str "ann") (field "api_key" (str "abc") end))

redact_secrets_lem_example :
    (is_clean (λ s. s) default_redact_fields (redact_secrets (λ s. s) default_redact_fields secrets)
      ≡ true)
    × ((redact_secrets (λ s. s) default_redact_fields secrets ≡ secrets)
        ↔ (is_clean (λ s. s) default_redact_fields secrets ≡ true))
    × (redact_secrets
          (λ s. s)
          default_redact_fields
          (redact_secrets (λ s. s) default_redact_fields secrets)
        ≡ redact_secrets (λ s. s) default_redact_fields secrets)
redact_secrets_lem_example = redact_secrets_lem (λ s. s) default_redact_fields secrets
