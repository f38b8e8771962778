-- ===== src/Examples/DoctorRuns.antt =====
-- A run of `doctor worker`.
use media_orchard.Prelude.{
  String, ◌≡◌, refl, ◌↔◌, none, some, List, [], ◌==◌, true, if◌then◌else◌, All,
}
use media_orchard.Prelude.Results.{ok}
use media_orchard.Prelude.Int.{pos}
use media_orchard.Shared.Texts.{split_on}
use media_orchard.Worker.Machine.{base, ◌/◌}
use media_orchard.Worker.Preflight.{
  Host, WorkerPreflightConfig, is_supported_version, parse_version, check_script,
  check_python_version, check_command, check_mlx_whisper, check_shared_root, run_worker_preflight,
  all_ok,
}
use media_orchard.Worker.Preflight.Fitness.{IsFit}
use media_orchard.Cli.Hosts.{or_local}
use media_orchard.Cli.Commands.{target_lines, doctor_worker}
use media_orchard.Cli.Commands.Doctor.{HasBoth, doctor_worker_iff}

-- A host on which every script prints the same and ends with 0.
abbrev printing : String → Host
printing text = record {
  run = λ argv timeout. record { returncode = pos 0; stdout = text; stderr = "" };
  expanduser = λ p. p;
  is_absolute = λ p. true;
  join_paths = λ a b. b;
  render = λ p. "/srv/media";
  int_of = λ t. if t == "3" then some (pos 3) else if t == "12" then some (pos 12) else none;
  int_text = λ n. "0";
  strip = λ t. t;
  repr = λ t. t;
}

abbrev options : WorkerPreflightConfig
options = record {
  target = "";
  shared_root = base "/srv" / "media";
  shared_root_marker = some (base "/srv" / "media" / "marker");
  shared_root_marker_value = some "3.12.1";
  runtime_python_executable = "python3";
  whisper_python_executable = "python3";
  timeout_seconds = pos 10;
}

-- A host where everything is there passes.
passes : (lines : List String) × (doctor_worker (printing "3.12.1") options [] ≡ ok (lines, 0))
unfolding doctor_worker target_lines all_ok run_worker_preflight check_python_version check_command
    check_mlx_whisper check_shared_root check_script parse_version is_supported_version split_on
passes = (_, refl)

doctor_worker_iff_example :
    ((lines : List String) × (doctor_worker (printing "3.12.1") options [] ≡ ok (lines, 0))) ↔ (
      HasBoth options
      × All
          (λ target. IsFit (printing "3.12.1") (record options { target = target }))
          (or_local []))
doctor_worker_iff_example = doctor_worker_iff (printing "3.12.1") options []
