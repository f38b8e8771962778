-- ===== src/Worker/Bootstrap.antt =====
-- mediaorchard/worker/bootstrap.py: the script that makes a host a Worker, and its execution.
pub mod Runs
use media_orchard.Prelude.{
  ◌-◌, String, Bool, true, false, not, Option, none, some, List, [], ◌∷◌, ◌++◌, map, ◌==◌,
  if◌then◌else◌, select,
}
use media_orchard.Prelude.Int.{ℤ, pos, int_eq}
use media_orchard.Shared.Texts.{concat, join}
use media_orchard.Worker.Machine.{FilePath, Outcome, ◌/◌, name_of}
use media_orchard.Worker.Shell.{quote}
use media_orchard.Worker.Preflight.{Completed, completed_of, is_local_target}

pub record WorkerBootstrapConfig : Type 0 where
  pub target : String
  pub install_root : FilePath
  pub shared_root : FilePath
  pub python_executable : String
  pub package_spec : String
  pub package_wheel : Option FilePath
  pub copy_wheel : Bool
  pub whisper_package : String
  pub timeout_seconds : ℤ

pub record WorkerBootstrapResult : Type 0 where
  pub target : String
  pub executed : Bool
  pub script : String
  pub returncode : ℤ
  pub stdout : String
  pub stderr : String

-- WorkerBootstrapResult.ok
unfoldable pub is_ok : WorkerBootstrapResult → Bool
is_ok result = int_eq result.returncode (pos 0)

abbrev shared_root_dirs : List String
shared_root_dirs = "inbox" ∷ "work" ∷ "output" ∷ "logs" ∷ "cache" ∷ []

unfoldable pub build_bootstrap_command_argv : String → List String
build_bootstrap_command_argv target =
    if is_local_target target
    then "bash" ∷ "-s" ∷ []
    else "ssh" ∷ "-o" ∷ "BatchMode=yes" ∷ "-o" ∷ "ConnectTimeout=5" ∷ target ∷ "bash" ∷ "-s" ∷ []

-- run_command; `subprocess_run` is subprocess.run with a timeout and a stdin, on the state of the
-- hosts.
unfoldable pub run_command :
    {S : Type 0}
    → (ℤ → String)
    → (List String → ℤ → String → S → Outcome × S)
    → List String
    → ℤ
    → String
    → S
    → Completed × S
unfolding completed_of
run_command int_text subprocess_run argv timeout_seconds stdin s =
    let (outcome, s') = subprocess_run argv timeout_seconds stdin s in
    (completed_of int_text timeout_seconds outcome, s')

-- `expanduser` and `render` are the methods of Path and str().
module _ (expanduser : FilePath → FilePath) (render : FilePath → String)
    (config : WorkerBootstrapConfig) where
  abbrev packages_dir : FilePath
  packages_dir = expanduser config.install_root / "packages"

  abbrev venv_dir : FilePath
  venv_dir = expanduser config.install_root / "venv"

  -- shlex.quote(str(path))
  abbrev quoted : FilePath → String
  quoted path = quote (render path)

  -- The comment on the wheel, and where the package comes from.
  unfoldable pub wheel_lines : Option FilePath → List String
  unfolding name_of
  wheel_lines none = []
  wheel_lines (some wheel) =
      (if config.copy_wheel
        then concat (
            "# --copy-wheel will copy "
            ∷ render wheel
            ∷ " to "
            ∷ render (packages_dir / name_of wheel)
            ∷ " before execution."
            ∷ [])
        else concat (
            "# Copy "
            ∷ render wheel
            ∷ " to "
            ∷ render (packages_dir / name_of wheel)
            ∷ " before --execute."
            ∷ []))
      ∷ []

  unfoldable pub package_source : Option FilePath → String
  unfolding name_of
  package_source none = config.package_spec
  package_source (some wheel) = render (packages_dir / name_of wheel)

  unfoldable pub wheel_checks : Option FilePath → List String
  unfolding name_of
  wheel_checks none = []
  wheel_checks (some wheel) =
      concat ("mkdir -p " ∷ quoted packages_dir ∷ [])
      ∷ concat ("test -f " ∷ quoted (packages_dir / name_of wheel) ∷ [])
      ∷ []

  unfoldable pub package_args : String
  unfolding package_source
  package_args = join " " (
      map quote (
        select (λ name. not (name == ""))
          (package_source config.package_wheel ∷ config.whisper_package ∷ [])))

  unfoldable pub build_bootstrap_script : String
  unfolding wheel_lines wheel_checks package_args
  build_bootstrap_script =
      let python = quote config.python_executable in
      let venv_python = quoted (venv_dir / "bin" / "python") in
      join "\n" (
        wheel_lines config.package_wheel
        ++ ("set -euo pipefail"
            ∷ "export PATH=\"/opt/homebrew/bin:/usr/local/bin:$PATH\""
            ∷ concat (python ∷ " - <<'PY_VERSION'" ∷ [])
            ∷ "import sys"
            ∷ "raise SystemExit(0 if sys.version_info >= (3, 11) else 1)"
            ∷ "PY_VERSION"
            ∷ concat (
                "mkdir -p "
                ∷ join " "
                    (map (λ name. quoted (expanduser config.shared_root / name)) shared_root_dirs)
                ∷ [])
            ∷ concat ("mkdir -p " ∷ quoted (expanduser config.install_root) ∷ [])
            ∷ concat (python ∷ " -m venv " ∷ quoted venv_dir ∷ [])
            ∷ concat (venv_python ∷ " -m pip install -U pip" ∷ [])
            ∷ [])
        ++ wheel_checks config.package_wheel
        ++ (concat (venv_python ∷ " -m pip install " ∷ package_args ∷ [])
            ∷ "command -v ffmpeg >/dev/null"
            ∷ "command -v ffprobe >/dev/null"
            ∷ concat (venv_python ∷ " - <<'PY_WHISPER'" ∷ [])
            ∷ "import mlx_whisper"
            ∷ "print(getattr(mlx_whisper, '__version__', 'present'))"
            ∷ "PY_WHISPER"
            ∷ concat (quoted (venv_dir / "bin" / "mediaorchard") ∷ " --help >/dev/null" ∷ [])
            ∷ []))

  unfoldable pub wheel_copies : FilePath → List (List String)
  unfolding name_of
  wheel_copies wheel =
      if is_local_target config.target
      then (("mkdir" ∷ "-p" ∷ render packages_dir ∷ [])
          ∷ ("cp" ∷ render wheel ∷ render (packages_dir / name_of wheel) ∷ [])
          ∷ [])
      else (("ssh"
            ∷ "-o"
            ∷ "BatchMode=yes"
            ∷ "-o"
            ∷ "ConnectTimeout=5"
            ∷ config.target
            ∷ "mkdir"
            ∷ "-p"
            ∷ quoted packages_dir
            ∷ [])
          ∷ ("scp"
              ∷ render wheel
              ∷ concat (config.target ∷ ":" ∷ quoted (packages_dir / name_of wheel) ∷ [])
              ∷ [])
          ∷ [])

  unfoldable pub build_wheel_copy_command_argvs : List (List String)
  unfolding wheel_copies
  build_wheel_copy_command_argvs = elim config.package_wheel [
    | none ↦ []
    | some wheel ↦ wheel_copies (expanduser wheel)
  ]

  -- The copies of `copy_wheel`, which has none without a wheel.
  unfoldable pub copies : List (List String)
  copies = if config.copy_wheel then build_wheel_copy_command_argvs else []

  -- `run` is the command runner: the command, its timeout and its stdin.
  module _ {S : Type 0} (run : List String → ℤ → String → S → Completed × S) where
    abbrev pub result_of : Completed → WorkerBootstrapResult
    result_of completed = record {
      target = config.target;
      executed = true;
      script = build_bootstrap_script;
      returncode = completed.returncode;
      stdout = completed.stdout;
      stderr = completed.stderr;
    }

    -- The copies one after the other, up to the first that fails, and then the script.
    unfoldable pub run_commands : List (List String) → S → WorkerBootstrapResult × S
    unfolding build_bootstrap_command_argv
    run_commands [] s =
        let (completed, s') =
          run (build_bootstrap_command_argv config.target) config.timeout_seconds
            build_bootstrap_script s in
        (result_of completed, s')
    run_commands (argv ∷ argvs) s =
        let (completed, s') = run argv config.timeout_seconds "" s in
        let rest = run_commands argvs s' in
        if not (int_eq completed.returncode (pos 0)) then (result_of completed, s') else rest

    abbrev dry_run : WorkerBootstrapResult
    dry_run = record {
      target = config.target;
      executed = false;
      script = build_bootstrap_script;
      returncode = pos 0;
      stdout = "";
      stderr = "";
    }

    unfoldable pub run_worker_bootstrap : Bool → S → WorkerBootstrapResult × S
    unfolding run_commands copies
    run_worker_bootstrap execute s = if not execute then (dry_run, s) else run_commands copies s
