-- ===== src/Worker/Preflight.antt =====
-- mediaorchard/worker/preflight.py: what is asked of a host before it becomes a Worker.
pub mod Scripts
pub mod Fitness
use media_orchard.Prelude.{
  ◌-◌, String, Bool, true, false, not, ◌&&◌, ◌||◌, Option, none, some, List, [], ◌∷◌, ◌==◌,
  if◌then◌else◌, all,
}
use media_orchard.Prelude.Int.{ℤ, pos, int_eq, ltb_ℤ, leb_ℤ}
use media_orchard.Shared.Texts.{concat, has_text, split_on}
use media_orchard.Worker.Machine.{FilePath, Outcome, exited, timed_out}
use media_orchard.Worker.Shell.{quote}

pub record PreflightCheck : Type 0 where
  pub name : String
  pub is_ok : Bool
  pub detail : String

-- `shared_root_marker` is a path as text.
pub record WorkerPreflightConfig : Type 0 where
  pub target : String
  pub shared_root : FilePath
  pub shared_root_marker : Option FilePath
  pub shared_root_marker_value : Option String
  pub runtime_python_executable : String
  pub whisper_python_executable : String
  pub timeout_seconds : ℤ

-- subprocess.CompletedProcess
pub record Completed : Type 0 where
  pub returncode : ℤ
  pub stdout : String
  pub stderr : String

-- The command runner, for commands that only look, and what the code uses of Python's library.
pub record Host : Type 0 where
  pub run : List String → ℤ → Completed
  pub expanduser : FilePath → FilePath
  pub is_absolute : FilePath → Bool
  -- a / b
  pub join_paths : FilePath → FilePath → FilePath
  pub render : FilePath → String
  -- int(text)
  pub int_of : String → Option ℤ
  pub int_text : ℤ → String
  pub strip : String → String
  -- repr(text)
  pub repr : String → String

-- run_command of preflight.py and of bootstrap.py, by how the command ends.
unfoldable pub completed_of : (ℤ → String) → ℤ → Outcome → Completed
completed_of int_text timeout (exited code out errors) = record {
  returncode = code;
  stdout = out;
  stderr = errors;
}
completed_of int_text timeout (timed_out out errors) = record {
  returncode = pos 1;
  stdout = "";
  stderr = concat ("timeout after " ∷ int_text timeout ∷ "s" ∷ []);
}

abbrev local_targets : List String
local_targets = "" ∷ "local" ∷ "localhost" ∷ "127.0.0.1" ∷ []

-- is_local_target of bootstrap.py, and the same test in build_command_argv
unfoldable pub is_local_target : String → Bool
is_local_target target = has_text target local_targets

unfoldable pub build_command_argv : String → String → List String
unfolding is_local_target
build_command_argv target script =
    if is_local_target target
    then "sh" ∷ "-lc" ∷ script ∷ []
    else "ssh"
      ∷ "-o"
      ∷ "BatchMode=yes"
      ∷ "-o"
      ∷ "ConnectTimeout=5"
      ∷ target
      ∷ "sh"
      ∷ "-lc"
      ∷ quote script
      ∷ []

-- (major, minor) >= (3, 11)
unfoldable pub is_supported_version : ℤ → ℤ → Bool
is_supported_version major minor =
    ltb_ℤ (pos 3) major || (int_eq major (pos 3) && leb_ℤ (pos 11) minor)

module _ (host : Host) where
  -- _detail
  unfoldable pub detail_of : Completed → String
  detail_of completed =
      if not (host.strip completed.stderr == "")
      then host.strip completed.stderr
      else if not (host.strip completed.stdout == "")
      then host.strip completed.stdout
      else concat ("exit " ∷ host.int_text completed.returncode ∷ [])

  abbrev pub succeeded : Completed → Bool
  succeeded completed = int_eq completed.returncode (pos 0)

  abbrev check : String → Bool → String → PreflightCheck
  check name passed detail = record { name = name; is_ok = passed; detail = detail }

  -- `int(parts[0]), int(parts[1])`; `none` is an IndexError or a ValueError.
  unfoldable pub parse_version : String → Option (ℤ × ℤ)
  parse_version version = elim (split_on b'.' version) [
    | [] ↦ none
    | first ∷ [] ↦ none
    | first ∷ second ∷ _ ↦ elim (host.int_of first) [
      | none ↦ none
      | some major ↦ elim (host.int_of second) [ none ↦ none | some minor ↦ some (major, minor) ]
    ]
  ]

  abbrev version_check : String → Option (ℤ × ℤ) → PreflightCheck
  version_check version none =
      check "python>=3.11" false (concat ("unparseable version: " ∷ version ∷ []))
  version_check version (some (major, minor)) =
      check "python>=3.11" (is_supported_version major minor)
        (if is_supported_version major minor then version else concat ("found " ∷ version ∷ []))

  module _ (config : WorkerPreflightConfig) where
    -- runner(build_command_argv(config.target, script), config.timeout_seconds)
    abbrev pub probe : String → Completed
    probe script = host.run (build_command_argv config.target script) config.timeout_seconds

    -- A check that passes if its script does.
    unfoldable pub check_script : String → String → PreflightCheck
    unfolding detail_of
    check_script name script =
        let completed = probe script in
        check name (succeeded completed)
          (if succeeded completed then host.strip completed.stdout else detail_of completed)

    abbrev pub version_script : String → String
    version_script python = concat (
        python
        ∷ " - <<'PY'\nimport sys\nprint(f'{sys.version_info.major}.{sys.version_info.minor}.{sys.version_info.micro}')\nPY"
        ∷ [])

    unfoldable pub check_python_version : String → PreflightCheck
    unfolding detail_of parse_version is_supported_version
    check_python_version python =
        let completed = probe (version_script python) in
        if not (succeeded completed)
        then check "python>=3.11" false (detail_of completed)
        else version_check (host.strip completed.stdout)
            (parse_version (host.strip completed.stdout))

    unfoldable pub check_command : String → PreflightCheck
    unfolding check_script
    check_command command = check_script command (concat ("command -v " ∷ command ∷ []))

    abbrev pub whisper_script : String → String
    whisper_script python = concat (
        python
        ∷ " - <<'PY'\nimport mlx_whisper\nprint(getattr(mlx_whisper, '__version__', 'present'))\nPY"
        ∷ [])

    unfoldable pub check_mlx_whisper : String → PreflightCheck
    unfolding check_script
    check_mlx_whisper python = check_script "mlx_whisper" (whisper_script python)

    -- `shared_root` is quoted already.
    abbrev pub root_script : String → String
    root_script shared_root =
        concat ("test -d " ∷ shared_root ∷ " && printf '%s\\n' " ∷ shared_root ∷ [])

    unfoldable pub check_shared_root : String → PreflightCheck
    unfolding check_script
    check_shared_root shared_root = check_script "shared_root" (root_script shared_root)

    unfoldable pub resolve_marker_path : FilePath → FilePath → FilePath
    resolve_marker_path shared_root marker =
        if host.is_absolute (host.expanduser marker)
        then host.expanduser marker
        else host.join_paths (host.expanduser shared_root) (host.expanduser marker)

    abbrev marker_check : Option String → String → PreflightCheck
    marker_check none actual = check "shared_root_marker" true actual
    marker_check (some expected) actual =
        if not (actual == expected)
        then check "shared_root_marker" false
            (concat ("expected " ∷ host.repr expected ∷ ", found " ∷ host.repr actual ∷ []))
        else check "shared_root_marker" true actual

    unfoldable pub check_shared_root_marker : String → PreflightCheck
    unfolding detail_of
    check_shared_root_marker marker_path =
        let completed = probe (concat ("cat " ∷ marker_path ∷ [])) in
        if not (succeeded completed)
        then check "shared_root_marker" false (detail_of completed)
        else marker_check config.shared_root_marker_value (host.strip completed.stdout)

    -- `checks`
    unfoldable pub run_worker_preflight : List PreflightCheck
    unfolding check_python_version check_command check_mlx_whisper check_shared_root
        check_shared_root_marker resolve_marker_path
    run_worker_preflight =
        check_python_version (quote config.runtime_python_executable)
        ∷ check_command "ffmpeg"
        ∷ check_command "ffprobe"
        ∷ check_mlx_whisper (quote config.whisper_python_executable)
        ∷ check_shared_root (quote (host.render (host.expanduser config.shared_root)))
        ∷ (elim config.shared_root_marker [
          | none ↦ []
          | some marker ↦
              check_shared_root_marker
                (quote (host.render (resolve_marker_path config.shared_root marker)))
              ∷ []
        ])

-- WorkerPreflightResult.ok
unfoldable pub all_ok : List PreflightCheck → Bool
all_ok checks = all (λ check. check.is_ok) checks
