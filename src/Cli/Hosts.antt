-- ===== src/Cli/Hosts.antt =====
-- `doctor worker-bootstrap` of mediaorchard/cli/main.py, between the parsed options and the printed
-- lines.
pub mod Readiness
use media_orchard.Prelude.{
  ℕ, String, Bool, not, Option, none, some, List, [], ◌∷◌, ◌++◌, ◌==◌, if◌then◌else◌, all,
}
use media_orchard.Prelude.Results.{Result, ok, err, ◌>>◌, require}
use media_orchard.Prelude.Int.{ℤ}
use media_orchard.Shared.Texts.{concat}
use media_orchard.Worker.Machine.{FilePath}
use media_orchard.Worker.Preflight.{Completed}
use media_orchard.Worker.Bootstrap.{
  WorkerBootstrapConfig, WorkerBootstrapResult, is_ok, run_worker_bootstrap,
}

-- A line of typer.echo, on stdout or on stderr.
pub data Line : Type 0 where
  out : String → Line
  error : String → Line

-- bootstrap.py: DEFAULT_PACKAGE_SPEC
abbrev pub default_package_spec : String
default_package_spec = "mediaorchard==0.1.0"

-- The printed lines, and the exit code.
pub record Report : Type 0 where
  pub lines : List Line
  pub exit_code : ℕ

abbrev pub pass_or_fail : Bool → String
pass_or_fail passed = if passed then "PASS" else "FAIL"

-- targets or ["local"]
abbrev pub or_local : List String → List String
or_local [] = "local" ∷ []
or_local (target ∷ targets) = target ∷ targets

-- `strip` is str.strip.
module _ (strip : String → String) where
  -- typer.echo(text.strip()), if there is something
  abbrev stripped_line : (String → Line) → String → List Line
  stripped_line line text = if strip text == "" then [] else line (strip text) ∷ []

  -- The lines of one result.
  unfoldable pub result_lines : WorkerBootstrapResult → List Line
  result_lines result =
      if result.executed
      then out (concat (result.target ∷ " " ∷ pass_or_fail (is_ok result) ∷ []))
        ∷ (stripped_line out result.stdout ++ stripped_line error result.stderr)
      else out (concat (result.target ∷ " DRY-RUN" ∷ [])) ∷ out result.script ∷ []

  abbrev all_result_lines : List WorkerBootstrapResult → List Line
  all_result_lines [] = []
  all_result_lines (result ∷ results) = result_lines result ++ all_result_lines results

  unfoldable pub report : List WorkerBootstrapResult → Report
  unfolding result_lines
  report results = record {
    lines = all_result_lines results;
    exit_code = if all is_ok results then 0 else 1;
  }

-- The checks of the options; `exists` is that of Path, and `config` has everything but the target.
module _ (expanduser : FilePath → FilePath) (exists : FilePath → Bool) where
  -- The checks of a wheel.
  abbrev pub check_wheel : Option FilePath → String → Bool → Result String (Unit {0})
  check_wheel none spec copy_wheel = require (not copy_wheel) "--copy-wheel requires --wheel"
  check_wheel (some wheel) spec copy_wheel = do
    require (exists (expanduser wheel)) "wheel does not exist"
    require (spec == default_package_spec) "--package-spec cannot be combined with --wheel"

-- `run` is the command runner, on the state of the hosts.
module _ (expanduser : FilePath → FilePath) (render : FilePath → String) {S : Type 0}
    (run : List String → ℤ → String → S → Completed × S) (config : WorkerBootstrapConfig)
    (execute : Bool) where
  -- Each target in its turn, whatever the result of the one before.
  unfoldable pub bootstrap_targets : List String → S → List WorkerBootstrapResult × S
  unfolding run_worker_bootstrap
  bootstrap_targets [] s = ([], s)
  bootstrap_targets (target ∷ targets) s =
      let (result, s₁) =
        run_worker_bootstrap expanduser render (record config { target = target }) run execute s in
      let (results, s₂) = bootstrap_targets targets s₁ in (result ∷ results, s₂)

  module _ (exists : FilePath → Bool) (strip : String → String) where
    abbrev pub reported : List WorkerBootstrapResult × S → Result String Report × S
    reported (results, s) = (ok (report strip results), s)

    abbrev pub checked : Result String (Unit {0}) → List String → S → Result String Report × S
    checked (err message) targets s = (err message, s)
    checked (ok _) targets s = reported (bootstrap_targets (or_local targets) s)

    unfoldable pub doctor_worker_bootstrap : List String → S → Result String Report × S
    doctor_worker_bootstrap targets =
        checked
          (check_wheel expanduser exists config.package_wheel config.package_spec config.copy_wheel)
          targets
