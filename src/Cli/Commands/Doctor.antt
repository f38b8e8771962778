-- ===== src/Cli/Commands/Doctor.antt =====
-- When `doctor worker` exits with 0.
use media_orchard.Prelude.{
  String, ◌≡◌, refl, ◌↔◌, inl, inr, Bool, true, false, not, ◌&&◌, some, List, [], ◌∷◌, all, All,
  Bool-cases, Option-cases, and-true,
}
use media_orchard.Prelude.Results.{ok}
use media_orchard.Worker.Machine.{FilePath}
use media_orchard.Worker.Preflight.{Host, WorkerPreflightConfig, all_ok}
use media_orchard.Worker.Preflight.Fitness.{IsFit, all_ok_iff}
use media_orchard.Cli.Hosts.{or_local}
use media_orchard.Cli.Commands.{is_missing, checks_of, all_lines, doctor_worker}

-- A value for the marker comes with a marker.
abbrev pub HasBoth : WorkerPreflightConfig → Type 0
HasBoth options =
    (value : String)
    → options.shared_root_marker_value ≡ some value
    → (marker : FilePath) × (options.shared_root_marker ≡ some marker)

module _ (host : Host) (options : WorkerPreflightConfig) where
  -- What the command finds out about all targets.
  abbrev all_pass : List String → Bool
  all_pass targets = all (λ target. all_ok (checks_of host options target)) targets

  abbrev AllFit : List String → Type 0
  AllFit = All (λ target. IsFit host (record options { target = target }))

  all_pass-AllFit : (targets : List String) → all_pass targets ≡ true → AllFit targets
  all_pass-AllFit [] h = tt
  all_pass-AllFit (target ∷ targets) h =
      let (first, rest) = and-true _ _ h in
      ((all_ok_iff host (record options { target = target })).0 first, all_pass-AllFit targets rest)

  AllFit-all_pass : (targets : List String) → AllFit targets → all_pass targets ≡ true
  AllFit-all_pass [] h = refl
  AllFit-all_pass (target ∷ targets) (first, rest) =
      rw
        (
          (all_ok_iff host (record options { target = target })).1 first,
          AllFit-all_pass targets rest,
        )
        refl

  abbrev lacks_marker : Bool
  lacks_marker =
      not (is_missing options.shared_root_marker_value) && is_missing options.shared_root_marker

  HasBoth-lacks : HasBoth options → lacks_marker ≡ false
  HasBoth-lacks both = elim (Option-cases options.shared_root_marker_value) [
    | inl e ↦ rw e refl
    | inr (value, e) ↦ let (marker, e') = both value e in rw (e, e') refl
  ]

  lacks-HasBoth : lacks_marker ≡ false → HasBoth options
  lacks-HasBoth h value e = elim (Option-cases options.shared_root_marker) [
    | inl e' ↦ cc (rw (e, e') at h)
    | inr m ↦ m
  ]

  -- The command exits with 0 exactly if a value for the marker comes with a marker, and on every
  -- target, or this host if none is given, these scripts end with 0: the runtime's Python prints its
  -- version, which is at least 3.11; `command -v` finds ffmpeg and ffprobe; the Python for Whisper
  -- imports mlx_whisper; `test -d` finds the shared root; and `cat` shows the marker, if one is
  -- given, which has its value, if one is given.
  pub doctor_worker_iff :
      (targets : List String)
      → ((lines : List String) × (doctor_worker host options targets ≡ ok (lines, 0))) ↔ (
          HasBoth options
          × All (λ target. IsFit host (record options { target = target })) (or_local targets))
  unfolding doctor_worker
  doctor_worker_iff targets = (
    λ (lines, h). elim (Bool-cases lacks_marker) [
      | inl lacking ↦ cc (rw lacking at h)
      | inr both ↦ (
        lacks-HasBoth both,
        all_pass-AllFit (or_local targets) (elim (Bool-cases (all_pass (or_local targets))) [
          | inl pass ↦ pass
          | inr fail ↦ cc (rw (both, fail) at h)
        ]),
      )
    ],
    λ (both, fit). (
      all_lines host options (or_local targets),
      rw (HasBoth-lacks both, AllFit-all_pass (or_local targets) fit) refl,
    ),
  )
