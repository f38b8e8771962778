-- ===== src/Worker/Preflight/Fitness.antt =====
-- When the checks of mediaorchard/worker/preflight.py all pass.
use media_orchard.Prelude.{
  String, ◌≡◌, refl, subst, ◌∙◌, List, ◌↔◌, ◌⊎◌, inl, inr, Bool, true, false, ◌&&◌, ◌||◌, some, [],
  ◌∷◌, arith, eq_iff, Bool-cases, Option-cases, and-true,
}
use media_orchard.Prelude.Int.{ℤ, pos, int_eq, ltb_ℤ, leb_ℤ}
use media_orchard.Shared.Texts.{concat, split_on}
use media_orchard.Worker.Machine.{FilePath}
use media_orchard.Worker.Shell.{quote}
use media_orchard.Worker.Preflight.{
  Host, WorkerPreflightConfig, probe, succeeded, parse_version, is_supported_version, check_script,
  version_script, check_python_version, check_command, check_mlx_whisper, check_shared_root,
  resolve_marker_path, check_shared_root_marker, run_worker_preflight, all_ok,
}

or-and-true : (a b c : Bool) → ((a || (b && c)) ≡ true) ↔ ((a ≡ true) ⊎ ((b ≡ true) × (c ≡ true)))
or-and-true true b c = (λ h. inl refl, λ h. refl)
or-and-true false b c = (λ h. inr (and-true b c h), λ h. ground arith)

parts-cases :
    (parts : List String)
    → (parts ≡ [])
      ⊎ (((a : String) × (parts ≡ a ∷ []))
          ⊎ ((a : String) × (b : String) × (rest : List String) × (parts ≡ a ∷ b ∷ rest)))
parts-cases [] = inl refl
parts-cases (a ∷ []) = inr (inl (a, refl))
parts-cases (a ∷ b ∷ rest) = inr (inr (a, b, rest, refl))

-- A text of a major and a minor version between dots, and perhaps more.
pub record IsVersion (host : Host) (text : String) (major minor : ℤ) : Type 0 where
  pub first : String
  pub second : String
  pub rest : List String
  pub parts : split_on b'.' text ≡ first ∷ second ∷ rest
  pub major_read : host.int_of first ≡ some major
  pub minor_read : host.int_of second ≡ some minor

module _ (host : Host) (text : String) (major minor : ℤ) where
  IsVersion-parsed : IsVersion host text major minor → parse_version host text ≡ some (major, minor)
  unfolding parse_version
  IsVersion-parsed v = rw (parse_version, v.parts, v.major_read, v.minor_read) refl

  parsed-IsVersion : parse_version host text ≡ some (major, minor) → IsVersion host text major minor
  unfolding parse_version
  parsed-IsVersion h = elim (parts-cases (split_on b'.' text)) [
    | inl e ↦ cc (rw (parse_version, e) at h)
    | inr (inl (a, e)) ↦ cc (rw (parse_version, e) at h)
    | inr (inr (a, b, rest, e)) ↦ elim (Option-cases (host.int_of a)) [
      | inl u ↦ cc (rw (parse_version, e, u) at h)
      | inr (x, u) ↦ elim (Option-cases (host.int_of b)) [
        | inl w ↦ cc (rw (parse_version, e, u, w) at h)
        | inr (y, w) ↦
            let h' = rw (parse_version, e, u, w) at h in
            record {
              first = a;
              second = b;
              rest = rest;
              parts = e;
              major_read = u ∙ ground arith;
              minor_read = w ∙ ground arith;
            }
      ]
    ]
  ]

module _ (host : Host) (config : WorkerPreflightConfig) where
  -- On the target this script ends with 0.
  abbrev Succeeds : String → Type 0
  Succeeds script = succeeded host (probe host config script) ≡ true

  abbrev printed : String → String
  printed script = host.strip (probe host config script).stdout

  -- This Python gets a program as its standard input.
  abbrev fed : String → String → String
  fed python program = concat (python ∷ " - <<'PY'\n" ∷ program ∷ "\nPY" ∷ [])

  -- The program that prints the version of the Python that runs it.
  abbrev version_program : String
  version_program =
      "import sys\nprint(f'{sys.version_info.major}.{sys.version_info.minor}.{sys.version_info.micro}')"

  -- The target's Python prints a version, of at least 3.11.
  pub record IsRecent (python : String) : Type 0 where
    pub ran : Succeeds (fed python version_program)
    pub major : ℤ
    pub minor : ℤ
    pub printed_version : IsVersion host (printed (fed python version_program)) major minor
    pub at_least :
        (ltb_ℤ (pos 3) major ≡ true)
        ⊎ ((int_eq major (pos 3) ≡ true) × (leb_ℤ (pos 11) minor ≡ true))

  -- Where a marker is: in the shared root, unless its own path is absolute.
  pub data IsAt (marker path : FilePath) : Type 0 where
    absolute :
        host.is_absolute (host.expanduser marker) ≡ true
        → path ≡ host.expanduser marker
        → IsAt marker path
    in_root :
        host.is_absolute (host.expanduser marker) ≡ false
        → path ≡ host.join_paths (host.expanduser config.shared_root) (host.expanduser marker)
        → IsAt marker path

  abbrev shown : FilePath → String
  shown path = concat ("cat " ∷ quote (host.render path) ∷ [])

  -- The marker can be shown, and if a value is asked for, it is the marker's.
  pub record HasMarker (marker : FilePath) : Type 0 where
    pub path : FilePath
    pub place : IsAt marker path
    pub ran : Succeeds (shown path)
    pub same :
        (value : String)
        → config.shared_root_marker_value ≡ some value
        → printed (shown path) ≡ value

  -- What is asked of the target: that these scripts end with 0 there, and what two of them print.
  pub record IsFit : Type 0 where
    pub python : IsRecent (quote config.runtime_python_executable)
    pub ffmpeg : Succeeds "command -v ffmpeg"
    pub ffprobe : Succeeds "command -v ffprobe"
    pub whisper : Succeeds (
        fed
          (quote config.whisper_python_executable)
          "import mlx_whisper\nprint(getattr(mlx_whisper, '__version__', 'present'))")
    pub shared_root :
        let root = quote (host.render (host.expanduser config.shared_root)) in
        Succeeds (concat ("test -d " ∷ root ∷ " && printf '%s\\n' " ∷ root ∷ []))
    pub marker : (marker : FilePath) → config.shared_root_marker ≡ some marker → HasMarker marker

  supported_iff :
      (major minor : ℤ)
      → (is_supported_version major minor ≡ true) ↔ (
          (ltb_ℤ (pos 3) major ≡ true)
          ⊎ ((int_eq major (pos 3) ≡ true) × (leb_ℤ (pos 11) minor ≡ true)))
  unfolding is_supported_version
  supported_iff major minor = or-and-true _ _ _

  module _ (python : String) where
    IsRecent-ok : IsRecent python → (check_python_version host config python).is_ok ≡ true
    unfolding check_python_version
    IsRecent-ok recent =
        rw (recent.ran, IsVersion-parsed host _ _ _ recent.printed_version)
          ((supported_iff recent.major recent.minor).1 recent.at_least)

    ok-IsRecent : (check_python_version host config python).is_ok ≡ true → IsRecent python
    unfolding check_python_version
    ok-IsRecent h =
        elim (Bool-cases (succeeded host (probe host config (version_script host config python)))) [
          | inl ran ↦
              elim (Option-cases
                (parse_version host (printed (version_script host config python)))) [
                  | inl unreadable ↦ cc (rw (ran, unreadable) at h)
                  | inr ((major, minor), read) ↦ record {
                    ran = ran;
                    major = major;
                    minor = minor;
                    printed_version = parsed-IsVersion host _ major minor read;
                    at_least = (supported_iff major minor).0 (rw (ran, read) at h);
                  }
                ]
          | inr failed ↦ cc (rw failed at h)
        ]

  module _ (marker : FilePath) where
    abbrev marker_path : String
    marker_path = quote (host.render (resolve_marker_path host config config.shared_root marker))

    IsAt-resolved :
        (path : FilePath)
        → IsAt marker path
        → path ≡ resolve_marker_path host config config.shared_root marker
    unfolding resolve_marker_path
    IsAt-resolved path (absolute a e) = rw a e
    IsAt-resolved path (in_root a e) = rw a e

    resolved-IsAt : IsAt marker (resolve_marker_path host config config.shared_root marker)
    unfolding resolve_marker_path
    resolved-IsAt = elim (Bool-cases (host.is_absolute (host.expanduser marker))) [
      | inl a ↦ absolute a (rw a refl)
      | inr a ↦ in_root a (rw a refl)
    ]

    marker-ok :
        Succeeds (shown (resolve_marker_path host config config.shared_root marker))
        → ((value : String)
            → config.shared_root_marker_value ≡ some value
            → printed (shown (resolve_marker_path host config config.shared_root marker)) ≡ value)
        → (check_shared_root_marker host config marker_path).is_ok ≡ true
    unfolding check_shared_root_marker
    marker-ok ran same = elim (Option-cases config.shared_root_marker_value) [
      | inl e ↦ rw (ran, e) refl
      | inr (value, e) ↦ simp (ran, e, (eq_iff _ value).1 (same value e))
    ]

    HasMarker-ok :
        HasMarker marker → (check_shared_root_marker host config marker_path).is_ok ≡ true
    HasMarker-ok has =
        let e = IsAt-resolved has.path has.place in
        marker-ok (subst (λ p. Succeeds (shown p)) e has.ran)
          (λ value v. subst (λ p. printed (shown p) ≡ value) e (has.same value v))

    ok-HasMarker :
        (check_shared_root_marker host config marker_path).is_ok ≡ true → HasMarker marker
    unfolding check_shared_root_marker
    ok-HasMarker h =
        elim (Bool-cases
          (succeeded host (probe host config (concat ("cat " ∷ marker_path ∷ []))))) [
            | inl ran ↦ record {
              path = resolve_marker_path host config config.shared_root marker;
              place = resolved-IsAt;
              ran = ran;
              same = λ value e.
                  let h' = rw (ran, e) at h in
                  ground (arith, eq_iff (printed (concat ("cat " ∷ marker_path ∷ []))) value);
            }
            | inr failed ↦ cc (rw failed at h)
          ]

  ok-IsFit : all_ok (run_worker_preflight host config) ≡ true → IsFit
  unfolding all_ok run_worker_preflight check_command check_mlx_whisper check_shared_root
      check_script
  ok-IsFit h =
      let (recent, h₁) = and-true _ _ h in
      let (ffmpeg, h₂) = and-true _ _ h₁ in
      let (ffprobe, h₃) = and-true _ _ h₂ in
      let (whisper, h₄) = and-true _ _ h₃ in
      let (root, h₅) = and-true _ _ h₄ in
      record {
        python = ok-IsRecent _ recent;
        ffmpeg = ffmpeg;
        ffprobe = ffprobe;
        whisper = whisper;
        shared_root = root;
        marker = λ marker e. ok-HasMarker marker (and-true _ _ (rw e at h₅)).0;
      }

  IsFit-ok : IsFit → all_ok (run_worker_preflight host config) ≡ true
  unfolding all_ok run_worker_preflight check_command check_mlx_whisper check_shared_root
      check_script
  IsFit-ok fit =
      rw (IsRecent-ok _ fit.python, fit.ffmpeg, fit.ffprobe, fit.whisper, fit.shared_root)
        (elim (Option-cases config.shared_root_marker) [
          | inl e ↦ rw e refl
          | inr (marker, e) ↦ rw (e, HasMarker-ok marker (fit.marker marker e)) refl
        ])

  -- The checks of a target all pass exactly if it is fit.
  pub all_ok_iff : (all_ok (run_worker_preflight host config) ≡ true) ↔ IsFit
  all_ok_iff = (ok-IsFit, IsFit-ok)
