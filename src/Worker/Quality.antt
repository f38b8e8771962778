-- ===== src/Worker/Quality.antt =====
-- The quality report of mediaorchard/worker/real_media_smoke.py.
use media_orchard.Prelude.{
  String, Bool, false, not, Option, none, some, List, [], ◌∷◌, ◌++◌, map, ◌==◌, if◌then◌else◌, all,
  any,
}
use media_orchard.Prelude.Json.{Fields, bool, str, arr, obj, nil, end, field}
use media_orchard.Worker.Machine.{Machine, FilePath, ◌/◌}

-- The files that build_quality_report asks for, by the names of the checks.
abbrev pub artifacts : List (String × String)
artifacts =
    ("input_meta_json_exists", "input_meta.json")
    ∷ ("audio_wav_exists", "audio.wav")
    ∷ ("transcript_txt_exists", "transcript.txt")
    ∷ ("transcript_json_exists", "transcript.json")
    ∷ ("subtitle_srt_exists", "subtitle.srt")
    ∷ []

abbrev pub check_fields : {F : Type 0} → List (String × Bool) → Fields F
check_fields [] = end
check_fields ((check, passed) ∷ checks) = field check (bool passed) (check_fields checks)

-- all(checks.values())
unfoldable pub all_passed : List (String × Bool) → Bool
all_passed checks = all (λ (check, passed). passed) checks

-- "passed" if all(checks.values()) else "failed"
abbrev pub quality_status : List (String × Bool) → String
quality_status checks = if all_passed checks then "passed" else "failed"

unfoldable pub build_quality_report : {F : Type 0} → List (String × Bool) → Fields F
unfolding all_passed
build_quality_report checks = field "status" (str (quality_status checks)) (
    field "checks" (obj (check_fields checks))
      (field "warnings" (arr nil) (field "recommendations" (arr nil) end)))

-- Whether a file is there and is not empty.
abbrev pub has_content : Option String → Bool
has_content none = false
has_content (some content) = not (content == "")

module _ {F S : Type 0} (m : Machine F S) where
  -- _non_empty
  unfoldable pub non_empty : FilePath → S → Bool
  non_empty p s = has_content (m.read p s)

  -- logs_dir.is_dir() and any(path.is_file() and path.stat().st_size > 0 for path in logs_dir.iterdir())
  unfoldable pub has_logs : FilePath → S → Bool
  unfolding non_empty
  has_logs dir s = elim (m.entries dir s) [
    | none ↦ false
    | some paths ↦ any (λ p. non_empty p s) paths
  ]

  -- `checks`
  unfoldable pub quality_checks : FilePath → S → List (String × Bool)
  unfolding non_empty has_logs
  quality_checks dir s =
      map (λ (check, name). (check, non_empty (dir / name) s)) artifacts
      ++ (("logs_exist", has_logs (dir / "logs") s) ∷ [])
