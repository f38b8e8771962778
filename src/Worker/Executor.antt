-- ===== src/Worker/Executor.antt =====
-- The argv builders of mediaorchard/worker/executor.py: each returns the command or an error, and
-- the directories that it made.
pub mod Confinement
use media_orchard.Prelude.{String, none, some, List, [], ◌∷◌, ◌==◌, if◌then◌else◌}
use media_orchard.Prelude.Results.{Result, ok, err, ◌>>=◌, ◌>>◌, require}
use media_orchard.Prelude.Json.{Fields, null, str, get}
use media_orchard.Shared.Paths.{AbsPath, FileSystem, PathError, resolve_allowlisted_path}

pub record ToolExecutionContext : Type 0 where
  pub job_id : String
  pub step_id : String
  pub node_id : String
  pub shared_root : String
  pub work_dir : String
  pub output_dir : String
  pub log_dir : String

-- The messages of `ToolExecutionError`.
pub data ToolError : Type 0 where
  missing_argument : String → ToolError
  bad_path : PathError → ToolError
  no_input : AbsPath → ToolError
  bad_language : ToolError

-- The tools of `build_default_command_tools`.
pub data Tool : Type 0 where
  probe_media extract_audio transcribe_audio : Tool

abbrev pub Build : Type 0
Build = Result ToolError (List String) × List AbsPath

abbrev in_path : {A : Type 0} → Result PathError A → Result ToolError A
in_path (ok a) = ok a
in_path (err e) = err (bad_path e)

-- path.parent
abbrev pub parent : AbsPath → AbsPath
parent [] = []
parent (p ∷ []) = []
parent (p ∷ q ∷ qs) = p ∷ parent (q ∷ qs)

unfoldable pub required_str : {F : Type 0} → Fields F → String → Result ToolError String
required_str args key = elim (get key args) [
  | none ↦ err (missing_argument key)
  | some (str s) ↦ if s == "" then err (missing_argument key) else ok s
  | some _ ↦ err (missing_argument key)
]

-- `None` and "" are "auto".
unfoldable pub language_of : {F : Type 0} → Fields F → Result ToolError String
language_of args = elim (get "language" args) [
  | none ↦ ok "auto"
  | some null ↦ ok "auto"
  | some (str s) ↦ if s == "" then ok "auto" else ok s
  | some _ ↦ err bad_language
]

module _ (fs : FileSystem) where
  -- What _resolve_input and _resolve_intermediate share: an allowlisted path that exists.
  unfoldable pub resolve_existing : List String → String → Result ToolError AbsPath
  resolve_existing roots path = in_path (resolve_allowlisted_path fs path roots) >>= λ resolved.
      require (fs.exists resolved) (no_input resolved) >> ok resolved

  unfoldable pub resolve_output : ToolExecutionContext → String → Result ToolError AbsPath
  resolve_output context path =
      in_path (resolve_allowlisted_path fs path (context.work_dir ∷ context.output_dir ∷ []))

  module _ {F : Type 0} (args : Fields F) (context : ToolExecutionContext) where
    abbrev pub input : String → List String → Result ToolError AbsPath
    input key roots = required_str args key >>= resolve_existing roots

    abbrev pub output : String → Result ToolError AbsPath
    output key = required_str args key >>= resolve_output context

    abbrev probe_command : AbsPath → List String
    probe_command path =
        "ffprobe"
        ∷ "-v"
        ∷ "error"
        ∷ "-print_format"
        ∷ "json"
        ∷ "-show_format"
        ∷ "-show_streams"
        ∷ fs.render path
        ∷ []

    abbrev extract_command : AbsPath → AbsPath → List String
    extract_command path audio =
        "ffmpeg"
        ∷ "-y"
        ∷ "-i"
        ∷ fs.render path
        ∷ "-vn"
        ∷ "-ac"
        ∷ "1"
        ∷ "-ar"
        ∷ "16000"
        ∷ fs.render audio
        ∷ []

    abbrev transcribe_command : AbsPath → AbsPath → String → List String
    transcribe_command audio dir language =
        "mlx-whisper"
        ∷ fs.render audio
        ∷ "--language"
        ∷ language
        ∷ "--output-dir"
        ∷ fs.render dir
        ∷ []

    unfoldable pub build_argv : Tool → Build
    build_argv probe_media =
        (input "input_file" (context.shared_root ∷ []) >>= λ path. ok (probe_command path), [])
    build_argv extract_audio = elim (input "input_file" (context.shared_root ∷ [])) [
      | err e ↦ (err e, [])
      | ok path ↦ elim (output "output_audio") [
        | err e ↦ (err e, [])
        | ok audio ↦ (ok (extract_command path audio), parent audio ∷ [])
      ]
    ]
    build_argv transcribe_audio =
        elim (input "audio_file" (context.shared_root ∷ context.work_dir ∷ [])) [
          | err e ↦ (err e, [])
          | ok audio ↦ elim (output "transcript_dir") [
            | err e ↦ (err e, [])
            | ok dir ↦ (
              language_of args >>= λ language. ok (transcribe_command audio dir language),
              parent dir ∷ dir ∷ [],
            )
          ]
        ]
