-- ===== src/Worker/Commands.antt =====
-- The commands of mediaorchard/worker/real_media_smoke.py.
use media_orchard.Prelude.{String, List, [], ◌∷◌, if◌then◌else◌}
use media_orchard.Prelude.Actions.{Action, pure, raise, ◌>>◌}
use media_orchard.Prelude.Int.{ℤ, pos, int_eq}
use media_orchard.Shared.Texts.{concat}
use media_orchard.Worker.Machine.{
  Machine, FilePath, ◌/◌, exited, timed_out, stream_text, write_text,
}

-- The keyword arguments that the real pipeline alone has.
pub record Tools : Type 0 where
  pub python_executable : String
  pub whisper_model : String
  pub timeout_seconds : ℤ

-- _TRANSCRIBE_CODE
abbrev pub transcribe_code : String
transcribe_code = concat (
    "\n" ∷ "import json\n" ∷ "import sys\n" ∷ "import mlx_whisper\n" ∷ "\n"
    ∷ "audio_path, output_path, model = sys.argv[1:4]\n"
    ∷ "language = sys.argv[4] if len(sys.argv) > 4 else \"en\"\n" ∷ "if language == \"auto\":\n"
    ∷ "    language = None\n" ∷ "result = mlx_whisper.transcribe(\n" ∷ "    audio_path,\n"
    ∷ "    path_or_hf_repo=model,\n" ∷ "    verbose=False,\n" ∷ "    language=language,\n" ∷ ")\n"
    ∷ "with open(output_path, \"w\") as f:\n" ∷ "    json.dump(result, f, indent=2)\n" ∷ [])

module _ {F S : Type 0} (m : Machine F S) (tools : Tools) where
  -- _run_command: the `stdout` of a command that has ended with 0
  unfoldable pub run_command : String → List String → FilePath → Action S String
  run_command name argv logs s = elim (m.run argv tools.timeout_seconds s).0 [
    | timed_out stdout stderr ↦
        (write_text m (logs / concat (name ∷ ".stdout.log" ∷ [])) (stream_text m stdout)
            >> write_text m (logs / concat (name ∷ ".stderr.log" ∷ [])) (
                concat (
                  stream_text m stderr
                  ∷ "command timed out after "
                  ∷ m.int_text tools.timeout_seconds
                  ∷ " seconds\n"
                  ∷ []))
            >> raise (
                concat (
                  name ∷ " timed out after " ∷ m.int_text tools.timeout_seconds ∷ " seconds" ∷ [])))
          (m.run argv tools.timeout_seconds s).1
    | exited code stdout stderr ↦
        (write_text m (logs / concat (name ∷ ".stdout.log" ∷ [])) stdout
            >> write_text m (logs / concat (name ∷ ".stderr.log" ∷ [])) stderr
            >> (if int_eq code (pos 0)
                then pure stdout
                else raise (concat (name ∷ " failed with exit code " ∷ m.int_text code ∷ []))))
          (m.run argv tools.timeout_seconds s).1
  ]
