-- ===== src/Worker/Executor/Confinement.antt =====
-- Which files the commands of the default tools may name.
use media_orchard.Prelude.{
  String, ◌≡◌, refl, subst, inl, inr, Bool, true, false, List, [], ◌∷◌, map, arith, Any,
}
use media_orchard.Prelude.Results.{Result-cases, Result, ok, err, >>=-eq-ok}
use media_orchard.Prelude.Json.{Fields}
use media_orchard.Shared.Texts.{has_text}
use media_orchard.Shared.Paths.{AbsPath, FileSystem, resolve_allowlisted_path}
use media_orchard.Shared.Paths.Safety.{IsBelow, resolve_allowlisted_path_iff}
use media_orchard.Worker.Executor.{
  ToolExecutionContext, Tool, probe_media, extract_audio, transcribe_audio, in_path, required_str,
  language_of, resolve_existing, resolve_output, input, output, build_argv,
}

-- How a program reads its arguments: which options stand alone, which take a value, which take a file
-- to read or to write, and whether what is no option is read or written.
pub record Syntax : Type 0 where
  pub flags : List String
  pub settings : List String
  pub inputs : List String
  pub outputs : List String
  pub operands_are_read : Bool

-- These arguments make a program read the first files and write the second.
pub data Opens (x : Syntax) : List String → List String → List String → Type 0 where
  no_more : Opens x [] [] []
  flag :
      {o : String} {args reads writes : List String}
      → has_text o x.flags ≡ true
      → Opens x args reads writes
      → Opens x (o ∷ args) reads writes
  setting :
      {o value : String} {args reads writes : List String}
      → has_text o x.settings ≡ true
      → Opens x args reads writes
      → Opens x (o ∷ value ∷ args) reads writes
  read_option :
      {o file : String} {args reads writes : List String}
      → has_text o x.inputs ≡ true
      → Opens x args reads writes
      → Opens x (o ∷ file ∷ args) (file ∷ reads) writes
  write_option :
      {o file : String} {args reads writes : List String}
      → has_text o x.outputs ≡ true
      → Opens x args reads writes
      → Opens x (o ∷ file ∷ args) reads (file ∷ writes)
  read_operand :
      {file : String} {args reads writes : List String}
      → x.operands_are_read ≡ true
      → Opens x args reads writes
      → Opens x (file ∷ args) (file ∷ reads) writes
  write_operand :
      {file : String} {args reads writes : List String}
      → x.operands_are_read ≡ false
      → Opens x args reads writes
      → Opens x (file ∷ args) reads (file ∷ writes)

-- What the programs' manuals say of the options that the code uses.
abbrev pub ffprobe : Syntax
ffprobe = record {
  flags = "-show_format" ∷ "-show_streams" ∷ [];
  settings = "-v" ∷ "-print_format" ∷ [];
  inputs = "-i" ∷ [];
  outputs = [];
  operands_are_read = true;
}

abbrev pub ffmpeg : Syntax
ffmpeg = record {
  flags = "-y" ∷ "-vn" ∷ [];
  settings = "-ac" ∷ "-ar" ∷ [];
  inputs = "-i" ∷ [];
  outputs = [];
  operands_are_read = false;
}

abbrev pub mlx_whisper : Syntax
mlx_whisper = record {
  flags = [];
  settings = "--language" ∷ [];
  inputs = [];
  outputs = "--output-dir" ∷ [];
  operands_are_read = true;
}

in_path-ok : {A : Type 0} (r : Result _ A) {a : A} → in_path r ≡ ok a → r ≡ ok a
in_path-ok (ok a) h = cc
in_path-ok (err e) h = cc

ok-path : {E A : Type 0} (r : Result E A) {c d : A} → r ≡ ok c → r ≡ ok d → c ≡ d
ok-path r h k = cc

module _ (fs : FileSystem) where
  -- The path lies in or below one of the roots.
  abbrev pub IsAllowed : List String → AbsPath → Type 0
  IsAllowed roots p = Any (λ root. IsBelow root p) (map fs.resolve roots)

  allowed :
      (roots : List String) (path : String) (p : AbsPath)
      → resolve_allowlisted_path fs path roots ≡ ok p
      → IsAllowed roots p
  allowed roots path p h =
      let (e, a) = (resolve_allowlisted_path_iff fs path roots p).0 h in subst (IsAllowed roots) e a

  module _ {F : Type 0} (args : Fields F) (context : ToolExecutionContext) where
    input-IsAllowed :
        (key : String) (roots : List String) (p : AbsPath)
        → input fs args context key roots ≡ ok p
        → IsAllowed roots p × (fs.exists p ≡ true)
    unfolding resolve_existing
    input-IsAllowed key roots p h =
        let (path, _, h₁) = >>=-eq-ok (required_str args key) _ h in
        let (q, r, h₂) = >>=-eq-ok (in_path (resolve_allowlisted_path fs path roots)) _ h₁ in
        let same : q ≡ p = ground arith in
        let there_is : fs.exists q ≡ true = ground arith in
        (
          subst (IsAllowed roots) same (allowed roots path q (in_path-ok _ r)),
          subst (λ x. fs.exists x ≡ true) same there_is,
        )

    output-IsAllowed :
        (key : String) (p : AbsPath)
        → output fs args context key ≡ ok p
        → IsAllowed (context.work_dir ∷ context.output_dir ∷ []) p
    unfolding resolve_output
    output-IsAllowed key p h =
        let (path, _, h₁) = >>=-eq-ok (required_str args key) _ h in
        allowed _ path p (in_path-ok _ h₁)

    -- The command of a tool: the program, and the one file that it reads and what it writes, if
    -- anything, with where these are.
    pub data IsConfined : Tool → List String → Type 0 where
      probes :
          (path : AbsPath) (arguments : List String)
          → Opens ffprobe arguments (fs.render path ∷ []) []
          → IsAllowed (context.shared_root ∷ []) path × (fs.exists path ≡ true)
          → IsConfined probe_media ("ffprobe" ∷ arguments)
      extracts :
          (path audio : AbsPath) (arguments : List String)
          → Opens ffmpeg arguments (fs.render path ∷ []) (fs.render audio ∷ [])
          → IsAllowed (context.shared_root ∷ []) path × (fs.exists path ≡ true)
          → IsAllowed (context.work_dir ∷ context.output_dir ∷ []) audio
          → IsConfined extract_audio ("ffmpeg" ∷ arguments)
      transcribes :
          (audio dir : AbsPath) (arguments : List String)
          → Opens mlx_whisper arguments (fs.render audio ∷ []) (fs.render dir ∷ [])
          → IsAllowed (context.shared_root ∷ context.work_dir ∷ []) audio × (fs.exists audio ≡ true)
          → IsAllowed (context.work_dir ∷ context.output_dir ∷ []) dir
          → IsConfined transcribe_audio ("mlx-whisper" ∷ arguments)

    confined :
        (tool : Tool) (c argv : List String) → IsConfined tool c → c ≡ argv → IsConfined tool argv
    confined tool c argv i e = subst (IsConfined tool) e i

    -- A command that a default tool builds runs the tool's program with arguments that make it read
    -- one file, an existing one in or below the shared root, or for a transcription the work
    -- directory, and write nothing for a probe, and else one file or directory, in or below the work
    -- or output directory.
    pub build_argv-IsConfined :
        (tool : Tool) (argv : List String)
        → (build_argv fs args context tool).0 ≡ ok argv
        → IsConfined tool argv
    unfolding build_argv
    build_argv-IsConfined probe_media argv h =
        let (path, i, e) =
          >>=-eq-ok (input fs args context "input_file" (context.shared_root ∷ [])) _ h in
        confined _ _ argv
          (probes path _
            (setting refl (setting refl (flag refl (flag refl (read_operand refl no_more)))))
            (input-IsAllowed _ _ path i))
          (ok-path _ refl e)
    build_argv-IsConfined extract_audio argv h =
        elim (Result-cases (input fs args context "input_file" (context.shared_root ∷ []))) [
          | inl (e, i) ↦ let h' = rw (i, build_argv) at h in cc
          | inr (path, i) ↦ elim (Result-cases (output fs args context "output_audio")) [
            | inl (e, o) ↦ let h' = rw (i, o, build_argv) at h in cc
            | inr (audio, o) ↦
                let h' = rw (i, o, build_argv) at h in
                confined _ _ argv
                  (extracts path audio _
                    (flag refl (
                      read_option refl
                        (flag refl (setting refl (setting refl (write_operand refl no_more))))))
                    (input-IsAllowed _ _ path i) (output-IsAllowed _ audio o))
                  (ok-path _ refl h')
          ]
        ]
    build_argv-IsConfined transcribe_audio argv h =
        elim (Result-cases
          (input fs args context "audio_file" (context.shared_root ∷ context.work_dir ∷ []))) [
            | inl (e, i) ↦ let h' = rw (i, build_argv) at h in cc
            | inr (audio, i) ↦ elim (Result-cases (output fs args context "transcript_dir")) [
              | inl (e, o) ↦ let h' = rw (i, o, build_argv) at h in cc
              | inr (dir, o) ↦
                  let h' = rw (i, o, build_argv) at h in
                  let (language, _, e) = >>=-eq-ok (language_of args) _ h' in
                  confined _ _ argv
                    (transcribes audio dir _
                      (read_operand refl (setting refl (write_option refl no_more)))
                      (input-IsAllowed _ _ audio i) (output-IsAllowed _ dir o))
                    (ok-path _ refl e)
            ]
          ]
