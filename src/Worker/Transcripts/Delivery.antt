-- ===== src/Worker/Transcripts/Delivery.antt =====
-- What is on the disk when the output has been judged.
use media_orchard.Prelude.{
  String, ◌≡◌, refl, ap, ◌∙◌, subst, inl, inr, Bool, true, false, some, List, [], ◌∷◌, ◌++◌, map,
  arith, ◌==◌, eq_iff, Bool-cases, and-true, all, All,
}
use media_orchard.Prelude.Actions.{returning, Action, Always, Always-last, guarded}
use media_orchard.Prelude.Floats.{Floats}
use media_orchard.Shared.Texts.{concat, has_text, apart, All-members}
use media_orchard.Worker.Srt.{stripped_text}
use media_orchard.Worker.Machine.{Machine, KeepsFiles, FilePath, ◌/◌, name_of, write_json}
use media_orchard.Worker.Machine.Frames.{
  Keeps, Leaves, Leaves-first, Keeps-write_text, Leaves-write_text, keeps_rules,
}
use media_orchard.Worker.Transcripts.{
  Target, read_payload, write_transcript, write_human_report, report_and_judge, publish,
}
use media_orchard.Worker.Quality.{
  artifacts, all_passed, build_quality_report, has_content, non_empty, has_logs, quality_checks,
}

abbrev pub artifact_names : List String
artifact_names = map (λ (check, name). name) artifacts

-- Each file that the quality report asks for has content, and the report on the disk is that of
-- these checks, which have all passed.
pub record IsDelivered {F S : Type 0} (m : Machine F S) (dir : FilePath)
    (checks : List (String × Bool)) (s : S) : Type 0 where
  pub files : All (λ name. non_empty m (dir / name) s ≡ true) artifact_names
  pub passed : all_passed checks ≡ true
  pub reported :
      m.read (dir / "quality_report.json") s
      ≡ some (concat (m.dumps (build_quality_report checks) ∷ "\n" ∷ []))

-- The result is made of a transcript and of checks that are delivered.
unfoldable pub HasPublished :
    {F S A : Type 0} → Machine F S → FilePath → (String → List (String × Bool) → A) → A → S → Type 0
HasPublished m dir result r s =
    (text : String) × (checks : List (String × Bool)) × (r ≡ result text checks)
    × IsDelivered m dir checks s

-- Checks that have all passed, one by one.
all-named :
    (f : String → Bool) (named : List (String × String)) (more : List (String × Bool))
    → all (λ (check, passed). passed) (map (λ (check, name). (check, f name)) named ++ more) ≡ true
    → (name : String) → has_text name (map (λ (check, name). name) named) ≡ true
    → f name ≡ true
all-named f [] more h name n = cc
all-named f ((check, next) ∷ named) more h name n =
    let (now, rest) = and-true (f next) _ h in
    elim (Bool-cases (next == name)) [
      | inl e ↦ subst (λ x. f x ≡ true) ((eq_iff next name).0 e) now
      | inr e ↦ all-named f named more rest name (ground arith)
    ]

module _ {F S : Type 0} (m : Machine F S) where
  checks-non_empty :
      (dir : FilePath) (s : S)
      → all_passed (quality_checks m dir s) ≡ true
      → (name : String) → has_text name artifact_names ≡ true
      → non_empty m (dir / name) s ≡ true
  unfolding all_passed quality_checks
  checks-non_empty dir s h name n =
      all-named (λ n. non_empty m (dir / n) s) artifacts
        (("logs_exist", has_logs m (dir / "logs") s) ∷ []) h name n

  non_empty-Keeps :
      {A : Type 0} (act : Action S A) (p : FilePath)
      → Keeps m p act
      → (s : S) → non_empty m p (act s).1 ≡ non_empty m p s
  unfolding non_empty
  non_empty-Keeps act p k s = ap has_content (k.at s)

  module _ (files : KeepsFiles m) (fl : Floats F) (target : Target) where
    human_report-Keeps :
        (text : String) (checks : List (String × Bool)) (name : String)
        → ("quality_report.json" == name) ≡ false
        → ("report.md" == name) ≡ false
        → Keeps m (target.output_dir / name) (write_human_report m fl target text checks)
    unfolding write_human_report write_json name_of
    human_report-Keeps text checks name h g = search (keeps_rules, Keeps-write_text files, h, g)

    human_report-Leaves :
        (text : String) (checks : List (String × Bool))
        → Leaves m
            (target.output_dir / "quality_report.json")
            (concat (m.dumps (build_quality_report checks) ∷ "\n" ∷ []))
            (write_human_report m fl target text checks)
    unfolding write_human_report write_json name_of
    human_report-Leaves text checks =
        Leaves-first _ _ (Leaves-write_text files _)
          (λ a. search (keeps_rules, Keeps-write_text files))

    judge-IsDelivered :
        {A : Type 0} (result : List (String × Bool) → A) (text : String)
        → Always
            (λ r s.
              (checks : List (String × Bool)) × (r ≡ result checks)
              × IsDelivered m target.output_dir checks s)
            (report_and_judge m fl target result text)
    unfolding report_and_judge
    judge-IsDelivered result text = record {
      at = λ s r f.
          let dir = target.output_dir in
          let checks = quality_checks m dir s in
          let write = write_human_report m fl target text checks in
          let (passed, e, w, same) =
            guarded (write s).0 (all_passed checks) (result checks) r _ (write s).1 f in
          (
            checks,
            e,
            rw same (record {
              files = All-members _ artifact_names (λ name n.
                  non_empty-Keeps write (dir / name)
                    (human_report-Keeps text checks name
                      (apart artifact_names "quality_report.json" name refl n)
                      (apart artifact_names "report.md" name refl n))
                    s
                  ∙ checks-non_empty dir s passed name n);
              passed = passed;
              reported = (human_report-Leaves text checks).at s tt w;
            }),
          );
    }

    text-IsDelivered :
        {A : Type 0} (result : String → List (String × Bool) → A) (text : String)
        → Always
            (HasPublished m target.output_dir result)
            (report_and_judge m fl target (result text) text)
    unfolding HasPublished
    text-IsDelivered result text = record {
      at = λ s r f.
          let (checks, e, delivered) = (judge-IsDelivered (result text) text).at s r f in
          (text, checks, e, delivered);
    }

    pub publish-IsDelivered :
        {A : Type 0} (result : String → List (String × Bool) → A)
        → Always (HasPublished m target.output_dir result) (publish m fl target result)
    unfolding publish
    publish-IsDelivered result =
        Always-last (λ s. (read_payload m fl target s, s)) _
          (λ payload. Always-last (returning (stripped_text fl m payload)) _ (λ text.
            Always-last (write_transcript m fl target payload text) _
              (λ _. text-IsDelivered result text)))
