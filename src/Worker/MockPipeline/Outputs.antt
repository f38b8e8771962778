-- ===== src/Worker/MockPipeline/Outputs.antt =====
-- What the deterministic pipeline publishes.
use media_orchard.Prelude.{
  String, ◌≡◌, refl, ◌≢◌, ◌⊎◌, inl, inr, Bool, true, false, not, some, List, [], ◌∷◌, arith, ◌==◌,
  eq_iff, if◌then◌else◌, Bool-cases, select,
}
use media_orchard.Prelude.Results.{ok}
use media_orchard.Prelude.Actions.{pure, ◌>>◌}
use media_orchard.Prelude.Floats.{Floats}
use media_orchard.Shared.Texts.{has_text, concat, sorted_set, insert_sorted}
use media_orchard.Worker.Machine.{Machine, KeepsFiles, base, ◌/◌, name_of, write_json}
use media_orchard.Worker.Machine.Frames.{
  Keeps, Leaves, Leaves-first, Leaves-last, Leaves-when, Keeps-write_text, Leaves-write_text,
  keeps_rules,
}
use media_orchard.Worker.MockPipeline.{
  Request, PipelineResult, unsupported_message, supported_outputs, unsupported_outputs, write_log,
  out, mock_prepare, mock_collect, mock_finish, mock_transcript, mock_transcript_json,
  mock_subtitle, run_checked, run_mock_video_to_subtitle_pipeline,
}

insert_sorted-some : (text : String) (texts : List String) → insert_sorted text texts ≢ []
insert_sorted-some text [] e = cc
insert_sorted-some text (next ∷ texts) e = ground (arith, eq_iff text next)

sorted_set-nil : (texts : List String) → sorted_set texts ≡ [] → texts ≡ []
sorted_set-nil [] e = refl
sorted_set-nil (text ∷ texts) e = elim (insert_sorted-some text (sorted_set texts) e) [ ]

member-kept :
    (p : String → Bool) (o : String) (texts : List String)
    → select (λ t. not (p t)) texts ≡ []
    → has_text o texts ≡ true
    → p o ≡ true
member-kept p o [] e h = cc
member-kept p o (text ∷ texts) e h = elim (Bool-cases (p text)) [
  | inl e1 ↦ ground (arith, eq_iff text o, member-kept p o texts)
  | inr e2 ↦ ground (arith)
]

-- A requested output that is not unsupported is supported.
pub supported :
    (requested : List String) (o : String)
    → unsupported_outputs requested ≡ []
    → has_text o requested ≡ true
    → has_text o supported_outputs ≡ true
unfolding unsupported_outputs
supported requested o e h =
    member-kept (λ t. has_text t supported_outputs) o requested (sorted_set-nil _ e) h

pub output-cases :
    (o : String) → has_text o supported_outputs ≡ true → (o ≡ "txt") ⊎ (o ≡ "json") ⊎ (o ≡ "srt")
output-cases o v = ground (arith, eq_iff "srt" o, eq_iff "txt" o, eq_iff "json" o)

-- The file of a requested output.
unfoldable pub published_name : String → String
published_name o =
    if o == "txt"
    then "transcript.txt"
    else if o == "json"
    then "transcript.json"
    else "subtitle.srt"

module _ {F S : Type 0} (fl : Floats F) (m : Machine F S) (request : Request) where
  -- The content of that file.
  unfoldable pub published_text : String → String
  published_text o =
      if o == "txt"
      then concat (mock_transcript request ∷ "\n" ∷ [])
      else if o == "json"
      then concat (m.dumps (mock_transcript_json fl m request) ∷ "\n" ∷ [])
      else mock_subtitle request

  module _ (files : KeepsFiles m) where
    collect-Leaves-txt :
        has_text "txt" request.requested_outputs ≡ true
        → Leaves m
            (out fl m request / "transcript.txt")
            (concat (mock_transcript request ∷ "\n" ∷ []))
            (mock_collect fl m request)
    unfolding mock_collect write_log write_json name_of
    collect-Leaves-txt h =
        Leaves-first _ _
          (Leaves-first _ _ (Leaves-last _ _ (λ a. Leaves-when _ _ h (Leaves-write_text files _)))
            (λ a. search (keeps_rules, Keeps-write_text files)))
          (λ a. search (keeps_rules, Keeps-write_text files))

    collect-Leaves-json :
        has_text "json" request.requested_outputs ≡ true
        → Leaves m
            (out fl m request / "transcript.json")
            (concat (m.dumps (mock_transcript_json fl m request) ∷ "\n" ∷ []))
            (mock_collect fl m request)
    unfolding mock_collect write_log write_json name_of
    collect-Leaves-json h =
        Leaves-first _ _ (Leaves-last _ _ (λ a. Leaves-when _ _ h (Leaves-write_text files _)))
          (λ a. search (keeps_rules, Keeps-write_text files))

    collect-Leaves-srt :
        has_text "srt" request.requested_outputs ≡ true
        → Leaves m
            (out fl m request / "subtitle.srt")
            (mock_subtitle request)
            (mock_collect fl m request)
    unfolding mock_collect name_of
    collect-Leaves-srt h = Leaves-last _ _ (λ a. Leaves-when _ _ h (Leaves-write_text files _))

    collect-Leaves :
        (o : String)
        → has_text o request.requested_outputs ≡ true
        → has_text o supported_outputs ≡ true
        → Leaves m
            (out fl m request / published_name o)
            (published_text o)
            (mock_collect fl m request)
    unfolding published_name published_text
    collect-Leaves o h v = elim (output-cases o v) [
      | inl e ↦ rw e (collect-Leaves-txt (rw e at h))
      | inr (inl e) ↦ rw e (collect-Leaves-json (rw e at h))
      | inr (inr e) ↦ rw e (collect-Leaves-srt (rw e at h))
    ]

    finish-Keeps :
        (name : String)
        → (name ≡ "transcript.txt") ⊎ (name ≡ "transcript.json") ⊎ (name ≡ "subtitle.srt")
        → Keeps m (out fl m request / name) (mock_finish fl m request)
    unfolding mock_finish write_log write_json name_of
    finish-Keeps name (inl e) = rw e (search (keeps_rules, Keeps-write_text files))
    finish-Keeps name (inr (inl e)) = rw e (search (keeps_rules, Keeps-write_text files))
    finish-Keeps name (inr (inr e)) = rw e (search (keeps_rules, Keeps-write_text files))

    run-Leaves :
        (o : String)
        → has_text o request.requested_outputs ≡ true
        → has_text o supported_outputs ≡ true
        → (result : PipelineResult F)
        → Leaves m (out fl m request / published_name o) (published_text o) (
            mock_prepare fl m request
            >> mock_collect fl m request
            >> mock_finish fl m request
            >> pure result)
    unfolding published_name
    run-Leaves o h v result =
        Leaves-first _ _
          (Leaves-first _ _ (Leaves-last _ _ (λ a. collect-Leaves o h v)) (λ a.
            finish-Keeps (published_name o) (elim (output-cases o v) [
              | inl e ↦ inl (rw e refl)
              | inr (inl e) ↦ inr (inl (rw e refl))
              | inr (inr e) ↦ inr (inr (rw e refl))
            ])))
          (λ a. search keeps_rules)

    checked-publishes :
        (unsupported : List String)
        → unsupported_outputs request.requested_outputs ≡ unsupported
        → (s : S) (result : PipelineResult F)
        → (run_checked fl m request unsupported s).0 ≡ ok result
        → result.status ≡ "completed"
        → (o : String) → has_text o request.requested_outputs ≡ true
        → m.read
            (base request.output_dir / published_name o)
            (run_checked fl m request unsupported s).1
          ≡ some (published_text o)
    unfolding run_checked
    checked-publishes [] u s result f c o h =
        (run-Leaves o h (supported request.requested_outputs o u h) _).at s result f
    checked-publishes (t ∷ ts) u s result f c o h = cc

    -- On a machine that keeps files: when the pipeline has returned with the status completed, the file
    -- of every requested output holds that output's text at the end.
    pub run_mock-publishes :
        (s : S) (result : PipelineResult F)
        → (run_mock_video_to_subtitle_pipeline fl m request s).0 ≡ ok result
        → result.status ≡ "completed"
        → (o : String) → has_text o request.requested_outputs ≡ true
        → m.read
            (base request.output_dir / published_name o)
            (run_mock_video_to_subtitle_pipeline fl m request s).1
          ≡ some (published_text o)
    unfolding run_mock_video_to_subtitle_pipeline
    run_mock-publishes = checked-publishes (unsupported_outputs request.requested_outputs) refl

  checked-refuses :
      (unsupported : List String)
      → unsupported ≢ []
      → (s : S)
      → (result : PipelineResult F) × (run_checked fl m request unsupported s ≡ (ok result, s))
        × (result.status ≡ "failed")
        × (result.error_message ≡ some (unsupported_message unsupported))
  unfolding run_checked
  checked-refuses [] n s = elim (n refl) [ ]
  checked-refuses (t ∷ ts) n s = (_, refl, refl, refl)

  -- A request with an unsupported output, on any machine: the pipeline returns the status failed with
  -- the unsupported outputs in its message, and has not touched the computer.
  pub run_mock-refuses :
      (o : String)
      → has_text o request.requested_outputs ≡ true
      → has_text o supported_outputs ≡ false
      → (s : S)
      → (result : PipelineResult F) × (run_mock_video_to_subtitle_pipeline fl m request s
          ≡ (ok result, s))
        × (result.status ≡ "failed")
        × (result.error_message
            ≡ some (unsupported_message (unsupported_outputs request.requested_outputs)))
  unfolding run_mock_video_to_subtitle_pipeline
  run_mock-refuses o h u =
      checked-refuses (unsupported_outputs request.requested_outputs)
        (λ e. cc (supported request.requested_outputs o e h))
