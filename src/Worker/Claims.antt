-- ===== src/Worker/Claims.antt =====
-- What a Worker reads from a claimed Step: run_claimed_pipeline_step of mediaorchard/cli/runtime.py,
-- up to the keyword arguments of the pipeline.
use media_orchard.Prelude.{String, Option, none, some, List, [], ◌∷◌, ◌==◌, if◌then◌else◌}
use media_orchard.Prelude.Results.{Result, ok, err, ◌>>=◌}
use media_orchard.Prelude.Json.{Items, Fields, str, arr, obj, nil, cons, get}
use media_orchard.Shared.Texts.{concat}
use media_orchard.Worker.Execution.{required_step_str}
use media_orchard.Worker.MockPipeline.{Request}

module _ {F : Type 0} where
  -- _required_json_str
  unfoldable pub required_json_str : Fields F → String → Result String String
  required_json_str payload key = elim (get key payload) [
    | none ↦ err (concat ("claimed step input_json is missing " ∷ key ∷ []))
    | some (str s) ↦
        if s == "" then err (concat ("claimed step input_json is missing " ∷ key ∷ [])) else ok s
    | some _ ↦ err (concat ("claimed step input_json is missing " ∷ key ∷ []))
  ]

  -- The texts of a list, when each of its items is one.
  unfoldable pub texts_of : Items F → Option (List String)
  texts_of nil = some []
  texts_of (cons (str s) items) = elim (texts_of items) [
    | none ↦ none
    | some texts ↦ some (s ∷ texts)
  ]
  texts_of (cons _ items) = none

  abbrev pub items_of : List String → Items F
  items_of [] = nil
  items_of (s ∷ texts) = cons (str s) (items_of texts)

  unfoldable pub claimed_input : Fields F → Result String (Fields F)
  claimed_input step = elim (get "input_json" step) [
    | some (obj payload) ↦ ok payload
    | some _ ↦ err "claimed step is missing input_json"
    | none ↦ err "claimed step is missing input_json"
  ]

  unfoldable pub claimed_outputs : Fields F → Result String (List String)
  unfolding texts_of
  claimed_outputs payload = elim (get "requested_outputs" payload) [
    | some (arr items) ↦ elim (texts_of items) [
      | none ↦ err "claimed step requested_outputs must be list[str]"
      | some texts ↦ ok texts
    ]
    | some _ ↦ err "claimed step requested_outputs must be list[str]"
    | none ↦ err "claimed step requested_outputs must be list[str]"
  ]

  unfoldable pub claimed_language : Fields F → Option String
  claimed_language payload = elim (get "language" payload) [
    | some (str s) ↦ some s
    | some _ ↦ none
    | none ↦ none
  ]

  -- The keyword arguments of the pipeline.
  unfoldable pub claimed_request : Fields F → Result String Request
  unfolding required_json_str required_step_str claimed_outputs claimed_input claimed_language
  claimed_request step = claimed_input step >>= λ payload. claimed_outputs payload >>= λ outputs.
      required_json_str payload "input_file" >>= λ input_file.
      required_json_str payload "output_dir" >>= λ output_dir.
      required_json_str payload "work_dir" >>= λ work_dir.
      required_step_str step "job_id" >>= λ job_id. ok (record {
        input_file = input_file;
        output_dir = output_dir;
        work_dir = work_dir;
        requested_outputs = outputs;
        language = claimed_language payload;
        job_id = job_id;
      })
