-- ===== src/Cli/Commands.antt =====
-- The commands of mediaorchard/cli/main.py, between the parsed options and the printed lines. An
-- error is the message of `typer.BadParameter`, or of an exception of the command.
pub mod Doctor
use media_orchard.Prelude.{
  ℕ, String, Bool, true, false, not, ◌&&◌, ◌||◌, Option, none, some, List, [], ◌∷◌, ◌++◌, map, ◌==◌,
  if◌then◌else◌, all,
}
use media_orchard.Prelude.Results.{Result, ok, err, ◌>>=◌, ◌>>◌, require}
use media_orchard.Prelude.Int.{ℤ}
use media_orchard.Prelude.Dicts.{Dict, lookup}
use media_orchard.Prelude.Json.{Json, Fields, null, int, str, arr, end, field, get}
use media_orchard.Shared.Texts.{concat, join}
use media_orchard.Controller.Scheduler.Priorities.{Numerals, parse_node_priorities}
use media_orchard.Worker.Claims.{items_of}
use media_orchard.Worker.Runtime.{WorkerRuntimeConfig}
use media_orchard.Worker.Preflight.{
  Host, PreflightCheck, WorkerPreflightConfig, run_worker_preflight, all_ok,
}
use media_orchard.Cli.Hosts.{pass_or_fail, or_local}
use media_orchard.Cli.Http.{Network, list_nodes, list_jobs, submit_job}

-- value or other, for texts that may be missing
abbrev pub or_else : Option String → Option String → Option String
or_else none other = other
or_else (some text) other = if text == "" then other else some text

abbrev some_text : Option String → String → Result String String
some_text none message = err message
some_text (some text) message = if text == "" then err message else ok text

-- _require_api_key; `environ` is os.environ.
unfoldable pub require_api_key : Dict String → Option String → Result String String
require_api_key environ api_key =
    some_text (or_else api_key (lookup "MEDIAORCHARD_API_KEY" environ))
      "Controller API key is required via --api-key or MEDIAORCHARD_API_KEY"

-- _require_api_key_hash
unfoldable pub require_api_key_hash : Dict String → Option String → Result String String
require_api_key_hash environ api_key_hash =
    let message : String =
      "Controller API key hash is required via --api-key-hash or MEDIAORCHARD_API_KEY_HASH" in
    some_text (or_else api_key_hash (lookup "MEDIAORCHARD_API_KEY_HASH" environ)) message
    >>= λ hash. if hash == "__unset__" then err message else ok hash

-- _parse_node_priorities, where no values are an empty list.
unfoldable pub option_node_priorities :
    Numerals → Dict String → List String → Result String (Dict ℤ)
option_node_priorities numerals environ values =
    let raw = join "," values in
    if raw == ""
    then parse_node_priorities numerals (lookup "MEDIAORCHARD_NODE_PRIORITIES" environ)
    else parse_node_priorities numerals (some raw)

-- The options of `worker start`, as a configuration whose `node_name` and `api_key` may be missing.
unfoldable pub worker_start_config :
    {F : Type 0}
    → Dict String
    → Option String
    → Option String
    → WorkerRuntimeConfig F
    → Result String (WorkerRuntimeConfig F)
unfolding require_api_key
worker_start_config environ api_key node_name options = do
  key ← require_api_key environ api_key
  require (options.execution_mode == "deterministic" || options.execution_mode == "real")
      "execution-mode must be deterministic or real"
  ok (record options {
    api_key = key;
    node_name = elim (or_else node_name none) [ none ↦ options.node_id | some name ↦ name ];
    execute_claimed_steps = true;
  })

-- `text` is str().
module _ {F : Type 0} (text : Json F → String) where
  -- _display(row.get(key))
  unfoldable pub display : String → Fields F → String
  display key row = elim (get key row) [ none ↦ "-" | some null ↦ "-" | some value ↦ text value ]

  abbrev table_line : List String → Fields F → String
  table_line keys row = join "\t" (map (λ key. display key row) keys)

  -- The lines of a table, and of none.
  abbrev table : String → String → List String → List (Fields F) → List String
  table empty heading keys [] = empty ∷ []
  table empty heading keys (row ∷ rows) = heading ∷ map (table_line keys) (row ∷ rows)

  -- jobs
  unfoldable pub job_lines : List (Fields F) → List String
  unfolding display
  job_lines =
      table "No jobs found." "ID\tSTATUS\tGOAL\tPRIORITY"
        ("id" ∷ "status" ∷ "goal_type" ∷ "priority" ∷ [])

  -- nodes
  unfoldable pub node_lines : List (Fields F) → List String
  unfolding display
  node_lines =
      table "No nodes found." "ID\tSTATUS\tCPU%\tHOST"
        ("id" ∷ "status" ∷ "cpu_percent" ∷ "host" ∷ [])

  module _ (net : Network F) (environ : Dict String) (controller_url : String)
      (api_key : Option String) where
    unfoldable pub jobs : Result String (List String)
    unfolding job_lines require_api_key
    jobs = do
      key ← require_api_key environ api_key
      rows ← list_jobs net controller_url key
      ok (job_lines rows)

    unfoldable pub nodes : Result String (List String)
    unfolding node_lines require_api_key
    nodes = do
      key ← require_api_key environ api_key
      rows ← list_nodes net controller_url key
      ok (node_lines rows)

-- The options of `submit`; `exists` is whether the input file does, after expanduser.
pub record Submission : Type 0 where
  pub input_file : String
  pub exists : Bool
  pub goal : String
  pub outputs : List String
  pub language : Option String
  pub quality : String
  pub priority : ℤ
  pub user_request : Option String

abbrev or_null : {F : Type 0} → Option String → Json F
or_null none = null
or_null (some text) = str text

abbrev or_default : List String → List String
or_default [] = "srt" ∷ "txt" ∷ "json" ∷ []
or_default (output ∷ outputs) = output ∷ outputs

unfoldable pub submit_payload : {F : Type 0} → Submission → Fields F
submit_payload s = field "goal_type" (str s.goal) (
    field "input_file" (str s.input_file) (
      field "outputs" (arr (items_of (or_default s.outputs))) (
        field "language" (or_null s.language) (
          field "quality" (str s.quality) (
            field "priority" (int s.priority)
              (field "user_request" (or_null s.user_request) end))))))

unfoldable pub submit :
    {F : Type 0}
    → (Json F → String)
    → Network F
    → Dict String
    → String
    → Option String
    → Submission
    → Result String String
unfolding submit_payload require_api_key display
submit text net environ controller_url api_key s = do
  require s.exists "input_file does not exist"
  key ← require_api_key environ api_key
  job ← submit_job net controller_url key (submit_payload s)
  ok (concat ("Created job " ∷ display text "id" job ∷ " (" ∷ display text "status" job ∷ ")" ∷ []))

abbrev pub is_missing : {A : Type 0} → Option A → Bool
is_missing none = true
is_missing (some _) = false

module _ (host : Host) (options : WorkerPreflightConfig) where
  abbrev pub checks_of : String → List PreflightCheck
  checks_of target = run_worker_preflight host (record options { target = target })

  abbrev check_line : PreflightCheck → String
  check_line check =
      concat ("  " ∷ pass_or_fail check.is_ok ∷ " " ∷ check.name ∷ ": " ∷ check.detail ∷ [])

  -- The lines of one target.
  unfoldable pub target_lines : String → List String
  unfolding all_ok
  target_lines target =
      concat (target ∷ " " ∷ pass_or_fail (all_ok (checks_of target)) ∷ [])
      ∷ map check_line (checks_of target)

  abbrev pub all_lines : List String → List String
  all_lines [] = []
  all_lines (target ∷ targets) = target_lines target ++ all_lines targets

  -- doctor worker: the lines, and the exit code. `options` has everything but the target.
  unfoldable pub doctor_worker : List String → Result String (List String × ℕ)
  unfolding target_lines all_ok
  doctor_worker targets =
      if not (is_missing options.shared_root_marker_value) && is_missing options.shared_root_marker
      then err "--shared-root-marker-value requires --shared-root-marker"
      else ok (
        all_lines (or_local targets),
        if all (λ target. all_ok (checks_of target)) (or_local targets) then 0 else 1,
      )
