-- ===== src/Cli/Http.antt =====
-- The HTTP clients of mediaorchard/cli/runtime.py.
pub mod Access
use media_orchard.Prelude.{
  String, ◌&&◌, Option, none, some, List, [], ◌∷◌, ◌==◌, nat_eq, if◌then◌else◌,
}
use Prim.Native.Char.{code}
use media_orchard.Prelude.Results.{Result, ok, err, ◌>>=◌}
use media_orchard.Prelude.Int.{ℤ, pos, int_eq}
use media_orchard.Prelude.Json.{Json, Items, Fields, null, arr, obj, nil, cons}
use media_orchard.Shared.Texts.{concat}

-- urllib.request.Request, and how `urlopen` ends: a status and a body, or an HTTPError with its code
-- and its decoded body, or another exception.
pub record HttpRequest : Type 0 where
  pub method : String
  pub url : String
  pub payload : Option String
  pub headers : List (String × String)

pub data Reply : Type 0 where
  answered : ℤ → String → Reply
  http_error : ℤ → String → Reply
  unreachable : String → Reply

-- What the clients are given: `urlopen`, json.dumps, json.loads and str(int).
pub record Network (F : Type 0) : Type 0 where
  pub urlopen : HttpRequest → Reply
  pub dumps : Fields F → String
  pub loads : String → Result String (Json F)
  pub int_text : ℤ → String

-- text.rstrip("/")
unfoldable pub rstrip_slash : String → String
rstrip_slash String.[] = ""
rstrip_slash (String.◌∷◌ c s) =
    let rest = rstrip_slash s in
    if rest == "" && nat_eq (code c) b'/' then "" else String.◌∷◌ c rest

-- HttpWorkerTransport and ControllerApiClient, without the timeout.
pub record HttpWorkerTransport : Type 0 where
  pub controller_url : String
  pub api_key : String
  pub node_id : String

pub record ControllerApiClient : Type 0 where
  pub controller_url : String
  pub api_key : String

-- The constructors.
unfoldable pub worker_transport : String → String → String → HttpWorkerTransport
unfolding rstrip_slash
worker_transport controller_url api_key node_id = record {
  controller_url = rstrip_slash controller_url;
  api_key = api_key;
  node_id = node_id;
}

unfoldable pub api_client : String → String → ControllerApiClient
unfolding rstrip_slash
api_client controller_url api_key = record {
  controller_url = rstrip_slash controller_url;
  api_key = api_key;
}

abbrev pub authorization : String → String × String
authorization api_key = ("Authorization", concat ("Bearer " ∷ api_key ∷ []))

module _ {F : Type 0} (net : Network F) where
  -- From `with urlopen(…)` to `if not body: return None`: the body, if there is one.
  unfoldable pub body_of : Reply → Result String (Option String)
  body_of (answered status body) =
      if int_eq status (pos 204) then ok none else if body == "" then ok none else ok (some body)
  body_of (http_error status detail) =
      err (concat ("Controller request failed: " ∷ net.int_text status ∷ " " ∷ detail ∷ []))
  body_of (unreachable message) = err message

  -- `decoded`, which must be an object
  abbrev object_of : Json F → Result String (Option (Fields F))
  object_of (obj fields) = ok (some fields)
  object_of _ = err "Controller response must be a JSON object"

  abbrev decoded_object : Option String → Result String (Option (Fields F))
  decoded_object none = ok none
  decoded_object (some body) = net.loads body >>= object_of

  abbrev decoded_value : Option String → Result String (Json F)
  decoded_value none = ok null
  decoded_value (some body) = net.loads body

  -- HttpWorkerTransport.post
  unfoldable pub worker_request : HttpWorkerTransport → String → Option (Fields F) → HttpRequest
  worker_request transport path none = record {
    method = "POST";
    url = concat (transport.controller_url ∷ path ∷ []);
    payload = some "";
    headers = authorization transport.api_key ∷ ("X-MediaOrchard-Node-Id", transport.node_id) ∷ [];
  }
  worker_request transport path (some json) = record {
    method = "POST";
    url = concat (transport.controller_url ∷ path ∷ []);
    payload = some (net.dumps json);
    headers =
        authorization transport.api_key
        ∷ ("X-MediaOrchard-Node-Id", transport.node_id)
        ∷ ("Content-Type", "application/json")
        ∷ [];
  }

  unfoldable pub worker_post :
      HttpWorkerTransport → String → Option (Fields F) → Result String (Option (Fields F))
  unfolding worker_request body_of
  worker_post transport path json =
      body_of (net.urlopen (worker_request transport path json)) >>= decoded_object

  -- ControllerApiClient._request
  unfoldable pub api_request :
      ControllerApiClient → String → String → Option (Fields F) → HttpRequest
  api_request client method path none = record {
    method = method;
    url = concat (client.controller_url ∷ path ∷ []);
    payload = none;
    headers = authorization client.api_key ∷ [];
  }
  api_request client method path (some payload) = record {
    method = method;
    url = concat (client.controller_url ∷ path ∷ []);
    payload = some (net.dumps payload);
    headers = authorization client.api_key ∷ ("Content-Type", "application/json") ∷ [];
  }

  -- `None` is the JSON null here too.
  unfoldable pub request :
      ControllerApiClient → String → String → Option (Fields F) → Result String (Json F)
  unfolding api_request body_of
  request client method path payload =
      body_of (net.urlopen (api_request client method path payload)) >>= decoded_value

  unfoldable pub api_get : ControllerApiClient → String → Result String (Json F)
  api_get client path = request client "GET" path none

  unfoldable pub api_post : ControllerApiClient → String → Fields F → Result String (Json F)
  api_post client path payload = request client "POST" path (some payload)

  -- Whether all the items are objects, and these.
  abbrev pub objects_of : Items F → Option (List (Fields F))
  objects_of nil = some []
  objects_of (cons (obj fields) items) = elim (objects_of items) [
    | none ↦ none
    | some rest ↦ some (fields ∷ rest)
  ]
  objects_of (cons _ items) = none

  -- _json_object_list
  unfoldable pub json_object_list : Json F → String → Result String (List (Fields F))
  json_object_list (arr items) name = elim (objects_of items) [
    | none ↦ err (concat ("Controller " ∷ name ∷ " response must contain JSON objects" ∷ []))
    | some objects ↦ ok objects
  ]
  json_object_list _ name =
      err (concat ("Controller " ∷ name ∷ " response must be a JSON list" ∷ []))

  unfoldable pub list_nodes : String → String → Result String (List (Fields F))
  unfolding api_client api_get json_object_list
  list_nodes controller_url api_key =
      api_get (api_client controller_url api_key) "/nodes" >>= λ decoded.
      json_object_list decoded "nodes"

  unfoldable pub list_jobs : String → String → Result String (List (Fields F))
  unfolding api_client api_get json_object_list
  list_jobs controller_url api_key =
      api_get (api_client controller_url api_key) "/jobs" >>= λ decoded.
      json_object_list decoded "jobs"

  abbrev created_job : Json F → Result String (Fields F)
  created_job (obj fields) = ok fields
  created_job _ = err "Controller job creation response must be a JSON object"

  unfoldable pub submit_job : String → String → Fields F → Result String (Fields F)
  unfolding api_client api_post
  submit_job controller_url api_key payload =
      api_post (api_client controller_url api_key) "/jobs" payload >>= created_job
