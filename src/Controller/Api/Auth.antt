-- ===== src/Controller/Api/Auth.antt =====
-- `require_worker_auth` and `require_worker_node_id` of create_app.
use media_orchard.Prelude.{String, Bool, none, some, map, ◌==◌, if◌then◌else◌}
use media_orchard.Prelude.Results.{Result, ok, err, require}
use media_orchard.Shared.Texts.{codes, lower_code, is_prefix, after_char}
use media_orchard.Shared.Security.{verify_api_key}
use media_orchard.Controller.Api.{
  Env, App, Headers, HttpError, missing_credentials, missing_node_id,
}

-- `authorization.lower().startswith("bearer ")`
unfoldable pub is_bearer : String → Bool
is_bearer header = is_prefix (codes "bearer ") (map lower_code (codes header))

-- The key that the request presents: that of the bearer header wins.
unfoldable pub presented_key : Headers → String
unfolding is_bearer
presented_key headers =
    let own : String = elim headers.x_mediaorchard_key [ none ↦ "" | some key ↦ key ] in
    elim headers.authorization [
      | none ↦ own
      | some header ↦ if is_bearer header then after_char b' ' header else own
    ]

unfoldable pub require_worker_auth :
    {F : Type 0} → Env F → App → Headers → Result HttpError (Unit {0})
unfolding presented_key
require_worker_auth env app headers =
    require (verify_api_key env.sha256_hex (presented_key headers) app.api_key_hash)
      missing_credentials

unfoldable pub require_worker_node_id : Headers → Result HttpError String
require_worker_node_id headers = elim headers.x_mediaorchard_node_id [
  | none ↦ err missing_node_id
  | some id ↦ if id == "" then err missing_node_id else ok id
]
