-- ===== src/Cli/Http/Access.antt =====
-- The clients against the Controller's two dependencies.
use Prim.Native.String
use text.Mathlib.TextLemmas.{nil-append, cons-append, append-nil}
use media_orchard.Prelude.{
  String, ◌≡◌, refl, ap, ◌∙◌, ◌≢◌, inl, inr, Option, none, some, arith, ◌==◌, eq_iff, Bool-cases,
}
use media_orchard.Prelude.Results.{ok}
use media_orchard.Prelude.Actions.{ok-injective}
use media_orchard.Prelude.Dicts.{lookup}
use media_orchard.Prelude.Json.{Fields}
use media_orchard.Shared.Texts.{after_char}
use media_orchard.Shared.Security.{hash_api_key, verify_api_key_iff}
use media_orchard.Controller.Api.{Env, App, Headers}
use media_orchard.Controller.Api.Auth.{
  is_bearer, presented_key, require_worker_auth, require_worker_node_id,
}
use media_orchard.Cli.Http.{
  Network, HttpRequest, HttpWorkerTransport, ControllerApiClient, authorization, worker_request,
  api_request,
}

-- The headers of a request arrive at the endpoints as they were sent.
pub record IsDelivered (request : HttpRequest) (headers : Headers) : Type 0 where
  pub of_authorization : headers.authorization ≡ lookup "Authorization" request.headers
  pub of_key : headers.x_mediaorchard_key ≡ lookup "X-MediaOrchard-Key" request.headers
  pub of_node_id : headers.x_mediaorchard_node_id ≡ lookup "X-MediaOrchard-Node-Id" request.headers

-- "Bearer " and a text, character by character.
abbrev spelled : String → String
spelled key = String.◌∷◌ "B" (
    String.◌∷◌ "e"
      (String.◌∷◌ "a" (String.◌∷◌ "r" (String.◌∷◌ "e" (String.◌∷◌ "r" (String.◌∷◌ " " key))))))

authorization-spelled : (key : String) → (authorization key).1 ≡ spelled key
authorization-spelled key =
    cons-append "B" "earer " _
    ∙ ap (String.◌∷◌ "B") (
        cons-append "e" "arer " _
        ∙ ap (String.◌∷◌ "e") (
            cons-append "a" "rer " _
            ∙ ap (String.◌∷◌ "a") (
                cons-append "r" "er " _
                ∙ ap (String.◌∷◌ "r") (
                    cons-append "e" "r " _
                    ∙ ap (String.◌∷◌ "e") (
                        cons-append "r" " " _
                        ∙ ap (String.◌∷◌ "r") (
                            cons-append " " "" _
                            ∙ ap (String.◌∷◌ " ") (nil-append _ ∙ append-nil key)))))))

presented-bearer :
    (headers : Headers) (key : String)
    → headers.authorization ≡ some (authorization key).1
    → presented_key headers ≡ key
unfolding presented_key is_bearer after_char
presented-bearer headers key e = rw (e, authorization-spelled key) refl

hashed :
    (sha256_hex : String → String) (key stored : String)
    → hash_api_key sha256_hex key ≡ ok stored
    → (key ≢ "") × (stored ≡ String.◌++◌ "sha256:" (sha256_hex key))
unfolding hash_api_key
hashed sha256_hex key stored h = elim (Bool-cases (key == "")) [
  | inl e ↦ let h' = rw e at h in cc
  | inr n ↦ let h' = rw n at h in (λ e. ground (arith, eq_iff key ""), ok-injective _ h' refl)
]

module _ {F : Type 0} (env : Env F) (app : App) where
  accepted_key :
      (headers : Headers) (key : String)
      → headers.authorization ≡ some (authorization key).1
      → hash_api_key env.sha256_hex key ≡ ok app.api_key_hash
      → require_worker_auth env app headers ≡ ok tt
  unfolding require_worker_auth
  accepted_key headers key e h =
      rw
        (
          presented-bearer headers key e,
          (verify_api_key_iff env.sha256_hex key app.api_key_hash).1
              (hashed env.sha256_hex key app.api_key_hash h),
        )
        refl

  module _ (net : Network F) where
    worker-delivered :
        (transport : HttpWorkerTransport) (path : String) (json : Option (Fields F))
        (headers : Headers)
        → IsDelivered (worker_request net transport path json) headers
        → (headers.authorization ≡ some (authorization transport.api_key).1)
          × (headers.x_mediaorchard_node_id ≡ some transport.node_id)
    unfolding worker_request lookup
    worker-delivered transport path none headers d = (d.of_authorization, d.of_node_id)
    worker-delivered transport path (some _) headers d = (d.of_authorization, d.of_node_id)

    client-delivered :
        (client : ControllerApiClient) (method path : String) (payload : Option (Fields F))
        (headers : Headers)
        → IsDelivered (api_request net client method path payload) headers
        → headers.authorization ≡ some (authorization client.api_key).1
    unfolding api_request lookup
    client-delivered client method path none headers d = d.of_authorization
    client-delivered client method path (some _) headers d = d.of_authorization

    -- A Controller that was started with the hash of a key takes every request that a Worker's
    -- transport and a client of the command line make with that key, if their headers arrive, and
    -- takes the Worker's node id, which is not empty, for the sender's.
    pub requests-AreAccepted :
        (transport : HttpWorkerTransport) (client : ControllerApiClient) (path method : String)
        (json : Option (Fields F)) (of_worker of_client : Headers)
        → IsDelivered (worker_request net transport path json) of_worker
        → IsDelivered (api_request net client method path json) of_client
        → hash_api_key env.sha256_hex transport.api_key ≡ ok app.api_key_hash
        → client.api_key ≡ transport.api_key
        → transport.node_id ≢ ""
        → (require_worker_auth env app of_worker ≡ ok tt)
          × (require_worker_node_id of_worker ≡ ok transport.node_id)
          × (require_worker_auth env app of_client ≡ ok tt)
    unfolding require_worker_node_id
    requests-AreAccepted transport client path method json of_worker of_client w c h same named =
        let (authorized, node) = worker-delivered transport path json of_worker w in
        (
          accepted_key of_worker transport.api_key authorized h,
          rw node (ground (arith, eq_iff transport.node_id "")),
          accepted_key of_client transport.api_key
              (client-delivered client method path json of_client c
                ∙ ap (λ key. some (authorization key).1) same)
              h,
        )
