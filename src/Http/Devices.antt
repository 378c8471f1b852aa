-- ===== src/Http/Devices.antt =====
-- Which requests of the client name its device, and what the server's middleware requireDeviceHash makes
-- of them (cli/api with server/middlewares/require-device-hash.middleware.ts).
use nerdhub_chat_cli_prototy.Common.{ℕ, ◌≡◌, refl, Bool, some, List, [], ◌∷◌, Text, string_same}
use nerdhub_chat_cli_prototy.Common.JsMap
use nerdhub_chat_cli_prototy.Auth.{bad_request}
use nerdhub_chat_cli_prototy.Router.{truthy, Exchange, throws}
use nerdhub_chat_cli_prototy.Participants.{World, ends, goes_on, require_device_hash}
use nerdhub_chat_cli_prototy.Http.{
  Request, Caller, device_hash_headers_key, request_of, create_participant_request,
  update_bundle_request, create_many_request,
}

-- The exchange of a request, as far as the middleware reads it.
abbrev pub arrived : Request → Exchange World → Exchange World
arrived request x = record x {
  world = record x.world { device_hash_header = JsMap.get device_hash_headers_key request.headers };
}

-- The requests that update a prekey bundle and that upload one-time prekeys are refused by
-- requireDeviceHash with status 400, whoever makes them and whatever they hold; the one that creates a
-- participant passes with the hash of the caller's device, where that is not empty.
pub requires-device_hash :
    (server_url jwt : Text) (c : ℕ) (hash : Text) (user participant : ℕ)
    (payload : Text × Text × Text) (keys : List (Text × Text)) (flush : Bool) (x : Exchange World)
    → let caller : Caller = record { server_url = server_url; device_hash = c ∷ hash; jwt = jwt } in
      let refused = λ (y : Exchange World).
        ends y (throws (truthy (bad_request "The `X-Device-Hash` header is required"))) in
      let updates = arrived (update_bundle_request caller user participant payload) x in
      let uploads = arrived (create_many_request caller user participant keys flush) x in
      let creates = arrived (create_participant_request caller user payload) x in
      (require_device_hash.process updates ≡ refused updates)
      × (require_device_hash.process uploads ≡ refused uploads)
      × (require_device_hash.process creates
          ≡ goes_on
              (record creates { world = record creates.world { device_hash = some (c ∷ hash) } }))
unfolding require_device_hash request_of create_participant_request update_bundle_request
    create_many_request JsMap.set
requires-device_hash server_url [] c hash user participant payload keys flush x = (refl, refl, refl)
requires-device_hash server_url (t ∷ jwt) c hash user participant payload keys flush x =
    (refl, refl, refl)
