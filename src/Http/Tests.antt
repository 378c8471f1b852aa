-- ===== src/Http/Tests.antt =====
-- Requests of a concrete client.
use nerdhub_chat_cli_prototy.Common.{ℕ, suc, ◌≡◌, refl, true, false, none, some, [], ◌∷◌, codes}
use nerdhub_chat_cli_prototy.Auth.{bad_request}
use nerdhub_chat_cli_prototy.Router.{truthy, Exchange, throws}
use nerdhub_chat_cli_prototy.Persistence.Reachable.{migrated}
use nerdhub_chat_cli_prototy.Participants.{World, other_body, ends, goes_on, require_device_hash}
use nerdhub_chat_cli_prototy.Client as C
use nerdhub_chat_cli_prototy.Client.{Client}
use nerdhub_chat_cli_prototy.Client.Bundles.{publish_payload}
use nerdhub_chat_cli_prototy.Client.Setup.{publish_keys}
use nerdhub_chat_cli_prototy.Client.Fixtures.{surroundings, before}
use nerdhub_chat_cli_prototy.Http.{
  Fetch, Bodies, Caller, create_participant_request, update_bundle_request, create_many_request,
  login_request, request_of, api,
}
use nerdhub_chat_cli_prototy.Http.Devices.{arrived, requires-device_hash}
use nerdhub_chat_cli_prototy.Http.Publishing.{refused-throws}

abbrev device : Caller
device = record { server_url = codes "http://a"; device_hash = codes "h"; jwt = codes "t" }

login_test : (login_request device [] []).url ≡ codes "http://a/api/auth/login"
unfolding login_request request_of
login_test = refl

abbrev exchange : Exchange World
exchange = record {
  method = "PATCH";
  req_pathname = codes "api/users/1/e2ee_participants/2/prekey_bundle";
  route_pathname = none;
  params = none;
  objects = [];
  world = record {
    context = record {
      auth_user_id = none;
      auth_user = none;
      e2ee_participant_id = none;
      e2ee_participant = none;
      access_token = none;
      refresh_token = none;
      token_expires_at = none;
    };
    device_hash = none;
    device_hash_header = none;
    flush = none;
    body = other_body;
    now = 0;
    db = migrated;
  };
}

requires-device_hash_example :
    let refused = λ (y : Exchange World).
      ends y (throws (truthy (bad_request "The `X-Device-Hash` header is required"))) in
    let updates = arrived (update_bundle_request device 1 2 ([], [], [])) exchange in
    let uploads = arrived (create_many_request device 1 2 [] true) exchange in
    let creates = arrived (create_participant_request device 1 ([], [], [])) exchange in
    (require_device_hash.process updates ≡ refused updates)
    × (require_device_hash.process uploads ≡ refused uploads)
    × (require_device_hash.process creates
        ≡ goes_on
            (record creates { world = record creates.world { device_hash = some (codes "h") } }))
requires-device_hash_example =
    requires-device_hash (codes "http://a") (codes "t") b'h' [] 1 2 ([], [], []) [] true exchange

-- a server that refuses all, and counts
abbrev refusing : Fetch (Unit {0}) ℕ
refusing request n = (some (record { status = 400; ok = false; body_json = tt }), suc n)

abbrev bodies : Bodies (Unit {0})
bodies = record {
  participant = λ j. record { id = 0; pub_identity_key = [] };
  access_token = λ j. [];
  account = λ j. record { user_id = 0; participant = none; access_token = [] };
  fields = λ j. [];
}

abbrev signed_in : Client ℕ
signed_in = record before { jwt = codes "t" }

refused-throws_example :
    let env = record surroundings { api = api refusing bodies (codes "http://a") (codes "h") } in
    (publish_payload env 7 ([], [], []) signed_in ≡ (C.End.throws, record signed_in { server = 1 }))
    × (publish_keys env 7 [] true signed_in ≡ (C.End.throws, record signed_in { server = 1 }))
refused-throws_example =
    refused-throws refusing bodies (codes "http://a") (codes "h") surroundings 7 ([], [], []) []
      true (record { id = 8; pub_identity_key = 1 ∷ [] }) b't' [] signed_in refl refl refl refl
