-- ===== src/Participants/Tests.antt =====
-- A request for a participant, and the theorems about it at concrete inputs.
use nerdhub_chat_cli_prototy.Common.{
  length, ℕ, ◌≡◌, refl, inl, Option, false, none, some, [], ◌∷◌, codes, text_same, ◌==◌,
}
use nerdhub_chat_cli_prototy.Pathname.{single}
use nerdhub_chat_cli_prototy.Persistence.{Sql, BundleRecord, User}
use nerdhub_chat_cli_prototy.Persistence.Reachable.{migrated}
use nerdhub_chat_cli_prototy.Auth.{Context, bad_request}
use nerdhub_chat_cli_prototy.Router.{
  truthy, RegExpEngine, mismatch, Exchange, no_entries, entry, processing, handler, no_handlers,
}
use nerdhub_chat_cli_prototy.Router.Prepare.{prepare}
use nerdhub_chat_cli_prototy.Router.Channel.{
  root_props, initial_state, channel_request_through_request_handlers,
}
use nerdhub_chat_cli_prototy.Router.Errors.{RaisesIn}
use nerdhub_chat_cli_prototy.Participants.{World, bundle_body, require_device_hash}
use nerdhub_chat_cli_prototy.Participants.Controllers.{
  handle_create_e2ee_participant, handle_update_e2ee_participant_pre_key_bundle,
  handle_create_many_onetime_prekeys,
}
use nerdhub_chat_cli_prototy.Participants.Refusal.{IsRefused, endpoints-IsRefused}
use nerdhub_chat_cli_prototy.Participants.Reports.{error_entries, report, errors_reported}

abbrev sql : Sql
sql = record {
  same_text = λ a b. a == b;
  characters = length;
  bytes = length;
  by_created_at = λ rows. rows;
}

abbrev no_numbers : ℕ → Option ℕ
no_numbers n = none

abbrev bundle : BundleRecord
bundle = record {
  pub_identity_key = codes "a";
  pub_signed_prekey = codes "b";
  signed_prekey_signature = codes "c";
}

abbrev user : User
user = record {
  id = 1;
  fields = record {
    firstname = codes "A";
    lastname = codes "B";
    username = codes "ab";
    email = codes "a@b.c";
    password = [];
  };
  has_e2ee_participant = false;
  created_at = 0;
  updated_at = 0;
}

abbrev context : Context
context = record {
  auth_user_id = some (some 1);
  auth_user = some user;
  e2ee_participant_id = none;
  e2ee_participant = none;
  access_token = none;
  refresh_token = none;
  token_expires_at = none;
}

abbrev request : Exchange World
request = record {
  method = "POST";
  req_pathname = codes "api/users/1/e2ee_participants";
  route_pathname = none;
  params = some 0;
  objects = ((codes "userId", single (codes "1")) ∷ []) ∷ [];
  world = record {
    context = context;
    device_hash = some (codes "h");
    device_hash_header = none;
    flush = none;
    body = bundle_body bundle;
    now = 0;
    db = record migrated { users = user ∷ [] };
  };
}

-- The user asks for a participant of its own.
endpoints-IsRefused_example :
    let create = handle_create_e2ee_participant sql no_numbers in
    let update = handle_update_e2ee_participant_pre_key_bundle sql no_numbers in
    let create_many = handle_create_many_onetime_prekeys sql no_numbers in
    IsRefused sql no_numbers request (create.process request)
    × IsRefused sql no_numbers request (update.process request)
    × IsRefused sql no_numbers request (create_many.process request)
    × (create.http_response_status ≡ none)
    × (update.http_response_status ≡ none)
    × (create_many.http_response_status ≡ none)
endpoints-IsRefused_example = endpoints-IsRefused sql no_numbers request tt tt

abbrev engine : RegExpEngine
engine = record { match = λ pattern text. mismatch; remove = λ pattern text. some text }

abbrev at_handler : Exchange World
at_handler = record request {
  params = some 1;
  objects = ((codes "userId", single (codes "1")) ∷ []) ∷ [] ∷ [];
}

hash-RaisesIn :
    RaisesIn engine
      (root_props request)
      (initial_state request)
      (truthy (bad_request "The `X-Device-Hash` header is required"))
      none
      none
      require_device_hash
      no_handlers
unfolding prepare require_device_hash
hash-RaisesIn = record {
  place = 1;
  exchange = at_handler;
  none_pending = refl;
  for_method = refl;
  is_ready = refl;
  raises = inl refl;
  pending = refl;
}

errors_reported_example :
    channel_request_through_request_handlers engine
      (entry
        (processing none none (handler require_device_hash no_handlers))
        (error_entries "lost"))
      request
    ≡ report "lost" (bad_request "The `X-Device-Hash` header is required") at_handler
unfolding hash-RaisesIn require_device_hash
errors_reported_example =
    errors_reported engine "lost" request (bad_request "The `X-Device-Hash` header is required")
      none none require_device_hash no_handlers no_entries hash-RaisesIn tt
