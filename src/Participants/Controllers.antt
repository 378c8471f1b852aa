-- ===== src/Participants/Controllers.antt =====
-- The controllers of participants (server/controller/e2ee-participant.controller.ts,
-- server/controller/e2ee-participant-onetime-prekey.controller.ts).
use nerdhub_chat_cli_prototy.Common.{ℕ, Bool, true, false, Option, none, some, [], ◌∷◌, Text}
use nerdhub_chat_cli_prototy.Persistence.{
  E2eeParticipant, Database, Sql, User, Result, ok, err, create_participant, find_participant_by_id,
  update_pre_key_bundle_by_id, create_many_by_participant_id, find_many_by_participant_id,
}
use nerdhub_chat_cli_prototy.Auth.{Error, driver_error, type_error}
use nerdhub_chat_cli_prototy.Router.{truthy, Exchange, returns, throws, Behaviour}
use nerdhub_chat_cli_prototy.Router.Decorators.{set_http_response_status, autobind}
use nerdhub_chat_cli_prototy.Participants.{
  World, Reply, participant, onetime_prekeys, RequestBody, bundle_body, prekeys_body, ServerHandler,
  ends, auth_user_matches_user_id_param, auth_participant_matches_participant_id_param,
}

abbrev pub with_db : Exchange World → Database → Exchange World
with_db x db = record x { world = record x.world { db = db } }

-- A method takes the request and the response.
abbrev pub method : (Exchange World → Behaviour World Reply Error) → ServerHandler
method process = record {
  arity = 2;
  process = process;
  handle_error = λ error. process;
  http_response_status = none;
}

-- a statement of the database or the platform fails
abbrev pub fails : Exchange World → Error → Behaviour World Reply Error
fails x e = ends x (throws (truthy e))

-- `!!flush`
abbrev pub is_set : Option Text → Bool
is_set none = false
is_set (some []) = false
is_set (some (c ∷ s)) = true

module _ (sql : Sql) (number_of : ℕ → Option ℕ) where
  abbrev pub participant_created :
      Exchange World → Result ℕ × Database → Behaviour World Reply Error
  participant_created x (err e, db) = fails (with_db x db) driver_error
  participant_created x (ok id, db) =
      ends (with_db x db) (returns (some (participant (find_participant_by_id sql id db))))

  abbrev pub create_for :
      Exchange World → Option User → Option Text → RequestBody → Behaviour World Reply Error
  create_for x (some user) (some hash) (bundle_body bundle) =
      participant_created x (create_participant sql x.world.now user.id hash bundle x.world.db)
  create_for x _ _ _ = fails x type_error

  -- handleCreateE2EEParticipant, without its decorators and with them
  abbrev pub create_method : ServerHandler
  create_method =
      method (λ x. create_for x x.world.context.auth_user x.world.device_hash x.world.body)

  unfoldable pub handle_create_e2ee_participant : ServerHandler
  handle_create_e2ee_participant =
      autobind
        (auth_user_matches_user_id_param number_of (set_http_response_status 201 create_method))

  abbrev pub bundle_updated :
      Exchange World → ℕ → Result (Unit {0}) × Database → Behaviour World Reply Error
  bundle_updated x id (err e, db) = fails (with_db x db) driver_error
  bundle_updated x id (ok u, db) =
      ends (with_db x db) (returns (some (participant (find_participant_by_id sql id db))))

  abbrev pub update_for :
      Exchange World → Option E2eeParticipant → RequestBody → Behaviour World Reply Error
  update_for x (some p) (bundle_body bundle) =
      bundle_updated x p.id (update_pre_key_bundle_by_id sql x.world.now p.id bundle x.world.db)
  update_for x _ _ = fails x type_error

  abbrev pub update_method : ServerHandler
  update_method = method (λ x. update_for x x.world.context.e2ee_participant x.world.body)

  unfoldable pub handle_update_e2ee_participant_pre_key_bundle : ServerHandler
  handle_update_e2ee_participant_pre_key_bundle = autobind (
      auth_participant_matches_participant_id_param number_of
        (auth_user_matches_user_id_param number_of update_method))

  abbrev pub prekeys_created :
      Exchange World → ℕ → Result (Unit {0}) × Database → Behaviour World Reply Error
  prekeys_created x id (err e, db) = fails (with_db x db) driver_error
  prekeys_created x id (ok u, db) =
      ends (with_db x db) (returns (some (onetime_prekeys (find_many_by_participant_id sql id db))))

  abbrev pub create_many_for :
      Exchange World → Option E2eeParticipant → RequestBody → Behaviour World Reply Error
  create_many_for x (some p) (prekeys_body dto) =
      prekeys_created x p.id
        (create_many_by_participant_id sql x.world.now p.id dto (is_set x.world.flush) x.world.db)
  create_many_for x _ _ = fails x type_error

  abbrev pub create_many_method : ServerHandler
  create_many_method = method (λ x. create_many_for x x.world.context.e2ee_participant x.world.body)

  unfoldable pub handle_create_many_onetime_prekeys : ServerHandler
  handle_create_many_onetime_prekeys = autobind (
      auth_participant_matches_participant_id_param number_of (
        auth_user_matches_user_id_param number_of
          (set_http_response_status 201 create_many_method)))
