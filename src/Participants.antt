-- ===== src/Participants.antt =====
-- The endpoints of end-to-end encryption participants: their controllers
-- (server/controller/e2ee-participant.controller.ts,
-- server/controller/e2ee-participant-onetime-prekey.controller.ts), and the decorators and middlewares
-- around them (server/decorators, server/middlewares), as handlers of the router.
pub mod Controllers
pub mod Refusal
pub mod Reports
mod Tests
use nerdhub_chat_cli_prototy.Common.{
  ℕ, Bool, true, false, Option, none, some, List, [], ◌∷◌, String, Text, codes, ◌==◌, nat_same,
  text_same,
}
use nerdhub_chat_cli_prototy.Common.JsMap
use nerdhub_chat_cli_prototy.Pathname.{Params, ParamValue, single, many, other}
use nerdhub_chat_cli_prototy.Persistence.{
  BundleRecord, E2eeParticipant, User, OnetimePreKey, Database, Sql, Result, ok, err,
  create_participant, find_participant_by_id, update_pre_key_bundle_by_id,
  create_many_by_participant_id, find_many_by_participant_id,
}
use nerdhub_chat_cli_prototy.Auth.{
  Error, Context, bad_request, forbidden, driver_error, type_error, request_exception,
}
use nerdhub_chat_cli_prototy.Router.{
  Unknown, undefined, truthy, Exchange, object_at, Settled, returns, throws, Behaviour, Handler,
}
use nerdhub_chat_cli_prototy.Router.Decorators.{
  Before, on_request, set_http_response_status, autobind,
}

-- The body of a request after its validation, which a route without one leaves as it is.
pub data RequestBody : Type 0 where
  bundle_body : BundleRecord → RequestBody
  prekeys_body : List (Text × Text) → RequestBody
  other_body : RequestBody

-- What handlers act on beside the exchange: the request's context, headers, query and body, the time
-- and the tables.
pub record World : Type 0 where
  pub context : Context
  pub device_hash : Option Text
  pub device_hash_header : Option Text
  pub flush : Option Text
  pub body : RequestBody
  pub now : ℕ
  pub db : Database

-- What handlers return, a response that an error handler makes among them.
pub data Reply : Type 0 where
  participant : Option E2eeParticipant → Reply
  onetime_prekeys : List OnetimePreKey → Reply
  failure : ℕ → String → Reply

abbrev pub ServerHandler : Type 0
ServerHandler = Handler World Reply Error

abbrev pub ends : Exchange World → Settled Reply Error → Behaviour World Reply Error
ends x s = record { exchange = x; nexts = []; settled = s }

-- a handler's call of `next()` at its end
abbrev pub goes_on : Exchange World → Behaviour World Reply Error
goes_on x = record { exchange = x; nexts = undefined ∷ []; settled = returns none }

abbrev pub processing_handler : (Exchange World → Behaviour World Reply Error) → ServerHandler
processing_handler process = record {
  arity = 3;
  process = process;
  handle_error = λ error. process;
  http_response_status = none;
}

abbrev pub param_at : Text → Exchange World → Option ParamValue
param_at name x = elim x.params [ none ↦ none | some n ↦ JsMap.get name (object_at n x.objects) ]

-- requireDeviceHash
abbrev pub required_hash : Exchange World → Option Text → Behaviour World Reply Error
required_hash x none =
    ends x (throws (truthy (bad_request "The `X-Device-Hash` header is required")))
required_hash x (some []) =
    ends x (throws (truthy (bad_request "The `X-Device-Hash` header is required")))
required_hash x (some (c ∷ s)) =
    goes_on (record x { world = record x.world { device_hash = some (c ∷ s) } })

unfoldable pub require_device_hash : ServerHandler
require_device_hash = processing_handler (λ x. required_hash x x.world.device_hash_header)

-- validateRequestBodySchema: `parse` is the schema's; none is a ZodError with the message.
unfoldable pub validate_request_body_schema :
    (RequestBody → Option RequestBody) → String → ServerHandler
validate_request_body_schema parse message = processing_handler (λ x. elim (parse x.world.body) [
  | some body ↦ goes_on (record x { world = record x.world { body = body } })
  | none ↦ ends x (throws (truthy (request_exception 422 message)))
])

-- `number_of` gives the numbers among the values that handlers put among the parameters.
module _ (number_of : ℕ → Option ℕ) where
  -- `id === param`
  abbrev pub is_same_id : ℕ → Option ParamValue → Bool
  is_same_id id none = false
  is_same_id id (some (single s)) = false
  is_same_id id (some (many parts)) = false
  is_same_id id (some (other n)) = elim (number_of n) [ none ↦ false | some m ↦ id == m ]

  abbrev pub checked : Bool → String → Exchange World → Exchange World × Option (Unknown Error)
  checked true message x = (x, none)
  checked false message x = (x, some (truthy (forbidden message)))

  abbrev pub match_user : Exchange World → Option User → Exchange World × Option (Unknown Error)
  match_user x none = (x, none)
  match_user x (some user) =
      checked (is_same_id user.id (param_at (codes "userId") x))
        "Your user id does not match the `userId` request parameter" x

  unfoldable pub auth_user_matches_user_id_param : ServerHandler → ServerHandler
  auth_user_matches_user_id_param f = on_request (λ x. match_user x x.world.context.auth_user) f

  abbrev pub match_participant :
      Exchange World → Option E2eeParticipant → Exchange World × Option (Unknown Error)
  match_participant x none = (x, none)
  match_participant x (some p) =
      checked (is_same_id p.id (param_at (codes "e2eeParticipantId") x))
        "Your e2ee participant id does not match the `e2eeParticipantId` request parameter" x

  unfoldable pub auth_participant_matches_participant_id_param : ServerHandler → ServerHandler
  auth_participant_matches_participant_id_param f =
      on_request (λ x. match_participant x x.world.context.e2ee_participant) f
