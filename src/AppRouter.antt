-- ===== src/AppRouter.antt =====
-- core/router/app-router.ts, router-request.factory.ts and router-response.ts: from the platform's
-- request to the platform's response. What the constructor of `Response` refuses, and `JSON`, are
-- parameters.
pub mod Statuses
mod Tests
use nerdhub_chat_cli_prototy.Common.{
  ℕ, ◌+◌, Bool, true, false, not, ◌&&◌, Option, none, some, List, [], ◌∷◌, ◌++◌, String, Text,
  codes, ◌==◌, nat_same, if◌then◌else◌,
}
use nerdhub_chat_cli_prototy.Router.{
  Unknown, truthy, unmatched_request, syntax_error, type_error, invalid_parameter_type,
  RegExpEngine, Exchange, Router,
}
use nerdhub_chat_cli_prototy.Router.Channel.{
  Outcome, fulfilled, rejects, channel_request_through_request_handlers,
}

-- The platform's response.
pub record Response : Type 0 where
  pub status : ℕ
  pub content_type : Text
  pub body : Option Text

-- What a caught value is, by the tests with `instanceof`: the router's request errors with their
-- message, the error for an unmatched request with its request's method and pathname, any other
-- error with its stack, or no error at all.
pub data Caught : Type 0 where
  body_parse_error unsupported_media_type_error : Text → Caught
  unmatched_error : Text → Text → Caught
  error : Option Text → Caught
  no_error : Caught

-- What `JSON.stringify` makes of a value: a text or undefined, or it throws, an error with its
-- message or something else.
pub data Stringified : Type 0 where
  stringified : Option Text → Stringified
  throws_on : Option Text → Stringified

-- The body of a RouterResponse by the tests of toDenoResponse.
pub data ResponseBody : Type 0 where
  no_body : ResponseBody
  text : Text → ResponseBody
  object : Stringified → ResponseBody
  other : Text → ResponseBody

pub record RouterResponse : Type 0 where
  pub status : Option ℕ
  pub content_type : Option Text
  pub body : ResponseBody

-- What handlers return, by the tests of handleDenoRequest; `object` also stands for null.
pub data HandlersResponse : Type 0 where
  router_response : RouterResponse → HandlersResponse
  deno_response : Response → HandlersResponse
  object : Stringified → HandlersResponse
  primitive : Text → HandlersResponse

-- HttpResponseStatus
abbrev pub ok : ℕ
ok = 200

abbrev pub no_content : ℕ
no_content = 204

abbrev pub bad_request : ℕ
bad_request = 400

abbrev pub not_found : ℕ
not_found = 404

abbrev pub timeout : ℕ
timeout = 408

abbrev pub unsupported_media_type : ℕ
unsupported_media_type = 415

abbrev pub internal_server_error : ℕ
internal_server_error = 500

abbrev pub or_status : Option ℕ → ℕ → ℕ
or_status none n = n
or_status (some status) n = status

abbrev or_text : Option Text → Text → Text
or_text none t = t
or_text (some s) t = s

-- The platform: whether the constructor of `Response` takes a status, with a body or without, and
-- the stack of the errors that it and the router's own code throw.
pub record Platform : Type 0 where
  pub admits : ℕ → Bool → Bool
  pub stack : Option Text

-- What is tried: a response, or something is thrown.
pub data Attempt : Type 0 where
  responds : Response → Attempt
  throws : Caught → Attempt

abbrev is_body : Option Text → Bool
is_body none = false
is_body (some b) = true

-- `new Response(body, { status, headers })`
unfoldable pub new_response : Platform → ℕ → Text → Option Text → Attempt
new_response platform status content_type body =
    if platform.admits status (is_body body)
    then responds (record { status = status; content_type = content_type; body = body })
    else throws (error platform.stack)

abbrev pub application_text : Text
application_text = codes "application/text"

abbrev pub internal_error_text : Text
internal_error_text = codes "Internal server error"

-- RouterResponse: `setStatus`, `setContentType`, `json` and `text`
unfoldable pub set_status : ℕ → RouterResponse → RouterResponse
set_status status r = record r { status = some status }

unfoldable pub set_content_type : Text → RouterResponse → RouterResponse
set_content_type type r = record r { content_type = some type }

unfoldable pub set_json : ResponseBody → RouterResponse → RouterResponse
set_json body r = record r { content_type = some (codes "application/json"); body = body }

unfoldable pub set_text : ResponseBody → RouterResponse → RouterResponse
set_text body r = record r { content_type = some (codes "text/plain"); body = body }

abbrev pub new_router_response : RouterResponse
new_router_response = record { status = none; content_type = none; body = no_body }

abbrev error_body : Option Text → Text
error_body none = internal_error_text
error_body (some message) = internal_error_text ++ codes ":" ++ (10 ∷ message)

-- a body, or the message of the error that made it fail
abbrev body_of : Option ℕ → ResponseBody → Stringified
body_of status body = if or_status status ok == no_content then stringified none else elim body [
  | no_body ↦ stringified (some [])
  | text t ↦ stringified (some t)
  | object o ↦ o
  | other t ↦ stringified (some t)
]

-- `toDenoResponse`; a status that was not set is the platform's default, 200
unfoldable pub to_deno_response : Platform → RouterResponse → Attempt
unfolding new_response
to_deno_response platform r = elim (body_of r.status r.body) [
  | stringified body ↦
      new_response platform (or_status r.status ok) (or_text r.content_type (codes "text/plain"))
        body
  | throws_on message ↦
      new_response platform internal_server_error application_text (some (error_body message))
]

-- what is made of a value that handlers return
unfoldable pub reply : Platform → HandlersResponse → Option ℕ → Attempt
unfolding to_deno_response
reply platform (router_response r) status = to_deno_response platform r
reply platform (deno_response r) status = responds r
reply platform (object (stringified body)) status =
    new_response platform (or_status status ok) (codes "application/json") body
reply platform (object (throws_on none)) status = throws no_error
reply platform (object (throws_on (some message))) status = throws (error platform.stack)
reply platform (primitive t) status =
    new_response platform (or_status status ok) application_text (some t)

-- the response to a caught value: its status, and its body where the stack of errors is returned or
-- not
unfoldable pub error_response : Bool → Caught → ℕ × Text
error_response return_stack (body_parse_error message) = (bad_request, message)
error_response return_stack (unsupported_media_type_error message) =
    (unsupported_media_type, message)
error_response return_stack (unmatched_error method pathname) =
    (not_found, codes "Cannot " ++ method ++ codes " " ++ pathname)
error_response return_stack (error (some (c ∷ stack))) = (
  internal_server_error,
  if return_stack then internal_error_text ++ (10 ∷ c ∷ stack) else internal_error_text,
)
error_response return_stack _ = (internal_server_error, internal_error_text)

-- The platform's request: `body` is there with what parsing it gives, and `is_json` is whether its
-- content type includes "application/json".
pub record DenoRequest (B : Type 0) : Type 0 where
  pub method : String
  pub pathname : Text
  pub is_json : Bool
  pub body : Option (Option B)

-- `new ConcreteRouterRequest`
abbrev pub new_exchange : {W B : Type 0} → (Option B → W) → DenoRequest B → Option B → Exchange W
new_exchange world q b = record {
  method = q.method;
  req_pathname = q.pathname;
  route_pathname = none;
  params = none;
  objects = [];
  world = world b;
}

-- `createFromDenoRequest`; `world` makes of the body all that handlers act on
unfoldable pub create_from_deno_request :
    {W B : Type 0} → (Option B → W) → DenoRequest B → (Exchange W → Attempt) → Attempt
create_from_deno_request world q channel = elim q.body [
  | none ↦ channel (new_exchange world q none)
  | some parsed ↦
      if not q.is_json
      then throws (
          unsupported_media_type_error
            (codes "Only the 'application/json' content-type is allowed"))
      else elim parsed [
        | none ↦ throws (body_parse_error (codes "Failed to parse the request body into JSON"))
        | some b ↦ channel (new_exchange world q (some b))
      ]
]

-- AppRouter: the configuration, and how its request timeout is printed
pub record Config : Type 0 where
  pub return_error_stack : Bool
  pub timeout_text : Text

abbrev timeout_message : Config → Text
timeout_message c =
    codes "Request took too long to be processed."
    ++ (10 ∷ codes "Timeout of ")
    ++ c.timeout_text
    ++ codes "ms exceeded."

-- the `catch` of `handleDenoRequest`: none is a rejected promise
unfoldable pub catch_error : Platform → Bool → Attempt → Option Response
unfolding new_response error_response
catch_error platform return_stack (responds r) = some r
catch_error platform return_stack (throws c) =
    let (status, body) = error_response return_stack c in
    elim (new_response platform status application_text (some body)) [
      | responds r ↦ some r
      | throws _ ↦ none
    ]

module _ {W E : Type 0} (platform : Platform) (kind : E → Caught) (config : Config) where
  -- what a rejection is caught as
  unfoldable pub caught : Exchange W → Unknown E → Caught
  caught x (truthy e) = kind e
  caught x unmatched_request = unmatched_error (codes x.method) x.req_pathname
  caught x syntax_error = error platform.stack
  caught x type_error = error platform.stack
  caught x invalid_parameter_type = error platform.stack
  caught x _ = no_error

  -- what follows the channeling of the request
  unfoldable pub after_channeling : Outcome W HandlersResponse E → Attempt
  unfolding reply caught
  after_channeling (fulfilled x none status) =
      new_response platform timeout application_text (some (timeout_message config))
  after_channeling (fulfilled x (some value) status) = reply platform value status
  after_channeling (rejects x e) = throws (caught x e)

  unfoldable pub handle_deno_request :
      {B : Type 0}
      → RegExpEngine
      → (Option B → W)
      → Router W HandlersResponse E
      → DenoRequest B
      → Option Response
  unfolding catch_error create_from_deno_request after_channeling
      channel_request_through_request_handlers
  handle_deno_request engine world r q = catch_error platform config.return_error_stack (
      create_from_deno_request world q
        (λ x. after_channeling (channel_request_through_request_handlers engine r x)))
