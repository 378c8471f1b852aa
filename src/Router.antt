-- ===== src/Router.antt =====
-- core/router/router.ts: what a router keeps, the exchange that it channels, and the handlers.
-- A handler is code of the router's user: a function from the exchange to what it makes of it. It
-- calls `next` only before it settles. The execution of regular expressions is a parameter.
pub mod Registration
pub mod Prepare
pub mod Rounds
pub mod Channel
pub mod Order
pub mod Errors
pub mod Calls
pub mod Origin
pub mod Decorators
mod Tests
use nerdhub_chat_cli_prototy.Common.{
  ℕ, zero, suc, Bool, true, false, Option, none, some, List, [], ◌∷◌, ◌++◌, length, String, Text,
  ◌==◌, nat_same,
}
use nerdhub_chat_cli_prototy.Pathname.{RoutePathnameParamType, Params, normalize_request_pathname}

-- A value of type `unknown` as the router tells such values apart: undefined, null, the other falsy
-- ones and the truthy ones; of the latter, those that the router or the platform throws by itself.
pub data Unknown {ℓ} (E : Type ℓ) : Type ℓ where
  undefined null : Unknown E
  falsy truthy : E → Unknown E
  syntax_error type_error invalid_parameter_type unmatched_request : Unknown E

abbrev pub is_nullish {ℓ} : {E : Type ℓ} → Unknown E → Bool
is_nullish undefined = true
is_nullish null = true
is_nullish _ = false

abbrev pub is_truthy {ℓ} : {E : Type ℓ} → Unknown E → Bool
is_truthy undefined = false
is_truthy null = false
is_truthy (falsy e) = false
is_truthy _ = true

-- What `String.prototype.match` gives for a pattern: the constructor of `RegExp` may throw, and
-- there are groups only where the pattern has named ones.
pub data MatchResult : Type 0 where
  invalid mismatch : MatchResult
  matched : Option (List (Text × Text)) → MatchResult

-- The platform's regular expressions: `match pattern text`, and `remove pattern text`, which is the
-- text without the pattern's first match, or none where the pattern is invalid.
pub record RegExpEngine : Type 0 where
  pub match : Text → Text → MatchResult
  pub remove : Text → Text → Option Text

-- matchRequestPathnameWithRoutePathname of core/router/router.core.utils.ts
unfoldable pub match_request_pathname_with_route_pathname : RegExpEngine → Text → Text → MatchResult
match_request_pathname_with_route_pathname engine req_pathname pattern =
    engine.match pattern (normalize_request_pathname req_pathname)

-- The request and the response while they are channeled. Objects with parameters are shared by
-- reference: `objects` holds them in the order of creation, and `params` is a place in it. `world`
-- is all else that handlers act on.
pub record Exchange {ℓ} (W : Type ℓ) : Type ℓ where
  pub method : String
  pub req_pathname : Text
  pub route_pathname : Option Text
  pub params : Option ℕ
  pub objects : List Params
  pub world : W

abbrev pub object_at : ℕ → List Params → Params
object_at n [] = []
object_at zero (o ∷ os) = o
object_at (suc n) (o ∷ os) = object_at n os

-- How a handler's promise is settled. `none` is the value undefined.
pub data Settled {ℓ} (R E : Type ℓ) : Type ℓ where
  returns : Option R → Settled R E
  throws : Unknown E → Settled R E

-- What a call of a handler does: the exchange that it leaves, the arguments of its calls of `next`
-- in order, and how it settles.
pub record Behaviour {ℓ} (W R E : Type ℓ) : Type ℓ where
  pub exchange : Exchange W
  pub nexts : List (Unknown E)
  pub settled : Settled R E

-- A function that is registered: its `length`, how it behaves with three arguments and with four,
-- and its property `httpResponseStatus`.
pub record Handler {ℓ} (W R E : Type ℓ) : Type ℓ where
  pub arity : ℕ
  pub process : Exchange W → Behaviour W R E
  pub handle_error : Unknown E → Exchange W → Behaviour W R E
  pub http_response_status : Option ℕ

-- isRequestErrorHandler of core/router/router.core.utils.ts, of a function
unfoldable pub is_request_error_handler {ℓ} : {W R E : Type ℓ} → Handler W R E → Bool
is_request_error_handler handler = handler.arity == 4

pub record PathnameData : Type 0 where
  pub value : Text
  pub reg_exp_pattern : Text
  pub params_types : List (Text × RoutePathnameParamType)

-- A router's entries, and the handlers of an entry, among which other routers may stand.
mutual
  pub data Router {ℓ} (W R E : Type ℓ) : Type ℓ where
    no_entries : Router W R E
    entry : Entry W R E → Router W R E → Router W R E

  pub data Entry {ℓ} (W R E : Type ℓ) : Type ℓ where
    processing : Option String → Option PathnameData → Handlers W R E → Entry W R E
    error_handling : Handler W R E → Entry W R E

  pub data Handlers {ℓ} (W R E : Type ℓ) : Type ℓ where
    no_handlers : Handlers W R E
    handler : Handler W R E → Handlers W R E → Handlers W R E
    router : Router W R E → Handlers W R E → Handlers W R E

-- `createRouter`
unfoldable pub create {ℓ} : {W R E : Type ℓ} → Router W R E
create = no_entries
