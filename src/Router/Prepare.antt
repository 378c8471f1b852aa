-- ===== src/Router/Prepare.antt =====
-- What channelRequestThroughRequestHandlers of core/router/router.ts does with an entry before its
-- handlers are called: the method, the pathname, the parameters.
use nerdhub_chat_cli_prototy.Common.{
  ℕ, Bool, true, Option, none, some, List, [], ◌∷◌, ◌++◌, length, String, string_same, Text,
  text_same, ◌==◌, if◌then◌else◌,
}
use nerdhub_chat_cli_prototy.Common.JsMap
use nerdhub_chat_cli_prototy.Pathname.{slash, Params, build_request_parameters}
use nerdhub_chat_cli_prototy.Pathname.Rewriting.{
  remove_ending_dollar_sign, remove_wildcard_param, append_wildcard_to_reg_exp_pattern,
}
use nerdhub_chat_cli_prototy.Router.{
  MatchResult, invalid, mismatch, matched, RegExpEngine, match_request_pathname_with_route_pathname,
  Exchange, object_at, PathnameData,
}

-- What the router that calls this one hands over; a root router is given the defaults that stand
-- behind `??`, and no object with parameters.
pub record Props : Type 0 where
  pub route_pathname : Text
  pub params : Option ℕ
  pub matched_request_pathname : Text

-- Whether an entry is for a method.
abbrev pub is_for_method : Option String → String → Bool
is_for_method none method = true
is_for_method (some m) method = m == method

abbrev pub known_params : Option ℕ → List Params → Params
known_params none objects = []
known_params (some n) objects = object_at n objects

-- the pathname that is left for a sub-router: `none` is an error of the constructor of `RegExp`
unfoldable pub sub_router_pathname : RegExpEngine → Text → PathnameData → Option Text
unfolding remove_ending_dollar_sign remove_wildcard_param
sub_router_pathname engine pathname d =
    engine.remove (remove_ending_dollar_sign (remove_wildcard_param d.reg_exp_pattern)) pathname

-- What may be thrown before the handlers: by the constructor of `RegExp`, or for a parameter.
pub data Failure : Type 0 where
  bad_pattern bad_parameter : Failure

-- An entry is skipped, the promise is rejected, or the exchange is ready for the entry's handlers,
-- with the place of the entry's object with parameters.
pub data Prepared {ℓ} (W : Type ℓ) : Type ℓ where
  skipped : Prepared W
  failed : Failure → Prepared W
  ready : ℕ → Exchange W → Prepared W

module _ {ℓ} {W : Type ℓ} where
  -- A new object with parameters, and its place.
  abbrev pub allocate : Params → Exchange W → ℕ × Exchange W
  allocate params x = (length x.objects, record x { objects = x.objects ++ params ∷ [] })

  -- `rootRouterRequestHandlerProps?.params ?? {}`
  unfoldable pub initial_params : Option ℕ → Exchange W → ℕ × Exchange W
  initial_params none x = allocate [] x
  initial_params (some n) x = (n, x)

  abbrev ready_under : Props → PathnameData → ℕ × Exchange W → Prepared W
  ready_under p d (n, x) =
      ready n
        (record x { route_pathname = some (p.route_pathname ++ slash ∷ d.value); params = some n })

  abbrev ready_anywhere : ℕ × Exchange W → Prepared W
  ready_anywhere (n, x) = ready n (record x { params = some n })

  -- what is done with a match of the request's pathname
  unfoldable pub use_match : Props → PathnameData → Exchange W → MatchResult → Prepared W
  unfolding build_request_parameters initial_params
  use_match p d x invalid = failed bad_pattern
  use_match p d x mismatch = skipped
  use_match p d x (matched none) = ready_under p d (initial_params p.params x)
  use_match p d x (matched (some groups)) = elim (build_request_parameters groups d.params_types) [
    | none ↦ failed bad_parameter
    | some params ↦
        ready_under p d (allocate (JsMap.assign (known_params p.params x.objects) params) x)
  ]

  -- What is done before the loop over an entry's handlers. An object with parameters is made only
  -- for an entry that is not skipped, since no other is used.
  unfoldable pub prepare :
      RegExpEngine → Props → Option PathnameData → Bool → Exchange W → Prepared W
  unfolding append_wildcard_to_reg_exp_pattern match_request_pathname_with_route_pathname use_match
      initial_params
  prepare engine p none to_router x = ready_anywhere (initial_params p.params x)
  prepare engine p (some d) to_router x = use_match p d x (
      match_request_pathname_with_route_pathname engine p.matched_request_pathname (
        if to_router
        then append_wildcard_to_reg_exp_pattern d.reg_exp_pattern
        else d.reg_exp_pattern))
