-- ===== src/Router/Registration.antt =====
-- Registering entries: `use`, `get`, `post`, `put`, `patch` and `delete` of core/router/router.ts.
-- `none` is the error for a misplaced wildcard, which leaves the router as it was.
use nerdhub_chat_cli_prototy.Common.{Option, none, some, String, Text, if◌then◌else◌}
use nerdhub_chat_cli_prototy.Pathname.{
  normalize_request_pathname, get_route_pathname_reg_exp_pattern, RegExpPatternData,
}
use nerdhub_chat_cli_prototy.Router.{
  Handler, is_request_error_handler, Router, no_entries, entry, Entry, processing, error_handling,
  Handlers, handler, router,
}

-- The first argument, which may be a pathname, a function, or a router.
pub data FirstArgument {ℓ} (W R E : Type ℓ) : Type ℓ where
  pathname : Text → FirstArgument W R E
  function : Handler W R E → FirstArgument W R E
  sub_router : Router W R E → FirstArgument W R E

module _ {ℓ} {W R E : Type ℓ} where
  -- `push` on the list of entries
  unfoldable pub push : Entry W R E → Router W R E → Router W R E
  push e no_entries = entry e no_entries
  push e (entry d r) = entry d (push e r)

  -- `[arg0, ...restArgs]`, where the first argument is no pathname
  abbrev with_first : FirstArgument W R E → Handlers W R E → Handlers W R E
  with_first (pathname p) rest = rest
  with_first (function f) rest = handler f rest
  with_first (sub_router r) rest = router r rest

  abbrev pub push_under :
      Option String
      → Text
      → Option RegExpPatternData
      → Handlers W R E
      → Router W R E
      → Option (Router W R E)
  push_under method value none rest r = none
  push_under method value (some d) rest r = some (
      push
        (processing method
          (some (record {
            value = value;
            reg_exp_pattern = d.reg_exp_pattern;
            params_types = d.params_types;
          }))
          rest)
        r)

  -- an entry of request processing handlers, under a pathname or not
  unfoldable pub register_entry :
      Option String → FirstArgument W R E → Handlers W R E → Router W R E → Option (Router W R E)
  unfolding normalize_request_pathname get_route_pathname_reg_exp_pattern push
  register_entry method (pathname p) rest r =
      push_under method (normalize_request_pathname p)
        (get_route_pathname_reg_exp_pattern (normalize_request_pathname p)) rest r
  register_entry method first rest r =
      some (push (processing method none (with_first first rest)) r)

  unfoldable pub register :
      FirstArgument W R E → Handlers W R E → Router W R E → Option (Router W R E)
  unfolding is_request_error_handler register_entry
  register (function f) rest r =
      if is_request_error_handler f
      then some (push (error_handling f) r)
      else register_entry none (function f) rest r
  register first rest r = register_entry none first rest r

  unfoldable pub register_for_http_method :
      String → FirstArgument W R E → Handlers W R E → Router W R E → Option (Router W R E)
  unfolding register_entry
  register_for_http_method method first rest r = register_entry (some method) first rest r

  unfoldable pub get : FirstArgument W R E → Handlers W R E → Router W R E → Option (Router W R E)
  unfolding register_for_http_method
  get = register_for_http_method "GET"

  unfoldable pub post : FirstArgument W R E → Handlers W R E → Router W R E → Option (Router W R E)
  unfolding register_for_http_method
  post = register_for_http_method "POST"

  unfoldable pub put : FirstArgument W R E → Handlers W R E → Router W R E → Option (Router W R E)
  unfolding register_for_http_method
  put = register_for_http_method "PUT"

  unfoldable pub patch : FirstArgument W R E → Handlers W R E → Router W R E → Option (Router W R E)
  unfolding register_for_http_method
  patch = register_for_http_method "PATCH"

  unfoldable pub delete :
      FirstArgument W R E → Handlers W R E → Router W R E → Option (Router W R E)
  unfolding register_for_http_method
  delete = register_for_http_method "DELETE"
