-- ===== src/Router/Tests.antt =====
-- Runs of routers whose handlers write a number into the world.
use nerdhub_chat_cli_prototy.Common.{
  suc, ℕ, ◌≡◌, refl, inl, ◌+◌, false, Option, none, some, List, [], ◌∷◌, ◌++◌, string_same, codes,
  ◌==◌, text_same, if◌then◌else◌,
}
use nerdhub_chat_cli_prototy.Pathname.{
  normalize_request_pathname, get_route_pathname_reg_exp_pattern,
}
use nerdhub_chat_cli_prototy.Router.{
  Unknown, undefined, truthy, is_nullish, RegExpEngine, mismatch, matched, Exchange, returns,
  throws, Handler, PathnameData, Router, no_entries, entry, processing, error_handling, Handlers,
  no_handlers, handler, router,
}
use nerdhub_chat_cli_prototy.Router.Prepare.{prepare}
use nerdhub_chat_cli_prototy.Router.Rounds.{round_of_error_handler, next_entry}
use nerdhub_chat_cli_prototy.Router.Channel.{
  entries_loop, channel_request_through_request_handlers, fulfilled, root_props, initial_state,
}
use nerdhub_chat_cli_prototy.Router.Registration.{function, pathname, register, get}
use nerdhub_chat_cli_prototy.Router.Order.{append, register-fulfilled}
use nerdhub_chat_cli_prototy.Router.Decorators.{Before}
use nerdhub_chat_cli_prototy.Router.Errors.{RaisesIn, raised, raised_reaches}
use nerdhub_chat_cli_prototy.Router.Calls.{IsIn}
use nerdhub_chat_cli_prototy.Router.Origin.{IsTracedOutcome, channel_request-IsTracedOutcome}

-- An engine for patterns `^…$` without groups.
abbrev engine : RegExpEngine
engine = record {
  match =
      λ pattern text. if pattern == codes "^" ++ text ++ codes "$" then matched none else mismatch;
  remove = λ pattern text. some text;
}

abbrev request : Exchange ℕ
request = record {
  method = "GET";
  req_pathname = codes "/a";
  route_pathname = none;
  params = none;
  objects = [];
  world = 0;
}

abbrev plain : (ℕ → ℕ) → List (Unknown ℕ) → Handler ℕ ℕ ℕ
plain write nexts = record {
  arity = 2;
  process = λ x. record {
    exchange = record x { world = write x.world };
    nexts = nexts;
    settled = returns (some 7);
  };
  handle_error = λ e x. record { exchange = x; nexts = []; settled = returns (some 9) };
  http_response_status = some 201;
}

abbrev answering : Handler ℕ ℕ ℕ
answering = plain (λ n. n + 1) []

abbrev passing : Handler ℕ ℕ ℕ
passing = plain (λ n. n + 10) (undefined ∷ [])

abbrev recovering : Handler ℕ ℕ ℕ
recovering = record answering { arity = 4 }

abbrev throwing : Unknown ℕ → Handler ℕ ℕ ℕ
throwing e = record answering {
  process = λ x. record { exchange = x; nexts = []; settled = throws e };
}

abbrev anywhere : Handlers ℕ ℕ ℕ → Router ℕ ℕ ℕ
anywhere hs = entry (processing none none hs) no_entries

abbrev at_a : Option PathnameData
at_a = some (record { value = codes "a"; reg_exp_pattern = codes "^a$"; params_types = [] })

abbrev chain : Router ℕ ℕ ℕ
chain = entry (processing none none (handler passing no_handlers)) (
    entry (processing (some "POST") at_a (handler answering no_handlers))
      (entry (processing (some "GET") at_a (handler answering no_handlers)) no_entries))

abbrev answered : Exchange ℕ
answered = record request {
  route_pathname = some (codes "/a");
  params = some 1;
  objects = [] ∷ [] ∷ [];
  world = 11;
}

chain_test :
    channel_request_through_request_handlers engine chain request
    ≡ fulfilled answered (some 7) (some 201)
unfolding channel_request_through_request_handlers normalize_request_pathname
chain_test = refl

abbrev matching_all : RegExpEngine
matching_all = record { match = λ pattern text. matched none; remove = λ pattern text. some text }

-- A sub-router that goes through all its entries hands the request on; it shares the entry's object
-- with parameters.
sub_router_test :
    channel_request_through_request_handlers matching_all
      (entry
        (processing none at_a (
          handler passing
            (router (anywhere (handler passing no_handlers)) (handler answering no_handlers))))
        no_entries)
      request
    ≡ fulfilled
        (record answered { params = some 0; objects = [] ∷ []; world = 21 })
        (some 7)
        (some 201)
unfolding channel_request_through_request_handlers
sub_router_test = refl

get_test :
    get
      (pathname (codes "/a/"))
      (handler answering no_handlers)
      (anywhere (handler passing no_handlers))
    ≡ some (
        entry
          (processing none none (handler passing no_handlers))
          (entry (processing (some "GET") at_a (handler answering no_handlers)) no_entries))
unfolding get normalize_request_pathname get_route_pathname_reg_exp_pattern
get_test = refl

register-fulfilled_example :
    channel_request_through_request_handlers engine
      (entry (processing none none (handler passing no_handlers)) (
        entry (processing (some "POST") at_a (handler answering no_handlers)) (
          entry
            (processing (some "GET") at_a (handler answering no_handlers))
            (entry (error_handling recovering) no_entries))))
      request
    ≡ fulfilled answered (some 7) (some 201)
unfolding register
register-fulfilled_example =
    register-fulfilled engine "GET" (function recovering) no_handlers chain _ request (inl refl)
      chain_test

abbrev at_handler : Exchange ℕ
at_handler = record request { params = some 0; objects = [] ∷ [] }

throws-RaisesIn :
    (error : Unknown ℕ)
    → is_nullish error ≡ false
    → RaisesIn engine
        (root_props request)
        (initial_state request)
        error
        none
        none
        (throwing error)
        (handler answering no_handlers)
unfolding prepare
throws-RaisesIn error h = record {
  place = 0;
  exchange = at_handler;
  none_pending = refl;
  for_method = refl;
  is_ready = refl;
  raises = inl refl;
  pending = h;
}

raised_reaches_example :
    entries_loop engine
      (entry
        (processing none none (handler (throwing (truthy 5)) (handler answering no_handlers)))
        (append
          (anywhere (handler answering no_handlers))
          (entry (error_handling recovering) no_entries)))
      (root_props request)
      (initial_state request)
    ≡ next_entry (entries_loop engine no_entries (root_props request)) (
        round_of_error_handler recovering
          (raised (truthy 5) ((throwing (truthy 5)).process at_handler)))
unfolding throws-RaisesIn
raised_reaches_example =
    raised_reaches engine (root_props request) (initial_state request) (truthy 5) none none
      (throwing (truthy 5)) recovering (handler answering no_handlers)
      (anywhere (handler answering no_handlers)) no_entries (throws-RaisesIn (truthy 5) refl) tt

channel_request-IsTracedOutcome_example :
    IsTracedOutcome
      (λ f. IsIn f chain)
      0
      (channel_request_through_request_handlers engine chain request)
channel_request-IsTracedOutcome_example = channel_request-IsTracedOutcome engine chain request

abbrev counting : Before ℕ ℕ
counting x = (record x { world = suc x.world }, none)

abbrev refusing : Before ℕ ℕ
refusing x = (x, some (truthy 7))
