-- ===== src/AppRouter/Tests.antt =====
-- Runs of an app router.
use nerdhub_chat_cli_prototy.Common.{
  ℕ, ◌≡◌, refl, true, false, not, ◌||◌, Option, none, some, [], ◌∷◌, codes, ◌==◌, nat_same,
  if◌then◌else◌,
}
use nerdhub_chat_cli_prototy.Router.{
  truthy, RegExpEngine, mismatch, Exchange, Handler, returns, throws as throws_error, Router,
  no_entries, entry, processing, no_handlers, handler,
}
use nerdhub_chat_cli_prototy.Router.Channel.{channel_request_through_request_handlers, rejects}
use nerdhub_chat_cli_prototy.AppRouter.{
  Caught, error, HandlersResponse, object, stringified, Platform, Config, DenoRequest,
  handle_deno_request, responds, caught, new_exchange, application_text, internal_error_text,
  bad_request, unsupported_media_type, internal_server_error, set_status, set_text, text,
  new_router_response, to_deno_response,
}
use nerdhub_chat_cli_prototy.AppRouter.Statuses.{
  AdmitsErrors, handle_deno_request-bad_body, handle_deno_request-hides_stack,
}

-- A platform that takes a status of 204 only without a body.
abbrev platform : Platform
platform = record {
  admits = λ status has_body. not (status == 204) || not has_body;
  stack = some (codes "at line 1");
}

platform-AdmitsErrors : AdmitsErrors platform
platform-AdmitsErrors = record {
  admits_400 = refl;
  admits_404 = refl;
  admits_415 = refl;
  admits_500 = refl;
}

abbrev engine : RegExpEngine
engine = record { match = λ pattern text. mismatch; remove = λ pattern text. some text }

abbrev kind : ℕ → Caught
kind e = error (some (codes "secret"))

abbrev config : Config
config = record { return_error_stack = false; timeout_text = codes "30000" }

abbrev world : Option ℕ → ℕ
world none = 0
world (some b) = b

abbrev get_a : DenoRequest ℕ
get_a = record { method = "GET"; pathname = codes "/a"; is_json = false; body = none }

abbrev answering : Option ℕ → Handler ℕ HandlersResponse ℕ
answering status = record {
  arity = 2;
  process = λ x. record {
    exchange = x;
    nexts = [];
    settled = returns (some (object (stringified (some (codes "{}")))));
  };
  handle_error = λ e x. record { exchange = x; nexts = []; settled = returns none };
  http_response_status = status;
}

abbrev throwing : Handler ℕ HandlersResponse ℕ
throwing = record (answering none) {
  process = λ x. record { exchange = x; nexts = []; settled = throws_error (truthy 3) };
}

abbrev serving : Handler ℕ HandlersResponse ℕ → Router ℕ HandlersResponse ℕ
serving f = entry (processing none none (handler f no_handlers)) no_entries

created_test :
    handle_deno_request platform kind config engine world (serving (answering (some 201))) get_a
    ≡ some
        (record { status = 201; content_type = codes "application/json"; body = some (codes "{}") })
unfolding handle_deno_request
created_test = refl

-- An object that is returned with the status 204 is answered with 500.
no_content_test :
    handle_deno_request platform kind config engine world (serving (answering (some 204))) get_a
    ≡ some
        (record { status = 500; content_type = application_text; body = some internal_error_text })
unfolding handle_deno_request
no_content_test = refl

-- A RouterResponse with the status 204 is answered without its body.
signed_out_test :
    to_deno_response platform
      (set_text (text (codes "Signed out")) (set_status 204 new_router_response))
    ≡ responds (record { status = 204; content_type = codes "text/plain"; body = none })
unfolding to_deno_response set_text set_status
signed_out_test = refl

abbrev bad_body : DenoRequest ℕ
bad_body = record get_a { is_json = true; body = some none }

handle_deno_request-bad_body_example :
    handle_deno_request platform kind config engine world (serving throwing) bad_body
    ≡ some (
        if true
        then record {
          status = bad_request;
          content_type = application_text;
          body = some (codes "Failed to parse the request body into JSON");
        }
        else record {
          status = unsupported_media_type;
          content_type = application_text;
          body = some (codes "Only the 'application/json' content-type is allowed");
        })
handle_deno_request-bad_body_example =
    handle_deno_request-bad_body platform kind config engine world (serving throwing) bad_body none
      platform-AdmitsErrors refl refl

abbrev thrown_at : Exchange ℕ
thrown_at = record (new_exchange world get_a none) { params = some 0; objects = [] ∷ [] }

thrown :
    channel_request_through_request_handlers engine
      (serving throwing)
      (new_exchange world get_a none)
    ≡ rejects thrown_at (truthy 3)
unfolding channel_request_through_request_handlers
thrown = refl

handle_deno_request-hides_stack_example :
    handle_deno_request platform kind config engine world (serving throwing) get_a
    ≡ some (record {
      status = internal_server_error;
      content_type = application_text;
      body = some internal_error_text;
    })
unfolding caught
handle_deno_request-hides_stack_example =
    handle_deno_request-hides_stack platform kind config engine world (serving throwing) get_a
      thrown_at (truthy 3) (some (codes "secret")) platform-AdmitsErrors refl thrown refl refl
