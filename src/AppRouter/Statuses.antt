-- ===== src/AppRouter/Statuses.antt =====
-- The responses of an app router (core/router/app-router.ts).
use nerdhub_chat_cli_prototy.Common.{
  ℕ, ◌≡◌, refl, ap, ◌∙◌, Bool, true, false, ◌&&◌, Option, none, some, [], ◌∷◌, ◌++◌, Text, codes,
  nat_same, if◌then◌else◌, arith, inl, inr, Bool-cases,
}
use nerdhub_chat_cli_prototy.Router.{Unknown, RegExpEngine, Exchange, Router}
use nerdhub_chat_cli_prototy.Router.Channel.{
  rejects, root_props, channel_request_through_request_handlers,
}
use nerdhub_chat_cli_prototy.Router.Order.{AreNotFor, unmatched_request_lem}
use nerdhub_chat_cli_prototy.AppRouter.{
  Caught, error, body_parse_error, unsupported_media_type_error, unmatched_error, no_error,
  HandlersResponse, Platform, Attempt, responds, throws, new_response, application_text,
  internal_error_text, error_response, catch_error, Config, DenoRequest, new_exchange,
  create_from_deno_request, caught, after_channeling, handle_deno_request, bad_request, not_found,
  unsupported_media_type, internal_server_error,
}

-- The platform takes the statuses of errors, with a body.
pub record AdmitsErrors (platform : Platform) : Type 0 where
  pub admits_400 : platform.admits bad_request true ≡ true
  pub admits_404 : platform.admits not_found true ≡ true
  pub admits_415 : platform.admits unsupported_media_type true ≡ true
  pub admits_500 : platform.admits internal_server_error true ≡ true

error_response-admitted :
    (platform : Platform) (b : Bool) (c : Caught)
    → AdmitsErrors platform
    → platform.admits (error_response b c).0 true ≡ true
unfolding error_response
error_response-admitted platform b (body_parse_error m) h = h.admits_400
error_response-admitted platform b (unsupported_media_type_error m) h = h.admits_415
error_response-admitted platform b (unmatched_error m p) h = h.admits_404
error_response-admitted platform b (error none) h = h.admits_500
error_response-admitted platform b (error (some [])) h = h.admits_500
error_response-admitted platform b (error (some (c ∷ s))) h = h.admits_500
error_response-admitted platform b no_error h = h.admits_500

new_response-admitted :
    (platform : Platform) (status : ℕ) (type body : Text)
    → platform.admits status true ≡ true
    → new_response platform status type (some body)
      ≡ responds (record { status = status; content_type = type; body = some body })
unfolding new_response
new_response-admitted platform status type body h = rw h refl

-- What is thrown is answered by its response.
catch_error-throws :
    (platform : Platform) (b : Bool) (c : Caught)
    → AdmitsErrors platform
    → catch_error platform b (throws c)
      ≡ some (record {
        status = (error_response b c).0;
        content_type = application_text;
        body = some (error_response b c).1;
      })
unfolding catch_error
catch_error-throws platform b c h =
    ap (λ a. elim a [ responds r ↦ some r | throws _ ↦ none ])
      (new_response-admitted platform (error_response b c).0 application_text (error_response b c).1
        (error_response-admitted platform b c h))

error_response-hidden :
    (stack : Option Text)
    → error_response false (error stack) ≡ (internal_server_error, internal_error_text)
unfolding error_response
error_response-hidden none = refl
error_response-hidden (some []) = refl
error_response-hidden (some (c ∷ s)) = refl

abbrev pub is_parsed : {B : Type 0} → Option B → Bool
is_parsed none = false
is_parsed (some b) = true

abbrev bad_body : Bool → Caught
bad_body true = body_parse_error (codes "Failed to parse the request body into JSON")
bad_body false =
    unsupported_media_type_error (codes "Only the 'application/json' content-type is allowed")

module _ {W B : Type 0} (world : Option B → W) (q : DenoRequest B)
    (channel : Exchange W → Attempt) where
  create_from_deno_request-no_body :
      q.body ≡ none → create_from_deno_request world q channel ≡ channel (new_exchange world q none)
  unfolding create_from_deno_request
  create_from_deno_request-no_body e = rw e refl

  create_from_deno_request-bad_body :
      (parsed : Option B)
      → q.body ≡ some parsed
      → (q.is_json && is_parsed parsed) ≡ false
      → create_from_deno_request world q channel ≡ throws (bad_body q.is_json)
  unfolding create_from_deno_request
  create_from_deno_request-bad_body none e k =
      rw e (elim (Bool-cases q.is_json) [ inl b ↦ rw b refl | inr b ↦ rw b refl ])
  create_from_deno_request-bad_body (some v) e k =
      rw e (elim (Bool-cases q.is_json) [ inl b ↦ ground (arith, b, k) | inr b ↦ rw b refl ])

module _ {W E B : Type 0} (platform : Platform) (kind : E → Caught) (config : Config)
    (engine : RegExpEngine) (world : Option B → W) (r : Router W HandlersResponse E)
    (q : DenoRequest B) where
  -- A request with a body that is not declared to be JSON is answered with 415, and one with a body
  -- that is declared to be JSON and cannot be parsed with 400, whatever the handlers do.
  pub handle_deno_request-bad_body :
      (parsed : Option B)
      → AdmitsErrors platform
      → q.body ≡ some parsed
      → (q.is_json && is_parsed parsed) ≡ false
      → handle_deno_request platform kind config engine world r q
        ≡ some (
            if q.is_json
            then record {
              status = bad_request;
              content_type = application_text;
              body = some (codes "Failed to parse the request body into JSON");
            }
            else record {
              status = unsupported_media_type;
              content_type = application_text;
              body = some (codes "Only the 'application/json' content-type is allowed");
            })
  unfolding handle_deno_request error_response
  handle_deno_request-bad_body parsed h e k =
      ap (catch_error platform config.return_error_stack) (
        create_from_deno_request-bad_body world q
          (λ x.
            after_channeling platform kind config
              (channel_request_through_request_handlers engine r x))
          parsed e k)
      ∙ catch_error-throws platform config.return_error_stack (bad_body q.is_json) h
      ∙ elim (Bool-cases q.is_json) [ inl b ↦ rw b refl | inr b ↦ rw b refl ]

  -- A request without a body that no entry of the router is for is answered with 404 and a text
  -- that names its method and its pathname.
  pub handle_deno_request-unmatched :
      AdmitsErrors platform
      → q.body ≡ none
      → AreNotFor engine (root_props (new_exchange world q none)) (new_exchange world q none) r
      → handle_deno_request platform kind config engine world r q
        ≡ some (record {
          status = not_found;
          content_type = application_text;
          body = some (codes "Cannot " ++ codes q.method ++ codes " " ++ q.pathname);
        })
  unfolding handle_deno_request create_from_deno_request after_channeling error_response
  handle_deno_request-unmatched h e k =
      ap (catch_error platform config.return_error_stack) (
        create_from_deno_request-no_body world q
          (λ x.
            after_channeling platform kind config
              (channel_request_through_request_handlers engine r x))
          e
        ∙ ap (after_channeling platform kind config)
            (unmatched_request_lem engine r (new_exchange world q none) k))
      ∙ catch_error-throws platform config.return_error_stack
          (unmatched_error (codes q.method) q.pathname) h

  -- Where the stack of errors is not to be returned, the response to a request without a body whose
  -- channeling is rejected with an error has status 500 and a body that does not depend on the error.
  pub handle_deno_request-hides_stack :
      (x : Exchange W) (e : Unknown E) (stack : Option Text)
      → AdmitsErrors platform
      → q.body ≡ none
      → channel_request_through_request_handlers engine r (new_exchange world q none) ≡ rejects x e
      → caught platform kind config x e ≡ error stack
      → config.return_error_stack ≡ false
      → handle_deno_request platform kind config engine world r q
        ≡ some (record {
          status = internal_server_error;
          content_type = application_text;
          body = some internal_error_text;
        })
  unfolding handle_deno_request after_channeling
  handle_deno_request-hides_stack x e stack h none_given rejected is_error hidden =
      ap (catch_error platform config.return_error_stack) (
        create_from_deno_request-no_body world q
          (λ y.
            after_channeling platform kind config
              (channel_request_through_request_handlers engine r y))
          none_given
        ∙ ap (after_channeling platform kind config) rejected
        ∙ ap throws is_error)
      ∙ catch_error-throws platform config.return_error_stack (error stack) h
      ∙ ap (λ p. some (record { status = p.0; content_type = application_text; body = some p.1 }))
          (ap (λ b. error_response b (error stack)) hidden ∙ error_response-hidden stack)
