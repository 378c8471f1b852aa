-- ===== src/Router/Decorators.antt =====
-- Decorators of handlers (core/router/router.core.decorators.ts and
-- server/decorators/autobind.decorator.ts).
use nerdhub_chat_cli_prototy.Common.{
  ℕ, zero, suc, ◌≡◌, refl, ap, ◌∙◌, false, Option, none, some, List, [], ◌∷◌, Text, nat_same,
  text_same,
}
use mathlib.Core.Path.{fun_ext}
use nerdhub_chat_cli_prototy.Common.JsMap
use nerdhub_chat_cli_prototy.Pathname.{Params, ParamValue}
use nerdhub_chat_cli_prototy.Router.{
  Unknown, Exchange, object_at, throws, Behaviour, Handler, is_request_error_handler,
}

-- What a wrapper does before the handler: the exchange that it leaves, and what it throws.
abbrev pub Before {ℓ} : Type ℓ → Type ℓ → Type ℓ
Before W E = Exchange W → Exchange W × Option (Unknown E)

-- What a resolver gives: the new name and the value, or what it throws.
pub data Resolved {ℓ} (E : Type ℓ) : Type ℓ where
  resolved : Text → ParamValue → Resolved E
  unresolved : Unknown E → Resolved E

abbrev pub replace_object : ℕ → Params → List Params → List Params
replace_object n o [] = []
replace_object zero o (p ∷ ps) = o ∷ ps
replace_object (suc n) o (p ∷ ps) = p ∷ replace_object n o ps

module _ {ℓ} {W E : Type ℓ} where
  abbrev pub bound_object : ℕ → Exchange W → Resolved E → Exchange W × Option (Unknown E)
  bound_object n x (resolved name value) = (
    record x {
      objects = replace_object n (JsMap.set name value (object_at n x.objects)) x.objects;
    },
    none,
  )
  bound_object n x (unresolved e) = (x, some e)

  abbrev pub bound_params :
      Text
      → (Option ParamValue → W → Resolved E)
      → Exchange W
      → Option ℕ
      → Exchange W × Option (Unknown E)
  bound_params name resolver x none = (x, none)
  bound_params name resolver x (some n) =
      bound_object n x (resolver (JsMap.get name (object_at n x.objects)) x.world)

  abbrev pub then_before :
      Before W E → Exchange W × Option (Unknown E) → Exchange W × Option (Unknown E)
  then_before b (x, some e) = (x, some e)
  then_before b (x, none) = b x

  -- The own parts of wrappers, the outermost first, until one throws.
  abbrev pub all_before : List (Before W E) → Before W E
  all_before [] x = (x, none)
  all_before (b ∷ bs) x = then_before (all_before bs) (b x)

module _ {ℓ} {W R E : Type ℓ} where
  abbrev pub after_before :
      (Exchange W → Behaviour W R E) → Exchange W × Option (Unknown E) → Behaviour W R E
  after_before call (x, none) = call x
  after_before call (x, some e) = record { exchange = x; nexts = []; settled = throws e }

  -- The new function takes the rest of the arguments, so that its length is 0, and it has no
  -- properties.
  unfoldable pub wrapped : Before W E → Handler W R E → Handler W R E
  wrapped before f = record {
    arity = 0;
    process = λ x. after_before f.process (before x);
    handle_error = λ error x. after_before (f.handle_error error) (before x);
    http_response_status = none;
  }

  unfoldable pub bind_request_parameter :
      Text → (Option ParamValue → W → Resolved E) → Handler W R E → Handler W R E
  bind_request_parameter name resolver f = wrapped (λ x. bound_params name resolver x x.params) f

  unfoldable pub on_request : Before W E → Handler W R E → Handler W R E
  on_request callback f = wrapped callback f

  unfoldable pub set_http_response_status : ℕ → Handler W R E → Handler W R E
  set_http_response_status status f = record f { http_response_status = some status }

  -- `bind` keeps the length of the function and none of its properties.
  unfoldable pub autobind : Handler W R E → Handler W R E
  autobind f = record f { http_response_status = none }

  -- Callbacks around a handler, the outermost first.
  abbrev pub on_requests : List (Before W E) → Handler W R E → Handler W R E
  on_requests [] f = f
  on_requests (b ∷ bs) f = on_request b (on_requests bs f)

  after_before-then_before :
      (call : Exchange W → Behaviour W R E) (b : Before W E) (r : Exchange W × Option (Unknown E))
      → after_before (λ x. after_before call (b x)) r ≡ after_before call (then_before b r)
  after_before-then_before call b (x, none) = refl
  after_before-then_before call b (x, some e) = refl

  on_requests-process :
      (bs : List (Before W E)) (f : Handler W R E) (x : Exchange W)
      → (on_requests bs f).process x ≡ after_before f.process (all_before bs x)
  unfolding on_request wrapped
  on_requests-process [] f x = refl
  on_requests-process (b ∷ bs) f x =
      ap (λ (g : Exchange W → Behaviour W R E). after_before g (b x))
        (fun_ext (on_requests-process bs f))
      ∙ after_before-then_before f.process (all_before bs) (b x)

  on_requests-handle_error :
      (bs : List (Before W E)) (f : Handler W R E) (error : Unknown E) (x : Exchange W)
      → (on_requests bs f).handle_error error x
        ≡ after_before (f.handle_error error) (all_before bs x)
  unfolding on_request wrapped
  on_requests-handle_error [] f error x = refl
  on_requests-handle_error (b ∷ bs) f error x =
      ap (λ (g : Exchange W → Behaviour W R E). after_before g (b x))
        (fun_ext (on_requests-handle_error bs f error))
      ∙ after_before-then_before (f.handle_error error) (all_before bs) (b x)

  -- With callbacks around it, at least one, a handler is called with what they leave, the outermost
  -- first, and only if none of them throws; but it is no error handler any more, and the status that
  -- was set on it is gone, whatever handler it was.
  pub on_requests_lem :
      (b : Before W E) (bs : List (Before W E)) (f : Handler W R E) (status : ℕ) (error : Unknown E)
      (x : Exchange W)
      → let g = on_requests (b ∷ bs) (set_http_response_status status f) in
        (g.process x ≡ after_before f.process (all_before (b ∷ bs) x))
        × (g.handle_error error x ≡ after_before (f.handle_error error) (all_before (b ∷ bs) x))
        × (is_request_error_handler g ≡ false)
        × (g.http_response_status ≡ none)
  unfolding on_request wrapped set_http_response_status is_request_error_handler
  on_requests_lem b bs f status error x = (
    on_requests-process (b ∷ bs) (set_http_response_status status f) x,
    on_requests-handle_error (b ∷ bs) (set_http_response_status status f) error x,
    refl,
    refl,
  )
