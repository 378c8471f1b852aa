-- ===== src/Auth.antt =====
-- Accounts and sessions of the server (server/controller/auth.controller.ts,
-- server/middlewares/auth-route.middleware.ts, server/utils): the parts of the platform that they use,
-- what they throw, and the context of a request. Times are in milliseconds.
pub mod Password
pub mod Route
pub mod Controller
pub mod Tokens
pub mod Access
pub mod Accounts
pub mod Sessions
mod Tests
use nerdhub_chat_cli_prototy.Common.{
  ℕ, ◌+◌, ◌≡◌, ◌<◌, Bool, true, false, Option, none, some, String, Text,
}
use Prim.Native.Nat.{◌/◌}
use nerdhub_chat_cli_prototy.Persistence.{User, E2eeParticipant}

-- What is thrown: exceptions of server/exceptions, and errors of jose, of the database's driver and of
-- the platform.
pub data Error : Type 0 where
  request_exception : ℕ → String → Error
  verification_error driver_error type_error : Error

-- `"code" in e`
abbrev pub has_code : Error → Bool
has_code verification_error = true
has_code driver_error = true
has_code _ = false

abbrev pub bad_request : String → Error
bad_request message = request_exception 400 message

abbrev pub unauthorized : String → Error
unauthorized message = request_exception 401 message

abbrev pub forbidden : String → Error
forbidden message = request_exception 403 message

abbrev pub not_found : String → Error
not_found message = request_exception 404 message

-- The payload of a verified token; a missing identifier is like the value null. `exp` and `iat` are
-- in seconds.
pub record Claims : Type 0 where
  pub sub : Option Text
  pub e2ee_participant_id : Option ℕ
  pub iat : ℕ
  pub exp : ℕ

-- The package jose: signing with a secret, verification with a secret at a time, which throws where it
-- gives none, and the seconds of a lifetime such as `1h`.
pub record Jose : Type 0 where
  pub sign : Text → Claims → Text
  pub verify : Text → ℕ → Text → Option Claims
  pub seconds : Text → ℕ

-- The key-value store of Deno, as far as it holds flags: whether one is set at a time, and to set one
-- for a lifetime from a time on.
pub record Kv (K : Type 0) : Type 0 where
  pub get : Text → ℕ → K → Bool
  pub set : Text → ℕ → ℕ → K → K

-- server/configs/auth.config.ts
pub record AuthConfig : Type 0 where
  pub access_token_secret : Text
  pub access_token_lifetime : Text
  pub refresh_token_secret : Text
  pub refresh_token_lifetime : Text

-- createJWT of server/utils/jwt.utils.ts
unfoldable pub create_jwt : Jose → Option Text → Option ℕ → Text → Text → ℕ → Text
create_jwt jose sub e2ee_participant_id secret expiration_time now =
    let issued = now / 1000 in
    jose.sign secret (record {
      sub = sub;
      e2ee_participant_id = e2ee_participant_id;
      iat = issued;
      exp = issued + jose.seconds expiration_time;
    })

-- AuthRouteMiddlewareContext. In `auth_user_id`, `some none` is NaN.
pub record Context : Type 0 where
  pub auth_user_id : Option (Option ℕ)
  pub auth_user : Option User
  pub e2ee_participant_id : Option ℕ
  pub e2ee_participant : Option E2eeParticipant
  pub access_token : Option Text
  pub refresh_token : Option Text
  pub token_expires_at : Option ℕ

-- How a function ends, and a function that works on a context.
pub data Outcome {ℓ} (A : Type ℓ) : Type ℓ where
  done : A → Outcome A
  throws : Error → Outcome A

abbrev pub Route {ℓ} : Type ℓ → Type ℓ
Route A = Context → Outcome A × Context

abbrev pub pure {ℓ} : {A : Type ℓ} → A → Route A
pure a c = (done a, c)

abbrev pub throw {ℓ} : {A : Type ℓ} → Error → Route A
throw e c = (throws e, c)

abbrev pub set_context : (Context → Context) → Route (Unit {0})
set_context f c = (done tt, f c)

abbrev pub resume {ℓ κ} :
    {A : Type ℓ} {B : Type κ} → (A → Route B) → Outcome A × Context → Outcome B × Context
resume f (done a, c) = f a c
resume f (throws e, c) = (throws e, c)

infixl 5 ◌>>=◌ ◌>>◌
abbrev pub ◌>>=◌ {ℓ κ} : {A : Type ℓ} {B : Type κ} → Route A → (A → Route B) → Route B
◌>>=◌ m f c = resume f (m c)

abbrev pub ◌>>◌ {ℓ κ} : {A : Type ℓ} {B : Type κ} → Route A → Route B → Route B
m >> k = m >>= λ _. k

-- The statements of the repositories that the middleware uses; they may fail.
pub record Reads : Type 0 where
  pub find_user_by_id : Option ℕ → Outcome (Option User)
  pub find_participant_by_id : ℕ → Outcome (Option E2eeParticipant)
