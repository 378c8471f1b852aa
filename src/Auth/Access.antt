-- ===== src/Auth/Access.antt =====
-- What the middleware makes of the tokens that the server creates
-- (server/middlewares/auth-route.middleware.ts, server/utils/jwt.utils.ts).
use nerdhub_chat_cli_prototy.Common.{
  ℕ, ◌+◌, ◌<◌, ◌≡◌, refl, sym, ap, ◌∙◌, Bool, true, false, Option, none, some, ◌∷◌, Text, ◌==◌,
  nat_same, if◌then◌else◌, Bool-cases, inl, inr, to_string, parse_int, parse_int-to_string,
  to_string-cases,
}
use Prim.Native.Nat.{◌/◌}
use nerdhub_chat_cli_prototy.Persistence.{User, E2eeParticipant, Sql}
use nerdhub_chat_cli_prototy.Auth.{
  Claims, Jose, Kv, AuthConfig, Context, Outcome, done, throws, Reads, unauthorized, driver_error,
  create_jwt,
}
use nerdhub_chat_cli_prototy.Auth.Route.{
  AuthRouteOptions, check_blacklist, verify_jwt, read_subject, read_participant, keep_token,
  fetch_user, read_user, authenticate_token, rethrown, authenticate_route,
}
use nerdhub_chat_cli_prototy.Auth.Password.{Scrypt}
use nerdhub_chat_cli_prototy.Auth.Controller.{participant_id, new_access_token, new_refresh_token}
use nerdhub_chat_cli_prototy.Auth.Tokens.{JoseLaws, bearer, secret_of, authenticate-bearer}

-- The context with the participant's identifier of a token.
abbrev pub noted : Option ℕ → Context → Context
noted none c = c
noted (some id) c = if id == 0 then c else record c { e2ee_participant_id = some id }

read_subject_lem :
    (claims : Claims) (id : ℕ) (c : Context)
    → claims.sub ≡ some (to_string id)
    → read_subject claims c ≡ (done (some (some id)), record c { auth_user_id = some (some id) })
unfolding read_subject
read_subject_lem claims id c h =
    let (x, s, e) = to_string-cases id in
    let p : parse_int (x ∷ s) ≡ some id = ap parse_int (sym e) ∙ parse_int-to_string id in
    rw (h ∙ ap some e) (rw p refl)

read_participant_lem :
    (reads : Reads) (claims : Claims) (id : Option ℕ) (c : Context)
    → claims.e2ee_participant_id ≡ id
    → read_participant reads false claims c ≡ (done tt, noted id c)
unfolding read_participant
read_participant_lem reads claims none c h = rw h refl
read_participant_lem reads claims (some id) c h = elim (Bool-cases (id == 0)) [
  | inl e ↦ rw (h, e) refl
  | inr e ↦ rw (h, e) refl
]

-- How the request goes on when the user was looked up.
abbrev pub looked_up : Outcome (Option User) → Context → Outcome (Unit {0}) × Context
looked_up (done none) c =
    (throws (unauthorized "Could not find the authenticated user specified by access token"), c)
looked_up (done (some user)) c = (done tt, record c { auth_user = some user })
looked_up (throws e) c = (throws e, c)

fetch_user_lem :
    (reads : Reads) (id : Option ℕ) (c : Context) (r : Outcome (Option User))
    → reads.find_user_by_id id ≡ r
    → fetch_user reads id c ≡ looked_up r c
unfolding fetch_user
fetch_user_lem reads id c (done none) h = rw h refl
fetch_user_lem reads id c (done (some user)) h = rw h refl
fetch_user_lem reads id c (throws e) h = rw h refl

module _ {K : Type 0} (jose : Jose) (kv : Kv K) (config : AuthConfig) where
  -- the context before the user is looked up
  abbrev pub understood : Bool → Text → ℕ → Option ℕ → ℕ → Context → Context
  understood refresh token id participant exp c =
      record (keep_token refresh token
        (noted participant (record c { auth_user_id = some (some id) }))) {
          token_expires_at = some exp;
        }

  verified_token :
      (reads : Reads) (refresh : Bool) (token : Text) (claims : Claims) (id : ℕ) (now : ℕ)
      (store : K) (c : Context) (r : Outcome (Option User))
      → jose.verify (secret_of jose kv config refresh) now token ≡ some claims
      → (if refresh then kv.get token now store else false) ≡ false
      → claims.sub ≡ some (to_string id)
      → reads.find_user_by_id (some id) ≡ r
      → authenticate_token jose kv config reads
          (record {
            fetch_auth_user = true;
            refresh_token = refresh;
            fetch_e2ee_participant = false;
          })
          token
          now
          store
          c
        ≡ looked_up r (understood refresh token id claims.e2ee_participant_id claims.exp c)
  unfolding authenticate_token check_blacklist verify_jwt read_user
  verified_token reads true token claims id now store c r v free s u =
      rw
        (
          free,
          v,
          read_subject_lem claims id c s,
          read_participant_lem reads claims claims.e2ee_participant_id
              (record c { auth_user_id = some (some id) }) refl,
        )
        (fetch_user_lem reads (some id) _ r u)
  verified_token reads false token claims id now store c r v free s u =
      rw
        (
          v,
          read_subject_lem claims id c s,
          read_participant_lem reads claims claims.e2ee_participant_id
              (record c { auth_user_id = some (some id) }) refl,
        )
        (fetch_user_lem reads (some id) _ r u)

module _ {K : Type 0} (sql : Sql) (scrypt : Scrypt) (jose : Jose) (kv : Kv K) (config : AuthConfig)
    (laws : JoseLaws jose) where
  abbrev pub exp_of : Text → ℕ → ℕ
  exp_of lifetime issued = issued / 1000 + jose.seconds lifetime

  abbrev pub fetching_user : Bool → AuthRouteOptions
  fetching_user refresh = record {
    fetch_auth_user = true;
    refresh_token = refresh;
    fetch_e2ee_participant = false;
  }

  access_token_lem :
      (reads : Reads) (id : ℕ) (participant : Option E2eeParticipant) (issued now : ℕ) (store : K)
      (c : Context) (r : Outcome (Option User))
      → now / 1000 < exp_of config.access_token_lifetime issued
      → reads.find_user_by_id (some id) ≡ r
      → let token = new_access_token sql scrypt jose config (some id) participant issued in
        authenticate_route jose kv config reads (fetching_user false) (bearer token) now store c
        ≡ rethrown (
            looked_up r (
              understood jose kv config false token id
                (participant_id participant)
                (exp_of config.access_token_lifetime issued)
                c))
  unfolding new_access_token create_jwt
  access_token_lem reads id participant issued now store c r fresh u =
      authenticate-bearer jose kv config reads (fetching_user false) _ now store c
      ∙ ap rethrown (
          verified_token jose kv config reads false _ _ id now store c r
            (laws.verify-sign config.access_token_secret _ now fresh) refl refl u)

  -- Until it is out of date, an access token that the server creates for a user is let through with
  -- the default options where the database has the user, whatever the context was; then the context
  -- holds the user and its id, the participant's id where the token has one other than zero, the
  -- token and when it ends.
  pub access_token_authenticates :
      (reads : Reads) (id : ℕ) (user : User) (participant : Option E2eeParticipant) (issued now : ℕ)
      (store : K) (c : Context)
      → now / 1000 < exp_of config.access_token_lifetime issued
      → reads.find_user_by_id (some id) ≡ done (some user)
      → let token = new_access_token sql scrypt jose config (some id) participant issued in
        authenticate_route jose kv config reads (fetching_user false) (bearer token) now store c ≡ (
          done tt,
          record (noted (participant_id participant) (record c { auth_user_id = some (some id) })) {
            auth_user = some user;
            access_token = some token;
            token_expires_at = some (exp_of config.access_token_lifetime issued);
          },
        )
  access_token_authenticates reads id user participant issued now store c fresh u =
      access_token_lem reads id participant issued now store c (done (some user)) fresh u

  -- Where the statement that looks up the user fails with an error of the driver, a valid access
  -- token is answered with status 401, as if it could not be verified.
  pub unreachable_is_unauthorized :
      (reads : Reads) (id : ℕ) (participant : Option E2eeParticipant) (issued now : ℕ) (store : K)
      (c : Context)
      → now / 1000 < exp_of config.access_token_lifetime issued
      → reads.find_user_by_id (some id) ≡ throws driver_error
      → let token = new_access_token sql scrypt jose config (some id) participant issued in
        (authenticate_route jose kv config reads (fetching_user false) (bearer token) now store c).0
        ≡ throws (unauthorized "Failed to verify the bearer token authorization header")
  unreachable_is_unauthorized reads id participant issued now store c fresh u =
      ap (λ x. x.0)
        (access_token_lem reads id participant issued now store c (throws driver_error) fresh u)

  pub refresh_token_authenticates :
      (reads : Reads) (id : ℕ) (user : User) (issued now : ℕ) (store : K) (c : Context)
      → now / 1000 < exp_of config.refresh_token_lifetime issued
      → reads.find_user_by_id (some id) ≡ done (some user)
      → let token = new_refresh_token sql scrypt jose config id issued in
        kv.get token now store ≡ false
        → authenticate_route jose kv config reads (fetching_user true) (bearer token) now store c
          ≡ (
            done tt,
            record c {
              auth_user_id = some (some id);
              auth_user = some user;
              refresh_token = some token;
              token_expires_at = some (exp_of config.refresh_token_lifetime issued);
            },
          )
  unfolding new_refresh_token create_jwt
  refresh_token_authenticates reads id user issued now store c fresh u free =
      authenticate-bearer jose kv config reads (fetching_user true) _ now store c
      ∙ ap rethrown (
          verified_token jose kv config reads true _ _ id now store c (done (some user))
            (laws.verify-sign config.refresh_token_secret _ now fresh) free refl u)
