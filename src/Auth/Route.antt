-- ===== src/Auth/Route.antt =====
-- The middleware that authenticates a route (server/middlewares/auth-route.middleware.ts). That it ends
-- means that it has called `next`.
use nerdhub_chat_cli_prototy.Common.{
  ℕ, Bool, true, false, Option, none, some, [], ◌∷◌, Text, codes, ◌==◌, nat_same, if◌then◌else◌,
  parse_int,
}
use nerdhub_chat_cli_prototy.Pathname.{strip_prefix}
use nerdhub_chat_cli_prototy.Auth.{
  Error, Claims, Jose, Kv, AuthConfig, Context, Outcome, done, throws, Route, pure, throw,
  set_context, ◌>>=◌, ◌>>◌, Reads, has_code, unauthorized, forbidden, verification_error,
}

-- AuthRouteMiddlewareOptions with the defaults filled in
pub record AuthRouteOptions : Type 0 where
  pub fetch_auth_user : Bool
  pub refresh_token : Bool
  pub fetch_e2ee_participant : Bool

-- `text.replace(search, "")`
unfoldable pub remove_first : Text → Text → Text
remove_first search [] = []
remove_first search (c ∷ s) =
    let rest = remove_first search s in
    elim (strip_prefix search (c ∷ s)) [ none ↦ c ∷ rest | some behind ↦ behind ]

-- `await` of a statement
abbrev pub awaited {ℓ} : {A : Type ℓ} → Outcome A → Route A
awaited r c = (r, c)

abbrev pub found {ℓ} : {A : Type ℓ} → Option A → Error → Route A
found (some a) e = pure a
found none e = throw e

-- `kv.get` of the namespace of blacklisted refresh tokens
unfoldable pub check_blacklist : {K : Type 0} → Kv K → Bool → Text → ℕ → K → Route (Unit {0})
check_blacklist kv false token now store = pure tt
check_blacklist kv true token now store =
    if kv.get token now store then throw (forbidden "Blacklisted refresh token") else pure tt

-- verifyJWT of server/utils/jwt.utils.ts
unfoldable pub verify_jwt : Jose → Text → Text → ℕ → Route Claims
verify_jwt jose token secret now = found (jose.verify secret now token) verification_error

unfoldable pub read_subject : Claims → Route (Option (Option ℕ))
read_subject claims = elim claims.sub [
  | none ↦ pure none
  | some [] ↦ pure none
  | some (c ∷ s) ↦ do
    let id = parse_int (c ∷ s)
    set_context (λ x. record x { auth_user_id = some id })
    pure (some id)
]

unfoldable pub fetch_participant : Reads → ℕ → Route (Unit {0})
fetch_participant reads id = do
  row ← awaited (reads.find_participant_by_id id)
  participant ←
      found row
        (unauthorized "Could not find the authenticated e2ee participant specified by access token")
  set_context (λ x. record x { e2ee_participant = some participant })

unfoldable pub read_participant : Reads → Bool → Claims → Route (Unit {0})
read_participant reads fetch claims = elim claims.e2ee_participant_id [
  | none ↦ pure tt
  | some id ↦ if id == 0 then pure tt else do
    set_context (λ x. record x { e2ee_participant_id = some id })
    if fetch then fetch_participant reads id else pure tt
]

abbrev pub keep_token : Bool → Text → Context → Context
keep_token true token c = record c { refresh_token = some token }
keep_token false token c = record c { access_token = some token }

unfoldable pub fetch_user : Reads → Option ℕ → Route (Unit {0})
fetch_user reads id = do
  row ← awaited (reads.find_user_by_id id)
  user ← found row (unauthorized "Could not find the authenticated user specified by access token")
  set_context (λ x. record x { auth_user = some user })

unfoldable pub read_user : Reads → Bool → Option (Option ℕ) → Route (Unit {0})
read_user reads false id = pure tt
read_user reads true none = pure tt
read_user reads true (some id) = fetch_user reads id

-- the body of the `try`
unfoldable pub authenticate_token :
    {K : Type 0}
    → Jose
    → Kv K
    → AuthConfig
    → Reads
    → AuthRouteOptions
    → Text
    → ℕ
    → K
    → Route (Unit {0})
authenticate_token jose kv config reads options token now store = do
  check_blacklist kv options.refresh_token token now store
  claims ←
      verify_jwt jose token
        (if options.refresh_token then config.refresh_token_secret else config.access_token_secret)
        now
  user_id ← read_subject claims
  read_participant reads options.fetch_e2ee_participant claims
  set_context (keep_token options.refresh_token token)
  set_context (λ x. record x { token_expires_at = some claims.exp })
  read_user reads options.fetch_auth_user user_id

-- the `catch`
abbrev pub rethrown : Outcome (Unit {0}) × Context → Outcome (Unit {0}) × Context
rethrown (done a, c) = (done a, c)
rethrown (throws e, c) = (
  throws (
      if has_code e
      then unauthorized "Failed to verify the bearer token authorization header"
      else e),
  c,
)

unfoldable pub authenticate_route :
    {K : Type 0}
    → Jose
    → Kv K
    → AuthConfig
    → Reads
    → AuthRouteOptions
    → Option Text
    → ℕ
    → K
    → Route (Unit {0})
authenticate_route jose kv config reads options none now store =
    throw (unauthorized "The `Authorization` header is required")
authenticate_route jose kv config reads options (some []) now store =
    throw (unauthorized "The `Authorization` header is required")
authenticate_route jose kv config reads options (some (c ∷ s)) now store = λ x. rethrown (
    authenticate_token jose kv config reads options (remove_first (codes "Bearer ") (c ∷ s)) now
      store x)
