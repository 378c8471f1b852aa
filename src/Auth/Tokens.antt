-- ===== src/Auth/Tokens.antt =====
-- Which tokens the middleware lets through, and what it then knows
-- (server/middlewares/auth-route.middleware.ts).
use nerdhub_chat_cli_prototy.Common.{
  ℕ, ◌<◌, ◌≡◌, ◌≢◌, refl, sym, ap, ◌∙◌, inl, inr, Bool, true, false, Option, none, some, [], ◌∷◌,
  ◌++◌, Text, codes, nat_same, if◌then◌else◌, Bool-cases,
}
use Prim.Native.Nat.{◌/◌}
use nerdhub_chat_cli_prototy.Auth.{
  Error, Claims, Jose, Kv, AuthConfig, Context, Outcome, done, throws, Route, resume, Reads,
  unauthorized, forbidden, verification_error,
}
use nerdhub_chat_cli_prototy.Auth.Route.{
  AuthRouteOptions, remove_first, found, check_blacklist, verify_jwt, authenticate_token, rethrown,
  authenticate_route,
}

-- What jose promises: a token that is not out of date is verified with the secret that signed it, and
-- none is with another secret.
pub record JoseLaws (jose : Jose) : Type 0 where
  pub verify-sign :
      (secret : Text) (claims : Claims) (now : ℕ)
      → now / 1000 < claims.exp
      → jose.verify secret now (jose.sign secret claims) ≡ some claims
  pub verify-sign-other :
      (secret other : Text) (claims : Claims) (now : ℕ)
      → secret ≢ other
      → jose.verify other now (jose.sign secret claims) ≡ none

abbrev pub bearer : Text → Option Text
bearer token = some (codes "Bearer " ++ token)

remove_first-bearer :
    (token : Text) → remove_first (codes "Bearer ") (codes "Bearer " ++ token) ≡ token
unfolding remove_first
remove_first-bearer token = refl

-- An action that ends has a first part that ends.
resume_done {ℓ κ} :
    {A : Type ℓ} {B : Type κ} (f : A → Route B) (r : Outcome A × Context) (b : B)
    → (resume f r).0 ≡ done b
    → (a : A) × (c : Context) × (r ≡ (done a, c)) × ((f a c).0 ≡ done b)
resume_done f (done a, c) b h = (a, c, refl, h)
resume_done f (throws e, c) b h = cc h

rethrown_done : (r : Outcome (Unit {0}) × Context) → (rethrown r).0 ≡ done tt → r.0 ≡ done tt
rethrown_done (done tt, c) h = refl
rethrown_done (throws e, c) h = cc h

found_lem {ℓ} :
    {A : Type ℓ} (o : Option A) (e : Error) (a : A) (c c' : Context)
    → found o e c ≡ (done a, c')
    → o ≡ some a
found_lem none e a c c' h = cc h
found_lem (some b) e a c c' h = cc h

module _ {K : Type 0} (jose : Jose) (kv : Kv K) (config : AuthConfig) where
  check_done :
      (refresh : Bool) (token : Text) (now : ℕ) (store : K) (c : Context)
      → (check_blacklist kv refresh token now store c).0 ≡ done tt
      → (if refresh then kv.get token now store else false) ≡ false
  unfolding check_blacklist
  check_done false token now store c h = refl
  check_done true token now store c h = elim (Bool-cases (kv.get token now store)) [
    | inl e ↦
        (let x : ◌≡◌ {A = Outcome (Unit {0})} (throws (forbidden "Blacklisted refresh token"))
              (done tt) =
            rw e at h in
          cc x)
    | inr e ↦ e
  ]

  abbrev pub secret_of : Bool → Text
  secret_of refresh = if refresh then config.refresh_token_secret else config.access_token_secret

  -- With a bearer token, all is up to the token.
  pub authenticate-bearer :
      (reads : Reads) (options : AuthRouteOptions) (token : Text) (now : ℕ) (store : K)
      (c : Context)
      → authenticate_route jose kv config reads options (bearer token) now store c
        ≡ rethrown (authenticate_token jose kv config reads options token now store c)
  unfolding authenticate_route
  authenticate-bearer reads options token now store c =
      ap (λ t. rethrown (authenticate_token jose kv config reads options t now store c))
        (remove_first-bearer token)

  -- A blacklisted refresh token is refused, whatever else holds of it, and the context stays.
  pub blacklisted-refused :
      (reads : Reads) (fetch_user_ fetch_participant_ : Bool) (token : Text) (now : ℕ) (store : K)
      (c : Context)
      → kv.get token now store ≡ true
      → authenticate_route jose kv config reads
          (record {
            fetch_auth_user = fetch_user_;
            refresh_token = true;
            fetch_e2ee_participant = fetch_participant_;
          })
          (bearer token)
          now
          store
          c
        ≡ (throws (forbidden "Blacklisted refresh token"), c)
  unfolding authenticate_token check_blacklist
  blacklisted-refused reads fetch_user_ fetch_participant_ token now store c h =
      authenticate-bearer reads _ token now store c ∙ rw h refl

  -- A token that is not verified is refused with status 401.
  unverified-refused :
      (reads : Reads) (options : AuthRouteOptions) (token : Text) (now : ℕ) (store : K)
      (c : Context)
      → (if options.refresh_token then kv.get token now store else false) ≡ false
      → jose.verify (secret_of options.refresh_token) now token ≡ none
      → authenticate_route jose kv config reads options (bearer token) now store c
        ≡ (throws (unauthorized "Failed to verify the bearer token authorization header"), c)
  unfolding authenticate_token check_blacklist verify_jwt
  unverified-refused reads options token now store c free h =
      authenticate-bearer reads options token now store c
      ∙ elim (Bool-cases options.refresh_token) [
        | inl r ↦
            (let f : kv.get token now store ≡ false = rw r at free in
              let v : jose.verify config.refresh_token_secret now token ≡ none = rw r at h in
              rw (r, f, v) refl)
        | inr r ↦
            (let v : jose.verify config.access_token_secret now token ≡ none = rw r at h in
              rw (r, v) refl)
      ]

  token_verified :
      (reads : Reads) (options : AuthRouteOptions) (token : Text) (now : ℕ) (store : K)
      (c : Context)
      → (authenticate_token jose kv config reads options token now store c).0 ≡ done tt
      → (claims : Claims) × (jose.verify (secret_of options.refresh_token) now token ≡ some claims)
        × ((if options.refresh_token then kv.get token now store else false) ≡ false)
  unfolding authenticate_token verify_jwt
  token_verified reads options token now store c h =
      let (u, c', e, h') =
        resume_done _ (check_blacklist kv options.refresh_token token now store c) tt h in
      let (claims, c'', v, h'') =
        resume_done _ (verify_jwt jose token (secret_of options.refresh_token) now c') tt h' in
      (
        claims,
        found_lem (jose.verify (secret_of options.refresh_token) now token) verification_error
            claims c' c'' v,
        check_done options.refresh_token token now store c (ap (λ x. x.0) e),
      )

  -- Where `next` is called, there was a bearer token that is verified with the secret of its kind, and
  -- a refresh token is not blacklisted.
  pub next_only_verified :
      (reads : Reads) (options : AuthRouteOptions) (header : Option Text) (now : ℕ) (store : K)
      (c : Context)
      → (authenticate_route jose kv config reads options header now store c).0 ≡ done tt
      → (h : Text) × (claims : Claims) × (header ≡ some h)
        × (jose.verify (secret_of options.refresh_token) now (remove_first (codes "Bearer ") h)
            ≡ some claims)
        × ((if options.refresh_token
              then kv.get (remove_first (codes "Bearer ") h) now store
              else false)
            ≡ false)
  unfolding authenticate_route
  next_only_verified reads options none now store c h = cc h
  next_only_verified reads options (some []) now store c h = cc h
  next_only_verified reads options (some (x ∷ s)) now store c h =
      let token = remove_first (codes "Bearer ") (x ∷ s) in
      let (claims, v, free) =
        token_verified reads options token now store c
          (rethrown_done (authenticate_token jose kv config reads options token now store c) h) in
      (x ∷ s, claims, refl, v, free)

module _ {K : Type 0} (jose : Jose) (kv : Kv K) (config : AuthConfig) (laws : JoseLaws jose) where
  -- Where the two secrets are not the same, an access token is no refresh token and a refresh token is no
  -- access token, whatever they claim and in whatever state the store is: a refresh token where an access
  -- token is expected is refused with 401; an access token where a refresh token is expected is refused
  -- with 403 if it is blacklisted and with 401 otherwise; and the context stays as it is.
  pub tokens_apart :
      (reads : Reads) (fetch_user_ fetch_participant_ : Bool) (claims : Claims) (now : ℕ)
      (store : K) (c : Context)
      → config.access_token_secret ≢ config.refresh_token_secret
      → let options : Bool → AuthRouteOptions = λ refresh. record {
        fetch_auth_user = fetch_user_;
        refresh_token = refresh;
        fetch_e2ee_participant = fetch_participant_;
      } in
        let unverified = unauthorized "Failed to verify the bearer token authorization header" in
        let blacklisted = forbidden "Blacklisted refresh token" in
        let access_token = jose.sign config.access_token_secret claims in
        let refresh_token = jose.sign config.refresh_token_secret claims in
        (authenticate_route jose kv config reads (options true) (bearer access_token) now store c
          ≡ (throws (if kv.get access_token now store then blacklisted else unverified), c))
        × (authenticate_route jose kv config reads
              (options false)
              (bearer refresh_token)
              now
              store
              c
            ≡ (throws unverified, c))
  tokens_apart reads fetch_user_ fetch_participant_ claims now store c apart =
      let access_token = jose.sign config.access_token_secret claims in
      (
        elim (Bool-cases (kv.get access_token now store)) [
          | inl listed ↦ rw listed (
              blacklisted-refused jose kv config reads fetch_user_ fetch_participant_ access_token
                now store c listed)
          | inr free ↦ rw free (
              unverified-refused jose kv config reads _ access_token now store c free (
                laws.verify-sign-other config.access_token_secret config.refresh_token_secret claims
                  now apart))
        ],
        unverified-refused jose kv config reads _ _ now store c refl (
            laws.verify-sign-other config.refresh_token_secret config.access_token_secret claims now
              (λ e. apart (sym e))),
      )
