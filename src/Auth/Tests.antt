-- ===== src/Auth/Tests.antt =====
-- Concrete parameters for the theorems on accounts and sessions, and the theorems at concrete inputs.
use nerdhub_chat_cli_prototy.Common.{
  length, ◌≢◌, sym, inl, inr, Bool-cases, ℕ, zero, suc, ◌+◌, ◌≡◌, ◌↔◌, ◌⊎◌, refl, ap, ◌∙◌, Bool,
  true, false, ◌&&◌, Option, none, some, List, [], ◌∷◌, ◌++◌, Text, codes, any, ◌==◌, nat_same,
  text_same, text_beq_iff, nat_beq_iff, ltb, if◌then◌else◌, arith,
}
use Prim.Native.Nat.{◌/◌, ◌%◌}
use nerdhub_chat_cli_prototy.Pathname.{strip_prefix}
use nerdhub_chat_cli_prototy.Persistence.{
  UserRecord, User, Database, Sql, find_user_by_id, find_by_email,
}
use nerdhub_chat_cli_prototy.Persistence.Reachable.{migrated}
use nerdhub_chat_cli_prototy.Auth.{
  Claims, Jose, Kv, AuthConfig, Context, Outcome, done, throws, Reads, unauthorized, forbidden,
}
use nerdhub_chat_cli_prototy.Auth.Password.{
  to_hex, Scrypt, ScryptLaws, hash_password, verify_password, verify_password-hash_password,
}
use nerdhub_chat_cli_prototy.Auth.Route.{AuthRouteOptions, authenticate_route, remove_first}
use nerdhub_chat_cli_prototy.Auth.Controller.{
  registration, tokens, plain, public_user, reads_of, device_participant, new_access_token,
  new_refresh_token, handle_signup, handle_signin, signed_in, refused, handle_refresh_token,
  handle_signout, participant_id,
}
use nerdhub_chat_cli_prototy.Auth.Tokens.{
  JoseLaws, bearer, secret_of, tokens_apart, next_only_verified,
}
use nerdhub_chat_cli_prototy.Auth.Access.{exp_of, fetching_user, noted, access_token_authenticates}
use nerdhub_chat_cli_prototy.Auth.Accounts.{
  signed_up, with_user, signed_up_signs_in, signin_refused_iff,
}
use nerdhub_chat_cli_prototy.Auth.Sessions.{session_renews, signed_out_for_no_time}

-- tokens that carry the secret and the claims in the clear
abbrev encode : Claims → Text
encode c =
    elim c.e2ee_participant_id [ none ↦ 0 | some id ↦ suc id ]
    ∷ c.iat
    ∷ c.exp
    ∷ elim c.sub [ none ↦ [] | some s ↦ 1 ∷ s ]

abbrev decode : Text → Option Claims
decode (p ∷ iat ∷ exp ∷ s) = some (record {
  sub = elim s [ [] ↦ none | x ∷ t ↦ some t ];
  e2ee_participant_id = elim p [ zero ↦ none | suc id ↦ some id ];
  iat = iat;
  exp = exp;
})
decode _ = none

abbrev unexpired : ℕ → Option Claims → Option Claims
unexpired now none = none
unexpired now (some c) = if ltb (now / 1000) c.exp then some c else none

abbrev verified_by : ℕ → Option Text → Option Claims
verified_by now none = none
verified_by now (some t) = unexpired now (decode t)

abbrev clear_jose : Jose
clear_jose = record {
  sign = λ secret claims. length secret ∷ secret ++ encode claims;
  verify = λ secret now token. verified_by now (strip_prefix (length secret ∷ secret) token);
  seconds = λ lifetime. 3600;
}

abbrev config : AuthConfig
config = record {
  access_token_secret = 1 ∷ [];
  access_token_lifetime = codes "1h";
  refresh_token_secret = 2 ∷ [];
  refresh_token_lifetime = codes "1h";
}

strip_prefix-append : (s t : Text) → strip_prefix s (s ++ t) ≡ some t
strip_prefix-append [] t = refl
strip_prefix-append (c ∷ s) t = rw ((nat_beq_iff c c).1 refl) (strip_prefix-append s t)

strip_prefix-unequal : (s t r : Text) → length s ≡ length t → s ≢ t → strip_prefix s (t ++ r) ≡ none
strip_prefix-unequal [] [] r e n = absurd (n refl)
strip_prefix-unequal [] (d ∷ t) r e n = ground (arith, e)
strip_prefix-unequal (c ∷ s) [] r e n = ground (arith, e)
strip_prefix-unequal (c ∷ s) (d ∷ t) r e n = elim (Bool-cases (c == d)) [
  | inl same ↦ rw same (
      strip_prefix-unequal s t r (omega (arith, e))
        (λ h. n (λ i. (nat_beq_iff c d).0 same i ∷ h i)))
  | inr other ↦ rw other refl
]

strip_prefix-other :
    (secret other r : Text)
    → secret ≢ other
    → strip_prefix (length other ∷ other) (length secret ∷ secret ++ r) ≡ none
strip_prefix-other secret other r n = elim (Bool-cases (length other == length secret)) [
  | inl same ↦ rw same (
      strip_prefix-unequal other secret r ((nat_beq_iff (length other) (length secret)).0 same)
        (λ e. n (sym e)))
  | inr different ↦ rw different refl
]

decode-fields :
    (s : Option Text) (p : Option ℕ) (iat exp : ℕ)
    → let c : Claims = record { sub = s; e2ee_participant_id = p; iat = iat; exp = exp } in
      decode (encode c) ≡ some c
decode-fields none none iat exp = refl
decode-fields none (some p) iat exp = refl
decode-fields (some s) none iat exp = refl
decode-fields (some s) (some p) iat exp = refl

clear_jose-laws : JoseLaws clear_jose
clear_jose-laws = record {
  verify-sign = λ secret claims now h.
      ap (verified_by now) (strip_prefix-append (length secret ∷ secret) (encode claims))
      ∙ ap (unexpired now)
          (decode-fields claims.sub claims.e2ee_participant_id claims.iat claims.exp)
      ∙ (let e : ltb (now / 1000) claims.exp ≡ true = ground (arith, h) in rw e refl);
  verify-sign-other = λ secret other claims now apart.
      ap (verified_by now) (strip_prefix-other secret other (encode claims) apart);
}

-- a store that is a list of keys with the time until which they are set
abbrev listed : Kv (List (Text × ℕ))
listed = record {
  get = λ key now store. any (λ entry. entry.0 == key && ltb now entry.1) store;
  set = λ key now lifetime store. (key, now + lifetime) ∷ store;
}

abbrev zeros : ℕ → List ℕ
zeros zero = []
zeros (suc n) = 0 ∷ zeros n

abbrev sum : Text → ℕ
sum [] = 0
sum (c ∷ s) = c + sum s

abbrev summing : Scrypt
summing = record { derive = λ password salt. (sum password % 256) ∷ zeros 63 }

summing-laws : ScryptLaws summing
summing-laws = record {
  bytes = λ password salt. omega arith;
  derive-length = λ password salt. refl;
}

text_beq_refl : (a : Text) → (a == a) ≡ true
text_beq_refl a = (text_beq_iff a a).1 refl

abbrev literal : Sql
literal = record {
  same_text = λ a b. a == b;
  characters = length;
  bytes = length;
  by_created_at = λ rows. rows;
}

abbrev ada : UserRecord
ada = record {
  firstname = codes "Ada";
  lastname = codes "L";
  username = codes "ada";
  email = codes "a@b.c";
  password = codes "12345678";
}

abbrev empty_context : Context
empty_context = record {
  auth_user_id = none;
  auth_user = none;
  e2ee_participant_id = none;
  e2ee_participant = none;
  access_token = none;
  refresh_token = none;
  token_expires_at = none;
}

abbrev ada_signed_up : User
ada_signed_up =
    signed_up literal text_beq_refl summing summing-laws clear_jose config 5000 (1 ∷ 2 ∷ []) ada
      migrated

verify_password-hash_password_example :
    verify_password summing (hash_password summing (7 ∷ 255 ∷ []) (codes "secret")) (codes "secreu")
    ≡ some false
verify_password-hash_password_example =
    verify_password-hash_password summing summing-laws (7 ∷ 255 ∷ []) (codes "secret")
      (codes "secreu")

abbrev exp_after : ℕ → ℕ
exp_after = exp_of literal summing clear_jose listed config clear_jose-laws (codes "1h")

abbrev fetching : Bool → AuthRouteOptions
fetching = fetching_user literal summing clear_jose listed config clear_jose-laws

abbrev access : Option ℕ → ℕ → Text
access id issued = new_access_token literal summing clear_jose config id none issued

abbrev refresh : ℕ → ℕ → Text
refresh id issued = new_refresh_token literal summing clear_jose config id issued

abbrev some_claims : Claims
some_claims = record { sub = some (codes "1"); e2ee_participant_id = none; iat = 5; exp = 3605 }

secrets_apart : config.access_token_secret ≢ config.refresh_token_secret
secrets_apart e = cc e

tokens_apart_example :
    let options : Bool → AuthRouteOptions =
      λ r. record { fetch_auth_user = true; refresh_token = r; fetch_e2ee_participant = false } in
    let unverified = unauthorized "Failed to verify the bearer token authorization header" in
    let access_token = clear_jose.sign config.access_token_secret some_claims in
    let refused_ : Outcome (Unit {0}) × Context = (throws unverified, empty_context) in
    (authenticate_route clear_jose listed config
        (reads_of literal migrated)
        (options true)
        (bearer access_token)
        6000
        []
        empty_context
      ≡ (
        throws (
            if listed.get access_token 6000 []
            then forbidden "Blacklisted refresh token"
            else unverified),
        empty_context,
      ))
    × (authenticate_route clear_jose listed config
          (reads_of literal migrated)
          (options false)
          (bearer (clear_jose.sign config.refresh_token_secret some_claims))
          6000
          []
          empty_context
        ≡ refused_)
tokens_apart_example =
    tokens_apart clear_jose listed config clear_jose-laws (reads_of literal migrated) true false
      some_claims 6000 [] empty_context secrets_apart

abbrev reading : Reads
reading = record {
  find_user_by_id = λ id. done (some ada_signed_up);
  find_participant_by_id = λ id. done none;
}

let_through :
    authenticate_route clear_jose listed config reading
      (fetching false)
      (bearer (access (some 1) 5000))
      6000
      []
      empty_context
    ≡ (
      done tt,
      record (noted none (record empty_context { auth_user_id = some (some 1) })) {
        auth_user = some ada_signed_up;
        access_token = some (access (some 1) 5000);
        token_expires_at = some (exp_after 5000);
      },
    )
let_through =
    access_token_authenticates literal summing clear_jose listed config clear_jose-laws reading 1
      ada_signed_up none 5000 6000 [] empty_context (omega arith) refl

next_only_verified_example :
    (h : Text) × (claims : Claims) × (bearer (access (some 1) 5000) ≡ some h)
    × (clear_jose.verify
          (secret_of clear_jose listed config false)
          6000
          (remove_first (codes "Bearer ") h)
        ≡ some claims)
    × ((if false then listed.get (remove_first (codes "Bearer ") h) 6000 [] else false) ≡ false)
next_only_verified_example =
    next_only_verified clear_jose listed config reading (fetching false)
      (bearer (access (some 1) 5000)) 6000 [] empty_context (ap (λ x. x.0) let_through)

signin_refused_iff_example :
    (handle_signin literal summing clear_jose config 6000 (codes "x") (codes "y") none migrated
      ≡ refused literal summing clear_jose config)
    ↔ ((find_by_email literal (codes "x") migrated ≡ none)
        ⊎ ((user : User) × (find_by_email literal (codes "x") migrated ≡ some user)
            × (verify_password summing user.fields.password (codes "y") ≡ some false)))
signin_refused_iff_example =
    signin_refused_iff literal text_beq_refl summing summing-laws clear_jose config 6000 (codes "x")
      (codes "y") none migrated

signed_up_signs_in_example :
    let (r, db') = handle_signup literal summing clear_jose config 5000 (1 ∷ 2 ∷ []) ada migrated in
    (r
      ≡ done (record {
        status = 201;
        body = registration (public_user ada_signed_up) (access (some 1) 5000) (refresh 1 5000);
      }))
    × (handle_signin literal summing clear_jose config 90000000
          (codes "a@b.c")
          (codes "12345678")
          none
          db'
        ≡ done (signed_in literal summing clear_jose config 90000000 none ada_signed_up db'))
    × (authenticate_route clear_jose listed config
          (reads_of literal db')
          (fetching false)
          (bearer (access (some 1) 5000))
          6000
          []
          empty_context
        ≡ (
          done tt,
          record empty_context {
            auth_user_id = some (some 1);
            auth_user = some ada_signed_up;
            access_token = some (access (some 1) 5000);
            token_expires_at = some (exp_after 5000);
          },
        ))
unfolding hash_password to_hex
signed_up_signs_in_example =
    signed_up_signs_in literal text_beq_refl summing summing-laws clear_jose config listed
      clear_jose-laws 5000 90000000 6000 (1 ∷ 2 ∷ []) ada none [] empty_context migrated refl refl
      (omega arith)

abbrev one_user : Database
one_user =
    with_user literal text_beq_refl summing summing-laws clear_jose config ada_signed_up migrated

found_ada : (reads_of literal one_user).find_user_by_id (some 1) ≡ done (some ada_signed_up)
unfolding reads_of find_user_by_id
found_ada = refl

session_renews_example :
    let (r, c') =
      authenticate_route clear_jose listed config
        (reads_of literal one_user)
        (fetching true)
        (bearer (refresh 1 5000))
        6000
        []
        empty_context in
    let participant = device_participant literal none (some 1) one_user in
    let access_token =
      new_access_token literal summing clear_jose config (some 1) participant 6000 in
    (r ≡ done tt)
    × (handle_refresh_token literal summing clear_jose config 6000 none c' one_user
        ≡ done (record { status = 200; body = tokens access_token (refresh 1 5000) }))
    × (authenticate_route clear_jose listed config
          (reads_of literal one_user)
          (fetching false)
          (bearer access_token)
          7000
          []
          empty_context
        ≡ (
          done tt,
          record (noted
              (participant_id participant)
              (record empty_context { auth_user_id = some (some 1) })) {
                auth_user = some ada_signed_up;
                access_token = some access_token;
                token_expires_at = some (exp_after 6000);
              },
        ))
session_renews_example =
    session_renews literal summing clear_jose listed config clear_jose-laws one_user 1 ada_signed_up
      5000 6000 7000 none [] empty_context empty_context (omega arith) (omega arith) found_ada refl

signed_out_for_no_time_example :
    let (r, c') =
      authenticate_route clear_jose listed config reading
        (fetching true)
        (bearer (refresh 1 200000000))
        200001000
        []
        empty_context in
    (r ≡ done tt)
    × (handle_signout listed 200001000 c' [] ≡ (
      done (record { status = 204; body = plain "Signed out" }),
      listed.set (refresh 1 200000000) 200001000 0 [],
    ))
signed_out_for_no_time_example =
    signed_out_for_no_time literal summing clear_jose listed config clear_jose-laws reading 1
      ada_signed_up 200000000 200001000 [] empty_context (omega arith) (omega arith) (omega arith)
      (omega arith) refl refl
