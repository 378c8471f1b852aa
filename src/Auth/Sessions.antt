-- ===== src/Auth/Sessions.antt =====
-- What a refresh token is good for, and what signing out does to it
-- (server/controller/auth.controller.ts, server/middlewares/auth-route.middleware.ts).
use nerdhub_chat_cli_prototy.Common.{
  ℕ, ◌<◌, ◌≤◌, ◌≡◌, refl, ap, true, false, Option, some, Text, arith,
}
use Prim.Native.Nat.{◌/◌}
use nerdhub_chat_cli_prototy.Persistence.{User, Sql, Database}
use nerdhub_chat_cli_prototy.Auth.{Jose, Kv, AuthConfig, Context, done, Reads}
use nerdhub_chat_cli_prototy.Auth.Password.{Scrypt}
use nerdhub_chat_cli_prototy.Auth.Route.{authenticate_route}
use nerdhub_chat_cli_prototy.Auth.Controller.{
  tokens, plain, reads_of, device_participant, new_access_token, new_refresh_token,
  handle_refresh_token, handle_signout, expire_in, participant_id,
}
use nerdhub_chat_cli_prototy.Auth.Tokens.{JoseLaws, bearer}
use nerdhub_chat_cli_prototy.Auth.Access.{
  exp_of, fetching_user, noted, refresh_token_authenticates, access_token_authenticates,
}

module _ {K : Type 0} (sql : Sql) (scrypt : Scrypt) (jose : Jose) (kv : Kv K) (config : AuthConfig)
    (laws : JoseLaws jose) where
  -- the context behind a refresh token of a user
  abbrev pub with_refresh_token : ℕ → User → ℕ → Context → Context
  with_refresh_token id user issued c = record c {
    auth_user_id = some (some id);
    auth_user = some user;
    refresh_token = some (new_refresh_token sql scrypt jose config id issued);
    token_expires_at =
        some (exp_of sql scrypt jose kv config laws config.refresh_token_lifetime issued);
  }

  -- Until it is out of date or blacklisted, a refresh token of a user that the database has gives the
  -- same refresh token back with a new access token, for the participant of the device if the header
  -- names one; and until it is out of date, the new access token authenticates as the user, with the
  -- participant's id if there is one other than zero.
  pub session_renews :
      (db : Database) (id : ℕ) (user : User) (issued now later : ℕ) (device_hash : Option Text)
      (store : K) (c d : Context)
      → now / 1000 < exp_of sql scrypt jose kv config laws config.refresh_token_lifetime issued
      → later / 1000 < exp_of sql scrypt jose kv config laws config.access_token_lifetime now
      → (reads_of sql db).find_user_by_id (some id) ≡ done (some user)
      → let refresh_token = new_refresh_token sql scrypt jose config id issued in
        kv.get refresh_token now store ≡ false
        → let (r, c') =
            authenticate_route jose kv config
              (reads_of sql db)
              (fetching_user sql scrypt jose kv config laws true)
              (bearer refresh_token)
              now
              store
              c in
          let participant = device_participant sql device_hash (some id) db in
          let access_token = new_access_token sql scrypt jose config (some id) participant now in
          (r ≡ done tt)
          × (handle_refresh_token sql scrypt jose config now device_hash c' db
              ≡ done (record { status = 200; body = tokens access_token refresh_token }))
          × (authenticate_route jose kv config
                (reads_of sql db)
                (fetching_user sql scrypt jose kv config laws false)
                (bearer access_token)
                later
                store
                d
              ≡ (
                done tt,
                record (noted
                    (participant_id participant)
                    (record d { auth_user_id = some (some id) })) {
                      auth_user = some user;
                      access_token = some access_token;
                      token_expires_at =
                          some (
                            exp_of sql scrypt jose kv config laws config.access_token_lifetime now);
                    },
              ))
  unfolding handle_refresh_token
  session_renews db id user issued now later device_hash store c d fresh in_time u free =
      rw
        (refresh_token_authenticates sql scrypt jose kv config laws (reads_of sql db) id user issued
          now store c fresh u free)
        (
          refl,
          refl,
          access_token_authenticates sql scrypt jose kv config laws (reads_of sql db) id user
              (device_participant sql device_hash (some id) db) now later store d in_time u,
        )

  -- Whoever signs out with a refresh token is told so, but the token is blacklisted for no time at
  -- all: `exp` is in seconds and is compared with milliseconds. This holds of every token that was
  -- issued after the third of January 1970 for at most three years.
  pub signed_out_for_no_time :
      (reads : Reads) (id : ℕ) (user : User) (issued now : ℕ) (store : K) (c : Context)
      → now / 1000 < exp_of sql scrypt jose kv config laws config.refresh_token_lifetime issued
      → issued ≤ now
      → 200000000 ≤ issued
      → jose.seconds config.refresh_token_lifetime ≤ 100000000
      → reads.find_user_by_id (some id) ≡ done (some user)
      → let refresh_token = new_refresh_token sql scrypt jose config id issued in
        kv.get refresh_token now store ≡ false
        → let (r, c') =
            authenticate_route jose kv config reads
              (fetching_user sql scrypt jose kv config laws true)
              (bearer refresh_token)
              now
              store
              c in
          (r ≡ done tt)
          × (handle_signout kv now c' store ≡ (
            done (record { status = 204; body = plain "Signed out" }),
            kv.set refresh_token now 0 store,
          ))
  unfolding handle_signout
  signed_out_for_no_time reads id user issued now store c fresh le late short u free =
      let refresh_token = new_refresh_token sql scrypt jose config id issued in
      let no_time : expire_in
            (exp_of sql scrypt jose kv config laws config.refresh_token_lifetime issued) now
          ≡ 0 =
        omega (arith, le, late, short) in
      rw
        (refresh_token_authenticates sql scrypt jose kv config laws reads id user issued now store c
          fresh u free)
        (
          refl,
          ap
              (λ n. (
                done (record { status = 204; body = plain "Signed out" }),
                kv.set refresh_token now n store,
              ))
              no_time,
        )
