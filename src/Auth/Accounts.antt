-- ===== src/Auth/Accounts.antt =====
-- What signing up, in and out come to (server/controller/auth.controller.ts).
use nerdhub_chat_cli_prototy.Common.{
  ℕ, suc, ◌<◌, ◌≡◌, ◌↔◌, refl, sym, ap, ◌∙◌, ◌⊎◌, inl, inr, Bool, true, false, Option, none, some,
  List, [], ◌∷◌, ◌++◌, Text, ◌==◌, nat_same, nat_beq_iff, filter, any, Option-cases, arith,
  text_same, text_beq_iff,
}
use Prim.Native.Nat.{◌/◌}
use nerdhub_chat_cli_prototy.Persistence.{
  UserRecord, User, Database, Sql, ok, err, first, users_clash, new_user, create_user,
  find_user_by_id, find_by_email, duplicate_entry, data_too_long, user_fits,
}
use nerdhub_chat_cli_prototy.Auth.{Jose, Kv, AuthConfig, Context, done, throws, driver_error}
use nerdhub_chat_cli_prototy.Auth.Password.{
  Scrypt, ScryptLaws, hash_password, verify_password, to_hex, verify_password-hash_password,
}
use nerdhub_chat_cli_prototy.Auth.Route.{authenticate_route}
use nerdhub_chat_cli_prototy.Auth.Controller.{
  registration, public_user, reads_of, new_access_token, new_refresh_token, handle_signup, created,
  registered, signin_found, signed_in, refused, signin_checked, handle_signin,
}
use nerdhub_chat_cli_prototy.Auth.Tokens.{JoseLaws, bearer}
use nerdhub_chat_cli_prototy.Auth.Access.{exp_of, fetching_user, access_token_authenticates}

any_weaken {ℓ} :
    {A : Type ℓ} (p q : A → Bool) (xs : List A)
    → ((x : A) → q x ≡ false → p x ≡ false)
    → any q xs ≡ false
    → any p xs ≡ false
any_weaken p q [] w h = refl
any_weaken p q (x ∷ xs) w h = ground (arith, any_weaken p q xs w, w x, h)

-- A row that was added last is found where no row before it passes the test.
first_added {ℓ} :
    {A : Type ℓ} (p : A → Bool) (xs : List A) (y : A)
    → any p xs ≡ false
    → p y ≡ true
    → first (filter p (xs ++ y ∷ [])) ≡ some y
first_added p [] y h e = ground (arith, e)
first_added p (x ∷ xs) y h e = ground (arith, first_added p xs y, h, e)

module _ (sql : Sql) (same-refl : (a : Text) → sql.same_text a a ≡ true) (scrypt : Scrypt)
    (scrypt_laws : ScryptLaws scrypt) (jose : Jose) (config : AuthConfig) where
  -- the row of a user who signs up
  abbrev pub signed_up : ℕ → List ℕ → UserRecord → Database → User
  signed_up now salt_bytes dto db =
      new_user sql now (record dto { password = hash_password scrypt salt_bytes dto.password })
        db.next_user_id

  -- the tables after it
  abbrev pub with_user : User → Database → Database
  with_user user db = record db {
    users = db.users ++ user ∷ [];
    next_user_id = suc db.next_user_id;
  }

  find_by_email-signed_up :
      (user : User) (db : Database)
      → any (λ u. users_clash sql u user) db.users ≡ false
      → find_by_email sql user.fields.email (with_user user db) ≡ some user
  unfolding find_by_email
  find_by_email-signed_up user db h =
      first_added (λ u. sql.same_text u.fields.email user.fields.email) db.users user
        (any_weaken (λ u. sql.same_text u.fields.email user.fields.email)
          (λ u. users_clash sql u user) db.users (λ u c. ground (arith, c)) h)
        (same-refl user.fields.email)

  find_user_by_id-signed_up :
      (user : User) (db : Database)
      → any (λ u. users_clash sql u user) db.users ≡ false
      → find_user_by_id sql user.id (with_user user db) ≡ some user
  unfolding find_user_by_id
  find_user_by_id-signed_up user db h =
      first_added (λ u. u.id == user.id) db.users user
        (any_weaken (λ u. u.id == user.id) (λ u. users_clash sql u user) db.users
          (λ u c. ground (arith, c)) h)
        ((nat_beq_iff user.id user.id).1 refl)

  handle_signup_lem :
      (now : ℕ) (salt_bytes : List ℕ) (dto : UserRecord) (db : Database)
      → let user = signed_up now salt_bytes dto db in
        user_fits sql user.fields ≡ true
        → any (λ u. users_clash sql u user) db.users ≡ false
        → handle_signup sql scrypt jose config now salt_bytes dto db
          ≡ (registered sql scrypt jose config now (some user), with_user user db)
  unfolding handle_signup create_user
  handle_signup_lem now salt_bytes dto db fits h =
      let user = signed_up now salt_bytes dto db in
      let created_row : create_user sql now user.fields db ≡ (ok user.id, with_user user db) =
        rw (fits, h) refl in
      ap (created sql scrypt jose config now) created_row
      ∙ ap (λ found. (registered sql scrypt jose config now found, with_user user db))
          (find_user_by_id-signed_up user db h)

  reads_of-signed_up :
      (user : User) (db : Database)
      → any (λ u. users_clash sql u user) db.users ≡ false
      → (reads_of sql (with_user user db)).find_user_by_id (some user.id) ≡ done (some user)
  unfolding reads_of
  reads_of-signed_up user db h = ap done (find_user_by_id-signed_up user db h)

  handle_signin_lem :
      (now : ℕ) (email password : Text) (device_hash : Option Text) (db : Database) (user : User)
      (b : Bool)
      → find_by_email sql email db ≡ some user
      → verify_password scrypt user.fields.password password ≡ some b
      → handle_signin sql scrypt jose config now email password device_hash db
        ≡ signin_checked sql scrypt jose config now device_hash user db (some b)
  unfolding handle_signin
  handle_signin_lem now email password device_hash db user b e v =
      ap (signin_found sql scrypt jose config now password device_hash db) e
      ∙ ap (signin_checked sql scrypt jose config now device_hash user db) v

  checked_false :
      (now : ℕ) (device_hash : Option Text) (user : User) (db : Database) (v : Option Bool)
      → signin_checked sql scrypt jose config now device_hash user db v
        ≡ refused sql scrypt jose config
      → v ≡ some false
  checked_false now device_hash user db none h = cc h
  checked_false now device_hash user db (some false) h = refl
  checked_false now device_hash user db (some true) h = cc h

  refused_password :
      (now : ℕ) (password : Text) (device_hash : Option Text) (user : User) (db : Database)
      → signin_checked sql scrypt jose config now device_hash user db
          (verify_password scrypt user.fields.password password)
        ≡ refused sql scrypt jose config
      → verify_password scrypt user.fields.password password ≡ some false
  refused_password now password device_hash user db h =
      checked_false now device_hash user db (verify_password scrypt user.fields.password password) h

  -- A user who signs up with a name and an address that no user has, and with fields that fit their
  -- columns, as the hash of the password does, gets status 201 with the user's public fields and two
  -- tokens. With the tables that the sign-up leaves, the address and the password sign in as that user, on
  -- whatever device and at whatever time; and until it is out of date the access token of the sign-up
  -- authenticates as that user, whatever the store holds and whatever the context was.
  pub signed_up_signs_in :
      {K : Type 0} (kv : Kv K) (laws : JoseLaws jose) (now signing later : ℕ) (salt_bytes : List ℕ)
      (dto : UserRecord) (device_hash : Option Text) (store : K) (c : Context) (db : Database)
      → let user = signed_up now salt_bytes dto db in
        user_fits sql user.fields ≡ true
        → any (λ u. users_clash sql u user) db.users ≡ false
        → later / 1000 < exp_of sql scrypt jose kv config laws config.access_token_lifetime now
        → let (r, db') = handle_signup sql scrypt jose config now salt_bytes dto db in
          let access_token = new_access_token sql scrypt jose config (some user.id) none now in
          (r
            ≡ done (record {
              status = 201;
              body =
                  registration
                    (public_user user)
                    access_token
                    (new_refresh_token sql scrypt jose config user.id now);
            }))
          × (handle_signin sql scrypt jose config signing dto.email dto.password device_hash db'
              ≡ done (signed_in sql scrypt jose config signing device_hash user db'))
          × (authenticate_route jose kv config
                (reads_of sql db')
                (fetching_user sql scrypt jose kv config laws false)
                (bearer access_token)
                later
                store
                c
              ≡ (
                done tt,
                record c {
                  auth_user_id = some (some user.id);
                  auth_user = some user;
                  access_token = some access_token;
                  token_expires_at =
                      some (exp_of sql scrypt jose kv config laws config.access_token_lifetime now);
                },
              ))
  signed_up_signs_in kv laws now signing later salt_bytes dto device_hash store c db fits fresh
        in_time =
      let user = signed_up now salt_bytes dto db in
      let salt = to_hex salt_bytes in
      let same : (scrypt.derive dto.password salt == scrypt.derive dto.password salt) ≡ true =
        (text_beq_iff (scrypt.derive dto.password salt) (scrypt.derive dto.password salt)).1 refl in
      let verified : verify_password scrypt user.fields.password dto.password ≡ some true =
        verify_password-hash_password scrypt scrypt_laws salt_bytes dto.password dto.password
        ∙ ap some same in
      rw (handle_signup_lem now salt_bytes dto db fits fresh) (
        refl,
        handle_signin_lem signing dto.email dto.password device_hash (with_user user db) user true
            (find_by_email-signed_up user db fresh) verified,
        access_token_authenticates sql scrypt jose kv config laws (reads_of sql (with_user user db))
            user.id user none now later store c in_time (reads_of-signed_up user db fresh),
      )

  -- A sign-up with a field that does not fit fails with an error of the driver and changes nothing.
  signup_of_long :
      (now : ℕ) (salt_bytes : List ℕ) (dto : UserRecord) (db : Database)
      → user_fits sql (signed_up now salt_bytes dto db).fields ≡ false
      → handle_signup sql scrypt jose config now salt_bytes dto db ≡ (throws driver_error, db)
  unfolding handle_signup create_user
  signup_of_long now salt_bytes dto db long =
      let user = signed_up now salt_bytes dto db in
      let row : create_user sql now user.fields db ≡ (err data_too_long, db) = rw long refl in
      ap (created sql scrypt jose config now) row

  -- A sign-up with a name or an address that a user has fails with an error of the driver and leaves
  -- all rows as they were.
  pub signup_of_clash :
      (now : ℕ) (salt_bytes : List ℕ) (dto : UserRecord) (db : Database)
      → user_fits sql (signed_up now salt_bytes dto db).fields ≡ true
      → any (λ u. users_clash sql u (signed_up now salt_bytes dto db)) db.users ≡ true
      → handle_signup sql scrypt jose config now salt_bytes dto db
        ≡ (throws driver_error, record db { next_user_id = suc db.next_user_id })
  unfolding handle_signup create_user
  signup_of_clash now salt_bytes dto db fits h =
      let user = signed_up now salt_bytes dto db in
      let row : create_user sql now user.fields db
          ≡ (err duplicate_entry, record db { next_user_id = suc db.next_user_id }) =
        rw (fits, h) refl in
      ap (created sql scrypt jose config now) row

  -- A sign-in is refused exactly when no user has the address or the password is not verified, and in
  -- both cases with the same exception.
  pub signin_refused_iff :
      (now : ℕ) (email password : Text) (device_hash : Option Text) (db : Database)
      → (handle_signin sql scrypt jose config now email password device_hash db
          ≡ refused sql scrypt jose config)
        ↔ ((find_by_email sql email db ≡ none)
            ⊎ ((user : User) × (find_by_email sql email db ≡ some user)
                × (verify_password scrypt user.fields.password password ≡ some false)))
  unfolding handle_signin
  signin_refused_iff now email password device_hash db =
      let f = signin_found sql scrypt jose config now password device_hash db in
      (
        λ h. elim (Option-cases (find_by_email sql email db)) [
          | inl n ↦ inl n
          | inr (user, e) ↦
              inr (user, e, refused_password now password device_hash user db (sym (ap f e) ∙ h))
        ],
        λ h. elim h [
          | inl n ↦ ap f n
          | inr (user, e, v) ↦ handle_signin_lem now email password device_hash db user false e v
        ],
      )
