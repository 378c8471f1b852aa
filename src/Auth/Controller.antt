-- ===== src/Auth/Controller.antt =====
-- The handlers of accounts and sessions (server/controller/auth.controller.ts). The parameters that a
-- handler takes first are what the platform gives it: the packages, the time and random bytes.
use nerdhub_chat_cli_prototy.Common.{
  ℕ, ◌-◌, Bool, true, false, Option, none, some, List, [], ◌∷◌, String, Text, to_string, codes,
}
use nerdhub_chat_cli_prototy.Persistence.{
  UserRecord, User, E2eeParticipant, Database, Sql, Result, ok, err, create_user, find_user_by_id,
  find_by_email, find_participant_by_id, find_by_user_id_and_device_id,
}
use nerdhub_chat_cli_prototy.Auth.{
  Jose, Kv, AuthConfig, Context, Outcome, done, throws, Reads, create_jwt, forbidden, driver_error,
  type_error,
}
use nerdhub_chat_cli_prototy.Auth.Password.{Scrypt, hash_password, verify_password}

-- UserWithoutPassword
pub record PublicUser : Type 0 where
  pub id : ℕ
  pub firstname : Text
  pub lastname : Text
  pub username : Text
  pub email : Text
  pub has_e2ee_participant : Bool
  pub created_at : ℕ
  pub updated_at : ℕ

abbrev pub public_user : User → PublicUser
public_user user = record {
  id = user.id;
  firstname = user.fields.firstname;
  lastname = user.fields.lastname;
  username = user.fields.username;
  email = user.fields.email;
  has_e2ee_participant = user.has_e2ee_participant;
  created_at = user.created_at;
  updated_at = user.updated_at;
}

-- The bodies of responses.
pub data Body : Type 0 where
  registration : PublicUser → Text → Text → Body
  signin : PublicUser → Option E2eeParticipant → Text → Text → Body
  tokens : Text → Text → Body
  profile : PublicUser → Option E2eeParticipant → Body
  plain : String → Body

pub record Response : Type 0 where
  pub status : ℕ
  pub body : Body

abbrev pub participant_id : Option E2eeParticipant → Option ℕ
participant_id none = none
participant_id (some p) = some p.id

-- `id.toString()` of a number that may be NaN
abbrev pub number_text : Option ℕ → Text
number_text none = codes "NaN"
number_text (some n) = to_string n

-- The tables as `authenticateRoute` reads them: an identifier that is NaN is none of a row.
unfoldable pub reads_of : Sql → Database → Reads
reads_of sql db = record {
  find_user_by_id = λ id. elim id [ none ↦ done none | some n ↦ done (find_user_by_id sql n db) ];
  find_participant_by_id = λ id. done (find_participant_by_id sql id db);
}

-- the participant of a user's device: where the header is missing or empty there is none
unfoldable pub device_participant : Sql → Option Text → Option ℕ → Database → Option E2eeParticipant
device_participant sql none id db = none
device_participant sql (some []) id db = none
device_participant sql (some (c ∷ s)) none db = none
device_participant sql (some (c ∷ s)) (some id) db = find_by_user_id_and_device_id sql id (c ∷ s) db

module _ (sql : Sql) (scrypt : Scrypt) (jose : Jose) (config : AuthConfig) where
  unfoldable pub new_access_token : Option ℕ → Option E2eeParticipant → ℕ → Text
  new_access_token id participant now =
      create_jwt jose (some (number_text id)) (participant_id participant)
        config.access_token_secret config.access_token_lifetime now

  unfoldable pub new_refresh_token : ℕ → ℕ → Text
  new_refresh_token id now =
      create_jwt jose (some (to_string id)) none config.refresh_token_secret
        config.refresh_token_lifetime now

  abbrev pub registered : ℕ → Option User → Outcome Response
  registered now none = throws type_error
  registered now (some user) = done (record {
    status = 201;
    body =
        registration (public_user user) (new_access_token (some user.id) none now)
          (new_refresh_token user.id now);
  })

  -- after the statement that inserts the user
  abbrev pub created : ℕ → Result ℕ × Database → Outcome Response × Database
  created now (err e, db) = (throws driver_error, db)
  created now (ok insert_id, db) = (registered now (find_user_by_id sql insert_id db), db)

  unfoldable pub handle_signup : ℕ → List ℕ → UserRecord → Database → Outcome Response × Database
  handle_signup now salt_bytes dto db =
      let hashed_password = hash_password scrypt salt_bytes dto.password in
      created now (create_user sql now (record dto { password = hashed_password }) db)

  abbrev pub signed_in : ℕ → Option Text → User → Database → Response
  signed_in now device_hash user db =
      let participant = device_participant sql device_hash (some user.id) db in
      record {
        status = 200;
        body =
            signin (public_user user) participant (new_access_token (some user.id) participant now)
              (new_refresh_token user.id now);
      }

  abbrev pub refused : Outcome Response
  refused = throws (forbidden "Either your email or your password is wrong")

  abbrev pub signin_checked : ℕ → Option Text → User → Database → Option Bool → Outcome Response
  signin_checked now device_hash user db none = throws type_error
  signin_checked now device_hash user db (some false) = refused
  signin_checked now device_hash user db (some true) = done (signed_in now device_hash user db)

  abbrev pub signin_found : ℕ → Text → Option Text → Database → Option User → Outcome Response
  signin_found now password device_hash db none = refused
  signin_found now password device_hash db (some user) =
      signin_checked now device_hash user db (verify_password scrypt user.fields.password password)

  unfoldable pub handle_signin : ℕ → Text → Text → Option Text → Database → Outcome Response
  handle_signin now email password device_hash db =
      signin_found now password device_hash db (find_by_email sql email db)

  -- The handlers behind `authenticateRoute` take its context.
  unfoldable pub handle_refresh_token : ℕ → Option Text → Context → Database → Outcome Response
  handle_refresh_token now device_hash context db = elim context.auth_user_id [
    | none ↦ throws type_error
    | some id ↦ elim context.refresh_token [
      | none ↦ throws type_error
      | some refresh_token ↦ done (record {
        status = 200;
        body =
            tokens (new_access_token id (device_participant sql device_hash id db) now)
              refresh_token;
      })
    ]
  ]

-- `Math.max(exp - Date.now(), 0)`
abbrev pub expire_in : ℕ → ℕ → ℕ
expire_in token_expires_at now = token_expires_at - now

unfoldable pub handle_signout : {K : Type 0} → Kv K → ℕ → Context → K → Outcome Response × K
handle_signout kv now context store = elim context.token_expires_at [
  | none ↦ (throws type_error, store)
  | some exp ↦ elim context.refresh_token [
    | none ↦ (throws type_error, store)
    | some token ↦ (
      done (record { status = 204; body = plain "Signed out" }),
      kv.set token now (expire_in exp now) store,
    )
  ]
]

unfoldable pub handle_get_auth_user : Context → Outcome Response
handle_get_auth_user context = elim context.auth_user [
  | none ↦ throws type_error
  | some user ↦
      done (record { status = 200; body = profile (public_user user) context.e2ee_participant })
]
