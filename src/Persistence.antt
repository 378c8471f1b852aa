-- ===== src/Persistence.antt =====
-- The server's tables (server/database) and the repositories over them (server/repository). The
-- database compares texts by its collation, counts their length for a column, and orders rows of one
-- time as it likes: all are parameters. It is in its strict mode, where a value that is too long is an
-- error; blanks at the end of one, which it cuts, are counted as well. A connection that fails is left
-- out.
pub mod WellFormed
pub mod Preservation
pub mod OnetimePreKeys
pub mod Reachable
pub mod Pop
pub mod CreateMany
mod Tests
use nerdhub_chat_cli_prototy.Common.{
  ℕ, suc, ◌+◌, Bool, true, false, not, ◌&&◌, ◌||◌, Option, none, some, List, [], ◌∷◌, ◌++◌, map,
  filter, Text, ◌==◌, nat_same, if◌then◌else◌, any, count, ltb, leb, text_same,
}

-- CreateUserRecord
pub record UserRecord : Type 0 where
  pub firstname : Text
  pub lastname : Text
  pub username : Text
  pub email : Text
  pub password : Text

pub record User : Type 0 where
  pub id : ℕ
  pub fields : UserRecord
  pub has_e2ee_participant : Bool
  pub created_at : ℕ
  pub updated_at : ℕ

-- CreateE2EEParticipantRecord, which also updates a bundle
pub record BundleRecord : Type 0 where
  pub pub_identity_key : Text
  pub pub_signed_prekey : Text
  pub signed_prekey_signature : Text

pub record E2eeParticipant : Type 0 where
  pub id : ℕ
  pub device_id : Text
  pub bundle : BundleRecord
  pub created_at : ℕ
  pub updated_at : ℕ
  pub user_id : ℕ

pub record OnetimePreKey : Type 0 where
  pub id : Text
  pub pub_key : Text
  pub created_at : ℕ
  pub participant_id : ℕ

-- The rows in the order of insertion, and the next automatic identifiers.
pub record Database : Type 0 where
  pub users : List User
  pub participants : List E2eeParticipant
  pub onetime_prekeys : List OnetimePreKey
  pub next_user_id : ℕ
  pub next_participant_id : ℕ

-- What the database decides: which texts are equal, the characters and the bytes of a text, and the
-- order of rows by their time.
pub record Sql : Type 0 where
  pub same_text : Text → Text → Bool
  pub characters : Text → ℕ
  pub bytes : Text → ℕ
  pub by_created_at : List OnetimePreKey → List OnetimePreKey

pub data SqlError : Type 0 where
  data_too_long duplicate_entry no_referenced_row syntax_error : SqlError

pub data Result {ℓ} (A : Type ℓ) : Type ℓ where
  ok : A → Result A
  err : SqlError → Result A

-- Statements that end with a result or an error; what was written before an error stays, for the
-- code commits its transactions in both cases.
abbrev pub Action {ℓ} : Type ℓ → Type ℓ
Action A = Database → Result A × Database

abbrev pub pure {ℓ} : {A : Type ℓ} → A → Action A
pure a db = (ok a, db)

abbrev pub fail {ℓ} : {A : Type ℓ} → SqlError → Action A
fail e db = (err e, db)

-- What follows the end of an action.
abbrev pub resume {ℓ κ} :
    {A : Type ℓ} {B : Type κ} → (A → Action B) → Result A × Database → Result B × Database
resume f (ok a, db) = f a db
resume f (err e, db) = (err e, db)

infixl 5 ◌>>=◌ ◌>>◌
abbrev pub ◌>>=◌ {ℓ κ} : {A : Type ℓ} {B : Type κ} → Action A → (A → Action B) → Action B
◌>>=◌ m f db = resume f (m db)

abbrev pub ◌>>◌ {ℓ κ} : {A : Type ℓ} {B : Type κ} → Action A → Action B → Action B
m >> k = m >>= λ _. k

abbrev pub first {ℓ} : {A : Type ℓ} → List A → Option A
first [] = none
first (x ∷ xs) = some x

-- Two users clash where their names or addresses are equal, or their identifiers.
abbrev pub users_clash : Sql → User → User → Bool
users_clash sql u v =
    u.id == v.id
    || sql.same_text u.fields.username v.fields.username
    || sql.same_text u.fields.email v.fields.email

abbrev pub participants_clash : Sql → E2eeParticipant → E2eeParticipant → Bool
participants_clash sql p q =
    p.id == q.id || (p.user_id == q.user_id && sql.same_text p.device_id q.device_id)

abbrev pub prekeys_clash : Sql → OnetimePreKey → OnetimePreKey → Bool
prekeys_clash sql k l = sql.same_text k.id l.id

-- VARCHAR(255) and TINYTEXT
abbrev pub fits_varchar : Sql → Text → Bool
fits_varchar sql t = leb (sql.characters t) 255

abbrev pub fits_tinytext : Sql → Text → Bool
fits_tinytext sql t = leb (sql.bytes t) 255

abbrev pub user_fits : Sql → UserRecord → Bool
user_fits sql u =
    fits_varchar sql u.firstname
    && fits_varchar sql u.lastname
    && fits_varchar sql u.username
    && fits_varchar sql u.email
    && fits_varchar sql u.password

abbrev pub bundle_fits : Sql → BundleRecord → Bool
bundle_fits sql b =
    fits_tinytext sql b.pub_identity_key
    && fits_tinytext sql b.pub_signed_prekey
    && fits_tinytext sql b.signed_prekey_signature

abbrev pub prekey_fits : Sql → OnetimePreKey → Bool
prekey_fits sql k = fits_varchar sql k.id && fits_tinytext sql k.pub_key

abbrev pub same_bundle : BundleRecord → BundleRecord → Bool
same_bundle b c =
    b.pub_identity_key == c.pub_identity_key
    && b.pub_signed_prekey == c.pub_signed_prekey
    && b.signed_prekey_signature == c.signed_prekey_signature

abbrev pub same_flag : Bool → Bool → Bool
same_flag true b = b
same_flag false b = not b

module _ (sql : Sql) where
  -- UserRepository
  unfoldable pub find_user_by_id : ℕ → Database → Option User
  find_user_by_id id db = first (filter (λ u. u.id == id) db.users)

  unfoldable pub find_by_email : Text → Database → Option User
  find_by_email email db = first (filter (λ u. sql.same_text u.fields.email email) db.users)

  unfoldable pub username_exists : Text → Database → Bool
  username_exists username db = any (λ u. sql.same_text u.fields.username username) db.users

  unfoldable pub email_exists : Text → Database → Bool
  email_exists email db = any (λ u. sql.same_text u.fields.email email) db.users

  -- the row that is inserted
  abbrev pub new_user : ℕ → UserRecord → ℕ → User
  new_user now record_ id = record {
    id = id;
    fields = record_;
    has_e2ee_participant = false;
    created_at = now;
    updated_at = now;
  }

  -- `create` gives the identifier of the row; a row that clashes takes one too.
  unfoldable pub create_user : ℕ → UserRecord → Action ℕ
  create_user now record_ db =
      let user = new_user now record_ db.next_user_id in
      let db' = record db { next_user_id = suc db.next_user_id } in
      if user_fits sql record_
      then if any (λ u. users_clash sql u user) db.users
        then (err duplicate_entry, db')
        else (ok user.id, record db' { users = db.users ++ user ∷ [] })
      else (err data_too_long, db)

  -- E2EEParticipantRepository
  unfoldable pub find_participant_by_id : ℕ → Database → Option E2eeParticipant
  find_participant_by_id id db = first (filter (λ p. p.id == id) db.participants)

  unfoldable pub find_by_user_id_and_device_id : ℕ → Text → Database → Option E2eeParticipant
  find_by_user_id_and_device_id user_id device_id db =
      first
        (filter (λ p. p.user_id == user_id && sql.same_text p.device_id device_id) db.participants)

  abbrev pub new_participant : ℕ → ℕ → Text → BundleRecord → ℕ → E2eeParticipant
  new_participant now user_id device_id bundle id = record {
    id = id;
    device_id = device_id;
    bundle = bundle;
    created_at = now;
    updated_at = now;
    user_id = user_id;
  }

  unfoldable pub insert_participant : ℕ → ℕ → Text → BundleRecord → Action ℕ
  insert_participant now user_id device_id bundle db =
      let row = new_participant now user_id device_id bundle db.next_participant_id in
      let db' = record db { next_participant_id = suc db.next_participant_id } in
      if fits_varchar sql device_id && bundle_fits sql bundle
      then if any (λ p. participants_clash sql p row) db.participants
        then (err duplicate_entry, db')
        else if any (λ u. u.id == user_id) db.users
        then (ok row.id, record db' { participants = db.participants ++ row ∷ [] })
        else (err no_referenced_row, db')
      else (err data_too_long, db)

  unfoldable pub count_participants : ℕ → Action ℕ
  count_participants user_id db = (ok (count (λ p. p.user_id == user_id) db.participants), db)

  -- `updated_at` changes where the row changes.
  abbrev pub set_flag : ℕ → ℕ → Bool → User → User
  set_flag now user_id flag u =
      if u.id == user_id
      then record u {
        has_e2ee_participant = flag;
        updated_at = if same_flag u.has_e2ee_participant flag then u.updated_at else now;
      }
      else u

  unfoldable pub update_has_e2ee_participant : ℕ → ℕ → Bool → Action (Unit {0})
  update_has_e2ee_participant now user_id flag db =
      (ok tt, record db { users = map (set_flag now user_id flag) db.users })

  unfoldable pub create_participant : ℕ → ℕ → Text → BundleRecord → Action ℕ
  unfolding insert_participant count_participants update_has_e2ee_participant
  create_participant now user_id device_id bundle = do
    id ← insert_participant now user_id device_id bundle
    n ← count_participants user_id
    update_has_e2ee_participant now user_id (ltb 0 n)
    pure id

  abbrev pub set_bundle : ℕ → ℕ → BundleRecord → E2eeParticipant → E2eeParticipant
  set_bundle now id bundle p =
      if p.id == id
      then record p {
        bundle = bundle;
        updated_at = if same_bundle p.bundle bundle then p.updated_at else now;
      }
      else p

  unfoldable pub update_pre_key_bundle_by_id : ℕ → ℕ → BundleRecord → Action (Unit {0})
  update_pre_key_bundle_by_id now id bundle db =
      if bundle_fits sql bundle || not (any (λ p. p.id == id) db.participants)
      then (ok tt, record db { participants = map (set_bundle now id bundle) db.participants })
      else (err data_too_long, db)

  -- E2EEParticipantOnetimePreKeyRepository
  unfoldable pub find_many_by_participant_id : ℕ → Database → List OnetimePreKey
  find_many_by_participant_id id db =
      sql.by_created_at (filter (λ k. k.participant_id == id) db.onetime_prekeys)

  unfoldable pub delete_by_participant_id : ℕ → Action (Unit {0})
  delete_by_participant_id id db = (
    ok tt,
    record db { onetime_prekeys = filter (λ k. not (k.participant_id == id)) db.onetime_prekeys },
  )

  abbrev pub new_prekey : ℕ → ℕ → Text × Text → OnetimePreKey
  new_prekey now id (key, pub_key) = record {
    id = key;
    pub_key = pub_key;
    created_at = now;
    participant_id = id;
  }

  -- The rows after an INSERT, unless one of them is too long, clashes, or has no participant; `known`
  -- tells whether the participant is there.
  unfoldable pub insert_prekeys :
      ℕ → ℕ → Bool → List (Text × Text) → List OnetimePreKey → Result (List OnetimePreKey)
  insert_prekeys now id known [] rows = ok rows
  insert_prekeys now id known (key ∷ dto) rows =
      let row = new_prekey now id key in
      let rest = insert_prekeys now id known dto (rows ++ row ∷ []) in
      if prekey_fits sql row
      then if any (λ k. prekeys_clash sql k row) rows
        then err duplicate_entry
        else if known
        then rest
        else err no_referenced_row
      else err data_too_long

  abbrev pub with_rows : Database → Result (List OnetimePreKey) → Result (Unit {0}) × Database
  with_rows db (ok rows) = (ok tt, record db { onetime_prekeys = rows })
  with_rows db (err e) = (err e, db)

  -- the INSERT: it adds all rows or none, and without a row it is no statement
  unfoldable pub insert_many : ℕ → ℕ → List (Text × Text) → Action (Unit {0})
  unfolding insert_prekeys
  insert_many now id [] db = (err syntax_error, db)
  insert_many now id (row ∷ dto) db =
      with_rows db (
        insert_prekeys now id (any (λ p. p.id == id) db.participants) (row ∷ dto)
          db.onetime_prekeys)

  unfoldable pub create_many_by_participant_id :
      ℕ → ℕ → List (Text × Text) → Bool → Action (Unit {0})
  unfolding insert_many delete_by_participant_id
  create_many_by_participant_id now id dto flush = do
    if flush then delete_by_participant_id id else pure tt
    insert_many now id dto

  -- the first statement of `popByParticipantId`
  unfoldable pub select_oldest : ℕ → Action (Option OnetimePreKey)
  unfolding find_many_by_participant_id
  select_oldest id db = (ok (first (find_many_by_participant_id id db)), db)

  -- the second one
  unfoldable pub delete_prekey : Option OnetimePreKey → Action (Unit {0})
  delete_prekey none db = (ok tt, db)
  delete_prekey (some opk) db = (
    ok tt,
    record db {
      onetime_prekeys = filter (λ k. not (sql.same_text k.id opk.id)) db.onetime_prekeys;
    },
  )

  unfoldable pub pop_by_participant_id : ℕ → Action (Option OnetimePreKey)
  unfolding select_oldest delete_prekey
  pop_by_participant_id id = do opk ← select_oldest id; delete_prekey opk; pure opk
