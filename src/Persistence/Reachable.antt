-- ===== src/Persistence/Reachable.antt =====
-- Every state of the server's tables that its operations reach.
use nerdhub_chat_cli_prototy.Common.{ℕ, Bool, List, [], ◌∷◌, Text}
use nerdhub_chat_cli_prototy.Persistence.{
  UserRecord, BundleRecord, Database, Sql, create_user, create_participant,
  update_pre_key_bundle_by_id, create_many_by_participant_id, pop_by_participant_id,
}
use nerdhub_chat_cli_prototy.Persistence.WellFormed.{IsWellFormed}
use nerdhub_chat_cli_prototy.Persistence.Preservation.{
  create_user-IsWellFormed, create_participant-IsWellFormed,
  update_pre_key_bundle_by_id-IsWellFormed,
}
use nerdhub_chat_cli_prototy.Persistence.OnetimePreKeys.{
  create_many_by_participant_id-IsWellFormed, pop_by_participant_id-IsWellFormed,
}

-- A call of a repository that writes.
pub data Call : Type 0 where
  creates_user : ℕ → UserRecord → Call
  creates_participant : ℕ → ℕ → Text → BundleRecord → Call
  updates_bundle : ℕ → ℕ → BundleRecord → Call
  creates_prekeys : ℕ → ℕ → List (Text × Text) → Bool → Call
  pops_prekey : ℕ → Call

-- the tables after the call, whether it fails or not
unfoldable pub apply : Sql → Call → Database → Database
apply sql (creates_user now fields) db = (create_user sql now fields db).1
apply sql (creates_participant now user_id device_id bundle) db =
    (create_participant sql now user_id device_id bundle db).1
apply sql (updates_bundle now id bundle) db = (update_pre_key_bundle_by_id sql now id bundle db).1
apply sql (creates_prekeys now id dto flush) db =
    (create_many_by_participant_id sql now id dto flush db).1
apply sql (pops_prekey id) db = (pop_by_participant_id sql id db).1

unfoldable pub apply_all : Sql → List Call → Database → Database
apply_all sql [] db = db
apply_all sql (c ∷ cs) db = apply_all sql cs (apply sql c db)

-- the tables after the migrations
abbrev pub migrated : Database
migrated = record {
  users = [];
  participants = [];
  onetime_prekeys = [];
  next_user_id = 1;
  next_participant_id = 1;
}

apply-IsWellFormed :
    (sql : Sql) (c : Call) (db : Database) → IsWellFormed sql db → IsWellFormed sql (apply sql c db)
unfolding apply
apply-IsWellFormed sql (creates_user now fields) db w = create_user-IsWellFormed sql now fields db w
apply-IsWellFormed sql (creates_participant now user_id device_id bundle) db w =
    create_participant-IsWellFormed sql now user_id device_id bundle db w
apply-IsWellFormed sql (updates_bundle now id bundle) db w =
    update_pre_key_bundle_by_id-IsWellFormed sql now id bundle db w
apply-IsWellFormed sql (creates_prekeys now id dto flush) db w =
    create_many_by_participant_id-IsWellFormed sql now id dto flush db w
apply-IsWellFormed sql (pops_prekey id) db w = pop_by_participant_id-IsWellFormed sql id db w

apply_all-IsWellFormed :
    (sql : Sql) (cs : List Call) (db : Database)
    → IsWellFormed sql db
    → IsWellFormed sql (apply_all sql cs db)
unfolding apply_all
apply_all-IsWellFormed sql [] db w = w
apply_all-IsWellFormed sql (c ∷ cs) db w =
    apply_all-IsWellFormed sql cs _ (apply-IsWellFormed sql c db w)

-- Whatever calls of the repositories that write follow the migrations, with whatever arguments and
-- whether they fail or not: no two users clash in id, name or address, no two participants in id or
-- in user and device, no two one-time prekeys in id; identifiers are below the next one; each
-- participant has its user and each one-time prekey its participant; and a user's flag is set
-- exactly when it has a participant.
pub reachable-IsWellFormed :
    (sql : Sql) (cs : List Call) → IsWellFormed sql (apply_all sql cs migrated)
reachable-IsWellFormed sql cs = apply_all-IsWellFormed sql cs migrated (record {
  users_distinct = tt;
  participants_distinct = tt;
  prekeys_distinct = tt;
  users_below = tt;
  owners_below = tt;
  participants_owned = tt;
  prekeys_owned = tt;
  flags = tt;
})
