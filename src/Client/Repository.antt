-- ===== src/Client/Repository.antt =====
-- The client's repositories (cli/repository).
use nerdhub_chat_cli_prototy.Common.{
  ℕ, true, false, not, ◌&&◌, Option, none, some, List, [], ◌∷◌, ◌++◌, map, filter, Text, ◌==◌,
  nat_same, text_same, any, count, if◌then◌else◌,
}
use nerdhub_chat_cli_prototy.Persistence.{first}
use nerdhub_chat_cli_prototy.Client.{BundleRow, OnetimeRow, Store}

-- CreateE2EEParticipantPrekeyBundlesDTO
pub record NewBundle : Type 0 where
  pub pub_identity_key : Text
  pub priv_identity_key : Text
  pub pub_signed_prekey : Text
  pub signed_prekey_signature : Text
  pub priv_signed_prekey : Text

-- CreateOnetimePreKeyDTO
pub record NewOnetime : Type 0 where
  pub id : Text
  pub pub_key : Text
  pub priv_key : Text
  pub user_id : ℕ
  pub participant_id : Option ℕ

-- E2EEParticipantPrekeyBundleRepository
unfoldable pub find_bundle : ℕ → Store → Option BundleRow
find_bundle user_id s = first (filter (λ b. b.user_id == user_id) s.bundles)

abbrev pub bundle_row : ℕ → ℕ → NewBundle → BundleRow
bundle_row now user_id dto = record {
  user_id = user_id;
  pub_identity_key = dto.pub_identity_key;
  priv_identity_key = dto.priv_identity_key;
  pub_signed_prekey = dto.pub_signed_prekey;
  signed_prekey_signature = dto.signed_prekey_signature;
  priv_signed_prekey = dto.priv_signed_prekey;
  is_published = false;
  participant_id = none;
  created_at = now;
  updated_at = now;
}

-- None where the user has a bundle, for the user's id is the key of the table.
unfoldable pub create_bundle : ℕ → ℕ → NewBundle → Store → Option Store
create_bundle now user_id dto s =
    if any (λ b. b.user_id == user_id) s.bundles
    then none
    else some (record s { bundles = s.bundles ++ bundle_row now user_id dto ∷ [] })

abbrev pub published_bundle : ℕ → ℕ → Option ℕ → BundleRow → BundleRow
published_bundle now user_id participant_id b =
    if b.user_id == user_id
    then record b { is_published = true; participant_id = participant_id; updated_at = now }
    else b

unfoldable pub publish_bundle : ℕ → ℕ → Option ℕ → Store → Store
publish_bundle now user_id participant_id s = record s {
  bundles = map (published_bundle now user_id participant_id) s.bundles;
}

abbrev pub reset_row : ℕ → ℕ → NewBundle → BundleRow → BundleRow
reset_row now user_id dto b =
    if b.user_id == user_id
    then record b {
      is_published = false;
      updated_at = now;
      pub_identity_key = dto.pub_identity_key;
      priv_identity_key = dto.priv_identity_key;
      pub_signed_prekey = dto.pub_signed_prekey;
      signed_prekey_signature = dto.signed_prekey_signature;
      priv_signed_prekey = dto.priv_signed_prekey;
    }
    else b

unfoldable pub reset_bundle : ℕ → ℕ → NewBundle → Store → Store
reset_bundle now user_id dto s = record s { bundles = map (reset_row now user_id dto) s.bundles }

unfoldable pub delete_bundle : ℕ → Store → Store
delete_bundle user_id s = record s { bundles = filter (λ b. not (b.user_id == user_id)) s.bundles }

-- E2EEParticipantOnetimePreKeyRepository. Of rows of one time, the database may give any.
pub record Sqlite : Type 0 where
  pub by_created_at_descending : List OnetimeRow → List OnetimeRow

unfoldable pub find_latest : Sqlite → ℕ → Store → Option OnetimeRow
find_latest sqlite user_id s =
    first (sqlite.by_created_at_descending (filter (λ k. k.user_id == user_id) s.onetime_prekeys))

unfoldable pub find_many_non_published : ℕ → Store → List OnetimeRow
find_many_non_published user_id s =
    filter (λ k. k.user_id == user_id && not k.is_published) s.onetime_prekeys

unfoldable pub count_onetime : ℕ → Store → ℕ
count_onetime user_id s = count (λ k. k.user_id == user_id) s.onetime_prekeys

abbrev pub onetime_row : ℕ → NewOnetime → OnetimeRow
onetime_row now dto = record {
  id = dto.id;
  pub_key = dto.pub_key;
  priv_key = dto.priv_key;
  is_published = false;
  user_id = dto.user_id;
  participant_id = dto.participant_id;
  created_at = now;
  updated_at = now;
}

-- the rows after an INSERT, unless an id is there
unfoldable pub insert_onetime : ℕ → List NewOnetime → List OnetimeRow → Option (List OnetimeRow)
insert_onetime now [] rows = some rows
insert_onetime now (dto ∷ dtos) rows =
    let rest = insert_onetime now dtos (rows ++ onetime_row now dto ∷ []) in
    if any (λ k. k.id == dto.id) rows then none else rest

abbrev pub with_rows : Store → Option (List OnetimeRow) → Option Store
with_rows s none = none
with_rows s (some rows) = some (record s { onetime_prekeys = rows })

-- None where it throws; without a row it is no statement.
unfoldable pub create_onetime : ℕ → List NewOnetime → Store → Option Store
create_onetime now [] s = none
create_onetime now (dto ∷ dtos) s = with_rows s (insert_onetime now (dto ∷ dtos) s.onetime_prekeys)

abbrev pub published_onetime : ℕ → ℕ → ℕ → OnetimeRow → OnetimeRow
published_onetime now user_id participant_id k =
    if k.user_id == user_id
    then record k { is_published = true; participant_id = some participant_id; updated_at = now }
    else k

unfoldable pub publish_onetime : ℕ → ℕ → ℕ → Store → Store
publish_onetime now user_id participant_id s = record s {
  onetime_prekeys = map (published_onetime now user_id participant_id) s.onetime_prekeys;
}

unfoldable pub delete_onetime : ℕ → Store → Store
delete_onetime user_id s = record s {
  onetime_prekeys = filter (λ k. not (k.user_id == user_id)) s.onetime_prekeys;
}
