-- ===== src/Views/Keys.antt =====
-- The views that store and retrieve the local encryption key (cli/ui/local-key-manager.store.ui.ts,
-- cli/ui/local-key-manager.retrieve.ui.ts, cli/ui/local-key-manager.ui.ts) and the path of a user's key
-- (cli/helpers/local-encryption-key.helper.ts).
pub mod Paths
pub mod Kept
pub mod Found
use nerdhub_chat_cli_prototy.Common.{
  ℕ, zero, suc, ◌+◌, Bool, true, false, not, ◌&&◌, ◌||◌, Option, none, some, List, [], ◌∷◌, ◌++◌,
  String, Text, codes, ◌==◌, text_same, string_same, if◌then◌else◌, leb, length, to_string,
  nat_same,
}
use nerdhub_chat_cli_prototy.Common.JsMap
use nerdhub_chat_cli_prototy.Pathname.{is_some, strip_prefix}
use nerdhub_chat_cli_prototy.KeyStorage.{
  Files, Base64, Retrieval, retrieved, no_file, key_not_found, store_key, retrieve_key,
}
use nerdhub_chat_cli_prototy.LocalEncryption.{encryption_key_length}
use nerdhub_chat_cli_prototy.Client.{Client}
use nerdhub_chat_cli_prototy.Views.{
  Answer, Session, Finish, done, navigates, exits, throws, waits, View, pure, resume, ◌>>=◌, ◌>>◌,
  navigate, exit, fail, select, confirm, input, accept, bottom_actions,
}

-- The platform: base64, `path.resolve` and `path.join`, the directory of the process, `hkdfSync` with
-- the key material, salt, info and length, hexadecimal text, random bytes of a length, and what a
-- prompt gives for a text that its `transform` returns nothing for, and for one where it has none, which
-- its library trims.
pub record Desk : Type 0 where
  pub base64 : Base64
  pub resolve : Text → Text
  pub join : List Text → Text
  pub cwd : Text
  pub hkdf : Text → Text → Text → ℕ → Text
  pub hex : Text → Text
  pub random_bytes : ℕ → ℕ → Text
  pub untransformed : Text → Text
  pub trimmed : Text → Text

abbrev pub salt : Text
salt = codes "some-salt-for-user-based-local-encryption-key-name"

abbrev pub info : Text
info = codes "some-info-for-user-based-local-encryption-key-name"

-- generateLocalEncryptionKeyPemFilePathForUser
unfoldable pub pem_file_path_for_user : Desk → Text → Text
pem_file_path_for_user desk user_id =
    desk.join
      (desk.cwd ∷ codes "/keys" ∷ (desk.hex (desk.hkdf user_id salt info 32) ++ codes ".pem") ∷ [])

-- `\w`
abbrev pub is_word : ℕ → Bool
is_word c =
    (leb b'a' c && leb c b'z')
    || (leb b'A' c && leb c b'Z')
    || (leb b'0' c && leb c b'9')
    || c == b'_'

abbrev pub all_words : Text → Bool
all_words [] = true
all_words (c ∷ s) = is_word c && all_words s

abbrev pub is_extension : Text → Bool
is_extension [] = false
is_extension (c ∷ []) = false
is_extension (c ∷ d ∷ s) = c == b'.' && all_words (d ∷ s)

-- the match of `/(\.\w+)$/`
unfoldable pub file_extension : Text → Option Text
file_extension [] = none
file_extension (c ∷ s) = if is_extension (c ∷ s) then some (c ∷ s) else file_extension s

-- `validate` and `transform` of the prompt for a path
abbrev pub is_pem : Option Text → Bool
is_pem none = true
is_pem (some e) = e == codes ".pem"

unfoldable pub validate_path : Text → Bool
validate_path [] = false
validate_path (c ∷ s) = is_pem (file_extension (c ∷ s))

unfoldable pub ends_with : Text → Text → Bool
ends_with suffix [] = suffix == []
ends_with suffix (c ∷ s) = suffix == (c ∷ s) || ends_with suffix s

unfoldable pub transform_path : Desk → Text → Text
transform_path desk value =
    if not (ends_with (codes ".pem") value) then value ++ codes ".pem" else desk.untransformed value

abbrev pub is_file : Desk → Text → Files → Bool
is_file desk path files = is_some (JsMap.get (desk.resolve path) files)

abbrev pub sources : Option ℕ → List String
sources none = "provided" ∷ []
sources (some user) = "user-based" ∷ "provided" ∷ []

abbrev pub not_found_options : String → List String
not_found_options mode =
    if mode == "provided"
    then "retry" ∷ "store" ∷ "Index" ∷ "Exit" ∷ []
    else "store" ∷ "Index" ∷ "Exit" ∷ []

abbrev pub is_return_route : Text → Bool
is_return_route from = is_some (strip_prefix (codes "Chats") from) || from == codes "Auth"

abbrev pub exit_or_go_on : {S : Type 0} → String → View S (Unit {0})
exit_or_go_on action = if action == "Exit" then exit else pure tt

abbrev pub index_or_exit : {S : Type 0} → String → View S (Unit {0})
index_or_exit action =
    if action == "Index" then navigate (codes "Index") none else exit_or_go_on action

module _ {S : Type 0} (desk : Desk) where
  abbrev pub select_source : View S String
  select_source s = select (sources s.client.user_id) s

  abbrev pub validated : Text → View S Bool
  validated value = pure (validate_path value)

  abbrev pub provided_path : View S Text
  provided_path = input validated >>= λ value. pure (transform_path desk value)

  abbrev pub path_of : Option ℕ → Bool → View S Text → View S Text
  path_of (some user) true provided = pure (pem_file_path_for_user desk (to_string user))
  path_of _ _ provided = provided

  unfoldable pub choose_path : String → View S Text
  choose_path source s = path_of s.client.user_id (source == "user-based") provided_path s

  -- Is the key of an existing file to be reused? It is not where the user refuses it, and then wants
  -- to override it.
  abbrev pub ask_override : Bool → View S Bool
  ask_override true = pure true
  ask_override false = do override ← confirm; pure (not override)

  unfoldable pub ask_reuse : Text → View S Bool
  ask_reuse path s =
      if is_file desk path s.files then (confirm >>= ask_override) s else (done false, s)

  abbrev pub set_key : Text → Session S → Session S
  set_key key s = record s { client = record s.client { local_encryption_key = some key } }

  abbrev pub keep_retrieved : Session S → Retrieval → Finish (Unit {0}) × Session S
  keep_retrieved s (retrieved key) = (done tt, set_key key s)
  keep_retrieved s _ = (throws, s)

  -- The key that a file has becomes the context's.
  unfoldable pub use_key : Text → View S (Unit {0})
  use_key path s = keep_retrieved s (retrieve_key desk.base64 (desk.resolve path) s.files)

  abbrev pub keep_new : Text → Text → Session S → Session S
  keep_new path key s = record s {
    client = record s.client {
      local_encryption_key = some key;
      generated = suc s.client.generated;
    };
    files = store_key desk.base64 key (desk.resolve path) s.files;
  }

  -- A new key becomes the context's and is written.
  unfoldable pub new_key : Text → View S (Unit {0})
  new_key path s =
      (done tt, keep_new path (desk.random_bytes s.client.generated encryption_key_length) s)

  abbrev pub settle_key : Text → Bool → View S (Unit {0})
  settle_key path true = use_key path
  settle_key path false = new_key path

  -- the view but for its end; it gives the path
  unfoldable pub keep_key : View S Text
  keep_key = do
    source ← select_source
    path ← choose_path source
    reuse ← ask_reuse path
    settle_key path reuse
    pure path

  abbrev pub back_to_chats : Option Text → View S (Unit {0})
  back_to_chats none = pure tt
  back_to_chats (some from) = if from == codes "Chats" then navigate from none else pure tt

  unfoldable pub local_key_manager_store : Option Text → View S (Unit {0})
  local_key_manager_store from = do keep_key; back_to_chats from; bottom_actions

  -- the retrieval
  abbrev pub resolved_input : View S Text
  resolved_input = input accept >>= λ path. pure (desk.resolve (desk.trimmed path))

  unfoldable pub retrieval_path : String → View S Text
  retrieval_path mode s = path_of s.client.user_id (mode == "user-based") resolved_input s

  abbrev pub act : Option Text → String → View S (Unit {0})
  act from action =
      if action == "store"
      then navigate (codes "LocalKeyManager.Store") from
      else index_or_exit action

  abbrev pub next_action : View S Text → Option Text → String → View S Text
  next_action again from mode = do action ← select (not_found_options mode); act from action; again

  abbrev pub found_or : View S Text → Option Text → String → Text → View S Text
  found_or again from mode path s =
      if is_file desk path s.files then (done path, s) else next_action again from mode s

  -- Each round of the loop takes an answer unless it is the last one, so that one more round than there
  -- are answers is enough.
  unfoldable pub find_path : ℕ → Option Text → String → View S Text
  find_path zero from mode s = (waits, s)
  find_path (suc rounds) from mode s =
      let again = find_path rounds from mode in
      (retrieval_path mode >>= λ path. found_or again from mode path) s

  abbrev pub back_to : Option Text → View S (Unit {0})
  back_to none = pure tt
  back_to (some from) = if is_return_route from then navigate from (some from) else pure tt

  unfoldable pub take_key : Option Text → View S Text
  take_key from = do
    mode ← select_source
    path ← (λ s. find_path (suc (length s.answers)) from mode s)
    use_key path
    pure path

  unfoldable pub local_key_manager_retrieve : Option Text → View S (Unit {0})
  local_key_manager_retrieve from = do take_key from; back_to from; bottom_actions
