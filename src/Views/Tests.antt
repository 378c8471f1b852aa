-- ===== src/Views/Tests.antt =====
-- The views at concrete sessions.
use nerdhub_chat_cli_prototy.Common.{
  nat_same, nat_beq_iff, if◌then◌else◌, ap, ◌∙◌, length, ℕ, ◌+◌, ◌≡◌, inl, refl, true, false,
  Option, none, some, List, [], ◌∷◌, Text, codes, ◌==◌, text_same, All, arith,
}
use nerdhub_chat_cli_prototy.Common.JsMap
use nerdhub_chat_cli_prototy.KeyStorage.{Files, store_key, retrieve_key, retrieved}
use nerdhub_chat_cli_prototy.Persistence.{Database, Sql}
use nerdhub_chat_cli_prototy.Persistence.Reachable.{migrated}
use nerdhub_chat_cli_prototy.Users.{
  handle_check_username_exists, handle_check_email_exists, email_checked,
}
use nerdhub_chat_cli_prototy.Client.Setup.{setup_pre_key_bundle}
use nerdhub_chat_cli_prototy.Client.Fixtures.{surroundings, before, after}
use nerdhub_chat_cli_prototy.Views.{
  Answer, typed, chosen, confirmed, pressed, Session, done, input, input_from,
}
use nerdhub_chat_cli_prototy.Views.Keys.{
  Desk, is_file, file_extension, validate_path, ends_with, transform_path, choose_path, ask_reuse,
  new_key, use_key, keep_key, retrieval_path, find_path, take_key,
}
use nerdhub_chat_cli_prototy.Views.Keys.Kept.{KeepsKeys, Keeps, Overrides, keep_key-retrieve_key}
use nerdhub_chat_cli_prototy.Views.Keys.Found.{take_key-retrieve_key}
use nerdhub_chat_cli_prototy.Views.Accounts.{
  Registration, accepted, refused, AccountsApi, split_at, validate_username, validate_email,
  all_units, of_length, register, login, with_server,
}
use nerdhub_chat_cli_prototy.Views.Accounts.Login.{IsToldFrom, login-IsToldFrom}
use nerdhub_chat_cli_prototy.Views.Accounts.Register.{IsComplete, register-sends}
use nerdhub_chat_cli_prototy.Views.Accounts.Visible.{is_visible}
use nerdhub_chat_cli_prototy.Views.Accounts.Taken.{taken-accepted}
use nerdhub_chat_cli_prototy.Views.Routes.{index, chats_page, IsReady, routes, render}
use nerdhub_chat_cli_prototy.Views.Closed.Table.{IsRoute, started, led, shown-IsRoute}
use nerdhub_chat_cli_prototy.Views.Guards.{pages-IsReady}

-- a prompt that leaves out the blanks at the end of a text
abbrev trimmed_unit : ℕ → Text → Text
trimmed_unit c [] = if c == b' ' then [] else c ∷ []
trimmed_unit c (d ∷ s) = c ∷ d ∷ s

abbrev trimmed_end : Text → Text
trimmed_end [] = []
trimmed_end (c ∷ s) = trimmed_unit c (trimmed_end s)

trimmed_unit-visible : (c : ℕ) (s : Text) → is_visible c ≡ true → trimmed_unit c s ≡ c ∷ s
trimmed_unit-visible c [] h =
    let other : (c == b' ') ≡ false = ground (arith, h, nat_beq_iff c b' ') in rw other refl
trimmed_unit-visible c (d ∷ s) h = refl

trimmed_end-visible : (t : Text) → all_units is_visible t ≡ true → trimmed_end t ≡ t
trimmed_end-visible [] h = refl
trimmed_end-visible (c ∷ s) h =
    let a : is_visible c ≡ true = ground (arith, h) in
    let b : all_units is_visible s ≡ true = ground (arith, h) in
    ap (trimmed_unit c) (trimmed_end-visible s b) ∙ trimmed_unit-visible c s a

abbrev desk : Desk
desk = record {
  base64 = record { encode = λ b. b; decode = λ t. t };
  resolve = λ path. path;
  join = λ parts. [];
  cwd = codes "/home";
  hkdf = λ key salt info length. key;
  hex = λ bytes. bytes;
  random_bytes = λ n length. (n + 65) ∷ [];
  untransformed = λ text. text;
  trimmed = trimmed_end;
}

desk-KeepsKeys : KeepsKeys desk
desk-KeepsKeys = record { decoded = λ n. refl; encoded = λ n e. ground (arith, e) }

abbrev stored : Files
stored = store_key desk.base64 (66 ∷ []) (codes "k.pem") []

abbrev visitor : List Answer → Session ℕ
visitor answers = record {
  client = record before { user_id = none; local_encryption_key = none; participant = none };
  files = stored;
  answers = answers;
}

-- The user overrides an existing key.
abbrev overriding : Session ℕ
overriding = visitor (
    chosen "provided"
    ∷ typed (codes "k.txt")
    ∷ typed (codes "k")
    ∷ confirmed false
    ∷ confirmed true
    ∷ [])

abbrev overridden : Session ℕ
overridden = (keep_key desk overriding).1

keep_key-retrieve_key_example :
    Keeps desk (codes "k.pem") overriding overridden
    × Overrides desk (codes "k.pem") overriding overridden
unfolding keep_key choose_path input_from validate_path file_extension transform_path ends_with
    ask_reuse new_key store_key JsMap.set
keep_key-retrieve_key_example =
    keep_key-retrieve_key desk desk-KeepsKeys overriding overridden (codes "k.pem") refl

-- The user misspells the path first.
abbrev searching : Session ℕ
searching =
    visitor (chosen "provided" ∷ typed (codes "k") ∷ chosen "retry" ∷ typed (codes "k.pem") ∷ [])

abbrev found : Session ℕ
found = (take_key desk none searching).1

take_key-retrieve_key_example :
    (key : Text) × (is_file desk (codes "k.pem") stored ≡ true)
    × (retrieve_key desk.base64 (codes "k.pem") stored ≡ retrieved key)
    × (found.client.local_encryption_key ≡ some key)
    × (found.files ≡ stored)
unfolding take_key find_path retrieval_path input_from use_key store_key retrieve_key JsMap.set
take_key-retrieve_key_example = take_key-retrieve_key desk none searching found (codes "k.pem") refl

-- tables that have the user
abbrev sql : Sql
sql = record {
  same_text = λ a b. a == b;
  characters = length;
  bytes = length;
  by_created_at = λ ks. ks;
}

abbrev tables : Database
tables = record migrated {
  users =
      record {
        id = 1;
        fields = record {
          firstname = codes "A";
          lastname = codes "B";
          username = codes "ab";
          email = codes "a@b.c";
          password = [];
        };
        has_e2ee_participant = false;
        created_at = 0;
        updated_at = 0;
      }
      ∷ [];
}

-- A server that keeps what is registered, and lets in whoever gives an address.
abbrev api : AccountsApi (List Registration)
api = record {
  trimmed = trimmed_end;
  register = λ r rs.
      (accepted (record { user_id = 1; participant = none; access_token = codes "t" }), r ∷ rs);
  login = λ email password rs. elim email [
    | [] ↦ (refused, rs)
    | c ∷ s ↦ (accepted (record { user_id = 2; participant = none; access_token = codes "t" }), rs)
  ];
  username_exists = λ username rs. (some (handle_check_username_exists sql username tables), rs);
  email_exists = λ email rs. (some (email_checked sql email tables), rs);
}

abbrev guest : List Answer → Session (List Registration)
guest answers = record {
  client = record {
    user_id = none;
    local_encryption_key = none;
    participant = none;
    prekey_bundle = none;
    jwt = [];
    store = before.store;
    service = before.service;
    generated = 0;
    server = [];
  };
  files = [];
  answers = answers;
}

abbrev signing_in : Session (List Registration)
signing_in =
    guest
      (chosen "true" ∷ typed [] ∷ typed [] ∷ confirmed true ∷ typed (codes "a@b.c") ∷ typed [] ∷ [])

login-IsToldFrom_example : IsToldFrom api signing_in (login api none signing_in).1
login-IsToldFrom_example = login-IsToldFrom api none signing_in

abbrev signing_up : Session (List Registration)
signing_up = guest (
    typed (codes "A")
    ∷ typed (codes "B")
    ∷ typed (codes "a b")
    ∷ typed (codes "ab")
    ∷ typed (codes "a@b.c")
    ∷ typed (codes "password")
    ∷ typed (codes "passwort")
    ∷ typed (codes "password")
    ∷ pressed
    ∷ [])

-- A first name of blanks passes its check and is sent as the empty text.
abbrev blank_first : Session (List Registration)
blank_first = record (guest []) { answers = typed (codes "  ") ∷ [] }

blank_name_test :
    (input (of_length 1) blank_first ≡ (done (codes "  "), record blank_first { answers = [] }))
    × (api.trimmed (codes "  ") ≡ [])
unfolding input_from
blank_name_test = (refl, refl)

register-sends_example : All (IsComplete trimmed_end) (register api none signing_up).1.client.server
register-sends_example =
    register-sends api trimmed_end-visible (All (IsComplete trimmed_end)) (λ u x q. q) (λ u x q. q)
      (λ r x c q. (c, q)) none signing_up tt

taken-accepted_example :
    (validate_username api (codes "ab") signing_up ≡ (done true, with_server [] signing_up))
    × (validate_email api (codes "a@b.c") signing_up ≡ (done true, with_server [] signing_up))
unfolding split_at handle_check_email_exists
taken-accepted_example =
    taken-accepted api sql tables b'a' (codes "b") signing_up [] b'a' (codes "@b.c") signing_up []
      (email_checked sql (codes "a@b.c") tables) refl refl refl refl refl

-- a client that has been set up
abbrev ready : Session ℕ
ready = record { client = after; files = []; answers = [] }

abbrev no_accounts : AccountsApi ℕ
no_accounts = record {
  trimmed = trimmed_end;
  register = λ r n. (refused, n);
  login = λ email password n. (refused, n);
  username_exists = λ username n. (none, n);
  email_exists = λ email n. (none, n);
}

pages-IsReady_example : IsReady ready
unfolding chats_page setup_pre_key_bundle
pages-IsReady_example = pages-IsReady surroundings no_accounts desk none ready ready (inl refl)

-- A user without a key chooses the chats, and is back at the main menu.
abbrev keyless : Session ℕ
keyless = record {
  client = record after { local_encryption_key = none };
  files = [];
  answers = chosen "Chats" ∷ [];
}

shown-IsRoute_example :
    IsRoute surroundings no_accounts desk (codes "Index") × ◌≡◌ {A = Option Text} none none
unfolding render routes index chats_page setup_pre_key_bundle
shown-IsRoute_example =
    shown-IsRoute surroundings no_accounts desk (led [] (led [] (started keyless) refl) refl)
