-- ===== src/Client/Fixtures.antt =====
-- A client over a platform that encrypts nothing, where all keys agree and the server takes all, for the
-- tests.
use nerdhub_chat_cli_prototy.Common.{ℕ, zero, suc, ◌++◌, true, false, none, some, List, [], ◌∷◌}
use nerdhub_chat_cli_prototy.LocalEncryption.{Platform, create}
use nerdhub_chat_cli_prototy.X3dh.{Crypto}
use nerdhub_chat_cli_prototy.Client.{BundleRow, OnetimeRow, Client, Api}
use nerdhub_chat_cli_prototy.Client.Repository.{}
use nerdhub_chat_cli_prototy.Client.Bundles.{Surroundings}
use nerdhub_chat_cli_prototy.Client.Setup.{setup_pre_key_bundle}
use nerdhub_chat_cli_prototy.Client.Trust.{context_of}

abbrev pub plain_platform : Platform
plain_platform = record {
  takes = λ key iv. true;
  cipher_update = λ key iv plain. plain;
  cipher_final = λ key iv plain. [];
  decipher_update = λ key iv encrypted. encrypted;
  decipher_final = λ key iv encrypted. [];
  to_base64 = λ bytes. bytes;
  from_base64 = λ text. text;
  write_pair = λ pair. pair.0;
  read_pair = λ bytes. some (bytes, []);
}

abbrev pub plain_crypto : Crypto
plain_crypto = record {
  generate_key_pair = λ n. (n ∷ [], n ∷ []);
  diffie_hellman = λ a b. some (a ++ b);
  hkdf = λ b. b;
  sign = λ key bytes. bytes;
  verify = λ key bytes signature. true;
}

-- The server counts the requests.
abbrev pub taking : Api ℕ
taking = record {
  create_participant =
      λ jwt user payload n. (some (record { id = user; pub_identity_key = payload.0 }), suc n);
  update_bundle = λ jwt user participant payload n.
      (some (record { id = participant; pub_identity_key = payload.0 }), suc n);
  create_many = λ jwt user participant payload flush n. (true, suc n);
  get_access_token = λ jwt n. (some jwt, suc n);
}

abbrev pub surroundings : Surroundings ℕ
surroundings = record {
  platform = plain_platform;
  crypto = plain_crypto;
  sqlite = record { by_created_at_descending = λ rows. rows };
  api = taking;
  random_iv = λ n. n ∷ [];
  ulid = λ n. n ∷ [];
  now = 50;
  wants_reset = false;
}

abbrev pub own_bundle : BundleRow
own_bundle = record {
  user_id = 7;
  pub_identity_key = 1 ∷ [];
  priv_identity_key = 2 ∷ [];
  pub_signed_prekey = 3 ∷ [];
  signed_prekey_signature = 4 ∷ [];
  priv_signed_prekey = 5 ∷ [];
  is_published = false;
  participant_id = some 8;
  created_at = 10;
  updated_at = 10;
}

abbrev pub onetime_rows : ℕ → List OnetimeRow
onetime_rows zero = []
onetime_rows (suc n) =
    record {
      id = n ∷ [];
      pub_key = n ∷ [];
      priv_key = n ∷ [];
      is_published = true;
      user_id = 7;
      participant_id = some 8;
      created_at = 20;
      updated_at = 20;
    }
    ∷ onetime_rows n

abbrev pub before : Client ℕ
before = record {
  user_id = some 7;
  local_encryption_key = some (6 ∷ []);
  participant = some (record { id = 8; pub_identity_key = 1 ∷ [] });
  prekey_bundle = none;
  jwt = [];
  store = record { bundles = own_bundle ∷ []; onetime_prekeys = onetime_rows 11 };
  service = create;
  generated = 0;
  server = 0;
}

abbrev pub after : Client ℕ
after = record before {
  prekey_bundle = some (context_of surroundings own_bundle (2 ∷ []) (5 ∷ []));
  store = record {
    bundles = record own_bundle { is_published = true; updated_at = 50 } ∷ [];
    onetime_prekeys = onetime_rows 11;
  };
  service = record { last_key = some (6 ∷ []); local_encryption = some (record { key = 6 ∷ [] }) };
  generated = 3;
  server = 1;
}

abbrev pub asked : Client ℕ
asked = record before {
  service = record { last_key = some (6 ∷ []); local_encryption = some (record { key = 6 ∷ [] }) };
}

abbrev pub newcomer : Client ℕ
newcomer = record before { participant = none }

abbrev pub settled : Client ℕ
settled = (setup_pre_key_bundle surroundings newcomer).1
