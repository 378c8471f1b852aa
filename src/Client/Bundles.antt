-- ===== src/Client/Bundles.antt =====
-- The steps of the setup that are about the prekey bundle, and those that the others share
-- (cli/ui/middlewares/setup-prekey-bundle.middleware.ts).
use nerdhub_chat_cli_prototy.Common.{
  ℕ, suc, ◌+◌, Bool, true, false, not, ◌||◌, Option, none, some, Text, nat_same, text_same,
  text_beq, if◌then◌else◌,
}
use nerdhub_chat_cli_prototy.LocalEncryption.{Platform, LocalEncryptionService, encrypt, decrypt}
use nerdhub_chat_cli_prototy.X3dh.{Crypto, PreKeyBundle, create_pre_key_bundle}
use nerdhub_chat_cli_prototy.Client.{
  BundleRow, Store, ContextBundle, Participant, Client, End, done, throws, leaves, Step, pure,
  ◌>>=◌, ◌>>◌, stored, given, Api,
}
use nerdhub_chat_cli_prototy.Client.Repository.{
  NewBundle, find_bundle, create_bundle, publish_bundle, reset_bundle, Sqlite,
}

-- The parts of the platform and of the client that the setup uses: random vectors and identifiers,
-- the time, and the user's answer where the bundle cannot be decrypted.
pub record Surroundings (S : Type 0) : Type 0 where
  pub platform : Platform
  pub crypto : Crypto
  pub sqlite : Sqlite
  pub api : Api S
  pub random_iv : ℕ → Text
  pub ulid : ℕ → Text
  pub now : ℕ
  pub wants_reset : Bool

module _ {S : Type 0} (env : Surroundings S) where
  abbrev pub encrypted_step : Client S → Option Text × LocalEncryptionService → End Text × Client S
  encrypted_step c (r, s) = given r (record c { service = s; generated = suc c.generated })

  abbrev pub encrypt_step : Text → Step S Text
  encrypt_step plain c =
      encrypted_step c
        (encrypt env.platform c.local_encryption_key (env.random_iv c.generated) plain c.service)

  abbrev pub decrypted_step : Client S → Option Text × LocalEncryptionService → End Text × Client S
  decrypted_step c (r, s) = given r (record c { service = s })

  abbrev pub decrypt_step : Text → Step S Text
  decrypt_step buffer c =
      decrypted_step c (decrypt env.platform c.local_encryption_key buffer c.service)

  abbrev pub update_store : (Store → Option Store) → Step S (Unit {0})
  update_store f c = stored (f c.store) c

  -- verifyX25519KeyPair; none where a key is refused
  abbrev pub same_output : Option Text → Option Text → Option Bool
  same_output (some a) (some b) = some (text_beq a b)
  same_output _ _ = none

  abbrev pub verify_x25519_key_pair : ℕ → Text → Text → Option Bool
  verify_x25519_key_pair n private_key public_key =
      let pair = env.crypto.generate_key_pair n in
      same_output (env.crypto.diffie_hellman private_key pair.1)
        (env.crypto.diffie_hellman pair.0 public_key)

  -- the `try` around it, whose result the code does not read
  abbrev pub did_not_throw : Option Bool → Bool
  did_not_throw none = false
  did_not_throw (some b) = true

  abbrev pub verified_step : Text → Text → Step S Bool
  verified_step private_key public_key c = (
    done (did_not_throw (verify_x25519_key_pair c.generated private_key public_key)),
    record c { generated = suc c.generated },
  )

  abbrev pub payload_of : Text → Text → Text → Text × Text × Text
  payload_of identity_key signed_prekey signature = (
    env.platform.to_base64 identity_key,
    env.platform.to_base64 signed_prekey,
    env.platform.to_base64 signature,
  )

  abbrev pub updated : ℕ → Client S → Option Participant × S → End (Unit {0}) × Client S
  updated user c (none, s) = (throws, record c { server = s })
  updated user c (some p, s) = (
    done tt,
    record c {
      server = s;
      participant = some p;
      store = publish_bundle env.now user (some p.id) c.store;
    },
  )

  -- The bundle is published to the server, and then marked so.
  abbrev pub publish_payload_for :
      ℕ → Text × Text × Text → Client S → Option Participant → End (Unit {0}) × Client S
  publish_payload_for user payload c none = (throws, c)
  publish_payload_for user payload c (some p) =
      updated user c (env.api.update_bundle c.jwt user p.id payload c.server)

  abbrev pub publish_payload : ℕ → Text × Text × Text → Step S (Unit {0})
  publish_payload user payload c = publish_payload_for user payload c c.participant

  abbrev pub generate : Step S PreKeyBundle
  generate c = (
    done (create_pre_key_bundle env.crypto c.generated none),
    record c { generated = c.generated + 2 },
  )

  -- A new bundle is generated, and written with its private keys encrypted.
  unfoldable pub make_bundle : (NewBundle → Store → Option Store) → Step S PreKeyBundle
  make_bundle write = do
    b ← generate
    priv_identity_key ← encrypt_step b.identity_key.0
    priv_signed_prekey ← encrypt_step b.signed_pre_key.0
    update_store (
        write (record {
          pub_identity_key = b.identity_key.1;
          priv_identity_key = priv_identity_key;
          pub_signed_prekey = b.signed_pre_key.1;
          signed_prekey_signature = b.signed_pre_key_signature;
          priv_signed_prekey = priv_signed_prekey;
        }))
    pure b

  abbrev pub context_bundle : PreKeyBundle → ContextBundle
  context_bundle b = record {
    identity_key = b.identity_key;
    signed_prekey = b.signed_pre_key;
    signed_prekey_signature = b.signed_pre_key_signature;
  }

  unfoldable pub find_step : ℕ → Step S (Option BundleRow)
  find_step user c = (done (find_bundle user c.store), c)

  abbrev pub generated_payload : PreKeyBundle → Text × Text × Text
  generated_payload b = payload_of b.identity_key.1 b.signed_pre_key.1 b.signed_pre_key_signature

  -- without a local bundle
  unfoldable pub new_bundle : ℕ → Step S (BundleRow × ContextBundle)
  new_bundle user = do
    b ← make_bundle (create_bundle env.now user)
    found ← find_step user
    row ← given found
    publish_payload user (generated_payload b)
    pure (row, context_bundle b)

  unfoldable pub renew_bundle : ℕ → Step S (BundleRow × ContextBundle)
  renew_bundle user = do
    b ← make_bundle (λ dto store. some (reset_bundle env.now user dto store))
    found ← find_step user
    row ← given found
    publish_payload user (generated_payload b)
    pure (
      row,
      record {
        identity_key = (b.identity_key.0, row.pub_identity_key);
        signed_prekey = (b.signed_pre_key.0, row.pub_signed_prekey);
        signed_prekey_signature = row.signed_prekey_signature;
      },
    )

  -- where the local bundle cannot be decrypted: the user answers
  abbrev pub renewed_bundle : ℕ → Bool → Step S (BundleRow × ContextBundle)
  renewed_bundle user true = renew_bundle user
  renewed_bundle user false = λ c. (leaves, c)

  abbrev pub kept_bundle : ℕ → BundleRow → Text → Text → Bool → Step S (BundleRow × ContextBundle)
  kept_bundle user row identity signed false = renewed_bundle user env.wants_reset
  kept_bundle user row identity signed true = pure (
    row,
    record {
      identity_key = (identity, row.pub_identity_key);
      signed_prekey = (signed, row.pub_signed_prekey);
      signed_prekey_signature = row.signed_prekey_signature;
    },
  )

  -- the second check, unless the first one has thrown
  abbrev pub verified_also : Text → Text → Bool → Step S Bool
  verified_also private_key public_key false = pure false
  verified_also private_key public_key true = verified_step private_key public_key

  -- with a local bundle
  unfoldable pub decrypted_bundle : ℕ → BundleRow → Step S (BundleRow × ContextBundle)
  decrypted_bundle user row = do
    identity ← decrypt_step row.priv_identity_key
    signed ← decrypt_step row.priv_signed_prekey
    identity_ok ← verified_step identity row.pub_identity_key
    both_ok ← verified_also signed row.pub_signed_prekey identity_ok
    kept_bundle user row identity signed both_ok

  abbrev pub found_bundle : ℕ → Option BundleRow → Step S (BundleRow × ContextBundle)
  found_bundle user none = new_bundle user
  found_bundle user (some row) = decrypted_bundle user row

  -- Is the server's identity key the local one?
  abbrev pub server_matches : BundleRow → Option Participant → Bool
  server_matches row none = false
  server_matches row (some p) =
      text_beq row.pub_identity_key (env.platform.from_base64 p.pub_identity_key)

  unfoldable pub publish_if_needed : ℕ → BundleRow → Step S (Unit {0})
  publish_if_needed user row c =
      if not row.is_published || not (server_matches row c.participant)
      then publish_payload user
          (payload_of row.pub_identity_key row.pub_signed_prekey row.signed_prekey_signature) c
      else (done tt, c)
