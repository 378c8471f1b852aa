-- ===== src/LocalEncryption.antt =====
-- The encryption of local data (primitives/local-encryption/local-encryption.ts, of which
-- core/local-encryption/local-encryption.ts is a copy) and the service of the command line client that
-- keeps its key in step with the context (cli/services/local-encryption.service.ts). Buffers are lists of
-- bytes. The cipher, base64, JSON and UTF-8 are parameters.
pub mod Service
mod Tests
use nerdhub_chat_cli_prototy.Common.{
  ℕ, ◌≡◌, ◌↔◌, ◌++◌, Bool, true, Option, none, some, Text, if◌then◌else◌, text_beq, length,
}

-- The platform: whether createCipheriv and createDecipheriv take a key and an initialization vector for
-- aes-256-ctr, which they throw for otherwise; the pieces that the cipher gives for the data and at its
-- end, and the same of the decipher; encodings.
pub record Platform : Type 0 where
  pub takes : Text → Text → Bool
  pub cipher_update : Text → Text → Text → Text
  pub cipher_final : Text → Text → Text → Text
  pub decipher_update : Text → Text → Text → Text
  pub decipher_final : Text → Text → Text → Text
  pub to_base64 : Text → Text
  pub from_base64 : Text → Text
  -- the bytes of the JSON text of two texts, and what is read from bytes unless parsing throws
  pub write_pair : Text × Text → Text
  pub read_pair : Text → Option (Text × Text)

-- ENCRYPTION_KEY_LENGTH and IV_BYTES_LENGTH
abbrev pub encryption_key_length : ℕ
encryption_key_length = 32

abbrev pub iv_bytes_length : ℕ
iv_bytes_length = 16

-- What the code relies on: keys of 32 bytes are taken, with vectors of 16, and no others; deciphering with
-- the key and the vector of a cipher gives the data; and encodings are read back.
pub record PlatformLaws (p : Platform) : Type 0 where
  pub takes_iff :
      (key iv : Text)
      → (p.takes key iv ≡ true)
        ↔ ((length key ≡ encryption_key_length) × (length iv ≡ iv_bytes_length))
  pub deciphered :
      (key iv plain : Text)
      → p.takes key iv ≡ true
      → let encrypted = p.cipher_update key iv plain ++ p.cipher_final key iv plain in
        p.decipher_update key iv encrypted ++ p.decipher_final key iv encrypted ≡ plain
  pub from_base64-to_base64 : (bytes : Text) → p.from_base64 (p.to_base64 bytes) ≡ bytes
  pub read_pair-write_pair : (pair : Text × Text) → p.read_pair (p.write_pair pair) ≡ some pair

-- the object, which has a key that may be set
pub record LocalEncryption : Type 0 where
  pub key : Text

-- The service: the key that it used last, and its object.
pub record LocalEncryptionService : Type 0 where
  pub last_key : Option Text
  pub local_encryption : Option LocalEncryption

abbrev pub create : LocalEncryptionService
create = record { last_key = none; local_encryption = none }

module _ (p : Platform) where
  -- `encrypt` of the object: `iv` are the random bytes. None where the cipher is refused.
  unfoldable pub encrypt_buffer : Text → Text → LocalEncryption → Option (Text × Text)
  encrypt_buffer iv plain e =
      if p.takes e.key iv
      then some (p.cipher_update e.key iv plain ++ p.cipher_final e.key iv plain, iv)
      else none

  unfoldable pub decrypt_buffer : Text × Text → LocalEncryption → Option Text
  decrypt_buffer (encrypted, iv) e =
      if p.takes e.key iv
      then some (p.decipher_update e.key iv encrypted ++ p.decipher_final e.key iv encrypted)
      else none

  -- The getter `encryptionKey`; none where it throws.
  abbrev pub synced_key : Text → Option Text → Text
  synced_key key none = key
  synced_key key (some last) = if text_beq last key then last else key

  unfoldable pub encryption_key :
      Option Text → LocalEncryptionService → Option Text × LocalEncryptionService
  encryption_key none s = (none, s)
  encryption_key (some key) s =
      let k = synced_key key s.last_key in (some k, record s { last_key = some k })

  -- The getter `localEncryption`, which reads the key once more where it makes the object.
  abbrev pub with_key :
      Option Text × LocalEncryptionService → Option LocalEncryption × LocalEncryptionService
  with_key (none, s) = (none, s)
  with_key (some k, s) =
      let e : LocalEncryption = record { key = k } in
      (some e, record s { local_encryption = some e })

  abbrev pub made : Option Text × LocalEncryptionService → LocalEncryptionService
  made (none, s) = s
  made (some k, s) = record s { local_encryption = some (record { key = k }) }

  abbrev pub ensured :
      Option Text → LocalEncryptionService → Option LocalEncryption → LocalEncryptionService
  ensured context_key s none = made (encryption_key context_key s)
  ensured context_key s (some e) = s

  unfoldable pub local_encryption :
      Option Text → LocalEncryptionService → Option LocalEncryption × LocalEncryptionService
  local_encryption context_key s =
      with_key (encryption_key context_key (ensured context_key s s.local_encryption))

  abbrev pub written : Option (Text × Text) → Option Text
  written none = none
  written (some (encrypted, iv)) = some (p.write_pair (p.to_base64 encrypted, p.to_base64 iv))

  abbrev pub encrypted_with :
      Text
      → Text
      → Option LocalEncryption × LocalEncryptionService
      → Option Text × LocalEncryptionService
  encrypted_with iv plain (none, s) = (none, s)
  encrypted_with iv plain (some e, s) = (written (encrypt_buffer iv plain e), s)

  -- `encrypt` of the service, with the key of the context
  unfoldable pub encrypt :
      Option Text → Text → Text → LocalEncryptionService → Option Text × LocalEncryptionService
  encrypt context_key iv plain s = encrypted_with iv plain (local_encryption context_key s)

  abbrev pub decrypted_with :
      Text × Text
      → Option LocalEncryption × LocalEncryptionService
      → Option Text × LocalEncryptionService
  decrypted_with pair (none, s) = (none, s)
  decrypted_with (encrypted, iv) (some e, s) =
      (decrypt_buffer (p.from_base64 encrypted, p.from_base64 iv) e, s)

  abbrev pub decrypted :
      Option Text
      → LocalEncryptionService
      → Option (Text × Text)
      → Option Text × LocalEncryptionService
  decrypted context_key s none = (none, s)
  decrypted context_key s (some pair) = decrypted_with pair (local_encryption context_key s)

  -- `decrypt` of the service
  unfoldable pub decrypt :
      Option Text → Text → LocalEncryptionService → Option Text × LocalEncryptionService
  decrypt context_key buffer s = decrypted context_key s (p.read_pair buffer)
