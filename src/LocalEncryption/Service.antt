-- ===== src/LocalEncryption/Service.antt =====
-- The service uses the key of the context, whatever came before
-- (cli/services/local-encryption.service.ts).
use nerdhub_chat_cli_prototy.Common.{
  ◌≡◌, ◌≢◌, ◌⊎◌, refl, ap, ◌∙◌, ◌++◌, true, false, length, ◌==◌, nat_same, nat_beq_iff, arith, inl,
  inr, Option, none, some, Text, Bool-cases, text_beq, text_beq_iff,
}
use nerdhub_chat_cli_prototy.LocalEncryption.{
  encryption_key_length, iv_bytes_length, written, Platform, PlatformLaws, LocalEncryption,
  LocalEncryptionService, encrypt_buffer, decrypt_buffer, synced_key, encryption_key, with_key,
  ensured, local_encryption, encrypted_with, encrypt, decrypted_with, decrypted, decrypt,
}

module _ (p : Platform) (laws : PlatformLaws p) where
  synced_key_lem : (key : Text) (last : Option Text) → synced_key p key last ≡ key
  synced_key_lem key none = refl
  synced_key_lem key (some last) = elim (Bool-cases (text_beq last key)) [
    | inl e ↦ rw e ((text_beq_iff last key).0 e)
    | inr e ↦ rw e refl
  ]

  encryption_key_lem :
      (key : Text) (s : LocalEncryptionService)
      → encryption_key p (some key) s ≡ (some key, record s { last_key = some key })
  unfolding encryption_key
  encryption_key_lem key s =
      ap (λ k. (some k, record s { last_key = some k })) (synced_key_lem key s.last_key)

  -- The object has the key of the context, and the service knows the key and the object.
  local_encryption_lem :
      (key : Text) (s : LocalEncryptionService)
      → let e : LocalEncryption = record { key = key } in
        local_encryption p (some key) s
        ≡ (some e, record { last_key = some key; local_encryption = some e })
  unfolding local_encryption
  local_encryption_lem key s =
      ap (with_key p) (encryption_key_lem key (ensured p (some key) s s.local_encryption))

  ensured-none : (s : LocalEncryptionService) (o : Option LocalEncryption) → ensured p none s o ≡ s
  unfolding encryption_key
  ensured-none s none = refl
  ensured-none s (some e) = refl

  local_encryption-none : (s : LocalEncryptionService) → local_encryption p none s ≡ (none, s)
  unfolding local_encryption encryption_key
  local_encryption-none s =
      ap (λ t. with_key p (encryption_key p none t)) (ensured-none s s.local_encryption)

  encrypt_lem :
      (key iv plain : Text) (s : LocalEncryptionService)
      → (encrypt p (some key) iv plain s).0
        ≡ written p (encrypt_buffer p iv plain (record { key = key }))
  unfolding encrypt
  encrypt_lem key iv plain s =
      ap (λ x. (encrypted_with p iv plain x).0) (local_encryption_lem key s)

  decrypt_lem :
      (key : Text) (pair : Text × Text) (t : LocalEncryptionService)
      → (decrypted p (some key) t (some pair)).0
        ≡ decrypt_buffer p (p.from_base64 pair.0, p.from_base64 pair.1) (record { key = key })
  decrypt_lem key pair t = ap (λ x. (decrypted_with p pair x).0) (local_encryption_lem key t)

  -- With a key and a vector that the cipher takes, what is encrypted is decrypted again.
  taken :
      (key iv plain : Text) (s t : LocalEncryptionService)
      → p.takes key iv ≡ true
      → (c : Text) × ((encrypt p (some key) iv plain s).0 ≡ some c)
        × ((decrypt p (some key) c t).0 ≡ some plain)
  unfolding decrypt encrypt_buffer decrypt_buffer
  taken key iv plain s t h =
      let bytes = p.cipher_update key iv plain ++ p.cipher_final key iv plain in
      let pair : Text × Text = (p.to_base64 bytes, p.to_base64 iv) in
      let enciphered : encrypt_buffer p iv plain (record { key = key }) ≡ some (bytes, iv) =
        rw h refl in
      let deciphered : decrypt_buffer p (bytes, iv) (record { key = key }) ≡ some plain =
        rw h (ap some (laws.deciphered key iv plain h)) in
      (
        p.write_pair pair,
        encrypt_lem key iv plain s ∙ ap (written p) enciphered,
        ap (λ x. (decrypted p (some key) t x).0) (laws.read_pair-write_pair pair)
            ∙ decrypt_lem key pair t
            ∙ ap (λ (x : Text × Text). decrypt_buffer p x (record { key = key }))
                (λ i. (laws.from_base64-to_base64 bytes i, laws.from_base64-to_base64 iv i))
            ∙ deciphered,
      )

  refused-key : (key iv : Text) → length key ≢ encryption_key_length → p.takes key iv ≡ false
  refused-key key iv n = elim (Bool-cases (p.takes key iv)) [
    | inl h ↦ absurd (n ((laws.takes_iff key iv).0 h).0)
    | inr h ↦ h
  ]

  refused_decryption :
      (key : Text) (t : LocalEncryptionService) (o : Option (Text × Text))
      → length key ≢ encryption_key_length
      → (decrypted p (some key) t o).0 ≡ none
  unfolding decrypt_buffer
  refused_decryption key t none n = refl
  refused_decryption key t (some pair) n =
      decrypt_lem key pair t ∙ rw (refused-key key (p.from_base64 pair.1) n) refl

  -- What was encrypted with a vector of 16 bytes while the context had a key of 32 bytes is decrypted to
  -- the same bytes whenever the context has the same key again, whatever keys the service was used with
  -- before and in between. With a key of another length nothing is encrypted or decrypted; and without a
  -- key in the context nothing is encrypted and the service stays as it is.
  pub decrypt-encrypt :
      (key iv plain : Text) (s t : LocalEncryptionService)
      → length iv ≡ iv_bytes_length
      → let (encrypted, s') = encrypt p (some key) iv plain s in
        ((length key ≡ encryption_key_length)
            × ((c : Text) × (encrypted ≡ some c) × ((decrypt p (some key) c t).0 ≡ some plain))
          ⊎ (length key ≢ encryption_key_length)
            × (encrypted ≡ none)
            × ((c : Text) → (decrypt p (some key) c t).0 ≡ none))
        × (encrypt p none iv plain s ≡ (none, s))
  unfolding encrypt decrypt encrypt_buffer
  decrypt-encrypt key iv plain s t sized = (
    elim (Bool-cases (length key == encryption_key_length)) [
      | inl e ↦
          let long = (nat_beq_iff (length key) encryption_key_length).0 e in
          inl (long, taken key iv plain s t ((laws.takes_iff key iv).1 (long, sized)))
      | inr e ↦
          let other : length key ≢ encryption_key_length = ground (arith, e) in
          inr (
            other,
            encrypt_lem key iv plain s ∙ rw (refused-key key iv other) refl,
            λ c. refused_decryption key t (p.read_pair c) other,
          )
    ],
    ap (encrypted_with p iv plain) (local_encryption-none s),
  )
