-- ===== src/LocalEncryption/Tests.antt =====
-- The service over a cipher that adds the key's length to every byte.
use nerdhub_chat_cli_prototy.Common.{
  ◌≢◌, ◌⊎◌, ◌&&◌, ◌==◌, nat_same, nat_beq_iff, ℕ, zero, suc, ◌≡◌, refl, ap, sym, ◌+◌, ◌-◌, ◌∙◌,
  ◌++◌, none, some, Option, [], ◌∷◌, Text, length, arith,
}
use mathlib.Core.List.{append-nil, append_assoc}
use nerdhub_chat_cli_prototy.LocalEncryption.{
  encryption_key_length, iv_bytes_length, Platform, PlatformLaws, LocalEncryptionService, create,
  encrypt, decrypt,
}
use nerdhub_chat_cli_prototy.LocalEncryption.Service.{decrypt-encrypt}

abbrev shift : ℕ → Text → Text
shift n [] = []
shift n (b ∷ bs) = (b + n) ∷ shift n bs

abbrev unshift : ℕ → Text → Text
unshift n [] = []
unshift n (b ∷ bs) = (b - n) ∷ unshift n bs

unshift-shift : (n : ℕ) (bs : Text) → unshift n (shift n bs ++ []) ++ [] ≡ bs
unshift-shift n [] = refl
unshift-shift n (b ∷ bs) = rw (unshift-shift n bs) (ap (λ m. m ∷ bs) (omega arith))

abbrev read_sized : ℕ → Text → Text → Option (Text × Text)
read_sized zero front rest = some (front, rest)
read_sized (suc n) front [] = none
read_sized (suc n) front (c ∷ rest) = read_sized n (front ++ c ∷ []) rest

-- A pair of texts is written with the length of the first one in front.
abbrev shifting : Platform
shifting = record {
  takes = λ key iv. length key == encryption_key_length && length iv == iv_bytes_length;
  cipher_update = λ key iv plain. shift (length key) plain;
  cipher_final = λ key iv plain. [];
  decipher_update = λ key iv encrypted. unshift (length key) encrypted;
  decipher_final = λ key iv encrypted. [];
  to_base64 = λ bytes. bytes;
  from_base64 = λ text. text;
  write_pair = λ pair. length pair.0 ∷ (pair.0 ++ pair.1);
  read_pair = λ bytes. elim bytes [ [] ↦ none | n ∷ rest ↦ read_sized n [] rest ];
}

read_sized_lem : (s front t : Text) → read_sized (length s) front (s ++ t) ≡ some (front ++ s, t)
read_sized_lem [] front t = ap (λ x. some (x, t)) (sym (append-nil front))
read_sized_lem (c ∷ s) front t =
    read_sized_lem s (front ++ c ∷ []) t ∙ ap (λ x. some (x, t)) (append_assoc front (c ∷ []) s)

shifting-laws : PlatformLaws shifting
shifting-laws = record {
  takes_iff = λ key iv. ground (
    arith,
    nat_beq_iff (length key) encryption_key_length,
    nat_beq_iff (length iv) iv_bytes_length,
  );
  deciphered = λ key iv plain h. unshift-shift (length key) plain;
  from_base64-to_base64 = λ bytes. refl;
  read_pair-write_pair = λ pair. read_sized_lem pair.0 [] pair.1;
}

abbrev used_before : LocalEncryptionService
used_before = record { last_key = some (5 ∷ []); local_encryption = some (record { key = 5 ∷ [] }) }

abbrev bytes_of : ℕ → Text
bytes_of zero = []
bytes_of (suc n) = n ∷ bytes_of n

abbrev key : Text
key = bytes_of 32

abbrev iv : Text
iv = bytes_of 16

decrypt-encrypt_example :
    let (encrypted, s') = encrypt shifting (some key) iv (7 ∷ 8 ∷ []) create in
    ((length key ≡ encryption_key_length)
        × ((c : Text) × (encrypted ≡ some c)
            × ((decrypt shifting (some key) c used_before).0 ≡ some (7 ∷ 8 ∷ [])))
      ⊎ (length key ≢ encryption_key_length)
        × (encrypted ≡ none)
        × ((c : Text) → (decrypt shifting (some key) c used_before).0 ≡ none))
    × (encrypt shifting none iv (7 ∷ 8 ∷ []) create ≡ (none, create))
decrypt-encrypt_example =
    decrypt-encrypt shifting shifting-laws key iv (7 ∷ 8 ∷ []) create used_before refl
