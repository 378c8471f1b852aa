-- ===== src/Auth/Password.antt =====
-- How passwords are stored (server/utils/password.utils.ts). The key derivation scrypt of the platform
-- and its random bytes are parameters.
use nerdhub_chat_cli_prototy.Common.{
  ℕ, ◌+◌, ◌-◌, ◌<◌, ◌≡◌, refl, sym, ap, ◌∙◌, Bool, true, false, not, ◌&&◌, Option, none, some, List,
  [], ◌∷◌, ◌++◌, Text, ◌==◌, nat_beq_iff, subst, nat_same, text_same, text_beq, ltb, length, All,
  if◌then◌else◌, arith,
}
use Prim.Native.Nat.{◌*◌, ◌/◌, ◌%◌}
use mathlib.Core.List.{append-nil}

abbrev pub hex_digit : ℕ → ℕ
hex_digit d = if ltb d 10 then 48 + d else 87 + d

-- `buf.toString("hex")`
unfoldable pub to_hex : List ℕ → Text
to_hex [] = []
to_hex (b ∷ bs) = hex_digit (b / 16) ∷ hex_digit (b % 16) ∷ to_hex bs

abbrev pub hex_value : ℕ → Option ℕ
hex_value c =
    if not (ltb c 48) && ltb c 58
    then some (c - 48)
    else if not (ltb c 97) && ltb c 103
    then some (c - 87)
    else if not (ltb c 65) && ltb c 71
    then some (c - 55)
    else none

-- `Buffer.from(text, "hex")`, which stops at the first pair that is none of digits
abbrev pub byte_before : Option ℕ → Option ℕ → List ℕ → List ℕ
byte_before (some a) (some b) bs = (a * 16 + b) ∷ bs
byte_before _ _ bs = []

unfoldable pub from_hex : Text → List ℕ
from_hex [] = []
from_hex (a ∷ []) = []
from_hex (a ∷ b ∷ s) = byte_before (hex_value a) (hex_value b) (from_hex s)

-- `split(".")`: the first part, and the others
unfoldable pub split_at_dots : Text → Text × List Text
split_at_dots [] = ([], [])
split_at_dots (c ∷ s) =
    let (part, parts) = split_at_dots s in if c == 46 then ([], part ∷ parts) else (c ∷ part, parts)

-- `scrypt(password, salt, 64)`
pub record Scrypt : Type 0 where
  pub derive : Text → Text → List ℕ

module _ (scrypt : Scrypt) where
  -- `salt_bytes` are the random bytes.
  unfoldable pub hash_password : List ℕ → Text → Text
  hash_password salt_bytes password =
      let salt = to_hex salt_bytes in to_hex (scrypt.derive password salt) ++ 46 ∷ salt

  -- None where a function of the platform throws: scrypt without a salt, and timingSafeEqual on
  -- buffers of different lengths.
  unfoldable pub verify_parts : Text × List Text → Text → Option Bool
  verify_parts (hashed_password, []) supplied_password = none
  verify_parts (hashed_password, salt ∷ parts) supplied_password =
      let hashed = from_hex hashed_password in
      let supplied = scrypt.derive supplied_password salt in
      if length hashed == length supplied then some (text_beq hashed supplied) else none

  unfoldable pub verify_password : Text → Text → Option Bool
  verify_password stored_password supplied_password =
      verify_parts (split_at_dots stored_password) supplied_password

abbrev pub AreBytes : List ℕ → Type 0
AreBytes bs = All (λ b. b < 256) bs

hex_value-hex_digit : (d : ℕ) → d < 16 → hex_value (hex_digit d) ≡ some d
hex_value-hex_digit d h = ground (arith, h)

from_hex-to_hex : (bs : List ℕ) → AreBytes bs → from_hex (to_hex bs) ≡ bs
unfolding from_hex to_hex
from_hex-to_hex [] h = refl
from_hex-to_hex (b ∷ bs) (lt, h) =
    rw
      (
        hex_value-hex_digit (b / 16) (omega (arith, lt)),
        hex_value-hex_digit (b % 16) (omega arith),
        from_hex-to_hex bs h,
      )
      (ap (λ n. n ∷ bs) (omega arith))

-- A hexadecimal text has no dot.
hex_digit-dot : (d : ℕ) → (hex_digit d == 46) ≡ false
hex_digit-dot d = ground arith

split-to_hex :
    (bs : List ℕ) (s : Text)
    → let (part, parts) = split_at_dots s in
      split_at_dots (to_hex bs ++ s) ≡ (to_hex bs ++ part, parts)
unfolding split_at_dots to_hex
split-to_hex [] s = refl
split-to_hex (b ∷ bs) s =
    rw (hex_digit-dot (b / 16), hex_digit-dot (b % 16), split-to_hex bs s) refl

split_at_dots-to_hex : (bs : List ℕ) → split_at_dots (to_hex bs) ≡ (to_hex bs, [])
unfolding split_at_dots
split_at_dots-to_hex bs =
    subst (λ t. split_at_dots t ≡ (t, [])) (append-nil (to_hex bs)) (split-to_hex bs [])

split-hashed :
    (digest salt_bytes : List ℕ)
    → split_at_dots (to_hex digest ++ 46 ∷ to_hex salt_bytes)
      ≡ (to_hex digest, to_hex salt_bytes ∷ [])
unfolding split_at_dots
split-hashed digest salt_bytes =
    split-to_hex digest (46 ∷ to_hex salt_bytes)
    ∙ rw (split_at_dots-to_hex salt_bytes, append-nil (to_hex digest)) refl

-- What scrypt promises: 64 bytes.
pub record ScryptLaws (scrypt : Scrypt) : Type 0 where
  pub bytes : (password salt : Text) → AreBytes (scrypt.derive password salt)
  pub derive-length : (password salt : Text) → length (scrypt.derive password salt) ≡ 64

-- Where scrypt gives 64 bytes, a password is verified against what is stored of another one, with
-- whatever salt, exactly when scrypt gives the same for both with that salt; no function of the
-- platform throws.
pub verify_password-hash_password :
    (scrypt : Scrypt) (laws : ScryptLaws scrypt) (salt_bytes : List ℕ) (password supplied : Text)
    → let salt = to_hex salt_bytes in
      verify_password scrypt (hash_password scrypt salt_bytes password) supplied
      ≡ some (scrypt.derive password salt == scrypt.derive supplied salt)
unfolding hash_password verify_password verify_parts
verify_password-hash_password scrypt laws salt_bytes password supplied =
    let salt = to_hex salt_bytes in
    let digest = scrypt.derive password salt in
    let same_length : (length digest == length (scrypt.derive supplied salt)) ≡ true =
      (nat_beq_iff (length digest) (length (scrypt.derive supplied salt))).1
        (laws.derive-length password salt ∙ sym (laws.derive-length supplied salt)) in
    ap (λ x. verify_parts scrypt x supplied) (split-hashed digest salt_bytes)
    ∙ rw (from_hex-to_hex digest (laws.bytes password salt), same_length) refl
