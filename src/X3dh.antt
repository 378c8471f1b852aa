-- ===== src/X3dh.antt =====
-- primitives/x3dh: the prekey bundles (prekey-bundle.ts, prekey-bundle.factory.ts) and the two sides
-- of the key agreement (x3dh.ts). Buffers are lists of bytes; `node:crypto` and the XEdDSA library
-- are parameters.
pub mod Agreement
mod Tests
use nerdhub_chat_cli_prototy.Common.{
  ℕ, zero, suc, ◌+◌, ◌-◌, Bool, true, false, Option, none, some, List, [], ◌∷◌, ◌++◌, length,
  if◌then◌else◌,
}

abbrev pub Buffer : Type 0
Buffer = List ℕ

-- A private and a public key, encoded.
abbrev pub KeyPair : Type 0
KeyPair = Buffer × Buffer

-- What is used of other code. `generate_key_pair` is the key pair that the n-th call makes;
-- `diffie_hellman` is none where one of the encoded keys is refused; `hkdf` is given the input key
-- material, and the digest, the salt, the info and the length are fixed.
pub record Crypto : Type 0 where
  pub generate_key_pair : ℕ → KeyPair
  pub diffie_hellman : Buffer → Buffer → Option Buffer
  pub hkdf : Buffer → Buffer
  pub sign : Buffer → Buffer → Buffer
  pub verify : Buffer → Buffer → Buffer → Bool

abbrev drop : ℕ → Buffer → Buffer
drop zero b = b
drop (suc n) [] = []
drop (suc n) (x ∷ b) = drop n b

-- `.subarray(-32)`
abbrev pub raw_key : Buffer → Buffer
raw_key b = drop (length b - 32) b

pub record OneSidedPreKeyBundle : Type 0 where
  pub identity_key : Buffer
  pub signed_pre_key : Buffer
  pub signed_pre_key_signature : Buffer
  pub onetime_pre_key : Option Buffer

pub record PreKeyBundle : Type 0 where
  pub identity_key : KeyPair
  pub signed_pre_key : KeyPair
  pub signed_pre_key_signature : Buffer
  pub onetime_pre_key : Option KeyPair

pub data Part : Type 0 where
  private_part public_part : Part

abbrev pub part_of : Part → KeyPair → Buffer
part_of private_part k = k.0
part_of public_part k = k.1

abbrev onetime_part : Part → Option KeyPair → Option Buffer
onetime_part part none = none
onetime_part part (some k) = some (part_of part k)

unfoldable pub to_one_sided_pre_key_bundle : Part → PreKeyBundle → OneSidedPreKeyBundle
to_one_sided_pre_key_bundle part b = record {
  identity_key = part_of part b.identity_key;
  signed_pre_key = part_of part b.signed_pre_key;
  signed_pre_key_signature = b.signed_pre_key_signature;
  onetime_pre_key = onetime_part part b.onetime_pre_key;
}

-- A one-time prekey: its identifier and its pair.
pub record OneTimePreKey (I : Type 0) : Type 0 where
  pub id : I
  pub key_pair : KeyPair

pub data Derivation : Type 0 where
  derived : Buffer → Derivation
  verification_failure key_error : Derivation

-- the outputs so far with one more
abbrev pub push_output : Option Buffer → Option Buffer → Option Buffer
push_output none o = none
push_output (some outputs) none = none
push_output (some outputs) (some output) = some (outputs ++ output)

abbrev pub push_optional : (Buffer → Option Buffer) → Option Buffer → Option Buffer → Option Buffer
push_optional dh none outputs = outputs
push_optional dh (some key) outputs = push_output outputs (dh key)

module _ (crypto : Crypto) where
  -- the signed prekey, made by the n-th call, and its signature by the private identity key
  unfoldable pub create_signed_pre_key_bundle : ℕ → Buffer → KeyPair × Buffer
  create_signed_pre_key_bundle n identity_key =
      let pair = crypto.generate_key_pair n in (pair, crypto.sign pair.1 (raw_key identity_key))

  -- the loop, whose next call is the n-th; `ulid` gives the identifiers
  unfoldable pub create_many_one_time_pre_keys :
      {I : Type 0} → (ℕ → I) → ℕ → ℕ → List (OneTimePreKey I)
  create_many_one_time_pre_keys ulid zero n = []
  create_many_one_time_pre_keys ulid (suc count) n =
      record { id = ulid n; key_pair = crypto.generate_key_pair n }
      ∷ create_many_one_time_pre_keys ulid count (n + 1)

  -- the n-th call makes the identity key, the next one the signed prekey
  unfoldable pub create_pre_key_bundle : ℕ → Option KeyPair → PreKeyBundle
  unfolding create_signed_pre_key_bundle
  create_pre_key_bundle n onetime =
      let identity = crypto.generate_key_pair n in
      let signed = create_signed_pre_key_bundle (n + 1) identity.0 in
      record {
        identity_key = identity;
        signed_pre_key = signed.0;
        signed_pre_key_signature = signed.1;
        onetime_pre_key = onetime;
      }

  -- the secret key of the outputs
  unfoldable pub compute_secret_key : Option Buffer → Derivation
  compute_secret_key none = key_error
  compute_secret_key (some outputs) = derived (crypto.hkdf (255 ∷ outputs))

  unfoldable pub derive_secret_key_with_recipient :
      PreKeyBundle → Buffer → OneSidedPreKeyBundle → Derivation
  unfolding compute_secret_key
  derive_secret_key_with_recipient b ephemeral r =
      let dh = crypto.diffie_hellman in
      if crypto.verify r.signed_pre_key_signature r.signed_pre_key (raw_key r.identity_key)
      then compute_secret_key (
          push_optional (dh ephemeral) r.onetime_pre_key (
            push_output
              (push_output (dh b.identity_key.0 r.signed_pre_key) (dh ephemeral r.identity_key))
              (dh ephemeral r.signed_pre_key)))
      else verification_failure

  unfoldable pub derive_secret_key_with_initiator : PreKeyBundle → Buffer → Buffer → Derivation
  unfolding compute_secret_key
  derive_secret_key_with_initiator b initiator_identity ephemeral =
      let dh = crypto.diffie_hellman in
      compute_secret_key (
        push_optional (λ key. dh key ephemeral) (onetime_part private_part b.onetime_pre_key)
          (push_output
            (push_output (dh b.signed_pre_key.0 initiator_identity) (dh b.identity_key.0 ephemeral))
            (dh b.signed_pre_key.0 ephemeral)))

unfoldable pub build_associated_data_with_recipient : PreKeyBundle → Buffer → Buffer
build_associated_data_with_recipient b recipient = b.identity_key.1 ++ recipient

unfoldable pub build_associated_data_with_initiator : PreKeyBundle → Buffer → Buffer
build_associated_data_with_initiator b initiator = initiator ++ b.identity_key.1
