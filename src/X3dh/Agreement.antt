-- ===== src/X3dh/Agreement.antt =====
-- What the two sides of the key agreement have in common (primitives/x3dh/x3dh.ts).
use nerdhub_chat_cli_prototy.Common.{
  ℕ, zero, suc, ◌+◌, ◌≡◌, refl, sym, ap, ◌∙◌, Bool, true, false, Option, none, some, List, [], ◌∷◌,
  ◌++◌, length, if◌then◌else◌, arith,
}
use nerdhub_chat_cli_prototy.X3dh.{
  Buffer, KeyPair, Crypto, raw_key, PreKeyBundle, public_part, private_part, onetime_part,
  to_one_sided_pre_key_bundle, OneSidedPreKeyBundle, OneTimePreKey, Derivation, derived,
  verification_failure, create_pre_key_bundle, create_many_one_time_pre_keys, push_optional,
  derive_secret_key_with_recipient, derive_secret_key_with_initiator,
  build_associated_data_with_recipient, build_associated_data_with_initiator,
}

-- What the platform's and the library's documentation says: two key pairs that were generated give
-- one shared secret, whichever private key is taken; and a signature by a generated private key is
-- verified with its public key.
pub record IsLawful (crypto : Crypto) : Type 0 where
  pub agrees :
      (m n : ℕ)
      → crypto.diffie_hellman (crypto.generate_key_pair m).0 (crypto.generate_key_pair n).1
        ≡ crypto.diffie_hellman (crypto.generate_key_pair n).0 (crypto.generate_key_pair m).1
  pub accepts :
      (m n : ℕ)
      → (s : Buffer) × (crypto.diffie_hellman
            (crypto.generate_key_pair m).0
            (crypto.generate_key_pair n).1
          ≡ some s)
  pub verifies :
      (n : ℕ) (message : Buffer)
      → crypto.verify
          (crypto.sign message (raw_key (crypto.generate_key_pair n).0))
          message
          (raw_key (crypto.generate_key_pair n).1)
        ≡ true

module _ (crypto : Crypto) where
  -- The one-time prekey of a number, where there is one.
  abbrev pub generated : Option ℕ → Option KeyPair
  generated none = none
  generated (some n) = some (crypto.generate_key_pair n)

  -- The sides agree on the outputs.
  push_optional-generated :
      (h : IsLawful crypto) (e : ℕ) (o : Option ℕ) (outputs : Buffer)
      → (s : Buffer) × (push_optional
            (crypto.diffie_hellman (crypto.generate_key_pair e).0)
            (onetime_part public_part (generated o))
            (some outputs)
          ≡ some s)
        × (push_optional
              (λ key. crypto.diffie_hellman key (crypto.generate_key_pair e).1)
              (onetime_part private_part (generated o))
              (some outputs)
            ≡ some s)
  push_optional-generated h e none outputs = (outputs, refl, refl)
  push_optional-generated h e (some n) outputs =
      let (s, k) = h.accepts e n in (outputs ++ s, rw k refl, rw (sym (h.agrees e n) ∙ k) refl)

  -- Between an initiator and a recipient whose prekey bundles the factory created, with or without
  -- a one-time prekey, the recipient's signed prekey is verified, both sides derive the same secret
  -- key, and both build the same associated data.
  pub sides_agree :
      (a b e : ℕ) (o p : Option ℕ)
      → IsLawful crypto
      → ((k : Buffer) × (derive_secret_key_with_recipient crypto
              (create_pre_key_bundle crypto a (generated p))
              (crypto.generate_key_pair e).0
              (to_one_sided_pre_key_bundle public_part
                (create_pre_key_bundle crypto b (generated o)))
            ≡ derived k)
          × (derive_secret_key_with_initiator crypto
                (create_pre_key_bundle crypto b (generated o))
                (create_pre_key_bundle crypto a (generated p)).identity_key.1
                (crypto.generate_key_pair e).1
              ≡ derived k))
        × (build_associated_data_with_recipient
              (create_pre_key_bundle crypto a (generated p))
              (create_pre_key_bundle crypto b (generated o)).identity_key.1
            ≡ build_associated_data_with_initiator
                (create_pre_key_bundle crypto b (generated o))
                (create_pre_key_bundle crypto a (generated p)).identity_key.1)
  unfolding derive_secret_key_with_recipient derive_secret_key_with_initiator create_pre_key_bundle
      to_one_sided_pre_key_bundle build_associated_data_with_recipient
      build_associated_data_with_initiator
  sides_agree a b e o p h =
      let (s1, k1) = h.accepts a (b + 1) in
      let (s2, k2) = h.accepts e b in
      let (s3, k3) = h.accepts e (b + 1) in
      let (s, l, r) = push_optional-generated h e o ((s1 ++ s2) ++ s3) in
      (
        (
          crypto.hkdf (255 ∷ s),
          rw (h.verifies b (crypto.generate_key_pair (b + 1)).1)
              (rw k1 (rw k2 (rw k3 (rw l refl)))),
          rw (sym (h.agrees a (b + 1)) ∙ k1)
              (rw (sym (h.agrees e b) ∙ k2) (rw (sym (h.agrees e (b + 1)) ∙ k3) (rw r refl))),
        ),
        refl,
      )

  -- Whatever prekey bundle a recipient publishes, the initiator derives a secret key only where the
  -- signature of its signed prekey is verified with its identity key.
  pub derived_of_verified :
      (b : PreKeyBundle) (e : Buffer) (r : OneSidedPreKeyBundle) (k : Buffer)
      → derive_secret_key_with_recipient crypto b e r ≡ derived k
      → crypto.verify r.signed_pre_key_signature r.signed_pre_key (raw_key r.identity_key) ≡ true
  unfolding derive_secret_key_with_recipient
  derived_of_verified b e r k h =
      go (crypto.verify r.signed_pre_key_signature r.signed_pre_key (raw_key r.identity_key)) _ h
    where
      go :
          (v : Bool) (d : Derivation)
          → (if v then d else verification_failure) ≡ derived k
          → v ≡ true
      go true d h = refl
      go false d h = ground (arith, h)

  -- A key that was made by a call from one number up to another.
  abbrev pub IsMadeFrom : {I : Type 0} → (ℕ → I) → ℕ → List (OneTimePreKey I) → Type 0
  IsMadeFrom ulid n [] = Unit
  IsMadeFrom ulid n (k ∷ ks) =
      (k.id ≡ ulid n) × (k.key_pair ≡ crypto.generate_key_pair n) × IsMadeFrom ulid (n + 1) ks

  -- As many one-time prekeys are created as were asked for, each with an identifier and a key pair of
  -- its own.
  pub create_many_one_time_pre_keys_lem :
      {I : Type 0} (ulid : ℕ → I) (count n : ℕ)
      → (length (create_many_one_time_pre_keys crypto ulid count n) ≡ count)
        × IsMadeFrom ulid n (create_many_one_time_pre_keys crypto ulid count n)
  unfolding create_many_one_time_pre_keys
  create_many_one_time_pre_keys_lem ulid zero n = (refl, tt)
  create_many_one_time_pre_keys_lem ulid (suc count) n =
      let (l, h) = create_many_one_time_pre_keys_lem ulid count (n + 1) in
      (ap suc l, (refl, refl, h))
