-- ===== src/X3dh/Tests.antt =====
-- The key agreement over a crypto whose shared secret is a sum.
use nerdhub_chat_cli_prototy.Common.{
  ◌+◌, ◌≡◌, refl, true, Option, none, some, [], ◌∷◌, ◌++◌, ap, arith, text_beq, same_refl,
  text_same,
}
use nerdhub_chat_cli_prototy.X3dh.{
  Buffer, Crypto, raw_key, PreKeyBundle, public_part, to_one_sided_pre_key_bundle, derived,
  create_pre_key_bundle, derive_secret_key_with_recipient, derive_secret_key_with_initiator,
  build_associated_data_with_recipient, build_associated_data_with_initiator, verification_failure,
}
use nerdhub_chat_cli_prototy.X3dh.Agreement.{IsLawful, sides_agree, derived_of_verified}

abbrev sum : Buffer → Buffer → Option Buffer
sum (a ∷ []) (b ∷ []) = some ((a + b) ∷ [])
sum _ _ = none

abbrev crypto : Crypto
crypto = record {
  generate_key_pair = λ n. (n ∷ [], n ∷ []);
  diffie_hellman = sum;
  hkdf = λ b. b;
  sign = λ message key. key ++ message;
  verify = λ signature message key. text_beq signature (key ++ message);
}

crypto-IsLawful : IsLawful crypto
crypto-IsLawful = record {
  agrees = λ m n. ap (λ k. some (k ∷ [])) (omega arith);
  accepts = λ m n. ((m + n) ∷ [], refl);
  verifies = λ n message. same_refl (n ∷ message);
}

abbrev alice : PreKeyBundle
alice = create_pre_key_bundle crypto 1 none

abbrev bob : PreKeyBundle
bob = create_pre_key_bundle crypto 3 (some (9 ∷ [], 9 ∷ []))

derived_test :
    derive_secret_key_with_recipient crypto alice
      (7 ∷ [])
      (to_one_sided_pre_key_bundle public_part bob)
    ≡ derived (255 ∷ 5 ∷ 10 ∷ 11 ∷ 16 ∷ [])
unfolding derive_secret_key_with_recipient create_pre_key_bundle to_one_sided_pre_key_bundle
derived_test = refl

forged_test :
    derive_secret_key_with_recipient crypto alice
      (7 ∷ [])
      (record (to_one_sided_pre_key_bundle public_part bob) { signed_pre_key = 8 ∷ [] })
    ≡ verification_failure
unfolding derive_secret_key_with_recipient create_pre_key_bundle to_one_sided_pre_key_bundle
forged_test = refl

sides_agree_example :
    ((k : Buffer) × (derive_secret_key_with_recipient crypto
          (create_pre_key_bundle crypto 1 none)
          (7 ∷ [])
          (to_one_sided_pre_key_bundle public_part
            (create_pre_key_bundle crypto 3 (some (9 ∷ [], 9 ∷ []))))
        ≡ derived k)
      × (derive_secret_key_with_initiator crypto
            (create_pre_key_bundle crypto 3 (some (9 ∷ [], 9 ∷ [])))
            (create_pre_key_bundle crypto 1 none).identity_key.1
            (7 ∷ [])
          ≡ derived k))
    × (build_associated_data_with_recipient
          (create_pre_key_bundle crypto 1 none)
          (create_pre_key_bundle crypto 3 (some (9 ∷ [], 9 ∷ []))).identity_key.1
        ≡ build_associated_data_with_initiator
            (create_pre_key_bundle crypto 3 (some (9 ∷ [], 9 ∷ [])))
            (create_pre_key_bundle crypto 1 none).identity_key.1)
sides_agree_example = sides_agree crypto 1 3 7 (some 9) none crypto-IsLawful

derived_of_verified_example :
    crypto.verify
      (to_one_sided_pre_key_bundle public_part bob).signed_pre_key_signature
      (to_one_sided_pre_key_bundle public_part bob).signed_pre_key
      (raw_key (to_one_sided_pre_key_bundle public_part bob).identity_key)
    ≡ true
derived_of_verified_example =
    derived_of_verified crypto alice (7 ∷ []) (to_one_sided_pre_key_bundle public_part bob)
      (255 ∷ 5 ∷ 10 ∷ 11 ∷ 16 ∷ []) derived_test
