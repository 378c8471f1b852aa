-- ===== src/Client/Identity.antt =====
-- What the steps about the prekey bundle leave of the context: the user and the key for local data
-- (cli/ui/middlewares/setup-prekey-bundle.middleware.ts).
pub mod Setup
use nerdhub_chat_cli_prototy.Common.{
  ℕ, suc, inl, inr, Bool-cases, ◌+◌, ◌≡◌, refl, Bool, true, false, not, ◌||◌, Option, none, some,
  List, [], ◌∷◌, Text, nat_same, text_same, if◌then◌else◌, ltb,
}
use nerdhub_chat_cli_prototy.LocalEncryption.{LocalEncryptionService, encrypt, decrypt}
use nerdhub_chat_cli_prototy.X3dh.{
  OneTimePreKey, PreKeyBundle, create_many_one_time_pre_keys, create_pre_key_bundle,
}
use nerdhub_chat_cli_prototy.Client.{
  BundleRow, OnetimeRow, Store, ContextBundle, Participant, Client, End, done, throws, leaves, Step,
  resume, stored, given,
}
use nerdhub_chat_cli_prototy.Client.Repository.{
  NewBundle, create_bundle, reset_bundle, find_bundle, count_onetime, find_many_non_published,
  create_onetime, delete_onetime, delete_bundle, find_latest,
}
use nerdhub_chat_cli_prototy.Client.Bundles.{
  Surroundings, encrypted_step, encrypt_step, decrypted_step, decrypt_step, update_store,
  did_not_throw, verify_x25519_key_pair, verified_step, payload_of, updated, publish_payload_for,
  publish_payload, generate, make_bundle, find_step, new_bundle, renew_bundle, renewed_bundle,
  kept_bundle, verified_also, decrypted_bundle, found_bundle, server_matches, publish_if_needed,
  generated_payload,
}
use nerdhub_chat_cli_prototy.Client.Setup.{
  upload_batch_size, stock_count_threshold, generate_onetime, encrypt_keys, current_participant,
  make_onetime, sent, publish_for, publish_keys, clear_onetime, renew_onetime, publish_rest,
  latest_checked, check_latest, latest, add_onetime, replenish, setup_again, create_participant,
  token_renewed, renew_token, clear_bundle, setup_first, setup_for, keep_bundle, with_user,
  setup_pre_key_bundle,
}

-- The user and the key are those of the start, however a step ends.
abbrev pub Kept {ℓ κ} :
    {S : Type 0} {A : Type ℓ} → (Option ℕ → Option Text → Type κ) → End A × Client S → Type κ
Kept Q (done a, c) = Q c.user_id c.local_encryption_key
Kept Q (throws, c) = Q c.user_id c.local_encryption_key
Kept Q (leaves, c) = Q c.user_id c.local_encryption_key

module _ {μ} {S : Type 0} (Q : Option ℕ → Option Text → Type μ) where
  abbrev pub Stays : Client S → Type μ
  Stays c = Q c.user_id c.local_encryption_key

  pub resume-Kept {ℓ κ} :
      {A : Type ℓ} {B : Type κ} (f : A → Step S B) (r : End A × Client S)
      → Kept Q r
      → ((a : A) (c : Client S) → Stays c → Kept Q (f a c))
      → Kept Q (resume f r)
  resume-Kept f (done a, c) q h = h a c q
  resume-Kept f (throws, c) q h = q
  resume-Kept f (leaves, c) q h = q

  pub given-Kept {ℓ} : {A : Type ℓ} (o : Option A) (c : Client S) → Stays c → Kept Q (given o c)
  given-Kept none c q = q
  given-Kept (some a) c q = q

  pub stored-Kept : (o : Option Store) (c : Client S) → Stays c → Kept Q (stored o c)
  stored-Kept none c q = q
  stored-Kept (some store) c q = q

  pub either-Kept {ℓ} :
      {A : Type ℓ} (b : Bool) (x y : End A × Client S)
      → Kept Q x
      → Kept Q y
      → Kept Q (if b then x else y)
  either-Kept true x y h k = h
  either-Kept false x y h k = k

  module _ (env : Surroundings S) where
    pub encrypt_step-Kept :
        (plain : Text) (c : Client S) → Stays c → Kept Q (encrypt_step env plain c)
    encrypt_step-Kept plain c q =
        let r =
          encrypt env.platform c.local_encryption_key (env.random_iv c.generated) plain c.service in
        given-Kept r.0 (record c { service = r.1; generated = suc c.generated }) q

    pub decrypt_step-Kept :
        (buffer : Text) (c : Client S) → Stays c → Kept Q (decrypt_step env buffer c)
    decrypt_step-Kept buffer c q =
        let r = decrypt env.platform c.local_encryption_key buffer c.service in
        given-Kept r.0 (record c { service = r.1 }) q

    pub updated-Kept :
        (user : ℕ) (c : Client S) (o : Option Participant) (s : S)
        → Stays c
        → Kept Q (updated env user c (o, s))
    updated-Kept user c none s q = q
    updated-Kept user c (some p) s q = q

    publish_payload_for-Kept :
        (user : ℕ) (payload : Text × Text × Text) (c : Client S) (o : Option Participant)
        → Stays c
        → Kept Q (publish_payload_for env user payload c o)
    publish_payload_for-Kept user payload c none q = q
    publish_payload_for-Kept user payload c (some p) q =
        let r = env.api.update_bundle c.jwt user p.id payload c.server in
        updated-Kept user c r.0 r.1 q

    pub make_bundle-Kept :
        (write : NewBundle → Store → Option Store) (c : Client S)
        → Stays c
        → Kept Q (make_bundle env write c)
    unfolding make_bundle
    make_bundle-Kept write c q =
        let b = create_pre_key_bundle env.crypto c.generated none in
        let c1 : Client S = record c { generated = c.generated + 2 } in
        resume-Kept _ (encrypt_step env b.identity_key.0 c1)
          (encrypt_step-Kept b.identity_key.0 c1 q)
          (λ identity c2 q2.
            resume-Kept _ (encrypt_step env b.signed_pre_key.0 c2)
              (encrypt_step-Kept b.signed_pre_key.0 c2 q2)
              (λ signed c3 q3.
                resume-Kept _
                  (stored
                    (write
                      (record {
                        pub_identity_key = b.identity_key.1;
                        priv_identity_key = identity;
                        pub_signed_prekey = b.signed_pre_key.1;
                        signed_prekey_signature = b.signed_pre_key_signature;
                        priv_signed_prekey = signed;
                      })
                      c3.store)
                    c3)
                  (stored-Kept _ c3 q3) (λ u c4 q4. q4)))

    -- A row is looked for, and then there is something to publish.
    new_bundle-Kept : (user : ℕ) (c : Client S) → Stays c → Kept Q (new_bundle env user c)
    unfolding new_bundle find_step
    new_bundle-Kept user c q =
        resume-Kept _ (make_bundle env (create_bundle env.now user) c) (make_bundle-Kept _ c q)
          (λ b c1 q1.
            resume-Kept _ (given (find_bundle user c1.store) c1) (given-Kept _ c1 q1) (λ row c2 q2.
              resume-Kept _ (publish_payload env user (generated_payload env b) c2)
                (publish_payload_for-Kept user (generated_payload env b) c2 c2.participant q2)
                (λ u c3 q3. q3)))

    renew_bundle-Kept : (user : ℕ) (c : Client S) → Stays c → Kept Q (renew_bundle env user c)
    unfolding renew_bundle find_step
    renew_bundle-Kept user c q =
        resume-Kept _ (make_bundle env (λ dto store. some (reset_bundle env.now user dto store)) c)
          (make_bundle-Kept _ c q)
          (λ b c1 q1.
            resume-Kept _ (given (find_bundle user c1.store) c1) (given-Kept _ c1 q1) (λ row c2 q2.
              resume-Kept _ (publish_payload env user (generated_payload env b) c2)
                (publish_payload_for-Kept user (generated_payload env b) c2 c2.participant q2)
                (λ u c3 q3. q3)))

    renewed_bundle-Kept :
        (user : ℕ) (wants : Bool) (c : Client S)
        → Stays c
        → Kept Q (renewed_bundle env user wants c)
    renewed_bundle-Kept user true c q = renew_bundle-Kept user c q
    renewed_bundle-Kept user false c q = q

    kept_bundle-Kept :
        (user : ℕ) (row : BundleRow) (identity signed : Text) (b : Bool) (c : Client S)
        → Stays c
        → Kept Q (kept_bundle env user row identity signed b c)
    kept_bundle-Kept user row identity signed true c q = q
    kept_bundle-Kept user row identity signed false c q =
        renewed_bundle-Kept user env.wants_reset c q

    verified_also-Kept :
        (private_key public_key : Text) (b : Bool) (c : Client S)
        → Stays c
        → Kept Q (verified_also env private_key public_key b c)
    verified_also-Kept private_key public_key true c q = q
    verified_also-Kept private_key public_key false c q = q

    pub found_bundle-Kept :
        (user : ℕ) (found : Option BundleRow) (c : Client S)
        → Stays c
        → Kept Q (found_bundle env user found c)
    unfolding decrypted_bundle
    found_bundle-Kept user none c q = new_bundle-Kept user c q
    found_bundle-Kept user (some row) c q =
        resume-Kept _ (decrypt_step env row.priv_identity_key c)
          (decrypt_step-Kept row.priv_identity_key c q)
          (λ identity c1 q1.
            resume-Kept _ (decrypt_step env row.priv_signed_prekey c1)
              (decrypt_step-Kept row.priv_signed_prekey c1 q1)
              (λ signed c2 q2.
                let v = verified_step env identity row.pub_identity_key c2 in
                let ok =
                  did_not_throw env
                    (verify_x25519_key_pair env c2.generated identity row.pub_identity_key) in
                resume-Kept _ (verified_also env signed row.pub_signed_prekey ok v.1)
                  (verified_also-Kept signed row.pub_signed_prekey ok v.1 q2)
                  (λ both c3 q3. kept_bundle-Kept user row identity signed both c3 q3)))

    pub publish_if_needed-Kept :
        (user : ℕ) (row : BundleRow) (c : Client S)
        → Stays c
        → Kept Q (publish_if_needed env user row c)
    unfolding publish_if_needed
    publish_if_needed-Kept user row c q =
        let payload =
          payload_of env row.pub_identity_key row.pub_signed_prekey row.signed_prekey_signature in
        either-Kept (not row.is_published || not (server_matches env row c.participant))
          (publish_payload env user payload c) (done tt, c)
          (publish_payload_for-Kept user payload c c.participant q) q
