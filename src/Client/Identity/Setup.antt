-- ===== src/Client/Identity/Setup.antt =====
-- What the steps of the setup leave of the context: the user and the key for local data
-- (cli/ui/middlewares/setup-prekey-bundle.middleware.ts).
use nerdhub_chat_cli_prototy.Common.{
  ℕ, inl, inr, Bool-cases, ◌+◌, Bool, true, false, Option, none, some, List, [], ◌∷◌, Text,
  nat_same, text_same, ltb,
}
use nerdhub_chat_cli_prototy.X3dh.{OneTimePreKey, create_many_one_time_pre_keys}
use nerdhub_chat_cli_prototy.Client.{OnetimeRow, ContextBundle, Participant, Client, done}
use nerdhub_chat_cli_prototy.Client.Repository.{
  create_bundle, find_bundle, count_onetime, create_onetime, delete_onetime, delete_bundle,
  find_latest,
}
use nerdhub_chat_cli_prototy.Client.Bundles.{
  Surroundings, encrypt_step, decrypt_step, update_store, did_not_throw, verify_x25519_key_pair,
  verified_step, make_bundle, find_step, found_bundle, publish_if_needed, generated_payload,
}
use nerdhub_chat_cli_prototy.Client.Setup.{
  upload_batch_size, stock_count_threshold, encrypt_keys, current_participant, make_onetime, sent,
  publish_for, publish_keys, clear_onetime, renew_onetime, publish_rest, latest_checked,
  check_latest, latest, add_onetime, replenish, setup_again, create_participant, token_renewed,
  renew_token, clear_bundle, setup_first, setup_for, with_user, setup_pre_key_bundle,
}
use nerdhub_chat_cli_prototy.Client.Identity.{
  Kept, Stays, resume-Kept, given-Kept, stored-Kept, either-Kept, encrypt_step-Kept,
  decrypt_step-Kept, updated-Kept, make_bundle-Kept, found_bundle-Kept, publish_if_needed-Kept,
}

module _ {μ} {S : Type 0} (Q : Option ℕ → Option Text → Type μ) (env : Surroundings S) where
  encrypt_keys-Kept :
      (user participant : ℕ) (opks : List (OneTimePreKey Text)) (c : Client S)
      → Stays Q c
      → Kept Q (encrypt_keys env user participant opks c)
  unfolding encrypt_keys
  encrypt_keys-Kept user participant [] c q = q
  encrypt_keys-Kept user participant (opk ∷ opks) c q =
      resume-Kept Q _ (encrypt_step env opk.key_pair.0 c)
        (encrypt_step-Kept Q env opk.key_pair.0 c q)
        (λ key c1 q1.
          resume-Kept Q _ (encrypt_keys env user participant opks c1)
            (encrypt_keys-Kept user participant opks c1 q1) (λ dtos c2 q2. q2))

  make_onetime-Kept : (user : ℕ) (c : Client S) → Stays Q c → Kept Q (make_onetime env user c)
  unfolding make_onetime
  make_onetime-Kept user c q =
      let c0 : Client S = record c { generated = c.generated + upload_batch_size } in
      let opks = create_many_one_time_pre_keys env.crypto env.ulid upload_batch_size c.generated in
      resume-Kept Q _ (current_participant env c0) (given-Kept Q c0.participant c0 q) (λ p c1 q1.
        resume-Kept Q _ (encrypt_keys env user p.id opks c1)
          (encrypt_keys-Kept user p.id opks c1 q1)
          (λ dtos c2 q2.
            resume-Kept Q _ (update_store env (create_onetime env.now dtos) c2)
              (stored-Kept Q (create_onetime env.now dtos c2.store) c2 q2) (λ u c3 q3. q3)))

  sent-Kept :
      (user participant : ℕ) (c : Client S) (b : Bool) (s : S)
      → Stays Q c
      → Kept Q (sent env user participant c (b, s))
  sent-Kept user participant c true s q = q
  sent-Kept user participant c false s q = q

  publish_for-Kept :
      (user : ℕ) (payload : List (Text × Text)) (flush : Bool) (c : Client S)
      (o : Option Participant)
      → Stays Q c
      → Kept Q (publish_for env user payload flush c o)
  publish_for-Kept user payload flush c none q = q
  publish_for-Kept user payload flush c (some p) q =
      let r = env.api.create_many c.jwt user p.id payload flush c.server in
      sent-Kept user p.id c r.0 r.1 q

  publish_keys-Kept :
      (user : ℕ) (payload : List (Text × Text)) (flush : Bool) (c : Client S)
      → Stays Q c
      → Kept Q (publish_keys env user payload flush c)
  unfolding publish_keys
  publish_keys-Kept user payload flush c q = publish_for-Kept user payload flush c c.participant q

  add_onetime-Kept : (user : ℕ) (c : Client S) → Stays Q c → Kept Q (add_onetime env user c)
  add_onetime-Kept user c q =
      resume-Kept Q _ (make_onetime env user c) (make_onetime-Kept user c q)
        (λ payload c1 q1. publish_keys-Kept user payload false c1 q1)

  latest_checked-Kept :
      (user : ℕ) (row : OnetimeRow) (b : Bool) (c : Client S)
      → Stays Q c
      → Kept Q (latest_checked env user row b c)
  unfolding renew_onetime clear_onetime publish_rest
  latest_checked-Kept user row false c q =
      let c1 : Client S = record c { store = delete_onetime user c.store } in
      resume-Kept Q _ (make_onetime env user c1) (make_onetime-Kept user c1 q)
        (λ payload c2 q2. publish_keys-Kept user payload true c2 q2)
  latest_checked-Kept user row true c q = elim (Bool-cases row.is_published) [
    | inl e ↦ rw e q
    | inr e ↦ rw e (publish_keys-Kept user _ true c q)
  ]

  check_latest-Kept :
      (user : ℕ) (o : Option OnetimeRow) (c : Client S)
      → Stays Q c
      → Kept Q (check_latest env user o c)
  unfolding check_latest
  check_latest-Kept user none c q = q
  check_latest-Kept user (some row) c q =
      resume-Kept Q _ (decrypt_step env row.priv_key c) (decrypt_step-Kept Q env row.priv_key c q)
        (λ key c1 q1.
          latest_checked-Kept user row
            (did_not_throw env (verify_x25519_key_pair env c1.generated key row.pub_key))
            (verified_step env key row.pub_key c1).1 q1)

  setup_again-Kept : (user : ℕ) (c : Client S) → Stays Q c → Kept Q (setup_again env user c)
  unfolding setup_again find_step latest replenish
  setup_again-Kept user c q =
      resume-Kept Q _ (found_bundle env user (find_bundle user c.store) c)
        (found_bundle-Kept Q env user (find_bundle user c.store) c q)
        (λ bundles c1 q1.
          resume-Kept Q _ (publish_if_needed env user bundles.0 c1)
            (publish_if_needed-Kept Q env user bundles.0 c1 q1)
            (λ u c2 q2.
              resume-Kept Q _ (check_latest env user (find_latest env.sqlite user c2.store) c2)
                (check_latest-Kept user (find_latest env.sqlite user c2.store) c2 q2)
                (λ v c3 q3.
                  resume-Kept Q _ (replenish env user c3)
                    (either-Kept Q (ltb stock_count_threshold (count_onetime user c3.store))
                      (done tt, c3) (add_onetime env user c3) q3 (add_onetime-Kept user c3 q3))
                    (λ w c4 q4. q4))))

  token_renewed-Kept :
      (c : Client S) (o : Option Text) (s : S) → Stays Q c → Kept Q (token_renewed env c (o, s))
  token_renewed-Kept c none s q = q
  token_renewed-Kept c (some jwt) s q = q

  setup_first-Kept : (user : ℕ) (c : Client S) → Stays Q c → Kept Q (setup_first env user c)
  unfolding setup_first clear_bundle clear_onetime
  setup_first-Kept user c q =
      let c0 : Client S = record c { store = delete_bundle user c.store } in
      resume-Kept Q _ (make_bundle env (create_bundle env.now user) c0)
        (make_bundle-Kept Q env _ c0 q)
        (λ b c1 q1.
          let r = env.api.create_participant c1.jwt user (generated_payload env b) c1.server in
          resume-Kept Q _ (create_participant env user (generated_payload env b) c1)
            (updated-Kept Q env user c1 r.0 r.1 q1)
            (λ u c2 q2.
              let t = env.api.get_access_token c2.jwt c2.server in
              resume-Kept Q _ (renew_token env c2) (token_renewed-Kept c2 t.0 t.1 q2) (λ v c3 q3.
                let c4 : Client S = record c3 { store = delete_onetime user c3.store } in
                resume-Kept Q _ (add_onetime env user c4) (add_onetime-Kept user c4 q3)
                  (λ w c5 q5. q5))))

  setup_for-Kept :
      (user : ℕ) (o : Option Participant) (c : Client S)
      → Stays Q c
      → Kept Q (setup_for env user o c)
  setup_for-Kept user none c q = setup_first-Kept user c q
  setup_for-Kept user (some p) c q = setup_again-Kept user c q

  with_user-Kept :
      (user : Option ℕ) (key : Option Text) (bundle : Option ContextBundle)
      (participant : Option Participant) (c : Client S)
      → Stays Q c
      → Kept Q (with_user env user key bundle participant c)
  with_user-Kept none key bundle participant c q = q
  with_user-Kept (some user) none bundle participant c q = q
  with_user-Kept (some user) (some key) (some b) participant c q = q
  with_user-Kept (some user) (some key) none participant c q =
      resume-Kept Q _ (setup_for env user participant c) (setup_for-Kept user participant c q)
        (λ b c1 q1. q1)

  -- However the setup ends, the user and the key for local data are as before.
  pub setup_pre_key_bundle-Kept : (c : Client S) → Stays Q c → Kept Q (setup_pre_key_bundle env c)
  unfolding setup_pre_key_bundle
  setup_pre_key_bundle-Kept c q =
      with_user-Kept c.user_id c.local_encryption_key c.prekey_bundle c.participant c q
