-- ===== src/Client/Setup.antt =====
-- The setup of the prekey bundle before a page (cli/ui/middlewares/setup-prekey-bundle.middleware.ts). That
-- it is done means that the page is rendered. Console output is left out.
use nerdhub_chat_cli_prototy.Common.{
  ℕ, ◌+◌, Bool, true, false, Option, none, some, List, [], ◌∷◌, map, Text, nat_same, text_same,
  if◌then◌else◌, ltb,
}
use nerdhub_chat_cli_prototy.X3dh.{OneTimePreKey, create_many_one_time_pre_keys}
use nerdhub_chat_cli_prototy.Client.{
  OnetimeRow, ContextBundle, Participant, Client, End, done, throws, leaves, Step, pure, ◌>>=◌,
  ◌>>◌, given,
}
use nerdhub_chat_cli_prototy.Client.Repository.{
  NewOnetime, create_bundle, delete_bundle, find_latest, find_many_non_published, count_onetime,
  create_onetime, publish_onetime, delete_onetime,
}
use nerdhub_chat_cli_prototy.Client.Bundles.{
  encrypt_step, decrypt_step, update_store, verified_step, updated, make_bundle, context_bundle,
  find_step, generated_payload, found_bundle, publish_if_needed, Surroundings,
}

-- cli/constants/prekey-bundle.constants.ts
abbrev pub upload_batch_size : ℕ
upload_batch_size = 100

abbrev pub stock_count_threshold : ℕ
stock_count_threshold = 10

module _ {S : Type 0} (env : Surroundings S) where
  -- One-time prekeys are generated, their private keys encrypted.
  abbrev pub generate_onetime : Step S (List (OneTimePreKey Text))
  generate_onetime c = (
    done (create_many_one_time_pre_keys env.crypto env.ulid upload_batch_size c.generated),
    record c { generated = c.generated + upload_batch_size },
  )

  unfoldable pub encrypt_keys : ℕ → ℕ → List (OneTimePreKey Text) → Step S (List NewOnetime)
  encrypt_keys user participant [] = pure []
  encrypt_keys user participant (opk ∷ opks) = do
    priv_key ← encrypt_step env opk.key_pair.0
    dtos ← encrypt_keys user participant opks
    pure (
        record {
          id = opk.id;
          pub_key = opk.key_pair.1;
          priv_key = priv_key;
          user_id = user;
          participant_id = some participant;
        }
        ∷ dtos)

  abbrev pub current_participant : Step S Participant
  current_participant c = given c.participant c

  unfoldable pub make_onetime : ℕ → Step S (List (Text × Text))
  make_onetime user = do
    opks ← generate_onetime
    participant ← current_participant
    dtos ← encrypt_keys user participant.id opks
    update_store env (create_onetime env.now dtos)
    pure (map (λ opk. (opk.id, env.platform.to_base64 opk.key_pair.1)) opks)

  abbrev pub sent : ℕ → ℕ → Client S → Bool × S → End (Unit {0}) × Client S
  sent user participant c (false, s) = (throws, record c { server = s })
  sent user participant c (true, s) =
      (done tt, record c { server = s; store = publish_onetime env.now user participant c.store })

  abbrev pub publish_for :
      ℕ → List (Text × Text) → Bool → Client S → Option Participant → End (Unit {0}) × Client S
  publish_for user payload flush c none = (throws, c)
  publish_for user payload flush c (some p) =
      sent user p.id c (env.api.create_many c.jwt user p.id payload flush c.server)

  -- One-time prekeys are published to the server, and then all of the user marked so.
  unfoldable pub publish_keys : ℕ → List (Text × Text) → Bool → Step S (Unit {0})
  publish_keys user payload flush c = publish_for user payload flush c c.participant

  unfoldable pub clear_onetime : ℕ → Step S (Unit {0})
  clear_onetime user = update_store env (λ store. some (delete_onetime user store))

  -- where the latest one-time prekey cannot be decrypted
  unfoldable pub renew_onetime : ℕ → Step S (Unit {0})
  renew_onetime user = do
    clear_onetime user
    payload ← make_onetime user
    publish_keys user payload true

  -- where it is not published
  unfoldable pub publish_rest : ℕ → Step S (Unit {0})
  publish_rest user c =
      let payload =
        map (λ (opk : OnetimeRow). (opk.id, env.platform.to_base64 opk.pub_key))
          (find_many_non_published user c.store) in
      publish_keys user payload true c

  abbrev pub latest_checked : ℕ → OnetimeRow → Bool → Step S (Unit {0})
  latest_checked user row false = renew_onetime user
  latest_checked user row true = if row.is_published then pure tt else publish_rest user

  unfoldable pub check_latest : ℕ → Option OnetimeRow → Step S (Unit {0})
  check_latest user none = pure tt
  check_latest user (some row) = do
    priv_key ← decrypt_step env row.priv_key
    is_ok ← verified_step env priv_key row.pub_key
    latest_checked user row is_ok

  unfoldable pub latest : ℕ → Step S (Option OnetimeRow)
  latest user c = (done (find_latest env.sqlite user c.store), c)

  abbrev pub add_onetime : ℕ → Step S (Unit {0})
  add_onetime user = do payload ← make_onetime user; publish_keys user payload false

  unfoldable pub replenish : ℕ → Step S (Unit {0})
  replenish user c =
      if ltb stock_count_threshold (count_onetime user c.store)
      then (done tt, c)
      else add_onetime user c

  -- with a participant on the server
  unfoldable pub setup_again : ℕ → Step S ContextBundle
  setup_again user = do
    found ← find_step env user
    bundles ← found_bundle env user found
    publish_if_needed env user bundles.0
    row ← latest user
    check_latest user row
    replenish user
    pure bundles.1

  abbrev pub create_participant : ℕ → Text × Text × Text → Step S (Unit {0})
  create_participant user payload c =
      updated env user c (env.api.create_participant c.jwt user payload c.server)

  abbrev pub token_renewed : Client S → Option Text × S → End (Unit {0}) × Client S
  token_renewed c (none, s) = (throws, record c { server = s })
  token_renewed c (some jwt, s) = (done tt, record c { server = s; jwt = jwt })

  abbrev pub renew_token : Step S (Unit {0})
  renew_token c = token_renewed c (env.api.get_access_token c.jwt c.server)

  unfoldable pub clear_bundle : ℕ → Step S (Unit {0})
  clear_bundle user = update_store env (λ store. some (delete_bundle user store))

  -- without one
  unfoldable pub setup_first : ℕ → Step S ContextBundle
  setup_first user = do
    clear_bundle user
    b ← make_bundle env (create_bundle env.now user)
    create_participant user (generated_payload env b)
    renew_token
    clear_onetime user
    add_onetime user
    pure (context_bundle env b)

  abbrev pub setup_for : ℕ → Option Participant → Step S ContextBundle
  setup_for user none = setup_first user
  setup_for user (some p) = setup_again user

  abbrev pub keep_bundle : ContextBundle → Step S (Unit {0})
  keep_bundle b c = (done tt, record c { prekey_bundle = some b })

  abbrev pub with_user :
      Option ℕ → Option Text → Option ContextBundle → Option Participant → Step S (Unit {0})
  with_user (some user) (some key) (some b) participant = pure tt
  with_user (some user) (some key) none participant = setup_for user participant >>= keep_bundle
  with_user _ _ _ _ = λ c. (leaves, c)

  unfoldable pub setup_pre_key_bundle : Step S (Unit {0})
  setup_pre_key_bundle c =
      with_user c.user_id c.local_encryption_key c.prekey_bundle c.participant c
