-- ===== src/Client/Tests.antt =====
-- The setup at concrete clients.
use nerdhub_chat_cli_prototy.Common.{ℕ, ◌≡◌, ◌<◌, refl, false, some, [], ◌∷◌}
use nerdhub_chat_cli_prototy.LocalEncryption.{
  encryption_key, local_encryption, decrypt, decrypt_buffer, encrypt, encrypt_buffer,
}
use nerdhub_chat_cli_prototy.X3dh.{create_pre_key_bundle, create_many_one_time_pre_keys}
use nerdhub_chat_cli_prototy.Client.{ContextBundle, done}
use nerdhub_chat_cli_prototy.Client.Repository.{
  create_bundle, delete_bundle, create_onetime, insert_onetime, publish_onetime, delete_onetime,
  find_bundle, publish_bundle, find_latest, count_onetime,
}
use nerdhub_chat_cli_prototy.Client.Bundles.{
  make_bundle, find_step, decrypted_bundle, publish_if_needed,
}
use nerdhub_chat_cli_prototy.Client.Setup.{
  clear_bundle, clear_onetime, make_onetime, encrypt_keys, publish_keys, setup_first,
  stock_count_threshold, latest, check_latest, replenish, setup_again, setup_pre_key_bundle,
}
use nerdhub_chat_cli_prototy.Client.FirstSetup.{IsOneBatch, setup_pre_key_bundle-IsOneBatch}
use nerdhub_chat_cli_prototy.Client.Counts.{stock}
use nerdhub_chat_cli_prototy.Client.Stock.{setup_pre_key_bundle-stock}
use nerdhub_chat_cli_prototy.Client.Trust.{context_of, pairs_unchecked}
use nerdhub_chat_cli_prototy.Client.Fixtures.{
  surroundings, own_bundle, before, after, asked, newcomer, settled,
}

setup_pre_key_bundle-stock_example :
    (user : ℕ) × (b : ContextBundle) × (before.user_id ≡ some user)
    × (after.prekey_bundle ≡ some b)
    × (stock_count_threshold < stock user after)
unfolding setup_pre_key_bundle setup_again find_step find_bundle decrypted_bundle decrypt
    local_encryption encryption_key decrypt_buffer publish_if_needed publish_bundle latest
    find_latest check_latest replenish count_onetime
setup_pre_key_bundle-stock_example = setup_pre_key_bundle-stock surroundings before after refl refl

-- keys that only agree by chance
pairs_unchecked_example : decrypted_bundle surroundings 7 own_bundle before ≡ (
  done (own_bundle, context_of surroundings own_bundle (2 ∷ []) (5 ∷ [])),
  record asked { generated = 2 },
)
unfolding decrypt local_encryption encryption_key decrypt_buffer
pairs_unchecked_example =
    pairs_unchecked surroundings 7 own_bundle (2 ∷ []) (5 ∷ []) false false before asked asked refl
      refl refl refl

-- a user without a participant, whose store has keys of an earlier one
setup_pre_key_bundle-IsOneBatch_example : IsOneBatch 7 settled
unfolding setup_pre_key_bundle setup_first clear_bundle delete_bundle make_bundle create_bundle
    create_pre_key_bundle encrypt local_encryption encryption_key encrypt_buffer publish_bundle
    clear_onetime delete_onetime make_onetime create_many_one_time_pre_keys encrypt_keys
    create_onetime insert_onetime publish_keys publish_onetime
setup_pre_key_bundle-IsOneBatch_example =
    setup_pre_key_bundle-IsOneBatch surroundings 7 newcomer settled refl refl refl refl
