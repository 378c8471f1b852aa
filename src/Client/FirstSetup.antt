-- ===== src/Client/FirstSetup.antt =====
-- What the setup of a user without a participant leaves
-- (cli/ui/middlewares/setup-prekey-bundle.middleware.ts).
use nerdhub_chat_cli_prototy.Common.{
  ℕ, ◌≡◌, refl, sym, ap, subst, ◌∙◌, inl, inr, Bool, true, false, not, ◌&&◌, Option, none, some,
  List, [], ◌∷◌, map, filter, Text, ◌==◌, nat_same, arith, Bool-cases,
}
use nerdhub_chat_cli_prototy.Client.{OnetimeRow, ContextBundle, Participant, Client, End, done}
use nerdhub_chat_cli_prototy.Client.Repository.{
  create_bundle, find_many_non_published, published_onetime, publish_onetime, delete_onetime,
}
use nerdhub_chat_cli_prototy.Client.Bundles.{Surroundings, make_bundle, generated_payload}
use nerdhub_chat_cli_prototy.Client.Setup.{
  upload_batch_size, create_participant, renew_token, clear_bundle, clear_onetime, make_onetime,
  sent, publish_for, publish_keys, add_onetime, setup_first, setup_for, with_user,
  setup_pre_key_bundle,
}
use nerdhub_chat_cli_prototy.Client.Counts.{resume-done, stored-store, onetime_count, stock}
use nerdhub_chat_cli_prototy.Client.Stock.{add_onetime-stock}

deleted-count :
    (user : ℕ) (rows : List OnetimeRow)
    → onetime_count user (filter (λ k. not (k.user_id == user)) rows) ≡ 0
deleted-count user [] = refl
deleted-count user (k ∷ rows) = elim (Bool-cases (k.user_id == user)) [
  | inl e ↦ rw (filter, e) (deleted-count user rows)
  | inr e ↦ rw (filter, e, e) (omega (arith, deleted-count user rows))
]

published-filter :
    (now user participant : ℕ) (rows : List OnetimeRow)
    → filter
        (λ (k : OnetimeRow). k.user_id == user && not k.is_published)
        (map (published_onetime now user participant) rows)
      ≡ []
published-filter now user participant [] = refl
published-filter now user participant (k ∷ rows) = elim (Bool-cases (k.user_id == user)) [
  | inl e ↦ rw (filter, e, e) (published-filter now user participant rows)
  | inr e ↦ rw (filter, e, e) (published-filter now user participant rows)
]

-- The tables have as many one-time prekeys of the user as one upload, all of them published.
abbrev pub IsOneBatch : {S : Type 0} → ℕ → Client S → Type 0
IsOneBatch user c = (stock user c ≡ upload_batch_size) × (find_many_non_published user c.store ≡ [])

module _ {S : Type 0} (env : Surroundings S) where
  sent-published :
      (user participant : ℕ) (c c' : Client S) (r : Bool × S)
      → sent env user participant c r ≡ (done tt, c')
      → find_many_non_published user c'.store ≡ []
  unfolding publish_onetime find_many_non_published
  sent-published user participant c c' (false, s) h = cc h
  sent-published user participant c c' (true, s) h =
      ap (λ (x : End (Unit {0}) × Client S). find_many_non_published user x.1.store) (sym h)
      ∙ published-filter env.now user participant c.store.onetime_prekeys

  publish_for-published :
      (user : ℕ) (payload : List (Text × Text)) (flush : Bool) (c c' : Client S)
      (o : Option Participant)
      → publish_for env user payload flush c o ≡ (done tt, c')
      → find_many_non_published user c'.store ≡ []
  publish_for-published user payload flush c c' none h = cc h
  publish_for-published user payload flush c c' (some p) h =
      sent-published user p.id c c' (env.api.create_many c.jwt user p.id payload flush c.server) h

  add_onetime-published :
      (user : ℕ) (c c' : Client S)
      → add_onetime env user c ≡ (done tt, c')
      → find_many_non_published user c'.store ≡ []
  unfolding publish_keys
  add_onetime-published user c c' h =
      let (payload, c1, e1, h1) = resume-done _ (make_onetime env user c) tt c' h in
      publish_for-published user payload false c1 c' c1.participant h1

  clear_onetime-stock :
      (user : ℕ) (c c' : Client S) → clear_onetime env user c ≡ (done tt, c') → stock user c' ≡ 0
  unfolding clear_onetime delete_onetime
  clear_onetime-stock user c c' h =
      let (store, e, put) = stored-store env (some (delete_onetime user c.store)) c c' h in
      ap (λ (x : Client S). stock user x) (sym (ap (λ (x : End (Unit {0}) × Client S). x.1) h))
      ∙ deleted-count user c.store.onetime_prekeys

  setup_first-IsOneBatch :
      (user : ℕ) (c c' : Client S) (b : ContextBundle)
      → setup_first env user c ≡ (done b, c')
      → IsOneBatch user c'
  unfolding setup_first
  setup_first-IsOneBatch user c c' b h =
      let (u1, c1, e1, h1) = resume-done _ (clear_bundle env user c) b c' h in
      let (p, c2, e2, h2) =
        resume-done _ (make_bundle env (create_bundle env.now user) c1) b c' h1 in
      let (u3, c3, e3, h3) =
        resume-done _ (create_participant env user (generated_payload env p) c2) b c' h2 in
      let (u4, c4, e4, h4) = resume-done _ (renew_token env c3) b c' h3 in
      let (u5, c5, e5, h5) = resume-done _ (clear_onetime env user c4) b c' h4 in
      let (u6, c6, e6, h6) = resume-done _ (add_onetime env user c5) b c' h5 in
      subst (IsOneBatch user) (ap (λ (x : End ContextBundle × Client S). x.1) h6) (
        omega (arith, add_onetime-stock env user c5 c6 e6, clear_onetime-stock user c4 c5 e5),
        add_onetime-published user c5 c6 e6,
      )

  with_user-IsOneBatch :
      (user : ℕ) (key : Option Text) (c c' : Client S)
      → with_user env (some user) key none none c ≡ (done tt, c')
      → IsOneBatch user c'
  with_user-IsOneBatch user none c c' h = cc h
  with_user-IsOneBatch user (some key) c c' h =
      let (b, c1, e1, h1) = resume-done _ (setup_for env user none c) tt c' h in
      subst (IsOneBatch user) (ap (λ (x : End (Unit {0}) × Client S). x.1) h1)
        (setup_first-IsOneBatch user c c1 b e1)

  -- Where the setup of a user who has no participant on this device comes to the page, the client's
  -- tables have exactly one batch of one-time prekeys of the user, and none that is not published,
  -- whatever they had before.
  pub setup_pre_key_bundle-IsOneBatch :
      (user : ℕ) (c c' : Client S)
      → c.user_id ≡ some user
      → c.prekey_bundle ≡ none
      → c.participant ≡ none
      → setup_pre_key_bundle env c ≡ (done tt, c')
      → IsOneBatch user c'
  unfolding setup_pre_key_bundle
  setup_pre_key_bundle-IsOneBatch user c c' u b p h =
      with_user-IsOneBatch user c.local_encryption_key c c' (
        ap (λ o. with_user env o c.local_encryption_key none none c) (sym u)
        ∙ ap (λ o. with_user env c.user_id c.local_encryption_key o none c) (sym b)
        ∙ ap (λ o. with_user env c.user_id c.local_encryption_key c.prekey_bundle o c) (sym p)
        ∙ h)
