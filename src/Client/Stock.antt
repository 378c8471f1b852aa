-- ===== src/Client/Stock.antt =====
-- How many one-time prekeys a client has after the setup
-- (cli/ui/middlewares/setup-prekey-bundle.middleware.ts).
use nerdhub_chat_cli_prototy.Common.{
  ℕ, ◌+◌, ◌<◌, ◌≡◌, refl, sym, ap, subst, ◌∙◌, inl, inr, Bool, true, false, Option, none, some,
  List, Text, nat_same, text_same, ltb, arith, Bool-cases,
}
use nerdhub_chat_cli_prototy.Client.{ContextBundle, Participant, Client, End, done}
use nerdhub_chat_cli_prototy.Client.Repository.{count_onetime, publish_onetime, create_bundle}
use nerdhub_chat_cli_prototy.Client.Bundles.{
  Surroundings, find_step, found_bundle, publish_if_needed, make_bundle, generated_payload,
}
use nerdhub_chat_cli_prototy.Client.Setup.{
  stock_count_threshold, upload_batch_size, make_onetime, sent, publish_for, publish_keys, latest,
  check_latest, create_participant, renew_token, clear_bundle, clear_onetime, add_onetime,
  replenish, setup_again, setup_first, setup_for, with_user, setup_pre_key_bundle,
}
use nerdhub_chat_cli_prototy.Client.Counts.{
  resume-done, publish_onetime-count, stock, make_onetime-stock,
}

module _ {S : Type 0} (env : Surroundings S) where
  sent-stock :
      (user participant : ℕ) (c c' : Client S) (r : Bool × S)
      → sent env user participant c r ≡ (done tt, c')
      → stock user c' ≡ stock user c
  unfolding publish_onetime
  sent-stock user participant c c' (false, s) h = cc h
  sent-stock user participant c c' (true, s) h =
      ap (λ (x : End (Unit {0}) × Client S). stock user x.1) (sym h)
      ∙ publish_onetime-count env.now user participant c.store.onetime_prekeys

  publish_for-stock :
      (user : ℕ) (payload : List (Text × Text)) (flush : Bool) (c c' : Client S)
      (o : Option Participant)
      → publish_for env user payload flush c o ≡ (done tt, c')
      → stock user c' ≡ stock user c
  publish_for-stock user payload flush c c' none h = cc h
  publish_for-stock user payload flush c c' (some p) h =
      sent-stock user p.id c c' (env.api.create_many c.jwt user p.id payload flush c.server) h

  pub add_onetime-stock :
      (user : ℕ) (c c' : Client S)
      → add_onetime env user c ≡ (done tt, c')
      → stock user c' ≡ stock user c + upload_batch_size
  unfolding publish_keys
  add_onetime-stock user c c' h =
      let (payload, c1, e1, h1) = resume-done _ (make_onetime env user c) tt c' h in
      publish_for-stock user payload false c1 c' c1.participant h1
      ∙ make_onetime-stock env user c c1 payload e1

  replenish-stock :
      (user : ℕ) (c c' : Client S)
      → replenish env user c ≡ (done tt, c')
      → stock_count_threshold < stock user c'
  unfolding replenish count_onetime
  replenish-stock user c c' h = elim (Bool-cases (ltb stock_count_threshold (stock user c))) [
    | inl e ↦
        let x : ◌≡◌ {A = End (Unit {0}) × Client S} (done tt, c) (done tt, c') = rw e at h in
        ground (arith, e, ap (λ (y : End (Unit {0}) × Client S). stock user y.1) x)
    | inr e ↦
        let x : add_onetime env user c ≡ (done tt, c') = rw e at h in
        omega (arith, add_onetime-stock user c c' x)
  ]

  setup_again-stock :
      (user : ℕ) (c c' : Client S) (b : ContextBundle)
      → setup_again env user c ≡ (done b, c')
      → stock_count_threshold < stock user c'
  unfolding setup_again
  setup_again-stock user c c' b h =
      let (found, c1, e1, h1) = resume-done _ (find_step env user c) b c' h in
      let (bundles, c2, e2, h2) = resume-done _ (found_bundle env user found c1) b c' h1 in
      let (u, c3, e3, h3) = resume-done _ (publish_if_needed env user bundles.0 c2) b c' h2 in
      let (row, c4, e4, h4) = resume-done _ (latest env user c3) b c' h3 in
      let (v, c5, e5, h5) = resume-done _ (check_latest env user row c4) b c' h4 in
      let (w, c6, e6, h6) = resume-done _ (replenish env user c5) b c' h5 in
      subst (λ x. stock_count_threshold < stock user x)
        (ap (λ (x : End ContextBundle × Client S). x.1) h6) (replenish-stock user c5 c6 e6)

  setup_first-stock :
      (user : ℕ) (c c' : Client S) (b : ContextBundle)
      → setup_first env user c ≡ (done b, c')
      → stock_count_threshold < stock user c'
  unfolding setup_first
  setup_first-stock user c c' b h =
      let (u1, c1, e1, h1) = resume-done _ (clear_bundle env user c) b c' h in
      let (p, c2, e2, h2) =
        resume-done _ (make_bundle env (create_bundle env.now user) c1) b c' h1 in
      let (u3, c3, e3, h3) =
        resume-done _ (create_participant env user (generated_payload env p) c2) b c' h2 in
      let (u4, c4, e4, h4) = resume-done _ (renew_token env c3) b c' h3 in
      let (u5, c5, e5, h5) = resume-done _ (clear_onetime env user c4) b c' h4 in
      let (u6, c6, e6, h6) = resume-done _ (add_onetime env user c5) b c' h5 in
      subst (λ x. stock_count_threshold < stock user x)
        (ap (λ (x : End ContextBundle × Client S). x.1) h6)
        (omega (arith, add_onetime-stock user c5 c6 e6))

  setup_for-stock :
      (user : ℕ) (participant : Option Participant) (c c' : Client S) (b : ContextBundle)
      → setup_for env user participant c ≡ (done b, c')
      → stock_count_threshold < stock user c'
  setup_for-stock user none c c' b h = setup_first-stock user c c' b h
  setup_for-stock user (some p) c c' b h = setup_again-stock user c c' b h

  with_user-stock :
      (user : Option ℕ) (key : Option Text) (participant : Option Participant) (c c' : Client S)
      → with_user env user key none participant c ≡ (done tt, c')
      → (id : ℕ) × (b : ContextBundle) × (user ≡ some id)
        × (c'.prekey_bundle ≡ some b)
        × (stock_count_threshold < stock id c')
  with_user-stock none key participant c c' h = cc h
  with_user-stock (some user) none participant c c' h = cc h
  with_user-stock (some user) (some key) participant c c' h =
      let (b, c1, e1, h1) = resume-done _ (setup_for env user participant c) tt c' h in
      let kept : record c1 { prekey_bundle = some b } ≡ c' =
        ap (λ (x : End (Unit {0}) × Client S). x.1) h1 in
      (
        user,
        b,
        refl,
        ap (λ (x : Client S). x.prekey_bundle) (sym kept),
        subst (λ x. stock_count_threshold < stock user x) kept
            (setup_for-stock user participant c c1 b e1),
      )

  -- Where the setup of a client without a prekey bundle in its context comes to the page, the client was
  -- authenticated as a user, its context has a bundle, and its local tables have more one-time prekeys
  -- of the user than the threshold, whatever they had before and whatever the server answers.
  pub setup_pre_key_bundle-stock :
      (c c' : Client S)
      → c.prekey_bundle ≡ none
      → setup_pre_key_bundle env c ≡ (done tt, c')
      → (user : ℕ) × (b : ContextBundle) × (c.user_id ≡ some user)
        × (c'.prekey_bundle ≡ some b)
        × (stock_count_threshold < stock user c')
  unfolding setup_pre_key_bundle
  setup_pre_key_bundle-stock c c' fresh h =
      with_user-stock c.user_id c.local_encryption_key c.participant c c'
        (ap (λ o. with_user env c.user_id c.local_encryption_key o c.participant c) (sym fresh) ∙ h)
