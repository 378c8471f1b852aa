-- ===== src/Views/Guards.antt =====
-- When the pages of chats are rendered (cli/router/routes.ts, cli/ui/middlewares).
use nerdhub_chat_cli_prototy.Common.{
  ℕ, ◌≡◌, refl, sym, ap, subst, ◌∙◌, Option, none, some, Text, codes, ◌⊎◌, inl, inr,
}
use nerdhub_chat_cli_prototy.Client as C
use nerdhub_chat_cli_prototy.Client.{Client, ContextBundle, End, Participant, Step}
use nerdhub_chat_cli_prototy.Client.Bundles.{Surroundings}
use nerdhub_chat_cli_prototy.Client.Setup.{with_user, setup_for, setup_pre_key_bundle}
use nerdhub_chat_cli_prototy.Client.Counts as Counts
use nerdhub_chat_cli_prototy.Views.{Session, Finish, done}
use nerdhub_chat_cli_prototy.Views.Prompts.{resume-done}
use nerdhub_chat_cli_prototy.Views.Keys.{Desk}
use nerdhub_chat_cli_prototy.Views.Accounts.{AccountsApi}
use nerdhub_chat_cli_prototy.Views.Routes.{
  of_step, let_authenticated, let_with_key, chats_page, chat_page, IsReady,
}

module _ {S : Type 0} where
  pub of_step-done :
      (s s' : Session S) (r : End (Unit {0}) × Client S)
      → of_step s r ≡ (done tt, s')
      → r ≡ (C.End.done tt, s'.client)
  of_step-done s s' (C.End.done u, c) h =
      ap (λ x. (C.End.done tt, x)) (ap (λ (x : Finish (Unit {0}) × Session S). x.1.client) h)
  of_step-done s s' (C.End.throws, c) h = cc h
  of_step-done s s' (C.End.leaves, c) h = cc h

  pub let_authenticated-done :
      (current : Text) (o : Option ℕ) (s s' : Session S)
      → let_authenticated current o s ≡ (done tt, s')
      → ((user : ℕ) × (o ≡ some user)) × (s ≡ s')
  let_authenticated-done current none s s' h = cc h
  let_authenticated-done current (some user) s s' h =
      ((user, refl), ap (λ (x : Finish (Unit {0}) × Session S). x.1) h)

  pub let_with_key-done :
      (current : Text) (o : Option Text) (s s' : Session S)
      → let_with_key current o s ≡ (done tt, s')
      → ((key : Text) × (o ≡ some key)) × (s ≡ s')
  let_with_key-done current none s s' h = cc h
  let_with_key-done current (some key) s s' h =
      ((key, refl), ap (λ (x : Finish (Unit {0}) × Session S). x.1) h)

module _ {S : Type 0} (env : Surroundings S) where
  with_user-bundle :
      (user : Option ℕ) (key : Option Text) (bundle : Option ContextBundle)
      (participant : Option Participant) (c c' : Client S)
      → c.prekey_bundle ≡ bundle
      → with_user env user key bundle participant c ≡ (C.End.done tt, c')
      → (b : ContextBundle) × (c'.prekey_bundle ≡ some b)
  with_user-bundle none key bundle participant c c' e h = cc h
  with_user-bundle (some user) none bundle participant c c' e h = cc h
  with_user-bundle (some user) (some key) (some b) participant c c' e h =
      (b, ap (λ (x : End (Unit {0}) × Client S). x.1.prekey_bundle) (sym h) ∙ e)
  with_user-bundle (some user) (some key) none participant c c' e h =
      let (b, c1, e1, h1) = Counts.resume-done _ (setup_for env user participant c) tt c' h in
      (b, ap (λ (x : End (Unit {0}) × Client S). x.1.prekey_bundle) (sym h1))

  setup-bundle :
      (c c' : Client S)
      → setup_pre_key_bundle env c ≡ (C.End.done tt, c')
      → (b : ContextBundle) × (c'.prekey_bundle ≡ some b)
  unfolding setup_pre_key_bundle
  setup-bundle c c' h =
      with_user-bundle c.user_id c.local_encryption_key c.prekey_bundle c.participant c c' refl h

  set_up-bundle :
      (s s' : Session S)
      → of_step s (setup_pre_key_bundle env s.client) ≡ (done tt, s')
      → (b : ContextBundle) × (s'.client.prekey_bundle ≡ some b)
  set_up-bundle s s' h =
      setup-bundle s.client s'.client (of_step-done s s' (setup_pre_key_bundle env s.client) h)

  let_through :
      (s1 s2 s3 s' : Session S)
      → ((bundle : ContextBundle) × (s1.client.prekey_bundle ≡ some bundle))
      → s1 ≡ s2
      → s2 ≡ s3
      → s3 ≡ s'
      → (user : ℕ) × (s1.client.user_id ≡ some user)
      → (key : Text) × (s1.client.local_encryption_key ≡ some key)
      → IsReady s'
  let_through s1 s2 s3 s' bundle e f g user key =
      subst (λ x. IsReady x) (e ∙ f ∙ g) (user, key, bundle)

  module _ (api : AccountsApi S) (desk : Desk) where
    -- The pages of chats are rendered only for a client that is authenticated, has a key for its local
    -- data and has its prekey bundle, whatever the setup before them has done.
    pub pages-IsReady :
        (from : Option Text) (s s' : Session S)
        → (chats_page env api desk from s ≡ (done tt, s'))
          ⊎ (chat_page env api desk from s ≡ (done tt, s'))
        → IsReady s'
    unfolding chats_page chat_page
    pages-IsReady from s s' (inl h) =
        let (u, s1, e1, h1) =
          resume-done _ (of_step s (setup_pre_key_bundle env s.client)) tt s' h in
        let (v, s2, e2, h2) =
          resume-done _ (let_authenticated (codes "Chats") s1.client.user_id s1) tt s' h1 in
        let (w, s3, e3, h3) =
          resume-done _ (let_with_key (codes "Chats") s2.client.local_encryption_key s2) tt s' h2 in
        let (user, f) = let_authenticated-done (codes "Chats") s1.client.user_id s1 s2 e2 in
        let (key, g) = let_with_key-done (codes "Chats") s2.client.local_encryption_key s2 s3 e3 in
        let_through s1 s2 s3 s' (set_up-bundle s s1 e1) f g
          (ap (λ (x : Finish (Unit {0}) × Session S). x.1) h3) user
          (key.0, ap (λ (x : Session S). x.client.local_encryption_key) f ∙ key.1)
    pages-IsReady from s s' (inr h) =
        let (u, s1, e1, h1) =
          resume-done _ (of_step s (setup_pre_key_bundle env s.client)) tt s' h in
        let (v, s2, e2, h2) =
          resume-done _ (let_with_key (codes "Chat") s1.client.local_encryption_key s1) tt s' h1 in
        let (w, s3, e3, h3) =
          resume-done _ (let_authenticated (codes "Chat") s2.client.user_id s2) tt s' h2 in
        let (key, f) = let_with_key-done (codes "Chat") s1.client.local_encryption_key s1 s2 e2 in
        let (user, g) = let_authenticated-done (codes "Chat") s2.client.user_id s2 s3 e3 in
        let_through s1 s2 s3 s' (set_up-bundle s s1 e1) f g
          (ap (λ (x : Finish (Unit {0}) × Session S). x.1) h3)
          (user.0, ap (λ (x : Session S). x.client.user_id) f ∙ user.1) key
