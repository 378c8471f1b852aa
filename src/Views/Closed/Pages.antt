-- ===== src/Views/Closed/Pages.antt =====
-- Where the pages of chats navigate to, and what a menu offers (cli/router/routes.ts, cli/ui/middlewares).
use nerdhub_chat_cli_prototy.Common.{
  ℕ, ◌≡◌, subst, inl, inr, true, Option, none, some, List, [], ◌∷◌, String, Text, codes, Bool-cases,
  any, All, ◌==◌, text_same, string_same,
}
use nerdhub_chat_cli_prototy.Client as C
use nerdhub_chat_cli_prototy.Client.{Client, ContextBundle, End, Participant}
use nerdhub_chat_cli_prototy.Client.Bundles.{Surroundings}
use nerdhub_chat_cli_prototy.Client.Setup.{with_user, setup_pre_key_bundle}
use nerdhub_chat_cli_prototy.Client.Identity.{Kept}
use nerdhub_chat_cli_prototy.Client.Identity.Setup.{setup_pre_key_bundle-Kept}
use nerdhub_chat_cli_prototy.Views.{
  Answer, typed, chosen, confirmed, pressed, Session, Finish, done, waits, with_answers,
  select_from,
}
use nerdhub_chat_cli_prototy.Views.Keys.{Desk}
use nerdhub_chat_cli_prototy.Views.Accounts.{AccountsApi}
use nerdhub_chat_cli_prototy.Views.Guards.{of_step-done, let_authenticated-done, let_with_key-done}
use nerdhub_chat_cli_prototy.Views.Closed.{Lands, resume-Lands}
use nerdhub_chat_cli_prototy.Views.Routes.{
  of_step, let_authenticated, let_with_key, chats_page, chat_page,
}

module _ {κ} (P : String → Type κ) where
  offered-All :
      (offered : List String) (c : String) → All P offered → any (λ o. o == c) offered ≡ true → P c
  offered-All [] c p e = cc e
  offered-All (o ∷ offered) c (p, ps) e = elim (Bool-cases (o == c)) [
    | inl same ↦ subst P ((string_same.same_iff o c).0 same) p
    | inr other ↦ offered-All offered c ps (rw other at e)
  ]

  module _ {S : Type 0} where
    pub select_from-All :
        (offered : List String) (answers : List Answer) (s s' : Session S) (c : String)
        → All P offered
        → select_from offered answers s ≡ (done c, s')
        → P c
    select_from-All offered [] s s' c p h = cc h
    select_from-All offered (chosen d ∷ rest) s s' c p h =
        elim (Bool-cases (any (λ o. o == d) offered)) [
          | inl there ↦
              let x : ◌≡◌ {A = Finish String × Session S} (done d, with_answers rest s)
                  (done c, s') =
                rw there at h in
              let same : d ≡ c = cc x in subst P same (offered-All offered d p there)
          | inr other ↦
              let x : ◌≡◌ {A = Finish String × Session S} (waits, s) (done c, s') = rw other at h in
              cc x
        ]
    select_from-All offered (typed t ∷ rest) s s' c p h = cc h
    select_from-All offered (confirmed b ∷ rest) s s' c p h = cc h
    select_from-All offered (pressed ∷ rest) s s' c p h = cc h

-- The user and the key are there.
abbrev Known : Option ℕ → Option Text → Type 0
Known (some user) (some key) = Unit
Known _ _ = ⊥

module _ {S : Type 0} (env : Surroundings S) where
  with_user-Known :
      (user : Option ℕ) (key : Option Text) (bundle : Option ContextBundle)
      (participant : Option Participant) (c c' : Client S)
      → with_user env user key bundle participant c ≡ (C.End.done tt, c')
      → Known user key
  with_user-Known none key bundle participant c c' h = cc h
  with_user-Known (some user) none bundle participant c c' h = cc h
  with_user-Known (some user) (some key) bundle participant c c' h = tt

  setup-Known :
      (c c' : Client S)
      → setup_pre_key_bundle env c ≡ (C.End.done tt, c')
      → Known c'.user_id c'.local_encryption_key
  unfolding setup_pre_key_bundle
  setup-Known c c' h = subst (Kept Known) h (
      setup_pre_key_bundle-Kept Known env c
        (with_user-Known c.user_id c.local_encryption_key c.prekey_bundle c.participant c c' h))

module _ {κ} {S : Type 0} (T : Text → Option Text → Type κ) where
  of_step-Lands :
      T (codes "Index") none
      → (s : Session S) (r : End (Unit {0}) × Client S) → Lands T (of_step s r)
  of_step-Lands menu s (C.End.done u, c) = tt
  of_step-Lands menu s (C.End.throws, c) = tt
  of_step-Lands menu s (C.End.leaves, c) = menu

  let_authenticated-Lands :
      (current : Text) (user : Option ℕ) (key : Option Text) (s : Session S)
      → Known user key
      → Lands T (let_authenticated current user s)
  let_authenticated-Lands current none key s k = absurd k
  let_authenticated-Lands current (some user) key s k = tt

  let_with_key-Lands :
      (current : Text) (user : Option ℕ) (key : Option Text) (s : Session S)
      → Known user key
      → Lands T (let_with_key current key s)
  let_with_key-Lands current none key s k = absurd k
  let_with_key-Lands current (some user) none s k = absurd k
  let_with_key-Lands current (some user) (some key) s k = tt

  module _ (env : Surroundings S) (api : AccountsApi S) (desk : Desk)
      (menu : T (codes "Index") none) where
    abbrev IsKnown : Session S → Type 0
    IsKnown s = Known s.client.user_id s.client.local_encryption_key

    set_up-IsKnown :
        (s s1 : Session S)
        → of_step s (setup_pre_key_bundle env s.client) ≡ (done tt, s1)
        → IsKnown s1
    set_up-IsKnown s s1 e =
        setup-Known env s.client s1.client (of_step-done s s1 (setup_pre_key_bundle env s.client) e)

    pub chats_page-Lands :
        (from : Option Text) (s : Session S) → Lands T (chats_page env api desk from s)
    unfolding chats_page
    chats_page-Lands from s =
        resume-Lands T _ (of_step s (setup_pre_key_bundle env s.client))
          (of_step-Lands menu s (setup_pre_key_bundle env s.client))
          (λ u s1 e1.
            let k = set_up-IsKnown s s1 e1 in
            let user = s1.client.user_id in
            resume-Lands T _ (let_authenticated (codes "Chats") user s1)
              (let_authenticated-Lands (codes "Chats") user s1.client.local_encryption_key s1 k)
              (λ v s2 e2.
                let (known, same) = let_authenticated-done (codes "Chats") user s1 s2 e2 in
                let key = s2.client.local_encryption_key in
                resume-Lands T _ (let_with_key (codes "Chats") key s2)
                  (let_with_key-Lands (codes "Chats") s2.client.user_id key s2
                    (subst IsKnown same k))
                  (λ w s3 e3. tt)))

    pub chat_page-Lands :
        (from : Option Text) (s : Session S) → Lands T (chat_page env api desk from s)
    unfolding chat_page
    chat_page-Lands from s =
        resume-Lands T _ (of_step s (setup_pre_key_bundle env s.client))
          (of_step-Lands menu s (setup_pre_key_bundle env s.client))
          (λ u s1 e1.
            let k = set_up-IsKnown s s1 e1 in
            let key = s1.client.local_encryption_key in
            resume-Lands T _ (let_with_key (codes "Chat") key s1)
              (let_with_key-Lands (codes "Chat") s1.client.user_id key s1 k)
              (λ v s2 e2.
                let (known, same) = let_with_key-done (codes "Chat") key s1 s2 e2 in
                let user = s2.client.user_id in
                resume-Lands T _ (let_authenticated (codes "Chat") user s2)
                  (let_authenticated-Lands (codes "Chat") user s2.client.local_encryption_key s2
                    (subst IsKnown same k))
                  (λ w s3 e3. tt)))
