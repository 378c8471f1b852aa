-- ===== src/Views/Routes.antt =====
-- The routes of the command line client, what guards them, and its router (cli/router, cli/ui/middlewares,
-- cli/ui/index.ui.ts, cli/ui/local-key-manager.ui.ts, cli/ui/chats.ui.ts, cli/ui/chat.ui.ts).
use nerdhub_chat_cli_prototy.Common.{
  ℕ, ◌≡◌, Option, none, some, List, [], ◌∷◌, String, Text, codes, text_same,
}
use nerdhub_chat_cli_prototy.Common.JsMap
use nerdhub_chat_cli_prototy.Client as C
use nerdhub_chat_cli_prototy.Client.{Client, ContextBundle, End}
use nerdhub_chat_cli_prototy.Client.Bundles.{Surroundings}
use nerdhub_chat_cli_prototy.Client.Setup.{setup_pre_key_bundle}
use nerdhub_chat_cli_prototy.Views.{
  Session, Finish, done, navigates, throws, View, pure, ◌>>=◌, ◌>>◌, navigate, exit, fail, select,
}
use nerdhub_chat_cli_prototy.Views.Keys.{Desk, local_key_manager_store, local_key_manager_retrieve}
use nerdhub_chat_cli_prototy.Views.Accounts.{AccountsApi, register, login}

-- what a page gives to the next one: the parameter `from`
abbrev pub Page : Type 0 → Type 0
Page S = Option Text → View S (Unit {0})

-- setupPreKeyBundle as a step of a view
abbrev pub of_step :
    {S : Type 0} → Session S → End (Unit {0}) × Client S → Finish (Unit {0}) × Session S
of_step s (C.End.done u, c) = (done u, record s { client = c })
of_step s (C.End.throws, c) = (throws, record s { client = c })
of_step s (C.End.leaves, c) = (navigates (codes "Index") none, record s { client = c })

-- authenticatedRoute and requireLocalEncryptionKey; `current` is the name of the router's route
abbrev pub let_authenticated : {S : Type 0} → Text → Option ℕ → View S (Unit {0})
let_authenticated current none = navigate (codes "Login") (some current)
let_authenticated current (some user) = pure tt

abbrev pub authenticated_route : {S : Type 0} → Text → Page S → Page S
authenticated_route current page from =
    (λ s. let_authenticated current s.client.user_id s) >> page from

abbrev pub let_with_key : {S : Type 0} → Text → Option Text → View S (Unit {0})
let_with_key current none = navigate (codes "LocalKeyManager") (some current)
let_with_key current (some key) = pure tt

abbrev pub require_local_encryption_key : {S : Type 0} → Text → Page S → Page S
require_local_encryption_key current page from =
    (λ s. let_with_key current s.client.local_encryption_key s) >> page from

-- the pages that only print
abbrev pub chats : {S : Type 0} → Page S
chats from = pure tt

abbrev pub main_options : Option ℕ → List String
main_options none = "Register" ∷ "Login" ∷ "LocalKeyManager" ∷ "Exit" ∷ []
main_options (some user) = "LocalKeyManager" ∷ "Chats" ∷ "Exit" ∷ []

unfoldable pub index : {S : Type 0} → Page S
index from s = (select (main_options s.client.user_id) >>= λ name. navigate (codes name) none) s

unfoldable pub local_key_manager : {S : Type 0} → Page S
local_key_manager from =
    select ("LocalKeyManager.Store" ∷ "LocalKeyManager.Retrieve" ∷ "Index" ∷ "Exit" ∷ [])
    >>= λ name. navigate (codes name) from

-- What the pages of chats need.
abbrev pub IsReady : {S : Type 0} → Session S → Type 0
IsReady s =
    ((user : ℕ) × (s.client.user_id ≡ some user))
    × ((key : Text) × (s.client.local_encryption_key ≡ some key))
    × ((bundle : ContextBundle) × (s.client.prekey_bundle ≡ some bundle))

module _ {S : Type 0} (env : Surroundings S) (api : AccountsApi S) (desk : Desk) where
  abbrev pub set_up : Page S → Page S
  set_up page from = (λ s. of_step s (setup_pre_key_bundle env s.client)) >> page from

  unfoldable pub chats_page : Page S
  chats_page =
      set_up
        (authenticated_route (codes "Chats") (require_local_encryption_key (codes "Chats") chats))

  unfoldable pub chat_page : Page S
  chat_page =
      set_up
        (require_local_encryption_key (codes "Chat") (authenticated_route (codes "Chat") chats))

  -- The pages of Index, Register and Login are called without parameters.
  unfoldable pub routes : List (Text × Page S)
  routes =
      (codes "Index", λ from. index none)
      ∷ (codes "Register", λ from. register api none)
      ∷ (codes "Login", λ from. login api none)
      ∷ (codes "Chats", chats_page)
      ∷ (codes "Chat", chat_page)
      ∷ (codes "LocalKeyManager", local_key_manager)
      ∷ (codes "LocalKeyManager.Store", local_key_manager_store desk)
      ∷ (codes "LocalKeyManager.Retrieve", local_key_manager_retrieve desk)
      ∷ (codes "Exit", λ from. exit)
      ∷ []

  abbrev pub render_route : Option (Page S) → Page S
  render_route none from = fail
  render_route (some page) from = page from

  -- renderUI: an error where there is no route of the name
  unfoldable pub render : Text → Page S
  render name = render_route (JsMap.get name routes)
