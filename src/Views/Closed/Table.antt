-- ===== src/Views/Closed/Table.antt =====
-- Which routes the command line client comes to (cli/router/routes.ts, cli/router/router.ts).
use nerdhub_chat_cli_prototy.Common.{
  ℕ, ◌≡◌, refl, sym, some-injective, subst, inl, inr, Option, none, some, List, [], ◌∷◌, String,
  Text, codes, Bool-cases, All, ◌==◌, text_same, string_same,
}
use nerdhub_chat_cli_prototy.Common.JsMap
use nerdhub_chat_cli_prototy.Client.Bundles.{Surroundings}
use nerdhub_chat_cli_prototy.Views.{Answer, Session, navigates, with_answers, select}
use nerdhub_chat_cli_prototy.Views.Keys.{Desk}
use nerdhub_chat_cli_prototy.Views.Accounts.{AccountsApi, login}
use nerdhub_chat_cli_prototy.Views.Closed.{Lands, resume-Lands, select-Lands}
use nerdhub_chat_cli_prototy.Views.Closed.Accounts.{register-Lands, login-Lands}
use nerdhub_chat_cli_prototy.Views.Closed.Keys.{store-Lands, retrieve-Lands}
use nerdhub_chat_cli_prototy.Views.Routes.{
  Page, main_options, index, local_key_manager, routes, render_route, render,
}
use nerdhub_chat_cli_prototy.Views.Closed.Pages.{select_from-All, chats_page-Lands, chat_page-Lands}

module _ {S : Type 0} (env : Surroundings S) (api : AccountsApi S) (desk : Desk) where
  -- The table has a page of the name.
  abbrev pub IsRoute : Text → Type 0
  IsRoute name = (page : Page S) × (JsMap.get name (routes env api desk) ≡ some page)

  -- a route that is shown without the parameter `from`
  abbrev IsPlain : Text → Option Text → Type 0
  IsPlain name from = IsRoute name × (from ≡ none)

  plain :
      (name : Text) (page : Page S)
      → JsMap.get name (routes env api desk) ≡ some page
      → IsPlain name none
  plain name page e = ((page, e), refl)

  abbrev LandsPlain : Page S → Type 0
  LandsPlain page = (s : Session S) → Lands IsPlain (page none s)

  menu-IsPlain : IsPlain (codes "Index") none
  unfolding routes
  menu-IsPlain = plain (codes "Index") _ refl

  manager-IsPlain : IsPlain (codes "LocalKeyManager") none
  unfolding routes
  manager-IsPlain = plain (codes "LocalKeyManager") _ refl

  main_options-IsPlain : (user : Option ℕ) → All (λ c. IsPlain (codes c) none) (main_options user)
  unfolding routes
  main_options-IsPlain none = (
    plain (codes "Register") _ refl,
    (plain (codes "Login") _ refl, (manager-IsPlain, (plain (codes "Exit") _ refl, tt))),
  )
  main_options-IsPlain (some user) =
      (manager-IsPlain, (plain (codes "Chats") _ refl, (plain (codes "Exit") _ refl, tt)))

  index-LandsPlain : LandsPlain index
  unfolding index
  index-LandsPlain s =
      resume-Lands IsPlain _ (select (main_options s.client.user_id) s)
        (select-Lands IsPlain (main_options s.client.user_id) s)
        (λ name s1 e.
          select_from-All (λ c. IsPlain (codes c) none) (main_options s.client.user_id) s.answers s
            s1 name (main_options-IsPlain s.client.user_id) e)

  store-IsPlain : IsPlain (codes "LocalKeyManager.Store") none
  unfolding routes
  store-IsPlain = plain (codes "LocalKeyManager.Store") _ refl

  local_key_manager-LandsPlain : LandsPlain local_key_manager
  unfolding local_key_manager routes
  local_key_manager-LandsPlain s =
      let offered : List String =
        "LocalKeyManager.Store" ∷ "LocalKeyManager.Retrieve" ∷ "Index" ∷ "Exit" ∷ [] in
      resume-Lands IsPlain _ (select offered s) (select-Lands IsPlain offered s) (λ name s1 e.
        select_from-All (λ c. IsPlain (codes c) none) offered s.answers s s1 name
          (
            store-IsPlain,
            (
              plain (codes "LocalKeyManager.Retrieve") _ refl,
              (menu-IsPlain, (plain (codes "Exit") _ refl, tt)),
            ),
          )
          e)

  login-LandsPlain : (s : Session S) → Lands IsPlain (login api none s)
  unfolding routes
  login-LandsPlain s =
      login-Lands IsPlain api menu-IsPlain none s (plain (codes "Register") _ refl) manager-IsPlain

  -- A table all of whose pages land so has only such pages.
  get-LandsPlain :
      (table : List (Text × Page S))
      → All (λ r. LandsPlain r.1) table
      → (name : Text) (page : Page S) → JsMap.get name table ≡ some page
      → LandsPlain page
  get-LandsPlain [] ps name page e = cc e
  get-LandsPlain ((n, p) ∷ table) (h, hs) name page e = elim (Bool-cases (n == name)) [
    | inl same ↦
        let x : ◌≡◌ {A = Option (Page S)} (some p) (some page) = rw same at e in
        subst LandsPlain (some-injective x) h
    | inr other ↦ get-LandsPlain table hs name page (rw other at e)
  ]

  routes-LandsPlain : All (λ r. LandsPlain r.1) (routes env api desk)
  unfolding routes
  routes-LandsPlain = (
    index-LandsPlain,
    (
      (λ s. register-Lands IsPlain api menu-IsPlain none s manager-IsPlain),
      (
        login-LandsPlain,
        (
          chats_page-Lands IsPlain env api desk menu-IsPlain none,
          (
            chat_page-Lands IsPlain env api desk menu-IsPlain none,
            (
              local_key_manager-LandsPlain,
              (
                (λ s. store-Lands IsPlain desk menu-IsPlain none s (λ f e. cc e)),
                (
                  (λ s.
                      retrieve-Lands IsPlain desk menu-IsPlain none s store-IsPlain (λ f e. cc e)),
                  ((λ s. tt), tt),
                ),
              ),
            ),
          ),
        ),
      ),
    ),
  )

  -- The route with its parameter, and the session when it is shown: the main menu at the start of the
  -- client, and what a route that is shown navigates to, with whatever answers come then.
  pub data Shown : Text → Option Text → Session S → Type 0 where
    started : (s : Session S) → Shown (codes "Index") none s
    led :
        {name n : Text} {from f : Option Text} {s s' : Session S} (answers : List Answer)
        → Shown name from s
        → render env api desk name from s ≡ (navigates n f, s')
        → Shown n f (with_answers answers s')

  render-LandsPlain :
      (name : Text) (s : Session S) → Lands IsPlain (render env api desk name none s)
  unfolding render
  render-LandsPlain name s = go (JsMap.get name (routes env api desk)) refl
    where
      go :
          (o : Option (Page S))
          → JsMap.get name (routes env api desk) ≡ o
          → Lands IsPlain (render_route env api desk o none s)
      go none e = tt
      go (some page) e = get-LandsPlain (routes env api desk) routes-LandsPlain name page e s

  -- Whatever is answered, and whatever the server does: each page that the client comes to has a route in
  -- the table, and is shown without the parameter `from`.
  pub shown-IsRoute :
      {name : Text} {from : Option Text} {s : Session S}
      → Shown name from s
      → IsRoute name × (from ≡ none)
  shown-IsRoute (started s) = menu-IsPlain
  shown-IsRoute (led {name} {n} {from} {f} {s} {s'} answers shown e) =
      let (known, none_) = shown-IsRoute shown in
      subst (Lands IsPlain) e (
        subst (λ o. Lands IsPlain (render env api desk name o s)) (sym none_)
          (render-LandsPlain name s))
