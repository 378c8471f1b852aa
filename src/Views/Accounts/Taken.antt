-- ===== src/Views/Accounts/Taken.antt =====
-- What the register view makes of the server's answers on names and addresses (cli/ui/register.ui.ts
-- with server/controller/user.controller.ts).
use nerdhub_chat_cli_prototy.Common.{
  ℕ, ◌≡◌, ap, ◌∙◌, true, false, some, ◌∷◌, Text, if◌then◌else◌, inr,
}
use nerdhub_chat_cli_prototy.Persistence.{Database, Sql}
use nerdhub_chat_cli_prototy.Users.{
  Body, email_checked, handle_check_username_exists, handle_check_email_exists,
}
use nerdhub_chat_cli_prototy.Views.{Session, done}
use nerdhub_chat_cli_prototy.Views.Accounts.{
  AccountsApi, is_alphanumeric, all_units, is_email, with_server, username_answered,
  validate_username, email_answered, validate_email,
}

module _ {S : Type 0} (api : AccountsApi S) (sql : Sql) (db : Database) where
  -- Whatever the tables hold: where the server answers the check of a user name of letters and digits,
  -- or of an address of the right form, with the bodies of its controller, the register view takes the
  -- name and the address to be free.
  pub taken-accepted :
      (c : ℕ) (u : Text) (s : Session S) (server : S) (d : ℕ) (e : Text) (t : Session S)
      (server' : S) (body : Body)
      → all_units is_alphanumeric (c ∷ u) ≡ true
      → is_email (d ∷ e) ≡ true
      → api.username_exists (c ∷ u) s.client.server
        ≡ (some (handle_check_username_exists sql (c ∷ u) db), server)
      → api.email_exists (d ∷ e) t.client.server ≡ (some body, server')
      → handle_check_email_exists sql (some (d ∷ e)) db ≡ inr body
      → (validate_username api (c ∷ u) s ≡ (done true, with_server server s))
        × (validate_email api (d ∷ e) t ≡ (done true, with_server server' t))
  unfolding validate_username validate_email handle_check_username_exists handle_check_email_exists
  taken-accepted c u s server d e t server' body name address h k b =
      let same : body ≡ email_checked sql (d ∷ e) db = cc b in
      (
        ap
              (λ x.
                if x
                then username_answered api s (api.username_exists (c ∷ u) s.client.server)
                else (done false, s))
              name
            ∙ ap (username_answered api s) h,
        ap
              (λ x.
                if x
                then email_answered api t (api.email_exists (d ∷ e) t.client.server)
                else (done false, t))
              address
            ∙ ap (email_answered api t) k
            ∙ ap (λ x. email_answered api t (some x, server')) same,
      )
