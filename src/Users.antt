-- ===== src/Users.antt =====
-- The existence checks of accounts (server/controller/user.controller.ts). A body is its fields; a handler
-- throws where it gives an error.
use nerdhub_chat_cli_prototy.Common.{
  Bool, true, false, Option, none, some, List, [], ◌∷◌, String, Text, string_same, ◌⊎◌, inl, inr,
}
use nerdhub_chat_cli_prototy.Common.JsMap
use nerdhub_chat_cli_prototy.Persistence.{Database, Sql, username_exists, email_exists}
use nerdhub_chat_cli_prototy.Auth.{Error, request_exception}

pub data Field : Type 0 where
  flag : Bool → Field
  words : Text → Field

abbrev pub Body : Type 0
Body = List (String × Field)

-- Is a field there and neither false nor the empty text?
abbrev is_set : Option Field → Bool
is_set none = false
is_set (some (flag b)) = b
is_set (some (words [])) = false
is_set (some (words (c ∷ s))) = true

abbrev pub truthy_field : String → Body → Bool
truthy_field name body = is_set (JsMap.get name body)

module _ (sql : Sql) where
  unfoldable pub handle_check_username_exists : Text → Database → Body
  handle_check_username_exists username db =
      ("exists", flag (username_exists sql username db)) ∷ ("username", words username) ∷ []

  abbrev pub email_checked : Text → Database → Body
  email_checked email db =
      ("exists", flag (email_exists sql email db)) ∷ ("email", words email) ∷ []

  -- The body, or the error where the query has no address.
  unfoldable pub handle_check_email_exists : Option Text → Database → Error ⊎ Body
  handle_check_email_exists none db =
      inl (request_exception 422 "The `email` query parameter is required")
  handle_check_email_exists (some []) db =
      inl (request_exception 422 "The `email` query parameter is required")
  handle_check_email_exists (some (c ∷ s)) db = inr (email_checked (c ∷ s) db)
