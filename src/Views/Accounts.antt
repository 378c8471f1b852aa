-- ===== src/Views/Accounts.antt =====
-- The views to register and to log in (cli/ui/register.ui.ts, cli/ui/login.ui.ts).
pub mod Login
pub mod Register
pub mod Rounds
pub mod Taken
pub mod Visible
use nerdhub_chat_cli_prototy.Common.{
  ℕ, zero, suc, Bool, true, false, not, ◌&&◌, ◌||◌, Option, none, some, List, [], ◌∷◌, String, Text,
  codes, ◌==◌, nat_same, text_same, string_same, if◌then◌else◌, leb, length,
}
use nerdhub_chat_cli_prototy.Client.{Client, Participant}
use nerdhub_chat_cli_prototy.Users.{Body, truthy_field}
use nerdhub_chat_cli_prototy.Views.{
  Answer, typed, Session, Finish, done, throws, waits, View, pure, resume, ◌>>=◌, ◌>>◌, navigate,
  fail, with_answers, select, confirm, press, input, accept,
}

pub record Registration : Type 0 where
  pub firstname : Text
  pub lastname : Text
  pub username : Text
  pub email : Text
  pub password : Text
  pub password_confirmation : Text

-- what the server tells of an account
pub record Account : Type 0 where
  pub user_id : ℕ
  pub participant : Option Participant
  pub access_token : Text

-- A request is accepted, answered with a status that is not ok, or fails otherwise.
pub data Reply : Type 0 where
  accepted : Account → Reply
  refused failed : Reply

-- What a prompt without a transformation gives for a text that it takes: its library trims the text. And
-- the requests; none where one throws.
pub record AccountsApi (S : Type 0) : Type 0 where
  pub trimmed : Text → Text
  pub register : Registration → S → Reply × S
  pub login : Text → Text → S → Reply × S
  pub username_exists : Text → S → Option Body × S
  pub email_exists : Text → S → Option Body × S

-- `/^[a-zA-Z0-9]+$/`, but for the empty text
abbrev pub is_alphanumeric : ℕ → Bool
is_alphanumeric c =
    (leb b'a' c && leb c b'z') || (leb b'A' c && leb c b'Z') || (leb b'0' c && leb c b'9')

abbrev pub all_units : (ℕ → Bool) → Text → Bool
all_units p [] = true
all_units p (c ∷ s) = p c && all_units p s

abbrev pub is_user_unit : ℕ → Bool
is_user_unit c = is_alphanumeric c || c == b'_' || c == b'.' || c == b'+' || c == b'-'

abbrev pub is_host_unit : ℕ → Bool
is_host_unit c = is_alphanumeric c || c == b'-'

abbrev pub is_last_unit : ℕ → Bool
is_last_unit c = is_alphanumeric c || c == b'-' || c == b'.'

-- what `/[a-zA-Z0-9-.]+$/` matches
abbrev pub is_domain_end : Text → Bool
is_domain_end [] = false
is_domain_end (c ∷ s) = all_units is_last_unit (c ∷ s)

-- units of a kind, at least one unless some came before, then a separator and what the rest must be;
-- the separator is not of the kind
unfoldable pub split_at : (ℕ → Bool) → ℕ → (Text → Bool) → Bool → Text → Bool
split_at kind separator rest some_before [] = false
split_at kind separator rest some_before (c ∷ s) =
    let more = split_at kind separator rest true s in
    if c == separator then some_before && rest s else kind c && more

-- `/^[a-zA-Z0-9_.+-]+@[a-zA-Z0-9-]+\.[a-zA-Z0-9-.]+$/`
abbrev pub is_email : Text → Bool
is_email = split_at is_user_unit b'@' (split_at is_host_unit b'.' is_domain_end false) false

abbrev pub has_length : ℕ → Text → Bool
has_length n t = leb n (length t)

abbrev pub of_length : {S : Type 0} → ℕ → Text → View S Bool
of_length n t = pure (has_length n t)

abbrev pub with_server : {S : Type 0} → S → Session S → Session S
with_server server s = record s { client = record s.client { server = server } }

module _ {S : Type 0} (api : AccountsApi S) where
  -- `validate` of the username; where the request throws, the name is taken to be free
  abbrev pub username_answered : Session S → Option Body × S → Finish Bool × Session S
  username_answered s (none, server) = (done true, with_server server s)
  username_answered s (some body, server) =
      (done (not (truthy_field "usernameExists" body)), with_server server s)

  unfoldable pub validate_username : Text → View S Bool
  validate_username [] s = (done false, s)
  validate_username (c ∷ u) s =
      if all_units is_alphanumeric (c ∷ u)
      then username_answered s (api.username_exists (c ∷ u) s.client.server)
      else (done false, s)

  abbrev pub email_answered : Session S → Option Body × S → Finish Bool × Session S
  email_answered s (none, server) = (throws, with_server server s)
  email_answered s (some body, server) =
      (done (not (truthy_field "emailExists" body)), with_server server s)

  unfoldable pub validate_email : Text → View S Bool
  validate_email [] s = (done false, s)
  validate_email (c ∷ u) s =
      if is_email (c ∷ u)
      then email_answered s (api.email_exists (c ∷ u) s.client.server)
      else (done false, s)

  -- The confirmation is asked for until it is the password.
  unfoldable pub confirm_password : Text → Text → List Answer → View S Text
  confirm_password password confirmation [] s =
      if password == confirmation then (done confirmation, s) else (waits, s)
  confirm_password password confirmation (typed t ∷ rest) s =
      let again = confirm_password password (api.trimmed t) rest in
      if password == confirmation then (done confirmation, s) else again (with_answers rest s)
  confirm_password password confirmation (answer ∷ rest) s =
      if password == confirmation then (done confirmation, s) else (waits, s)

  unfoldable pub fill_details : View S Registration
  fill_details = do
    firstname ← input (of_length 1)
    lastname ← input (of_length 1)
    username ← input validate_username
    email ← input validate_email
    password ← input (of_length 8)
    first ← input accept
    confirmation ← (λ s. confirm_password (api.trimmed password) (api.trimmed first) s.answers s)
    pure (record {
      firstname = api.trimmed firstname;
      lastname = api.trimmed lastname;
      username = api.trimmed username;
      email = api.trimmed email;
      password = api.trimmed password;
      password_confirmation = confirmation;
    })

  -- the user decides after a failure: true for another try
  abbrev pub try_again : Bool → View S (Unit {0})
  try_again true = pure tt
  try_again false = navigate (codes "Index") none

  abbrev pub sign_in_new : Account → View S (Unit {0})
  sign_in_new a s = (
    done tt,
    record s { client = record s.client { user_id = some a.user_id; jwt = a.access_token } },
  )

  abbrev pub retry : View S (Unit {0}) → View S (Unit {0})
  retry again = do answer ← confirm; try_again answer; again

  abbrev pub registered : View S (Unit {0}) → Session S → Reply × S → Finish (Unit {0}) × Session S
  registered again s (accepted a, server) = (press >> sign_in_new a) (with_server server s)
  registered again s (refused, server) = retry again (with_server server s)
  registered again s (failed, server) = retry again (with_server server s)

  abbrev pub send_registration : View S (Unit {0}) → Registration → View S (Unit {0})
  send_registration again r s = registered again s (api.register r s.client.server)

  -- Each round takes answers: one more round than there are answers is enough.
  unfoldable pub register_rounds : ℕ → View S (Unit {0})
  register_rounds zero s = (waits, s)
  register_rounds (suc rounds) s =
      let again = register_rounds rounds in (fill_details >>= send_registration again) s

  unfoldable pub register : Option Text → View S (Unit {0})
  register from = do
    (λ s. register_rounds (suc (length s.answers)) s)
    navigate (codes "LocalKeyManager") from

  abbrev pub sign_in : Account → View S (Unit {0})
  sign_in a s = (
    done tt,
    record s {
      client = record s.client {
        user_id = some a.user_id;
        participant = a.participant;
        jwt = a.access_token;
      };
    },
  )

  abbrev pub logged_in : View S (Unit {0}) → Session S → Reply × S → Finish (Unit {0}) × Session S
  logged_in again s (accepted a, server) = sign_in a (with_server server s)
  logged_in again s (refused, server) = retry again (with_server server s)
  logged_in again s (failed, server) = (throws, with_server server s)

  abbrev pub send_credentials : View S (Unit {0}) → Text → Text → View S (Unit {0})
  send_credentials again email password s =
      logged_in again s (api.login email password s.client.server)

  unfoldable pub login_rounds : ℕ → View S (Unit {0})
  login_rounds zero s = (waits, s)
  login_rounds (suc rounds) s =
      let again = login_rounds rounds in
      (input accept >>= λ email. input accept >>= λ password.
      send_credentials again (api.trimmed email) (api.trimmed password))
        s

  abbrev pub proceed : Option Text → String → View S (Unit {0})
  proceed from answer = if answer == "true" then pure tt else navigate (codes "Register") from

  unfoldable pub login : Option Text → View S (Unit {0})
  login from = do
    answer ← select ("true" ∷ "false" ∷ [])
    proceed from answer
    (λ s. login_rounds (suc (length s.answers)) s)
    navigate (codes "LocalKeyManager") from
