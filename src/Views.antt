-- ===== src/Views.antt =====
-- The views of the command line client (cli/ui) and the router that renders them (cli/router). A view
-- reads what the user answers to prompts, and ends by navigating, by leaving the process, or by an
-- error. Console output is left out.
pub mod Prompts
pub mod Invariant
pub mod Keys
pub mod Accounts
pub mod Routes
pub mod Guards
pub mod Closed
mod Tests
use nerdhub_chat_cli_prototy.Common.{
  ℕ, Bool, true, false, ◌||◌, Option, none, some, List, [], ◌∷◌, String, Text, codes, ◌==◌,
  string_same, any, if◌then◌else◌,
}
use nerdhub_chat_cli_prototy.KeyStorage.{Files}
use nerdhub_chat_cli_prototy.Client.{Client}

-- What the user gives to a prompt: a text, one of the options, yes or no, or a key.
pub data Answer : Type 0 where
  typed : Text → Answer
  chosen : String → Answer
  confirmed : Bool → Answer
  pressed : Answer

-- The context of the client, the files under their resolved paths, and the answers to come.
pub record Session (S : Type 0) : Type 0 where
  pub client : Client S
  pub files : Files
  pub answers : List Answer

-- How a view ends. `navigate` puts the name of a route and the parameter `from` in the router and throws;
-- `waits` is a prompt whose answer is not there, or is none that it takes.
pub data Finish {ℓ} (A : Type ℓ) : Type ℓ where
  done : A → Finish A
  navigates : Text → Option Text → Finish A
  exits throws waits : Finish A

abbrev pub View {ℓ} : Type 0 → Type ℓ → Type ℓ
View S A = Session S → Finish A × Session S

abbrev pub pure {ℓ} : {S : Type 0} {A : Type ℓ} → A → View S A
pure a s = (done a, s)

abbrev pub resume {ℓ κ} :
    {S : Type 0} {A : Type ℓ} {B : Type κ}
    → (A → View S B)
    → Finish A × Session S
    → Finish B × Session S
resume f (done a, s) = f a s
resume f (navigates name from, s) = (navigates name from, s)
resume f (exits, s) = (exits, s)
resume f (throws, s) = (throws, s)
resume f (waits, s) = (waits, s)

infixl 5 ◌>>=◌ ◌>>◌
abbrev pub ◌>>=◌ {ℓ κ} :
    {S : Type 0} {A : Type ℓ} {B : Type κ} → View S A → (A → View S B) → View S B
◌>>=◌ m f s = resume f (m s)

abbrev pub ◌>>◌ {ℓ κ} : {S : Type 0} {A : Type ℓ} {B : Type κ} → View S A → View S B → View S B
m >> k = m >>= λ _. k

abbrev pub navigate {ℓ} : {S : Type 0} {A : Type ℓ} → Text → Option Text → View S A
navigate name from s = (navigates name from, s)

abbrev pub exit {ℓ} : {S : Type 0} {A : Type ℓ} → View S A
exit s = (exits, s)

abbrev pub fail {ℓ} : {S : Type 0} {A : Type ℓ} → View S A
fail s = (throws, s)

abbrev pub with_answers : {S : Type 0} → List Answer → Session S → Session S
with_answers rest s = record s { answers = rest }

-- a choice among the options that are not disabled
abbrev pub select_from : {S : Type 0} → List String → List Answer → View S String
select_from offered (chosen c ∷ rest) s =
    if any (λ o. o == c) offered then (done c, with_answers rest s) else (waits, s)
select_from offered answers s = (waits, s)

abbrev pub select : {S : Type 0} → List String → View S String
select offered s = select_from offered s.answers s

abbrev pub confirm_from : {S : Type 0} → List Answer → View S Bool
confirm_from (confirmed b ∷ rest) s = (done b, with_answers rest s)
confirm_from answers s = (waits, s)

abbrev pub confirm : {S : Type 0} → View S Bool
confirm s = confirm_from s.answers s

abbrev pub press_from : {S : Type 0} → List Answer → View S (Unit {0})
press_from (pressed ∷ rest) s = (done tt, with_answers rest s)
press_from answers s = (waits, s)

abbrev pub press : {S : Type 0} → View S (Unit {0})
press s = press_from s.answers s

-- A text that a check takes; the prompt asks again for any other. What the prompt then gives for the
-- text is up to its transformation, which stands where a view uses the text.
abbrev pub checked :
    {S : Type 0} → View S Text → Text → Finish Bool × Session S → Finish Text × Session S
checked again t (done true, s) = (done t, s)
checked again t (done false, s) = again s
checked again t (navigates name from, s) = (navigates name from, s)
checked again t (exits, s) = (exits, s)
checked again t (throws, s) = (throws, s)
checked again t (waits, s) = (waits, s)

unfoldable pub input_from : {S : Type 0} → (Text → View S Bool) → List Answer → View S Text
input_from check [] s = (waits, with_answers [] s)
input_from check (typed t ∷ rest) s =
    let again = input_from check rest in checked again t (check t (with_answers rest s))
input_from check (answer ∷ rest) s = (waits, with_answers (answer ∷ rest) s)

abbrev pub input : {S : Type 0} → (Text → View S Bool) → View S Text
input check s = input_from check s.answers s

abbrev pub accept : {S : Type 0} → Text → View S Bool
accept t = pure true

-- bottomActionsUI, where no other actions are given
abbrev pub bottom_action : {S : Type 0} → String → View S (Unit {0})
bottom_action action =
    if action == "MainMenu"
    then navigate (codes "Index") none
    else (if action == "Exit" then exit else pure tt)

abbrev pub bottom_actions : {S : Type 0} → View S (Unit {0})
bottom_actions = select ("MainMenu" ∷ "Exit" ∷ []) >>= bottom_action
