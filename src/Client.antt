-- ===== src/Client.antt =====
-- What the command line client keeps (cli/context.ts, cli/database), and the functions that change it.
-- The server behind the HTTP interface (cli/api) is a parameter, a state of its own.
pub mod Repository
pub mod Bundles
pub mod Setup
pub mod Identity
pub mod Counts
pub mod Stock
pub mod FirstSetup
pub mod Trust
pub mod Fixtures
mod Tests
use nerdhub_chat_cli_prototy.Common.{ℕ, Bool, Option, none, some, List, Text}
use nerdhub_chat_cli_prototy.LocalEncryption.{LocalEncryptionService}

-- a row of the table of prekey bundles
pub record BundleRow : Type 0 where
  pub user_id : ℕ
  pub pub_identity_key : Text
  pub priv_identity_key : Text
  pub pub_signed_prekey : Text
  pub signed_prekey_signature : Text
  pub priv_signed_prekey : Text
  pub is_published : Bool
  pub participant_id : Option ℕ
  pub created_at : ℕ
  pub updated_at : ℕ

-- a row of the table of one-time prekeys
pub record OnetimeRow : Type 0 where
  pub id : Text
  pub pub_key : Text
  pub priv_key : Text
  pub is_published : Bool
  pub user_id : ℕ
  pub participant_id : Option ℕ
  pub created_at : ℕ
  pub updated_at : ℕ

pub record Store : Type 0 where
  pub bundles : List BundleRow
  pub onetime_prekeys : List OnetimeRow

-- CLIContextPreKeyBundle; a key pair is the private key and the public one.
pub record ContextBundle : Type 0 where
  pub identity_key : Text × Text
  pub signed_prekey : Text × Text
  pub signed_prekey_signature : Text

-- the fields of the server's participant that the client reads
pub record Participant : Type 0 where
  pub id : ℕ
  pub pub_identity_key : Text

-- The context, the local tables, the service for encryption, how many key pairs were generated, and
-- the server. The user is there exactly while `isAuthenticated` is set.
pub record Client (S : Type 0) : Type 0 where
  pub user_id : Option ℕ
  pub local_encryption_key : Option Text
  pub participant : Option Participant
  pub prekey_bundle : Option ContextBundle
  pub jwt : Text
  pub store : Store
  pub service : LocalEncryptionService
  pub generated : ℕ
  pub server : S

-- How a step ends: it gives a value, it throws, or it goes back to the main menu.
pub data End {ℓ} (A : Type ℓ) : Type ℓ where
  done : A → End A
  throws leaves : End A

abbrev pub Step {ℓ} : Type 0 → Type ℓ → Type ℓ
Step S A = Client S → End A × Client S

abbrev pub pure {ℓ} : {S : Type 0} {A : Type ℓ} → A → Step S A
pure a c = (done a, c)

abbrev pub resume {ℓ κ} :
    {S : Type 0} {A : Type ℓ} {B : Type κ} → (A → Step S B) → End A × Client S → End B × Client S
resume f (done a, c) = f a c
resume f (throws, c) = (throws, c)
resume f (leaves, c) = (leaves, c)

infixl 5 ◌>>=◌ ◌>>◌
abbrev pub ◌>>=◌ {ℓ κ} :
    {S : Type 0} {A : Type ℓ} {B : Type κ} → Step S A → (A → Step S B) → Step S B
◌>>=◌ m f c = resume f (m c)

abbrev pub ◌>>◌ {ℓ κ} : {S : Type 0} {A : Type ℓ} {B : Type κ} → Step S A → Step S B → Step S B
m >> k = m >>= λ _. k

-- a change of the local tables that throws where it gives none
abbrev pub stored : {S : Type 0} → Option Store → Step S (Unit {0})
stored none c = (throws, c)
stored (some store) c = (done tt, record c { store = store })

abbrev pub given {ℓ} : {S : Type 0} {A : Type ℓ} → Option A → Step S A
given none c = (throws, c)
given (some a) c = (done a, c)

-- The HTTP interface, each request with the token; a response that is not ok throws. Bodies are in
-- base64.
pub record Api (S : Type 0) : Type 0 where
  pub create_participant : Text → ℕ → Text × Text × Text → S → Option Participant × S
  pub update_bundle : Text → ℕ → ℕ → Text × Text × Text → S → Option Participant × S
  pub create_many : Text → ℕ → ℕ → List (Text × Text) → Bool → S → Bool × S
  pub get_access_token : Text → S → Option Text × S
