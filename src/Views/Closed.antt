-- ===== src/Views/Closed.antt =====
-- Where the views of the command line client navigate to (cli/router/routes.ts, cli/ui).
pub mod Accounts
pub mod Keys
pub mod Pages
pub mod Table
use nerdhub_chat_cli_prototy.Common.{
  ℕ, zero, suc, ◌≡◌, refl, sym, ap, subst, ◌∙◌, inl, inr, Bool, true, false, Option, none, some,
  List, [], ◌∷◌, String, Text, codes, Bool-cases, any, All, ◌==◌, SameValue, text_same, string_same,
  if◌then◌else◌,
}
use nerdhub_chat_cli_prototy.Views.{
  Answer, typed, chosen, confirmed, pressed, Session, Finish, done, navigates, exits, throws, waits,
  View, resume, with_answers, select_from, select, confirm_from, confirm, press_from, press,
  checked, input_from, input, bottom_action, bottom_actions,
}

-- A view that ends by navigating does so to a name and a parameter `from` of which T holds.
abbrev pub Lands {ℓ κ} :
    {S : Type 0} {A : Type ℓ} → (Text → Option Text → Type κ) → Finish A × Session S → Type κ
Lands T (navigates name from, s) = T name from
Lands T (done a, s) = Unit
Lands T (exits, s) = Unit
Lands T (throws, s) = Unit
Lands T (waits, s) = Unit

module _ {κ} {S : Type 0} (T : Text → Option Text → Type κ) where
  pub either-Lands {ℓ} :
      {A : Type ℓ} (b : Bool) (x y : Finish A × Session S)
      → Lands T x
      → Lands T y
      → Lands T (if b then x else y)
  either-Lands true x y p q = p
  either-Lands false x y p q = q

  pub resume-Lands {ℓ μ} :
      {A : Type ℓ} {B : Type μ} (f : A → View S B) (r : Finish A × Session S)
      → Lands T r
      → ((a : A) (s : Session S) → r ≡ (done a, s) → Lands T (f a s))
      → Lands T (resume f r)
  resume-Lands f (done a, s) q h = h a s refl
  resume-Lands f (navigates name from, s) q h = q
  resume-Lands f (exits, s) q h = q
  resume-Lands f (throws, s) q h = q
  resume-Lands f (waits, s) q h = q

  select_from-Lands :
      (offered : List String) (answers : List Answer) (s : Session S)
      → Lands T (select_from offered answers s)
  select_from-Lands offered [] s = tt
  select_from-Lands offered (chosen c ∷ rest) s = elim (Bool-cases (any (λ o. o == c) offered)) [
    | inl e ↦ rw e tt
    | inr e ↦ rw e tt
  ]
  select_from-Lands offered (typed t ∷ rest) s = tt
  select_from-Lands offered (confirmed b ∷ rest) s = tt
  select_from-Lands offered (pressed ∷ rest) s = tt

  pub select-Lands : (offered : List String) (s : Session S) → Lands T (select offered s)
  select-Lands offered s = select_from-Lands offered s.answers s

  confirm_from-Lands : (answers : List Answer) (s : Session S) → Lands T (confirm_from answers s)
  confirm_from-Lands [] s = tt
  confirm_from-Lands (confirmed b ∷ rest) s = tt
  confirm_from-Lands (typed t ∷ rest) s = tt
  confirm_from-Lands (chosen c ∷ rest) s = tt
  confirm_from-Lands (pressed ∷ rest) s = tt

  pub confirm-Lands : (s : Session S) → Lands T (confirm s)
  confirm-Lands s = confirm_from-Lands s.answers s

  press_from-Lands : (answers : List Answer) (s : Session S) → Lands T (press_from answers s)
  press_from-Lands [] s = tt
  press_from-Lands (pressed ∷ rest) s = tt
  press_from-Lands (typed t ∷ rest) s = tt
  press_from-Lands (chosen c ∷ rest) s = tt
  press_from-Lands (confirmed b ∷ rest) s = tt

  pub press-Lands : (s : Session S) → Lands T (press s)
  press-Lands s = press_from-Lands s.answers s

  checked-Lands :
      (again : View S Text) (t : Text) (r : Finish Bool × Session S)
      → ((s : Session S) → Lands T (again s))
      → Lands T r
      → Lands T (checked again t r)
  checked-Lands again t (done true, s) h q = tt
  checked-Lands again t (done false, s) h q = h s
  checked-Lands again t (navigates name from, s) h q = q
  checked-Lands again t (exits, s) h q = tt
  checked-Lands again t (throws, s) h q = tt
  checked-Lands again t (waits, s) h q = tt

  input_from-Lands :
      (check : Text → View S Bool)
      → ((t : Text) (s : Session S) → Lands T (check t s))
      → (answers : List Answer) (s : Session S) → Lands T (input_from check answers s)
  unfolding input_from
  input_from-Lands check keep [] s = tt
  input_from-Lands check keep (typed t ∷ rest) s =
      checked-Lands (input_from check rest) t (check t (with_answers rest s))
        (input_from-Lands check keep rest) (keep t (with_answers rest s))
  input_from-Lands check keep (chosen c ∷ rest) s = tt
  input_from-Lands check keep (confirmed b ∷ rest) s = tt
  input_from-Lands check keep (pressed ∷ rest) s = tt

  pub input-Lands :
      (check : Text → View S Bool)
      → ((t : Text) (s : Session S) → Lands T (check t s))
      → (s : Session S) → Lands T (input check s)
  input-Lands check keep s = input_from-Lands check keep s.answers s

  pub bottom_actions-Lands : T (codes "Index") none → (s : Session S) → Lands T (bottom_actions s)
  bottom_actions-Lands index s =
      resume-Lands bottom_action (select ("MainMenu" ∷ "Exit" ∷ []) s)
        (select-Lands ("MainMenu" ∷ "Exit" ∷ []) s)
        (λ a s1 e. elim (Bool-cases (a == "MainMenu")) [
          | inl x ↦ rw x index
          | inr x ↦ rw x (elim (Bool-cases (a == "Exit")) [ inl y ↦ rw y tt | inr y ↦ rw y tt ])
        ])
