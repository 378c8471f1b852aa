-- ===== src/Views/Keys/Paths.antt =====
-- How the views of the key come to a path: they take answers.
use nerdhub_chat_cli_prototy.Common.{
  ℕ, ◌≡◌, sym, ap, subst, ◌∙◌, Bool, true, false, Option, none, some, [], ◌∷◌, ◌++◌, Text,
}
use mathlib.Core.List.{append_assoc}
use nerdhub_chat_cli_prototy.Views.{typed, Session, Finish, done, View, pure, ◌>>=◌, input}
use nerdhub_chat_cli_prototy.Views.Prompts.{
  resume-done, Takes, Takes-with_answers, Takes-refl, input_from_lem,
}
use nerdhub_chat_cli_prototy.Views.Keys.{Desk, path_of}

module _ {S : Type 0} where
  pub mapped_input-Takes :
      (p : Text → Bool) (g : Text → Text) (s s' : Session S) (path : Text)
      → (input (λ u. pure (p u)) >>= λ value. pure (g value)) s ≡ (done path, s')
      → Takes s s'
  mapped_input-Takes p g s s' path h =
      let (value, t, e, rest) = resume-done _ (input (λ u. pure (p u)) s) path s' h in
      let (taken, left, a, b, good) = input_from_lem p s.answers s t value e in
      let same : t ≡ s' = ap (λ (x : Finish Text × Session S). x.1) rest in
      Takes-with_answers s s' (taken ++ typed value ∷ []) left (sym same ∙ b)
        (a ∙ sym (append_assoc taken (typed value ∷ []) left))

  given-Takes : (s s' : Session S) (a b : Text) → pure {S = S} a s ≡ (done b, s') → Takes s s'
  given-Takes s s' a b h =
      subst (Takes s) (ap (λ (x : Finish Text × Session S). x.1) h) (Takes-refl s)

  pub path_of-Takes :
      (desk : Desk) (user : Option ℕ) (b : Bool) (provided : View S Text)
      → ((s s' : Session S) (path : Text) → provided s ≡ (done path, s') → Takes s s')
      → (s s' : Session S) (path : Text) → path_of desk user b provided s ≡ (done path, s')
      → Takes s s'
  path_of-Takes desk none b provided k s s' path h = k s s' path h
  path_of-Takes desk (some user) true provided k s s' path h = given-Takes s s' _ path h
  path_of-Takes desk (some user) false provided k s s' path h = k s s' path h
