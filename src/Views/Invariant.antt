-- ===== src/Views/Invariant.antt =====
-- Properties of the session that a view keeps, however it ends.
use nerdhub_chat_cli_prototy.Common.{
  ◌≡◌, refl, sym, ap, ◌∙◌, inl, inr, Bool, true, false, List, [], ◌∷◌, String, Text, Bool-cases,
  any, ◌==◌, string_same,
}
use nerdhub_chat_cli_prototy.Views.{
  Answer, typed, chosen, confirmed, pressed, Session, Finish, done, navigates, exits, throws, waits,
  View, resume, with_answers, select_from, select, confirm_from, confirm, press_from, press,
  checked, input_from, input,
}

abbrev pub Holds {ℓ κ} :
    {S : Type 0} {A : Type ℓ} → (Session S → Type κ) → Finish A × Session S → Type κ
Holds Q r = Q r.1

pub resume-Holds {ℓ κ μ} :
    {S : Type 0} {A : Type ℓ} {B : Type κ} (Q : Session S → Type μ) (f : A → View S B)
    (r : Finish A × Session S)
    → Q r.1
    → ((a : A) (s : Session S) → r ≡ (done a, s) → Q s → Holds Q (f a s))
    → Holds Q (resume f r)
resume-Holds Q f (done a, s) q h = h a s refl q
resume-Holds Q f (navigates name from, s) q h = q
resume-Holds Q f (exits, s) q h = q
resume-Holds Q f (throws, s) q h = q
resume-Holds Q f (waits, s) q h = q

module _ {κ} {S : Type 0} (Q : Session S → Type κ)
    (answered : (rest : List Answer) (s : Session S) → Q s → Q (with_answers rest s)) where
  select_from-Holds :
      (offered : List String) (answers : List Answer) (s : Session S)
      → Q s
      → Holds Q (select_from offered answers s)
  select_from-Holds offered [] s q = q
  select_from-Holds offered (chosen c ∷ rest) s q = elim (Bool-cases (any (λ o. o == c) offered)) [
    | inl there ↦ rw there (answered rest s q)
    | inr other ↦ rw other q
  ]
  select_from-Holds offered (typed t ∷ rest) s q = q
  select_from-Holds offered (confirmed b ∷ rest) s q = q
  select_from-Holds offered (pressed ∷ rest) s q = q

  pub select-Holds : (offered : List String) (s : Session S) → Q s → Holds Q (select offered s)
  select-Holds offered s q = select_from-Holds offered s.answers s q

  confirm_from-Holds :
      (answers : List Answer) (s : Session S) → Q s → Holds Q (confirm_from answers s)
  confirm_from-Holds [] s q = q
  confirm_from-Holds (confirmed b ∷ rest) s q = answered rest s q
  confirm_from-Holds (typed t ∷ rest) s q = q
  confirm_from-Holds (chosen c ∷ rest) s q = q
  confirm_from-Holds (pressed ∷ rest) s q = q

  pub confirm-Holds : (s : Session S) → Q s → Holds Q (confirm s)
  confirm-Holds s q = confirm_from-Holds s.answers s q

  press_from-Holds : (answers : List Answer) (s : Session S) → Q s → Holds Q (press_from answers s)
  press_from-Holds [] s q = q
  press_from-Holds (pressed ∷ rest) s q = answered rest s q
  press_from-Holds (typed t ∷ rest) s q = q
  press_from-Holds (chosen c ∷ rest) s q = q
  press_from-Holds (confirmed b ∷ rest) s q = q

  pub press-Holds : (s : Session S) → Q s → Holds Q (press s)
  press-Holds s q = press_from-Holds s.answers s q

  checked-Holds :
      (again : View S Text) (t : Text) (r : Finish Bool × Session S)
      → ((s : Session S) → Q s → Holds Q (again s))
      → Q r.1
      → Holds Q (checked again t r)
  checked-Holds again t (done true, s) h q = q
  checked-Holds again t (done false, s) h q = h s q
  checked-Holds again t (navigates name from, s) h q = q
  checked-Holds again t (exits, s) h q = q
  checked-Holds again t (throws, s) h q = q
  checked-Holds again t (waits, s) h q = q

  input_from-Holds :
      (check : Text → View S Bool)
      → ((t : Text) (s : Session S) → Q s → Holds Q (check t s))
      → (answers : List Answer) (s : Session S) → Q s
      → Holds Q (input_from check answers s)
  unfolding input_from
  input_from-Holds check keep [] s q = answered [] s q
  input_from-Holds check keep (typed t ∷ rest) s q =
      checked-Holds (input_from check rest) t (check t (with_answers rest s))
        (input_from-Holds check keep rest) (keep t (with_answers rest s) (answered rest s q))
  input_from-Holds check keep (chosen c ∷ rest) s q = answered (chosen c ∷ rest) s q
  input_from-Holds check keep (confirmed b ∷ rest) s q = answered (confirmed b ∷ rest) s q
  input_from-Holds check keep (pressed ∷ rest) s q = answered (pressed ∷ rest) s q

  pub input-Holds :
      (check : Text → View S Bool)
      → ((t : Text) (s : Session S) → Q s → Holds Q (check t s))
      → (s : Session S) → Q s
      → Holds Q (input check s)
  input-Holds check keep s q = input_from-Holds check keep s.answers s q

module _ {S : Type 0} where
  checked-passes :
      (again : View S Text) (check : Text → View S Bool) (t u : Text) (s0 s' : Session S)
      (r : Finish Bool × Session S)
      → check t s0 ≡ r
      → ((s : Session S)
          → again s ≡ (done u, s')
          → (s1 : Session S) × (s2 : Session S) × (check u s1 ≡ (done true, s2)))
      → checked again t r ≡ (done u, s')
      → (s1 : Session S) × (s2 : Session S) × (check u s1 ≡ (done true, s2))
  checked-passes again check t u s0 s' (done true, s) e h k =
      let same : t ≡ u = cc k in (s0, s, ap (λ v. check v s0) (sym same) ∙ e)
  checked-passes again check t u s0 s' (done false, s) e h k = h s k
  checked-passes again check t u s0 s' (navigates name from, s) e h k = cc k
  checked-passes again check t u s0 s' (exits, s) e h k = cc k
  checked-passes again check t u s0 s' (throws, s) e h k = cc k
  checked-passes again check t u s0 s' (waits, s) e h k = cc k

  input_from-passes :
      (check : Text → View S Bool) (answers : List Answer) (s s' : Session S) (u : Text)
      → input_from check answers s ≡ (done u, s')
      → (s1 : Session S) × (s2 : Session S) × (check u s1 ≡ (done true, s2))
  unfolding input_from
  input_from-passes check [] s s' u k = cc k
  input_from-passes check (typed t ∷ rest) s s' u k =
      checked-passes (input_from check rest) check t u (with_answers rest s) s'
        (check t (with_answers rest s)) refl (λ s3 k'. input_from-passes check rest s3 s' u k') k
  input_from-passes check (chosen c ∷ rest) s s' u k = cc k
  input_from-passes check (confirmed b ∷ rest) s s' u k = cc k
  input_from-passes check (pressed ∷ rest) s s' u k = cc k

  -- A text that a prompt gives has passed its check.
  pub input-passes :
      (check : Text → View S Bool) (s s' : Session S) (u : Text)
      → input check s ≡ (done u, s')
      → (s1 : Session S) × (s2 : Session S) × (check u s1 ≡ (done true, s2))
  input-passes check s s' u k = input_from-passes check s.answers s s' u k
