-- ===== src/Views/Accounts/Rounds.antt =====
-- The loops of the views to log in and to register end (cli/ui/login.ui.ts, cli/ui/register.ui.ts).
use nerdhub_chat_cli_prototy.Common.{
  ℕ, zero, suc, ◌≡◌, ◌<◌, ◌≤◌, refl, ap, inl, inr, Bool, true, false, Option, none, some, List, [],
  ◌∷◌, Text, text_same, Bool-cases, length, arith, if◌then◌else◌,
}
use nerdhub_chat_cli_prototy.Users.{Body}
use nerdhub_chat_cli_prototy.Views.{
  Answer, typed, chosen, confirmed, pressed, Session, Finish, done, navigates, exits, throws, waits,
  View, pure, resume, with_answers, confirm, checked, input_from, input, accept,
}
use nerdhub_chat_cli_prototy.Views.Prompts.{resume-done, resume-agree, confirm_lem}
use nerdhub_chat_cli_prototy.Views.Accounts.{
  Registration, Reply, accepted, refused, failed, AccountsApi, is_alphanumeric, all_units, is_email,
  of_length, with_server, username_answered, validate_username, email_answered, validate_email,
  confirm_password, fill_details, try_again, retry, registered, register_rounds, logged_in,
  login_rounds,
}

-- A step that is done leaves no more answers than there were.
abbrev Shortens {ℓ} : {S : Type 0} {A : Type ℓ} → View S A → Type ℓ
Shortens {S} {A} m =
    (s s' : Session S) (a : A) → m s ≡ (done a, s') → length s'.answers ≤ length s.answers

pub bind-Shortens {ℓ κ} :
    {S : Type 0} {A : Type ℓ} {B : Type κ} (m : View S A) (f : A → View S B)
    → Shortens m
    → ((a : A) → Shortens (f a))
    → Shortens (λ s. resume f (m s))
bind-Shortens m f h k s s' b e =
    let (a, t, e1, e2) = resume-done f (m s) b s' e in
    let x = h s t a e1 in let y = k a t s' b e2 in omega arith

module _ {S : Type 0} where
  -- A check takes no answers.
  abbrev TakesNone : (Text → View S Bool) → Type 0
  TakesNone check = (t : Text) (s : Session S) → (check t s).1.answers ≡ s.answers

  checked-le :
      (again : View S Text) (t u : Text) (n : ℕ) (s' : Session S) (r : Finish Bool × Session S)
      → length r.1.answers ≤ n
      → ((s : Session S) → again s ≡ (done u, s') → length s'.answers ≤ n)
      → checked again t r ≡ (done u, s')
      → length s'.answers ≤ n
  checked-le again t u n s' (done true, s) l h e =
      let same = ap (λ (x : Finish Text × Session S). length x.1.answers) e in omega (arith, same)
  checked-le again t u n s' (done false, s) l h e = h s e
  checked-le again t u n s' (navigates name from, s) l h e = cc e
  checked-le again t u n s' (exits, s) l h e = cc e
  checked-le again t u n s' (throws, s) l h e = cc e
  checked-le again t u n s' (waits, s) l h e = cc e

  input_from-le :
      (check : Text → View S Bool)
      → TakesNone check
      → (answers : List Answer) (s s' : Session S) (u : Text)
      → input_from check answers s ≡ (done u, s')
      → length s'.answers ≤ length answers
  unfolding input_from
  input_from-le check none_ [] s s' u e = cc e
  input_from-le check none_ (typed t ∷ rest) s s' u e =
      checked-le (input_from check rest) t u (suc (length rest)) s' (check t (with_answers rest s))
        (omega (arith, ap length (none_ t (with_answers rest s))))
        (λ s1 e1. omega (arith, input_from-le check none_ rest s1 s' u e1)) e
  input_from-le check none_ (chosen c ∷ rest) s s' u e = cc e
  input_from-le check none_ (confirmed b ∷ rest) s s' u e = cc e
  input_from-le check none_ (pressed ∷ rest) s s' u e = cc e

  input-Shortens : (check : Text → View S Bool) → TakesNone check → Shortens (input check)
  input-Shortens check none_ s s' u e = input_from-le check none_ s.answers s s' u e

longer : {n m : ℕ} → n ≤ m → n ≤ suc m
longer h = omega arith

module _ {S : Type 0} (api : AccountsApi S) where
  username_answered-answers :
      (s : Session S) (o : Option Body) (server : S)
      → (username_answered api s (o, server)).1.answers ≡ s.answers
  username_answered-answers s none server = refl
  username_answered-answers s (some body) server = refl

  validate_username-TakesNone : TakesNone (validate_username api)
  unfolding validate_username
  validate_username-TakesNone [] s = refl
  validate_username-TakesNone (c ∷ u) s = elim (Bool-cases (all_units is_alphanumeric (c ∷ u))) [
    | inl good ↦ rw good (username_answered-answers s _ _)
    | inr bad ↦ rw bad refl
  ]

  email_answered-answers :
      (s : Session S) (o : Option Body) (server : S)
      → (email_answered api s (o, server)).1.answers ≡ s.answers
  email_answered-answers s none server = refl
  email_answered-answers s (some body) server = refl

  validate_email-TakesNone : TakesNone (validate_email api)
  unfolding validate_email
  validate_email-TakesNone [] s = refl
  validate_email-TakesNone (c ∷ u) s = elim (Bool-cases (is_email (c ∷ u))) [
    | inl good ↦ rw good (email_answered-answers s _ _)
    | inr bad ↦ rw bad refl
  ]

  either-le :
      (b : Bool) (t u : Text) (n : ℕ) (s s' : Session S) (r : Finish Text × Session S)
      → length s.answers ≤ n
      → (r ≡ (done u, s') → length s'.answers ≤ n)
      → (if b then (done t, s) else r) ≡ (done u, s')
      → length s'.answers ≤ n
  either-le true t u n s s' r l h e =
      let same = ap (λ (x : Finish Text × Session S). length x.1.answers) e in omega (arith, same)
  either-le false t u n s s' r l h e = h e

  confirm_password-le :
      (password confirmation : Text) (answers : List Answer) (s s' : Session S) (u : Text)
      → s.answers ≡ answers
      → confirm_password api password confirmation answers s ≡ (done u, s')
      → length s'.answers ≤ length answers
  unfolding confirm_password
  confirm_password-le password confirmation [] s s' u a e =
      either-le _ confirmation u _ s s' (waits, s) (omega (arith, ap length a)) (λ k. cc k) e
  confirm_password-le password confirmation (typed t ∷ rest) s s' u a e =
      either-le _ confirmation u _ s s' _ (omega (arith, ap length a))
        (λ k.
          longer
            (confirm_password-le password (api.trimmed t) rest (with_answers rest s) s' u refl k))
        e
  confirm_password-le password confirmation (chosen c ∷ rest) s s' u a e =
      either-le _ confirmation u _ s s' (waits, s) (omega (arith, ap length a)) (λ k. cc k) e
  confirm_password-le password confirmation (confirmed b ∷ rest) s s' u a e =
      either-le _ confirmation u _ s s' (waits, s) (omega (arith, ap length a)) (λ k. cc k) e
  confirm_password-le password confirmation (pressed ∷ rest) s s' u a e =
      either-le _ confirmation u _ s s' (waits, s) (omega (arith, ap length a)) (λ k. cc k) e

  done-Shortens : (r : Registration) → Shortens (pure {S = S} r)
  done-Shortens r s s' a e =
      let same = ap (λ (x : Finish Registration × Session S). length x.1.answers) e in
      omega (arith, same)

  fill_details-Shortens : Shortens (fill_details api)
  unfolding fill_details
  fill_details-Shortens =
      bind-Shortens _ _ (input-Shortens (of_length 1) (λ t s. refl)) (λ firstname.
        bind-Shortens _ _ (input-Shortens (of_length 1) (λ t s. refl)) (λ lastname.
          bind-Shortens _ _ (input-Shortens (validate_username api) validate_username-TakesNone)
            (λ username.
              bind-Shortens _ _ (input-Shortens (validate_email api) validate_email-TakesNone)
                (λ email.
                  bind-Shortens _ _ (input-Shortens (of_length 8) (λ t s. refl)) (λ password.
                    bind-Shortens _ _ (input-Shortens accept (λ t s. refl)) (λ first.
                      bind-Shortens _ _
                        (λ s s' c e.
                          confirm_password-le (api.trimmed password) (api.trimmed first) s.answers s
                            s' c refl e)
                        (λ c. done-Shortens _)))))))

  retry-agree :
      (again again' : View S (Unit {0})) (s : Session S)
      → ((t : Session S) → length t.answers < length s.answers → again t ≡ again' t)
      → retry api again s ≡ retry api again' s
  retry-agree again again' s h = resume-agree _ _ (confirm s) (λ b s1 e1.
      let (rest, a, put) = confirm_lem s s1 b e1 in
      tried b s1 (λ t same.
        h t (omega (arith, ap length a, ap (λ (x : Session S). length x.answers) put, same))))
    where
      tried :
          (b : Bool) (s1 : Session S)
          → ((t : Session S) → length t.answers ≡ length s1.answers → again t ≡ again' t)
          → resume (λ _. again) (try_again api b s1) ≡ resume (λ _. again') (try_again api b s1)
      tried true s1 k = k s1 refl
      tried false s1 k = refl

  registered-agree :
      (again again' : View S (Unit {0})) (s : Session S) (r : Reply) (server : S)
      → ((t : Session S) → length t.answers < length s.answers → again t ≡ again' t)
      → registered api again s (r, server) ≡ registered api again' s (r, server)
  registered-agree again again' s (accepted a) server h = refl
  registered-agree again again' s refused server h =
      retry-agree again again' (with_server server s) h
  registered-agree again again' s failed server h =
      retry-agree again again' (with_server server s) h

  -- More rounds than there are answers all give the same: the loop has come to its end.
  pub register_rounds-enough :
      (n m : ℕ) (s : Session S)
      → length s.answers < n
      → length s.answers < m
      → register_rounds api n s ≡ register_rounds api m s
  unfolding register_rounds
  register_rounds-enough zero m s a b = elim a [ ]
  register_rounds-enough (suc n) zero s a b = elim b [ ]
  register_rounds-enough (suc n) (suc m) s a b = resume-agree _ _ (fill_details api s) (λ r s1 e.
      let shorter = fill_details-Shortens s s1 r e in
      registered-agree (register_rounds api n) (register_rounds api m) s1 _ _
        (λ t less. register_rounds-enough n m t (omega arith) (omega arith)))

  logged_in-agree :
      (again again' : View S (Unit {0})) (s : Session S) (r : Reply) (server : S)
      → ((t : Session S) → length t.answers < length s.answers → again t ≡ again' t)
      → logged_in api again s (r, server) ≡ logged_in api again' s (r, server)
  logged_in-agree again again' s (accepted a) server h = refl
  logged_in-agree again again' s refused server h =
      retry-agree again again' (with_server server s) h
  logged_in-agree again again' s failed server h = refl

  pub login_rounds-enough :
      (n m : ℕ) (s : Session S)
      → length s.answers < n
      → length s.answers < m
      → login_rounds api n s ≡ login_rounds api m s
  unfolding login_rounds
  login_rounds-enough zero m s a b = elim a [ ]
  login_rounds-enough (suc n) zero s a b = elim b [ ]
  login_rounds-enough (suc n) (suc m) s a b = resume-agree _ _ (input accept s) (λ email s1 e1.
      resume-agree _ _ (input accept s1) (λ password s2 e2.
        let x = input-Shortens accept (λ t y. refl) s s1 email e1 in
        let y = input-Shortens accept (λ t z. refl) s1 s2 password e2 in
        logged_in-agree (login_rounds api n) (login_rounds api m) s2 _ _
          (λ t less. login_rounds-enough n m t (omega arith) (omega arith))))
