-- ===== src/Views/Accounts/Register.antt =====
-- Which registrations the client sends (cli/ui/register.ui.ts).
use nerdhub_chat_cli_prototy.Common.{
  ℕ, zero, suc, ◌≡◌, ◌≢◌, refl, sym, subst, ◌∙◌, inl, inr, Bool, true, false, Option, none, some,
  List, [], ◌∷◌, Text, ◌==◌, text_same, text_beq_iff, Bool-cases, length, if◌then◌else◌,
}
use nerdhub_chat_cli_prototy.Users.{Body}
use nerdhub_chat_cli_prototy.Views.{
  Answer, typed, chosen, confirmed, pressed, Session, Finish, done, View, with_answers, confirm,
  press, input, accept,
}
use nerdhub_chat_cli_prototy.Views.Prompts.{resume-done, done-injective}
use nerdhub_chat_cli_prototy.Views.Invariant.{
  Holds, resume-Holds, confirm-Holds, press-Holds, input-Holds, input-passes,
}
use nerdhub_chat_cli_prototy.Views.Accounts.{
  Registration, Reply, accepted, refused, failed, AccountsApi, is_alphanumeric, all_units, is_email,
  has_length, of_length, with_server, username_answered, validate_username, email_answered,
  validate_email, confirm_password, fill_details, try_again, retry, registered, register_rounds,
  register,
}
use nerdhub_chat_cli_prototy.Views.Accounts.Visible.{is_visible, name-visible, email-visible}

-- a text that a prompt gives for one that was typed and passes
abbrev pub IsGiven : (Text → Text) → (Text → Type 0) → Text → Type 0
IsGiven trimmed P given = (t : Text) × P t × (given ≡ trimmed t)

-- What every registration that is sent fulfils.
abbrev pub IsComplete : (Text → Text) → Registration → Type 0
IsComplete trimmed r =
    IsGiven trimmed (λ t. has_length 1 t ≡ true) r.firstname
    × IsGiven trimmed (λ t. has_length 1 t ≡ true) r.lastname
    × (r.username ≢ [])
    × (all_units is_alphanumeric r.username ≡ true)
    × (is_email r.email ≡ true)
    × IsGiven trimmed (λ t. has_length 8 t ≡ true) r.password
    × (r.password ≡ r.password_confirmation)

module _ {S : Type 0} (api : AccountsApi S)
    (trimmed-visible : (t : Text) → all_units is_visible t ≡ true → api.trimmed t ≡ t) where
  validate_username-passes :
      (u : Text) (s s' : Session S)
      → validate_username api u s ≡ (done true, s')
      → (u ≢ []) × (all_units is_alphanumeric u ≡ true)
  unfolding validate_username
  validate_username-passes [] s s' h = cc h
  validate_username-passes (c ∷ u) s s' h = elim (Bool-cases (all_units is_alphanumeric (c ∷ u))) [
    | inl good ↦ (λ e. cc e, good)
    | inr bad ↦
        let x : ◌≡◌ {A = Finish Bool × Session S} (done false, s) (done true, s') = rw bad at h in
        cc x
  ]

  validate_email-passes :
      (u : Text) (s s' : Session S) → validate_email api u s ≡ (done true, s') → is_email u ≡ true
  unfolding validate_email
  validate_email-passes [] s s' h = cc h
  validate_email-passes (c ∷ u) s s' h = elim (Bool-cases (is_email (c ∷ u))) [
    | inl good ↦ good
    | inr bad ↦
        let x : ◌≡◌ {A = Finish Bool × Session S} (done false, s) (done true, s') = rw bad at h in
        cc x
  ]

  was_same :
      (password confirmation c : Text) (s s' : Session S) (r : Finish Text × Session S)
      → (r ≡ (done c, s') → password ≡ c)
      → (if password == confirmation then (done confirmation, s) else r) ≡ (done c, s')
      → password ≡ c
  was_same password confirmation c s s' r k h = elim (Bool-cases (password == confirmation)) [
    | inl same ↦
        let x : ◌≡◌ {A = Finish Text × Session S} (done confirmation, s) (done c, s') =
          rw same at h in
        let e : confirmation ≡ c = cc x in (text_beq_iff password confirmation).0 same ∙ e
    | inr other ↦ let x : r ≡ (done c, s') = rw other at h in k x
  ]

  confirm_password-eq :
      (password confirmation c : Text) (answers : List Answer) (s s' : Session S)
      → confirm_password api password confirmation answers s ≡ (done c, s')
      → password ≡ c
  unfolding confirm_password
  confirm_password-eq password confirmation c [] s s' h =
      was_same password confirmation c s s' _ (λ e. cc e) h
  confirm_password-eq password confirmation c (typed t ∷ rest) s s' h =
      was_same password confirmation c s s' _
        (λ e. confirm_password-eq password (api.trimmed t) c rest (with_answers rest s) s' e) h
  confirm_password-eq password confirmation c (chosen d ∷ rest) s s' h =
      was_same password confirmation c s s' _ (λ e. cc e) h
  confirm_password-eq password confirmation c (confirmed b ∷ rest) s s' h =
      was_same password confirmation c s s' _ (λ e. cc e) h
  confirm_password-eq password confirmation c (pressed ∷ rest) s s' h =
      was_same password confirmation c s s' _ (λ e. cc e) h

  of_length-passes :
      (n : ℕ) (t : Text) (s s' : Session S)
      → input (of_length n) s ≡ (done t, s')
      → has_length n t ≡ true
  of_length-passes n t s s' h = let (s1, s2, e) = input-passes (of_length n) s s' t h in cc e

  fill_details-IsComplete :
      (s s' : Session S) (r : Registration)
      → fill_details api s ≡ (done r, s')
      → IsComplete api.trimmed r
  unfolding fill_details
  fill_details-IsComplete s s' r h =
      let (firstname, s1, e1, h1) = resume-done _ (input (of_length 1) s) r s' h in
      let (lastname, s2, e2, h2) = resume-done _ (input (of_length 1) s1) r s' h1 in
      let (username, s3, e3, h3) = resume-done _ (input (validate_username api) s2) r s' h2 in
      let (email, s4, e4, h4) = resume-done _ (input (validate_email api) s3) r s' h3 in
      let (password, s5, e5, h5) = resume-done _ (input (of_length 8) s4) r s' h4 in
      let (first, s6, e6, h6) = resume-done _ (input accept s5) r s' h5 in
      let (c, s7, e7, h7) =
        resume-done _
          (confirm_password api (api.trimmed password) (api.trimmed first) s6.answers s6) r s' h6 in
      let (a1, a2, named) = input-passes (validate_username api) s2 s3 username e3 in
      let (b1, b2, addressed) = input-passes (validate_email api) s3 s4 email e4 in
      let (full, good) = validate_username-passes username a1 a2 named in
      let name = trimmed-visible username (name-visible username good) in
      let address =
        trimmed-visible email (email-visible email (validate_email-passes email b1 b2 addressed)) in
      let filled : Registration = record {
        firstname = api.trimmed firstname;
        lastname = api.trimmed lastname;
        username = api.trimmed username;
        email = api.trimmed email;
        password = api.trimmed password;
        password_confirmation = c;
      } in
      let same = done-injective filled r s7 s' h7 in
      subst (IsComplete api.trimmed) same (
        (firstname, of_length-passes 1 firstname s s1 e1, refl),
        (lastname, of_length-passes 1 lastname s1 s2 e2, refl),
        subst (λ u. u ≢ []) (sym name) full,
        subst (λ u. all_units is_alphanumeric u ≡ true) (sym name) good,
        subst (λ e. is_email e ≡ true) (sym address) (validate_email-passes email b1 b2 addressed),
        (password, of_length-passes 8 password s4 s5 e5, refl),
        confirm_password-eq (api.trimmed password) (api.trimmed first) c s6.answers s6 s7 e7,
      )

  module _ {κ} (Q : S → Type κ)
      (username_kept : (u : Text) (x : S) → Q x → Q (api.username_exists u x).1)
      (email_kept : (u : Text) (x : S) → Q x → Q (api.email_exists u x).1)
      (register_kept : (r : Registration) (x : S)
        → IsComplete api.trimmed r
        → Q x
        → Q (api.register r x).1) where
    abbrev AtServer : Session S → Type κ
    AtServer s = Q s.client.server

    answered : (rest : List Answer) (s : Session S) → AtServer s → AtServer (with_answers rest s)
    answered rest s q = q

    username_answered-Holds :
        (s : Session S) (o : Option Body) (server : S)
        → Q server
        → Holds AtServer (username_answered api s (o, server))
    username_answered-Holds s none server q = q
    username_answered-Holds s (some body) server q = q

    validate_username-Holds :
        (u : Text) (s : Session S) → AtServer s → Holds AtServer (validate_username api u s)
    unfolding validate_username
    validate_username-Holds [] s q = q
    validate_username-Holds (c ∷ u) s q = elim (Bool-cases (all_units is_alphanumeric (c ∷ u))) [
      | inl good ↦ rw good (username_answered-Holds s _ _ (username_kept (c ∷ u) s.client.server q))
      | inr bad ↦ rw bad q
    ]

    email_answered-Holds :
        (s : Session S) (o : Option Body) (server : S)
        → Q server
        → Holds AtServer (email_answered api s (o, server))
    email_answered-Holds s none server q = q
    email_answered-Holds s (some body) server q = q

    validate_email-Holds :
        (u : Text) (s : Session S) → AtServer s → Holds AtServer (validate_email api u s)
    unfolding validate_email
    validate_email-Holds [] s q = q
    validate_email-Holds (c ∷ u) s q = elim (Bool-cases (is_email (c ∷ u))) [
      | inl good ↦ rw good (email_answered-Holds s _ _ (email_kept (c ∷ u) s.client.server q))
      | inr bad ↦ rw bad q
    ]

    either-Holds :
        (b : Bool) (r r' : Finish Text × Session S)
        → AtServer r.1
        → AtServer r'.1
        → Holds AtServer (if b then r else r')
    either-Holds true r r' q q' = q
    either-Holds false r r' q q' = q'

    confirmed-Holds :
        (password confirmation : Text) (answers : List Answer) (s : Session S)
        → AtServer s
        → Holds AtServer (confirm_password api password confirmation answers s)
    unfolding confirm_password
    confirmed-Holds password confirmation [] s q = either-Holds _ _ _ q q
    confirmed-Holds password confirmation (typed t ∷ rest) s q =
        either-Holds _ _ _ q (confirmed-Holds password (api.trimmed t) rest (with_answers rest s) q)
    confirmed-Holds password confirmation (chosen d ∷ rest) s q = either-Holds _ _ _ q q
    confirmed-Holds password confirmation (confirmed b ∷ rest) s q = either-Holds _ _ _ q q
    confirmed-Holds password confirmation (pressed ∷ rest) s q = either-Holds _ _ _ q q

    text-Holds : (n : ℕ) (s : Session S) → AtServer s → Holds AtServer (input (of_length n) s)
    text-Holds n s q = input-Holds AtServer answered (of_length n) (λ t x k. k) s q

    fill_details-Holds : (s : Session S) → AtServer s → Holds AtServer (fill_details api s)
    unfolding fill_details
    fill_details-Holds s q =
        resume-Holds AtServer _ (input (of_length 1) s) (text-Holds 1 s q) (λ firstname s1 e1 q1.
          resume-Holds AtServer _ (input (of_length 1) s1) (text-Holds 1 s1 q1)
            (λ lastname s2 e2 q2.
              resume-Holds AtServer _ (input (validate_username api) s2)
                (input-Holds AtServer answered (validate_username api) validate_username-Holds s2
                  q2)
                (λ username s3 e3 q3.
                  resume-Holds AtServer _ (input (validate_email api) s3)
                    (input-Holds AtServer answered (validate_email api) validate_email-Holds s3 q3)
                    (λ email s4 e4 q4.
                      resume-Holds AtServer _ (input (of_length 8) s4) (text-Holds 8 s4 q4)
                        (λ password s5 e5 q5.
                          resume-Holds AtServer _ (input accept s5)
                            (input-Holds AtServer answered accept (λ t x k. k) s5 q5)
                            (λ first s6 e6 q6.
                              resume-Holds AtServer _
                                (confirm_password api (api.trimmed password) (api.trimmed first)
                                  s6.answers s6)
                                (confirmed-Holds (api.trimmed password) (api.trimmed first)
                                  s6.answers s6 q6)
                                (λ c s7 e7 q7. q7)))))))

    try_again-Holds : (b : Bool) (s : Session S) → AtServer s → Holds AtServer (try_again api b s)
    try_again-Holds true s q = q
    try_again-Holds false s q = q

    retry-Holds :
        (again : View S (Unit {0}))
        → ((s : Session S) → AtServer s → Holds AtServer (again s))
        → (s : Session S) → AtServer s
        → Holds AtServer (retry api again s)
    retry-Holds again h s q =
        resume-Holds AtServer _ (confirm s) (confirm-Holds AtServer answered s q) (λ b s1 e1 q1.
          resume-Holds AtServer _ (try_again api b s1) (try_again-Holds b s1 q1)
            (λ u s2 e2 q2. h s2 q2))

    registered-Holds :
        (again : View S (Unit {0}))
        → ((s : Session S) → AtServer s → Holds AtServer (again s))
        → (s : Session S) (r : Reply) (server : S) → Q server
        → Holds AtServer (registered api again s (r, server))
    registered-Holds again h s (accepted a) server q =
        resume-Holds AtServer _ (press (with_server server s))
          (press-Holds AtServer answered (with_server server s) q) (λ u s1 e1 q1. q1)
    registered-Holds again h s refused server q = retry-Holds again h (with_server server s) q
    registered-Holds again h s failed server q = retry-Holds again h (with_server server s) q

    register_rounds-Holds :
        (rounds : ℕ) (s : Session S) → AtServer s → Holds AtServer (register_rounds api rounds s)
    unfolding register_rounds
    register_rounds-Holds zero s q = q
    register_rounds-Holds (suc rounds) s q =
        resume-Holds AtServer _ (fill_details api s) (fill_details-Holds s q) (λ r s1 e1 q1.
          registered-Holds (register_rounds api rounds) (register_rounds-Holds rounds) s1 _ _
            (register_kept r s1.client.server (fill_details-IsComplete s s1 r e1) q1))

    -- What holds of the server and is kept by the existence checks and by complete registrations holds
    -- after the register view, however it ends: it sends nothing else, and in each registration the fields
    -- are as follows. The user name has letters and digits alone, and at least one; the address has the
    -- right form; the two names are what a prompt gives for a typed text that is not empty, and the
    -- password what it gives for one of at least eight units; and the confirmation is the password. A
    -- prompt gives a text without white space as it was typed; of others nothing is said.
    pub register-sends :
        (from : Option Text) (s : Session S)
        → Q s.client.server
        → Q (register api from s).1.client.server
    unfolding register
    register-sends from s q =
        resume-Holds AtServer _ (register_rounds api (suc (length s.answers)) s)
          (register_rounds-Holds (suc (length s.answers)) s q) (λ u s1 e1 q1. q1)
