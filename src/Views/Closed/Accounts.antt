-- ===== src/Views/Closed/Accounts.antt =====
-- Where the views to log in and to register navigate to (cli/ui/login.ui.ts, cli/ui/register.ui.ts).
use nerdhub_chat_cli_prototy.Common.{
  ℕ, zero, suc, inl, inr, Bool, true, false, Option, none, some, List, [], ◌∷◌, Text, codes,
  Bool-cases, ◌==◌, text_same, string_same, length,
}
use nerdhub_chat_cli_prototy.Users.{Body}
use nerdhub_chat_cli_prototy.Views.{
  Answer, typed, chosen, confirmed, pressed, Session, done, waits, View, with_answers, select,
  confirm, press, input, accept,
}
use nerdhub_chat_cli_prototy.Views.Closed.{
  Lands, either-Lands, resume-Lands, select-Lands, confirm-Lands, press-Lands, input-Lands,
}
use nerdhub_chat_cli_prototy.Views.Keys.{}
use nerdhub_chat_cli_prototy.Views.Accounts.{
  Reply, accepted, refused, failed, AccountsApi, is_alphanumeric, all_units, is_email, of_length,
  with_server, username_answered, validate_username, email_answered, validate_email,
  confirm_password, fill_details, try_again, retry, registered, register_rounds, register,
  logged_in, login_rounds, proceed, login,
}
use nerdhub_chat_cli_prototy.Views.Routes.{}

module _ {κ} {S : Type 0} (T : Text → Option Text → Type κ) where
  module _ (api : AccountsApi S) (index : T (codes "Index") none) where
    try_again-Lands : (b : Bool) (s : Session S) → Lands T (try_again api b s)
    try_again-Lands true s = tt
    try_again-Lands false s = index

    retry-Lands :
        (again : View S (Unit {0}))
        → ((s : Session S) → Lands T (again s))
        → (s : Session S) → Lands T (retry api again s)
    retry-Lands again h s =
        resume-Lands T _ (confirm s) (confirm-Lands T s) (λ b s1 e1.
          resume-Lands T _ (try_again api b s1) (try_again-Lands b s1) (λ u s2 e2. h s2))

    username_answered-Lands :
        (s : Session S) (o : Option Body) (server : S)
        → Lands T (username_answered api s (o, server))
    username_answered-Lands s none server = tt
    username_answered-Lands s (some body) server = tt

    validate_username-Lands : (t : Text) (s : Session S) → Lands T (validate_username api t s)
    unfolding validate_username
    validate_username-Lands [] s = tt
    validate_username-Lands (c ∷ t) s =
        let asked = api.username_exists (c ∷ t) s.client.server in
        either-Lands T (all_units is_alphanumeric (c ∷ t)) (username_answered api s asked)
          (done false, s) (username_answered-Lands s asked.0 asked.1) tt

    email_answered-Lands :
        (s : Session S) (o : Option Body) (server : S) → Lands T (email_answered api s (o, server))
    email_answered-Lands s none server = tt
    email_answered-Lands s (some body) server = tt

    validate_email-Lands : (t : Text) (s : Session S) → Lands T (validate_email api t s)
    unfolding validate_email
    validate_email-Lands [] s = tt
    validate_email-Lands (c ∷ t) s =
        let asked = api.email_exists (c ∷ t) s.client.server in
        either-Lands T (is_email (c ∷ t)) (email_answered api s asked) (done false, s)
          (email_answered-Lands s asked.0 asked.1) tt

    confirm_password-Lands :
        (password confirmation : Text) (answers : List Answer) (s : Session S)
        → Lands T (confirm_password api password confirmation answers s)
    unfolding confirm_password
    confirm_password-Lands password confirmation [] s =
        either-Lands T (password == confirmation) (done confirmation, s) (waits, s) tt tt
    confirm_password-Lands password confirmation (typed t ∷ rest) s =
        either-Lands T (password == confirmation) (done confirmation, s)
          (confirm_password api password (api.trimmed t) rest (with_answers rest s)) tt
          (confirm_password-Lands password (api.trimmed t) rest (with_answers rest s))
    confirm_password-Lands password confirmation (chosen c ∷ rest) s =
        either-Lands T (password == confirmation) (done confirmation, s) (waits, s) tt tt
    confirm_password-Lands password confirmation (confirmed c ∷ rest) s =
        either-Lands T (password == confirmation) (done confirmation, s) (waits, s) tt tt
    confirm_password-Lands password confirmation (pressed ∷ rest) s =
        either-Lands T (password == confirmation) (done confirmation, s) (waits, s) tt tt

    of_length-Lands : (n : ℕ) (s : Session S) → Lands T (input (of_length n) s)
    of_length-Lands n s = input-Lands T (of_length n) (λ t s1. tt) s

    fill_details-Lands : (s : Session S) → Lands T (fill_details api s)
    unfolding fill_details
    fill_details-Lands s =
        resume-Lands T _ (input (of_length 1) s) (of_length-Lands 1 s) (λ firstname s1 e1.
          resume-Lands T _ (input (of_length 1) s1) (of_length-Lands 1 s1) (λ lastname s2 e2.
            resume-Lands T _ (input (validate_username api) s2)
              (input-Lands T (validate_username api) validate_username-Lands s2)
              (λ username s3 e3.
                resume-Lands T _ (input (validate_email api) s3)
                  (input-Lands T (validate_email api) validate_email-Lands s3)
                  (λ email s4 e4.
                    resume-Lands T _ (input (of_length 8) s4) (of_length-Lands 8 s4)
                      (λ password s5 e5.
                        resume-Lands T _ (input accept s5) (input-Lands T accept (λ t s0. tt) s5)
                          (λ first s6 e6.
                            resume-Lands T _
                              (confirm_password api (api.trimmed password) (api.trimmed first)
                                s6.answers s6)
                              (confirm_password-Lands (api.trimmed password) (api.trimmed first)
                                s6.answers s6)
                              (λ confirmation s7 e7. tt)))))))

    registered-Lands :
        (again : View S (Unit {0})) (s : Session S) (r : Reply) (server : S)
        → ((s : Session S) → Lands T (again s))
        → Lands T (registered api again s (r, server))
    registered-Lands again s (accepted a) server h =
        resume-Lands T _ (press (with_server server s)) (press-Lands T (with_server server s))
          (λ u s1 e1. tt)
    registered-Lands again s refused server h = retry-Lands again h (with_server server s)
    registered-Lands again s failed server h = retry-Lands again h (with_server server s)

    register_rounds-Lands : (rounds : ℕ) (s : Session S) → Lands T (register_rounds api rounds s)
    unfolding register_rounds
    register_rounds-Lands zero s = tt
    register_rounds-Lands (suc rounds) s =
        resume-Lands T _ (fill_details api s) (fill_details-Lands s) (λ r s1 e1.
          let sent = api.register r s1.client.server in
          registered-Lands (register_rounds api rounds) s1 sent.0 sent.1
            (register_rounds-Lands rounds))

    pub register-Lands :
        (from : Option Text) (s : Session S)
        → T (codes "LocalKeyManager") from
        → Lands T (register api from s)
    unfolding register
    register-Lands from s next =
        resume-Lands T _ (register_rounds api (suc (length s.answers)) s)
          (register_rounds-Lands (suc (length s.answers)) s) (λ u s1 e1. next)

    logged_in-Lands :
        (again : View S (Unit {0})) (s : Session S) (r : Reply) (server : S)
        → ((s : Session S) → Lands T (again s))
        → Lands T (logged_in api again s (r, server))
    logged_in-Lands again s (accepted a) server h = tt
    logged_in-Lands again s refused server h = retry-Lands again h (with_server server s)
    logged_in-Lands again s failed server h = tt

    login_rounds-Lands : (rounds : ℕ) (s : Session S) → Lands T (login_rounds api rounds s)
    unfolding login_rounds
    login_rounds-Lands zero s = tt
    login_rounds-Lands (suc rounds) s =
        resume-Lands T _ (input accept s) (input-Lands T accept (λ t s0. tt) s) (λ email s1 e1.
          resume-Lands T _ (input accept s1) (input-Lands T accept (λ t s0. tt) s1)
            (λ password s2 e2.
              let sent = api.login (api.trimmed email) (api.trimmed password) s2.client.server in
              logged_in-Lands (login_rounds api rounds) s2 sent.0 sent.1
                (login_rounds-Lands rounds)))

    pub login-Lands :
        (from : Option Text) (s : Session S)
        → T (codes "Register") from
        → T (codes "LocalKeyManager") from
        → Lands T (login api from s)
    unfolding login
    login-Lands from s new next =
        resume-Lands T _ (select ("true" ∷ "false" ∷ []) s)
          (select-Lands T ("true" ∷ "false" ∷ []) s)
          (λ a s1 e1.
            resume-Lands T _ (proceed api from a s1)
              (elim (Bool-cases (a == "true")) [ inl e ↦ rw e tt | inr e ↦ rw e new ])
              (λ u s2 e2.
                resume-Lands T _ (login_rounds api (suc (length s2.answers)) s2)
                  (login_rounds-Lands (suc (length s2.answers)) s2) (λ v s3 e3. next)))
