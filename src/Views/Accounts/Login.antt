-- ===== src/Views/Accounts/Login.antt =====
-- Who a client is after the views to log in and to register (cli/ui/login.ui.ts).
use nerdhub_chat_cli_prototy.Common.{
  ℕ, zero, suc, ◌≡◌, ◌⊎◌, refl, inl, inr, Bool, true, false, Option, some, List, [], ◌∷◌, String,
  Text, ◌==◌, string_same, Bool-cases, length,
}
use nerdhub_chat_cli_prototy.Views.{
  Answer, Session, View, with_answers, select, confirm, input, accept,
}
use nerdhub_chat_cli_prototy.Views.Invariant.{
  Holds, resume-Holds, select-Holds, confirm-Holds, input-Holds,
}
use nerdhub_chat_cli_prototy.Views.Accounts.{
  Account, Reply, accepted, refused, failed, AccountsApi, with_server, try_again, retry, logged_in,
  login_rounds, proceed, login,
}

module _ {S : Type 0} (api : AccountsApi S) where
  -- The user, the participant and the token are as at the start, or those of an account that the server
  -- has told in answer to a login.
  abbrev pub IsToldFrom : Session S → Session S → Type 0
  IsToldFrom s s' =
      ((s'.client.user_id ≡ s.client.user_id)
        × (s'.client.participant ≡ s.client.participant)
        × (s'.client.jwt ≡ s.client.jwt))
      ⊎ ((email : Text) × (password : Text) × (before : S) × (account : Account) × ((api.login email
              password before).0
            ≡ accepted account)
          × (s'.client.user_id ≡ some account.user_id)
          × (s'.client.participant ≡ account.participant)
          × (s'.client.jwt ≡ account.access_token))

  module _ (start : Session S) where
    answered :
        (rest : List Answer) (s : Session S)
        → IsToldFrom start s
        → IsToldFrom start (with_answers rest s)
    answered rest s q = q

    input-accept-Holds :
        (s : Session S) → IsToldFrom start s → Holds (IsToldFrom start) (input accept s)
    input-accept-Holds s q = input-Holds (IsToldFrom start) answered accept (λ t x k. k) s q

    try_again-Holds :
        (b : Bool) (s : Session S)
        → IsToldFrom start s
        → Holds (IsToldFrom start) (try_again api b s)
    try_again-Holds true s q = q
    try_again-Holds false s q = q

    retry-Holds :
        (again : View S (Unit {0}))
        → ((s : Session S) → IsToldFrom start s → Holds (IsToldFrom start) (again s))
        → (s : Session S) → IsToldFrom start s
        → Holds (IsToldFrom start) (retry api again s)
    retry-Holds again h s q =
        resume-Holds (IsToldFrom start) _ (confirm s)
          (confirm-Holds (IsToldFrom start) answered s q)
          (λ b s1 e1 q1.
            resume-Holds (IsToldFrom start) _ (try_again api b s1) (try_again-Holds b s1 q1)
              (λ u s2 e2 q2. h s2 q2))

    logged_in-Holds :
        (again : View S (Unit {0})) (email password : Text) (s : Session S) (r : Reply) (server : S)
        → ((t : Session S) → IsToldFrom start t → Holds (IsToldFrom start) (again t))
        → (api.login email password s.client.server).0 ≡ r
        → IsToldFrom start s
        → Holds (IsToldFrom start) (logged_in api again s (r, server))
    logged_in-Holds again email password s (accepted a) server h e q =
        inr (email, password, s.client.server, a, e, refl, refl, refl)
    logged_in-Holds again email password s refused server h e q =
        retry-Holds again h (with_server server s) q
    logged_in-Holds again email password s failed server h e q = q

    login_rounds-Holds :
        (rounds : ℕ) (s : Session S)
        → IsToldFrom start s
        → Holds (IsToldFrom start) (login_rounds api rounds s)
    unfolding login_rounds
    login_rounds-Holds zero s q = q
    login_rounds-Holds (suc rounds) s q =
        resume-Holds (IsToldFrom start) _ (input accept s) (input-accept-Holds s q)
          (λ email s1 e1 q1.
            resume-Holds (IsToldFrom start) _ (input accept s1) (input-accept-Holds s1 q1)
              (λ password s2 e2 q2.
                logged_in-Holds (login_rounds api rounds) (api.trimmed email) (api.trimmed password)
                  s2 (api.login (api.trimmed email) (api.trimmed password) s2.client.server).0
                  (api.login (api.trimmed email) (api.trimmed password) s2.client.server).1
                  (login_rounds-Holds rounds) refl q2))

    proceed-Holds :
        (from : Option Text) (a : String) (s : Session S)
        → IsToldFrom start s
        → Holds (IsToldFrom start) (proceed api from a s)
    proceed-Holds from a s q = elim (Bool-cases (a == "true")) [ inl e ↦ rw e q | inr e ↦ rw e q ]

  -- However the login view ends: who the client is is as before, or what the server has told in answer
  -- to a login.
  pub login-IsToldFrom : (from : Option Text) (s : Session S) → IsToldFrom s (login api from s).1
  unfolding login
  login-IsToldFrom from s =
      let q : IsToldFrom s s = inl (refl, refl, refl) in
      resume-Holds (IsToldFrom s) _ (select ("true" ∷ "false" ∷ []) s)
        (select-Holds (IsToldFrom s) (answered s) ("true" ∷ "false" ∷ []) s q)
        (λ a s1 e1 q1.
          resume-Holds (IsToldFrom s) _ (proceed api from a s1) (proceed-Holds s from a s1 q1)
            (λ u s2 e2 q2.
              resume-Holds (IsToldFrom s) _ (login_rounds api (suc (length s2.answers)) s2)
                (login_rounds-Holds s (suc (length s2.answers)) s2 q2) (λ v s3 e3 q3. q3)))
