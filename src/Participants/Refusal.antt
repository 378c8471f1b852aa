-- ===== src/Participants/Refusal.antt =====
-- Whom the endpoints of participants let through (server/decorators/auth-ctx-matcher.decorators.ts).
use nerdhub_chat_cli_prototy.Common.{ℕ, ◌≡◌, refl, ap, ◌∙◌, false, Option, none, some, codes}
use nerdhub_chat_cli_prototy.Pathname.{ParamValue, single, many, other}
use nerdhub_chat_cli_prototy.Persistence.{Sql, User, E2eeParticipant}
use nerdhub_chat_cli_prototy.Auth.{Error, forbidden, type_error}
use nerdhub_chat_cli_prototy.Router.{truthy, Exchange, Behaviour}
use nerdhub_chat_cli_prototy.Router.Decorators.{
  wrapped, after_before, on_request, set_http_response_status, autobind,
}
use nerdhub_chat_cli_prototy.Participants.{
  World, Reply, param_at, is_same_id, checked, match_user, match_participant,
  auth_user_matches_user_id_param, auth_participant_matches_participant_id_param,
}
use nerdhub_chat_cli_prototy.Participants.Controllers.{
  create_for, update_for, create_many_for, create_method, handle_create_e2ee_participant,
  update_method, handle_update_e2ee_participant_pre_key_bundle, create_many_method,
  handle_create_many_onetime_prekeys, fails,
}

-- What a router makes of a pathname: no value, a text or a list of texts.
abbrev pub IsFromPathname : Option ParamValue → Type 0
IsFromPathname (some (other n)) = ⊥
IsFromPathname _ = Unit

module _ (sql : Sql) (number_of : ℕ → Option ℕ) where
  is_same_id-of-pathname :
      (id : ℕ) (v : Option ParamValue) → IsFromPathname v → is_same_id number_of id v ≡ false
  is_same_id-of-pathname id none h = refl
  is_same_id-of-pathname id (some (single s)) h = refl
  is_same_id-of-pathname id (some (many parts)) h = refl
  is_same_id-of-pathname id (some (other n)) h = absurd h

  abbrev pub user_mismatch : Error
  user_mismatch = forbidden "Your user id does not match the `userId` request parameter"

  abbrev pub participant_mismatch : Error
  participant_mismatch =
      forbidden "Your e2ee participant id does not match the `e2eeParticipantId` request parameter"

  match_user-mismatch :
      (x : Exchange World) (user : User)
      → IsFromPathname (param_at (codes "userId") x)
      → match_user number_of x (some user) ≡ (x, some (truthy user_mismatch))
  match_user-mismatch x user from =
      ap (λ b. checked number_of b "Your user id does not match the `userId` request parameter" x)
        (is_same_id-of-pathname user.id (param_at (codes "userId") x) from)

  match_participant-mismatch :
      (x : Exchange World) (p : E2eeParticipant)
      → IsFromPathname (param_at (codes "e2eeParticipantId") x)
      → match_participant number_of x (some p) ≡ (x, some (truthy participant_mismatch))
  match_participant-mismatch x p from =
      ap
        (λ b.
          checked number_of b
            "Your e2ee participant id does not match the `e2eeParticipantId` request parameter" x)
        (is_same_id-of-pathname p.id (param_at (codes "e2eeParticipantId") x) from)

  -- What a controller of participants makes of a request is an error that leaves the exchange, the
  -- tables included, as it is.
  abbrev pub IsRefused : Exchange World → Behaviour World Reply Error → Type 0
  IsRefused x b = (e : Error) × (b ≡ fails x e)

  -- The user is checked, and a method follows that fails without what it needs of the context.
  user-IsRefused :
      (x : Exchange World) (f : Exchange World → Behaviour World Reply Error) (o : Option User)
      → x.world.context.auth_user ≡ o
      → IsFromPathname (param_at (codes "userId") x)
      → (x.world.context.auth_user ≡ none → f x ≡ fails x type_error)
      → IsRefused x (after_before f (match_user number_of x x.world.context.auth_user))
  user-IsRefused x f none h from k =
      (type_error, ap (λ o. after_before f (match_user number_of x o)) h ∙ k h)
  user-IsRefused x f (some user) h from k = (
    user_mismatch,
    ap (λ o. after_before f (match_user number_of x o)) h
        ∙ ap (after_before f) (match_user-mismatch x user from),
  )

  participant-IsRefused :
      (x : Exchange World) (f : Exchange World → Behaviour World Reply Error)
      (o : Option E2eeParticipant)
      → x.world.context.e2ee_participant ≡ o
      → IsFromPathname (param_at (codes "userId") x)
      → IsFromPathname (param_at (codes "e2eeParticipantId") x)
      → (x.world.context.e2ee_participant ≡ none → f x ≡ fails x type_error)
      → IsRefused x (
          after_before
            (λ y. after_before f (match_user number_of y y.world.context.auth_user))
            (match_participant number_of x x.world.context.e2ee_participant))
  participant-IsRefused x f none h from_user from k =
      let call : Exchange World → Behaviour World Reply Error =
        λ y. after_before f (match_user number_of y y.world.context.auth_user) in
      let (e, r) = user-IsRefused x f x.world.context.auth_user refl from_user (λ n. k h) in
      (e, ap (λ o. after_before call (match_participant number_of x o)) h ∙ r)
  participant-IsRefused x f (some p) h from_user from k =
      let call : Exchange World → Behaviour World Reply Error =
        λ y. after_before f (match_user number_of y y.world.context.auth_user) in
      (
        participant_mismatch,
        ap (λ o. after_before call (match_participant number_of x o)) h
            ∙ ap (after_before call) (match_participant-mismatch x p from),
      )

  -- Whatever the tables hold and whoever asks: where the parameters `userId` and `e2eeParticipantId` are
  -- as a router takes them from a pathname, every call of the three endpoints that write participants
  -- and one-time prekeys throws and leaves the exchange, with the tables, as it was; and none of
  -- the three has a status of its own.
  pub endpoints-IsRefused :
      (x : Exchange World)
      → IsFromPathname (param_at (codes "userId") x)
      → IsFromPathname (param_at (codes "e2eeParticipantId") x)
      → let create = handle_create_e2ee_participant sql number_of in
        let update = handle_update_e2ee_participant_pre_key_bundle sql number_of in
        let create_many = handle_create_many_onetime_prekeys sql number_of in
        IsRefused x (create.process x)
        × IsRefused x (update.process x)
        × IsRefused x (create_many.process x)
        × (create.http_response_status ≡ none)
        × (update.http_response_status ≡ none)
        × (create_many.http_response_status ≡ none)
  unfolding handle_create_e2ee_participant handle_update_e2ee_participant_pre_key_bundle
      handle_create_many_onetime_prekeys autobind on_request wrapped auth_user_matches_user_id_param
      auth_participant_matches_participant_id_param set_http_response_status
  endpoints-IsRefused x from_user from = (
    user-IsRefused x (create_method sql number_of).process x.world.context.auth_user refl from_user
        (λ n. ap (λ o. create_for sql number_of x o x.world.device_hash x.world.body) n),
    participant-IsRefused x (update_method sql number_of).process x.world.context.e2ee_participant
        refl from_user from (λ n. ap (λ o. update_for sql number_of x o x.world.body) n),
    participant-IsRefused x (create_many_method sql number_of).process
        x.world.context.e2ee_participant refl from_user from
        (λ n. ap (λ o. create_many_for sql number_of x o x.world.body) n),
    refl,
    refl,
    refl,
  )
