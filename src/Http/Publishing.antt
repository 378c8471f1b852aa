-- ===== src/Http/Publishing.antt =====
-- What becomes of a publication that the server does not take (cli/api, cli/helpers/api-fetch.helper.ts,
-- cli/ui/middlewares/setup-prekey-bundle.middleware.ts).
use nerdhub_chat_cli_prototy.Common.{
  ℕ, ◌≡◌, refl, ap, ◌∙◌, Bool, false, Option, none, some, List, ◌∷◌, Text,
}
use nerdhub_chat_cli_prototy.Client.{Participant, Client, throws}
use nerdhub_chat_cli_prototy.Client.Bundles.{
  Surroundings, updated, publish_payload_for, publish_payload,
}
use nerdhub_chat_cli_prototy.Client.Setup.{sent, publish_for, publish_keys}
use nerdhub_chat_cli_prototy.Http.{
  Response, Fetch, Bodies, update_bundle_request, create_many_request, wrap_fetch_response, req,
  with_token, value_of, is_fetched, caller, api,
}

-- No response, or one whose status is not ok.
abbrev pub IsRefused : {J : Type 0} → Option (Response J) → Type 0
IsRefused none = Unit
IsRefused (some r) = r.ok ≡ false

module _ {J S : Type 0} (fetch : Fetch J S) (read : Bodies J) where
  value_of-refused {ℓ} :
      {A : Type ℓ} (f : J → A) (o : Option (Response J)) (s : S)
      → IsRefused o
      → value_of fetch read f (wrap_fetch_response fetch read (o, s)) ≡ (none, s)
  value_of-refused f none s h = refl
  value_of-refused f (some r) s h = rw h refl

  is_fetched-refused :
      (o : Option (Response J)) (s : S)
      → IsRefused o
      → is_fetched fetch read (wrap_fetch_response fetch read (o, s)) ≡ (false, s)
  is_fetched-refused none s h = refl
  is_fetched-refused (some r) s h = rw h refl

  payload_published :
      (env : Surroundings S) (user : ℕ) (payload : Text × Text × Text) (c : Client S)
      (o : Option Participant)
      → c.participant ≡ o
      → publish_payload env user payload c ≡ publish_payload_for env user payload c o
  payload_published env user payload c o has = ap (publish_payload_for env user payload c) has

  -- Where the server gives no response or one that is not ok, the publication of a prekey bundle and the
  -- upload of one-time prekeys throw, and nothing of the client has changed but the server: nothing is
  -- marked as published.
  pub refused-throws :
      (server_url device_hash : Text) (surroundings : Surroundings S) (user : ℕ)
      (payload : Text × Text × Text) (keys : List (Text × Text)) (flush : Bool) (p : Participant)
      (t : ℕ) (jwt : Text) (c : Client S)
      → let env = record surroundings { api = api fetch read server_url device_hash } in
        let from = caller fetch read server_url device_hash (t ∷ jwt) in
        let update = fetch (update_bundle_request from user p.id payload) c.server in
        let upload = fetch (create_many_request from user p.id keys flush) c.server in
        c.participant ≡ some p
        → c.jwt ≡ t ∷ jwt
        → IsRefused update.0
        → IsRefused upload.0
        → (publish_payload env user payload c ≡ (throws, record c { server = update.1 }))
          × (publish_keys env user keys flush c ≡ (throws, record c { server = upload.1 }))
  unfolding api publish_keys req
  refused-throws server_url device_hash surroundings user payload keys flush p t jwt c has token u
        v =
      let env = record surroundings { api = api fetch read server_url device_hash } in
      let from = caller fetch read server_url device_hash in
      let update = fetch (update_bundle_request (from (t ∷ jwt)) user p.id payload) c.server in
      let upload = fetch (create_many_request (from (t ∷ jwt)) user p.id keys flush) c.server in
      (
        ap (publish_payload_for env user payload c) has
            ∙ ap
                (λ token'. updated env user c (
                  value_of fetch read read.participant (
                    with_token fetch read token'
                      (update_bundle_request (from token') user p.id payload) c.server)))
                token
            ∙ ap (updated env user c) (value_of-refused read.participant update.0 update.1 u),
        ap (publish_for env user keys flush c) has
            ∙ ap
                (λ token'. sent env user p.id c (
                  is_fetched fetch read (
                    with_token fetch read token'
                      (create_many_request (from token') user p.id keys flush) c.server)))
                token
            ∙ ap (sent env user p.id c) (is_fetched-refused upload.0 upload.1 v),
      )
