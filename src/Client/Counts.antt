-- ===== src/Client/Counts.antt =====
-- How many one-time prekeys the steps of the setup write
-- (cli/ui/middlewares/setup-prekey-bundle.middleware.ts).
use nerdhub_chat_cli_prototy.Common.{
  ℕ, zero, suc, ◌+◌, ◌≡◌, refl, sym, ap, ◌∙◌, inl, inr, Option, none, some, List, [], ◌∷◌, ◌++◌,
  map, length, Text, ◌==◌, nat_same, nat_beq_iff, text_same, any, count, count-append, arith,
  Bool-cases, some-injective, All,
}
use nerdhub_chat_cli_prototy.LocalEncryption.{LocalEncryptionService}
use nerdhub_chat_cli_prototy.X3dh.{OneTimePreKey, create_many_one_time_pre_keys}
use nerdhub_chat_cli_prototy.Client.{
  OnetimeRow, Store, Client, End, done, throws, leaves, Step, resume, stored, given,
}
use nerdhub_chat_cli_prototy.Client.Repository.{
  NewOnetime, onetime_row, insert_onetime, with_rows, create_onetime, published_onetime,
}
use nerdhub_chat_cli_prototy.Client.Bundles.{
  Surroundings, encrypted_step, encrypt_step, update_store,
}
use nerdhub_chat_cli_prototy.Client.Setup.{
  upload_batch_size, encrypt_keys, current_participant, make_onetime,
}

-- A step that is done has a first part that is done.
pub resume-done {ℓ κ} :
    {S : Type 0} {A : Type ℓ} {B : Type κ} (f : A → Step S B) (r : End A × Client S) (b : B)
    (c' : Client S)
    → resume f r ≡ (done b, c')
    → (a : A) × (c : Client S) × (r ≡ (done a, c)) × (f a c ≡ (done b, c'))
resume-done f (done a, c) b c' h = (a, c, refl, h)
resume-done f (throws, c) b c' h = cc h
resume-done f (leaves, c) b c' h = cc h

pub given-done {ℓ} :
    {S : Type 0} {A : Type ℓ} (o : Option A) (a : A) (c c' : Client S)
    → given o c ≡ (done a, c')
    → (o ≡ some a) × (c ≡ c')
given-done none a c c' h = cc h
given-done (some b) a c c' h = (cc h, cc h)

abbrev pub onetime_count : ℕ → List OnetimeRow → ℕ
onetime_count user rows = count (λ k. k.user_id == user) rows

-- The INSERT adds a row for each key.
insert_onetime-count :
    (now user : ℕ) (dtos : List NewOnetime) (rows rows' : List OnetimeRow)
    → All (λ d. d.user_id ≡ user) dtos
    → insert_onetime now dtos rows ≡ some rows'
    → onetime_count user rows' ≡ onetime_count user rows + length dtos
unfolding insert_onetime
insert_onetime-count now user [] rows rows' a h = rw (← some-injective h) (omega arith)
insert_onetime-count now user (d ∷ dtos) rows rows' (e, a) h =
    elim (Bool-cases (any (λ k. k.id == d.id) rows)) [
      | inl c ↦ (let x : none ≡ some rows' = rw c at h in cc x)
      | inr c ↦ ground (
        arith,
        insert_onetime-count now user dtos (rows ++ onetime_row now d ∷ []) rows' a (rw c at h),
        count-append (λ k. k.user_id == user) rows (onetime_row now d ∷ []),
        nat_beq_iff d.user_id user,
        e,
      )
    ]

pub publish_onetime-count :
    (now user participant : ℕ) (rows : List OnetimeRow)
    → onetime_count user (map (published_onetime now user participant) rows)
      ≡ onetime_count user rows
publish_onetime-count now user participant [] = refl
publish_onetime-count now user participant (k ∷ rows) = elim (Bool-cases (k.user_id == user)) [
  | inl e ↦ rw (e, e) (omega (arith, publish_onetime-count now user participant rows))
  | inr e ↦ rw (e, e) (omega (arith, publish_onetime-count now user participant rows))
]

abbrev pub stock : {S : Type 0} → ℕ → Client S → ℕ
stock user c = onetime_count user c.store.onetime_prekeys

module _ {S : Type 0} (env : Surroundings S) where
  encrypted_step-store :
      (c : Client S) (r : Option Text × LocalEncryptionService)
      → (encrypted_step env c r).1.store ≡ c.store
  encrypted_step-store c (none, s) = refl
  encrypted_step-store c (some x, s) = refl

  encrypt_step-store : (plain : Text) (c : Client S) → (encrypt_step env plain c).1.store ≡ c.store
  encrypt_step-store plain c = encrypted_step-store c _

  encrypt_keys_lem :
      (user participant : ℕ) (opks : List (OneTimePreKey Text)) (c c' : Client S)
      (dtos : List NewOnetime)
      → encrypt_keys env user participant opks c ≡ (done dtos, c')
      → All (λ d. d.user_id ≡ user) dtos × (length dtos ≡ length opks) × (c'.store ≡ c.store)
  unfolding encrypt_keys
  encrypt_keys_lem user participant [] c c' dtos h =
      let e : dtos ≡ [] = cc h in (rw e tt, rw e refl, cc h)
  encrypt_keys_lem user participant (opk ∷ opks) c c' dtos h =
      let (priv_key, c1, e1, h1) = resume-done _ (encrypt_step env opk.key_pair.0 c) dtos c' h in
      let (rest, c2, e2, h2) =
        resume-done _ (encrypt_keys env user participant opks c1) dtos c' h1 in
      let (a, n, s) = encrypt_keys_lem user participant opks c1 c2 rest e2 in
      let d : NewOnetime = record {
        id = opk.id;
        pub_key = opk.key_pair.1;
        priv_key = priv_key;
        user_id = user;
        participant_id = some participant;
      } in
      let e : dtos ≡ d ∷ rest = cc h2 in
      let same : c2 ≡ c' = cc h2 in
      (
        rw e (refl, a),
        rw e (ap suc n),
        ap (λ (x : Client S). x.store) (sym same)
            ∙ s
            ∙ ap (λ (x : End Text × Client S). x.1.store) (sym e1)
            ∙ encrypt_step-store opk.key_pair.0 c,
      )

  pub stored-store :
      (o : Option Store) (c c' : Client S)
      → stored o c ≡ (done tt, c')
      → (store : Store) × (o ≡ some store) × (c' ≡ record c { store = store })
  stored-store none c c' h = cc h
  stored-store (some store) c c' h =
      (store, refl, sym (ap (λ (x : End (Unit {0}) × Client S). x.1) h))

  with_rows-some :
      (s : Store) (o : Option (List OnetimeRow)) (s' : Store)
      → with_rows s o ≡ some s'
      → (rows : List OnetimeRow) × (o ≡ some rows) × (s' ≡ record s { onetime_prekeys = rows })
  with_rows-some s none s' h = cc h
  with_rows-some s (some rows) s' h = (rows, refl, sym (some-injective h))

  create_onetime-count :
      (user : ℕ) (dtos : List NewOnetime) (store store' : Store)
      → All (λ d. d.user_id ≡ user) dtos
      → create_onetime env.now dtos store ≡ some store'
      → onetime_count user store'.onetime_prekeys
        ≡ onetime_count user store.onetime_prekeys + length dtos
  unfolding create_onetime
  create_onetime-count user [] store store' a h = cc h
  create_onetime-count user (d ∷ dtos) store store' a h =
      let (rows, e, put) =
        with_rows-some store (insert_onetime env.now (d ∷ dtos) store.onetime_prekeys) store' h in
      ap (λ (t : Store). onetime_count user t.onetime_prekeys) put
      ∙ insert_onetime-count env.now user (d ∷ dtos) store.onetime_prekeys rows a e

  create_many-length :
      (n k : ℕ) → length (create_many_one_time_pre_keys env.crypto env.ulid n k) ≡ n
  unfolding create_many_one_time_pre_keys
  create_many-length zero k = refl
  create_many-length (suc n) k = ap suc (create_many-length n (k + 1))

  pub make_onetime-stock :
      (user : ℕ) (c c' : Client S) (payload : List (Text × Text))
      → make_onetime env user c ≡ (done payload, c')
      → stock user c' ≡ stock user c + upload_batch_size
  unfolding make_onetime
  make_onetime-stock user c c' payload h =
      let c0 : Client S = record c { generated = c.generated + upload_batch_size } in
      let opks = create_many_one_time_pre_keys env.crypto env.ulid upload_batch_size c.generated in
      let (p, c1, e1, h1) = resume-done _ (current_participant env c0) payload c' h in
      let (dtos, c2, e2, h2) = resume-done _ (encrypt_keys env user p.id opks c1) payload c' h1 in
      let (u, c3, e3, h3) =
        resume-done _ (update_store env (create_onetime env.now dtos) c2) payload c' h2 in
      let (g, same) = given-done c0.participant p c0 c1 e1 in
      let (a, n, s) = encrypt_keys_lem user p.id opks c1 c2 dtos e2 in
      let (store, made, put) = stored-store (create_onetime env.now dtos c2.store) c2 c3 e3 in
      let last : c3 ≡ c' = ap (λ (x : End (List (Text × Text)) × Client S). x.1) h3 in
      let counted = create_onetime-count user dtos c2.store store a made in
      let before : onetime_count user c2.store.onetime_prekeys ≡ stock user c =
        ap (λ (t : Store). onetime_count user t.onetime_prekeys)
          (s ∙ ap (λ (x : Client S). x.store) (sym same)) in
      ap (λ (x : Client S). stock user x) (sym last ∙ put)
      ∙ counted
      ∙ omega (arith, before, n, create_many-length upload_batch_size c.generated)
