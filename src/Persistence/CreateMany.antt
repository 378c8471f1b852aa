-- ===== src/Persistence/CreateMany.antt =====
-- What `createManyByParticipantId` leaves when it ends well and when it fails
-- (server/repository/e2ee-participant-onetime-prekey.repository.ts).
use nerdhub_chat_cli_prototy.Common.{
  ℕ, ◌≡◌, ◌≢◌, refl, sym, ap, ◌∙◌, ◌⊎◌, inl, inr, Bool, true, false, not, List, [], ◌∷◌, ◌++◌, map,
  filter, Text, ◌==◌, nat_same, if◌then◌else◌, any, All,
}
use mathlib.Core.List.{append_assoc, append-nil}
use nerdhub_chat_cli_prototy.Persistence.{
  OnetimePreKey, Database, Sql, SqlError, Result, ok, err, syntax_error, new_prekey, prekey_fits,
  with_rows, insert_prekeys, insert_many, delete_by_participant_id, create_many_by_participant_id,
}
use nerdhub_chat_cli_prototy.Persistence.OnetimePreKeys.{ok-injective, insert_prekeys-ok}

module _ (sql : Sql) where
  -- What an INSERT of rows that ends well leaves.
  abbrev IsInserted :
      ℕ → ℕ → Bool → List (Text × Text) → List OnetimePreKey → List OnetimePreKey → Type 0
  IsInserted now id known dto rows rows' =
      (rows' ≡ rows ++ map (new_prekey sql now id) dto)
      × All (λ k. prekey_fits sql (new_prekey sql now id k) ≡ true) dto
      × (dto ≢ [] → known ≡ true)

  insert_prekeys-IsInserted :
      (now id : ℕ) (known : Bool) (dto : List (Text × Text)) (rows rows' : List OnetimePreKey)
      → insert_prekeys sql now id known dto rows ≡ ok rows'
      → IsInserted now id known dto rows rows'
  unfolding insert_prekeys
  insert_prekeys-IsInserted now id known [] rows rows' e =
      (sym (ok-injective e) ∙ sym (append-nil rows), tt, λ n. absurd (n refl))
  insert_prekeys-IsInserted now id known (key ∷ dto) rows rows' e =
      let row = new_prekey sql now id key in
      let (fits, fresh, own, rest) = insert_prekeys-ok sql now id known key dto rows rows' e in
      let (same, all, _) =
        insert_prekeys-IsInserted now id known dto (rows ++ row ∷ []) rows' rest in
      (same ∙ append_assoc rows (row ∷ []) (map (new_prekey sql now id) dto), (fits, all), λ n. own)

  -- The INSERT adds a row for each key of a request that is not empty, or fails and changes nothing.
  abbrev Outcome : ℕ → ℕ → List (Text × Text) → Database → Result (Unit {0}) × Database → Type 0
  Outcome now id dto db (r, db') =
      (r ≡ ok tt)
        × (dto ≢ [])
        × (any (λ p. p.id == id) db.participants ≡ true)
        × All (λ k. prekey_fits sql (new_prekey sql now id k) ≡ true) dto
        × (db'
            ≡ record db { onetime_prekeys = db.onetime_prekeys ++ map (new_prekey sql now id) dto })
      ⊎ ((e : SqlError) × (r ≡ err e) × (db' ≡ db))

  with_rows-Outcome :
      (now id : ℕ) (key : Text × Text) (dto : List (Text × Text)) (db : Database)
      (r : Result (List OnetimePreKey))
      → insert_prekeys sql now id
          (any (λ p. p.id == id) db.participants)
          (key ∷ dto)
          db.onetime_prekeys
        ≡ r
      → Outcome now id (key ∷ dto) db (with_rows sql db r)
  with_rows-Outcome now id key dto db (err e) h = inr (e, refl, refl)
  with_rows-Outcome now id key dto db (ok rows) h =
      let (same, fits, known) =
        insert_prekeys-IsInserted now id (any (λ p. p.id == id) db.participants) (key ∷ dto)
          db.onetime_prekeys rows h in
      inl
        (refl, λ n. cc n, known (λ n. cc n), fits, ap (λ x. record db { onetime_prekeys = x }) same)

  insert_many-Outcome :
      (now id : ℕ) (dto : List (Text × Text)) (db : Database)
      → Outcome now id dto db (insert_many sql now id dto db)
  unfolding insert_many
  insert_many-Outcome now id [] db = inr (syntax_error, refl, refl)
  insert_many-Outcome now id (key ∷ dto) db =
      with_rows-Outcome now id key dto db
        (insert_prekeys sql now id (any (λ p. p.id == id) db.participants) (key ∷ dto)
          db.onetime_prekeys)
        refl

  -- the tables before the INSERT
  abbrev pub flushed : ℕ → Bool → Database → Database
  flushed id flush db = record db {
    onetime_prekeys =
        if flush
        then filter (λ k. not (k.participant_id == id)) db.onetime_prekeys
        else db.onetime_prekeys;
  }

  -- A call that ends well was made with a request that is not empty and that fits, for a participant
  -- that is there; it leaves exactly the rows there were, without those of the participant where
  -- `flush` is set, and behind them a row for each key of the request, in its order and with its
  -- identifier and public key. One that fails, as an empty request does, has still taken away all keys
  -- of the participant where `flush` is set, for the transaction is committed, and nothing else.
  pub create_many_outcome :
      (now id : ℕ) (dto : List (Text × Text)) (flush : Bool) (db : Database)
      → let (r, db') = create_many_by_participant_id sql now id dto flush db in
        let before = flushed id flush db in
        (r ≡ ok tt)
          × (dto ≢ [])
          × (any (λ p. p.id == id) db.participants ≡ true)
          × All (λ k. prekey_fits sql (new_prekey sql now id k) ≡ true) dto
          × (db' ≡ record before {
            onetime_prekeys = before.onetime_prekeys ++ map (new_prekey sql now id) dto;
          })
        ⊎ ((e : SqlError) × (r ≡ err e) × (db' ≡ before))
  unfolding create_many_by_participant_id delete_by_participant_id
  create_many_outcome now id dto false db = insert_many-Outcome now id dto db
  create_many_outcome now id dto true db =
      insert_many-Outcome now id dto (delete_by_participant_id sql id db).1
