-- ===== src/Persistence/OnetimePreKeys.antt =====
-- The operations on one-time prekeys keep the tables well formed
-- (server/repository/e2ee-participant-onetime-prekey.repository.ts).
use nerdhub_chat_cli_prototy.Common.{
  subst, ℕ, ◌≡◌, refl, inl, inr, Bool, true, false, not, Option, none, some, List, [], ◌∷◌, ◌++◌,
  filter, Text, ◌==◌, nat_same, Bool-cases, Option-cases, All, All-append, All-filter, IsDistinct,
  any, append-IsDistinct, filter-IsDistinct,
}
use nerdhub_chat_cli_prototy.Persistence.{
  E2eeParticipant, OnetimePreKey, Database, Sql, prekeys_clash, insert_prekeys, insert_many,
  delete_by_participant_id, create_many_by_participant_id, select_oldest, delete_prekey,
  pop_by_participant_id, find_many_by_participant_id, first, Result, ok, err, SqlError, new_prekey,
  prekey_fits, with_rows,
}
use nerdhub_chat_cli_prototy.Persistence.WellFormed.{has_participant, IsWellFormed}

err-ok {ℓ} : {A : Type ℓ} {a : A} {e : SqlError} → err e ≡ ok a → ⊥
err-ok h = cc h

pub ok-injective {ℓ} : {A : Type ℓ} {a b : A} → ok a ≡ ok b → a ≡ b
ok-injective h = cc h

module _ (sql : Sql) where
  -- A change of the one-time prekeys alone.
  with_prekeys :
      (db : Database) (rows : List OnetimePreKey)
      → IsWellFormed sql db
      → IsDistinct (prekeys_clash sql) rows
      → All (λ k. has_participant k.participant_id db.participants ≡ true) rows
      → IsWellFormed sql (record db { onetime_prekeys = rows })
  with_prekeys db rows w d o = record {
    users_distinct = w.users_distinct;
    participants_distinct = w.participants_distinct;
    prekeys_distinct = d;
    users_below = w.users_below;
    owners_below = w.owners_below;
    participants_owned = w.participants_owned;
    prekeys_owned = o;
    flags = w.flags;
  }

  -- Rows that are kept of those there were.
  kept :
      (db : Database) (q : OnetimePreKey → Bool)
      → IsWellFormed sql db
      → IsWellFormed sql (record db { onetime_prekeys = filter q db.onetime_prekeys })
  kept db q w =
      with_prekeys db (filter q db.onetime_prekeys) w
        (filter-IsDistinct (prekeys_clash sql) q db.onetime_prekeys w.prekeys_distinct)
        (All-filter (λ k. has_participant k.participant_id db.participants ≡ true) q
          db.onetime_prekeys w.prekeys_owned)

  -- An INSERT that ends well has a first row that is neither too long nor clashes, and its participant.
  pub insert_prekeys-ok :
      (now id : ℕ) (known : Bool) (key : Text × Text) (dto : List (Text × Text))
      (rows rows' : List OnetimePreKey)
      → insert_prekeys sql now id known (key ∷ dto) rows ≡ ok rows'
      → (prekey_fits sql (new_prekey sql now id key) ≡ true)
        × (any (λ k. prekeys_clash sql k (new_prekey sql now id key)) rows ≡ false)
        × (known ≡ true)
        × (insert_prekeys sql now id known dto (rows ++ new_prekey sql now id key ∷ []) ≡ ok rows')
  unfolding insert_prekeys
  insert_prekeys-ok now id known key dto rows rows' e =
      let row = new_prekey sql now id key in
      elim (Bool-cases (prekey_fits sql row)) [
        | inr f ↦ absurd (err-ok (rw f at e))
        | inl f ↦ elim (Bool-cases (any (λ k. prekeys_clash sql k row) rows)) [
          | inl c ↦ absurd (err-ok (rw (f, c) at e))
          | inr c ↦ elim (Bool-cases known) [
            | inl k ↦ (f, c, k, rw (f, c, k) at e)
            | inr k ↦ absurd (err-ok (rw (f, c, k) at e))
          ]
        ]
      ]

  -- The rows that an INSERT leaves.
  inserted :
      (now id : ℕ) (dto : List (Text × Text)) (rows rows' : List OnetimePreKey)
      (ps : List E2eeParticipant)
      → insert_prekeys sql now id (has_participant id ps) dto rows ≡ ok rows'
      → IsDistinct (prekeys_clash sql) rows
      → All (λ k. has_participant k.participant_id ps ≡ true) rows
      → IsDistinct (prekeys_clash sql) rows'
        × All (λ k. has_participant k.participant_id ps ≡ true) rows'
  unfolding insert_prekeys
  inserted now id [] rows rows' ps e d o =
      subst
        (λ r.
          IsDistinct (prekeys_clash sql) r
          × All (λ k. has_participant k.participant_id ps ≡ true) r)
        (ok-injective e) (d, o)
  inserted now id (key ∷ dto) rows rows' ps e d o =
      let row = new_prekey sql now id key in
      let (fits, fresh, own, rest) =
        insert_prekeys-ok now id (has_participant id ps) key dto rows rows' e in
      inserted now id dto (rows ++ row ∷ []) rows' ps rest
        (append-IsDistinct (prekeys_clash sql) rows row fresh d)
        (All-append (λ k. has_participant k.participant_id ps ≡ true) rows (row ∷ []) o (own, tt))

  with_rows-IsWellFormed :
      (now id : ℕ) (dto : List (Text × Text)) (db : Database) (r : Result (List OnetimePreKey))
      → insert_prekeys sql now id (has_participant id db.participants) dto db.onetime_prekeys ≡ r
      → IsWellFormed sql db
      → IsWellFormed sql (with_rows sql db r).1
  with_rows-IsWellFormed now id dto db (err x) e w = w
  with_rows-IsWellFormed now id dto db (ok rows) e w =
      let (d, o) =
        inserted now id dto db.onetime_prekeys rows db.participants e w.prekeys_distinct
          w.prekeys_owned in
      with_prekeys db rows w d o

  insert_many-IsWellFormed :
      (now id : ℕ) (dto : List (Text × Text)) (db : Database)
      → IsWellFormed sql db
      → IsWellFormed sql (insert_many sql now id dto db).1
  unfolding insert_many
  insert_many-IsWellFormed now id [] db w = w
  insert_many-IsWellFormed now id (row ∷ dto) db w =
      with_rows-IsWellFormed now id (row ∷ dto) db
        (insert_prekeys sql now id (has_participant id db.participants) (row ∷ dto)
          db.onetime_prekeys)
        refl w

  pub create_many_by_participant_id-IsWellFormed :
      (now id : ℕ) (dto : List (Text × Text)) (flush : Bool) (db : Database)
      → IsWellFormed sql db
      → IsWellFormed sql (create_many_by_participant_id sql now id dto flush db).1
  unfolding create_many_by_participant_id delete_by_participant_id
  create_many_by_participant_id-IsWellFormed now id dto true db w =
      insert_many-IsWellFormed now id dto _ (kept db (λ k. not (k.participant_id == id)) w)
  create_many_by_participant_id-IsWellFormed now id dto false db w =
      insert_many-IsWellFormed now id dto db w

  pub delete_prekey-IsWellFormed :
      (opk : Option OnetimePreKey) (db : Database)
      → IsWellFormed sql db
      → IsWellFormed sql (delete_prekey sql opk db).1
  unfolding delete_prekey
  delete_prekey-IsWellFormed none db w = w
  delete_prekey-IsWellFormed (some opk) db w = kept db (λ k. not (sql.same_text k.id opk.id)) w

  -- What a pop is, its two statements in sequence.
  pub pop_lem :
      (id : ℕ) (db : Database)
      → let opk = first (find_many_by_participant_id sql id db) in
        pop_by_participant_id sql id db ≡ (ok opk, (delete_prekey sql opk db).1)
  unfolding pop_by_participant_id select_oldest delete_prekey
  pop_lem id db = elim (Option-cases (first (find_many_by_participant_id sql id db))) [
    | inl e ↦ rw e refl
    | inr (opk, e) ↦ rw e refl
  ]

  pub pop_by_participant_id-IsWellFormed :
      (id : ℕ) (db : Database)
      → IsWellFormed sql db
      → IsWellFormed sql (pop_by_participant_id sql id db).1
  pop_by_participant_id-IsWellFormed id db w =
      rw (pop_lem id db)
        (delete_prekey-IsWellFormed (first (find_many_by_participant_id sql id db)) db w)
