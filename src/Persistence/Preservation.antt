-- ===== src/Persistence/Preservation.antt =====
-- The repositories' operations keep the tables well formed.
use nerdhub_chat_cli_prototy.Common.{
  ℕ, suc, ◌<◌, ◌≡◌, refl, sym, ap, ◌∙◌, inl, inr, Bool, true, false, List, [], ◌∷◌, ◌++◌, map, Text,
  ◌==◌, nat_same, nat_beq_iff, arith, Bool-cases, All-append, All-weaken, All-map, any, any-append,
  any-map, count, count-append, append-IsDistinct, map-IsDistinct, ltb, ◌&&◌, ◌||◌, not,
}
use nerdhub_chat_cli_prototy.Persistence.{
  UserRecord, User, BundleRecord, E2eeParticipant, Database, Sql, users_clash, participants_clash,
  fits_varchar, user_fits, bundle_fits, new_user, create_user, new_participant, insert_participant,
  count_participants, set_flag, update_has_e2ee_participant, create_participant, set_bundle,
  update_pre_key_bundle_by_id,
}
use nerdhub_chat_cli_prototy.Persistence.WellFormed.{
  has_user, has_participant, takes_part, IsWellFormed, takes_part_below, owner_below,
}

module _ (sql : Sql) where
  -- A refused row takes an identifier.
  skip_user :
      (db : Database)
      → IsWellFormed sql db
      → IsWellFormed sql (record db { next_user_id = suc db.next_user_id })
  skip_user db w = record {
    users_distinct = w.users_distinct;
    participants_distinct = w.participants_distinct;
    prekeys_distinct = w.prekeys_distinct;
    users_below =
        All-weaken (λ u. u.id < suc db.next_user_id) db.users (λ u h. omega arith) w.users_below;
    owners_below =
        All-weaken (λ p. p.user_id < suc db.next_user_id) db.participants (λ p h. omega arith)
          w.owners_below;
    participants_owned = w.participants_owned;
    prekeys_owned = w.prekeys_owned;
    flags = w.flags;
  }

  pub create_user-IsWellFormed :
      (now : ℕ) (fields : UserRecord) (db : Database)
      → IsWellFormed sql db
      → IsWellFormed sql (create_user sql now fields db).1
  unfolding create_user
  create_user-IsWellFormed now fields db w =
      let user = new_user sql now fields db.next_user_id in
      elim (Bool-cases (user_fits sql fields)) [
        | inr f ↦ rw f w
        | inl f ↦ elim (Bool-cases (any (λ u. users_clash sql u user) db.users)) [
          | inl e ↦ rw (f, e) (skip_user db w)
          | inr e ↦
              rw (f, e)
                (let v = skip_user db w in
                  record {
                    users_distinct =
                        append-IsDistinct (users_clash sql) db.users user e w.users_distinct;
                    participants_distinct = w.participants_distinct;
                    prekeys_distinct = w.prekeys_distinct;
                    users_below =
                        All-append (λ u. u.id < suc db.next_user_id) db.users (user ∷ [])
                          v.users_below (omega arith, tt);
                    owners_below = v.owners_below;
                    participants_owned =
                        All-weaken (λ p. has_user p.user_id (db.users ++ user ∷ []) ≡ true)
                          db.participants
                          (λ p h.
                            any-append (λ u. u.id == p.user_id) db.users (user ∷ []) ∙ rw h refl)
                          w.participants_owned;
                    prekeys_owned = w.prekeys_owned;
                    flags =
                        All-append (λ u. u.has_e2ee_participant ≡ takes_part u.id db.participants)
                          db.users (user ∷ []) w.flags
                          (
                            sym (takes_part_below db.next_user_id db.participants w.owners_below),
                            tt,
                          );
                  })
        ]
      ]

  set_flag-id : (now id : ℕ) (flag : Bool) (u : User) → (set_flag sql now id flag u).id ≡ u.id
  set_flag-id now id flag u = elim (Bool-cases (u.id == id)) [
    | inl e ↦ rw e refl
    | inr e ↦ rw e refl
  ]

  set_flag-fields :
      (now id : ℕ) (flag : Bool) (u : User) → (set_flag sql now id flag u).fields ≡ u.fields
  set_flag-fields now id flag u = elim (Bool-cases (u.id == id)) [
    | inl e ↦ rw e refl
    | inr e ↦ rw e refl
  ]

  set_flag-clash :
      (now id : ℕ) (flag : Bool) (u v : User)
      → users_clash sql (set_flag sql now id flag u) (set_flag sql now id flag v)
        ≡ users_clash sql u v
  set_flag-clash now id flag u v = rw (set_flag-id now id flag u) (
      rw (set_flag-id now id flag v)
        (rw (set_flag-fields now id flag u) (rw (set_flag-fields now id flag v) refl)))

  skip_participant :
      (db : Database)
      → IsWellFormed sql db
      → IsWellFormed sql (record db { next_participant_id = suc db.next_participant_id })
  skip_participant db w = record {
    users_distinct = w.users_distinct;
    participants_distinct = w.participants_distinct;
    prekeys_distinct = w.prekeys_distinct;
    users_below = w.users_below;
    owners_below = w.owners_below;
    participants_owned = w.participants_owned;
    prekeys_owned = w.prekeys_owned;
    flags = w.flags;
  }

  has_user-set_flag :
      (now id j : ℕ) (flag : Bool) (us : List User)
      → has_user j (map (set_flag sql now id flag) us) ≡ has_user j us
  has_user-set_flag now id j flag us =
      any-map (λ u. u.id == j) (λ u. u.id == j) (set_flag sql now id flag) us
        (λ u. rw (set_flag-id now id flag u) refl)

  -- The flag of a user after a participant was added for a user.
  flag_after :
      (now id : ℕ) (ps : List E2eeParticipant) (row : E2eeParticipant) (u : User)
      → row.user_id ≡ id
      → u.has_e2ee_participant ≡ takes_part u.id ps
      → (set_flag sql now id
          (ltb 0 (count (λ p. p.user_id == id) (ps ++ row ∷ [])))
          u).has_e2ee_participant
        ≡ takes_part u.id (ps ++ row ∷ [])
  flag_after now id ps row u own h = elim (Bool-cases (u.id == id)) [
    | inl e ↦ rw e (
        ground (
          arith,
          count-append (λ p. p.user_id == id) ps (row ∷ []),
          any-append (λ p. p.user_id == u.id) ps (row ∷ []),
          nat_beq_iff u.id id,
          e,
          own,
        ))
    | inr e ↦ rw e (
        h
        ∙ ground
            (arith, any-append (λ p. p.user_id == u.id) ps (row ∷ []), nat_beq_iff u.id id, e, own))
  ]

  -- The tables after a participant's row and its user's flag were written.
  added :
      (now : ℕ) (db : Database) (row : E2eeParticipant)
      → IsWellFormed sql db
      → any (λ p. participants_clash sql p row) db.participants ≡ false
      → has_user row.user_id db.users ≡ true
      → IsWellFormed sql (record db {
        next_participant_id = suc db.next_participant_id;
        participants = db.participants ++ row ∷ [];
        users =
            map
              (set_flag sql now row.user_id
                (ltb 0 (count (λ p. p.user_id == row.user_id) (db.participants ++ row ∷ []))))
              db.users;
      })
  added now db row w fresh owned =
      let flag = ltb 0 (count (λ p. p.user_id == row.user_id) (db.participants ++ row ∷ [])) in
      let f = set_flag sql now row.user_id flag in
      record {
        users_distinct =
            map-IsDistinct (users_clash sql) f db.users (set_flag-clash now row.user_id flag)
              w.users_distinct;
        participants_distinct =
            append-IsDistinct (participants_clash sql) db.participants row fresh
              w.participants_distinct;
        prekeys_distinct = w.prekeys_distinct;
        users_below =
            All-map (λ u. u.id < db.next_user_id) f db.users
              (λ u h. rw (set_flag-id now row.user_id flag u) h) w.users_below;
        owners_below =
            All-append (λ p. p.user_id < db.next_user_id) db.participants (row ∷ []) w.owners_below
              (owner_below db.next_user_id row.user_id db.users w.users_below owned, tt);
        participants_owned =
            All-append (λ p. has_user p.user_id (map f db.users) ≡ true) db.participants (row ∷ [])
              (All-weaken (λ p. has_user p.user_id (map f db.users) ≡ true) db.participants
                (λ p h. has_user-set_flag now row.user_id p.user_id flag db.users ∙ h)
                w.participants_owned)
              (has_user-set_flag now row.user_id row.user_id flag db.users ∙ owned, tt);
        prekeys_owned =
            All-weaken (λ k. has_participant k.participant_id (db.participants ++ row ∷ []) ≡ true)
              db.onetime_prekeys
              (λ k h.
                any-append (λ p. p.id == k.participant_id) db.participants (row ∷ []) ∙ rw h refl)
              w.prekeys_owned;
        flags =
            All-map (λ u. u.has_e2ee_participant ≡ takes_part u.id (db.participants ++ row ∷ [])) f
              db.users
              (λ u h.
                rw (set_flag-id now row.user_id flag u)
                  (flag_after now row.user_id db.participants row u refl h))
              w.flags;
      }

  pub create_participant-IsWellFormed :
      (now user_id : ℕ) (device_id : Text) (bundle : BundleRecord) (db : Database)
      → IsWellFormed sql db
      → IsWellFormed sql (create_participant sql now user_id device_id bundle db).1
  unfolding create_participant insert_participant count_participants update_has_e2ee_participant
  create_participant-IsWellFormed now user_id device_id bundle db w =
      let row = new_participant sql now user_id device_id bundle db.next_participant_id in
      elim (Bool-cases (fits_varchar sql device_id && bundle_fits sql bundle)) [
        | inr f ↦ rw f w
        | inl f ↦ elim (Bool-cases (any (λ p. participants_clash sql p row) db.participants)) [
          | inl e ↦ rw (f, e) (skip_participant db w)
          | inr e ↦ elim (Bool-cases (has_user user_id db.users)) [
            | inl h ↦ rw (f, e, h) (added now db row w e h)
            | inr h ↦ rw (f, e, h) (skip_participant db w)
          ]
        ]
      ]

  -- The update of a bundle leaves the keys of the row alone.
  set_bundle-id :
      (now id : ℕ) (bundle : BundleRecord) (p : E2eeParticipant)
      → (set_bundle sql now id bundle p).id ≡ p.id
  set_bundle-id now id bundle p = elim (Bool-cases (p.id == id)) [
    | inl e ↦ rw e refl
    | inr e ↦ rw e refl
  ]

  set_bundle-user_id :
      (now id : ℕ) (bundle : BundleRecord) (p : E2eeParticipant)
      → (set_bundle sql now id bundle p).user_id ≡ p.user_id
  set_bundle-user_id now id bundle p = elim (Bool-cases (p.id == id)) [
    | inl e ↦ rw e refl
    | inr e ↦ rw e refl
  ]

  set_bundle-device_id :
      (now id : ℕ) (bundle : BundleRecord) (p : E2eeParticipant)
      → (set_bundle sql now id bundle p).device_id ≡ p.device_id
  set_bundle-device_id now id bundle p = elim (Bool-cases (p.id == id)) [
    | inl e ↦ rw e refl
    | inr e ↦ rw e refl
  ]

  set_bundle-clash :
      (now id : ℕ) (bundle : BundleRecord) (p q : E2eeParticipant)
      → participants_clash sql (set_bundle sql now id bundle p) (set_bundle sql now id bundle q)
        ≡ participants_clash sql p q
  set_bundle-clash now id bundle p q = rw (set_bundle-id now id bundle p) (
      rw (set_bundle-id now id bundle q) (
        rw (set_bundle-user_id now id bundle p) (
          rw (set_bundle-user_id now id bundle q) (
            rw (set_bundle-device_id now id bundle p)
              (rw (set_bundle-device_id now id bundle q) refl)))))

  with_bundle-IsWellFormed :
      (now id : ℕ) (bundle : BundleRecord) (db : Database)
      → IsWellFormed sql db
      → IsWellFormed sql
          (record db { participants = map (set_bundle sql now id bundle) db.participants })
  with_bundle-IsWellFormed now id bundle db w =
      let f = set_bundle sql now id bundle in
      record {
        users_distinct = w.users_distinct;
        participants_distinct =
            map-IsDistinct (participants_clash sql) f db.participants
              (set_bundle-clash now id bundle) w.participants_distinct;
        prekeys_distinct = w.prekeys_distinct;
        users_below = w.users_below;
        owners_below =
            All-map (λ p. p.user_id < db.next_user_id) f db.participants
              (λ p h. rw (set_bundle-user_id now id bundle p) h) w.owners_below;
        participants_owned =
            All-map (λ p. has_user p.user_id db.users ≡ true) f db.participants
              (λ p h. rw (set_bundle-user_id now id bundle p) h) w.participants_owned;
        prekeys_owned =
            All-weaken (λ k. has_participant k.participant_id (map f db.participants) ≡ true)
              db.onetime_prekeys
              (λ k h.
                any-map (λ p. p.id == k.participant_id) (λ p. p.id == k.participant_id) f
                  db.participants
                  (λ p. ap (λ j. j == k.participant_id) (set_bundle-id now id bundle p))
                ∙ h)
              w.prekeys_owned;
        flags =
            All-weaken (λ u. u.has_e2ee_participant ≡ takes_part u.id (map f db.participants))
              db.users
              (λ u h.
                h
                ∙ sym (
                    any-map (λ p. p.user_id == u.id) (λ p. p.user_id == u.id) f db.participants
                      (λ p. ap (λ j. j == u.id) (set_bundle-user_id now id bundle p))))
              w.flags;
      }

  pub update_pre_key_bundle_by_id-IsWellFormed :
      (now id : ℕ) (bundle : BundleRecord) (db : Database)
      → IsWellFormed sql db
      → IsWellFormed sql (update_pre_key_bundle_by_id sql now id bundle db).1
  unfolding update_pre_key_bundle_by_id
  update_pre_key_bundle_by_id-IsWellFormed now id bundle db w =
      elim (Bool-cases (bundle_fits sql bundle || not (any (λ p. p.id == id) db.participants))) [
        | inl f ↦ rw f (with_bundle-IsWellFormed now id bundle db w)
        | inr f ↦ rw f w
      ]
