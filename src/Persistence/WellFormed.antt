-- ===== src/Persistence/WellFormed.antt =====
-- What holds of the server's tables at all times (server/database/db.migrations.ts declares the keys,
-- server/repository keeps the flag of users).
use nerdhub_chat_cli_prototy.Common.{
  ℕ, ◌<◌, ◌≡◌, refl, Bool, true, false, List, [], ◌∷◌, ◌==◌, nat_same, arith, All, IsDistinct, any,
}
use nerdhub_chat_cli_prototy.Persistence.{
  User, E2eeParticipant, Database, Sql, users_clash, participants_clash, prekeys_clash,
}

abbrev pub has_user : ℕ → List User → Bool
has_user id us = any (λ u. u.id == id) us

abbrev pub has_participant : ℕ → List E2eeParticipant → Bool
has_participant id ps = any (λ p. p.id == id) ps

-- A participant of a user is there.
abbrev pub takes_part : ℕ → List E2eeParticipant → Bool
takes_part id ps = any (λ p. p.user_id == id) ps

-- No row clashes with another, automatic identifiers are new, every participant has its user and
-- every one-time prekey its participant, and the flag of a user says whether it has a participant.
pub record IsWellFormed (sql : Sql) (db : Database) : Type 0 where
  pub users_distinct : IsDistinct (users_clash sql) db.users
  pub participants_distinct : IsDistinct (participants_clash sql) db.participants
  pub prekeys_distinct : IsDistinct (prekeys_clash sql) db.onetime_prekeys
  pub users_below : All (λ u. u.id < db.next_user_id) db.users
  pub owners_below : All (λ p. p.user_id < db.next_user_id) db.participants
  pub participants_owned : All (λ p. has_user p.user_id db.users ≡ true) db.participants
  pub prekeys_owned :
      All (λ k. has_participant k.participant_id db.participants ≡ true) db.onetime_prekeys
  pub flags : All (λ u. u.has_e2ee_participant ≡ takes_part u.id db.participants) db.users

pub takes_part_below :
    (n : ℕ) (ps : List E2eeParticipant) → All (λ p. p.user_id < n) ps → takes_part n ps ≡ false
takes_part_below n [] h = refl
takes_part_below n (p ∷ ps) (lt, h) = ground (arith, takes_part_below n ps h)

pub owner_below :
    (n id : ℕ) (us : List User) → All (λ u. u.id < n) us → has_user id us ≡ true → id < n
owner_below n id [] h e = ground (arith, e)
owner_below n id (u ∷ us) (lt, h) e = ground (arith, owner_below n id us h, e)
