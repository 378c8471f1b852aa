-- ===== src/Persistence/Tests.antt =====
-- Concrete tables, and the theorems about them at concrete inputs.
use nerdhub_chat_cli_prototy.Common.{
  ℕ, ◌+◌, ◌≤◌, ◌≡◌, refl, ◌⊎◌, inl, inr, true, false, none, some, List, [], ◌∷◌, filter, ltb,
  Bool-cases, All-weaken, text_beq_iff, Text, ◌==◌, nat_same, text_same, if◌then◌else◌, arith, All,
  count, length, ◌≢◌, any, map, ◌++◌,
}
use mathlib.Core.List.Permᴰ
use mathlib.Core.List.{Memᴰ, Permᴰ}
use nerdhub_chat_cli_prototy.Persistence.{
  BundleRecord, UserRecord, Database, OnetimePreKey, Sql, SqlError, ok, err, pop_by_participant_id,
  create_many_by_participant_id, insert_many, insert_prekeys, delete_by_participant_id, new_prekey,
  prekey_fits, select_oldest, delete_prekey, find_many_by_participant_id,
}
use nerdhub_chat_cli_prototy.Persistence.WellFormed.{IsWellFormed}
use nerdhub_chat_cli_prototy.Persistence.Reachable.{
  Call, creates_user, creates_participant, creates_prekeys, updates_bundle, pops_prekey, apply_all,
  migrated, reachable-IsWellFormed,
}
use nerdhub_chat_cli_prototy.Persistence.Pop.{InOrder, SqlLaws, pop_oldest}
use nerdhub_chat_cli_prototy.Persistence.CreateMany.{flushed, create_many_outcome}

-- a database that sorts by insertion and compares texts by their characters
unfoldable insert : OnetimePreKey → List OnetimePreKey → List OnetimePreKey
insert k [] = k ∷ []
insert k (l ∷ ls) =
    let rest = insert k ls in if ltb l.created_at k.created_at then l ∷ rest else k ∷ l ∷ ls

unfoldable sorted : List OnetimePreKey → List OnetimePreKey
sorted [] = []
sorted (k ∷ ks) = insert k (sorted ks)

abbrev by_characters : Sql
unfolding sorted
by_characters = record {
  same_text = λ a b. a == b;
  characters = length;
  bytes = length;
  by_created_at = sorted;
}

insert-Perm : (k : OnetimePreKey) (ls : List OnetimePreKey) → Permᴰ (insert k ls) (k ∷ ls)
unfolding insert
insert-Perm k [] = Permᴰ.refl (k ∷ [])
insert-Perm k (l ∷ ls) = elim (Bool-cases (ltb l.created_at k.created_at)) [
  | inl e ↦ rw e (Permᴰ.trans (Permᴰ.cons refl (insert-Perm k ls)) (Permᴰ.swap refl refl))
  | inr e ↦ rw e (Permᴰ.refl (k ∷ l ∷ ls))
]

sorted-Perm : (ks : List OnetimePreKey) → Permᴰ (sorted ks) ks
unfolding sorted
sorted-Perm [] = Permᴰ.nil
sorted-Perm (k ∷ ks) = Permᴰ.trans (insert-Perm k (sorted ks)) (Permᴰ.cons refl (sorted-Perm ks))

insert-All :
    (t : ℕ) (k : OnetimePreKey) (ls : List OnetimePreKey)
    → t ≤ k.created_at
    → All (λ l. t ≤ l.created_at) ls
    → All (λ l. t ≤ l.created_at) (insert k ls)
unfolding insert
insert-All t k [] h a = (h, tt)
insert-All t k (l ∷ ls) h (p, a) = elim (Bool-cases (ltb l.created_at k.created_at)) [
  | inl e ↦ rw e (p, insert-All t k ls h a)
  | inr e ↦ rw e (h, (p, a))
]

insert-InOrder : (k : OnetimePreKey) (ls : List OnetimePreKey) → InOrder ls → InOrder (insert k ls)
unfolding insert
insert-InOrder k [] o = (tt, tt)
insert-InOrder k (l ∷ ls) (a, o) = elim (Bool-cases (ltb l.created_at k.created_at)) [
  | inl e ↦
      let h : l.created_at ≤ k.created_at = ground (arith, e) in
      rw e (insert-All l.created_at k ls h a, insert-InOrder k ls o)
  | inr e ↦
      let h : k.created_at ≤ l.created_at = ground (arith, e) in
      rw e (
        (h, All-weaken (λ x. k.created_at ≤ x.created_at) ls (λ x p. omega (arith, h, p)) a),
        (a, o),
      )
]

sorted-InOrder : (ks : List OnetimePreKey) → InOrder (sorted ks)
unfolding sorted
sorted-InOrder [] = tt
sorted-InOrder (k ∷ ks) = insert-InOrder k (sorted ks) (sorted-InOrder ks)

text_beq_refl : (a : Text) → (a == a) ≡ true
text_beq_refl a = (text_beq_iff a a).1 refl

text_beq-sym : (a b : Text) → (a == b) ≡ (b == a)
text_beq-sym a b = ground (arith, text_beq_iff a b, text_beq_iff b a)

by_characters-laws : SqlLaws by_characters
unfolding sorted
by_characters-laws = record {
  same-refl = text_beq_refl;
  same-sym = text_beq-sym;
  same_rows = sorted-Perm;
  in_order = sorted-InOrder;
}

abbrev ada : UserRecord
ada = record {
  firstname = 1 ∷ [];
  lastname = 2 ∷ [];
  username = 3 ∷ [];
  email = 4 ∷ [];
  password = 5 ∷ [];
}

abbrev bundle : BundleRecord
bundle = record {
  pub_identity_key = 1 ∷ [];
  pub_signed_prekey = 2 ∷ [];
  signed_prekey_signature = 3 ∷ [];
}

-- A user signs up and registers a device twice, which publishes keys, of which one is taken.
abbrev calls : List Call
calls =
    creates_user 10 ada
    ∷ creates_user 11 ada
    ∷ creates_participant 12 1 (7 ∷ []) bundle
    ∷ creates_participant 12 1 (7 ∷ []) bundle
    ∷ creates_prekeys 13 1 ((1 ∷ [], 2 ∷ []) ∷ (3 ∷ [], 4 ∷ []) ∷ []) false
    ∷ updates_bundle 14 1 bundle
    ∷ pops_prekey 1
    ∷ []

reachable-IsWellFormed_example : IsWellFormed by_characters (apply_all by_characters calls migrated)
reachable-IsWellFormed_example = reachable-IsWellFormed by_characters calls

abbrev key : ℕ → ℕ → ℕ → OnetimePreKey
key n at_ id = record { id = n ∷ []; pub_key = n ∷ []; created_at = at_; participant_id = id }

abbrev stored : Database
stored = record migrated { onetime_prekeys = key 1 20 1 ∷ key 2 10 1 ∷ key 3 5 2 ∷ [] }

-- The key of the participant that was created first.
pop_test :
    pop_by_participant_id by_characters 1 stored
    ≡ (ok (some (key 2 10 1)), record stored { onetime_prekeys = key 1 20 1 ∷ key 3 5 2 ∷ [] })
unfolding pop_by_participant_id select_oldest delete_prekey find_many_by_participant_id sorted
    insert
pop_test = refl

pop_oldest_example :
    let (r, db') = pop_by_participant_id by_characters 1 stored in
    ((r ≡ ok none)
      × (db' ≡ stored)
      × (count (λ k. k.participant_id == 1) stored.onetime_prekeys ≡ 0))
    ⊎ ((k : OnetimePreKey) × (r ≡ ok (some k))
        × Memᴰ k stored.onetime_prekeys
        × (k.participant_id ≡ 1)
        × All
            (λ l. k.created_at ≤ l.created_at)
            (filter (λ l. l.participant_id == 1) stored.onetime_prekeys)
        × (count (λ l. l.created_at == 10) stored.onetime_prekeys
            ≡ (if k.created_at == 10 then 1 else 0)
              + count (λ l. l.created_at == 10) db'.onetime_prekeys)
        × (db' ≡ record stored { onetime_prekeys = db'.onetime_prekeys }))
unfolding by_characters
pop_oldest_example =
    pop_oldest by_characters by_characters-laws 1 stored (λ k. k.created_at == 10)
      (refl, (refl, (refl, tt)))

-- A participant publishes a key in place of those it had.
abbrev published : Database
published = record stored {
  participants =
      record {
        id = 1;
        device_id = [];
        bundle = bundle;
        created_at = 0;
        updated_at = 0;
        user_id = 1;
      }
      ∷ [];
}

abbrev fresh_key : List (Text × Text)
fresh_key = (8 ∷ [], 9 ∷ []) ∷ []

create_many_test : create_many_by_participant_id by_characters 30 1 fresh_key true published ≡ (
  ok tt,
  record published {
    onetime_prekeys =
        key 3 5 2
        ∷ record { id = 8 ∷ []; pub_key = 9 ∷ []; created_at = 30; participant_id = 1 }
        ∷ [];
  },
)
unfolding create_many_by_participant_id insert_many insert_prekeys delete_by_participant_id
    by_characters sorted
create_many_test = refl

create_many_outcome_example :
    let (r, db') = create_many_by_participant_id by_characters 30 1 fresh_key true published in
    let before = flushed by_characters 1 true published in
    (r ≡ ok tt)
      × (fresh_key ≢ [])
      × (any (λ p. p.id == 1) published.participants ≡ true)
      × All (λ k. prekey_fits by_characters (new_prekey by_characters 30 1 k) ≡ true) fresh_key
      × (db' ≡ record before {
        onetime_prekeys = before.onetime_prekeys ++ map (new_prekey by_characters 30 1) fresh_key;
      })
    ⊎ ((e : SqlError) × (r ≡ err e) × (db' ≡ before))
create_many_outcome_example = create_many_outcome by_characters 30 1 fresh_key true published
