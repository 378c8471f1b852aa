-- ===== src/Persistence/Pop.antt =====
-- How one-time prekeys are handed out and stored again
-- (server/repository/e2ee-participant-onetime-prekey.repository.ts).
use nerdhub_chat_cli_prototy.Common.{
  ℕ, ◌+◌, ◌≤◌, ◌≡◌, refl, sym, ap, ◌∙◌, ◌⊎◌, inl, inr, Bool, true, false, not, none, some, List, [],
  ◌∷◌, filter, filter_yes, filter_no, Text, ◌==◌, nat_same, nat_beq_iff, if◌then◌else◌, arith,
  Bool-cases, List-cases, All, All-weaken, IsDistinct, any, count, subst,
}
use mathlib.Core.List.Permᴰ
use mathlib.Core.List.{Memᴰ, Permᴰ}
use nerdhub_chat_cli_prototy.Persistence.{
  OnetimePreKey, Database, Sql, ok, prekeys_clash, find_many_by_participant_id, delete_prekey,
  pop_by_participant_id,
}
use nerdhub_chat_cli_prototy.Persistence.OnetimePreKeys.{pop_lem}

-- Each row was created no later than those behind it.
abbrev pub InOrder : List OnetimePreKey → Type 0
InOrder [] = Unit
InOrder (k ∷ ks) = All (λ l. k.created_at ≤ l.created_at) ks × InOrder ks

-- What the code relies on: equality of texts is reflexive and symmetric, and `ORDER BY created_at
-- ASC` gives the same rows, older ones first.
pub record SqlLaws (sql : Sql) : Type 0 where
  pub same-refl : (a : Text) → sql.same_text a a ≡ true
  pub same-sym : (a b : Text) → sql.same_text a b ≡ sql.same_text b a
  pub same_rows : (rows : List OnetimePreKey) → Permᴰ (sql.by_created_at rows) rows
  pub in_order : (rows : List OnetimePreKey) → InOrder (sql.by_created_at rows)

module _ {ℓ κ} {A : Type ℓ} (P : A → Type κ) where
  All-Perm : (xs ys : List A) → Permᴰ xs ys → All P xs → All P ys
  All-Perm _ _ Permᴰ.nil a = tt
  All-Perm (x ∷ xs) (y ∷ ys) (Permᴰ.cons e d) (p, a) = (subst P e p, All-Perm xs ys d a)
  All-Perm _ _ (Permᴰ.swap e f) (p, (q, a)) = (subst P f q, (subst P e p, a))
  All-Perm xs zs (Permᴰ.trans {l₂ = ys} d e) a = All-Perm ys zs e (All-Perm xs ys d a)

module _ {ℓ} {A : Type ℓ} where
  All-there : (xs : List A) → All (λ x. Memᴰ x xs) xs
  All-there [] = tt
  All-there (x ∷ xs) =
      (Memᴰ.head refl, All-weaken (λ y. Memᴰ y (x ∷ xs)) xs (λ y m. Memᴰ.tail m) (All-there xs))

  -- What passes a filter was there and passes the test.
  filter_there : (q : A → Bool) (xs : List A) → All (λ x. Memᴰ x xs × (q x ≡ true)) (filter q xs)
  filter_there q [] = tt
  filter_there q (x ∷ xs) =
      let rest =
        All-weaken (λ y. Memᴰ y (x ∷ xs) × (q y ≡ true)) (filter q xs) (λ y m. (Memᴰ.tail m.0, m.1))
          (filter_there q xs) in
      elim (Bool-cases (q x)) [
        | inl e ↦ rw (filter_yes q x xs e) ((Memᴰ.head refl, e), rest)
        | inr e ↦ rw (filter_no q x xs e) rest
      ]

  count-filter_none : (q : A → Bool) (xs : List A) → filter q xs ≡ [] → count q xs ≡ 0
  count-filter_none q [] h = refl
  count-filter_none q (x ∷ xs) h = ground (arith, count-filter_none q xs)

-- Where no row passes a test, the rows that fail it are all.
count-filter_all :
    (p q : OnetimePreKey → Bool) (rows : List OnetimePreKey)
    → any q rows ≡ false
    → count p (filter (λ l. not (q l)) rows) ≡ count p rows
count-filter_all p q [] h = refl
count-filter_all p q (l ∷ rows) h = ground (arith, count-filter_all p q rows)

any_Mem :
    (q : OnetimePreKey → Bool) (k : OnetimePreKey) (rows : List OnetimePreKey)
    → any q rows ≡ false
    → Memᴰ k rows
    → q k ≡ false
any_Mem q k [] h m = elim m [ ]
any_Mem q k (l ∷ rows) h (Memᴰ.head e) = ap q e ∙ ground (arith, h)
any_Mem q k (l ∷ rows) h (Memᴰ.tail m) = any_Mem q k rows (ground (arith, h)) m

none_left {ℓ} : {A : Type ℓ} (xs : List A) → Permᴰ [] xs → xs ≡ []
none_left [] d = refl
none_left (x ∷ xs) d = absurd (All-Perm (λ y. ⊥) [] (x ∷ xs) d tt).0

module _ (sql : Sql) (laws : SqlLaws sql) where
  any-sym :
      (k : OnetimePreKey) (rows : List OnetimePreKey)
      → any (λ l. sql.same_text l.id k.id) rows ≡ any (prekeys_clash sql k) rows
  any-sym k [] = refl
  any-sym k (l ∷ rows) = rw (laws.same-sym l.id k.id, any-sym k rows) refl

  -- The row that is deleted is the only one that goes.
  deleted_once :
      (k : OnetimePreKey) (rows : List OnetimePreKey)
      → IsDistinct (prekeys_clash sql) rows
      → Memᴰ k rows
      → (p : OnetimePreKey → Bool)
      → count p rows
        ≡ (if p k then 1 else 0) + count p (filter (λ l. not (sql.same_text l.id k.id)) rows)
  deleted_once k [] d m p = elim m [ ]
  deleted_once k (l ∷ rows) (d, ds) (Memᴰ.head e) p =
      subst
        (λ x.
          count p (l ∷ rows)
          ≡ (if p x then 1 else 0)
            + count p (filter (λ y. not (sql.same_text y.id x.id)) (l ∷ rows)))
        (sym e)
        (ap (λ n. (if p l then 1 else 0) + n)
          (sym (
            ap (count p)
              (filter_no (λ y. not (sql.same_text y.id l.id)) l rows (ap not (laws.same-refl l.id)))
            ∙ count-filter_all p (λ y. sql.same_text y.id l.id) rows (any-sym l rows ∙ d))))
  deleted_once k (l ∷ rows) (d, ds) (Memᴰ.tail m) p =
      rw
        (filter_yes (λ y. not (sql.same_text y.id k.id)) l rows
          (ap not (any_Mem (prekeys_clash sql l) k rows d m)))
        (omega (arith, deleted_once k rows ds m p))

  -- A pop gives nothing and changes nothing where the participant has no key. Otherwise it gives a
  -- key of the participant such that no key of the participant is older, takes exactly that row
  -- away (whatever rows are counted, there are as many as before, less one if this row is counted),
  -- and leaves the other tables as they are. No two one-time prekeys may clash before.
  pub pop_oldest :
      (id : ℕ) (db : Database) (p : OnetimePreKey → Bool)
      → IsDistinct (prekeys_clash sql) db.onetime_prekeys
      → let (r, db') = pop_by_participant_id sql id db in
        ((r ≡ ok none) × (db' ≡ db) × (count (λ k. k.participant_id == id) db.onetime_prekeys ≡ 0))
        ⊎ ((k : OnetimePreKey) × (r ≡ ok (some k))
            × Memᴰ k db.onetime_prekeys
            × (k.participant_id ≡ id)
            × All
                (λ l. k.created_at ≤ l.created_at)
                (filter (λ l. l.participant_id == id) db.onetime_prekeys)
            × (count p db.onetime_prekeys ≡ (if p k then 1 else 0) + count p db'.onetime_prekeys)
            × (db' ≡ record db { onetime_prekeys = db'.onetime_prekeys }))
  unfolding delete_prekey find_many_by_participant_id
  pop_oldest id db p d =
      let mine : OnetimePreKey → Bool = λ k. k.participant_id == id in
      let found = filter mine db.onetime_prekeys in
      rw (pop_lem sql id db) (elim (List-cases (sql.by_created_at found)) [
        | inl e ↦ rw e (
            inl (
              refl,
              refl,
              count-filter_none mine db.onetime_prekeys
                  (none_left found (subst (λ x. Permᴰ x found) e (laws.same_rows found))),
            ))
        | inr (k, rest, e) ↦
            let perm = subst (λ x. Permᴰ x found) e (laws.same_rows found) in
            let order : InOrder (k ∷ rest) = subst InOrder e (laws.in_order found) in
            let there =
              (All-Perm (λ x. Memᴰ x db.onetime_prekeys × (mine x ≡ true)) found (k ∷ rest)
                (Permᴰ.symm perm) (filter_there mine db.onetime_prekeys)).0 in
            rw e (
              inr (
                k,
                refl,
                there.0,
                (nat_beq_iff k.participant_id id).0 there.1,
                All-Perm (λ l. k.created_at ≤ l.created_at) (k ∷ rest) found perm
                    (omega arith, order.0),
                deleted_once k db.onetime_prekeys d there.0 p,
                refl,
              ))
      ])
