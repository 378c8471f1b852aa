-- ===== src/Common/JsMap.antt =====
-- The built-in `Map`, as the list of its entries in insertion order.
use mathlib.Core.Path.{◌≡◌, refl}
use mathlib.Core.Logic.{◌≢◌}
use mathlib.Core.Bool.{Bool, true, false}
use mathlib.Core.Option.{Option, none, some}
use mathlib.Core.List.{List, [], ◌∷◌}
use native.Mathlib.Omega.{arith}
use nerdhub_chat_cli_prototy.Common.Tests.{SameValue, ◌==◌, if◌then◌else◌}

-- `a ?? b`
abbrev pub or_else {ℓ} : {V : Type ℓ} → Option V → Option V → Option V
or_else none o = o
or_else (some v) o = some v

module _ {ℓ κ} {K : Type ℓ} {V : Type κ} ⦃e : SameValue K⦄ where
  abbrev pub get : K → List (K × V) → Option V
  get k [] = none
  get k ((j, v) ∷ m) = if j == k then some v else get k m

  -- An entry that is there keeps its place.
  unfoldable pub set : K → V → List (K × V) → List (K × V)
  set k v [] = (k, v) ∷ []
  set k v ((j, w) ∷ m) = if j == k then (j, v) ∷ m else (j, w) ∷ set k v m

  unfoldable pub delete : K → List (K × V) → List (K × V)
  delete k [] = []
  delete k ((j, v) ∷ m) = let rest = delete k m in if j == k then rest else (j, v) ∷ rest

  pub get-set :
      (k j : K) (v : V) (m : List (K × V))
      → get j (set k v m) ≡ (if k == j then some v else get j m)
  unfolding set
  get-set k j v [] = refl
  get-set k j v ((i, w) ∷ m) =
      ground (arith, e.same_iff k j, e.same_iff i k, e.same_iff i j, get-set k j v m)

  pub get-delete :
      (k j : K) (m : List (K × V)) → get j (delete k m) ≡ (if k == j then none else get j m)
  unfolding delete
  get-delete k j [] = ground arith
  get-delete k j ((i, w) ∷ m) =
      ground (arith, e.same_iff k j, e.same_iff i k, e.same_iff i j, get-delete k j m)

  -- No key stands in two entries.
  abbrev pub HasUniqueKeys : List (K × V) → Type κ
  HasUniqueKeys [] = Unit
  HasUniqueKeys ((k, v) ∷ m) = (get k m ≡ none) × HasUniqueKeys m

  pub set-HasUniqueKeys :
      (k : K) (v : V) (m : List (K × V)) → HasUniqueKeys m → HasUniqueKeys (set k v m)
  unfolding set
  set-HasUniqueKeys k v [] h = (refl, tt)
  set-HasUniqueKeys k v ((j, w) ∷ m) (fresh, h) =
      ground (arith, e.same_iff j k, e.same_iff k j, get-set k j v m, set-HasUniqueKeys k v m h)

  pub delete-HasUniqueKeys :
      (k : K) (m : List (K × V)) → HasUniqueKeys m → HasUniqueKeys (delete k m)
  unfolding delete
  delete-HasUniqueKeys k [] h = tt
  delete-HasUniqueKeys k ((j, w) ∷ m) (fresh, h) =
      ground (arith, e.same_iff k j, get-delete k j m, delete-HasUniqueKeys k m h)

  pub set-ne-nil : (k : K) (v : V) (m : List (K × V)) → set k v m ≢ []
  unfolding set
  set-ne-nil k v [] h = cc
  set-ne-nil k v ((j, w) ∷ m) h = ground arith

  -- `{ ...m, ...over }`: the later entries win.
  unfoldable pub assign : List (K × V) → List (K × V) → List (K × V)
  assign m [] = m
  assign m ((k, v) ∷ over) = assign (set k v m) over

  abbrev pub has : K → List (K × V) → Bool
  has k m = elim (get k m) [ none ↦ false | some _ ↦ true ]

  pub get-assign :
      (j : K) (m over : List (K × V))
      → HasUniqueKeys over
      → get j (assign m over) ≡ or_else (get j over) (get j m)
  unfolding assign
  get-assign j m [] h = refl
  get-assign j m ((k, v) ∷ over) (fresh, h) =
      ground (arith, e.same_iff k j, get-assign j (set k v m) over h, get-set k j v m)

  pub assign-HasUniqueKeys :
      (m over : List (K × V)) → HasUniqueKeys m → HasUniqueKeys (assign m over)
  unfolding assign
  assign-HasUniqueKeys m [] h = h
  assign-HasUniqueKeys m ((k, v) ∷ over) h =
      assign-HasUniqueKeys (set k v m) over (set-HasUniqueKeys k v m h)
