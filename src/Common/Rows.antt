-- ===== src/Common/Rows.antt =====
-- Rows of a table: tests that some row passes, rows without clashes, and updates of rows.
use Prim.Native.Nat.{ℕ, ◌+◌}
use mathlib.Core.Path.{◌≡◌, refl, ◌∙◌}
use mathlib.Core.Bool.{Bool, false, ◌||◌}
use mathlib.Core.List.{List, [], ◌∷◌, ◌++◌, map}
use native.Mathlib.Omega.{arith}
use nerdhub_chat_cli_prototy.Common.Tests.{if◌then◌else◌}
use nerdhub_chat_cli_prototy.Common.Lists.{All, filter}

module _ {ℓ} {A : Type ℓ} where
  abbrev pub any : (A → Bool) → List A → Bool
  any p [] = false
  any p (x ∷ xs) = p x || any p xs

  -- how many rows pass a test
  abbrev pub count : (A → Bool) → List A → ℕ
  count p [] = 0
  count p (x ∷ xs) = (if p x then 1 else 0) + count p xs

  -- No row clashes with one behind it.
  abbrev pub IsDistinct : (A → A → Bool) → List A → Type 0
  IsDistinct clash [] = Unit
  IsDistinct clash (x ∷ xs) = (any (clash x) xs ≡ false) × IsDistinct clash xs

  pub any-append : (p : A → Bool) (xs ys : List A) → any p (xs ++ ys) ≡ (any p xs || any p ys)
  any-append p [] ys = refl
  any-append p (x ∷ xs) ys = ground (arith, any-append p xs ys)

  pub count-append : (p : A → Bool) (xs ys : List A) → count p (xs ++ ys) ≡ count p xs + count p ys
  count-append p [] ys = omega arith
  count-append p (x ∷ xs) ys = omega (arith, count-append p xs ys)

  pub append-IsDistinct :
      (clash : A → A → Bool) (xs : List A) (y : A)
      → any (λ x. clash x y) xs ≡ false
      → IsDistinct clash xs
      → IsDistinct clash (xs ++ y ∷ [])
  append-IsDistinct clash [] y h d = (refl, tt)
  append-IsDistinct clash (x ∷ xs) y h (e, d) = (
    any-append (clash x) xs (y ∷ []) ∙ ground (arith, h, e),
    append-IsDistinct clash xs y (ground (arith, h)) d,
  )

  pub any-filter-false :
      (p q : A → Bool) (xs : List A) → any p xs ≡ false → any p (filter q xs) ≡ false
  any-filter-false p q [] h = refl
  any-filter-false p q (x ∷ xs) h = ground (arith, any-filter-false p q xs, h)

  pub filter-IsDistinct :
      (clash : A → A → Bool) (q : A → Bool) (xs : List A)
      → IsDistinct clash xs
      → IsDistinct clash (filter q xs)
  filter-IsDistinct clash q [] d = tt
  filter-IsDistinct clash q (x ∷ xs) (e, d) =
      ground (arith, any-filter-false (clash x) q xs e, filter-IsDistinct clash q xs d)

  -- An update that no test of clashes sees.
  pub any-map :
      (p q : A → Bool) (f : A → A) (xs : List A)
      → ((x : A) → p (f x) ≡ q x)
      → any p (map f xs) ≡ any q xs
  any-map p q f [] h = refl
  any-map p q f (x ∷ xs) h = rw (h x, any-map p q f xs h) refl

  pub map-IsDistinct :
      (clash : A → A → Bool) (f : A → A) (xs : List A)
      → ((x y : A) → clash (f x) (f y) ≡ clash x y)
      → IsDistinct clash xs
      → IsDistinct clash (map f xs)
  map-IsDistinct clash f [] h d = tt
  map-IsDistinct clash f (x ∷ xs) h (e, d) =
      (any-map (clash (f x)) (clash x) f xs (h x) ∙ e, map-IsDistinct clash f xs h d)

module _ {ℓ κ} {A : Type ℓ} (P : A → Type κ) where
  pub All-map :
      {Q : A → Type κ} (f : A → A) (xs : List A)
      → ((x : A) → Q x → P (f x))
      → All Q xs
      → All P (map f xs)
  All-map f [] h a = tt
  All-map f (x ∷ xs) h (p, a) = (h x p, All-map f xs h a)

  pub All-filter : (q : A → Bool) (xs : List A) → All P xs → All P (filter q xs)
  All-filter q [] a = tt
  All-filter q (x ∷ xs) (p, a) = ground (arith, All-filter q xs a, p)

  pub All-weaken : {Q : A → Type κ} (xs : List A) → ((x : A) → Q x → P x) → All Q xs → All P xs
  All-weaken [] h a = tt
  All-weaken (x ∷ xs) h (p, a) = (h x p, All-weaken xs h a)
