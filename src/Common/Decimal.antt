-- ===== src/Common/Decimal.antt =====
-- Numbers in decimal notation: what `Number.prototype.toString` and `parseInt` do with identifiers.
use Prim.Native.Nat.{ℕ, zero, suc, ◌+◌, ◌*◌, ◌-◌, ◌/◌, ◌%◌, ◌<◌}
use mathlib.Core.Path.{◌≡◌, refl, ◌∙◌, ap, sym, subst}
use mathlib.Core.Logic.{inl, inr}
use mathlib.Core.Bool.{Bool, true, false, ◌&&◌, not}
use mathlib.Core.Option.{Option, none, some}
use mathlib.Core.List.{[], ◌∷◌, ◌++◌, append_assoc, append-nil}
use native.Mathlib.Omega.{arith}
use nerdhub_chat_cli_prototy.Common.Tests.{ltb, if◌then◌else◌, Bool-cases}
use nerdhub_chat_cli_prototy.Common.CodeUnits.{Text}

-- The digits of a number below the fuel.
unfoldable pub digits : ℕ → ℕ → Text
digits zero n = []
digits (suc f) n =
    let front = digits f (n / 10) in if ltb n 10 then (48 + n) ∷ [] else front ++ (48 + n % 10) ∷ []

unfoldable pub to_string : ℕ → Text
unfolding digits
to_string n = digits (suc n) n

abbrev pub is_digit : ℕ → Bool
is_digit c = not (ltb c 48) && ltb c 58

-- The value of the digits that a text starts with, after those read before.
unfoldable pub read_digits : ℕ → Text → ℕ
read_digits a [] = a
read_digits a (c ∷ s) =
    let rest = read_digits (a * 10 + (c - 48)) s in if is_digit c then rest else a

-- `parseInt`; none stands for NaN. White space, a sign and the prefix `0x`, which `parseInt` accepts
-- in front, are left out: subjects that the server signs have none.
unfoldable pub parse_int : Text → Option ℕ
unfolding read_digits
parse_int [] = none
parse_int (c ∷ s) = if is_digit c then some (read_digits 0 (c ∷ s)) else none

read_one : (a d : ℕ) (s : Text) → d < 10 → read_digits a ((48 + d) ∷ s) ≡ read_digits (a * 10 + d) s
unfolding read_digits
read_one a d s h =
    let e : is_digit (48 + d) ≡ true = ground (arith, h) in
    rw e (ap (λ b. read_digits (a * 10 + b) s) (omega arith))

read-digits : (f n : ℕ) (s : Text) → n < f → read_digits 0 (digits f n ++ s) ≡ read_digits n s
unfolding digits
read-digits zero n s h = absurd (omega (arith, h))
read-digits (suc f) n s h = elim (Bool-cases (ltb n 10)) [
  | inl e ↦ rw e (read_one 0 n s (ground (arith, e)) ∙ ap (λ m. read_digits m s) (omega arith))
  | inr e ↦ rw e (
      ap (read_digits 0) (append_assoc (digits f (n / 10)) ((48 + n % 10) ∷ []) s)
      ∙ read-digits f (n / 10) ((48 + n % 10) ∷ s) (ground (arith, e, h))
      ∙ read_one (n / 10) (n % 10) s (omega arith)
      ∙ ap (λ m. read_digits m s) (omega arith))
]

abbrev starts_with_digit : Text → Bool
starts_with_digit [] = false
starts_with_digit (c ∷ s) = is_digit c

digits-starts : (f n : ℕ) (s : Text) → starts_with_digit (digits (suc f) n ++ s) ≡ true
unfolding digits
digits-starts zero n s = elim (Bool-cases (ltb n 10)) [
  | inl e ↦ rw e (ground (arith, e))
  | inr e ↦ rw e (ground arith)
]
digits-starts (suc f) n s = elim (Bool-cases (ltb n 10)) [
  | inl e ↦ rw e (ground (arith, e))
  | inr e ↦ rw e (
      ap starts_with_digit (append_assoc (digits (suc f) (n / 10)) ((48 + n % 10) ∷ []) s)
      ∙ digits-starts f (n / 10) ((48 + n % 10) ∷ s))
]

parse_int_lem : (s : Text) → starts_with_digit s ≡ true → parse_int s ≡ some (read_digits 0 s)
unfolding parse_int
parse_int_lem [] h = cc h
parse_int_lem (c ∷ s) h = rw h refl

-- A number is read back from its decimal notation.
pub parse_int-to_string : (n : ℕ) → parse_int (to_string n) ≡ some n
unfolding to_string read_digits
parse_int-to_string n =
    subst (λ t. parse_int t ≡ some n) (append-nil (digits (suc n) n))
      (parse_int_lem (digits (suc n) n ++ []) (digits-starts n n [])
        ∙ ap some (read-digits (suc n) n [] (omega arith)))

nonempty : (s t : Text) → s ≡ t → starts_with_digit s ≡ true → (c : ℕ) × (r : Text) × (t ≡ c ∷ r)
nonempty [] t e h = cc h
nonempty (c ∷ s) t e h = (c, s, sym e)

-- The decimal notation is not empty.
pub to_string-cases : (n : ℕ) → (c : ℕ) × (s : Text) × (to_string n ≡ c ∷ s)
unfolding to_string
to_string-cases n =
    nonempty (digits (suc n) n ++ []) (digits (suc n) n) (append-nil (digits (suc n) n))
      (digits-starts n n [])
