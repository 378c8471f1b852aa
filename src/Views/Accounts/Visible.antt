-- ===== src/Views/Accounts/Visible.antt =====
-- User names and addresses of the right form have no white space, so that trimming leaves them
-- (cli/ui/register.ui.ts).
use nerdhub_chat_cli_prototy.Common.{
  ℕ, ◌≡◌, refl, inl, inr, Bool, true, false, ◌&&◌, [], ◌∷◌, Text, ◌==◌, nat_same, nat_beq_iff,
  Bool-cases, leb, arith,
}
use nerdhub_chat_cli_prototy.Views.Accounts.{
  is_alphanumeric, all_units, is_user_unit, is_host_unit, is_last_unit, is_domain_end, split_at,
  is_email,
}

-- the printed characters of ASCII but the blank
abbrev pub is_visible : ℕ → Bool
is_visible c = leb 33 c && leb c 126

all_units-weaken :
    (p q : ℕ → Bool)
    → ((c : ℕ) → p c ≡ true → q c ≡ true)
    → (t : Text) → all_units p t ≡ true
    → all_units q t ≡ true
all_units-weaken p q w [] h = refl
all_units-weaken p q w (c ∷ t) h = ground (arith, h, w c, all_units-weaken p q w t)

alphanumeric-visible : (c : ℕ) → is_alphanumeric c ≡ true → is_visible c ≡ true
alphanumeric-visible c h = ground (arith, h)

pub name-visible : (t : Text) → all_units is_alphanumeric t ≡ true → all_units is_visible t ≡ true
name-visible t h = all_units-weaken is_alphanumeric is_visible alphanumeric-visible t h

split_at-visible :
    (kind : ℕ → Bool) (separator : ℕ) (rest : Text → Bool)
    → ((c : ℕ) → kind c ≡ true → is_visible c ≡ true)
    → is_visible separator ≡ true
    → ((t : Text) → rest t ≡ true → all_units is_visible t ≡ true)
    → (b : Bool) (t : Text) → split_at kind separator rest b t ≡ true
    → all_units is_visible t ≡ true
unfolding split_at
split_at-visible kind separator rest k s r b [] h = refl
split_at-visible kind separator rest k s r b (c ∷ t) h = elim (Bool-cases (c == separator)) [
  | inl e ↦
      let x : (b && rest t) ≡ true = rw e at h in
      ground (arith, x, s, r t, nat_beq_iff c separator, e)
  | inr e ↦
      let x : (kind c && split_at kind separator rest true t) ≡ true = rw e at h in
      ground (arith, x, k c, split_at-visible kind separator rest k s r true t)
]

user_unit-visible : (c : ℕ) → is_user_unit c ≡ true → is_visible c ≡ true
user_unit-visible c h =
    ground
      (arith, h, nat_beq_iff c b'_', nat_beq_iff c b'.', nat_beq_iff c b'+', nat_beq_iff c b'-')

host_unit-visible : (c : ℕ) → is_host_unit c ≡ true → is_visible c ≡ true
host_unit-visible c h = ground (arith, h, nat_beq_iff c b'-')

last_unit-visible : (c : ℕ) → is_last_unit c ≡ true → is_visible c ≡ true
last_unit-visible c h = ground (arith, h, nat_beq_iff c b'.', nat_beq_iff c b'-')

domain_end-visible : (t : Text) → is_domain_end t ≡ true → all_units is_visible t ≡ true
domain_end-visible [] h = refl
domain_end-visible (c ∷ t) h = all_units-weaken is_last_unit is_visible last_unit-visible (c ∷ t) h

pub email-visible : (t : Text) → is_email t ≡ true → all_units is_visible t ≡ true
email-visible t h =
    split_at-visible is_user_unit b'@' (split_at is_host_unit b'.' is_domain_end false)
      user_unit-visible refl
      (λ u k.
        split_at-visible is_host_unit b'.' is_domain_end host_unit-visible refl domain_end-visible
          false u k)
      false t h
