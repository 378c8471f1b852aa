-- ===== src/Pathname/Patterns.antt =====
-- Patterns of route pathnames (getRoutePathnameRegExpPattern of core/router/router.core.utils.ts).
use nerdhub_chat_cli_prototy.Common.{
  ℕ, ◌+◌, ◌≡◌, refl, sym, ap, ◌∙◌, ◌≢◌, true, false, none, some, [], ◌∷◌, ◌++◌, ◌==◌, nat_same,
  Text, codes, inl, inr, Bool-cases, All, same_of_ne,
}
use nerdhub_chat_cli_prototy.Pathname.{
  or_wildcard, name_after, after_slash, slash, normalize_request_pathname, slot_names,
  find_wildcard, wildcard_name, is_misplaced, resolve_slots, resolve_wildcard,
  get_route_pathname_reg_exp_pattern,
}

-- No slot and no wildcard can start at a unit.
abbrev pub IsPlainUnit : ℕ → Type 0
IsPlainUnit c = (c ≢ b':') × (c ≢ b'*')

slot_names_plain : (s : Text) → All IsPlainUnit s → slot_names s ≡ []
unfolding slot_names
slot_names_plain [] h = refl
slot_names_plain (c ∷ s) ((h, k), hs) = rw (same_of_ne c b':' h) (slot_names_plain s hs)

wildcard_name_plain : (s : Text) → All IsPlainUnit s → wildcard_name s ≡ none
unfolding wildcard_name
wildcard_name_plain [] h = refl
wildcard_name_plain (c ∷ s) ((h, k), hs) =
    rw (same_of_ne b'*' c (λ e. k (sym e)), wildcard_name) refl

name_after_plain : (c : ℕ) (s : Text) → All IsPlainUnit s → name_after (after_slash (c ∷ s)) ≡ none
name_after_plain c s hs = elim (Bool-cases (slash == c)) [
  | inl e ↦ rw e (wildcard_name_plain s hs)
  | inr e ↦ rw e refl
]

find_wildcard_plain : (i : ℕ) (s : Text) → All IsPlainUnit s → find_wildcard i s ≡ none
unfolding find_wildcard
find_wildcard_plain i [] h = refl
find_wildcard_plain i (c ∷ s) (h, hs) =
    ap
      (λ o.
        or_wildcard i true (name_after (after_slash (c ∷ s)))
          (or_wildcard i false o (find_wildcard (i + 1) s)))
      (wildcard_name_plain (c ∷ s) (h, hs))
    ∙ ap (or_wildcard i true (name_after (after_slash (c ∷ s)))) (find_wildcard_plain (i + 1) s hs)
    ∙ ap (λ o. or_wildcard i true o none) (name_after_plain c s hs)

-- A pathname in whose normal form no colon and no asterisk stands is accepted, its pattern is the
-- normal form between the two ends of a text, and it has no parameters.
pub get_route_pathname_reg_exp_pattern-plain :
    (pathname : Text)
    → All IsPlainUnit (normalize_request_pathname pathname)
    → get_route_pathname_reg_exp_pattern pathname
      ≡ some (record {
        reg_exp_pattern = codes "^" ++ normalize_request_pathname pathname ++ codes "$";
        params_types = [];
      })
unfolding get_route_pathname_reg_exp_pattern is_misplaced resolve_wildcard resolve_slots
get_route_pathname_reg_exp_pattern-plain pathname h =
    rw (find_wildcard_plain 0 (normalize_request_pathname pathname) h)
      (rw (slot_names_plain (normalize_request_pathname pathname) h) refl)
