-- ===== src/Pathname/Normal.antt =====
-- Normal pathnames (normalizeRequestPathname of core/router/router.core.utils.ts).
use nerdhub_chat_cli_prototy.Common.{
  ℕ, zero, suc, ◌≡◌, refl, ap, ◌∙◌, ◌≢◌, Bool, true, false, ◌&&◌, [], ◌∷◌, ◌++◌, ◌==◌, nat_same,
  nat_beq_iff, if◌then◌else◌, Text, arith, inl, inr, Bool-cases,
}
use nerdhub_chat_cli_prototy.Pathname.{
  slash, is_empty, drop_leading, drop_trailing, normalize_request_pathname,
}

abbrev pub slashes : ℕ → Text
slashes zero = []
slashes (suc n) = slash ∷ slashes n

-- no slash at the start
abbrev pub NotLeading : Text → Type 0
NotLeading [] = Unit
NotLeading (c ∷ s) = c ≢ slash

-- no slash at the end
abbrev pub NotTrailing : Text → Type 0
NotTrailing [] = Unit
NotTrailing (c ∷ []) = c ≢ slash
NotTrailing (c ∷ d ∷ s) = NotTrailing (d ∷ s)

and_false : (b : Bool) → (b && false) ≡ false
and_false true = refl
and_false false = refl

drop_leading-slashes : (s : Text) → (n : ℕ) × (s ≡ slashes n ++ drop_leading s)
unfolding drop_leading
drop_leading-slashes [] = (0, refl)
drop_leading-slashes (c ∷ s) = elim (Bool-cases (c == slash)) [
  | inl e ↦
      let (n, h) = drop_leading-slashes s in
      (suc n, rw e (ground (arith, (nat_beq_iff c slash).0 e, h)))
  | inr e ↦ (0, rw e refl)
]

drop_leading-NotLeading : (s : Text) → NotLeading (drop_leading s)
unfolding drop_leading
drop_leading-NotLeading [] = tt
drop_leading-NotLeading (c ∷ s) = elim (Bool-cases (c == slash)) [
  | inl e ↦ rw e (drop_leading-NotLeading s)
  | inr e ↦ rw e (λ same. ground (arith, nat_beq_iff c slash, same, e))
]

-- What `drop_trailing` makes of a text: the text without some slashes at its end.
pub record Trimmed (s t : Text) : Type 0 where
  pub count : ℕ
  pub shape : s ≡ t ++ slashes count
  pub clean : NotTrailing t

trim :
    (c : ℕ) (s t : Text)
    → Trimmed s t
    → Trimmed (c ∷ s) (if c == slash && is_empty t then [] else c ∷ t)
trim c s [] h = elim (Bool-cases (c == slash)) [
  | inl e ↦ rw e (record {
    count = suc h.count;
    shape = ground (arith, (nat_beq_iff c slash).0 e, h.shape);
    clean = tt;
  })
  | inr e ↦ rw e (record {
    count = h.count;
    shape = ap (λ r. c ∷ r) h.shape;
    clean = λ same. ground (arith, nat_beq_iff c slash, same, e);
  })
]
trim c s (d ∷ t) h =
    rw (and_false (c == slash))
      (record { count = h.count; shape = ap (λ r. c ∷ r) h.shape; clean = h.clean })

drop_trailing-Trimmed : (s : Text) → Trimmed s (drop_trailing s)
unfolding drop_trailing
drop_trailing-Trimmed [] = record { count = 0; shape = refl; clean = tt }
drop_trailing-Trimmed (c ∷ s) = trim c s (drop_trailing s) (drop_trailing-Trimmed s)

drop_trailing-NotLeading : (s : Text) → NotLeading s → NotLeading (drop_trailing s)
unfolding drop_trailing
drop_trailing-NotLeading [] h = tt
drop_trailing-NotLeading (c ∷ s) h = elim (Bool-cases (c == slash && is_empty (drop_trailing s))) [
  | inl e ↦ rw e tt
  | inr e ↦ rw e h
]

-- A pathname is its normal form between slashes, and the normal form neither starts nor ends with
-- a slash.
pub normalize_request_pathname_lem :
    (s : Text)
    → ((n : ℕ) × (m : ℕ) × (s ≡ slashes n ++ (normalize_request_pathname s ++ slashes m)))
      × NotLeading (normalize_request_pathname s)
      × NotTrailing (normalize_request_pathname s)
unfolding normalize_request_pathname
normalize_request_pathname_lem s =
    let (n, e) = drop_leading-slashes s in
    let t = drop_trailing-Trimmed (drop_leading s) in
    (
      (n, t.count, e ∙ ap (λ r. slashes n ++ r) t.shape),
      drop_trailing-NotLeading (drop_leading s) (drop_leading-NotLeading s),
      t.clean,
    )

drop_leading_clean : (s : Text) → NotLeading s → drop_leading s ≡ s
unfolding drop_leading
drop_leading_clean [] h = refl
drop_leading_clean (c ∷ s) h = ground (arith, nat_beq_iff c slash, h)

drop_leading-slashes_append : (n : ℕ) (s : Text) → drop_leading (slashes n ++ s) ≡ drop_leading s
unfolding drop_leading
drop_leading-slashes_append zero s = refl
drop_leading-slashes_append (suc n) s = drop_leading-slashes_append n s

drop_trailing-slashes : (m : ℕ) → drop_trailing (slashes m) ≡ []
unfolding drop_trailing
drop_trailing-slashes zero = refl
drop_trailing-slashes (suc m) = rw (drop_trailing-slashes m)

drop_trailing_clean : (s : Text) (m : ℕ) → NotTrailing s → drop_trailing (s ++ slashes m) ≡ s
unfolding drop_trailing
drop_trailing_clean [] m h = drop_trailing-slashes m
drop_trailing_clean (c ∷ []) m h =
    rw (drop_trailing-slashes m) (ground (arith, nat_beq_iff c slash, h))
drop_trailing_clean (c ∷ d ∷ s) m h =
    rw (drop_trailing_clean (d ∷ s) m h) (rw (and_false (c == slash)))

NotLeading-append : (t s : Text) → NotLeading t → t ≢ [] → NotLeading (t ++ s)
NotLeading-append [] s h full = absurd (full refl)
NotLeading-append (c ∷ t) s h full = h

-- Whatever slashes stand before and behind it, a text that neither starts nor ends with a slash is
-- what normalizing gives.
pub normalize_request_pathname-slashes :
    (n m : ℕ) (t : Text)
    → NotLeading t
    → NotTrailing t
    → t ≢ []
    → normalize_request_pathname (slashes n ++ (t ++ slashes m)) ≡ t
unfolding normalize_request_pathname
normalize_request_pathname-slashes n m t h k full =
    rw (drop_leading-slashes_append n (t ++ slashes m)) (
      rw (drop_leading_clean (t ++ slashes m) (NotLeading-append t (slashes m) h full))
        (drop_trailing_clean t m k))
