-- ===== src/Views/Prompts.antt =====
-- What prompts do with a session: they take answers.
use nerdhub_chat_cli_prototy.Common.{
  ◌≡◌, refl, sym, ap, ◌∙◌, inl, inr, Bool, true, List, [], ◌∷◌, ◌++◌, String, Text, Bool-cases, any,
  ◌==◌, string_same,
}
use mathlib.Core.List.{append_assoc}
use nerdhub_chat_cli_prototy.Views.{
  Answer, typed, chosen, confirmed, pressed, Session, Finish, done, navigates, exits, throws, waits,
  View, pure, resume, with_answers, select_from, select, confirm_from, confirm, input_from,
}

-- A step that is done has a first part that is done.
pub resume-done {ℓ κ} :
    {S : Type 0} {A : Type ℓ} {B : Type κ} (f : A → View S B) (r : Finish A × Session S) (b : B)
    (s' : Session S)
    → resume f r ≡ (done b, s')
    → (a : A) × (s : Session S) × (r ≡ (done a, s)) × (f a s ≡ (done b, s'))
resume-done f (done a, s) b s' h = (a, s, refl, h)
resume-done f (navigates name from, s) b s' h = cc h
resume-done f (exits, s) b s' h = cc h
resume-done f (throws, s) b s' h = cc h
resume-done f (waits, s) b s' h = cc h

pub done-injective {ℓ} :
    {S : Type 0} {A : Type ℓ} (a b : A) (s s' : Session S)
    → ◌≡◌ {A = Finish A × Session S} (done a, s) (done b, s')
    → a ≡ b
done-injective a b s s' h = cc h

-- Two continuations that agree wherever the first part is done.
pub resume-agree {ℓ κ} :
    {S : Type 0} {A : Type ℓ} {B : Type κ} (f g : A → View S B) (r : Finish A × Session S)
    → ((a : A) (s : Session S) → r ≡ (done a, s) → f a s ≡ g a s)
    → resume f r ≡ resume g r
resume-agree f g (done a, s) h = h a s refl
resume-agree f g (navigates name from, s) h = refl
resume-agree f g (exits, s) h = refl
resume-agree f g (throws, s) h = refl
resume-agree f g (waits, s) h = refl

-- All that changes is that answers are taken.
abbrev pub Takes : {S : Type 0} → Session S → Session S → Type 0
Takes s s' =
    (s'.client ≡ s.client)
    × (s'.files ≡ s.files)
    × (taken : List Answer) × (s.answers ≡ taken ++ s'.answers)

pub Takes-refl : {S : Type 0} (s : Session S) → Takes s s
Takes-refl s = (refl, refl, [], refl)

pub Takes-trans : {S : Type 0} (s t u : Session S) → Takes s t → Takes t u → Takes s u
Takes-trans s t u (c, f, taken, a) (d, g, more, b) = (
  d ∙ c,
  g ∙ f,
  taken ++ more,
  a ∙ ap (λ x. taken ++ x) b ∙ sym (append_assoc taken more u.answers),
)

pub Takes-with_answers :
    {S : Type 0} (s s' : Session S) (taken rest : List Answer)
    → s' ≡ with_answers rest s
    → s.answers ≡ taken ++ rest
    → Takes s s'
Takes-with_answers {S} s s' taken rest put e = (
  ap (λ (x : Session S). x.client) put,
  ap (λ (x : Session S). x.files) put,
  taken,
  e ∙ ap (λ (x : Session S). taken ++ x.answers) (sym put),
)

module _ {S : Type 0} where
  select_from_lem :
      (offered : List String) (answers : List Answer) (s s' : Session S) (c : String)
      → select_from offered answers s ≡ (done c, s')
      → (rest : List Answer) × (answers ≡ chosen c ∷ rest) × (s' ≡ with_answers rest s)
  select_from_lem offered [] s s' c h = cc h
  select_from_lem offered (chosen d ∷ rest) s s' c h =
      elim (Bool-cases (any (λ o. o == d) offered)) [
        | inl taken ↦
            let x : ◌≡◌ {A = Finish String × Session S} (done d, with_answers rest s) (done c, s') =
              rw taken at h in
            let same : d ≡ c = cc x in
            (
              rest,
              ap (λ y. chosen y ∷ rest) same,
              sym (ap (λ (y : Finish String × Session S). y.1) x),
            )
        | inr other ↦
            let x : ◌≡◌ {A = Finish String × Session S} (waits, s) (done c, s') = rw other at h in
            cc x
      ]
  select_from_lem offered (typed t ∷ rest) s s' c h = cc h
  select_from_lem offered (confirmed b ∷ rest) s s' c h = cc h
  select_from_lem offered (pressed ∷ rest) s s' c h = cc h

  -- what was chosen
  pub select_lem :
      (offered : List String) (s s' : Session S) (c : String)
      → select offered s ≡ (done c, s')
      → (rest : List Answer) × (s.answers ≡ chosen c ∷ rest) × (s' ≡ with_answers rest s)
  select_lem offered s s' c h = select_from_lem offered s.answers s s' c h

  pub select-Takes :
      (offered : List String) (s s' : Session S) (c : String)
      → select offered s ≡ (done c, s')
      → Takes s s'
  select-Takes offered s s' c h =
      let (rest, a, put) = select_lem offered s s' c h in
      Takes-with_answers s s' (chosen c ∷ []) rest put a

  confirm_from_lem :
      (answers : List Answer) (s s' : Session S) (b : Bool)
      → confirm_from answers s ≡ (done b, s')
      → (rest : List Answer) × (answers ≡ confirmed b ∷ rest) × (s' ≡ with_answers rest s)
  confirm_from_lem [] s s' b h = cc h
  confirm_from_lem (confirmed d ∷ rest) s s' b h = (rest, ap (λ x. x ∷ rest) (cc h), cc h)
  confirm_from_lem (typed t ∷ rest) s s' b h = cc h
  confirm_from_lem (chosen t ∷ rest) s s' b h = cc h
  confirm_from_lem (pressed ∷ rest) s s' b h = cc h

  -- what was answered to a question
  pub confirm_lem :
      (s s' : Session S) (b : Bool)
      → confirm s ≡ (done b, s')
      → (rest : List Answer) × (s.answers ≡ confirmed b ∷ rest) × (s' ≡ with_answers rest s)
  confirm_lem s s' b h = confirm_from_lem s.answers s s' b h

  -- A text that is taken was typed, and passes the check.
  pub input_from_lem :
      (p : Text → Bool) (answers : List Answer) (s s' : Session S) (t : Text)
      → input_from (λ u. pure (p u)) answers s ≡ (done t, s')
      → (taken : List Answer) × (rest : List Answer) × (answers ≡ (taken ++ typed t ∷ rest))
        × (s' ≡ with_answers rest s)
        × (p t ≡ true)
  unfolding input_from
  input_from_lem p [] s s' t h = cc h
  input_from_lem p (typed u ∷ rest) s s' t h = elim (Bool-cases (p u)) [
    | inl good ↦
        let x : ◌≡◌ {A = Finish Text × Session S} (done u, with_answers rest s) (done t, s') =
          rw good at h in
        let same : u ≡ t = cc x in
        (
          [],
          rest,
          ap (λ v. typed v ∷ rest) same,
          sym (ap (λ (y : Finish Text × Session S). y.1) x),
          ap p (sym same) ∙ good,
        )
    | inr bad ↦
        let x : input_from (λ v. pure (p v)) rest (with_answers rest s) ≡ (done t, s') =
          rw bad at h in
        let (taken, left, a, b, c) = input_from_lem p rest (with_answers rest s) s' t x in
        (typed u ∷ taken, left, ap (λ y. typed u ∷ y) a, b, c)
  ]
  input_from_lem p (chosen c ∷ rest) s s' t h = cc h
  input_from_lem p (confirmed b ∷ rest) s s' t h = cc h
  input_from_lem p (pressed ∷ rest) s s' t h = cc h
