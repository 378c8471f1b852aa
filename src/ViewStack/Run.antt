-- ===== src/ViewStack/Run.antt =====
-- The loop of `run` (core/view-stack/tui-view-stack.ts).
use Prim.Native.Nat.add
use nerdhub_chat_cli_prototy.Common.{
  ℕ, zero, ◌≤◌, ap, ◌∙◌, Bool-cases, suc, ◌+◌, ◌-◌, ◌<◌, ◌⊎◌, ◌≡◌, refl, false, Option, none, some,
  List, [], ◌∷◌, length, arith, inl, inr,
}
use nerdhub_chat_cli_prototy.ViewStack.{
  TuiViewAction, exit, TuiViewStack, last?, current, handle_action, settle, Progress, returned,
  rejected, looping, round, go_on, run,
}
use nerdhub_chat_cli_prototy.ViewStack.Depth.{IsBounded, handle_action-IsBounded}

exit_of_stop {ℓ} :
    {View : Type ℓ} (s : TuiViewStack View) (a : TuiViewAction View)
    → (handle_action s a).1 ≡ false
    → (a ≡ exit) × ((handle_action s a).0 ≡ s)
unfolding handle_action
exit_of_stop s exit h = (refl, refl)
exit_of_stop s a h = ground arith

last?_inhabited {ℓ} :
    {View : Type ℓ} (vs : List View) → 1 ≤ length vs → (v : View) × (last? vs ≡ some v)
last?_inhabited [] h = absurd (omega arith)
last?_inhabited (v ∷ []) h = (v, refl)
last?_inhabited (v ∷ w ∷ vs) h = last?_inhabited (w ∷ vs) (omega arith)

current_of_IsBounded {ℓ} :
    {View : Type ℓ} (s : TuiViewStack View) → IsBounded s → (v : View) × (current s ≡ some v)
unfolding current
current_of_IsBounded s b = last?_inhabited s.stack b.inhabited

module _ {ℓ} {View World : Type ℓ}
    (render : View → World → Option (TuiViewAction View) × World) where
  -- `Rounds s w t x`: some rounds of the loop lead from `s` and `w` to `t` and `x`.
  pub data Rounds (s : TuiViewStack View) (w : World) : TuiViewStack View → World → Type ℓ where
    here : Rounds s w s w
    next :
        {t u : TuiViewStack View} {x y : World}
        → Rounds s w t x
        → round render t x ≡ looping u y
        → Rounds s w u y

  -- What a round makes of a bounded stack.
  abbrev pub Keeps : Progress View World → Type ℓ
  Keeps (looping t x) = IsBounded t
  Keeps (rejected t x) = IsBounded t
  Keeps (returned t x) =
      IsBounded t
      × ((v : View) × (u : World) × (current t ≡ some v) × (render v u ≡ (some exit, x)))

  settle-Keeps :
      (s : TuiViewStack View) (v : View) (w : World)
      → IsBounded s
      → current s ≡ some v
      → Keeps (settle s (render v w))
  unfolding settle
  settle-Keeps s v w b e = go (render v w) refl
    where
      go : (r : Option (TuiViewAction View) × World) → render v w ≡ r → Keeps (settle s r)
      go (none, x) h = b
      go (some a, x) h = elim (Bool-cases (handle_action s a).1) [
        | inl more ↦ rw (more, settle) (handle_action-IsBounded s a b).0
        | inr done ↦
            rw (done, settle)
              (let (last, same) = exit_of_stop s a done in
                rw same (b, (v, w, e, h ∙ ap (λ c. (some c, x)) last)))
      ]

  round-Keeps : (s : TuiViewStack View) (w : World) → IsBounded s → Keeps (round render s w)
  unfolding round
  round-Keeps s w b =
      let (v, e) = current_of_IsBounded s b in rw (e, round) (settle-Keeps s v w b e)

  go_on-Keeps :
      (more : TuiViewStack View → World → Progress View World)
      → ((t : TuiViewStack View) (x : World) → IsBounded t → Keeps (more t x))
      → (r : Progress View World) → Keeps r
      → Keeps (go_on more r)
  go_on-Keeps more h (returned t x) k = k
  go_on-Keeps more h (rejected t x) k = k
  go_on-Keeps more h (looping t x) k = h t x k

  -- From a bounded stack, `run` returns only because the current view asked to exit, however many
  -- rounds are made, and the stack is bounded at every end, a rejected promise included.
  pub run-Keeps :
      (fuel : ℕ) (s : TuiViewStack View) (w : World) → IsBounded s → Keeps (run render fuel s w)
  unfolding run
  run-Keeps zero s w b = b
  run-Keeps (suc fuel) s w b =
      go_on-Keeps (run render fuel) (run-Keeps fuel) (round render s w) (round-Keeps s w b)

  run-Rounds :
      {s : TuiViewStack View} {w : World} {t : TuiViewStack View} {x : World}
      → Rounds s w t x
      → (n : ℕ) × ((fuel : ℕ) → run render (n + fuel) s w ≡ run render fuel t x)
  unfolding run
  run-Rounds here = (0, λ fuel. ap (λ n. run render n _ _) (add.zero fuel))
  run-Rounds {s} {w} (next {t} {u} {x} {y} r e) =
      let (n, h) = run-Rounds r in
      let shift : (fuel : ℕ) → n + 1 + fuel ≡ n + suc fuel = λ fuel. omega arith in
      (
        n + 1,
        λ fuel.
            ap (λ k. run render k s w) (shift fuel) ∙ h (suc fuel) ∙ ap (go_on (run render fuel)) e,
      )

  abbrev pub ending : Option (TuiViewAction View) → TuiViewStack View → World → Progress View World
  ending none t y = rejected t y
  ending (some action) t y = returned t y

  settle_last :
      (action : Option (TuiViewAction View)) (t : TuiViewStack View) (y : World)
      → (action ≡ none) ⊎ (action ≡ some exit)
      → settle t (action, y) ≡ ending action t y
  unfolding settle handle_action
  settle_last none t y last = refl
  settle_last (some exit) t y last = refl
  settle_last (some a) t y last = ground arith

  -- Where rounds lead to a view whose promise is fulfilled with "exit" or rejected, `run` ends
  -- there, with every number of rounds that is large enough.
  pub run_ends :
      {s : TuiViewStack View} {w : World} {t : TuiViewStack View} {x : World}
      → Rounds s w t x
      → (v : View) (action : Option (TuiViewAction View)) (y : World) → current t ≡ some v
      → render v x ≡ (action, y)
      → (action ≡ none) ⊎ (action ≡ some exit)
      → (n : ℕ) × ((fuel : ℕ) → n < fuel → run render fuel s w ≡ ending action t y)
  unfolding run round
  run_ends {s} {w} {t} {x} r v action y e h last =
      let (n, enough) = run-Rounds r in
      let ends : (more : TuiViewStack View → World → Progress View World)
          → go_on more (round render t x) ≡ ending action t y =
        λ more.
          rw (e, round) (rw h (rw (settle_last action t y last) (ending_stops more action))) in
      (
        n,
        λ fuel lt.
            let same : fuel ≡ n + suc (fuel - n - 1) = omega arith in
            ap (λ k. run render k s w) same ∙ enough (suc (fuel - n - 1)) ∙ ends _,
      )
    where
      ending_stops :
          (more : TuiViewStack View → World → Progress View World)
          (action : Option (TuiViewAction View))
          → go_on more (ending action t y) ≡ ending action t y
      ending_stops more none = refl
      ending_stops more (some a) = refl
