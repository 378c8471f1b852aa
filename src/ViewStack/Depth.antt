-- ===== src/ViewStack/Depth.antt =====
-- The depth of the view stack (core/view-stack/tui-view-stack.ts).
use nerdhub_chat_cli_prototy.Common.{
  ℕ, zero, suc, ◌-◌, ◌≤◌, ◌<◌, ◌≡◌, refl, ◌&&◌, sym, ◌∙◌, true, false, some, List, [], ◌∷◌, ◌++◌,
  length, length-append, ltb, arith, Bool-cases, inl, inr,
}
use Prim.Native.Nat.{max, min}
use nerdhub_chat_cli_prototy.ViewStack.{
  TuiViewAction, push, pop, replace, pop_to, exit, TuiViewStack, Options, drop_last, last?, create,
  current, pop_to_loop, handle_action,
}

deep_of_test : (depth n : ℕ) → (ltb depth n && ltb 1 n) ≡ true → max depth 1 < n
deep_of_test depth n h = ground arith

shallow_of_test : (depth n : ℕ) → (ltb depth n && ltb 1 n) ≡ false → n ≤ max depth 1
shallow_of_test depth n h = ground arith

module _ {ℓ} {View : Type ℓ} where
  pub length-drop_last : (vs : List View) → length (drop_last vs) ≡ length vs - 1
  length-drop_last [] = omega arith
  length-drop_last (v ∷ []) = omega arith
  length-drop_last (v ∷ w ∷ vs) = omega (arith, length-drop_last (w ∷ vs))

  -- the first `n` views
  abbrev pub take : ℕ → List View → List View
  take zero vs = []
  take (suc n) [] = []
  take (suc n) (v ∷ vs) = v ∷ take n vs

  take_all : (n : ℕ) (vs : List View) → length vs ≤ n → take n vs ≡ vs
  take_all zero [] h = refl
  take_all zero (v ∷ vs) h = absurd (omega arith)
  take_all (suc n) [] h = refl
  take_all (suc n) (v ∷ vs) h = cc (take_all n vs (omega arith))

  take-drop_last : (n : ℕ) (vs : List View) → n < length vs → take n (drop_last vs) ≡ take n vs
  take-drop_last zero vs h = refl
  take-drop_last (suc n) [] h = absurd (omega arith)
  take-drop_last (suc n) (v ∷ []) h = absurd (omega arith)
  take-drop_last (suc n) (v ∷ w ∷ vs) h = cc (take-drop_last n (w ∷ vs) (omega arith))

  pop_to_loop-take :
      (fuel depth : ℕ) (vs : List View)
      → length vs ≤ fuel
      → pop_to_loop fuel depth vs ≡ take (max depth 1) vs
  unfolding pop_to_loop
  pop_to_loop-take zero depth [] h = ground (arith, take_all (max depth 1) [])
  pop_to_loop-take zero depth (v ∷ vs) h = absurd (omega arith)
  pop_to_loop-take (suc fuel) depth vs h =
      elim (Bool-cases (ltb depth (length vs) && ltb 1 (length vs))) [
        | inl more ↦ rw more (
            pop_to_loop-take fuel depth (drop_last vs) (omega (arith, length-drop_last vs))
            ∙ take-drop_last (max depth 1) vs (deep_of_test depth (length vs) more))
        | inr done ↦
            rw done (sym (take_all (max depth 1) vs (shallow_of_test depth (length vs) done)))
      ]

  -- "popTo" leaves the first `depth` views, or the first one where `depth` is 0; nothing is lost
  -- where the stack is not that deep, and the maximum depth stays.
  pub handle_action-pop_to :
      (s : TuiViewStack View) (depth : ℕ)
      → handle_action s (pop_to depth) ≡ (record s { stack = take (max depth 1) s.stack }, true)
  unfolding handle_action
  handle_action-pop_to s depth = cc (pop_to_loop-take (length s.stack) depth s.stack (omega arith))

  -- A stack holds a view at least, and no more than the maximum depth (or one, where that is 0).
  pub record IsBounded (s : TuiViewStack View) : Type ℓ where
    pub inhabited : 1 ≤ length s.stack
    pub bounded : length s.stack ≤ max s.max_depth 1

  length-take-le : (n : ℕ) (vs : List View) → length (take n vs) ≡ min n (length vs)
  length-take-le zero vs = omega arith
  length-take-le (suc n) [] = omega arith
  length-take-le (suc n) (v ∷ vs) = omega (arith, length-take-le n vs)

  pub create-IsBounded : (o : Options View) → IsBounded (create o)
  unfolding create
  create-IsBounded o = record { inhabited = omega arith; bounded = omega arith }

  -- Every action keeps the stack inhabited and within the maximum depth, and leaves that as it was.
  pub handle_action-IsBounded :
      (s : TuiViewStack View) (a : TuiViewAction View)
      → IsBounded s
      → IsBounded (handle_action s a).0 × ((handle_action s a).0.max_depth ≡ s.max_depth)
  unfolding handle_action
  handle_action-IsBounded s (push v) b = ground (arith, length-append s.stack (v ∷ []))
  handle_action-IsBounded s pop b = ground (arith, length-drop_last s.stack)
  handle_action-IsBounded s (replace v) b =
      ground (arith, length-drop_last s.stack, length-append (drop_last s.stack) (v ∷ []))
  handle_action-IsBounded s (pop_to d) b =
      ground (arith, pop_to_loop-take (length s.stack) d s.stack, length-take-le (max d 1) s.stack)
  handle_action-IsBounded s exit b = (b, refl)

  drop_last-append : (vs : List View) (v : View) → drop_last (vs ++ v ∷ []) ≡ vs
  drop_last-append [] v = refl
  drop_last-append (u ∷ []) v = refl
  drop_last-append (u ∷ w ∷ vs) v = cc (drop_last-append (w ∷ vs) v)

  last?-append : (vs : List View) (v : View) → last? (vs ++ v ∷ []) ≡ some v
  last?-append [] v = refl
  last?-append (u ∷ []) v = refl
  last?-append (u ∷ w ∷ vs) v = last?-append (w ∷ vs) v

  -- Below the maximum depth a pushed view becomes the current one, and "pop" takes it away again.
  pub handle_action-pop-push :
      (s : TuiViewStack View) (v : View)
      → IsBounded s
      → length s.stack < s.max_depth
      → (current (handle_action s (push v)).0 ≡ some v)
        × (handle_action (handle_action s (push v)).0 pop ≡ (s, true))
  unfolding handle_action current
  handle_action-pop-push s v b h =
      ground
        (arith, last?-append s.stack v, drop_last-append s.stack v, length-append s.stack (v ∷ []))
