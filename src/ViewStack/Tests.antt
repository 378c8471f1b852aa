-- ===== src/ViewStack/Tests.antt =====
-- Runs of the view stack, over views that are their own actions.
use nerdhub_chat_cli_prototy.Common.{
  ℕ, ◌≡◌, refl, ◌<◌, true, Option, none, some, List, [], ◌∷◌, arith, inr,
}
use nerdhub_chat_cli_prototy.ViewStack.{
  TuiViewAction, push, pop_to, exit, TuiViewStack, current, handle_action, returned, settle, round,
  run,
}
use nerdhub_chat_cli_prototy.ViewStack.Depth.{
  IsBounded, handle_action-IsBounded, handle_action-pop_to,
}
use nerdhub_chat_cli_prototy.ViewStack.Run.{Rounds, here, next, run_ends}

abbrev home : TuiViewStack ℕ
home = record { stack = 1 ∷ []; max_depth = 3 }

abbrev deep : TuiViewStack ℕ
deep = record { stack = 1 ∷ 2 ∷ 3 ∷ []; max_depth = 3 }

deep-IsBounded : IsBounded deep
deep-IsBounded = record { inhabited = omega arith; bounded = omega arith }

home-IsBounded : IsBounded home
home-IsBounded = record { inhabited = omega arith; bounded = omega arith }

-- The actions are read from a list; where it is used up, the promise is rejected.
abbrev script : ℕ → List (TuiViewAction ℕ) → Option (TuiViewAction ℕ) × List (TuiViewAction ℕ)
script v [] = (none, [])
script v (a ∷ rest) = (some a, rest)

full_stack : handle_action deep (push 4) ≡ (deep, true)
unfolding handle_action
full_stack = refl

scripted : run script 5 home (push 2 ∷ push 3 ∷ pop_to 1 ∷ exit ∷ []) ≡ returned home []
unfolding run current settle
scripted = refl

handle_action-IsBounded_example :
    IsBounded (handle_action deep (push 4)).0 × ((handle_action deep (push 4)).0.max_depth ≡ 3)
handle_action-IsBounded_example = handle_action-IsBounded deep (push 4) deep-IsBounded

handle_action-pop_to_example :
    handle_action deep (pop_to 2) ≡ (record deep { stack = 1 ∷ 2 ∷ [] }, true)
handle_action-pop_to_example = handle_action-pop_to deep 2

pushed : Rounds script home (push 2 ∷ exit ∷ []) (record home { stack = 1 ∷ 2 ∷ [] }) (exit ∷ [])
unfolding round current settle
pushed = next here refl

at_two : current {View = ℕ} (record { stack = 1 ∷ 2 ∷ []; max_depth = 3 }) ≡ some 2
unfolding current
at_two = refl

run_ends_example :
    (n : ℕ) × ((fuel : ℕ)
      → n < fuel
      → run script fuel home (push 2 ∷ exit ∷ [])
        ≡ returned (record home { stack = 1 ∷ 2 ∷ [] }) [])
run_ends_example = run_ends script pushed 2 (some exit) [] at_two refl (inr refl)
