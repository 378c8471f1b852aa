-- ===== src/ViewStack.antt =====
-- core/view-stack/tui-view-stack.ts: the stack of terminal views. The stack is the source's array,
-- its top at the end. What a view renders is the parameter of `run`; console output and the wait
-- for a key are left out.
pub mod Depth
pub mod Run
mod Tests
use nerdhub_chat_cli_prototy.Common.{
  ℕ, zero, suc, Bool, true, false, ◌&&◌, Option, none, some, List, [], ◌∷◌, ◌++◌, length, ltb, leb,
  if◌then◌else◌, String,
}

abbrev pub default_max_depth : ℕ
default_max_depth = 10

pub data TuiViewAction {ℓ} (View : Type ℓ) : Type ℓ where
  push : View → TuiViewAction View
  pop : TuiViewAction View
  replace : View → TuiViewAction View
  pop_to : ℕ → TuiViewAction View
  exit : TuiViewAction View

pub record TuiViewStack {ℓ} (View : Type ℓ) : Type ℓ where
  pub stack : List View
  pub max_depth : ℕ

-- `TuiViewStackOptions`
pub record Options {ℓ} (View : Type ℓ) : Type ℓ where
  pub max_depth : Option ℕ
  pub initial_view : View

abbrev or_default : Option ℕ → ℕ → ℕ
or_default none d = d
or_default (some n) d = n

module _ {ℓ} {View : Type ℓ} where
  -- `Array.prototype.pop`, without its result
  abbrev pub drop_last : List View → List View
  drop_last [] = []
  drop_last (v ∷ []) = []
  drop_last (v ∷ w ∷ vs) = v ∷ drop_last (w ∷ vs)

  -- `stack[stack.length - 1]`, `undefined` on the empty array
  abbrev pub last? : List View → Option View
  last? [] = none
  last? (v ∷ []) = some v
  last? (v ∷ w ∷ vs) = last? (w ∷ vs)

  unfoldable pub create : Options View → TuiViewStack View
  create o = record {
    stack = o.initial_view ∷ [];
    max_depth = or_default o.max_depth default_max_depth;
  }

  pub current : TuiViewStack View → Option View
  current s = last? s.stack

  -- the loop of "popTo"; each round drops one view, so the stack's length is enough fuel
  unfoldable pub pop_to_loop : ℕ → ℕ → List View → List View
  pop_to_loop zero depth vs = vs
  pop_to_loop (suc fuel) depth vs =
      let rest = pop_to_loop fuel depth (drop_last vs) in
      if ltb depth (length vs) && ltb 1 (length vs) then rest else vs

  -- the new stack, and whether the loop of `run` goes on
  unfoldable pub handle_action : TuiViewStack View → TuiViewAction View → TuiViewStack View × Bool
  unfolding pop_to_loop
  handle_action s (push view) =
      if leb s.max_depth (length s.stack)
      then (s, true)
      else (record s { stack = s.stack ++ view ∷ [] }, true)
  handle_action s pop =
      if ltb 1 (length s.stack) then (record s { stack = drop_last s.stack }, true) else (s, true)
  handle_action s (replace view) = (record s { stack = drop_last s.stack ++ view ∷ [] }, true)
  handle_action s (pop_to depth) =
      (record s { stack = pop_to_loop (length s.stack) depth s.stack }, true)
  handle_action s exit = (s, false)

-- How `run` stands after a number of rounds: it returned, a view's promise was rejected, or it
-- still loops. `world` is all that the views act on.
pub data Progress {ℓ} (View World : Type ℓ) : Type ℓ where
  returned : TuiViewStack View → World → Progress View World
  rejected : TuiViewStack View → World → Progress View World
  looping : TuiViewStack View → World → Progress View World

-- the end of a round: what the promise of `render` was settled with is handled
unfoldable pub settle {ℓ} :
    {View World : Type ℓ}
    → TuiViewStack View
    → Option (TuiViewAction View) × World
    → Progress View World
unfolding handle_action
settle s (none, w) = rejected s w
settle s (some action, w) =
    let (s', more) = handle_action s action in if more then looping s' w else returned s' w

-- the test of the loop of `run`: another round only while no round has ended it
abbrev pub go_on {ℓ} :
    {View World : Type ℓ}
    → (TuiViewStack View → World → Progress View World)
    → Progress View World
    → Progress View World
go_on more (returned s w) = returned s w
go_on more (rejected s w) = rejected s w
go_on more (looping s w) = more s w

module _ {ℓ} {View World : Type ℓ}
    (render : View → World → Option (TuiViewAction View) × World) where
  -- one round of the loop of `run`
  unfoldable pub round : TuiViewStack View → World → Progress View World
  round s w = elim (current s) [ none ↦ returned s w | some view ↦ settle s (render view w) ]

  -- `run`, for a number of rounds
  unfoldable pub run : ℕ → TuiViewStack View → World → Progress View World
  unfolding round
  run zero s w = looping s w
  run (suc fuel) s w = go_on (run fuel) (round s w)
