-- ===== src/Router/Origin.antt =====
-- Where what a router returns comes from, and what its handlers may rely on
-- (core/router/router.ts).
use nerdhub_chat_cli_prototy.Common.{
  ℕ, ◌≡◌, refl, inl, inr, Bool, ◌&&◌, Option, none, some, Bool-cases, Option-cases,
}
use nerdhub_chat_cli_prototy.Pathname.{build_request_parameters}
use nerdhub_chat_cli_prototy.Router.{
  is_nullish, RegExpEngine, Exchange, Handler, PathnameData, Router, no_entries, entry, Entry,
  processing, error_handling, Handlers, no_handlers, handler, router, MatchResult, invalid,
  mismatch, matched,
}
use nerdhub_chat_cli_prototy.Router.Prepare.{
  Props, Prepared, skipped, failed, ready, bad_pattern, bad_parameter, is_for_method, prepare,
  use_match, initial_params,
}
use nerdhub_chat_cli_prototy.Router.Rounds.{
  State, Progress, passed, returned, rejected, with_prepared, round_of_handler, round_of_router,
}
use nerdhub_chat_cli_prototy.Router.Channel.{
  ends_in_router, entries_loop, run_entry, handlers_loop, settle_root, root_props, initial_state,
  Outcome, fulfilled, rejects, channel_request_through_request_handlers,
}
use nerdhub_chat_cli_prototy.Router.Calls.{
  IsIn, in_entry, in_rest, IsInEntry, among, as_error_handler, IsInHandlers, as_handler,
  after_handler_, in_router, after_router, Calls, no_call, Answers, IsTraced,
  round_of_handler-IsTraced, round_of_error_handler-IsTraced, round_of_router-IsTraced,
  next_round-IsTraced, next_entry-IsTraced,
}

module _ {ℓ} {W : Type ℓ} where
  -- Matching an entry changes nothing that handlers left in the world.
  abbrev KeepsWorld : W → Prepared W → Type ℓ
  KeepsWorld w skipped = Unit
  KeepsWorld w (failed f) = Unit
  KeepsWorld w (ready n x) = x.world ≡ w

  initial_params-world : (o : Option ℕ) (x : Exchange W) → (initial_params o x).1.world ≡ x.world
  unfolding initial_params
  initial_params-world none x = refl
  initial_params-world (some n) x = refl

  use_match-KeepsWorld :
      (p : Props) (d : PathnameData) (x : Exchange W) (m : MatchResult)
      → KeepsWorld x.world (use_match p d x m)
  unfolding use_match
  use_match-KeepsWorld p d x invalid = tt
  use_match-KeepsWorld p d x mismatch = tt
  use_match-KeepsWorld p d x (matched none) = initial_params-world p.params x
  use_match-KeepsWorld p d x (matched (some groups)) =
      elim (Option-cases (build_request_parameters groups d.params_types)) [
        | inl e ↦ rw (e, KeepsWorld) tt
        | inr (params, e) ↦ rw (e, KeepsWorld) refl
      ]

  prepare-KeepsWorld :
      (engine : RegExpEngine) (p : Props) (d : Option PathnameData) (b : Bool) (x : Exchange W)
      → KeepsWorld x.world (prepare engine p d b x)
  unfolding prepare
  prepare-KeepsWorld engine p none b x = initial_params-world p.params x
  prepare-KeepsWorld engine p (some d) b x = use_match-KeepsWorld p d x _

module _ {ℓ} {W R E : Type ℓ} where
  with_prepared-IsTraced :
      (In : Handler W R E → Type ℓ) (w : W) (more : ℕ → State W E → Progress W R E) (s : State W E)
      (q : Prepared W)
      → ((n : ℕ) (t : State W E) → Calls In w t.exchange.world → IsTraced In w (more n t))
      → KeepsWorld s.exchange.world q
      → Calls In w s.exchange.world
      → IsTraced In w (with_prepared more s q)
  with_prepared-IsTraced In w more s skipped traced kept calls = calls
  with_prepared-IsTraced In w more s (failed bad_pattern) traced kept calls = calls
  with_prepared-IsTraced In w more s (failed bad_parameter) traced kept calls = calls
  with_prepared-IsTraced In w more s (ready n x) traced kept calls =
      traced n (record s { exchange = x }) (rw kept calls)

  mutual
    unfolding entries_loop run_entry handlers_loop

    loop-IsTraced :
        (In : Handler W R E → Type ℓ) (w : W) (engine : RegExpEngine) (r : Router W R E) (p : Props)
        (s : State W E)
        → ((f : Handler W R E) → IsIn f r → In f)
        → Calls In w s.exchange.world
        → IsTraced In w (entries_loop engine r p s)
    loop-IsTraced In w engine no_entries p s i calls = calls
    loop-IsTraced In w engine (entry e r) p s i calls =
        next_entry-IsTraced In w (entries_loop engine r p) (run_entry engine e p s)
          (λ t. loop-IsTraced In w engine r p t (λ f k. i f (in_rest k)))
          (entry-IsTraced In w engine e p s (λ f k. i f (in_entry k)) calls)

    entry-IsTraced :
        (In : Handler W R E → Type ℓ) (w : W) (engine : RegExpEngine) (e : Entry W R E) (p : Props)
        (s : State W E)
        → ((f : Handler W R E) → IsInEntry f e → In f)
        → Calls In w s.exchange.world
        → IsTraced In w (run_entry engine e p s)
    entry-IsTraced In w engine (processing m d hs) p s i calls =
        elim (Bool-cases (is_nullish s.next_state.error && is_for_method m s.exchange.method)) [
          | inl b ↦ rw b (
              with_prepared-IsTraced In w (handlers_loop engine hs p d) s
                (prepare engine p d (ends_in_router hs) s.exchange)
                (λ n t. handlers-IsTraced In w engine hs p d n t (λ f k. i f (among k)))
                (prepare-KeepsWorld engine p d (ends_in_router hs) s.exchange) calls)
          | inr b ↦ rw b calls
        ]
    entry-IsTraced In w engine (error_handling g) p s i calls =
        elim (Bool-cases (is_nullish s.next_state.error)) [
          | inl b ↦ rw b calls
          | inr b ↦ rw b (round_of_error_handler-IsTraced In w g s (i g as_error_handler) b calls)
        ]

    handlers-IsTraced :
        (In : Handler W R E → Type ℓ) (w : W) (engine : RegExpEngine) (hs : Handlers W R E)
        (p : Props) (d : Option PathnameData) (n : ℕ) (s : State W E)
        → ((f : Handler W R E) → IsInHandlers f hs → In f)
        → Calls In w s.exchange.world
        → IsTraced In w (handlers_loop engine hs p d n s)
    handlers-IsTraced In w engine no_handlers p d n s i calls = calls
    handlers-IsTraced In w engine (handler g hs) p d n s i calls =
        next_round-IsTraced In w (handlers_loop engine hs p d n) (round_of_handler g s)
          (λ t. handlers-IsTraced In w engine hs p d n t (λ f k. i f (after_handler_ k)))
          (round_of_handler-IsTraced In w g s (i g as_handler) calls)
    handlers-IsTraced In w engine (router r hs) p d n s i calls =
        next_round-IsTraced In w (handlers_loop engine hs p d n)
          (round_of_router engine (entries_loop engine r) p d n s)
          (λ t. handlers-IsTraced In w engine hs p d n t (λ f k. i f (after_router k)))
          (round_of_router-IsTraced In w engine (entries_loop engine r) p d n s
            (λ q t. loop-IsTraced In w engine r q t (λ f k. i f (in_router k))) calls)

  abbrev pub IsTracedOutcome : (Handler W R E → Type ℓ) → W → Outcome W R E → Type ℓ
  IsTracedOutcome In w (fulfilled x v status) = Answers In w x v status
  IsTracedOutcome In w (rejects x error) = Calls In w x.world

  settle_root-IsTracedOutcome :
      (In : Handler W R E → Type ℓ) (w : W) (t : Progress W R E)
      → IsTraced In w t
      → IsTracedOutcome In w (settle_root t)
  unfolding settle_root
  settle_root-IsTracedOutcome In w (passed s) h = h
  settle_root-IsTracedOutcome In w (returned x v status) h = h
  settle_root-IsTracedOutcome In w (rejected x error) h = h

  -- A router changes the world only by calls of the functions that are registered in it or in a
  -- router under it. Where it fulfils the request, the last of those calls answered it: the value
  -- is what that function returned without a call of `next`, and the status is that function's. A
  -- function that answered as an error handler was given an error that is neither undefined nor
  -- null.
  pub channel_request-IsTracedOutcome :
      (engine : RegExpEngine) (r : Router W R E) (x : Exchange W)
      → IsTracedOutcome
          (λ f. IsIn f r)
          x.world
          (channel_request_through_request_handlers engine r x)
  unfolding channel_request_through_request_handlers
  channel_request-IsTracedOutcome engine r x =
      settle_root-IsTracedOutcome (λ f. IsIn f r) x.world
        (entries_loop engine r (root_props x) (initial_state x))
        (loop-IsTraced (λ f. IsIn f r) x.world engine r (root_props x) (initial_state x) (λ f k. k)
          no_call)
