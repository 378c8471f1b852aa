-- ===== src/Router/Calls.antt =====
-- The calls of handlers that a router makes (core/router/router.ts), and what one round of its loops
-- adds to them.
use nerdhub_chat_cli_prototy.Common.{
  ℕ, ◌≡◌, refl, ◌⊎◌, inl, inr, true, false, Option, none, some, List, [], ◌∷◌, String, Bool-cases,
  Option-cases,
}
use nerdhub_chat_cli_prototy.Router.{
  Unknown, is_nullish, is_truthy, RegExpEngine, Exchange, Settled, returns, throws, Behaviour,
  Handler, PathnameData, Router, entry, Entry, processing, error_handling, Handlers, handler,
  router,
}
use nerdhub_chat_cli_prototy.Router.Prepare.{Props, sub_router_pathname}
use nerdhub_chat_cli_prototy.Router.Rounds.{
  State, NextState, call_next, reset_forward, Progress, passed, returned, rejected, Round, breaks,
  continues, after_handler, after_error_handler, as_behaviour, status_of, next_entry, next_round,
  round_of_handler, round_of_router, round_of_error_handler,
}
use nerdhub_chat_cli_prototy.Router.Channel.{}

-- The functions that are registered in a router or in a router under it.
mutual
  pub data IsIn {ℓ} {W R E : Type ℓ} (f : Handler W R E) : Router W R E → Type ℓ where
    in_entry : {e : Entry W R E} {r : Router W R E} → IsInEntry f e → IsIn f (entry e r)
    in_rest : {e : Entry W R E} {r : Router W R E} → IsIn f r → IsIn f (entry e r)

  pub data IsInEntry {ℓ} {W R E : Type ℓ} (f : Handler W R E) : Entry W R E → Type ℓ where
    among :
        {m : Option String} {d : Option PathnameData} {hs : Handlers W R E}
        → IsInHandlers f hs
        → IsInEntry f (processing m d hs)
    as_error_handler : IsInEntry f (error_handling f)

  pub data IsInHandlers {ℓ} {W R E : Type ℓ} (f : Handler W R E) : Handlers W R E → Type ℓ where
    as_handler : {hs : Handlers W R E} → IsInHandlers f (handler f hs)
    after_handler_ :
        {g : Handler W R E} {hs : Handlers W R E}
        → IsInHandlers f hs
        → IsInHandlers f (handler g hs)
    in_router : {r : Router W R E} {hs : Handlers W R E} → IsIn f r → IsInHandlers f (router r hs)
    after_router :
        {r : Router W R E} {hs : Handlers W R E} → IsInHandlers f hs → IsInHandlers f (router r hs)

-- The worlds that calls of some functions lead to, each call on an exchange with the world that the
-- call before it left.
pub data Calls {ℓ} {W R E : Type ℓ} (In : Handler W R E → Type ℓ) (w : W) : W → Type ℓ where
  no_call : Calls In w w
  processes :
      {f : Handler W R E} {y : Exchange W}
      → Calls In w y.world
      → In f
      → Calls In w (f.process y).exchange.world
  handles :
      {f : Handler W R E} {y : Exchange W} (error : Unknown E)
      → Calls In w y.world
      → In f
      → Calls In w (f.handle_error error y).exchange.world

-- A call returns a value without a call of `next`, and leaves an exchange.
pub record IsAnswer {ℓ} {W R E : Type ℓ} (x : Exchange W) (v : Option R) (b : Behaviour W R E)
    : Type ℓ where
  pub leaves : b.exchange ≡ x
  pub calls_no_next : b.nexts ≡ []
  pub gives : b.settled ≡ returns v

-- A function among some is called, after other calls, and answers with a value and its status.
pub record Answers {ℓ} {W R E : Type ℓ} (In : Handler W R E → Type ℓ) (w : W) (x : Exchange W)
    (v : Option R) (status : Option ℕ) : Type ℓ where
  pub by : Handler W R E
  pub before : Exchange W
  pub is_in : In by
  pub calls : Calls In w before.world
  pub with_status : by.http_response_status ≡ status
  pub answer :
      IsAnswer x v (by.process before)
      ⊎ ((error : Unknown E) × (is_nullish error ≡ false)
          × IsAnswer x v (by.handle_error error before))

call_next-forward {ℓ} :
    {E : Type ℓ} (e : Unknown E) (es : List (Unknown E)) (n : NextState E)
    → (call_next (e ∷ es) n).forward ≡ true
unfolding call_next
call_next-forward e [] n = refl
call_next-forward e (d ∷ es) n = call_next-forward d es (record { forward = true; error = e })

module _ {ℓ} {W R E : Type ℓ} where
  -- What a loop that began with a world did, was calls of functions among some; and a value that
  -- is returned is the last one's answer.
  abbrev pub IsTraced : (Handler W R E → Type ℓ) → W → Progress W R E → Type ℓ
  IsTraced In w (passed s) = Calls In w s.exchange.world
  IsTraced In w (returned x v status) = Answers In w x v status
  IsTraced In w (rejected x error) = Calls In w x.world

  abbrev pub IsTracedRound : (Handler W R E → Type ℓ) → W → Round W R E → Type ℓ
  IsTracedRound In w (breaks end) = IsTraced In w end
  IsTracedRound In w (continues s) = Calls In w s.exchange.world

  after_handler-IsTraced :
      (In : Handler W R E → Type ℓ) (w : W) (status : Option ℕ) (n : NextState E)
      (b : Behaviour W R E)
      → Calls In w b.exchange.world
      → ((v : Option R) → b.nexts ≡ [] → b.settled ≡ returns v → Answers In w b.exchange v status)
      → IsTracedRound In w (after_handler status (reset_forward n) b)
  unfolding after_handler
  after_handler-IsTraced In w status n b calls answers = go b.nexts b.settled refl refl
    where
      go :
          (ns : List (Unknown E)) (t : Settled R E)
          → b.nexts ≡ ns
          → b.settled ≡ t
          → IsTracedRound In w (
              after_handler status
                (reset_forward n)
                (record { exchange = b.exchange; nexts = ns; settled = t }))
      go ns (throws error) e k = calls
      go [] (returns v) e k = answers v e k
      go (a ∷ ns) (returns v) e k =
          rw (call_next-forward a ns (reset_forward n))
            (elim (Bool-cases (is_truthy (call_next (a ∷ ns) (reset_forward n)).error)) [
              | inl h ↦ rw h calls
              | inr h ↦ rw h calls
            ])

  after_error_handler-IsTraced :
      (In : Handler W R E → Type ℓ) (w : W) (status : Option ℕ) (n : NextState E)
      (b : Behaviour W R E)
      → Calls In w b.exchange.world
      → ((v : Option R) → b.nexts ≡ [] → b.settled ≡ returns v → Answers In w b.exchange v status)
      → IsTraced In w (after_error_handler status (reset_forward n) b)
  unfolding after_error_handler
  after_error_handler-IsTraced In w status n b calls answers = go b.nexts b.settled refl refl
    where
      go :
          (ns : List (Unknown E)) (t : Settled R E)
          → b.nexts ≡ ns
          → b.settled ≡ t
          → IsTraced In w (
              after_error_handler status
                (reset_forward n)
                (record { exchange = b.exchange; nexts = ns; settled = t }))
      go ns (throws error) e k = calls
      go [] (returns v) e k = answers v e k
      go (a ∷ ns) (returns v) e k = rw (call_next-forward a ns (reset_forward n)) calls

  pub round_of_handler-IsTraced :
      (In : Handler W R E → Type ℓ) (w : W) (f : Handler W R E) (s : State W E)
      → In f
      → Calls In w s.exchange.world
      → IsTracedRound In w (round_of_handler f s)
  unfolding round_of_handler
  round_of_handler-IsTraced In w f s i calls =
      after_handler-IsTraced In w f.http_response_status s.next_state (f.process s.exchange)
        (processes calls i)
        (λ v e k. record {
          by = f;
          before = s.exchange;
          is_in = i;
          calls = calls;
          with_status = refl;
          answer = inl (record { leaves = refl; calls_no_next = e; gives = k });
        })

  pub round_of_error_handler-IsTraced :
      (In : Handler W R E → Type ℓ) (w : W) (f : Handler W R E) (s : State W E)
      → In f
      → is_nullish s.next_state.error ≡ false
      → Calls In w s.exchange.world
      → IsTraced In w (round_of_error_handler f s)
  unfolding round_of_error_handler
  round_of_error_handler-IsTraced In w f s i pending calls =
      after_error_handler-IsTraced In w f.http_response_status s.next_state
        (f.handle_error s.next_state.error s.exchange) (handles s.next_state.error calls i)
        (λ v e k. record {
          by = f;
          before = s.exchange;
          is_in = i;
          calls = calls;
          with_status = refl;
          answer =
              inr (
                s.next_state.error,
                pending,
                record { leaves = refl; calls_no_next = e; gives = k },
              );
        })

  as_behaviour-IsTraced :
      (In : Handler W R E → Type ℓ) (w : W) (n : NextState E) (end : Progress W R E)
      → IsTraced In w end
      → IsTracedRound In w (after_handler (status_of end) (reset_forward n) (as_behaviour end))
  unfolding after_handler as_behaviour call_next
  as_behaviour-IsTraced In w n (passed s) h = elim (Bool-cases (is_truthy s.next_state.error)) [
    | inl e ↦ rw e h
    | inr e ↦ rw e h
  ]
  as_behaviour-IsTraced In w n (returned x v status) h = h
  as_behaviour-IsTraced In w n (rejected x error) h = h

  pub round_of_router-IsTraced :
      (In : Handler W R E → Type ℓ) (w : W) (engine : RegExpEngine)
      (sub : Props → State W E → Progress W R E) (p : Props) (d : Option PathnameData) (n : ℕ)
      (s : State W E)
      → ((q : Props) (t : State W E) → Calls In w t.exchange.world → IsTraced In w (sub q t))
      → Calls In w s.exchange.world
      → IsTracedRound In w (round_of_router engine sub p d n s)
  unfolding round_of_router
  round_of_router-IsTraced In w engine sub p none n s traced calls = calls
  round_of_router-IsTraced In w engine sub p (some d) n s traced calls =
      elim (Option-cases (sub_router_pathname engine p.matched_request_pathname d)) [
        | inl e ↦ rw (e, IsTracedRound) calls
        | inr (pathname, e) ↦
            rw (e, IsTracedRound) (as_behaviour-IsTraced In w s.next_state _ (traced _ _ calls))
      ]

  pub next_round-IsTraced :
      (In : Handler W R E → Type ℓ) (w : W) (more : State W E → Progress W R E) (r : Round W R E)
      → ((t : State W E) → Calls In w t.exchange.world → IsTraced In w (more t))
      → IsTracedRound In w r
      → IsTraced In w (next_round more r)
  next_round-IsTraced In w more (breaks end) traced h = h
  next_round-IsTraced In w more (continues s) traced h = traced s h

  pub next_entry-IsTraced :
      (In : Handler W R E → Type ℓ) (w : W) (more : State W E → Progress W R E) (t : Progress W R E)
      → ((u : State W E) → Calls In w u.exchange.world → IsTraced In w (more u))
      → IsTraced In w t
      → IsTraced In w (next_entry more t)
  next_entry-IsTraced In w more (passed s) traced h = traced s h
  next_entry-IsTraced In w more (returned x v status) traced h = h
  next_entry-IsTraced In w more (rejected x error) traced h = h
