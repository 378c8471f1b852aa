-- ===== src/Router/Order.antt =====
-- The order in which a router goes through its entries (core/router/router.ts).
use nerdhub_chat_cli_prototy.Common.{
  Text, sym, ◌≡◌, refl, ap, ◌∙◌, ◌⊎◌, inl, inr, ℕ, Bool, true, false, Option, none, some, String,
  if◌then◌else◌, Bool-cases, arith, some-injective,
}
use nerdhub_chat_cli_prototy.Pathname.{
  RegExpPatternData, normalize_request_pathname, get_route_pathname_reg_exp_pattern,
}
use nerdhub_chat_cli_prototy.Router.{
  unmatched_request, is_nullish, RegExpEngine, Exchange, is_request_error_handler, Router,
  no_entries, entry, Entry, processing, error_handling, Handlers,
}
use nerdhub_chat_cli_prototy.Router.Prepare.{Props, skipped, is_for_method, prepare}
use nerdhub_chat_cli_prototy.Router.Rounds.{State, Progress, passed, returned, rejected, next_entry}
use nerdhub_chat_cli_prototy.Router.Channel.{
  ends_in_router, entries_loop, run_entry, root_props, initial_state, settle_root, fulfilled,
  rejects, channel_request_through_request_handlers,
}
use nerdhub_chat_cli_prototy.Router.Registration.{
  push_under, FirstArgument, pathname, function, sub_router, push, register_entry, register,
  register_for_http_method,
}

module _ {ℓ} {W R E : Type ℓ} where
  abbrev pub append : Router W R E → Router W R E → Router W R E
  append no_entries r = r
  append (entry e q) r = entry e (append q r)

  next_entry_assoc :
      (f g : State W E → Progress W R E) (t : Progress W R E)
      → next_entry (λ s. next_entry g (f s)) t ≡ next_entry g (next_entry f t)
  next_entry_assoc f g (passed s) = refl
  next_entry_assoc f g (returned x v st) = refl
  next_entry_assoc f g (rejected x e) = refl

  -- The entries of a first router are gone through before those of a second.
  pub entries_loop-append :
      (engine : RegExpEngine) (q r : Router W R E) (p : Props) (s : State W E)
      → entries_loop engine (append q r) p s
        ≡ next_entry (entries_loop engine r p) (entries_loop engine q p s)
  unfolding entries_loop
  entries_loop-append engine no_entries r p s = refl
  entries_loop-append engine (entry e q) r p s =
      ap (λ f. next_entry f (run_entry engine e p s)) (λ i t. entries_loop-append engine q r p t i)
      ∙ next_entry_assoc (entries_loop engine q p) (entries_loop engine r p)
          (run_entry engine e p s)

  push-append : (e : Entry W R E) (r : Router W R E) → push e r ≡ append r (entry e no_entries)
  unfolding push
  push-append e no_entries = refl
  push-append e (entry d r) = ap (λ q. entry d q) (push-append e r)

  settle_root-fulfilled :
      (g : State W E → Progress W R E) {y : Exchange W} {v : Option R} {st : Option ℕ}
      (t : Progress W R E)
      → settle_root t ≡ fulfilled y v st
      → settle_root (next_entry g t) ≡ fulfilled y v st
  unfolding settle_root
  settle_root-fulfilled g (passed s) e = ground arith
  settle_root-fulfilled g (returned x v st) e = e
  settle_root-fulfilled g (rejected x error) e = e

  push-fulfilled :
      (engine : RegExpEngine) (e : Entry W R E) (r : Router W R E) (x : Exchange W) {y : Exchange W}
      {v : Option R} {st : Option ℕ}
      → channel_request_through_request_handlers engine r x ≡ fulfilled y v st
      → channel_request_through_request_handlers engine (push e r) x ≡ fulfilled y v st
  unfolding channel_request_through_request_handlers
  push-fulfilled engine e r x h =
      ap (λ q. settle_root (entries_loop engine q (root_props x) (initial_state x)))
        (push-append e r)
      ∙ ap settle_root
          (entries_loop-append engine r (entry e no_entries) (root_props x) (initial_state x))
      ∙ settle_root-fulfilled (entries_loop engine (entry e no_entries) (root_props x))
          (entries_loop engine r (root_props x) (initial_state x)) h

  -- What registering makes of a router is the router with one entry pushed.
  abbrev IsPushed : Router W R E → Router W R E → Type ℓ
  IsPushed r q = (e : Entry W R E) × (q ≡ push e r)

  push_under-IsPushed :
      (method : Option String) (value : Text) (o : Option RegExpPatternData) (rest : Handlers W R E)
      (r q : Router W R E)
      → push_under method value o rest r ≡ some q
      → IsPushed r q
  push_under-IsPushed method value none rest r q h = ground arith
  push_under-IsPushed method value (some d) rest r q h = (_, sym (some-injective h))

  register_entry-IsPushed :
      (method : Option String) (first : FirstArgument W R E) (rest : Handlers W R E)
      (r q : Router W R E)
      → register_entry method first rest r ≡ some q
      → IsPushed r q
  unfolding register_entry
  register_entry-IsPushed method (pathname p) rest r q h =
      push_under-IsPushed method (normalize_request_pathname p)
        (get_route_pathname_reg_exp_pattern (normalize_request_pathname p)) rest r q h
  register_entry-IsPushed method (function f) rest r q h = (_, sym (some-injective h))
  register_entry-IsPushed method (sub_router f) rest r q h = (_, sym (some-injective h))

  register-IsPushed :
      (first : FirstArgument W R E) (rest : Handlers W R E) (r q : Router W R E)
      → register first rest r ≡ some q
      → IsPushed r q
  unfolding register
  register-IsPushed (pathname p) rest r q h = register_entry-IsPushed none (pathname p) rest r q h
  register-IsPushed (sub_router f) rest r q h = (_, sym (some-injective h))
  register-IsPushed (function f) rest r q h = go (is_request_error_handler f) h
    where
      go :
          (b : Bool)
          → (if b
              then some (push (error_handling f) r)
              else register_entry none (function f) rest r)
            ≡ some q
          → IsPushed r q
      go true h = (error_handling f, sym (some-injective h))
      go false h = register_entry-IsPushed none (function f) rest r q h

  IsPushed-fulfilled :
      (engine : RegExpEngine) (r q : Router W R E) (x : Exchange W) {y : Exchange W} {v : Option R}
      {st : Option ℕ}
      → IsPushed r q
      → channel_request_through_request_handlers engine r x ≡ fulfilled y v st
      → channel_request_through_request_handlers engine q x ≡ fulfilled y v st
  IsPushed-fulfilled engine r q x (e, eq) h =
      ap (λ t. channel_request_through_request_handlers engine t x) eq
      ∙ push-fulfilled engine e r x h

  -- A request that a router answers is answered in the same way once more was registered in the
  -- router, by `use` or for a method.
  pub register-fulfilled :
      (engine : RegExpEngine) (method : String) (first : FirstArgument W R E)
      (rest : Handlers W R E) (r q : Router W R E) (x : Exchange W) {y : Exchange W} {v : Option R}
      {st : Option ℕ}
      → (register first rest r ≡ some q) ⊎ (register_for_http_method method first rest r ≡ some q)
      → channel_request_through_request_handlers engine r x ≡ fulfilled y v st
      → channel_request_through_request_handlers engine q x ≡ fulfilled y v st
  unfolding register_for_http_method
  register-fulfilled engine method first rest r q x (inl h) =
      IsPushed-fulfilled engine r q x (register-IsPushed first rest r q h)
  register-fulfilled engine method first rest r q x (inr h) =
      IsPushed-fulfilled engine r q x (register_entry-IsPushed (some method) first rest r q h)

  -- An entry that is not for a request: its method is another, its pathname does not match, or it
  -- is an error handler.
  abbrev pub IsNotFor : RegExpEngine → Props → Exchange W → Entry W R E → Type ℓ
  IsNotFor engine p x (processing method d hs) =
      (is_for_method method x.method ≡ false) ⊎ (prepare engine p d (ends_in_router hs) x ≡ skipped)
  IsNotFor engine p x (error_handling f) = Unit

  abbrev pub AreNotFor : RegExpEngine → Props → Exchange W → Router W R E → Type ℓ
  AreNotFor engine p x no_entries = Unit
  AreNotFor engine p x (entry e r) = IsNotFor engine p x e × AreNotFor engine p x r

  run_entry_of_IsNotFor :
      (engine : RegExpEngine) (e : Entry W R E) (p : Props) (s : State W E)
      → is_nullish s.next_state.error ≡ true
      → IsNotFor engine p s.exchange e
      → run_entry engine e p s ≡ passed s
  unfolding run_entry
  run_entry_of_IsNotFor engine (processing method d hs) p s h (inl other) = rw h (rw other refl)
  run_entry_of_IsNotFor engine (processing method d hs) p s h (inr e) =
      rw h (elim (Bool-cases (is_for_method method s.exchange.method)) [
        | inl b ↦ rw b (rw e refl)
        | inr b ↦ rw b refl
      ])
  run_entry_of_IsNotFor engine (error_handling f) p s h k = rw h refl

  entries_loop_of_AreNotFor :
      (engine : RegExpEngine) (r : Router W R E) (p : Props) (s : State W E)
      → is_nullish s.next_state.error ≡ true
      → AreNotFor engine p s.exchange r
      → entries_loop engine r p s ≡ passed s
  unfolding entries_loop
  entries_loop_of_AreNotFor engine no_entries p s h k = refl
  entries_loop_of_AreNotFor engine (entry e r) p s h (k, ks) =
      ap (next_entry (entries_loop engine r p)) (run_entry_of_IsNotFor engine e p s h k)
      ∙ entries_loop_of_AreNotFor engine r p s h ks

  -- A request that no entry of a root router is for is left unchanged, no handler is called, and
  -- the promise is rejected with the error for unmatched requests.
  pub unmatched_request_lem :
      (engine : RegExpEngine) (r : Router W R E) (x : Exchange W)
      → AreNotFor engine (root_props x) x r
      → channel_request_through_request_handlers engine r x ≡ rejects x unmatched_request
  unfolding channel_request_through_request_handlers
  unmatched_request_lem engine r x h =
      ap settle_root (entries_loop_of_AreNotFor engine r (root_props x) (initial_state x) refl h)
