-- ===== src/Router/Errors.antt =====
-- What becomes of an error that a handler raises (core/router/router.ts).
use nerdhub_chat_cli_prototy.Common.{
  ℕ, ◌≡◌, refl, ap, ◌∙◌, ◌⊎◌, inl, inr, true, false, Option, String, if◌then◌else◌,
}
use nerdhub_chat_cli_prototy.Router.{
  Unknown, unmatched_request, is_nullish, is_truthy, RegExpEngine, Exchange, returns, throws,
  Behaviour, Handler, PathnameData, Router, no_entries, entry, processing, error_handling, Handlers,
  handler,
}
use nerdhub_chat_cli_prototy.Router.Prepare.{Props, ready, is_for_method, prepare}
use nerdhub_chat_cli_prototy.Router.Rounds.{
  State, NextState, call_next, reset_forward, passed, breaks, after_handler, next_entry, next_round,
  round_of_handler, round_of_error_handler,
}
use nerdhub_chat_cli_prototy.Router.Channel.{
  ends_in_router, entries_loop, run_entry, handlers_loop, settle_root, root_props, initial_state,
  rejects, channel_request_through_request_handlers,
}
use nerdhub_chat_cli_prototy.Router.Order.{append, entries_loop-append}

module _ {ℓ} {W R E : Type ℓ} where
  abbrev pub HasNoErrorHandlers : Router W R E → Type 0
  HasNoErrorHandlers no_entries = Unit
  HasNoErrorHandlers (entry (processing method d hs) r) = HasNoErrorHandlers r
  HasNoErrorHandlers (entry (error_handling f) r) = ⊥

  -- A call of a handler raises an error: it throws it, or it gives a truthy error to its last call
  -- of `next` and returns.
  abbrev pub Raises : Unknown E → Behaviour W R E → Type ℓ
  Raises error b =
      (b.settled ≡ throws error)
      ⊎ ((v : Option R) × (b.settled ≡ returns v)
          × ((m : NextState E) → call_next b.nexts m ≡ record { forward = true; error = error })
          × (is_truthy error ≡ true))

  -- The state that a raised error leaves.
  abbrev pub raised : Unknown E → Behaviour W R E → State W E
  raised error b = record {
    exchange = b.exchange;
    next_state = record { forward = true; error = error };
  }

  after_handler-raised :
      (status : Option ℕ) (n : NextState E) (error : Unknown E) (b : Behaviour W R E)
      → Raises error b
      → after_handler status n b ≡ breaks (passed (raised error b))
  unfolding after_handler
  after_handler-raised status n error b (inl h) = rw h refl
  after_handler-raised status n error b (inr (v, h, k, truthy)) = rw h (rw (k n) (rw truthy refl))

  pub skip_of_HasNoErrorHandlers :
      (engine : RegExpEngine) (q : Router W R E) (p : Props) (s : State W E)
      → is_nullish s.next_state.error ≡ false
      → HasNoErrorHandlers q
      → entries_loop engine q p s ≡ passed s
  unfolding entries_loop run_entry
  skip_of_HasNoErrorHandlers engine no_entries p s pending h = refl
  skip_of_HasNoErrorHandlers engine (entry (processing method d hs) q) p s pending h =
      rw pending (skip_of_HasNoErrorHandlers engine q p s pending h)
  skip_of_HasNoErrorHandlers engine (entry (error_handling f) q) p s pending h = absurd h

  -- While an error is pending, the entries before the next error handler are skipped.
  pending_reaches :
      (engine : RegExpEngine) (q r : Router W R E) (f : Handler W R E) (p : Props) (s : State W E)
      → is_nullish s.next_state.error ≡ false
      → HasNoErrorHandlers q
      → entries_loop engine (append q (entry (error_handling f) r)) p s
        ≡ next_entry (entries_loop engine r p) (round_of_error_handler f s)
  unfolding entries_loop run_entry
  pending_reaches engine q r f p s pending h =
      entries_loop-append engine q (entry (error_handling f) r) p s
      ∙ ap (next_entry (entries_loop engine (entry (error_handling f) r) p))
          (skip_of_HasNoErrorHandlers engine q p s pending h)
      ∙ rw pending refl

  -- An entry whose first handler raises an error, reached with no error pending.
  pub record RaisesIn (engine : RegExpEngine) (p : Props) (s : State W E) (error : Unknown E)
      (method : Option String) (d : Option PathnameData) (f : Handler W R E) (hs : Handlers W R E)
      : Type ℓ where
    pub place : ℕ
    pub exchange : Exchange W
    pub none_pending : is_nullish s.next_state.error ≡ true
    pub for_method : is_for_method method s.exchange.method ≡ true
    pub is_ready :
        prepare engine p d (ends_in_router (handler f hs)) s.exchange ≡ ready place exchange
    pub raises : Raises error (f.process exchange)
    pub pending : is_nullish error ≡ false

  run_entry-raised :
      (engine : RegExpEngine) (p : Props) (s : State W E) (error : Unknown E)
      (method : Option String) (d : Option PathnameData) (f : Handler W R E) (hs : Handlers W R E)
      (h : RaisesIn engine p s error method d f hs)
      → run_entry engine (processing method d (handler f hs)) p s
        ≡ passed (raised error (f.process h.exchange))
  unfolding run_entry round_of_handler
  run_entry-raised engine p s error method d f hs h = rw h.none_pending (
      rw h.for_method (
        rw h.is_ready (
          ap (next_round (handlers_loop engine hs p d h.place)) (
            after_handler-raised f.http_response_status (reset_forward s.next_state) error
              (f.process h.exchange) h.raises))))

  -- An error that a handler raises is given to the next error handler behind its entry: the
  -- entry's other handlers and the entries in between are skipped.
  pub raised_reaches :
      (engine : RegExpEngine) (p : Props) (s : State W E) (error : Unknown E)
      (method : Option String) (d : Option PathnameData) (f g : Handler W R E) (hs : Handlers W R E)
      (q r : Router W R E) (h : RaisesIn engine p s error method d f hs)
      → HasNoErrorHandlers q
      → entries_loop engine
          (entry (processing method d (handler f hs)) (append q (entry (error_handling g) r)))
          p
          s
        ≡ next_entry
            (entries_loop engine r p)
            (round_of_error_handler g (raised error (f.process h.exchange)))
  unfolding entries_loop
  raised_reaches engine p s error method d f g hs q r h k =
      ap (next_entry (entries_loop engine (append q (entry (error_handling g) r)) p))
        (run_entry-raised engine p s error method d f hs h)
      ∙ pending_reaches engine q r g p (raised error (f.process h.exchange)) h.pending k

  -- Where no error handler stands behind the entry, the promise of a root router is rejected with
  -- the error that the handler raised if that is truthy, and with the error for unmatched requests
  -- if it is falsy.
  pub raised_rejects :
      (engine : RegExpEngine) (x : Exchange W) (error : Unknown E) (method : Option String)
      (d : Option PathnameData) (f : Handler W R E) (hs : Handlers W R E) (q : Router W R E)
      (h : RaisesIn engine (root_props x) (initial_state x) error method d f hs)
      → HasNoErrorHandlers q
      → channel_request_through_request_handlers engine
          (entry (processing method d (handler f hs)) q)
          x
        ≡ rejects
            (f.process h.exchange).exchange
            (if is_truthy error then error else unmatched_request)
  unfolding channel_request_through_request_handlers settle_root entries_loop
  raised_rejects engine x error method d f hs q h k =
      ap (λ t. settle_root (next_entry (entries_loop engine q (root_props x)) t))
        (run_entry-raised engine (root_props x) (initial_state x) error method d f hs h)
      ∙ ap settle_root (
          skip_of_HasNoErrorHandlers engine q (root_props x) (raised error (f.process h.exchange))
            h.pending k)
