-- ===== src/Router/Channel.antt =====
-- channelRequestThroughRequestHandlers of core/router/router.ts: its loops and its end. The list of
-- entries is the one that the router has when the request comes in.
use nerdhub_chat_cli_prototy.Common.{ℕ, Bool, true, false, ◌&&◌, Option, none, [], if◌then◌else◌}
use nerdhub_chat_cli_prototy.Pathname.{normalize_request_pathname}
use nerdhub_chat_cli_prototy.Router.{
  Unknown, null, unmatched_request, is_nullish, is_truthy, RegExpEngine, Exchange, PathnameData,
  Router, no_entries, entry, Entry, processing, error_handling, Handlers, no_handlers, handler,
  router,
}
use nerdhub_chat_cli_prototy.Router.Prepare.{Props, is_for_method, prepare}
use nerdhub_chat_cli_prototy.Router.Rounds.{
  State, Progress, passed, returned, rejected, next_round, next_entry, with_prepared,
  round_of_router, round_of_handler, round_of_error_handler,
}

module _ {ℓ} {W R E : Type ℓ} where
  -- `handlers.at(-1) instanceof ConcreteRouter`
  unfoldable pub ends_in_router : Handlers W R E → Bool
  ends_in_router no_handlers = false
  ends_in_router (router r no_handlers) = true
  ends_in_router (handler f hs) = ends_in_router hs
  ends_in_router (router r hs) = ends_in_router hs

module _ {ℓ} {W R E : Type ℓ} (engine : RegExpEngine) where
  unfoldable mutual
    unfolding prepare round_of_router round_of_handler round_of_error_handler ends_in_router

    -- the loop over the entries
    pub entries_loop : Router W R E → Props → State W E → Progress W R E
    entries_loop no_entries p s = passed s
    entries_loop (entry e r) p s = next_entry (entries_loop r p) (run_entry e p s)

    -- the body of that loop
    pub run_entry : Entry W R E → Props → State W E → Progress W R E
    run_entry (processing method d hs) p s =
        if is_nullish s.next_state.error && is_for_method method s.exchange.method
        then with_prepared (handlers_loop hs p d) s
            (prepare engine p d (ends_in_router hs) s.exchange)
        else passed s
    run_entry (error_handling f) p s =
        if is_nullish s.next_state.error then passed s else round_of_error_handler f s

    -- the loop over an entry's handlers
    pub handlers_loop :
        Handlers W R E → Props → Option PathnameData → ℕ → State W E → Progress W R E
    handlers_loop no_handlers p d n s = passed s
    handlers_loop (handler f hs) p d n s =
        next_round (handlers_loop hs p d n) (round_of_handler f s)
    handlers_loop (router r hs) p d n s =
        next_round (handlers_loop hs p d n) (round_of_router engine (entries_loop r) p d n s)

-- How the promise of a root router is settled.
pub data Outcome {ℓ} (W R E : Type ℓ) : Type ℓ where
  fulfilled : Exchange W → Option R → Option ℕ → Outcome W R E
  rejects : Exchange W → Unknown E → Outcome W R E

-- the end of a root router's promise
unfoldable pub settle_root {ℓ} : {W R E : Type ℓ} → Progress W R E → Outcome W R E
settle_root (passed s) =
    rejects s.exchange
      (if is_truthy s.next_state.error then s.next_state.error else unmatched_request)
settle_root (returned x value status) = fulfilled x value status
settle_root (rejected x error) = rejects x error

abbrev pub root_props {ℓ} : {W : Type ℓ} → Exchange W → Props
root_props x = record {
  route_pathname = [];
  params = none;
  matched_request_pathname = normalize_request_pathname x.req_pathname;
}

abbrev pub initial_state {ℓ} : {W E : Type ℓ} → Exchange W → State W E
initial_state x = record { exchange = x; next_state = record { forward = false; error = null } }

-- `channelRequestThroughRequestHandlers` of a root router
unfoldable pub channel_request_through_request_handlers {ℓ} :
    {W R E : Type ℓ} → RegExpEngine → Router W R E → Exchange W → Outcome W R E
unfolding entries_loop settle_root
channel_request_through_request_handlers engine r x =
    settle_root (entries_loop engine r (root_props x) (initial_state x))
