-- ===== src/Router/Rounds.antt =====
-- What channelRequestThroughRequestHandlers of core/router/router.ts does around one call of a
-- handler, an error handler or a sub-router.
use nerdhub_chat_cli_prototy.Common.{
  ℕ, Bool, true, false, not, Option, none, some, List, [], ◌∷◌, Text, if◌then◌else◌,
}
use nerdhub_chat_cli_prototy.Router.{
  Unknown, null, syntax_error, type_error, invalid_parameter_type, is_truthy, RegExpEngine,
  Exchange, returns, throws, Behaviour, Handler, PathnameData,
}
use nerdhub_chat_cli_prototy.Router.Prepare.{
  Props, Prepared, skipped, failed, ready, bad_pattern, bad_parameter, sub_router_pathname,
}

-- RequestHandlerNextFunctionState
pub record NextState {ℓ} (E : Type ℓ) : Type ℓ where
  pub forward : Bool
  pub error : Unknown E

pub record State {ℓ} (W E : Type ℓ) : Type ℓ where
  pub exchange : Exchange W
  pub next_state : NextState E

-- How a loop ends: all was gone through, a handler's value is returned with its status, or the
-- promise is rejected.
pub data Progress {ℓ} (W R E : Type ℓ) : Type ℓ where
  passed : State W E → Progress W R E
  returned : Exchange W → Option R → Option ℕ → Progress W R E
  rejected : Exchange W → Unknown E → Progress W R E

-- A round of the loop over an entry's handlers: it breaks the loop or goes on.
pub data Round {ℓ} (W R E : Type ℓ) : Type ℓ where
  breaks : Progress W R E → Round W R E
  continues : State W E → Round W R E

module _ {ℓ} {E : Type ℓ} where
  -- the calls of `next`, in order
  unfoldable pub call_next : List (Unknown E) → NextState E → NextState E
  call_next [] n = n
  call_next (error ∷ errors) n = call_next errors (record { forward = true; error = error })

  abbrev pub reset_forward : NextState E → NextState E
  reset_forward n = record { forward = false; error = n.error }

abbrev pub or_empty : Option Text → Text
or_empty none = []
or_empty (some t) = t

module _ {ℓ} {W R E : Type ℓ} where
  -- what follows the call of a processing handler, up to the next round
  unfoldable pub after_handler : Option ℕ → NextState E → Behaviour W R E → Round W R E
  unfolding call_next
  after_handler status n b =
      let n' = call_next b.nexts n in
      elim b.settled [
        | throws error ↦ breaks (
            passed (record {
              exchange = b.exchange;
              next_state = record { forward = true; error = error };
            }))
        | returns value ↦
            if not n'.forward
            then breaks (returned b.exchange value status)
            else if is_truthy n'.error
            then breaks (passed (record { exchange = b.exchange; next_state = n' }))
            else continues (record { exchange = b.exchange; next_state = n' })
      ]

  -- what follows the call of an error handler
  unfoldable pub after_error_handler : Option ℕ → NextState E → Behaviour W R E → Progress W R E
  unfolding call_next
  after_error_handler status n b =
      let n' = call_next b.nexts n in
      elim b.settled [
        | throws error ↦ passed (record {
          exchange = b.exchange;
          next_state = record { forward = true; error = error };
        })
        | returns value ↦
            if not n'.forward
            then returned b.exchange value status
            else passed (record { exchange = b.exchange; next_state = n' })
      ]

  -- A sub-router behaves like a handler: where its entries were gone through it calls `next` with
  -- its pending error and returns undefined.
  unfoldable pub as_behaviour : Progress W R E → Behaviour W R E
  as_behaviour (passed s) = record {
    exchange = s.exchange;
    nexts = s.next_state.error ∷ [];
    settled = returns none;
  }
  as_behaviour (returned x value status) = record {
    exchange = x;
    nexts = [];
    settled = returns value;
  }
  as_behaviour (rejected x error) = record { exchange = x; nexts = []; settled = throws error }

  abbrev pub status_of : Progress W R E → Option ℕ
  status_of (passed s) = none
  status_of (returned x value status) = status
  status_of (rejected x error) = none

  -- the rest of a loop, unless it is broken
  abbrev pub next_round : (State W E → Progress W R E) → Round W R E → Progress W R E
  next_round more (breaks end) = end
  next_round more (continues s) = more s

  abbrev pub next_entry : (State W E → Progress W R E) → Progress W R E → Progress W R E
  next_entry more (passed s) = more s
  next_entry more (returned x value status) = returned x value status
  next_entry more (rejected x error) = rejected x error

  -- the loop over the handlers of an entry that was prepared
  abbrev pub with_prepared :
      (ℕ → State W E → Progress W R E) → State W E → Prepared W → Progress W R E
  with_prepared more s skipped = passed s
  with_prepared more s (failed bad_pattern) = rejected s.exchange syntax_error
  with_prepared more s (failed bad_parameter) = rejected s.exchange invalid_parameter_type
  with_prepared more s (ready n x) = more n (record s { exchange = x })

  -- what follows an error that is thrown in the round of a handler
  abbrev pub throws_in_round : Unknown E → State W E → Round W R E
  throws_in_round error s =
      breaks (passed (record s { next_state = record { forward = true; error = error } }))

  -- the round of a sub-router, whose own entries are gone through by `sub`
  unfoldable pub round_of_router :
      RegExpEngine
      → (Props → State W E → Progress W R E)
      → Props
      → Option PathnameData
      → ℕ
      → State W E
      → Round W R E
  unfolding sub_router_pathname after_handler as_behaviour
  round_of_router engine sub p none n s = throws_in_round type_error s
  round_of_router engine sub p (some d) n s =
      elim (sub_router_pathname engine p.matched_request_pathname d) [
        | none ↦ throws_in_round syntax_error s
        | some pathname ↦
            let end =
              sub
                (record {
                  route_pathname = or_empty s.exchange.route_pathname;
                  params = some n;
                  matched_request_pathname = pathname;
                })
                (record {
                  exchange = s.exchange;
                  next_state = record { forward = false; error = null };
                }) in
            after_handler (status_of end) (reset_forward s.next_state) (as_behaviour end)
      ]

  -- the round of a function
  unfoldable pub round_of_handler : Handler W R E → State W E → Round W R E
  unfolding after_handler
  round_of_handler f s =
      after_handler f.http_response_status (reset_forward s.next_state) (f.process s.exchange)

  -- the round of an error handler
  unfoldable pub round_of_error_handler : Handler W R E → State W E → Progress W R E
  unfolding after_error_handler
  round_of_error_handler f s =
      after_error_handler f.http_response_status (reset_forward s.next_state)
        (f.handle_error s.next_state.error s.exchange)
