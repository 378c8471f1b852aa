-- ===== src/Participants/Reports.antt =====
-- What a client is told of an error (server/middlewares/mysql-error-handler.middleware.ts,
-- server/middlewares/request-exception-handler.middleware.ts, and their order in server/server.ts).
use nerdhub_chat_cli_prototy.Common.{◌≡◌, refl, ap, ◌∙◌, Option, none, some, [], ◌∷◌, String}
use nerdhub_chat_cli_prototy.Auth.{
  Error, request_exception, verification_error, driver_error, type_error,
}
use nerdhub_chat_cli_prototy.Router.{
  Unknown, undefined, truthy, RegExpEngine, Exchange, returns, throws, Behaviour, PathnameData,
  Router, no_entries, entry, processing, error_handling, Handlers, handler,
}
use nerdhub_chat_cli_prototy.Router.Rounds.{call_next, after_error_handler, round_of_error_handler}
use nerdhub_chat_cli_prototy.Router.Channel.{
  entries_loop, run_entry, settle_root, root_props, initial_state, Outcome, fulfilled, rejects,
  channel_request_through_request_handlers,
}
use nerdhub_chat_cli_prototy.Router.Order.{append}
use nerdhub_chat_cli_prototy.Router.Errors.{HasNoErrorHandlers, RaisesIn, raised_reaches}
use nerdhub_chat_cli_prototy.Participants.{World, Reply, failure, ServerHandler, ends}

abbrev pub error_handler :
    (Unknown Error → Exchange World → Behaviour World Reply Error) → ServerHandler
error_handler handle = record {
  arity = 4;
  process = handle undefined;
  handle_error = handle;
  http_response_status = none;
}

-- a call of `next(error)` at the end
abbrev pub passes_on : Unknown Error → Exchange World → Behaviour World Reply Error
passes_on error x = record { exchange = x; nexts = error ∷ []; settled = returns none }

-- `driver_message` is the message of the driver's errors.
module _ (driver_message : String) where
  abbrev pub mysql_handled : Unknown Error → Exchange World → Behaviour World Reply Error
  mysql_handled (truthy driver_error) x =
      ends x (throws (truthy (request_exception 500 driver_message)))
  mysql_handled error x = passes_on error x

  unfoldable pub mysql_error_handler : ServerHandler
  mysql_error_handler = error_handler mysql_handled

abbrev pub exception_handled : Unknown Error → Exchange World → Behaviour World Reply Error
exception_handled (truthy (request_exception status message)) x =
    ends x (returns (some (failure status message)))
exception_handled error x = passes_on error x

unfoldable pub request_exception_handler : ServerHandler
request_exception_handler = error_handler exception_handled

-- the entries at the end of the server's router
abbrev pub error_entries : String → Router World Reply Error
error_entries driver_message =
    entry (error_handling (mysql_error_handler driver_message))
      (entry (error_handling request_exception_handler) no_entries)

-- What comes of an error that leaves an exchange.
abbrev pub report : String → Error → Exchange World → Outcome World Reply Error
report driver_message (request_exception status message) x =
    fulfilled x (some (failure status message)) none
report driver_message driver_error x = fulfilled x (some (failure 500 driver_message)) none
report driver_message type_error x = rejects x (truthy type_error)
report driver_message verification_error x = rejects x (truthy verification_error)

-- An error that the first handler of an entry raises, with no error handler between the entry and the
-- server's two: an exception of the server is answered with its status and its message, an error of
-- the database's driver with status 500 and the driver's own message, and any other error rejects the
-- request. The exchange is the one that the handler left.
pub errors_reported :
    (engine : RegExpEngine) (driver_message : String) (x : Exchange World) (error : Error)
    (method : Option String) (d : Option PathnameData) (f : ServerHandler)
    (hs : Handlers World Reply Error) (q : Router World Reply Error)
    (h : RaisesIn engine (root_props x) (initial_state x) (truthy error) method d f hs)
    → HasNoErrorHandlers q
    → channel_request_through_request_handlers engine
        (entry (processing method d (handler f hs)) (append q (error_entries driver_message)))
        x
      ≡ report driver_message error (f.process h.exchange).exchange
unfolding channel_request_through_request_handlers settle_root entries_loop run_entry
    round_of_error_handler after_error_handler call_next mysql_error_handler
    request_exception_handler
errors_reported engine driver_message x (request_exception status message) method d f hs q h k =
    ap settle_root
      (raised_reaches engine (root_props x) (initial_state x) _ method d f _ hs q _ h k)
    ∙ refl
errors_reported engine driver_message x driver_error method d f hs q h k =
    ap settle_root
      (raised_reaches engine (root_props x) (initial_state x) _ method d f _ hs q _ h k)
    ∙ refl
errors_reported engine driver_message x type_error method d f hs q h k =
    ap settle_root
      (raised_reaches engine (root_props x) (initial_state x) _ method d f _ hs q _ h k)
    ∙ refl
errors_reported engine driver_message x verification_error method d f hs q h k =
    ap settle_root
      (raised_reaches engine (root_props x) (initial_state x) _ method d f _ hs q _ h k)
    ∙ refl
