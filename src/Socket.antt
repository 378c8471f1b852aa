-- ===== src/Socket.antt =====
-- core/socket/server/server-socket.ts and server-socket.core.const.ts: one connected socket. Names
-- and identifiers are texts, as in the source; `crypto.randomUUID()` and the identifier that
-- `setInterval` returns are arguments. `D` is the type of event data.
pub mod Relay
pub mod Server
pub mod Rooms
pub mod Delivery
pub mod Heartbeat
pub mod Message
pub mod Requests
mod Tests
use nerdhub_chat_cli_prototy.Common.{
  ℕ, Bool, true, false, not, Option, none, some, List, [], ◌∷◌, ◌++◌, String, ◌==◌, string_same,
  if◌then◌else◌, filter,
}
use nerdhub_chat_cli_prototy.Common.JsMap

abbrev pub default_server_socket_heartbeat_interval : ℕ
default_server_socket_heartbeat_interval = 30000

abbrev pub Headers : Type 0
Headers = List (String × String)

-- What goes over the wire: the heartbeat's ping, or `[eventName, eventData, headers]`.
pub data Frame (D : Type 0) : Type 0 where
  ping : Frame D
  event : String → D → Headers → Frame D

pub data ReadyState : Type 0 where
  connecting opened closing closed : ReadyState

-- The part of the platform's `WebSocket` that the code uses: its state, and what was sent.
pub record WebSocket (D : Type 0) : Type 0 where
  pub ready_state : ReadyState
  pub sent : List (Frame D)

-- A listener stands for the callback that was registered, by a number.
pub record ServerSocket (D : Type 0) : Type 0 where
  pub id : String
  pub rooms : List String
  pub client_event_listeners : List (String × List ℕ)
  pub open_listeners : List ℕ
  pub close_listeners : List ℕ
  pub heartbeat_interval : ℕ
  pub heartbeat_timer : Option ℕ
  pub socket : WebSocket D

-- The headers of `toSelf.emit`; `uuid` is what `crypto.randomUUID()` returns.
abbrev pub headers_or_empty : Option Headers → Headers
headers_or_empty none = []
headers_or_empty (some h) = h

abbrev pub id_or : Option String → String → String
id_or none uuid = uuid
id_or (some id) uuid = id

unfoldable pub self_headers : String → Option Headers → Headers
self_headers uuid headers =
    JsMap.assign
      (("correlationId", id_or (JsMap.get "correlationId" (headers_or_empty headers)) uuid) ∷ [])
      (headers_or_empty headers)

module _ {D : Type 0} where
  unfoldable pub create : WebSocket D → String → ℕ → ServerSocket D
  create ws id interval = record {
    id = id;
    rooms = [];
    client_event_listeners = [];
    open_listeners = [];
    close_listeners = [];
    heartbeat_interval = interval;
    heartbeat_timer = none;
    socket = ws;
  }

  pub on_open : ServerSocket D → ℕ → ServerSocket D
  on_open s callback = record s { open_listeners = s.open_listeners ++ callback ∷ [] }

  pub on_close : ServerSocket D → ℕ → ServerSocket D
  on_close s callback = record s { close_listeners = s.close_listeners ++ callback ∷ [] }

  unfoldable pub join : ServerSocket D → String → ServerSocket D
  join s room = record s { rooms = s.rooms ++ room ∷ [] }

  unfoldable pub leave : ServerSocket D → String → ServerSocket D
  leave s room = record s { rooms = filter (λ r. not (r == room)) s.rooms }

  unfoldable pub leave_all_rooms : ServerSocket D → ServerSocket D
  leave_all_rooms s = record s { rooms = [] }

  pub on : ServerSocket D → String → ℕ → ServerSocket D
  on s event_name listener = elim (JsMap.get event_name s.client_event_listeners) [
    | none ↦ record s {
      client_event_listeners = JsMap.set event_name (listener ∷ []) s.client_event_listeners;
    }
    | some listeners ↦ record s {
      client_event_listeners =
          JsMap.set event_name (listeners ++ listener ∷ []) s.client_event_listeners;
    }
  ]

  -- The "open" event: the listeners that are called, in order.
  unfoldable pub handle_open : ServerSocket D → ServerSocket D × List ℕ
  handle_open s = (
    record s { socket = record { ready_state = opened; sent = s.socket.sent } },
    s.open_listeners,
  )

  -- The "close" event. The lists are emptied first, and then the close listeners are called.
  unfoldable pub handle_close : ServerSocket D → ServerSocket D × List ℕ
  handle_close s =
      let cleaned : ServerSocket D = record s {
        rooms = [];
        client_event_listeners = [];
        open_listeners = [];
        close_listeners = [];
        socket = record { ready_state = closed; sent = s.socket.sent };
      } in
      (cleaned, cleaned.close_listeners)

  -- `WebSocket.send`: `throws` says in which states other than open it throws, as the platform
  -- decides; in such a state nothing is sent.
  module _ (throws : ReadyState → Bool) where
    unfoldable pub send : ServerSocket D → Frame D → Option (ServerSocket D)
    send s frame = elim s.socket.ready_state [
      | opened ↦ some (record s {
        socket = record { ready_state = opened; sent = s.socket.sent ++ frame ∷ [] };
      })
      | state ↦ if throws state then none else some s
    ]

    unfoldable pub to_self_emit :
        ServerSocket D → String → String → D → Option Headers → Option (ServerSocket D)
    to_self_emit s uuid event_name event_data headers =
        send s (event event_name event_data (self_headers uuid headers))
