-- ===== src/Socket/Server.antt =====
-- core/socket/server/ws-connection-handler.ts: the sockets, the rooms, and the events that the
-- gossip relay hands over. A socket object is reached through both maps; the model keeps it in
-- `sockets`, under its identifier, and a room's map holds the identifiers.
use nerdhub_chat_cli_prototy.Common.{
  ℕ, Bool, true, false, Option, none, some, List, [], ◌∷◌, String, ◌==◌, string_same,
}
use mathlib.Core.Option
use nerdhub_chat_cli_prototy.Common.JsMap
use nerdhub_chat_cli_prototy.Socket
use nerdhub_chat_cli_prototy.Socket.{ServerSocket, WebSocket, ReadyState, Headers}
use nerdhub_chat_cli_prototy.Socket.Relay
use nerdhub_chat_cli_prototy.Socket.Relay.{
  Sender, socket_sender, system_sender, Receiver, to_socket, to_room, Payload, GossipRelay,
}

abbrev pub Members : Type 0
Members = List (String × Unit {0})

pub record Server (D : Type 0) : Type 0 where
  pub sockets : List (String × ServerSocket D)
  pub rooms : List (String × Members)
  pub heartbeat_interval : ℕ

abbrev pub members_or_empty : Option Members → Members
members_or_empty none = []
members_or_empty (some m) = m

-- a room that is left with no member goes
unfoldable pub keep_inhabited : String → Members → List (String × Members) → List (String × Members)
keep_inhabited room [] rooms = JsMap.delete room rooms
keep_inhabited room (m ∷ ms) rooms = JsMap.set room (m ∷ ms) rooms

-- `room.delete(id)`, where there is such a room
unfoldable pub remove_member : String → String → List (String × Members) → List (String × Members)
remove_member id room rooms = elim (JsMap.get room rooms) [
  | none ↦ rooms
  | some members ↦ keep_inhabited room (JsMap.delete id members) rooms
]

-- the loop over the names of a socket's rooms
unfoldable pub remove_from_all :
    String → List String → List (String × Members) → List (String × Members)
unfolding remove_member
remove_from_all id [] rooms = rooms
remove_from_all id (room ∷ names) rooms = remove_from_all id names (remove_member id room rooms)

-- `receiver.excludeSender && sender.type === Socket && socket.id === sender.socketId`
unfoldable pub is_excluded : Sender → Option Bool → String → Bool
is_excluded (socket_sender (some from)) (some true) id = id == from
is_excluded sender exclude id = false

-- The headers of an emitted event; `uuid` is what `crypto.randomUUID()` returns.
unfoldable pub emit_headers : String → Option Headers → Headers
emit_headers uuid headers =
    JsMap.assign (("correlationId", uuid) ∷ []) (Socket.headers_or_empty headers)

module _ {D : Type 0} where
  -- the state that the constructor makes
  unfoldable pub create : Option ℕ → Server D
  create interval = record {
    sockets = [];
    rooms = [];
    heartbeat_interval = elim interval [
      | none ↦ Socket.default_server_socket_heartbeat_interval
      | some n ↦ n
    ];
  }

  -- A change of the socket object with the identifier `id`.
  unfoldable pub update : (ServerSocket D → ServerSocket D) → String → Server D → Server D
  update f id s = elim (JsMap.get id s.sockets) [
    | none ↦ s
    | some socket ↦ record s { sockets = JsMap.set id (f socket) s.sockets }
  ]

  unfoldable pub socket_join_room : String → String → Server D → Server D
  unfolding update
  socket_join_room id room s =
      let joined = update (λ socket. Socket.join socket room) id s in
      record joined {
        rooms =
            JsMap.set room (JsMap.set id tt (members_or_empty (JsMap.get room joined.rooms)))
              joined.rooms;
      }

  unfoldable pub socket_leave_room : String → String → Server D → Server D
  unfolding update remove_member
  socket_leave_room id room s =
      let left = update (λ socket. Socket.leave socket room) id s in
      record left { rooms = remove_member id room left.rooms }

  abbrev pub rooms_of : Option (ServerSocket D) → List String
  rooms_of none = []
  rooms_of (some socket) = socket.rooms

  unfoldable pub socket_leave_all_rooms : String → Server D → Server D
  unfolding update remove_from_all
  socket_leave_all_rooms id s =
      let names = rooms_of (JsMap.get id s.sockets) in
      update Socket.leave_all_rooms id (record s { rooms = remove_from_all id names s.rooms })

  module _ (throws : ReadyState → Bool) (uuid : String) where
    -- one call of `socket.toSelf.emit`; `none` where it throws
    unfoldable pub forward : Payload D → String → Server D → Option (Server D)
    forward p id s = elim (JsMap.get id s.sockets) [
      | none ↦ some s
      | some socket ↦
          Option.map (λ socket'. record s { sockets = JsMap.set id socket' s.sockets })
            (Socket.to_self_emit throws socket uuid p.event_name p.event_data (some p.headers))
    ]

    -- The loop over a room's members, with the state where it ended and whether by an error.
    unfoldable pub forward_all :
        Payload D → Sender → Option Bool → Members → Server D → Server D × Bool
    forward_all p from exclude [] s = (s, false)
    forward_all p from exclude ((id, _) ∷ ms) s = elim (is_excluded from exclude id) [
      | true ↦ forward_all p from exclude ms s
      | false ↦ elim (forward p id s) [
        | none ↦ (s, true)
        | some s' ↦ forward_all p from exclude ms s'
      ]
    ]

    abbrev pub or_failed : Server D → Option (Server D) → Server D × Bool
    or_failed s none = (s, true)
    or_failed s (some s') = (s', false)

    unfoldable pub deliver : Payload D → Receiver → Server D → Server D × Bool
    unfolding forward_all
    deliver p (to_socket id) s = or_failed s (forward p id s)
    deliver p (to_room room exclude) s =
        forward_all p p.sender exclude (members_or_empty (JsMap.get room s.rooms)) s

    unfoldable pub handle_gossip_relay_emit_event : Payload D → Server D → Server D × Bool
    unfolding deliver
    handle_gossip_relay_emit_event p s = deliver p p.receiver s

  -- The relay whose listener the constructor registers. What a listener throws, `EventTarget`
  -- reports and does not hand to the emitter.
  unfoldable pub relay : (ReadyState → Bool) → String → GossipRelay D (Server D)
  relay throws uuid =
      Relay.on_emit Relay.create (λ p s. (handle_gossip_relay_emit_event throws uuid p s).0)

  module _ (throws : ReadyState → Bool) (uuid : String) where
    unfoldable pub emit_event :
        Sender → Receiver → String → D → Option Headers → Server D → Option (Server D)
    unfolding relay emit_headers
    emit_event from to event_name event_data headers s =
        Relay.emit (relay throws uuid)
          (record {
            event_name = event_name;
            event_data = event_data;
            sender = from;
            receiver = to;
            headers = emit_headers uuid headers;
          })
          s

    -- `socket.room(roomName).emit`
    unfoldable pub socket_room_emit :
        String → String → String → D → Option Headers → Server D → Option (Server D)
    unfolding emit_event
    socket_room_emit id room = emit_event (socket_sender (some id)) (to_room room none)

    -- `socket.room(roomName).broadcast`
    unfoldable pub socket_room_broadcast :
        String → String → String → D → Option Headers → Server D → Option (Server D)
    unfolding emit_event
    socket_room_broadcast id room = emit_event (socket_sender (some id)) (to_room room (some true))

    -- `socket.toSocket(socketId).emit`
    unfoldable pub socket_to_socket_emit :
        String → String → String → D → Option Headers → Server D → Option (Server D)
    unfolding emit_event
    socket_to_socket_emit id target = emit_event (socket_sender (some id)) (to_socket target)

    -- `io.room(roomName).emit`
    unfoldable pub io_room_emit :
        String → String → D → Option Headers → Server D → Option (Server D)
    unfolding emit_event
    io_room_emit room = emit_event system_sender (to_room room none)

    -- `io.toSocket(socketId).emit`
    unfoldable pub io_to_socket_emit :
        String → String → D → Option Headers → Server D → Option (Server D)
    unfolding emit_event
    io_to_socket_emit target = emit_event system_sender (to_socket target)
