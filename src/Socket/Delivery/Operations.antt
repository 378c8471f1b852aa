-- ===== src/Socket/Delivery/Operations.antt =====
-- The operations that sockets and the server are given to emit events
-- (core/socket/server/ws-connection-handler.ts), and the headers of what they send.
use nerdhub_chat_cli_prototy.Common.{
  ◌≡◌, refl, ◌∙◌, ap, Bool, true, not, ◌&&◌, Option, none, some, [], ◌∷◌, String, ◌==◌, string_same,
  if◌then◌else◌, arith,
}
use mathlib.Core.Option
use text.Mathlib.TextEquality.{eq_iff}
use nerdhub_chat_cli_prototy.Common.JsMap
use nerdhub_chat_cli_prototy.Socket.{
  ServerSocket, ReadyState, opened, Headers, Frame, event, headers_or_empty, id_or, self_headers,
}
use nerdhub_chat_cli_prototy.Socket.Relay
use nerdhub_chat_cli_prototy.Socket.Relay.{
  Sender, socket_sender, system_sender, Receiver, to_socket, to_room, Payload,
}
use nerdhub_chat_cli_prototy.Socket.Server.{
  Server, members_or_empty, is_excluded, or_failed, handle_gossip_relay_emit_event, emit_headers,
  relay, emit_event, socket_room_emit, socket_room_broadcast, socket_to_socket_emit, io_room_emit,
  io_to_socket_emit,
}
use nerdhub_chat_cli_prototy.Socket.Rooms.{is_member}
use nerdhub_chat_cli_prototy.Socket.Rooms.Consistency.{IsConsistent}
use nerdhub_chat_cli_prototy.Socket.Delivery.{
  receives, AreOpen, is_target, Delivers, forward_opened, forward_all-Delivers,
}

-- The headers that an emitted event carries to every receiver: those that the caller gave, and a
-- correlation identifier, the caller's or else the one made when the event was emitted; the one
-- that each socket would make for itself is never used.
pub self_headers-emit_headers :
    (made other : String) (headers : Option Headers) (name : String)
    → JsMap.HasUniqueKeys (headers_or_empty headers)
    → JsMap.get name (self_headers other (some (emit_headers made headers)))
      ≡ JsMap.or_else
          (JsMap.get name (headers_or_empty headers))
          (if "correlationId" == name then some made else none)
unfolding self_headers emit_headers
self_headers-emit_headers made other headers name u =
    let given = headers_or_empty headers in
    let sent = emit_headers made headers in
    let first : Headers = ("correlationId", made) ∷ [] in
    let own : Headers = ("correlationId", id_or (JsMap.get "correlationId" sent) other) ∷ [] in
    ground (
      arith,
      eq_iff "correlationId" name,
      JsMap.get-assign name first given u,
      JsMap.get-assign name own sent (JsMap.assign-HasUniqueKeys first given (refl, tt)),
    )

module _ {D : Type 0} (throws : ReadyState → Bool) (uuid : String) where
  module _ (event_name : String) (d : D) (headers : Option Headers) where
    abbrev pub payload : Sender → Receiver → Payload D
    payload from to = record {
      event_name = event_name;
      event_data = d;
      sender = from;
      receiver = to;
      headers = emit_headers uuid headers;
    }

    pub emit_event_lem :
        (from : Sender) (to : Receiver) (s : Server D)
        → emit_event throws uuid from to event_name d headers s
          ≡ some (handle_gossip_relay_emit_event throws uuid (payload from to) s).0
    unfolding emit_event relay
    emit_event_lem from to s = (Relay.emit-on_emit _ (λ p s. s) (payload from to) s).0

    -- What the event is on the wire.
    abbrev pub frame : Frame D
    frame = event event_name d (self_headers uuid (some (emit_headers uuid headers)))

    room_event-Delivers :
        (from : Sender) (room : String) (exclude : Option Bool) (s : Server D)
        → IsConsistent s
        → AreOpen throws uuid
            (payload from (to_room room exclude))
            (members_or_empty (JsMap.get room s.rooms))
            s
        → Delivers throws uuid
            (payload from (to_room room exclude))
            from
            exclude
            (members_or_empty (JsMap.get room s.rooms))
            s
            (handle_gossip_relay_emit_event throws uuid (payload from (to_room room exclude)) s)
    unfolding handle_gossip_relay_emit_event
    room_event-Delivers from room exclude s c o =
        forward_all-Delivers throws uuid (payload from (to_room room exclude)) from exclude _ s
          (c.proper.unique room) o

    -- What an operation must do: `r` is `s` with the frame sent to the sockets that `to` names.
    pub record SendsTo (to : String → Bool) (s : Server D) (r : Option (Server D)) : Type 0 where
      pub after : Server D
      pub emitted : r ≡ some after
      pub same_rooms : after.rooms ≡ s.rooms
      pub received :
          (j : String)
          → JsMap.get j after.sockets ≡ (
              if to j
              then Option.map (receives frame) (JsMap.get j s.sockets)
              else JsMap.get j s.sockets)

    room_event-SendsTo :
        (from : Sender) (room : String) (exclude : Option Bool) {to : String → Bool} (s : Server D)
        → IsConsistent s
        → AreOpen throws uuid
            (payload from (to_room room exclude))
            (members_or_empty (JsMap.get room s.rooms))
            s
        → ((j : String)
            → is_target throws uuid
                (payload from (to_room room exclude))
                from
                exclude
                (members_or_empty (JsMap.get room s.rooms))
                j
              ≡ to j)
        → SendsTo to s (emit_event throws uuid from (to_room room exclude) event_name d headers s)
    room_event-SendsTo from room exclude s c o same =
        let delivers = room_event-Delivers from room exclude s c o in
        record {
          after =
              (handle_gossip_relay_emit_event throws uuid (payload from (to_room room exclude))
                s).0;
          emitted = emit_event_lem from (to_room room exclude) s;
          same_rooms = delivers.same_rooms;
          received = λ j. rw (same j) at (delivers.received j);
        }

    -- In a consistent server where the room's members are open: `socket.room(..).emit` and
    -- `io.room(..).emit` send the event to every member, and `socket.room(..).broadcast` to every
    -- member but the sender; each of them gets it once, and no other socket gets anything.
    pub room_operations-SendsTo :
        (id room : String) (s : Server D)
        → IsConsistent s
        → ((j : String) (k : ServerSocket D)
            → is_member j room s.rooms ≡ true
            → JsMap.get j s.sockets ≡ some k
            → k.socket.ready_state ≡ opened)
        → SendsTo
            (λ j. is_member j room s.rooms)
            s
            (socket_room_emit throws uuid id room event_name d headers s)
          × SendsTo
              (λ j. is_member j room s.rooms)
              s
              (io_room_emit throws uuid room event_name d headers s)
          × SendsTo
              (λ j. is_member j room s.rooms && not (j == id))
              s
              (socket_room_broadcast throws uuid id room event_name d headers s)
    unfolding socket_room_emit io_room_emit socket_room_broadcast is_excluded
    room_operations-SendsTo id room s c o = (
      room_event-SendsTo (socket_sender (some id)) room none s c o (λ j. ground arith),
      room_event-SendsTo system_sender room none s c o (λ j. ground arith),
      room_event-SendsTo (socket_sender (some id)) room (some true) s c o (λ j. refl),
    )

    socket_event-SendsTo :
        (from : Sender) (target : String) (s : Server D)
        → ((k : ServerSocket D)
            → JsMap.get target s.sockets ≡ some k
            → k.socket.ready_state ≡ opened)
        → SendsTo
            (λ j. target == j)
            s
            (emit_event throws uuid from (to_socket target) event_name d headers s)
    unfolding handle_gossip_relay_emit_event
    socket_event-SendsTo from target s o =
        let (s', sent, rooms, step) =
          forward_opened throws uuid (payload from (to_socket target)) target s o in
        record {
          after = s';
          emitted =
              emit_event_lem from (to_socket target) s
              ∙ ap (λ r. some (or_failed throws uuid s r).0) sent;
          same_rooms = rooms;
          received = λ j. ground (arith, step j, eq_iff target j);
        }

    -- `socket.toSocket(..).emit` and `io.toSocket(..).emit` send the event to the socket that is
    -- named, once, where it is open, and to no other; where there is no such socket nothing happens.
    pub to_socket_operations-SendsTo :
        (id target : String) (s : Server D)
        → ((k : ServerSocket D)
            → JsMap.get target s.sockets ≡ some k
            → k.socket.ready_state ≡ opened)
        → SendsTo
            (λ j. target == j)
            s
            (socket_to_socket_emit throws uuid id target event_name d headers s)
          × SendsTo
              (λ j. target == j)
              s
              (io_to_socket_emit throws uuid target event_name d headers s)
    unfolding socket_to_socket_emit io_to_socket_emit
    to_socket_operations-SendsTo id target s o = (
      socket_event-SendsTo (socket_sender (some id)) target s o,
      socket_event-SendsTo system_sender target s o,
    )
