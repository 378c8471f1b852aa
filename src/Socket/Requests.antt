-- ===== src/Socket/Requests.antt =====
-- The life of a connection (core/socket/server/ws-connection-handler.ts): `handleRequest`, what a
-- registered socket handler may do, and the end of the connection.
pub mod Reach
use nerdhub_chat_cli_prototy.Common.{
  ℕ, ◌≡◌, refl, sym, ◌∙◌, ap, ◌≢◌, Bool, true, false, not, ◌&&◌, ◌||◌, Option, none, some, List, [],
  ◌∷◌, ◌++◌, String, ◌==◌, string_same, if◌then◌else◌, arith, inl, inr, Option-cases, Bool-cases,
  some-injective,
}
use mathlib.Core.Option
use text.Mathlib.TextEquality.{eq_iff}
use nerdhub_chat_cli_prototy.Common.JsMap
use nerdhub_chat_cli_prototy.Socket
use nerdhub_chat_cli_prototy.Socket.{ServerSocket, WebSocket, ReadyState, Headers}
use nerdhub_chat_cli_prototy.Socket.Relay.{Sender, Receiver, to_socket, to_room, Payload}
use nerdhub_chat_cli_prototy.Socket.Server.{
  Members, is_excluded, Server, create, update, socket_join_room, socket_leave_room,
  socket_leave_all_rooms, rooms_of, emit_event, forward, forward_all, deliver,
  handle_gossip_relay_emit_event,
}
use nerdhub_chat_cli_prototy.Socket.Rooms.{contains, is_member, lists, get-update, rooms-update}
use nerdhub_chat_cli_prototy.Socket.Rooms.Consistency.{
  AreProper, IsConsistent, create-IsConsistent, membership-IsConsistent,
}
use nerdhub_chat_cli_prototy.Socket.Delivery.Operations.{emit_event_lem, payload}

-- The response: 501, or the one that `Deno.upgradeWebSocket` made.
pub data Response : Type 0 where
  not_implemented upgraded : Response

abbrev is_websocket : Option String → Bool
is_websocket none = false
is_websocket (some value) = value == "websocket"

module _ {D : Type 0} where
  -- the loop over the registered handlers, each with the new socket's identifier
  unfoldable pub call_handlers : List (String → Server D → Server D) → String → Server D → Server D
  call_handlers [] id s = s
  call_handlers (handler ∷ handlers) id s = call_handlers handlers id (handler id s)

  -- `upgrade` is the request's header of that name, `ws` what `Deno.upgradeWebSocket` opened, and
  -- `id` what `crypto.randomUUID()` returned.
  unfoldable pub handle_request :
      Option String
      → WebSocket D
      → String
      → List (String → Server D → Server D)
      → Server D
      → Server D × Response
  unfolding call_handlers
  handle_request upgrade ws id handlers s =
      if is_websocket upgrade
      then (
        call_handlers handlers id (record s {
          sockets = JsMap.set id (Socket.create ws id s.heartbeat_interval) s.sockets;
        }),
        upgraded,
      )
      else (s, not_implemented)

  -- The socket's "close" event.
  unfoldable pub close_socket : String → Server D → Server D
  unfolding update
  close_socket id s = update (λ k. (Socket.handle_close k).0) id s

  -- The socket's "open" event.
  unfoldable pub open_socket : String → Server D → Server D
  unfolding update
  open_socket id s = update (λ k. (Socket.handle_open k).0) id s

  pub connect-IsConsistent :
      (ws : WebSocket D) (id : String) (s : Server D)
      → JsMap.get id s.sockets ≡ none
      → IsConsistent s
      → IsConsistent
          (record s { sockets = JsMap.set id (Socket.create ws id s.heartbeat_interval) s.sockets })
  unfolding Socket.create contains
  connect-IsConsistent ws id s fresh c = record {
    agrees = λ j q. ground (
      arith,
      c.agrees j q,
      fresh,
      eq_iff id j,
      JsMap.get-set id j (Socket.create ws id s.heartbeat_interval) s.sockets,
    );
    proper = c.proper;
  }

  -- Two servers with the same rooms, whose sockets have the same lists of rooms.
  pub record HasSameRooms (s t : Server D) : Type 0 where
    pub same_rooms : t.rooms ≡ s.rooms
    pub same_lists :
        (j : String) → rooms_of (JsMap.get j t.sockets) ≡ rooms_of (JsMap.get j s.sockets)

  pub HasSameRooms-IsConsistent :
      (s t : Server D) → HasSameRooms s t → IsConsistent s → IsConsistent t
  HasSameRooms-IsConsistent s t h c = record {
    agrees = λ j q. rw (h.same_rooms, h.same_lists j) (c.agrees j q);
    proper = rw h.same_rooms c.proper;
  }

  module _ (throws : ReadyState → Bool) (uuid : String) where
    send-rooms :
        (k k' : ServerSocket D) (frame : Socket.Frame D)
        → Socket.send throws k frame ≡ some k'
        → k'.rooms ≡ k.rooms
    unfolding Socket.send
    send-rooms k k' frame e = ground arith

    forward-HasSameRooms :
        (p : Payload D) (id : String) (s s' : Server D)
        → forward throws uuid p id s ≡ some s'
        → HasSameRooms s s'
    unfolding forward Socket.to_self_emit
    forward-HasSameRooms p id s s' e = elim (Option-cases (JsMap.get id s.sockets)) [
      | inl missing ↦
          let same : s ≡ s' = some-injective (rw (missing, forward) at e) in
          rw (← same) (record { same_rooms = refl; same_lists = λ j. refl })
      | inr (k, found) ↦
          let (k', sent, same) = (Option.map-eq-some_iff _ _).0 (rw (found, forward) at e) in
          rw (← same) (record {
            same_rooms = refl;
            same_lists = λ j. ground (
              arith,
              found,
              eq_iff id j,
              JsMap.get-set id j k' s.sockets,
              send-rooms k k' _ sent,
            );
          })
    ]

    forward_all-HasSameRooms :
        (p : Payload D) (from : Sender) (exclude : Option Bool) (ms : Members) (s : Server D)
        → HasSameRooms s (forward_all throws uuid p from exclude ms s).0
    unfolding forward_all
    forward_all-HasSameRooms p from exclude [] s = record {
      same_rooms = refl;
      same_lists = λ j. refl;
    }
    forward_all-HasSameRooms p from exclude ((id, _) ∷ ms) s =
        elim (Bool-cases (is_excluded from exclude id)) [
          | inl skip ↦ rw (skip, forward_all) (forward_all-HasSameRooms p from exclude ms s)
          | inr keep ↦ elim (Option-cases (forward throws uuid p id s)) [
            | inl failed ↦
                rw (keep, forward_all)
                  (rw failed (record { same_rooms = refl; same_lists = λ j. refl }))
            | inr (s', sent) ↦
                let here = forward-HasSameRooms p id s s' sent in
                let later = forward_all-HasSameRooms p from exclude ms s' in
                rw (keep, forward_all)
                  (rw sent (record {
                    same_rooms = later.same_rooms ∙ here.same_rooms;
                    same_lists = λ j. later.same_lists j ∙ here.same_lists j;
                  }))
          ]
        ]

    handle_gossip_relay_emit_event-HasSameRooms :
        (p : Payload D) (to : Receiver) (s : Server D)
        → HasSameRooms s (deliver throws uuid p to s).0
    unfolding deliver
    handle_gossip_relay_emit_event-HasSameRooms p (to_room room exclude) s =
        forward_all-HasSameRooms p p.sender exclude _ s
    handle_gossip_relay_emit_event-HasSameRooms p (to_socket id) s =
        elim (Option-cases (forward throws uuid p id s)) [
          | inl failed ↦ rw (failed, deliver) (record { same_rooms = refl; same_lists = λ j. refl })
          | inr (s', sent) ↦ rw (sent, deliver) (forward-HasSameRooms p id s s' sent)
        ]

    pub emit_event-HasSameRooms :
        (from : Sender) (to : Receiver) (name : String) (d : D) (headers : Option Headers)
        (s s' : Server D)
        → emit_event throws uuid from to name d headers s ≡ some s'
        → HasSameRooms s s'
    unfolding handle_gossip_relay_emit_event
    emit_event-HasSameRooms from to name d headers s s' e =
        let same : (handle_gossip_relay_emit_event throws uuid
              (payload throws uuid name d headers from to) s).0
            ≡ s' =
          some-injective (sym (emit_event_lem throws uuid name d headers from to s) ∙ e) in
        rw (← same) (handle_gossip_relay_emit_event-HasSameRooms _ to s)
