-- ===== src/Socket/Requests/Reach.antt =====
-- Every state that the connection handler can reach
-- (core/socket/server/ws-connection-handler.ts).
use nerdhub_chat_cli_prototy.Common.{
  ℕ, ◌≡◌, refl, sym, ◌∙◌, ◌≢◌, Bool, true, false, Option, none, some, List, [], ◌∷◌, String, ◌==◌,
  string_same, if◌then◌else◌, arith, All,
}
use mathlib.Core.Option
use text.Mathlib.TextEquality.{eq_iff}
use nerdhub_chat_cli_prototy.Common.JsMap
use nerdhub_chat_cli_prototy.Socket
use nerdhub_chat_cli_prototy.Socket.{ServerSocket, WebSocket, ReadyState, Headers}
use nerdhub_chat_cli_prototy.Socket.Relay.{Sender, Receiver}
use nerdhub_chat_cli_prototy.Socket.Server.{
  Server, create, socket_join_room, socket_leave_room, socket_leave_all_rooms, rooms_of, emit_event,
}
use nerdhub_chat_cli_prototy.Socket.Rooms.{contains, is_member, lists, get-update, rooms-update}
use nerdhub_chat_cli_prototy.Socket.Rooms.Consistency.{
  IsConsistent, create-IsConsistent, membership-IsConsistent,
}
use nerdhub_chat_cli_prototy.Socket.Rooms.{socket_leave_all_rooms-is_member}
use nerdhub_chat_cli_prototy.Socket.Requests.{
  not_implemented, upgraded, call_handlers, handle_request, close_socket, open_socket,
  connect-IsConsistent, HasSameRooms, HasSameRooms-IsConsistent, emit_event-HasSameRooms,
}

-- What can happen to the handler's state, but for the end of a connection: a connection is
-- opened under an identifier that is not in use; a connected socket joins or leaves a room, or
-- leaves all; anybody emits an event; a socket's "open" event comes.
pub data Step {D : Type 0} (throws : ReadyState → Bool) : Server D → Server D → Type 0 where
  connects :
      (ws : WebSocket D) (id : String) (s : Server D)
      → JsMap.get id s.sockets ≡ none
      → Step throws s (handle_request (some "websocket") ws id [] s).0
  joins :
      (id room : String) (s : Server D) (k : ServerSocket D)
      → JsMap.get id s.sockets ≡ some k
      → Step throws s (socket_join_room id room s)
  leaves :
      (id room : String) (s : Server D) (k : ServerSocket D)
      → JsMap.get id s.sockets ≡ some k
      → Step throws s (socket_leave_room id room s)
  leaves_all :
      (id : String) (s : Server D) (k : ServerSocket D)
      → JsMap.get id s.sockets ≡ some k
      → Step throws s (socket_leave_all_rooms id s)
  emits :
      (uuid : String) (from : Sender) (to : Receiver) (name : String) (d : D)
      (headers : Option Headers) (s t : Server D)
      → emit_event throws uuid from to name d headers s ≡ some t
      → Step throws s t
  opens : (id : String) (s : Server D) → Step throws s (open_socket id s)

pub data Reach {D : Type 0} (throws : ReadyState → Bool) (s : Server D) : Server D → Type 0 where
  here : Reach throws s s
  next : {t u : Server D} → Reach throws s t → Step throws t u → Reach throws s u

module _ {D : Type 0} (throws : ReadyState → Bool) where
  open_socket-HasSameRooms : (id : String) (s : Server D) → HasSameRooms s (open_socket id s)
  unfolding open_socket Socket.handle_open
  open_socket-HasSameRooms id s = record {
    same_rooms = rooms-update opened_socket id s;
    same_lists = λ j. rw (get-update opened_socket id j s) (same_list j);
  }
    where
      opened_socket : ServerSocket D → ServerSocket D
      opened_socket k = (Socket.handle_open k).0

      same_list :
          (j : String)
          → rooms_of (
              if id == j
              then Option.map opened_socket (JsMap.get id s.sockets)
              else JsMap.get j s.sockets)
            ≡ rooms_of (JsMap.get j s.sockets)
      same_list j = ground (arith, eq_iff id j)

  Step-IsConsistent : {s t : Server D} → Step throws s t → IsConsistent s → IsConsistent t
  unfolding handle_request call_handlers
  Step-IsConsistent (connects ws id s fresh) c = connect-IsConsistent ws id s fresh c
  Step-IsConsistent (joins id room s k found) c = (membership-IsConsistent id room s k found c).0
  Step-IsConsistent (leaves id room s k found) c = (membership-IsConsistent id room s k found c).1
  Step-IsConsistent (leaves_all id s k found) c = (membership-IsConsistent id "" s k found c).2
  Step-IsConsistent (emits uuid from to name d headers s t e) c =
      HasSameRooms-IsConsistent s t
        (emit_event-HasSameRooms throws uuid from to name d headers s t e) c
  Step-IsConsistent (opens id s) c = HasSameRooms-IsConsistent s _ (open_socket-HasSameRooms id s) c

  -- While no connection ends, the rooms of the handler and those of the sockets agree after any
  -- sequence of connections, joins, leaves and events, also of events whose sending fails on the
  -- way; no room is empty and no socket is in a room twice.
  pub Reach-IsConsistent :
      (interval : Option ℕ) {s : Server D} → Reach throws (create interval) s → IsConsistent s
  Reach-IsConsistent interval here = create-IsConsistent interval
  Reach-IsConsistent interval (next r st) = Step-IsConsistent st (Reach-IsConsistent interval r)

  -- The end of a connection breaks that: the socket's own list is emptied, so its socket is still a
  -- member of each of its rooms for the handler, also after `leaveAllRooms`, and it calls none of
  -- the listeners that `onClose` registered.
  pub close_socket-not-IsConsistent :
      (id room : String) (s : Server D) (k : ServerSocket D)
      → JsMap.get id s.sockets ≡ some k
      → is_member id room s.rooms ≡ true
      → (is_member id room (socket_leave_all_rooms id (close_socket id s)).rooms ≡ true)
        × (lists id room (close_socket id s) ≡ false)
        × (IsConsistent (close_socket id s) → ⊥)
        × ((Socket.handle_close k).1 ≡ [])
  unfolding close_socket Socket.handle_close contains
  close_socket-not-IsConsistent id room s k found m =
      let kept : is_member id room (close_socket id s).rooms ≡ true =
        rw (rooms-update closed_socket id s) m in
      let gone : lists id room (close_socket id s) ≡ false =
        rw (get-update closed_socket id id s) (ground (arith, eq_iff id id, found)) in
      (
        (socket_leave_all_rooms-is_member id (close_socket id s) (closed_socket k) still id room).0
            ∙ ground (arith, kept, gone),
        gone,
        λ c. cc (sym kept ∙ c.agrees id room ∙ gone),
        refl,
      )
    where
      closed_socket : ServerSocket D → ServerSocket D
      closed_socket x = (Socket.handle_close x).0

      still : JsMap.get id (close_socket id s).sockets ≡ some (closed_socket k)
      still = rw (get-update closed_socket id id s) (ground (arith, eq_iff id id, found))

  Reach-trans : {s t u : Server D} → Reach throws s t → Reach throws t u → Reach throws s u
  Reach-trans r here = r
  Reach-trans r (next q st) = next (Reach-trans r q) st

  call_handlers-Reach :
      (handlers : List (String → Server D → Server D)) (id : String) (s : Server D)
      → All (λ h. (t : Server D) → Reach throws t (h id t)) handlers
      → Reach throws s (call_handlers handlers id s)
  unfolding call_handlers
  call_handlers-Reach [] id s a = here
  call_handlers-Reach (h ∷ handlers) id s (r, a) =
      Reach-trans (r s) (call_handlers-Reach handlers id (h id s) a)

  -- `handleRequest` answers a request that is no websocket upgrade with 501 and changes nothing.
  -- Any other it answers with the upgrade; where the new identifier is not in use and the registered
  -- handlers do nothing but the steps above, the state that it leaves is reached by such steps.
  pub handle_request-Reach :
      (upgrade : Option String) (ws : WebSocket D) (id : String)
      (handlers : List (String → Server D → Server D)) (s : Server D)
      → JsMap.get id s.sockets ≡ none
      → All (λ h. (t : Server D) → Reach throws t (h id t)) handlers
      → (upgrade ≢ some "websocket"
          → handle_request upgrade ws id handlers s ≡ (s, not_implemented))
        × (upgrade ≡ some "websocket"
            → ((handle_request upgrade ws id handlers s).1 ≡ upgraded)
              × Reach throws s (handle_request upgrade ws id handlers s).0)
  unfolding handle_request
  handle_request-Reach upgrade ws id handlers s fresh a = (
    λ other. refused upgrade other,
    λ e. rw e (
      refl,
      Reach-trans (next here (connects ws id s fresh)) (call_handlers-Reach handlers id _ a),
    ),
  )
    where
      refused :
          (u : Option String)
          → u ≢ some "websocket"
          → handle_request u ws id handlers s ≡ (s, not_implemented)
      refused none h = refl
      refused (some v) h = ground (arith, eq_iff v "websocket", h)
