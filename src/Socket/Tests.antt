-- ===== src/Socket/Tests.antt =====
-- Runs of the socket server: two sockets, "a" and "b", that join a room.
use nerdhub_chat_cli_prototy.Common.{
  ℕ, ◌≡◌, refl, Bool, true, false, not, ◌&&◌, Option, none, some, List, [], ◌∷◌, String, ◌==◌,
  string_same, arith,
}
use text.Mathlib.TextEquality.{eq_iff}
use nerdhub_chat_cli_prototy.Common.JsMap
use nerdhub_chat_cli_prototy.Socket
use nerdhub_chat_cli_prototy.Socket.{
  ServerSocket, WebSocket, ReadyState, connecting, opened, closing, closed, Headers, Frame, ping,
  event, self_headers,
}
use nerdhub_chat_cli_prototy.Socket.Relay.{system_sender, to_socket, Payload}
use nerdhub_chat_cli_prototy.Socket.Heartbeat.{}
use nerdhub_chat_cli_prototy.Socket.Message.{
  str, object, array, nil, cons, end, field, Items, items, uncaught, calls, handle_message, IsEvent,
  HasNullHeaders, Justified, answer, handle_message-Justified, handle_message_of_IsEvent,
}
use nerdhub_chat_cli_prototy.Socket.Server.{
  Server, create, socket_join_room, socket_leave_room, socket_leave_all_rooms, socket_room_emit,
  socket_room_broadcast, io_room_emit, keep_inhabited,
}
use nerdhub_chat_cli_prototy.Socket.Rooms.{is_member, lists}
use nerdhub_chat_cli_prototy.Socket.Rooms.Consistency.{IsConsistent}
use nerdhub_chat_cli_prototy.Socket.Delivery.Operations.{SendsTo, room_operations-SendsTo}
use nerdhub_chat_cli_prototy.Socket.Requests.{handle_request, close_socket, call_handlers}
use nerdhub_chat_cli_prototy.Socket.Requests.Reach.{
  Reach, here, next, connects, joins, Reach-IsConsistent, close_socket-not-IsConsistent,
}

abbrev never : ReadyState → Bool
never state = true

abbrev open_socket : WebSocket ℕ
open_socket = record { ready_state = opened; sent = [] }

abbrev empty : Server ℕ
empty = record { sockets = []; rooms = []; heartbeat_interval = 10 }

abbrev peer : String → List String → ServerSocket ℕ
peer id rooms = record {
  id = id;
  rooms = rooms;
  client_event_listeners = ("hello", 4 ∷ 5 ∷ []) ∷ [];
  open_listeners = [];
  close_listeners = 9 ∷ [];
  heartbeat_interval = 10;
  heartbeat_timer = none;
  socket = open_socket;
}

-- "a" and "b" are connected, and both are in the room.
abbrev pair : Server ℕ
pair = record {
  sockets = ("a", peer "a" ("lobby" ∷ [])) ∷ ("b", peer "b" ("lobby" ∷ [])) ∷ [];
  rooms = ("lobby", ("a", tt) ∷ ("b", tt) ∷ []) ∷ [];
  heartbeat_interval = 10;
}

socket_server : Unit {0}
unfolding socket_join_room socket_leave_room socket_leave_all_rooms Socket.join Socket.leave
    Socket.leave_all_rooms JsMap.set JsMap.delete
socket_server = tt

joined_pair :
    socket_join_room "b" "lobby" (record pair {
      sockets = ("a", peer "a" ("lobby" ∷ [])) ∷ ("b", peer "b" []) ∷ [];
      rooms = ("lobby", ("a", tt) ∷ []) ∷ [];
    })
    ≡ pair
unfolding socket_server
joined_pair = refl

emptied_room : (socket_leave_all_rooms "b" (socket_leave_room "a" "lobby" pair)).rooms ≡ []
unfolding socket_server keep_inhabited
emptied_room = refl

-- One connection that has joined a room, and the steps that lead there.
abbrev started : ServerSocket ℕ
started = record {
  id = "a";
  rooms = "hall" ∷ [];
  client_event_listeners = [];
  open_listeners = [];
  close_listeners = [];
  heartbeat_interval = 30000;
  heartbeat_timer = none;
  socket = open_socket;
}

abbrev hall : Server ℕ
hall = record {
  sockets = ("a", started) ∷ [];
  rooms = ("hall", ("a", tt) ∷ []) ∷ [];
  heartbeat_interval = 30000;
}

hall_reached : Reach never (create none) hall
unfolding handle_request call_handlers create Socket.create socket_server
hall_reached = next (next here (connects open_socket "a" (create none) refl)) (
    joins "a" "hall"
      (record hall { sockets = ("a", record started { rooms = [] }) ∷ []; rooms = [] })
      (record started { rooms = [] }) refl)

Reach-IsConsistent_example : IsConsistent hall
Reach-IsConsistent_example = Reach-IsConsistent never none hall_reached

hall-IsConsistent : IsConsistent hall
hall-IsConsistent = Reach-IsConsistent never none hall_reached

hall_open :
    (j : String) (k : ServerSocket ℕ)
    → is_member j "hall" hall.rooms ≡ true
    → JsMap.get j hall.sockets ≡ some k
    → k.socket.ready_state ≡ opened
hall_open j k m found = ground (arith, eq_iff "a" j)

room_operations-SendsTo_example :
    SendsTo never "u" "hello" 7 none
      (λ j. is_member j "hall" hall.rooms)
      hall
      (socket_room_emit never "u" "a" "hall" "hello" 7 none hall)
    × SendsTo never "u" "hello" 7 none
        (λ j. is_member j "hall" hall.rooms)
        hall
        (io_room_emit never "u" "hall" "hello" 7 none hall)
    × SendsTo never "u" "hello" 7 none
        (λ j. is_member j "hall" hall.rooms && not (j == "a"))
        hall
        (socket_room_broadcast never "u" "a" "hall" "hello" 7 none hall)
room_operations-SendsTo_example =
    room_operations-SendsTo never "u" "hello" 7 none "a" "hall" hall hall-IsConsistent hall_open

hall_open_target :
    (k : ServerSocket ℕ) → JsMap.get "a" hall.sockets ≡ some k → k.socket.ready_state ≡ opened
hall_open_target k found = ground arith

close_socket-not-IsConsistent_example :
    (is_member "a" "hall" (socket_leave_all_rooms "a" (close_socket "a" hall)).rooms ≡ true)
    × (lists "a" "hall" (close_socket "a" hall) ≡ false)
    × (IsConsistent (close_socket "a" hall) → ⊥)
    × ((Socket.handle_close started).1 ≡ [])
close_socket-not-IsConsistent_example =
    close_socket-not-IsConsistent never "a" "hall" hall started refl refl

abbrev offered : Option String
offered = some "websocket"

abbrev idle_handlers : List (String → Server ℕ → Server ℕ)
idle_handlers = (λ id s. s) ∷ []

-- An event with one header, for a socket that listens to it twice.
abbrev greeting : Items
greeting =
    cons (str "hello") (cons (array nil) (cons (object (field "correlationId" (str "u") end)) nil))

handle_message-Justified_example :
    Justified (peer "a" []) (items greeting) (handle_message (peer "a" []) (some (array greeting)))
handle_message-Justified_example = handle_message-Justified (peer "a" []) greeting

handle_message_of_IsEvent_example :
    ((e : IsEvent (items greeting))
      → handle_message (peer "a" []) (some (array greeting)) ≡ calls (answer (peer "a" []) e))
    × (HasNullHeaders (items greeting)
        → handle_message (peer "a" []) (some (array greeting)) ≡ uncaught)
handle_message_of_IsEvent_example = handle_message_of_IsEvent (peer "a" []) greeting

abbrev log_payload : Payload ℕ
log_payload = record {
  event_name = "hello";
  event_data = 7;
  sender = system_sender;
  receiver = to_socket "a";
  headers = [];
}

abbrev record_event : Payload ℕ → List (Payload ℕ) → List (Payload ℕ)
record_event p log = p ∷ log
