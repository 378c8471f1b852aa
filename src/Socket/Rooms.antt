-- ===== src/Socket/Rooms.antt =====
-- Who is in which room (core/socket/server/ws-connection-handler.ts): the handler's map of rooms
-- and the list that each socket keeps say the same.
pub mod Consistency
use nerdhub_chat_cli_prototy.Common.{
  ℕ, ◌≡◌, refl, sym, ◌∙◌, ◌≢◌, ◌↔◌, Bool, true, false, not, ◌&&◌, ◌||◌, Option, none, some, List,
  [], ◌∷◌, ◌++◌, String, ◌==◌, string_same, if◌then◌else◌, filter, arith, inl, inr, Bool-cases,
  Option-cases, SameValue,
}
use mathlib.Core.Option
use text.Mathlib.TextEquality.{eq_iff}
use nerdhub_chat_cli_prototy.Common.JsMap
use nerdhub_chat_cli_prototy.Socket
use nerdhub_chat_cli_prototy.Socket.{ServerSocket}
use nerdhub_chat_cli_prototy.Socket.Server.{
  Members, Server, members_or_empty, update, remove_member, keep_inhabited, socket_join_room,
  socket_leave_room, remove_from_all, rooms_of, socket_leave_all_rooms,
}

unfoldable pub contains : String → List String → Bool
contains r [] = false
contains r (x ∷ xs) = x == r || contains r xs

contains-append :
    (r x : String) (xs : List String) → contains r (xs ++ x ∷ []) ≡ (x == r || contains r xs)
unfolding contains
contains-append r x [] = refl
contains-append r x (y ∷ xs) = ground (arith, contains-append r x xs)

contains-filter :
    (r x : String) (xs : List String)
    → contains r (filter (λ y. not (y == x)) xs) ≡ (not (x == r) && contains r xs)
unfolding contains
contains-filter r x [] = ground arith
contains-filter r x (y ∷ xs) =
    ground (arith, contains-filter r x xs, eq_iff y x, eq_iff x r, eq_iff y r)

-- whether the handler's map has the socket `id` in the room
abbrev pub is_member : String → String → List (String × Members) → Bool
is_member id room rooms = JsMap.has id (members_or_empty (JsMap.get room rooms))

-- whether the socket `id` has the room in its own list
abbrev pub lists : {D : Type 0} → String → String → Server D → Bool
lists id room s = contains room (rooms_of (JsMap.get id s.sockets))

is_member-set :
    (id room j q : String) (rooms : List (String × Members))
    → is_member j q
        (JsMap.set room (JsMap.set id tt (members_or_empty (JsMap.get room rooms))) rooms)
      ≡ ((id == j && room == q) || is_member j q rooms)
is_member-set id room j q rooms = ground (
  arith,
  eq_iff room q,
  JsMap.get-set room q (JsMap.set id tt (members_or_empty (JsMap.get room rooms))) rooms,
  JsMap.get-set id j tt (members_or_empty (JsMap.get room rooms)),
)

get-keep_inhabited :
    (room q : String) (ms : Members) (rooms : List (String × Members))
    → members_or_empty (JsMap.get q (keep_inhabited room ms rooms))
      ≡ (if room == q then ms else members_or_empty (JsMap.get q rooms))
unfolding keep_inhabited
get-keep_inhabited room q [] rooms = ground (arith, JsMap.get-delete room q rooms)
get-keep_inhabited room q (m ∷ ms) rooms = ground (arith, JsMap.get-set room q (m ∷ ms) rooms)

is_member-remove_member :
    (id room j q : String) (rooms : List (String × Members))
    → is_member j q (remove_member id room rooms)
      ≡ (not (id == j && room == q) && is_member j q rooms)
unfolding remove_member
is_member-remove_member id room j q rooms = elim (Option-cases (JsMap.get room rooms)) [
  | inl missing ↦ rw (missing, remove_member) (ground (arith, eq_iff room q))
  | inr (members, found) ↦
      rw (found, remove_member)
        (ground (
          arith,
          eq_iff room q,
          get-keep_inhabited room q (JsMap.delete id members) rooms,
          JsMap.get-delete id j members,
        ))
]

is_member-remove_from_all :
    (id j q : String) (names : List String) (rooms : List (String × Members))
    → is_member j q (remove_from_all id names rooms)
      ≡ (not (id == j && contains q names) && is_member j q rooms)
unfolding remove_from_all contains
is_member-remove_from_all id j q [] rooms = ground arith
is_member-remove_from_all id j q (room ∷ names) rooms = ground (
  arith,
  is_member-remove_from_all id j q names (remove_member id room rooms),
  is_member-remove_member id room j q rooms,
)

module _ {D : Type 0} where
  pub get-update :
      (f : ServerSocket D → ServerSocket D) (id j : String) (s : Server D)
      → JsMap.get j (update f id s).sockets
        ≡ (if id == j then Option.map f (JsMap.get id s.sockets) else JsMap.get j s.sockets)
  unfolding update
  get-update f id j s = elim (Option-cases (JsMap.get id s.sockets)) [
    | inl missing ↦ rw (missing, update) (ground (arith, eq_iff id j))
    | inr (socket, found) ↦
        rw (found, update) (ground (arith, JsMap.get-set id j (f socket) s.sockets))
  ]

  pub rooms-update :
      (f : ServerSocket D → ServerSocket D) (id : String) (s : Server D)
      → (update f id s).rooms ≡ s.rooms
  unfolding update
  rooms-update f id s = ground arith

  -- A socket that joins a room is in it, by both accounts, and nothing else changes: no other
  -- socket and no other room.
  pub socket_join_room-is_member :
      (id room : String) (s : Server D) (socket : ServerSocket D)
      → JsMap.get id s.sockets ≡ some socket
      → (j q : String)
      → (is_member j q (socket_join_room id room s).rooms
          ≡ ((id == j && room == q) || is_member j q s.rooms))
        × (lists j q (socket_join_room id room s) ≡ ((id == j && room == q) || lists j q s))
  unfolding socket_join_room Socket.join
  socket_join_room-is_member id room s socket found j q = (
    rw (rooms-update (λ x. Socket.join x room) id s) (is_member-set id room j q s.rooms),
    rw (get-update (λ x. Socket.join x room) id j s) (lists_join found),
  )
    where
      lists_join :
          JsMap.get id s.sockets ≡ some socket
          → contains q (
              rooms_of (
                if id == j
                then Option.map (λ x. Socket.join x room) (JsMap.get id s.sockets)
                else JsMap.get j s.sockets))
            ≡ ((id == j && room == q) || lists j q s)
      lists_join e = ground (arith, eq_iff id j, contains-append q room socket.rooms)

  -- A socket that leaves a room is no longer in it, by both accounts, and nothing else changes.
  pub socket_leave_room-is_member :
      (id room : String) (s : Server D) (socket : ServerSocket D)
      → JsMap.get id s.sockets ≡ some socket
      → (j q : String)
      → (is_member j q (socket_leave_room id room s).rooms
          ≡ (not (id == j && room == q) && is_member j q s.rooms))
        × (lists j q (socket_leave_room id room s) ≡ (not (id == j && room == q) && lists j q s))
  unfolding socket_leave_room Socket.leave
  socket_leave_room-is_member id room s socket found j q = (
    rw (rooms-update (λ x. Socket.leave x room) id s) (is_member-remove_member id room j q s.rooms),
    rw (get-update (λ x. Socket.leave x room) id j s) (lists_leave found),
  )
    where
      lists_leave :
          JsMap.get id s.sockets ≡ some socket
          → contains q (
              rooms_of (
                if id == j
                then Option.map (λ x. Socket.leave x room) (JsMap.get id s.sockets)
                else JsMap.get j s.sockets))
            ≡ (not (id == j && room == q) && lists j q s)
      lists_leave e = ground (arith, eq_iff id j, contains-filter q room socket.rooms)

  -- A socket that leaves all its rooms is in none, by its own account, and is taken out of each
  -- room that it had listed; nothing else changes.
  pub socket_leave_all_rooms-is_member :
      (id : String) (s : Server D) (socket : ServerSocket D)
      → JsMap.get id s.sockets ≡ some socket
      → (j q : String)
      → (is_member j q (socket_leave_all_rooms id s).rooms
          ≡ (not (id == j && lists id q s) && is_member j q s.rooms))
        × (lists j q (socket_leave_all_rooms id s) ≡ (not (id == j) && lists j q s))
  unfolding socket_leave_all_rooms Socket.leave_all_rooms contains
  socket_leave_all_rooms-is_member id s socket found j q = (
    rw (rooms-update Socket.leave_all_rooms id (emptied names))
        (is_member-remove_from_all id j q names s.rooms),
    rw (get-update Socket.leave_all_rooms id j (emptied names)) (lists_leave_all found),
  )
    where
      names : List String
      names = rooms_of (JsMap.get id s.sockets)

      emptied : List String → Server D
      emptied ns = record s { rooms = remove_from_all id ns s.rooms }

      lists_leave_all :
          JsMap.get id s.sockets ≡ some socket
          → contains q (
              rooms_of (
                if id == j
                then Option.map Socket.leave_all_rooms (JsMap.get id s.sockets)
                else JsMap.get j s.sockets))
            ≡ (not (id == j) && lists j q s)
      lists_leave_all e = ground (arith, eq_iff id j)
