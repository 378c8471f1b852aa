-- ===== src/Socket/Rooms/Consistency.antt =====
-- The invariant of the rooms (core/socket/server/ws-connection-handler.ts).
use nerdhub_chat_cli_prototy.Common.{
  ℕ, ◌≡◌, refl, ◌≢◌, Option, some, List, [], ◌∷◌, String, ◌==◌, string_same, arith, inl, inr,
  Option-cases, Bool-cases,
}
use text.Mathlib.TextEquality.{eq_iff}
use nerdhub_chat_cli_prototy.Common.JsMap
use nerdhub_chat_cli_prototy.Socket
use nerdhub_chat_cli_prototy.Socket.{ServerSocket}
use nerdhub_chat_cli_prototy.Socket.Server.{
  Members, Server, create, members_or_empty, keep_inhabited, remove_member, socket_join_room,
  socket_leave_room, remove_from_all, rooms_of, socket_leave_all_rooms,
}
use nerdhub_chat_cli_prototy.Socket.Rooms.{
  contains, is_member, lists, rooms-update, socket_join_room-is_member, socket_leave_room-is_member,
  socket_leave_all_rooms-is_member,
}

-- No room is empty, and no socket stands in a room twice.
pub record AreProper (rooms : List (String × Members)) : Type 0 where
  pub inhabited : (room : String) → JsMap.get room rooms ≢ some []
  pub unique : (room : String) → JsMap.HasUniqueKeys (members_or_empty (JsMap.get room rooms))

set-AreProper :
    (room : String) (ms : Members) (rooms : List (String × Members))
    → ms ≢ []
    → JsMap.HasUniqueKeys ms
    → AreProper rooms
    → AreProper (JsMap.set room ms rooms)
set-AreProper room ms rooms full u p = record {
  inhabited =
      λ q e. ground (arith, JsMap.get-set room q ms rooms, eq_iff room q, full, p.inhabited q);
  unique = λ q.
      rw (JsMap.get-set room q ms rooms) (elim (Bool-cases (room == q)) [
        | inl same ↦ rw same u
        | inr other ↦ rw other (p.unique q)
      ]);
}

delete-AreProper :
    (room : String) (rooms : List (String × Members))
    → AreProper rooms
    → AreProper (JsMap.delete room rooms)
delete-AreProper room rooms p = record {
  inhabited = λ q e. ground (arith, JsMap.get-delete room q rooms, eq_iff room q, p.inhabited q);
  unique = λ q.
      rw (JsMap.get-delete room q rooms) (elim (Bool-cases (room == q)) [
        | inl same ↦ rw same tt
        | inr other ↦ rw other (p.unique q)
      ]);
}

keep_inhabited-AreProper :
    (room : String) (ms : Members) (rooms : List (String × Members))
    → JsMap.HasUniqueKeys ms
    → AreProper rooms
    → AreProper (keep_inhabited room ms rooms)
unfolding keep_inhabited
keep_inhabited-AreProper room [] rooms u p = delete-AreProper room rooms p
keep_inhabited-AreProper room (m ∷ ms) rooms u p = set-AreProper room (m ∷ ms) rooms (λ e. cc e) u p

remove_member-AreProper :
    (id room : String) (rooms : List (String × Members))
    → AreProper rooms
    → AreProper (remove_member id room rooms)
unfolding remove_member
remove_member-AreProper id room rooms p = elim (Option-cases (JsMap.get room rooms)) [
  | inl missing ↦ rw (missing, remove_member) p
  | inr (ms, found) ↦
      rw (found, remove_member)
        (keep_inhabited-AreProper room (JsMap.delete id ms) rooms
          (JsMap.delete-HasUniqueKeys id ms (rw found at (p.unique room))) p)
]

remove_from_all-AreProper :
    (id : String) (names : List String) (rooms : List (String × Members))
    → AreProper rooms
    → AreProper (remove_from_all id names rooms)
unfolding remove_from_all
remove_from_all-AreProper id [] rooms p = p
remove_from_all-AreProper id (room ∷ names) rooms p =
    remove_from_all-AreProper id names (remove_member id room rooms)
      (remove_member-AreProper id room rooms p)

module _ {D : Type 0} where
  -- The handler's rooms and the sockets' own lists agree, and the rooms are proper.
  pub record IsConsistent (s : Server D) : Type 0 where
    pub agrees : (id room : String) → is_member id room s.rooms ≡ lists id room s
    pub proper : AreProper s.rooms

  pub create-IsConsistent : (interval : Option ℕ) → IsConsistent (create interval)
  unfolding create contains
  create-IsConsistent interval = record {
    agrees = λ id room. refl;
    proper = record { inhabited = λ q e. cc e; unique = λ q. tt };
  }

  join_proper :
      (id room : String) (s : Server D)
      → AreProper s.rooms
      → AreProper (socket_join_room id room s).rooms
  unfolding socket_join_room
  join_proper id room s p = rw (rooms-update (λ x. Socket.join x room) id s) (
      set-AreProper room _ s.rooms
        (JsMap.set-ne-nil id tt (members_or_empty (JsMap.get room s.rooms)))
        (JsMap.set-HasUniqueKeys id tt _ (p.unique room)) p)

  leave_proper :
      (id room : String) (s : Server D)
      → AreProper s.rooms
      → AreProper (socket_leave_room id room s).rooms
  unfolding socket_leave_room
  leave_proper id room s p =
      rw (rooms-update (λ x. Socket.leave x room) id s) (remove_member-AreProper id room s.rooms p)

  leave_all_proper :
      (id : String) (s : Server D)
      → AreProper s.rooms
      → AreProper (socket_leave_all_rooms id s).rooms
  unfolding socket_leave_all_rooms
  leave_all_proper id s p =
      rw (rooms-update Socket.leave_all_rooms id _)
        (remove_from_all-AreProper id (rooms_of (JsMap.get id s.sockets)) s.rooms p)

  -- A connected socket's join, leave and leaveAllRooms keep the handler's rooms and the sockets'
  -- own lists in agreement, and the rooms proper: none empty, no socket in a room twice.
  pub membership-IsConsistent :
      (id room : String) (s : Server D) (socket : ServerSocket D)
      → JsMap.get id s.sockets ≡ some socket
      → IsConsistent s
      → IsConsistent (socket_join_room id room s)
        × IsConsistent (socket_leave_room id room s)
        × IsConsistent (socket_leave_all_rooms id s)
  membership-IsConsistent id room s socket found c = (
    record {
      agrees = λ j q.
          let (here, there) = socket_join_room-is_member id room s socket found j q in
          ground (arith, here, there, c.agrees j q);
      proper = join_proper id room s c.proper;
    },
    record {
      agrees = λ j q.
          let (here, there) = socket_leave_room-is_member id room s socket found j q in
          ground (arith, here, there, c.agrees j q);
      proper = leave_proper id room s c.proper;
    },
    record {
      agrees = λ j q.
          let (here, there) = socket_leave_all_rooms-is_member id s socket found j q in
          ground (arith, here, there, c.agrees j q, eq_iff id j);
      proper = leave_all_proper id s c.proper;
    },
  )
