-- ===== src/Socket/Delivery.antt =====
-- Who receives an emitted event (core/socket/server/ws-connection-handler.ts).
pub mod Operations
use nerdhub_chat_cli_prototy.Common.{
  ℕ, ◌≡◌, refl, sym, ◌∙◌, ap, ◌≢◌, Bool, true, false, not, ◌&&◌, ◌||◌, Option, none, some, List, [],
  ◌∷◌, ◌++◌, String, ◌==◌, string_same, if◌then◌else◌, arith, inl, inr, Option-cases, Bool-cases,
}
use mathlib.Core.Option
use text.Mathlib.TextEquality.{eq_iff}
use nerdhub_chat_cli_prototy.Common.JsMap
use nerdhub_chat_cli_prototy.Socket
use nerdhub_chat_cli_prototy.Socket.{
  ServerSocket, WebSocket, ReadyState, opened, Frame, event, self_headers, send,
}
use nerdhub_chat_cli_prototy.Socket.Relay.{Sender, Receiver, to_socket, to_room, Payload}
use nerdhub_chat_cli_prototy.Socket.Server.{
  Members, Server, members_or_empty, is_excluded, forward, forward_all, deliver,
  handle_gossip_relay_emit_event,
}
use nerdhub_chat_cli_prototy.Socket.Rooms.{is_member}
use nerdhub_chat_cli_prototy.Socket.Rooms.Consistency.{AreProper}

-- A socket to which a frame was sent.
abbrev pub receives : {D : Type 0} → Frame D → ServerSocket D → ServerSocket D
receives frame k = record k {
  socket = record { ready_state = k.socket.ready_state; sent = k.socket.sent ++ frame ∷ [] };
}

send_opened :
    {D : Type 0} (throws : ReadyState → Bool) (k : ServerSocket D) (frame : Frame D)
    → k.socket.ready_state ≡ opened
    → send throws k frame ≡ some (receives frame k)
unfolding send
send_opened throws k frame e = ground arith

has_first : (id : String) (ms : Members) → JsMap.has id ((id, tt) ∷ ms) ≡ true
has_first id ms = ground (arith, eq_iff id id)

has_later :
    (id j : String) (ms : Members) → JsMap.has j ms ≡ true → JsMap.has j ((id, tt) ∷ ms) ≡ true
has_later id j ms h = ground arith

module _ {D : Type 0} (throws : ReadyState → Bool) (uuid : String) (p : Payload D) where
  -- what goes over the wire for an event: its name, its data, and the headers it was emitted with
  abbrev pub frame_of : Frame D
  frame_of = event p.event_name p.event_data (self_headers uuid (some p.headers))

  -- Every socket among these is open.
  abbrev pub AreOpen : Members → Server D → Type 0
  AreOpen ms s =
      (id : String) (k : ServerSocket D)
      → JsMap.has id ms ≡ true
      → JsMap.get id s.sockets ≡ some k
      → k.socket.ready_state ≡ opened

  forward_opened :
      (id : String) (s : Server D)
      → ((k : ServerSocket D) → JsMap.get id s.sockets ≡ some k → k.socket.ready_state ≡ opened)
      → (s' : Server D) × (forward throws uuid p id s ≡ some s')
        × (s'.rooms ≡ s.rooms)
        × ((j : String)
            → JsMap.get j s'.sockets ≡ (
                if id == j
                then Option.map (receives frame_of) (JsMap.get j s.sockets)
                else JsMap.get j s.sockets))
  unfolding forward Socket.to_self_emit
  forward_opened id s open_now = elim (Option-cases (JsMap.get id s.sockets)) [
    | inl missing ↦ (s, rw (missing, forward), refl, λ j. ground (arith, missing, eq_iff id j))
    | inr (k, found) ↦ (
      record s { sockets = JsMap.set id (receives frame_of k) s.sockets },
      rw (found, forward) (rw (send_opened throws k frame_of (open_now k found)) refl),
      refl,
      λ j. ground (arith, found, eq_iff id j, JsMap.get-set id j (receives frame_of k) s.sockets),
    )
  ]

  -- the identifiers to which the loop over `ms` forwards the event
  abbrev pub is_target : Sender → Option Bool → Members → String → Bool
  is_target from exclude ms j = JsMap.has j ms && not (is_excluded from exclude j)

  -- What the loop over a room's members makes of a server: no error, the same rooms, and one more
  -- frame for each target.
  pub record Delivers (from : Sender) (exclude : Option Bool) (ms : Members) (s : Server D)
      (r : Server D × Bool) : Type 0 where
    pub complete : r.1 ≡ false
    pub same_rooms : r.0.rooms ≡ s.rooms
    pub received :
        (j : String)
        → JsMap.get j r.0.sockets ≡ (
            if is_target from exclude ms j
            then Option.map (receives frame_of) (JsMap.get j s.sockets)
            else JsMap.get j s.sockets)

  skip-Delivers :
      (from : Sender) (exclude : Option Bool) (id : String) (ms : Members) (s : Server D)
      (r : Server D × Bool)
      → is_excluded from exclude id ≡ true
      → Delivers from exclude ms s r
      → Delivers from exclude ((id, tt) ∷ ms) s r
  skip-Delivers from exclude id ms s r skip d = record {
    complete = d.complete;
    same_rooms = d.same_rooms;
    received = λ j. ground (arith, d.received j, eq_iff id j, skip);
  }

  keep-Delivers :
      (from : Sender) (exclude : Option Bool) (id : String) (ms : Members) (s s' : Server D)
      (r : Server D × Bool)
      → is_excluded from exclude id ≡ false
      → JsMap.get id ms ≡ none
      → s'.rooms ≡ s.rooms
      → ((j : String)
          → JsMap.get j s'.sockets ≡ (
              if id == j
              then Option.map (receives frame_of) (JsMap.get j s.sockets)
              else JsMap.get j s.sockets))
      → Delivers from exclude ms s' r
      → Delivers from exclude ((id, tt) ∷ ms) s r
  keep-Delivers from exclude id ms s s' r keep fresh rooms step d = record {
    complete = d.complete;
    same_rooms = d.same_rooms ∙ rooms;
    received = λ j. ground (arith, d.received j, step j, eq_iff id j, keep, fresh);
  }

  -- the sockets that remain are open still
  stay_open :
      (id : String) (ms : Members) (s s' : Server D)
      → AreOpen ((id, tt) ∷ ms) s
      → JsMap.get id ms ≡ none
      → ((j : String)
          → JsMap.get j s'.sockets ≡ (
              if id == j
              then Option.map (receives frame_of) (JsMap.get j s.sockets)
              else JsMap.get j s.sockets))
      → AreOpen ms s'
  stay_open id ms s s' o fresh step j k m found = elim (Bool-cases (id == j)) [
    | inl same ↦ ground (arith, (eq_iff id j).0 same, fresh, m)
    | inr other ↦ o j k (has_later id j ms m) (sym (rw other at (step j)) ∙ found)
  ]

  forward_all-Delivers :
      (from : Sender) (exclude : Option Bool) (ms : Members) (s : Server D)
      → JsMap.HasUniqueKeys ms
      → AreOpen ms s
      → Delivers from exclude ms s (forward_all throws uuid p from exclude ms s)
  unfolding forward_all
  forward_all-Delivers from exclude [] s u o = record {
    complete = refl;
    same_rooms = refl;
    received = λ j. refl;
  }
  forward_all-Delivers from exclude ((id, _) ∷ ms) s (fresh, u) o =
      elim (Bool-cases (is_excluded from exclude id)) [
        | inl skip ↦
            rw (skip, forward_all)
              (skip-Delivers from exclude id ms s _ skip (
                forward_all-Delivers from exclude ms s u
                  (λ j k m found. o j k (has_later id j ms m) found)))
        | inr keep ↦
            let (s', sent, rooms, step) =
              forward_opened id s (λ k found. o id k (has_first id ms) found) in
            rw (keep, forward_all)
              (rw sent (
                keep-Delivers from exclude id ms s s' _ keep fresh rooms step
                  (forward_all-Delivers from exclude ms s' u (stay_open id ms s s' o fresh step))))
      ]
