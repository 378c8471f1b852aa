-- ===== src/Socket/Relay.antt =====
-- core/socket/server/event-target-gossip-relay.ts: events go through the platform's `EventTarget`
-- to the one listener that was registered with `onEmit`. `S` is the state that the listener
-- changes. An `EventTarget` calls the listeners of an event's name before `dispatchEvent` returns.
use nerdhub_chat_cli_prototy.Common.{
  ◌≡◌, refl, Bool, true, false, Option, none, some, List, [], ◌∷◌, String, arith,
}
use nerdhub_chat_cli_prototy.Socket.{Headers}

pub data EndpointType : Type 0 where
  socket_endpoint room_endpoint system_endpoint : EndpointType

-- `ServerSocketEmitSender`
pub data Sender : Type 0 where
  socket_sender : Option String → Sender
  system_sender : Sender

-- `ServerSocketEmitReceiver`
pub data Receiver : Type 0 where
  to_socket : String → Receiver
  to_room : String → Option Bool → Receiver

abbrev pub endpoint_type : Receiver → EndpointType
endpoint_type (to_socket id) = socket_endpoint
endpoint_type (to_room name exclude) = room_endpoint

pub data GossipLayerEventName : Type 0 where
  to_socket_event to_room_event : GossipLayerEventName

-- `socketEndpointTypeToGossipRelayEventName`
pub relay_event_name : EndpointType → Option GossipLayerEventName
relay_event_name socket_endpoint = some to_socket_event
relay_event_name room_endpoint = some to_room_event
relay_event_name system_endpoint = none

-- `ServerSocketEventEventTargetGossipRelayPayload`
pub record Payload (D : Type 0) : Type 0 where
  pub event_name : String
  pub event_data : D
  pub sender : Sender
  pub receiver : Receiver
  pub headers : Headers

pub record GossipRelay (D S : Type 0) : Type 0 where
  -- the names under which `handleGossipLayerEvent` is registered, in order
  pub registered : List GossipLayerEventName
  pub emit_listener : Option (Payload D → S → S)

abbrev same_event : GossipLayerEventName → GossipLayerEventName → Bool
same_event to_socket_event to_socket_event = true
same_event to_room_event to_room_event = true
same_event _ _ = false

module _ {D S : Type 0} where
  unfoldable pub create : GossipRelay D S
  create = record { registered = to_socket_event ∷ to_room_event ∷ []; emit_listener = none }

  unfoldable pub on_emit : GossipRelay D S → (Payload D → S → S) → GossipRelay D S
  on_emit r listener = record r { emit_listener = some listener }

  unfoldable pub handle_gossip_layer_event : GossipRelay D S → Payload D → S → S
  handle_gossip_layer_event r payload s = elim r.emit_listener [
    | none ↦ s
    | some listener ↦ listener payload s
  ]

  -- `dispatchEvent`: one call for each registration under the event's name
  unfoldable pub dispatch :
      GossipRelay D S → List GossipLayerEventName → GossipLayerEventName → Payload D → S → S
  dispatch r [] name payload s = s
  dispatch r (n ∷ ns) name payload s =
      dispatch r ns name payload
        (elim (same_event n name) [ true ↦ handle_gossip_layer_event r payload s | false ↦ s ])

  -- `none` is the error "Invalid receiver type."
  unfoldable pub emit : GossipRelay D S → Payload D → S → Option S
  emit r payload s = elim (relay_event_name (endpoint_type payload.receiver)) [
    | none ↦ none
    | some name ↦ some (dispatch r r.registered name payload s)
  ]

  -- An emitted event reaches the listener registered last, and reaches it once, whatever its
  -- receiver; `emit` does not fail.
  pub emit-on_emit :
      (listener earlier : Payload D → S → S) (payload : Payload D) (s : S)
      → (emit (on_emit create listener) payload s ≡ some (listener payload s))
        × (emit (on_emit (on_emit create earlier) listener) payload s ≡ some (listener payload s))
  unfolding emit on_emit create dispatch handle_gossip_layer_event relay_event_name
  emit-on_emit listener earlier payload s = receiver_cases payload.receiver refl
    where
      receiver_cases :
          (to : Receiver)
          → payload.receiver ≡ to
          → (emit (on_emit create listener) payload s ≡ some (listener payload s))
            × (emit (on_emit (on_emit create earlier) listener) payload s
                ≡ some (listener payload s))
      receiver_cases (to_socket id) e = ground arith
      receiver_cases (to_room name exclude) e = ground arith
