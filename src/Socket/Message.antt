-- ===== src/Socket/Message.antt =====
-- Incoming messages: core/socket/server/socket.server.core.utils.ts and the "message" listener of
-- core/socket/server/server-socket.ts. Parsing is `JSON.parse`, which is a parameter.
use nerdhub_chat_cli_prototy.Common.{
  ℕ, ◌≡◌, refl, Bool, true, false, ◌&&◌, Option, none, some, List, [], ◌∷◌, String, string_same,
  inl, inr, Bool-cases, ◌⊎◌,
}
use nerdhub_chat_cli_prototy.Common.JsMap
use nerdhub_chat_cli_prototy.Socket.{ServerSocket}

-- The values of `JSON.parse`. The numbers and the items of nested arrays play no part.
mutual
  pub data Json : Type 0 where
    null : Json
    boolean : Bool → Json
    number : Json
    str : String → Json
    array : Items → Json
    object : Fields → Json

  pub data Items : Type 0 where
    nil : Items
    cons : Json → Items → Items

  pub data Fields : Type 0 where
    end : Fields
    field : String → Json → Fields → Fields

abbrev pub items : Items → List Json
items nil = []
items (cons v vs) = v ∷ items vs

abbrev pub fields : Fields → List (String × Json)
fields end = []
fields (field k v fs) = (k, v) ∷ fields fs

-- `typeof v === "object"`: null and arrays are objects too
abbrev pub is_object : Json → Bool
is_object null = true
is_object (array vs) = true
is_object (object fs) = true
is_object v = false

abbrev pub is_text : Json → Bool
is_text (str s) = true
is_text v = false

-- `key in v`, for a value that is an object by `typeof`; `none` is the TypeError on null. The keys
-- of an array are its indices and "length", none of them `key`.
unfoldable pub is_in : String → Json → Option Bool
is_in key null = none
is_in key (object fs) = some (JsMap.has key (fields fs))
is_in key v = some false

-- the last operands of the `&&`, which are evaluated only where the earlier ones hold
abbrev and_then : Bool → Option Bool → Option Bool
and_then false rest = some false
and_then true rest = rest

unfoldable pub is_event : List Json → Option Bool
unfolding is_in
is_event (name ∷ d ∷ headers ∷ []) =
    and_then (is_text name && is_object d && is_object headers) (is_in "correlationId" headers)
is_event vs = some false

-- `isServerSocketToSelfEventPayload`; `none` where it throws
unfoldable pub is_server_socket_to_self_event_payload : Json → Option Bool
unfolding is_event
is_server_socket_to_self_event_payload (array vs) = is_event (items vs)
is_server_socket_to_self_event_payload v = some false

-- What the "message" listener does: a call for each listener of the event, in order, or an error
-- that nothing catches.
pub data Reaction : Type 0 where
  uncaught : Reaction
  calls : List (ℕ × Json × Json) → Reaction

abbrev pub listeners_or_none : Option (List ℕ) → List ℕ
listeners_or_none none = []
listeners_or_none (some ls) = ls

-- the loop over the listeners; what one throws is caught in its round
pub call_all : List ℕ → Json → Json → List (ℕ × Json × Json)
call_all [] d headers = []
call_all (l ∷ ls) d headers = (l, d, headers) ∷ call_all ls d headers

module _ {D : Type 0} (s : ServerSocket D) where
  unfoldable pub call_listeners : List Json → Reaction
  unfolding call_all
  call_listeners (str name ∷ d ∷ headers ∷ []) =
      calls (call_all (listeners_or_none (JsMap.get name s.client_event_listeners)) d headers)
  call_listeners vs = calls []

  unfoldable pub react : Json → Option Bool → Reaction
  unfolding call_listeners
  react payload none = uncaught
  react payload (some false) = calls []
  react (array vs) (some true) = call_listeners (items vs)
  react payload (some true) = calls []

  -- `parsed` is what `JSON.parse` returns, `none` where it throws
  unfoldable pub handle_message : Option Json → Reaction
  unfolding react is_server_socket_to_self_event_payload
  handle_message none = uncaught
  handle_message (some payload) = react payload (is_server_socket_to_self_event_payload payload)

-- An event as a client must send it.
pub record IsEvent (vs : List Json) : Type 0 where
  pub name : String
  pub content : Json
  pub headers : Fields
  pub shape : vs ≡ str name ∷ content ∷ object headers ∷ []
  pub content_object : is_object content ≡ true
  pub correlated : JsMap.has "correlationId" (fields headers) ≡ true

-- The shape on which `in` throws.
abbrev pub HasNullHeaders : List Json → Type 0
HasNullHeaders vs =
    (name : String) × (content : Json) × (vs ≡ str name ∷ content ∷ null ∷ [])
    × (is_object content ≡ true)

abbrev Classified : List Json → Option Bool → Type 0
Classified vs none = HasNullHeaders vs
Classified vs (some true) = IsEvent vs
Classified vs (some false) = Unit

and_then_cases :
    (b : Bool) (rest : Option Bool)
    → (and_then b rest ≡ some false) ⊎ ((b ≡ true) × (and_then b rest ≡ rest))
and_then_cases true rest = inr (refl, refl)
and_then_cases false rest = inl refl

classify_object :
    (name : String) (d : Json) (fs : Fields)
    → Classified (str name ∷ d ∷ object fs ∷ []) (is_event (str name ∷ d ∷ object fs ∷ []))
unfolding is_event is_in
classify_object name d fs = elim (Bool-cases (is_object d)) [
  | inl o ↦ elim (Bool-cases (JsMap.has "correlationId" (fields fs))) [
    | inl h ↦
        rw (o, h)
          (record {
            name = name;
            content = d;
            headers = fs;
            shape = refl;
            content_object = o;
            correlated = h;
          })
    | inr h ↦ rw (o, h) tt
  ]
  | inr o ↦ rw o tt
]

classify_null :
    (name : String) (d : Json)
    → Classified (str name ∷ d ∷ null ∷ []) (is_event (str name ∷ d ∷ null ∷ []))
unfolding is_event is_in
classify_null name d = elim (Bool-cases (is_object d)) [
  | inl o ↦ rw o (name, d, refl, o)
  | inr o ↦ rw o tt
]

-- the cases in which the check answers false, whatever the data is
refused : (b : Bool) (vs : List Json) → Classified vs (and_then (b && false) (some false))
refused true vs = tt
refused false vs = tt

refused_array : (b : Bool) (vs : List Json) → Classified vs (and_then (b && true) (some false))
refused_array true vs = tt
refused_array false vs = tt

classify : (vs : List Json) → Classified vs (is_event vs)
unfolding is_event is_in
classify [] = tt
classify (a ∷ []) = tt
classify (a ∷ b ∷ []) = tt
classify (str name ∷ d ∷ object fs ∷ []) = classify_object name d fs
classify (str name ∷ d ∷ null ∷ []) = classify_null name d
classify (str name ∷ d ∷ array vs ∷ []) = refused_array (is_object d) _
classify (str name ∷ d ∷ boolean b ∷ []) = refused (is_object d) _
classify (str name ∷ d ∷ number ∷ []) = refused (is_object d) _
classify (str name ∷ d ∷ str t ∷ []) = refused (is_object d) _
classify (null ∷ d ∷ h ∷ []) = tt
classify (boolean b ∷ d ∷ h ∷ []) = tt
classify (number ∷ d ∷ h ∷ []) = tt
classify (array vs ∷ d ∷ h ∷ []) = tt
classify (object fs ∷ d ∷ h ∷ []) = tt
classify (a ∷ b ∷ c ∷ d ∷ vs) = tt

module _ {D : Type 0} (s : ServerSocket D) where
  -- what the socket owes to an event
  abbrev pub answer : {vs : List Json} → IsEvent vs → List (ℕ × Json × Json)
  answer e =
      call_all (listeners_or_none (JsMap.get e.name s.client_event_listeners)) e.content
        (object e.headers)

  abbrev pub Justified : List Json → Reaction → Type 0
  Justified vs uncaught = HasNullHeaders vs
  Justified vs (calls cs) = (cs ≡ []) ⊎ ((e : IsEvent vs) × (cs ≡ answer e))

  react-Justified :
      (vs : Items) (verdict : Option Bool)
      → Classified (items vs) verdict
      → Justified (items vs) (react s (array vs) verdict)
  unfolding react call_listeners
  react-Justified vs none c = c
  react-Justified vs (some false) c = inl refl
  react-Justified vs (some true) c =
      rw (c.shape, call_listeners)
        (inr (
          record {
            name = c.name;
            content = c.content;
            headers = c.headers;
            shape = refl;
            content_object = c.content_object;
            correlated = c.correlated;
          },
          refl,
        ))

  -- Whatever array a client sends: listeners are called only for an event, and then those registered
  -- under its name, each once, in the order of registration, with the event's data and headers; and
  -- the handler throws only where the third item is null.
  pub handle_message-Justified :
      (vs : Items) → Justified (items vs) (handle_message s (some (array vs)))
  unfolding handle_message is_server_socket_to_self_event_payload
  handle_message-Justified vs = react-Justified vs (is_event (items vs)) (classify (items vs))

  -- Every event is answered: its listeners are called. A message of an event's form whose headers
  -- are null is an error that nothing catches.
  pub handle_message_of_IsEvent :
      (vs : Items)
      → ((e : IsEvent (items vs)) → handle_message s (some (array vs)) ≡ calls (answer e))
        × (HasNullHeaders (items vs) → handle_message s (some (array vs)) ≡ uncaught)
  unfolding handle_message is_server_socket_to_self_event_payload react call_listeners is_event
      is_in
  handle_message_of_IsEvent vs = (
    λ e.
        rw (e.shape, is_event) (rw (e.content_object, e.correlated) (rw (e.shape, call_listeners))),
    λ (name, d, shape, o). rw (shape, is_event) (rw o refl),
  )
