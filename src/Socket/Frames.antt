-- ===== src/Socket/Frames.antt =====
-- What ws.rs does with a frame of the server: `decode_frame` and `handle_frame`, and the state that
-- the connection loop keeps. Times are in milliseconds, but `heartbeat` is in seconds.
use mathlib.Core.Option
use un_tzibbur_bot.Base.{
  ℕ, String, Bool, true, false, ◌&&◌, Option, none, some, List, [], ◌∷◌, map, or_else, is_some,
  unwrap_or, str_eq, ltb, if◌then◌else◌,
}
use un_tzibbur_bot.Entities.{MessageDto}
use un_tzibbur_bot.Json.{Json, Items, Fields, get, and_then, as_object, str_field}
use un_tzibbur_bot.Socket.{
  Decoders, ClientFrame, ServerFrame, HelloLimits, SocketEvent, SyncState, DisconnectReason,
  state_eq, parse, is_update_required_code, ws_protocol_version,
}

-- What the sources take from elsewhere: the random generator, the decoders of serde, and the text
-- of an HTTP status.
pub record SocketEnv : Type 0 where
  pub gen_range : ℕ → ℕ → ℕ
  pub frame : List ℕ → Option ServerFrame
  pub value : List ℕ → Option Json
  pub message : Json → Option MessageDto
  pub decoders : Decoders
  pub status_text : ℕ → String

-- `ConnState`
pub record ConnState : Type 0 where
  pub got_hello : Bool
  pub heartbeat : ℕ

-- Where the task of the connection is: at the top of the outer loop, awaiting the handshake, in the
-- inner loop, in `backoff_wait`, or at its end.
pub data Phase : Type 0 where
  at_top handshake stopped : Phase
  opened : (conn : ConnState) (last_outbound : ℕ) → Phase
  waiting : (delay : ℕ) → Phase

-- What is written to the socket.
pub data Written : Type 0 where
  frame : ClientFrame → Written
  pong close : Written

-- `events` is what the subscribers were sent, `written` what the server was, both newest first;
-- `invalidated` counts the calls of `notify_session_invalidated`.
pub record Loop : Type 0 where
  pub phase : Phase
  pub state : SyncState
  pub attempt : ℕ
  pub stopping : Bool
  pub events : List SocketEvent
  pub written : List Written
  pub invalidated : ℕ

unfoldable pub set_state : SyncState → Loop → Loop
set_state s l = if state_eq l.state s then l else record l { state = s }

unfoldable pub emit : SocketEvent → Loop → Loop
emit ev l = record l { events = ev ∷ l.events }

-- `serde_json::from_value(m).ok()` of every element
unfoldable pub decode_all : (Json → Option MessageDto) → Items → List MessageDto
decode_all decode Items.nil = []
decode_all decode (Items.item j rest) =
    let later = decode_all decode rest in elim (decode j) [ none ↦ later | some m ↦ m ∷ later ]

abbrev as_array : Json → Option Items
as_array (Json.array items) = some items
as_array _ = none

abbrev one : Option MessageDto → List MessageDto
one none = []
one (some m) = m ∷ []

-- An object under `message`, or the frame itself if it has `seq` and `body`.
unfoldable pub lone_message : SocketEnv → Json → Fields → Option Fields → List MessageDto
unfolding get
lone_message env v fields (some inner) = one (env.message (Json.object inner))
lone_message env v fields none =
    if is_some (get "seq" fields) && is_some (get "body" fields) then one (env.message v) else []

unfoldable pub found_messages : SocketEnv → Json → Fields → Option Items → List MessageDto
unfolding decode_all lone_message
found_messages env v fields (some items) = decode_all env.message items
found_messages env v fields none =
    lone_message env v fields (and_then (get "message" fields) as_object)

unfoldable pub pushed : Option String → List MessageDto → Option ServerFrame
pushed group_id [] = none
pushed group_id (m ∷ ms) =
    Option.map (λ g. ServerFrame.messages g (m ∷ ms) false) (or_else group_id m.group_id)

-- The fields of a value; `get` of one that is not an object finds nothing.
abbrev fields_of : Json → Fields
fields_of (Json.object fields) = fields
fields_of _ = Fields.end

-- A frame that serde does not know, read leniently.
unfoldable pub decode_value : SocketEnv → Json → Option ServerFrame
unfolding found_messages pushed str_field
decode_value env v =
    let fields = fields_of v in
    pushed (str_field "groupId" fields)
      (found_messages env v fields (and_then (get "messages" fields) as_array))

unfoldable pub decode_frame : SocketEnv → List ℕ → Option ServerFrame
unfolding decode_value
decode_frame env bytes = or_else (env.frame bytes) (and_then (env.value bytes) (decode_value env))

-- The first sign of a working connection.
unfoldable pub connect_up : Loop → Loop
unfolding set_state emit
connect_up l = emit SocketEvent.connected (set_state SyncState.connected (record l { attempt = 0 }))

abbrev heartbeat_of : Option ℕ → ℕ → ℕ
heartbeat_of none old = old
heartbeat_of (some s) old = if ltb 0 s then s else old

unfoldable pub on_hello :
    ℕ
    → Option String
    → Option String
    → HelloLimits
    → ConnState
    → Loop
    → ConnState × Loop × Option DisconnectReason
unfolding emit set_state
on_hello version user_id device_id limits conn l =
    if ltb ws_protocol_version version then (conn, l, some DisconnectReason.update_required) else (
      record { got_hello = true; heartbeat = heartbeat_of limits.heartbeat_seconds conn.heartbeat },
      emit SocketEvent.connected (
          set_state SyncState.connected
            (emit (SocketEvent.hello version user_id device_id limits) (record l { attempt = 0 }))),
      none,
    )

-- `m.group_id.get_or_insert_with(|| group_id.clone())`
unfoldable pub in_frame : String → MessageDto → MessageDto
in_frame group_id m = record m { group_id = some (unwrap_or m.group_id group_id) }

unfoldable pub on_messages :
    String → List MessageDto → Bool → ConnState → Loop → ConnState × Loop × Option DisconnectReason
unfolding connect_up emit in_frame
on_messages group_id ms has_more conn l = (
  record conn { got_hello = true },
  emit (SocketEvent.messages group_id (map (in_frame group_id) ms) has_more)
      (if conn.got_hello then l else connect_up l),
  none,
)

unfoldable pub on_error_frame : String → Option DisconnectReason
unfolding is_update_required_code
on_error_frame code =
    if is_update_required_code code
    then some DisconnectReason.update_required
    else if str_eq code "push_failed"
    then some (DisconnectReason.error (some code))
    else none

-- The new state of the connection, and the reason for tearing it down if there is one.
unfoldable pub handle_frame :
    SocketEnv → ServerFrame → ConnState → Loop → ConnState × Loop × Option DisconnectReason
unfolding on_hello on_messages on_error_frame emit parse
handle_frame env (ServerFrame.hello version user_id device_id limits) conn l =
    on_hello version user_id device_id limits conn l
handle_frame env ServerFrame.pong conn l = (conn, l, none)
handle_frame env (ServerFrame.messages group_id ms has_more) conn l =
    on_messages group_id ms has_more conn l
handle_frame env (ServerFrame.group event fields) conn l =
    (conn, emit (SocketEvent.group_event (parse env.decoders event fields)) l, none)
handle_frame env (ServerFrame.read group_id read_seq) conn l =
    (conn, emit (SocketEvent.read group_id read_seq) l, none)
handle_frame env (ServerFrame.error code detail) conn l = (conn, l, on_error_frame code)
