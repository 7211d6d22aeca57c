-- ===== src/Examples/Connection.antt =====
-- The theorems on the WebSocket connection, applied to a socket that connects, is told to update,
-- and is started again, and to frames.
use un_tzibbur_bot.Base.{ℕ, ◌≡◌, refl, true, inl, none, some, [], ◌∷◌}
use un_tzibbur_bot.Json.{Json, Fields, str_field}
use un_tzibbur_bot.Socket.{
  SyncState, DisconnectReason, SocketEvent, ServerFrame, HelloLimits, Decoders, kind, group_of,
  parse, merged,
}
use un_tzibbur_bot.Socket.Frames.{
  SocketEnv, Phase, Loop, handle_frame, on_hello, emit, set_state, decode_frame,
}
use un_tzibbur_bot.Socket.Connection.{
  Incoming, Input, TzibburSocket, turn, start_asked, Reach, here, next, new_socket, start, step,
  step_in, step_opened, begin_attempt, on_incoming, on_frame, on_handled, on_down, on_refused,
}
use un_tzibbur_bot.Socket.Parsed.{parse_reads}
use un_tzibbur_bot.Socket.Shown.{IsShown, Reach-IsShown}
use un_tzibbur_bot.Socket.Revoked.{revokes, Invalidates, step-Invalidates}
use un_tzibbur_bot.Socket.Ends.{IsFinal, update_required-IsFinal, Waits, floor_of, on_down-Waits}

abbrev decoders : Decoders
decoders = record { member = λ j. none; settings = λ j. none }

-- `{"groupId": "g", "payload": {"userId": "u"}}`
abbrev fields : Fields
fields = Fields.field "groupId" (Json.string "g") (
    Fields.field "payload" (Json.object (Fields.field "userId" (Json.string "u") Fields.end))
      Fields.end)

parse_reads_example :
    (kind (parse decoders "member-removed" fields) ≡ "member-removed")
    × (group_of (parse decoders "member-removed" fields) ≡ str_field "groupId" (merged fields))
parse_reads_example = parse_reads decoders "member-removed" fields

abbrev no_limits : HelloLimits
no_limits = record {
  heartbeat_seconds = none;
  max_connections_per_device = none;
  max_frame_bytes = none;
}

-- Every text is a `hello` of the version.
abbrev env : ℕ → SocketEnv
env version = record {
  gen_range = λ lo hi. hi;
  frame = λ bytes. some (ServerFrame.hello version none none no_limits);
  value = λ bytes. none;
  message = λ j. none;
  decoders = decoders;
  status_text = λ status. "";
}

abbrev opened : Loop
opened = record new_socket.loop {
  phase = Phase.opened (record { got_hello = true; heartbeat = 30 }) 0;
  state = SyncState.connected;
}

on_down-Waits_example :
    Waits
      (env 1)
      opened
      (floor_of (DisconnectReason.closed (some 4029) none))
      (on_down (env 1) (DisconnectReason.closed (some 4029) none) opened)
on_down-Waits_example =
    on_down-Waits (env 1) (DisconnectReason.closed (some 4029) none) opened refl refl refl

-- The handshake is refused to a blocked device.
abbrev shaking : Loop
shaking = record opened { phase = Phase.handshake }

abbrev blocked : Input
blocked = Input.refused 403 none

step-Invalidates_example :
    Invalidates (revokes shaking.phase blocked) shaking (on_refused (env 1) 403 none shaking)
unfolding step step_in
step-Invalidates_example = step-Invalidates (env 1) blocked shaking refl

-- The socket is started, connects, and is greeted.
abbrev greeted : TzibburSocket
greeted = record {
  loop = record new_socket.loop {
    phase = Phase.opened (record { got_hello = true; heartbeat = 30 }) 5;
    state = SyncState.connected;
    events = SocketEvent.connected ∷ SocketEvent.hello 1 none none no_limits ∷ [];
  };
  task = true;
}

greeting : Reach (env 1) new_socket greeted
unfolding start step step_in begin_attempt set_state step_opened on_incoming decode_frame on_frame
    handle_frame on_hello on_handled emit
greeting =
    next
      (next
        (next (next here (start_asked (λ _. refl))) (turn (Input.begin (some "token") true) refl))
        (turn (Input.accepted 5) refl))
      (turn (Input.incoming (Incoming.payload []) 6) refl)

Reach-IsShown_example : IsShown greeted.loop
Reach-IsShown_example = Reach-IsShown (env 1) (inl refl) greeting

abbrev outdated : TzibburSocket
outdated = record new_socket { loop = record new_socket.loop { state = SyncState.update_required } }

started_again : Reach (env 2) outdated outdated
unfolding start
started_again = next here (start_asked (λ _. refl))

update_required-IsFinal_example : IsFinal outdated outdated
update_required-IsFinal_example = update_required-IsFinal (env 2) refl refl started_again
