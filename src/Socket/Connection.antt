-- ===== src/Socket/Connection.antt =====
-- The connection task of ws.rs: `run_loop`, `backoff_wait`, and `start` and `stop` of
-- `TzibburSocket`. An `Input` is what a `select!` of the task finds ready, with the clock where the
-- source reads it. A step is possible in the phase that waits for that input.
use Prim.Native.Nat.{max}
use Prim.Native.String
use un_tzibbur_bot.Base.{
  ℕ, suc, ◌+◌, ◌*◌, ◌^◌, String, ◌≡◌, Bool, true, false, ◌||◌, Option, none, some, List, [], ◌∷◌,
  is_some, leb, ltb, ◌==◌, if◌then◌else◌,
}
use un_tzibbur_bot.Backoff.{backoff_delay}
use un_tzibbur_bot.Socket.{
  ClientFrame, ServerFrame, SocketEvent, SyncState, DisconnectReason, state_eq, closed_with,
  is_too_many_connections, too_many_connections_wait, ws_close_session_revoked,
  ping_after_outbound_silence,
}
use un_tzibbur_bot.Socket.Frames.{
  SocketEnv, ConnState, Phase, Written, Loop, set_state, emit, decode_frame, handle_frame,
}

-- What tungstenite's stream gives: its end, an error, or a message.
pub data Incoming : Type 0 where
  end : Incoming
  failure : (cause : String) → Incoming
  close : (code_and_reason : Option (ℕ × String)) → Incoming
  ping other : Incoming
  payload : (bytes : List ℕ) → Incoming

-- `begin` says whether there is a token and whether the URL makes a request. `refused` has the
-- seconds of the `Retry-After` header; `outbound` and `silence` the error of the write.
pub data Input : Type 0 where
  begin : (token : Option String) (request_made : Bool) → Input
  accepted : (now : ℕ) → Input
  refused : (status : ℕ) (retry_after : Option ℕ) → Input
  connect_failed : (cause : String) → Input
  stop_noticed : Input
  outbound : (frame : Option ClientFrame) (failed : Option String) (now : ℕ) → Input
  silence : (failed : Option String) (now : ℕ) → Input
  incoming : (message : Incoming) (now : ℕ) → Input
  slept : (elapsed : ℕ) → Input

-- The task ends; `start` wraps it with this change of the state.
unfoldable pub ended : Loop → Loop
ended l = record l {
  phase = Phase.stopped;
  state =
      if state_eq l.state SyncState.update_required
      then SyncState.update_required
      else SyncState.idle;
}

-- `u32::saturating_add`
unfoldable pub next_attempt : ℕ → ℕ
next_attempt n = if ltb (n + 1) (2 ^ 32) then n + 1 else n

abbrev at_least : Option ℕ → ℕ → ℕ
at_least none delay = delay
at_least (some floor) delay = max delay floor

-- `backoff_wait`, up to its sleep
unfoldable pub begin_wait : SocketEnv → Option ℕ → Loop → Loop
unfolding set_state next_attempt
begin_wait env floor l = record (set_state SyncState.backing_off l) {
  phase = Phase.waiting (at_least floor (backoff_delay env.gen_range l.attempt));
  attempt = next_attempt l.attempt;
}

unfoldable pub begin_attempt : Option String → Bool → Loop → Loop
unfolding set_state ended
begin_attempt token request_made l =
    let tried = set_state SyncState.connecting l in
    if l.stopping
    then ended l
    else if is_some token
    then if request_made then record tried { phase = Phase.handshake } else ended tried
    else ended tried

abbrev millis : Option ℕ → Option ℕ
millis none = none
millis (some seconds) = some (seconds * 1000)

unfoldable pub invalidate : Loop → Loop
invalidate l = record l { invalidated = suc l.invalidated }

-- The handshake was answered by an HTTP error.
unfoldable pub on_refused : SocketEnv → ℕ → Option ℕ → Loop → Loop
unfolding emit ended invalidate begin_wait
on_refused env status retry_after l =
    let revoked = SocketEvent.disconnected (DisconnectReason.session_revoked (status == 403)) in
    let refused =
      SocketEvent.disconnected
        (DisconnectReason.error (some (String.◌++◌ "HTTP " (env.status_text status)))) in
    if status == 401 || status == 403
    then ended (invalidate (emit revoked l))
    else begin_wait env (if status == 429 then millis retry_after else none) (emit refused l)

unfoldable pub on_connect_failed : SocketEnv → String → Loop → Loop
unfolding emit begin_wait
on_connect_failed env cause l =
    begin_wait env none (emit (SocketEvent.disconnected (DisconnectReason.error (some cause))) l)

pub data After : Type 0 where
  backoff stop : After
  wait_at_least : (floor : ℕ) → After

abbrev pub is_update_required : DisconnectReason → Bool
is_update_required DisconnectReason.update_required = true
is_update_required _ = false

abbrev pub is_revoked : DisconnectReason → Bool
is_revoked = closed_with ws_close_session_revoked

unfoldable pub after_reason : DisconnectReason → After
unfolding is_too_many_connections
after_reason reason =
    if is_update_required reason
    then After.stop
    else if is_revoked reason
    then After.stop
    else if is_too_many_connections reason
    then After.wait_at_least too_many_connections_wait
    else After.backoff

unfoldable pub go_on : SocketEnv → After → Loop → Loop
unfolding ended begin_wait
go_on env After.stop l = ended l
go_on env (After.wait_at_least floor) l = begin_wait env (some floor) l
go_on env After.backoff l = begin_wait env none l

-- The subscribers' reason, and the session's end.
unfoldable pub report : DisconnectReason → Loop → Loop
unfolding emit invalidate
report reason l =
    if is_revoked reason
    then invalidate (emit (SocketEvent.disconnected (DisconnectReason.session_revoked false)) l)
    else emit (SocketEvent.disconnected reason) l

unfoldable pub carry_on : SocketEnv → DisconnectReason → Loop → Loop
unfolding after_reason go_on ended
carry_on env reason l = if l.stopping then ended l else go_on env (after_reason reason) l

-- The connection is down: what follows the inner loop.
unfoldable pub on_down : SocketEnv → DisconnectReason → Loop → Loop
unfolding set_state report carry_on
on_down env reason l =
    carry_on env reason (
      report reason
        (if is_update_required reason then set_state SyncState.update_required l else l))

unfoldable pub write : Written → Loop → Loop
write w l = record l { written = w ∷ l.written }

-- A frame was written, or the write failed.
unfoldable pub on_written : SocketEnv → ConnState → ClientFrame → Option String → ℕ → Loop → Loop
unfolding write on_down
on_written env conn frame none now l = record (write (Written.frame frame) l) {
  phase = Phase.opened conn now;
}
on_written env conn frame (some cause) now l = on_down env (DisconnectReason.error (some cause)) l

unfoldable pub on_handled : SocketEnv → ℕ → ConnState × Loop × Option DisconnectReason → Loop
unfolding on_down
on_handled env last (conn, l, none) = record l { phase = Phase.opened conn last }
on_handled env last (conn, l, some reason) = on_down env reason l

unfoldable pub on_frame : SocketEnv → ConnState → ℕ → Option ServerFrame → Loop → Loop
unfolding on_handled handle_frame
on_frame env conn last none l = l
on_frame env conn last (some frame) l = on_handled env last (handle_frame env frame conn l)

abbrev closing : Option (ℕ × String) → DisconnectReason
closing none = DisconnectReason.closed none none
closing (some (code, reason)) = DisconnectReason.closed (some code) (some reason)

unfoldable pub on_incoming : SocketEnv → ConnState → ℕ → Incoming → ℕ → Loop → Loop
unfolding on_down on_frame write decode_frame
on_incoming env conn last Incoming.end now l = on_down env (DisconnectReason.closed none none) l
on_incoming env conn last (Incoming.failure cause) now l =
    on_down env (DisconnectReason.error (some cause)) l
on_incoming env conn last (Incoming.close cf) now l = on_down env (closing cf) l
on_incoming env conn last Incoming.ping now l = record (write Written.pong l) {
  phase = Phase.opened conn now;
}
on_incoming env conn last Incoming.other now l = l
on_incoming env conn last (Incoming.payload bytes) now l =
    on_frame env conn last (decode_frame env bytes) l

-- The select of the inner loop.
unfoldable pub step_opened : SocketEnv → ConnState → ℕ → Input → Loop → Option Loop
unfolding on_down on_written on_incoming write
step_opened env conn last Input.stop_noticed l =
    if l.stopping
    then some (
        on_down env (DisconnectReason.closed (some 1000) (some "client stop"))
          (write Written.close l))
    else none
step_opened env conn last (Input.outbound (some frame) failed now) l =
    some (on_written env conn frame failed now l)
step_opened env conn last (Input.outbound none failed now) l =
    some (on_down env (DisconnectReason.error (some "outbound channel closed")) l)
step_opened env conn last (Input.silence failed now) l =
    if leb (last + conn.heartbeat * 1000) now
    then some (on_written env conn ClientFrame.ping failed now l)
    else none
step_opened env conn last (Input.incoming message now) l =
    some (on_incoming env conn last message now l)
step_opened env conn last _ l = none

abbrev fresh_conn : ConnState
fresh_conn = record { got_hello = false; heartbeat = ping_after_outbound_silence }

unfoldable pub step_in : SocketEnv → Phase → Input → Loop → Option Loop
unfolding begin_attempt on_refused on_connect_failed step_opened ended
step_in env Phase.at_top (Input.begin token request_made) l =
    some (begin_attempt token request_made l)
step_in env Phase.handshake (Input.accepted now) l =
    some (record l { phase = Phase.opened fresh_conn now })
step_in env Phase.handshake (Input.refused status retry_after) l =
    some (on_refused env status retry_after l)
step_in env Phase.handshake (Input.connect_failed cause) l = some (on_connect_failed env cause l)
step_in env Phase.handshake Input.stop_noticed l = if l.stopping then some (ended l) else none
step_in env (Phase.opened conn last) input l = step_opened env conn last input l
step_in env (Phase.waiting delay) (Input.slept elapsed) l =
    if leb delay elapsed then some (record l { phase = Phase.at_top }) else none
step_in env (Phase.waiting delay) Input.stop_noticed l = if l.stopping then some (ended l) else none
step_in env _ _ l = none

-- One turn of the task; `none` if its phase does not wait for the input.
unfoldable pub step : SocketEnv → Input → Loop → Option Loop
unfolding step_in
step env input l = step_in env l.phase input l

-- `task` says whether `task` holds a handle.
pub record TzibburSocket : Type 0 where
  pub loop : Loop
  pub task : Bool

unfoldable pub start : TzibburSocket → TzibburSocket
start s =
    if s.task then s else if state_eq s.loop.state SyncState.update_required then s else record {
      loop = record s.loop { phase = Phase.at_top; attempt = 0; stopping = false };
      task = true;
    }

-- The first half of `stop`: the handle is taken, and the task is told.
unfoldable pub ask_stop : TzibburSocket → TzibburSocket
ask_stop s = record { loop = record s.loop { stopping = true }; task = false }

-- The second half, when the task has ended.
unfoldable pub stopped : TzibburSocket → TzibburSocket
unfolding ended
stopped s = record s { loop = ended s.loop }

-- What may happen to a socket: its task takes a turn, or its owner starts or stops it. The owner
-- does not start it while a stop is under way.
pub data Step (env : SocketEnv) (s : TzibburSocket) : TzibburSocket → Type 0 where
  turn :
      (input : Input) {l : Loop}
      → step env input s.loop ≡ some l
      → Step env s (record s { loop = l })
  start_asked : (s.task ≡ false → s.loop.phase ≡ Phase.stopped) → Step env s (start s)
  stop_asked : Step env s (ask_stop s)
  stop_done : s.loop.phase ≡ Phase.stopped → Step env s (stopped s)

pub data Reach (env : SocketEnv) (s : TzibburSocket) : TzibburSocket → Type 0 where
  here : Reach env s s
  next : {t u : TzibburSocket} → Reach env s t → Step env t u → Reach env s u

-- `TzibburSocket::with_url`
abbrev pub new_socket : TzibburSocket
new_socket = record {
  loop = record {
    phase = Phase.stopped;
    state = SyncState.idle;
    attempt = 0;
    stopping = false;
    events = [];
    written = [];
    invalidated = 0;
  };
  task = false;
}
