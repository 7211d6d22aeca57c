-- ===== src/Socket/Shown.antt =====
-- The state that `TzibburSocket` publishes, in every reachable state of ws.rs.
use mathlib.Core.Path.{subst}
use un_tzibbur_bot.Base.{
  ℕ, ◌+◌, ◌*◌, String, ◌≡◌, refl, ◌⊎◌, inl, inr, Bool, true, false, ◌||◌, Option, none, some,
  is_some, leb, ltb, ◌==◌, Bool-cases, if-holds, if◌then◌else◌,
}
use un_tzibbur_bot.Socket.{
  ClientFrame, ServerFrame, SyncState, DisconnectReason, HelloLimits, ws_protocol_version, state_eq,
  SocketEvent,
}
use un_tzibbur_bot.Socket.Frames.{
  SocketEnv, ConnState, Phase, Loop, set_state, emit, connect_up, on_hello, on_messages,
  handle_frame, decode_frame,
}
use un_tzibbur_bot.Socket.Connection.{
  Incoming, Input, TzibburSocket, Step, turn, start_asked, stop_asked, stop_done, Reach, here, next,
  ended, begin_wait, begin_attempt, on_refused, on_connect_failed, go_on, after_reason, After,
  carry_on, on_down, write, on_written, on_handled, on_frame, on_incoming, step_opened, step_in,
  step, start, ask_stop, stopped,
}

-- What the published state says in each phase: connected from the first hello or batch of a
-- connection on, update_required only when the task has ended.
abbrev pub Shows : Phase → SyncState → Type 0
Shows Phase.at_top s = (s ≡ SyncState.idle) ⊎ (s ≡ SyncState.backing_off)
Shows Phase.handshake s = s ≡ SyncState.connecting
Shows (Phase.opened conn last) s =
    s ≡ (if conn.got_hello then SyncState.connected else SyncState.connecting)
Shows (Phase.waiting delay) s = s ≡ SyncState.backing_off
Shows Phase.stopped s = (s ≡ SyncState.idle) ⊎ (s ≡ SyncState.update_required)

abbrev pub IsShown : Loop → Type 0
IsShown l = Shows l.phase l.state

state_eq-eq : (s t : SyncState) → state_eq s t ≡ true → s ≡ t
state_eq-eq SyncState.idle SyncState.idle h = refl
state_eq-eq SyncState.connecting SyncState.connecting h = refl
state_eq-eq SyncState.connected SyncState.connected h = refl
state_eq-eq SyncState.backing_off SyncState.backing_off h = refl
state_eq-eq SyncState.update_required SyncState.update_required h = refl
state_eq-eq _ _ h = cc

set_state-state : (s : SyncState) (l : Loop) → (set_state s l).state ≡ s
unfolding set_state
set_state-state s l = elim (Bool-cases (state_eq l.state s)) [
  | inl e ↦ rw e (state_eq-eq l.state s e)
  | inr e ↦ rw e refl
]

ended-IsShown : (l : Loop) → IsShown (ended l)
unfolding ended
ended-IsShown l = elim (Bool-cases (state_eq l.state SyncState.update_required)) [
  | inl e ↦ rw e (inr refl)
  | inr e ↦ rw e (inl refl)
]

begin_wait-IsShown :
    (env : SocketEnv) (floor : Option ℕ) (l : Loop) → IsShown (begin_wait env floor l)
unfolding begin_wait
begin_wait-IsShown env floor l = set_state-state SyncState.backing_off l

go_on-IsShown : (env : SocketEnv) (a : After) (l : Loop) → IsShown (go_on env a l)
unfolding go_on
go_on-IsShown env After.stop l = ended-IsShown l
go_on-IsShown env After.backoff l = begin_wait-IsShown env none l
go_on-IsShown env (After.wait_at_least floor) l = begin_wait-IsShown env (some floor) l

carry_on-IsShown : (env : SocketEnv) (r : DisconnectReason) (l : Loop) → IsShown (carry_on env r l)
unfolding carry_on
carry_on-IsShown env r l =
    if-holds IsShown l.stopping (ended-IsShown l) (go_on-IsShown env (after_reason r) l)

on_down-IsShown : (env : SocketEnv) (r : DisconnectReason) (l : Loop) → IsShown (on_down env r l)
unfolding on_down
on_down-IsShown env r l = search carry_on-IsShown

begin_attempt-IsShown :
    (token : Option String) (made : Bool) (l : Loop) → IsShown (begin_attempt token made l)
unfolding begin_attempt
begin_attempt-IsShown token made l =
    let tried = set_state SyncState.connecting l in
    if-holds IsShown l.stopping (ended-IsShown l) (
      if-holds IsShown (is_some token)
        (if-holds IsShown made (set_state-state SyncState.connecting l) (ended-IsShown tried))
        (ended-IsShown tried))

on_refused-IsShown :
    (env : SocketEnv) (status : ℕ) (after : Option ℕ) (l : Loop)
    → IsShown (on_refused env status after l)
unfolding on_refused
on_refused-IsShown env status after l =
    if-holds IsShown (status == 401 || status == 403) (search ended-IsShown)
      (search begin_wait-IsShown)

-- The inner loop: `l` shows what `conn` says.
abbrev Agrees : ConnState → Loop → Type 0
Agrees conn l = l.state ≡ (if conn.got_hello then SyncState.connected else SyncState.connecting)

on_written-IsShown :
    (env : SocketEnv) (conn : ConnState) (f : ClientFrame) (failed : Option String) (now : ℕ)
    (l : Loop)
    → Agrees conn l
    → IsShown (on_written env conn f failed now l)
unfolding on_written write
on_written-IsShown env conn f none now l h = h
on_written-IsShown env conn f (some cause) now l h = search on_down-IsShown

-- The result of a frame, with its connection and loop.
abbrev Handled : ConnState × Loop × Option DisconnectReason → Type 0
Handled r = Agrees r.0 r.1

on_hello-Agrees :
    (version : ℕ) (user device : Option String) (limits : HelloLimits) (conn : ConnState) (l : Loop)
    → Agrees conn l
    → Handled (on_hello version user device limits conn l)
unfolding on_hello emit
on_hello-Agrees version user device limits conn l h =
    elim (Bool-cases (ltb ws_protocol_version version)) [
      | inl e ↦ rw e h
      | inr e ↦ rw e (
          set_state-state SyncState.connected
            (emit (SocketEvent.hello version user device limits) (record l { attempt = 0 })))
    ]

connected_by :
    (greeted : Bool) (l : Loop)
    → l.state ≡ (if greeted then SyncState.connected else SyncState.connecting)
    → (if greeted then l else connect_up l).state ≡ SyncState.connected
unfolding connect_up emit
connected_by true l h = h
connected_by false l h = set_state-state SyncState.connected (record l { attempt = 0 })

handle_frame-Agrees :
    (env : SocketEnv) (frame : ServerFrame) (conn : ConnState) (l : Loop)
    → Agrees conn l
    → Handled (handle_frame env frame conn l)
unfolding handle_frame on_messages emit
handle_frame-Agrees env (ServerFrame.hello version user device limits) conn l h =
    on_hello-Agrees version user device limits conn l h
handle_frame-Agrees env ServerFrame.pong conn l h = h
handle_frame-Agrees env (ServerFrame.messages g ms more) conn l h = connected_by conn.got_hello l h
handle_frame-Agrees env (ServerFrame.group event fields) conn l h = h
handle_frame-Agrees env (ServerFrame.read g seq) conn l h = h
handle_frame-Agrees env (ServerFrame.error code detail) conn l h = h

on_handled-IsShown :
    (env : SocketEnv) (last : ℕ) (conn : ConnState) (l : Loop) (r : Option DisconnectReason)
    → Agrees conn l
    → IsShown (on_handled env last (conn, l, r))
unfolding on_handled
on_handled-IsShown env last conn l none h = h
on_handled-IsShown env last conn l (some reason) h = on_down-IsShown env reason l

on_frame-IsShown :
    (env : SocketEnv) (conn : ConnState) (last : ℕ) (f : Option ServerFrame) (l : Loop)
    → l.phase ≡ Phase.opened conn last
    → IsShown l
    → IsShown (on_frame env conn last f l)
unfolding on_frame
on_frame-IsShown env conn last none l p h = h
on_frame-IsShown env conn last (some f) l p h =
    let r = handle_frame env f conn l in
    on_handled-IsShown env last r.0 r.1 r.2 (handle_frame-Agrees env f conn l (rw p at h))

on_incoming-IsShown :
    (env : SocketEnv) (conn : ConnState) (last : ℕ) (m : Incoming) (now : ℕ) (l : Loop)
    → l.phase ≡ Phase.opened conn last
    → IsShown l
    → IsShown (on_incoming env conn last m now l)
unfolding on_incoming write
on_incoming-IsShown env conn last Incoming.end now l p h = search on_down-IsShown
on_incoming-IsShown env conn last (Incoming.failure cause) now l p h = search on_down-IsShown
on_incoming-IsShown env conn last (Incoming.close cf) now l p h = search on_down-IsShown
on_incoming-IsShown env conn last Incoming.ping now l p h = let k : Agrees conn l = rw p at h in k
on_incoming-IsShown env conn last Incoming.other now l p h = h
on_incoming-IsShown env conn last (Incoming.payload bytes) now l p h =
    on_frame-IsShown env conn last (decode_frame env bytes) l p h

-- The loop that a step gives, if it gives one.
abbrev Every : Option Loop → Type 0
Every none = Unit
Every (some l) = IsShown l

step_opened-IsShown :
    (env : SocketEnv) (conn : ConnState) (last : ℕ) (input : Input) (l : Loop)
    → l.phase ≡ Phase.opened conn last
    → IsShown l
    → Every (step_opened env conn last input l)
unfolding step_opened
step_opened-IsShown env conn last Input.stop_noticed l p h =
    if-holds Every l.stopping (search on_down-IsShown) tt
step_opened-IsShown env conn last (Input.outbound (some f) failed now) l p h =
    on_written-IsShown env conn f failed now l (rw p at h)
step_opened-IsShown env conn last (Input.outbound none failed now) l p h = search on_down-IsShown
step_opened-IsShown env conn last (Input.silence failed now) l p h =
    if-holds Every (leb (last + conn.heartbeat * 1000) now)
      (on_written-IsShown env conn ClientFrame.ping failed now l (rw p at h)) tt
step_opened-IsShown env conn last (Input.incoming m now) l p h =
    on_incoming-IsShown env conn last m now l p h
step_opened-IsShown env conn last _ l p h = tt

step_in-IsShown :
    (env : SocketEnv) (ph : Phase) (input : Input) (l : Loop)
    → l.phase ≡ ph
    → IsShown l
    → Every (step_in env ph input l)
unfolding step_in
step_in-IsShown env Phase.at_top (Input.begin token made) l p h = begin_attempt-IsShown token made l
step_in-IsShown env Phase.handshake (Input.accepted now) l p h = rw p at h
step_in-IsShown env Phase.handshake (Input.refused status after) l p h =
    on_refused-IsShown env status after l
step_in-IsShown env Phase.handshake (Input.connect_failed cause) l p h =
    unfold on_connect_failed in search begin_wait-IsShown
step_in-IsShown env Phase.handshake Input.stop_noticed l p h =
    if-holds Every l.stopping (ended-IsShown l) tt
step_in-IsShown env (Phase.opened conn last) input l p h =
    step_opened-IsShown env conn last input l p h
step_in-IsShown env (Phase.waiting delay) (Input.slept elapsed) l p h =
    if-holds Every (leb delay elapsed) (inr (rw p at h)) tt
step_in-IsShown env (Phase.waiting delay) Input.stop_noticed l p h =
    if-holds Every l.stopping (ended-IsShown l) tt
step_in-IsShown env _ _ l p h = tt

start-IsShown :
    (s : TzibburSocket)
    → (s.task ≡ false → s.loop.phase ≡ Phase.stopped)
    → IsShown s.loop
    → IsShown (start s).loop
unfolding start
start-IsShown s free h = elim (Bool-cases s.task) [
  | inl e ↦ rw e h
  | inr e ↦ elim (Bool-cases (state_eq s.loop.state SyncState.update_required)) [
    | inl u ↦ rw (e, u) h
    | inr u ↦ rw (e, u) (begun u (rw (free e) at h))
  ]
]
  where
    begun :
        state_eq s.loop.state SyncState.update_required ≡ false
        → (s.loop.state ≡ SyncState.idle) ⊎ (s.loop.state ≡ SyncState.update_required)
        → (s.loop.state ≡ SyncState.idle) ⊎ (s.loop.state ≡ SyncState.backing_off)
    begun u (inl i) = inl i
    begun u (inr r) = let k : true ≡ false = rw r at u in cc

Step-IsShown :
    (env : SocketEnv) {s t : TzibburSocket} → Step env s t → IsShown s.loop → IsShown t.loop
Step-IsShown env {s} (turn input {l} e) h =
    subst Every e (unfold step in step_in-IsShown env s.loop.phase input s.loop refl h)
Step-IsShown env {s} (start_asked free) h = start-IsShown s free h
Step-IsShown env {s} stop_asked h = unfold ask_stop in h
Step-IsShown env {s} (stop_done e) h = unfold stopped in ended-IsShown s.loop

-- In every state that a socket reaches, the state that it publishes is the one of its phase: it is
-- connected only while a connection is open that has greeted or delivered; connecting while one is
-- being made, or is open and has not; backing off while it waits and until the next attempt begins,
-- before which it may also be idle; and idle or update_required when its task has ended.
pub Reach-IsShown :
    (env : SocketEnv) {s t : TzibburSocket} → IsShown s.loop → Reach env s t → IsShown t.loop
Reach-IsShown env h here = h
Reach-IsShown env h (next r st) = Step-IsShown env st (Reach-IsShown env h r)
