-- ===== src/Socket/Revoked.antt =====
-- When the connection task of ws.rs gives the session up.
use mathlib.Core.Path.{subst}
use un_tzibbur_bot.Base.{
  ℕ, suc, ◌+◌, ◌*◌, String, ◌≡◌, refl, sym, ◌∙◌, inl, inr, Bool, true, false, ◌||◌, Option, none,
  some, ◌∷◌, is_some, str_eq, leb, ltb, ◌==◌, Bool-cases, if-holds, if◌then◌else◌,
}
use un_tzibbur_bot.Socket.{
  is_update_required_code, ClientFrame, ServerFrame, SyncState, DisconnectReason,
  ws_protocol_version, state_eq, SocketEvent,
}
use un_tzibbur_bot.Socket.Frames.{
  Written, SocketEnv, ConnState, Phase, Loop, set_state, emit, connect_up, on_hello, on_messages,
  on_error_frame, handle_frame, decode_frame,
}
use un_tzibbur_bot.Socket.Connection.{
  Incoming, Input, ended, begin_wait, begin_attempt, on_refused, on_connect_failed, go_on,
  after_reason, After, carry_on, report, on_down, write, on_written, on_handled, on_frame,
  on_incoming, step_opened, step_in, step, invalidate, is_update_required, is_revoked,
}

-- The server says that the session is over: it refuses the handshake with 401 or 403, or closes the
-- connection with the code 4001.
abbrev pub closes_session : Option (ℕ × String) → Bool
closes_session none = false
closes_session (some (code, reason)) = code == 4001

abbrev pub revokes_open : Input → Bool
revokes_open (Input.incoming (Incoming.close cf) now) = closes_session cf
revokes_open _ = false

abbrev pub revokes : Phase → Input → Bool
revokes Phase.handshake (Input.refused status after) = status == 401 || status == 403
revokes (Phase.opened conn last) input = revokes_open input
revokes _ _ = false

-- The session is invalidated once more, the subscribers are told so last, and the task has ended.
abbrev pub GivesUp : Loop → Loop → Type 0
GivesUp l after =
    (after.invalidated ≡ suc l.invalidated)
    × (after.phase ≡ Phase.stopped)
    × ((blocked : Bool) × (after.events
          ≡ SocketEvent.disconnected (DisconnectReason.session_revoked blocked) ∷ l.events))

abbrev pub Invalidates : Bool → Loop → Loop → Type 0
Invalidates true l after = GivesUp l after
Invalidates false l after = after.invalidated ≡ l.invalidated

-- The same number of invalidations.
abbrev Keeps : ℕ → Loop → Type 0
Keeps n l = l.invalidated ≡ n

set_state-Keeps : (n : ℕ) (s : SyncState) (l : Loop) → Keeps n l → Keeps n (set_state s l)
unfolding set_state
set_state-Keeps n s l h = if-holds (Keeps n) (state_eq l.state s) h h

begin_wait-Keeps :
    (n : ℕ) (env : SocketEnv) (floor : Option ℕ) (l : Loop)
    → Keeps n l
    → Keeps n (begin_wait env floor l)
unfolding begin_wait
begin_wait-Keeps n env floor l h = set_state-Keeps n SyncState.backing_off l h

ended-Keeps : (n : ℕ) (l : Loop) → Keeps n l → Keeps n (ended l)
unfolding ended
ended-Keeps n l h = h

go_on-Keeps : (n : ℕ) (env : SocketEnv) (a : After) (l : Loop) → Keeps n l → Keeps n (go_on env a l)
unfolding go_on
go_on-Keeps n env After.stop l h = ended-Keeps n l h
go_on-Keeps n env After.backoff l h = begin_wait-Keeps n env none l h
go_on-Keeps n env (After.wait_at_least floor) l h = begin_wait-Keeps n env (some floor) l h

carry_on-Keeps :
    (n : ℕ) (env : SocketEnv) (r : DisconnectReason) (l : Loop)
    → Keeps n l
    → Keeps n (carry_on env r l)
unfolding carry_on
carry_on-Keeps n env r l h =
    if-holds (Keeps n) l.stopping (ended-Keeps n l h) (go_on-Keeps n env (after_reason r) l h)

begin_attempt-Keeps :
    (token : Option String) (made : Bool) (l : Loop)
    → Keeps l.invalidated (begin_attempt token made l)
unfolding begin_attempt
begin_attempt-Keeps token made l =
    let n = l.invalidated in
    let tried = set_state SyncState.connecting l in
    let kept = set_state-Keeps n SyncState.connecting l refl in
    if-holds (Keeps n) l.stopping (ended-Keeps n l refl) (
      if-holds (Keeps n) (is_some token) (if-holds (Keeps n) made kept (ended-Keeps n tried kept))
        (ended-Keeps n tried kept))

on_down-Keeps :
    (env : SocketEnv) (r : DisconnectReason) (l : Loop)
    → is_revoked r ≡ false
    → Keeps l.invalidated (on_down env r l)
unfolding on_down report emit
on_down-Keeps env r l v =
    let n = l.invalidated in
    let l' = if is_update_required r then set_state SyncState.update_required l else l in
    let kept : Keeps n l' =
      if-holds (Keeps n) (is_update_required r) (set_state-Keeps n SyncState.update_required l refl)
        refl in
    carry_on-Keeps n env r (report r l') (rw v kept)

down-GivesUp :
    (env : SocketEnv) (code : ℕ) (reason : String) (l : Loop)
    → (code == 4001) ≡ true
    → GivesUp l (on_down env (DisconnectReason.closed (some code) (some reason)) l)
unfolding on_down report carry_on after_reason go_on ended emit invalidate
down-GivesUp env code reason l e = rw e (elim (Bool-cases l.stopping) [
  | inl s ↦ rw s (refl, refl, (false, refl))
  | inr s ↦ rw s (refl, refl, (false, refl))
])

on_close-Invalidates :
    (env : SocketEnv) (code : ℕ) (reason : String) (l : Loop)
    → Invalidates
        (code == 4001)
        l
        (on_down env (DisconnectReason.closed (some code) (some reason)) l)
on_close-Invalidates env code reason l =
    let after = on_down env (DisconnectReason.closed (some code) (some reason)) l in
    elim (Bool-cases (code == 4001)) [
      | inl e ↦ subst (λ b. Invalidates b l after) (sym e) (down-GivesUp env code reason l e)
      | inr e ↦
          subst (λ b. Invalidates b l after) (sym e)
            (on_down-Keeps env (DisconnectReason.closed (some code) (some reason)) l e)
    ]

on_refused-Invalidates :
    (env : SocketEnv) (status : ℕ) (after : Option ℕ) (l : Loop)
    → Invalidates (status == 401 || status == 403) l (on_refused env status after l)
unfolding on_refused emit invalidate ended
on_refused-Invalidates env status after l = elim (Bool-cases (status == 401 || status == 403)) [
  | inl e ↦ rw e (refl, refl, (status == 403, refl))
  | inr e ↦ rw e (search begin_wait-Keeps)
]

-- A frame invalidates nothing, and no frame is a reason to.
abbrev Harmless : ℕ → ConnState × Loop × Option DisconnectReason → Type 0
Harmless n (conn, l, none) = Keeps n l
Harmless n (conn, l, some r) = Keeps n l × (is_revoked r ≡ false)

on_error_frame-Harmless :
    (code : String) (conn : ConnState) (l : Loop)
    → Harmless l.invalidated (conn, l, on_error_frame code)
unfolding on_error_frame
on_error_frame-Harmless code conn l =
    let Fine : Option DisconnectReason → Type 0 = λ r. Harmless l.invalidated (conn, l, r) in
    if-holds Fine (is_update_required_code code) (refl, refl)
      (if-holds Fine (str_eq code "push_failed") (refl, refl) refl)

handle_frame-Harmless :
    (env : SocketEnv) (frame : ServerFrame) (conn : ConnState) (l : Loop)
    → Harmless l.invalidated (handle_frame env frame conn l)
unfolding handle_frame on_hello on_messages connect_up emit
handle_frame-Harmless env (ServerFrame.hello version user device limits) conn l =
    if-holds (Harmless l.invalidated) (ltb ws_protocol_version version) (refl, refl)
      (set_state-Keeps l.invalidated SyncState.connected _ refl)
handle_frame-Harmless env ServerFrame.pong conn l = refl
handle_frame-Harmless env (ServerFrame.messages g ms more) conn l =
    if-holds (Keeps l.invalidated) conn.got_hello refl
      (set_state-Keeps l.invalidated SyncState.connected _ refl)
handle_frame-Harmless env (ServerFrame.group event fields) conn l = refl
handle_frame-Harmless env (ServerFrame.read g seq) conn l = refl
handle_frame-Harmless env (ServerFrame.error code detail) conn l =
    on_error_frame-Harmless code conn l

on_handled-Keeps :
    (n : ℕ) (env : SocketEnv) (last : ℕ) (r : ConnState × Loop × Option DisconnectReason)
    → Harmless n r
    → Keeps n (on_handled env last r)
unfolding on_handled
on_handled-Keeps n env last (conn, l, none) h = h
on_handled-Keeps n env last (conn, l, some reason) h = on_down-Keeps env reason l h.1 ∙ h.0

on_frame-Keeps :
    (env : SocketEnv) (conn : ConnState) (last : ℕ) (f : Option ServerFrame) (l : Loop)
    → Keeps l.invalidated (on_frame env conn last f l)
unfolding on_frame
on_frame-Keeps env conn last none l = refl
on_frame-Keeps env conn last (some f) l =
    on_handled-Keeps l.invalidated env last (handle_frame env f conn l)
      (handle_frame-Harmless env f conn l)

on_incoming-Invalidates :
    (env : SocketEnv) (conn : ConnState) (last : ℕ) (m : Incoming) (now : ℕ) (l : Loop)
    → Invalidates (revokes_open (Input.incoming m now)) l (on_incoming env conn last m now l)
unfolding on_incoming write
on_incoming-Invalidates env conn last Incoming.end now l =
    on_down-Keeps env (DisconnectReason.closed none none) l refl
on_incoming-Invalidates env conn last (Incoming.failure cause) now l =
    on_down-Keeps env (DisconnectReason.error (some cause)) l refl
on_incoming-Invalidates env conn last (Incoming.close none) now l =
    on_down-Keeps env (DisconnectReason.closed none none) l refl
on_incoming-Invalidates env conn last (Incoming.close (some (code, reason))) now l =
    on_close-Invalidates env code reason l
on_incoming-Invalidates env conn last Incoming.ping now l = refl
on_incoming-Invalidates env conn last Incoming.other now l = refl
on_incoming-Invalidates env conn last (Incoming.payload bytes) now l =
    on_frame-Keeps env conn last (decode_frame env bytes) l

on_written-Keeps :
    (env : SocketEnv) (conn : ConnState) (f : ClientFrame) (failed : Option String) (now : ℕ)
    (l : Loop)
    → Keeps l.invalidated (on_written env conn f failed now l)
unfolding on_written write
on_written-Keeps env conn f none now l = refl
on_written-Keeps env conn f (some cause) now l =
    on_down-Keeps env (DisconnectReason.error (some cause)) l refl

-- The loop that a step gives, if it gives one.
abbrev Gives : Bool → Loop → Option Loop → Type 0
Gives b l none = Unit
Gives b l (some after) = Invalidates b l after

step_opened-Gives :
    (env : SocketEnv) (conn : ConnState) (last : ℕ) (input : Input) (l : Loop)
    → Gives (revokes_open input) l (step_opened env conn last input l)
unfolding step_opened write
step_opened-Gives env conn last Input.stop_noticed l =
    if-holds (Gives false l) l.stopping
      (on_down-Keeps env (DisconnectReason.closed (some 1000) (some "client stop"))
        (write Written.close l) refl)
      tt
step_opened-Gives env conn last (Input.outbound (some f) failed now) l =
    on_written-Keeps env conn f failed now l
step_opened-Gives env conn last (Input.outbound none failed now) l =
    on_down-Keeps env (DisconnectReason.error (some "outbound channel closed")) l refl
step_opened-Gives env conn last (Input.silence failed now) l =
    if-holds (Gives false l) (leb (last + conn.heartbeat * 1000) now)
      (on_written-Keeps env conn ClientFrame.ping failed now l) tt
step_opened-Gives env conn last (Input.incoming m now) l =
    on_incoming-Invalidates env conn last m now l
step_opened-Gives env conn last _ l = tt

step_in-Gives :
    (env : SocketEnv) (ph : Phase) (input : Input) (l : Loop)
    → Gives (revokes ph input) l (step_in env ph input l)
unfolding step_in
step_in-Gives env Phase.at_top (Input.begin token made) l = begin_attempt-Keeps token made l
step_in-Gives env Phase.handshake (Input.accepted now) l = refl
step_in-Gives env Phase.handshake (Input.refused status after) l =
    on_refused-Invalidates env status after l
step_in-Gives env Phase.handshake (Input.connect_failed cause) l =
    unfold on_connect_failed emit in begin_wait-Keeps l.invalidated env none _ refl
step_in-Gives env Phase.handshake Input.stop_noticed l =
    if-holds (Gives false l) l.stopping (ended-Keeps l.invalidated l refl) tt
step_in-Gives env (Phase.opened conn last) input l = step_opened-Gives env conn last input l
step_in-Gives env (Phase.waiting delay) (Input.slept elapsed) l =
    if-holds (Gives false l) (leb delay elapsed) refl tt
step_in-Gives env (Phase.waiting delay) Input.stop_noticed l =
    if-holds (Gives false l) l.stopping (ended-Keeps l.invalidated l refl) tt
step_in-Gives env _ _ l = tt

-- In every step of the task the session is invalidated exactly if the server says that it is over, by
-- refusing the handshake with 401 or 403 or by closing the connection with 4001. Then it is
-- invalidated once, the subscribers are told so last, and the task has ended.
pub step-Invalidates :
    (env : SocketEnv) (input : Input) (l : Loop) {after : Loop}
    → step env input l ≡ some after
    → Invalidates (revokes l.phase input) l after
unfolding step
step-Invalidates env input l e =
    subst (Gives (revokes l.phase input) l) e (step_in-Gives env l.phase input l)
