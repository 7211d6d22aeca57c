-- ===== src/Socket/Ends.antt =====
-- How a connection of ws.rs ends: with a wait and a new attempt, or for good.
use Prim.Native.Nat.{max}
use mathlib.Core.Path.{subst}
use un_tzibbur_bot.Base.{
  ℕ, ◌≤◌, ◌<◌, ◌≡◌, refl, sym, ◌∙◌, inl, inr, false, none, some, leb, arith, Bool-cases, if-false,
  if◌then◌else◌,
}
use un_tzibbur_bot.Backoff.{backoff_delay}
use un_tzibbur_bot.Socket.{
  SyncState, DisconnectReason, SocketEvent, is_too_many_connections, too_many_connections_wait,
}
use un_tzibbur_bot.Socket.Frames.{SocketEnv, Phase, Loop, set_state, emit}
use un_tzibbur_bot.Socket.Connection.{
  Input, TzibburSocket, Step, turn, start_asked, stop_asked, stop_done, Reach, here, next, ended,
  begin_wait, go_on, carry_on, after_reason, report, on_down, step_in, step, start, ask_stop,
  stopped, is_update_required, is_revoked,
}

-- The server demanded an update, and `t` has done nothing since `s`.
abbrev pub IsFinal : TzibburSocket → TzibburSocket → Type 0
IsFinal s t =
    (t.loop.state ≡ SyncState.update_required)
    × (t.loop.phase ≡ Phase.stopped)
    × (t.loop.events ≡ s.loop.events)
    × (t.loop.written ≡ s.loop.written)

stopped_idle :
    (env : SocketEnv) (input : Input) (l : Loop) → step_in env Phase.stopped input l ≡ none
unfolding step_in
stopped_idle env input l = refl

Step-IsFinal :
    (env : SocketEnv) (s : TzibburSocket) {t u : TzibburSocket}
    → IsFinal s t
    → Step env t u
    → IsFinal s u
unfolding start ask_stop stopped ended step
Step-IsFinal env s {t} f (turn input e) =
    let k : none ≡ some _ = sym (rw f.1 (stopped_idle env input t.loop)) ∙ e in cc
Step-IsFinal env s {t} f (start_asked free) = elim (Bool-cases t.task) [
  | inl e ↦ rw e f
  | inr e ↦ rw (e, f.0) (refl, f.1, f.2, f.3)
]
Step-IsFinal env s f stop_asked = f
Step-IsFinal env s {t} f (stop_done e) = (rw f.0 refl, refl, f.2, f.3)

-- Once the server has demanded an update and the task has ended, nothing more happens: however the
-- socket is started and stopped, it stays in that state, sends nothing, connects to nothing and
-- emits no event.
pub update_required-IsFinal :
    (env : SocketEnv) {s t : TzibburSocket}
    → s.loop.state ≡ SyncState.update_required
    → s.loop.phase ≡ Phase.stopped
    → Reach env s t
    → IsFinal s t
update_required-IsFinal env u p here = (u, p, refl, refl)
update_required-IsFinal env {s} u p (next r st) =
    Step-IsFinal env s (update_required-IsFinal env u p r) st

not_before :
    (env : SocketEnv) (l : Loop) (delay elapsed : ℕ)
    → l.phase ≡ Phase.waiting delay
    → elapsed < delay
    → step env (Input.slept elapsed) l ≡ none
unfolding step step_in
not_before env l delay elapsed p lt =
    rw p (let early : leb delay elapsed ≡ false = ground arith in rw early refl)

-- `after` waits, for the backoff's delay and for `floor` milliseconds at least, and takes no turn
-- on its timer before.
abbrev pub Waits : SocketEnv → Loop → ℕ → Loop → Type 0
Waits env l floor after =
    (delay : ℕ) × (after.phase ≡ Phase.waiting delay)
    × (backoff_delay env.gen_range l.attempt ≤ delay)
    × (floor ≤ delay)
    × ((elapsed : ℕ) → elapsed < delay → step env (Input.slept elapsed) after ≡ none)

begin_wait-Waits :
    (env : SocketEnv) (floor : ℕ) (l : Loop) → Waits env l floor (begin_wait env (some floor) l)
unfolding begin_wait
begin_wait-Waits env floor l =
    let delay = max (backoff_delay env.gen_range l.attempt) floor in
    (delay, refl, omega arith, omega arith, λ elapsed. not_before env _ delay elapsed refl)

begin_wait-backs_off : (env : SocketEnv) (l : Loop) → Waits env l 0 (begin_wait env none l)
unfolding begin_wait
begin_wait-backs_off env l =
    let delay = backoff_delay env.gen_range l.attempt in
    (delay, refl, omega arith, omega arith, λ elapsed. not_before env _ delay elapsed refl)

-- The shortest wait that the reason allows.
abbrev pub floor_of : DisconnectReason → ℕ
floor_of r = if is_too_many_connections r then too_many_connections_wait else 0

go_on-Waits :
    (env : SocketEnv) (r : DisconnectReason) (l : Loop)
    → is_update_required r ≡ false
    → is_revoked r ≡ false
    → Waits env l (floor_of r) (go_on env (after_reason r) l)
unfolding after_reason go_on
go_on-Waits env r l u v = elim (Bool-cases (is_too_many_connections r)) [
  | inl e ↦ rw (u, v, e) (begin_wait-Waits env too_many_connections_wait l)
  | inr e ↦ rw (u, v, e) (begin_wait-backs_off env l)
]

carry_on-going :
    (env : SocketEnv) (r : DisconnectReason) (l : Loop)
    → l.stopping ≡ false
    → carry_on env r l ≡ go_on env (after_reason r) l
unfolding carry_on
carry_on-going env r l s = if-false (ended l) (go_on env (after_reason r) l) s

carry_on-Waits :
    (env : SocketEnv) (r : DisconnectReason) (l : Loop)
    → l.stopping ≡ false
    → is_update_required r ≡ false
    → is_revoked r ≡ false
    → Waits env l (floor_of r) (carry_on env r l)
carry_on-Waits env r l s u v =
    subst (Waits env l (floor_of r)) (sym (carry_on-going env r l s)) (go_on-Waits env r l u v)

reported :
    (r : DisconnectReason) (l : Loop)
    → is_update_required r ≡ false
    → is_revoked r ≡ false
    → report r (if is_update_required r then set_state SyncState.update_required l else l)
      ≡ emit (SocketEvent.disconnected r) l
unfolding report
reported r l u v = rw (u, v) refl

-- A connection that ends, and was neither revoked nor told to update, is followed by a wait, unless
-- the socket is stopping: for the backoff's delay of the attempt at least, and for 60 seconds at
-- least if the server closed it for too many connections. The task does not wake up earlier.
pub on_down-Waits :
    (env : SocketEnv) (r : DisconnectReason) (l : Loop)
    → l.stopping ≡ false
    → is_update_required r ≡ false
    → is_revoked r ≡ false
    → Waits env l (floor_of r) (on_down env r l)
unfolding on_down emit
on_down-Waits env r l s u v =
    subst (λ k. Waits env l (floor_of r) (carry_on env r k)) (sym (reported r l u v))
      (carry_on-Waits env r (emit (SocketEvent.disconnected r) l) s u v)
