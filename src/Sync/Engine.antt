-- ===== src/Sync/Engine.antt =====
-- The engine of sync.rs from outside: its life cycle, its event loop and the user's actions. A
-- `Wake` is what the `select!` of the loop finds ready; which one, is up to the list of them.
use un_tzibbur_bot.Base.{
  String, Bool, true, false, not, ◌&&◌, Option, List, [], ◌∷◌, ℤ, unwrap_or, if◌then◌else◌,
}
use un_tzibbur_bot.Error.{Result, ok, err}
use un_tzibbur_bot.Entities.{OutboxEntity}
use un_tzibbur_bot.Store.Calls.{Call}
use un_tzibbur_bot.Outbox.{OutboxEvent, enqueue}
use un_tzibbur_bot.Socket.{ClientFrame, SyncState, state_eq, SocketEvent}
use un_tzibbur_bot.Socket.Connection.{is_update_required}
use un_tzibbur_bot.Sync.{
  SyncEvent, AckVia, Request, Effect, Action, done, fail, ◌>>=◌, ◌>>◌, ignore, look, note, emit,
  call, await, set_state, retain, release,
}
use un_tzibbur_bot.Sync.Apply.{apply_incoming, entities, reconcile_groups, drop_group}
use un_tzibbur_bot.Sync.Events.{apply_group_event}
use un_tzibbur_bot.Sync.History.{rest_catch_up}

unfoldable pub set_task : Bool → Action (Unit {0})
set_task b v e = (record e { task = b }, ok tt)

unfoldable pub begin : Action (Unit {0})
begin = do set_state SyncState.connecting; note Effect.started; set_task true; note Effect.poked

-- `start`; the event loop is spawned.
unfoldable pub start : Action (Unit {0})
start = do
  refused ← look (λ e. if e.task then true else state_eq e.state SyncState.update_required)
  if refused then done tt else begin

-- `stop`; the loop has ended when the socket and the outbox are stopped.
unfoldable pub stop : Action (Unit {0})
stop = do
  set_task false
  await Effect.stopped (λ v n. ok tt)
  final ← look (λ e. state_eq e.state SyncState.update_required)
  if final then done tt else set_state SyncState.idle

unfoldable pub on_connected : Action (Unit {0})
on_connected = do
  set_state SyncState.connected
  ignore reconcile_groups
  emit SyncEvent.caught_up
  note Effect.poked

unfoldable pub handle_socket_event : SocketEvent → Action (Unit {0})
handle_socket_event SocketEvent.connected = on_connected
handle_socket_event (SocketEvent.disconnected reason) =
    if is_update_required reason then set_state SyncState.update_required else done tt
handle_socket_event (SocketEvent.hello _ _ _ _) = done tt
handle_socket_event (SocketEvent.messages group_id ms _) = do
  batch ← entities group_id ms
  _ ← apply_incoming group_id batch AckVia.socket
  done tt
handle_socket_event (SocketEvent.group_event ge) = apply_group_event ge
handle_socket_event (SocketEvent.read group_id read_seq) = call (Call.mark_read group_id read_seq)

unfoldable pub on_outbox : OutboxEvent → Action (Unit {0})
on_outbox (OutboxEvent.confirmed client_message_id message) = emit (
    SyncEvent.echo_confirmed (unwrap_or message.group_id "") client_message_id message.id
      message.seq)
on_outbox _ = done tt

-- The socket is down and may come back.
abbrev pub is_down : SyncState → Bool
is_down s = not (state_eq s SyncState.connected) && not (state_eq s SyncState.update_required)

unfoldable pub fallback_poll : Action (Unit {0})
fallback_poll = do
  down ← look (λ e. is_down e.state)
  if down then ignore rest_catch_up else done tt

pub data Wake : Type 0 where
  stop_noticed tick lagged closed : Wake
  outbox_event : OutboxEvent → Wake
  socket_state : SyncState → Wake
  socket_event : SocketEvent → Wake

-- A branch of the `select!`; an error of a socket event is logged only.
unfoldable pub on_wake : Wake → Action (Unit {0})
on_wake Wake.tick = fallback_poll
on_wake (Wake.outbox_event ob) = on_outbox ob
on_wake (Wake.socket_state s) = set_state s
on_wake (Wake.socket_event ev) = ignore (handle_socket_event ev)
on_wake Wake.lagged = await Effect.reconnected (λ v n. ok tt)
on_wake Wake.stop_noticed = done tt
on_wake Wake.closed = done tt

-- The branches that leave the loop.
abbrev pub is_last : Wake → Bool
is_last Wake.stop_noticed = true
is_last Wake.closed = true
is_last _ = false

unfoldable pub event_loop : List Wake → Action (Unit {0})
event_loop [] = done tt
event_loop (w ∷ ws) = let rest = event_loop ws in do on_wake w; if is_last w then done tt else rest

-- While the socket is connected it delivers everything.
unfoldable pub catch_up_unless : Bool → Action (Unit {0})
catch_up_unless true = emit SyncEvent.caught_up
catch_up_unless false = do _ ← rest_catch_up; done tt

unfoldable pub refresh_now : Action (Unit {0})
refresh_now = do
  _ ← reconcile_groups
  connected ← look (λ e. state_eq e.state SyncState.connected)
  catch_up_unless connected
  note Effect.poked

abbrev pub tell_read : Bool → String → ℤ → Action (Unit {0})
tell_read true group_id seq =
    await (Effect.wrote (ClientFrame.read group_id seq)) (λ v n. v.accepts n)
tell_read false group_id seq =
    await (Effect.asked (Request.mark_read group_id seq)) (λ v n. v.accepts n)

unfoldable pub mark_read : String → ℤ → Action (Unit {0})
mark_read group_id seq = do
  call (Call.mark_read group_id seq)
  connected ← look (λ e. state_eq e.state SyncState.connected)
  tell_read connected group_id seq

unfoldable pub mute_group : String → Bool → Action (Unit {0})
mute_group group_id muted = call (Call.set_muted group_id muted)

unfoldable pub leave_group : String → Action (Unit {0})
leave_group group_id = do
  await (Effect.asked (Request.leave_group group_id)) (λ v n. v.accepts n)
  drop_group group_id

unfoldable pub delete_group : String → Action (Unit {0})
delete_group group_id = do
  await (Effect.asked (Request.delete_group group_id)) (λ v n. v.accepts n)
  drop_group group_id

-- The row that `enqueue` inserted.
unfoldable pub on_enqueued : Result OutboxEntity → Action OutboxEntity
on_enqueued (ok row) = do call (Call.insert_outbox row); note Effect.poked; done row
on_enqueued (err error) = fail error

unfoldable pub send_message : String → ℤ → String → String → Action OutboxEntity
send_message uuid now group_id body = do
  r ← look (λ e. (enqueue uuid now group_id body e.store).1)
  on_enqueued r

unfoldable pub observe : String → Action (Unit {0})
observe group_id v e = (record e { observed = retain group_id e.observed }, ok tt)

unfoldable pub unobserve : String → Action (Unit {0})
unobserve group_id v e = (record e { observed = release group_id e.observed }, ok tt)

unfoldable pub set_self_user_id : Option String → Action (Unit {0})
set_self_user_id id v e = (record e { self_user_id = id }, ok tt)
