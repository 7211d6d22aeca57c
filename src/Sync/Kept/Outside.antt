-- ===== src/Sync/Kept/Outside.antt =====
-- The engine of sync.rs from outside: its life cycle, its event loop and the user's actions.
use un_tzibbur_bot.Base.{String, refl, Bool, true, false, Option, List, [], ◌∷◌, ℤ}
use un_tzibbur_bot.Error.{Result, ok, err}
use un_tzibbur_bot.Entities.{MessageEntity, OutboxEntity}
use un_tzibbur_bot.Store.OutboxTable.Confirmed.{keeps_rows}
use un_tzibbur_bot.Outbox.{OutboxEvent}
use un_tzibbur_bot.Socket.{SocketEvent}
use un_tzibbur_bot.Sync.{AckVia, Server, SyncEngine}
use un_tzibbur_bot.Sync.Apply.{apply_incoming}
use un_tzibbur_bot.Sync.History
use un_tzibbur_bot.Sync.Engine
use un_tzibbur_bot.Sync.Kept.{IsClosed, Keeps, kept, done-Keeps, fail-Keeps, set_state-Keeps}
use un_tzibbur_bot.Sync.Kept.Groups.{
  drop_group-Keeps, reconcile_groups-Keeps, apply_group_event-Keeps,
}
use un_tzibbur_bot.Sync.Kept.Rounds.{entities-Keeps, rest_catch_up-Keeps}

module _ (v : Server) (P : SyncEngine → Type 0) (c : IsClosed P) where
  module _
      (incoming : (g : String) (batch : List MessageEntity) (via : AckVia)
        → Keeps v P (apply_incoming g batch via))
      (pages : Keeps v P History.ask_pending) where
    -- The engine from outside.
    pub set_task-Keeps : (b : Bool) → Keeps v P (Engine.set_task b)
    unfolding Engine.set_task
    set_task-Keeps b = record { after = λ e p. c.settles e _ refl refl p }

    pub start-Keeps : Keeps v P Engine.start
    unfolding Engine.start Engine.begin
    start-Keeps = search (kept, set_task-Keeps) depth 20

    pub stop-Keeps : Keeps v P Engine.stop
    unfolding Engine.stop
    stop-Keeps = search (kept, set_task-Keeps) depth 20

    pub on_connected-Keeps : Keeps v P Engine.on_connected
    unfolding Engine.on_connected
    on_connected-Keeps = search (kept, reconcile_groups-Keeps) depth 20

    pub handle_socket_event-Keeps : (ev : SocketEvent) → Keeps v P (Engine.handle_socket_event ev)
    unfolding Engine.handle_socket_event keeps_rows
    handle_socket_event-Keeps SocketEvent.connected = on_connected-Keeps
    handle_socket_event-Keeps (SocketEvent.disconnected reason) = search (kept)
    handle_socket_event-Keeps (SocketEvent.hello _ _ _ _) = done-Keeps v P tt
    handle_socket_event-Keeps (SocketEvent.messages g ms more) =
        search (kept, entities-Keeps, incoming)
    handle_socket_event-Keeps (SocketEvent.group_event ge) = apply_group_event-Keeps v P c ge
    handle_socket_event-Keeps (SocketEvent.read g seq) = search kept

    pub on_outbox-Keeps : (ob : OutboxEvent) → Keeps v P (Engine.on_outbox ob)
    unfolding Engine.on_outbox
    on_outbox-Keeps (OutboxEvent.confirmed id m) = search kept
    on_outbox-Keeps _ = done-Keeps v P tt

    pub fallback_poll-Keeps : Keeps v P Engine.fallback_poll
    unfolding Engine.fallback_poll
    fallback_poll-Keeps = search (kept, rest_catch_up-Keeps)

    pub on_wake-Keeps : (w : Engine.Wake) → Keeps v P (Engine.on_wake w)
    unfolding Engine.on_wake
    on_wake-Keeps Engine.Wake.tick = fallback_poll-Keeps
    on_wake-Keeps (Engine.Wake.outbox_event ob) = on_outbox-Keeps ob
    on_wake-Keeps (Engine.Wake.socket_state s) = set_state-Keeps v P c s
    on_wake-Keeps (Engine.Wake.socket_event ev) = search (kept, handle_socket_event-Keeps)
    on_wake-Keeps Engine.Wake.lagged = search kept
    on_wake-Keeps Engine.Wake.stop_noticed = done-Keeps v P tt
    on_wake-Keeps Engine.Wake.closed = done-Keeps v P tt

    pub event_loop-Keeps : (ws : List Engine.Wake) → Keeps v P (Engine.event_loop ws)
    unfolding Engine.event_loop
    event_loop-Keeps [] = done-Keeps v P tt
    event_loop-Keeps (w ∷ ws) = let rest = event_loop-Keeps ws in search (kept, on_wake-Keeps)

    pub catch_up_unless-Keeps : (b : Bool) → Keeps v P (Engine.catch_up_unless b)
    unfolding Engine.catch_up_unless
    catch_up_unless-Keeps true = search kept
    catch_up_unless-Keeps false = search (kept, rest_catch_up-Keeps)

    pub refresh_now-Keeps : Keeps v P Engine.refresh_now
    unfolding Engine.refresh_now
    refresh_now-Keeps = search (kept, reconcile_groups-Keeps, catch_up_unless-Keeps)

    pub tell_read-Keeps : (b : Bool) (g : String) (seq : ℤ) → Keeps v P (Engine.tell_read b g seq)
    tell_read-Keeps true g seq = search kept
    tell_read-Keeps false g seq = search kept

    pub mark_read-Keeps : (g : String) (seq : ℤ) → Keeps v P (Engine.mark_read g seq)
    unfolding Engine.mark_read keeps_rows
    mark_read-Keeps g seq = search (kept, tell_read-Keeps)

    pub leave_group-Keeps : (g : String) → Keeps v P (Engine.leave_group g)
    unfolding Engine.leave_group
    leave_group-Keeps g = search (kept, drop_group-Keeps)

    pub delete_group-Keeps : (g : String) → Keeps v P (Engine.delete_group g)
    unfolding Engine.delete_group
    delete_group-Keeps g = search (kept, drop_group-Keeps)

    pub on_enqueued-Keeps : (r : Result OutboxEntity) → Keeps v P (Engine.on_enqueued r)
    unfolding Engine.on_enqueued keeps_rows
    on_enqueued-Keeps (ok row) = search kept
    on_enqueued-Keeps (err error) = fail-Keeps v P error

    pub send_message-Keeps :
        (uuid : String) (now : ℤ) (g body : String)
        → Keeps v P (Engine.send_message uuid now g body)
    unfolding Engine.send_message
    send_message-Keeps uuid now g body = search (kept, on_enqueued-Keeps)

    pub mute_group-Keeps : (g : String) (muted : Bool) → Keeps v P (Engine.mute_group g muted)
    unfolding Engine.mute_group keeps_rows
    mute_group-Keeps g muted = search kept

    pub observe-Keeps : (g : String) → Keeps v P (Engine.observe g)
    unfolding Engine.observe
    observe-Keeps g = record { after = λ e p. c.settles e _ refl refl p }

    pub unobserve-Keeps : (g : String) → Keeps v P (Engine.unobserve g)
    unfolding Engine.unobserve
    unobserve-Keeps g = record { after = λ e p. c.settles e _ refl refl p }

    pub set_self_user_id-Keeps : (id : Option String) → Keeps v P (Engine.set_self_user_id id)
    unfolding Engine.set_self_user_id
    set_self_user_id-Keeps id = record { after = λ e p. c.settles e _ refl refl p }
