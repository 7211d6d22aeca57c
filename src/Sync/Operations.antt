-- ===== src/Sync/Operations.antt =====
-- Everything that may happen to the engine of sync.rs, one after another: the methods of
-- `SyncEngine`, runs of its event loop, and calls of the store by other tasks.
use un_tzibbur_bot.Base.{ℕ, String, Bool, Option, List, [], ◌∷◌, ℤ}
use un_tzibbur_bot.Error.{ok}
use un_tzibbur_bot.Entities.{MessageEntity}
use un_tzibbur_bot.Store.Calls.{Call}
use un_tzibbur_bot.Socket.{GroupEvent}
use un_tzibbur_bot.Sync.{AckVia, Server, SyncEngine, Action, done, ◌>>◌, ignore, interrupted}
use un_tzibbur_bot.Sync.Apply
use un_tzibbur_bot.Sync.Events
use un_tzibbur_bot.Sync.History
use un_tzibbur_bot.Sync.Engine
use un_tzibbur_bot.Sync.Kept.{IsClosed, Keeps, ignore-Keeps, then-Keeps, done-Keeps}
use un_tzibbur_bot.Sync.Kept.Groups
use un_tzibbur_bot.Sync.Kept.Rounds
use un_tzibbur_bot.Sync.Kept.Outside

pub data Operation : Type 0 where
  start stop refresh_now reconcile_groups rest_catch_up : Operation
  event_loop : List Engine.Wake → Operation
  apply_incoming : (g : String) (batch : List MessageEntity) (via : AckVia) → Operation
  apply_group_event : GroupEvent → Operation
  refresh_group refresh_members catch_up_group leave_group delete_group : (g : String) → Operation
  load_latest_messages load_older_messages : (g : String) (limit : ℕ) → Operation
  send_message : (uuid : String) (now : ℤ) (g body : String) → Operation
  mark_read : (g : String) (seq : ℤ) → Operation
  mute_group : (g : String) (muted : Bool) → Operation
  observe unobserve : (g : String) → Operation
  set_self_user_id : Option String → Operation
  elsewhere : List Call → Operation

abbrev others_call : List Call → Action (Unit {0})
others_call cs v e = (interrupted cs e, ok tt)

unfoldable pub operate : Operation → Action (Unit {0})
operate Operation.start = Engine.start
operate Operation.stop = Engine.stop
operate Operation.refresh_now = Engine.refresh_now
operate Operation.reconcile_groups = ignore Apply.reconcile_groups
operate Operation.rest_catch_up = ignore History.rest_catch_up
operate (Operation.event_loop ws) = Engine.event_loop ws
operate (Operation.apply_incoming g batch via) = ignore (Apply.apply_incoming g batch via)
operate (Operation.apply_group_event ge) = Events.apply_group_event ge
operate (Operation.refresh_group g) = ignore (Apply.refresh_group g)
operate (Operation.refresh_members g) = ignore (Apply.refresh_members g)
operate (Operation.catch_up_group g) = ignore (History.catch_up_group g)
operate (Operation.leave_group g) = Engine.leave_group g
operate (Operation.delete_group g) = Engine.delete_group g
operate (Operation.load_latest_messages g limit) = ignore (History.load_latest_messages g limit)
operate (Operation.load_older_messages g limit) = ignore (History.load_older_messages g limit)
operate (Operation.send_message uuid now g body) = ignore (Engine.send_message uuid now g body)
operate (Operation.mark_read g seq) = Engine.mark_read g seq
operate (Operation.mute_group g muted) = Engine.mute_group g muted
operate (Operation.observe g) = Engine.observe g
operate (Operation.unobserve g) = Engine.unobserve g
operate (Operation.set_self_user_id id) = Engine.set_self_user_id id
operate (Operation.elsewhere cs) = others_call cs

-- The operations in their order; one that fails does not keep the next from being called.
unfoldable pub run : List Operation → Action (Unit {0})
run [] = done tt
run (o ∷ os) = ignore (operate o) >> run os

module _ (v : Server) (P : SyncEngine → Type 0) (c : IsClosed P)
    (incoming : (g : String) (batch : List MessageEntity) (via : AckVia)
      → Keeps v P (Apply.apply_incoming g batch via))
    (pages : Keeps v P History.ask_pending) where
  operate-Keeps : (o : Operation) → Keeps v P (operate o)
  unfolding operate
  operate-Keeps Operation.start = Outside.start-Keeps v P c incoming pages
  operate-Keeps Operation.stop = Outside.stop-Keeps v P c incoming pages
  operate-Keeps Operation.refresh_now = Outside.refresh_now-Keeps v P c incoming pages
  operate-Keeps Operation.reconcile_groups = search (ignore-Keeps, Groups.reconcile_groups-Keeps)
  operate-Keeps Operation.rest_catch_up = search (ignore-Keeps, Rounds.rest_catch_up-Keeps)
  operate-Keeps (Operation.event_loop ws) = Outside.event_loop-Keeps v P c incoming pages ws
  operate-Keeps (Operation.apply_incoming g batch via) = search (ignore-Keeps, incoming)
  operate-Keeps (Operation.apply_group_event ge) = Groups.apply_group_event-Keeps v P c ge
  operate-Keeps (Operation.refresh_group g) = search (ignore-Keeps, Groups.refresh_group-Keeps)
  operate-Keeps (Operation.refresh_members g) = search (ignore-Keeps, Groups.refresh_members-Keeps)
  operate-Keeps (Operation.catch_up_group g) = search (ignore-Keeps, Rounds.catch_up_group-Keeps)
  operate-Keeps (Operation.leave_group g) = Outside.leave_group-Keeps v P c incoming pages g
  operate-Keeps (Operation.delete_group g) = Outside.delete_group-Keeps v P c incoming pages g
  operate-Keeps (Operation.load_latest_messages g limit) =
      search (ignore-Keeps, Rounds.load_latest_messages-Keeps)
  operate-Keeps (Operation.load_older_messages g limit) =
      search (ignore-Keeps, Rounds.load_older_messages-Keeps)
  operate-Keeps (Operation.send_message uuid now g body) =
      search (ignore-Keeps, Outside.send_message-Keeps)
  operate-Keeps (Operation.mark_read g seq) = Outside.mark_read-Keeps v P c incoming pages g seq
  operate-Keeps (Operation.mute_group g m) = Outside.mute_group-Keeps v P c incoming pages g m
  operate-Keeps (Operation.observe g) = Outside.observe-Keeps v P c incoming pages g
  operate-Keeps (Operation.unobserve g) = Outside.unobserve-Keeps v P c incoming pages g
  operate-Keeps (Operation.set_self_user_id id) =
      Outside.set_self_user_id-Keeps v P c incoming pages id
  operate-Keeps (Operation.elsewhere cs) = record { after = λ e p. c.others cs e p }

  pub run-Keeps : (os : List Operation) → Keeps v P (run os)
  unfolding run
  run-Keeps [] = done-Keeps v P tt
  run-Keeps (o ∷ os) = then-Keeps v P _ _ (ignore-Keeps v P _ (operate-Keeps o)) (run-Keeps os)
