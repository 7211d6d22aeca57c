-- ===== src/Store/Calls.antt =====
-- The trait `LocalStore` (crates/tzibbur-api/src/store/mod.rs) seen by its clients: the calls that
-- change the store, and `repair`, which runs when it is opened.
use un_tzibbur_bot.Base.{String, Bool, Option, List, [], ◌∷◌, ℤ}
use un_tzibbur_bot.Models.{Role, Permission}
use un_tzibbur_bot.Error.{Result, ok, err}
use un_tzibbur_bot.Entities.{
  GroupEntity, MessageEntity, MemberEntity, OutboxEntity, LocalCommandReplyEntity,
}
use un_tzibbur_bot.Store.{SqliteStore}
use un_tzibbur_bot.Store.Groups
use un_tzibbur_bot.Store.Messages
use un_tzibbur_bot.Store.Members
use un_tzibbur_bot.Store.OutboxTable
use un_tzibbur_bot.Store.Batch
use un_tzibbur_bot.Store.Wipe

-- The calls of `LocalStore` that change it.
pub data Call : Type 0 where
  upsert_group : GroupEntity → Call
  mark_read : String → ℤ → Call
  mark_group_deleted : String → Call
  mark_all_groups_deleted : Call
  mark_groups_deleted_except : List String → Call
  set_muted : String → Bool → Call
  purge_deleted_groups : Call
  reconcile_groups : List GroupEntity → Call
  apply_group_updated : String → Option String → Option Permission → Option Permission → Call
  set_group_member_count : String → ℤ → Call
  set_my_role : String → Role → Call
  insert_messages : List MessageEntity → Call
  delete_messages_for_group : String → Call
  store_incoming_batch : String → List MessageEntity → Call
  upsert_member : MemberEntity → Call
  delete_member : String → String → Call
  delete_all_members : String → Call
  set_role : String → String → Role → Call
  replace_members : String → List MemberEntity → Call
  insert_outbox : OutboxEntity → Call
  delete_outbox : String → Call
  purge_old_confirmed : ℤ → Call
  mark_in_flight : String → ℤ → Call
  mark_rejected : String → String → Call
  reschedule : String → ℤ → Option String → Call
  retry_outbox : String → ℤ → Call
  confirm_sent : String → String → ℤ → Call
  repair : ℤ → Call
  insert_command_reply : LocalCommandReplyEntity → Call
  clear_command_replies : String → Call
  redact_messages : String → ℤ → Call
  redact_confirmed_outbox : Call
  clear_all : Call

-- A call that fails leaves the store as it was.
abbrev pub after : SqliteStore → Result SqliteStore → SqliteStore
after s (ok s') = s'
after s (err e) = s

unfoldable pub perform : Call → SqliteStore → SqliteStore
perform (Call.upsert_group g) s = Groups.upsert_group g s
perform (Call.mark_read id seq) s = Groups.mark_read id seq s
perform (Call.mark_group_deleted id) s = Groups.mark_group_deleted id s
perform Call.mark_all_groups_deleted s = Groups.mark_all_groups_deleted s
perform (Call.mark_groups_deleted_except ids) s = Groups.mark_groups_deleted_except ids s
perform (Call.set_muted id muted) s = Groups.set_muted id muted s
perform Call.purge_deleted_groups s = (Groups.purge_deleted_groups s).0
perform (Call.reconcile_groups gs) s = Groups.reconcile_groups gs s
perform (Call.apply_group_updated id name post add) s =
    Groups.apply_group_updated id name post add s
perform (Call.set_group_member_count id delta) s = Groups.set_group_member_count id delta s
perform (Call.set_my_role id role) s = Groups.set_my_role id role s
perform (Call.insert_messages ms) s = (Messages.insert_messages ms s).0
perform (Call.delete_messages_for_group id) s = (Messages.delete_messages_for_group id s).0
perform (Call.store_incoming_batch id batch) s = (Batch.store_incoming_batch id batch s).0
perform (Call.upsert_member m) s = after s (Members.upsert_member m s)
perform (Call.delete_member g u) s = Members.delete_member g u s
perform (Call.delete_all_members g) s = Members.delete_all_members g s
perform (Call.set_role g u role) s = Members.set_role g u role s
perform (Call.replace_members g ms) s = after s (Members.replace_members g ms s)
perform (Call.insert_outbox e) s = OutboxTable.insert_outbox e s
perform (Call.delete_outbox id) s = OutboxTable.delete_outbox id s
perform (Call.purge_old_confirmed t) s = (OutboxTable.purge_old_confirmed t s).0
perform (Call.mark_in_flight id at) s = OutboxTable.mark_in_flight id at s
perform (Call.mark_rejected id code) s = OutboxTable.mark_rejected id code s
perform (Call.reschedule id at code) s = OutboxTable.reschedule id at code s
perform (Call.retry_outbox id now) s = OutboxTable.retry_outbox id now s
perform (Call.confirm_sent id sid seq) s = OutboxTable.confirm_sent id sid seq s
perform (Call.repair now) s = OutboxTable.repair now s
perform (Call.insert_command_reply r) s = (OutboxTable.insert_command_reply r s).0
perform (Call.clear_command_replies g) s = (OutboxTable.clear_command_replies g s).0
perform (Call.redact_messages g seq) s = (Wipe.redact_messages g seq s).0
perform Call.redact_confirmed_outbox s = (Wipe.redact_confirmed_outbox s).0
perform Call.clear_all s = Wipe.clear_all s

unfoldable pub perform_all : List Call → SqliteStore → SqliteStore
perform_all [] s = s
perform_all (c ∷ cs) s = perform_all cs (perform c s)
