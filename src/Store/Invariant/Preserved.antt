-- ===== src/Store/Invariant/Preserved.antt =====
-- All the calls of the store of sqlite.rs that change it, and the invariant.
use un_tzibbur_bot.Base.{refl, List, [], ◌∷◌, delete, Unique-select}
use un_tzibbur_bot.Store.{SqliteStore}
use un_tzibbur_bot.Store.Groups
use un_tzibbur_bot.Store.Members
use un_tzibbur_bot.Store.OutboxTable
use un_tzibbur_bot.Store.Wipe
use un_tzibbur_bot.Store.Calls.{Call, perform, perform_all}
use un_tzibbur_bot.Store.Invariant.Tables.{IsValid}
use un_tzibbur_bot.Store.Invariant.GroupCalls.{
  groups_updated, upsert_group-Valid, reconcile_groups-Valid, purge-Valid, insert_messages-Valid,
}
use un_tzibbur_bot.Store.Invariant.MemberCalls.{
  members_changed, members_kept, upsert_member-Valid, replace_members-Valid, set_role-Valid,
}
use un_tzibbur_bot.Store.Invariant.OutboxCalls.{
  outbox_changed, entries_updated, notify_outbox-Valid, outbox_updated, batch-Valid, after-Valid,
  insert_outbox-Valid, delete_messages-Valid, redact_messages-Valid, repair-Valid,
}

perform-Valid : (c : Call) (s : SqliteStore) → IsValid s → IsValid (perform c s)
unfolding perform Groups.update_group OutboxTable.update_open delete
perform-Valid (Call.upsert_group g) s v = upsert_group-Valid g s v
perform-Valid (Call.mark_read id seq) s v =
    unfold Groups.mark_read in groups_updated _ _ (λ _. refl) s _ v
perform-Valid (Call.mark_group_deleted id) s v =
    unfold Groups.mark_group_deleted in groups_updated _ _ (λ _. refl) s _ v
perform-Valid Call.mark_all_groups_deleted s v =
    unfold Groups.mark_all_groups_deleted in groups_updated _ _ (λ _. refl) s _ v
perform-Valid (Call.mark_groups_deleted_except []) s v =
    unfold Groups.mark_groups_deleted_except in groups_updated _ _ (λ _. refl) s _ v
perform-Valid (Call.mark_groups_deleted_except (id ∷ ids)) s v =
    unfold Groups.mark_groups_deleted_except in groups_updated _ _ (λ _. refl) s _ v
perform-Valid (Call.set_muted id muted) s v =
    unfold Groups.set_muted in groups_updated _ _ (λ _. refl) s _ v
perform-Valid Call.purge_deleted_groups s v = purge-Valid s v
perform-Valid (Call.reconcile_groups gs) s v = reconcile_groups-Valid gs s v
perform-Valid (Call.apply_group_updated id name post add) s v =
    unfold Groups.apply_group_updated in groups_updated _ _ (λ _. refl) s _ v
perform-Valid (Call.set_group_member_count id delta) s v =
    unfold Groups.set_group_member_count in groups_updated _ _ (λ _. refl) s _ v
perform-Valid (Call.set_my_role id role) s v =
    unfold Groups.set_my_role in groups_updated _ _ (λ _. refl) s _ v
perform-Valid (Call.insert_messages ms) s v = insert_messages-Valid ms s v
perform-Valid (Call.delete_messages_for_group id) s v = delete_messages-Valid id s v
perform-Valid (Call.store_incoming_batch id batch) s v = batch-Valid id batch s v
perform-Valid (Call.upsert_member m) s v =
    after-Valid s _ (λ s' h. upsert_member-Valid m s s' h v) v
perform-Valid (Call.delete_member g u) s v =
    unfold Members.delete_member in members_changed s _ _ (members_kept _ s v) v
perform-Valid (Call.delete_all_members g) s v =
    unfold Members.delete_all_members in members_changed s _ _ (members_kept _ s v) v
perform-Valid (Call.set_role g u role) s v = set_role-Valid g u role s v
perform-Valid (Call.replace_members g ms) s v =
    after-Valid s _ (λ s' h. replace_members-Valid g ms s s' h v) v
perform-Valid (Call.insert_outbox e) s v = insert_outbox-Valid e s v
perform-Valid (Call.delete_outbox id) s v =
    unfold OutboxTable.delete_outbox in
    notify_outbox-Valid _ _ (outbox_changed s _ (Unique-select _ _ s.outbox v.entry_ids) v)
perform-Valid (Call.purge_old_confirmed t) s v =
    unfold OutboxTable.purge_old_confirmed in
    outbox_changed s _ (Unique-select _ _ s.outbox v.entry_ids) v
perform-Valid (Call.mark_in_flight id at) s v =
    unfold OutboxTable.mark_in_flight in
    outbox_changed s _ (entries_updated _ _ (λ _. refl) s.outbox v.entry_ids) v
perform-Valid (Call.mark_rejected id code) s v =
    unfold OutboxTable.mark_rejected in outbox_updated _ _ (λ _. refl) _ s v
perform-Valid (Call.reschedule id at code) s v =
    unfold OutboxTable.reschedule in outbox_updated _ _ (λ _. refl) _ s v
perform-Valid (Call.retry_outbox id now) s v =
    unfold OutboxTable.retry_outbox in outbox_updated _ _ (λ _. refl) _ s v
perform-Valid (Call.confirm_sent id sid seq) s v =
    unfold OutboxTable.confirm_sent in outbox_updated _ _ (λ _. refl) _ s v
perform-Valid (Call.repair now) s v = repair-Valid now s v
perform-Valid (Call.insert_command_reply r) s v =
    unfold OutboxTable.insert_command_reply in
    record {
      group_ids = v.group_ids;
      message_ids = v.message_ids;
      slots = v.slots;
      member_keys = v.member_keys;
      member_groups = v.member_groups;
      entry_ids = v.entry_ids;
    }
perform-Valid (Call.clear_command_replies g) s v =
    unfold OutboxTable.clear_command_replies in
    record {
      group_ids = v.group_ids;
      message_ids = v.message_ids;
      slots = v.slots;
      member_keys = v.member_keys;
      member_groups = v.member_groups;
      entry_ids = v.entry_ids;
    }
perform-Valid (Call.redact_messages g seq) s v = redact_messages-Valid g seq s v
perform-Valid Call.redact_confirmed_outbox s v =
    unfold Wipe.redact_confirmed_outbox in
    outbox_changed s _ (entries_updated _ _ (λ _. refl) s.outbox v.entry_ids) v
perform-Valid Call.clear_all s v =
    unfold Wipe.clear_all in
    record {
      group_ids = tt;
      message_ids = tt;
      slots = tt;
      member_keys = tt;
      member_groups = tt;
      entry_ids = tt;
    }

-- Whatever calls are made on a store that meets the constraints of the schema, it meets them after
-- each: group, message and outbox ids are unique, no two messages of a group share a seq, members
-- are unique in their group, and every member's group has a row.
pub perform_all-IsValid :
    (cs : List Call) (s : SqliteStore) → IsValid s → IsValid (perform_all cs s)
unfolding perform_all
perform_all-IsValid [] s v = v
perform_all-IsValid (c ∷ cs) s v = perform_all-IsValid cs (perform c s) (perform-Valid c s v)
