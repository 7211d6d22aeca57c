-- ===== src/Examples/Rows.antt =====
-- The theorems on the store, applied to a store with one group, one message and one outbox row.
use un_tzibbur_bot.Base.{
  ◌≡◌, ◌≢◌, refl, true, false, none, some, List, [], ◌∷◌, ℤ, pos, ◌≤ℤ◌, ◌<ℤ◌, All, find, select,
  any,
}
use mathlib.Core.Option
use un_tzibbur_bot.Entities.{GroupEntity, MessageEntity}
use un_tzibbur_bot.Store.{in_group}
use un_tzibbur_bot.Store.Groups.{get_group, reconcile_groups}
use un_tzibbur_bot.Store.Groups.Listed.{reconcile_groups_lem, KeepsLocal, lists, dropped}
use un_tzibbur_bot.Store.Messages.{insert_rows, message_ids_exist, seqs_exist}
use un_tzibbur_bot.Reconcile.{reconcile, is_echo}
use un_tzibbur_bot.Store.Batch.{gather, store_incoming_batch}
use un_tzibbur_bot.Store.Batch.Delivered.{store_incoming_batch-StoredOnce, StoredOnce, OwnIds}
use un_tzibbur_bot.Store.Wipe.{redact_messages}
use un_tzibbur_bot.Store.Wipe.Redaction.{redact_messages_lem}
use un_tzibbur_bot.Store.OutboxTable.{
  unconfirmed_ids, get_outbox, earliest_next_attempt, next_dispatchable,
}
use un_tzibbur_bot.Store.OutboxTable.Wakes.{next_due, earliest_next_attempt-IsNext}
use un_tzibbur_bot.Store.OutboxTable.Confirmed.{perform_all-IsSent, IsSent, all_keep_rows}
use un_tzibbur_bot.Store.Calls.{Call, perform_all}
use un_tzibbur_bot.Store.Invariant.Tables.{IsValid}
use un_tzibbur_bot.Store.Invariant.Preserved.{perform_all-IsValid}
use un_tzibbur_bot.Examples.Data.{hello, echo, row, sent_row, later_row, group, holding}

abbrev calls : List Call
calls =
    Call.store_incoming_batch "g" (echo ∷ hello ∷ [])
    ∷ Call.mark_rejected "c1" "forbidden"
    ∷ Call.retry_outbox "c1" (pos 50)
    ∷ Call.redact_messages "g" (pos 1)
    ∷ []

pub holding-IsValid : IsValid (holding row)
unfolding any
holding-IsValid = record {
  group_ids = (refl, tt);
  message_ids = (refl, tt);
  slots = (refl, tt);
  member_keys = tt;
  member_groups = tt;
  entry_ids = (refl, tt);
}

perform_all-IsValid_example : IsValid (perform_all calls (holding row))
perform_all-IsValid_example = perform_all-IsValid calls (holding row) holding-IsValid

keep_rows : all_keep_rows calls ≡ true
unfolding all_keep_rows
keep_rows = refl

pub is_sent : IsSent "c1" (holding sent_row)
unfolding get_outbox find
is_sent = (sent_row, refl, refl)

perform_all-IsSent_example : IsSent "c1" (perform_all calls (holding sent_row))
perform_all-IsSent_example = perform_all-IsSent "c1" calls (holding sent_row) keep_rows is_sent

not_yet : next_due (pos 100) (holding later_row) ≡ none
unfolding next_dispatchable select
not_yet = refl

earliest_next_attempt-IsNext_example :
    (earliest_next_attempt (pos 100) (holding later_row) ≡ none
      → (t : ℤ) → next_due t (holding later_row) ≡ none)
    × ((at : ℤ)
        → earliest_next_attempt (pos 100) (holding later_row) ≡ some at
        → (pos 100 <ℤ at)
          × ((t : ℤ) → t <ℤ at → next_due t (holding later_row) ≡ none)
          × (next_due at (holding later_row) ≢ none))
earliest_next_attempt-IsNext_example =
    earliest_next_attempt-IsNext (pos 100) (holding later_row) not_yet

abbrev pub new_batch : List MessageEntity
new_batch = echo ∷ hello ∷ []

pub own_ids : OwnIds "g" new_batch (holding row).messages
own_ids = (λ h. refl, tt)

store_incoming_batch-StoredOnce_example :
    StoredOnce "g" new_batch (store_incoming_batch "g" new_batch (holding row))
store_incoming_batch-StoredOnce_example =
    store_incoming_batch-StoredOnce "g" new_batch (holding row) (refl, (refl, tt)) own_ids

batch_test : (store_incoming_batch "g" new_batch (holding row)).1.inserted ≡ 1
unfolding store_incoming_batch insert_rows reconcile any message_ids_exist select seqs_exist is_echo
    unconfirmed_ids
batch_test = refl

abbrev renamed : GroupEntity
renamed = record group { name = "New name"; muted = false; last_read_seq = pos 4 }

reconcile_groups_lem_example :
    (lists "g" (renamed ∷ []) ≡ true
      → (g : GroupEntity) × (get_group "g" (reconcile_groups (renamed ∷ []) (holding row)) ≡ some g)
        × (g.is_deleted ≡ false)
        × KeepsLocal (get_group "g" (holding row)) g)
    × (lists "g" (renamed ∷ []) ≡ false
        → get_group "g" (reconcile_groups (renamed ∷ []) (holding row))
          ≡ Option.map dropped (get_group "g" (holding row)))
reconcile_groups_lem_example = reconcile_groups_lem "g" (renamed ∷ []) (holding row)

group_found : get_group "g" (holding row) ≡ some group
unfolding get_group find
group_found = refl

redact_messages_lem_example :
    All
      (λ m. in_group "g" m ≡ true → m.seq ≤ℤ pos 1 → m.body ≡ "")
      (redact_messages "g" (pos 1) (holding row)).0.messages
    × (gather "g" (hello ∷ []) (redact_messages "g" (pos 1) (holding row)).0
        ≡ gather "g" (hello ∷ []) (holding row))
redact_messages_lem_example = redact_messages_lem "g" (pos 1) (hello ∷ []) (holding row)
