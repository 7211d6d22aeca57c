-- ===== src/Store/Invariant/OutboxCalls.antt =====
-- The calls of sqlite.rs on the outbox and on batches of messages, and the invariant.
use un_tzibbur_bot.Base.{
  String, ◌≡◌, refl, ap, str_eq, Bool, true, false, Option, none, some, List, [], ◌∷◌, ℤ, update,
  delete, Unique, Unique-select, Unique-update, Unique-insert_or_ignore, if◌then◌else◌, ltb,
}
use un_tzibbur_bot.Error.{Result, ok, err}
use un_tzibbur_bot.Entities.{MessageEntity, OutboxEntity, StoreChange}
use un_tzibbur_bot.Reconcile.{EchoConfirmation, ReconcilePlan, reconcile}
use un_tzibbur_bot.Store.{SqliteStore, same_entry}
use un_tzibbur_bot.Store.Messages
use un_tzibbur_bot.Store.OutboxTable
use un_tzibbur_bot.Store.Batch
use un_tzibbur_bot.Store.Wipe
use un_tzibbur_bot.Store.Calls.{after}
use un_tzibbur_bot.Store.Invariant.Tables.{IsValid, groups-update, owners-update}
use un_tzibbur_bot.Store.Invariant.GroupCalls.{groups_changed, groups_updated, rows_inserted}

pub outbox_changed :
    (s : SqliteStore) (rows : List OutboxEntity)
    → Unique same_entry rows
    → IsValid s
    → IsValid (record s { outbox = rows })
outbox_changed s rows u v = record {
  group_ids = v.group_ids;
  message_ids = v.message_ids;
  slots = v.slots;
  member_keys = v.member_keys;
  member_groups = v.member_groups;
  entry_ids = u;
}

pub entries_updated :
    (p : OutboxEntity → Bool) (f : OutboxEntity → OutboxEntity)
    → ((e : OutboxEntity) → (f e).client_message_id ≡ e.client_message_id)
    → (rows : List OutboxEntity) → Unique same_entry rows
    → Unique same_entry (update p f rows)
entries_updated p f keep =
    Unique-update same_entry p f (λ x y. ap (λ id. str_eq x.client_message_id id) (keep y))
      (λ x y. ap (λ id. str_eq id y.client_message_id) (keep x))

pub notify_outbox-Valid :
    (o : Option String) (s : SqliteStore) → IsValid s → IsValid (OutboxTable.notify_outbox o s)
unfolding OutboxTable.notify_outbox
notify_outbox-Valid none s v = v
notify_outbox-Valid (some g) s v = groups_changed s s.groups _ v.group_ids v.member_groups v

pub outbox_updated :
    (p : OutboxEntity → Bool) (f : OutboxEntity → OutboxEntity)
    → ((e : OutboxEntity) → (f e).client_message_id ≡ e.client_message_id)
    → (o : Option String) (s : SqliteStore) → IsValid s
    → IsValid (OutboxTable.notify_outbox o (record s { outbox = update p f s.outbox }))
outbox_updated p f keep o s v =
    notify_outbox-Valid o _
      (outbox_changed s (update p f s.outbox) (entries_updated p f keep s.outbox v.entry_ids) v)

pub confirm_echoes-Unique :
    (es : List EchoConfirmation) (rows : List OutboxEntity)
    → Unique same_entry rows
    → Unique same_entry (Batch.confirm_echoes es rows)
unfolding Batch.confirm_echoes OutboxTable.tx_confirm_sent
confirm_echoes-Unique [] rows u = u
confirm_echoes-Unique (e ∷ es) rows u =
    confirm_echoes-Unique es _ (entries_updated _ _ (λ _. refl) rows u)

pub changes_kept :
    (s : SqliteStore) (c : List StoreChange) → IsValid s → IsValid (record s { changes = c })
changes_kept s c v = groups_changed s s.groups c v.group_ids v.member_groups v

pub notify_echoes-Valid :
    (es : List EchoConfirmation) (g : String) (s : SqliteStore)
    → IsValid s
    → IsValid (Batch.notify_echoes es g s)
unfolding Batch.notify_echoes
notify_echoes-Valid [] g s v = v
notify_echoes-Valid (e ∷ es) g s v = changes_kept s _ v

pub notify_inserted-Valid :
    (b : Bool) (g : String) (s : SqliteStore) → IsValid s → IsValid (Batch.notify_inserted b g s)
unfolding Batch.notify_inserted
notify_inserted-Valid true g s v = changes_kept s _ v
notify_inserted-Valid false g s v = v

pub preview-Valid :
    (b : Bool) (g : String) (rows : List MessageEntity) (s : SqliteStore)
    → IsValid s
    → IsValid (record s {
      groups = if b then Messages.tx_refresh_group_preview g rows s.groups else s.groups;
    })
unfolding Messages.tx_refresh_group_preview
preview-Valid true g rows s v = groups_updated _ _ (λ _. refl) s s.changes v
preview-Valid false g rows s v = v

pub apply_plan-Valid :
    (g : String) (plan : ReconcilePlan) (s : SqliteStore)
    → IsValid s
    → IsValid (Batch.apply_plan g plan s).0
unfolding Batch.apply_plan
apply_plan-Valid g plan s v =
    let written = Messages.insert_rows plan.to_insert (s.messages, 0) in
    let confirmed = Batch.confirm_echoes plan.echo_confirmations s.outbox in
    notify_echoes-Valid plan.echo_confirmations g _ (
      notify_inserted-Valid (ltb 0 written.1) g _ (
        preview-Valid (ltb 0 written.1) g written.0 _ (
          outbox_changed _ confirmed
            (confirm_echoes-Unique plan.echo_confirmations s.outbox v.entry_ids)
            (rows_inserted plan.to_insert s v))))

pub batch-Valid :
    (g : String) (batch : List MessageEntity) (s : SqliteStore)
    → IsValid s
    → IsValid (Batch.store_incoming_batch g batch s).0
unfolding Batch.store_incoming_batch
batch-Valid g [] s v = v
batch-Valid g (m ∷ ms) s v = apply_plan-Valid g (reconcile (m ∷ ms) (Batch.gather g (m ∷ ms) s)) s v

pub after-Valid :
    (s : SqliteStore) (r : Result SqliteStore)
    → ((s' : SqliteStore) → r ≡ ok s' → IsValid s')
    → IsValid s
    → IsValid (after s r)
after-Valid s (ok s') done v = done s' refl
after-Valid s (err e) done v = v

pub insert_outbox-Valid :
    (e : OutboxEntity) (s : SqliteStore) → IsValid s → IsValid (OutboxTable.insert_outbox e s)
unfolding OutboxTable.insert_outbox
insert_outbox-Valid e s v = changes_kept _ _ (
    outbox_changed s _
      (Unique-insert_or_ignore same_entry same_entry (λ _ _ h. h) e s.outbox v.entry_ids) v)

pub delete_messages-Valid :
    (g : String) (s : SqliteStore) → IsValid s → IsValid (Messages.delete_messages_for_group g s).0
unfolding Messages.delete_messages_for_group delete
delete_messages-Valid g s v = record {
  group_ids = v.group_ids;
  message_ids = Unique-select _ _ s.messages v.message_ids;
  slots = Unique-select _ _ s.messages v.slots;
  member_keys = v.member_keys;
  member_groups = v.member_groups;
  entry_ids = v.entry_ids;
}

pub redact_messages-Valid :
    (g : String) (seq : ℤ) (s : SqliteStore) → IsValid s → IsValid (Wipe.redact_messages g seq s).0
unfolding Wipe.redact_messages
redact_messages-Valid g seq s v = record {
  group_ids = groups-update _ _ (λ _. refl) s.groups v.group_ids;
  message_ids = Unique-update _ _ _ (λ _ _. refl) (λ _ _. refl) s.messages v.message_ids;
  slots = Unique-update _ _ _ (λ _ _. refl) (λ _ _. refl) s.messages v.slots;
  member_keys = v.member_keys;
  member_groups = owners-update _ _ (λ _. refl) s.groups s.members v.member_groups;
  entry_ids = v.entry_ids;
}

pub repair-Valid : (now : ℤ) (s : SqliteStore) → IsValid s → IsValid (OutboxTable.repair now s)
unfolding OutboxTable.repair
repair-Valid now s v =
    outbox_changed s _
      (entries_updated _ _ (λ _. refl) _ (entries_updated _ _ (λ _. refl) s.outbox v.entry_ids)) v
