-- ===== src/Store/Batch.antt =====
-- `store_incoming_batch` of sqlite.rs: reconcile, insert, confirm the echoes and refresh the
-- preview in one transaction.
pub mod Inserted
pub mod Delivered
use un_tzibbur_bot.Base.{ℕ, String, Bool, true, false, List, [], ◌∷◌, map, ltb, if◌then◌else◌}
use un_tzibbur_bot.Entities.{MessageEntity, OutboxEntity, StoreChange}
use un_tzibbur_bot.Reconcile.{
  EchoConfirmation, ReconcilePlan, ReconcileState, empty_plan, reconcile,
}
use un_tzibbur_bot.Store.{SqliteStore, notify}
use un_tzibbur_bot.Store.Messages.{
  insert_rows, tx_refresh_group_preview, message_ids_exist, seqs_exist,
}
use un_tzibbur_bot.Store.OutboxTable.{unconfirmed_ids, tx_confirm_sent}

pub record StoreBatchOutcome : Type 0 where
  pub plan : ReconcilePlan
  pub inserted : ℕ

abbrev pub no_outcome : StoreBatchOutcome
no_outcome = record { plan = empty_plan; inserted = 0 }

-- The three queries that gather the state.
unfoldable pub gather : String → List MessageEntity → SqliteStore → ReconcileState
gather group_id batch s = record {
  existing_ids = message_ids_exist group_id (map (λ m. m.id) batch) s.messages;
  existing_seqs = seqs_exist group_id (map (λ m. m.seq) batch) s.messages;
  unconfirmed_client_message_ids = unconfirmed_ids group_id s.outbox;
}

unfoldable pub confirm_echoes : List EchoConfirmation → List OutboxEntity → List OutboxEntity
confirm_echoes [] rows = rows
confirm_echoes (e ∷ es) rows =
    confirm_echoes es (tx_confirm_sent e.client_message_id e.server_id e.seq rows)

unfoldable pub notify_inserted : Bool → String → SqliteStore → SqliteStore
unfolding notify
notify_inserted true group_id s =
    notify StoreChange.groups (notify (StoreChange.messages group_id) s)
notify_inserted false group_id s = s

unfoldable pub notify_echoes : List EchoConfirmation → String → SqliteStore → SqliteStore
unfolding notify
notify_echoes [] group_id s = s
notify_echoes (e ∷ es) group_id s = notify (StoreChange.outbox group_id) s

-- The body of the transaction, for the plan that was made.
unfoldable pub apply_plan : String → ReconcilePlan → SqliteStore → SqliteStore × StoreBatchOutcome
unfolding confirm_echoes notify_inserted notify_echoes
apply_plan group_id plan s =
    let (rows, inserted) = insert_rows plan.to_insert (s.messages, 0) in
    let wrote = ltb 0 inserted in
    let stored = record s {
      messages = rows;
      outbox = confirm_echoes plan.echo_confirmations s.outbox;
      groups = if wrote then tx_refresh_group_preview group_id rows s.groups else s.groups;
    } in
    (
      notify_echoes plan.echo_confirmations group_id (notify_inserted wrote group_id stored),
      record { plan = plan; inserted = inserted },
    )

unfoldable pub store_incoming_batch :
    String → List MessageEntity → SqliteStore → SqliteStore × StoreBatchOutcome
unfolding apply_plan gather
store_incoming_batch group_id [] s = (s, no_outcome)
store_incoming_batch group_id (m ∷ ms) s =
    apply_plan group_id (reconcile (m ∷ ms) (gather group_id (m ∷ ms) s)) s
