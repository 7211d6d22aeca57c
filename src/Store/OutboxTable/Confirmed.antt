-- ===== src/Store/OutboxTable/Confirmed.antt =====
-- A confirmed row of the outbox, under every call of the store.
use un_tzibbur_bot.Base.{
  String, ◌≡◌, refl, ◌∙◌, ap, inl, inr, Bool, true, false, ◌&&◌, some, List, [], ◌∷◌, ℤ, arith,
  Bool-cases, if◌then◌else◌, str_eq, eq_iff, find, find-update, any, update, delete,
  insert_or_ignore,
}
use un_tzibbur_bot.Error.{Result, ok, err, ◌>>=◌}
use un_tzibbur_bot.Entities.{MessageEntity, MemberEntity, OutboxEntity, OutboxState}
use un_tzibbur_bot.Reconcile.{EchoConfirmation, ReconcilePlan, reconcile}
use un_tzibbur_bot.Store.{SqliteStore, notify, same_entry, of_group}
use un_tzibbur_bot.Store.Groups
use un_tzibbur_bot.Store.Messages
use un_tzibbur_bot.Store.Members
use un_tzibbur_bot.Store.OutboxTable
use un_tzibbur_bot.Store.OutboxTable.{
  is_confirmed, has_client_id, is_open, is_clobbered, is_dead, get_outbox, update_open,
  notify_outbox, outbox_group, confirm_entry,
}
use un_tzibbur_bot.Store.OutboxTable.Rows.{apply_plan_outbox, outbox_notified}
use un_tzibbur_bot.Store.Batch
use un_tzibbur_bot.Store.Wipe
use un_tzibbur_bot.Store.Calls.{Call, perform, perform_all, after}

-- The calls that delete no row of the outbox.
unfoldable pub keeps_rows : Call → Bool
keeps_rows (Call.delete_outbox _) = false
keeps_rows (Call.purge_old_confirmed _) = false
keeps_rows Call.purge_deleted_groups = false
keeps_rows Call.clear_all = false
keeps_rows _ = true

unfoldable pub all_keep_rows : List Call → Bool
unfolding keeps_rows
all_keep_rows [] = true
all_keep_rows (c ∷ cs) = keeps_rows c && all_keep_rows cs

-- The row of the id is confirmed.
abbrev SentIn : String → List OutboxEntity → Type 0
SentIn id rows =
    (x : OutboxEntity) × (find (has_client_id id) rows ≡ some x) × (is_confirmed x.state ≡ true)

-- `get_outbox` finds a confirmed row for the id.
abbrev pub IsSent : String → SqliteStore → Type 0
IsSent id s = (x : OutboxEntity) × (get_outbox id s ≡ some x) × (is_confirmed x.state ≡ true)

sent_updated :
    (id : String) (p : OutboxEntity → Bool) (f : OutboxEntity → OutboxEntity)
    → ((e : OutboxEntity) → (f e).client_message_id ≡ e.client_message_id)
    → ((e : OutboxEntity)
        → is_confirmed e.state ≡ true
        → p e ≡ true
        → is_confirmed (f e).state ≡ true)
    → (rows : List OutboxEntity) → SentIn id rows
    → SentIn id (update p f rows)
sent_updated id p f keep stay rows (x, h, c) = (
  if p x then f x else x,
  find-update (has_client_id id) p f (λ e. ap (λ k. str_eq k id) (keep e)) rows ∙ rw h refl,
  elim (Bool-cases (p x)) [ inl e ↦ rw e (stay x c e) | inr e ↦ rw e c ],
)

open_only :
    (id : String) (e : OutboxEntity) {A : Type 0}
    → is_confirmed e.state ≡ true
    → is_open id e ≡ true
    → A
open_only id e c h = absurd (ground arith)

found_clashes :
    (id : String) (e : OutboxEntity) (rows : List OutboxEntity) (x : OutboxEntity)
    → has_client_id id e ≡ true
    → find (has_client_id id) rows ≡ some x
    → any (same_entry e) rows ≡ true
unfolding find any
found_clashes id e [] x same h = cc
found_clashes id e (y ∷ rows) x same h = elim (Bool-cases (has_client_id id y)) [
  | inl t ↦ ground (
    arith,
    eq_iff e.client_message_id id,
    eq_iff y.client_message_id id,
    eq_iff e.client_message_id y.client_message_id,
  )
  | inr t ↦ let rest = found_clashes id e rows x same (rw t at h) in ground arith
]

sent_inserted :
    (id : String) (e : OutboxEntity) (rows : List OutboxEntity)
    → SentIn id rows
    → SentIn id (insert_or_ignore same_entry e rows)
unfolding insert_or_ignore find
sent_inserted id e rows (x, h, c) = elim (Bool-cases (any (same_entry e) rows)) [
  | inl t ↦ rw t (x, h, c)
  | inr t ↦ elim (Bool-cases (has_client_id id e)) [
    | inl same ↦ let k = found_clashes id e rows x same h in absurd (ground arith)
    | inr other ↦ rw (t, other) (x, h, c)
  ]
]

sent_confirmed :
    (id : String) (es : List EchoConfirmation) (rows : List OutboxEntity)
    → SentIn id rows
    → SentIn id (Batch.confirm_echoes es rows)
unfolding Batch.confirm_echoes OutboxTable.tx_confirm_sent confirm_entry
sent_confirmed id [] rows h = h
sent_confirmed id (e ∷ es) rows h =
    sent_confirmed id es _ (sent_updated id _ _ (λ _. refl) (λ _ _ _. refl) rows h)

-- The calls that leave the table alone, and those that write to it.
module _ (id : String) (s : SqliteStore) (h : IsSent id s) where
  rows_of : SentIn id s.outbox
  rows_of = unfold get_outbox in h

  IsSent-if :
      (s' : SqliteStore) (rows : List OutboxEntity)
      → s'.outbox ≡ rows
      → SentIn id rows
      → IsSent id s'
  unfolding get_outbox
  IsSent-if s' rows same r = (r.0, rw same r.1, r.2)

  untouched : (s' : SqliteStore) → s'.outbox ≡ s.outbox → IsSent id s'
  untouched s' same = IsSent-if s' s.outbox same rows_of

  opened :
      (key : String) (f : OutboxEntity → OutboxEntity)
      → ((e : OutboxEntity) → (f e).client_message_id ≡ e.client_message_id)
      → IsSent id (update_open key f s)
  unfolding update_open
  opened key f keep =
      IsSent-if _ _ (outbox_notified (outbox_group key s) _)
        (sent_updated id (is_open key) f keep (λ e. open_only key e) s.outbox rows_of)

  batch-IsSent :
      (g : String) (ms : List MessageEntity) → IsSent id (Batch.store_incoming_batch g ms s).0
  unfolding Batch.store_incoming_batch
  batch-IsSent g [] = h
  batch-IsSent g (m ∷ ms) =
      IsSent-if _ _ (apply_plan_outbox g plan s)
        (sent_confirmed id plan.echo_confirmations s.outbox rows_of)
    where
      plan : ReconcilePlan
      plan = reconcile (m ∷ ms) (Batch.gather g (m ∷ ms) s)

  confirm_sent-IsSent :
      (key server_id : String) (seq : ℤ) → IsSent id (OutboxTable.confirm_sent key server_id seq s)
  unfolding OutboxTable.confirm_sent OutboxTable.tx_confirm_sent confirm_entry
  confirm_sent-IsSent key server_id seq =
      IsSent-if _ _ (outbox_notified (outbox_group key s) _)
        (sent_updated id (has_client_id key) _ (λ _. refl) (λ _ _ _. refl) s.outbox rows_of)

  repair-IsSent : (now : ℤ) → IsSent id (OutboxTable.repair now s)
  unfolding OutboxTable.repair
  repair-IsSent now = IsSent-if _ _ refl (
      sent_updated id is_dead _ (λ _. refl) (λ e c d. absurd (dead_only e.state _ c d)) _
        (sent_updated id is_clobbered _ (λ _. refl) (λ _ _ _. refl) s.outbox rows_of))
    where
      dead_only :
          (st : OutboxState) (b : Bool)
          → is_confirmed st ≡ true
          → (OutboxTable.is_pending st && b) ≡ true
          → ⊥
      dead_only OutboxState.pending b c d = cc
      dead_only OutboxState.in_flight b c d = cc
      dead_only OutboxState.confirmed b c d = cc

notified_messages :
    (gs : List String) (s : SqliteStore) → (Messages.notify_messages gs s).outbox ≡ s.outbox
unfolding Messages.notify_messages notify
notified_messages [] s = refl
notified_messages (g ∷ gs) s = notified_messages gs _

inserted_messages :
    (ms : List MessageEntity) (s : SqliteStore)
    → (Messages.insert_messages ms s).0.outbox ≡ s.outbox
unfolding Messages.insert_messages notify
inserted_messages [] s = refl
inserted_messages (m ∷ ms) s = notified_messages (Messages.group_ids (m ∷ ms)) _

members_written :
    (id : String) (s : SqliteStore) (r : Result (List MemberEntity))
    (write : List MemberEntity → SqliteStore)
    → ((rows : List MemberEntity) → (write rows).outbox ≡ s.outbox)
    → IsSent id s
    → IsSent id (after s (r >>= λ rows. ok (write rows)))
members_written id s (ok rows) write same h = untouched id s h (write rows) (same rows)
members_written id s (err e) write same h = h

perform-IsSent :
    (id : String) (c : Call) (s : SqliteStore)
    → keeps_rows c ≡ true
    → IsSent id s
    → IsSent id (perform c s)
unfolding perform notify Groups.update_group Members.upsert_member Members.replace_members
perform-IsSent id (Call.upsert_group g) s k h =
    unfold Groups.upsert_group in untouched id s h _ refl
perform-IsSent id (Call.mark_read g seq) s k h = unfold Groups.mark_read in untouched id s h _ refl
perform-IsSent id (Call.mark_group_deleted g) s k h =
    unfold Groups.mark_group_deleted in untouched id s h _ refl
perform-IsSent id Call.mark_all_groups_deleted s k h =
    unfold Groups.mark_all_groups_deleted in untouched id s h _ refl
perform-IsSent id (Call.mark_groups_deleted_except []) s k h =
    unfold Groups.mark_groups_deleted_except Groups.mark_all_groups_deleted in
    untouched id s h _ refl
perform-IsSent id (Call.mark_groups_deleted_except (g ∷ gs)) s k h =
    unfold Groups.mark_groups_deleted_except in untouched id s h _ refl
perform-IsSent id (Call.set_muted g muted) s k h =
    unfold Groups.set_muted in untouched id s h _ refl
perform-IsSent id Call.purge_deleted_groups s k h = unfold keeps_rows in cc
perform-IsSent id (Call.reconcile_groups gs) s k h =
    unfold Groups.reconcile_groups in untouched id s h _ refl
perform-IsSent id (Call.apply_group_updated g name post add) s k h =
    unfold Groups.apply_group_updated in untouched id s h _ refl
perform-IsSent id (Call.set_group_member_count g delta) s k h =
    unfold Groups.set_group_member_count in untouched id s h _ refl
perform-IsSent id (Call.set_my_role g role) s k h =
    unfold Groups.set_my_role in untouched id s h _ refl
perform-IsSent id (Call.insert_messages ms) s k h = untouched id s h _ (inserted_messages ms s)
perform-IsSent id (Call.delete_messages_for_group g) s k h =
    unfold Messages.delete_messages_for_group in untouched id s h _ refl
perform-IsSent id (Call.store_incoming_batch g batch) s k h = batch-IsSent id s h g batch
perform-IsSent id (Call.upsert_member m) s k h =
    members_written id s (Members.tx_upsert_member s.groups m s.members) _ (λ _. refl) h
perform-IsSent id (Call.delete_member g u) s k h =
    unfold Members.delete_member in untouched id s h _ refl
perform-IsSent id (Call.delete_all_members g) s k h =
    unfold Members.delete_all_members in untouched id s h _ refl
perform-IsSent id (Call.set_role g u role) s k h =
    unfold Members.set_role in untouched id s h _ refl
perform-IsSent id (Call.replace_members g ms) s k h =
    members_written id s (Members.upsert_members s.groups ms (delete (of_group g) s.members)) _
      (λ _. refl) h
perform-IsSent id (Call.insert_outbox e) s k h =
    unfold OutboxTable.insert_outbox in
    IsSent-if id s h _ _ refl (sent_inserted id e s.outbox (rows_of id s h))
perform-IsSent id (Call.delete_outbox key) s k h = unfold keeps_rows in cc
perform-IsSent id (Call.purge_old_confirmed t) s k h = unfold keeps_rows in cc
perform-IsSent id (Call.mark_in_flight key at) s k h =
    unfold OutboxTable.mark_in_flight in
    IsSent-if id s h _ _ refl
      (sent_updated id (is_open key) _ (λ _. refl) (λ e. open_only key e) s.outbox (rows_of id s h))
perform-IsSent id (Call.mark_rejected key code) s k h =
    unfold OutboxTable.mark_rejected in opened id s h key _ (λ _. refl)
perform-IsSent id (Call.reschedule key at code) s k h =
    unfold OutboxTable.reschedule in opened id s h key _ (λ _. refl)
perform-IsSent id (Call.retry_outbox key now) s k h =
    unfold OutboxTable.retry_outbox in opened id s h key _ (λ _. refl)
perform-IsSent id (Call.confirm_sent key sid seq) s k h = confirm_sent-IsSent id s h key sid seq
perform-IsSent id (Call.repair now) s k h = repair-IsSent id s h now
perform-IsSent id (Call.insert_command_reply r) s k h =
    unfold OutboxTable.insert_command_reply in untouched id s h _ refl
perform-IsSent id (Call.clear_command_replies g) s k h =
    unfold OutboxTable.clear_command_replies in untouched id s h _ refl
perform-IsSent id (Call.redact_messages g seq) s k h =
    unfold Wipe.redact_messages in untouched id s h _ refl
perform-IsSent id Call.redact_confirmed_outbox s k h =
    unfold Wipe.redact_confirmed_outbox in
    IsSent-if id s h _ _ refl
      (sent_updated id _ _ (λ _. refl) (λ _ c _. c) s.outbox (rows_of id s h))
perform-IsSent id Call.clear_all s k h = unfold keeps_rows in cc

-- A confirmed row stays confirmed whatever calls are made, unless one of them deletes rows of the
-- outbox: no error, retry, repair or second send makes it pending again.
pub perform_all-IsSent :
    (id : String) (cs : List Call) (s : SqliteStore)
    → all_keep_rows cs ≡ true
    → IsSent id s
    → IsSent id (perform_all cs s)
unfolding perform_all all_keep_rows
perform_all-IsSent id [] s k h = h
perform_all-IsSent id (c ∷ cs) s k h =
    perform_all-IsSent id cs (perform c s) (ground arith) (perform-IsSent id c s (ground arith) h)
