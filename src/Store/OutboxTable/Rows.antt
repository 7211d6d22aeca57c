-- ===== src/Store/OutboxTable/Rows.antt =====
-- One row of the outbox table, found by its `clientMessageId`, before and after each operation on
-- it (sqlite.rs).
use mathlib.Core.Option
use un_tzibbur_bot.Base.{
  String, ◌≡◌, refl, ◌∙◌, inl, inr, Bool, true, false, Option, none, some, List, [], ◌∷◌, ℤ, arith,
  find, update, ap, find-update, find-delete, find-holds, Bool-cases, if◌then◌else◌,
}
use un_tzibbur_bot.Entities.{MessageEntity, OutboxEntity}
use un_tzibbur_bot.Reconcile.{EchoConfirmation, ReconcilePlan, reconcile}
use un_tzibbur_bot.Store.{SqliteStore, notify}
use un_tzibbur_bot.Store.Batch.{
  gather, confirm_echoes, notify_inserted, notify_echoes, apply_plan, store_incoming_batch,
}
use un_tzibbur_bot.Store.OutboxTable.{
  is_confirmed, has_client_id, is_open, get_outbox, outbox_group, notify_outbox, update_open,
  confirm_entry, tx_confirm_sent, confirm_sent, delete_outbox,
}

-- What `UPDATE … WHERE state != 'CONFIRMED'` makes of a row.
abbrev pub unless_confirmed : (OutboxEntity → OutboxEntity) → OutboxEntity → OutboxEntity
unless_confirmed f e = if is_confirmed e.state then e else f e

pub outbox_notified : (g : Option String) (s : SqliteStore) → (notify_outbox g s).outbox ≡ s.outbox
unfolding notify_outbox notify
outbox_notified none s = refl
outbox_notified (some g) s = refl

notify_echoes_outbox :
    (es : List EchoConfirmation) (group_id : String) (s : SqliteStore)
    → (notify_echoes es group_id s).outbox ≡ s.outbox
unfolding notify_echoes notify
notify_echoes_outbox [] group_id s = refl
notify_echoes_outbox (e ∷ es) group_id s = refl

notify_inserted_outbox :
    (wrote : Bool) (group_id : String) (s : SqliteStore)
    → (notify_inserted wrote group_id s).outbox ≡ s.outbox
unfolding notify_inserted notify
notify_inserted_outbox true group_id s = refl
notify_inserted_outbox false group_id s = refl

pub apply_plan_outbox :
    (group_id : String) (plan : ReconcilePlan) (s : SqliteStore)
    → (apply_plan group_id plan s).0.outbox ≡ confirm_echoes plan.echo_confirmations s.outbox
unfolding apply_plan
apply_plan_outbox group_id plan s =
    notify_echoes_outbox plan.echo_confirmations group_id _ ∙ notify_inserted_outbox _ group_id _

-- What `UPDATE … WHERE clientMessageId = ? AND state != 'CONFIRMED'` does to the row of each id.
module _ (id : String) (f : OutboxEntity → OutboxEntity)
    (keep : (e : OutboxEntity) → (f e).client_message_id ≡ e.client_message_id) where
  pub update_open_row :
      (rows : List OutboxEntity)
      → find (has_client_id id) (update (is_open id) f rows)
        ≡ Option.map (unless_confirmed f) (find (has_client_id id) rows)
  unfolding find update
  update_open_row [] = refl
  update_open_row (x ∷ rows) = elim (Bool-cases (has_client_id id x)) [
    | inl t ↦ elim (Bool-cases (is_confirmed x.state)) [
      | inl c ↦ rw (t, c, t) refl
      | inr c ↦ rw (t, c, keep x, t) refl
    ]
    | inr t ↦ rw (t, t) (update_open_row rows)
  ]

  pub get_outbox-update_open :
      (s : SqliteStore)
      → get_outbox id (update_open id f s) ≡ Option.map (unless_confirmed f) (get_outbox id s)
  unfolding get_outbox update_open
  get_outbox-update_open s =
      ap (find (has_client_id id)) (outbox_notified (outbox_group id s) _)
      ∙ update_open_row s.outbox

pub get_outbox-confirm_sent :
    (id server_id : String) (seq : ℤ) (s : SqliteStore) (x : OutboxEntity)
    → get_outbox id s ≡ some x
    → get_outbox id (confirm_sent id server_id seq s) ≡ some (confirm_entry server_id seq x)
unfolding get_outbox confirm_sent tx_confirm_sent
get_outbox-confirm_sent id server_id seq s x h =
    ap (find (has_client_id id)) (outbox_notified (outbox_group id s) _)
    ∙ find-update (has_client_id id) (has_client_id id) (confirm_entry server_id seq) (λ _. refl)
        s.outbox
    ∙ found
  where
    is_row : has_client_id id x ≡ true
    is_row = find-holds (has_client_id id) s.outbox x h

    found :
        Option.map
          (λ e. if has_client_id id e then confirm_entry server_id seq e else e)
          (find (has_client_id id) s.outbox)
        ≡ some (confirm_entry server_id seq x)
    found = rw (h, is_row) refl

pub get_outbox-delete_outbox :
    (id : String) (s : SqliteStore) → get_outbox id (delete_outbox id s) ≡ none
unfolding get_outbox delete_outbox
get_outbox-delete_outbox id s =
    ap (find (has_client_id id)) (outbox_notified (outbox_group id s) _)
    ∙ find-delete (has_client_id id) s.outbox

-- An echo confirms a row or leaves it alone: none disappears.
confirm_echoes_row :
    (id : String) (es : List EchoConfirmation) (rows : List OutboxEntity) (x : OutboxEntity)
    → find (has_client_id id) rows ≡ some x
    → (y : OutboxEntity) × (find (has_client_id id) (confirm_echoes es rows) ≡ some y)
      × (y.body ≡ x.body)
unfolding confirm_echoes tx_confirm_sent
confirm_echoes_row id [] rows x h = (x, h, refl)
confirm_echoes_row id (e ∷ es) rows x h =
    let r = confirm_echoes_row id es _ confirmed step in (r.0, r.1, r.2 ∙ same)
  where
    confirmed : OutboxEntity
    confirmed = if has_client_id e.client_message_id x then confirm_entry e.server_id e.seq x else x

    same : confirmed.body ≡ x.body
    same = ground arith

    step :
        find
          (has_client_id id)
          (update (has_client_id e.client_message_id) (confirm_entry e.server_id e.seq) rows)
        ≡ some confirmed
    step =
        find-update (has_client_id id) (has_client_id e.client_message_id)
          (confirm_entry e.server_id e.seq) (λ _. refl) rows
        ∙ rw h refl

pub get_outbox-store_incoming_batch :
    (id group_id : String) (batch : List MessageEntity) (s : SqliteStore) (x : OutboxEntity)
    → get_outbox id s ≡ some x
    → (y : OutboxEntity) × (get_outbox id (store_incoming_batch group_id batch s).0 ≡ some y)
      × (y.body ≡ x.body)
unfolding get_outbox store_incoming_batch
get_outbox-store_incoming_batch id group_id [] s x h = (x, h, refl)
get_outbox-store_incoming_batch id group_id (m ∷ ms) s x h =
    let r = confirm_echoes_row id plan.echo_confirmations s.outbox x h in
    (r.0, ap (find (has_client_id id)) (apply_plan_outbox group_id plan s) ∙ r.1, r.2)
  where
    plan : ReconcilePlan
    plan = reconcile (m ∷ ms) (gather group_id (m ∷ ms) s)

notified_replies :
    (g : Option String) (s : SqliteStore)
    → ((notify_outbox g s).replies ≡ s.replies)
      × ((notify_outbox g s).last_reply_id ≡ s.last_reply_id)
unfolding notify_outbox notify
notified_replies none s = (refl, refl)
notified_replies (some g) s = (refl, refl)

pub delete_outbox-replies :
    (id : String) (s : SqliteStore)
    → ((delete_outbox id s).replies ≡ s.replies)
      × ((delete_outbox id s).last_reply_id ≡ s.last_reply_id)
unfolding delete_outbox
delete_outbox-replies id s = notified_replies (outbox_group id s) _
