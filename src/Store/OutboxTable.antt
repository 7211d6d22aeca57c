-- ===== src/Store/OutboxTable.antt =====
-- The `outbox` and `local_command_replies` tables of sqlite.rs.
pub mod Wakes
pub mod Rows
pub mod Confirmed
use un_tzibbur_bot.Base.{
  ℕ, suc, ◌+◌, String, Bool, true, false, not, ◌&&◌, ◌||◌, Option, none, some, List, [], ◌∷◌, map,
  ℤ, pos, ◌+ℤ◌, leb_ℤ, ltb_ℤ, any, select, find, update, delete, count, insert_or_ignore, is_some,
  str_eq, if◌then◌else◌,
}
use un_tzibbur_bot.Entities.{OutboxEntity, OutboxState, LocalCommandReplyEntity, StoreChange}
use un_tzibbur_bot.Store.{SqliteStore, notify, same_entry}

abbrev pub is_confirmed : OutboxState → Bool
is_confirmed OutboxState.confirmed = true
is_confirmed _ = false

abbrev pub is_pending : OutboxState → Bool
is_pending OutboxState.pending = true
is_pending _ = false

-- `WHERE clientMessageId = ?`
abbrev pub has_client_id : String → OutboxEntity → Bool
has_client_id id e = str_eq e.client_message_id id

-- `WHERE clientMessageId = ? AND state != 'CONFIRMED'`
abbrev pub is_open : String → OutboxEntity → Bool
is_open id e = has_client_id id e && not (is_confirmed e.state)

unfoldable pub insert_outbox : OutboxEntity → SqliteStore → SqliteStore
unfolding notify
insert_outbox e s =
    notify (StoreChange.outbox e.group_id)
      (record s { outbox = insert_or_ignore same_entry e s.outbox })

unfoldable pub pending_count : SqliteStore → ℕ
pending_count s = count (λ e. not (is_confirmed e.state)) s.outbox

-- `WHERE groupId = ?1 AND state != 'CONFIRMED'`
unfoldable pub unconfirmed_ids : String → List OutboxEntity → List String
unconfirmed_ids group_id rows =
    map (λ e. e.client_message_id)
      (select (λ e. str_eq e.group_id group_id && not (is_confirmed e.state)) rows)

unfoldable pub get_outbox : String → SqliteStore → Option OutboxEntity
get_outbox id s = find (has_client_id id) s.outbox

unfoldable pub outbox_group : String → SqliteStore → Option String
outbox_group id s = elim (find (has_client_id id) s.outbox) [
  | none ↦ none
  | some e ↦ some e.group_id
]

unfoldable pub notify_outbox : Option String → SqliteStore → SqliteStore
unfolding notify
notify_outbox none s = s
notify_outbox (some g) s = notify (StoreChange.outbox g) s

-- `ORDER BY createdAt ASC`
insert_by_age : OutboxEntity → List OutboxEntity → List OutboxEntity
insert_by_age e [] = e ∷ []
insert_by_age e (x ∷ xs) =
    if ltb_ℤ e.created_at x.created_at then e ∷ x ∷ xs else x ∷ insert_by_age e xs

order_by_age : List OutboxEntity → List OutboxEntity
unfolding insert_by_age
order_by_age [] = []
order_by_age (e ∷ es) = insert_by_age e (order_by_age es)

unfoldable pub pending_outbox : String → SqliteStore → List OutboxEntity
unfolding order_by_age
pending_outbox group_id s =
    order_by_age (select (λ e. str_eq e.group_id group_id && not (is_confirmed e.state)) s.outbox)

abbrev pub is_failed : OutboxEntity → Bool
is_failed e = is_pending e.state && (is_some e.error_code && not (is_some e.next_attempt_at))

unfoldable pub failed_outbox : String → SqliteStore → List OutboxEntity
unfolding order_by_age
failed_outbox group_id s =
    order_by_age (select (λ e. str_eq e.group_id group_id && is_failed e) s.outbox)

unfoldable pub delete_outbox : String → SqliteStore → SqliteStore
unfolding notify_outbox outbox_group
delete_outbox id s =
    notify_outbox (outbox_group id s) (record s { outbox = delete (has_client_id id) s.outbox })

unfoldable pub purge_old_confirmed : ℤ → SqliteStore → SqliteStore × ℕ
purge_old_confirmed before s =
    let old = λ (e : OutboxEntity). is_confirmed e.state && ltb_ℤ e.created_at before in
    (record s { outbox = delete old s.outbox }, count old s.outbox)

-- The `WHERE` of `next_dispatchable`, by the state of the row.
unfoldable pub due : Option ℤ → Option String → ℤ → Bool
due (some at) error_code now = leb_ℤ at now
due none error_code now = not (is_some error_code)

unfoldable pub stale : Option ℤ → ℤ → Bool
stale none stale_before = true
stale (some at) stale_before = leb_ℤ at stale_before

unfoldable pub dispatchable_in : OutboxState → Option ℤ → Option String → Option ℤ → ℤ → ℤ → Bool
unfolding due stale
dispatchable_in OutboxState.pending next error_code last now stale_before = due next error_code now
dispatchable_in OutboxState.in_flight next error_code last now stale_before =
    stale last stale_before
dispatchable_in OutboxState.confirmed next error_code last now stale_before = false

unfoldable pub is_dispatchable : ℤ → ℤ → OutboxEntity → Bool
unfolding dispatchable_in
is_dispatchable now stale_before e =
    dispatchable_in e.state e.next_attempt_at e.error_code e.last_attempt_at now stale_before

-- `ORDER BY createdAt ASC LIMIT 1`; of rows of one age, the one inserted first.
unfoldable pub older : OutboxEntity → Option OutboxEntity → OutboxEntity
older e none = e
older e (some x) = if ltb_ℤ e.created_at x.created_at then e else x

unfoldable pub oldest : List OutboxEntity → Option OutboxEntity
unfolding older
oldest [] = none
oldest (e ∷ es) = some (older e (oldest es))

unfoldable pub next_dispatchable : ℤ → ℤ → SqliteStore → Option OutboxEntity
unfolding is_dispatchable oldest
next_dispatchable now stale_before s = oldest (select (is_dispatchable now stale_before) s.outbox)

-- `IN_FLIGHT_STALE`
abbrev pub stale_ms : ℤ
stale_ms = pos 120000

-- The instant that a row contributes to the `MIN`, if any.
unfoldable pub later_than : ℤ → Option ℤ → Option ℤ
later_than now none = none
later_than now (some at) = if ltb_ℤ now at then some at else none

unfoldable pub goes_stale : Option ℤ → Option ℤ
unfolding ◌+ℤ◌
goes_stale none = none
goes_stale (some at) = some (at +ℤ stale_ms)

unfoldable pub wakes_in : OutboxState → Option ℤ → Option ℤ → ℤ → Option ℤ
unfolding later_than goes_stale
wakes_in OutboxState.pending next last now = later_than now next
wakes_in OutboxState.in_flight next last now = goes_stale last
wakes_in OutboxState.confirmed next last now = none

unfoldable pub wakes_at : ℤ → OutboxEntity → Option ℤ
unfolding wakes_in
wakes_at now e = wakes_in e.state e.next_attempt_at e.last_attempt_at now

unfoldable pub earlier : Option ℤ → Option ℤ → Option ℤ
earlier none b = b
earlier (some a) none = some a
earlier (some a) (some b) = some (if leb_ℤ a b then a else b)

unfoldable pub earliest_of : ℤ → List OutboxEntity → Option ℤ
unfolding earlier wakes_at
earliest_of now [] = none
earliest_of now (e ∷ es) = earlier (wakes_at now e) (earliest_of now es)

unfoldable pub earliest_next_attempt : ℤ → SqliteStore → Option ℤ
unfolding earliest_of
earliest_next_attempt now s = earliest_of now s.outbox

unfoldable pub mark_in_flight : String → ℤ → SqliteStore → SqliteStore
mark_in_flight id at s = record s {
  outbox =
      update (is_open id)
        (λ e. record e { state = OutboxState.in_flight; last_attempt_at = some at }) s.outbox;
}

-- One `UPDATE outbox` of a row that is not confirmed, with its notification.
unfoldable pub update_open : String → (OutboxEntity → OutboxEntity) → SqliteStore → SqliteStore
unfolding notify_outbox outbox_group
update_open id f s =
    notify_outbox (outbox_group id s) (record s { outbox = update (is_open id) f s.outbox })

unfoldable pub mark_rejected : String → String → SqliteStore → SqliteStore
unfolding update_open ◌+ℤ◌
mark_rejected id code = update_open id (λ e. record e {
  state = OutboxState.pending;
  error_code = some code;
  next_attempt_at = none;
  attempt_count = e.attempt_count +ℤ pos 1;
})

unfoldable pub reschedule : String → ℤ → Option String → SqliteStore → SqliteStore
unfolding update_open ◌+ℤ◌
reschedule id next_at code = update_open id (λ e. record e {
  state = OutboxState.pending;
  next_attempt_at = some next_at;
  error_code = code;
  attempt_count = e.attempt_count +ℤ pos 1;
})

unfoldable pub retry_outbox : String → ℤ → SqliteStore → SqliteStore
unfolding update_open
retry_outbox id now =
    update_open id
      (λ e. record e { state = OutboxState.pending; error_code = none; next_attempt_at = some now })

unfoldable pub confirm_entry : String → ℤ → OutboxEntity → OutboxEntity
confirm_entry server_id seq e = record e {
  state = OutboxState.confirmed;
  error_code = none;
  next_attempt_at = none;
  confirmed_message_id = some server_id;
  confirmed_seq = some seq;
}

unfoldable pub tx_confirm_sent : String → String → ℤ → List OutboxEntity → List OutboxEntity
unfolding confirm_entry
tx_confirm_sent id server_id seq = update (has_client_id id) (confirm_entry server_id seq)

unfoldable pub confirm_sent : String → String → ℤ → SqliteStore → SqliteStore
unfolding notify_outbox outbox_group tx_confirm_sent
confirm_sent id server_id seq s =
    notify_outbox (outbox_group id s)
      (record s { outbox = tx_confirm_sent id server_id seq s.outbox })

-- The two statements of `repair`, run when the store is opened.
abbrev pub is_clobbered : OutboxEntity → Bool
is_clobbered e = is_some e.confirmed_seq && not (is_confirmed e.state)

abbrev pub unreadable : Option String → Bool
unreadable none = false
unreadable (some code) = str_eq code "json" || str_eq code "client-message-id-reused"

abbrev pub is_dead : OutboxEntity → Bool
is_dead e = is_pending e.state && (not (is_some e.next_attempt_at) && unreadable e.error_code)

unfoldable pub repair : ℤ → SqliteStore → SqliteStore
repair now s =
    let fixed =
      update is_clobbered
        (λ e. record e { state = OutboxState.confirmed; error_code = none; next_attempt_at = none })
        s.outbox in
    record s { outbox = update is_dead (λ e. record e { next_attempt_at = some now }) fixed }

unfoldable pub insert_command_reply : LocalCommandReplyEntity → SqliteStore → SqliteStore × ℤ
unfolding notify
insert_command_reply r s =
    let id = suc s.last_reply_id in
    (
      notify (StoreChange.command_replies r.group_id)
          (record s { replies = record r { id = some (pos id) } ∷ s.replies; last_reply_id = id }),
      pos id,
    )

insert_reply : LocalCommandReplyEntity → List LocalCommandReplyEntity → List LocalCommandReplyEntity
insert_reply r [] = r ∷ []
insert_reply r (x ∷ xs) =
    if ltb_ℤ r.created_at x.created_at then r ∷ x ∷ xs else x ∷ insert_reply r xs

-- `ORDER BY createdAt ASC, id ASC`: the rows stand with the highest id first.
order_replies : List LocalCommandReplyEntity → List LocalCommandReplyEntity
unfolding insert_reply
order_replies [] = []
order_replies (r ∷ rs) = insert_reply r (order_replies rs)

unfoldable pub command_replies : String → SqliteStore → List LocalCommandReplyEntity
unfolding order_replies
command_replies group_id s = order_replies (select (λ r. str_eq r.group_id group_id) s.replies)

unfoldable pub clear_command_replies : String → SqliteStore → SqliteStore × ℕ
unfolding notify
clear_command_replies group_id s = (
  notify (StoreChange.command_replies group_id)
      (record s { replies = delete (λ r. str_eq r.group_id group_id) s.replies }),
  count (λ r. str_eq r.group_id group_id) s.replies,
)
