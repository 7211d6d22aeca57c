-- ===== src/Store/Wipe.antt =====
-- Redaction and the session wipe of sqlite.rs.
pub mod Redaction
use un_tzibbur_bot.Base.{ℕ, String, Bool, not, ◌&&◌, none, [], ℤ, leb_ℤ, update, count, str_eq}
use un_tzibbur_bot.Entities.{MessageEntity, OutboxEntity, StoreChange}
use un_tzibbur_bot.Store.{SqliteStore, notify, has_group_id, in_group}
use un_tzibbur_bot.Store.OutboxTable.{is_confirmed}

-- `groupId = ?1 AND seq <= ?2 AND body != ''`
abbrev pub is_readable : String → ℤ → MessageEntity → Bool
is_readable group_id up_to_seq m =
    in_group group_id m && (leb_ℤ m.seq up_to_seq && not (str_eq m.body ""))

unfoldable pub redact_messages : String → ℤ → SqliteStore → SqliteStore × ℕ
redact_messages group_id up_to_seq s = (
  record s {
    messages = update (is_readable group_id up_to_seq) (λ m. record m { body = "" }) s.messages;
    groups =
        update (has_group_id group_id) (λ g. record g { last_message_preview = none }) s.groups;
  },
  count (is_readable group_id up_to_seq) s.messages,
)

abbrev pub is_delivered : OutboxEntity → Bool
is_delivered e = is_confirmed e.state && not (str_eq e.body "")

unfoldable pub redact_confirmed_outbox : SqliteStore → SqliteStore × ℕ
redact_confirmed_outbox s = (
  record s { outbox = update is_delivered (λ e. record e { body = "" }) s.outbox },
  count is_delivered s.outbox,
)

-- The counter of AUTOINCREMENT is kept by SQLite in a table of its own.
unfoldable pub clear_all : SqliteStore → SqliteStore
unfolding notify
clear_all s =
    notify StoreChange.cleared
      (record s { groups = []; messages = []; members = []; outbox = []; replies = [] })
