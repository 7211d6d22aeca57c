-- ===== src/Store.antt =====
-- The SQLite store (crates/tzibbur-api/src/store/sqlite.rs): the state that every method works on.
-- A table is the list of its rows, newest first; `changes` is what was sent to the subscribers,
-- newest first. Each method of `LocalStore` is a function of a child module.
pub mod Groups
pub mod Messages
pub mod Members
pub mod OutboxTable
pub mod Batch
pub mod Wipe
pub mod Calls
pub mod Invariant
use un_tzibbur_bot.Base.{ℕ, String, Bool, ◌&&◌, List, [], ◌∷◌, str_eq, eqb_ℤ}
use un_tzibbur_bot.Entities.{
  GroupEntity, MessageEntity, MemberEntity, OutboxEntity, OutboxState, LocalCommandReplyEntity,
  StoreChange,
}

pub record SqliteStore : Type 0 where
  pub groups : List GroupEntity
  pub messages : List MessageEntity
  pub members : List MemberEntity
  pub outbox : List OutboxEntity
  pub replies : List LocalCommandReplyEntity
  -- the last id that AUTOINCREMENT gave out
  pub last_reply_id : ℕ
  pub changes : List StoreChange

abbrev pub empty_store : SqliteStore
empty_store = record {
  groups = [];
  messages = [];
  members = [];
  outbox = [];
  replies = [];
  last_reply_id = 0;
  changes = [];
}

unfoldable pub notify : StoreChange → SqliteStore → SqliteStore
notify c s = record s { changes = c ∷ s.changes }

-- The keys of the tables.
abbrev pub same_group : GroupEntity → GroupEntity → Bool
same_group a b = str_eq a.id b.id

abbrev pub same_message : MessageEntity → MessageEntity → Bool
same_message a b = str_eq a.id b.id

-- The unique index on (groupId, seq).
abbrev pub same_slot : MessageEntity → MessageEntity → Bool
same_slot a b = str_eq a.group_id b.group_id && eqb_ℤ a.seq b.seq

abbrev pub same_member : MemberEntity → MemberEntity → Bool
same_member a b = str_eq a.group_id b.group_id && str_eq a.user_id b.user_id

abbrev pub same_entry : OutboxEntity → OutboxEntity → Bool
same_entry a b = str_eq a.client_message_id b.client_message_id

-- `WHERE id = ?`
abbrev pub has_group_id : String → GroupEntity → Bool
has_group_id id g = str_eq g.id id

abbrev pub in_group : String → MessageEntity → Bool
in_group group_id m = str_eq m.group_id group_id

abbrev pub of_group : String → MemberEntity → Bool
of_group group_id m = str_eq m.group_id group_id
