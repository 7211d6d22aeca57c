-- ===== src/Examples/Data.antt =====
-- The data of the examples: two messages, one row of the outbox, a store that holds it, and a world.
use un_tzibbur_bot.Base.{ℕ, none, some, [], ◌∷◌, pos, true, false}
use un_tzibbur_bot.Error.{AppError, err}
use un_tzibbur_bot.Models.{GroupKind, Role, everyone}
use un_tzibbur_bot.Entities.{GroupEntity, MessageEntity, OutboxEntity, OutboxState, MessageDto}
use un_tzibbur_bot.Reconcile.{ReconcileState}
use un_tzibbur_bot.Store.{SqliteStore, empty_store}
use un_tzibbur_bot.Outbox.{World, CommandResult}

abbrev pub hello : MessageEntity
hello = record {
  id = "m1";
  group_id = "g";
  seq = pos 1;
  sender_id = "u";
  body = "hello";
  client_message_id = none;
  created_at = pos 10;
}

-- The echo of the row below.
abbrev pub echo : MessageEntity
echo = record hello { id = "m2"; seq = pos 2; client_message_id = some "c1" }

abbrev pub known : ReconcileState
known = record { existing_ids = []; existing_seqs = []; unconfirmed_client_message_ids = "c1" ∷ [] }

abbrev pub row : OutboxEntity
row = record {
  client_message_id = "c1";
  group_id = "g";
  body = "hi";
  state = OutboxState.pending;
  error_code = none;
  attempt_count = pos 0;
  next_attempt_at = none;
  last_attempt_at = none;
  created_at = pos 5;
  confirmed_message_id = none;
  confirmed_seq = none;
}

abbrev pub sent_row : OutboxEntity
sent_row = record row {
  state = OutboxState.confirmed;
  confirmed_message_id = some "m2";
  confirmed_seq = some (pos 2);
}

abbrev pub failed_row : OutboxEntity
failed_row = record row { error_code = some "forbidden"; attempt_count = pos 1 }

abbrev pub later_row : OutboxEntity
later_row = record row { next_attempt_at = some (pos 900) }

abbrev pub group : GroupEntity
group = record {
  id = "g";
  name = "Group";
  category = "";
  kind = GroupKind.standard;
  who_can_post = everyone;
  who_can_add_members = everyone;
  created_by = none;
  created_at = pos 1;
  my_role = Role.member;
  member_count = pos 3;
  muted = true;
  last_activity_at = none;
  last_message_preview = none;
  is_deleted = false;
  last_read_seq = pos 0;
}

abbrev pub holding : OutboxEntity → SqliteStore
holding e = record empty_store { groups = group ∷ []; messages = hello ∷ []; outbox = e ∷ [] }

abbrev pub offline : AppError
offline = AppError.network "connection refused" none

abbrev pub stored_message : MessageDto
stored_message = record {
  id = "m2";
  group_id = some "g";
  seq = pos 2;
  sender_id = "me";
  body = "hi";
  client_message_id = some "c1";
  created_at = none;
}

abbrev pub help : CommandResult
help = record { name = "help"; ok = true; code = "help"; params = "{}"; text = "Commands: #add" }

-- The generator draws the upper end of the range.
abbrev pub draw : ℕ → ℕ → ℕ
draw lo hi = hi

abbrev pub world : World
world = record {
  now = pos 100;
  later = pos 200;
  meanwhile = λ s. s;
  send_message = λ _ _ _. err offline;
  gen_range = draw;
  write_json = λ s. some s;
}
