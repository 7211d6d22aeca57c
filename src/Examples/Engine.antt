-- ===== src/Examples/Engine.antt =====
-- The theorems on the sync engine, applied to an engine whose server pushes a batch and refuses
-- everything that it is asked.
use un_tzibbur_bot.Base.{
  ◌+◌, ◌≤◌, ◌≡◌, refl, true, false, none, some, List, [], ◌∷◌, ◌++◌, pos, is_some, any, find,
}
use un_tzibbur_bot.Error.{AppError, ok, err}
use un_tzibbur_bot.Socket.{SyncState, SocketEvent}
use un_tzibbur_bot.Store.{SqliteStore}
use un_tzibbur_bot.Store.Groups
use un_tzibbur_bot.Store.Groups.{top_seq}
use un_tzibbur_bot.Store.Invariant.Tables.{IsValid}
use un_tzibbur_bot.Store.OutboxTable.Confirmed.{IsSent}
use un_tzibbur_bot.Sync.{
  AckVia, Server, SyncEngine, MemberRefreshPolicy, PendingResponse, ignore, call, performed, await,
  awaited, interrupted, others, logged, ◌>>◌, ◌>>=◌,
}
use un_tzibbur_bot.Sync.Apply.{apply_incoming}
use un_tzibbur_bot.Sync.History.{rest_catch_up, nothing_pending}
use un_tzibbur_bot.Sync.Engine.{Wake, mark_read, mute_group}
use un_tzibbur_bot.Sync.Operations.{Operation, run, operate}
use un_tzibbur_bot.Sync.Replay.{run-safe, others_keep_rows}
use un_tzibbur_bot.Sync.Answered.{acks, due_ack, apply_incoming-acks}
use un_tzibbur_bot.Sync.Redelivered.{events, redelivered_quietly}
use un_tzibbur_bot.Sync.Rounds.{pages, EndsTold, rest_catch_up_ends}
use un_tzibbur_bot.Examples.Data.{row, sent_row, holding, offline, stored_message}
use un_tzibbur_bot.Examples.Rows.{new_batch, own_ids, is_sent}

-- A page with one message, of which the server says that there are more.
abbrev page : PendingResponse
page = record nothing_pending {
  messages =
      record {
        group_id = "g";
        messages = stored_message ∷ [];
        delivered_seq = none;
        has_more = true;
      }
      ∷ [];
}

abbrev pub server : Server
server = record {
  now = λ n. pos 100;
  meanwhile = λ n. [];
  get_group = λ n id. err (AppError.not_found none);
  list_all_groups = λ n. err offline;
  list_all_members = λ n id. err offline;
  pending = λ n limit. ok page;
  get_messages_page = λ n id query. err offline;
  get_messages = λ n id query. err offline;
  accepts = λ n. ok tt;
  decoders = record { member = λ j. none; settings = λ j. none };
}

abbrev pub engine : SqliteStore → SyncEngine
engine store = record {
  store = store;
  state = SyncState.idle;
  observed = [];
  self_user_id = some "me";
  member_refresh = MemberRefreshPolicy.everything;
  pending_limit = none;
  task = false;
  requests = 0;
  log = [];
}

-- The engine starts, gets a batch of a known and one of an unknown group, and catches up over REST.
abbrev operations : List Operation
operations =
    Operation.start
    ∷ Operation.event_loop (
        Wake.socket_event SocketEvent.connected
        ∷ Wake.socket_event (SocketEvent.messages "g" (stored_message ∷ []) false)
        ∷ Wake.socket_event (SocketEvent.messages "h" (stored_message ∷ []) false)
        ∷ Wake.stop_noticed
        ∷ [])
    ∷ Operation.rest_catch_up
    ∷ Operation.stop
    ∷ []

-- The user reads and mutes a group.
abbrev quiet_operations : List Operation
quiet_operations = Operation.mute_group "g" true ∷ Operation.mark_read "g" (pos 1) ∷ []

sent-IsValid : IsValid (holding sent_row)
unfolding any
sent-IsValid = record {
  group_ids = (refl, tt);
  message_ids = (refl, tt);
  slots = (refl, tt);
  member_keys = tt;
  member_groups = tt;
  entry_ids = (refl, tt);
}

kept : others_keep_rows (run quiet_operations server (engine (holding sent_row))).0.log ≡ true
unfolding others_keep_rows run operate mark_read mute_group call performed await awaited interrupted
    others logged ignore ◌>>◌ ◌>>=◌
kept = refl

run-safe_example :
    IsValid (run quiet_operations server (engine (holding sent_row))).0.store
    × IsSent "c1" (run quiet_operations server (engine (holding sent_row))).0.store
run-safe_example =
    run-safe server quiet_operations (engine (holding sent_row)) "c1" refl sent-IsValid is_sent kept

apply_incoming-acks_example :
    acks (apply_incoming "h" new_batch AckVia.socket server (engine (holding row))).0
    ≡ due_ack AckVia.socket "h" (top_seq new_batch) ++ acks (engine (holding row))
apply_incoming-acks_example =
    apply_incoming-acks server "h" new_batch AckVia.socket (engine (holding row))

known : is_some (Groups.get_group "g" (holding row)) ≡ true
unfolding Groups.get_group find
known = refl

redelivered_quietly_example :
    let e1 = (apply_incoming "g" new_batch AckVia.socket server (engine (holding row))).0 in
    let e2 = (apply_incoming "g" new_batch AckVia.socket server e1).0 in
    (e2.store ≡ e1.store)
    × (events e2 ≡ events e1)
    × (acks e2 ≡ due_ack AckVia.socket "g" (top_seq new_batch) ++ acks e1)
redelivered_quietly_example =
    redelivered_quietly server "g" new_batch AckVia.socket AckVia.socket (engine (holding row))
      (λ n. refl) known (refl, (refl, tt)) own_ids

rest_catch_up_ends_example :
    (pages (rest_catch_up server (engine (holding row))).0 ≤ pages (engine (holding row)) + 50)
    × EndsTold (rest_catch_up server (engine (holding row)))
rest_catch_up_ends_example = rest_catch_up_ends server (engine (holding row))
