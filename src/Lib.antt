-- ===== src/Lib.antt =====
-- UnTzibburBot: the client library `tzibbur-api` of a group messenger, which the Telegram bridge in
-- crates/bridge is built on. The development models the local side of the library, where messages
-- are received, kept, ordered, confirmed and sent again, its connection to the server, and two parts
-- of the bridge: the rendering of a message and the limit on sign-in attempts.
--
-- The parts and the files that model them. The sources lie in crates/tzibbur-api/src,
-- but for Format and RateLimit.
--   Base           lists, signed integers and tables, shared by all modules
--   Json           JSON values and their maps, as far as ws.rs reads them
--   Models         models.rs: group kinds, roles and permissions (`GroupKind::parse`, `allows`)
--   Entities       store/mod.rs: the rows of the tables and what they are made of (`from_dto`,
--                  `OutboxEntity::new`, `outgoing_state`)
--   Error          error.rs: `AppError` with its status, code and retry policy, and `from_status`; in
--                  Problem `from_problem`
--   Backoff        backoff.rs: `backoff_base` and `backoff_delay`
--   Validation     validation.rs: limits of texts, phone numbers and one-time codes
--   Reconcile      reconcile.rs: `reconcile`, which decides what a batch of messages changes
--   Store          store/sqlite.rs: the state `SqliteStore`, a list of rows for each table, and in
--                  child modules its methods: Groups, Messages, Members, OutboxTable (with the
--                  replies), Batch (`store_incoming_batch`), Wipe (redaction, `clear_all`). Calls
--                  gathers the methods that change the store, as the trait `LocalStore` does.
--   Outbox         outbox.rs: `OutboxDispatcher`, with `enqueue`, `retry` and `step`
--   Socket         ws.rs: `GroupEvent::parse`, in Frames `decode_frame` and `handle_frame`, and in
--                  Connection the task `run_loop` with `start` and `stop`
--   Sync           sync.rs: the state `SyncEngine`; Apply has `apply_incoming` and the refreshes,
--                  Events `apply_group_event`, History the catch-ups and the loading of messages,
--                  and Engine the life cycle, the event loop and the user's actions. Operations
--                  gathers all that the engine may be asked to do.
--   Http           http.rs: `send` with `map_error`, and the methods that follow cursors
--   Session        session.rs: `FileSessionStore` and `MemorySessionStore`, and in Manager the
--                  `SessionManager`, which holds the engine of Sync
--   Format         crates/bridge/src/bridge/format.rs: `escape_html`, `split_name_prefix`,
--                  `render_inbound` and `chunk`
--   RateLimit      crates/bridge/src/app.rs: `allow_auth`
--   Examples       concrete data, the theorems applied to it, and tests
--
-- How they interact: the socket decodes frames and emits events; the engine takes them, and the
-- pages that it asks for over REST, and gives each batch of messages to `store_incoming_batch`, which
-- asks the tables what it has (`gather`), calls `reconcile`, inserts, and confirms the rows of the
-- outbox that the batch echoes. The engine then acknowledges the batch and tells the consumers. The
-- dispatcher's `step` picks the oldest due row, marks it in flight, sends it, and writes the outcome
-- to the row.
--
-- Conventions. A method that locks the connection and runs SQL is a function from the store to the
-- store, and the value that it returns; `notify` is recorded in the field `changes`. A method that
-- can break a constraint (the foreign key of `members`) gives a `Result`; other failures of SQLite
-- are not modelled. The clock, fresh UUIDs and random draws are arguments. An `i64` is an integer
-- without bound, but the casts `as u32` and `as i64` of the dispatcher wrap as they do in Rust. A
-- hash set is a list, and where the order of one is walked the order is that of first occurrence.
-- A step of the dispatcher awaits the server in its middle: `World.meanwhile` is what all the other
-- tasks do to the store until the reply is there, and no theorem on the reply restricts it. An
-- operation of the engine is an `Action`, a function of a `Server` and the engine's state. `Server`
-- has an arbitrary answer to the n-th request, and the calls that the other tasks make of the store
-- while it is awaited. The log of the state records, newest first, all that the engine did: requests,
-- frames, events and calls of the store, with the other tasks' calls where they fall. The socket's
-- task is a step function on its state; an `Input` is what its `select!` finds ready.
--
-- Bounds and fuel. Every loop over data is structural recursion on its list. The rounds of
-- `rest_catch_up` (50) and `catch_up_group` (1000) are the source's own bounds. The loops that follow
-- cursors have no bound in the source: they run on fuel, one unit for each page, and as much as the
-- server has pages is enough. `decimal`, which prints the numbers of an error message, runs on 20,
-- the number of digits of the largest `usize`.
--
-- Not modelled: SQLite's file handling and schema versions, the endpoints of the HTTP client that only
-- name a path and a body, its transport, the decoders that serde derives (they are parameters of
-- `parse`, `decode_frame`, `handle_frame` and `map_error`), the encoding of frames, a `start` of the
-- socket while a `stop` is under way, operations of one session manager that overlap, the framing of
-- the cipher, `spawn_sync_lifecycle`, `sender_label` and the rest of the bridge. The loop around the dispatcher's `step` (`start` and `stop`) is not either.
pub mod Base
pub mod Models
pub mod Backoff
pub mod Entities
pub mod Reconcile
pub mod Error
pub mod Store
pub mod Validation
pub mod Outbox
pub mod Format
pub mod RateLimit
mod Examples
pub mod Json
pub mod Socket
pub mod Sync
pub mod Session
pub mod Http
