-- ===== src/Outbox.antt =====
-- outbox.rs (crates/tzibbur-api/src/outbox.rs): `OutboxDispatcher`, which sends the rows of the
-- outbox table one at a time. A step reads the clock, marks the oldest due row in flight, awaits
-- the server, and records the reply. While it waits, the other tasks may change the store: `World`
-- says how they do, with the clock before and after, the server's answer to a request, the random
-- delay and the JSON writer, which are not the repository's code.
pub mod Outcome
pub mod Delivery
pub mod Enqueue
use Prim.Native.String
use un_tzibbur_bot.Base.{
  ℕ, zero, suc, ◌+◌, ◌-◌, ◌*◌, ◌/◌, ◌%◌, ◌^◌, String, Bool, true, false, Option, none, some, List,
  [], ◌∷◌, ℤ, pos, negsuc, ◌+ℤ◌, ◌-ℤ◌, leb_ℤ, ltb, ◌==◌, if◌then◌else◌,
}
use un_tzibbur_bot.Error.{AppError, Result, ok, err, code, is_retryable, retry_after}
use un_tzibbur_bot.Entities.{
  OutboxEntity, OutboxState, LocalCommandReplyEntity, MessageDto, message_from_dto, new_outbox,
}
use un_tzibbur_bot.Backoff.{backoff_delay}
use un_tzibbur_bot.Validation.{TextValidation, validate_message_body}
use un_tzibbur_bot.Store.{SqliteStore}
use un_tzibbur_bot.Store.Batch.{store_incoming_batch}
use un_tzibbur_bot.Store.OutboxTable.{
  insert_outbox, delete_outbox, insert_command_reply, confirm_sent, mark_rejected, reschedule,
  mark_in_flight, retry_outbox, next_dispatchable, earliest_next_attempt, stale_ms,
}

pub record CommandResult : Type 0 where
  pub name : String
  pub ok : Bool
  pub code : String
  -- the JSON object, as a text
  pub params : String
  pub text : String

pub data SendOutcome : Type 0 where
  stored : (message : MessageDto) (duplicate : Bool) → SendOutcome
  command : CommandResult → SendOutcome

pub data Step : Type 0 where
  processed idle : Step
  wait_until : ℤ → Step

pub data OutboxEvent : Type 0 where
  confirmed : (client_message_id : String) (message : MessageDto) → OutboxEvent
  command : (client_message_id group_id : String) (result : CommandResult) → OutboxEvent
  rejected : (client_message_id code : String) → OutboxEvent
  rescheduled : (client_message_id : String) (next_at attempt : ℤ) (code : String) → OutboxEvent

-- `MAX_UNDECODABLE_ATTEMPTS`
abbrev pub max_undecodable_attempts : ℤ
max_undecodable_attempts = pos 5

-- `as u32` of an `i64`
unfoldable pub as_u32 : ℤ → ℕ
as_u32 (pos n) = n % 2 ^ 32
as_u32 (negsuc n) = 2 ^ 32 - 1 - n % 2 ^ 32

-- `as i64` of a `u128`
unfoldable pub as_i64 : ℕ → ℤ
as_i64 n = let r = n % 2 ^ 64 in if ltb r (2 ^ 63) then pos r else negsuc (2 ^ 64 - 1 - r)

pub record World : Type 0 where
  pub now : ℤ
  pub later : ℤ
  pub meanwhile : SqliteStore → SqliteStore
  pub send_message : String → String → String → Result SendOutcome
  pub gen_range : ℕ → ℕ → ℕ
  pub write_json : String → Option String

-- The pattern `AppError::Json(_)`
abbrev pub is_json : AppError → Bool
is_json (AppError.json text) = true
is_json _ = false

-- The delay before the next attempt, in milliseconds.
unfoldable pub delay_ms : World → OutboxEntity → Option ℕ → ℕ
unfolding as_u32
delay_ms w row (some seconds) = seconds * 1000
delay_ms w row none = backoff_delay w.gen_range (as_u32 row.attempt_count)

unfoldable pub give_up : OutboxEntity → AppError → SqliteStore → SqliteStore × List OutboxEvent
give_up row e s = (
  mark_rejected row.client_message_id (code e) s,
  OutboxEvent.rejected row.client_message_id (code e) ∷ [],
)

-- The reply did not decode: resent a few times, with no event.
unfoldable pub on_undecodable :
    World → OutboxEntity → AppError → SqliteStore → SqliteStore × List OutboxEvent
unfolding give_up delay_ms as_i64
on_undecodable w row e s =
    if leb_ℤ max_undecodable_attempts row.attempt_count then give_up row e s else (
      reschedule row.client_message_id (w.later +ℤ as_i64 (delay_ms w row none)) (some (code e)) s,
      [],
    )

unfoldable pub on_retryable :
    World → OutboxEntity → AppError → SqliteStore → SqliteStore × List OutboxEvent
unfolding delay_ms as_i64
on_retryable w row e s =
    let next_at = w.later +ℤ as_i64 (delay_ms w row (retry_after e)) in
    (
      reschedule row.client_message_id next_at (some (code e)) s,
      OutboxEvent.rescheduled row.client_message_id next_at (row.attempt_count +ℤ pos 1) (code e)
          ∷ [],
    )

unfoldable pub on_error :
    World → OutboxEntity → AppError → SqliteStore → SqliteStore × List OutboxEvent
unfolding on_undecodable on_retryable give_up
on_error w row e s =
    if is_json e
    then on_undecodable w row e s
    else if is_retryable e
    then on_retryable w row e s
    else give_up row e s

unfoldable pub command_reply : World → OutboxEntity → CommandResult → LocalCommandReplyEntity
command_reply w row result = record {
  id = none;
  group_id = row.group_id;
  command_name = result.name;
  ok = result.ok;
  code = result.code;
  params_json = w.write_json result.params;
  text = result.text;
  created_at = w.later;
}

-- What `step` does with the reply to the request for `row`.
unfoldable pub finish :
    World → OutboxEntity → Result SendOutcome → SqliteStore → SqliteStore × List OutboxEvent
unfolding on_error command_reply
finish w row (ok (SendOutcome.command result)) s = (
  (insert_command_reply (command_reply w row result) (delete_outbox row.client_message_id s)).0,
  OutboxEvent.command row.client_message_id row.group_id result ∷ [],
)
finish w row (ok (SendOutcome.stored message duplicate)) s =
    let entity = message_from_dto w.later message row.group_id in
    let reconciled = (store_incoming_batch row.group_id (entity ∷ []) s).0 in
    (
      confirm_sent row.client_message_id message.id message.seq reconciled,
      OutboxEvent.confirmed row.client_message_id message ∷ [],
    )
finish w row (err e) s = on_error w row e s

unfoldable pub nothing_due : Option ℤ → Step
nothing_due none = Step.idle
nothing_due (some at) = Step.wait_until at

unfoldable pub dispatch :
    World → Option OutboxEntity → SqliteStore → SqliteStore × Step × List OutboxEvent
unfolding finish nothing_due
dispatch w none s = (s, nothing_due (earliest_next_attempt w.now s), [])
dispatch w (some row) s =
    let sent = w.meanwhile (mark_in_flight row.client_message_id w.now s) in
    let reply = w.send_message row.group_id row.client_message_id row.body in
    let done = finish w row reply sent in (done.0, Step.processed, done.1)

unfoldable pub step : World → SqliteStore → SqliteStore × Step × List OutboxEvent
unfolding dispatch
step w s = dispatch w (next_dispatchable w.now (w.now -ℤ stale_ms) s) s

unfoldable pub digit : ℕ → String
digit n =
    if n == 0
    then "0"
    else if n == 1
    then "1"
    else if n == 2
    then "2"
    else if n == 3
    then "3"
    else if n == 4
    then "4"
    else if n == 5
    then "5"
    else if n == 6
    then "6"
    else if n == 7
    then "7"
    else if n == 8
    then "8"
    else "9"

-- `{count}` of a `format!`; a `usize` has at most 20 digits.
unfoldable pub decimal : ℕ → ℕ → String
unfolding digit
decimal zero n = ""
decimal (suc fuel) n =
    let front = decimal fuel (n / 10) in
    if ltb n 10 then digit n else String.◌++◌ front (digit (n % 10))

-- `enqueue`, for the fresh UUID and the clock.
unfoldable pub enqueue_as :
    TextValidation → String → ℤ → String → SqliteStore → SqliteStore × Result OutboxEntity
unfolding decimal
enqueue_as (TextValidation.valid text) uuid now group_id s =
    let row = new_outbox uuid now group_id text in (insert_outbox row s, ok row)
enqueue_as TextValidation.empty uuid now group_id s =
    (s, err (AppError.invalid_input "message body is empty"))
enqueue_as (TextValidation.too_long count max) uuid now group_id s = (
  s,
  err (
      AppError.invalid_input (
        String.◌++◌ "message body has "
          (String.◌++◌ (decimal 20 count) (String.◌++◌ " code points, max " (decimal 20 max))))),
)

unfoldable pub enqueue :
    String → ℤ → String → String → SqliteStore → SqliteStore × Result OutboxEntity
unfolding enqueue_as
enqueue uuid now group_id body s = enqueue_as (validate_message_body body) uuid now group_id s

unfoldable pub retry : String → ℤ → SqliteStore → SqliteStore
retry client_message_id now s = retry_outbox client_message_id now s
