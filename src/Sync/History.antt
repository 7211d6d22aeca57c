-- ===== src/Sync/History.antt =====
-- The REST-driven part of sync.rs: `rest_catch_up`, `catch_up_group`, and the loading of messages.
use un_tzibbur_bot.Base.{
  ℕ, zero, suc, ◌+◌, String, Bool, false, not, ◌&&◌, ◌||◌, Option, none, some, List, [], ◌∷◌, ◌++◌,
  ℤ, any, is_some, if◌then◌else◌,
}
use un_tzibbur_bot.Error.{AppError, Result, ok, err}
use un_tzibbur_bot.Entities.{GroupDto, group_from_dto, MessageDto}
use un_tzibbur_bot.Store.Groups
use un_tzibbur_bot.Store.Messages
use un_tzibbur_bot.Store.Batch.{StoreBatchOutcome, no_outcome}
use un_tzibbur_bot.Store.Calls.{Call}
use un_tzibbur_bot.Socket.{parse}
use un_tzibbur_bot.Sync.{
  SyncEvent, AckVia, Request, Effect, Action, done, fail, ◌>>=◌, ◌>>◌, attempt, look, emit, call,
  await, clock, MessagesQuery, MessagesPage, GroupMessages, GroupEventDto, PendingResponse,
}
use un_tzibbur_bot.Sync.Apply.{apply_incoming, entities, is_nil}
use un_tzibbur_bot.Sync.Events.{apply_group_event}

abbrev pub nothing_pending : PendingResponse
nothing_pending = record {
  messages = [];
  groups = [];
  events = [];
  next_cursor = none;
  has_more = false;
}

unfoldable pub ask_pending : Action PendingResponse
ask_pending = do
  limit ← look (λ e. e.pending_limit)
  await (Effect.asked (Request.pending limit)) (λ v n. v.pending n limit)

unfoldable pub upsert_groups : List GroupDto → Action (Unit {0})
upsert_groups [] = done tt
upsert_groups (g ∷ gs) = do
  now ← clock
  call (Call.upsert_group (group_from_dto now g))
  upsert_groups gs

unfoldable pub apply_buckets : List GroupMessages → Action (Unit {0})
apply_buckets [] = done tt
apply_buckets (b ∷ bs) = do
  batch ← entities b.group_id b.messages
  _ ← apply_incoming b.group_id batch AckVia.rest
  apply_buckets bs

unfoldable pub parse_event : GroupEventDto → Action (Unit {0})
parse_event ev v e = apply_group_event (parse v.decoders ev.event ev.payload) v e

unfoldable pub apply_events : List GroupEventDto → Action (Unit {0})
apply_events [] = done tt
apply_events (ev ∷ evs) = do parse_event ev; apply_events evs

unfoldable pub apply_page : PendingResponse → Action (Unit {0})
apply_page page = do
  upsert_groups page.groups
  apply_buckets page.messages
  apply_events page.events

-- Whether to ask for another page.
unfoldable pub has_more : PendingResponse → Bool
has_more page =
    any (λ b. b.has_more && not (is_nil b.messages)) page.messages
    || (page.has_more && is_some page.next_cursor)

unfoldable pub extend : PendingResponse → PendingResponse → PendingResponse
extend total page = record total {
  messages = total.messages ++ page.messages;
  groups = total.groups ++ page.groups;
  events = total.events ++ page.events;
}

-- The loop, with the number of rounds that are left.
unfoldable pub catch_up_rounds : ℕ → PendingResponse → Action PendingResponse
catch_up_rounds zero total = done total
catch_up_rounds (suc rounds) total = do
  page ← ask_pending
  apply_page page
  let rest = catch_up_rounds rounds (extend total page)
  if has_more page then rest else done (extend total page)

abbrev pub max_rounds : ℕ
max_rounds = 50

unfoldable pub rest_catch_up : Action PendingResponse
rest_catch_up = do
  total ← catch_up_rounds max_rounds nothing_pending
  emit SyncEvent.caught_up
  done total

unfoldable pub get_messages_page : String → MessagesQuery → Action MessagesPage
get_messages_page id query =
    await (Effect.asked (Request.get_messages_page id query))
      (λ v n. v.get_messages_page n id query)

-- What follows a page that was stored: `go` asks for the next one.
abbrev pub next_page : Option ℤ → Bool → ℕ → (Option ℤ → ℕ → Action ℕ) → Action ℕ
next_page none newest stored go = done stored
next_page (some next) newest stored go = if newest then go (some next) stored else done stored

unfoldable pub on_items :
    String → MessagesPage → List MessageDto → ℕ → (Option ℤ → ℕ → Action ℕ) → Action ℕ
on_items group_id page [] stored go = done stored
on_items group_id page (m ∷ ms) stored go = do
  batch ← entities group_id (m ∷ ms)
  outcome ← apply_incoming group_id batch AckVia.nothing
  next_page page.next_after_seq (is_some (Groups.top_seq batch)) (stored + outcome.inserted) go

unfoldable pub on_page : String → ℕ → (Option ℤ → ℕ → Action ℕ) → Result MessagesPage → Action ℕ
on_page group_id stored go (ok page) = on_items group_id page page.items stored go
on_page group_id stored go (err (AppError.not_found _)) = do
  call (Call.mark_group_deleted group_id)
  done stored
on_page group_id stored go (err error) = fail error

unfoldable pub history_rounds : String → ℕ → Option ℤ → ℕ → Action ℕ
history_rounds group_id zero after stored = done stored
history_rounds group_id (suc rounds) after stored = do
  r ← attempt (
      get_messages_page group_id
        (record { after_seq = after; before_seq = none; limit = some 100 }))
  on_page group_id stored (history_rounds group_id rounds) r

abbrev pub max_history_rounds : ℕ
max_history_rounds = 1000

unfoldable pub catch_up_group : String → Action ℕ
catch_up_group group_id = do
  after ← look (λ e. Messages.max_seq group_id e.store)
  history_rounds group_id max_history_rounds after 0

unfoldable pub get_messages : String → MessagesQuery → Action (List MessageDto)
get_messages id query =
    await (Effect.asked (Request.get_messages id query)) (λ v n. v.get_messages n id query)

unfoldable pub on_latest : String → Result (List MessageDto) → Action StoreBatchOutcome
on_latest group_id (ok ms) = do
  batch ← entities group_id ms
  apply_incoming group_id batch AckVia.nothing
on_latest group_id (err (AppError.not_found _)) = do
  call (Call.mark_group_deleted group_id)
  done no_outcome
on_latest group_id (err error) = fail error

unfoldable pub load_latest_messages : String → ℕ → Action StoreBatchOutcome
load_latest_messages group_id limit = do
  after ← look (λ e. Messages.max_seq group_id e.store)
  r ←
      attempt (
        get_messages group_id (record { after_seq = after; before_seq = none; limit = some limit }))
  on_latest group_id r

unfoldable pub load_older_messages : String → ℕ → Action ℕ
load_older_messages group_id limit = do
  before ← look (λ e. Messages.min_seq group_id e.store)
  ms ← get_messages group_id (record { after_seq = none; before_seq = before; limit = some limit })
  batch ← entities group_id ms
  stored ← look (λ e. (Messages.insert_messages batch e.store).1)
  call (Call.insert_messages batch)
  done stored
