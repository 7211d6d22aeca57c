-- ===== src/Sync.antt =====
-- sync.rs (crates/tzibbur-api/src/sync.rs): `SyncEngine`, which applies what the socket and the REST
-- API deliver to the store. The engine's state has the store, the published state, and a log of all
-- that it did, newest first. An `Action` may fail, as an `async fn` with a `Result` may.
-- The HTTP client and the socket answer the n-th request as the record `Server` says; while one is
-- awaited, the other tasks make the calls `meanwhile n` of the store. The clock is read between two
-- requests.
pub mod Apply
pub mod Events
pub mod History
pub mod Engine
pub mod Kept
pub mod Operations
pub mod Replay
pub mod Filtered
pub mod Acks
pub mod Rounds
pub mod Answered
pub mod Redelivered
use un_tzibbur_bot.Base.{
  ℕ, suc, String, Bool, true, false, not, Option, none, some, List, [], ◌∷◌, ℤ, any, find, delete,
  update, str_eq, ltb, ◌-◌, ◌+◌, if◌then◌else◌,
}
use un_tzibbur_bot.Models.{Role, Permission}
use un_tzibbur_bot.Error.{AppError, Result, ok, err}
use un_tzibbur_bot.Entities.{
  GroupDto, GroupEntity, MessageDto, MessageEntity, MemberDto, MemberEntity,
}
use un_tzibbur_bot.Store.{SqliteStore}
use un_tzibbur_bot.Store.Calls.{Call, perform, perform_all}
use un_tzibbur_bot.Json.{Fields}
use un_tzibbur_bot.Socket.{ClientFrame, SyncState, state_eq, Decoders}

pub data SyncEvent : Type 0 where
  state_changed : SyncState → SyncEvent
  new_messages : (group_id : String) (messages : List MessageEntity) → SyncEvent
  echo_confirmed : (group_id client_message_id server_id : String) (seq : ℤ) → SyncEvent
  group_changed group_deleted members_changed group_joined : (group_id : String) → SyncEvent
  member_added : (group_id : String) (member : MemberEntity) → SyncEvent
  member_removed : (group_id user_id : String) (display_name : Option String) → SyncEvent
  role_changed :
      (group_id user_id : String) (role : Role) (display_name : Option String) → SyncEvent
  caught_up update_required : SyncEvent

pub data MemberRefreshPolicy : Type 0 where
  observed_only everything : MemberRefreshPolicy

pub data AckVia : Type 0 where
  socket rest nothing : AckVia

pub record MessagesQuery : Type 0 where
  pub after_seq : Option ℤ
  pub before_seq : Option ℤ
  pub limit : Option ℕ

pub record MessagesPage : Type 0 where
  pub items : List MessageDto
  pub next_after_seq : Option ℤ
  pub next_before_seq : Option ℤ

pub record GroupMessages : Type 0 where
  pub group_id : String
  pub messages : List MessageDto
  pub delivered_seq : Option ℤ
  pub has_more : Bool

pub record GroupEventDto : Type 0 where
  pub event : String
  pub payload : Fields

pub record PendingResponse : Type 0 where
  pub messages : List GroupMessages
  pub groups : List GroupDto
  pub events : List GroupEventDto
  pub next_cursor : Option String
  pub has_more : Bool

-- The methods of `TzibburClient` that the engine calls.
pub data Request : Type 0 where
  get_group list_all_members leave_group delete_group : (id : String) → Request
  list_all_groups : Request
  pending : (limit : Option ℕ) → Request
  get_messages_page get_messages : (id : String) (query : MessagesQuery) → Request
  ack mark_read : (id : String) (seq : ℤ) → Request

-- What the engine does that others see, and what other tasks do to the store meanwhile.
pub data Effect : Type 0 where
  emitted : SyncEvent → Effect
  called : Call → Effect
  meanwhile : Call → Effect
  asked : Request → Effect
  wrote : ClientFrame → Effect
  poked : Effect
  started stopped reconnected : Effect

pub record Server : Type 0 where
  pub now : ℕ → ℤ
  pub meanwhile : ℕ → List Call
  pub get_group : ℕ → String → Result GroupDto
  pub list_all_groups : ℕ → Result (List GroupDto)
  pub list_all_members : ℕ → String → Result (List MemberDto)
  pub pending : ℕ → Option ℕ → Result PendingResponse
  pub get_messages_page : ℕ → String → MessagesQuery → Result MessagesPage
  pub get_messages : ℕ → String → MessagesQuery → Result (List MessageDto)
  -- `Ok(())` or an error, for the requests and frames without an answer
  pub accepts : ℕ → Result (Unit {0})
  pub decoders : Decoders

-- `MemberObservationRegistry`: the counts of the observed groups.
abbrev pub Registry : Type 0
Registry = List (String × ℕ)

abbrev pub names : String → String × ℕ → Bool
names id (key, n) = str_eq key id

unfoldable pub is_observed : String → Registry → Bool
is_observed id counts = any (names id) counts

-- `retain`
unfoldable pub retain : String → Registry → Registry
retain id counts =
    if is_observed id counts
    then update (names id) (λ entry. (entry.0, suc entry.1)) counts
    else (id, 1) ∷ counts

abbrev released : String × ℕ → String × ℕ
released (key, n) = (key, n - 1)

abbrev is_zero : String → String × ℕ → Bool
is_zero id (key, n) = if str_eq key id then not (ltb 0 n) else false

-- `release`: `saturating_sub`, and the entry is removed at 0.
unfoldable pub release : String → Registry → Registry
release id counts = delete (is_zero id) (update (names id) released counts)

pub record SyncEngine : Type 0 where
  pub store : SqliteStore
  pub state : SyncState
  pub observed : Registry
  pub self_user_id : Option String
  pub member_refresh : MemberRefreshPolicy
  pub pending_limit : Option ℕ
  -- whether `task` holds a handle
  pub task : Bool
  -- the requests that were answered
  pub requests : ℕ
  pub log : List Effect

abbrev pub Action {ℓ} : Type ℓ → Type ℓ
Action T = Server → SyncEngine → SyncEngine × Result T

abbrev pub done {ℓ} : {T : Type ℓ} → T → Action T
done value v e = (e, ok value)

abbrev pub fail {ℓ} : {T : Type ℓ} → AppError → Action T
fail error v e = (e, err error)

-- `?`: the rest runs on the value, and an error is returned.
abbrev pub continue {ℓ ℓ'} :
    {T : Type ℓ} {U : Type ℓ'}
    → (T → Action U)
    → Server
    → SyncEngine
    → Result T
    → SyncEngine × Result U
continue f v e (ok value) = f value v e
continue f v e (err error) = (e, err error)

infixl 5 ◌>>=◌ ◌>>◌
unfoldable pub ◌>>=◌ {ℓ ℓ'} : {T : Type ℓ} {U : Type ℓ'} → Action T → (T → Action U) → Action U
◌>>=◌ m f v e = let (e', r) = m v e in continue f v e' r

unfoldable pub ◌>>◌ {ℓ} : {U : Type ℓ} → Action (Unit {0}) → Action U → Action U
m >> k = m >>= λ _. k

-- A result that the source matches on instead of passing its error on.
abbrev pub attempt {ℓ} : {T : Type ℓ} → Action T → Action (Result T)
attempt m v e = let (e', r) = m v e in (e', ok r)

-- An error that is logged at most.
unfoldable pub ignore {ℓ} : {T : Type ℓ} → Action T → Action (Unit {0})
ignore m v e = ((m v e).0, ok tt)

abbrev pub look {ℓ} : {T : Type ℓ} → (SyncEngine → T) → Action T
look f v e = (e, ok (f e))

unfoldable pub logged : Effect → SyncEngine → SyncEngine
logged what e = record e { log = what ∷ e.log }

unfoldable pub note : Effect → Action (Unit {0})
note what v e = (logged what e, ok tt)

unfoldable pub emit : SyncEvent → Action (Unit {0})
emit ev = note (Effect.emitted ev)

unfoldable pub performed : Call → SyncEngine → SyncEngine
performed c e = record e { store = perform c e.store; log = Effect.called c ∷ e.log }

-- A call of the store that cannot fail.
unfoldable pub call : Call → Action (Unit {0})
call c v e = (performed c e, ok tt)

-- A call that may break a constraint; `run` is what it makes of the store.
unfoldable pub try_call : Call → (SqliteStore → Result SqliteStore) → Action (Unit {0})
try_call c run v e = (performed c e, elim (run e.store) [ ok s ↦ ok tt | err error ↦ err error ])

-- The calls of other tasks, in their order.
unfoldable pub others : List Call → List Effect → List Effect
others [] log = log
others (c ∷ cs) log = others cs (Effect.meanwhile c ∷ log)

-- Other tasks make these calls of the store.
unfoldable pub interrupted : List Call → SyncEngine → SyncEngine
interrupted cs e = record e { store = perform_all cs e.store; log = others cs e.log }

unfoldable pub awaited : Server → Effect → SyncEngine → SyncEngine
awaited v what e =
    interrupted (v.meanwhile e.requests) (record (logged what e) { requests = suc e.requests })

-- A request or a frame is sent, and its answer awaited.
unfoldable pub await {ℓ} : {T : Type ℓ} → Effect → (Server → ℕ → Result T) → Action T
await what answer v e = (awaited v what e, answer v e.requests)

abbrev pub clock : Action ℤ
clock v e = (e, ok (v.now e.requests))

unfoldable pub shown : SyncState → SyncEngine → SyncEngine
shown s e =
    let told = logged (Effect.emitted (SyncEvent.state_changed s)) (record e { state = s }) in
    if state_eq s SyncState.update_required
    then logged (Effect.emitted SyncEvent.update_required) told
    else told

unfoldable pub set_state : SyncState → Action (Unit {0})
set_state s v e = (if state_eq e.state s then e else shown s e, ok tt)
