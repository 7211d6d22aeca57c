-- ===== src/Sync/Apply.antt =====
-- Applying data, and the fetches it needs (`apply_incoming`, `ack_delivered`, `refresh_group`,
-- `refresh_members` and `reconcile_groups` of sync.rs).
use un_tzibbur_bot.Base.{
  String, Bool, true, false, Option, none, some, List, [], ◌∷◌, map, ℤ, pos, leb_ℤ, select, is_some,
  if◌then◌else◌,
}
use un_tzibbur_bot.Error.{AppError, Result, ok, err}
use un_tzibbur_bot.Entities.{
  GroupDto, GroupEntity, group_from_dto, MessageDto, MessageEntity, message_from_dto, MemberDto,
  MemberEntity, member_from_dto,
}
use un_tzibbur_bot.Reconcile.{EchoConfirmation, ReconcilePlan, has_id}
use un_tzibbur_bot.Store.Groups
use un_tzibbur_bot.Store.Members
use un_tzibbur_bot.Store.Batch
use un_tzibbur_bot.Store.Batch.{StoreBatchOutcome, no_outcome}
use un_tzibbur_bot.Store.Calls.{Call}
use un_tzibbur_bot.Socket.{ClientFrame}
use un_tzibbur_bot.Sync.{
  SyncEvent, AckVia, Request, Effect, Action, done, fail, ◌>>=◌, ◌>>◌, attempt, ignore, look, emit,
  call, try_call, await, clock,
}

unfoldable pub get_group : String → Action GroupDto
get_group id = await (Effect.asked (Request.get_group id)) (λ v n. v.get_group n id)

abbrev pub send_ack : AckVia → String → ℤ → Action (Unit {0})
send_ack AckVia.socket group_id seq =
    await (Effect.wrote (ClientFrame.ack group_id seq)) (λ v n. v.accepts n)
send_ack AckVia.rest group_id seq =
    await (Effect.asked (Request.ack group_id seq)) (λ v n. v.accepts n)
send_ack AckVia.nothing group_id seq = done tt

-- An error of the acknowledgement is logged only.
unfoldable pub ack_delivered : String → ℤ → AckVia → Action (Unit {0})
ack_delivered group_id seq via =
    if leb_ℤ seq (pos 0) then done tt else ignore (send_ack via group_id seq)

-- `batch.iter().map(|m| m.seq).max()`, acknowledged if there is one.
unfoldable pub ack_last : String → Option ℤ → AckVia → Action (Unit {0})
ack_last group_id none via = done tt
ack_last group_id (some seq) via = ack_delivered group_id seq via

unfoldable pub emit_echoes : String → List EchoConfirmation → Action (Unit {0})
emit_echoes group_id [] = done tt
emit_echoes group_id (x ∷ xs) = do
  emit (SyncEvent.echo_confirmed group_id x.client_message_id x.server_id x.seq)
  emit_echoes group_id xs

abbrev pub new_messages : ReconcilePlan → List MessageEntity
new_messages plan = select (λ m. has_id plan.new_message_ids m.id) plan.to_insert

abbrev pub is_nil {ℓ} : {A : Type ℓ} → List A → Bool
is_nil [] = true
is_nil (x ∷ xs) = false

unfoldable pub emit_new : String → ReconcilePlan → Action (Unit {0})
emit_new group_id plan =
    if is_nil plan.new_message_ids
    then done tt
    else emit (SyncEvent.new_messages group_id (new_messages plan))

unfoldable pub store_batch : String → List MessageEntity → Action StoreBatchOutcome
store_batch group_id batch = do
  outcome ← look (λ e. (Batch.store_incoming_batch group_id batch e.store).1)
  call (Call.store_incoming_batch group_id batch)
  done outcome

-- The events of a batch that was stored.
unfoldable pub announce : String → StoreBatchOutcome → Action StoreBatchOutcome
announce group_id outcome = do
  emit_echoes group_id outcome.plan.echo_confirmations
  emit_new group_id outcome.plan
  done outcome

-- `apply_incoming` from the store's transaction on.
unfoldable pub store_and_ack : String → List MessageEntity → AckVia → Action StoreBatchOutcome
store_and_ack group_id batch via = do
  outcome ← store_batch group_id batch
  ack_last group_id (Groups.top_seq batch) via
  announce group_id outcome

-- We are no member of the group: a socket batch must be answered all the same.
unfoldable pub drop_and_ack : String → Option ℤ → AckVia → Action StoreBatchOutcome
drop_and_ack group_id last via = do
  call (Call.mark_group_deleted group_id)
  ack_last group_id last via
  done no_outcome

-- The group is unknown, and was asked for.
unfoldable pub on_fetched :
    String → List MessageEntity → AckVia → Result GroupDto → Action StoreBatchOutcome
on_fetched group_id batch via (ok dto) = do
  now ← clock
  call (Call.upsert_group (group_from_dto now dto))
  store_and_ack group_id batch via
on_fetched group_id batch via (err (AppError.not_found _)) =
    drop_and_ack group_id (Groups.top_seq batch) via
on_fetched group_id batch via (err _) = store_and_ack group_id batch via

unfoldable pub apply_incoming : String → List MessageEntity → AckVia → Action StoreBatchOutcome
apply_incoming group_id batch via = do
  group ← look (λ e. Groups.get_group group_id e.store)
  if is_some group
      then store_and_ack group_id batch via
      else do fetched ← attempt (get_group group_id); on_fetched group_id batch via fetched

-- `MessageEntity::from_dto` of a list
unfoldable pub entities : String → List MessageDto → Action (List MessageEntity)
entities group_id ms = do now ← clock; done (map (λ m. message_from_dto now m group_id) ms)

-- The group is gone: it is marked, and the consumers are told.
unfoldable pub drop_group : String → Action (Unit {0})
drop_group group_id = do
  call (Call.mark_group_deleted group_id)
  emit (SyncEvent.group_deleted group_id)

unfoldable pub on_group : String → Result GroupDto → Action (Option GroupEntity)
on_group group_id (ok dto) = do
  now ← clock
  call (Call.upsert_group (group_from_dto now dto))
  done (some (group_from_dto now dto))
on_group group_id (err (AppError.not_found _)) = do drop_group group_id; done none
on_group group_id (err error) = fail error

unfoldable pub refresh_group : String → Action (Option GroupEntity)
refresh_group group_id = do fetched ← attempt (get_group group_id); on_group group_id fetched

unfoldable pub list_all_members : String → Action (List MemberDto)
list_all_members id =
    await (Effect.asked (Request.list_all_members id)) (λ v n. v.list_all_members n id)

unfoldable pub replace_members : String → List MemberEntity → Action (Unit {0})
replace_members group_id ms =
    try_call (Call.replace_members group_id ms) (Members.replace_members group_id ms)

unfoldable pub on_members : String → Result (List MemberDto) → Action (List MemberEntity)
on_members group_id (ok dtos) = do
  now ← clock
  let ms = map (λ m. member_from_dto now m group_id) dtos
  replace_members group_id ms
  emit (SyncEvent.members_changed group_id)
  done ms
on_members group_id (err (AppError.not_found _)) = do drop_group group_id; done []
on_members group_id (err error) = fail error

unfoldable pub refresh_members : String → Action (List MemberEntity)
refresh_members group_id = do
  fetched ← attempt (list_all_members group_id)
  on_members group_id fetched

unfoldable pub list_all_groups : Action (List GroupDto)
list_all_groups = await (Effect.asked Request.list_all_groups) (λ v n. v.list_all_groups n)

unfoldable pub reconcile_groups : Action (List GroupDto)
reconcile_groups = do
  groups ← list_all_groups
  now ← clock
  call (Call.reconcile_groups (map (group_from_dto now) groups))
  done groups
