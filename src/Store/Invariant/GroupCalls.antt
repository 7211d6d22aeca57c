-- ===== src/Store/Invariant/GroupCalls.antt =====
-- The calls of sqlite.rs on groups and messages, and the invariant.
use un_tzibbur_bot.Base.{
  String, ◌≡◌, refl, Bool, true, List, [], ◌∷◌, update, delete, All, All-imp, Unique, Unique-select,
}
use un_tzibbur_bot.Entities.{GroupEntity, MessageEntity, StoreChange}
use un_tzibbur_bot.Store.{SqliteStore, same_group}
use un_tzibbur_bot.Store.Groups
use un_tzibbur_bot.Store.Messages
use un_tzibbur_bot.Store.Invariant.Tables.{
  IsValid, HasGroup, groups-update, owners-update, tx_upsert_group-Unique, tx_upsert_group-HasGroup,
  upsert_all-Unique, upsert_all-HasGroup, owners-purge, insert_rows-Unique,
}

-- Groups.
pub groups_changed :
    (s : SqliteStore) (gs : List GroupEntity) (c : List StoreChange)
    → Unique same_group gs
    → All (HasGroup gs) s.members
    → IsValid s
    → IsValid (record s { groups = gs; changes = c })
groups_changed s gs c u h v = record {
  group_ids = u;
  message_ids = v.message_ids;
  slots = v.slots;
  member_keys = v.member_keys;
  member_groups = h;
  entry_ids = v.entry_ids;
}

pub groups_updated :
    (p : GroupEntity → Bool) (f : GroupEntity → GroupEntity)
    → ((g : GroupEntity) → (f g).id ≡ g.id)
    → (s : SqliteStore) (c : List StoreChange) → IsValid s
    → IsValid (record s { groups = update p f s.groups; changes = c })
groups_updated p f keep s c v =
    groups_changed s (update p f s.groups) c (groups-update p f keep s.groups v.group_ids)
      (owners-update p f keep s.groups s.members v.member_groups) v

pub upsert_group-Valid :
    (g : GroupEntity) (s : SqliteStore) → IsValid s → IsValid (Groups.upsert_group g s)
upsert_group-Valid g s v =
    unfold Groups.upsert_group in
    groups_changed s (Groups.tx_upsert_group g s.groups) _
      (tx_upsert_group-Unique g s.groups v.group_ids)
      (All-imp (HasGroup s.groups) (HasGroup (Groups.tx_upsert_group g s.groups))
        (λ m. tx_upsert_group-HasGroup g s.groups m.group_id) s.members v.member_groups)
      v

pub reconcile_groups-Valid :
    (gs : List GroupEntity) (s : SqliteStore) → IsValid s → IsValid (Groups.reconcile_groups gs s)
unfolding Groups.reconcile_groups
reconcile_groups-Valid gs s v =
    groups_updated _ (λ g. record g { is_deleted = true }) (λ _. refl)
      (record s { groups = Groups.upsert_all gs s.groups }) _ merged
  where
    merged : IsValid (record s { groups = Groups.upsert_all gs s.groups })
    merged =
        groups_changed s (Groups.upsert_all gs s.groups) s.changes
          (upsert_all-Unique gs s.groups v.group_ids)
          (All-imp (HasGroup s.groups) (HasGroup (Groups.upsert_all gs s.groups))
            (λ m. upsert_all-HasGroup gs s.groups m.group_id) s.members v.member_groups)
          v

pub purge-Valid : (s : SqliteStore) → IsValid s → IsValid (Groups.purge_deleted_groups s).0
unfolding Groups.purge_deleted_groups delete
purge-Valid s v = record {
  group_ids = Unique-select _ _ s.groups v.group_ids;
  message_ids = Unique-select _ _ s.messages v.message_ids;
  slots = Unique-select _ _ s.messages v.slots;
  member_keys = Unique-select _ _ s.members v.member_keys;
  member_groups = owners-purge s.groups s.members v.member_groups;
  entry_ids = Unique-select _ _ s.outbox v.entry_ids;
}

-- Messages.
pub refresh_all-Valid :
    (ids : List String) (rows : List MessageEntity) (s : SqliteStore)
    → IsValid s
    → IsValid (record s { groups = Messages.refresh_all ids rows s.groups })
unfolding Messages.refresh_all
refresh_all-Valid [] rows s v = v
refresh_all-Valid (g ∷ ids) rows s v =
    refresh_all-Valid ids rows _ (groups_updated _ _ (λ _. refl) s s.changes v)

pub notify_messages-Valid :
    (ids : List String) (s : SqliteStore) → IsValid s → IsValid (Messages.notify_messages ids s)
unfolding Messages.notify_messages
notify_messages-Valid [] s v = v
notify_messages-Valid (g ∷ ids) s v =
    notify_messages-Valid ids _ (groups_changed s s.groups _ v.group_ids v.member_groups v)

pub rows_inserted :
    (ms : List MessageEntity) (s : SqliteStore)
    → IsValid s
    → IsValid (record s { messages = (Messages.insert_rows ms (s.messages, 0)).0 })
rows_inserted ms s v =
    let u = insert_rows-Unique ms s.messages 0 (v.message_ids, v.slots) in
    record {
      group_ids = v.group_ids;
      message_ids = u.0;
      slots = u.1;
      member_keys = v.member_keys;
      member_groups = v.member_groups;
      entry_ids = v.entry_ids;
    }

pub insert_messages-Valid :
    (ms : List MessageEntity) (s : SqliteStore)
    → IsValid s
    → IsValid (Messages.insert_messages ms s).0
unfolding Messages.insert_messages
insert_messages-Valid [] s v = v
insert_messages-Valid (m ∷ ms) s v =
    let rows = (Messages.insert_rows (m ∷ ms) (s.messages, 0)).0 in
    let noted =
      notify_messages-Valid (Messages.group_ids (m ∷ ms)) _
        (refresh_all-Valid (Messages.group_ids (m ∷ ms)) rows _ (rows_inserted (m ∷ ms) s v)) in
    groups_changed _ _ _ noted.group_ids noted.member_groups noted
