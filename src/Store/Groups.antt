-- ===== src/Store/Groups.antt =====
-- The `groups` table of sqlite.rs.
pub mod Listed
pub mod Unread
use Prim.Native.Nat.{Ordering}
use Prim.Native.String.{compare}
use un_tzibbur_bot.Base.{
  ℕ, String, Bool, true, false, not, ◌&&◌, ◌||◌, Option, none, some, List, [], ◌∷◌, map, ℤ, pos,
  ◌+ℤ◌, leb_ℤ, ltb_ℤ, max_ℤ, any, select, find, update, delete, count, length, unwrap_or, or_else,
  str_eq, if◌then◌else◌,
}
use un_tzibbur_bot.Models.{Role, Permission}
use un_tzibbur_bot.Entities.{
  GroupEntity, MessageEntity, MemberEntity, OutboxEntity, LocalCommandReplyEntity, StoreChange,
}
use un_tzibbur_bot.Reconcile.{raise_max}
use un_tzibbur_bot.Store.{SqliteStore, notify, has_group_id, in_group}

-- `ON CONFLICT(id) DO UPDATE`: the server's fields, with the local columns kept and the row
-- undeleted.
unfoldable pub merge_group : GroupEntity → GroupEntity → GroupEntity
merge_group g old = record g {
  id = old.id;
  created_by = or_else g.created_by old.created_by;
  muted = old.muted;
  last_activity_at = or_else g.last_activity_at old.last_activity_at;
  last_message_preview = or_else g.last_message_preview old.last_message_preview;
  is_deleted = false;
  last_read_seq = max_ℤ old.last_read_seq g.last_read_seq;
}

unfoldable pub tx_upsert_group : GroupEntity → List GroupEntity → List GroupEntity
unfolding merge_group
tx_upsert_group g groups =
    if any (has_group_id g.id) groups
    then update (has_group_id g.id) (merge_group g) groups
    else record g { is_deleted = false } ∷ groups

unfoldable pub upsert_group : GroupEntity → SqliteStore → SqliteStore
unfolding tx_upsert_group notify
upsert_group g s = notify StoreChange.groups (record s { groups = tx_upsert_group g s.groups })

unfoldable pub get_group : String → SqliteStore → Option GroupEntity
get_group id s = find (has_group_id id) s.groups

-- `ORDER BY COALESCE(lastActivityAt, createdAt) DESC, name ASC`
abbrev name_before : String → String → Bool
name_before a b = elim (compare a b) [ Ordering.gt ↦ false | _ ↦ true ]

abbrev recent : GroupEntity → ℤ
recent g = unwrap_or g.last_activity_at g.created_at

abbrev goes_first : GroupEntity → GroupEntity → Bool
goes_first a b =
    if ltb_ℤ (recent b) (recent a)
    then true
    else if ltb_ℤ (recent a) (recent b)
    then false
    else name_before a.name b.name

insert_group : GroupEntity → List GroupEntity → List GroupEntity
insert_group g [] = g ∷ []
insert_group g (x ∷ xs) = if goes_first g x then g ∷ x ∷ xs else x ∷ insert_group g xs

order_groups : List GroupEntity → List GroupEntity
unfolding insert_group
order_groups [] = []
order_groups (g ∷ gs) = insert_group g (order_groups gs)

unfoldable pub groups : SqliteStore → List GroupEntity
unfolding order_groups
groups s = order_groups (select (λ g. not g.is_deleted) s.groups)

pub record GroupWithUnread : Type 0 where
  pub group : GroupEntity
  pub unread_count : ℕ
  pub max_seq : Option ℤ

-- `SELECT MAX(seq)`
unfoldable pub top_seq : List MessageEntity → Option ℤ
top_seq [] = none
top_seq (m ∷ ms) = some (raise_max (top_seq ms) m.seq)

-- `m.seq > g.lastReadSeq AND m.senderId != ?1`
abbrev is_unread : String → GroupEntity → MessageEntity → Bool
is_unread self g m =
    in_group g.id m && (ltb_ℤ g.last_read_seq m.seq && not (str_eq m.sender_id self))

unfoldable pub with_unread : String → SqliteStore → GroupEntity → GroupWithUnread
with_unread self s g = record {
  group = g;
  unread_count = count (is_unread self g) s.messages;
  max_seq = top_seq (select (in_group g.id) s.messages);
}

unfoldable pub groups_with_unread : String → SqliteStore → List GroupWithUnread
unfolding groups with_unread
groups_with_unread self s = map (with_unread self s) (groups s)

-- One `UPDATE groups SET … WHERE id = ?` and its notification.
unfoldable pub update_group : String → (GroupEntity → GroupEntity) → SqliteStore → SqliteStore
unfolding notify
update_group id f s =
    notify StoreChange.groups (record s { groups = update (has_group_id id) f s.groups })

unfoldable pub mark_read : String → ℤ → SqliteStore → SqliteStore
unfolding update_group
mark_read id seq = update_group id (λ g. record g { last_read_seq = max_ℤ g.last_read_seq seq })

unfoldable pub mark_group_deleted : String → SqliteStore → SqliteStore
unfolding update_group
mark_group_deleted id = update_group id (λ g. record g { is_deleted = true })

unfoldable pub delete_rows_except : List String → List GroupEntity → List GroupEntity
delete_rows_except ids =
    update (λ g. not (any (str_eq g.id) ids)) (λ g. record g { is_deleted = true })

-- `UPDATE groups SET isDeleted = 1`
unfoldable pub mark_all_groups_deleted : SqliteStore → SqliteStore
unfolding notify
mark_all_groups_deleted s =
    notify StoreChange.groups
      (record s { groups = update (λ _. true) (λ g. record g { is_deleted = true }) s.groups })

unfoldable pub mark_groups_deleted_except : List String → SqliteStore → SqliteStore
unfolding notify delete_rows_except mark_all_groups_deleted
mark_groups_deleted_except [] s = mark_all_groups_deleted s
mark_groups_deleted_except (id ∷ ids) s =
    notify StoreChange.groups (record s { groups = delete_rows_except (id ∷ ids) s.groups })

unfoldable pub set_muted : String → Bool → SqliteStore → SqliteStore
unfolding update_group
set_muted id muted = update_group id (λ g. record g { muted = muted })

-- `groupId IN (SELECT id FROM groups WHERE isDeleted = 1)`
abbrev pub is_deleted_group : List GroupEntity → String → Bool
is_deleted_group groups id = any (λ g. g.is_deleted && str_eq g.id id) groups

-- The foreign key of `members` cascades. The number of groups deleted is returned.
unfoldable pub purge_deleted_groups : SqliteStore → SqliteStore × ℕ
unfolding notify
purge_deleted_groups s = (
  notify StoreChange.groups (record s {
    groups = delete (λ g. g.is_deleted) s.groups;
    messages = delete (λ m. is_deleted_group s.groups m.group_id) s.messages;
    members = delete (λ m. is_deleted_group s.groups m.group_id) s.members;
    outbox = delete (λ e. is_deleted_group s.groups e.group_id) s.outbox;
    replies = delete (λ r. is_deleted_group s.groups r.group_id) s.replies;
  }),
  count (λ g. g.is_deleted) s.groups,
)

unfoldable pub upsert_all : List GroupEntity → List GroupEntity → List GroupEntity
unfolding tx_upsert_group
upsert_all [] rows = rows
upsert_all (g ∷ gs) rows = upsert_all gs (tx_upsert_group g rows)

-- With no group listed, `id NOT IN (…)` is every row, as the source's own branch says.
unfoldable pub reconcile_groups : List GroupEntity → SqliteStore → SqliteStore
unfolding notify upsert_all delete_rows_except
reconcile_groups listed s =
    notify StoreChange.groups (record s {
      groups = delete_rows_except (map (λ g. g.id) listed) (upsert_all listed s.groups);
    })

unfoldable pub apply_group_updated :
    String → Option String → Option Permission → Option Permission → SqliteStore → SqliteStore
unfolding update_group
apply_group_updated id name who_can_post who_can_add_members = update_group id (λ g. record g {
  name = unwrap_or name g.name;
  who_can_post = unwrap_or who_can_post g.who_can_post;
  who_can_add_members = unwrap_or who_can_add_members g.who_can_add_members;
})

unfoldable pub set_group_member_count : String → ℤ → SqliteStore → SqliteStore
unfolding update_group ◌+ℤ◌
set_group_member_count id delta =
    update_group id (λ g. record g { member_count = max_ℤ (pos 0) (g.member_count +ℤ delta) })

unfoldable pub set_my_role : String → Role → SqliteStore → SqliteStore
unfolding update_group
set_my_role id role = update_group id (λ g. record g { my_role = role })
