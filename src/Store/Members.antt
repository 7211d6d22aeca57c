-- ===== src/Store/Members.antt =====
-- The `members` table of sqlite.rs. A member of a group that has no row breaks the foreign key
-- (`PRAGMA foreign_keys = ON`): the statement fails, and its transaction is rolled back.
use un_tzibbur_bot.Base.{
  String, Bool, true, false, ◌&&◌, List, [], ◌∷◌, pos, ltb_ℤ, any, select, update, delete, length,
  str_eq, if◌then◌else◌,
}
use Prim.Native.Nat.{Ordering}
use Prim.Native.String.{compare}
use un_tzibbur_bot.Models.{Role}
use un_tzibbur_bot.Error.{AppError, Result, ok, err, ◌>>=◌}
use un_tzibbur_bot.Entities.{GroupEntity, MemberEntity, StoreChange}
use un_tzibbur_bot.Store.{SqliteStore, notify, has_group_id, of_group, same_member}

abbrev pub broken_key : AppError
broken_key = AppError.store "FOREIGN KEY constraint failed"

unfoldable pub merge_member : MemberEntity → MemberEntity → MemberEntity
merge_member m old = record old {
  display_name = m.display_name;
  phone_e164 = m.phone_e164;
  role = m.role;
  joined_at = m.joined_at;
}

-- `ON CONFLICT(groupId, userId) DO UPDATE`
unfoldable pub put_member : MemberEntity → List MemberEntity → List MemberEntity
unfolding merge_member
put_member m rows =
    if any (same_member m) rows then update (same_member m) (merge_member m) rows else m ∷ rows

unfoldable pub tx_upsert_member :
    List GroupEntity → MemberEntity → List MemberEntity → Result (List MemberEntity)
unfolding put_member
tx_upsert_member groups m rows =
    if any (has_group_id m.group_id) groups then ok (put_member m rows) else err broken_key

unfoldable pub upsert_member : MemberEntity → SqliteStore → Result SqliteStore
unfolding notify tx_upsert_member
upsert_member m s = do
  rows ← tx_upsert_member s.groups m s.members
  ok (notify (StoreChange.members m.group_id) (record s { members = rows }))

-- `ORDER BY joinedAt ASC, userId ASC`
abbrev joined_before : MemberEntity → MemberEntity → Bool
joined_before a b =
    if ltb_ℤ a.joined_at b.joined_at
    then true
    else if ltb_ℤ b.joined_at a.joined_at
    then false
    else elim (compare a.user_id b.user_id) [ Ordering.gt ↦ false | _ ↦ true ]

insert_member : MemberEntity → List MemberEntity → List MemberEntity
insert_member m [] = m ∷ []
insert_member m (x ∷ xs) = if joined_before m x then m ∷ x ∷ xs else x ∷ insert_member m xs

order_members : List MemberEntity → List MemberEntity
unfolding insert_member
order_members [] = []
order_members (m ∷ ms) = insert_member m (order_members ms)

unfoldable pub members : String → SqliteStore → List MemberEntity
unfolding order_members
members group_id s = order_members (select (of_group group_id) s.members)

abbrev pub is_member : String → String → MemberEntity → Bool
is_member group_id user_id m = str_eq m.group_id group_id && str_eq m.user_id user_id

unfoldable pub delete_member : String → String → SqliteStore → SqliteStore
unfolding notify
delete_member group_id user_id s =
    notify (StoreChange.members group_id)
      (record s { members = delete (is_member group_id user_id) s.members })

unfoldable pub delete_all_members : String → SqliteStore → SqliteStore
unfolding notify
delete_all_members group_id s =
    notify (StoreChange.members group_id)
      (record s { members = delete (of_group group_id) s.members })

unfoldable pub set_role : String → String → Role → SqliteStore → SqliteStore
unfolding notify
set_role group_id user_id role s = notify (StoreChange.members group_id) (record s {
  members = update (is_member group_id user_id) (λ m. record m { role = role }) s.members;
})

unfoldable pub upsert_members :
    List GroupEntity → List MemberEntity → List MemberEntity → Result (List MemberEntity)
unfolding tx_upsert_member
upsert_members groups [] rows = ok rows
upsert_members groups (m ∷ ms) rows = tx_upsert_member groups m rows >>= upsert_members groups ms

unfoldable pub replace_members : String → List MemberEntity → SqliteStore → Result SqliteStore
unfolding notify upsert_members
replace_members group_id ms s = do
  rows ← upsert_members s.groups ms (delete (of_group group_id) s.members)
  ok (
      notify StoreChange.groups (
        notify (StoreChange.members group_id) (record s {
          members = rows;
          groups =
              update (has_group_id group_id) (λ g. record g { member_count = pos (length ms) })
                s.groups;
        })))
