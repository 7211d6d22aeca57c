-- ===== src/Store/Invariant/MemberCalls.antt =====
-- The calls of sqlite.rs on members, and the invariant.
use un_tzibbur_bot.Base.{
  String, ◌≡◌, refl, Bool, not, List, ◌∷◌, pos, length, update, delete, All-select, Unique-select,
  Unique-update,
}
use un_tzibbur_bot.Models.{Role}
use un_tzibbur_bot.Error.{ok, bind-eq-ok}
use un_tzibbur_bot.Entities.{GroupEntity, MemberEntity, StoreChange}
use un_tzibbur_bot.Store.{SqliteStore, same_member, has_group_id, of_group}
use un_tzibbur_bot.Store.Members
use un_tzibbur_bot.Store.Invariant.Tables.{
  IsValid, HasGroup, tx_upsert_member-Valid, upsert_members-Valid, All-update_members, MembersValid,
}
use un_tzibbur_bot.Store.Invariant.GroupCalls.{groups_updated}

-- Members.
pub members_changed :
    (s : SqliteStore) (rows : List MemberEntity) (c : List StoreChange)
    → MembersValid s.groups rows
    → IsValid s
    → IsValid (record s { members = rows; changes = c })
members_changed s rows c m v = record {
  group_ids = v.group_ids;
  message_ids = v.message_ids;
  slots = v.slots;
  member_keys = m.0;
  member_groups = m.1;
  entry_ids = v.entry_ids;
}

pub members_kept :
    (p : MemberEntity → Bool) (s : SqliteStore)
    → IsValid s
    → MembersValid s.groups (delete p s.members)
unfolding delete
members_kept p s v = (
  Unique-select same_member (λ m. not (p m)) s.members v.member_keys,
  All-select (HasGroup s.groups) (λ m. not (p m)) s.members v.member_groups,
)

pub upsert_member-Valid :
    (m : MemberEntity) (s s' : SqliteStore)
    → Members.upsert_member m s ≡ ok s'
    → IsValid s
    → IsValid s'
unfolding Members.upsert_member
upsert_member-Valid m s s' h v =
    let step = bind-eq-ok (Members.tx_upsert_member s.groups m s.members) _ h in
    let done : record s { members = step.0; changes = StoreChange.members m.group_id ∷ s.changes }
        ≡ s' =
      cc (step.2) in
    rw (← done) (
      members_changed s step.0 _
        (tx_upsert_member-Valid s.groups m s.members step.0 step.1 (v.member_keys, v.member_groups))
        v)

pub replace_members-Valid :
    (g : String) (ms : List MemberEntity) (s s' : SqliteStore)
    → Members.replace_members g ms s ≡ ok s'
    → IsValid s
    → IsValid s'
unfolding Members.replace_members
replace_members-Valid g ms s s' h v =
    let step =
      bind-eq-ok (Members.upsert_members s.groups ms (delete (of_group g) s.members)) _ h in
    let put = record s {
      members = step.0;
      changes = StoreChange.groups ∷ StoreChange.members g ∷ s.changes;
    } in
    let counted = λ (x : GroupEntity). record x { member_count = pos (length ms) } in
    let done : record put { groups = update (has_group_id g) counted s.groups } ≡ s' =
      cc (step.2) in
    rw (← done) (
      groups_updated (has_group_id g) counted (λ _. refl) put _
        (members_changed s step.0 _
          (upsert_members-Valid s.groups ms _ step.0 step.1 (members_kept (of_group g) s v)) v))

pub set_role-Valid :
    (g u : String) (role : Role) (s : SqliteStore)
    → IsValid s
    → IsValid (Members.set_role g u role s)
unfolding Members.set_role
set_role-Valid g u role s v =
    members_changed s _ _
      (
        Unique-update same_member _ _ (λ _ _. refl) (λ _ _. refl) s.members v.member_keys,
        All-update_members s.groups _ _ (λ _. refl) s.members v.member_groups,
      )
      v
