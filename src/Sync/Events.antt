-- ===== src/Sync/Events.antt =====
-- The group events of sync.rs (`apply_group_event`).
use mathlib.Core.Option
use un_tzibbur_bot.Base.{
  String, Bool, true, false, Option, none, some, pos, negsuc, find, str_eq, if◌then◌else◌,
}
use un_tzibbur_bot.Models.{Role}
use un_tzibbur_bot.Entities.{GroupEntity, MemberDto, MemberEntity, member_from_dto}
use un_tzibbur_bot.Store.Members
use un_tzibbur_bot.Store.Calls.{Call}
use un_tzibbur_bot.Socket.{GroupEvent}
use un_tzibbur_bot.Sync.{
  SyncEvent, MemberRefreshPolicy, SyncEngine, Action, done, ◌>>=◌, ◌>>◌, ignore, look, emit, call,
  try_call, clock, is_observed,
}
use un_tzibbur_bot.Sync.Apply.{refresh_group, refresh_members, drop_group}

-- `self.self_user_id().as_deref() == Some(user_id)`
abbrev pub is_self : String → Option String → Bool
is_self user_id none = false
is_self user_id (some self) = str_eq self user_id

abbrev pub wants_refresh : String → MemberRefreshPolicy → SyncEngine → Bool
wants_refresh group_id MemberRefreshPolicy.everything e = true
wants_refresh group_id MemberRefreshPolicy.observed_only e = is_observed group_id e.observed

-- We were added ourselves.
unfoldable pub on_refreshed : String → Option GroupEntity → Action (Unit {0})
on_refreshed group_id none = done tt
on_refreshed group_id (some g) = do
  ignore (refresh_members group_id)
  emit (SyncEvent.group_joined group_id)

unfoldable pub self_added : String → Action (Unit {0})
self_added group_id = do group ← refresh_group group_id; on_refreshed group_id group

unfoldable pub upsert_member : String → Option MemberDto → Action (Unit {0})
upsert_member group_id none = done tt
upsert_member group_id (some dto) = do
  now ← clock
  let m = member_from_dto now dto group_id
  try_call (Call.upsert_member m) (Members.upsert_member m)

-- The member's cached row.
unfoldable pub cached : String → String → SyncEngine → Option MemberEntity
cached group_id user_id e = find (λ m. str_eq m.user_id user_id) (Members.members group_id e.store)

abbrev role_or_default : Option Role → Role
role_or_default none = Role.member
role_or_default (some role) = role

-- `entity.unwrap_or_else(…)`
unfoldable pub member_or_new :
    String → String → Option Role → Option MemberEntity → Action MemberEntity
member_or_new group_id user_id role (some m) = done m
member_or_new group_id user_id role none = do
  now ← clock
  done (record {
    group_id = group_id;
    user_id = user_id;
    display_name = "";
    phone_e164 = none;
    role = role_or_default role;
    joined_at = now;
  })

unfoldable pub refresh_if : Bool → String → Action (Unit {0})
refresh_if false group_id = done tt
refresh_if true group_id = ignore (refresh_members group_id)

unfoldable pub other_added : String → String → Option Role → Option MemberDto → Action (Unit {0})
other_added group_id user_id role member = do
  refresh ← look (λ e. wants_refresh group_id e.member_refresh e)
  upsert_member group_id member
  call (Call.set_group_member_count group_id (pos 1))
  refresh_if refresh group_id
  entity ← look (cached group_id user_id)
  m ← member_or_new group_id user_id role entity
  emit (SyncEvent.member_added group_id m)
  emit (SyncEvent.members_changed group_id)

unfoldable pub member_removed : String → String → Action (Unit {0})
member_removed group_id user_id = do
  entity ← look (cached group_id user_id)
  emit (SyncEvent.member_removed group_id user_id (Option.map (λ m. m.display_name) entity))
  call (Call.delete_member group_id user_id)
  call (Call.set_group_member_count group_id (negsuc 0))
  self ← look (λ e. is_self user_id e.self_user_id)
  if self then drop_group group_id else done tt
  emit (SyncEvent.members_changed group_id)

unfoldable pub my_role_changed : String → Role → Action (Unit {0})
my_role_changed group_id role = do
  call (Call.set_my_role group_id role)
  emit (SyncEvent.group_changed group_id)

unfoldable pub role_changed : String → String → Role → Action (Unit {0})
role_changed group_id user_id role = do
  call (Call.set_role group_id user_id role)
  entity ← look (cached group_id user_id)
  emit (SyncEvent.role_changed group_id user_id role (Option.map (λ m. m.display_name) entity))
  self ← look (λ e. is_self user_id e.self_user_id)
  if self then my_role_changed group_id role else done tt
  emit (SyncEvent.members_changed group_id)

unfoldable pub apply_group_event : GroupEvent → Action (Unit {0})
apply_group_event (GroupEvent.member_added group_id user_id role member) = do
  self ← look (λ e. is_self user_id e.self_user_id)
  if self then self_added group_id else other_added group_id user_id role member
apply_group_event (GroupEvent.member_removed group_id user_id _) = member_removed group_id user_id
apply_group_event (GroupEvent.role_changed group_id user_id role) =
    role_changed group_id user_id role
apply_group_event (GroupEvent.group_updated group_id name who_can_post who_can_add_members) = do
  call (Call.apply_group_updated group_id name who_can_post who_can_add_members)
  emit (SyncEvent.group_changed group_id)
apply_group_event (GroupEvent.group_deleted group_id) = drop_group group_id
apply_group_event (GroupEvent.unknown _ _ _) = done tt
