-- ===== src/Sync/Kept/Groups.antt =====
-- The handlers of sync.rs that refresh groups and members, and those of the group events.
use un_tzibbur_bot.Base.{String, Bool, true, false, Option, none, some, List}
use un_tzibbur_bot.Models.{Role}
use un_tzibbur_bot.Error.{AppError, Result, ok, err}
use un_tzibbur_bot.Entities.{GroupDto, GroupEntity, MemberDto, MemberEntity}
use un_tzibbur_bot.Store.OutboxTable.Confirmed.{keeps_rows}
use un_tzibbur_bot.Socket.{GroupEvent}
use un_tzibbur_bot.Sync.{Server, SyncEngine}
use un_tzibbur_bot.Sync.Apply
use un_tzibbur_bot.Sync.Apply.{drop_group, refresh_group, refresh_members}
use un_tzibbur_bot.Sync.Events
use un_tzibbur_bot.Sync.Kept.{IsClosed, Keeps, kept, done-Keeps, fail-Keeps}

module _ (v : Server) (P : SyncEngine → Type 0) (c : IsClosed P) where
  pub get_group-Keeps : (id : String) → Keeps v P (Apply.get_group id)
  unfolding Apply.get_group
  get_group-Keeps id = search kept

  pub drop_group-Keeps : (id : String) → Keeps v P (drop_group id)
  unfolding drop_group keeps_rows
  drop_group-Keeps id = search kept

  pub on_group-Keeps : (id : String) (r : Result GroupDto) → Keeps v P (Apply.on_group id r)
  unfolding Apply.on_group keeps_rows
  on_group-Keeps id (ok dto) = search kept
  on_group-Keeps id (err (AppError.not_found _)) = search (kept, drop_group-Keeps)
  on_group-Keeps id (err error) = fail-Keeps v P error

  pub refresh_group-Keeps : (id : String) → Keeps v P (refresh_group id)
  unfolding refresh_group
  refresh_group-Keeps id = search (kept, get_group-Keeps, on_group-Keeps)

  pub list_all_members-Keeps : (id : String) → Keeps v P (Apply.list_all_members id)
  unfolding Apply.list_all_members
  list_all_members-Keeps id = search kept

  pub replace_members-Keeps :
      (id : String) (ms : List MemberEntity) → Keeps v P (Apply.replace_members id ms)
  unfolding Apply.replace_members keeps_rows
  replace_members-Keeps id ms = search kept

  pub on_members-Keeps :
      (id : String) (r : Result (List MemberDto)) → Keeps v P (Apply.on_members id r)
  unfolding Apply.on_members keeps_rows
  on_members-Keeps id (ok dtos) = search (kept, replace_members-Keeps)
  on_members-Keeps id (err (AppError.not_found _)) = search (kept, drop_group-Keeps)
  on_members-Keeps id (err error) = fail-Keeps v P error

  pub refresh_members-Keeps : (id : String) → Keeps v P (refresh_members id)
  unfolding refresh_members
  refresh_members-Keeps id = search (kept, list_all_members-Keeps, on_members-Keeps)

  pub reconcile_groups-Keeps : Keeps v P Apply.reconcile_groups
  unfolding Apply.reconcile_groups Apply.list_all_groups keeps_rows
  reconcile_groups-Keeps = search kept

  -- The group events.
  pub on_refreshed-Keeps :
      (id : String) (g : Option GroupEntity) → Keeps v P (Events.on_refreshed id g)
  unfolding Events.on_refreshed
  on_refreshed-Keeps id none = done-Keeps v P tt
  on_refreshed-Keeps id (some g) = search (kept, refresh_members-Keeps)

  pub self_added-Keeps : (id : String) → Keeps v P (Events.self_added id)
  unfolding Events.self_added
  self_added-Keeps id = search (kept, refresh_group-Keeps, on_refreshed-Keeps)

  pub upsert_member-Keeps :
      (id : String) (m : Option MemberDto) → Keeps v P (Events.upsert_member id m)
  unfolding Events.upsert_member keeps_rows
  upsert_member-Keeps id none = done-Keeps v P tt
  upsert_member-Keeps id (some dto) = search kept

  pub member_or_new-Keeps :
      (g u : String) (role : Option Role) (m : Option MemberEntity)
      → Keeps v P (Events.member_or_new g u role m)
  unfolding Events.member_or_new
  member_or_new-Keeps g u role none = search kept
  member_or_new-Keeps g u role (some m) = done-Keeps v P m

  pub refresh_if-Keeps : (b : Bool) (id : String) → Keeps v P (Events.refresh_if b id)
  unfolding Events.refresh_if
  refresh_if-Keeps true id = search (kept, refresh_members-Keeps)
  refresh_if-Keeps false id = done-Keeps v P tt

  pub other_added-Keeps :
      (g u : String) (role : Option Role) (m : Option MemberDto)
      → Keeps v P (Events.other_added g u role m)
  unfolding Events.other_added keeps_rows
  other_added-Keeps g u role m =
      search (kept, upsert_member-Keeps, refresh_if-Keeps, member_or_new-Keeps) depth 20

  pub member_removed-Keeps : (g u : String) → Keeps v P (Events.member_removed g u)
  unfolding Events.member_removed keeps_rows
  member_removed-Keeps g u = search (kept, drop_group-Keeps) depth 20

  pub my_role_changed-Keeps : (g : String) (role : Role) → Keeps v P (Events.my_role_changed g role)
  unfolding Events.my_role_changed keeps_rows
  my_role_changed-Keeps g role = search kept

  pub role_changed-Keeps : (g u : String) (role : Role) → Keeps v P (Events.role_changed g u role)
  unfolding Events.role_changed keeps_rows
  role_changed-Keeps g u role = search (kept, my_role_changed-Keeps) depth 20

  pub apply_group_event-Keeps : (ge : GroupEvent) → Keeps v P (Events.apply_group_event ge)
  unfolding Events.apply_group_event keeps_rows
  apply_group_event-Keeps (GroupEvent.member_added g u role m) =
      search (kept, self_added-Keeps, other_added-Keeps)
  apply_group_event-Keeps (GroupEvent.member_removed g u reason) = member_removed-Keeps g u
  apply_group_event-Keeps (GroupEvent.role_changed g u role) = role_changed-Keeps g u role
  apply_group_event-Keeps (GroupEvent.group_updated g name post add) = search kept
  apply_group_event-Keeps (GroupEvent.group_deleted g) = drop_group-Keeps g
  apply_group_event-Keeps (GroupEvent.unknown ev g payload) = done-Keeps v P tt
