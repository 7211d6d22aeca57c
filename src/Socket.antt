-- ===== src/Socket.antt =====
-- ws.rs (crates/tzibbur-api/src/ws.rs): the frames of the WebSocket protocol, the events and states
-- of `TzibburSocket`, and `GroupEvent`, the typed view of a `group` frame.
-- The decoders that serde derives for members and settings are the record `Decoders`.
pub mod Parsed
pub mod Frames
pub mod Connection
pub mod Shown
pub mod Ends
pub mod Revoked
use mathlib.Core.Option
use un_tzibbur_bot.Base.{
  ℕ, String, Bool, true, false, ◌||◌, Option, none, some, List, ℤ, or_else, str_eq, ◌==◌,
  if◌then◌else◌,
}
use un_tzibbur_bot.Models.{Role, Permission, role_parse, contains, codes, to_ascii_lowercase}
use un_tzibbur_bot.Entities.{MessageDto, MemberDto}
use un_tzibbur_bot.Json.{Json, Fields, as_object, get, remove, or_insert, and_then, str_field}

pub data ClientFrame : Type 0 where
  ping : ClientFrame
  ack : (group_id : String) (seq : ℤ) → ClientFrame
  read : (group_id : String) (seq : ℤ) → ClientFrame

pub record HelloLimits : Type 0 where
  pub heartbeat_seconds : Option ℕ
  pub max_connections_per_device : Option ℕ
  pub max_frame_bytes : Option ℕ

pub data ServerFrame : Type 0 where
  hello :
      (protocol_version : ℕ) (user_id device_id : Option String) (limits : HelloLimits)
      → ServerFrame
  pong : ServerFrame
  messages : (group_id : String) (messages : List MessageDto) (has_more : Bool) → ServerFrame
  group : (event : String) (fields : Fields) → ServerFrame
  read : (group_id : String) (read_seq : ℤ) → ServerFrame
  error : (code : String) (detail : Option String) → ServerFrame

pub data GroupEvent : Type 0 where
  member_added :
      (group_id user_id : String) (role : Option Role) (member : Option MemberDto) → GroupEvent
  member_removed : (group_id user_id : String) (reason : Option String) → GroupEvent
  role_changed : (group_id user_id : String) (role : Role) → GroupEvent
  group_updated :
      (group_id : String) (name : Option String)
      (who_can_post who_can_add_members : Option Permission)
      → GroupEvent
  group_deleted : (group_id : String) → GroupEvent
  unknown : (event : String) (group_id : Option String) (payload : Fields) → GroupEvent

-- `GroupEvent::kind`
unfoldable pub kind : GroupEvent → String
kind (GroupEvent.member_added _ _ _ _) = "member-added"
kind (GroupEvent.member_removed _ _ _) = "member-removed"
kind (GroupEvent.role_changed _ _ _) = "role-changed"
kind (GroupEvent.group_updated _ _ _ _) = "group-updated"
kind (GroupEvent.group_deleted _) = "group-deleted"
kind (GroupEvent.unknown event _ _) = event

-- `GroupEvent::group_id`
unfoldable pub group_of : GroupEvent → Option String
group_of (GroupEvent.member_added g _ _ _) = some g
group_of (GroupEvent.member_removed g _ _) = some g
group_of (GroupEvent.role_changed g _ _) = some g
group_of (GroupEvent.group_updated g _ _ _) = some g
group_of (GroupEvent.group_deleted g) = some g
group_of (GroupEvent.unknown _ g _) = g

pub record GroupSettings : Type 0 where
  pub who_can_post : Option Permission
  pub who_can_add_members : Option Permission
  pub who_can_change_name : Option Permission

abbrev pub no_settings : GroupSettings
no_settings = record { who_can_post = none; who_can_add_members = none; who_can_change_name = none }

-- `serde_json::from_value` at the two types.
pub record Decoders : Type 0 where
  pub member : Json → Option MemberDto
  pub settings : Json → Option GroupSettings

-- The fields of `inner` that are not in the map already.
unfoldable pub insert_all : Fields → Fields → Fields
unfolding or_insert
insert_all Fields.end fields = fields
insert_all (Fields.field k v rest) fields = insert_all rest (or_insert k v fields)

abbrev pub nested : Option Fields → Fields → Fields
nested none fields = fields
nested (some inner) fields = insert_all inner fields

-- The payload with a nested `payload` object merged in.
unfoldable pub merged : Fields → Fields
unfolding get remove insert_all
merged payload = nested (and_then (get "payload" payload) as_object) (remove "payload" payload)

abbrev permission : String → Permission
permission s = record { slug = s }

abbrev settings_of : Option GroupSettings → GroupSettings
settings_of none = no_settings
settings_of (some s) = s

-- The arms of the match in `parse`; `payload` is merged, and the group id was found in it.
unfoldable pub added_user :
    GroupEvent → String → Option Role → Option MemberDto → Option String → GroupEvent
added_user other group_id role member none = other
added_user other group_id role member (some user) =
    GroupEvent.member_added group_id user role member

unfoldable pub added : String → String → Fields → Option MemberDto → GroupEvent
unfolding added_user
added event group_id payload member =
    added_user (GroupEvent.unknown event (some group_id) payload) group_id
      (or_else (and_then (str_field "role" payload) role_parse) (Option.map (λ m. m.role) member))
      member (or_else (str_field "userId" payload) (Option.map (λ m. m.user_id) member))

unfoldable pub removed_user : GroupEvent → String → Option String → Option String → GroupEvent
removed_user other group_id reason none = other
removed_user other group_id reason (some user) = GroupEvent.member_removed group_id user reason

unfoldable pub removed : String → String → Fields → GroupEvent
unfolding removed_user
removed event group_id payload =
    removed_user (GroupEvent.unknown event (some group_id) payload) group_id
      (str_field "reason" payload) (str_field "userId" payload)

unfoldable pub role_changed_to : GroupEvent → String → Option String → Option Role → GroupEvent
role_changed_to other group_id (some user) (some role) = GroupEvent.role_changed group_id user role
role_changed_to other group_id _ _ = other

unfoldable pub role_change : String → String → Fields → GroupEvent
unfolding role_changed_to
role_change event group_id payload =
    role_changed_to (GroupEvent.unknown event (some group_id) payload) group_id
      (str_field "userId" payload) (and_then (str_field "role" payload) role_parse)

unfoldable pub update_of : String → Fields → GroupSettings → GroupEvent
update_of group_id payload settings =
    GroupEvent.group_updated group_id (str_field "name" payload)
      (or_else settings.who_can_post (Option.map permission (str_field "whoCanPost" payload)))
      (or_else settings.who_can_add_members
        (Option.map permission (str_field "whoCanAddMembers" payload)))

unfoldable pub parse_in : Decoders → String → String → Fields → GroupEvent
unfolding added removed role_change update_of
parse_in d event group_id payload =
    if str_eq event "member-added"
    then added event group_id payload (and_then (get "member" payload) d.member)
    else if str_eq event "member-removed"
    then removed event group_id payload
    else if str_eq event "role-changed"
    then role_change event group_id payload
    else if str_eq event "group-updated"
    then update_of group_id payload (settings_of (and_then (get "settings" payload) d.settings))
    else if str_eq event "group-deleted"
    then GroupEvent.group_deleted group_id
    else GroupEvent.unknown event (some group_id) payload

unfoldable pub parse_merged : Decoders → String → Option String → Fields → GroupEvent
unfolding parse_in
parse_merged d event none payload = GroupEvent.unknown event none payload
parse_merged d event (some group_id) payload = parse_in d event group_id payload

-- `GroupEvent::parse`
unfoldable pub parse : Decoders → String → Fields → GroupEvent
unfolding merged str_field parse_merged
parse d event payload =
    let all = merged payload in parse_merged d event (str_field "groupId" all) all

pub data DisconnectReason : Type 0 where
  closed : (code : Option ℕ) (message : Option String) → DisconnectReason
  error : (cause : Option String) → DisconnectReason
  update_required : DisconnectReason
  session_revoked : (blocked : Bool) → DisconnectReason

abbrev pub ws_protocol_version : ℕ
ws_protocol_version = 1

abbrev pub ws_close_too_many_connections : ℕ
ws_close_too_many_connections = 4029

abbrev pub ws_close_session_revoked : ℕ
ws_close_session_revoked = 4001

-- `PING_AFTER_OUTBOUND_SILENCE`, in seconds
abbrev pub ping_after_outbound_silence : ℕ
ping_after_outbound_silence = 30

-- `TOO_MANY_CONNECTIONS_WAIT`, in milliseconds
abbrev pub too_many_connections_wait : ℕ
too_many_connections_wait = 60000

-- A close with this code.
abbrev pub closed_with : ℕ → DisconnectReason → Bool
closed_with c (DisconnectReason.closed (some code) message) = code == c
closed_with c _ = false

unfoldable pub is_too_many_connections : DisconnectReason → Bool
is_too_many_connections r = closed_with ws_close_too_many_connections r

pub data SocketEvent : Type 0 where
  hello :
      (protocol_version : ℕ) (user_id device_id : Option String) (limits : HelloLimits)
      → SocketEvent
  connected : SocketEvent
  disconnected : (reason : DisconnectReason) → SocketEvent
  messages : (group_id : String) (messages : List MessageDto) (has_more : Bool) → SocketEvent
  group_event : GroupEvent → SocketEvent
  read : (group_id : String) (read_seq : ℤ) → SocketEvent

pub data SyncState : Type 0 where
  idle connecting connected backing_off update_required : SyncState

-- `==` of the derived `PartialEq`
abbrev pub state_eq : SyncState → SyncState → Bool
state_eq SyncState.idle SyncState.idle = true
state_eq SyncState.connecting SyncState.connecting = true
state_eq SyncState.connected SyncState.connected = true
state_eq SyncState.backing_off SyncState.backing_off = true
state_eq SyncState.update_required SyncState.update_required = true
state_eq _ _ = false

unfoldable pub is_update_required_code : String → Bool
unfolding to_ascii_lowercase contains
is_update_required_code code =
    let c = to_ascii_lowercase code in
    contains c (codes "update")
    || contains c (codes "version")
    || contains c (codes "upgrade")
    || contains c (codes "unsupported-client")
