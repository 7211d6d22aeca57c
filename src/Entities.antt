-- ===== src/Entities.antt =====
-- The rows of the local tables, and what the entity types compute from them
-- (crates/tzibbur-api/src/store/mod.rs), with the wire types that they are made of.
-- `now` stands for `now_epoch_ms()`; an `i64` is a ℤ.
use un_tzibbur_bot.Base.{
  String, Bool, false, not, ◌&&◌, Option, none, ℤ, pos, is_some, unwrap_or, if◌then◌else◌,
}
use un_tzibbur_bot.Models.{GroupKind, Role, Permission, is_system_kind, allows}

pub record GroupDto : Type 0 where
  pub id : String
  pub name : String
  pub category : String
  pub kind : GroupKind
  pub who_can_post : Permission
  pub who_can_add_members : Permission
  pub created_by : Option String
  pub created_at : Option ℤ
  pub my_role : Role
  pub member_count : ℤ
  pub muted : Bool
  pub last_activity_at : Option ℤ
  pub last_message_preview : Option String
  pub last_read_seq : Option ℤ

pub record GroupEntity : Type 0 where
  pub id : String
  pub name : String
  pub category : String
  pub kind : GroupKind
  pub who_can_post : Permission
  pub who_can_add_members : Permission
  pub created_by : Option String
  pub created_at : ℤ
  pub my_role : Role
  pub member_count : ℤ
  pub muted : Bool
  pub last_activity_at : Option ℤ
  pub last_message_preview : Option String
  pub is_deleted : Bool
  pub last_read_seq : ℤ

pub can_post : GroupEntity → Bool
can_post g = not (is_system_kind g.kind) && allows g.who_can_post g.my_role

pub can_add_members : GroupEntity → Bool
can_add_members g = allows g.who_can_add_members g.my_role

unfoldable pub group_from_dto : ℤ → GroupDto → GroupEntity
group_from_dto now g = record {
  id = g.id;
  name = g.name;
  category = g.category;
  kind = g.kind;
  who_can_post = g.who_can_post;
  who_can_add_members = g.who_can_add_members;
  created_by = g.created_by;
  created_at = unwrap_or g.created_at now;
  my_role = g.my_role;
  member_count = g.member_count;
  muted = g.muted;
  last_activity_at = g.last_activity_at;
  last_message_preview = g.last_message_preview;
  is_deleted = false;
  last_read_seq = unwrap_or g.last_read_seq (pos 0);
}

pub record MessageDto : Type 0 where
  pub id : String
  pub group_id : Option String
  pub seq : ℤ
  pub sender_id : String
  pub body : String
  pub client_message_id : Option String
  pub created_at : Option ℤ

pub record MessageEntity : Type 0 where
  pub id : String
  pub group_id : String
  pub seq : ℤ
  pub sender_id : String
  pub body : String
  pub client_message_id : Option String
  pub created_at : ℤ

unfoldable pub message_from_dto : ℤ → MessageDto → String → MessageEntity
message_from_dto now m fallback_group_id = record {
  id = m.id;
  group_id = unwrap_or m.group_id fallback_group_id;
  seq = m.seq;
  sender_id = m.sender_id;
  body = m.body;
  client_message_id = m.client_message_id;
  created_at = unwrap_or m.created_at now;
}

pub record MemberDto : Type 0 where
  pub user_id : String
  pub display_name : String
  pub phone_e164 : Option String
  pub role : Role
  pub joined_at : Option ℤ

pub record MemberEntity : Type 0 where
  pub group_id : String
  pub user_id : String
  pub display_name : String
  pub phone_e164 : Option String
  pub role : Role
  pub joined_at : ℤ

unfoldable pub member_from_dto : ℤ → MemberDto → String → MemberEntity
member_from_dto now m group_id = record {
  group_id = group_id;
  user_id = m.user_id;
  display_name = m.display_name;
  phone_e164 = m.phone_e164;
  role = m.role;
  joined_at = unwrap_or m.joined_at now;
}

pub data OutboxState : Type 0 where
  pending in_flight confirmed : OutboxState

unfoldable pub state_as_str : OutboxState → String
state_as_str OutboxState.pending = "PENDING"
state_as_str OutboxState.in_flight = "IN_FLIGHT"
state_as_str OutboxState.confirmed = "CONFIRMED"

pub data OutgoingState : Type 0 where
  waiting sent failed : OutgoingState

pub record OutboxEntity : Type 0 where
  pub client_message_id : String
  pub group_id : String
  pub body : String
  pub state : OutboxState
  pub error_code : Option String
  pub attempt_count : ℤ
  pub next_attempt_at : Option ℤ
  pub last_attempt_at : Option ℤ
  pub created_at : ℤ
  pub confirmed_message_id : Option String
  pub confirmed_seq : Option ℤ

-- `OutboxEntity::new`; the fresh UUID is an argument.
unfoldable pub new_outbox : String → ℤ → String → String → OutboxEntity
new_outbox uuid now group_id body = record {
  client_message_id = uuid;
  group_id = group_id;
  body = body;
  state = OutboxState.pending;
  error_code = none;
  attempt_count = pos 0;
  next_attempt_at = none;
  last_attempt_at = none;
  created_at = now;
  confirmed_message_id = none;
  confirmed_seq = none;
}

abbrev pub outgoing : OutboxState → Option String → Option ℤ → OutgoingState
outgoing OutboxState.confirmed error_code next = OutgoingState.sent
outgoing _ error_code next =
    if is_some error_code && not (is_some next) then OutgoingState.failed else OutgoingState.waiting

unfoldable pub outgoing_state : OutboxEntity → OutgoingState
outgoing_state e = outgoing e.state e.error_code e.next_attempt_at

pub record LocalCommandReplyEntity : Type 0 where
  pub id : Option ℤ
  pub group_id : String
  pub command_name : String
  pub ok : Bool
  pub code : String
  pub params_json : Option String
  pub text : String
  pub created_at : ℤ

pub data StoreChange : Type 0 where
  groups : StoreChange
  messages : String → StoreChange
  members : String → StoreChange
  outbox : String → StoreChange
  command_replies : String → StoreChange
  cleared : StoreChange
