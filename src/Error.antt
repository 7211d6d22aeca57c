-- ===== src/Error.antt =====
-- error.rs (crates/tzibbur-api/src/error.rs): the errors of the client crate, with the code, the
-- HTTP status and the retry policy of each, and the mapping from a bare status.
-- An error cause is kept as its text.
pub mod Mapping
pub mod Problem
use un_tzibbur_bot.Base.{
  ℕ, String, ◌≡◌, refl, Bool, true, false, ◌&&◌, Option, none, some, leb, ◌==◌, if◌then◌else◌,
}
use un_tzibbur_bot.Json.{Json}

pub data AppError : Type 0 where
  validation_failed : (request_id : Option String) (errors : Option Json) → AppError
  invalid_display_name : (max_length : ℕ) (request_id : Option String) → AppError
  reserved_display_name : (request_id : Option String) → AppError
  invalid_group_name : (max_length : ℕ) (request_id : Option String) → AppError
  invalid_category : (request_id : Option String) → AppError
  invalid_message : (request_id : Option String) → AppError
  contacts_batch_too_large : (request_id : Option String) → AppError
  client_message_id_reused : (request_id : Option String) → AppError
  unauthorized : (request_id : Option String) → AppError
  invalid_code : (request_id : Option String) → AppError
  forbidden : (request_id : Option String) → AppError
  posting_not_allowed : (reason request_id : Option String) → AppError
  adding_members_not_allowed : (reason request_id : Option String) → AppError
  admin_required : (reason request_id : Option String) → AppError
  leave_not_allowed : (reason request_id : Option String) → AppError
  device_blocked : (request_id : Option String) → AppError
  not_found : (request_id : Option String) → AppError
  group_full : (max_members : ℕ) (request_id : Option String) → AppError
  last_admin : (request_id : Option String) → AppError
  admin_limit_reached : (max_admins : Option ℕ) (request_id : Option String) → AppError
  sms_delivery_failed : (request_id : Option String) → AppError
  group_too_small : (min_members : Option ℕ) (request_id : Option String) → AppError
  rate_limited : (retry_after_seconds : Option ℕ) (request_id : Option String) → AppError
  not_implemented : (request_id : Option String) → AppError
  internal : (request_id : Option String) → AppError
  network : (message : String) (cause : Option String) → AppError
  unknown : (status : Option ℕ) (request_id detail : Option String) → AppError
  store : String → AppError
  json : String → AppError
  web_socket : String → AppError
  protocol : (code : String) (detail : Option String) → AppError
  not_signed_in : AppError
  invalid_input : String → AppError

pub data Result {ℓ} (T : Type ℓ) : Type ℓ where
  ok : (value : T) → Result T
  err : (error : AppError) → Result T

-- The operator `?`: the rest of the block runs on the value, and an error is returned.
infixl 5 ◌>>=◌
abbrev pub ◌>>=◌ {ℓ ℓ'} : {T : Type ℓ} {U : Type ℓ'} → Result T → (T → Result U) → Result U
result >>= next = elim result [ ok value ↦ next value | err error ↦ err error ]

-- A block that succeeds has succeeded at its first step.
pub bind-eq-ok {ℓ ℓ'} :
    {T : Type ℓ} {U : Type ℓ'} (result : Result T) (next : T → Result U) {last : U}
    → (result >>= next) ≡ ok last
    → (value : T) × (result ≡ ok value) × (next value ≡ ok last)
bind-eq-ok (err error) next done = cc
bind-eq-ok (ok value) next done = (value, refl, done)

-- `AppError::request_id`
unfoldable pub request_id : AppError → Option String
request_id (validation_failed id _) = id
request_id (invalid_display_name _ id) = id
request_id (reserved_display_name id) = id
request_id (invalid_group_name _ id) = id
request_id (invalid_category id) = id
request_id (invalid_message id) = id
request_id (contacts_batch_too_large id) = id
request_id (client_message_id_reused id) = id
request_id (unauthorized id) = id
request_id (invalid_code id) = id
request_id (forbidden id) = id
request_id (posting_not_allowed _ id) = id
request_id (adding_members_not_allowed _ id) = id
request_id (admin_required _ id) = id
request_id (leave_not_allowed _ id) = id
request_id (device_blocked id) = id
request_id (admin_limit_reached _ id) = id
request_id (not_found id) = id
request_id (group_full _ id) = id
request_id (last_admin id) = id
request_id (sms_delivery_failed id) = id
request_id (group_too_small _ id) = id
request_id (rate_limited _ id) = id
request_id (not_implemented id) = id
request_id (internal id) = id
request_id (unknown _ id _) = id
request_id _ = none

-- `AppError::status`
unfoldable pub status : AppError → Option ℕ
status (validation_failed _ _) = some 400
status (invalid_display_name _ _) = some 400
status (reserved_display_name _) = some 400
status (invalid_group_name _ _) = some 400
status (invalid_category _) = some 400
status (invalid_message _) = some 400
status (contacts_batch_too_large _) = some 400
status (unauthorized _) = some 401
status (invalid_code _) = some 401
status (forbidden _) = some 403
status (posting_not_allowed _ _) = some 403
status (adding_members_not_allowed _ _) = some 403
status (admin_required _ _) = some 403
status (leave_not_allowed _ _) = some 403
status (device_blocked _) = some 403
status (not_found _) = some 404
status (client_message_id_reused _) = some 409
status (group_too_small _ _) = some 409
status (group_full _ _) = some 409
status (last_admin _) = some 409
status (admin_limit_reached _ _) = some 409
status (sms_delivery_failed _) = some 502
status (rate_limited _ _) = some 429
status (not_implemented _) = some 501
status (internal _) = some 500
status (unknown s _ _) = s
status _ = none

-- `AppError::code`, which is what the outbox stores.
unfoldable pub code : AppError → String
code (validation_failed _ _) = "validation-failed"
code (invalid_display_name _ _) = "invalid-display-name"
code (reserved_display_name _) = "reserved-display-name"
code (invalid_group_name _ _) = "invalid-group-name"
code (invalid_category _) = "invalid-category"
code (invalid_message _) = "invalid-message"
code (contacts_batch_too_large _) = "contacts-batch-too-large"
code (client_message_id_reused _) = "client-message-id-reused"
code (unauthorized _) = "unauthorized"
code (invalid_code _) = "invalid-code"
code (forbidden _) = "forbidden"
code (posting_not_allowed _ _) = "posting-not-allowed"
code (adding_members_not_allowed _ _) = "adding-members-not-allowed"
code (admin_required _ _) = "admin-required"
code (leave_not_allowed _ _) = "leave-not-allowed"
code (device_blocked _) = "device-blocked"
code (admin_limit_reached _ _) = "admin-limit-reached"
code (not_found _) = "not-found"
code (group_full _ _) = "group-full"
code (last_admin _) = "last-admin"
code (sms_delivery_failed _) = "sms-delivery-failed"
code (group_too_small _ _) = "group-too-small"
code (rate_limited _ _) = "rate-limited"
code (not_implemented _) = "not-implemented"
code (internal _) = "internal"
code (network _ _) = "network"
code (unknown _ _ _) = "unknown"
code (store _) = "store"
code (json _) = "json"
code (web_socket _) = "websocket"
code (protocol _ _) = "protocol"
code not_signed_in = "not-signed-in"
code (invalid_input _) = "invalid-input"

-- `AppError::invalidates_session`
unfoldable pub invalidates_session : AppError → Bool
invalidates_session (unauthorized _) = true
invalidates_session (device_blocked _) = true
invalidates_session _ = false

abbrev server_error : Option ℕ → Bool
server_error none = false
server_error (some s) = leb 500 s && leb s 599

-- `AppError::is_retryable`
unfoldable pub is_retryable : AppError → Bool
is_retryable (network _ _) = true
is_retryable (internal _) = true
is_retryable (rate_limited _ _) = true
is_retryable (web_socket _) = true
is_retryable (unknown s _ _) = server_error s
is_retryable _ = false

-- `AppError::reason`
unfoldable pub reason : AppError → Option String
reason (posting_not_allowed r _) = r
reason (adding_members_not_allowed r _) = r
reason (admin_required r _) = r
reason (leave_not_allowed r _) = r
reason _ = none

-- `AppError::retry_after`
unfoldable pub retry_after : AppError → Option ℕ
retry_after (rate_limited s _) = s
retry_after _ = none

-- `AppError::from_status`
unfoldable pub from_status :
    ℕ → (request_id detail : Option String) → Option ℕ → Option Json → AppError
from_status s request_id detail retry_after_header errors =
    if s == 400
    then validation_failed request_id errors
    else if s == 401
    then unauthorized request_id
    else if s == 403
    then forbidden request_id
    else if s == 404
    then not_found request_id
    else if s == 409
    then unknown (some 409) request_id detail
    else if s == 429
    then rate_limited retry_after_header request_id
    else if s == 501
    then not_implemented request_id
    else if leb 500 s && leb s 599
    then internal request_id
    else unknown (some s) request_id detail
