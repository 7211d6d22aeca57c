-- ===== src/Error/Problem.antt =====
-- The problem documents of error.rs (`ProblemDto`, `AppError::from_problem`). A slug is compared by
-- its code points. `as_u64` of the crate serde_json, which reads a number's text, is a parameter.
pub mod Codes
use un_tzibbur_bot.Base.{
  ℕ, ◌^◌, ◌%◌, String, Bool, true, false, ◌||◌, Option, none, some, List, [], ◌∷◌, map, any,
  or_else, unwrap_or, ◌==◌, if◌then◌else◌,
}
use un_tzibbur_bot.Models.{codes, text_eq, ascii_lowercase}
use un_tzibbur_bot.Json.{Json, Fields, as_str, as_object, get, and_then}
use un_tzibbur_bot.Validation.{default_max_display_name, default_max_group_name}
use un_tzibbur_bot.Error
use un_tzibbur_bot.Error.{AppError, from_status}

pub record ProblemDto : Type 0 where
  pub type_uri : Option String
  pub title : Option String
  pub status : Option ℕ
  pub detail : Option String
  pub request_id : Option String
  pub errors : Option Json
  pub extra : Fields

-- `t.rsplit(c).next()`: what follows the last `c`.
unfoldable pub rsplit_next : ℕ → List ℕ → List ℕ
rsplit_next c [] = []
rsplit_next c (d ∷ t) =
    let later = rsplit_next c t in
    if any (λ x. x == c) t then later else if d == c then t else d ∷ t

abbrev pub underscore_to_dash : ℕ → ℕ
underscore_to_dash c = if c == b'_' then b'-' else c

unfoldable pub slug_code : List ℕ → Option (List ℕ)
slug_code slug =
    if text_eq slug [] || text_eq slug (codes "about:blank")
    then none
    else some (map underscore_to_dash (map ascii_lowercase slug))

-- `ProblemDto::code`
unfoldable pub problem_code : ProblemDto → Option (List ℕ)
unfolding rsplit_next slug_code
problem_code p =
    and_then p.type_uri (λ t. slug_code (rsplit_next b'/' (rsplit_next b':' (codes t))))

-- `Value::get` of a key
abbrev pub value_get : String → Option Json → Option Json
value_get key v = and_then (and_then v as_object) (get key)

-- `ProblemDto::reason`
unfoldable pub problem_reason : ProblemDto → Option String
unfolding get
problem_reason p = and_then (value_get "reason" p.errors) as_str

-- `ProblemDto::extra_usize`
unfoldable pub extra_usize : (Json → Option ℕ) → String → ProblemDto → Option ℕ
unfolding get
extra_usize as_u64 key p = and_then (or_else (get key p.extra) (value_get key p.errors)) as_u64

abbrev pub default_max_members : ℕ
default_max_members = 100

-- `.map(|v| v as u32)`
abbrev pub as_u32 : Option ℕ → Option ℕ
as_u32 none = none
as_u32 (some v) = some (v % 2 ^ 32)

-- The arms of the `match` on the code, as pairs of a pattern and a result.
unfoldable pub arms : (Json → Option ℕ) → ProblemDto → Option ℕ → List (String × AppError)
unfolding problem_reason extra_usize
arms as_u64 p header =
    ("validation-failed", AppError.validation_failed p.request_id p.errors)
    ∷ (
      "invalid-display-name",
      AppError.invalid_display_name
          (unwrap_or (extra_usize as_u64 "maxLength" p) default_max_display_name) p.request_id,
    )
    ∷ ("reserved-display-name", AppError.reserved_display_name p.request_id)
    ∷ (
      "invalid-group-name",
      AppError.invalid_group_name
          (unwrap_or (extra_usize as_u64 "maxLength" p) default_max_group_name) p.request_id,
    )
    ∷ ("invalid-category", AppError.invalid_category p.request_id)
    ∷ ("invalid-message", AppError.invalid_message p.request_id)
    ∷ ("contacts-batch-too-large", AppError.contacts_batch_too_large p.request_id)
    ∷ ("client-message-id-reused", AppError.client_message_id_reused p.request_id)
    ∷ ("unauthorized", AppError.unauthorized p.request_id)
    ∷ ("invalid-code", AppError.invalid_code p.request_id)
    ∷ ("forbidden", AppError.forbidden p.request_id)
    ∷ ("posting-not-allowed", AppError.posting_not_allowed (problem_reason p) p.request_id)
    ∷ (
      "adding-members-not-allowed",
      AppError.adding_members_not_allowed (problem_reason p) p.request_id,
    )
    ∷ ("admin-required", AppError.admin_required (problem_reason p) p.request_id)
    ∷ ("leave-not-allowed", AppError.leave_not_allowed (problem_reason p) p.request_id)
    ∷ ("device-blocked", AppError.device_blocked p.request_id)
    ∷ (
      "admin-limit-reached",
      AppError.admin_limit_reached (as_u32 (extra_usize as_u64 "maxAdmins" p)) p.request_id,
    )
    ∷ ("not-found", AppError.not_found p.request_id)
    ∷ (
      "group-full",
      AppError.group_full (unwrap_or (extra_usize as_u64 "maxMembers" p) default_max_members)
          p.request_id,
    )
    ∷ ("last-admin", AppError.last_admin p.request_id)
    ∷ ("sms-delivery-failed", AppError.sms_delivery_failed p.request_id)
    ∷ (
      "group-too-small",
      AppError.group_too_small
          (as_u32
            (or_else (extra_usize as_u64 "minMembers" p) (extra_usize as_u64 "minMembersToPost" p)))
          p.request_id,
    )
    ∷ (
      "rate-limited",
      AppError.rate_limited (or_else header (extra_usize as_u64 "retryAfterSeconds" p))
          p.request_id,
    )
    ∷ ("not-implemented", AppError.not_implemented p.request_id)
    ∷ ("internal", AppError.internal p.request_id)
    ∷ []

-- The first arm whose pattern is the slug.
unfoldable pub pick : List ℕ → List (String × AppError) → AppError → AppError
pick slug [] other = other
pick slug ((pattern, e) ∷ more) other =
    let rest = pick slug more other in if text_eq slug (codes pattern) then e else rest

-- The `match` on the code; its first arm has a second pattern, "validation".
unfoldable pub from_code : (Json → Option ℕ) → ℕ → ProblemDto → Option ℕ → List ℕ → AppError
unfolding arms pick
from_code as_u64 status p header slug =
    pick slug
      (("validation", AppError.validation_failed p.request_id p.errors) ∷ arms as_u64 p header)
      (from_status status p.request_id p.detail header p.errors)

-- `AppError::from_problem`
unfoldable pub from_problem : (Json → Option ℕ) → ℕ → ProblemDto → Option ℕ → AppError
unfolding problem_code from_code
from_problem as_u64 status p header =
    from_code as_u64 status p header (unwrap_or (problem_code p) [])
