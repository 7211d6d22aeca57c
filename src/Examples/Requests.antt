-- ===== src/Examples/Requests.antt =====
-- The theorems on requests and their errors, applied to a server that asks to wait, and to one with
-- two pages of members.
use un_tzibbur_bot.Base.{
  ℕ, suc, any, ◌≡◌, refl, String, true, false, Option, none, some, [], ◌∷◌, ◌++◌, unwrap_or, arith,
  if◌then◌else◌,
}
use un_tzibbur_bot.Models.{codes, text_eq, Role, ascii_lowercase}
use un_tzibbur_bot.Json.{Json, Fields}
use un_tzibbur_bot.Entities.{GroupDto, MemberDto}
use un_tzibbur_bot.Error.{
  AppError, Result, ok, err, code, request_id, from_status, invalidates_session,
}
use un_tzibbur_bot.Error.Problem.{ProblemDto, problem_code, from_problem}
use un_tzibbur_bot.Error.Problem.Codes.{known, from_problem_lem}
use un_tzibbur_bot.Http.{HttpEnv, Answer, Client, Page, list_all_groups, list_all_members, send}
use un_tzibbur_bot.Http.Refused.{ends_session, due, send_lem}
use un_tzibbur_bot.Http.Paging.{Serves, list_all_ends}

abbrev as_u64 : Json → Option ℕ
as_u64 (Json.number text) = some 30
as_u64 _ = none

abbrev problem : ProblemDto
problem = record {
  type_uri = some "urn:tzibbur:problem:rate_limited";
  title = none;
  status = some 429;
  detail = none;
  request_id = some "r1";
  errors = none;
  extra = Fields.field "retryAfterSeconds" (Json.number "30") Fields.end;
}

from_problem_lem_example :
    let e = from_problem as_u64 429 problem none in
    let slug = unwrap_or (problem_code problem) [] in
    (known slug ≡ true → codes (code e) ≡ slug)
    × (known slug ≡ false
        → text_eq slug (codes "validation") ≡ false
        → e ≡ from_status 429 problem.request_id problem.detail none problem.errors)
    × (request_id e ≡ problem.request_id)
from_problem_lem_example = from_problem_lem as_u64 429 problem none

limited : from_problem as_u64 429 problem none ≡ AppError.rate_limited (some 30) (some "r1")
unfolding from_problem any ascii_lowercase
limited = refl

abbrev env : HttpEnv
env = record { parse_problem = λ text. none; as_u64 = as_u64 }

abbrev client : Client
client = record { token = some "t"; notified = 0; sent = [] }

abbrev unauthorized : Answer
unauthorized =
    Answer.answered (record { status = 401; retry_after = none; request_id = none; text = "no" })

send_lem_example :
    let r = send env true unauthorized client in
    (r.0.notified ≡ (if ends_session r.1 then suc client.notified else client.notified))
    × (r.0.token ≡ client.token)
    × (r.0.sent ≡ due true client.token ++ client.sent)
send_lem_example = send_lem env true unauthorized client

told : (send env true unauthorized client).0.notified ≡ 1
unfolding send invalidates_session from_problem from_status
told = refl

abbrev member : String → MemberDto
member id = record {
  user_id = id;
  display_name = "A";
  phone_e164 = none;
  role = Role.member;
  joined_at = none;
}

abbrev pages : Option String → Result (Page MemberDto)
pages none = ok (record { items = member "a" ∷ []; next_cursor = some "2"; has_more = true })
pages (some c) = ok (record { items = member "b" ∷ []; next_cursor = some ""; has_more = false })

abbrev no_groups : Option String → Result (Page GroupDto)
no_groups cursor = err AppError.not_signed_in

pages-Serves : Serves pages none 2 (ok (member "a" ∷ member "b" ∷ []))
pages-Serves =
    Serves.goes_on none _ "2" refl refl refl (Serves.ends_empty (some "2") _ refl refl refl)

list_all_ends_example :
    (list_all_groups no_groups 3 ≡ some (err AppError.not_signed_in))
    × (list_all_members pages 3 ≡ some (ok (member "a" ∷ member "b" ∷ [])))
list_all_ends_example =
    list_all_ends no_groups pages 3 (Serves.fails none AppError.not_signed_in refl) pages-Serves
      (omega arith) (omega arith)
