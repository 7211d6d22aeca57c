-- ===== src/Http.antt =====
-- http.rs (crates/tzibbur-api/src/http.rs): the plumbing of `TzibburClient`, which sends a request
-- and maps what is refused to an error, and the two methods that follow cursors. What reqwest answers
-- and what serde_json reads of it are parameters.
pub mod Refused
pub mod Paging
use Prim.Native.String
use un_tzibbur_bot.Base.{
  ℕ, zero, suc, ◌+◌, String, Bool, true, false, not, ◌&&◌, ◌||◌, Option, none, some, List, [], ◌∷◌,
  ◌++◌, is_some, leb, or_else, if◌then◌else◌,
}
use un_tzibbur_bot.Json.{Json, Fields}
use un_tzibbur_bot.Validation.{is_empty}
use un_tzibbur_bot.Entities.{GroupDto, MemberDto}
use un_tzibbur_bot.Error.{AppError, Result, ok, err, invalidates_session}
use un_tzibbur_bot.Error.Problem.{ProblemDto, from_problem}

-- What is taken of a `reqwest::Response`; `retry_after` is the header as it was parsed.
pub record Response : Type 0 where
  pub status : ℕ
  pub retry_after : Option ℕ
  pub request_id : Option String
  pub text : String

-- What the transport makes of a request: an error, or a response.
pub data Answer : Type 0 where
  failed : (message : String) → Answer
  answered : Response → Answer

pub record HttpEnv : Type 0 where
  pub parse_problem : String → Option ProblemDto
  pub as_u64 : Json → Option ℕ

-- What the client keeps that requests read or change; `notified` counts the calls of the listener
-- and `sent` has, for each request that left, whether it carried a token.
pub record Client : Type 0 where
  pub token : Option String
  pub notified : ℕ
  pub sent : List (Option String)

-- `.chars().take(n)`
unfoldable pub take_chars : ℕ → String → String
take_chars zero s = ""
take_chars (suc n) String.[] = ""
take_chars (suc n) (String.◌∷◌ c s) = String.◌∷◌ c (take_chars n s)

-- The detail of a body that is no problem document.
unfoldable pub detail_of : String → ProblemDto → Option String
unfolding take_chars
detail_of text p =
    if not (is_some p.detail) && not (is_empty text) && not (is_some p.type_uri)
    then some (take_chars 512 text)
    else p.detail

abbrev pub parsed : Option ProblemDto → ProblemDto
parsed none = record {
  type_uri = none;
  title = none;
  status = none;
  detail = none;
  request_id = none;
  errors = none;
  extra = Fields.end;
}
parsed (some p) = p

unfoldable pub completed : Response → ProblemDto → ProblemDto
unfolding detail_of
completed resp p = record p {
  request_id = or_else p.request_id resp.request_id;
  detail = detail_of resp.text p;
}

-- `map_error`
unfoldable pub map_error : HttpEnv → Response → AppError
unfolding completed
map_error env resp =
    from_problem env.as_u64 resp.status (completed resp (parsed (env.parse_problem resp.text)))
      resp.retry_after

abbrev pub is_success : ℕ → Bool
is_success status = leb 200 status && leb status 299

-- `notify_session_invalidated`
unfoldable pub notify_session_invalidated : Client → Client
notify_session_invalidated c = record c { notified = suc c.notified }

unfoldable pub refused : AppError → Client → Client × Result Response
unfolding notify_session_invalidated
refused error c = (if invalidates_session error then notify_session_invalidated c else c, err error)

-- The response, or the error of the transport.
unfoldable pub on_response : HttpEnv → Answer → Client → Client × Result Response
unfolding map_error refused
on_response env (Answer.failed message) c = (c, err (AppError.network message (some message)))
on_response env (Answer.answered resp) c =
    if is_success resp.status then (c, ok resp) else refused (map_error env resp) c

unfoldable pub dispatch : HttpEnv → Option String → Answer → Client → Client × Result Response
unfolding on_response
dispatch env bearer answer c = on_response env answer (record c { sent = bearer ∷ c.sent })

unfoldable pub with_token : HttpEnv → Option String → Answer → Client → Client × Result Response
unfolding dispatch
with_token env none answer c = (c, err AppError.not_signed_in)
with_token env (some token) answer c = dispatch env (some token) answer c

-- `send`, of a path that makes a URL: `answer` is what the transport makes of the request.
unfoldable pub send : HttpEnv → (auth : Bool) → Answer → Client → Client × Result Response
unfolding dispatch with_token
send env auth answer c =
    if auth then with_token env c.token answer c else dispatch env none answer c

pub record Page {ℓ} (T : Type ℓ) : Type ℓ where
  pub items : List T
  pub next_cursor : Option String
  pub has_more : Bool

-- Whether the cursor of a page is followed, in `list_all_groups` and in `list_all_members`.
unfoldable pub next_of_groups : Page GroupDto → Option String
next_of_groups page = elim page.next_cursor [
  | none ↦ none
  | some c ↦ if page.has_more || not (is_empty c) then some c else none
]

unfoldable pub next_of_members : Page MemberDto → Option String
next_of_members page = elim page.next_cursor [
  | none ↦ none
  | some c ↦ if not (is_empty c) then some c else none
]

-- The loop of both methods, on fuel: the server is asked for the page of each cursor in turn.
-- `none` if the fuel has run out.
module _ {ℓ} {T : Type ℓ} (list : Option String → Result (Page T))
    (next : Page T → Option String) where
  abbrev pub Go : Type ℓ
  Go = Option String → List T → Option (Result (List T))

  unfoldable pub on_next : Go → List T → Option String → Option (Result (List T))
  on_next go out none = some (ok out)
  on_next go out (some cursor) = go (some cursor) out

  unfoldable pub on_listed : Go → List T → Result (Page T) → Option (Result (List T))
  unfolding on_next
  on_listed go out (err error) = some (err error)
  on_listed go out (ok page) = on_next go (out ++ page.items) (next page)

  unfoldable pub follow : ℕ → Option String → List T → Option (Result (List T))
  unfolding on_listed
  follow zero cursor out = none
  follow (suc fuel) cursor out = on_listed (follow fuel) out (list cursor)

-- With the number of pages that may be asked for.
unfoldable pub list_all_groups :
    (Option String → Result (Page GroupDto)) → ℕ → Option (Result (List GroupDto))
unfolding follow next_of_groups
list_all_groups list fuel = follow list next_of_groups fuel none []

unfoldable pub list_all_members :
    (Option String → Result (Page MemberDto)) → ℕ → Option (Result (List MemberDto))
unfolding follow next_of_members
list_all_members list fuel = follow list next_of_members fuel none []
