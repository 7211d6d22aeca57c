-- ===== src/Session/Manager.antt =====
-- The `SessionManager` of session.rs: what it keeps in step are the stored session, the client's
-- token, the state that it publishes, and the sync engine with the local store. `answer` is the
-- client's answer to a request. The operations of one manager are taken one after another.
pub mod Wiped
pub mod Signed
use un_tzibbur_bot.Base.{
  String, Bool, true, false, Option, none, some, List, [], ◌∷◌, if◌then◌else◌,
}
use un_tzibbur_bot.Error.{AppError, Result, ok, err}
use un_tzibbur_bot.Store.Calls.{Call}
use un_tzibbur_bot.Sync.{Server, SyncEngine, Action, ◌>>◌, call}
use un_tzibbur_bot.Sync.Engine
use un_tzibbur_bot.Session
use un_tzibbur_bot.Session.{User, StoredSession, FileEnv, File, Io, Disk}

pub data SessionState : Type 0 where
  loading signed_out : SessionState
  signed_in : (user : User) (token : String) → SessionState

unfoldable pub is_signed_in : SessionState → Bool
is_signed_in (SessionState.signed_in user token) = true
is_signed_in _ = false

-- `token` is the client's; the local store is the one of `engine`, which the manager knows of if it
-- is `attached`.
pub record SessionManager (Doc : Type 0) : Type 0 where
  pub state : SessionState
  pub token : Option String
  pub file : File Doc
  pub engine : SyncEngine
  pub attached : Bool
  pub wipe_in_flight : Bool

-- What the manager may be asked to do; a session that the server has ended is wiped as well.
pub data Operation : Type 0 where
  read_stored : (disk : Io) → Operation
  wipe : (disk : Io) → Operation
  verify : (disk : Io) (answer : Result StoredSession) → Operation
  change_name : (disk : Disk) (answer : Result User) → Operation

unfoldable pub told_user : {Doc : Type 0} → Option String → SessionManager Doc → SessionManager Doc
told_user id m =
    if m.attached then record m { engine = record m.engine { self_user_id = id } } else m

unfoldable pub loaded :
    {Doc : Type 0} → Option StoredSession → SessionManager Doc → SessionManager Doc
unfolding told_user
loaded none m = record m { state = SessionState.signed_out }
loaded (some s) m = record (told_user (some s.user.id) (record m { token = some s.token })) {
  state = SessionState.signed_in s.user s.token;
}

abbrev pub on_loaded :
    {Doc : Type 0}
    → Result (Option StoredSession)
    → SessionManager Doc
    → SessionManager Doc × Result SessionState
on_loaded (err error) m = (m, err error)
on_loaded (ok stored) m = let m' = loaded stored m in (m', ok m'.state)

unfoldable pub load :
    {Bytes Doc : Type 0}
    → FileEnv Bytes Doc
    → (disk : Io) → SessionManager Doc
    → SessionManager Doc × Result SessionState
unfolding loaded
load env disk m = on_loaded (Session.load env disk m.file) m

-- The client has its token before the session is saved.
abbrev pub on_saved :
    {Doc : Type 0}
    → StoredSession
    → File Doc × Result (Unit {0})
    → SessionManager Doc
    → SessionManager Doc × Result StoredSession
on_saved s (file, err error) m = (record m { file = file }, err error)
on_saved s (file, ok _) m = (
  record (told_user (some s.user.id) (record m { file = file })) {
    state = SessionState.signed_in s.user s.token;
  },
  ok s,
)

unfoldable pub verify_auth :
    {Bytes Doc : Type 0}
    → FileEnv Bytes Doc
    → (disk : Io) → Result StoredSession
    → SessionManager Doc
    → SessionManager Doc × Result StoredSession
unfolding told_user
verify_auth env disk (err error) m = (m, err error)
verify_auth env disk (ok s) m =
    on_saved s (Session.save env disk s m.file) (record m { token = some s.token })

abbrev pub with_name : String → SessionState → SessionState
with_name name (SessionState.signed_in user token) =
    SessionState.signed_in (record user { display_name = name }) token
with_name name state = state

abbrev pub on_renamed :
    {Doc : Type 0}
    → User
    → File Doc × Result (Unit {0})
    → SessionManager Doc
    → SessionManager Doc × Result User
on_renamed user (file, err error) m = (record m { file = file }, err error)
on_renamed user (file, ok _) m =
    (record m { file = file; state = with_name user.display_name m.state }, ok user)

unfoldable pub update_display_name :
    {Bytes Doc : Type 0}
    → FileEnv Bytes Doc
    → Disk
    → Result User
    → SessionManager Doc
    → SessionManager Doc × Result User
update_display_name env disk (err error) m = (m, err error)
update_display_name env disk (ok user) m =
    on_renamed user (Session.update_display_name env disk user.display_name m.file) m

unfoldable pub stop_sync : Action (Unit {0})
stop_sync = Engine.stop >> Engine.set_self_user_id none

-- The engine when it is stopped and the local store is empty.
unfoldable pub emptied : {Doc : Type 0} → Server → SessionManager Doc → SyncEngine
unfolding stop_sync
emptied v m = (call Call.clear_all v (if m.attached then (stop_sync v m.engine).0 else m.engine)).0

abbrev pub on_cleared :
    {Doc : Type 0}
    → File Doc × Result (Unit {0})
    → SessionManager Doc
    → SessionManager Doc × Result (Unit {0})
on_cleared (file, err error) m = (record m { file = file }, err error)
on_cleared (file, ok _) m =
    (record m { file = file; token = none; state = SessionState.signed_out }, ok tt)

abbrev pub landed :
    {Doc : Type 0} → SessionManager Doc × Result (Unit {0}) → SessionManager Doc × Result (Unit {0})
landed (m, r) = (record m { wipe_in_flight = false }, r)

-- `wipe_session`, which is `sign_out` too.
unfoldable pub wipe_session :
    {Doc : Type 0}
    → Server
    → (disk : Io) → SessionManager Doc
    → SessionManager Doc × Result (Unit {0})
unfolding emptied
wipe_session v disk m =
    if m.wipe_in_flight
    then (m, ok tt)
    else landed (
        on_cleared (Session.clear disk m.file)
          (record m { wipe_in_flight = true; engine = emptied v m }))

unfoldable pub operate :
    {Bytes Doc : Type 0}
    → FileEnv Bytes Doc
    → Server
    → Operation
    → SessionManager Doc
    → SessionManager Doc
unfolding load verify_auth update_display_name wipe_session
operate env v (Operation.read_stored disk) m = (load env disk m).0
operate env v (Operation.wipe disk) m = (wipe_session v disk m).0
operate env v (Operation.verify disk answer) m = (verify_auth env disk answer m).0
operate env v (Operation.change_name disk answer) m = (update_display_name env disk answer m).0

unfoldable pub run :
    {Bytes Doc : Type 0}
    → FileEnv Bytes Doc
    → Server
    → List Operation
    → SessionManager Doc
    → SessionManager Doc
unfolding operate
run env v [] m = m
run env v (o ∷ os) m = run env v os (operate env v o m)
