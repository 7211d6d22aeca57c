-- ===== src/Session/Manager/Signed.antt =====
-- The token of a manager of session.rs that is signed in.
use un_tzibbur_bot.Base.{
  ◌≡◌, refl, String, true, Bool-cases, inl, inr, Option, none, some, List, [], ◌∷◌, is_some,
}
use un_tzibbur_bot.Error.{Result, ok, err}
use un_tzibbur_bot.Sync.{Server}
use un_tzibbur_bot.Session
use un_tzibbur_bot.Session.{User, StoredSession, FileEnv, File}
use un_tzibbur_bot.Session.Manager.{
  SessionState, SessionManager, told_user, loaded, load, verify_auth, update_display_name,
  wipe_session, on_loaded, on_saved, on_renamed, on_cleared, landed, with_name, emptied, Operation,
  operate, run,
}

-- Who is signed in has a token.
abbrev pub HasToken : SessionState → Option String → Type 0
HasToken (SessionState.signed_in user token) t = is_some t ≡ true
HasToken _ t = Unit

some-HasToken : (state : SessionState) (token : String) → HasToken state (some token)
some-HasToken SessionState.loading token = tt
some-HasToken SessionState.signed_out token = tt
some-HasToken (SessionState.signed_in user t) token = refl

named-HasToken :
    (name : String) (state : SessionState) (t : Option String)
    → HasToken state t
    → HasToken (with_name name state) t
named-HasToken name SessionState.loading t h = tt
named-HasToken name SessionState.signed_out t h = tt
named-HasToken name (SessionState.signed_in user token) t h = h

told-token :
    {Doc : Type 0} (id : Option String) (m : SessionManager Doc) → (told_user id m).token ≡ m.token
unfolding told_user
told-token id m = elim (Bool-cases m.attached) [ inl e ↦ rw e refl | inr e ↦ rw e refl ]

abbrev pub Signed : {Doc : Type 0} → SessionManager Doc → Type 0
Signed m = HasToken m.state m.token

loaded-Signed :
    {Doc : Type 0} (r : Result (Option StoredSession)) (m : SessionManager Doc)
    → Signed m
    → Signed (on_loaded r m).0
unfolding loaded
loaded-Signed (err error) m h = h
loaded-Signed (ok none) m h = tt
loaded-Signed (ok (some s)) m h =
    rw (told-token (some s.user.id) (record m { token = some s.token })) refl

saved-Signed :
    {Doc : Type 0} (s : StoredSession) (r : File Doc × Result (Unit {0})) (m : SessionManager Doc)
    → m.token ≡ some s.token
    → Signed (on_saved s r m).0
saved-Signed s (file, err error) m t = rw t (some-HasToken m.state s.token)
saved-Signed s (file, ok _) m t =
    rw (told-token (some s.user.id) (record m { file = file }), t) refl

renamed-Signed :
    {Doc : Type 0} (user : User) (r : File Doc × Result (Unit {0})) (m : SessionManager Doc)
    → Signed m
    → Signed (on_renamed user r m).0
renamed-Signed user (file, err error) m h = h
renamed-Signed user (file, ok _) m h = named-HasToken user.display_name m.state m.token h

cleared-Signed :
    {Doc : Type 0} (r : File Doc × Result (Unit {0})) (m : SessionManager Doc)
    → Signed m
    → Signed (landed (on_cleared r m)).0
cleared-Signed (file, err error) m h = h
cleared-Signed (file, ok _) m h = tt

operate-Signed :
    {Bytes Doc : Type 0} (env : FileEnv Bytes Doc) (v : Server) (o : Operation)
    (m : SessionManager Doc)
    → Signed m
    → Signed (operate env v o m)
unfolding operate load verify_auth update_display_name wipe_session
operate-Signed env v (Operation.read_stored disk) m h =
    loaded-Signed (Session.load env disk m.file) m h
operate-Signed env v (Operation.wipe disk) m h = elim (Bool-cases m.wipe_in_flight) [
  | inl e ↦ rw e h
  | inr e ↦ rw e (
      cleared-Signed (Session.clear disk m.file)
        (record m { wipe_in_flight = true; engine = emptied v m }) h)
]
operate-Signed env v (Operation.verify disk (err error)) m h = h
operate-Signed env v (Operation.verify disk (ok s)) m h =
    saved-Signed s (Session.save env disk s m.file) (record m { token = some s.token }) refl
operate-Signed env v (Operation.change_name disk (err error)) m h = h
operate-Signed env v (Operation.change_name disk (ok user)) m h =
    renamed-Signed user (Session.update_display_name env disk user.display_name m.file) m h

-- Whatever the manager is asked to do, and whatever the client and the disk answer: while its state
-- is signed in, the client has a token.
pub run-Signed :
    {Bytes Doc : Type 0} (env : FileEnv Bytes Doc) (v : Server) (os : List Operation)
    (m : SessionManager Doc)
    → Signed m
    → Signed (run env v os m)
unfolding run
run-Signed env v [] m h = h
run-Signed env v (o ∷ os) m h = run-Signed env v os (operate env v o m) (operate-Signed env v o m h)
