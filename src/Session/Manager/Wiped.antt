-- ===== src/Session/Manager/Wiped.antt =====
-- What a wipe of the session leaves, and the token of a session.
use un_tzibbur_bot.Base.{◌≡◌, refl, sym, true, false, none, []}
use un_tzibbur_bot.Error.{Result, ok, err}
use un_tzibbur_bot.Store.{SqliteStore}
use un_tzibbur_bot.Store.Calls.{perform}
use un_tzibbur_bot.Store.Wipe.{clear_all}
use un_tzibbur_bot.Sync.{Server, call, performed, logged}
use un_tzibbur_bot.Session
use un_tzibbur_bot.Session.{Io, User, StoredSession, FileEnv, File, no_session}
use un_tzibbur_bot.Session.Manager.{
  SessionState, SessionManager, emptied, wipe_session, on_cleared, landed,
}

-- No row of any table is left.
abbrev pub IsEmpty : SqliteStore → Type 0
IsEmpty s =
    (s.groups ≡ []) × (s.messages ≡ []) × (s.members ≡ []) × (s.outbox ≡ []) × (s.replies ≡ [])

-- The device is signed out, or the disk failed and it has kept its session.
abbrev pub EndsSession :
    {Doc : Type 0} → SessionManager Doc → SessionManager Doc × Result (Unit {0}) → Type 0
EndsSession m (m', ok _) =
    (m'.token ≡ none) × (m'.state ≡ SessionState.signed_out) × (m'.file ≡ none)
EndsSession m (m', err _) = (m'.token ≡ m.token) × (m'.state ≡ m.state) × (m'.file ≡ m.file)

emptied-IsEmpty : {Doc : Type 0} (v : Server) (m : SessionManager Doc) → IsEmpty (emptied v m).store
unfolding emptied call performed logged perform clear_all
emptied-IsEmpty v m = (refl, refl, refl, refl, refl)

wiped :
    {Doc : Type 0} (disk : Io) (file : File Doc) (m : SessionManager Doc)
    → m.file ≡ file
    → IsEmpty m.engine.store
    → let r = landed (on_cleared (Session.clear disk file) m) in
      IsEmpty r.0.engine.store × (r.0.wipe_in_flight ≡ false) × EndsSession m r
unfolding Session.clear
wiped Io.done file m f e = (e, refl, (refl, refl, refl))
wiped (Io.failed text) file m f e = (e, refl, (refl, refl, sym f))

-- A wipe that is not under way already empties the local store, also of what other tasks wrote
-- while the engine was stopping, whatever the disk answers; if the disk removes the session, the
-- client has no token and the state is signed out; if it fails, these stay. Either way the next
-- wipe is not refused.
pub wipe_session_lem :
    {Doc : Type 0} (v : Server) (disk : Io) (m : SessionManager Doc)
    → m.wipe_in_flight ≡ false
    → let r = wipe_session v disk m in
      IsEmpty r.0.engine.store × (r.0.wipe_in_flight ≡ false) × EndsSession m r
unfolding wipe_session
wipe_session_lem v disk m free = rw free (
    wiped disk m.file (record m { wipe_in_flight = true; engine = emptied v m }) refl
      (emptied-IsEmpty v m))
