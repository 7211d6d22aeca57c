-- ===== src/Examples/Sessions.antt =====
-- The theorems on the session, applied to a file without encryption, as `PlainCipher` leaves it, and
-- to a manager that signs in, changes its name and signs out.
use un_tzibbur_bot.Base.{◌≡◌, refl, sym, String, true, false, none, some, List, [], ◌∷◌}
use un_tzibbur_bot.Json.{Fields}
use un_tzibbur_bot.Error.{ok}
use un_tzibbur_bot.Session.{
  AccountKind, Io, Disk, read, User, Device, StoredSession, SessionFile, FileEnv, File, load,
  Command, file_run, memory_run,
}
use un_tzibbur_bot.Session.Stored.{Laws, Saves, Stores, ok-eq, file_run-Stores}
use un_tzibbur_bot.Session.Manager.{SessionState, SessionManager, wipe_session, Operation, run}
use un_tzibbur_bot.Session.Manager.Wiped.{IsEmpty, EndsSession, wipe_session_lem}
use un_tzibbur_bot.Session.Manager.Signed.{Signed, run-Signed}
use un_tzibbur_bot.Examples.Data.{row, holding}
use un_tzibbur_bot.Examples.Engine.{server, engine}

abbrev user : User
user = record {
  id = "u";
  display_name = "A";
  phone_e164 = none;
  kind = AccountKind.person;
  created_at = none;
  email = none;
  google_linked = false;
}

abbrev device : Device
device = record {
  id = "d";
  name = none;
  platform = none;
  app_version = none;
  device_model = none;
  user_id = none;
  imei = none;
  serial_number = none;
  created_at = none;
  last_seen_at = none;
  extra = Fields.end;
}

abbrev session : StoredSession
session = record { user = user; device = device; token = "t" }

abbrev plain : FileEnv String SessionFile
plain = record {
  encrypt = λ text. ok text;
  decrypt = λ wire. ok wire;
  encode = λ wire. wire;
  decode = λ text. ok text;
  as_bytes = λ text. text;
  from_utf8 = λ bytes. ok bytes;
  to_vec = λ f. ok f;
  is_empty = λ doc. false;
  from_slice = λ doc. ok doc;
}

plain-Laws : Laws plain
plain-Laws = record {
  decrypts = λ text wire e. sym e;
  decodes = λ wire. refl;
  reads_utf8 = λ s. refl;
  reads_json = λ f doc p e. (refl, sym e);
}

abbrev file : File SessionFile
file = some (record { user = some user; device = some device; token_ciphertext = some "t" })

abbrev works : Disk
works = record { reading = Io.done; writing = Io.done }

saved_plain : Saves plain file (Command.rename "B")
unfolding read
saved_plain f e = rw (← ok-eq e) (tt, refl)

file_run-Stores_example :
    Stores plain file
      (memory_run (Command.rename "B") (some session))
      (file_run plain works (Command.rename "B") file)
file_run-Stores_example =
    file_run-Stores plain works (Command.rename "B") file (some session) plain-Laws saved_plain
      (unfold load in refl)

abbrev manager : SessionManager SessionFile
manager = record {
  state = SessionState.signed_in user "t";
  token = some "t";
  file = file;
  engine = engine (holding row);
  attached = true;
  wipe_in_flight = false;
}

wipe_session_lem_example :
    let r = wipe_session server Io.done manager in
    IsEmpty r.0.engine.store × (r.0.wipe_in_flight ≡ false) × EndsSession manager r
wipe_session_lem_example = wipe_session_lem server Io.done manager refl

abbrev operations : List Operation
operations =
    Operation.read_stored Io.done
    ∷ Operation.change_name works (ok user)
    ∷ Operation.wipe (Io.failed "no space")
    ∷ Operation.verify Io.done (ok session)
    ∷ []

run-Signed_example : Signed (run plain server operations manager)
run-Signed_example = run-Signed plain server operations manager refl
