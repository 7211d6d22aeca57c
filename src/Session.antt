-- ===== src/Session.antt =====
-- session.rs (crates/tzibbur-api/src/session.rs): what is kept of a session on disk
-- (`FileSessionStore`), and in Manager the `SessionManager`. The file is a document, `none` if it
-- is missing. The cipher is any implementation of `SecretCipher`; it, base64, UTF-8 and JSON are
-- functions of the record `FileEnv`. An `Io` is what the system answers to a read, a write or a removal;
-- that a file is missing is no error of it.
pub mod Stored
pub mod Manager
use un_tzibbur_bot.Base.{String, Bool, true, false, Option, none, some, ℤ, if◌then◌else◌}
use un_tzibbur_bot.Json.{Fields}
use un_tzibbur_bot.Error.{AppError, Result, ok, err, ◌>>=◌}

pub data AccountKind : Type 0 where
  person organization service : AccountKind
  other : String → AccountKind

pub record User : Type 0 where
  pub id : String
  pub display_name : String
  pub phone_e164 : Option String
  pub kind : AccountKind
  pub created_at : Option ℤ
  pub email : Option String
  pub google_linked : Bool

pub record Device : Type 0 where
  pub id : String
  pub name : Option String
  pub platform : Option String
  pub app_version : Option String
  pub device_model : Option String
  pub user_id : Option String
  pub imei : Option String
  pub serial_number : Option String
  pub created_at : Option ℤ
  pub last_seen_at : Option ℤ
  pub extra : Fields

pub record StoredSession : Type 0 where
  pub user : User
  pub device : Device
  pub token : String

pub record SessionFile : Type 0 where
  pub user : Option User
  pub device : Option Device
  pub token_ciphertext : Option String

-- `Bytes` are the bytes of a text and of what the cipher gives, `Doc` those of a JSON document.
pub record FileEnv (Bytes Doc : Type 0) : Type 0 where
  pub encrypt : Bytes → Result Bytes
  pub decrypt : Bytes → Result Bytes
  pub encode : Bytes → String
  pub decode : String → Result Bytes
  pub as_bytes : String → Bytes
  pub from_utf8 : Bytes → Result String
  pub to_vec : SessionFile → Result Doc
  pub is_empty : Doc → Bool
  pub from_slice : Doc → Result SessionFile

abbrev pub File : Type 0 → Type 0
File Doc = Option Doc

abbrev pub no_session : SessionFile
no_session = record { user = none; device = none; token_ciphertext = none }

pub data Io : Type 0 where
  done : Io
  failed : (text : String) → Io

-- `.map_err(|e| AppError::Store(e.to_string()))`
abbrev pub checked : Io → Result (Unit {0})
checked Io.done = ok tt
checked (Io.failed text) = err (AppError.store text)

-- What `update_display_name` meets, which reads the file and writes it.
pub record Disk : Type 0 where
  pub reading : Io
  pub writing : Io

-- The operations of the trait `SessionStore` that change it.
pub data Command : Type 0 where
  save_session : StoredSession → Command
  rename : (name : String) → Command
  forget : Command

-- `read`
unfoldable pub read :
    {Bytes Doc : Type 0} → FileEnv Bytes Doc → (disk : Io) → File Doc → Result SessionFile
read env (Io.failed text) file = err (AppError.store text)
read env Io.done none = ok no_session
read env Io.done (some doc) = if env.is_empty doc then ok no_session else env.from_slice doc

-- The new file takes the old one's place when it is complete.
abbrev replaced : {Doc : Type 0} → File Doc → Result (Doc) → File Doc × Result (Unit {0})
replaced file (err error) = (file, err error)
replaced file (ok bytes) = (some bytes, ok tt)

-- `write`
unfoldable pub write :
    {Bytes Doc : Type 0}
    → FileEnv Bytes Doc
    → (disk : Io) → SessionFile
    → File Doc
    → File Doc × Result (Unit {0})
write env disk f file = replaced file (env.to_vec f >>= λ bytes. checked disk >>= λ _. ok bytes)

unfoldable pub decrypted : {Bytes Doc : Type 0} → FileEnv Bytes Doc → String → Result String
decrypted env ct = env.decode ct >>= λ wire. env.decrypt wire >>= λ bytes. env.from_utf8 bytes

unfoldable pub session_of :
    {Bytes Doc : Type 0} → FileEnv Bytes Doc → SessionFile → Result (Option StoredSession)
unfolding decrypted
session_of env f = elim f.user [
  | none ↦ ok none
  | some user ↦ elim f.device [
    | none ↦ ok none
    | some device ↦ elim f.token_ciphertext [
      | none ↦ ok none
      | some ct ↦ decrypted env ct >>= λ token.
          ok (some (record { user = user; device = device; token = token }))
    ]
  ]
]

-- `load`
unfoldable pub load :
    {Bytes Doc : Type 0}
    → FileEnv Bytes Doc
    → (disk : Io) → File Doc
    → Result (Option StoredSession)
unfolding read session_of
load env disk file = read env disk file >>= session_of env

abbrev or_kept {ℓ} :
    {Doc : Type 0}
    → {T : Type ℓ} → Result T
    → (T → File Doc × Result (Unit {0}))
    → File Doc
    → File Doc × Result (Unit {0})
or_kept (err error) next file = (file, err error)
or_kept (ok value) next file = next value

-- `save`
unfoldable pub save :
    {Bytes Doc : Type 0}
    → FileEnv Bytes Doc
    → (disk : Io) → StoredSession
    → File Doc
    → File Doc × Result (Unit {0})
unfolding write
save env disk s file =
    or_kept (env.encrypt (env.as_bytes s.token))
      (λ wire.
        write env disk
          (record {
            user = some s.user;
            device = some s.device;
            token_ciphertext = some (env.encode wire);
          })
          file)
      file

abbrev pub named : String → Option User → Option User
named name none = none
named name (some u) = some (record u { display_name = name })

-- `update_display_name`
unfoldable pub update_display_name :
    {Bytes Doc : Type 0}
    → FileEnv Bytes Doc
    → Disk
    → String
    → File Doc
    → File Doc × Result (Unit {0})
unfolding read write
update_display_name env disk name file =
    or_kept (read env disk.reading file)
      (λ f. write env disk.writing (record f { user = named name f.user }) file) file

-- `clear`: a missing file is no error.
unfoldable pub clear : {Doc : Type 0} (disk : Io) → File Doc → File Doc × Result (Unit {0})
clear Io.done file = (none, ok tt)
clear (Io.failed text) file = (file, err (AppError.store text))

unfoldable pub file_run :
    {Bytes Doc : Type 0}
    → FileEnv Bytes Doc
    → Disk
    → Command
    → File Doc
    → File Doc × Result (Unit {0})
unfolding save update_display_name clear
file_run env disk (Command.save_session s) file = save env disk.writing s file
file_run env disk (Command.rename name) file = update_display_name env disk name file
file_run env disk Command.forget file = clear disk.writing file

abbrev pub renamed : String → StoredSession → StoredSession
renamed name s = record s { user = record s.user { display_name = name } }

-- `MemorySessionStore`
unfoldable pub memory_run : Command → Option StoredSession → Option StoredSession
memory_run (Command.save_session s) memory = some s
memory_run (Command.rename name) none = none
memory_run (Command.rename name) (some s) = some (renamed name s)
memory_run Command.forget memory = none
