-- ===== src/Session/Stored.antt =====
-- `FileSessionStore` of session.rs against `MemorySessionStore`, which keeps the session as a value.
use un_tzibbur_bot.Base.{◌≡◌, refl, sym, String, false, Option, none, some}
use un_tzibbur_bot.Error.{Result, ok, err, bind-eq-ok}
use un_tzibbur_bot.Json.{Fields}
use un_tzibbur_bot.Session.{
  AccountKind, Io, Disk, User, Device, StoredSession, SessionFile, FileEnv, File, read, write,
  decrypted, session_of, load, save, update_display_name, clear, named, Command, file_run,
  memory_run,
}

-- A user whose kind is one of the named ones, and a device without additional fields: those are
-- written and read field by field.
abbrev pub IsNamed : AccountKind → Type 0
IsNamed (AccountKind.other name) = ⊥
IsNamed _ = Unit

abbrev pub PlainUser : Option User → Type 0
PlainUser none = Unit
PlainUser (some u) = IsNamed u.kind

abbrev pub PlainDevice : Option Device → Type 0
PlainDevice none = Unit
PlainDevice (some d) = d.extra ≡ Fields.end

abbrev pub IsPlain : SessionFile → Type 0
IsPlain f = PlainUser f.user × PlainDevice f.device

-- What is written is read back: by the cipher, base64, UTF-8, and JSON, whose documents are not
-- empty.
pub record Laws {Bytes Doc : Type 0} (env : FileEnv Bytes Doc) : Type 0 where
  pub decrypts : (text wire : Bytes) → env.encrypt text ≡ ok wire → env.decrypt wire ≡ ok text
  pub decodes : (wire : Bytes) → env.decode (env.encode wire) ≡ ok wire
  pub reads_utf8 : (s : String) → env.from_utf8 (env.as_bytes s) ≡ ok s
  pub reads_json :
      (f : SessionFile) (doc : Doc)
      → IsPlain f
      → env.to_vec f ≡ ok doc
      → (env.is_empty doc ≡ false) × (env.from_slice doc ≡ ok f)

-- It succeeded and the file has this session, or it failed and the file is as it was.
abbrev pub Stores :
    {Bytes Doc : Type 0}
    → FileEnv Bytes Doc
    → File Doc
    → Option StoredSession
    → File Doc × Result (Unit {0})
    → Type 0
Stores env file memory (file', ok _) = load env Io.done file' ≡ ok memory
Stores env file memory (file', err _) = file' ≡ file

-- What is saved, or was saved before, is plain.
abbrev pub Saves : {Bytes Doc : Type 0} → FileEnv Bytes Doc → File Doc → Command → Type 0
Saves env file (Command.save_session s) = IsNamed s.user.kind × (s.device.extra ≡ Fields.end)
Saves env file (Command.rename name) = (f : SessionFile) → read env Io.done file ≡ ok f → IsPlain f
Saves env file Command.forget = Unit

named-PlainUser : (name : String) (u : Option User) → PlainUser u → PlainUser (named name u)
named-PlainUser name none h = tt
named-PlainUser name (some u) h = h

pub ok-eq {ℓ} : {T : Type ℓ} {x y : T} → Path (Result T) (ok x) (ok y) → x ≡ y
ok-eq h = cc

module _ {Bytes Doc : Type 0} (env : FileEnv Bytes Doc) (laws : Laws env) where
  read-written :
      (f : SessionFile) (bytes : Doc)
      → IsPlain f
      → env.to_vec f ≡ ok bytes
      → read env Io.done (some bytes) ≡ ok f
  unfolding read
  read-written f bytes p e = let (full, back) = laws.reads_json f bytes p e in rw full back

  write-Stores :
      (disk : Io) (f : SessionFile) (file : File Doc) (memory : Option StoredSession)
      → IsPlain f
      → session_of env f ≡ ok memory
      → Stores env file memory (write env disk f file)
  unfolding write load
  write-Stores disk f file memory p h = go disk (env.to_vec f) refl
    where
      go :
          (disk : Io) (r : Result Doc)
          → env.to_vec f ≡ r
          → Stores env file memory (write env disk f file)
      go disk (err error) e = rw e refl
      go (Io.failed text) (ok bytes) e = rw e refl
      go Io.done (ok bytes) e = rw e (rw (read-written f bytes p e) h)

  decrypted-encrypted :
      (s : String) (wire : Bytes)
      → env.encrypt (env.as_bytes s) ≡ ok wire
      → decrypted env (env.encode wire) ≡ ok s
  unfolding decrypted
  decrypted-encrypted s wire e =
      rw (laws.decodes wire, laws.decrypts (env.as_bytes s) wire e) (laws.reads_utf8 s)

  save-Stores :
      (disk : Io) (s : StoredSession) (file : File Doc)
      → IsNamed s.user.kind × (s.device.extra ≡ Fields.end)
      → Stores env file (some s) (save env disk s file)
  unfolding save session_of
  save-Stores disk s file p = go (env.encrypt (env.as_bytes s.token)) refl
    where
      go :
          (r : Result Bytes)
          → env.encrypt (env.as_bytes s.token) ≡ r
          → Stores env file (some s) (save env disk s file)
      go (err error) e = rw e refl
      go (ok wire) e = rw e (
          write-Stores disk
            (record {
              user = some s.user;
              device = some s.device;
              token_ciphertext = some (env.encode wire);
            })
            file (some s) p (rw (decrypted-encrypted s.token wire e) refl))

  session_of-named :
      (name : String) (u : Option User) (d : Option Device) (ct : Option String)
      (memory : Option StoredSession)
      → session_of env (record { user = u; device = d; token_ciphertext = ct }) ≡ ok memory
      → session_of env (record { user = named name u; device = d; token_ciphertext = ct })
        ≡ ok (memory_run (Command.rename name) memory)
  unfolding session_of memory_run
  session_of-named name none d ct none h = refl
  session_of-named name (some u) none ct none h = refl
  session_of-named name (some u) (some d) none none h = refl
  session_of-named name (some u) (some d) (some ct) memory h =
      let (token, e, m) = bind-eq-ok (decrypted env ct) _ h in rw (e, sym (ok-eq m)) refl
  session_of-named name none d ct (some s) h = cc
  session_of-named name (some u) none ct (some s) h = cc
  session_of-named name (some u) (some d) none (some s) h = cc

  update_display_name-Stores :
      (disk : Disk) (name : String) (file : File Doc) (memory : Option StoredSession)
      → Saves env file (Command.rename name)
      → load env Io.done file ≡ ok memory
      → Stores env file
          (memory_run (Command.rename name) memory)
          (update_display_name env disk name file)
  unfolding load update_display_name
  update_display_name-Stores disk name file memory p h = go disk.reading refl
    where
      go :
          (reading : Io)
          → disk.reading ≡ reading
          → Stores env file
              (memory_run (Command.rename name) memory)
              (update_display_name env disk name file)
      go (Io.failed text) r = rw r (unfold read in refl)
      go Io.done r =
          let (f, e, m) = bind-eq-ok (read env Io.done file) _ h in
          let plain = p f e in
          rw (r, e)
            (write-Stores disk.writing (record f { user = named name f.user }) file _
              (named-PlainUser name f.user plain.0, plain.1)
              (session_of-named name f.user f.device f.token_ciphertext memory m))

  clear-Stores : (disk : Io) (file : File Doc) → Stores env file none (clear disk file)
  unfolding clear load read session_of
  clear-Stores Io.done file = refl
  clear-Stores (Io.failed text) file = refl

-- The file behaves as the session in memory does: whatever it is asked to do, and whatever errors
-- the disk has in reading or writing, it either succeeds, and then holds what the memory would, or
-- fails, and then is as it was. What is saved has a user of a named kind and a device without
-- additional fields, and the file that is renamed has as well.
pub file_run-Stores :
    {Bytes Doc : Type 0} (env : FileEnv Bytes Doc) (disk : Disk) (c : Command) (file : File Doc)
    (memory : Option StoredSession)
    → Laws env
    → Saves env file c
    → load env Io.done file ≡ ok memory
    → Stores env file (memory_run c memory) (file_run env disk c file)
unfolding file_run memory_run
file_run-Stores env disk (Command.save_session s) file memory laws p h =
    save-Stores env laws disk.writing s file p
file_run-Stores env disk (Command.rename name) file memory laws p h =
    update_display_name-Stores env laws disk name file memory p h
file_run-Stores env disk Command.forget file memory laws p h =
    clear-Stores env laws disk.writing file
