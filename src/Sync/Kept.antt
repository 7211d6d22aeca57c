-- ===== src/Sync/Kept.antt =====
-- What every handler of sync.rs keeps, if the steps that the handlers are made of keep it: the rules
-- here, and one lemma for each handler in the children.
pub mod Groups
pub mod Rounds
pub mod Incoming
pub mod Outside
use un_tzibbur_bot.Base.{ℕ, String, ◌≡◌, refl, Bool, true, false, List, if-holds, if◌then◌else◌}
use un_tzibbur_bot.Error.{AppError, Result, ok, err}
use un_tzibbur_bot.Store.{SqliteStore}
use un_tzibbur_bot.Store.Calls.{Call}
use un_tzibbur_bot.Store.OutboxTable.Confirmed.{keeps_rows}
use un_tzibbur_bot.Socket.{ClientFrame, SyncState, state_eq}
use un_tzibbur_bot.Sync.{
  SyncEvent, Request, Effect, Server, SyncEngine, Action, continue, done, fail, ◌>>=◌, ◌>>◌,
  attempt, ignore, look, note, emit, logged, performed, call, try_call, interrupted, awaited, await,
  clock, shown, set_state,
}

abbrev pub is_ack : Effect → Bool
is_ack (Effect.asked (Request.ack _ _)) = true
is_ack (Effect.wrote (ClientFrame.ack _ _)) = true
is_ack _ = false

-- Entries that are no call of the store, no acknowledgement and no request of a pending page.
abbrev pub is_quiet : Effect → Bool
is_quiet (Effect.called _) = false
is_quiet (Effect.meanwhile _) = false
is_quiet (Effect.asked (Request.pending _)) = false
is_quiet what = if is_ack what then false else true

-- `P` is kept by the steps, but for acknowledgements and requests of a pending page; it depends on
-- the store and the log only. The engine itself deletes no row of the outbox.
pub record IsClosed (P : SyncEngine → Type 0) : Type 0 where
  pub logs : (what : Effect) (e : SyncEngine) → is_quiet what ≡ true → P e → P (logged what e)
  pub calls : (c : Call) (e : SyncEngine) → keeps_rows c ≡ true → P e → P (performed c e)
  pub others : (cs : List Call) (e : SyncEngine) → P e → P (interrupted cs e)
  pub settles : (e e' : SyncEngine) → e'.store ≡ e.store → e'.log ≡ e.log → P e → P e'

module _ (v : Server) (P : SyncEngine → Type 0) where
  pub record Keeps {ℓ} {T : Type ℓ} (m : Action T) : Type 0 where
    pub after : (e : SyncEngine) → P e → P (m v e).0

  continue-Keeps {ℓ ℓ'} :
      {T : Type ℓ} {U : Type ℓ'} (f : T → Action U)
      → ((value : T) → Keeps (f value))
      → (e : SyncEngine) → P e
      → (r : Result T) → P (continue f v e r).0
  continue-Keeps f kf e p (ok value) = (kf value).after e p
  continue-Keeps f kf e p (err error) = p

  pub bind-Keeps {ℓ ℓ'} :
      {T : Type ℓ} {U : Type ℓ'} (m : Action T) (f : T → Action U)
      → Keeps m
      → ((value : T) → Keeps (f value))
      → Keeps (m >>= f)
  unfolding ◌>>=◌
  bind-Keeps m f km kf = record {
    after = λ e p. continue-Keeps f kf (m v e).0 (km.after e p) (m v e).1;
  }

  pub then-Keeps {ℓ} :
      {U : Type ℓ} (m : Action (Unit {0})) (k : Action U) → Keeps m → Keeps k → Keeps (m >> k)
  unfolding ◌>>◌
  then-Keeps m k km kk = bind-Keeps m (λ _. k) km (λ _. kk)

  -- The same, from one state.
  pub then-at {ℓ} :
      {U : Type ℓ} (m : Action (Unit {0})) (k : Action U) (e : SyncEngine)
      → P (m v e).0
      → Keeps k
      → P ((m >> k) v e).0
  unfolding ◌>>◌ ◌>>=◌
  then-at m k e p kk = continue-Keeps (λ _. k) (λ _. kk) (m v e).0 p (m v e).1

  pub attempt-Keeps {ℓ} : {T : Type ℓ} (m : Action T) → Keeps m → Keeps (attempt m)
  attempt-Keeps m km = record { after = λ e p. km.after e p }

  pub ignore-Keeps {ℓ} : {T : Type ℓ} (m : Action T) → Keeps m → Keeps (ignore m)
  unfolding ignore
  ignore-Keeps m km = record { after = λ e p. km.after e p }

  pub if-Keeps {ℓ} :
      {T : Type ℓ} (b : Bool) (x y : Action T) → Keeps x → Keeps y → Keeps (if b then x else y)
  if-Keeps true x y kx ky = kx
  if-Keeps false x y kx ky = ky

  pub done-Keeps {ℓ} : {T : Type ℓ} (value : T) → Keeps (done value)
  done-Keeps value = record { after = λ e p. p }

  pub fail-Keeps {ℓ} : {T : Type ℓ} (error : AppError) → Keeps {T = T} (fail error)
  fail-Keeps error = record { after = λ e p. p }

  pub look-Keeps {ℓ} : {T : Type ℓ} (f : SyncEngine → T) → Keeps (look f)
  look-Keeps f = record { after = λ e p. p }

  pub clock-Keeps : Keeps clock
  clock-Keeps = record { after = λ e p. p }

  module _ (c : IsClosed P) where
    pub call-Keeps : (k : Call) → keeps_rows k ≡ true → Keeps (call k)
    unfolding call
    call-Keeps k h = record { after = λ e p. c.calls k e h p }

    pub try_call-Keeps :
        (k : Call) (run : SqliteStore → Result SqliteStore)
        → keeps_rows k ≡ true
        → Keeps (try_call k run)
    unfolding try_call
    try_call-Keeps k run h = record { after = λ e p. c.calls k e h p }

    pub note-Keeps : (what : Effect) → is_quiet what ≡ true → Keeps (note what)
    unfolding note
    note-Keeps what h = record { after = λ e p. c.logs what e h p }

    pub emit-Keeps : (ev : SyncEvent) → Keeps (emit ev)
    unfolding emit
    emit-Keeps ev = note-Keeps (Effect.emitted ev) refl

    pub await-Keeps {ℓ} :
        {T : Type ℓ} (what : Effect) (answer : Server → ℕ → Result T)
        → is_quiet what ≡ true
        → Keeps (await what answer)
    unfolding await awaited
    await-Keeps what answer h = record {
      after = λ e p.
          c.others (v.meanwhile e.requests) _
            (c.settles (logged what e) _ refl refl (c.logs what e h p));
    }

    pub set_state-Keeps : (s : SyncState) → Keeps (set_state s)
    unfolding set_state shown
    set_state-Keeps s = record {
      after = λ e p. if-holds P (state_eq e.state s) p (
          if-holds P (state_eq s SyncState.update_required)
            (c.logs _ _ refl (c.logs _ _ refl (c.settles e _ refl refl p)))
            (c.logs _ _ refl (c.settles e _ refl refl p)));
    }

    pub ruleset kept = (
      bind-Keeps, then-Keeps, attempt-Keeps, ignore-Keeps, if-Keeps, done-Keeps, fail-Keeps,
      look-Keeps, clock-Keeps, call-Keeps, try_call-Keeps, note-Keeps, emit-Keeps, await-Keeps,
      set_state-Keeps,
    )
