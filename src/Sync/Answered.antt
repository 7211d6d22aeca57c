-- ===== src/Sync/Answered.antt =====
-- How sync.rs answers a batch: with one acknowledgement, and with the events of what was stored.
use un_tzibbur_bot.Base.{
  String, ◌≡◌, refl, ◌∙◌, ap, inl, inr, true, false, Option, none, some, List, [], ◌∷◌, ◌++◌, ℤ,
  pos, leb_ℤ, select, is_some, Bool-cases, if◌then◌else◌,
}
use un_tzibbur_bot.Error.{AppError, Result, ok, err}
use un_tzibbur_bot.Entities.{GroupDto, MessageEntity, group_from_dto}
use un_tzibbur_bot.Store.Groups
use un_tzibbur_bot.Store.Groups.{top_seq}
use un_tzibbur_bot.Store.Batch.{no_outcome, store_incoming_batch}
use un_tzibbur_bot.Store.Calls.{Call}
use un_tzibbur_bot.Socket.{ClientFrame}
use un_tzibbur_bot.Sync.{
  AckVia, Request, Effect, Server, SyncEngine, attempt, ignore, await, awaited, logged, performed,
  call, done, ◌>>=◌, ◌>>◌,
}
use un_tzibbur_bot.Sync.Apply.{
  get_group, ack_delivered, ack_last, send_ack, store_batch, store_and_ack, drop_and_ack, announce,
  on_fetched, apply_incoming,
}
use un_tzibbur_bot.Sync.Kept.{IsClosed, is_quiet, is_ack, then-at, done-Keeps}
use un_tzibbur_bot.Sync.Kept.Incoming.{announce-Keeps}
use un_tzibbur_bot.Sync.Filtered.{IsLoud, select-interrupted, select-IsClosed}

-- The acknowledgements of the log.
abbrev pub acks : SyncEngine → List Effect
acks e = select is_ack e.log

-- The acknowledgement on each transport; history is not acknowledged.
abbrev pub ack_on : AckVia → String → ℤ → List Effect
ack_on AckVia.nothing g seq = []
ack_on AckVia.socket g seq = Effect.wrote (ClientFrame.ack g seq) ∷ []
ack_on AckVia.rest g seq = Effect.asked (Request.ack g seq) ∷ []

-- What is due for a batch with this highest seq.
abbrev pub due_ack : AckVia → String → Option ℤ → List Effect
due_ack via g none = []
due_ack via g (some seq) = if leb_ℤ seq (pos 0) then [] else ack_on via g seq

is_ack-IsLoud : IsLoud is_ack
is_ack-IsLoud = record { quiet = quiet; calls = λ c. refl; others = λ c. refl }
  where
    quiet : (what : Effect) → is_quiet what ≡ true → is_ack what ≡ false
    quiet (Effect.asked (Request.ack g seq)) h = cc
    quiet (Effect.wrote (ClientFrame.ack g seq)) h = cc
    quiet (Effect.asked _) h = refl
    quiet (Effect.wrote _) h = refl
    quiet _ h = refl

closed : (k : List Effect) → IsClosed (λ e. acks e ≡ k)
closed = select-IsClosed is_ack is_ack-IsLoud

module _ (v : Server) where
  awaited-acks :
      (what : Effect) (e : SyncEngine) → acks (awaited v what e) ≡ select is_ack (what ∷ e.log)
  unfolding awaited logged
  awaited-acks what e = select-interrupted is_ack is_ack-IsLoud (v.meanwhile e.requests) _

  send_ack-acks :
      (via : AckVia) (g : String) (seq : ℤ) (e : SyncEngine)
      → acks (send_ack via g seq v e).0 ≡ ack_on via g seq ++ acks e
  unfolding await select
  send_ack-acks AckVia.socket g seq e = awaited-acks (Effect.wrote (ClientFrame.ack g seq)) e
  send_ack-acks AckVia.rest g seq e = awaited-acks (Effect.asked (Request.ack g seq)) e
  send_ack-acks AckVia.nothing g seq e = refl

  ack_last-acks :
      (g : String) (last : Option ℤ) (via : AckVia) (e : SyncEngine)
      → acks (ack_last g last via v e).0 ≡ due_ack via g last ++ acks e
  unfolding ack_last ack_delivered ignore
  ack_last-acks g none via e = refl
  ack_last-acks g (some seq) via e = elim (Bool-cases (leb_ℤ seq (pos 0))) [
    | inl l ↦ rw l refl
    | inr l ↦ rw l (send_ack-acks via g seq e)
  ]

  store_and_ack-acks :
      (g : String) (batch : List MessageEntity) (via : AckVia) (e : SyncEngine)
      → acks (store_and_ack g batch via v e).0 ≡ due_ack via g (top_seq batch) ++ acks e
  unfolding store_and_ack store_batch call performed select ◌>>=◌ ◌>>◌
  store_and_ack-acks g batch via e =
      let k = due_ack via g (top_seq batch) ++ acks e in
      let stored = performed (Call.store_incoming_batch g batch) e in
      let outcome = (store_incoming_batch g batch e.store).1 in
      then-at v (λ e'. acks e' ≡ k) (ack_last g (top_seq batch) via) (announce g outcome) stored
        (ack_last-acks g (top_seq batch) via stored) (announce-Keeps v _ (closed k) g outcome)

  drop_and_ack-acks :
      (g : String) (last : Option ℤ) (via : AckVia) (e : SyncEngine)
      → acks (drop_and_ack g last via v e).0 ≡ due_ack via g last ++ acks e
  unfolding drop_and_ack call performed select ◌>>=◌ ◌>>◌
  drop_and_ack-acks g last via e =
      let dropped = performed (Call.mark_group_deleted g) e in
      then-at v (λ e'. acks e' ≡ due_ack via g last ++ acks e) (ack_last g last via)
        (done no_outcome) dropped (ack_last-acks g last via dropped)
        (done-Keeps v (λ e'. acks e' ≡ due_ack via g last ++ acks e) no_outcome)

  on_fetched-acks :
      (g : String) (batch : List MessageEntity) (via : AckVia) (r : Result GroupDto)
      (e : SyncEngine)
      → acks (on_fetched g batch via r v e).0 ≡ due_ack via g (top_seq batch) ++ acks e
  unfolding on_fetched call performed select ◌>>=◌ ◌>>◌
  on_fetched-acks g batch via (ok dto) e =
      store_and_ack-acks g batch via
        (performed (Call.upsert_group (group_from_dto (v.now e.requests) dto)) e)
  on_fetched-acks g batch via (err (AppError.not_found _)) e =
      drop_and_ack-acks g (top_seq batch) via e
  on_fetched-acks g batch via (err _) e = store_and_ack-acks g batch via e

  -- The group is unknown, and is asked for first.
  unknown-acks :
      (g : String) (batch : List MessageEntity) (via : AckVia) (e : SyncEngine)
      → acks ((do fetched ← attempt (get_group g); on_fetched g batch via fetched) v e).0
        ≡ due_ack via g (top_seq batch) ++ acks e
  unfolding get_group await select ◌>>=◌
  unknown-acks g batch via e =
      on_fetched-acks g batch via _ (awaited v (Effect.asked (Request.get_group g)) e)
      ∙ ap (λ k. due_ack via g (top_seq batch) ++ k)
          (awaited-acks (Effect.asked (Request.get_group g)) e)

-- Every batch is answered: whatever becomes of the group's lookup, `apply_incoming` sends exactly
-- one acknowledgement, of the batch's highest seq, on the transport that the batch came from; none
-- for history, for an empty batch, or for a highest seq that is not positive.
pub apply_incoming-acks :
    (v : Server) (g : String) (batch : List MessageEntity) (via : AckVia) (e : SyncEngine)
    → acks (apply_incoming g batch via v e).0 ≡ due_ack via g (top_seq batch) ++ acks e
unfolding apply_incoming ◌>>=◌
apply_incoming-acks v g batch via e = elim (Bool-cases (is_some (Groups.get_group g e.store))) [
  | inl known ↦ rw known (store_and_ack-acks v g batch via e)
  | inr unknown ↦ rw unknown (unknown-acks v g batch via e)
]
