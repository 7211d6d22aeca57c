-- ===== src/Sync/Redelivered.antt =====
-- A batch that arrives again at sync.rs, because its acknowledgement was lost.
use mathlib.Core.Option
use mathlib.Core.Path.{subst}
use un_tzibbur_bot.Base.{
  ℕ, String, ◌≡◌, refl, sym, ◌∙◌, ap, inl, inr, Bool, true, false, Option, none, some, List, [],
  ◌∷◌, ◌++◌, ℤ, pos, leb_ℤ, select, is_some, find, find-update, Bool-cases, ltb, All, if-holds,
}
use un_tzibbur_bot.Entities.{GroupEntity, MessageEntity}
use un_tzibbur_bot.Reconcile.{EchoConfirmation, ReconcilePlan, reconcile}
use un_tzibbur_bot.Store.{SqliteStore, in_group, has_group_id, notify}
use un_tzibbur_bot.Store.Groups
use un_tzibbur_bot.Store.Groups.{top_seq}
use un_tzibbur_bot.Store.Messages
use un_tzibbur_bot.Store.Messages.{tx_refresh_group_preview}
use un_tzibbur_bot.Store.Batch.{
  StoreBatchOutcome, store_incoming_batch, apply_plan, gather, notify_inserted, notify_echoes,
}
use un_tzibbur_bot.Store.Batch.Delivered.{OwnIds, store_incoming_batch-StoredOnce, NothingNew}
use un_tzibbur_bot.Store.Calls.{Call, perform, perform_all}
use un_tzibbur_bot.Sync.{
  AckVia, Effect, Server, SyncEngine, Action, ignore, await, awaited, interrupted, others, logged,
  note, emit, performed, call, done, ◌>>=◌, ◌>>◌,
}
use un_tzibbur_bot.Sync.Apply.{
  ack_delivered, ack_last, send_ack, store_batch, store_and_ack, emit_echoes, emit_new, announce,
  is_nil, apply_incoming,
}
use un_tzibbur_bot.Sync.Kept.{then-at, then-Keeps, done-Keeps}
use un_tzibbur_bot.Sync.Answered.{acks, due_ack, apply_incoming-acks}

abbrev pub is_event : Effect → Bool
is_event (Effect.emitted _) = true
is_event _ = false

-- What the consumers were told.
abbrev pub events : SyncEngine → List Effect
events e = select is_event e.log

notified_groups :
    (es : List EchoConfirmation) (wrote : Bool) (g : String) (s : SqliteStore)
    → (notify_echoes es g (notify_inserted wrote g s)).groups ≡ s.groups
unfolding notify_echoes notify_inserted notify
notified_groups [] true g s = refl
notified_groups [] false g s = refl
notified_groups (e ∷ es) true g s = refl
notified_groups (e ∷ es) false g s = refl

is_some-map {ℓ ℓ'} :
    {A : Type ℓ} {B : Type ℓ'} (f : A → B) (o : Option A) → is_some (Option.map f o) ≡ is_some o
is_some-map f none = refl
is_some-map f (some a) = refl

refreshed_known :
    (id g : String) (ms : List MessageEntity) (groups : List GroupEntity)
    → is_some (find (has_group_id id) (tx_refresh_group_preview g ms groups))
      ≡ is_some (find (has_group_id id) groups)
unfolding tx_refresh_group_preview Messages.refresh_preview
refreshed_known id g ms groups =
    ap is_some (find-update (has_group_id id) (has_group_id g) _ (λ _. refl) groups)
    ∙ is_some-map _ (find (has_group_id id) groups)

apply_plan-known :
    (id g : String) (plan : ReconcilePlan) (s : SqliteStore)
    → is_some (find (has_group_id id) (apply_plan g plan s).0.groups)
      ≡ is_some (find (has_group_id id) s.groups)
unfolding apply_plan
apply_plan-known id g plan s =
    let wrote = ltb 0 (Messages.insert_rows plan.to_insert (s.messages, 0)).1 in
    ap (λ gs. is_some (find (has_group_id id) gs))
      (notified_groups plan.echo_confirmations wrote g _)
    ∙ if-holds
        (λ gs. is_some (find (has_group_id id) gs) ≡ is_some (find (has_group_id id) s.groups))
        wrote (refreshed_known id g _ s.groups) refl

-- Storing a batch makes no group known or unknown.
store_incoming_batch-known :
    (id g : String) (batch : List MessageEntity) (s : SqliteStore)
    → is_some (Groups.get_group id (store_incoming_batch g batch s).0)
      ≡ is_some (Groups.get_group id s)
unfolding store_incoming_batch Groups.get_group
store_incoming_batch-known id g [] s = refl
store_incoming_batch-known id g (m ∷ ms) s =
    apply_plan-known id g (reconcile (m ∷ ms) (gather g (m ∷ ms) s)) s

module _ (v : Server) (alone : (n : ℕ) → v.meanwhile n ≡ []) where
  send_ack-store :
      (via : AckVia) (g : String) (seq : ℤ) (e : SyncEngine)
      → ((send_ack via g seq v e).0.store ≡ e.store)
        × (events (send_ack via g seq v e).0 ≡ events e)
  unfolding await awaited interrupted logged perform_all others select
  send_ack-store AckVia.socket g seq e = rw (alone e.requests) (refl, refl)
  send_ack-store AckVia.rest g seq e = rw (alone e.requests) (refl, refl)
  send_ack-store AckVia.nothing g seq e = (refl, refl)

  ack_last-store :
      (g : String) (last : Option ℤ) (via : AckVia) (e : SyncEngine)
      → ((ack_last g last via v e).0.store ≡ e.store)
        × (events (ack_last g last via v e).0 ≡ events e)
  unfolding ack_last ack_delivered ignore
  ack_last-store g none via e = (refl, refl)
  ack_last-store g (some seq) via e = elim (Bool-cases (leb_ℤ seq (pos 0))) [
    | inl l ↦ rw l (refl, refl)
    | inr l ↦ rw l (send_ack-store via g seq e)
  ]

  emit_echoes-store :
      (g : String) (es : List EchoConfirmation) (e : SyncEngine)
      → (emit_echoes g es v e).0.store ≡ e.store
  unfolding emit_echoes emit note logged ◌>>=◌ ◌>>◌
  emit_echoes-store g [] e = refl
  emit_echoes-store g (x ∷ xs) e = emit_echoes-store g xs _

  emit_new-store :
      (g : String) (plan : ReconcilePlan) (e : SyncEngine) → (emit_new g plan v e).0.store ≡ e.store
  unfolding emit_new emit note logged
  emit_new-store g plan e =
      if-holds (λ (k : Action (Unit {0})). (k v e).0.store ≡ e.store) (is_nil plan.new_message_ids)
        refl refl

  announce-store :
      (g : String) (outcome : StoreBatchOutcome) (e : SyncEngine)
      → (announce g outcome v e).0.store ≡ e.store
  unfolding announce
  announce-store g outcome e =
      let P = λ (e' : SyncEngine). e'.store ≡ e.store in
      then-at v P (emit_echoes g outcome.plan.echo_confirmations) _ e
        (emit_echoes-store g outcome.plan.echo_confirmations e)
        (then-Keeps v P (emit_new g outcome.plan) (done outcome)
          (record { after = λ e' p. emit_new-store g outcome.plan e' ∙ p })
          (done-Keeps v P outcome))

  -- There is nothing to announce.
  announce-silent :
      (g : String) (outcome : StoreBatchOutcome) (e : SyncEngine)
      → outcome.plan.new_message_ids ≡ []
      → outcome.plan.echo_confirmations ≡ []
      → (announce g outcome v e).0 ≡ e
  unfolding announce emit_echoes emit_new ◌>>=◌ ◌>>◌
  announce-silent g outcome e n c = rw (n, c) refl

  store_and_ack-store :
      (g : String) (batch : List MessageEntity) (via : AckVia) (e : SyncEngine)
      → (store_and_ack g batch via v e).0.store ≡ (store_incoming_batch g batch e.store).0
  unfolding store_and_ack store_batch call performed perform ◌>>=◌ ◌>>◌
  store_and_ack-store g batch via e =
      let stored = performed (Call.store_incoming_batch g batch) e in
      let outcome = (store_incoming_batch g batch e.store).1 in
      then-at v (λ e'. e'.store ≡ stored.store) (ack_last g (top_seq batch) via)
        (announce g outcome) stored (ack_last-store g (top_seq batch) via stored).0
        (record { after = λ e' p. announce-store g outcome e' ∙ p })

  store_and_ack-silent :
      (g : String) (batch : List MessageEntity) (via : AckVia) (e : SyncEngine)
      → NothingNew e.store (store_incoming_batch g batch e.store)
      → events (store_and_ack g batch via v e).0 ≡ events e
  unfolding store_and_ack store_batch call performed select ◌>>=◌ ◌>>◌
  store_and_ack-silent g batch via e old =
      let stored = performed (Call.store_incoming_batch g batch) e in
      let outcome = (store_incoming_batch g batch e.store).1 in
      then-at v (λ e'. events e' ≡ events e) (ack_last g (top_seq batch) via) (announce g outcome)
        stored (ack_last-store g (top_seq batch) via stored).1
        (record { after = λ e' p. ap events (announce-silent g outcome e' old.2 old.3) ∙ p })

apply_incoming-known :
    (v : Server) (g : String) (batch : List MessageEntity) (via : AckVia) (e : SyncEngine)
    → is_some (Groups.get_group g e.store) ≡ true
    → (apply_incoming g batch via v e).0 ≡ (store_and_ack g batch via v e).0
unfolding apply_incoming ◌>>=◌
apply_incoming-known v g batch via e known = rw known refl

-- A batch of a known group that is delivered twice, because its acknowledgement was lost, while no
-- other task writes to the store: the second time the store stays as it is, the consumers are told
-- nothing, and the batch is acknowledged again, so that the server goes on.
pub redelivered_quietly :
    (v : Server) (g : String) (batch : List MessageEntity) (via again : AckVia) (e : SyncEngine)
    → ((n : ℕ) → v.meanwhile n ≡ [])
    → is_some (Groups.get_group g e.store) ≡ true
    → All (λ m. in_group g m ≡ true) batch
    → OwnIds g batch e.store.messages
    → let e1 = (apply_incoming g batch via v e).0 in
      let e2 = (apply_incoming g batch again v e1).0 in
      (e2.store ≡ e1.store)
      × (events e2 ≡ events e1)
      × (acks e2 ≡ due_ack again g (top_seq batch) ++ acks e1)
redelivered_quietly v g batch via again e alone known mine own =
    let e1 = (apply_incoming g batch via v e).0 in
    let s1 = (store_incoming_batch g batch e.store).0 in
    let first : e1.store ≡ s1 =
      ap (λ x. x.store) (apply_incoming-known v g batch via e known)
      ∙ store_and_ack-store v alone g batch via e in
    let known1 : is_some (Groups.get_group g e1.store) ≡ true =
      ap (λ s. is_some (Groups.get_group g s)) first
      ∙ store_incoming_batch-known g g batch e.store
      ∙ known in
    let second = apply_incoming-known v g batch again e1 known1 in
    let old : NothingNew e1.store (store_incoming_batch g batch e1.store) =
      subst (λ s. NothingNew s (store_incoming_batch g batch s)) (sym first)
        (store_incoming_batch-StoredOnce g batch e.store mine own).2 in
    (
      ap (λ x. x.store) second ∙ store_and_ack-store v alone g batch again e1 ∙ old.0,
      ap events second ∙ store_and_ack-silent v alone g batch again e1 old,
      apply_incoming-acks v g batch again e1,
    )
