-- ===== src/Store/Batch/Delivered.antt =====
-- `store_incoming_batch` of sqlite.rs, the first time that a batch arrives and when it arrives again.
use mathlib.Core.Path.{subst}
use un_tzibbur_bot.Base.{
  ℕ, String, ◌≡◌, refl, sym, ◌∙◌, Bool, true, false, ◌||◌, List, [], ◌∷◌, map, ℤ, eqb_ℤ, eqb_ℤ_iff,
  arith, any, length, All, All-imp, str_eq, eq_refl, Option, inl, inr, Bool-cases,
}
use un_tzibbur_bot.Entities.{MessageEntity}
use un_tzibbur_bot.Reconcile.{
  EchoConfirmation, ReconcilePlan, ReconcileState, has_id, has_seq, reconcile, empty_plan,
}
use un_tzibbur_bot.Reconcile.Fresh.{fresh, reconcile-fresh}
use un_tzibbur_bot.Reconcile.Sorted.{reconcile-inserts, All-sort_by_seq}
use un_tzibbur_bot.Reconcile.Redelivery.{Extends, Knows, reconcile_again}
use un_tzibbur_bot.Store.{SqliteStore, notify, in_group}
use un_tzibbur_bot.Store.Messages.{clash, insert_rows, message_ids_exist, seqs_exist}
use un_tzibbur_bot.Store.Batch.{
  StoreBatchOutcome, gather, confirm_echoes, notify_inserted, notify_echoes, apply_plan,
  store_incoming_batch,
}
use un_tzibbur_bot.Store.Batch.Inserted.{
  Fits, IsFound, insert_rows-kept, insert_rows-AllWritten, any-map, stored_id, stored_seq,
  has_id-message_ids_exist, has_seq-seqs_exist, Unique-clash, clash-unstored,
}

abbrev ids_of : List MessageEntity → List String
ids_of batch = map (λ m. m.id) batch

abbrev seqs_of : List MessageEntity → List ℤ
seqs_of batch = map (λ m. m.seq) batch

-- A message of the batch, by its group and by the two queries about it.
abbrev OfBatch : String → List MessageEntity → MessageEntity → Type 0
OfBatch group_id batch m =
    (in_group group_id m ≡ true)
    × (has_id (ids_of batch) m.id ≡ true)
    × (has_seq (seqs_of batch) m.seq ≡ true)

-- No message stored under another group has an id of the batch.
abbrev pub OwnIds : String → List MessageEntity → List MessageEntity → Type 0
OwnIds group_id batch rows =
    All (λ x. has_id (ids_of batch) x.id ≡ true → in_group group_id x ≡ true) rows

All-fresh :
    (P : MessageEntity → Type 0) (state : ReconcileState) (ids : List String) (seqs : List ℤ)
    (ms : List MessageEntity)
    → All P ms
    → All P (fresh state ids seqs ms)
unfolding fresh
All-fresh P state ids seqs [] h = tt
All-fresh P state ids seqs (m ∷ ms) h =
    elim (Bool-cases (has_id state.existing_ids m.id || has_id ids m.id)) [
      | inl e ↦ rw e (All-fresh P state ids seqs ms h.1)
      | inr e ↦ elim (Bool-cases (has_seq state.existing_seqs m.seq || has_seq seqs m.seq)) [
        | inl k ↦ rw (e, k) (All-fresh P state (m.id ∷ ids) seqs ms h.1)
        | inr k ↦ rw (e, k) (h.0, All-fresh P state (m.id ∷ ids) (m.seq ∷ seqs) ms h.1)
      ]
    ]

All-IsFound : (ms : List MessageEntity) → All (IsFound ms) ms
unfolding any
All-IsFound [] = tt
All-IsFound (m ∷ ms) = (
  λ p h. rw h refl,
  All-imp (IsFound ms) (IsFound (m ∷ ms)) (λ x f p h. ground (arith, f p h)) ms (All-IsFound ms),
)

All-OfBatch :
    (group_id : String) (batch : List MessageEntity)
    → All (λ m. in_group group_id m ≡ true) batch
    → All (OfBatch group_id batch) batch
All-OfBatch group_id batch g = both batch g (All-IsFound batch)
  where
    both :
        (ms : List MessageEntity)
        → All (λ m. in_group group_id m ≡ true) ms
        → All (IsFound batch) ms
        → All (OfBatch group_id batch) ms
    both [] h k = tt
    both (m ∷ ms) h k = (
      (
        h.0,
        any-map (λ x. x.id) (λ x. str_eq x m.id) batch ∙ k.0 (λ x. str_eq x.id m.id) (eq_refl m.id),
        any-map (λ x. x.seq) (λ x. eqb_ℤ x m.seq) batch
            ∙ k.0 (λ x. eqb_ℤ x.seq m.seq) ((eqb_ℤ_iff m.seq m.seq).1 refl),
      ),
      both ms h.1 k.1,
    )

module _ (group_id : String) (batch : List MessageEntity) (s : SqliteStore)
    (in_batch : All (λ m. in_group group_id m ≡ true) batch)
    (own : OwnIds group_id batch s.messages) where
  abbrev plan : ReconcilePlan
  plan = reconcile batch (gather group_id batch s)

  insert_OfBatch : All (OfBatch group_id batch) plan.to_insert
  insert_OfBatch = rw (reconcile-fresh batch (gather group_id batch s)) (
      All-sort_by_seq (OfBatch group_id batch) _
        (All-fresh _ (gather group_id batch s) [] [] batch (All-OfBatch group_id batch in_batch)))

  plan-Fits : Fits plan.to_insert s.messages
  unfolding gather
  plan-Fits =
      let r = reconcile-inserts batch (gather group_id batch s) in
      (free plan.to_insert insert_OfBatch r.2, Unique-clash plan.to_insert r.0 r.1)
    where
      free :
          (ms : List MessageEntity)
          → All (OfBatch group_id batch) ms
          → All
              (λ m.
                (has_id (message_ids_exist group_id (ids_of batch) s.messages) m.id ≡ false)
                × (has_seq (seqs_exist group_id (seqs_of batch) s.messages) m.seq ≡ false))
              ms
          → All (λ m. any (clash m) s.messages ≡ false) ms
      free [] h k = tt
      free (m ∷ ms) h k = (
        clash-unstored group_id (ids_of batch) (seqs_of batch) m s.messages own h.0.0 h.0.1 h.0.2
            (sym (has_id-message_ids_exist group_id (ids_of batch) s.messages m.id) ∙ k.0.0)
            (sym (has_seq-seqs_exist group_id (seqs_of batch) s.messages m.seq) ∙ k.0.1),
        free ms h.1 k.1,
      )

  abbrev written : List MessageEntity × ℕ
  written = insert_rows plan.to_insert (s.messages, 0)

  plan-AllWritten : (written.1 ≡ length plan.to_insert) × All (IsFound written.0) plan.to_insert
  plan-AllWritten =
      let r = insert_rows-AllWritten plan.to_insert s.messages 0 plan-Fits in
      (omega (arith, r.0), r.1)

  -- What the queries find after the batch was stored.
  module _ (later : SqliteStore) (same : later.messages ≡ written.0) where
    gather-Extends : Extends (gather group_id batch s) (gather group_id batch later)
    unfolding gather
    gather-Extends = record {
      ids = λ id h.
          has_id-message_ids_exist group_id (ids_of batch) later.messages id
          ∙ rw same (
              insert_rows-kept (stored_id group_id (ids_of batch) id) plan.to_insert s.messages 0
                (sym (has_id-message_ids_exist group_id (ids_of batch) s.messages id) ∙ h));
      seqs = λ seq h.
          has_seq-seqs_exist group_id (seqs_of batch) later.messages seq
          ∙ rw same (
              insert_rows-kept (stored_seq group_id (seqs_of batch) seq) plan.to_insert s.messages 0
                (sym (has_seq-seqs_exist group_id (seqs_of batch) s.messages seq) ∙ h));
    }

    All-Knows :
        (ms : List MessageEntity)
        → All (OfBatch group_id batch) ms
        → All (IsFound written.0) ms
        → All (Knows (gather group_id batch later)) ms
    unfolding gather
    All-Knows [] h k = tt
    All-Knows (m ∷ ms) h k = (
      (
        has_id-message_ids_exist group_id (ids_of batch) later.messages m.id
            ∙ rw same (
                k.0 (stored_id group_id (ids_of batch) m.id)
                  (rw (h.0.0, h.0.1, eq_refl m.id) refl)),
        has_seq-seqs_exist group_id (seqs_of batch) later.messages m.seq
            ∙ rw same (
                k.0 (stored_seq group_id (seqs_of batch) m.seq)
                  (rw (h.0.0, h.0.2, (eqb_ℤ_iff m.seq m.seq).1 refl) refl)),
      ),
      All-Knows ms h.1 k.1,
    )

    later_plan :
        reconcile batch (gather group_id batch later) ≡ record empty_plan { max_seq = plan.max_seq }
    later_plan =
        reconcile_again batch (gather group_id batch s) (gather group_id batch later) gather-Extends
          (All-Knows plan.to_insert insert_OfBatch plan-AllWritten.1)

notify_echoes_messages :
    (es : List EchoConfirmation) (g : String) (s : SqliteStore)
    → (notify_echoes es g s).messages ≡ s.messages
unfolding notify_echoes notify
notify_echoes_messages [] g s = refl
notify_echoes_messages (e ∷ es) g s = refl

notify_inserted_messages :
    (b : Bool) (g : String) (s : SqliteStore) → (notify_inserted b g s).messages ≡ s.messages
unfolding notify_inserted notify
notify_inserted_messages true g s = refl
notify_inserted_messages false g s = refl

apply_plan_messages :
    (g : String) (p : ReconcilePlan) (s : SqliteStore)
    → (apply_plan g p s).0.messages ≡ (insert_rows p.to_insert (s.messages, 0)).0
unfolding apply_plan
apply_plan_messages g p s =
    notify_echoes_messages p.echo_confirmations g _ ∙ notify_inserted_messages _ g _

-- Applying a plan with nothing in it.
abbrev pub NothingNew : SqliteStore → SqliteStore × StoreBatchOutcome → Type 0
NothingNew s again =
    (again.0 ≡ s)
    × (again.1.inserted ≡ 0)
    × (again.1.plan.new_message_ids ≡ [])
    × (again.1.plan.echo_confirmations ≡ [])

idle_plan :
    (g : String) (s : SqliteStore) (top : Option ℤ)
    → NothingNew s (apply_plan g (record empty_plan { max_seq = top }) s)
unfolding apply_plan insert_rows confirm_echoes notify_inserted notify_echoes
idle_plan g s top = (refl, refl, refl, refl)

-- What becomes of a batch that is stored, and of the same batch sent again.
abbrev pub StoredOnce : String → List MessageEntity → SqliteStore × StoreBatchOutcome → Type 0
StoredOnce group_id batch first =
    (first.1.inserted ≡ length first.1.plan.to_insert)
    × All (IsFound first.0.messages) first.1.plan.to_insert
    × NothingNew first.0 (store_incoming_batch group_id batch first.0)

-- A batch of messages of one group, of whose ids none is stored under another group: the first time
-- every message of the plan is written, and any test that holds of it finds a row; and when the batch
-- arrives again, the store stays as it is, nothing is inserted, no message is announced as new and
-- no echo is confirmed.
pub store_incoming_batch-StoredOnce :
    (group_id : String) (batch : List MessageEntity) (s : SqliteStore)
    → All (λ m. in_group group_id m ≡ true) batch
    → OwnIds group_id batch s.messages
    → StoredOnce group_id batch (store_incoming_batch group_id batch s)
unfolding store_incoming_batch
store_incoming_batch-StoredOnce group_id [] s g own = (refl, tt, (refl, refl, refl, refl))
store_incoming_batch-StoredOnce group_id (m ∷ ms) s g own = (
  unfold apply_plan in done.0,
  subst (λ rows. All (IsFound rows) first.to_insert) (sym (apply_plan_messages group_id first s))
      done.1,
  rw (later_plan group_id (m ∷ ms) s g own later (apply_plan_messages group_id first s))
      (idle_plan group_id later first.max_seq),
)
  where
    first : ReconcilePlan
    first = plan group_id (m ∷ ms) s g own

    later : SqliteStore
    later = (apply_plan group_id first s).0

    done :
        ((written group_id (m ∷ ms) s g own).1 ≡ length first.to_insert)
        × All (IsFound (written group_id (m ∷ ms) s g own).0) first.to_insert
    done = plan-AllWritten group_id (m ∷ ms) s g own
