-- ===== src/Outbox/Enqueue.antt =====
-- `enqueue` of outbox.rs, for each kind of body.
use un_tzibbur_bot.Base.{
  String, ◌≡◌, refl, inl, inr, true, false, none, some, List, [], ◌∷◌, ℤ, arith, Bool-cases, find,
  any, insert_or_ignore, eq_iff, eq_refl,
}
use un_tzibbur_bot.Error.{AppError, ok, err}
use un_tzibbur_bot.Entities.{OutboxEntity, OutgoingState, outgoing_state, new_outbox}
use un_tzibbur_bot.Validation.{TextValidation, trim, is_valid, validate_message_body}
use un_tzibbur_bot.Validation.Trim.{validate_text-valid}
use un_tzibbur_bot.Store.{SqliteStore, notify, same_entry}
use un_tzibbur_bot.Store.OutboxTable.{
  get_outbox, insert_outbox, has_client_id, is_dispatchable, dispatchable_in, due,
}
use un_tzibbur_bot.Store.OutboxTable.Wakes.{is_due}
use un_tzibbur_bot.Outbox.{enqueue, enqueue_as}

no_entry :
    (e : OutboxEntity) (rows : List OutboxEntity)
    → find (has_client_id e.client_message_id) rows ≡ none
    → any (same_entry e) rows ≡ false
unfolding find any
no_entry e [] h = refl
no_entry e (x ∷ rows) h = elim (Bool-cases (has_client_id e.client_message_id x)) [
  | inl t ↦ let k : some x ≡ none = rw t at h in cc
  | inr t ↦
      let rest = no_entry e rows (rw t at h) in
      ground (
        arith,
        eq_iff e.client_message_id x.client_message_id,
        eq_iff x.client_message_id e.client_message_id,
      )
]

inserted_row :
    (e : OutboxEntity) (s : SqliteStore)
    → get_outbox e.client_message_id s ≡ none
    → get_outbox e.client_message_id (insert_outbox e s) ≡ some e
unfolding get_outbox insert_outbox notify insert_or_ignore find
inserted_row e s h = rw (no_entry e s.outbox h, eq_refl e.client_message_id) refl

-- `enqueue` of a body that the validation accepts, under an id that the table does not have, adds a
-- row that is due at once, is shown as waiting and has the trimmed body. Any other body changes
-- nothing and gives an error.
pub enqueue_lem :
    (uuid : String) (now : ℤ) (group_id body : String) (s : SqliteStore)
    → get_outbox uuid s ≡ none
    → (is_valid (validate_message_body body) ≡ true
        → (x : OutboxEntity) × (get_outbox uuid (enqueue uuid now group_id body s).0 ≡ some x)
          × ((enqueue uuid now group_id body s).1 ≡ ok x)
          × (x.body ≡ trim body)
          × (outgoing_state x ≡ OutgoingState.waiting)
          × ((t : ℤ) → is_due t x ≡ true))
      × (is_valid (validate_message_body body) ≡ false
          → ((enqueue uuid now group_id body s).0 ≡ s)
            × ((e : AppError) × ((enqueue uuid now group_id body s).1 ≡ err e)))
unfolding enqueue
enqueue_lem uuid now group_id body s fresh = by_case (validate_message_body body) refl
  where
    by_case :
        (v : TextValidation)
        → validate_message_body body ≡ v
        → (is_valid v ≡ true
            → (x : OutboxEntity) × (get_outbox uuid (enqueue_as v uuid now group_id s).0 ≡ some x)
              × ((enqueue_as v uuid now group_id s).1 ≡ ok x)
              × (x.body ≡ trim body)
              × (outgoing_state x ≡ OutgoingState.waiting)
              × ((t : ℤ) → is_due t x ≡ true))
          × (is_valid v ≡ false
              → ((enqueue_as v uuid now group_id s).0 ≡ s)
                × ((e : AppError) × ((enqueue_as v uuid now group_id s).1 ≡ err e)))
    by_case TextValidation.empty k = unfold enqueue_as in (λ h. cc, λ h. (refl, (_, refl)))
    by_case (TextValidation.too_long count max) k =
        unfold enqueue_as in (λ h. cc, λ h. (refl, (_, refl)))
    by_case (TextValidation.valid text) k =
        unfold enqueue_as new_outbox outgoing_state is_dispatchable dispatchable_in due in
        (
          λ h. (
            new_outbox uuid now group_id text,
            inserted_row (new_outbox uuid now group_id text) s fresh,
            refl,
            (validate_text-valid body 1000 text (unfold validate_message_body in k)).0,
            refl,
            λ t. refl,
          ),
          λ h. cc,
        )
