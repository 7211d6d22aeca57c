-- ===== src/Outbox/Outcome.antt =====
-- What the dispatcher makes of the row that it sent, for each reply (`step` of outbox.rs).
-- The store `s` is the one that the reply finds: another task may have confirmed the row meanwhile.
use mathlib.Core.Option
use un_tzibbur_bot.Base.{
  suc, String, ◌≡◌, refl, ◌∙◌, ap, inl, inr, Bool, true, false, not, ◌&&◌, none, some, [], ◌∷◌, ℤ,
  pos, ◌+ℤ◌, ltb_ℤ, leb_ℤ, arith, if◌then◌else◌, Bool-cases,
}
use un_tzibbur_bot.Error.{AppError, ok, err, code, is_retryable}
use un_tzibbur_bot.Entities.{
  OutboxEntity, OutboxState, OutgoingState, outgoing_state, MessageDto, message_from_dto,
}
use un_tzibbur_bot.Store.{SqliteStore, notify}
use un_tzibbur_bot.Store.OutboxTable.{
  is_confirmed, get_outbox, update_open, mark_rejected, reschedule, confirm_entry,
  insert_command_reply,
}
use un_tzibbur_bot.Store.OutboxTable.Rows.{
  unless_confirmed, get_outbox-update_open, get_outbox-confirm_sent, get_outbox-delete_outbox,
  delete_outbox-replies, get_outbox-store_incoming_batch,
}
use un_tzibbur_bot.Outbox.{
  World, is_json, SendOutcome, CommandResult, finish, on_error, on_undecodable, on_retryable,
  give_up, max_undecodable_attempts, command_reply,
}

-- The errors after which the dispatcher does not try again.
abbrev pub is_permanent : OutboxEntity → AppError → Bool
is_permanent row e =
    not (is_retryable e) && not (is_json e && ltb_ℤ row.attempt_count max_undecodable_attempts)

-- A failed attempt, as the row `x'` shows it of the row `x`.
abbrev pub FailedOnce : OutboxEntity → OutboxEntity → AppError → OutgoingState → Type 0
FailedOnce x x' e shown =
    (outgoing_state x' ≡ shown)
    × (x'.state ≡ OutboxState.pending)
    × (x'.error_code ≡ some (code e))
    × (x'.attempt_count ≡ (x.attempt_count +ℤ pos 1))
    × (x'.body ≡ x.body)

abbrev FailsAs :
    String → SqliteStore → SqliteStore → OutboxEntity → AppError → OutgoingState → Type 0
FailsAs id s s' x e shown =
    (x' : OutboxEntity) × (get_outbox id s' ≡ some x') × FailedOnce x x' e shown

json_final : (e : AppError) → is_json e ≡ true → is_retryable e ≡ false
unfolding is_retryable
json_final (AppError.json text) h = refl
json_final _ h = cc

sends_left : (n : ℤ) → ltb_ℤ n max_undecodable_attempts ≡ not (leb_ℤ max_undecodable_attempts n)
sends_left n = ground arith

module _ (id : String) (s : SqliteStore) (x : OutboxEntity) (found : get_outbox id s ≡ some x) where
  pub open_row :
      (f : OutboxEntity → OutboxEntity)
      → ((e : OutboxEntity) → (f e).client_message_id ≡ e.client_message_id)
      → is_confirmed x.state ≡ false
      → get_outbox id (update_open id f s) ≡ some (f x)
  open_row f keep o =
      get_outbox-update_open id f keep s ∙ ap (Option.map (unless_confirmed f)) found ∙ rw o refl

  confirmed_row :
      (f : OutboxEntity → OutboxEntity)
      → ((e : OutboxEntity) → (f e).client_message_id ≡ e.client_message_id)
      → is_confirmed x.state ≡ true
      → get_outbox id (update_open id f s) ≡ some x
  confirmed_row f keep c =
      get_outbox-update_open id f keep s ∙ ap (Option.map (unless_confirmed f)) found ∙ rw c refl

  rejected_row :
      (e : AppError)
      → is_confirmed x.state ≡ false
      → FailsAs id s (mark_rejected id (code e) s) x e OutgoingState.failed
  unfolding mark_rejected outgoing_state
  rejected_row e o = (_, open_row _ (λ _. refl) o, (refl, refl, refl, refl, refl))

  rescheduled_row :
      (e : AppError) (next_at : ℤ)
      → is_confirmed x.state ≡ false
      → FailsAs id s (reschedule id next_at (some (code e)) s) x e OutgoingState.waiting
  unfolding reschedule outgoing_state
  rescheduled_row e next_at o = (_, open_row _ (λ _. refl) o, (refl, refl, refl, refl, refl))

  failed_row :
      (w : World) (row : OutboxEntity) (e : AppError)
      → row.client_message_id ≡ id
      → is_confirmed x.state ≡ false
      → FailsAs id s
          (on_error w row e s).0
          x
          e
          (if is_permanent row e then OutgoingState.failed else OutgoingState.waiting)
  unfolding on_error on_undecodable on_retryable give_up
  failed_row w row e same o = elim (Bool-cases (is_json e)) [
    | inl j ↦ elim (Bool-cases (leb_ℤ max_undecodable_attempts row.attempt_count)) [
      | inl l ↦ rw (j, l, json_final e j, sends_left row.attempt_count, l, same) (rejected_row e o)
      | inr l ↦
          rw (j, l, json_final e j, sends_left row.attempt_count, l, same) (rescheduled_row e _ o)
    ]
    | inr j ↦ elim (Bool-cases (is_retryable e)) [
      | inl r ↦ rw (j, r, same) (rescheduled_row e _ o)
      | inr r ↦ rw (j, r, same) (rejected_row e o)
    ]
  ]

  kept_row :
      (w : World) (row : OutboxEntity) (e : AppError)
      → row.client_message_id ≡ id
      → is_confirmed x.state ≡ true
      → get_outbox id (on_error w row e s).0 ≡ some x
  unfolding on_error on_undecodable on_retryable give_up mark_rejected reschedule
  kept_row w row e same c = elim (Bool-cases (is_json e)) [
    | inl j ↦ elim (Bool-cases (leb_ℤ max_undecodable_attempts row.attempt_count)) [
      | inl l ↦ rw (j, l, same) (confirmed_row _ (λ _. refl) c)
      | inr l ↦ rw (j, l, same) (confirmed_row _ (λ _. refl) c)
    ]
    | inr j ↦ elim (Bool-cases (is_retryable e)) [
      | inl r ↦ rw (j, r, same) (confirmed_row _ (λ _. refl) c)
      | inr r ↦ rw (j, r, same) (confirmed_row _ (λ _. refl) c)
    ]
  ]

-- After an error, the row that was sent is pending with its body, one more attempt and the
-- error's code, if it was not confirmed meanwhile; it is shown as failed if the error is not
-- retryable and not a reply that may yet be decoded (fewer than 5 attempts), and else as waiting.
pub finish-err :
    (w : World) (row : OutboxEntity) (e : AppError) (s : SqliteStore) (x : OutboxEntity)
    → get_outbox row.client_message_id s ≡ some x
    → is_confirmed x.state ≡ false
    → (x' : OutboxEntity) × (get_outbox row.client_message_id (finish w row (err e) s).0 ≡ some x')
      × FailedOnce x x' e
          (if is_permanent row e then OutgoingState.failed else OutgoingState.waiting)
unfolding finish
finish-err w row e s x found o = failed_row row.client_message_id s x found w row e refl o

-- If another task confirmed the row while its request was under way, an error of the request
-- changes nothing of the row.
pub finish-err_confirmed :
    (w : World) (row : OutboxEntity) (e : AppError) (s : SqliteStore) (x : OutboxEntity)
    → get_outbox row.client_message_id s ≡ some x
    → is_confirmed x.state ≡ true
    → get_outbox row.client_message_id (finish w row (err e) s).0 ≡ some x
unfolding finish
finish-err_confirmed w row e s x found c = kept_row row.client_message_id s x found w row e refl c

-- If the server stored the message, the row is confirmed with the id and the seq that the server
-- gave it, is shown as sent, and keeps its body.
pub finish-stored :
    (w : World) (row : OutboxEntity) (m : MessageDto) (duplicate : Bool) (s : SqliteStore)
    (x : OutboxEntity)
    → get_outbox row.client_message_id s ≡ some x
    → (x' : OutboxEntity) × (get_outbox row.client_message_id
          (finish w row (ok (SendOutcome.stored m duplicate)) s).0
        ≡ some x')
      × (outgoing_state x' ≡ OutgoingState.sent)
      × (x'.confirmed_message_id ≡ some m.id)
      × (x'.confirmed_seq ≡ some m.seq)
      × (x'.body ≡ x.body)
unfolding finish confirm_entry outgoing_state
finish-stored w row m duplicate s x found =
    let r =
      get_outbox-store_incoming_batch row.client_message_id row.group_id
        (message_from_dto w.later m row.group_id ∷ []) s x found in
    (
      confirm_entry m.id m.seq r.0,
      get_outbox-confirm_sent row.client_message_id m.id m.seq _ r.0 r.1,
      refl,
      refl,
      refl,
      r.2,
    )

-- If the body was a command, the row is gone, and the newest reply of the table is the one that the
-- server gave to it.
pub finish-command :
    (w : World) (row : OutboxEntity) (r : CommandResult) (s : SqliteStore)
    → (get_outbox row.client_message_id (finish w row (ok (SendOutcome.command r)) s).0 ≡ none)
      × ((finish w row (ok (SendOutcome.command r)) s).0.replies
          ≡ record (command_reply w row r) { id = some (pos (suc s.last_reply_id)) } ∷ s.replies)
unfolding finish insert_command_reply notify get_outbox
finish-command w row r s = (
  unfold get_outbox in get_outbox-delete_outbox row.client_message_id s,
  let k = delete_outbox-replies row.client_message_id s in rw (k.0, k.1) refl,
)
