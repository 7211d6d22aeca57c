-- ===== src/Examples/Dispatcher.antt =====
-- The dispatcher's theorems, applied to a store with one row.
use un_tzibbur_bot.Base.{
  ◌≡◌, ◌≢◌, refl, true, false, none, some, [], ◌∷◌, ℤ, pos, ◌+ℤ◌, ◌≤ℤ◌, ◌<ℤ◌, arith, find, select,
  update, ◌-ℤ◌,
}
use un_tzibbur_bot.Error.{AppError, ok, err, is_retryable}
use un_tzibbur_bot.Entities.{OutboxEntity, OutgoingState, outgoing_state}
use un_tzibbur_bot.Validation.{trim, is_valid, validate_message_body}
use un_tzibbur_bot.Store.{SqliteStore, empty_store}
use un_tzibbur_bot.Store.OutboxTable.{get_outbox, next_dispatchable, mark_in_flight}
use un_tzibbur_bot.Store.OutboxTable.Wakes.{next_due, is_due}
use un_tzibbur_bot.Outbox.{SendOutcome, Step, finish, step, retry, enqueue}
use un_tzibbur_bot.Outbox.Outcome.{finish-err, finish-stored, FailedOnce}
use un_tzibbur_bot.Outbox.Delivery.{
  next_dispatchable-IsOldest, IsOldest, mark_in_flight-next_dispatchable, step_waits,
  failed_until_retry,
}
use un_tzibbur_bot.Outbox.Enqueue.{enqueue_lem}
use un_tzibbur_bot.Examples.Data.{
  row, sent_row, failed_row, later_row, holding, offline, stored_message, world,
}

row_found : get_outbox "c1" (holding row) ≡ some row
unfolding get_outbox find
row_found = refl

sent_found : get_outbox "c1" (holding sent_row) ≡ some sent_row
unfolding get_outbox find
sent_found = refl

failed_found : get_outbox "c1" (holding failed_row) ≡ some failed_row
unfolding get_outbox find
failed_found = refl

none_found : get_outbox "c1" empty_store ≡ none
unfolding get_outbox find
none_found = refl

finish-err_example :
    (x' : OutboxEntity) × (get_outbox "c1" (finish world row (err offline) (holding row)).0
      ≡ some x')
    × FailedOnce row x' offline OutgoingState.waiting
unfolding is_retryable
finish-err_example = finish-err world row offline (holding row) row row_found refl

finish-stored_example :
    (x' : OutboxEntity) × (get_outbox "c1"
        (finish world row (ok (SendOutcome.stored stored_message false)) (holding row)).0
      ≡ some x')
    × (outgoing_state x' ≡ OutgoingState.sent)
    × (x'.confirmed_message_id ≡ some "m2")
    × (x'.confirmed_seq ≡ some (pos 2))
    × (x'.body ≡ "hi")
finish-stored_example = finish-stored world row stored_message false (holding row) row row_found

row_due : next_due (pos 100) (holding row) ≡ some row
unfolding next_dispatchable select
row_due = refl

next_dispatchable-IsOldest_example : IsOldest (is_due (pos 100)) (row ∷ []) row
next_dispatchable-IsOldest_example = next_dispatchable-IsOldest (pos 100) (holding row) row row_due

abbrev other_row : OutboxEntity
other_row = record row { client_message_id = "c2"; created_at = pos 6 }

abbrev two_rows : SqliteStore
two_rows = record (holding row) { outbox = other_row ∷ row ∷ [] }

other_due : next_due (pos 300) (mark_in_flight "c1" (pos 100) two_rows) ≡ some other_row
unfolding next_dispatchable mark_in_flight select update ◌-ℤ◌
other_due = refl

mark_in_flight-next_dispatchable_example : other_row.client_message_id ≢ "c1"
unfolding ◌+ℤ◌
mark_in_flight-next_dispatchable_example =
    mark_in_flight-next_dispatchable "c1" (pos 100) (pos 300) two_rows other_row (omega arith)
      other_due

step_waits_example :
    ((at : ℤ)
      → (step world (holding later_row)).1 ≡ Step.wait_until at
      → ((step world (holding later_row)).0 ≡ holding later_row)
        × (pos 100 <ℤ at)
        × ((t : ℤ) → t <ℤ at → next_due t (holding later_row) ≡ none)
        × (next_due at (holding later_row) ≢ none))
    × ((step world (holding later_row)).1 ≡ Step.idle
        → ((step world (holding later_row)).0 ≡ holding later_row)
          × ((t : ℤ) → next_due t (holding later_row) ≡ none))
step_waits_example = step_waits world (holding later_row)

failed_until_retry_example :
    ((t : ℤ) → is_due t failed_row ≡ false)
    × ((x' : OutboxEntity) × (get_outbox "c1" (retry "c1" (pos 500) (holding failed_row)) ≡ some x')
        × ((t : ℤ) → pos 500 ≤ℤ t → is_due t x' ≡ true)
        × (x'.body ≡ "hi"))
failed_until_retry_example =
    failed_until_retry "c1" (pos 500) (holding failed_row) failed_row failed_found refl
      (unfold outgoing_state in refl)

enqueue_lem_example :
    (is_valid (validate_message_body " hi ") ≡ true
      → (x : OutboxEntity) × (get_outbox "c1" (enqueue "c1" (pos 7) "g" " hi " empty_store).0
          ≡ some x)
        × ((enqueue "c1" (pos 7) "g" " hi " empty_store).1 ≡ ok x)
        × (x.body ≡ trim " hi ")
        × (outgoing_state x ≡ OutgoingState.waiting)
        × ((t : ℤ) → is_due t x ≡ true))
    × (is_valid (validate_message_body " hi ") ≡ false
        → ((enqueue "c1" (pos 7) "g" " hi " empty_store).0 ≡ empty_store)
          × ((e : AppError) × ((enqueue "c1" (pos 7) "g" " hi " empty_store).1 ≡ err e)))
enqueue_lem_example = enqueue_lem "c1" (pos 7) "g" " hi " empty_store none_found
