-- ===== src/Outbox/Delivery.antt =====
-- Which row a step sends, when, and what its answer tells the loop (`step` of outbox.rs).
use mathlib.Core.Path.{subst}
use mathlib.Core.List.{Mem, mem-cons_self, mem-cons_of_mem}
use un_tzibbur_bot.Base.{
  String, ◌≡◌, ◌≢◌, refl, sym, inl, inr, Bool, true, false, Option, none, some, List, [], ◌∷◌, ℤ,
  ◌+ℤ◌, ◌-ℤ◌, ltb_ℤ, ◌≤ℤ◌, ◌<ℤ◌, arith, int_laws, if◌then◌else◌, Bool-cases, select, update, All,
  All-imp, eq_iff,
}
use un_tzibbur_bot.Entities.{OutboxEntity, OutboxState, OutgoingState, outgoing, outgoing_state}
use un_tzibbur_bot.Store.{SqliteStore}
use un_tzibbur_bot.Store.OutboxTable.{
  is_open, is_confirmed, get_outbox, mark_in_flight, oldest, older, next_dispatchable, stale_ms,
  is_dispatchable, dispatchable_in, due, stale, earliest_next_attempt, retry_outbox,
}
use un_tzibbur_bot.Store.OutboxTable.Wakes.{
  leb_false, leb_true, is_due, next_due, earliest_next_attempt-IsNext,
}
use un_tzibbur_bot.Outbox.Outcome.{open_row}
use un_tzibbur_bot.Outbox.{World, Step, step, dispatch, nothing_due, retry}

-- `r` is a row of `rows` that `p` holds of, and the oldest such row.
abbrev pub IsOldest : (OutboxEntity → Bool) → List OutboxEntity → OutboxEntity → Type 0
IsOldest p rows r =
    Mem r rows × (p r ≡ true) × All (λ x. p x ≡ true → r.created_at ≤ℤ x.created_at) rows

abbrev OldestOrNone : (OutboxEntity → Bool) → List OutboxEntity → Option OutboxEntity → Type 0
OldestOrNone p rows none = All (λ x. p x ≡ false) rows
OldestOrNone p rows (some r) = IsOldest p rows r

older_first : (x r : OutboxEntity) → ltb_ℤ x.created_at r.created_at ≡ true → older x (some r) ≡ x
unfolding older
older_first x r l = rw l refl

older_second : (x r : OutboxEntity) → ltb_ℤ x.created_at r.created_at ≡ false → older x (some r) ≡ r
unfolding older
older_second x r l = rw l refl

oldest_lem :
    (p : OutboxEntity → Bool) (rows : List OutboxEntity)
    → OldestOrNone p rows (oldest (select p rows))
unfolding oldest select
oldest_lem p [] = tt
oldest_lem p (x ∷ rows) = elim (Bool-cases (p x)) [
  | inl e ↦ rw e (chosen (oldest (select p rows)) (oldest_lem p rows) e)
  | inr e ↦ rw e (passed (oldest (select p rows)) (oldest_lem p rows) e)
]
  where
    passed :
        (o : Option OutboxEntity)
        → OldestOrNone p rows o
        → p x ≡ false
        → OldestOrNone p (x ∷ rows) o
    passed none h e = (e, h)
    passed (some r) h e = (mem-cons_of_mem x h.0, h.1, (λ k. absurd (ground arith), h.2))

    chosen :
        (o : Option OutboxEntity)
        → OldestOrNone p rows o
        → p x ≡ true
        → OldestOrNone p (x ∷ rows) (some (older x o))
    chosen none h e =
        unfold older in
        (mem-cons_self, e, (λ k. omega arith, All-imp _ _ (λ y k l. absurd (ground arith)) rows h))
    chosen (some r) h e = elim (Bool-cases (ltb_ℤ x.created_at r.created_at)) [
      | inl l ↦
          let lt : x.created_at <ℤ r.created_at = ground arith in
          subst (IsOldest p (x ∷ rows)) (sym (older_first x r l)) (
            mem-cons_self,
            e,
            (λ k. omega arith, All-imp _ _ (λ y k q. let le = k q in omega arith) rows h.2),
          )
      | inr l ↦
          let le : r.created_at ≤ℤ x.created_at = ground arith in
          subst (IsOldest p (x ∷ rows)) (sym (older_second x r l))
            (mem-cons_of_mem x h.0, h.1, (λ k. le, h.2))
    ]

oldest_found :
    (p : OutboxEntity → Bool) (rows : List OutboxEntity) (r : OutboxEntity)
    → oldest (select p rows) ≡ some r
    → IsOldest p rows r
oldest_found p rows r h = let o = oldest_lem p rows in rw h at o

-- What holds of every row of the table holds of the row that a step sends.
oldest_holds :
    (p : OutboxEntity → Bool) (P : OutboxEntity → Type 0) (rows : List OutboxEntity)
    → All P rows
    → (r : OutboxEntity) → oldest (select p rows) ≡ some r
    → P r
unfolding oldest select
oldest_holds p P [] a r h = cc
oldest_holds p P (x ∷ rows) a r h = elim (Bool-cases (p x)) [
  | inl e ↦ chosen (oldest (select p rows)) (λ k. oldest_holds p P rows a.1 r k) (rw e at h)
  | inr e ↦ oldest_holds p P rows a.1 r (rw e at h)
]
  where
    from_x : x ≡ r → P r
    from_x k = rw (← k) a.0

    chosen : (o : Option OutboxEntity) → (o ≡ some r → P r) → some (older x o) ≡ some r → P r
    chosen none again q = unfold older in from_x cc
    chosen (some y) again q = elim (Bool-cases (ltb_ℤ x.created_at y.created_at)) [
      | inl l ↦ let same : some x ≡ some r = rw (older_first x y l) at q in from_x cc
      | inr l ↦ let same : some y ≡ some r = rw (older_second x y l) at q in again same
    ]

-- The row that a step sends is in the table, is due, and no due row is older.
pub next_dispatchable-IsOldest :
    (now : ℤ) (s : SqliteStore) (r : OutboxEntity)
    → next_due now s ≡ some r
    → IsOldest (is_due now) s.outbox r
unfolding next_dispatchable
next_dispatchable-IsOldest now s r h = oldest_found (is_due now) s.outbox r h

-- A row under way at `now` is not due before two minutes have gone by.
abbrev Waits : String → ℤ → OutboxEntity → Type 0
Waits id t x = (x.client_message_id ≡ id) → is_due t x ≡ false

confirmed_not_due :
    (st : OutboxState) (next : Option ℤ) (c : Option String) (last : Option ℤ)
    (now stale_before : ℤ)
    → is_confirmed st ≡ true
    → dispatchable_in st next c last now stale_before ≡ false
unfolding dispatchable_in
confirmed_not_due OutboxState.confirmed next c last now stale_before h = refl
confirmed_not_due OutboxState.pending next c last now stale_before h = cc
confirmed_not_due OutboxState.in_flight next c last now stale_before h = cc

under_way :
    (id : String) (now t : ℤ) (rows : List OutboxEntity)
    → t <ℤ (now +ℤ stale_ms)
    → All (Waits id t) (
        update
          (is_open id)
          (λ e. record e { state = OutboxState.in_flight; last_attempt_at = some now })
          rows)
unfolding update is_dispatchable dispatchable_in stale
under_way id now t [] before = tt
under_way id now t (x ∷ rows) before = (λ same. unmarked same, under_way id now t rows before)
  where
    unmarked : Waits id t (
        if is_open id x
        then record x { state = OutboxState.in_flight; last_attempt_at = some now }
        else x)
    unmarked = elim (Bool-cases (is_open id x)) [
      | inl o ↦ rw o (λ same. leb_false now (t -ℤ stale_ms) (omega int_laws))
      | inr o ↦ rw o (λ same.
          confirmed_not_due x.state _ _ _ _ _ (ground (arith, eq_iff x.client_message_id id)))
    ]

-- Once a row is marked in flight at `now`, the dispatcher does not pick the same message again
-- before two minutes have gone by, unless the table changes.
pub mark_in_flight-next_dispatchable :
    (id : String) (now t : ℤ) (s : SqliteStore) (r : OutboxEntity)
    → t <ℤ (now +ℤ stale_ms)
    → next_due t (mark_in_flight id now s) ≡ some r
    → r.client_message_id ≢ id
unfolding next_dispatchable mark_in_flight
mark_in_flight-next_dispatchable id now t s r before h same =
    let all = under_way id now t s.outbox before in
    let waits = oldest_holds (is_due t) (Waits id t) _ all r h same in
    let o = oldest_found (is_due t) _ r h in ground (arith, o.1)

-- If a step answers `wait_until at`, it changed nothing, `at` is in the future, no row of the table
-- is due before it, and one is due at it. If it answers `idle`, it changed nothing, and no row of
-- the table will ever be due.
pub step_waits :
    (w : World) (s : SqliteStore)
    → ((at : ℤ)
        → (step w s).1 ≡ Step.wait_until at
        → ((step w s).0 ≡ s)
          × (w.now <ℤ at)
          × ((t : ℤ) → t <ℤ at → next_due t s ≡ none)
          × (next_due at s ≢ none))
      × ((step w s).1 ≡ Step.idle → ((step w s).0 ≡ s) × ((t : ℤ) → next_due t s ≡ none))
unfolding step
step_waits w s = by_row (next_due w.now s) refl
  where
    waiting : (o : Option ℤ) (at : ℤ) → nothing_due o ≡ Step.wait_until at → o ≡ some at
    waiting none at e = unfold nothing_due in cc
    waiting (some x) at e = unfold nothing_due in cc

    asleep : (o : Option ℤ) → nothing_due o ≡ Step.idle → o ≡ none
    asleep none e = refl
    asleep (some x) e = unfold nothing_due in cc

    by_row :
        (o : Option OutboxEntity)
        → next_due w.now s ≡ o
        → ((at : ℤ)
            → (dispatch w o s).1 ≡ Step.wait_until at
            → ((dispatch w o s).0 ≡ s)
              × (w.now <ℤ at)
              × ((t : ℤ) → t <ℤ at → next_due t s ≡ none)
              × (next_due at s ≢ none))
          × ((dispatch w o s).1 ≡ Step.idle
              → ((dispatch w o s).0 ≡ s) × ((t : ℤ) → next_due t s ≡ none))
    by_row (some row) k = unfold dispatch in (λ at e. cc, λ e. cc)
    by_row none k =
        unfold dispatch in
        (
          λ at e.
              let r =
                (earliest_next_attempt-IsNext w.now s k).1 at
                  (waiting (earliest_next_attempt w.now s) at e) in
              (refl, r.0, r.1, r.2),
          λ e. (
            refl,
            (earliest_next_attempt-IsNext w.now s k).0 (asleep (earliest_next_attempt w.now s) e),
          ),
        )

shown_failed :
    (st : OutboxState) (next : Option ℤ) (c : Option String) (last : Option ℤ)
    (now stale_before : ℤ)
    → st ≡ OutboxState.pending
    → outgoing st c next ≡ OutgoingState.failed
    → (dispatchable_in st next c last now stale_before ≡ false) × (is_confirmed st ≡ false)
unfolding dispatchable_in due
shown_failed OutboxState.pending none none last now stale_before e f = cc
shown_failed OutboxState.pending none (some c) last now stale_before e f = (refl, refl)
shown_failed OutboxState.pending (some at) none last now stale_before e f = cc
shown_failed OutboxState.pending (some at) (some c) last now stale_before e f = cc
shown_failed OutboxState.in_flight next c last now stale_before e f = cc
shown_failed OutboxState.confirmed next c last now stale_before e f = cc

-- A pending row that is shown as failed is never due, and after `retry` at `now` the row of its id
-- is due from `now` on, with its body.
pub failed_until_retry :
    (id : String) (now : ℤ) (s : SqliteStore) (x : OutboxEntity)
    → get_outbox id s ≡ some x
    → x.state ≡ OutboxState.pending
    → outgoing_state x ≡ OutgoingState.failed
    → ((t : ℤ) → is_due t x ≡ false)
      × ((x' : OutboxEntity) × (get_outbox id (retry id now s) ≡ some x')
          × ((t : ℤ) → now ≤ℤ t → is_due t x' ≡ true)
          × (x'.body ≡ x.body))
unfolding outgoing_state is_dispatchable retry retry_outbox dispatchable_in due
failed_until_retry id now s x found p f = (
  λ t. (never t).0,
  (_, open_row id s x found _ (λ _. refl) (never now).1, λ t le. leb_true now t le, refl),
)
  where
    never : (t : ℤ) → (is_due t x ≡ false) × (is_confirmed x.state ≡ false)
    never t =
        shown_failed x.state x.next_attempt_at x.error_code x.last_attempt_at t (t -ℤ stale_ms) p f
