-- ===== src/Store/OutboxTable/Wakes.antt =====
-- When a row of the outbox is due, and `earliest_next_attempt` (sqlite.rs).
use un_tzibbur_bot.Base.{
  String, ◌≡◌, ◌≢◌, refl, inl, inr, Bool, true, false, ◌||◌, Option, none, some, List, [], ◌∷◌, ℤ,
  ◌-ℤ◌, ◌≤ℤ◌, ◌<ℤ◌, leb_ℤ, ltb_ℤ, arith, int_laws, any, select, Bool-cases,
}
use un_tzibbur_bot.Entities.{OutboxEntity, OutboxState}
use un_tzibbur_bot.Store.{SqliteStore}
use un_tzibbur_bot.Store.OutboxTable.{
  due, stale, is_dispatchable, dispatchable_in, oldest, next_dispatchable, stale_ms, later_than,
  goes_stale, wakes_in, wakes_at, earlier, earliest_of, earliest_next_attempt,
}

-- `next_dispatchable` as the dispatcher calls it.
abbrev pub is_due : ℤ → OutboxEntity → Bool
is_due now = is_dispatchable now (now -ℤ stale_ms)

-- Of something that is not due at `now`, by its test: when it wakes, if it ever does.
abbrev Sleeps : (ℤ → Bool) → ℤ → Option ℤ → Type 0
Sleeps due_at now none = (t : ℤ) → due_at t ≡ false
Sleeps due_at now (some at) =
    (now <ℤ at) × (due_at at ≡ true) × ((t : ℤ) → t <ℤ at → due_at t ≡ false)

pub leb_false : (a b : ℤ) → b <ℤ a → leb_ℤ a b ≡ false
leb_false a b h = ground arith

pub leb_true : (a b : ℤ) → a ≤ℤ b → leb_ℤ a b ≡ true
leb_true a b h = ground arith

pending-Sleeps :
    (now : ℤ) (next : Option ℤ) (error_code : Option String)
    → due next error_code now ≡ false
    → Sleeps (λ t. due next error_code t) now (later_than now next)
unfolding due later_than
pending-Sleeps now none none h = cc
pending-Sleeps now none (some c) h = λ t. refl
pending-Sleeps now (some at) c h =
    let later : ltb_ℤ now at ≡ true = ground arith in
    rw later (ground arith, leb_true at at (omega arith), λ t k. leb_false at t k)

in_flight-Sleeps :
    (now : ℤ) (last : Option ℤ)
    → stale last (now -ℤ stale_ms) ≡ false
    → Sleeps (λ t. stale last (t -ℤ stale_ms)) now (goes_stale last)
unfolding stale goes_stale
in_flight-Sleeps now none h = cc
in_flight-Sleeps now (some at) h = (
  omega (int_laws, fresh),
  leb_true at _ (omega int_laws),
  λ t k. leb_false at _ (omega int_laws),
)
  where
    fresh : now -ℤ stale_ms <ℤ at
    fresh = ground arith

row-Sleeps :
    (now : ℤ) (state : OutboxState) (next : Option ℤ) (error_code : Option String) (last : Option ℤ)
    → dispatchable_in state next error_code last now (now -ℤ stale_ms) ≡ false
    → Sleeps
        (λ t. dispatchable_in state next error_code last t (t -ℤ stale_ms))
        now
        (wakes_in state next last now)
unfolding dispatchable_in wakes_in
row-Sleeps now OutboxState.pending next error_code last h = pending-Sleeps now next error_code h
row-Sleeps now OutboxState.in_flight next error_code last h = in_flight-Sleeps now last h
row-Sleeps now OutboxState.confirmed next error_code last h = λ t. refl

any_due : ℤ → List OutboxEntity → Bool
any_due t es = any (is_due t) es

or_true : (a : Bool) {b : Bool} → b ≡ true → (a || b) ≡ true
or_true a h = ground arith

earlier-Sleeps :
    (p q : ℤ → Bool) (now : ℤ) (a b : Option ℤ)
    → Sleeps p now a
    → Sleeps q now b
    → Sleeps (λ t. p t || q t) now (earlier a b)
unfolding earlier
earlier-Sleeps p q now none none h k = λ t. rw (h t) (k t)
earlier-Sleeps p q now none (some b) h k = (k.0, rw (h b) k.1, λ t l. rw (h t) (k.2 t l))
earlier-Sleeps p q now (some a) none h k = (h.0, rw h.1, λ t l. rw (h.2 t l) (k t))
earlier-Sleeps p q now (some a) (some b) h k = elim (Bool-cases (leb_ℤ a b)) [
  | inl e ↦
      let le : a ≤ℤ b = ground arith in
      rw e (h.0, rw h.1, λ t l. rw (h.2 t l) (k.2 t (omega arith)))
  | inr e ↦
      let lt : b <ℤ a = ground arith in
      rw e (k.0, or_true (p b) k.1, λ t l. rw (h.2 t (omega arith)) (k.2 t l))
]

rows-Sleeps :
    (now : ℤ) (es : List OutboxEntity)
    → any_due now es ≡ false
    → Sleeps (λ t. any_due t es) now (earliest_of now es)
unfolding any_due any earliest_of is_dispatchable wakes_at
rows-Sleeps now [] h = λ t. refl
rows-Sleeps now (e ∷ es) h =
    earlier-Sleeps (λ t. is_due t e) (λ t. any_due t es) now _ _
      (row-Sleeps now e.state e.next_attempt_at e.error_code e.last_attempt_at (ground arith))
      (rows-Sleeps now es (ground arith))

any_of_select :
    (p : OutboxEntity → Bool) (es : List OutboxEntity)
    → oldest (select p es) ≡ none
    → any p es ≡ false
unfolding oldest select any
any_of_select p [] h = refl
any_of_select p (e ∷ es) h = elim (Bool-cases (p e)) [
  | inl t ↦ absurd (ground arith)
  | inr f ↦ rw f (any_of_select p es (rw f at h))
]

none_of_any :
    (p : OutboxEntity → Bool) (es : List OutboxEntity)
    → any p es ≡ false
    → oldest (select p es) ≡ none
unfolding oldest select any
none_of_any p [] h = refl
none_of_any p (e ∷ es) h = ground (arith, none_of_any p es)

-- The row that `next_dispatchable` picks at `t`, as `step` asks for it.
abbrev pub next_due : ℤ → SqliteStore → Option OutboxEntity
next_due t s = next_dispatchable t (t -ℤ stale_ms) s

-- If no row is due now, then with no next attempt none will ever be due, unless the table changes;
-- and with `at` as the next attempt, `at` is in the future, no row is due before it, and some row is
-- due at it.
pub earliest_next_attempt-IsNext :
    (now : ℤ) (s : SqliteStore)
    → next_due now s ≡ none
    → (earliest_next_attempt now s ≡ none → (t : ℤ) → next_due t s ≡ none)
      × ((at : ℤ)
          → earliest_next_attempt now s ≡ some at
          → (now <ℤ at) × ((t : ℤ) → t <ℤ at → next_due t s ≡ none) × (next_due at s ≢ none))
unfolding next_dispatchable earliest_next_attempt any_due
earliest_next_attempt-IsNext now s h = (
  λ e t. none_of_any (is_due t) s.outbox ((rw e at asleep) t),
  λ at e.
      let r : Sleeps (λ t. any_due t s.outbox) now (some at) = rw e at asleep in
      (r.0, λ t l. none_of_any (is_due t) s.outbox (r.2 t l), λ k. absurd (due_now at r.1 k)),
)
  where
    asleep : Sleeps (λ t. any_due t s.outbox) now (earliest_of now s.outbox)
    asleep = rows-Sleeps now s.outbox (any_of_select (is_due now) s.outbox h)

    due_now :
        (at : ℤ) → any_due at s.outbox ≡ true → oldest (select (is_due at) s.outbox) ≡ none → ⊥
    due_now at t k = let f = any_of_select (is_due at) s.outbox k in ground arith
