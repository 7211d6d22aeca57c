-- ===== src/Reconcile/Described.antt =====
-- What a plan of reconcile.rs is, said of the batch as a whole: which messages are kept, in which
-- order they are inserted, and what is told of each.
use mathlib.Core.List.{Perm}
use un_tzibbur_bot.Base.{
  String, ◌≡◌, refl, ap, ◌∙◌, inl, inr, Bool, true, not, ◌&&◌, ◌||◌, Option, none, some, List, [],
  ◌∷◌, ◌++◌, map, ℤ, arith, any, select, eq_iff, eqb_ℤ_iff, Bool-cases, if◌then◌else◌,
}
use un_tzibbur_bot.Entities.{MessageEntity}
use un_tzibbur_bot.Reconcile.{
  EchoConfirmation, ReconcileState, has_id, has_seq, is_echo, echo_of, reconcile,
}
use un_tzibbur_bot.Reconcile.Fresh.{fresh, echoes, news, reconcile-fresh}
use un_tzibbur_bot.Reconcile.Sorted.{
  same_id, same_seq, IsAscending, reconcile-inserts, sort_by_seq-perm,
}
use un_tzibbur_bot.Reconcile.MaxSeq.{IsMax, max_seq-IsMax}

module _ {ℓ} {A : Type ℓ} where
  -- Of elements that are the same, the first.
  unfoldable pub distinct : (A → A → Bool) → List A → List A
  unfolding select
  distinct same [] = []
  distinct same (x ∷ xs) = x ∷ select (λ y. not (same x y)) (distinct same xs)

  select-fuse :
      (p q r : A → Bool) (xs : List A)
      → ((x : A) → r x ≡ (q x && p x))
      → select p (select q xs) ≡ select r xs
  unfolding select
  select-fuse p q r [] h = refl
  select-fuse p q r (x ∷ xs) h = ground (arith, h x, select-fuse p q r xs h)

  select-ext : (p q : A → Bool) (xs : List A) → ((x : A) → p x ≡ q x) → select p xs ≡ select q xs
  unfolding select
  select-ext p q [] h = refl
  select-ext p q (x ∷ xs) h = ground (arith, h x, select-ext p q xs h)

  select_comm : (p q : A → Bool) (xs : List A) → select p (select q xs) ≡ select q (select p xs)
  unfolding select
  select_comm p q [] = refl
  select_comm p q (x ∷ xs) = ground (arith, select_comm p q xs)

  select-absorbed :
      (p q : A → Bool) (xs : List A)
      → ((x : A) → q x ≡ true → p x ≡ true)
      → select q (select p xs) ≡ select q xs
  unfolding select
  select-absorbed p q [] h = refl
  select-absorbed p q (x ∷ xs) h = ground (arith, h x, select-absorbed p q xs h)

  -- A test that sees no difference between elements that are the same.
  abbrev Respects : (A → A → Bool) → (A → Bool) → Type ℓ
  Respects same q = (x y : A) → same x y ≡ true → q x ≡ q y

  select-distinct :
      (same : A → A → Bool) (q : A → Bool) (xs : List A)
      → Respects same q
      → select q (distinct same xs) ≡ distinct same (select q xs)
  unfolding select distinct
  select-distinct same q [] h = refl
  select-distinct same q (x ∷ xs) h = elim (Bool-cases (q x)) [
    | inl e ↦ rw e (
        ap (λ ys. x ∷ ys)
          (select_comm q (λ y. not (same x y)) (distinct same xs)
            ∙ ap (select (λ y. not (same x y))) (select-distinct same q xs h)))
    | inr e ↦ rw e (
        select-absorbed (λ y. not (same x y)) q (distinct same xs)
          (λ y k. let same_test = h x y in ground arith)
        ∙ select-distinct same q xs h)
  ]

  -- To avoid one element more.
  distinct-more :
      (same : A → A → Bool) (q r : A → Bool) (x : A) (xs : List A)
      → Respects same (λ y. not (same x y))
      → ((y : A) → r y ≡ (q y && not (same x y)))
      → select (λ y. not (same x y)) (distinct same (select q xs)) ≡ distinct same (select r xs)
  distinct-more same q r x xs h k =
      select-distinct same (λ y. not (same x y)) (select q xs) h
      ∙ ap (distinct same) (select-fuse (λ y. not (same x y)) q r xs k)

id-Respects : (m : MessageEntity) → Respects same_id (λ y. not (same_id m y))
id-Respects m x y e = let ids : x.id ≡ y.id = (eq_iff x.id y.id).0 e in rw ids refl

seq-Respects : (m : MessageEntity) → Respects same_seq (λ y. not (same_seq m y))
seq-Respects m x y e = let seqs : x.seq ≡ y.seq = (eqb_ℤ_iff x.seq y.seq).0 e in rw seqs refl

module _ (state : ReconcileState) where
  -- The messages with a new id, of each id the first, and of these those with a new seq, of each
  -- seq the first.
  unfoldable pub kept : List MessageEntity → List MessageEntity
  unfolding distinct
  kept batch = distinct same_seq (
      select (λ m. not (has_seq state.existing_seqs m.seq))
        (distinct same_id (select (λ m. not (has_id state.existing_ids m.id)) batch)))

  abbrev id_free : List String → MessageEntity → Bool
  id_free ids m = not (has_id state.existing_ids m.id || has_id ids m.id)

  abbrev seq_free : List ℤ → MessageEntity → Bool
  seq_free seqs m = not (has_seq state.existing_seqs m.seq || has_seq seqs m.seq)

  abbrev named : List String → List MessageEntity → List MessageEntity
  named ids ms = distinct same_id (select (id_free ids) ms)

  named-more :
      (ids : List String) (m : MessageEntity) (ms : List MessageEntity)
      → select (λ y. not (same_id m y)) (named ids ms) ≡ named (m.id ∷ ids) ms
  unfolding any
  named-more ids m ms =
      distinct-more same_id (id_free ids) (id_free (m.id ∷ ids)) m ms (id-Respects m)
        (λ y. ground arith)

  seqs-more :
      (seqs : List ℤ) (m : MessageEntity) (ms : List MessageEntity)
      → select (λ y. not (same_seq m y)) (distinct same_seq (select (seq_free seqs) ms))
        ≡ distinct same_seq (select (seq_free (m.seq ∷ seqs)) ms)
  unfolding any
  seqs-more seqs m ms =
      distinct-more same_seq (seq_free seqs) (seq_free (m.seq ∷ seqs)) m ms (seq-Respects m)
        (λ y. ground arith)

  fresh-distinct :
      (ids : List String) (seqs : List ℤ) (ms : List MessageEntity)
      → fresh state ids seqs ms ≡ distinct same_seq (select (seq_free seqs) (named ids ms))
  unfolding fresh select distinct
  fresh-distinct ids seqs [] = refl
  fresh-distinct ids seqs (m ∷ ms) =
      elim (Bool-cases (has_id state.existing_ids m.id || has_id ids m.id)) [
        | inl e ↦ rw e (fresh-distinct ids seqs ms)
        | inr e ↦
            rw (e, named-more ids m ms)
              (elim (Bool-cases (has_seq state.existing_seqs m.seq || has_seq seqs m.seq)) [
                | inl f ↦ rw f (fresh-distinct (m.id ∷ ids) seqs ms)
                | inr f ↦
                    rw (f, seqs-more seqs m (named (m.id ∷ ids) ms))
                      (ap (λ xs. m ∷ xs) (fresh-distinct (m.id ∷ ids) (m.seq ∷ seqs) ms))
              ])
      ]

  fresh-kept : (batch : List MessageEntity) → fresh state [] [] batch ≡ kept batch
  unfolding kept any
  fresh-kept batch =
      fresh-distinct [] [] batch
      ∙ ap (λ ms. distinct same_seq (select (seq_free []) (distinct same_id ms)))
          (select-ext (id_free []) _ batch (λ m. ground arith))
      ∙ ap (distinct same_seq) (select-ext (seq_free []) _ _ (λ m. ground arith))

-- The confirmation that a message is, if it answers a row of the outbox that waits for it.
abbrev pub answer : List String → MessageEntity → Option String → List EchoConfirmation
answer unconfirmed m none = []
answer unconfirmed m (some c) =
    if has_id unconfirmed c
    then record { client_message_id = c; server_id = m.id; seq = m.seq } ∷ []
    else []

unfoldable pub answers : List String → List MessageEntity → List EchoConfirmation
answers unconfirmed [] = []
answers unconfirmed (m ∷ ms) = answer unconfirmed m m.client_message_id ++ answers unconfirmed ms

-- The id of a message that answers no such row.
abbrev pub new_id : List String → MessageEntity → Option String → List String
new_id unconfirmed m none = m.id ∷ []
new_id unconfirmed m (some c) = if has_id unconfirmed c then [] else m.id ∷ []

unfoldable pub new_ids : List String → List MessageEntity → List String
new_ids unconfirmed [] = []
new_ids unconfirmed (m ∷ ms) = new_id unconfirmed m m.client_message_id ++ new_ids unconfirmed ms

-- Which of the two a message is.
echo-cases :
    (unconfirmed : List String) (m : MessageEntity) (c : Option String)
    → m.client_message_id ≡ c
    → (if is_echo unconfirmed c then echo_of m ∷ [] else []) ≡ answer unconfirmed m c
unfolding is_echo echo_of
echo-cases unconfirmed m none e = refl
echo-cases unconfirmed m (some c) e = rw e refl

new-cases :
    (unconfirmed : List String) (m : MessageEntity) (c : Option String)
    → (if not (is_echo unconfirmed c) then m.id ∷ [] else []) ≡ new_id unconfirmed m c
unfolding is_echo
new-cases unconfirmed m none = refl
new-cases unconfirmed m (some c) = elim (Bool-cases (has_id unconfirmed c)) [
  | inl e ↦ rw e refl
  | inr e ↦ rw e refl
]

map-select {ℓ ℓ'} :
    {A : Type ℓ} {B : Type ℓ'} (f : A → B) (p : A → Bool) (x : A) (xs : List A)
    → map f (select p (x ∷ xs)) ≡ (if p x then f x ∷ [] else []) ++ map f (select p xs)
unfolding select
map-select f p x xs = elim (Bool-cases (p x)) [ inl e ↦ rw e refl | inr e ↦ rw e refl ]

echoes-answers :
    (unconfirmed : List String) (ms : List MessageEntity)
    → echoes unconfirmed ms ≡ answers unconfirmed ms
unfolding echoes answers select
echoes-answers unconfirmed [] = refl
echoes-answers unconfirmed (m ∷ ms) =
    map-select echo_of (λ x. is_echo unconfirmed x.client_message_id) m ms
    ∙ rw (echo-cases unconfirmed m m.client_message_id refl, ← echoes-answers unconfirmed ms) refl

news-new_ids :
    (unconfirmed : List String) (ms : List MessageEntity)
    → news unconfirmed ms ≡ new_ids unconfirmed ms
unfolding news new_ids select
news-new_ids unconfirmed [] = refl
news-new_ids unconfirmed (m ∷ ms) =
    map-select (λ x. x.id) (λ x. not (is_echo unconfirmed x.client_message_id)) m ms
    ∙ rw (new-cases unconfirmed m m.client_message_id, ← news-new_ids unconfirmed ms) refl

-- The highest seq of the batch; only the empty batch has none.
abbrev pub TopOf : List MessageEntity → Option ℤ → Type 0
TopOf batch none = batch ≡ []
TopOf batch (some top) = IsMax batch top

reconcile-TopOf :
    (batch : List MessageEntity) (state : ReconcileState)
    → TopOf batch (reconcile batch state).max_seq
reconcile-TopOf batch state = top_of (reconcile batch state).max_seq refl
  where
    top_of : (top : Option ℤ) → (reconcile batch state).max_seq ≡ top → TopOf batch top
    top_of none e = (max_seq-IsMax batch state).0 e
    top_of (some top) e = (max_seq-IsMax batch state).1 top e

-- The plan of a batch. Of the messages whose id is not stored the first of each id is taken, and of
-- these, those whose seq is not stored, the first of each seq. They are inserted in the strict order
-- of their seqs. Each of them that carries the `clientMessageId` of an unconfirmed row confirms that
-- row with its own id and seq, and the ids of the others are new, both in the order of the batch. The
-- highest seq is that of the whole batch.
pub reconcile_lem :
    (batch : List MessageEntity) (state : ReconcileState)
    → let plan = reconcile batch state in
      let ms = kept state batch in
      IsAscending plan.to_insert
      × Perm plan.to_insert ms
      × (plan.echo_confirmations ≡ answers state.unconfirmed_client_message_ids ms)
      × (plan.new_message_ids ≡ new_ids state.unconfirmed_client_message_ids ms)
      × TopOf batch plan.max_seq
reconcile_lem batch state =
    let unconfirmed = state.unconfirmed_client_message_ids in
    let plan = reconcile-fresh batch state in
    let ms = fresh-kept state batch in
    (
      (reconcile-inserts batch state).0,
      rw (plan, ← ms) (sort_by_seq-perm (fresh state [] [] batch)),
      ap (λ p. p.echo_confirmations) plan
          ∙ ap (echoes unconfirmed) ms
          ∙ echoes-answers unconfirmed (kept state batch),
      ap (λ p. p.new_message_ids) plan
          ∙ ap (news unconfirmed) ms
          ∙ news-new_ids unconfirmed (kept state batch),
      reconcile-TopOf batch state,
    )
