-- ===== src/Store/Batch/Inserted.antt =====
-- What `INSERT OR IGNORE` and the queries of `store_incoming_batch` have to do with each other
-- (sqlite.rs).
use mathlib.Core.Path.{subst}
use un_tzibbur_bot.Base.{
  ℕ, ◌+◌, String, ◌≡◌, refl, sym, ap, ◌∙◌, Bool, true, false, ◌&&◌, List, [], ◌∷◌, map, ℤ, ◌<ℤ◌,
  eqb_ℤ, eqb_ℤ_iff, arith, any, any-select, select, length, All, All-of_any-false, Unique, str_eq,
  eq_iff, eq_refl, inl, inr, Bool-cases,
}
use un_tzibbur_bot.Entities.{MessageEntity}
use un_tzibbur_bot.Reconcile.{has_id, has_seq}
use un_tzibbur_bot.Reconcile.Sorted.{IsAscending, same_id}
use un_tzibbur_bot.Store.{in_group, same_slot}
use un_tzibbur_bot.Store.Messages.{
  clash, insert_message, insert_rows, message_ids_exist, seqs_exist,
}

-- The rows `ms` break no key, neither against `rows` nor among each other.
abbrev pub Fits : List MessageEntity → List MessageEntity → Type 0
Fits ms rows = All (λ m. any (clash m) rows ≡ false) ms × Unique clash ms

clash_sym : (m x : MessageEntity) → clash m x ≡ false → clash x m ≡ false
clash_sym m x h = ground (
  arith,
  eq_iff m.id x.id,
  eq_iff x.id m.id,
  eq_iff m.group_id x.group_id,
  eq_iff x.group_id m.group_id,
)

Fits-next :
    (m : MessageEntity) (ms rows : List MessageEntity) → Fits (m ∷ ms) rows → Fits ms (m ∷ rows)
unfolding any
Fits-next m ms rows f = (later ms f.0.1 (All-of_any-false (clash m) ms f.1.0), f.1.1)
  where
    later :
        (xs : List MessageEntity)
        → All (λ x. any (clash x) rows ≡ false) xs
        → All (λ x. clash m x ≡ false) xs
        → All (λ x. any (clash x) (m ∷ rows) ≡ false) xs
    later [] h k = tt
    later (x ∷ xs) h k = (rw (clash_sym m x k.0) h.0, later xs h.1 k.1)

pub insert_rows-kept :
    (p : MessageEntity → Bool) (ms rows : List MessageEntity) (n : ℕ)
    → any p rows ≡ true
    → any p (insert_rows ms (rows, n)).0 ≡ true
unfolding insert_rows
insert_rows-kept p [] rows n h = h
insert_rows-kept p (m ∷ ms) rows n h =
    insert_rows-kept p ms (insert_message m rows).0 (n + (insert_message m rows).1) written
  where
    written : any p (insert_message m rows).0 ≡ true
    written = unfold insert_message any in ground arith

insert_rows-step :
    (m : MessageEntity) (ms rows : List MessageEntity) (n : ℕ)
    → any (clash m) rows ≡ false
    → insert_rows (m ∷ ms) (rows, n) ≡ insert_rows ms (m ∷ rows, n + 1)
unfolding insert_rows
insert_rows-step m ms rows n h = ap (λ w. insert_rows ms (w.0, n + w.1)) written
  where
    written : insert_message m rows ≡ (m ∷ rows, 1)
    written = unfold insert_message in rw h refl

-- A query that holds of `m` finds a row.
abbrev pub IsFound : List MessageEntity → MessageEntity → Type 0
IsFound rows m = (p : MessageEntity → Bool) → p m ≡ true → any p rows ≡ true

abbrev pub AllWritten : List MessageEntity → ℕ → List MessageEntity × ℕ → Type 0
AllWritten ms n result = (result.1 ≡ n + length ms) × All (IsFound result.0) ms

first-IsFound : (m : MessageEntity) (rows : List MessageEntity) → IsFound (m ∷ rows) m
unfolding any
first-IsFound m rows p h = rw h refl

-- If the rows fit, all are written, and a query that holds of one of them finds it.
pub insert_rows-AllWritten :
    (ms rows : List MessageEntity) (n : ℕ)
    → Fits ms rows
    → AllWritten ms n (insert_rows ms (rows, n))
insert_rows-AllWritten [] rows n f = unfold insert_rows in (omega arith, tt)
insert_rows-AllWritten (m ∷ ms) rows n f =
    let r = insert_rows-AllWritten ms (m ∷ rows) (n + 1) (Fits-next m ms rows f) in
    subst (AllWritten (m ∷ ms) n) (sym (insert_rows-step m ms rows n f.0.0)) (
      omega (arith, r.0),
      (λ p h. insert_rows-kept p ms (m ∷ rows) (n + 1) (first-IsFound m rows p h), r.1),
    )

pub any-map :
    {A : Type 0} {B : Type 0} (f : A → B) (p : B → Bool) (xs : List A)
    → any p (map f xs) ≡ any (λ x. p (f x)) xs
unfolding any
any-map f p [] = refl
any-map f p (x ∷ xs) = rw (any-map f p xs) refl

-- What the two queries find, as a test of the rows.
abbrev pub stored_id : String → List String → String → MessageEntity → Bool
stored_id group_id ids id x = (in_group group_id x && has_id ids x.id) && str_eq x.id id

abbrev pub stored_seq : String → List ℤ → ℤ → MessageEntity → Bool
stored_seq group_id seqs seq x = (in_group group_id x && has_seq seqs x.seq) && eqb_ℤ x.seq seq

pub has_id-message_ids_exist :
    (group_id : String) (ids : List String) (rows : List MessageEntity) (id : String)
    → has_id (message_ids_exist group_id ids rows) id ≡ any (stored_id group_id ids id) rows
unfolding message_ids_exist
has_id-message_ids_exist group_id ids rows id =
    any-map (λ m. m.id) (λ x. str_eq x id)
      (select (λ m. in_group group_id m && has_id ids m.id) rows)
    ∙ any-select (λ m. str_eq m.id id) (λ m. in_group group_id m && has_id ids m.id) rows

pub has_seq-seqs_exist :
    (group_id : String) (seqs : List ℤ) (rows : List MessageEntity) (seq : ℤ)
    → has_seq (seqs_exist group_id seqs rows) seq ≡ any (stored_seq group_id seqs seq) rows
unfolding seqs_exist
has_seq-seqs_exist group_id seqs rows seq =
    any-map (λ m. m.seq) (λ x. eqb_ℤ x seq)
      (select (λ m. in_group group_id m && has_seq seqs m.seq) rows)
    ∙ any-select (λ m. eqb_ℤ m.seq seq) (λ m. in_group group_id m && has_seq seqs m.seq) rows

-- Rows that ascend in seq and repeat no id do not clash.
pub Unique-clash : (ms : List MessageEntity) → IsAscending ms → Unique same_id ms → Unique clash ms
unfolding any
Unique-clash [] a u = tt
Unique-clash (m ∷ ms) a u = (apart ms a.0 u.0, Unique-clash ms a.1 u.1)
  where
    apart :
        (xs : List MessageEntity)
        → All (λ x. m.seq <ℤ x.seq) xs
        → any (same_id m) xs ≡ false
        → any (clash m) xs ≡ false
    apart [] h k = refl
    apart (x ∷ xs) h k = ground (arith, apart xs h.1)

-- A message whose id and seq the queries do not find clashes with no row, if no row outside the
-- group has an id of the batch.
pub clash-unstored :
    (group_id : String) (ids : List String) (seqs : List ℤ) (m : MessageEntity)
    (rows : List MessageEntity)
    → All (λ x. has_id ids x.id ≡ true → in_group group_id x ≡ true) rows
    → in_group group_id m ≡ true
    → has_id ids m.id ≡ true
    → has_seq seqs m.seq ≡ true
    → any (stored_id group_id ids m.id) rows ≡ false
    → any (stored_seq group_id seqs m.seq) rows ≡ false
    → any (clash m) rows ≡ false
unfolding any
clash-unstored group_id ids seqs m [] own g i q h k = refl
clash-unstored group_id ids seqs m (x ∷ rows) own g i q h k =
    rw (here, clash-unstored group_id ids seqs m rows own.1 g i q (ground arith) (ground arith))
      refl
  where
    unstored : (stored_id group_id ids m.id x ≡ false) × (stored_seq group_id seqs m.seq x ≡ false)
    unstored = ground arith

    other_id : str_eq m.id x.id ≡ false
    other_id = elim (Bool-cases (str_eq m.id x.id)) [
      | inl e ↦
          let same : m.id ≡ x.id = (eq_iff m.id x.id).0 e in
          let mine : in_group group_id x ≡ true = own.0 (rw same at i) in
          let no_row = rw (same, mine, eq_refl x.id) at unstored.0 in absurd (ground arith)
      | inr e ↦ e
    ]

    other_slot : same_slot m x ≡ false
    other_slot = elim (Bool-cases (same_slot m x)) [
      | inl e ↦
          let group : m.group_id ≡ x.group_id = (eq_iff m.group_id x.group_id).0 (ground arith) in
          let slot : m.seq ≡ x.seq = (eqb_ℤ_iff m.seq x.seq).0 (ground arith) in
          let mine : in_group group_id x ≡ true = rw group at g in
          let asked : has_seq seqs x.seq ≡ true = rw slot at q in
          let no_row = rw (slot, mine, asked) at unstored.1 in absurd (ground arith)
      | inr e ↦ e
    ]

    here : clash m x ≡ false
    here = rw (other_id, other_slot) refl
