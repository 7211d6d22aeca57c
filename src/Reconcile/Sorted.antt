-- ===== src/Reconcile/Sorted.antt =====
-- The order and the distinctness of what a plan of reconcile.rs inserts.
use mathlib.Core.List.{Perm}
use mathlib.Core.List.Perm
use un_tzibbur_bot.Base.{
  String, ◌≡◌, refl, ◌∙◌, inl, inr, Bool, false, List, [], ◌∷◌, ℤ, ◌<ℤ◌, leb_ℤ, eqb_ℤ, arith, any,
  All, All-imp, any-false_of_All, Unique, str_eq, eq_iff, Bool-cases,
}
use un_tzibbur_bot.Entities.{MessageEntity}
use un_tzibbur_bot.Reconcile.{
  ReconcileState, has_id, has_seq, insert_by_seq, sort_by_seq, reconcile,
}
use un_tzibbur_bot.Reconcile.Fresh.{fresh, reconcile-fresh}

abbrev pub same_id : MessageEntity → MessageEntity → Bool
same_id a b = str_eq a.id b.id

abbrev pub same_seq : MessageEntity → MessageEntity → Bool
same_seq a b = eqb_ℤ a.seq b.seq

-- Strictly ascending in seq.
abbrev pub IsAscending : List MessageEntity → Type 0
IsAscending [] = Unit {0}
IsAscending (m ∷ ms) = All (λ x. m.seq <ℤ x.seq) ms × IsAscending ms

-- Neither the id nor the seq is stored or seen.
abbrev Avoids : ReconcileState → List String → List ℤ → MessageEntity → Type 0
Avoids state ids seqs m =
    (has_id state.existing_ids m.id ≡ false)
    × (has_id ids m.id ≡ false)
    × (has_seq state.existing_seqs m.seq ≡ false)
    × (has_seq seqs m.seq ≡ false)

module _ (state : ReconcileState) where
  Avoids-named :
      (id : String) (ids : List String) (seqs : List ℤ) (m : MessageEntity)
      → Avoids state (id ∷ ids) seqs m
      → Avoids state ids seqs m
  unfolding any
  Avoids-named id ids seqs m h = ground arith

  Avoids-kept :
      (id : String) (ids : List String) (seq : ℤ) (seqs : List ℤ) (m : MessageEntity)
      → Avoids state (id ∷ ids) (seq ∷ seqs) m
      → Avoids state ids seqs m × (str_eq id m.id ≡ false) × (eqb_ℤ seq m.seq ≡ false)
  unfolding any
  Avoids-kept id ids seq seqs m h = ground arith

  fresh-Avoids :
      (ids : List String) (seqs : List ℤ) (ms : List MessageEntity)
      → All (Avoids state ids seqs) (fresh state ids seqs ms)
  unfolding fresh
  fresh-Avoids ids seqs [] = tt
  fresh-Avoids ids seqs (m ∷ ms) = ground (
    arith,
    fresh-Avoids ids seqs ms,
    All-imp (Avoids state (m.id ∷ ids) seqs) (Avoids state ids seqs) (Avoids-named m.id ids seqs)
        (fresh state (m.id ∷ ids) seqs ms) (fresh-Avoids (m.id ∷ ids) seqs ms),
    All-imp (Avoids state (m.id ∷ ids) (m.seq ∷ seqs)) (Avoids state ids seqs)
        (λ x h. (Avoids-kept m.id ids m.seq seqs x h).0)
        (fresh state (m.id ∷ ids) (m.seq ∷ seqs) ms) (fresh-Avoids (m.id ∷ ids) (m.seq ∷ seqs) ms),
  )

  fresh-Unique :
      (ids : List String) (seqs : List ℤ) (ms : List MessageEntity)
      → let kept = fresh state ids seqs ms in Unique same_id kept × Unique same_seq kept
  unfolding fresh
  fresh-Unique ids seqs [] = (tt, tt)
  fresh-Unique ids seqs (m ∷ ms) =
      let kept = fresh state (m.id ∷ ids) (m.seq ∷ seqs) ms in
      let avoids = fresh-Avoids (m.id ∷ ids) (m.seq ∷ seqs) ms in
      ground (
        arith,
        fresh-Unique ids seqs ms,
        fresh-Unique (m.id ∷ ids) seqs ms,
        fresh-Unique (m.id ∷ ids) (m.seq ∷ seqs) ms,
        any-false_of_All (same_id m) kept (
            All-imp _ (λ x. same_id m x ≡ false) (λ x h. (Avoids-kept m.id ids m.seq seqs x h).1)
              kept avoids),
        any-false_of_All (same_seq m) kept (
            All-imp _ (λ x. same_seq m x ≡ false) (λ x h. (Avoids-kept m.id ids m.seq seqs x h).2)
              kept avoids),
      )

-- Sorting.
any-insert_by_seq :
    (p : MessageEntity → Bool) (m : MessageEntity) (ms : List MessageEntity)
    → any p (insert_by_seq m ms) ≡ any p (m ∷ ms)
unfolding any insert_by_seq
any-insert_by_seq p m [] = refl
any-insert_by_seq p m (x ∷ ms) = ground (arith, any-insert_by_seq p m ms)

pub any-sort_by_seq :
    (p : MessageEntity → Bool) (ms : List MessageEntity) → any p (sort_by_seq ms) ≡ any p ms
unfolding any sort_by_seq
any-sort_by_seq p [] = refl
any-sort_by_seq p (m ∷ ms) =
    ground (arith, any-insert_by_seq p m (sort_by_seq ms), any-sort_by_seq p ms)

insert_by_seq-perm :
    (m : MessageEntity) (ms : List MessageEntity) → Perm (insert_by_seq m ms) (m ∷ ms)
unfolding insert_by_seq
insert_by_seq-perm m [] = Perm.refl (m ∷ [])
insert_by_seq-perm m (x ∷ ms) = elim (Bool-cases (leb_ℤ m.seq x.seq)) [
  | inl e ↦ rw e (Perm.refl (m ∷ x ∷ ms))
  | inr e ↦ rw e (Perm.trans (Perm.cons x (insert_by_seq-perm m ms)) (Perm.swap m x ms))
]

pub sort_by_seq-perm : (ms : List MessageEntity) → Perm (sort_by_seq ms) ms
unfolding sort_by_seq
sort_by_seq-perm [] = Perm.nil
sort_by_seq-perm (m ∷ ms) =
    Perm.trans (insert_by_seq-perm m (sort_by_seq ms)) (Perm.cons m (sort_by_seq-perm ms))

module _ {κ} (P : MessageEntity → Type κ) where
  All-insert_by_seq :
      (m : MessageEntity) (ms : List MessageEntity) → P m → All P ms → All P (insert_by_seq m ms)
  unfolding insert_by_seq
  All-insert_by_seq m [] p h = (p, tt)
  All-insert_by_seq m (x ∷ ms) p h = elim (Bool-cases (leb_ℤ m.seq x.seq)) [
    | inl e ↦ rw e (p, h)
    | inr e ↦ rw e (h.0, All-insert_by_seq m ms p h.1)
  ]

  pub All-sort_by_seq : (ms : List MessageEntity) → All P ms → All P (sort_by_seq ms)
  unfolding sort_by_seq
  All-sort_by_seq [] h = tt
  All-sort_by_seq (m ∷ ms) h = All-insert_by_seq m (sort_by_seq ms) h.0 (All-sort_by_seq ms h.1)

  All-of_insert_by_seq :
      (m : MessageEntity) (ms : List MessageEntity) → All P (insert_by_seq m ms) → All P (m ∷ ms)
  unfolding insert_by_seq
  All-of_insert_by_seq m [] h = h
  All-of_insert_by_seq m (x ∷ ms) h = elim (Bool-cases (leb_ℤ m.seq x.seq)) [
    | inl e ↦ rw e at h
    | inr e ↦
        let g : All P (x ∷ insert_by_seq m ms) = rw e at h in
        let r = All-of_insert_by_seq m ms g.1 in (r.0, (g.0, r.1))
  ]

  pub All-of_sort_by_seq : (ms : List MessageEntity) → All P (sort_by_seq ms) → All P ms
  unfolding sort_by_seq
  All-of_sort_by_seq [] h = tt
  All-of_sort_by_seq (m ∷ ms) h =
      let r = All-of_insert_by_seq m (sort_by_seq ms) h in (r.0, All-of_sort_by_seq ms r.1)

insert_by_seq-IsAscending :
    (m : MessageEntity) (ms : List MessageEntity)
    → any (same_seq m) ms ≡ false
    → IsAscending ms
    → IsAscending (insert_by_seq m ms)
unfolding insert_by_seq any
insert_by_seq-IsAscending m [] h a = (tt, tt)
insert_by_seq-IsAscending m (x ∷ ms) h a = elim (Bool-cases (leb_ℤ m.seq x.seq)) [
  | inl e ↦
      let lt : m.seq <ℤ x.seq = ground arith in
      rw e
        ((lt, All-imp (λ y. x.seq <ℤ y.seq) (λ y. m.seq <ℤ y.seq) (λ y k. omega arith) ms a.0), a)
  | inr e ↦ rw e (
    All-insert_by_seq (λ y. x.seq <ℤ y.seq) m ms (ground arith) a.0,
    insert_by_seq-IsAscending m ms (ground arith) a.1,
  )
]

sort_by_seq-IsAscending :
    (ms : List MessageEntity) → Unique same_seq ms → IsAscending (sort_by_seq ms)
unfolding sort_by_seq
sort_by_seq-IsAscending [] u = tt
sort_by_seq-IsAscending (m ∷ ms) u =
    insert_by_seq-IsAscending m (sort_by_seq ms) (any-sort_by_seq (same_seq m) ms ∙ u.0)
      (sort_by_seq-IsAscending ms u.1)

insert_by_seq-Unique :
    (m : MessageEntity) (ms : List MessageEntity)
    → any (same_id m) ms ≡ false
    → Unique same_id ms
    → Unique same_id (insert_by_seq m ms)
unfolding insert_by_seq any
insert_by_seq-Unique m [] h u = (refl, tt)
insert_by_seq-Unique m (x ∷ ms) h u = elim (Bool-cases (leb_ℤ m.seq x.seq)) [
  | inl e ↦ rw e (h, u)
  | inr e ↦ rw e (
    any-insert_by_seq (same_id x) m ms ∙ ground (arith, eq_iff m.id x.id, eq_iff x.id m.id),
    insert_by_seq-Unique m ms (ground arith) u.1,
  )
]

sort_by_seq-Unique : (ms : List MessageEntity) → Unique same_id ms → Unique same_id (sort_by_seq ms)
unfolding sort_by_seq
sort_by_seq-Unique [] u = tt
sort_by_seq-Unique (m ∷ ms) u =
    insert_by_seq-Unique m (sort_by_seq ms) (any-sort_by_seq (same_id m) ms ∙ u.0)
      (sort_by_seq-Unique ms u.1)

-- What a plan inserts ascends strictly in seq and repeats no id; of each message neither the id nor
-- the seq was stored before.
pub reconcile-inserts :
    (batch : List MessageEntity) (state : ReconcileState)
    → let plan = reconcile batch state in
      IsAscending plan.to_insert
      × Unique same_id plan.to_insert
      × All
          (λ m.
            (has_id state.existing_ids m.id ≡ false) × (has_seq state.existing_seqs m.seq ≡ false))
          plan.to_insert
reconcile-inserts batch state = rw (reconcile-fresh batch state) (
  sort_by_seq-IsAscending kept unique.1,
  sort_by_seq-Unique kept unique.0,
  All-sort_by_seq _ kept
      (All-imp (Avoids state [] []) _ (λ m h. (h.0, h.2)) kept (fresh-Avoids state [] [] batch)),
)
  where
    kept : List MessageEntity
    kept = fresh state [] [] batch

    unique : Unique same_id kept × Unique same_seq kept
    unique = fresh-Unique state [] [] batch
