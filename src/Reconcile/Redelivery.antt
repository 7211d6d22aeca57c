-- ===== src/Reconcile/Redelivery.antt =====
-- A batch that the server sends again (reconcile.rs).
use un_tzibbur_bot.Base.{
  select, String, ◌≡◌, refl, Bool, true, ◌||◌, List, [], ◌∷◌, ℤ, arith, any, All, str_eq, eqb_ℤ,
  eqb_ℤ_iff, inl, inr, Bool-cases, eq_iff,
}
use un_tzibbur_bot.Entities.{MessageEntity}
use un_tzibbur_bot.Reconcile.{ReconcileState, has_id, has_seq, sort_by_seq, reconcile, empty_plan}
use un_tzibbur_bot.Reconcile.Sorted.{All-of_sort_by_seq}
use un_tzibbur_bot.Reconcile.Fresh.{fresh, echoes, news, max_seq_from, reconcile-fresh}

-- `later` knows every id and seq that `state` knows.
pub record Extends (state later : ReconcileState) : Type 0 where
  pub ids :
      (id : String) → has_id state.existing_ids id ≡ true → has_id later.existing_ids id ≡ true
  pub seqs :
      (seq : ℤ) → has_seq state.existing_seqs seq ≡ true → has_seq later.existing_seqs seq ≡ true

-- `later` knows the message by its id and by its seq.
abbrev pub Knows : ReconcileState → MessageEntity → Type 0
Knows later m = (has_id later.existing_ids m.id ≡ true) × (has_seq later.existing_seqs m.seq ≡ true)

module _ (state later : ReconcileState) (extends : Extends state later) where
  -- What the first loop has seen, the second has seen or finds stored.
  record Follows (ids : List String) (seqs : List ℤ) (ids' : List String) : Type 0 where
    seen :
        (id : String)
        → has_id ids id ≡ true
        → (has_id later.existing_ids id || has_id ids' id) ≡ true
    taken : (seq : ℤ) → has_seq seqs seq ≡ true → has_seq later.existing_seqs seq ≡ true

  open_seen :
      (id key : String) (ids ids' : List String)
      → (has_id ids id ≡ true → (has_id later.existing_ids id || has_id ids' id) ≡ true)
      → (has_id later.existing_ids key || has_id ids' key) ≡ true
      → has_id (key ∷ ids) id ≡ true
      → (has_id later.existing_ids id || has_id ids' id) ≡ true
  unfolding any
  open_seen id key ids ids' old new h = elim (Bool-cases (str_eq key id)) [
    | inl e ↦ rw (← (eq_iff key id).0 e) new
    | inr e ↦ old (ground arith)
  ]

  Follows-seen :
      (key : String) (ids : List String) (seqs : List ℤ) (ids' : List String)
      → (has_id later.existing_ids key || has_id ids' key) ≡ true
      → Follows ids seqs ids'
      → Follows (key ∷ ids) seqs ids'
  Follows-seen key ids seqs ids' new f = record {
    seen = λ id. open_seen id key ids ids' (f.seen id) new;
    taken = f.taken;
  }

  Follows-named :
      (key : String) (ids : List String) (seqs : List ℤ) (ids' : List String)
      → Follows ids seqs ids'
      → Follows (key ∷ ids) seqs (key ∷ ids')
  unfolding any
  Follows-named key ids seqs ids' f = record {
    seen = λ id h. ground (arith, f.seen id);
    taken = f.taken;
  }

  Follows-taken :
      (key : ℤ) (ids : List String) (seqs : List ℤ) (ids' : List String)
      → has_seq later.existing_seqs key ≡ true
      → Follows ids seqs ids'
      → Follows ids (key ∷ seqs) ids'
  unfolding any
  Follows-taken key ids seqs ids' new f = record {
    seen = f.seen;
    taken = λ seq h. elim (Bool-cases (eqb_ℤ key seq)) [
      | inl e ↦ rw (← (eqb_ℤ_iff key seq).0 e) new
      | inr e ↦ f.taken seq (ground arith)
    ];
  }

  -- What a message is tested for, first by its id and then by its seq.
  abbrev id_known : List String → MessageEntity → Bool
  id_known ids m = has_id state.existing_ids m.id || has_id ids m.id

  abbrev seq_known : List ℤ → MessageEntity → Bool
  seq_known seqs m = has_seq state.existing_seqs m.seq || has_seq seqs m.seq

  abbrev id_known' : List String → MessageEntity → Bool
  id_known' ids' m = has_id later.existing_ids m.id || has_id ids' m.id

  id_known_again :
      (ids : List String) (seqs : List ℤ) (ids' : List String) (m : MessageEntity)
      → Follows ids seqs ids'
      → id_known ids m ≡ true
      → id_known' ids' m ≡ true
  id_known_again ids seqs ids' m f h = ground (arith, extends.ids m.id, f.seen m.id)

  seq_known_again :
      (ids : List String) (seqs : List ℤ) (ids' : List String) (m : MessageEntity)
      → Follows ids seqs ids'
      → seq_known seqs m ≡ true
      → has_seq later.existing_seqs m.seq ≡ true
  seq_known_again ids seqs ids' m f h = ground (arith, extends.seqs m.seq, f.taken m.seq)

  fresh_again :
      (ids : List String) (seqs : List ℤ) (ids' : List String) (seqs' : List ℤ)
      (ms : List MessageEntity)
      → Follows ids seqs ids'
      → All (Knows later) (fresh state ids seqs ms)
      → fresh later ids' seqs' ms ≡ []
  unfolding fresh
  fresh_again ids seqs ids' seqs' [] f k = refl
  fresh_again ids seqs ids' seqs' (m ∷ ms) f k = elim (Bool-cases (id_known ids m)) [
    | inl old ↦
        rw (id_known_again ids seqs ids' m f old)
          (fresh_again ids seqs ids' seqs' ms f (rw old at k))
    | inr unseen ↦ elim (Bool-cases (seq_known seqs m)) [
      | inl old ↦ elim (Bool-cases (id_known' ids' m)) [
        | inl again ↦ rw again (
            fresh_again (m.id ∷ ids) seqs ids' seqs' ms (Follows-seen m.id ids seqs ids' again f)
              (rw (unseen, old) at k))
        | inr novel ↦
            rw (novel, seq_known_again ids seqs ids' m f old)
              (fresh_again (m.id ∷ ids) seqs (m.id ∷ ids') seqs' ms
                (Follows-named m.id ids seqs ids' f) (rw (unseen, old) at k))
      ]
      | inr novel ↦
          let stored : All (Knows later) (m ∷ fresh state (m.id ∷ ids) (m.seq ∷ seqs) ms) =
            rw (unseen, novel) at k in
          let again : id_known' ids' m ≡ true = rw stored.0.0 in
          rw again (
            fresh_again (m.id ∷ ids) (m.seq ∷ seqs) ids' seqs' ms
              (Follows-taken m.seq (m.id ∷ ids) seqs ids' stored.0.1
                (Follows-seen m.id ids seqs ids' again f))
              stored.1)
    ]
  ]

-- A batch that is sent again after its messages were stored changes nothing: nothing is inserted,
-- confirmed or announced, and the highest seq is the same.
pub reconcile_again :
    (batch : List MessageEntity) (state later : ReconcileState)
    → Extends state later
    → All (Knows later) (reconcile batch state).to_insert
    → reconcile batch later ≡ record empty_plan { max_seq = (reconcile batch state).max_seq }
unfolding sort_by_seq echoes news any select max_seq_from
reconcile_again batch state later extends k = rw (
  reconcile-fresh batch later,
  reconcile-fresh batch state,
  fresh_again state later extends [] [] [] [] batch nothing_seen stored,
)
  where
    nothing_seen : Follows state later extends [] [] []
    nothing_seen = record { seen = λ id h. cc; taken = λ seq h. cc }

    stored : All (Knows later) (fresh state [] [] batch)
    stored =
        All-of_sort_by_seq (Knows later) (fresh state [] [] batch)
          (rw (reconcile-fresh batch state) at k)
