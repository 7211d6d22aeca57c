-- ===== src/Reconcile/MaxSeq.antt =====
-- The highest seq of a batch (reconcile.rs).
use un_tzibbur_bot.Base.{
  ◌≡◌, refl, true, false, none, some, List, [], ◌∷◌, ℤ, ◌≤ℤ◌, arith, any, All, eqb_ℤ, eqb_ℤ_iff,
}
use un_tzibbur_bot.Entities.{MessageEntity}
use un_tzibbur_bot.Reconcile.{ReconcileState, raise_max, reconcile}
use un_tzibbur_bot.Reconcile.Fresh.{max_seq_from, reconcile-fresh}

max_seq_from-IsMax :
    (a top : ℤ) (ms : List MessageEntity)
    → max_seq_from (some a) ms ≡ some top
    → (a ≤ℤ top)
      × All (λ m. m.seq ≤ℤ top) ms
      × (any (λ (m : MessageEntity). eqb_ℤ m.seq top) ms ≡ false → a ≡ top)
unfolding max_seq_from any raise_max
max_seq_from-IsMax a top [] h = let e : a ≡ top = ground arith in (rw e (omega arith), tt, λ _. e)
max_seq_from-IsMax a top (m ∷ ms) h =
    let r = max_seq_from-IsMax (raise_max (some a) m.seq) top ms h in
    (ground (arith, r.0), (ground (arith, r.0), r.1), λ k. ground (arith, eqb_ℤ_iff m.seq top, r.2))

max_seq_from-ne-none : (a : ℤ) (ms : List MessageEntity) → max_seq_from (some a) ms ≡ none → ⊥
unfolding max_seq_from
max_seq_from-ne-none a [] h = cc
max_seq_from-ne-none a (m ∷ ms) h = max_seq_from-ne-none (raise_max (some a) m.seq) ms h

abbrev pub IsMax : List MessageEntity → ℤ → Type 0
IsMax batch top = All (λ m. m.seq ≤ℤ top) batch × (any (λ m. eqb_ℤ m.seq top) batch ≡ true)

batch-IsMax :
    (ms : List MessageEntity)
    → (max_seq_from none ms ≡ none → ms ≡ [])
      × ((top : ℤ) → max_seq_from none ms ≡ some top → IsMax ms top)
unfolding max_seq_from any raise_max
batch-IsMax [] = (λ _. refl, λ top h. cc)
batch-IsMax (m ∷ ms) = (
  λ h. absurd (max_seq_from-ne-none m.seq ms h),
  λ top h.
      let r = max_seq_from-IsMax m.seq top ms h in
      ((r.0, r.1), ground (arith, eqb_ℤ_iff m.seq top, r.2)),
)

-- The highest seq of a batch bounds every seq of the batch and is the seq of one of its messages;
-- only the empty batch has none.
pub max_seq-IsMax :
    (batch : List MessageEntity) (state : ReconcileState)
    → ((reconcile batch state).max_seq ≡ none → batch ≡ [])
      × ((top : ℤ) → (reconcile batch state).max_seq ≡ some top → IsMax batch top)
max_seq-IsMax batch state = rw (reconcile-fresh batch state) (batch-IsMax batch)
