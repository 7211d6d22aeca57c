-- ===== src/Store/Groups/Listed.antt =====
-- The group list of the server against the local one: `reconcile_groups` of sqlite.rs.
use mathlib.Core.Option
use un_tzibbur_bot.Base.{
  String, ◌≡◌, refl, ◌∙◌, inl, inr, Bool, true, false, Option, none, some, List, [], ◌∷◌, map, ◌≤ℤ◌,
  arith, Bool-cases, if◌then◌else◌, str_eq, eq_iff, eq_refl, find, find-update, find-holds, any,
  update,
}
use un_tzibbur_bot.Entities.{GroupEntity}
use un_tzibbur_bot.Store.{SqliteStore, notify, has_group_id}
use un_tzibbur_bot.Store.Groups.{
  get_group, merge_group, tx_upsert_group, upsert_all, delete_rows_except, reconcile_groups,
}

-- What a group keeps of its former row, if it had one: whether it is muted, and how far it is read.
abbrev pub KeepsLocal : Option GroupEntity → GroupEntity → Type 0
KeepsLocal none g = Unit
KeepsLocal (some old) g = (g.muted ≡ old.muted) × (old.last_read_seq ≤ℤ g.last_read_seq)

abbrev pub lists : String → List GroupEntity → Bool
lists id listed = any (str_eq id) (map (λ g. g.id) listed)

abbrev pub dropped : GroupEntity → GroupEntity
dropped g = record g { is_deleted = true }

-- A row that the reconciliation has met: it is in the table, not deleted, with its local columns.
abbrev Met : Option GroupEntity → Option GroupEntity → Type 0
Met old none = ⊥
Met old (some g) = (g.is_deleted ≡ false) × KeepsLocal old g

not_found :
    (id : String) (rows : List GroupEntity)
    → any (has_group_id id) rows ≡ false
    → find (has_group_id id) rows ≡ none
unfolding any find
not_found id [] h = refl
not_found id (x ∷ rows) h = ground (arith, not_found id rows)

is_found :
    (id : String) (rows : List GroupEntity)
    → any (has_group_id id) rows ≡ true
    → (g : GroupEntity) × (find (has_group_id id) rows ≡ some g)
unfolding any find
is_found id [] h = cc
is_found id (x ∷ rows) h = elim (Bool-cases (has_group_id id x)) [
  | inl e ↦ (x, rw e refl)
  | inr e ↦ rw e (is_found id rows (rw e at h))
]

module _ (id : String) (g : GroupEntity) (differ : str_eq id g.id ≡ false) where
  update_other :
      (rows : List GroupEntity)
      → find (has_group_id id) (update (has_group_id g.id) (merge_group g) rows)
        ≡ find (has_group_id id) rows
  unfolding find update merge_group
  update_other [] = refl
  update_other (x ∷ rows) = elim (Bool-cases (has_group_id g.id x)) [
    | inl e ↦
        let other : str_eq x.id id ≡ false =
          ground (arith, eq_iff x.id g.id, eq_iff x.id id, eq_iff id g.id, differ) in
        rw (e, other) (update_other rows)
    | inr e ↦ rw (e, update_other rows) refl
  ]

  upsert_other :
      (rows : List GroupEntity)
      → find (has_group_id id) (tx_upsert_group g rows) ≡ find (has_group_id id) rows
  unfolding tx_upsert_group find
  upsert_other rows = elim (Bool-cases (any (has_group_id g.id) rows)) [
    | inl e ↦ rw e (update_other rows)
    | inr e ↦
        let other : str_eq g.id id ≡ false =
          ground (arith, eq_iff g.id id, eq_iff id g.id, differ) in
        rw (e, other) refl
  ]

upsert_same :
    (g : GroupEntity) (rows : List GroupEntity)
    → Met (find (has_group_id g.id) rows) (find (has_group_id g.id) (tx_upsert_group g rows))
unfolding tx_upsert_group find merge_group
upsert_same g rows = elim (Bool-cases (any (has_group_id g.id) rows)) [
  | inl e ↦
      let r = is_found g.id rows e in
      let holds = find-holds (has_group_id g.id) rows r.0 r.1 in
      let after =
        find-update (has_group_id g.id) (has_group_id g.id) (merge_group g) (λ _. refl) rows in
      rw (e, after, r.1, holds) (refl, (refl, ground arith))
  | inr e ↦ rw (e, not_found g.id rows e, eq_refl g.id) (refl, tt)
]

Met-trans : (a b c : Option GroupEntity) → Met a b → Met b c → Met a c
Met-trans a none c h k = absurd h
Met-trans a (some y) none h k = k
Met-trans none (some y) (some z) h k = (k.0, tt)
Met-trans (some x) (some y) (some z) h k = (k.0, (k.1.0 ∙ h.1.0, omega arith))

upsert_all_lem :
    (id : String) (listed rows : List GroupEntity)
    → (lists id listed ≡ true
        → Met (find (has_group_id id) rows) (find (has_group_id id) (upsert_all listed rows)))
      × (lists id listed ≡ false
          → find (has_group_id id) (upsert_all listed rows) ≡ find (has_group_id id) rows)
unfolding upsert_all any
upsert_all_lem id [] rows = (λ h. cc, λ _. refl)
upsert_all_lem id (g ∷ listed) rows = elim (Bool-cases (str_eq id g.id)) [
  | inl e ↦
      let same = (eq_iff id g.id).0 e in
      let first : Met (find (has_group_id id) rows)
          (find (has_group_id id) (tx_upsert_group g rows)) =
        rw same (upsert_same g rows) in
      let rest = upsert_all_lem id listed (tx_upsert_group g rows) in
      (
        λ _. elim (Bool-cases (lists id listed)) [
          | inl l ↦ Met-trans _ _ _ first (rest.0 l)
          | inr l ↦ rw (rest.1 l) first
        ],
        λ h. absurd (ground arith),
      )
  | inr e ↦
      let rest = upsert_all_lem id listed (tx_upsert_group g rows) in
      (
        λ h. let r = rest.0 (rw e at h) in rw (upsert_other id g e rows) at r,
        λ h. rest.1 (rw e at h) ∙ upsert_other id g e rows,
      )
]

marked :
    (id : String) (ids : List String) (rows : List GroupEntity)
    → find (has_group_id id) (delete_rows_except ids rows) ≡ (
        if any (str_eq id) ids
        then find (has_group_id id) rows
        else Option.map dropped (find (has_group_id id) rows))
unfolding find update delete_rows_except
marked id ids [] = ground arith
marked id ids (x ∷ rows) = elim (Bool-cases (has_group_id id x)) [
  | inl e ↦
      let same = (eq_iff x.id id).0 e in
      elim (Bool-cases (any (str_eq id) ids)) [
        | inl l ↦ rw (same, l, eq_refl id) refl
        | inr l ↦ rw (same, l, eq_refl id) refl
      ]
  | inr e ↦ elim (Bool-cases (any (str_eq x.id) ids)) [
    | inl l ↦ rw (l, e) (marked id ids rows)
    | inr l ↦ rw (l, e) (marked id ids rows)
  ]
]

found-Met :
    (old found : Option GroupEntity)
    → Met old found
    → (g : GroupEntity) × (found ≡ some g) × (g.is_deleted ≡ false) × KeepsLocal old g
found-Met old none h = absurd h
found-Met old (some g) h = (g, refl, h.0, h.1)

-- After the server's list is reconciled, a group that it names is in the table and not deleted, and
-- is muted and read as far as before, if it was there; a group that it does not name is as before,
-- but marked deleted.
pub reconcile_groups_lem :
    (id : String) (listed : List GroupEntity) (s : SqliteStore)
    → (lists id listed ≡ true
        → (g : GroupEntity) × (get_group id (reconcile_groups listed s) ≡ some g)
          × (g.is_deleted ≡ false)
          × KeepsLocal (get_group id s) g)
      × (lists id listed ≡ false
          → get_group id (reconcile_groups listed s) ≡ Option.map dropped (get_group id s))
unfolding reconcile_groups get_group notify delete_rows_except
reconcile_groups_lem id listed s = (
  λ h.
      let r = found-Met _ _ ((upsert_all_lem id listed s.groups).0 h) in
      let kept = marked id (map (λ g. g.id) listed) (upsert_all listed s.groups) in
      (r.0, kept ∙ rw h r.1, r.2, r.3),
  λ h.
      let kept = marked id (map (λ g. g.id) listed) (upsert_all listed s.groups) in
      kept ∙ rw (h, (upsert_all_lem id listed s.groups).1 h) refl,
)
