-- ===== src/Store/Invariant/Tables.antt =====
-- The invariant of the tables of sqlite.rs, part by part.
use un_tzibbur_bot.Base.{
  ℕ, ◌+◌, String, ◌≡◌, refl, ap, ◌∙◌, inl, inr, Bool, true, false, List, [], ◌∷◌, arith, any,
  any-update, select, update, delete, All, All-imp, any_sub, Unique, Unique-update, str_eq, eq_iff,
  Bool-cases,
}
use un_tzibbur_bot.Error.{ok, bind-eq-ok}
use un_tzibbur_bot.Entities.{GroupEntity, MessageEntity, MemberEntity}
use un_tzibbur_bot.Store.{
  SqliteStore, same_group, same_message, same_slot, same_member, same_entry, has_group_id,
}
use un_tzibbur_bot.Store.Groups.{tx_upsert_group, merge_group, is_deleted_group, upsert_all}
use un_tzibbur_bot.Store.Messages.{clash, insert_message, insert_rows}
use un_tzibbur_bot.Store.Members.{tx_upsert_member, upsert_members, merge_member, put_member}

abbrev pub HasGroup : List GroupEntity → MemberEntity → Type 0
HasGroup groups m = any (has_group_id m.group_id) groups ≡ true

pub record IsValid (s : SqliteStore) : Type 0 where
  pub group_ids : Unique same_group s.groups
  pub message_ids : Unique same_message s.messages
  pub slots : Unique same_slot s.messages
  pub member_keys : Unique same_member s.members
  pub member_groups : All (HasGroup s.groups) s.members
  pub entry_ids : Unique same_entry s.outbox

-- Groups.
module _ (p : GroupEntity → Bool) (f : GroupEntity → GroupEntity)
    (keep : (g : GroupEntity) → (f g).id ≡ g.id) where
  pub groups-update :
      (gs : List GroupEntity) → Unique same_group gs → Unique same_group (update p f gs)
  groups-update gs u =
      Unique-update same_group p f (λ x y. ap (λ id. str_eq x.id id) (keep y))
        (λ x y. ap (λ id. str_eq id y.id) (keep x)) gs u

  pub owners-update :
      (gs : List GroupEntity) (ms : List MemberEntity)
      → All (HasGroup gs) ms
      → All (HasGroup (update p f gs)) ms
  owners-update gs ms h =
      All-imp (HasGroup gs) (HasGroup (update p f gs))
        (λ m k.
          any-update (has_group_id m.group_id) p f (λ x. ap (λ id. str_eq id m.group_id) (keep x))
            gs
          ∙ k)
        ms h

any-same_group :
    (g : GroupEntity) (gs : List GroupEntity) → any (same_group g) gs ≡ any (has_group_id g.id) gs
unfolding any
any-same_group g [] = refl
any-same_group g (x ∷ gs) = ground (arith, any-same_group g gs, eq_iff g.id x.id, eq_iff x.id g.id)

pub tx_upsert_group-Unique :
    (g : GroupEntity) (gs : List GroupEntity)
    → Unique same_group gs
    → Unique same_group (tx_upsert_group g gs)
unfolding tx_upsert_group
tx_upsert_group-Unique g gs u = elim (Bool-cases (any (has_group_id g.id) gs)) [
  | inl e ↦ rw e (groups-update (has_group_id g.id) (merge_group g) (λ _. refl) gs u)
  | inr e ↦ rw e (any-same_group g gs ∙ e, u)
]

pub tx_upsert_group-HasGroup :
    (g : GroupEntity) (gs : List GroupEntity) (id : String)
    → any (has_group_id id) gs ≡ true
    → any (has_group_id id) (tx_upsert_group g gs) ≡ true
unfolding tx_upsert_group any
tx_upsert_group-HasGroup g gs id h = elim (Bool-cases (any (has_group_id g.id) gs)) [
  | inl e ↦
      rw e (any-update (has_group_id id) (has_group_id g.id) (merge_group g) (λ _. refl) gs ∙ h)
  | inr e ↦ rw e (ground arith)
]

pub upsert_all-Unique :
    (new gs : List GroupEntity) → Unique same_group gs → Unique same_group (upsert_all new gs)
unfolding upsert_all
upsert_all-Unique [] gs u = u
upsert_all-Unique (g ∷ new) gs u =
    upsert_all-Unique new (tx_upsert_group g gs) (tx_upsert_group-Unique g gs u)

pub upsert_all-HasGroup :
    (new gs : List GroupEntity) (id : String)
    → any (has_group_id id) gs ≡ true
    → any (has_group_id id) (upsert_all new gs) ≡ true
unfolding upsert_all
upsert_all-HasGroup [] gs id h = h
upsert_all-HasGroup (g ∷ new) gs id h =
    upsert_all-HasGroup new (tx_upsert_group g gs) id (tx_upsert_group-HasGroup g gs id h)

kept_group :
    (gs : List GroupEntity) (id : String)
    → any (has_group_id id) gs ≡ true
    → is_deleted_group gs id ≡ false
    → any (has_group_id id) (delete (λ g. g.is_deleted) gs) ≡ true
unfolding any delete select
kept_group [] id h k = h
kept_group (g ∷ gs) id h k = ground (arith, kept_group gs id)

-- The cascade leaves no member without its group.
pub owners-purge :
    (gs : List GroupEntity) (ms : List MemberEntity)
    → All (HasGroup gs) ms
    → All
        (HasGroup (delete (λ g. g.is_deleted) gs))
        (delete (λ m. is_deleted_group gs m.group_id) ms)
unfolding delete select
owners-purge gs [] h = tt
owners-purge gs (m ∷ ms) h = elim (Bool-cases (is_deleted_group gs m.group_id)) [
  | inl e ↦ rw e (owners-purge gs ms h.1)
  | inr e ↦ rw e (kept_group gs m.group_id h.0 e, owners-purge gs ms h.1)
]

-- Messages.
pub insert_rows-Unique :
    (ms rows : List MessageEntity) (n : ℕ)
    → Unique same_message rows × Unique same_slot rows
    → Unique same_message (insert_rows ms (rows, n)).0
      × Unique same_slot (insert_rows ms (rows, n)).0
unfolding insert_rows
insert_rows-Unique [] rows n u = u
insert_rows-Unique (m ∷ ms) rows n u =
    insert_rows-Unique ms (insert_message m rows).0 (n + (insert_message m rows).1)
      (written m rows u)
  where
    written :
        (m : MessageEntity) (rows : List MessageEntity)
        → Unique same_message rows × Unique same_slot rows
        → Unique same_message (insert_message m rows).0 × Unique same_slot (insert_message m rows).0
    written m rows u = elim (Bool-cases (any (clash m) rows)) [
      | inl e ↦ rw e u
      | inr e ↦ rw e (
        (any_sub (clash m) (same_message m) (λ x k. ground arith) rows e, u.0),
        (any_sub (clash m) (same_slot m) (λ x k. ground arith) rows e, u.1),
      )
    ]

-- Members.
abbrev pub MembersValid : List GroupEntity → List MemberEntity → Type 0
MembersValid gs rows = Unique same_member rows × All (HasGroup gs) rows

pub All-update_members :
    (gs : List GroupEntity) (p : MemberEntity → Bool) (f : MemberEntity → MemberEntity)
    → ((m : MemberEntity) → (f m).group_id ≡ m.group_id)
    → (rows : List MemberEntity) → All (HasGroup gs) rows
    → All (HasGroup gs) (update p f rows)
unfolding update
All-update_members gs p f keep [] h = tt
All-update_members gs p f keep (m ∷ rows) h = elim (Bool-cases (p m)) [
  | inl e ↦ rw (e, keep m) (h.0, All-update_members gs p f keep rows h.1)
  | inr e ↦ rw e (h.0, All-update_members gs p f keep rows h.1)
]

pub put_member-Valid :
    (gs : List GroupEntity) (m : MemberEntity) (rows : List MemberEntity)
    → HasGroup gs m
    → MembersValid gs rows
    → MembersValid gs (put_member m rows)
unfolding put_member
put_member-Valid gs m rows owned v = elim (Bool-cases (any (same_member m) rows)) [
  | inl e ↦ rw e (
    Unique-update same_member (same_member m) (merge_member m) (λ _ _. refl) (λ _ _. refl) rows v.0,
    All-update_members gs (same_member m) (merge_member m) (λ _. refl) rows v.1,
  )
  | inr e ↦ rw e ((e, v.0), (owned, v.1))
]

pub tx_upsert_member-Valid :
    (gs : List GroupEntity) (m : MemberEntity) (rows rows' : List MemberEntity)
    → tx_upsert_member gs m rows ≡ ok rows'
    → MembersValid gs rows
    → MembersValid gs rows'
tx_upsert_member-Valid gs m rows rows' h v = elim (Bool-cases (any (has_group_id m.group_id) gs)) [
  | inl e ↦
      let same : put_member m rows ≡ rows' = unfold tx_upsert_member in cc in
      rw (← same) (put_member-Valid gs m rows e v)
  | inr e ↦ unfold tx_upsert_member in absurd (ground arith)
]

pub upsert_members-Valid :
    (gs : List GroupEntity) (ms rows rows' : List MemberEntity)
    → upsert_members gs ms rows ≡ ok rows'
    → MembersValid gs rows
    → MembersValid gs rows'
unfolding upsert_members
upsert_members-Valid gs [] rows rows' h v = let e : rows ≡ rows' = cc in rw (← e) v
upsert_members-Valid gs (m ∷ ms) rows rows' h v =
    let step = bind-eq-ok (tx_upsert_member gs m rows) (upsert_members gs ms) h in
    upsert_members-Valid gs ms step.0 rows' step.2
      (tx_upsert_member-Valid gs m rows step.0 step.1 v)
