-- ===== src/Store/Groups/Unread.antt =====
-- Reading a thread: `mark_read` and the unread counts of sqlite.rs.
use mathlib.Core.Option
use un_tzibbur_bot.Base.{
  String, ◌≡◌, refl, ◌∙◌, ap, inl, inr, true, false, not, ◌&&◌, some, List, [], ◌∷◌, ℤ, ltb_ℤ, ◌≤ℤ◌,
  max_ℤ, arith, Bool-cases, if◌then◌else◌, str_eq, eq_iff, find, find-update, find-holds, count,
  All,
}
use un_tzibbur_bot.Entities.{GroupEntity, MessageEntity}
use un_tzibbur_bot.Store.{SqliteStore, notify, has_group_id, in_group}
use un_tzibbur_bot.Store.Groups.{get_group, update_group, mark_read, with_unread}

pub get_group-update_group :
    (id : String) (f : GroupEntity → GroupEntity)
    → ((g : GroupEntity) → (f g).id ≡ g.id)
    → (s : SqliteStore) (g : GroupEntity) → get_group id s ≡ some g
    → get_group id (update_group id f s) ≡ some (f g)
unfolding get_group update_group notify
get_group-update_group id f keep s g h =
    find-update (has_group_id id) (has_group_id id) f (λ x. ap (λ k. str_eq k id) (keep x)) s.groups
    ∙ found
  where
    is_row : has_group_id id g ≡ true
    is_row = find-holds (has_group_id id) s.groups g h

    found :
        Option.map (λ x. if has_group_id id x then f x else x) (find (has_group_id id) s.groups)
        ≡ some (f g)
    found = rw (h, is_row) refl

count-unread :
    (self id : String) (read seq : ℤ) (ms : List MessageEntity)
    → seq ≤ℤ read
    → All (λ m. in_group id m ≡ true → m.seq ≤ℤ seq) ms
    → count (λ m. in_group id m && (ltb_ℤ read m.seq && not (str_eq m.sender_id self))) ms ≡ 0
unfolding count
count-unread self id read seq [] le h = refl
count-unread self id read seq (m ∷ ms) le h = elim (Bool-cases (in_group id m)) [
  | inl e ↦
      let below = h.0 e in
      let no : ltb_ℤ read m.seq ≡ false = ground arith in
      rw (e, no) (count-unread self id read seq ms le h.1)
  | inr e ↦ rw e (count-unread self id read seq ms le h.1)
]

abbrev marked : ℤ → GroupEntity → GroupEntity
marked seq g = record g { last_read_seq = max_ℤ g.last_read_seq seq }

marked_row :
    (id : String) (seq : ℤ) (s : SqliteStore) (g : GroupEntity)
    → get_group id s ≡ some g
    → get_group id (mark_read id seq s) ≡ some (marked seq g)
unfolding mark_read
marked_row id seq s g h = get_group-update_group id (marked seq) (λ _. refl) s g h

-- `mark_read` never lowers the seq up to which a group is read, and raises it to at least the
-- given one.
pub mark_read_lem :
    (id : String) (seq : ℤ) (s : SqliteStore) (g : GroupEntity)
    → get_group id s ≡ some g
    → (g' : GroupEntity) × (get_group id (mark_read id seq s) ≡ some g')
      × (g.last_read_seq ≤ℤ g'.last_read_seq)
      × (seq ≤ℤ g'.last_read_seq)
mark_read_lem id seq s g h = (marked seq g, marked_row id seq s g h, ground arith, ground arith)

-- If no message of the group has a seq above the one that `mark_read` is given, the unread count of
-- the group is 0 afterwards.
pub mark_read-with_unread :
    (self id : String) (seq : ℤ) (s : SqliteStore) (g : GroupEntity)
    → get_group id s ≡ some g
    → All (λ m. in_group id m ≡ true → m.seq ≤ℤ seq) s.messages
    → (g' : GroupEntity) × (get_group id (mark_read id seq s) ≡ some g')
      × ((with_unread self (mark_read id seq s) g').unread_count ≡ 0)
mark_read-with_unread self id seq s g h below = (
  marked seq g,
  marked_row id seq s g h,
  unfold mark_read with_unread in rw same (count-unread self id _ seq s.messages raised below),
)
  where
    raised : seq ≤ℤ max_ℤ g.last_read_seq seq
    raised = ground arith

    same : g.id ≡ id
    same = unfold get_group in (eq_iff g.id id).0 (find-holds (has_group_id id) s.groups g h)
