-- ===== src/Store/Messages.antt =====
-- The `messages` table of sqlite.rs.
use un_tzibbur_bot.Base.{
  ℕ, ◌+◌, String, Bool, not, ◌&&◌, ◌||◌, Option, none, some, List, [], ◌∷◌, map, ℤ, pos, leb_ℤ,
  ltb_ℤ, max_ℤ, any, select, update, delete, count, take, unwrap_or, str_eq, if◌then◌else◌,
}
use un_tzibbur_bot.Entities.{GroupEntity, MessageEntity, StoreChange}
use un_tzibbur_bot.Reconcile.{has_id, has_seq, sort_by_seq}
use un_tzibbur_bot.Store.{SqliteStore, notify, has_group_id, in_group, same_message, same_slot}
use un_tzibbur_bot.Store.Groups.{top_seq}

-- A row that breaks the primary key or the unique index.
abbrev pub clash : MessageEntity → MessageEntity → Bool
clash m x = same_message m x || same_slot m x

-- `INSERT OR IGNORE`; the statement reports the number of rows that it wrote.
unfoldable pub insert_message : MessageEntity → List MessageEntity → List MessageEntity × ℕ
insert_message m rows = if any (clash m) rows then (rows, 0) else (m ∷ rows, 1)

unfoldable pub insert_rows : List MessageEntity → List MessageEntity × ℕ → List MessageEntity × ℕ
unfolding insert_message
insert_rows [] (rows, n) = (rows, n)
insert_rows (m ∷ ms) (rows, n) =
    let (rows', k) = insert_message m rows in insert_rows ms (rows', n + k)

-- `ORDER BY seq DESC LIMIT 1`; of equal rows, which the unique index rules out, the oldest.
unfoldable pub newer : MessageEntity → Option MessageEntity → MessageEntity
newer m none = m
newer m (some x) = if ltb_ℤ x.seq m.seq then m else x

unfoldable pub latest : List MessageEntity → Option MessageEntity
unfolding newer
latest [] = none
latest (m ∷ ms) = some (newer m (latest ms))

-- `NULLIF(body, '')`
abbrev pub null_if_empty : String → Option String
null_if_empty body = if str_eq body "" then none else some body

abbrev latest_body : Option MessageEntity → Option String
latest_body none = none
latest_body (some m) = null_if_empty m.body

abbrev latest_time : Option MessageEntity → ℤ
latest_time none = pos 0
latest_time (some m) = m.created_at

unfoldable pub refresh_preview : Option MessageEntity → GroupEntity → GroupEntity
refresh_preview newest g = record g {
  last_message_preview = latest_body newest;
  last_activity_at = some (max_ℤ (unwrap_or g.last_activity_at (pos 0)) (latest_time newest));
}

unfoldable pub tx_refresh_group_preview :
    String → List MessageEntity → List GroupEntity → List GroupEntity
unfolding latest refresh_preview
tx_refresh_group_preview group_id messages =
    update (has_group_id group_id) (refresh_preview (latest (select (in_group group_id) messages)))

-- The set of group ids; the source's hash set is walked in some order, here by first occurrence.
unfoldable pub group_ids : List MessageEntity → List String
group_ids [] = []
group_ids (m ∷ ms) = m.group_id ∷ select (λ g. not (str_eq g m.group_id)) (group_ids ms)

unfoldable pub refresh_all : List String → List MessageEntity → List GroupEntity → List GroupEntity
unfolding tx_refresh_group_preview
refresh_all [] messages groups = groups
refresh_all (g ∷ gs) messages groups =
    refresh_all gs messages (tx_refresh_group_preview g messages groups)

unfoldable pub notify_messages : List String → SqliteStore → SqliteStore
unfolding notify
notify_messages [] s = s
notify_messages (g ∷ gs) s = notify_messages gs (notify (StoreChange.messages g) s)

unfoldable pub insert_messages : List MessageEntity → SqliteStore → SqliteStore × ℕ
unfolding notify notify_messages refresh_all group_ids insert_rows
insert_messages [] s = (s, 0)
insert_messages (m ∷ ms) s =
    let msgs = m ∷ ms in
    let (rows, n) = insert_rows msgs (s.messages, 0) in
    let stored = record s {
      messages = rows;
      groups = refresh_all (group_ids msgs) rows s.groups;
    } in
    (notify StoreChange.groups (notify_messages (group_ids msgs) stored), n)

-- The rows of a group, highest seq first.
insert_desc : MessageEntity → List MessageEntity → List MessageEntity
insert_desc m [] = m ∷ []
insert_desc m (x ∷ xs) = if ltb_ℤ m.seq x.seq then x ∷ insert_desc m xs else m ∷ x ∷ xs

unfoldable pub sort_desc : List MessageEntity → List MessageEntity
unfolding insert_desc
sort_desc [] = []
sort_desc (m ∷ ms) = insert_desc m (sort_desc ms)

unfoldable pub thread : String → ℕ → SqliteStore → List MessageEntity
unfolding sort_desc sort_by_seq
thread group_id limit s =
    sort_by_seq (take limit (sort_desc (select (in_group group_id) s.messages)))

unfoldable pub max_seq : String → SqliteStore → Option ℤ
unfolding top_seq
max_seq group_id s = top_seq (select (in_group group_id) s.messages)

abbrev lower : Option ℤ → ℤ → ℤ
lower none seq = seq
lower (some m) seq = if leb_ℤ m seq then m else seq

unfoldable pub bottom_seq : List MessageEntity → Option ℤ
bottom_seq [] = none
bottom_seq (m ∷ ms) = some (lower (bottom_seq ms) m.seq)

unfoldable pub min_seq : String → SqliteStore → Option ℤ
unfolding bottom_seq
min_seq group_id s = bottom_seq (select (in_group group_id) s.messages)

unfoldable pub latest_message : String → SqliteStore → Option MessageEntity
unfolding latest
latest_message group_id s = latest (select (in_group group_id) s.messages)

unfoldable pub count_between : String → ℤ → ℤ → SqliteStore → ℕ
count_between group_id from to s =
    count (λ m. in_group group_id m && (leb_ℤ from m.seq && leb_ℤ m.seq to)) s.messages

unfoldable pub delete_messages_for_group : String → SqliteStore → SqliteStore × ℕ
unfolding notify
delete_messages_for_group group_id s = (
  notify (StoreChange.messages group_id)
      (record s { messages = delete (in_group group_id) s.messages }),
  count (in_group group_id) s.messages,
)

-- `SELECT id FROM messages WHERE groupId = ? AND id IN (…)`; the chunks of 500 only split the query.
unfoldable pub message_ids_exist : String → List String → List MessageEntity → List String
message_ids_exist group_id ids messages =
    map (λ m. m.id) (select (λ m. in_group group_id m && has_id ids m.id) messages)

-- `SELECT seq FROM messages WHERE groupId = ? AND seq IN (…)`
unfoldable pub seqs_exist : String → List ℤ → List MessageEntity → List ℤ
seqs_exist group_id seqs messages =
    map (λ m. m.seq) (select (λ m. in_group group_id m && has_seq seqs m.seq) messages)
