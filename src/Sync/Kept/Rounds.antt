-- ===== src/Sync/Kept/Rounds.antt =====
-- The REST-driven handlers of sync.rs, if `apply_incoming` and the request of a pending page keep `P`.
use un_tzibbur_bot.Base.{ℕ, zero, suc, String, Bool, Option, none, some, List, [], ◌∷◌, ℤ}
use un_tzibbur_bot.Error.{AppError, Result, ok, err}
use un_tzibbur_bot.Entities.{GroupDto, MessageDto, MessageEntity}
use un_tzibbur_bot.Store.OutboxTable.Confirmed.{keeps_rows}
use un_tzibbur_bot.Sync.{
  AckVia, Server, SyncEngine, Action, MessagesPage, GroupMessages, GroupEventDto, PendingResponse,
}
use un_tzibbur_bot.Sync.Apply
use un_tzibbur_bot.Sync.Apply.{apply_incoming}
use un_tzibbur_bot.Sync.History
use un_tzibbur_bot.Sync.Kept.{
  IsClosed, Keeps, kept, done-Keeps, fail-Keeps, bind-Keeps, then-Keeps, if-Keeps,
}
use un_tzibbur_bot.Sync.Kept.Groups.{apply_group_event-Keeps}

module _ (v : Server) (P : SyncEngine → Type 0) (c : IsClosed P) where
  module _
      (incoming : (g : String) (batch : List MessageEntity) (via : AckVia)
        → Keeps v P (apply_incoming g batch via)) where
    pub entities-Keeps : (g : String) (ms : List MessageDto) → Keeps v P (Apply.entities g ms)
    unfolding Apply.entities
    entities-Keeps g ms = search kept

    pub upsert_groups-Keeps : (gs : List GroupDto) → Keeps v P (History.upsert_groups gs)
    unfolding History.upsert_groups keeps_rows
    upsert_groups-Keeps [] = done-Keeps v P tt
    upsert_groups-Keeps (g ∷ gs) = let rest = upsert_groups-Keeps gs in search kept

    pub apply_buckets-Keeps : (bs : List GroupMessages) → Keeps v P (History.apply_buckets bs)
    unfolding History.apply_buckets
    apply_buckets-Keeps [] = done-Keeps v P tt
    apply_buckets-Keeps (b ∷ bs) =
        let rest = apply_buckets-Keeps bs in search (kept, entities-Keeps, incoming)

    pub parse_event-Keeps : (ev : GroupEventDto) → Keeps v P (History.parse_event ev)
    unfolding History.parse_event
    parse_event-Keeps ev = record { after = λ e p. (apply_group_event-Keeps v P c _).after e p }

    pub apply_events-Keeps : (evs : List GroupEventDto) → Keeps v P (History.apply_events evs)
    unfolding History.apply_events
    apply_events-Keeps [] = done-Keeps v P tt
    apply_events-Keeps (ev ∷ evs) =
        let rest = apply_events-Keeps evs in search (kept, parse_event-Keeps)

    pub apply_page-Keeps : (page : PendingResponse) → Keeps v P (History.apply_page page)
    unfolding History.apply_page
    apply_page-Keeps page =
        search (kept, upsert_groups-Keeps, apply_buckets-Keeps, apply_events-Keeps)

    pub next_page-Keeps :
        (next : Option ℤ) (newest : Bool) (stored : ℕ) (go : Option ℤ → ℕ → Action ℕ)
        → ((after : Option ℤ) (n : ℕ) → Keeps v P (go after n))
        → Keeps v P (History.next_page next newest stored go)
    next_page-Keeps none newest stored go k = done-Keeps v P stored
    next_page-Keeps (some next) newest stored go k =
        if-Keeps v P newest _ _ (k _ _) (done-Keeps v P stored)

    pub on_items-Keeps :
        (g : String) (page : MessagesPage) (items : List MessageDto) (stored : ℕ)
        (go : Option ℤ → ℕ → Action ℕ)
        → ((after : Option ℤ) (n : ℕ) → Keeps v P (go after n))
        → Keeps v P (History.on_items g page items stored go)
    unfolding History.on_items
    on_items-Keeps g page [] stored go k = done-Keeps v P stored
    on_items-Keeps g page (m ∷ ms) stored go k =
        bind-Keeps v P _ _ (entities-Keeps g (m ∷ ms)) (λ batch.
          bind-Keeps v P _ _ (incoming g batch AckVia.nothing)
            (λ outcome. next_page-Keeps page.next_after_seq _ _ go k))

    pub on_page-Keeps :
        (g : String) (stored : ℕ) (go : Option ℤ → ℕ → Action ℕ) (r : Result MessagesPage)
        → ((after : Option ℤ) (n : ℕ) → Keeps v P (go after n))
        → Keeps v P (History.on_page g stored go r)
    unfolding History.on_page keeps_rows
    on_page-Keeps g stored go (ok page) k = on_items-Keeps g page page.items stored go k
    on_page-Keeps g stored go (err (AppError.not_found _)) k = search kept
    on_page-Keeps g stored go (err error) k = fail-Keeps v P error

    pub history_rounds-Keeps :
        (g : String) (rounds : ℕ) (after : Option ℤ) (stored : ℕ)
        → Keeps v P (History.history_rounds g rounds after stored)
    unfolding History.history_rounds History.get_messages_page
    history_rounds-Keeps g zero after stored = done-Keeps v P stored
    history_rounds-Keeps g (suc rounds) after stored =
        let rest = history_rounds-Keeps g rounds in search (kept, on_page-Keeps, rest)

    pub catch_up_group-Keeps : (g : String) → Keeps v P (History.catch_up_group g)
    unfolding History.catch_up_group
    catch_up_group-Keeps g = search (kept, history_rounds-Keeps)

    pub on_latest-Keeps :
        (g : String) (r : Result (List MessageDto)) → Keeps v P (History.on_latest g r)
    unfolding History.on_latest keeps_rows
    on_latest-Keeps g (ok ms) = search (kept, entities-Keeps, incoming)
    on_latest-Keeps g (err (AppError.not_found _)) = search kept
    on_latest-Keeps g (err error) = fail-Keeps v P error

    pub load_latest_messages-Keeps :
        (g : String) (limit : ℕ) → Keeps v P (History.load_latest_messages g limit)
    unfolding History.load_latest_messages History.get_messages
    load_latest_messages-Keeps g limit = search (kept, on_latest-Keeps)

    pub load_older_messages-Keeps :
        (g : String) (limit : ℕ) → Keeps v P (History.load_older_messages g limit)
    unfolding History.load_older_messages History.get_messages keeps_rows
    load_older_messages-Keeps g limit = search (kept, entities-Keeps) depth 20

    module _ (pages : Keeps v P History.ask_pending) where
      pub catch_up_rounds-Keeps :
          (rounds : ℕ) (total : PendingResponse) → Keeps v P (History.catch_up_rounds rounds total)
      unfolding History.catch_up_rounds
      catch_up_rounds-Keeps zero total = done-Keeps v P total
      catch_up_rounds-Keeps (suc rounds) total =
          let rest = catch_up_rounds-Keeps rounds in
          bind-Keeps v P _ _ pages (λ page.
            then-Keeps v P _ _ (apply_page-Keeps page)
              (if-Keeps v P (History.has_more page) _ _ (rest _) (done-Keeps v P _)))

      pub rest_catch_up-Keeps : Keeps v P History.rest_catch_up
      unfolding History.rest_catch_up
      rest_catch_up-Keeps = search (kept, catch_up_rounds-Keeps)
