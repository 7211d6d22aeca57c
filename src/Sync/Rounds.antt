-- ===== src/Sync/Rounds.antt =====
-- How many pages `rest_catch_up` of sync.rs asks for.
use Prim.Native.Nat.{ℕ}
use un_tzibbur_bot.Base.{
  zero, suc, ◌+◌, ◌≤◌, ◌≡◌, refl, ◌∙◌, ap, Bool, true, false, List, ◌∷◌, arith, length, select,
  if-holds, if◌then◌else◌,
}
use un_tzibbur_bot.Error.{Result, ok, err}
use un_tzibbur_bot.Sync.{
  SyncEvent, Request, Effect, Server, SyncEngine, Action, PendingResponse, continue, done, ◌>>=◌,
  ◌>>◌, await, awaited, logged, emit, note,
}
use un_tzibbur_bot.Sync.History.{
  ask_pending, apply_page, catch_up_rounds, rest_catch_up, max_rounds, nothing_pending, extend,
  has_more,
}
use un_tzibbur_bot.Sync.Kept.{IsClosed, is_quiet, is_ack}
use un_tzibbur_bot.Sync.Kept.Rounds.{apply_page-Keeps}
use un_tzibbur_bot.Sync.Kept.Incoming.{apply_incoming_acked-Keeps}
use un_tzibbur_bot.Sync.Filtered.{IsLoud, select-interrupted, select-IsClosed}

abbrev pub is_page : Effect → Bool
is_page (Effect.asked (Request.pending _)) = true
is_page _ = false

-- The requests of a pending page in the log.
abbrev pub pages : SyncEngine → ℕ
pages e = length (select is_page e.log)

is_page-IsLoud : IsLoud is_page
is_page-IsLoud = record { quiet = quiet; calls = λ c. refl; others = λ c. refl }
  where
    quiet : (what : Effect) → is_quiet what ≡ true → is_page what ≡ false
    quiet (Effect.asked (Request.pending _)) h = cc
    quiet (Effect.asked _) h = refl
    quiet _ h = refl

ack_page :
    (what : Effect) (e : SyncEngine)
    → is_ack what ≡ true
    → select is_page (logged what e).log ≡ select is_page e.log
unfolding logged select
ack_page (Effect.asked (Request.ack g seq)) e a = refl
ack_page (Effect.wrote f) e a = refl
ack_page _ e a = cc

module _ (v : Server) where
  apply_page-pages :
      (page : PendingResponse) (e : SyncEngine) → pages (apply_page page v e).0 ≡ pages e
  apply_page-pages page e = ap length (
      (apply_page-Keeps v _ closed
          (apply_incoming_acked-Keeps v _ closed (λ what e' a h. ack_page what e' a ∙ h))
          page).after
        e refl)
    where
      closed : IsClosed (λ e'. select is_page e'.log ≡ select is_page e.log)
      closed = select-IsClosed is_page is_page-IsLoud (select is_page e.log)

  -- The requests of the rest of a round, which ends with what `r` says.
  apply_then-pages :
      (page : PendingResponse) (k : Action PendingResponse) (e : SyncEngine) (n : ℕ)
      → ((e' : SyncEngine) → pages (k v e').0 ≤ pages e' + n)
      → pages ((apply_page page >> k) v e).0 ≤ pages e + n
  unfolding ◌>>◌ ◌>>=◌
  apply_then-pages page k e n h = rest (apply_page page v e).1 (apply_page-pages page e)
    where
      rest :
          (r : Result (Unit {0}))
          → pages (apply_page page v e).0 ≡ pages e
          → pages (continue (λ _. k) v (apply_page page v e).0 r).0 ≤ pages e + n
      rest (ok _) same = omega (arith, h (apply_page page v e).0, same)
      rest (err _) same = omega (arith, same)

  ask_pending-pages : (e : SyncEngine) → pages (ask_pending v e).0 ≡ suc (pages e)
  unfolding ask_pending await awaited logged select ◌>>=◌
  ask_pending-pages e =
      ap length (select-interrupted is_page is_page-IsLoud (v.meanwhile e.requests) _)

  -- What follows a page, if the rounds that are left ask for `n` pages at most.
  next_round :
      (rounds : ℕ) (total page : PendingResponse) (e : SyncEngine)
      → ((t : PendingResponse) (e' : SyncEngine)
          → pages (catch_up_rounds rounds t v e').0 ≤ pages e' + rounds)
      → pages
          ((if has_more page
              then catch_up_rounds rounds (extend total page)
              else done (extend total page))
            v e).0
        ≤ pages e + rounds
  next_round rounds total page e ih =
      if-holds (λ (k : Action PendingResponse). pages (k v e).0 ≤ pages e + rounds) (has_more page)
        (ih (extend total page) e) (omega arith)

  catch_up_rounds-pages :
      (rounds : ℕ) (total : PendingResponse) (e : SyncEngine)
      → pages (catch_up_rounds rounds total v e).0 ≤ pages e + rounds
  unfolding catch_up_rounds ◌>>=◌
  catch_up_rounds-pages zero total e = omega arith
  catch_up_rounds-pages (suc rounds) total e =
      let ih = catch_up_rounds-pages rounds in answered ih (ask_pending v e).1 (ask_pending-pages e)
    where
      go : PendingResponse → Action PendingResponse
      go page =
          if has_more page
          then catch_up_rounds rounds (extend total page)
          else done (extend total page)

      answered :
          ((t : PendingResponse) (e' : SyncEngine)
            → pages (catch_up_rounds rounds t v e').0 ≤ pages e' + rounds)
          → (r : Result PendingResponse) → pages (ask_pending v e).0 ≡ suc (pages e)
          → pages (continue (λ page. apply_page page >> go page) v (ask_pending v e).0 r).0
            ≤ pages e + suc rounds
      answered ih (ok page) same =
          let asked = (ask_pending v e).0 in
          omega (
            arith,
            same,
            apply_then-pages page (go page) asked rounds (λ e'. next_round rounds total page e' ih),
          )
      answered ih (err _) same = omega (arith, same)

-- The end of a catch-up: the consumers are told last.
abbrev pub EndsTold : SyncEngine × Result PendingResponse → Type 0
EndsTold (e, ok total) = (log : List Effect) × (e.log ≡ Effect.emitted SyncEvent.caught_up ∷ log)
EndsTold (e, err error) = Unit

-- `rest_catch_up` ends: it asks for 50 pages at most, even if the server reports more with each, and
-- if it succeeds, the last thing that it does is to tell the consumers that they are caught up, also
-- when it stopped at the bound and the server had more.
pub rest_catch_up_ends :
    (v : Server) (e : SyncEngine)
    → (pages (rest_catch_up v e).0 ≤ pages e + 50) × EndsTold (rest_catch_up v e)
unfolding rest_catch_up emit note logged select ◌>>◌ ◌>>=◌
rest_catch_up_ends v e =
    told (catch_up_rounds max_rounds nothing_pending v e)
      (catch_up_rounds-pages v max_rounds nothing_pending e)
  where
    told :
        (r : SyncEngine × Result PendingResponse)
        → pages r.0 ≤ pages e + 50
        → let r' = continue (λ total. emit SyncEvent.caught_up >> done total) v r.0 r.1 in
          (pages r'.0 ≤ pages e + 50) × EndsTold r'
    told (e', ok total) h = (h, (e'.log, refl))
    told (e', err error) h = (h, tt)
