-- ===== src/Sync/Replay.antt =====
-- The store under the engine of sync.rs, as the calls in the engine's log make it.
use un_tzibbur_bot.Base.{
  String, ◌≡◌, refl, sym, ◌∙◌, ap, Bool, true, false, ◌&&◌, List, [], ◌∷◌, ◌++◌, arith,
}
use un_tzibbur_bot.Store.{SqliteStore}
use un_tzibbur_bot.Store.Calls.{Call, perform, perform_all}
use un_tzibbur_bot.Store.Invariant.Tables.{IsValid}
use un_tzibbur_bot.Store.Invariant.Preserved.{perform_all-IsValid}
use un_tzibbur_bot.Store.OutboxTable.Confirmed.{
  keeps_rows, all_keep_rows, IsSent, perform_all-IsSent,
}
use un_tzibbur_bot.Sync.{
  Request, Effect, Server, SyncEngine, logged, performed, others, interrupted, awaited, await,
}
use un_tzibbur_bot.Sync.History.{ask_pending}
use un_tzibbur_bot.Sync.Kept.{IsClosed, Keeps, is_quiet, is_ack, bind-Keeps, look-Keeps}
use un_tzibbur_bot.Sync.Kept.Incoming.{apply_incoming_acked-Keeps}
use un_tzibbur_bot.Sync.Operations.{Operation, run, run-Keeps}

-- The calls of the log, in the order in which they were made.
unfoldable pub calls_of : List Effect → List Call
calls_of [] = []
calls_of (Effect.called c ∷ log) = calls_of log ++ (c ∷ [])
calls_of (Effect.meanwhile c ∷ log) = calls_of log ++ (c ∷ [])
calls_of (_ ∷ log) = calls_of log

-- The engine's own calls delete no row of the outbox.
unfoldable pub own_keep_rows : List Effect → Bool
own_keep_rows [] = true
own_keep_rows (Effect.called c ∷ log) = keeps_rows c && own_keep_rows log
own_keep_rows (_ ∷ log) = own_keep_rows log

-- `e` refines the interface `LocalStore`: its store is what its calls made of `start`.
abbrev pub Refines : SqliteStore → SyncEngine → Type 0
Refines start e = (e.store ≡ perform_all (calls_of e.log) start) × (own_keep_rows e.log ≡ true)

perform_all-append :
    (cs : List Call) (c : Call) (s : SqliteStore)
    → perform_all (cs ++ (c ∷ [])) s ≡ perform c (perform_all cs s)
unfolding perform_all
perform_all-append [] c s = refl
perform_all-append (d ∷ cs) c s = perform_all-append cs c (perform d s)

unfoldable is_call : Effect → Bool
is_call (Effect.called _) = true
is_call (Effect.meanwhile _) = true
is_call _ = false

quiet-call : (what : Effect) → is_quiet what ≡ true → is_call what ≡ false
unfolding is_call
quiet-call (Effect.called c) h = cc
quiet-call (Effect.meanwhile c) h = cc
quiet-call _ h = refl

ack-call : (what : Effect) → is_ack what ≡ true → is_call what ≡ false
unfolding is_call
ack-call (Effect.called c) h = cc
ack-call (Effect.meanwhile c) h = cc
ack-call _ h = refl

logged-Refines :
    (start : SqliteStore) (what : Effect) (e : SyncEngine)
    → is_call what ≡ false
    → Refines start e
    → Refines start (logged what e)
unfolding calls_of own_keep_rows logged is_call
logged-Refines start (Effect.called c) e h p = cc
logged-Refines start (Effect.meanwhile c) e h p = cc
logged-Refines start _ e h p = p

others-Refines :
    (start : SqliteStore) (cs : List Call) (s : SqliteStore) (log : List Effect)
    → s ≡ perform_all (calls_of log) start
    → own_keep_rows log ≡ true
    → (perform_all cs s ≡ perform_all (calls_of (others cs log)) start)
      × (own_keep_rows (others cs log) ≡ true)
unfolding others perform_all calls_of own_keep_rows
others-Refines start [] s log h k = (h, k)
others-Refines start (c ∷ cs) s log h k =
    others-Refines start cs (perform c s) (Effect.meanwhile c ∷ log)
      (ap (perform c) h ∙ sym (perform_all-append (calls_of log) c start)) k

Refines-IsClosed : (start : SqliteStore) → IsClosed (Refines start)
unfolding logged performed interrupted calls_of own_keep_rows
Refines-IsClosed start = record {
  logs = λ what e h p. logged-Refines start what e (quiet-call what h) p;
  calls = λ c e k p. (
    ap (perform c) p.0 ∙ sym (perform_all-append (calls_of e.log) c start),
    ground (arith, k, p.1),
  );
  others = λ cs e p. others-Refines start cs e.store e.log p.0 p.1;
  settles = λ e e' s l p. rw (s, l) p;
}

ask_pending-Refines : (start : SqliteStore) (v : Server) → Keeps v (Refines start) ask_pending
unfolding ask_pending await awaited is_call
ask_pending-Refines start v =
    bind-Keeps v (Refines start) _ _ (look-Keeps v (Refines start) _) (λ limit. record {
      after = λ e p.
          (Refines-IsClosed start).others (v.meanwhile e.requests) _
            (logged-Refines start (Effect.asked (Request.pending limit)) e refl p);
    })

-- Whatever the engine is asked to do, in any order and with any answers of the server, and whatever
-- the other tasks do meanwhile: the store is what the calls in the engine's log make of the store
-- that it started from, and no call of the engine itself deletes a row of the outbox.
pub run-Refines :
    (v : Server) (os : List Operation) (start : SqliteStore) (e : SyncEngine)
    → Refines start e
    → Refines start (run os v e).0
run-Refines v os start e p =
    (run-Keeps v (Refines start) (Refines-IsClosed start)
        (apply_incoming_acked-Keeps v (Refines start) (Refines-IsClosed start)
          (λ what e' h. logged-Refines start what e' (ack-call what h)))
        (ask_pending-Refines start v) os).after
      e p

-- The calls of the other tasks delete no row of the outbox either.
unfoldable pub others_keep_rows : List Effect → Bool
others_keep_rows [] = true
others_keep_rows (Effect.meanwhile c ∷ log) = keeps_rows c && others_keep_rows log
others_keep_rows (_ ∷ log) = others_keep_rows log

all_keep_rows-append :
    (cs : List Call) (c : Call)
    → keeps_rows c ≡ true
    → all_keep_rows cs ≡ true
    → all_keep_rows (cs ++ (c ∷ [])) ≡ true
unfolding all_keep_rows
all_keep_rows-append [] c h k = ground arith
all_keep_rows-append (d ∷ cs) c h k = ground (arith, all_keep_rows-append cs c h)

calls-keep_rows :
    (log : List Effect)
    → own_keep_rows log ≡ true
    → others_keep_rows log ≡ true
    → all_keep_rows (calls_of log) ≡ true
unfolding own_keep_rows others_keep_rows calls_of all_keep_rows
calls-keep_rows [] h k = refl
calls-keep_rows (Effect.called c ∷ log) h k =
    all_keep_rows-append (calls_of log) c (ground arith) (calls-keep_rows log (ground arith) k)
calls-keep_rows (Effect.meanwhile c ∷ log) h k =
    all_keep_rows-append (calls_of log) c (ground arith) (calls-keep_rows log h (ground arith))
calls-keep_rows (_ ∷ log) h k = calls-keep_rows log h k

-- After anything that a fresh engine does, the store still meets the constraints of the schema if it
-- did at first, and a message of ours that was confirmed is still confirmed if no other task deleted
-- rows of the outbox.
pub run-safe :
    (v : Server) (os : List Operation) (e : SyncEngine) (id : String)
    → e.log ≡ []
    → IsValid e.store
    → IsSent id e.store
    → others_keep_rows (run os v e).0.log ≡ true
    → IsValid (run os v e).0.store × IsSent id (run os v e).0.store
unfolding calls_of own_keep_rows perform_all
run-safe v os e id fresh valid sent keep =
    let r = run-Refines v os e.store e (rw fresh (refl, refl)) in
    let log = (run os v e).0.log in
    rw r.0 (
      perform_all-IsValid (calls_of log) e.store valid,
      perform_all-IsSent id (calls_of log) e.store (calls-keep_rows log r.1 keep) sent,
    )
