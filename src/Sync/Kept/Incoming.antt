-- ===== src/Sync/Kept/Incoming.antt =====
-- `apply_incoming` of sync.rs: what it keeps if storing with its acknowledgement does.
use un_tzibbur_bot.Base.{String, ◌≡◌, refl, true, Option, none, some, List, [], ◌∷◌, ℤ}
use un_tzibbur_bot.Error.{AppError, Result, ok, err}
use un_tzibbur_bot.Entities.{GroupDto, MessageEntity}
use un_tzibbur_bot.Reconcile.{EchoConfirmation, ReconcilePlan}
use un_tzibbur_bot.Store.OutboxTable.Confirmed.{keeps_rows}
use un_tzibbur_bot.Store.Groups
use un_tzibbur_bot.Store.Batch.{StoreBatchOutcome}
use un_tzibbur_bot.Sync.{AckVia, Effect, Server, SyncEngine, logged, awaited, await}
use un_tzibbur_bot.Sync.Apply
use un_tzibbur_bot.Sync.Apply.{apply_incoming, store_and_ack, drop_and_ack}
use un_tzibbur_bot.Sync.Kept.{IsClosed, Keeps, kept, done-Keeps, is_ack}
use un_tzibbur_bot.Sync.Kept.Groups.{get_group-Keeps}

module _ (v : Server) (P : SyncEngine → Type 0) (c : IsClosed P) where
  pub emit_echoes-Keeps :
      (g : String) (es : List EchoConfirmation) → Keeps v P (Apply.emit_echoes g es)
  unfolding Apply.emit_echoes
  emit_echoes-Keeps g [] = done-Keeps v P tt
  emit_echoes-Keeps g (x ∷ xs) = let rest = emit_echoes-Keeps g xs in search kept

  pub emit_new-Keeps : (g : String) (plan : ReconcilePlan) → Keeps v P (Apply.emit_new g plan)
  unfolding Apply.emit_new
  emit_new-Keeps g plan = search kept

  pub announce-Keeps :
      (g : String) (outcome : StoreBatchOutcome) → Keeps v P (Apply.announce g outcome)
  unfolding Apply.announce
  announce-Keeps g outcome = search (kept, emit_echoes-Keeps, emit_new-Keeps)

  module _
      (stored : (g : String) (batch : List MessageEntity) (via : AckVia)
        → Keeps v P (store_and_ack g batch via))
      (dropped : (g : String) (batch : List MessageEntity) (via : AckVia)
        → Keeps v P (drop_and_ack g (Groups.top_seq batch) via)) where
    on_fetched-Keeps :
        (g : String) (batch : List MessageEntity) (via : AckVia) (r : Result GroupDto)
        → Keeps v P (Apply.on_fetched g batch via r)
    unfolding Apply.on_fetched keeps_rows
    on_fetched-Keeps g batch via (ok dto) = search (kept, stored)
    on_fetched-Keeps g batch via (err (AppError.not_found _)) = dropped g batch via
    on_fetched-Keeps g batch via (err _) = stored g batch via

    pub apply_incoming-Keeps :
        (g : String) (batch : List MessageEntity) (via : AckVia)
        → Keeps v P (apply_incoming g batch via)
    unfolding apply_incoming
    apply_incoming-Keeps g batch via = search (kept, stored, get_group-Keeps, on_fetched-Keeps)

  -- If every acknowledgement keeps `P`, so does all of `apply_incoming`.
  module _
      (acks : (what : Effect) (e : SyncEngine) → is_ack what ≡ true → P e → P (logged what e)) where
    send_ack-Keeps : (via : AckVia) (g : String) (seq : ℤ) → Keeps v P (Apply.send_ack via g seq)
    unfolding await awaited
    send_ack-Keeps AckVia.socket g seq = record {
      after = λ e p.
          c.others (v.meanwhile e.requests) _
            (c.settles (logged _ e) _ refl refl (acks _ e refl p));
    }
    send_ack-Keeps AckVia.rest g seq = record {
      after = λ e p.
          c.others (v.meanwhile e.requests) _
            (c.settles (logged _ e) _ refl refl (acks _ e refl p));
    }
    send_ack-Keeps AckVia.nothing g seq = done-Keeps v P tt

    ack_last-Keeps :
        (g : String) (last : Option ℤ) (via : AckVia) → Keeps v P (Apply.ack_last g last via)
    unfolding Apply.ack_last Apply.ack_delivered
    ack_last-Keeps g none via = done-Keeps v P tt
    ack_last-Keeps g (some seq) via = search (kept, send_ack-Keeps)

    drop_and_ack-Keeps :
        (g : String) (batch : List MessageEntity) (via : AckVia)
        → Keeps v P (drop_and_ack g (Groups.top_seq batch) via)
    unfolding drop_and_ack keeps_rows
    drop_and_ack-Keeps g batch via = search (kept, ack_last-Keeps)

    store_and_ack-Keeps :
        (g : String) (batch : List MessageEntity) (via : AckVia)
        → Keeps v P (store_and_ack g batch via)
    unfolding store_and_ack Apply.store_batch keeps_rows
    store_and_ack-Keeps g batch via = search (kept, ack_last-Keeps, announce-Keeps)

    pub apply_incoming_acked-Keeps :
        (g : String) (batch : List MessageEntity) (via : AckVia)
        → Keeps v P (apply_incoming g batch via)
    apply_incoming_acked-Keeps = apply_incoming-Keeps store_and_ack-Keeps drop_and_ack-Keeps
