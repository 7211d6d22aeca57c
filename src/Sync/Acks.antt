-- ===== src/Sync/Acks.antt =====
-- The delivery acknowledgements of sync.rs: the server forgets what is acknowledged, so an
-- acknowledgement may only follow the storing of its batch, or the end of its group.
use un_tzibbur_bot.Base.{String, ◌≡◌, some, List, [], ◌∷◌, ℤ, pos, ◌<ℤ◌}
use un_tzibbur_bot.Store.Groups.{top_seq}
use un_tzibbur_bot.Store.Batch.{store_incoming_batch}
use un_tzibbur_bot.Store.Calls.{Call}
use un_tzibbur_bot.Socket.{ClientFrame}
use un_tzibbur_bot.Sync.{Request, Effect, SyncEngine}

-- The entry stores a batch of the group whose highest seq is `seq`, or gives the group up.
abbrev pub Backs : String → ℤ → Effect → Type 0
Backs g seq (Effect.called (Call.store_incoming_batch h batch)) =
    (h ≡ g) × (top_seq batch ≡ some seq)
Backs g seq (Effect.called (Call.mark_group_deleted h)) = h ≡ g
Backs g seq _ = ⊥

abbrev pub BackedBy : String → ℤ → List Effect → Type 0
BackedBy g seq [] = ⊥
BackedBy g seq (what ∷ log) = Backs g seq what

-- Every acknowledgement of the log has a positive seq and follows an entry that backs it.
abbrev pub AllBacked : List Effect → Type 0
AllBacked [] = Unit
AllBacked (Effect.asked (Request.ack g seq) ∷ log) =
    (pos 0 <ℤ seq) × BackedBy g seq log × AllBacked log
AllBacked (Effect.wrote (ClientFrame.ack g seq) ∷ log) =
    (pos 0 <ℤ seq) × BackedBy g seq log × AllBacked log
AllBacked (_ ∷ log) = AllBacked log

abbrev pub IsBacked : SyncEngine → Type 0
IsBacked e = AllBacked e.log
