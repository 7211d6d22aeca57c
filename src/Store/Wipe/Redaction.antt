-- ===== src/Store/Wipe/Redaction.antt =====
-- What `redact_messages` of sqlite.rs takes away, and what it leaves.
use un_tzibbur_bot.Base.{
  String, ◌≡◌, refl, inl, inr, Bool, true, ◌&&◌, List, [], ◌∷◌, map, ℤ, ◌≤ℤ◌, arith, Bool-cases,
  if◌then◌else◌, eq_iff, select, update, All,
}
use un_tzibbur_bot.Entities.{MessageEntity}
use un_tzibbur_bot.Reconcile.{has_id, has_seq}
use un_tzibbur_bot.Store.{SqliteStore, in_group}
use un_tzibbur_bot.Store.Batch.{gather}
use un_tzibbur_bot.Store.Wipe.{is_readable, redact_messages}
use un_tzibbur_bot.Store.Messages.{message_ids_exist, seqs_exist}

module _ {ℓ} {B : Type ℓ} (p q : MessageEntity → Bool) (key : MessageEntity → B) where
  -- A query that does not read the bodies.
  query-update :
      ((m : MessageEntity) → q (record m { body = "" }) ≡ q m)
      → ((m : MessageEntity) → key (record m { body = "" }) ≡ key m)
      → (rows : List MessageEntity)
      → map key (select q (update p (λ m. record m { body = "" }) rows)) ≡ map key (select q rows)
  unfolding select update
  query-update qk kk [] = refl
  query-update qk kk (m ∷ rows) = ground (arith, qk m, kk m, query-update qk kk rows)

redacted :
    (group_id : String) (up_to : ℤ) (rows : List MessageEntity)
    → All
        (λ m. in_group group_id m ≡ true → m.seq ≤ℤ up_to → m.body ≡ "")
        (update (is_readable group_id up_to) (λ m. record m { body = "" }) rows)
unfolding update
redacted group_id up_to [] = tt
redacted group_id up_to (m ∷ rows) = (row, redacted group_id up_to rows)
  where
    row :
        in_group group_id (if is_readable group_id up_to m then record m { body = "" } else m)
          ≡ true
        → (if is_readable group_id up_to m then record m { body = "" } else m).seq ≤ℤ up_to
        → (if is_readable group_id up_to m then record m { body = "" } else m).body ≡ ""
    row = elim (Bool-cases (is_readable group_id up_to m)) [
      | inl e ↦ rw e (λ _ _. refl)
      | inr e ↦ rw e (λ g le. ground (arith, eq_iff m.body ""))
    ]

-- After a redaction no message of the group up to the seq has a body, while the ids and seqs that
-- the reconciler asks for are what they were: no redacted message counts as new when it arrives again.
pub redact_messages_lem :
    (group_id : String) (up_to : ℤ) (batch : List MessageEntity) (s : SqliteStore)
    → All
        (λ m. in_group group_id m ≡ true → m.seq ≤ℤ up_to → m.body ≡ "")
        (redact_messages group_id up_to s).0.messages
      × (gather group_id batch (redact_messages group_id up_to s).0 ≡ gather group_id batch s)
unfolding redact_messages gather message_ids_exist seqs_exist
redact_messages_lem group_id up_to batch s = (
  redacted group_id up_to s.messages,
  rw
      (
        query-update (is_readable group_id up_to)
            (λ m. in_group group_id m && has_id (map (λ x. x.id) batch) m.id) (λ m. m.id)
            (λ _. refl) (λ _. refl) s.messages,
        query-update (is_readable group_id up_to)
            (λ m. in_group group_id m && has_seq (map (λ x. x.seq) batch) m.seq) (λ m. m.seq)
            (λ _. refl) (λ _. refl) s.messages,
      )
      refl,
)
