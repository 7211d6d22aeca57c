-- ===== src/Examples/Reconciler.antt =====
-- The reconciler's theorems, applied to two messages of which one echoes a row of the outbox.
use un_tzibbur_bot.Base.{◌≡◌, refl, false, some, List, [], ◌∷◌, pos, any, select, All, Unique}
use un_tzibbur_bot.Entities.{MessageEntity}
use un_tzibbur_bot.Reconcile.{
  ReconcileState, is_echo, echo_of, raise_max, reconcile, has_id, has_seq, empty_plan,
}
use mathlib.Core.List.{Perm}
use un_tzibbur_bot.Reconcile.Described.{kept, answers, new_ids, TopOf, reconcile_lem}
use un_tzibbur_bot.Reconcile.Sorted.{reconcile-inserts, IsAscending, same_id}
use un_tzibbur_bot.Reconcile.Redelivery.{reconcile_again, Extends, Knows}
use un_tzibbur_bot.Examples.Data.{hello, echo, known}

abbrev batch : List MessageEntity
batch = echo ∷ hello ∷ echo ∷ []

abbrev after_batch : ReconcileState
after_batch = record known { existing_ids = "m2" ∷ "m1" ∷ []; existing_seqs = pos 1 ∷ pos 2 ∷ [] }

plan_test : reconcile batch known ≡ record {
  to_insert = hello ∷ echo ∷ [];
  echo_confirmations = record { client_message_id = "c1"; server_id = "m2"; seq = pos 2 } ∷ [];
  new_message_ids = "m1" ∷ [];
  max_seq = some (pos 2);
}
unfolding reconcile any is_echo raise_max echo_of
plan_test = refl

reconcile_lem_example :
    let plan = reconcile batch known in
    let ms = kept known batch in
    IsAscending plan.to_insert
    × Perm plan.to_insert ms
    × (plan.echo_confirmations ≡ answers ("c1" ∷ []) ms)
    × (plan.new_message_ids ≡ new_ids ("c1" ∷ []) ms)
    × TopOf batch plan.max_seq
reconcile_lem_example = reconcile_lem batch known

kept_test : kept known batch ≡ echo ∷ hello ∷ []
unfolding kept any select
kept_test = refl

reconcile-inserts_example :
    IsAscending (reconcile batch known).to_insert
    × Unique same_id (reconcile batch known).to_insert
    × All
        (λ m.
          (has_id known.existing_ids m.id ≡ false) × (has_seq known.existing_seqs m.seq ≡ false))
        (reconcile batch known).to_insert
reconcile-inserts_example = reconcile-inserts batch known

extends : Extends known after_batch
unfolding any
extends = record { ids = λ id h. cc; seqs = λ seq h. cc }

both_known : All (Knows after_batch) (reconcile batch known).to_insert
unfolding reconcile any is_echo raise_max echo_of
both_known = ((refl, refl), ((refl, refl), tt))

reconcile_again_example :
    reconcile batch after_batch ≡ record empty_plan { max_seq = (reconcile batch known).max_seq }
reconcile_again_example = reconcile_again batch known after_batch extends both_known
