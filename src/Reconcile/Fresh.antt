-- ===== src/Reconcile/Fresh.antt =====
-- The plan of reconcile.rs said without a loop: `fresh` is to be the messages of the batch that are
-- not skipped, in order.
use mathlib.Core.List.{append_assoc, append-nil}
use un_tzibbur_bot.Base.{
  String, ◌≡◌, ap, ◌∙◌, not, ◌||◌, Option, none, some, List, [], ◌∷◌, ◌++◌, map, ℤ, arith, select,
  if◌then◌else◌,
}
use un_tzibbur_bot.Entities.{MessageEntity}
use un_tzibbur_bot.Reconcile.{
  ReconcilePlan, ReconcileState, EchoConfirmation, Loop, has_id, has_seq, raise_max, is_echo,
  echo_of, accept, visit, visit_all, reconcile, sort_by_seq, start,
}

unfoldable pub echoes : List String → List MessageEntity → List EchoConfirmation
echoes unconfirmed ms = map echo_of (select (λ m. is_echo unconfirmed m.client_message_id) ms)

unfoldable pub news : List String → List MessageEntity → List String
news unconfirmed ms =
    map (λ m. m.id) (select (λ m. not (is_echo unconfirmed m.client_message_id)) ms)

unfoldable pub max_seq_from : Option ℤ → List MessageEntity → Option ℤ
max_seq_from top [] = top
max_seq_from top (m ∷ ms) = max_seq_from (some (raise_max top m.seq)) ms

module _ (state : ReconcileState) where
  unfoldable pub fresh : List String → List ℤ → List MessageEntity → List MessageEntity
  fresh ids seqs [] = []
  fresh ids seqs (m ∷ ms) =
      let skipped = fresh ids seqs ms in
      let named = fresh (m.id ∷ ids) seqs ms in
      let kept = m ∷ fresh (m.id ∷ ids) (m.seq ∷ seqs) ms in
      if has_id state.existing_ids m.id || has_id ids m.id
      then skipped
      else if has_seq state.existing_seqs m.seq || has_seq seqs m.seq
      then named
      else kept

  -- The plan that a loop begun at `l` ends with.
  finished : Loop → List MessageEntity → ReconcilePlan
  finished l batch =
      let unconfirmed = state.unconfirmed_client_message_ids in
      let kept = fresh l.seen_ids l.seen_seqs batch in
      record {
        to_insert = l.plan.to_insert ++ kept;
        echo_confirmations = l.plan.echo_confirmations ++ echoes unconfirmed kept;
        new_message_ids = l.plan.new_message_ids ++ news unconfirmed kept;
        max_seq = max_seq_from l.plan.max_seq batch;
      }

  finished-visit :
      (l : Loop) (m : MessageEntity) (batch : List MessageEntity)
      → finished (visit state l m) batch ≡ finished l (m ∷ batch)
  unfolding finished fresh visit accept max_seq_from echoes news select
  finished-visit l m batch =
      let unconfirmed = state.unconfirmed_client_message_ids in
      let kept = fresh (m.id ∷ l.seen_ids) (m.seq ∷ l.seen_seqs) batch in
      ground (
        arith,
        append_assoc l.plan.to_insert (m ∷ []) kept,
        append_assoc l.plan.echo_confirmations (echo_of m ∷ []) (echoes unconfirmed kept),
        append_assoc l.plan.new_message_ids (m.id ∷ []) (news unconfirmed kept),
      )

  visit_all-finished :
      (l : Loop) (batch : List MessageEntity) → (visit_all state l batch).plan ≡ finished l batch
  unfolding visit_all
  visit_all-finished l [] = unfold finished fresh max_seq_from echoes news select in simp append-nil
  visit_all-finished l (m ∷ batch) =
      visit_all-finished (visit state l m) batch ∙ finished-visit l m batch

-- The plan of a batch: the messages kept, sorted by seq, are inserted; those whose
-- `clientMessageId` is unconfirmed in the outbox become echo confirmations and the others new ids,
-- in the order of the batch; and the highest seq is taken over the whole batch, duplicates too.
pub reconcile-fresh :
    (batch : List MessageEntity) (state : ReconcileState)
    → let kept = fresh state [] [] batch in
      reconcile batch state ≡ record {
        to_insert = sort_by_seq kept;
        echo_confirmations = echoes state.unconfirmed_client_message_ids kept;
        new_message_ids = news state.unconfirmed_client_message_ids kept;
        max_seq = max_seq_from none batch;
      }
unfolding reconcile finished
reconcile-fresh batch state =
    ap (λ (plan : ReconcilePlan). record plan { to_insert = sort_by_seq plan.to_insert })
      (visit_all-finished state start batch)
