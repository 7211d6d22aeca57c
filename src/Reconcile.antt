-- ===== src/Reconcile.antt =====
-- reconcile.rs (crates/tzibbur-api/src/reconcile.rs): what to do with a batch of messages of one
-- group. The hash sets are lists; a `push` appends at the end.
pub mod Fresh
pub mod Sorted
pub mod Redelivery
pub mod MaxSeq
pub mod Described
use un_tzibbur_bot.Base.{
  String, Bool, false, ◌||◌, Option, none, some, List, [], ◌∷◌, ◌++◌, ℤ, leb_ℤ, eqb_ℤ, max_ℤ, any,
  unwrap_or, str_eq, if◌then◌else◌,
}
use un_tzibbur_bot.Entities.{MessageEntity}

pub record EchoConfirmation : Type 0 where
  pub client_message_id : String
  pub server_id : String
  pub seq : ℤ

pub record ReconcilePlan : Type 0 where
  pub to_insert : List MessageEntity
  pub echo_confirmations : List EchoConfirmation
  pub new_message_ids : List String
  pub max_seq : Option ℤ

abbrev pub empty_plan : ReconcilePlan
empty_plan = record {
  to_insert = [];
  echo_confirmations = [];
  new_message_ids = [];
  max_seq = none;
}

pub record ReconcileState : Type 0 where
  pub existing_ids : List String
  pub existing_seqs : List ℤ
  pub unconfirmed_client_message_ids : List String

-- `HashSet::contains`
abbrev pub has_id : List String → String → Bool
has_id ids id = any (λ x. str_eq x id) ids

abbrev pub has_seq : List ℤ → ℤ → Bool
has_seq seqs seq = any (λ x. eqb_ℤ x seq) seqs

-- What the loop carries from one message to the next.
pub record Loop : Type 0 where
  pub plan : ReconcilePlan
  pub seen_ids : List String
  pub seen_seqs : List ℤ

-- `plan.max_seq.map_or(msg.seq, |m| m.max(msg.seq))`
unfoldable pub raise_max : Option ℤ → ℤ → ℤ
raise_max none seq = seq
raise_max (some m) seq = max_ℤ m seq

unfoldable pub is_echo : List String → Option String → Bool
is_echo unconfirmed none = false
is_echo unconfirmed (some c) = has_id unconfirmed c

unfoldable pub echo_of : MessageEntity → EchoConfirmation
echo_of m = record {
  client_message_id = unwrap_or m.client_message_id "";
  server_id = m.id;
  seq = m.seq;
}

-- The end of the loop's body, for a message that is not skipped.
accept : ReconcileState → ReconcilePlan → MessageEntity → ReconcilePlan
accept state plan m =
    if is_echo state.unconfirmed_client_message_ids m.client_message_id
    then record plan {
      echo_confirmations = plan.echo_confirmations ++ echo_of m ∷ [];
      to_insert = plan.to_insert ++ m ∷ [];
    }
    else record plan {
      new_message_ids = plan.new_message_ids ++ m.id ∷ [];
      to_insert = plan.to_insert ++ m ∷ [];
    }

-- The body of the loop.
visit : ReconcileState → Loop → MessageEntity → Loop
unfolding accept
visit state l m =
    let plan = record l.plan { max_seq = some (raise_max l.plan.max_seq m.seq) } in
    if has_id state.existing_ids m.id || has_id l.seen_ids m.id
    then record l { plan = plan }
    else if has_seq state.existing_seqs m.seq || has_seq l.seen_seqs m.seq
    then record l { plan = plan; seen_ids = m.id ∷ l.seen_ids }
    else record {
      plan = accept state plan m;
      seen_ids = m.id ∷ l.seen_ids;
      seen_seqs = m.seq ∷ l.seen_seqs;
    }

visit_all : ReconcileState → Loop → List MessageEntity → Loop
unfolding visit
visit_all state l [] = l
visit_all state l (m ∷ batch) = visit_all state (visit state l m) batch

-- `sort_by_key(|m| m.seq)`, which is stable.
insert_by_seq : MessageEntity → List MessageEntity → List MessageEntity
insert_by_seq m [] = m ∷ []
insert_by_seq m (x ∷ xs) = if leb_ℤ m.seq x.seq then m ∷ x ∷ xs else x ∷ insert_by_seq m xs

unfoldable pub sort_by_seq : List MessageEntity → List MessageEntity
unfolding insert_by_seq
sort_by_seq [] = []
sort_by_seq (m ∷ ms) = insert_by_seq m (sort_by_seq ms)

abbrev start : Loop
start = record { plan = empty_plan; seen_ids = []; seen_seqs = [] }

unfoldable pub reconcile : List MessageEntity → ReconcileState → ReconcilePlan
unfolding visit_all sort_by_seq
reconcile batch state =
    let plan = (visit_all state start batch).plan in
    record plan { to_insert = sort_by_seq plan.to_insert }
