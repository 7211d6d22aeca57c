-- ===== src/Sync/Filtered.antt =====
-- The entries of one kind in the log of sync.rs: what most handlers add none of.
use un_tzibbur_bot.Base.{◌≡◌, refl, ◌∙◌, Bool, true, false, List, [], ◌∷◌, select}
use un_tzibbur_bot.Store.Calls.{Call}
use un_tzibbur_bot.Sync.{Effect, SyncEngine, logged, performed, others, interrupted}
use un_tzibbur_bot.Sync.Kept.{IsClosed, is_quiet}

-- `f` is a kind of acknowledgements or of requests of pending pages.
pub record IsLoud (f : Effect → Bool) : Type 0 where
  pub quiet : (what : Effect) → is_quiet what ≡ true → f what ≡ false
  pub calls : (c : Call) → f (Effect.called c) ≡ false
  pub others : (c : Call) → f (Effect.meanwhile c) ≡ false

module _ (f : Effect → Bool) (loud : IsLoud f) where
  select-others : (cs : List Call) (log : List Effect) → select f (others cs log) ≡ select f log
  unfolding others select
  select-others [] log = refl
  select-others (c ∷ cs) log = select-others cs (Effect.meanwhile c ∷ log) ∙ rw (loud.others c) refl

  pub select-interrupted :
      (cs : List Call) (e : SyncEngine) → select f (interrupted cs e).log ≡ select f e.log
  unfolding interrupted
  select-interrupted cs e = select-others cs e.log

  pub select-IsClosed : (k : List Effect) → IsClosed (λ e. select f e.log ≡ k)
  unfolding logged performed select
  select-IsClosed k = record {
    logs = λ what e q h. rw (loud.quiet what q) h;
    calls = λ c e q h. rw (loud.calls c) h;
    others = λ cs e h. select-interrupted cs e ∙ h;
    settles = λ e e' s l h. rw l h;
  }
