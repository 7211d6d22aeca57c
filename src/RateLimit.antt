-- ===== src/RateLimit.antt =====
-- The limit on sign-in attempts (`allow_auth` of crates/bridge/src/app.rs). An instant is a number
-- of nanoseconds, and `duration_since` is 0 for an instant that is not past. The concurrent map is
-- a function, empty where it has no entry.
pub mod Window
use un_tzibbur_bot.Base.{
  ℕ, ◌-◌, Bool, true, false, ◌&&◌, List, [], ◌∷◌, ◌++◌, ℤ, eqb_ℤ, ltb, leb, length, select,
  if◌then◌else◌,
}

pub data AuthStep : Type 0 where
  request_code submit_code : AuthStep

unfoldable pub limit_per_hour : AuthStep → ℕ
limit_per_hour AuthStep.request_code = 5
limit_per_hour AuthStep.submit_code = 15

abbrev pub same_step : AuthStep → AuthStep → Bool
same_step AuthStep.request_code AuthStep.request_code = true
same_step AuthStep.submit_code AuthStep.submit_code = true
same_step _ _ = false

-- One hour.
abbrev pub window : ℕ
window = 3600000000000

abbrev pub Attempts : Type 0
Attempts = ℤ → AuthStep → List ℕ

abbrev pub no_attempts : Attempts
no_attempts user step = []

abbrev pub set_entry : ℤ → AuthStep → List ℕ → Attempts → Attempts
set_entry user step times attempts =
    λ u s. if eqb_ℤ user u && same_step step s then times else attempts u s

abbrev pub is_recent : ℕ → ℕ → Bool
is_recent now t = ltb (now - t) window

-- What `allow_auth` does to one entry of the map.
unfoldable pub count_attempt : ℕ → ℕ → List ℕ → List ℕ × Bool
count_attempt limit now entry =
    let kept = select (is_recent now) entry in
    if leb limit (length kept) then (kept, false) else (kept ++ now ∷ [], true)

unfoldable pub allow_auth : ℕ → ℤ → AuthStep → Attempts → Attempts × Bool
unfolding count_attempt limit_per_hour
allow_auth now user step attempts =
    let counted = count_attempt (limit_per_hour step) now (attempts user step) in
    (set_entry user step counted.0 attempts, counted.1)
