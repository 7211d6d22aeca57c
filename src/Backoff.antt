-- ===== src/Backoff.antt =====
-- backoff.rs (crates/tzibbur-api/src/backoff.rs): exponential backoff with jitter, in milliseconds.
pub mod Bounds
use Prim.Native.Nat.{min, max}
use un_tzibbur_bot.Base.{ℕ, ◌+◌, ◌-◌, ◌*◌, ◌/◌, ◌%◌, ◌^◌}

-- `BACKOFF_BASE` and `BACKOFF_CAP`
abbrev pub base_ms : ℕ
base_ms = 2000

abbrev pub cap_ms : ℕ
cap_ms = 300000

-- `u64::saturating_mul`
saturating_mul : ℕ → ℕ → ℕ
saturating_mul a b = min (a * b) (2 ^ 64 - 1)

-- `attempt` is a `u32`.
pub backoff_base : ℕ → ℕ
unfolding saturating_mul
backoff_base attempt = min (saturating_mul base_ms (2 ^ min attempt 16)) cap_ms

-- `gen_range(lo..=hi)` of the crate `rand` is a parameter: the number that the generator draws from
-- the given range.
pub backoff_delay : (ℕ → ℕ → ℕ) → ℕ → ℕ
backoff_delay gen_range attempt =
    let base = backoff_base attempt in let lo = base / 2 in gen_range lo (max base (lo + 1))
