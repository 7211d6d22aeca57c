-- ===== src/Backoff/Bounds.antt =====
-- The bounds of the backoff delays of backoff.rs.
use Prim.Native.Nat.{min, max}
use native.Mathlib.Nat.{pow-suc, one-le-pow}
use un_tzibbur_bot.Base.{
  ℕ, zero, suc, ◌+◌, ◌*◌, ◌/◌, ◌^◌, ◌≤◌, ◌<◌, ◌≡◌, inl, inr, arith, ◌==◌, Bool-cases,
}
use un_tzibbur_bot.Backoff.{cap_ms, base_ms, backoff_base, backoff_delay}

pow_ge : (n : ℕ) → 8 ≤ n → 256 ≤ 2 ^ n
pow_ge zero h = absurd (omega arith)
pow_ge (suc n) h = elim (Bool-cases (n == 7)) [
  | inl e ↦ let p : n ≡ 7 = ground arith in rw p (omega arith)
  | inr e ↦ omega (arith, pow_ge n (ground arith), pow-suc 2 n)
]

below_cap : (n : ℕ) → n < 8 → base_ms * 2 ^ n ≤ cap_ms
below_cap zero h = omega arith
below_cap (suc zero) h = omega arith
below_cap (suc (suc zero)) h = omega arith
below_cap (suc (suc (suc zero))) h = omega arith
below_cap (suc (suc (suc (suc zero)))) h = omega arith
below_cap (suc (suc (suc (suc (suc zero))))) h = omega arith
below_cap (suc (suc (suc (suc (suc (suc zero)))))) h = omega arith
below_cap (suc (suc (suc (suc (suc (suc (suc zero))))))) h = omega arith
below_cap (suc (suc (suc (suc (suc (suc (suc (suc n)))))))) h = absurd (omega arith)

backoff_base-doubles : (n : ℕ) → n < 8 → backoff_base n ≡ base_ms * 2 ^ n
unfolding backoff_base
backoff_base-doubles n h =
    rw (let e : min n 16 ≡ n = omega arith in e) (omega (arith, below_cap n h))

backoff_base-capped : (n : ℕ) → 8 ≤ n → backoff_base n ≡ cap_ms
unfolding backoff_base
backoff_base-capped n h = omega (arith, pow_ge (min n 16) (omega arith))

-- The delay doubles until the cap: after `n` attempts it is `2000 * 2 ^ n` ms while `n < 8`, and
-- five minutes from then on.
pub backoff_base_lem :
    (n : ℕ) → (n < 8 → backoff_base n ≡ base_ms * 2 ^ n) × (8 ≤ n → backoff_base n ≡ cap_ms)
backoff_base_lem n = (backoff_base-doubles n, backoff_base-capped n)

-- `rand`: a drawn number lies in the range that was asked for.
abbrev pub Draws : (ℕ → ℕ → ℕ) → Type 0
Draws gen_range = (lo hi : ℕ) → lo ≤ hi → (lo ≤ gen_range lo hi) × (gen_range lo hi ≤ hi)

backoff_base_range : (n : ℕ) → (base_ms ≤ backoff_base n) × (backoff_base n ≤ cap_ms)
unfolding backoff_base
backoff_base_range n = (omega (arith, one-le-pow (min n 16) 2), omega arith)

-- Whatever is drawn from the range, the jittered delay lies between half the delay and the delay,
-- and so between one second and five minutes.
pub backoff_delay_bounds :
    (gen_range : ℕ → ℕ → ℕ) (n : ℕ)
    → Draws gen_range
    → (backoff_base n / 2 ≤ backoff_delay gen_range n)
      × (backoff_delay gen_range n ≤ backoff_base n)
      × (1000 ≤ backoff_delay gen_range n)
      × (backoff_delay gen_range n ≤ cap_ms)
unfolding backoff_delay
backoff_delay_bounds gen_range n draws =
    let b = backoff_base n in
    let d = draws (b / 2) (max b (b / 2 + 1)) (omega arith) in
    omega (arith, d.0, d.1, backoff_base_range n)
