-- ===== src/Error/Mapping.antt =====
-- What the status fallback of error.rs yields.
use un_tzibbur_bot.Base.{ℕ, ◌≤◌, ◌≡◌, ◌≢◌, ◌⊎◌, String, true, Option, some, arith}
use un_tzibbur_bot.Json.{Json}
use un_tzibbur_bot.Error.{status, is_retryable, invalidates_session, retry_after, from_status}

-- The error made from a bare status is retried exactly for 429 and for the server errors other than
-- 501, ends the session exactly for 401, keeps the `Retry-After` of a 429, and reports the status it
-- was made from, except that a server error other than 501 reports 500.
pub from_status_policy :
    (s : ℕ) (rid detail : Option String) (errors : Option Json) (header : Option ℕ)
    → let e = from_status s rid detail header errors in
      (is_retryable e ≡ true → (s ≡ 429) ⊎ ((500 ≤ s) × (s ≤ 599) × (s ≢ 501)))
      × (s ≡ 429 → (is_retryable e ≡ true) × (retry_after e ≡ header))
      × (500 ≤ s → s ≤ 599 → s ≢ 501 → (is_retryable e ≡ true) × (status e ≡ some 500))
      × (invalidates_session e ≡ true → s ≡ 401)
      × (s ≡ 401 → invalidates_session e ≡ true)
      × ((s ≤ 499) ⊎ (600 ≤ s) → status e ≡ some s)
      × (s ≡ 501 → status e ≡ some 501)
unfolding from_status status is_retryable invalidates_session retry_after
from_status_policy s rid detail errors header = (
  ground arith,
  ground arith,
  ground arith,
  ground arith,
  ground arith,
  ground arith,
  ground arith,
)
