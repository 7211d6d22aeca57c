-- ===== src/Examples/Limits.antt =====
-- The theorems on delays, statuses and texts, applied, and tests of them.
use un_tzibbur_bot.Base.{
  pos, count, List, [], ◌∷◌, ℕ, String, All, ◌/◌, ◌≡◌, ◌≢◌, ◌≤◌, ◌<◌, ◌⊎◌, refl, true, false, none,
  some, arith, select,
}
use un_tzibbur_bot.Error.{status, is_retryable, invalidates_session, retry_after, from_status}
use un_tzibbur_bot.Error.Mapping.{from_status_policy}
use un_tzibbur_bot.Backoff.{cap_ms, backoff_base, backoff_delay}
use un_tzibbur_bot.Backoff.Bounds.{backoff_delay_bounds, Draws}
use un_tzibbur_bot.RateLimit.{AuthStep, limit_per_hour, no_attempts}
use un_tzibbur_bot.RateLimit.Window.{Request, granted, in_hour, allow_auth-limit}
use un_tzibbur_bot.Format.Chunks.{join, join-chunk, chunk-bounded}
use un_tzibbur_bot.Format.{push_str, chunk, split_name_prefix, render_inbound}
use un_tzibbur_bot.Format.Tags.{tags_of, count_code, render_inbound-tags, split_name_prefix-joins}
use un_tzibbur_bot.Validation.{
  is_empty, byte_len, trim, TextValidation, trim, code_points, validate_text, extract_otp,
  normalize_phone, looks_like_e164, is_valid_otp,
}
use un_tzibbur_bot.Validation.Trim.{validate_text-valid}
use un_tzibbur_bot.Examples.Data.{draw}

draw_upper : Draws draw
draw_upper lo hi h = (h, omega arith)

backoff_delay_bounds_example :
    (backoff_base 3 / 2 ≤ backoff_delay draw 3)
    × (backoff_delay draw 3 ≤ backoff_base 3)
    × (1000 ≤ backoff_delay draw 3)
    × (backoff_delay draw 3 ≤ cap_ms)
backoff_delay_bounds_example = backoff_delay_bounds draw 3 draw_upper

abbrev too_many : ℕ
too_many = 429

from_status_policy_example :
    let e = from_status too_many none none (some 7) none in
    (is_retryable e ≡ true
      → (too_many ≡ 429) ⊎ ((500 ≤ too_many) × (too_many ≤ 599) × (too_many ≢ 501)))
    × (too_many ≡ 429 → (is_retryable e ≡ true) × (retry_after e ≡ some 7))
    × (500 ≤ too_many
        → too_many ≤ 599
        → too_many ≢ 501
        → (is_retryable e ≡ true) × (status e ≡ some 500))
    × (invalidates_session e ≡ true → too_many ≡ 401)
    × (too_many ≡ 401 → invalidates_session e ≡ true)
    × ((too_many ≤ 499) ⊎ (600 ≤ too_many) → status e ≡ some too_many)
    × (too_many ≡ 501 → status e ≡ some 501)
from_status_policy_example = from_status_policy too_many none none none (some 7)

validate_text-valid_example :
    ("Bob" ≡ trim "  Bob ")
    × (0 < code_points "Bob")
    × (code_points "Bob" ≤ 64)
    × (validate_text "Bob" 64 ≡ TextValidation.valid "Bob")
validate_text-valid_example = validate_text-valid "  Bob " 64 "Bob" (unfold validate_text in refl)

otp_test : extract_otp "Your code is 123456." ≡ some "123456"
unfolding extract_otp
otp_test = refl

long_run_test : extract_otp "1234567 then 12345 and 654321" ≡ some "654321"
unfolding extract_otp
long_run_test = refl

phone_test : looks_like_e164 (normalize_phone "00 1-(202) 555 0123") ≡ true
unfolding looks_like_e164 normalize_phone
phone_test = refl

otp_format_test : is_valid_otp "12345a" ≡ false
unfolding is_valid_otp
otp_format_test = refl

abbrev hostile : String
hostile = "Bob: <b>1 & 2</b>"

render_inbound-tags_example :
    (tags_of (render_inbound "Bob" hostile (some "A<B")) ≡ "i" ∷ "/i" ∷ "b" ∷ "/b" ∷ [])
    × (count_code b'<' (render_inbound "Bob" hostile (some "A<B")) ≡ 4)
    × (count_code b'>' (render_inbound "Bob" hostile (some "A<B")) ≡ 4)
render_inbound-tags_example = render_inbound-tags "Bob" hostile (some "A<B")

render_test : render_inbound "Bob" "Bob: 1 < 2" none ≡ "<b>Bob</b>\n1 &lt; 2"
unfolding render_inbound
render_test = refl

hostile_split : split_name_prefix hostile ≡ some ("Bob", "<b>1 & 2</b>")
unfolding split_name_prefix
hostile_split = refl

split_name_prefix-joins_example :
    (raw : String) × (hostile ≡ push_str raw (push_str ": " "<b>1 & 2</b>"))
    × ("Bob" ≡ trim raw)
    × ((is_empty "Bob" ≡ false) × (byte_len "Bob" ≤ 64))
split_name_prefix-joins_example = split_name_prefix-joins hostile "Bob" "<b>1 & 2</b>" hostile_split

join-chunk_example : join (chunk "abcde" 2) ≡ "abcde"
join-chunk_example = join-chunk "abcde" 2

chunk-bounded_example : All (λ x. code_points x ≤ 2) (chunk "abcde" 2)
chunk-bounded_example = chunk-bounded "abcde" 2 (omega arith)

chunk_test : chunk "abcde" 2 ≡ "ab" ∷ "cd" ∷ "e" ∷ []
unfolding chunk
chunk_test = refl

abbrev at_once : ℕ → Request
at_once t = record { user = pos 7; step = AuthStep.request_code; at = t }

abbrev six_requests : List Request
six_requests = at_once 0 ∷ at_once 1 ∷ at_once 2 ∷ at_once 3 ∷ at_once 4 ∷ at_once 5 ∷ []

allow_auth-limit_example :
    count (in_hour 0) (granted (pos 7) AuthStep.request_code six_requests no_attempts)
    ≤ limit_per_hour AuthStep.request_code
allow_auth-limit_example =
    allow_auth-limit (pos 7) AuthStep.request_code six_requests
      (omega arith, (omega arith, (omega arith, (omega arith, (omega arith, (omega arith, tt)))))) 0

granted_test :
    granted (pos 7) AuthStep.request_code six_requests no_attempts ≡ 0 ∷ 1 ∷ 2 ∷ 3 ∷ 4 ∷ []
unfolding granted select
granted_test = refl
