-- ===== src/Validation.antt =====
-- validation.rs (crates/tzibbur-api/src/validation.rs): the limits of texts, phone numbers and
-- one-time codes. A text is read by its code points; the bytes that the source tests are digits,
-- which are one byte each.
pub mod Trim
use Prim.Native.Char.{code, len_utf8, Char}
use un_tzibbur_bot.Base.{
  ℕ, zero, suc, ◌+◌, ◌/◌, ◌%◌, String, Bool, true, false, not, ◌&&◌, ◌||◌, Option, none, some, List,
  leb, ltb, ◌==◌, if◌then◌else◌,
}

-- `char::is_whitespace`
unfoldable pub is_whitespace : ℕ → Bool
is_whitespace c =
    (leb 9 c && leb c 13)
    || c == 32
    || c == 133
    || c == 160
    || c == 5760
    || (leb 8192 c && leb c 8202)
    || c == 8232
    || c == 8233
    || c == 8239
    || c == 8287
    || c == 12288

abbrev pub is_empty : String → Bool
is_empty String.[] = true
is_empty (String.◌∷◌ c s) = false

unfoldable pub code_points : String → ℕ
code_points String.[] = 0
code_points (String.◌∷◌ c s) = suc (code_points s)

unfoldable pub trim_start : String → String
unfolding is_whitespace
trim_start String.[] = ""
trim_start (String.◌∷◌ c s) =
    let rest = trim_start s in if is_whitespace (code c) then rest else String.◌∷◌ c s

unfoldable pub trim_end : String → String
unfolding is_whitespace
trim_end String.[] = ""
trim_end (String.◌∷◌ c s) =
    let rest = trim_end s in
    if is_empty rest && is_whitespace (code c) then "" else String.◌∷◌ c rest

-- `str::trim`
unfoldable pub trim : String → String
unfolding trim_start trim_end
trim s = trim_start (trim_end s)

pub data TextValidation : Type 0 where
  valid : (text : String) → TextValidation
  empty : TextValidation
  too_long : (count max : ℕ) → TextValidation

abbrev pub is_valid : TextValidation → Bool
is_valid (TextValidation.valid text) = true
is_valid _ = false

abbrev pub into_valid : TextValidation → Option String
into_valid (TextValidation.valid text) = some text
into_valid _ = none

-- What `validate_text` says of the trimmed text.
unfoldable pub judge : String → ℕ → TextValidation
unfolding code_points
judge text max =
    if is_empty text
    then TextValidation.empty
    else if ltb max (code_points text)
    then TextValidation.too_long (code_points text) max
    else TextValidation.valid text

unfoldable pub validate_text : String → ℕ → TextValidation
unfolding trim judge
validate_text input max = judge (trim input) max

abbrev pub default_max_display_name : ℕ
default_max_display_name = 64

abbrev pub default_max_group_name : ℕ
default_max_group_name = 100

abbrev pub default_max_message : ℕ
default_max_message = 1000

abbrev pub message_near_limit : ℕ
message_near_limit = 900

abbrev pub code_length : ℕ
code_length = 6

unfoldable pub validate_display_name : String → TextValidation
unfolding validate_text
validate_display_name input = validate_text input default_max_display_name

unfoldable pub validate_group_name : String → TextValidation
unfolding validate_text
validate_group_name input = validate_text input default_max_group_name

unfoldable pub validate_message_body : String → TextValidation
unfolding validate_text
validate_message_body input = validate_text input default_max_message

pub record ComposerInfo : Type 0 where
  pub is_valid_draft : Bool
  pub count : ℕ
  pub is_near_limit : Bool
  pub max_length : ℕ

unfoldable pub composer_info : String → ComposerInfo
unfolding trim code_points
composer_info draft =
    let cp = code_points (trim draft) in
    record {
      is_valid_draft = ltb 0 cp && leb cp default_max_message;
      count = cp;
      is_near_limit = leb message_near_limit cp;
      max_length = default_max_message;
    }

unfoldable pub is_ascii_digit : ℕ → Bool
is_ascii_digit c = leb b'0' c && leb c b'9'

-- `str::len`, in bytes
unfoldable pub byte_len : String → ℕ
byte_len String.[] = 0
byte_len (String.◌∷◌ c s) = len_utf8 c + byte_len s

unfoldable pub all_digits : String → Bool
unfolding is_ascii_digit
all_digits String.[] = true
all_digits (String.◌∷◌ c s) = is_ascii_digit (code c) && all_digits s

unfoldable pub strip_plus : String → Option String
strip_plus String.[] = none
strip_plus (String.◌∷◌ c s) = if code c == b'+' then some s else none

unfoldable pub looks_like_e164 : String → Bool
unfolding trim strip_plus byte_len all_digits
looks_like_e164 s = elim (strip_plus (trim s)) [
  | none ↦ false
  | some rest ↦ leb 8 (byte_len rest) && leb (byte_len rest) 15 && all_digits rest
]

unfoldable pub only_digits : String → String
unfolding is_ascii_digit
only_digits String.[] = ""
only_digits (String.◌∷◌ c s) =
    let rest = only_digits s in if is_ascii_digit (code c) then String.◌∷◌ c rest else rest

-- A leading `00` is dropped once.
unfoldable pub drop_00 : String → String
drop_00 (String.◌∷◌ a (String.◌∷◌ b s)) =
    if code a == b'0' && code b == b'0' then s else String.◌∷◌ a (String.◌∷◌ b s)
drop_00 s = s

unfoldable pub normalize_phone : String → String
unfolding only_digits drop_00
normalize_phone s = String.◌∷◌ "+" (drop_00 (only_digits s))

unfoldable pub is_valid_otp : String → Bool
unfolding byte_len all_digits
is_valid_otp c = byte_len c == code_length && all_digits c

-- The inner loop of `extract_otp`: the run of digits at the front.
unfoldable pub digit_run : String → String
unfolding is_ascii_digit
digit_run String.[] = ""
digit_run (String.◌∷◌ c s) =
    let rest = digit_run s in if is_ascii_digit (code c) then String.◌∷◌ c rest else ""

-- The outer loop; `in_run` says that the last character was a digit of a run already measured.
unfoldable pub scan : Bool → String → Option String
unfolding is_ascii_digit digit_run byte_len
scan in_run String.[] = none
scan in_run (String.◌∷◌ c s) =
    let inside = scan true s in
    let outside = scan false s in
    if is_ascii_digit (code c)
    then (if not in_run && byte_len (digit_run (String.◌∷◌ c s)) == code_length
        then some (digit_run (String.◌∷◌ c s))
        else inside)
    else outside

unfoldable pub extract_otp : String → Option String
unfolding scan
extract_otp sms = scan false sms
