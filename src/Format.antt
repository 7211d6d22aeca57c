-- ===== src/Format.antt =====
-- Rendering a message for Telegram (crates/bridge/src/bridge/format.rs), in its HTML parse mode.
pub mod Tags
pub mod Chunks
use Prim.Native.Char.{code}
use un_tzibbur_bot.Base.{
  ℕ, suc, String, Bool, true, false, not, ◌&&◌, ◌||◌, Option, none, some, List, [], ◌∷◌, ◌++◌, ltb,
  leb, ◌==◌, if◌then◌else◌, str_eq,
}
use un_tzibbur_bot.Models.{codes, contains}
use un_tzibbur_bot.Validation.{trim, is_empty, byte_len, code_points}

-- `String::push_str`
unfoldable pub push_str : String → String → String
push_str String.[] t = t
push_str (String.◌∷◌ c s) t = String.◌∷◌ c (push_str s t)

unfoldable pub escape_html : String → String
unfolding push_str
escape_html String.[] = ""
escape_html (String.◌∷◌ c s) =
    let rest = escape_html s in
    if code c == b'&'
    then push_str "&amp;" rest
    else if code c == b'<'
    then push_str "&lt;" rest
    else if code c == b'>'
    then push_str "&gt;" rest
    else String.◌∷◌ c rest

abbrev pub begins_with : ℕ → String → Bool
begins_with n String.[] = false
begins_with n (String.◌∷◌ c s) = code c == n

abbrev pub tail : String → String
tail String.[] = ""
tail (String.◌∷◌ c s) = s

unfoldable pub before : Option (String × String) → String → Option (String × String)
unfolding push_str
before none c = none
before (some (name, rest)) c = some (push_str c name, rest)

-- `str::split_once(": ")`
unfoldable pub split_once : String → Option (String × String)
unfolding before
split_once String.[] = none
split_once (String.◌∷◌ c s) =
    let later = split_once s in
    if code c == b':' && begins_with b' ' s
    then some ("", tail s)
    else before later (String.◌∷◌ c "")

unfoldable pub is_name : String → Bool
unfolding byte_len contains
is_name name = not (
    is_empty name
    || ltb 64 (byte_len name)
    || contains (codes name) (codes "\n")
    || contains (codes name) (codes "http"))

unfoldable pub name_of : Option (String × String) → Option (String × String)
unfolding trim is_name
name_of none = none
name_of (some (name, rest)) = if is_name (trim name) then some (trim name, rest) else none

unfoldable pub split_name_prefix : String → Option (String × String)
unfolding name_of split_once
split_name_prefix body = name_of (split_once body)

unfoldable pub without_prefix : String → String → Option (String × String) → String
without_prefix label body none = body
without_prefix label body (some (name, rest)) =
    if str_eq name label || str_eq label "You" then rest else body

unfoldable pub render_group : Option String → String
unfolding push_str escape_html
render_group none = ""
render_group (some g) = push_str "<i>[" (push_str (escape_html g) "]</i>\n")

unfoldable pub render_inbound : String → String → Option String → String
unfolding push_str escape_html without_prefix split_name_prefix render_group
render_inbound label body group_prefix =
    let shown = without_prefix label body (split_name_prefix body) in
    push_str (render_group group_prefix)
      (push_str "<b>" (push_str (escape_html label) (push_str "</b>\n" (escape_html shown))))

-- One turn of the loop of `chunk`: what is pushed, and the current piece.
unfoldable pub take_char : ℕ → List String × String → String → List String × String
unfolding push_str code_points
take_char max (out, cur) c =
    if leb max (code_points cur) then (out ++ cur ∷ [], c) else (out, push_str cur c)

unfoldable pub chunk_loop : ℕ → List String × String → String → List String × String
unfolding take_char
chunk_loop max state String.[] = state
chunk_loop max state (String.◌∷◌ c s) = chunk_loop max (take_char max state (String.◌∷◌ c "")) s

unfoldable pub last_piece : List String × String → List String
last_piece (out, cur) = if is_empty cur then out else out ++ cur ∷ []

unfoldable pub chunk : String → ℕ → List String
unfolding code_points chunk_loop last_piece
chunk s max = if leb (code_points s) max then s ∷ [] else last_piece (chunk_loop max ([], "") s)
