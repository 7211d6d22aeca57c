-- ===== src/Format/Tags.antt =====
-- The angle brackets of a rendered message, and the name prefix of a body (format.rs).
use Prim.Native.Char.{Char, code}
use text.Mathlib.TextEquality.{Char-path}
use un_tzibbur_bot.Base.{
  List, [], ◌∷◌, if-holds, ℕ, suc, ◌+◌, ◌≡◌, refl, sym, ap, ◌∙◌, String, true, false, ◌&&◌, Option,
  none, some, arith, ◌==◌, if◌then◌else◌, Bool-cases, inl, inr, ◌≤◌,
}
use un_tzibbur_bot.Validation.{trim, is_empty, byte_len}
use un_tzibbur_bot.Format.Chunks.{push_str_assoc}
use un_tzibbur_bot.Format.{
  push_str, escape_html, begins_with, tail, before, split_once, is_name, name_of, split_name_prefix,
  without_prefix, render_group, render_inbound,
}

-- The number of characters of the text that have the code `n`.
unfoldable pub count_code : ℕ → String → ℕ
count_code n String.[] = 0
count_code n (String.◌∷◌ c s) = let rest = count_code n s in if code c == n then suc rest else rest

count_code-push_str :
    (n : ℕ) (s t : String) → count_code n (push_str s t) ≡ count_code n s + count_code n t
unfolding count_code push_str
count_code-push_str n String.[] t = omega arith
count_code-push_str n (String.◌∷◌ c s) t = ground (arith, count_code-push_str n s t)

escape_html-brackets :
    (s : String) → (count_code b'<' (escape_html s) ≡ 0) × (count_code b'>' (escape_html s) ≡ 0)
unfolding count_code escape_html push_str
escape_html-brackets String.[] = (refl, refl)
escape_html-brackets (String.◌∷◌ c s) = ground (arith, escape_html-brackets s)

abbrev pub tags : Option String → ℕ
tags none = 2
tags (some group) = 4

-- A character that no escaped text has stands in the rendered text as often as in the bridge's tags.
rendered_count :
    (n : ℕ)
    → ((s : String) → count_code n (escape_html s) ≡ 0)
    → (count_code n "<b>" ≡ 1)
      × (count_code n "</b>\n" ≡ 1)
      × (count_code n "<i>[" ≡ 1)
      × (count_code n "]</i>\n" ≡ 1)
    → (label body : String) (group_prefix : Option String)
    → count_code n (render_inbound label body group_prefix) ≡ tags group_prefix
unfolding render_inbound
rendered_count n clean own label body group_prefix =
    count_code-push_str n (render_group group_prefix) _
    ∙ rw (of_group group_prefix, of_message) (total group_prefix)
  where
    shown : String
    shown = without_prefix label body (split_name_prefix body)

    of_message :
        count_code n
          (push_str "<b>" (push_str (escape_html label) (push_str "</b>\n" (escape_html shown))))
        ≡ 2
    of_message = omega (
      arith,
      count_code-push_str n "<b>"
          (push_str (escape_html label) (push_str "</b>\n" (escape_html shown))),
      count_code-push_str n (escape_html label) (push_str "</b>\n" (escape_html shown)),
      count_code-push_str n "</b>\n" (escape_html shown),
      clean label,
      clean shown,
      own.0,
      own.1,
    )

    extra : Option String → ℕ
    extra none = 0
    extra (some g) = 2

    of_group : (o : Option String) → count_code n (render_group o) ≡ extra o
    of_group none = unfold render_group count_code in refl
    of_group (some g) =
        unfold render_group in
        omega (
          arith,
          count_code-push_str n "<i>[" (push_str (escape_html g) "]</i>\n"),
          count_code-push_str n (escape_html g) "]</i>\n",
          clean g,
          own.2,
          own.3,
        )

    total : (o : Option String) → extra o + 2 ≡ tags o
    total none = refl
    total (some g) = refl

-- The text up to the next `>`.
unfoldable pub up_to_end : String → String
up_to_end String.[] = ""
up_to_end (String.◌∷◌ c s) =
    let rest = up_to_end s in if code c == b'>' then "" else String.◌∷◌ c rest

-- What stands after each `<` of the text, up to the next `>`.
unfoldable pub tags_of : String → List String
unfolding up_to_end
tags_of String.[] = []
tags_of (String.◌∷◌ c s) =
    let rest = tags_of s in if code c == b'<' then up_to_end s ∷ rest else rest

-- No tag begins in an escaped text.
tags_of-escape_html : (s t : String) → tags_of (push_str (escape_html s) t) ≡ tags_of t
unfolding tags_of push_str escape_html
tags_of-escape_html String.[] t = refl
tags_of-escape_html (String.◌∷◌ c s) t =
    let ih = tags_of-escape_html s t in
    let Same : String → Type 0 = λ x. tags_of (push_str x t) ≡ tags_of t in
    if-holds Same (code c == b'&') ih (elim (Bool-cases (code c == b'<')) [
      | inl e ↦ rw e ih
      | inr e ↦ rw e (if-holds Same (code c == b'>') ih (rw e ih))
    ])

push_str-nil : (s : String) → push_str s "" ≡ s
unfolding push_str
push_str-nil String.[] = refl
push_str-nil (String.◌∷◌ c s) = ap (String.◌∷◌ c) (push_str-nil s)

tags_of-escaped : (s : String) → tags_of (escape_html s) ≡ []
unfolding tags_of
tags_of-escaped s = ap tags_of (sym (push_str-nil (escape_html s))) ∙ tags_of-escape_html s ""

abbrev pub own_tags : Option String → List String
own_tags none = "b" ∷ "/b" ∷ []
own_tags (some group) = "i" ∷ "/i" ∷ "b" ∷ "/b" ∷ []

message_tags :
    (label shown : String)
    → tags_of
        (push_str "<b>" (push_str (escape_html label) (push_str "</b>\n" (escape_html shown))))
      ≡ "b" ∷ "/b" ∷ []
unfolding tags_of push_str up_to_end
message_tags label shown =
    ap (λ ts. "b" ∷ ts)
      (tags_of-escape_html label (push_str "</b>\n" (escape_html shown))
        ∙ ap (λ ts. "/b" ∷ ts) (tags_of-escaped shown))

group_tags :
    (g rest : String) → tags_of (push_str (render_group (some g)) rest) ≡ "i" ∷ "/i" ∷ tags_of rest
unfolding tags_of push_str up_to_end render_group
group_tags g rest =
    ap (λ ts. "i" ∷ ts)
      (ap tags_of (push_str_assoc (escape_html g) "]</i>\n" rest)
        ∙ tags_of-escape_html g (push_str "]</i>\n" rest))

rendered_tags :
    (label body : String) (group_prefix : Option String)
    → tags_of (render_inbound label body group_prefix) ≡ own_tags group_prefix
unfolding render_inbound
rendered_tags label body none =
    unfold render_group push_str in
    message_tags label (without_prefix label body (split_name_prefix body))
rendered_tags label body (some g) =
    group_tags g _
    ∙ ap (λ ts. "i" ∷ "/i" ∷ ts)
        (message_tags label (without_prefix label body (split_name_prefix body)))

-- Whatever the label, the body and the group's name are, the tags of the rendered text are in this
-- order `<i>` and `</i>`, if a group is named, and `<b>` and `</b>`; each has its two angle brackets,
-- and there are no others.
pub render_inbound-tags :
    (label body : String) (group_prefix : Option String)
    → (tags_of (render_inbound label body group_prefix) ≡ own_tags group_prefix)
      × (count_code b'<' (render_inbound label body group_prefix) ≡ tags group_prefix)
      × (count_code b'>' (render_inbound label body group_prefix) ≡ tags group_prefix)
unfolding count_code
render_inbound-tags label body group_prefix = (
  rendered_tags label body group_prefix,
  rendered_count b'<' (λ s. (escape_html-brackets s).0) (refl, refl, refl, refl) label body
      group_prefix,
  rendered_count b'>' (λ s. (escape_html-brackets s).1) (refl, refl, refl, refl) label body
      group_prefix,
)

abbrev split_at : String → String → Option (String × String)
split_at name rest = some (name, rest)

begins_with-tail :
    (sp : Char) (s : String) → begins_with (code sp) s ≡ true → s ≡ String.◌∷◌ sp (tail s)
begins_with-tail sp String.[] h = cc
begins_with-tail sp (String.◌∷◌ c s) h = let same = Char-path c sp (ground arith) in cc

split_later :
    (c : Char) (s : String) (o : Option (String × String))
    → ((a b : String) → o ≡ some (a, b) → s ≡ push_str a (push_str ": " b))
    → (name rest : String) → before o (String.◌∷◌ c "") ≡ some (name, rest)
    → String.◌∷◌ c s ≡ push_str name (push_str ": " rest)
unfolding push_str before
split_later c s none ih name rest h = cc
split_later c s (some (a, b)) ih name rest h =
    let first : String.◌∷◌ c a ≡ name = cc in
    let second : b ≡ rest = cc in rw (← first, ← second) (ap (String.◌∷◌ c) (ih a b refl))

split_once-joins :
    (body name rest : String)
    → split_once body ≡ some (name, rest)
    → body ≡ push_str name (push_str ": " rest)
unfolding split_once
split_once-joins String.[] name rest h = cc
split_once-joins (String.◌∷◌ c s) name rest h =
    elim (Bool-cases (code c == b':' && begins_with b' ' s)) [
      | inl e ↦ at_front c s name rest (ground arith) (ground arith) (rw e at h)
      | inr e ↦ split_later c s (split_once s) (λ a b. split_once-joins s a b) name rest (rw e at h)
    ]
  where
    at_front :
        (c : Char) (s name rest : String)
        → code c ≡ b':'
        → begins_with b' ' s ≡ true
        → split_at "" (tail s) ≡ split_at name rest
        → String.◌∷◌ c s ≡ push_str name (push_str ": " rest)
    at_front c s name rest colon space k =
        let first : "" ≡ name = cc in
        let second : tail s ≡ rest = cc in
        let char = Char-path c ":" colon in
        let joined = begins_with-tail " " s space in
        rw (← first, ← second, char) (unfold push_str in ap (String.◌∷◌ ":") joined)

checked_name :
    (name : String) → is_name name ≡ true → (is_empty name ≡ false) × (byte_len name ≤ 64)
unfolding is_name
checked_name name h = ground arith

name_of-some :
    (o : Option (String × String)) (name rest : String)
    → name_of o ≡ some (name, rest)
    → (raw : String) × (o ≡ some (raw, rest)) × (name ≡ trim raw) × (is_name name ≡ true)
unfolding name_of
name_of-some none name rest h = cc
name_of-some (some (raw, after)) name rest h = elim (Bool-cases (is_name (trim raw))) [
  | inl e ↦
      let k : split_at (trim raw) after ≡ split_at name rest = rw e at h in
      let first : trim raw ≡ name = cc in
      let second : after ≡ rest = cc in (raw, rw second refl, sym first, rw (← first) e)
  | inr e ↦ let k : none ≡ split_at name rest = rw e at h in cc
]

-- If a name is split off a body, the body is some text, `: ` and the rest, and the name is that text
-- trimmed, which is not empty and has at most 64 bytes.
pub split_name_prefix-joins :
    (body name rest : String)
    → split_name_prefix body ≡ some (name, rest)
    → (raw : String) × (body ≡ push_str raw (push_str ": " rest))
      × (name ≡ trim raw)
      × ((is_empty name ≡ false) × (byte_len name ≤ 64))
unfolding split_name_prefix
split_name_prefix-joins body name rest h =
    let r = name_of-some (split_once body) name rest h in
    (r.0, split_once-joins body r.0 rest r.1, r.2, checked_name name r.3)
