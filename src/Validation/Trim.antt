-- ===== src/Validation/Trim.antt =====
-- The trimmed text of `validate_text`, and the composer (validation.rs).
use Prim.Native.Char.{code}
use un_tzibbur_bot.Base.{
  ℕ, String, ◌≡◌, refl, ap, ◌∙◌, inl, inr, true, false, ◌&&◌, ◌≤◌, ◌<◌, arith, ltb, leb,
  if◌then◌else◌, Bool-cases,
}
use un_tzibbur_bot.Validation.{
  is_whitespace, is_empty, code_points, trim_start, trim_end, trim, TextValidation, is_valid, judge,
  validate_text, validate_message_body, composer_info,
}

trim_start_twice : (s : String) → trim_start (trim_start s) ≡ trim_start s
unfolding trim_start
trim_start_twice String.[] = refl
trim_start_twice (String.◌∷◌ c s) = elim (Bool-cases (is_whitespace (code c))) [
  | inl e ↦ rw e (trim_start_twice s)
  | inr e ↦ rw (e, e) refl
]

trim_end_twice : (s : String) → trim_end (trim_end s) ≡ trim_end s
unfolding trim_end
trim_end_twice String.[] = refl
trim_end_twice (String.◌∷◌ c s) =
    elim (Bool-cases (is_empty (trim_end s) && is_whitespace (code c))) [
      | inl e ↦ rw e refl
      | inr e ↦ rw (e, trim_end_twice s, e) refl
    ]

tail_trimmed : (c : _) (s : String) → trim_end (String.◌∷◌ c s) ≡ String.◌∷◌ c s → trim_end s ≡ s
unfolding trim_end
tail_trimmed c s h = elim (Bool-cases (is_empty (trim_end s) && is_whitespace (code c))) [
  | inl e ↦ absurd (ground (arith, rw e at h))
  | inr e ↦ let k : String.◌∷◌ c (trim_end s) ≡ String.◌∷◌ c s = rw e at h in cc
]

suffix_trimmed : (s : String) → trim_end s ≡ s → trim_end (trim_start s) ≡ trim_start s
unfolding trim_start
suffix_trimmed String.[] h = h
suffix_trimmed (String.◌∷◌ c s) h = elim (Bool-cases (is_whitespace (code c))) [
  | inl e ↦ rw e (suffix_trimmed s (tail_trimmed c s h))
  | inr e ↦ rw e h
]

pub trim_twice : (s : String) → trim (trim s) ≡ trim s
unfolding trim
trim_twice s =
    ap trim_start (suffix_trimmed (trim_end s) (trim_end_twice s)) ∙ trim_start_twice (trim_end s)

nonempty_count : (s : String) → ltb 0 (code_points s) ≡ (if is_empty s then false else true)
unfolding code_points
nonempty_count String.[] = refl
nonempty_count (String.◌∷◌ c s) = ground arith

judge-valid :
    (t : String) (max : ℕ) (text : String)
    → judge t max ≡ TextValidation.valid text
    → (text ≡ t) × (0 < code_points t) × (code_points t ≤ max)
unfolding judge
judge-valid t max text h = elim (Bool-cases (is_empty t)) [
  | inl e ↦ let k : TextValidation.empty ≡ TextValidation.valid text = rw e at h in cc
  | inr e ↦ elim (Bool-cases (ltb max (code_points t))) [
    | inl l ↦
        let k : TextValidation.too_long (code_points t) max ≡ TextValidation.valid text =
          rw (e, l) at h in
        cc
    | inr l ↦
        let k : TextValidation.valid t ≡ TextValidation.valid text = rw (e, l) at h in
        (cc, ground (arith, nonempty_count t), ground arith)
  ]
]

-- A text that a validation accepts is not empty, is within the limit, is the trimmed input, and is
-- accepted again as it stands.
pub validate_text-valid :
    (input : String) (max : ℕ) (text : String)
    → validate_text input max ≡ TextValidation.valid text
    → (text ≡ trim input)
      × (0 < code_points text)
      × (code_points text ≤ max)
      × (validate_text text max ≡ TextValidation.valid text)
validate_text-valid input max text h = (r.0, rw r.0 r.1, rw r.0 r.2, again)
  where
    r : (text ≡ trim input) × (0 < code_points (trim input)) × (code_points (trim input) ≤ max)
    r = unfold validate_text in judge-valid (trim input) max text h

    again : validate_text text max ≡ TextValidation.valid text
    again = unfold validate_text in rw (ap trim r.0 ∙ trim_twice input) h

-- The composer allows sending a draft exactly if the validation of its body accepts it.
pub composer_agrees :
    (draft : String) → (composer_info draft).is_valid_draft ≡ is_valid (validate_message_body draft)
unfolding composer_info validate_message_body validate_text judge
composer_agrees draft = agree (trim draft)
  where
    agree :
        (t : String) → (ltb 0 (code_points t) && leb (code_points t) 1000) ≡ is_valid (judge t 1000)
    agree t = elim (Bool-cases (is_empty t)) [
      | inl e ↦ rw (nonempty_count t, e) refl
      | inr e ↦ elim (Bool-cases (ltb 1000 (code_points t))) [
        | inl l ↦ rw (e, l, nonempty_count t, e) (ground arith)
        | inr l ↦ rw (e, l, nonempty_count t, e) (ground arith)
      ]
    ]
