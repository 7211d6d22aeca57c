-- ===== src/Format/Chunks.antt =====
-- The pieces of a long message (`chunk` of format.rs).
use un_tzibbur_bot.Base.{
  ℕ, ◌+◌, ◌≤◌, ◌≡◌, refl, sym, ap, ◌∙◌, String, List, [], ◌∷◌, ◌++◌, arith, leb, Bool-cases, inl,
  inr, All, All-append,
}
use un_tzibbur_bot.Validation.{code_points}
use un_tzibbur_bot.Format.{push_str, take_char, chunk_loop, last_piece, chunk}

-- The pieces one after the other.
unfoldable pub join : List String → String
join [] = ""
join (x ∷ xs) = push_str x (join xs)

push_str-empty : (s : String) → push_str s "" ≡ s
unfolding push_str
push_str-empty String.[] = refl
push_str-empty (String.◌∷◌ c s) = ap (String.◌∷◌ c) (push_str-empty s)

pub push_str_assoc : (s t u : String) → push_str (push_str s t) u ≡ push_str s (push_str t u)
unfolding push_str
push_str_assoc String.[] t u = refl
push_str_assoc (String.◌∷◌ c s) t u = ap (String.◌∷◌ c) (push_str_assoc s t u)

code_points-push_str : (s t : String) → code_points (push_str s t) ≡ code_points s + code_points t
unfolding code_points push_str
code_points-push_str String.[] t = omega arith
code_points-push_str (String.◌∷◌ c s) t = omega (arith, code_points-push_str s t)

join-append : (xs : List String) (x : String) → join (xs ++ x ∷ []) ≡ push_str (join xs) x
unfolding join push_str
join-append [] x = push_str-empty x
join-append (y ∷ xs) x = ap (push_str y) (join-append xs x) ∙ sym (push_str_assoc y (join xs) x)

-- What the loop has read: the pieces, and the current one.
abbrev read : List String × String → String
read state = push_str (join state.0) state.1

read-take_char :
    (max : ℕ) (state : List String × String) (c : String)
    → read (take_char max state c) ≡ push_str (read state) c
unfolding take_char
read-take_char max (out, cur) c = elim (Bool-cases (leb max (code_points cur))) [
  | inl e ↦ rw e (ap (λ s. push_str s c) (join-append out cur))
  | inr e ↦ rw e (sym (push_str_assoc (join out) cur c))
]

read-chunk_loop :
    (max : ℕ) (state : List String × String) (s : String)
    → read (chunk_loop max state s) ≡ push_str (read state) s
unfolding chunk_loop
read-chunk_loop max state String.[] = sym (push_str-empty (read state))
read-chunk_loop max state (String.◌∷◌ c s) =
    read-chunk_loop max (take_char max state (String.◌∷◌ c "")) s
    ∙ ap (λ r. push_str r s) (read-take_char max state (String.◌∷◌ c ""))
    ∙ push_str_assoc (read state) (String.◌∷◌ c "") s
    ∙ (unfold push_str in refl)

join-last_piece : (state : List String × String) → join (last_piece state) ≡ read state
unfolding last_piece
join-last_piece (out, String.[]) = sym (push_str-empty (join out))
join-last_piece (out, String.◌∷◌ c cur) = join-append out (String.◌∷◌ c cur)

-- Every piece, the current one too, has at most `max` characters.
abbrev Short : ℕ → List String × String → Type 0
Short max state = All (λ x. code_points x ≤ max) state.0 × (code_points state.1 ≤ max)

Short-take_char :
    (max : ℕ) (state : List String × String) (c : String)
    → 1 ≤ max
    → code_points c ≡ 1
    → Short max state
    → Short max (take_char max state c)
unfolding take_char
Short-take_char max (out, cur) c pos one h = elim (Bool-cases (leb max (code_points cur))) [
  | inl e ↦ rw e (All-append _ out (cur ∷ []) h.0 (h.1, tt), omega arith)
  | inr e ↦ rw e (h.0, ground (arith, code_points-push_str cur c))
]

Short-chunk_loop :
    (max : ℕ) (state : List String × String) (s : String)
    → 1 ≤ max
    → Short max state
    → Short max (chunk_loop max state s)
unfolding chunk_loop
Short-chunk_loop max state String.[] pos h = h
Short-chunk_loop max state (String.◌∷◌ c s) pos h =
    Short-chunk_loop max (take_char max state (String.◌∷◌ c "")) s pos
      (Short-take_char max state (String.◌∷◌ c "") pos (unfold code_points in refl) h)

Short-last_piece :
    (max : ℕ) (state : List String × String)
    → Short max state
    → All (λ x. code_points x ≤ max) (last_piece state)
unfolding last_piece
Short-last_piece max (out, String.[]) h = h.0
Short-last_piece max (out, String.◌∷◌ c cur) h =
    All-append _ out (String.◌∷◌ c cur ∷ []) h.0 (h.1, tt)

-- The pieces of a text, one after the other, are the text.
pub join-chunk : (s : String) (max : ℕ) → join (chunk s max) ≡ s
unfolding chunk join push_str
join-chunk s max = elim (Bool-cases (leb (code_points s) max)) [
  | inl e ↦ rw e (push_str-empty s)
  | inr e ↦ rw e (join-last_piece (chunk_loop max ([], "") s) ∙ read-chunk_loop max ([], "") s)
]

-- If `max` is not 0, each piece has at most `max` characters.
pub chunk-bounded : (s : String) (max : ℕ) → 1 ≤ max → All (λ x. code_points x ≤ max) (chunk s max)
unfolding chunk
chunk-bounded s max pos = elim (Bool-cases (leb (code_points s) max)) [
  | inl e ↦ rw e (ground arith, tt)
  | inr e ↦ rw e (
      Short-last_piece max _
        (Short-chunk_loop max ([], "") s pos (tt, unfold code_points in omega arith)))
]
