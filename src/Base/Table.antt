-- ===== src/Base/Table.antt =====
-- A database table as the list of its rows, newest first, and what the SQL statements of the
-- source do to one. `same` says when two rows agree on a key.
use Prim.Native.Nat.{ℕ, suc}
use mathlib.Core.Path.{◌≡◌, refl, ap, ◌∙◌, fun_ext}
use mathlib.Core.Logic.{inl, inr}
use mathlib.Core.Bool.{Bool, true, false, not}
use mathlib.Core.Option
use mathlib.Core.Option.{Option, none, some}
use mathlib.Core.List.{List, [], ◌∷◌}
use native.Mathlib.Omega.{arith}
use un_tzibbur_bot.Base.Tests.{if◌then◌else◌, Bool-cases}
use un_tzibbur_bot.Base.Lists.{length, any, select, find, any-select-false, any_sub}

module _ {ℓ} {A : Type ℓ} where
  -- `UPDATE … SET f WHERE p`
  unfoldable pub update : (A → Bool) → (A → A) → List A → List A
  update p f [] = []
  update p f (x ∷ xs) = (if p x then f x else x) ∷ update p f xs

  -- The number of rows that `WHERE p` names.
  unfoldable pub count : (A → Bool) → List A → ℕ
  count p [] = 0
  count p (x ∷ xs) = let rest = count p xs in if p x then suc rest else rest

  -- `DELETE … WHERE p`
  unfoldable pub delete : (A → Bool) → List A → List A
  delete p = select (λ x. not (p x))

  -- `INSERT OR IGNORE`: a row that would break a key is dropped.
  unfoldable pub insert_or_ignore : (A → A → Bool) → A → List A → List A
  insert_or_ignore clash x xs = if any (clash x) xs then xs else x ∷ xs

  -- No two rows agree on the key.
  abbrev pub Unique : (A → A → Bool) → List A → Type 0
  Unique same [] = Unit
  Unique same (x ∷ xs) = (any (same x) xs ≡ false) × Unique same xs

  pub Unique-select :
      (same : A → A → Bool) (p : A → Bool) (xs : List A)
      → Unique same xs
      → Unique same (select p xs)
  unfolding select
  Unique-select same p [] u = tt
  Unique-select same p (x ∷ xs) u =
      ground (arith, Unique-select same p xs u.1, any-select-false (same x) p xs u.0)

  pub any-update :
      (q p : A → Bool) (f : A → A)
      → ((x : A) → q (f x) ≡ q x)
      → (xs : List A) → any q (update p f xs) ≡ any q xs
  unfolding any update
  any-update q p f keep [] = refl
  any-update q p f keep (x ∷ xs) = ground (arith, keep x, any-update q p f keep xs)

  -- An update that leaves the key alone keeps the key unique.
  pub Unique-update :
      (same : A → A → Bool) (p : A → Bool) (f : A → A)
      → ((x y : A) → same x (f y) ≡ same x y)
      → ((x y : A) → same (f x) y ≡ same x y)
      → (xs : List A) → Unique same xs
      → Unique same (update p f xs)
  unfolding update
  Unique-update same p f right left [] u = tt
  Unique-update same p f right left (x ∷ xs) u = (
    elim (Bool-cases (p x)) [
      | inl e ↦ rw e (any-update (same (f x)) p f (right (f x)) xs ∙ any-same xs ∙ u.0)
      | inr e ↦ rw e (any-update (same x) p f (right x) xs ∙ u.0)
    ],
    Unique-update same p f right left xs u.1,
  )
    where
      any-same : (ys : List A) → any (same (f x)) ys ≡ any (same x) ys
      any-same ys = ap (λ q. any q ys) (fun_ext (left x))

  pub Unique-insert_or_ignore :
      (same clash : A → A → Bool)
      → ((x y : A) → clash x y ≡ false → same x y ≡ false)
      → (x : A) (xs : List A) → Unique same xs
      → Unique same (insert_or_ignore clash x xs)
  unfolding insert_or_ignore any
  Unique-insert_or_ignore same clash sub x xs u =
      ground (arith, any_sub (clash x) (same x) (sub x) xs)

  pub length-update : (p : A → Bool) (f : A → A) (xs : List A) → length (update p f xs) ≡ length xs
  unfolding update
  length-update p f [] = refl
  length-update p f (x ∷ xs) = ap suc (length-update p f xs)

  -- The first row that `q` finds, after an update that `q` does not see.
  pub find-update :
      (q p : A → Bool) (f : A → A)
      → ((x : A) → q (f x) ≡ q x)
      → (xs : List A)
      → find q (update p f xs) ≡ Option.map (λ x. if p x then f x else x) (find q xs)
  unfolding find update
  find-update q p f keep [] = refl
  find-update q p f keep (x ∷ xs) = ground (arith, keep x, find-update q p f keep xs)

  pub find-delete : (q : A → Bool) (xs : List A) → find q (delete q xs) ≡ none
  unfolding find delete select
  find-delete q [] = refl
  find-delete q (x ∷ xs) = elim (Bool-cases (q x)) [
    | inl e ↦ rw e (find-delete q xs)
    | inr e ↦ rw (e, e) (find-delete q xs)
  ]

  pub find-holds : (q : A → Bool) (xs : List A) (x : A) → find q xs ≡ some x → q x ≡ true
  unfolding find
  find-holds q [] x h = cc
  find-holds q (y ∷ xs) x h = elim (Bool-cases (q y)) [
    | inl e ↦ let k : some y ≡ some x = rw e at h in let same : y ≡ x = cc in rw (← same) e
    | inr e ↦ find-holds q xs x (rw e at h)
  ]
