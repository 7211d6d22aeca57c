-- ===== src/Error/Problem/Codes.antt =====
-- The errors that `from_problem` makes of the codes it knows, and of the others.
use un_tzibbur_bot.Base.{
  ◌∙◌, ◌≢◌, if-false, ℕ, ◌≡◌, refl, sym, if-holds, String, Bool, true, false, Option, List, [], ◌∷◌,
  any, map, unwrap_or, arith, inl, inr, Bool-cases,
}
use un_tzibbur_bot.Models.{codes, text_eq}
use un_tzibbur_bot.Json.{Json}
use un_tzibbur_bot.Error.{AppError, code, request_id, from_status}
use un_tzibbur_bot.Error.Problem.{ProblemDto, problem_code, arms, pick, from_code, from_problem}

-- The codes of `AppError::code` that a server sends.
abbrev pub slugs : List String
slugs =
    "validation-failed" ∷ "invalid-display-name" ∷ "reserved-display-name" ∷ "invalid-group-name"
    ∷ "invalid-category" ∷ "invalid-message" ∷ "contacts-batch-too-large"
    ∷ "client-message-id-reused" ∷ "unauthorized" ∷ "invalid-code" ∷ "forbidden"
    ∷ "posting-not-allowed" ∷ "adding-members-not-allowed" ∷ "admin-required" ∷ "leave-not-allowed"
    ∷ "device-blocked" ∷ "admin-limit-reached" ∷ "not-found" ∷ "group-full" ∷ "last-admin"
    ∷ "sms-delivery-failed" ∷ "group-too-small" ∷ "rate-limited" ∷ "not-implemented" ∷ "internal"
    ∷ []

head-eq {ℓ} : {A : Type ℓ} {x y : A} {xs ys : List A} → (x ∷ xs) ≡ (y ∷ ys) → x ≡ y
head-eq h = cc

tail-eq {ℓ} : {A : Type ℓ} {x y : A} {xs ys : List A} → (x ∷ xs) ≡ (y ∷ ys) → xs ≡ ys
tail-eq h = cc

abbrev pub known : List ℕ → Bool
known slug = any (λ s. text_eq slug (codes s)) slugs

text_eq-eq : (s t : List ℕ) → text_eq s t ≡ true → s ≡ t
text_eq-eq [] [] e = refl
text_eq-eq (a ∷ s) (b ∷ t) e = grind (arith, text_eq-eq s t)
text_eq-eq [] (b ∷ t) e = cc
text_eq-eq (a ∷ s) [] e = cc

-- The slug is the pattern of an arm.
abbrev matched : List ℕ → String × AppError → Bool
matched slug arm = text_eq slug (codes arm.0)

pick-code :
    (slug : List ℕ) (xs : List (String × AppError)) (other : AppError)
    → map (λ arm. code arm.1) xs ≡ map (λ arm. arm.0) xs
    → any (matched slug) xs ≡ true
    → codes (code (pick slug xs other)) ≡ slug
unfolding pick any
pick-code slug [] other h k = cc
pick-code slug ((pattern, e) ∷ xs) other h k = elim (Bool-cases (text_eq slug (codes pattern))) [
  | inl m ↦ rw (m, head-eq h) (sym (text_eq-eq slug (codes pattern) m))
  | inr m ↦ rw m (pick-code slug xs other (tail-eq h) (ground arith))
]

pick-other :
    (slug : List ℕ) (xs : List (String × AppError)) (other : AppError)
    → any (matched slug) xs ≡ false
    → pick slug xs other ≡ other
unfolding pick any
pick-other slug [] other k = refl
pick-other slug ((pattern, e) ∷ xs) other k = ground (arith, pick-other slug xs other)

pick-request_id :
    (slug : List ℕ) (xs : List (String × AppError)) (other : AppError) (id : Option String)
    → map (λ arm. request_id arm.1) xs ≡ map (λ _. id) xs
    → request_id other ≡ id
    → request_id (pick slug xs other) ≡ id
unfolding pick
pick-request_id slug [] other id h k = k
pick-request_id slug ((pattern, e) ∷ xs) other id h k =
    if-holds (λ r. request_id r ≡ id) (text_eq slug (codes pattern)) (head-eq h)
      (pick-request_id slug xs other id (tail-eq h) k)

old_unknown : (slug : List ℕ) → slug ≡ codes "validation" → known slug ≢ true
unfolding any
old_unknown slug e k = cc

module _ (as_u64 : Json → Option ℕ) (status : ℕ) (p : ProblemDto) (header : Option ℕ) where
  from_status-request_id :
      (id detail : Option String) (errors : Option Json)
      → request_id (from_status status id detail header errors) ≡ id
  unfolding from_status request_id
  from_status-request_id id detail errors = ground arith

  abbrev fallback : AppError
  fallback = from_status status p.request_id p.detail header p.errors

  abbrev old_arm : String × AppError
  old_arm = ("validation", AppError.validation_failed p.request_id p.errors)

  arms-code :
      map (λ arm. code arm.1) (arms as_u64 p header) ≡ map (λ arm. arm.0) (arms as_u64 p header)
  unfolding arms code
  arms-code = refl

  arms-request_id :
      map (λ arm. request_id arm.1) (old_arm ∷ arms as_u64 p header)
      ≡ map (λ _. p.request_id) (old_arm ∷ arms as_u64 p header)
  unfolding arms request_id
  arms-request_id = refl

  arms-known : (slug : List ℕ) → any (matched slug) (arms as_u64 p header) ≡ known slug
  unfolding arms any
  arms-known slug = refl

  from_code-request_id :
      (slug : List ℕ) → request_id (from_code as_u64 status p header slug) ≡ p.request_id
  unfolding from_code
  from_code-request_id slug =
      pick-request_id slug (old_arm ∷ arms as_u64 p header) fallback p.request_id arms-request_id
        (from_status-request_id p.request_id p.detail p.errors)

  from_code-known :
      (slug : List ℕ)
      → known slug ≡ true
      → codes (code (from_code as_u64 status p header slug)) ≡ slug
  unfolding from_code pick
  from_code-known slug k = elim (Bool-cases (text_eq slug (codes "validation"))) [
    | inl e ↦ absurd (old_unknown slug (text_eq-eq slug (codes "validation") e) k)
    | inr e ↦ rw e (pick-code slug (arms as_u64 p header) fallback arms-code (arms-known slug ∙ k))
  ]

  from_code-other :
      (slug : List ℕ)
      → known slug ≡ false
      → text_eq slug (codes "validation") ≡ false
      → from_code as_u64 status p header slug ≡ fallback
  unfolding from_code pick
  from_code-other slug k v =
      if-false _ _ v ∙ pick-other slug (arms as_u64 p header) fallback (arms-known slug ∙ k)

-- The error made of a problem document has the document's code, for each of the 25 codes that a
-- server sends; for any other code than these and the old "validation", and without a code, it is
-- the one made of the bare status. Its request id is always the document's.
pub from_problem_lem :
    (as_u64 : Json → Option ℕ) (status : ℕ) (p : ProblemDto) (header : Option ℕ)
    → let e = from_problem as_u64 status p header in
      let slug = unwrap_or (problem_code p) [] in
      (known slug ≡ true → codes (code e) ≡ slug)
      × (known slug ≡ false
          → text_eq slug (codes "validation") ≡ false
          → e ≡ from_status status p.request_id p.detail header p.errors)
      × (request_id e ≡ p.request_id)
unfolding from_problem
from_problem_lem as_u64 status p header =
    let slug = unwrap_or (problem_code p) [] in
    (
      from_code-known as_u64 status p header slug,
      from_code-other as_u64 status p header slug,
      from_code-request_id as_u64 status p header slug,
    )
