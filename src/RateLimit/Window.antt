-- ===== src/RateLimit/Window.antt =====
-- Sequences of sign-in attempts of several users (`allow_auth` of app.rs).
use un_tzibbur_bot.Base.{
  ℕ, ◌+◌, ◌≤◌, ◌<◌, ◌≡◌, refl, ◌∙◌, Bool, true, false, ◌&&◌, List, [], ◌∷◌, ◌++◌, ℤ, eqb_ℤ,
  eqb_ℤ_iff, arith, ltb, leb, length, select, count, if◌then◌else◌, Bool-cases, inl, inr,
}
use un_tzibbur_bot.RateLimit.{
  AuthStep, limit_per_hour, same_step, window, Attempts, no_attempts, is_recent, count_attempt,
  allow_auth,
}

pub record Request : Type 0 where
  pub user : ℤ
  pub step : AuthStep
  pub at : ℕ

abbrev pub Ascends : ℕ → List Request → Type 0
Ascends from [] = Unit {0}
Ascends from (r ∷ rs) = (from ≤ r.at) × Ascends r.at rs

abbrev is_of : ℤ → AuthStep → Request → Bool
is_of user step r = eqb_ℤ r.user user && same_step r.step step

-- The instants at which the requests of one user for one step were allowed.
unfoldable pub granted : ℤ → AuthStep → List Request → Attempts → List ℕ
unfolding allow_auth
granted user step [] attempts = []
granted user step (r ∷ rs) attempts =
    let answer = allow_auth r.at r.user r.step attempts in
    let rest = granted user step rs answer.0 in
    if is_of user step r && answer.1 then r.at ∷ rest else rest

-- `t` lies in the hour that begins at `from`.
abbrev pub in_hour : ℕ → ℕ → Bool
in_hour from t = leb from t && ltb t (from + window)

length-select : (p : ℕ → Bool) (xs : List ℕ) → length (select p xs) ≡ count p xs
unfolding select count
length-select p [] = refl
length-select p (x ∷ xs) = ground (arith, length-select p xs)

count-select :
    (p q : ℕ → Bool)
    → ((x : ℕ) → q x ≡ true → p x ≡ true)
    → (xs : List ℕ) → count q (select p xs) ≡ count q xs
unfolding select count
count-select p q sub [] = refl
count-select p q sub (x ∷ xs) = ground (arith, sub x, count-select p q sub xs)

count-append : (q : ℕ → Bool) (xs : List ℕ) (x : ℕ) → count q (xs ++ x ∷ []) ≡ count q (x ∷ xs)
unfolding count
count-append q [] x = refl
count-append q (y ∷ xs) x = ground (arith, count-append q xs x)

still_recent : (now later t : ℕ) → now ≤ later → is_recent later t ≡ true → is_recent now t ≡ true
still_recent now later t le h = ground arith

-- The log of one key against its entry in the map.
record Faithful (limit last : ℕ) (entry log : List ℕ) : Type 0 where
  recent : (now : ℕ) → last ≤ now → count (is_recent now) entry ≡ count (is_recent now) log
  bounded : (from : ℕ) → count (in_hour from) log ≤ limit
  hourly :
      (now from : ℕ)
      → last ≤ now
      → in_hour from now ≡ true
      → count (in_hour from) log ≤ count (is_recent now) log

empty_log : (limit : ℕ) → Faithful limit 0 [] []
unfolding count
empty_log limit = record {
  recent = λ now h. refl;
  bounded = λ from. omega arith;
  hourly = λ now from h k. omega arith;
}

rejected_log :
    (limit last now : ℕ) (entry log : List ℕ)
    → last ≤ now
    → Faithful limit last entry log
    → Faithful limit now (select (is_recent now) entry) log
rejected_log limit last now entry log le f = record {
  recent = λ later h.
      count-select (is_recent now) (is_recent later) (λ t. still_recent now later t h) entry
      ∙ f.recent later (omega (arith, le, h));
  bounded = f.bounded;
  hourly = λ later from h k. f.hourly later from (omega (arith, le, h)) k;
}

allowed_log :
    (limit last now : ℕ) (entry log : List ℕ)
    → last ≤ now
    → leb limit (length (select (is_recent now) entry)) ≡ false
    → Faithful limit last entry log
    → Faithful limit now (select (is_recent now) entry ++ now ∷ []) (now ∷ log)
unfolding count
allowed_log limit last now entry log le free f = record {
  recent = λ later h.
      count-append (is_recent later) (select (is_recent now) entry) now
      ∙ ground (arith, kept.recent later h);
  bounded = λ from. ground (arith, f.bounded from, f.hourly now from le, room);
  hourly = λ later from h k. ground (arith, f.hourly later from (omega (arith, le, h)) k);
}
  where
    kept : Faithful limit now (select (is_recent now) entry) log
    kept = rejected_log limit last now entry log le f

    room : count (is_recent now) log < limit
    room = let n = length-select (is_recent now) entry in let m = f.recent now le in ground arith

later_log :
    (limit last now : ℕ) (entry log : List ℕ)
    → last ≤ now
    → Faithful limit last entry log
    → Faithful limit now entry log
later_log limit last now entry log le f = record {
  recent = λ later h. f.recent later (omega (arith, le, h));
  bounded = f.bounded;
  hourly = λ later from h k. f.hourly later from (omega (arith, le, h)) k;
}

same_step_iff : (a b : AuthStep) → same_step a b ≡ true → a ≡ b
same_step_iff AuthStep.request_code AuthStep.request_code h = refl
same_step_iff AuthStep.submit_code AuthStep.submit_code h = refl
same_step_iff AuthStep.request_code AuthStep.submit_code h = cc
same_step_iff AuthStep.submit_code AuthStep.request_code h = cc

module _ (user : ℤ) (step : AuthStep) (r : Request) (attempts : Attempts) where
  abbrev counted : List ℕ × Bool
  counted = count_attempt (limit_per_hour step) r.at (attempts user step)

  own_request :
      is_of user step r ≡ true
      → ((allow_auth r.at r.user r.step attempts).0 user step ≡ counted.0)
        × ((allow_auth r.at r.user r.step attempts).1 ≡ counted.1)
  unfolding allow_auth
  own_request h =
      let u : r.user ≡ user = (eqb_ℤ_iff r.user user).0 (ground arith) in
      let s : r.step ≡ step = same_step_iff r.step step (ground arith) in
      (rw h (rw (u, s) refl), rw (u, s) refl)

  other_request :
      is_of user step r ≡ false
      → (allow_auth r.at r.user r.step attempts).0 user step ≡ attempts user step
  unfolding allow_auth
  other_request h = rw h refl

granted-bounded :
    (user : ℤ) (step : AuthStep) (rs : List Request) (last : ℕ) (attempts : Attempts) (log : List ℕ)
    → Ascends last rs
    → Faithful (limit_per_hour step) last (attempts user step) log
    → (from : ℕ)
    → count (in_hour from) (granted user step rs attempts) + count (in_hour from) log
      ≤ limit_per_hour step
unfolding granted count
granted-bounded user step [] last attempts log a f from = omega (arith, f.bounded from)
granted-bounded user step (r ∷ rs) last attempts log a f from =
    elim (Bool-cases (is_of user step r)) [
      | inl own ↦
          let k = own_request user step r attempts own in
          elim (Bool-cases
            (leb (limit_per_hour step) (length (select (is_recent r.at) (attempts user step))))) [
              | inl full ↦
                  let entry : next user step ≡ select (is_recent r.at) (attempts user step) =
                    k.0 ∙ (counted_full full).0 in
                  let answer : (allow_auth r.at r.user r.step attempts).1 ≡ false =
                    k.1 ∙ (counted_full full).1 in
                  rw (own, answer)
                    (granted-bounded user step rs r.at next log a.1
                      (rw entry (
                        rejected_log (limit_per_hour step) last r.at (attempts user step) log a.0
                          f))
                      from)
              | inr free ↦
                  let entry : next user step
                      ≡ select (is_recent r.at) (attempts user step) ++ r.at ∷ [] =
                    k.0 ∙ (counted_free free).0 in
                  let answer : (allow_auth r.at r.user r.step attempts).1 ≡ true =
                    k.1 ∙ (counted_free free).1 in
                  let rest =
                    granted-bounded user step rs r.at next (r.at ∷ log) a.1
                      (rw entry (
                        allowed_log (limit_per_hour step) last r.at (attempts user step) log a.0
                          free f))
                      from in
                  rw (own, answer) (ground (arith, rest))
            ]
      | inr other ↦ rw other (
          granted-bounded user step rs r.at next log a.1
            (rw (other_request user step r attempts other)
              (later_log (limit_per_hour step) last r.at (attempts user step) log a.0 f))
            from)
    ]
  where
    next : Attempts
    next = (allow_auth r.at r.user r.step attempts).0

    counted_full :
        leb (limit_per_hour step) (length (select (is_recent r.at) (attempts user step))) ≡ true
        → ((counted user step r attempts).0 ≡ select (is_recent r.at) (attempts user step))
          × ((counted user step r attempts).1 ≡ false)
    counted_full h = unfold count_attempt in (rw h refl, rw h refl)

    counted_free :
        leb (limit_per_hour step) (length (select (is_recent r.at) (attempts user step))) ≡ false
        → ((counted user step r attempts).0
            ≡ select (is_recent r.at) (attempts user step) ++ r.at ∷ [])
          × ((counted user step r attempts).1 ≡ true)
    counted_free h = unfold count_attempt in (rw h refl, rw h refl)

-- If the instants of the requests do not decrease, then in every hour, wherever it begins, a user is
-- allowed at most 5 requests of a code and at most 15 submissions of one, whatever the other users do.
pub allow_auth-limit :
    (user : ℤ) (step : AuthStep) (rs : List Request)
    → Ascends 0 rs
    → (from : ℕ) → count (in_hour from) (granted user step rs no_attempts) ≤ limit_per_hour step
allow_auth-limit user step rs a from =
    omega (
      arith,
      granted-bounded user step rs 0 no_attempts [] a (empty_log (limit_per_hour step)) from,
    )
