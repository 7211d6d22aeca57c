-- ===== src/Http/Paging.antt =====
-- The methods of http.rs that follow cursors, on a server whose cursors come to an end.
use mathlib.Core.List.{append_assoc}
use un_tzibbur_bot.Validation.{is_empty}
use un_tzibbur_bot.Base.{
  Bool, not, ◌||◌, if◌then◌else◌, false, ℕ, zero, suc, ◌≤◌, ◌≡◌, refl, ap, ◌∙◌, String, Option,
  none, some, List, [], ◌++◌, arith,
}
use un_tzibbur_bot.Entities.{GroupDto, MemberDto}
use un_tzibbur_bot.Error.{AppError, Result, ok, err}
use un_tzibbur_bot.Http.{
  Page, follow, on_listed, on_next, next_of_groups, next_of_members, list_all_groups,
  list_all_members,
}

abbrev pub prepend {ℓ} : {T : Type ℓ} → List T → Result (List T) → Result (List T)
prepend xs (ok ys) = ok (xs ++ ys)
prepend xs (err error) = err error

-- From this cursor on the server serves so many pages, and this is what they amount to: a page with
-- a cursor that is not empty is followed by the page of that cursor, and the last page has no cursor,
-- or an empty one and no `hasMore`.
pub data Serves {ℓ} {T : Type ℓ} (list : Option String → Result (Page T))
    : Option String → ℕ → Result (List T) → Type ℓ where
  fails :
      (cursor : Option String) (error : AppError)
      → list cursor ≡ err error
      → Serves list cursor 1 (err error)
  ends :
      (cursor : Option String) (page : Page T)
      → list cursor ≡ ok page
      → page.next_cursor ≡ none
      → Serves list cursor 1 (ok page.items)
  ends_empty :
      (cursor : Option String) (page : Page T)
      → list cursor ≡ ok page
      → page.next_cursor ≡ some ""
      → page.has_more ≡ false
      → Serves list cursor 1 (ok page.items)
  goes_on :
      (cursor : Option String) (page : Page T) (after : String) {n : ℕ} {rest : Result (List T)}
      → list cursor ≡ ok page
      → page.next_cursor ≡ some after
      → is_empty after ≡ false
      → Serves list (some after) n rest
      → Serves list cursor (suc n) (prepend page.items rest)

-- How a method reads the cursor of a page, on such a server.
pub record Reads {ℓ} {T : Type ℓ} (next : Page T → Option String) : Type ℓ where
  pub stops : (page : Page T) → page.next_cursor ≡ none → next page ≡ none
  pub stops_empty :
      (page : Page T) → page.next_cursor ≡ some "" → page.has_more ≡ false → next page ≡ none
  pub follows :
      (page : Page T) (after : String)
      → page.next_cursor ≡ some after
      → is_empty after ≡ false
      → next page ≡ some after

after_test :
    (more empty : Bool) (after : String)
    → empty ≡ false
    → (if more || not empty then some after else none) ≡ some after
after_test more empty after e = ground arith

groups-Reads : Reads next_of_groups
unfolding next_of_groups
groups-Reads = record {
  stops = λ page c. rw c refl;
  stops_empty = λ page c m. rw (c, m) refl;
  follows = λ page after c e. rw c (after_test page.has_more (is_empty after) after e);
}

members-Reads : Reads next_of_members
unfolding next_of_members
members-Reads = record {
  stops = λ page c. rw c refl;
  stops_empty = λ page c m. rw c refl;
  follows = λ page after c e. rw (c, e) refl;
}

prepend-prepend {ℓ} :
    {T : Type ℓ} (xs ys : List T) (r : Result (List T))
    → prepend (xs ++ ys) r ≡ prepend xs (prepend ys r)
prepend-prepend xs ys (ok zs) = ap ok (append_assoc xs ys zs)
prepend-prepend xs ys (err error) = refl

prepend-nil {ℓ} : {T : Type ℓ} (r : Result (List T)) → prepend [] r ≡ r
prepend-nil (ok xs) = refl
prepend-nil (err error) = refl

module _ {ℓ} {T : Type ℓ} (list : Option String → Result (Page T)) (next : Page T → Option String)
    (reads : Reads next) where
  positive : {cursor : Option String} {n : ℕ} {r : Result (List T)} → Serves list cursor n r → 1 ≤ n
  positive (Serves.fails cursor error l) = omega arith
  positive (Serves.ends cursor page l c) = omega arith
  positive (Serves.ends_empty cursor page l c m) = omega arith
  positive (Serves.goes_on cursor page after l c e s) = omega arith

  follow-Serves :
      (fuel : ℕ) {cursor : Option String} {n : ℕ} {r : Result (List T)} (out : List T)
      → Serves list cursor n r
      → n ≤ fuel
      → follow list next fuel cursor out ≡ some (prepend out r)
  unfolding follow on_listed on_next
  follow-Serves zero out s h = let k = positive s in absurd (ground arith)
  follow-Serves (suc fuel) out (Serves.fails cursor error l) h = rw l refl
  follow-Serves (suc fuel) out (Serves.ends cursor page l c) h = rw (l, reads.stops page c) refl
  follow-Serves (suc fuel) out (Serves.ends_empty cursor page l c m) h =
      rw (l, reads.stops_empty page c m) refl
  follow-Serves (suc fuel) out (Serves.goes_on cursor page after {rest = rest} l c e s) h =
      rw (l, reads.follows page after c e)
        (follow-Serves fuel (out ++ page.items) s (omega arith)
          ∙ ap some (prepend-prepend out page.items rest))

-- Both methods end where the server's cursors do, if as many pages may be asked for as there are:
-- they give the items of all pages in their order, or the first error. A page with a cursor that is
-- not empty is followed; the last page has no cursor, or an empty one and no `hasMore`.
pub list_all_ends :
    (groups : Option String → Result (Page GroupDto))
    (members : Option String → Result (Page MemberDto)) {n m : ℕ} {gs : Result (List GroupDto)}
    {ms : Result (List MemberDto)} (fuel : ℕ)
    → Serves groups none n gs
    → Serves members none m ms
    → n ≤ fuel
    → m ≤ fuel
    → (list_all_groups groups fuel ≡ some gs) × (list_all_members members fuel ≡ some ms)
unfolding list_all_groups list_all_members
list_all_ends groups members {gs = gs} {ms = ms} fuel s t h k = (
  follow-Serves groups next_of_groups groups-Reads fuel [] s h ∙ ap some (prepend-nil gs),
  follow-Serves members next_of_members members-Reads fuel [] t k ∙ ap some (prepend-nil ms),
)
