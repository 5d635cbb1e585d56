-- ===== src/Pagination/Pages.antt =====
-- All pages of a list, one after the other.
use pstu_final.Base.{
  any, ℕ, zero, suc, ◌+◌, ◌<◌, Bool, Bool-cases, true, false, Option, none, some, List, [], ◌∷◌,
  ◌++◌, length, select_where, ◌≡◌, ◌≢◌, refl, ap, sym, subst, ◌∙◌, inl, inr, arith, ltb, ◌==◌,
}
use pstu_final.Pagination.Keyset.{
  KeysetCursor, is_behind, passes, sort_desc, take, last, list_rows, to_page, page_of, CursorPage,
}
use pstu_final.Pagination.Slices.{
  drop, take-drop, take_shorter, more-take, take_all, length-drop, last-take, All-last, All-true,
}
use pstu_final.Pagination.Order.{
  IsDesc, IsApart, is_behind_trans, is_behind_asymm, is_behind_irrefl, All-select_where,
  select_where-meets, select_where-both, select_where-All, select_where-implied,
  select_where-sort_desc, sort_desc-IsDesc,
}

-- A page and the pages behind it.
abbrev behind : {A : Type 0} → List A → Option (List A) → Option (List A)
behind page none = none
behind page (some pages) = some (page ++ pages)

abbrev follow_cursor :
    {A : Type 0}
    → (Option KeysetCursor → Option (List A))
    → List A
    → Option KeysetCursor
    → Option (List A)
follow_cursor next page none = some page
follow_cursor next page (some anchor) = behind page (next (some anchor))

abbrev follow :
    {A : Type 0} → (Option KeysetCursor → Option (List A)) → CursorPage A → Option (List A)
follow next page = follow_cursor next page.items page.next_cursor

farther :
    (cursor : Option KeysetCursor) (a b : KeysetCursor)
    → is_behind a b ≡ true
    → passes cursor b ≡ true
    → passes cursor a ≡ true
farther none a b h k = refl
farther (some anchor) a b h k = is_behind_trans a b anchor h k

module _ {A : Type 0} (key : A → KeysetCursor) where
  -- What stands behind the last row of a page is what the page leaves.
  behind_page :
      (n : ℕ) (xs : List A) (z : A)
      → IsDesc key xs
      → last (take n xs) ≡ some z
      → select_where (λ r. is_behind (key r) (key z)) xs ≡ drop n xs
  behind_page zero xs z desc h = ground arith
  behind_page (suc n) [] z desc h = refl
  behind_page (suc zero) (x ∷ xs) z desc h =
      let same : x ≡ z = ground arith in
      let rest = select_where-All (λ r. is_behind (key r) (key x)) xs desc.0 in
      let self = is_behind_irrefl (key x) in
      subst (λ (w : A). select_where (λ r. is_behind (key r) (key w)) (x ∷ xs) ≡ xs) same
        (rw self rest)
  behind_page (suc (suc n)) (x ∷ []) z desc h =
      let same : x ≡ z = ground arith in
      let self = is_behind_irrefl (key x) in
      subst (λ (w : A). select_where (λ r. is_behind (key r) (key w)) (x ∷ []) ≡ []) same
        (rw self refl)
  behind_page (suc (suc n)) (x ∷ y ∷ ys) z desc h =
      let z_behind = All-last (λ r. is_behind (key r) (key x) ≡ true) (suc n) (y ∷ ys) z desc.0 h in
      let x_not = is_behind_asymm (key z) (key x) z_behind in
      rw x_not (behind_page (suc n) (y ∷ ys) z desc.1 h)

  any-select_where :
      (test p : A → Bool) (xs : List A) → any test xs ≡ false → any test (select_where p xs) ≡ false
  any-select_where test p [] h = refl
  any-select_where test p (x ∷ xs) h = ground (arith, any-select_where test p xs)

  select_where-IsApart :
      (p : A → Bool) (xs : List A) → IsApart key xs → IsApart key (select_where p xs)
  select_where-IsApart p [] apart = tt
  select_where-IsApart p (x ∷ xs) apart = elim (Bool-cases (p x)) [
    | inl e ↦ rw e (
      any-select_where (λ y. (key y).id == (key x).id) p xs apart.0,
      select_where-IsApart p xs apart.1,
    )
    | inr e ↦ rw e (select_where-IsApart p xs apart.1)
  ]

  module _ (visible : A → Bool) (limit : ℕ) (rows : List A) where
    -- A reader who follows the cursors from one page to the next, so many pages at most: all items,
    -- where the last page has no cursor, and `none` where there are more pages.
    unfoldable pub traverse : ℕ → Option KeysetCursor → Option (List A)
    traverse zero cursor = none
    traverse (suc fuel) cursor = follow (traverse fuel) (page_of key visible cursor limit rows)

    abbrev whole : List A
    whole = sort_desc key (select_where visible rows)

    abbrev beyond : Option KeysetCursor → List A
    beyond cursor = select_where (λ r. passes cursor (key r)) whole

    list_rows-beyond :
        (cursor : Option KeysetCursor) (n : ℕ)
        → IsApart key rows
        → list_rows key visible cursor n rows ≡ take n (beyond cursor)
    unfolding list_rows
    list_rows-beyond cursor n apart =
        ap (λ (xs : List A). take n (sort_desc key xs))
          (select_where-both visible (λ r. passes cursor (key r)) rows)
        ∙ ap (take n) (
            select_where-sort_desc key (λ r. passes cursor (key r)) (select_where visible rows)
              (select_where-IsApart visible rows apart))

    beyond-next :
        (cursor : Option KeysetCursor) (z : A)
        → passes cursor (key z) ≡ true
        → select_where (λ r. is_behind (key r) (key z)) (beyond cursor) ≡ beyond (some (key z))
    beyond-next cursor z z_passes =
        select_where-implied (λ r. passes cursor (key r)) (λ r. is_behind (key r) (key z)) whole
          (λ r behind. farther cursor (key r) (key z) behind z_passes)

    whole-IsDesc : IsApart key rows → IsDesc key whole
    whole-IsDesc apart =
        sort_desc-IsDesc key (select_where visible rows) (select_where-IsApart visible rows apart)

    page_rows :
        (cursor : Option KeysetCursor)
        → IsApart key rows
        → page_of key visible cursor limit rows
          ≡ to_page key limit (take (suc limit) (beyond cursor))
    unfolding page_of
    page_rows cursor apart =
        let one : limit + 1 ≡ suc limit = omega arith in
        ap (to_page key limit) (list_rows-beyond cursor (limit + 1) apart)
        ∙ ap (λ (n : ℕ). to_page key limit (take n (beyond cursor))) one

    to_page-end :
        (xs : List A)
        → ltb limit (length xs) ≡ false
        → to_page key limit (take (suc limit) xs) ≡ record { items = xs; next_cursor = none }
    unfolding to_page
    to_page-end xs short = rw (take_all limit xs short, short) refl

    to_page-more :
        (xs : List A) (z : A)
        → ltb limit (length xs) ≡ true
        → last (take limit xs) ≡ some z
        → to_page key limit (take (suc limit) xs)
          ≡ record { items = take limit xs; next_cursor = some (key z) }
    unfolding to_page
    to_page-more xs z long found =
        let more : ltb limit (length (take (suc limit) xs)) ≡ true = more-take limit xs ∙ long in
        rw (more, take_shorter limit xs, found) refl

    select_where-IsDesc :
        (p : A → Bool) (xs : List A) → IsDesc key xs → IsDesc key (select_where p xs)
    select_where-IsDesc p [] desc = tt
    select_where-IsDesc p (x ∷ xs) desc = elim (Bool-cases (p x)) [
      | inl e ↦ rw e (
        All-select_where (λ y. is_behind (key y) (key x) ≡ true) p xs desc.0,
        select_where-IsDesc p xs desc.1,
      )
      | inr e ↦ rw e (select_where-IsDesc p xs desc.1)
    ]

    last_page :
        (fuel : ℕ) (cursor : Option KeysetCursor)
        → page_of key visible cursor limit rows
          ≡ record { items = beyond cursor; next_cursor = none }
        → traverse (suc fuel) cursor ≡ some (beyond cursor)
    unfolding traverse
    last_page fuel cursor e = ap (follow (traverse fuel)) e

    page_more :
        (fuel : ℕ) (cursor : Option KeysetCursor) (z : A)
        → page_of key visible cursor limit rows
          ≡ record { items = take limit (beyond cursor); next_cursor = some (key z) }
        → traverse (suc fuel) cursor
          ≡ behind (take limit (beyond cursor)) (traverse fuel (some (key z)))
    unfolding traverse
    page_more fuel cursor z e = ap (follow (traverse fuel)) e

    traverse-beyond :
        (fuel : ℕ) (cursor : Option KeysetCursor)
        → limit ≢ 0
        → IsApart key rows
        → length (beyond cursor) < fuel
        → traverse fuel cursor ≡ some (beyond cursor)
    traverse-beyond zero cursor some_rows apart enough = absurd (omega arith)
    traverse-beyond (suc fuel) cursor some_rows apart enough =
        elim (Bool-cases (ltb limit (length (beyond cursor)))) [
          | inr short ↦
              last_page fuel cursor (page_rows cursor apart ∙ to_page-end (beyond cursor) short)
          | inl long ↦
              let (z, found) = last-take limit (beyond cursor) long some_rows in
              let meets = select_where-meets (λ r. passes cursor (key r)) whole in
              let z_passes =
                All-last (λ r. passes cursor (key r) ≡ true) limit (beyond cursor) z meets found in
              let rest : beyond (some (key z)) ≡ drop limit (beyond cursor) =
                sym (beyond-next cursor z z_passes)
                ∙ behind_page limit (beyond cursor) z
                    (select_where-IsDesc (λ r. passes cursor (key r)) whole (whole-IsDesc apart))
                    found in
              let shorter = length-drop limit (beyond cursor) long in
              let left = ap (length {A = A}) rest in
              let ih = traverse-beyond fuel (some (key z)) some_rows apart (omega arith) in
              page_more fuel cursor z
                (page_rows cursor apart ∙ to_page-more (beyond cursor) z long found)
              ∙ ap (behind (take limit (beyond cursor))) (ih ∙ ap (λ (t : List A). some t) rest)
              ∙ ap (λ (t : List A). some t) (take-drop limit (beyond cursor))
        ]

    -- A reader who follows the cursors meets a page without a cursor after no more pages than one
    -- above the number of rows that the list shows, and has then read every one of these rows, once,
    -- newest first, for any page size but none and where the ids are apart: no page skips a row or
    -- shows one again.
    pub traverse-whole :
        (fuel : ℕ)
        → limit ≢ 0
        → IsApart key rows
        → length whole < fuel
        → traverse fuel none ≡ some whole
    traverse-whole fuel some_rows apart enough =
        let all = select_where-All (λ r. passes none (key r)) whole (All-true whole) in
        traverse-beyond fuel none some_rows apart
          (subst (λ (xs : List A). length xs < fuel) (sym all) enough)
        ∙ ap (λ (t : List A). some t) all
