-- ===== src/Pagination/Keyset.antt =====
-- Rows ordered by (created_at DESC, id DESC), from behind an anchor on, and the page that a service
-- cuts from them.
use pstu_final.Base.{
  ℕ, zero, suc, ◌+◌, Bool, true, ◌&&◌, ◌||◌, Option, none, some, List, [], ◌∷◌, length,
  select_where, ltb, ◌==◌, if◌then◌else◌,
}

pub record KeysetCursor : Type 0 where
  pub created_at : ℕ
  pub id : ℕ

-- a stands behind b in the order of the lists.
abbrev pub is_behind : KeysetCursor → KeysetCursor → Bool
is_behind a b = ltb a.created_at b.created_at || (a.created_at == b.created_at && ltb a.id b.id)

-- The condition on the cursor, where there is one.
abbrev pub passes : Option KeysetCursor → KeysetCursor → Bool
passes none key = true
passes (some anchor) key = is_behind key anchor

module _ {A : Type 0} (key : A → KeysetCursor) where
  unfoldable pub insert_desc : A → List A → List A
  insert_desc x [] = x ∷ []
  insert_desc x (y ∷ ys) =
      let rest = insert_desc x ys in if is_behind (key y) (key x) then x ∷ y ∷ ys else y ∷ rest

  -- ORDER BY created_at DESC, id DESC
  unfoldable pub sort_desc : List A → List A
  unfolding insert_desc
  sort_desc [] = []
  sort_desc (x ∷ xs) = insert_desc x (sort_desc xs)

module _ {A : Type 0} where
  -- LIMIT, and `slice(0, n)`
  abbrev pub take : ℕ → List A → List A
  take zero xs = []
  take (suc n) [] = []
  take (suc n) (x ∷ xs) = x ∷ take n xs

  -- `at(-1)`
  abbrev pub last : List A → Option A
  last [] = none
  last (x ∷ []) = some x
  last (x ∷ y ∷ ys) = last (y ∷ ys)

pub record CursorPage (A : Type 0) : Type 0 where
  pub items : List A
  pub next_cursor : Option KeysetCursor

module _ {A : Type 0} (key : A → KeysetCursor) where
  -- SELECT … WHERE … ORDER BY … LIMIT
  unfoldable pub list_rows : (A → Bool) → Option KeysetCursor → ℕ → List A → List A
  unfolding sort_desc
  list_rows visible cursor limit rows =
      take limit (sort_desc key (select_where (λ r. visible r && passes cursor (key r)) rows))

  abbrev key_of_last : Option A → Option KeysetCursor
  key_of_last none = none
  key_of_last (some row) = some (key row)

  -- One extra row tells whether there is a next page.
  unfoldable pub to_page : ℕ → List A → CursorPage A
  to_page limit rows =
      let has_more = ltb limit (length rows) in
      let page = if has_more then take limit rows else rows in
      record { items = page; next_cursor = if has_more then key_of_last (last page) else none }

  unfoldable pub page_of : (A → Bool) → Option KeysetCursor → ℕ → List A → CursorPage A
  unfolding list_rows to_page
  page_of visible cursor limit rows = to_page limit (list_rows visible cursor (limit + 1) rows)
