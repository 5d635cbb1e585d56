-- ===== src/Pagination/Order.antt =====
-- The order of a list, and the conditions that it lets through.
use pstu_final.Base.{
  Bool, Bool-cases, true, false, ◌&&◌, List, [], ◌∷◌, ◌≡◌, inl, inr, refl, ap, ◌∙◌, sym, arith, All,
  any, select_where, ◌==◌, if◌then◌else◌,
}
use pstu_final.Pagination.Keyset.{KeysetCursor, is_behind, insert_desc, sort_desc}

pub is_behind_trans :
    (a b c : KeysetCursor) → is_behind a b ≡ true → is_behind b c ≡ true → is_behind a c ≡ true
is_behind_trans a b c h k = ground arith

pub is_behind_asymm : (a b : KeysetCursor) → is_behind a b ≡ true → is_behind b a ≡ false
is_behind_asymm a b h = ground arith

pub is_behind_irrefl : (a : KeysetCursor) → is_behind a a ≡ false
is_behind_irrefl a = ground arith

is_behind_total :
    (a b : KeysetCursor) → (a.id == b.id) ≡ false → is_behind a b ≡ false → is_behind b a ≡ true
is_behind_total a b h k = ground arith

module _ {A : Type 0} where
  pub All-select_where {κ} :
      (P : A → Type κ) (test : A → Bool) (xs : List A) → All P xs → All P (select_where test xs)
  All-select_where P test [] all = tt
  All-select_where P test (x ∷ xs) all = elim (Bool-cases (test x)) [
    | inl e ↦ rw e (all.0, All-select_where P test xs all.1)
    | inr e ↦ rw e (All-select_where P test xs all.1)
  ]

  pub select_where-meets :
      (test : A → Bool) (xs : List A) → All (λ x. test x ≡ true) (select_where test xs)
  select_where-meets test [] = tt
  select_where-meets test (x ∷ xs) = elim (Bool-cases (test x)) [
    | inl e ↦ rw e (e, select_where-meets test xs)
    | inr e ↦ rw e (select_where-meets test xs)
  ]

  pub select_where-both :
      (p q : A → Bool) (xs : List A)
      → select_where (λ x. p x && q x) xs ≡ select_where q (select_where p xs)
  select_where-both p q [] = refl
  select_where-both p q (x ∷ xs) = ground (arith, select_where-both p q xs)

  pub select_where-All :
      (test : A → Bool) (xs : List A) → All (λ x. test x ≡ true) xs → select_where test xs ≡ xs
  select_where-All test [] all = refl
  select_where-All test (x ∷ xs) all = rw (all.0, select_where-All test xs all.1) refl

  -- A condition that another one follows from adds nothing to it.
  pub select_where-implied :
      (p q : A → Bool) (xs : List A)
      → ((x : A) → q x ≡ true → p x ≡ true)
      → select_where q (select_where p xs) ≡ select_where q xs
  select_where-implied p q [] implied = refl
  select_where-implied p q (x ∷ xs) implied =
      let ih = select_where-implied p q xs implied in let here = implied x in ground arith

module _ {A : Type 0} (key : A → KeysetCursor) where
  -- Each row stands before all that follow.
  abbrev pub IsDesc : List A → Type 0
  IsDesc [] = Unit
  IsDesc (x ∷ xs) = All (λ y. is_behind (key y) (key x) ≡ true) xs × IsDesc xs

  -- No two rows share an id.
  abbrev pub IsApart : List A → Type 0
  IsApart [] = Unit
  IsApart (x ∷ xs) = (any (λ y. (key y).id == (key x).id) xs ≡ false) × IsApart xs

  All-behind :
      (x y : A) (ys : List A)
      → is_behind (key y) (key x) ≡ true
      → All (λ z. is_behind (key z) (key y) ≡ true) ys
      → All (λ z. is_behind (key z) (key x) ≡ true) ys
  All-behind x y [] h all = tt
  All-behind x y (z ∷ zs) h all =
      (is_behind_trans (key z) (key y) (key x) all.0 h, All-behind x y zs h all.1)

  All-insert_desc {κ} :
      (P : A → Type κ) (x : A) (ys : List A) → P x → All P ys → All P (insert_desc key x ys)
  unfolding insert_desc
  All-insert_desc P x [] h all = (h, tt)
  All-insert_desc P x (y ∷ ys) h all = elim (Bool-cases (is_behind (key y) (key x))) [
    | inl e ↦ rw e (h, all)
    | inr e ↦ rw e (all.0, All-insert_desc P x ys h all.1)
  ]

  any-insert_desc :
      (test : A → Bool) (x : A) (ys : List A) → any test (insert_desc key x ys) ≡ any test (x ∷ ys)
  unfolding insert_desc
  any-insert_desc test x [] = refl
  any-insert_desc test x (y ∷ ys) = ground (arith, any-insert_desc test x ys)

  any-sort_desc : (test : A → Bool) (xs : List A) → any test (sort_desc key xs) ≡ any test xs
  unfolding sort_desc
  any-sort_desc test [] = refl
  any-sort_desc test (x ∷ xs) =
      any-insert_desc test x (sort_desc key xs)
      ∙ ap (λ (b : Bool). if test x then true else b) (any-sort_desc test xs)

  insert_desc-IsDesc :
      (x : A) (ys : List A)
      → any (λ y. (key y).id == (key x).id) ys ≡ false
      → IsDesc ys
      → IsDesc (insert_desc key x ys)
  unfolding insert_desc
  insert_desc-IsDesc x [] fresh desc = (tt, tt)
  insert_desc-IsDesc x (y ∷ ys) fresh desc = elim (Bool-cases (is_behind (key y) (key x))) [
    | inl e ↦ rw e ((e, All-behind x y ys e desc.0), desc)
    | inr e ↦
        let apart : ((key y).id == (key x).id) ≡ false = ground arith in
        let front = is_behind_total (key y) (key x) apart e in
        rw e (
          All-insert_desc (λ z. is_behind (key z) (key y) ≡ true) x ys front desc.0,
          insert_desc-IsDesc x ys (ground arith) desc.1,
        )
  ]

  pub sort_desc-IsDesc : (xs : List A) → IsApart xs → IsDesc (sort_desc key xs)
  unfolding sort_desc
  sort_desc-IsDesc [] apart = tt
  sort_desc-IsDesc (x ∷ xs) apart =
      insert_desc-IsDesc x (sort_desc key xs)
        (any-sort_desc (λ y. (key y).id == (key x).id) xs ∙ apart.0) (sort_desc-IsDesc xs apart.1)

  insert_desc-front :
      (x : A) (ys : List A)
      → All (λ y. is_behind (key y) (key x) ≡ true) ys
      → insert_desc key x ys ≡ x ∷ ys
  unfolding insert_desc
  insert_desc-front x [] all = refl
  insert_desc-front x (y ∷ ys) all = rw (all.0) refl

  select_where-insert_desc :
      (test : A → Bool) (x : A) (ys : List A)
      → IsDesc ys
      → select_where test (insert_desc key x ys)
        ≡ (if test x then insert_desc key x (select_where test ys) else select_where test ys)
  unfolding insert_desc
  select_where-insert_desc test x [] desc = ground arith
  select_where-insert_desc test x (y ∷ ys) desc = elim (Bool-cases (is_behind (key y) (key x))) [
    | inl e ↦
        let all = All-behind x y ys e desc.0 in
        let front =
          insert_desc-front x (select_where test ys)
            (All-select_where (λ z. is_behind (key z) (key x) ≡ true) test ys all) in
        ground arith
    | inr e ↦ let ih = select_where-insert_desc test x ys desc.1 in ground arith
  ]

  -- To select from a sorted list is to sort what is selected.
  pub select_where-sort_desc :
      (test : A → Bool) (xs : List A)
      → IsApart xs
      → sort_desc key (select_where test xs) ≡ select_where test (sort_desc key xs)
  unfolding sort_desc
  select_where-sort_desc test [] apart = refl
  select_where-sort_desc test (x ∷ xs) apart =
      let ih = select_where-sort_desc test xs apart.1 in
      let placed =
        select_where-insert_desc test x (sort_desc key xs) (sort_desc-IsDesc xs apart.1) in
      elim (Bool-cases (test x)) [
        | inl e ↦ rw e (ap (insert_desc key x) ih ∙ sym (rw e at placed))
        | inr e ↦ rw e (ih ∙ sym (rw e at placed))
      ]
