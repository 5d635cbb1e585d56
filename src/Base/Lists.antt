-- ===== src/Base/Lists.antt =====
-- Tables as lists of rows: the list forms of the SQL statements that the repositories issue. The
-- order of rows is that of insertion, which no statement without ORDER BY can observe.
use Prim.Native.Nat.{ℕ, suc, ◌+◌}
use mathlib.Core.Path.{◌≡◌, refl}
use mathlib.Core.Bool.{Bool, true, false}
use mathlib.Core.Option.{Option, none, some}
use mathlib.Core.List.{List, [], ◌∷◌, ◌++◌}
use native.Mathlib.Omega.{arith}
use pstu_final.Base.Tests.{if◌then◌else◌}

module _ {ℓ} {A : Type ℓ} where
  abbrev pub length : List A → ℕ
  length [] = 0
  length (x ∷ xs) = suc (length xs)

  -- The first row that meets the condition: `rows[0]` of a SELECT.
  abbrev pub find_where : (A → Bool) → List A → Option A
  find_where test [] = none
  find_where test (x ∷ xs) = if test x then some x else find_where test xs

  abbrev pub any : (A → Bool) → List A → Bool
  any test [] = false
  any test (x ∷ xs) = if test x then true else any test xs

  -- UPDATE … WHERE.
  abbrev pub update_where : (A → Bool) → (A → A) → List A → List A
  update_where test change [] = []
  update_where test change (x ∷ xs) = (if test x then change x else x) ∷ update_where test change xs

  -- SELECT count(*) … WHERE.
  abbrev pub count_where : (A → Bool) → List A → ℕ
  count_where test [] = 0
  count_where test (x ∷ xs) = (if test x then 1 else 0) + count_where test xs

  abbrev pub select_where : (A → Bool) → List A → List A
  select_where test [] = []
  select_where test (x ∷ xs) = if test x then x ∷ select_where test xs else select_where test xs

  -- A predicate by recursion, which the tactics read and build.
  abbrev pub All {κ} : (A → Type κ) → List A → Type κ
  All P [] = Unit
  All P (x ∷ xs) = P x × All P xs

  pub All-append {κ} : (P : A → Type κ) (xs ys : List A) → All P xs → All P ys → All P (xs ++ ys)
  All-append P [] ys hx hy = hy
  All-append P (x ∷ xs) ys hx hy = (hx.0, All-append P xs ys hx.1 hy)

  pub length-append : (xs ys : List A) → length (xs ++ ys) ≡ length xs + length ys
  length-append [] ys = omega arith
  length-append (x ∷ xs) ys = omega (arith, length-append xs ys)

  pub any-append :
      (test : A → Bool) (xs ys : List A)
      → any test (xs ++ ys) ≡ (if any test xs then true else any test ys)
  any-append test [] ys = refl
  any-append test (x ∷ xs) ys = ground (arith, any-append test xs ys)

  pub find_where-append :
      (test : A → Bool) (xs : List A) (y : A)
      → any test xs ≡ false
      → test y ≡ true
      → find_where test (xs ++ y ∷ []) ≡ some y
  find_where-append test [] y h e = ground arith
  find_where-append test (x ∷ xs) y h e = ground (arith, find_where-append test xs y)

  pub find_where-eq-none :
      (test : A → Bool) (xs : List A) → any test xs ≡ false → find_where test xs ≡ none
  find_where-eq-none test [] h = refl
  find_where-eq-none test (x ∷ xs) h = ground (arith, find_where-eq-none test xs)

  pub any-of-find_where :
      (test : A → Bool) (xs : List A) (y : A) → find_where test xs ≡ some y → any test xs ≡ true
  any-of-find_where test [] y h = ground arith
  any-of-find_where test (x ∷ xs) y h = ground (arith, any-of-find_where test xs y)

  -- A row that is found meets the condition.
  pub find_where_sound :
      (test : A → Bool) (xs : List A) (y : A) → find_where test xs ≡ some y → test y ≡ true
  find_where_sound test [] y h = ground arith
  find_where_sound test (x ∷ xs) y h = ground (arith, find_where_sound test xs y)

  -- An UPDATE whose condition holds of no row changes nothing.
  pub update_where-none :
      (test : A → Bool) (change : A → A) (xs : List A)
      → any test xs ≡ false
      → update_where test change xs ≡ xs
  update_where-none test change [] h = refl
  update_where-none test change (x ∷ xs) h = ground (arith, update_where-none test change xs)

  pub update_where-append :
      (test : A → Bool) (change : A → A) (xs ys : List A)
      → update_where test change (xs ++ ys)
        ≡ update_where test change xs ++ update_where test change ys
  update_where-append test change [] ys = refl
  update_where-append test change (x ∷ xs) ys = rw (update_where-append test change xs ys)

  -- An UPDATE that meets the last row alone.
  pub update_where-last :
      (test : A → Bool) (change : A → A) (xs : List A) (y : A)
      → any test xs ≡ false
      → test y ≡ true
      → update_where test change (xs ++ y ∷ []) ≡ xs ++ change y ∷ []
  update_where-last test change [] y h e = ground arith
  update_where-last test change (x ∷ xs) y h e = ground (arith, update_where-last test change xs y)

  pub count_where-append :
      (test : A → Bool) (xs ys : List A)
      → count_where test (xs ++ ys) ≡ count_where test xs + count_where test ys
  count_where-append test [] ys = omega arith
  count_where-append test (x ∷ xs) ys = omega (arith, count_where-append test xs ys)

  -- An UPDATE that leaves the condition of a SELECT as it is.
  pub find_where-update_where :
      (test hit : A → Bool) (change : A → A) (xs : List A) (x : A)
      → ((y : A) → test (change y) ≡ test y)
      → find_where test xs ≡ some x
      → hit x ≡ true
      → find_where test (update_where hit change xs) ≡ some (change x)
  find_where-update_where test hit change [] x keeps found meets = ground arith
  find_where-update_where test hit change (y ∷ ys) x keeps found meets =
      let same = keeps y in ground (arith, find_where-update_where test hit change ys x keeps)

  -- An UPDATE of other rows than those that a SELECT looks for.
  pub find_where-update_where_other :
      (test hit : A → Bool) (change : A → A) (xs : List A)
      → ((y : A) → test (change y) ≡ test y)
      → ((y : A) → test y ≡ true → hit y ≡ false)
      → find_where test (update_where hit change xs) ≡ find_where test xs
  find_where-update_where_other test hit change [] keeps misses = refl
  find_where-update_where_other test hit change (y ∷ ys) keeps misses =
      let same = keeps y in
      let miss = misses y in
      ground (arith, find_where-update_where_other test hit change ys keeps misses)

  -- A row that is found stays so when rows are added behind it.
  pub find_where_stays :
      (test : A → Bool) (xs ys : List A) (y : A)
      → find_where test xs ≡ some y
      → find_where test (xs ++ ys) ≡ some y
  find_where_stays test [] ys y h = ground arith
  find_where_stays test (x ∷ xs) ys y h = ground (arith, find_where_stays test xs ys y)

  -- An UPDATE after which its rows no longer meet its condition.
  pub any-update_where_all :
      (test : A → Bool) (change : A → A) (xs : List A)
      → ((x : A) → test (change x) ≡ false)
      → any test (update_where test change xs) ≡ false
  any-update_where_all test change [] no_more = refl
  any-update_where_all test change (x ∷ xs) no_more =
      let gone = no_more x in ground (arith, any-update_where_all test change xs no_more)

  -- An UPDATE that leaves a condition as it is.
  pub any-update_where :
      (test hit : A → Bool) (change : A → A) (xs : List A)
      → ((x : A) → test (change x) ≡ test x)
      → any test (update_where hit change xs) ≡ any test xs
  any-update_where test hit change [] keeps = refl
  any-update_where test hit change (x ∷ xs) keeps =
      let same = keeps x in ground (arith, any-update_where test hit change xs keeps)

  -- A row that is found meets another condition: some row does.
  pub any-of-found :
      (test hit : A → Bool) (xs : List A) (y : A)
      → find_where test xs ≡ some y
      → hit y ≡ true
      → any hit xs ≡ true
  any-of-found test hit [] y found meets = ground arith
  any-of-found test hit (x ∷ xs) y found meets = ground (arith, any-of-found test hit xs y)

  pub count_where-eq-zero :
      (test : A → Bool) (xs : List A) → any test xs ≡ false → count_where test xs ≡ 0
  count_where-eq-zero test [] h = refl
  count_where-eq-zero test (x ∷ xs) h = ground (arith, count_where-eq-zero test xs)
