-- ===== src/Pagination/Slices.antt =====
-- The front of a list and what it leaves.
use pstu_final.Base.{
  ℕ, zero, suc, ◌+◌, true, false, some, List, [], ◌∷◌, ◌++◌, length, ◌≡◌, ◌≢◌, refl, ap, subst,
  arith, All, ltb,
}
use pstu_final.Pagination.Keyset.{take, last}

module _ {A : Type 0} where
  abbrev pub drop : ℕ → List A → List A
  drop zero xs = xs
  drop (suc n) [] = []
  drop (suc n) (x ∷ xs) = drop n xs

  pub take-drop : (n : ℕ) (xs : List A) → take n xs ++ drop n xs ≡ xs
  take-drop zero xs = refl
  take-drop (suc n) [] = refl
  take-drop (suc n) (x ∷ xs) = ap (λ (t : List A). x ∷ t) (take-drop n xs)

  pub take_shorter : (n : ℕ) (xs : List A) → take n (take (suc n) xs) ≡ take n xs
  take_shorter zero xs = refl
  take_shorter (suc n) [] = refl
  take_shorter (suc n) (x ∷ xs) = ap (λ (t : List A). x ∷ t) (take_shorter n xs)

  pub more-take : (n : ℕ) (xs : List A) → ltb n (length (take (suc n) xs)) ≡ ltb n (length xs)
  more-take zero [] = refl
  more-take zero (x ∷ xs) = ground arith
  more-take (suc n) [] = refl
  more-take (suc n) (x ∷ xs) = let ih = more-take n xs in ground arith

  pub take_all : (n : ℕ) (xs : List A) → ltb n (length xs) ≡ false → take (suc n) xs ≡ xs
  take_all n [] h = refl
  take_all zero (x ∷ xs) h = ground arith
  take_all (suc n) (x ∷ xs) h = ap (λ (t : List A). x ∷ t) (take_all n xs (ground arith))

  pub length-drop :
      (n : ℕ) (xs : List A) → ltb n (length xs) ≡ true → length (drop n xs) + n ≡ length xs
  length-drop zero xs h = omega arith
  length-drop (suc n) [] h = ground arith
  length-drop (suc n) (x ∷ xs) h = let ih = length-drop n xs (ground arith) in omega arith

  pub last-take :
      (n : ℕ) (xs : List A)
      → ltb n (length xs) ≡ true
      → n ≢ 0
      → (z : A) × (last (take n xs) ≡ some z)
  last-take zero xs h some_of = absurd (some_of refl)
  last-take (suc n) [] h some_of = ground arith
  last-take (suc zero) (x ∷ xs) h some_of = (x, refl)
  last-take (suc (suc n)) (x ∷ []) h some_of = ground arith
  last-take (suc (suc n)) (x ∷ y ∷ ys) h some_of =
      last-take (suc n) (y ∷ ys) (ground arith) (omega arith)

  pub All-last {κ} :
      (P : A → Type κ) (n : ℕ) (xs : List A) (z : A) → All P xs → last (take n xs) ≡ some z → P z
  All-last P zero xs z all h = ground arith
  All-last P (suc n) [] z all h = ground arith
  All-last P (suc zero) (x ∷ xs) z all h = let same : x ≡ z = ground arith in subst P same all.0
  All-last P (suc (suc n)) (x ∷ []) z all h = let same : x ≡ z = ground arith in subst P same all.0
  All-last P (suc (suc n)) (x ∷ y ∷ ys) z all h = All-last P (suc n) (y ∷ ys) z all.1 h

pub append-nil : {A : Type 0} (xs : List A) → xs ++ [] ≡ xs
append-nil [] = refl
append-nil (x ∷ xs) = ap (λ t. x ∷ t) (append-nil xs)

pub All-true : {A : Type 0} (xs : List A) → All (λ x. true ≡ true) xs
All-true [] = tt
All-true (x ∷ xs) = (refl, All-true xs)
