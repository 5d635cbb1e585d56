-- ===== src/Money/Grouping.antt =====
-- Digits in groups of three: the client's and the API's way to write an amount are one.
use pstu_final.Base.{
  ℕ, zero, suc, ◌+◌, ◌/◌, ◌%◌, ◌<◌, ◌≤◌, Bool, Bool-cases, true, false, inl, inr, ◌&&◌, not, [],
  ◌∷◌, ◌++◌, length, length-append, ◌==◌, ltb, ◌≡◌, ◌≢◌, refl, ap, ◌∙◌, sym, arith,
}
use pstu_final.Base.Int.{ℤ, pos, negsuc}
use pstu_final.Base.Text.{Text, decimal}
use pstu_final.Base.Text.Decimal.{decimal_one, decimal_step}
use pstu_final.Money.Format.{
  pad_start, group_digits, locale, to_locale_string, format_bdt, format_minor_units,
}

abbrev pub two_digits : ℕ → Text
two_digits n = (b'0' + n / 10) ∷ (b'0' + n % 10) ∷ []

abbrev three_digits : ℕ → Text
three_digits n = (b'0' + n / 100) ∷ (b'0' + n / 10 % 10) ∷ (b'0' + n % 10) ∷ []

decimal_two : (n : ℕ) → 10 ≤ n → n < 100 → decimal n ≡ two_digits n
decimal_two n low high =
    decimal_step n low
    ∙ ap (λ (t : Text). t ++ (b'0' + n % 10) ∷ []) (decimal_one (n / 10) (omega arith))

decimal_three : (n : ℕ) → 100 ≤ n → n < 1000 → decimal n ≡ three_digits n
decimal_three n low high =
    decimal_step n (omega arith)
    ∙ ap (λ (t : Text). t ++ (b'0' + n % 10) ∷ [])
        (decimal_two (n / 10) (omega arith) (omega arith))
    ∙ ap (λ (d : ℕ). (b'0' + d) ∷ (b'0' + n / 10 % 10) ∷ (b'0' + n % 10) ∷ []) (omega arith)

pub pad_start-two : (n : ℕ) → n < 100 → pad_start 2 b'0' (decimal n) ≡ two_digits n
unfolding pad_start
pad_start-two n high = elim (Bool-cases (ltb n 10)) [
  | inl small ↦ rw (decimal_one n (ground arith)) (ground arith)
  | inr large ↦ rw (decimal_two n (ground arith) high) refl
]

pad_start-three : (n : ℕ) → n < 1000 → pad_start 3 b'0' (decimal n) ≡ three_digits n
unfolding pad_start
pad_start-three n high = elim (Bool-cases (ltb n 10)) [
  | inl small ↦ rw (decimal_one n (ground arith)) (ground arith)
  | inr large ↦ elim (Bool-cases (ltb n 100)) [
    | inl middle ↦ rw (decimal_two n (ground arith) (ground arith)) (ground arith)
    | inr huge ↦ rw (decimal_three n (ground arith) high) refl
  ]
]

abbrev takes_comma : Text → Bool
takes_comma t = not (length t == 0) && length t % 3 == 0

with_comma :
    (c : ℕ) (t : Text) → takes_comma t ≡ true → group_digits (c ∷ t) ≡ c ∷ b',' ∷ group_digits t
unfolding group_digits
with_comma c t h = rw h refl

without_comma :
    (c : ℕ) (t : Text) → takes_comma t ≡ false → group_digits (c ∷ t) ≡ c ∷ group_digits t
unfolding group_digits
without_comma c t h = rw h refl

takes_comma-three :
    (t : Text) (a b d : ℕ) → length t ≢ 0 → takes_comma (t ++ a ∷ b ∷ d ∷ []) ≡ takes_comma t
takes_comma-three t a b d h =
    let long = length-append {0} t (a ∷ b ∷ d ∷ []) in rw long (ground arith)

group_digits-three :
    (xs : Text) (a b d : ℕ)
    → length xs ≢ 0
    → group_digits (xs ++ a ∷ b ∷ d ∷ []) ≡ group_digits xs ++ b',' ∷ a ∷ b ∷ d ∷ []
group_digits-three [] a b d h = absurd (h refl)
group_digits-three (c ∷ []) a b d h = unfold group_digits in refl
group_digits-three (c ∷ x ∷ xs) a b d h =
    let ih = group_digits-three (x ∷ xs) a b d (omega arith) in
    let same = takes_comma-three (x ∷ xs) a b d (omega arith) in
    elim (Bool-cases (takes_comma (x ∷ xs))) [
      | inl e ↦
          with_comma c ((x ∷ xs) ++ a ∷ b ∷ d ∷ []) (same ∙ e)
          ∙ ap (λ (t : Text). c ∷ b',' ∷ t) ih
          ∙ ap (λ (t : Text). t ++ b',' ∷ a ∷ b ∷ d ∷ []) (sym (with_comma c (x ∷ xs) e))
      | inr e ↦
          without_comma c ((x ∷ xs) ++ a ∷ b ∷ d ∷ []) (same ∙ e)
          ∙ ap (λ (t : Text). c ∷ t) ih
          ∙ ap (λ (t : Text). t ++ b',' ∷ a ∷ b ∷ d ∷ []) (sym (without_comma c (x ∷ xs) e))
    ]

small_group : (n : ℕ) → n < 1000 → group_digits (decimal n) ≡ decimal n
small_group n high = elim (Bool-cases (ltb n 10)) [
  | inl small ↦ rw (decimal_one n (ground arith)) (unfold group_digits in refl)
  | inr large ↦ elim (Bool-cases (ltb n 100)) [
    | inl middle ↦ rw (decimal_two n (ground arith) (ground arith)) (unfold group_digits in refl)
    | inr huge ↦ rw (decimal_three n (ground arith) high) (unfold group_digits in refl)
  ]
]

append_three : (t : Text) (a b d : ℕ) → ((t ++ a ∷ []) ++ b ∷ []) ++ d ∷ [] ≡ t ++ a ∷ b ∷ d ∷ []
append_three [] a b d = refl
append_three (x ∷ t) a b d = ap (λ (u : Text). x ∷ u) (append_three t a b d)

regroup :
    (n : ℕ)
    → decimal (n / 10 / 10 / 10)
        ++ (b'0' + n / 10 / 10 % 10) ∷ (b'0' + n / 10 % 10) ∷ (b'0' + n % 10) ∷ []
      ≡ decimal (n / 1000) ++ three_digits (n % 1000)
regroup n =
    let front : n / 10 / 10 / 10 ≡ n / 1000 = omega arith in
    let high : n / 10 / 10 % 10 ≡ n % 1000 / 100 = omega arith in
    let middle : n / 10 % 10 ≡ n % 1000 / 10 % 10 = omega arith in
    let low : n % 10 ≡ n % 1000 % 10 = omega arith in rw (front, high, middle, low) refl

decimal_thousand : (n : ℕ) → 1000 ≤ n → decimal n ≡ decimal (n / 1000) ++ three_digits (n % 1000)
decimal_thousand n low =
    decimal_step n (omega arith)
    ∙ ap (λ (t : Text). t ++ (b'0' + n % 10) ∷ [])
        (decimal_step (n / 10) (omega arith)
          ∙ ap (λ (t : Text). t ++ (b'0' + n / 10 % 10) ∷ [])
              (decimal_step (n / 10 / 10) (omega arith)))
    ∙ append_three (decimal (n / 10 / 10 / 10)) (b'0' + n / 10 / 10 % 10) (b'0' + n / 10 % 10)
        (b'0' + n % 10)
    ∙ regroup n

pub length-decimal : (n : ℕ) → length (decimal n) ≢ 0
length-decimal n h = elim (Bool-cases (ltb n 10)) [
  | inl small ↦ ground (arith, decimal_one n)
  | inr large ↦
      let long = length-append {0} (decimal (n / 10)) ((b'0' + n % 10) ∷ []) in
      let cut = ap (length {0}) (decimal_step n (ground arith)) in omega arith
]

locale-group_digits : (f n : ℕ) → n < f → locale f n ≡ group_digits (decimal n)
locale-group_digits zero n h = absurd (omega arith)
locale-group_digits (suc f) n h = elim (Bool-cases (ltb n 1000)) [
  | inl small ↦ rw small (sym (small_group n (ground arith)))
  | inr large ↦
      let low : 1000 ≤ n = ground arith in
      let ih = locale-group_digits f (n / 1000) (omega arith) in
      rw (large, ih, pad_start-three (n % 1000) (omega arith), decimal_thousand n low)
        (sym (group_digits-three (decimal (n / 1000)) _ _ _ (length-decimal (n / 1000))))
]

-- A whole number in groups of a thousand is the text of its digits with a comma before each three.
pub to_locale_string-group_digits : (n : ℕ) → to_locale_string n ≡ group_digits (decimal n)
unfolding to_locale_string
to_locale_string-group_digits n = locale-group_digits (suc n) n (omega arith)

-- The web client and the API write every amount of the currency BDT alike.
pub format_bdt-format_minor_units :
    (amount : ℤ) → format_bdt amount ≡ format_minor_units amount "BDT"
unfolding format_bdt format_minor_units
format_bdt-format_minor_units (pos n) = rw (to_locale_string-group_digits (n / 100)) refl
format_bdt-format_minor_units (negsuc n) = rw (to_locale_string-group_digits (suc n / 100)) refl
