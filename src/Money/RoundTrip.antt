-- ===== src/Money/RoundTrip.antt =====
-- An amount that the client writes is read back as the amount.
use pstu_final.Base.{
  ℕ, ◌+◌, ◌*◌, ◌/◌, ◌%◌, ◌<◌, ◌≤◌, Bool-cases, true, false, inl, inr, ◌&&◌, not, [], ◌∷◌, ◌++◌,
  length, length-append, ◌==◌, ◌≡◌, ◌≢◌, refl, ap, ◌∙◌, arith, All, All-append,
}
use pstu_final.Base.Int.{pos}
use pstu_final.Base.Text.{Text, decimal, read_digits, read_digits-decimal}
use pstu_final.Base.Text.Decimal.{IsDigit, decimal-IsDigit}
use pstu_final.Money.Format.{group_digits, format_minor_amount}
use pstu_final.Money.Grouping.{
  two_digits, pad_start-two, to_locale_string-group_digits, length-decimal,
}
use pstu_final.Money.Parse.{
  check_amount, is_space, trim_start, trim_end, strip_commas, matches_amount, before_dot, after_dot,
  parse_cleaned, parse_bdt_to_minor, parsed, max_amount_minor,
}

abbrev IsInk : ℕ → Type 0
IsInk c = is_space c ≡ false

trim_start-IsInk : (t : Text) → All IsInk t → trim_start t ≡ t
unfolding trim_start
trim_start-IsInk [] h = refl
trim_start-IsInk (c ∷ t) h = rw (h.0) refl

trim_end-IsInk : (t : Text) → All IsInk t → trim_end t ≡ t
unfolding trim_end
trim_end-IsInk [] h = refl
trim_end-IsInk (c ∷ t) h = rw (h.0, trim_end-IsInk t h.1) refl

group_digits-IsInk : (t : Text) → All IsDigit t → All IsInk (group_digits t)
unfolding group_digits
group_digits-IsInk [] h = tt
group_digits-IsInk (c ∷ t) h =
    let ink : IsInk c = let digit = h.0 in ground arith in
    let rest = group_digits-IsInk t h.1 in
    elim (Bool-cases (not (length t == 0) && length t % 3 == 0)) [
      | inl e ↦ rw e (ink, (refl, rest))
      | inr e ↦ rw e (ink, rest)
    ]

strip_commas-append : (xs ys : Text) → strip_commas (xs ++ ys) ≡ strip_commas xs ++ strip_commas ys
unfolding strip_commas
strip_commas-append [] ys = refl
strip_commas-append (x ∷ xs) ys = ground (arith, strip_commas-append xs ys)

strip_commas-group_digits : (t : Text) → All IsDigit t → strip_commas (group_digits t) ≡ t
unfolding group_digits strip_commas
strip_commas-group_digits [] h = refl
strip_commas-group_digits (c ∷ t) h =
    let plain : (c == b',') ≡ false = let digit = h.0 in ground arith in
    let rest = strip_commas-group_digits t h.1 in
    elim (Bool-cases (not (length t == 0) && length t % 3 == 0)) [
      | inl e ↦ rw (e, plain, rest) refl
      | inr e ↦ rw (e, plain, rest) refl
    ]

module _ (a b : ℕ) (da : IsDigit a) (db : IsDigit b) where
  matches_amount-digits :
      (t : Text) → All IsDigit t → matches_amount (t ++ b'.' ∷ a ∷ b ∷ []) ≡ true
  unfolding matches_amount
  matches_amount-digits [] h = ground arith
  matches_amount-digits (c ∷ t) h = rw (h.0) (matches_amount-digits t h.1)

  before_dot-digits : (t : Text) → All IsDigit t → before_dot (t ++ b'.' ∷ a ∷ b ∷ []) ≡ t
  unfolding before_dot
  before_dot-digits [] h = refl
  before_dot-digits (c ∷ t) h =
      let plain : (c == b'.') ≡ false = let digit = h.0 in ground arith in
      rw (plain, before_dot-digits t h.1) refl

  after_dot-digits : (t : Text) → All IsDigit t → after_dot (t ++ b'.' ∷ a ∷ b ∷ []) ≡ a ∷ b ∷ []
  unfolding after_dot before_dot
  after_dot-digits [] h = ground arith
  after_dot-digits (c ∷ t) h =
      let plain : (c == b'.') ≡ false = let digit = h.0 in ground arith in
      rw plain (after_dot-digits t h.1)

  length_cleaned : (t : Text) → (length (t ++ b'.' ∷ a ∷ b ∷ []) == 0) ≡ false
  length_cleaned t = let long = length-append {0} t (b'.' ∷ a ∷ b ∷ []) in ground arith

  parse_cleaned-digits :
      (t : Text)
      → All IsDigit t
      → length t ≢ 0
      → parse_cleaned (t ++ b'.' ∷ a ∷ b ∷ [])
        ≡ check_amount (read_digits 0 t * 100 + read_digits 0 (a ∷ b ∷ []))
  unfolding parse_cleaned
  parse_cleaned-digits t h long =
      let major : (length t == 0) ≡ false = ground arith in
      rw
        (
          length_cleaned t,
          matches_amount-digits t h,
          before_dot-digits t h,
          after_dot-digits t h,
          major,
        )
        refl

cleaned :
    (t : Text) (a b : ℕ)
    → All IsDigit t
    → IsDigit a
    → IsDigit b
    → parse_bdt_to_minor (group_digits t ++ b'.' ∷ a ∷ b ∷ [])
      ≡ parse_cleaned (t ++ b'.' ∷ a ∷ b ∷ [])
unfolding parse_bdt_to_minor
cleaned t a b h da db =
    let tail : All IsInk (b'.' ∷ a ∷ b ∷ []) = ground arith in
    let ink = All-append IsInk (group_digits t) (b'.' ∷ a ∷ b ∷ []) (group_digits-IsInk t h) tail in
    let start = trim_start-IsInk (group_digits t ++ b'.' ∷ a ∷ b ∷ []) ink in
    let end = trim_end-IsInk (group_digits t ++ b'.' ∷ a ∷ b ∷ []) ink in
    let plain : strip_commas (b'.' ∷ a ∷ b ∷ []) ≡ b'.' ∷ a ∷ b ∷ [] =
      unfold strip_commas in ground arith in
    rw
      (
        start,
        end,
        strip_commas-append (group_digits t) (b'.' ∷ a ∷ b ∷ []),
        strip_commas-group_digits t h,
        plain,
      )
      refl

written :
    (n : ℕ)
    → format_minor_amount (pos n) ≡ group_digits (decimal (n / 100)) ++ b'.' ∷ two_digits (n % 100)
unfolding format_minor_amount
written n = rw (to_locale_string-group_digits (n / 100), pad_start-two (n % 100) (omega arith)) refl

check_amount-parsed : (n : ℕ) → 0 < n → n ≤ max_amount_minor → check_amount n ≡ parsed n
check_amount-parsed n low high = ground arith

-- What the client writes for an amount from 1 to the largest allowed, with its commas and its two
-- decimals, it reads back as that amount.
pub parse_bdt_to_minor-format_minor_amount :
    (n : ℕ)
    → 0 < n
    → n ≤ max_amount_minor
    → parse_bdt_to_minor (format_minor_amount (pos n)) ≡ parsed n
parse_bdt_to_minor-format_minor_amount n low high =
    let value : read_digits 0 (decimal (n / 100)) * 100 + read_digits 0 (two_digits (n % 100)) ≡ n =
      omega (arith, read_digits-decimal (n / 100)) in
    ap parse_bdt_to_minor (written n)
    ∙ cleaned (decimal (n / 100)) (b'0' + n % 100 / 10) (b'0' + n % 100 % 10)
        (decimal-IsDigit (n / 100)) (ground arith) (ground arith)
    ∙ parse_cleaned-digits (b'0' + n % 100 / 10) (b'0' + n % 100 % 10) (ground arith) (ground arith)
        (decimal (n / 100)) (decimal-IsDigit (n / 100)) (length-decimal (n / 100))
    ∙ ap check_amount value
    ∙ check_amount-parsed n low high
