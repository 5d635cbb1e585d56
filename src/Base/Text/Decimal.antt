-- ===== src/Base/Text/Decimal.antt =====
-- The digits of a decimal text.
use Prim.Native.Nat.{ℕ, zero, suc, ◌+◌, ◌/◌, ◌%◌, ◌<◌, ◌≤◌}
use mathlib.Core.Path.{◌≡◌, refl, ap, sym, ◌∙◌}
use mathlib.Core.Logic.{inl, inr}
use mathlib.Core.Bool.{true, false, ◌&&◌}
use mathlib.Core.List.{[], ◌∷◌, ◌++◌, append_assoc}
use native.Mathlib.Omega.{arith}
use pstu_final.Base.Tests.{leb, ◌==◌, Bool-cases}
use pstu_final.Base.Lists.{All}
use pstu_final.Base.Text.{Text, digits, decimal}

abbrev pub IsDigit : ℕ → Type 0
IsDigit c = (leb b'0' c && leb c b'9') ≡ true

digits_fuel : (f g n : ℕ) (later : Text) → n < f → n < g → digits f n later ≡ digits g n later
unfolding digits
digits_fuel zero g n later hf hg = absurd (omega arith)
digits_fuel (suc f) zero n later hf hg = absurd (omega arith)
digits_fuel (suc f) (suc g) n later hf hg = elim (Bool-cases (n / 10 == 0)) [
  | inl done ↦ rw done refl
  | inr more ↦ rw more (digits_fuel f g (n / 10) _ (ground arith) (ground arith))
]

digits_later : (f n : ℕ) (later : Text) → n < f → digits f n later ≡ digits f n [] ++ later
unfolding digits
digits_later zero n later h = absurd (omega arith)
digits_later (suc f) n later h = elim (Bool-cases (n / 10 == 0)) [
  | inl done ↦ rw done refl
  | inr more ↦ rw more (
      let d : ℕ = b'0' + n % 10 in
      digits_later f (n / 10) (d ∷ later) (ground arith)
      ∙ sym (append_assoc (digits f (n / 10) []) (d ∷ []) later)
      ∙ ap (λ (t : Text). t ++ later) (sym (digits_later f (n / 10) (d ∷ []) (ground arith))))
]

pub decimal_one : (n : ℕ) → n < 10 → decimal n ≡ (b'0' + n) ∷ []
unfolding decimal
decimal_one n h = ground arith

-- The last digit of a number stands behind the digits of its tenth part.
pub decimal_step : (n : ℕ) → 10 ≤ n → decimal n ≡ decimal (n / 10) ++ (b'0' + n % 10) ∷ []
unfolding decimal
decimal_step n h =
    let more : (n / 10 == 0) ≡ false = ground arith in
    rw more (
      digits_later n (n / 10) ((b'0' + n % 10) ∷ []) (omega arith)
      ∙ ap (λ (t : Text). t ++ (b'0' + n % 10) ∷ [])
          (digits_fuel n (suc (n / 10)) (n / 10) [] (omega arith) (omega arith)))

digits-IsDigit : (f n : ℕ) (later : Text) → All IsDigit later → All IsDigit (digits f n later)
unfolding digits
digits-IsDigit zero n later h = h
digits-IsDigit (suc f) n later h =
    let digit : IsDigit (b'0' + n % 10) = ground arith in
    elim (Bool-cases (n / 10 == 0)) [
      | inl done ↦ rw done (digit, h)
      | inr more ↦ rw more (digits-IsDigit f (n / 10) _ (digit, h))
    ]

pub decimal-IsDigit : (n : ℕ) → All IsDigit (decimal n)
unfolding decimal
decimal-IsDigit n = digits-IsDigit (suc n) n [] tt
