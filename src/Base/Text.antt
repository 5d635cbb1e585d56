-- ===== src/Base/Text.antt =====
-- Texts as lists of code points, their order, and the decimal text of a number.
pub mod Decimal
pub mod Uuid
use Prim.Native.Char.{code}
use Prim.Native.Nat.{ℕ, zero, suc, ◌+◌, ◌-◌, ◌*◌, ◌/◌, ◌%◌, ◌<◌}
use Prim.Native.String.{String}
use mathlib.Core.Path.{◌≡◌, refl, ap, ◌∙◌}
use mathlib.Core.Logic.{◌≢◌, inl, inr}
use mathlib.Core.Bool.{Bool, true, false, ◌&&◌, ◌||◌}
use mathlib.Core.List.{List, [], ◌∷◌}
use native.Mathlib.Omega.{arith}
use pstu_final.Base.Tests.{ltb, leb, ◌==◌, Bool-cases, if◌then◌else◌}
use pstu_final.Base.Int.{ℤ, pos, negsuc}

abbrev pub Text : Type 0
Text = List ℕ

abbrev pub codes : String → Text
codes String.[] = []
codes (String.◌∷◌ c s) = code c ∷ codes s

-- UUID_PATTERN: /^[0-9a-f]{8}-[0-9a-f]{4}-[0-9a-f]{4}-[0-9a-f]{4}-[0-9a-f]{12}$/i
abbrev pub is_hex_digit : ℕ → Bool
is_hex_digit c =
    (leb b'0' c && leb c b'9') || (leb b'a' c && leb c b'f') || (leb b'A' c && leb c b'F')

unfoldable pub hex_then : ℕ → (Text → Bool) → Text → Bool
hex_then zero rest t = rest t
hex_then (suc n) rest [] = false
hex_then (suc n) rest (c ∷ t) = is_hex_digit c && hex_then n rest t

unfoldable pub dash_then : (Text → Bool) → Text → Bool
dash_then rest [] = false
dash_then rest (c ∷ t) = c == b'-' && rest t

unfoldable pub at_end : Text → Bool
at_end [] = true
at_end (c ∷ t) = false

unfoldable pub matches_uuid_pattern : Text → Bool
unfolding hex_then dash_then at_end
matches_uuid_pattern = hex_then 8 (
    dash_then (
      hex_then 4
        (dash_then (hex_then 4 (dash_then (hex_then 4 (dash_then (hex_then 12 at_end))))))))

-- The order of `Array.prototype.sort` on texts.
unfoldable pub text_lt : Text → Text → Bool
text_lt [] [] = false
text_lt [] (b ∷ ys) = true
text_lt (a ∷ xs) [] = false
text_lt (a ∷ xs) (b ∷ ys) = ltb a b || (a == b && text_lt xs ys)

pub text_lt_asymm : (a b : Text) → text_lt a b ≡ true → text_lt b a ≡ false
unfolding text_lt
text_lt_asymm [] [] h = cc
text_lt_asymm [] (b ∷ ys) h = refl
text_lt_asymm (a ∷ xs) [] h = cc
text_lt_asymm (a ∷ xs) (b ∷ ys) h = ground (arith, text_lt_asymm xs ys)

pub text_lt_trans : (a b c : Text) → text_lt a b ≡ true → text_lt b c ≡ true → text_lt a c ≡ true
unfolding text_lt
text_lt_trans [] [] c h k = cc
text_lt_trans [] (b ∷ ys) [] h k = cc
text_lt_trans [] (b ∷ ys) (c ∷ zs) h k = refl
text_lt_trans (a ∷ xs) [] c h k = cc
text_lt_trans (a ∷ xs) (b ∷ ys) [] h k = cc
text_lt_trans (a ∷ xs) (b ∷ ys) (c ∷ zs) h k = ground (arith, text_lt_trans xs ys zs)

pub text_lt_total : (a b : Text) → a ≢ b → text_lt a b ≡ false → text_lt b a ≡ true
unfolding text_lt
text_lt_total [] [] ne h = absurd (ne refl)
text_lt_total [] (b ∷ ys) ne h = cc
text_lt_total (a ∷ xs) [] ne h = refl
text_lt_total (a ∷ xs) (b ∷ ys) ne h = ground (arith, text_lt_total xs ys)

-- `n.toString()`, on fuel: the digits before those that stand already. A number is below its own
-- successor, which is fuel enough.
digits : ℕ → ℕ → Text → Text
digits zero n later = later
digits (suc fuel) n later =
    let digit = b'0' + n % 10 in
    let rest = digits fuel (n / 10) (digit ∷ later) in if n / 10 == 0 then digit ∷ later else rest

unfoldable pub decimal : ℕ → Text
unfolding digits
decimal n = digits (suc n) n []

unfoldable pub decimal_ℤ : ℤ → Text
unfolding decimal
decimal_ℤ (pos n) = decimal n
decimal_ℤ (negsuc n) = b'-' ∷ decimal (suc n)

-- The number that a text of digits is read as, after what has been read already.
abbrev pub read_digits : ℕ → Text → ℕ
read_digits value [] = value
read_digits value (c ∷ zs) = read_digits (value * 10 + (c - b'0')) zs

digits-read :
    (fuel n : ℕ) (later : Text)
    → n < fuel
    → read_digits 0 (digits fuel n later) ≡ read_digits n later
unfolding digits
digits-read zero n later h = absurd (omega arith)
digits-read (suc fuel) n later h = elim (Bool-cases (n / 10 == 0)) [
  | inl done ↦ rw done (ap (λ (v : ℕ). read_digits v later) (ground arith))
  | inr more ↦ rw more (
      digits-read fuel (n / 10) ((b'0' + n % 10) ∷ later) (ground arith)
      ∙ ap (λ (v : ℕ). read_digits v later) (omega arith))
]

-- The decimal text of a number is read back as the number.
pub read_digits-decimal : (n : ℕ) → read_digits 0 (decimal n) ≡ n
unfolding decimal
read_digits-decimal n = digits-read (suc n) n [] (omega arith)
