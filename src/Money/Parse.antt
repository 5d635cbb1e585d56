-- ===== src/Money/Parse.antt =====
-- What a user typed, read as an amount: parseBdtToMinor of apps/web/lib/money.ts. `Number` rounds a
-- number from 2^53 on, but never to one below 2^53, so that `isSafeInteger` answers as on the exact
-- one; whole numbers are exact here.
use pstu_final.Base.{
  ℕ, ◌+◌, ◌-◌, ◌*◌, ◌^◌, String, Bool, true, false, ◌&&◌, ◌||◌, not, [], ◌∷◌, length, ◌==◌, leb,
  ltb, if◌then◌else◌, ◌≡◌, refl,
}
use pstu_final.Base.Text.{codes, Text, codes, read_digits}

pub data AmountParseResult : Type 0 where
  parsed : ℕ → AmountParseResult
  refused : String → AmountParseResult

abbrev pub max_amount_minor : ℕ
max_amount_minor = 1_000_000_000_000

-- Number.MAX_SAFE_INTEGER
abbrev max_safe_integer : ℕ
max_safe_integer = 2 ^ 53 - 1

-- The code points that `String.prototype.trim` takes away.
abbrev pub is_space : ℕ → Bool
is_space c =
    (leb 9 c && leb c 13)
    || c == 32
    || c == 0xa0
    || c == 0x1680
    || (leb 0x2000 c && leb c 0x200a)
    || c == 0x2028
    || c == 0x2029
    || c == 0x202f
    || c == 0x205f
    || c == 0x3000
    || c == 0xfeff

unfoldable pub trim_start : Text → Text
trim_start [] = []
trim_start (c ∷ t) = if is_space c then trim_start t else c ∷ t

-- Trailing space is what is left of a text when nothing but space follows.
unfoldable pub trim_end : Text → Text
trim_end [] = []
trim_end (c ∷ t) = let rest = trim_end t in if is_space c && length rest == 0 then [] else c ∷ rest

-- replace(/,/g, '')
unfoldable pub strip_commas : Text → Text
strip_commas [] = []
strip_commas (c ∷ t) = if c == b',' then strip_commas t else c ∷ strip_commas t

abbrev pub is_digit : ℕ → Bool
is_digit c = leb b'0' c && leb c b'9'

abbrev two_at_most : Text → Bool
two_at_most [] = true
two_at_most (a ∷ []) = is_digit a
two_at_most (a ∷ b ∷ []) = is_digit a && is_digit b
two_at_most (a ∷ b ∷ c ∷ t) = false

-- /^\d*(\.\d{0,2})?$/
unfoldable pub matches_amount : Text → Bool
matches_amount [] = true
matches_amount (c ∷ t) = if is_digit c then matches_amount t else c == b'.' && two_at_most t

-- The first two parts of `split('.')`, the empty text where a part is missing.
unfoldable pub before_dot : Text → Text
before_dot [] = []
before_dot (c ∷ t) = if c == b'.' then [] else c ∷ before_dot t

unfoldable pub after_dot : Text → Text
unfolding before_dot
after_dot [] = []
after_dot (c ∷ t) = if c == b'.' then before_dot t else after_dot t

-- padEnd(2, '0')
abbrev pad_end_two : Text → Text
pad_end_two [] = b'0' ∷ b'0' ∷ []
pad_end_two (a ∷ []) = a ∷ b'0' ∷ []
pad_end_two (a ∷ b ∷ t) = a ∷ b ∷ t

abbrev pub check_amount : ℕ → AmountParseResult
check_amount amount =
    if ltb max_safe_integer amount
    then refused "That amount is too large."
    else if leb amount 0
    then refused "Amount must be greater than zero."
    else if ltb max_amount_minor amount
    then refused "That amount exceeds the maximum allowed."
    else parsed amount

unfoldable pub parse_cleaned : Text → AmountParseResult
unfolding matches_amount before_dot after_dot
parse_cleaned cleaned =
    let major_part = before_dot cleaned in
    let minor_part = after_dot cleaned in
    if length cleaned == 0
    then refused "Enter an amount."
    else if not (matches_amount cleaned)
    then refused "Enter a valid amount, up to 2 decimal places."
    else if length major_part == 0 && length minor_part == 0
    then refused "Enter an amount."
    else check_amount (read_digits 0 major_part * 100 + read_digits 0 (pad_end_two minor_part))

unfoldable pub parse_bdt_to_minor : Text → AmountParseResult
unfolding parse_cleaned strip_commas trim_start trim_end
parse_bdt_to_minor raw = parse_cleaned (strip_commas (trim_end (trim_start raw)))

parses : parse_bdt_to_minor (codes " 2,500.7 ") ≡ parsed 250_070
unfolding parse_bdt_to_minor
parses = refl

parses_no_digit : parse_bdt_to_minor (codes ".") ≡ refused "Enter an amount."
unfolding parse_bdt_to_minor
parses_no_digit = refl
