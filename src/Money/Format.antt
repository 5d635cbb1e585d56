-- ===== src/Money/Format.antt =====
-- The texts of an amount. A `number` of the web client is an integer here, which it is where it is
-- safe; there `Math.trunc(n / 100)` is the exact quotient, since a double below 2^47 lies nearer to
-- n / 100 than the next whole number does.
use pstu_final.Base.{
  ◌≡◌, refl, ℕ, zero, suc, ◌-◌, ◌/◌, ◌%◌, String, ◌&&◌, not, [], ◌∷◌, ◌++◌, length, str_eq, ◌==◌,
  ltb, if◌then◌else◌,
}
use pstu_final.Base.Int.{ℤ, pos, negsuc}
use pstu_final.Base.Text.{Text, codes, decimal}

abbrev minor_per_major : ℕ
minor_per_major = 100

-- `padStart` and the repetition that it stands on.
abbrev repeat : ℕ → ℕ → Text
repeat zero c = []
repeat (suc n) c = c ∷ repeat n c

unfoldable pub pad_start : ℕ → ℕ → Text → Text
pad_start n c t = repeat (n - length t) c ++ t

-- replace(/\B(?=(\d{3})+(?!\d))/g, ',') on a text of digits: a comma between two digits wherever the
-- number of those that follow is a multiple of three.
unfoldable pub group_digits : Text → Text
group_digits [] = []
group_digits (c ∷ t) =
    let rest = group_digits t in
    if not (length t == 0) && length t % 3 == 0 then c ∷ b',' ∷ rest else c ∷ rest

-- toLocaleString('en-US') on a whole number, in groups of a thousand, on fuel.
abbrev pub locale : ℕ → ℕ → Text
locale zero n = []
locale (suc fuel) n =
    let front = locale fuel (n / 1000) in
    if ltb n 1000 then decimal n else front ++ b',' ∷ pad_start 3 b'0' (decimal (n % 1000))

-- A number is below its own successor, which is fuel enough.
unfoldable pub to_locale_string : ℕ → Text
to_locale_string n = locale (suc n) n

abbrev abs : ℤ → ℕ
abs (pos n) = n
abs (negsuc n) = suc n

abbrev sign : ℤ → Text
sign (pos n) = []
sign (negsuc n) = b'-' ∷ []

unfoldable pub format_minor_amount : ℤ → Text
unfolding pad_start to_locale_string
format_minor_amount amount =
    let major = abs amount / minor_per_major in
    let minor = abs amount % minor_per_major in
    sign amount ++ to_locale_string major ++ b'.' ∷ pad_start 2 b'0' (decimal minor)

unfoldable pub format_bdt : ℤ → Text
unfolding format_minor_amount
format_bdt amount = sign amount ++ codes "৳" ++ format_minor_amount (pos (abs amount))

pub data Direction : Type 0 where
  incoming outgoing : Direction

abbrev direction_sign : Direction → Text
direction_sign Direction.incoming = b'+' ∷ []
direction_sign Direction.outgoing = b'-' ∷ []

unfoldable pub format_signed_bdt : ℤ → Direction → Text
unfolding format_minor_amount
format_signed_bdt amount direction =
    direction_sign direction ++ codes "৳" ++ format_minor_amount (pos (abs amount))

abbrev symbol : String → Text
symbol currency = if str_eq currency "BDT" then codes "৳" else codes currency ++ b' ' ∷ []

-- formatMinorUnits of the API, on bigint.
unfoldable pub format_minor_units : ℤ → String → Text
unfolding group_digits pad_start
format_minor_units amount currency =
    let major = abs amount / minor_per_major in
    let minor = abs amount % minor_per_major in
    sign amount
    ++ symbol currency
    ++ group_digits (decimal major)
    ++ b'.' ∷ pad_start 2 b'0' (decimal minor)

formats : format_minor_amount (pos 123_456_705) ≡ codes "1,234,567.05"
unfolding format_minor_amount decimal
formats = refl

formats_alike : format_minor_units (negsuc 123_456_704) "BDT" ≡ codes "-৳1,234,567.05"
unfolding format_minor_units decimal
formats_alike = refl
