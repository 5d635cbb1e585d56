-- ===== src/Users/Mask.antt =====
-- What a masked email keeps of the address.
use pstu_final.Base.{ℕ, false, some, [], ◌∷◌, ◌++◌, ◌≡◌, refl, ◌==◌, All}
use pstu_final.Base.Text.{Text}
use pstu_final.Users.{from_at, mask_email}

-- No character of the text is an @.
abbrev IsLocal : Text → Type 0
IsLocal = All (λ c. (c == b'@') ≡ false)

from_at-local :
    (local domain : Text)
    → IsLocal local
    → from_at (local ++ (b'@' ∷ domain)) ≡ some (b'@' ∷ domain)
unfolding from_at
from_at-local [] domain all = refl
from_at-local (c ∷ local) domain all = rw (all.0, from_at-local local domain all.1) refl

-- Of the part before the @ a masked email tells the first character and nothing more: two addresses
-- with the same first character and domain are masked alike, however long they are.
mask_email_hides :
    (first : ℕ) (rest other domain : Text)
    → (first == b'@') ≡ false
    → IsLocal rest
    → IsLocal other
    → mask_email (first ∷ (rest ++ (b'@' ∷ domain)))
      ≡ mask_email (first ∷ (other ++ (b'@' ∷ domain)))
unfolding mask_email
mask_email_hides first rest other domain letter hr ho =
    rw (letter, from_at-local rest domain hr, from_at-local other domain ho) refl
