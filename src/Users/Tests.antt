-- ===== src/Users/Tests.antt =====
-- Two addresses.
use pstu_final.Base.{◌≡◌, refl}
use pstu_final.Base.Text.{codes}
use pstu_final.Users.{from_at, mask_email}

masks : mask_email (codes "nabila@example.com") ≡ codes "n***@example.com"
unfolding mask_email from_at
masks = refl

keeps : mask_email (codes "@example.com") ≡ codes "@example.com"
unfolding mask_email from_at
keeps = refl
