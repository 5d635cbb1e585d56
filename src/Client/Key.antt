-- ===== src/Client/Key.antt =====
-- The keys that the client makes (newIdempotencyKey of apps/web/lib/api-client.ts), and the check that
-- the server makes of them.
use pstu_final.Base.{
  ℕ, zero, suc, ◌+◌, ◌-◌, ◌/◌, ◌%◌, ◌<◌, true, List, [], ◌∷◌, ltb, if◌then◌else◌, ◌≡◌, refl, arith,
  All,
}
use pstu_final.Base.Text.{Text, is_hex_digit, matches_uuid_pattern}
use pstu_final.Base.Text.Uuid.{hyphened, groups-match}
use pstu_final.Pagination.Keyset.{take}

-- A digit of `toString(16)`.
abbrev key_digit : ℕ → ℕ
key_digit n = if ltb n 10 then b'0' + n else b'a' + n - 10

-- byte.toString(16).padStart(2, '0')
abbrev hex_byte : ℕ → Text → Text
hex_byte byte later = key_digit (byte / 16) ∷ key_digit (byte % 16) ∷ later

-- Array.from(bytes, …).join('')
unfoldable pub hex_text : List ℕ → Text
hex_text [] = []
hex_text (byte ∷ bytes) = hex_byte byte (hex_text bytes)

abbrev from_place : ℕ → Text → Text
from_place zero t = t
from_place (suc n) [] = []
from_place (suc n) (c ∷ t) = from_place n t

-- slice(start, end)
abbrev slice : ℕ → ℕ → Text → Text
slice start end t = take (end - start) (from_place start t)

-- Sixteen random bytes by their places, with the version (& 0x0f | 0x40) and the variant
-- (& 0x3f | 0x80) put in.
unfoldable pub key_bytes : (ℕ → ℕ) → List ℕ
key_bytes random =
    random 0
    ∷ random 1
    ∷ random 2
    ∷ random 3
    ∷ random 4
    ∷ random 5
    ∷ (random 6 % 16 + 0x40)
    ∷ random 7
    ∷ (random 8 % 64 + 0x80)
    ∷ random 9
    ∷ random 10
    ∷ random 11
    ∷ random 12
    ∷ random 13
    ∷ random 14
    ∷ random 15
    ∷ []

-- The key that is made where there is no crypto.randomUUID.
unfoldable pub new_idempotency_key : (ℕ → ℕ) → Text
unfolding key_bytes hex_text
new_idempotency_key random =
    let hex = hex_text (key_bytes random) in
    hyphened (slice 0 8 hex) (
      hyphened (slice 8 12 hex)
        (hyphened (slice 12 16 hex) (hyphened (slice 16 20 hex) (from_place 20 hex))))

abbrev IsHex : ℕ → Type 0
IsHex c = is_hex_digit c ≡ true

key_digit-IsHex : (n : ℕ) → n < 16 → IsHex (key_digit n)
key_digit-IsHex n small = ground arith

hex_text-IsHex : (bytes : List ℕ) → All (λ b. b < 256) bytes → All IsHex (hex_text bytes)
unfolding hex_text
hex_text-IsHex [] small = tt
hex_text-IsHex (byte ∷ bytes) small =
    let below : byte < 256 = small.0 in
    (
      key_digit-IsHex (byte / 16) (omega arith),
      (key_digit-IsHex (byte % 16) (omega arith), hex_text-IsHex bytes small.1),
    )

take-IsHex : (n : ℕ) (t : Text) → All IsHex t → All IsHex (take n t)
take-IsHex zero t all = tt
take-IsHex (suc n) [] all = tt
take-IsHex (suc n) (c ∷ t) all = (all.0, take-IsHex n t all.1)

from_place-IsHex : (n : ℕ) (t : Text) → All IsHex t → All IsHex (from_place n t)
from_place-IsHex zero t all = all
from_place-IsHex (suc n) [] all = tt
from_place-IsHex (suc n) (c ∷ t) all = from_place-IsHex n t all.1

slice-IsHex : (start end : ℕ) (t : Text) → All IsHex t → All IsHex (slice start end t)
slice-IsHex start end t all =
    take-IsHex (end - start) (from_place start t) (from_place-IsHex start t all)

key_bytes-small :
    (random : ℕ → ℕ) → ((i : ℕ) → random i < 256) → All (λ b. b < 256) (key_bytes random)
unfolding key_bytes
key_bytes-small random small = (
  small 0,
  (
    small 1,
    (
      small 2,
      (
        small 3,
        (
          small 4,
          (
            small 5,
            (
              omega arith,
              (
                small 7,
                (
                  omega arith,
                  (
                    small 9,
                    (small 10, (small 11, (small 12, (small 13, (small 14, (small 15, tt)))))),
                  ),
                ),
              ),
            ),
          ),
        ),
      ),
    ),
  ),
)

-- A key that the client makes itself has the form that the routes of the server ask of an
-- Idempotency-Key, whichever bytes the random source gives.
pub matches_uuid_pattern-new_idempotency_key :
    (random : ℕ → ℕ)
    → ((i : ℕ) → random i < 256)
    → matches_uuid_pattern (new_idempotency_key random) ≡ true
unfolding new_idempotency_key key_bytes hex_text
matches_uuid_pattern-new_idempotency_key random small =
    let hex = hex_text (key_bytes random) in
    let all = hex_text-IsHex (key_bytes random) (key_bytes-small random small) in
    groups-match (slice 0 8 hex) (slice 8 12 hex) (slice 12 16 hex) (slice 16 20 hex)
      (from_place 20 hex) (slice-IsHex 0 8 hex all) (slice-IsHex 8 12 hex all)
      (slice-IsHex 12 16 hex all) (slice-IsHex 16 20 hex all) (from_place-IsHex 20 hex all) refl
      refl refl refl refl
