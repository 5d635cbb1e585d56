-- ===== src/Base/Text/Uuid.antt =====
-- The characters of a text that the UUID pattern lets through.
use Prim.Native.Nat.{ℕ, zero, suc}
use mathlib.Core.Path.{◌≡◌, refl, ap, sym, ◌∙◌}
use mathlib.Core.Bool.{Bool, true, false, ◌||◌}
use mathlib.Core.List.{[], ◌∷◌, ◌++◌}
use native.Mathlib.Omega.{arith}
use pstu_final.Base.Tests.{◌==◌}
use pstu_final.Base.Lists.{length, All}
use pstu_final.Base.Text.{Text, is_hex_digit, hex_then, dash_then, at_end, matches_uuid_pattern}

-- A hexadecimal digit or a dash.
abbrev pub IsUuidChar : ℕ → Type 0
IsUuidChar c = (is_hex_digit c || c == b'-') ≡ true

-- No character of the text is the given one.
abbrev pub Lacks : ℕ → Text → Type 0
Lacks c = All (λ x. (x == c) ≡ false)

hex_then-IsUuidChar :
    (n : ℕ) (rest : Text → Bool)
    → ((t : Text) → rest t ≡ true → All IsUuidChar t)
    → (t : Text) → hex_then n rest t ≡ true
    → All IsUuidChar t
unfolding hex_then
hex_then-IsUuidChar zero rest chars t h = chars t h
hex_then-IsUuidChar (suc n) rest chars [] h = tt
hex_then-IsUuidChar (suc n) rest chars (c ∷ t) h =
    (ground arith, hex_then-IsUuidChar n rest chars t (ground arith))

dash_then-IsUuidChar :
    (rest : Text → Bool)
    → ((t : Text) → rest t ≡ true → All IsUuidChar t)
    → (t : Text) → dash_then rest t ≡ true
    → All IsUuidChar t
unfolding dash_then
dash_then-IsUuidChar rest chars [] h = tt
dash_then-IsUuidChar rest chars (c ∷ t) h = (ground arith, chars t (ground arith))

at_end-IsUuidChar : (t : Text) → at_end t ≡ true → All IsUuidChar t
unfolding at_end
at_end-IsUuidChar [] h = tt
at_end-IsUuidChar (c ∷ t) h = ground arith

pub matches_uuid_pattern-IsUuidChar : (t : Text) → matches_uuid_pattern t ≡ true → All IsUuidChar t
unfolding matches_uuid_pattern
matches_uuid_pattern-IsUuidChar = hex_then-IsUuidChar 8 _ (
    dash_then-IsUuidChar _ (
      hex_then-IsUuidChar 4 _ (
        dash_then-IsUuidChar _ (
          hex_then-IsUuidChar 4 _ (
            dash_then-IsUuidChar _ (
              hex_then-IsUuidChar 4 _
                (dash_then-IsUuidChar _ (hex_then-IsUuidChar 12 _ at_end-IsUuidChar))))))))

pub All-map {κ ι} :
    (P : ℕ → Type κ) (Q : ℕ → Type ι) (t : Text) → ((c : ℕ) → P c → Q c) → All P t → All Q t
All-map P Q [] implied all = tt
All-map P Q (c ∷ t) implied all = (implied c all.0, All-map P Q t implied all.1)

pub matches_uuid_pattern-Lacks : (t : Text) → matches_uuid_pattern t ≡ true → Lacks b'|' t
matches_uuid_pattern-Lacks t h =
    All-map IsUuidChar (λ x. (x == b'|') ≡ false) t (λ c hex. ground arith)
      (matches_uuid_pattern-IsUuidChar t h)

-- Two groups with a dash between them.
abbrev pub hyphened : Text → Text → Text
hyphened front t = front ++ (b'-' ∷ t)

-- So many hexadecimal digits in front of a text that matches the rest.
pub hex_then-pass :
    (front : Text) (rest : Text → Bool) (t : Text)
    → All (λ c. is_hex_digit c ≡ true) front
    → hex_then (length front) rest (front ++ t) ≡ rest t
unfolding hex_then
hex_then-pass [] rest t all = refl
hex_then-pass (c ∷ front) rest t all = rw (all.0) (hex_then-pass front rest t all.1)

pub hex_then-passes :
    (n : ℕ) (front : Text) (rest : Text → Bool) (t : Text)
    → All (λ c. is_hex_digit c ≡ true) front
    → length front ≡ n
    → hex_then n rest (front ++ t) ≡ rest t
hex_then-passes n front rest t all len =
    ap (λ (k : ℕ). hex_then k rest (front ++ t)) (sym len) ∙ hex_then-pass front rest t all

hex_then-last :
    (n : ℕ) (front : Text)
    → All (λ c. is_hex_digit c ≡ true) front
    → length front ≡ n
    → hex_then n at_end front ≡ true
unfolding hex_then at_end
hex_then-last n [] all len = rw (sym len) refl
hex_then-last zero (c ∷ front) all len = absurd (omega arith)
hex_then-last (suc n) (c ∷ front) all len = rw (all.0) (hex_then-last n front all.1 (omega arith))

-- The five groups of a UUID.
pub groups-match :
    (a b c d e : Text)
    → All (λ x. is_hex_digit x ≡ true) a
    → All (λ x. is_hex_digit x ≡ true) b
    → All (λ x. is_hex_digit x ≡ true) c
    → All (λ x. is_hex_digit x ≡ true) d
    → All (λ x. is_hex_digit x ≡ true) e
    → length a ≡ 8
    → length b ≡ 4
    → length c ≡ 4
    → length d ≡ 4
    → length e ≡ 12
    → matches_uuid_pattern (hyphened a (hyphened b (hyphened c (hyphened d e)))) ≡ true
unfolding matches_uuid_pattern dash_then
groups-match a b c d e ha hb hc hd he la lb lc ld le =
    hex_then-passes 8 a _ (b'-' ∷ hyphened b (hyphened c (hyphened d e))) ha la
    ∙ hex_then-passes 4 b _ (b'-' ∷ hyphened c (hyphened d e)) hb lb
    ∙ hex_then-passes 4 c _ (b'-' ∷ hyphened d e) hc lc
    ∙ hex_then-passes 4 d _ (b'-' ∷ e) hd ld
    ∙ hex_then-last 12 e he le
