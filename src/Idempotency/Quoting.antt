-- ===== src/Idempotency/Quoting.antt =====
-- A quoted text is read back: what `quote` of request-hash.util.ts writes ends where it says.
use mathlib.Core.List.{append_assoc}
use pstu_final.Base.{
  ℕ, ◌+◌, ◌-◌, ◌*◌, ◌/◌, ◌%◌, ◌<◌, Bool-cases, true, Option, none, some, [], ◌∷◌, ◌++◌, ltb, ◌==◌,
  ==_iff, if◌then◌else◌, ◌≡◌, refl, ap, sym, ◌∙◌, inl, inr, arith,
}
use pstu_final.Base.Text.{Text}
use pstu_final.Idempotency.RequestHash.{escape, escaped, quote, hex_digit, backslash}

abbrev hex_value : ℕ → ℕ
hex_value c = if ltb c b'a' then c - b'0' else c - b'a' + 10

pub head_eq : {a b : ℕ} {s t : Text} → a ∷ s ≡ b ∷ t → a ≡ b
head_eq h = ground arith

pub tail_eq : {a b : ℕ} {s t : Text} → a ∷ s ≡ b ∷ t → s ≡ t
tail_eq h = ground arith

hex_value-hex_digit : (n : ℕ) → n < 16 → hex_value (hex_digit n) ≡ n
hex_value-hex_digit n small = ground arith

-- `u00` and two digits.
abbrev read_hex : Text → Option (ℕ × Text)
read_hex (u ∷ a ∷ b ∷ c ∷ d ∷ t) = some (hex_value c * 16 + hex_value d, t)
read_hex other = none

abbrev read_escape : Text → Option (ℕ × Text)
read_escape [] = none
read_escape (k ∷ t) =
    if k == b'"'
    then some (b'"', t)
    else if k == backslash
    then some (backslash, t)
    else if k == b'b'
    then some (8, t)
    else if k == b't'
    then some (9, t)
    else if k == b'n'
    then some (10, t)
    else if k == b'f'
    then some (12, t)
    else if k == b'r'
    then some (13, t)
    else read_hex (k ∷ t)

-- The first character of a quoted text and what stands behind it, `none` at the closing quote.
abbrev read_char : Text → Option (ℕ × Text)
read_char [] = none
read_char (k ∷ t) =
    if k == backslash then read_escape t else if k == b'"' then none else some (k, t)

abbrev said : ℕ → Text → Option (ℕ × Text)
said c t = some (c, t)

said_same : {c d : ℕ} {x y : Text} → said c x ≡ said d y → (c ≡ d) × (x ≡ y)
said_same h = ground arith

same_char : (c k : ℕ) (t : Text) → (c == k) ≡ true → said k t ≡ said c t
same_char c k t e = ap (λ (d : ℕ). said d t) (sym ((==_iff c k).0 e))

control :
    (c : ℕ) → c < 32 → hex_value (hex_digit (c / 16)) * 16 + hex_value (hex_digit (c % 16)) ≡ c
control c small =
    let high = hex_value-hex_digit (c / 16) (omega arith) in
    let low = hex_value-hex_digit (c % 16) (omega arith) in omega (arith, high, low)

read_char-escape : (c : ℕ) (t : Text) → read_char (escape c ++ t) ≡ said c t
unfolding escape
read_char-escape c t = elim (Bool-cases (c == b'"')) [
  | inl e ↦ rw e (same_char c b'"' t e)
  | inr e1 ↦ rw e1 (elim (Bool-cases (c == backslash)) [
    | inl e ↦ rw e (same_char c backslash t e)
    | inr e2 ↦ rw e2 (elim (Bool-cases (c == 8)) [
      | inl e ↦ rw e (same_char c 8 t e)
      | inr e3 ↦ rw e3 (elim (Bool-cases (c == 9)) [
        | inl e ↦ rw e (same_char c 9 t e)
        | inr e4 ↦ rw e4 (elim (Bool-cases (c == 10)) [
          | inl e ↦ rw e (same_char c 10 t e)
          | inr e5 ↦ rw e5 (elim (Bool-cases (c == 12)) [
            | inl e ↦ rw e (same_char c 12 t e)
            | inr e6 ↦ rw e6 (elim (Bool-cases (c == 13)) [
              | inl e ↦ rw e (same_char c 13 t e)
              | inr e7 ↦ rw e7 (elim (Bool-cases (ltb c 32)) [
                | inl e8 ↦ rw e8 (ap (λ (d : ℕ). said d t) (control c (ground arith)))
                | inr e8 ↦ rw (e8, e2, e1) refl
              ])
            ])
          ])
        ])
      ])
    ])
  ])
]

-- Two quoted texts with something behind each: where the whole is the same, both parts are.
escaped-split :
    (s t x y : Text) → escaped s ++ (b'"' ∷ x) ≡ escaped t ++ (b'"' ∷ y) → (s ≡ t) × (x ≡ y)
unfolding escaped
escaped-split [] [] x y h = (refl, tail_eq h)
escaped-split [] (d ∷ t) x y h =
    let read = ap read_char (h ∙ append_assoc (escape d) (escaped t) _) ∙ read_char-escape d _ in
    ground arith
escaped-split (c ∷ s) [] x y h =
    let read =
      ap read_char (sym h ∙ append_assoc (escape c) (escaped s) _) ∙ read_char-escape c _ in
    ground arith
escaped-split (c ∷ s) (d ∷ t) x y h =
    let whole =
      sym (append_assoc (escape c) (escaped s) (b'"' ∷ x))
      ∙ h
      ∙ append_assoc (escape d) (escaped t) (b'"' ∷ y) in
    let (first, others) =
      said_same (sym (read_char-escape c _) ∙ ap read_char whole ∙ read_char-escape d _) in
    let (rest, behind) = escaped-split s t x y others in
    (ap (λ (k : ℕ). k ∷ s) first ∙ ap (λ (u : Text). d ∷ u) rest, behind)

pub quote-split : (s t x y : Text) → quote s ++ x ≡ quote t ++ y → (s ≡ t) × (x ≡ y)
unfolding quote
quote-split s t x y h = escaped-split s t x y (
    sym (append_assoc (escaped s) (b'"' ∷ []) x)
    ∙ tail_eq h
    ∙ append_assoc (escaped t) (b'"' ∷ []) y)
