-- ===== src/Transfers/Payload.antt =====
-- The canonical text of a transfer's payload tells its members.
use mathlib.Core.List.{append_assoc}
use Prim.Native.Char.{code}
use text.Mathlib.TextEquality.{Char-path}
use pstu_final.Base.{
  ℕ, suc, String, Option, none, some, [], ◌∷◌, ◌++◌, ◌≡◌, refl, ap, sym, ◌∙◌, arith, subst, All,
  true, false,
}
use pstu_final.Base.Int.{ℤ, pos, negsuc}
use pstu_final.Base.Text.{
  Text, codes, decimal, decimal_ℤ, text_lt, read_digits, read_digits-decimal,
}
use pstu_final.Base.Text.Decimal.{IsDigit, decimal-IsDigit}
use pstu_final.Platform.{Platform}
use pstu_final.Idempotency.RequestHash.{quote, stable_stringify, object, to_json, to_members}
use pstu_final.Idempotency.Quoting.{head_eq, tail_eq, quote-split}
use pstu_final.Transfers.Service.{CreateDirectTransferCommand, canonical_payload, note_value}

codes-same : (s t : String) → codes s ≡ codes t → s ≡ t
codes-same String.[] String.[] h = refl
codes-same String.[] (String.◌∷◌ d t) h = ground arith
codes-same (String.◌∷◌ c s) String.[] h = ground arith
codes-same (String.◌∷◌ c s) (String.◌∷◌ d t) h =
    let first : code c ≡ code d = head_eq h in
    λ i. String.◌∷◌ (Char-path c d first i) (codes-same s t (tail_eq h) i)

decimal-same : (m n : ℕ) → decimal m ≡ decimal n → m ≡ n
decimal-same m n h = sym (read_digits-decimal m) ∙ ap (read_digits 0) h ∙ read_digits-decimal n

decimal_ℤ-same : (y z : ℤ) → decimal_ℤ y ≡ decimal_ℤ z → y ≡ z
unfolding decimal_ℤ
decimal_ℤ-same (pos m) (pos n) h = ap pos (decimal-same m n h)
decimal_ℤ-same (negsuc m) (negsuc n) h =
    let next : suc m ≡ suc n = decimal-same (suc m) (suc n) (tail_eq h) in ground arith
decimal_ℤ-same (pos m) (negsuc n) h =
    let dash : false ≡ true = (subst (All IsDigit) h (decimal-IsDigit m)).0 in ground arith
decimal_ℤ-same (negsuc m) (pos n) h =
    let dash : false ≡ true = (subst (All IsDigit) (sym h) (decimal-IsDigit n)).0 in ground arith

abbrev amount_key : Text
amount_key = codes "{\"amountMinor\":"

abbrev currency_key : Text
currency_key = codes ",\"currency\":"

abbrev note_key : Text
note_key = codes ",\"note\":"

abbrev receiver_key : Text
receiver_key = codes ",\"receiverUserId\":"

abbrev close : Text
close = codes "}"

-- A known front falls away.
drop_front : (front : Text) {x y : Text} → front ++ x ≡ front ++ y → x ≡ y
drop_front [] h = h
drop_front (c ∷ front) h = drop_front front (tail_eq h)

abbrev note_text : Option String → Text
note_text none = codes "null"
note_text (some note) = quote (codes note)

note-split :
    (m n : Option String) (x y : Text) → note_text m ++ x ≡ note_text n ++ y → (m ≡ n) × (x ≡ y)
unfolding quote
note-split none none x y h = (refl, drop_front (codes "null") h)
note-split none (some n) x y h = ground arith
note-split (some m) none x y h = ground arith
note-split (some m) (some n) x y h =
    let (same, rest) = quote-split (codes m) (codes n) x y h in
    (ap (λ (t : String). some t) (codes-same m n same), rest)

-- Two commands that ask for the same transfer.
abbrev pub SamePayload : CreateDirectTransferCommand → CreateDirectTransferCommand → Type 0
SamePayload c d =
    (c.receiver_user_id ≡ d.receiver_user_id)
    × (c.amount_minor ≡ d.amount_minor)
    × (c.currency ≡ d.currency)
    × (c.note ≡ d.note)

module _ (p : Platform) where
  -- The canonical text whose digest stands for the payload.
  abbrev pub payload_text : CreateDirectTransferCommand → Text
  payload_text command = stable_stringify (object (to_members p (canonical_payload command)))

  shown_note :
      (note : Option String) → stable_stringify (to_json p (note_value note)) ≡ note_text note
  unfolding to_json stable_stringify
  shown_note none = refl
  shown_note (some note) = refl

  abbrev shape : CreateDirectTransferCommand → Text
  shape c =
      amount_key
      ++ (quote (decimal_ℤ c.amount_minor)
          ++ (currency_key
              ++ (quote (codes c.currency)
                  ++ (note_key
                      ++ (note_text c.note
                          ++ (receiver_key ++ (quote (codes c.receiver_user_id) ++ close)))))))

  payload_text-shape : (c : CreateDirectTransferCommand) → payload_text c ≡ shape c
  unfolding stable_stringify to_members to_json canonical_payload text_lt quote
  payload_text-shape c =
      let amount = quote (decimal_ℤ c.amount_minor) in
      let currency = quote (codes c.currency) in
      let note = stable_stringify (to_json p (note_value c.note)) in
      let receiver : Text = receiver_key ++ quote (codes c.receiver_user_id) in
      let behind_note : Text = note_key ++ (note ++ receiver) in
      let behind_currency : Text = currency_key ++ (currency ++ behind_note) in
      ap (λ (t : Text). amount_key ++ t)
        (append_assoc amount behind_currency close
          ∙ ap (λ (t : Text). amount ++ (currency_key ++ t))
              (append_assoc currency behind_note close
                ∙ ap (λ (t : Text). currency ++ (note_key ++ t))
                    (append_assoc note receiver close
                      ∙ ap (λ (t : Text). t ++ (receiver ++ close)) (shown_note c.note))))

  -- Payloads with one canonical text are the same.
  pub payload_text-SamePayload :
      (c d : CreateDirectTransferCommand) → payload_text c ≡ payload_text d → SamePayload c d
  payload_text-SamePayload c d h =
      let whole = sym (payload_text-shape c) ∙ h ∙ payload_text-shape d in
      let (amount, behind_amount) = quote-split _ _ _ _ (drop_front amount_key whole) in
      let (currency, behind_currency) =
        quote-split _ _ _ _ (drop_front currency_key behind_amount) in
      let (note, behind_note) = note-split _ _ _ _ (drop_front note_key behind_currency) in
      let (receiver, end) = quote-split _ _ _ _ (drop_front receiver_key behind_note) in
      (codes-same _ _ receiver, decimal_ℤ-same _ _ amount, codes-same _ _ currency, note)
