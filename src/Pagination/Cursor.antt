-- ===== src/Pagination/Cursor.antt =====
-- The text of a cursor: apps/api/src/common/pagination/cursor.util.ts.
use pstu_final.Base.{
  ◌||◌, ℕ, String, true, false, not, Option, none, some, List, [], ◌∷◌, ◌++◌, length, ◌==◌,
  if◌then◌else◌, ◌≡◌, refl, ap, ◌∙◌, arith,
}
use pstu_final.Base.Text.{Text, matches_uuid_pattern}
use pstu_final.Base.Text.Uuid.{Lacks, matches_uuid_pattern-Lacks}

-- Buffer, Date and their texts.
pub record Encoding : Type 0 where
  -- Buffer.from(text, 'utf8').toString('base64url')
  pub to_base64url : Text → String
  -- Buffer.from(text, 'base64url').toString('utf8'), which takes any text
  pub from_base64url : String → Text
  -- date.toISOString()
  pub to_iso : ℕ → Text
  -- new Date(text).getTime(), `none` for NaN
  pub get_time : Text → Option ℕ
  -- the cast `text::uuid`, and the text of an id
  pub uuid_of : Text → Option ℕ
  pub uuid_text : ℕ → Text

-- A KeysetCursor as it travels, with the text of its id.
pub record Anchor : Type 0 where
  pub created_at : ℕ
  pub id : Text

abbrev onto_first : ℕ → List Text → List Text
onto_first c [] = (c ∷ []) ∷ []
onto_first c (part ∷ parts) = (c ∷ part) ∷ parts

-- split('|')
unfoldable pub split_bar : Text → List Text
split_bar [] = [] ∷ []
split_bar (c ∷ t) = let rest = split_bar t in if c == b'|' then [] ∷ rest else onto_first c rest

abbrev dated : Text → Option ℕ → Option Anchor
dated id none = none
dated id (some time) = some (record { created_at = time; id = id })

module _ (n : Encoding) where
  unfoldable pub encode_keyset_cursor : Anchor → String
  encode_keyset_cursor anchor = n.to_base64url (n.to_iso anchor.created_at ++ b'|' ∷ anchor.id)

  unfoldable pub anchor_of : List Text → Option Anchor
  anchor_of (iso ∷ id ∷ []) =
      if length iso == 0 || length id == 0 || not (matches_uuid_pattern id)
      then none
      else dated id (n.get_time iso)
  anchor_of other = none

  unfoldable pub decode_keyset_cursor : String → Option Anchor
  unfolding split_bar anchor_of
  decode_keyset_cursor cursor = anchor_of (split_bar (n.from_base64url cursor))

split_bar-Lacks : (t : Text) → Lacks b'|' t → split_bar t ≡ t ∷ []
unfolding split_bar
split_bar-Lacks [] lacks = refl
split_bar-Lacks (c ∷ t) lacks = rw (lacks.0, split_bar-Lacks t lacks.1) refl

split_bar-two : (a b : Text) → Lacks b'|' a → Lacks b'|' b → split_bar (a ++ b'|' ∷ b) ≡ a ∷ b ∷ []
unfolding split_bar
split_bar-two [] b ha hb = rw (split_bar-Lacks b hb) refl
split_bar-two (c ∷ a) b ha hb = rw (ha.0, split_bar-two a b ha.1 hb) refl

-- What the texts of the language keep.
pub record IsFaithful (n : Encoding) : Type 0 where
  pub base64url : (t : Text) → n.from_base64url (n.to_base64url t) ≡ t
  pub time : (t : ℕ) → n.get_time (n.to_iso t) ≡ some t
  pub some_text : (t : ℕ) → (length (n.to_iso t) == 0) ≡ false
  pub no_bar : (t : ℕ) → Lacks b'|' (n.to_iso t)

some_id : (t : Text) → matches_uuid_pattern t ≡ true → (length t == 0) ≡ false
some_id [] h = let no : false ≡ true = unfold matches_uuid_pattern in h in cc
some_id (c ∷ t) h = ground arith

-- The cursor that a page hands out is read back as the time and the id of its anchor, where the id
-- has the form of a UUID and the encodings of the language lose nothing.
pub decode_keyset_cursor-encode_keyset_cursor :
    (n : Encoding) (anchor : Anchor)
    → IsFaithful n
    → matches_uuid_pattern anchor.id ≡ true
    → decode_keyset_cursor n (encode_keyset_cursor n anchor) ≡ some anchor
unfolding decode_keyset_cursor encode_keyset_cursor
decode_keyset_cursor-encode_keyset_cursor n anchor faithful form =
    let parts =
      split_bar-two (n.to_iso anchor.created_at) anchor.id (faithful.no_bar anchor.created_at)
        (matches_uuid_pattern-Lacks anchor.id form) in
    ap (λ (t : Text). anchor_of n (split_bar t))
      (faithful.base64url (n.to_iso anchor.created_at ++ b'|' ∷ anchor.id))
    ∙ ap (anchor_of n) parts
    ∙ rw
        (
          faithful.some_text anchor.created_at,
          some_id anchor.id form,
          form,
          faithful.time anchor.created_at,
        )
        refl
