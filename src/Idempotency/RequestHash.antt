-- ===== src/Idempotency/RequestHash.antt =====
-- The canonical text of a request payload: apps/api/src/idempotency/request-hash.util.ts.
use pstu_final.Base.{
  ℕ, ◌+◌, ◌-◌, ◌/◌, ◌%◌, String, Bool, true, false, List, [], ◌∷◌, ◌++◌, map, ltb, ◌==◌,
  if◌then◌else◌,
}
use pstu_final.Base.Text.{Text, codes, decimal, decimal_ℤ, text_lt}
use pstu_final.Store.Rows.{Value, Fields}
use pstu_final.Platform.{Platform}

-- A value of `unknown` type that came from JSON or goes there. Numbers that are not natural do not
-- occur in a payload, which carries amounts as texts.
mutual
  pub data Json : Type 0 where
    null : Json
    boolean : Bool → Json
    number : ℕ → Json
    text : Text → Json
    array : Items → Json
    object : Members → Json

  pub data Items : Type 0 where
    nil : Items
    cons : Json → Items → Items

  pub data Members : Type 0 where
    end : Members
    member : Text → Json → Members → Members

-- A member of an object, by its key and by the text of its value.
abbrev pub Entry : Type 0
Entry = Text × Text

abbrev pub backslash : ℕ
backslash = 92

abbrev pub hex_digit : ℕ → ℕ
hex_digit d = if ltb d 10 then b'0' + d else b'a' + (d - 10)

-- The escapes of JSON.stringify in a text.
unfoldable pub escape : ℕ → Text
escape c =
    if c == b'"'
    then backslash ∷ b'"' ∷ []
    else if c == backslash
    then backslash ∷ backslash ∷ []
    else if c == 8
    then backslash ∷ b'b' ∷ []
    else if c == 9
    then backslash ∷ b't' ∷ []
    else if c == 10
    then backslash ∷ b'n' ∷ []
    else if c == 12
    then backslash ∷ b'f' ∷ []
    else if c == 13
    then backslash ∷ b'r' ∷ []
    else if ltb c 32
    then backslash ∷ b'u' ∷ b'0' ∷ b'0' ∷ hex_digit (c / 16) ∷ hex_digit (c % 16) ∷ []
    else c ∷ []

unfoldable pub escaped : Text → Text
escaped [] = []
escaped (c ∷ cs) = escape c ++ escaped cs

-- JSON.stringify of a text.
unfoldable pub quote : Text → Text
unfolding escape escaped
quote s = b'"' ∷ escaped s ++ b'"' ∷ []

-- `.join(',')`
unfoldable pub join : List Text → Text
join [] = []
join (t ∷ []) = t
join (t ∷ u ∷ us) = t ++ b',' ∷ join (u ∷ us)

-- `.sort()` of the keys, which are distinct in an object; each keeps its value.
unfoldable pub insert_entry : Entry → List Entry → List Entry
insert_entry e [] = e ∷ []
insert_entry e (f ∷ fs) = if text_lt f.0 e.0 then f ∷ insert_entry e fs else e ∷ f ∷ fs

unfoldable pub sort_entries : List Entry → List Entry
unfolding insert_entry
sort_entries [] = []
sort_entries (e ∷ es) = insert_entry e (sort_entries es)

unfoldable pub entry_text : Entry → Text
unfolding quote
entry_text e = quote e.0 ++ b':' ∷ e.1

unfoldable mutual
  unfolding quote join sort_entries entry_text

  pub stable_stringify : Json → Text
  stable_stringify null = codes "null"
  stable_stringify (boolean true) = codes "true"
  stable_stringify (boolean false) = codes "false"
  stable_stringify (number n) = decimal n
  stable_stringify (text t) = quote t
  stable_stringify (array xs) = b'[' ∷ join (item_texts xs) ++ b']' ∷ []
  stable_stringify (object ms) =
      b'{' ∷ join (map entry_text (sort_entries (entries ms))) ++ b'}' ∷ []

  pub item_texts : Items → List Text
  item_texts nil = []
  item_texts (cons x xs) = stable_stringify x ∷ item_texts xs

  pub entries : Members → List Entry
  entries end = []
  entries (member k v ms) = (k, stable_stringify v) ∷ entries ms

text_items : List String → Items
text_items [] = nil
text_items (t ∷ ts) = cons (text (codes t)) (text_items ts)

-- `.join(' | ')`
joined_codes : List String → Text
joined_codes [] = []
joined_codes (t ∷ []) = codes t
joined_codes (t ∷ u ∷ us) = codes t ++ codes " | " ++ joined_codes (u ∷ us)

module _ (p : Platform) where
  unfoldable pub to_json : Value → Json
  unfolding text_items joined_codes
  to_json Value.null = null
  to_json (Value.boolean b) = boolean b
  to_json (Value.number n) = number n
  to_json (Value.text t) = text (codes t)
  to_json (Value.uuid n) = text (codes (p.uuid_out n))
  to_json (Value.bigint z) = text (decimal_ℤ z)
  to_json (Value.date t) = text (codes (p.iso t))
  to_json (Value.texts ts) = array (text_items ts)
  to_json (Value.joined ts) = text (joined_codes ts)

  unfoldable pub to_members : Fields → Members
  unfolding to_json
  to_members [] = end
  to_members ((k, v) ∷ fs) = member (codes k) (to_json v) (to_members fs)

  unfoldable pub hash_request_payload : Fields → String
  unfolding to_members stable_stringify
  hash_request_payload payload = p.sha256 (stable_stringify (object (to_members payload)))
