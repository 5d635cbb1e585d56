-- ===== src/Pagination/Tests.antt =====
-- A list read in pages, and a cursor in an encoding whose texts are written in strokes.
use Prim.Native.Char.{code}
use pstu_final.Base.{
  ℕ, zero, suc, ◌+◌, ◌∙◌, String, true, Option, none, some, List, [], ◌∷◌, length, ◌≡◌, refl, ap,
  arith, ◌==◌, if◌then◌else◌,
}
use pstu_final.Base.Text.{Text, codes, matches_uuid_pattern}
use pstu_final.Base.Text.Uuid.{Lacks}
use pstu_final.Pagination.Keyset.{KeysetCursor, sort_desc}
use pstu_final.Pagination.Pages.{traverse, traverse-whole}
use pstu_final.Pagination.Cursor.{
  Encoding, Anchor, IsFaithful, encode_keyset_cursor, decode_keyset_cursor,
  decode_keyset_cursor-encode_keyset_cursor,
}

abbrev row : ℕ → ℕ → KeysetCursor
row time id = record { created_at = time; id = id }

abbrev rows : List KeysetCursor
rows = row 10 1 ∷ row 30 2 ∷ row 20 5 ∷ row 20 4 ∷ row 40 3 ∷ []

newest_first : List KeysetCursor
newest_first = row 40 3 ∷ row 30 2 ∷ row 20 5 ∷ row 20 4 ∷ row 10 1 ∷ []

sorts : sort_desc (λ r. r) rows ≡ newest_first
unfolding sort_desc newest_first
sorts = refl

traverse-whole_example :
    traverse (λ r. r) (λ (r : KeysetCursor). true) 2 rows 6 none ≡ some (sort_desc (λ r. r) rows)
unfolding sort_desc
traverse-whole_example =
    traverse-whole (λ r. r) (λ (r : KeysetCursor). true) 2 rows 6 (omega arith)
      (refl, (refl, (refl, (refl, (refl, tt))))) (omega arith)

strokes : ℕ → String → String
strokes zero s = s
strokes (suc n) s = String.◌∷◌ "1" (strokes n s)

spell : Text → String
unfolding strokes
spell [] = String.[]
spell (c ∷ t) = strokes c (String.◌∷◌ "," (spell t))

count : ℕ → String → Text
count n String.[] = []
count n (String.◌∷◌ c s) =
    let next = count 0 s in let more = count (n + 1) s in if code c == b',' then n ∷ next else more

count-strokes :
    (k n : ℕ) (s : String) → count k (strokes n (String.◌∷◌ "," s)) ≡ (k + n) ∷ count 0 s
unfolding count strokes
count-strokes k zero s = ap (λ (m : ℕ). m ∷ count 0 s) (omega arith)
count-strokes k (suc n) s = count-strokes (k + 1) n s ∙ ap (λ (m : ℕ). m ∷ count 0 s) (omega arith)

count-spell : (t : Text) → count 0 (spell t) ≡ t
unfolding spell count
count-spell [] = refl
count-spell (c ∷ t) =
    count-strokes 0 c (spell t)
    ∙ ap (λ (m : ℕ). m ∷ count 0 (spell t)) (omega arith)
    ∙ ap (λ (u : Text). c ∷ u) (count-spell t)

marks : ℕ → Text
marks zero = []
marks (suc n) = b'1' ∷ marks n

unmark : Text → ℕ
unmark [] = zero
unmark (c ∷ t) = suc (unmark t)

unmark-marks : (n : ℕ) → unmark (marks n) ≡ n
unfolding unmark marks
unmark-marks zero = refl
unmark-marks (suc n) = ap (λ (k : ℕ). suc k) (unmark-marks n)

marks-Lacks : (n : ℕ) → Lacks b'|' (marks n)
unfolding marks
marks-Lacks zero = tt
marks-Lacks (suc n) = (refl, marks-Lacks n)

time_of : Text → Option ℕ
unfolding unmark
time_of [] = none
time_of (c ∷ t) = some (unmark t)

encoding : Encoding
unfolding spell count marks time_of
encoding = record {
  to_base64url = spell;
  from_base64url = λ s. count 0 s;
  to_iso = λ t. b'T' ∷ marks t;
  get_time = time_of;
  uuid_of = λ t. some (length t);
  uuid_text = λ n. codes "00000000-0000-4000-8000-000000000001";
}

encoding-IsFaithful : IsFaithful encoding
unfolding encoding time_of
encoding-IsFaithful = record {
  base64url = λ t. count-spell t;
  time = λ t. ap (λ (k : ℕ). some k) (unmark-marks t);
  some_text = λ t. ground arith;
  no_bar = λ t. (refl, marks-Lacks t);
}

abbrev anchor : Anchor
anchor = record { created_at = 5; id = codes "0a1B2c3d-0000-4000-8000-000000000001" }

anchor_form : matches_uuid_pattern (codes "0a1B2c3d-0000-4000-8000-000000000001") ≡ true
unfolding matches_uuid_pattern
anchor_form = refl

decode_keyset_cursor-encode_keyset_cursor_example :
    decode_keyset_cursor encoding (encode_keyset_cursor encoding anchor) ≡ some anchor
decode_keyset_cursor-encode_keyset_cursor_example =
    decode_keyset_cursor-encode_keyset_cursor encoding anchor encoding-IsFaithful anchor_form
