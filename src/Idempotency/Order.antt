-- ===== src/Idempotency/Order.antt =====
-- The canonical text of a payload and the order of its members (request-hash.util.ts).
use pstu_final.Base.{◌≡◌, ◌≢◌, refl, ap, sym, ◌∙◌, List, [], ◌∷◌, arith, true, false}
use pstu_final.Base.Text.{text_lt_total, text_lt_asymm, Text, text_lt}
use pstu_final.Idempotency.RequestHash.{
  Json, object, Members, member, Entry, entries, insert_entry, sort_entries, stable_stringify,
}

text_ge_lt : (a b c : Text) → text_lt a b ≡ false → text_lt a c ≡ true → text_lt b c ≡ true
unfolding text_lt
text_ge_lt [] [] c h k = k
text_ge_lt [] (b ∷ ys) c h k = cc
text_ge_lt (a ∷ xs) [] [] h k = k
text_ge_lt (a ∷ xs) [] (c ∷ zs) h k = refl
text_ge_lt (a ∷ xs) (b ∷ ys) [] h k = cc
text_ge_lt (a ∷ xs) (b ∷ ys) (c ∷ zs) h k = ground (arith, text_ge_lt xs ys zs)

insert_entry_comm :
    (e f : Entry) (es : List Entry)
    → e.0 ≢ f.0
    → insert_entry e (insert_entry f es) ≡ insert_entry f (insert_entry e es)
unfolding insert_entry
insert_entry_comm e f [] apart =
    let below = text_lt_total e.0 f.0 apart in
    let above = text_lt_total f.0 e.0 (λ x. apart (sym x)) in
    ground (arith, text_lt_asymm e.0 f.0, text_lt_asymm f.0 e.0)
insert_entry_comm e f (g ∷ gs) apart =
    let below = text_lt_total e.0 f.0 apart in
    let above = text_lt_total f.0 e.0 (λ x. apart (sym x)) in
    let rest = insert_entry_comm e f gs apart in
    ground (
      arith,
      text_lt_asymm e.0 f.0,
      text_lt_asymm f.0 e.0,
      text_ge_lt g.0 e.0 f.0,
      text_ge_lt g.0 f.0 e.0,
    )

-- The same members in another order; two keys that change places differ.
pub data Reordered : Members → Members → Type 0 where
  same : (ms : Members) → Reordered ms ms
  swap :
      (k l : Text) (v w : Json) (ms : Members)
      → k ≢ l
      → Reordered (member k v (member l w ms)) (member l w (member k v ms))
  below :
      (k : Text) (v : Json) (ms ns : Members)
      → Reordered ms ns
      → Reordered (member k v ms) (member k v ns)
  both : (ls ms ns : Members) → Reordered ls ms → Reordered ms ns → Reordered ls ns

sort_entries-Reordered :
    (ms ns : Members) → Reordered ms ns → sort_entries (entries ms) ≡ sort_entries (entries ns)
unfolding sort_entries entries
sort_entries-Reordered ms _ (same _) = refl
sort_entries-Reordered _ _ (swap k l v w ms apart) = insert_entry_comm _ _ _ apart
sort_entries-Reordered _ _ (below k v ms ns r) =
    ap (insert_entry _) (sort_entries-Reordered ms ns r)
sort_entries-Reordered _ _ (both ls ms ns r q) =
    sort_entries-Reordered ls ms r ∙ sort_entries-Reordered ms ns q

-- Two objects with the same members in whatever order have the same canonical text.
pub stable_stringify-Reordered :
    (ms ns : Members)
    → Reordered ms ns
    → stable_stringify (object ms) ≡ stable_stringify (object ns)
unfolding stable_stringify
stable_stringify-Reordered ms ns r = rw (sort_entries-Reordered ms ns r)
