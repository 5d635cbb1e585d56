-- ===== src/Notifications/Sample.antt =====
-- A language whose amounts are written in strokes, and an event, on which the theorems are tried.
use Prim.Native.Char.{code}
use pstu_final.Base.{
  ℕ, zero, suc, String, Option, some, [], ◌∷◌, ◌≡◌, refl, ap, ◌==◌, if◌then◌else◌,
}
use pstu_final.Base.Int.{ℤ, pos, negsuc}
use pstu_final.Store.Rows.{Value}
use pstu_final.Fixtures.{test_platform}
use pstu_final.Outbox.Queue.{ClaimedOutboxEvent}
use pstu_final.Notifications.Consumer.{Language}
use pstu_final.Notifications.Announced.{ReadsBack}

strokes : ℕ → String
strokes zero = String.[]
strokes (suc n) = String.◌∷◌ "1" (strokes n)

count_strokes : String → ℕ
count_strokes String.[] = 0
count_strokes (String.◌∷◌ c s) = suc (count_strokes s)

counts : (n : ℕ) → count_strokes (strokes n) ≡ n
unfolding strokes count_strokes
counts zero = refl
counts (suc n) = ap (λ (k : ℕ). suc k) (counts n)

write : ℤ → String
unfolding strokes
write (pos n) = strokes n
write (negsuc n) = String.◌∷◌ "-" (strokes n)

unfoldable pub read : String → Option ℤ
unfolding count_strokes
read String.[] = some (pos 0)
read (String.◌∷◌ c s) =
    if code c == b'-' then some (negsuc (count_strokes s)) else some (pos (suc (count_strokes s)))

reads-write : (z : ℤ) → read (write z) ≡ some z
unfolding read write
reads-write (pos zero) = refl
reads-write (pos (suc n)) = ap (λ (k : ℕ). some (pos (suc k))) (counts n)
reads-write (negsuc n) = ap (λ (k : ℕ). some (negsuc k)) (counts n)

unfoldable pub text_of : Option Value → String
unfolding write
text_of (some (Value.uuid n)) = test_platform.uuid_out n
text_of (some (Value.bigint z)) = write z
text_of (some (Value.text t)) = t
text_of other = "undefined"

abbrev pub language : Language
language = record { string_of = text_of; big_int = read }

pub reads_back : ReadsBack test_platform language
unfolding text_of
reads_back = record { ids = λ n. refl; amounts = reads-write; texts = λ t. refl }

abbrev pub received : ClaimedOutboxEvent
received = record {
  id = 77;
  aggregate_type = "transfer";
  aggregate_id = 9;
  event_type = "transfer.succeeded";
  payload =
      ("transferId", Value.uuid 9)
      ∷ ("receiverUserId", Value.uuid 2)
      ∷ ("amountMinor", Value.bigint (pos 5))
      ∷ ("currency", Value.text "BDT")
      ∷ ("sourceRequestId", Value.null)
      ∷ [];
  attempt_count = 0;
}
