-- ===== src/Idempotency/Tests.antt =====
-- Two orders of one payload.
use pstu_final.Base.{◌≡◌, ◌≢◌, arith}
use pstu_final.Base.Text.{codes}
use pstu_final.Idempotency.RequestHash.{
  Members, object, end, member, null, number, stable_stringify,
}
use pstu_final.Idempotency.Order.{swap, stable_stringify-Reordered}

abbrev note_first : Members
note_first = member (codes "note") null (member (codes "amount") (number 5) end)

abbrev amount_first : Members
amount_first = member (codes "amount") (number 5) (member (codes "note") null end)

note_apart : codes "note" ≢ codes "amount"
note_apart = λ e. ground arith

stable_stringify-Reordered_example :
    stable_stringify (object note_first) ≡ stable_stringify (object amount_first)
stable_stringify-Reordered_example =
    stable_stringify-Reordered note_first amount_first
      (swap (codes "note") (codes "amount") null (number 5) end note_apart)
