-- ===== src/Outbox/Processor.antt =====
-- One event after the other: apps/api/src/outbox/outbox.processor.ts, with tryExplain of
-- apps/api/src/risk/risk-explanation.consumer.ts and setExplanation of
-- apps/api/src/risk/risk.repository.ts.
use pstu_final.Base.{
  ℕ, zero, suc, ◌+◌, ◌*◌, ◌^◌, String, Bool, Option, none, some, update_where, str_eq, ◌==◌,
  if◌then◌else◌,
}
use pstu_final.Store.Failure.{Failure}
use pstu_final.Store.Rows.{RiskAssessment, Fields}
use pstu_final.Store.Tx.{Db, Tx, Result, ok, err, pure, transaction, rolled_back, ◌>>=◌, ◌>>◌}
use pstu_final.Platform.{Platform, Env}
use pstu_final.Notifications.Consumer.{Language, handle}
use pstu_final.Outbox.Queue.{ClaimedOutboxEvent, claim_next, mark_processed, record_failure}

-- Attempts before an event becomes a dead letter.
abbrev pub max_attempts : ℕ
max_attempts = 5

abbrev pub base_backoff_seconds : ℕ
base_backoff_seconds = 2

abbrev pub default_batch_size : ℕ
default_batch_size = 50

-- How the database ends a step from outside: the claim fails, the transaction fails after the
-- claim, or neither.
pub data Interruption : Type 0 where
  no_interruption : Interruption
  claim_fails : Failure → Interruption
  later_fails : Failure → Interruption

-- What one step of the worker meets.
pub record Step : Type 0 where
  pub env : Env
  -- the rows that other workers hold
  pub locked : ℕ → Bool
  pub interruption : Interruption
  -- error.message.slice(0, 1000)
  pub message : Failure → String
  -- the statement of `recordFailure` fails
  pub bookkeeping_fails : Bool
  -- the sentence of the AI service; `none` where it is not configured, fails or has nothing to say
  pub explain : Fields → Option String

pub data Outcome : Type 0 where
  processed failed idle : Outcome

unfoldable pub set_explanation : ℕ → String → Db → Db
set_explanation transfer_id explanation s = record s {
  assessments =
      update_where (λ (a : RiskAssessment). a.transfer_id == transfer_id)
        (λ a. record a { explanation = some explanation }) s.assessments;
}

abbrev explained : ℕ → Option String → Db → Db
explained transfer_id none s = s
explained transfer_id (some sentence) s = set_explanation transfer_id sentence s

-- A call of its own, outside of any transaction; it never throws.
unfoldable pub try_explain : Step → ClaimedOutboxEvent → Db → Db
unfolding set_explanation
try_explain step event s =
    if str_eq event.event_type "transfer.risk_flagged"
    then explained event.aggregate_id (step.explain event.payload) s
    else s

-- 2s, 4s, 8s, 16s, …
unfoldable pub backoff_seconds : ℕ → ℕ
backoff_seconds attempt_count = base_backoff_seconds * 2 ^ attempt_count

-- The processor's own `recordFailure`.
unfoldable pub charge : Step → ClaimedOutboxEvent → Failure → Db → Db
unfolding record_failure backoff_seconds
charge step event failure s =
    if step.bookkeeping_fails
    then s
    else (record_failure step.env event.id (step.message failure)
        (backoff_seconds event.attempt_count) s).1

-- What `inFlight.event` holds when the transaction has thrown.
abbrev claimed_by : Result (Option ClaimedOutboxEvent) × Db → Option ClaimedOutboxEvent
claimed_by (ok claimed, s) = claimed
claimed_by (err failure, s) = none

unfoldable pub in_flight : Step → Interruption → Db → Option ClaimedOutboxEvent
in_flight step (claim_fails failure) s = none
in_flight step no_interruption s = claimed_by (claim_next step.env step.locked max_attempts s)
in_flight step (later_fails failure) s = claimed_by (claim_next step.env step.locked max_attempts s)

unfoldable pub after_failure : Step → Option ClaimedOutboxEvent → Failure → Db → Outcome × Db
unfolding charge
after_failure step none failure s = (idle, s)
after_failure step (some event) failure s = (failed, charge step event failure s)

unfoldable pub conclude :
    Step → Option ClaimedOutboxEvent → Result (Option ClaimedOutboxEvent) × Db → Outcome × Db
unfolding try_explain after_failure
conclude step flight (ok none, s) = (idle, s)
conclude step flight (ok (some event), s) = (processed, try_explain step event s)
conclude step flight (err failure, s) = after_failure step flight failure s

module _ (p : Platform) (l : Language) where
  unfoldable pub run_event : Step → Option ClaimedOutboxEvent → Tx (Option ClaimedOutboxEvent)
  run_event step none = pure none
  run_event step (some event) =
      handle p l step.env event >> mark_processed step.env event.id >> pure (some event)

  unfoldable pub run_step : Step → Tx (Option ClaimedOutboxEvent)
  unfolding run_event
  run_step step = claim_next step.env step.locked max_attempts >>= run_event step

  -- The transaction, unless the database ends it.
  unfoldable pub attempt : Step → Interruption → Tx (Option ClaimedOutboxEvent)
  unfolding run_step
  attempt step no_interruption = transaction (run_step step)
  attempt step (claim_fails failure) = rolled_back failure
  attempt step (later_fails failure) = rolled_back failure

  unfoldable pub process_next : Step → Db → Outcome × Db
  unfolding attempt in_flight conclude
  process_next step s =
      conclude step (in_flight step step.interruption s) (attempt step step.interruption s)

  -- The steps of one `drain`, by their number; the loop is left at the first idle one.
  unfoldable pub drain_from : (ℕ → Step) → ℕ → ℕ → ℕ → Db → ℕ × Db
  drain_from steps zero i count s = (count, s)
  drain_from steps (suc left) i count s =
      let (outcome, t) = process_next (steps i) s in
      elim outcome [
        | processed ↦ drain_from steps left (suc i) (count + 1) t
        | failed ↦ drain_from steps left (suc i) count t
        | idle ↦ (count, t)
      ]

  unfoldable pub drain : (ℕ → Step) → ℕ → Db → ℕ × Db
  unfolding drain_from
  drain steps batch_size s = drain_from steps batch_size 0 0 s
