-- ===== src/Outbox/Queue.antt =====
-- The worker's statements on the outbox: claimNext, markProcessed and recordFailure of
-- apps/api/src/outbox/outbox.repository.ts.
use pstu_final.Base.{
  ◌++◌, ℕ, ◌+◌, ◌*◌, String, Bool, ◌&&◌, not, Option, none, some, List, [], ◌∷◌, any, is_some,
  update_where, select_where, ltb, leb, ◌==◌, if◌then◌else◌,
}
use pstu_final.Store.Failure.{known}
use pstu_final.Store.Rows.{OutboxEvent, Fields}
use pstu_final.Store.Tx.{Tx, outbox_row, pure, gets, modify, throw_if, ◌>>=◌, ◌>>◌}
use pstu_final.Platform.{Env, Reading}

pub record ClaimedOutboxEvent : Type 0 where
  pub id : ℕ
  pub aggregate_type : String
  pub aggregate_id : ℕ
  pub event_type : String
  pub payload : Fields
  pub attempt_count : ℕ

abbrev pub to_claimed : OutboxEvent → ClaimedOutboxEvent
to_claimed row = record {
  id = row.id;
  aggregate_type = row.aggregate_type;
  aggregate_id = row.aggregate_id;
  event_type = row.event_type;
  payload = row.payload;
  attempt_count = row.attempt_count;
}

-- ORDER BY occurred_at ASC LIMIT 1; between rows of one time the database may choose.
abbrev older_of : OutboxEvent → Option OutboxEvent → OutboxEvent
older_of row none = row
older_of row (some best) = if ltb best.occurred_at row.occurred_at then best else row

unfoldable pub oldest : List OutboxEvent → Option OutboxEvent
oldest [] = none
oldest (row ∷ rows) = some (older_of row (oldest rows))

-- The row meets the WHERE clause, at the time `now`.
abbrev pub is_due : ℕ → ℕ → OutboxEvent → Bool
is_due max_attempts now row =
    not (is_some row.processed_at)
    && ltb row.attempt_count max_attempts
    && leb row.next_attempt_at now

-- `locked` says which rows other workers hold, which SKIP LOCKED passes over.
unfoldable pub next_due : (ℕ → Bool) → ℕ → ℕ → List OutboxEvent → Option OutboxEvent
unfolding oldest
next_due locked max_attempts now rows =
    oldest (select_where (λ (r : OutboxEvent). is_due max_attempts now r && not (locked r.id)) rows)

abbrev lock_found : Option OutboxEvent → Tx (Option ClaimedOutboxEvent)
lock_found none = pure none
lock_found (some row) =
    modify (λ s. record s { locks = s.locks ++ outbox_row row.id ∷ [] })
    >> pure (some (to_claimed row))

module _ (e : Env) where
  unfoldable pub claim_next : (ℕ → Bool) → ℕ → Tx (Option ClaimedOutboxEvent)
  unfolding next_due
  claim_next locked max_attempts = do
    found ← gets (λ s. next_due locked max_attempts (e.clock Reading.outbox_claim) s.outbox)
    lock_found found

  abbrev pub processed_now : OutboxEvent → OutboxEvent
  processed_now row = record row {
    processed_at = some (e.clock Reading.outbox_processed);
    last_error = none;
  }

  -- An `update` of the client throws where no row has the id.
  unfoldable pub mark_processed : ℕ → Tx (Unit {0})
  mark_processed id = do
    found ← gets (λ s. any (λ (r : OutboxEvent). r.id == id) s.outbox)
    throw_if (not found) (known "P2025" none [])
    modify λ s. record s {
      outbox = update_where (λ (r : OutboxEvent). r.id == id) processed_now s.outbox;
    }

  abbrev pub failed_now : String → ℕ → OutboxEvent → OutboxEvent
  failed_now error backoff_seconds row = record row {
    attempt_count = row.attempt_count + 1;
    last_error = some error;
    next_attempt_at = e.clock Reading.outbox_failure + backoff_seconds * 1000;
  }

  unfoldable pub record_failure : ℕ → String → ℕ → Tx (Unit {0})
  record_failure id error backoff_seconds = modify λ s. record s {
    outbox =
        update_where (λ (r : OutboxEvent). r.id == id) (failed_now error backoff_seconds) s.outbox;
  }
