-- ===== src/Outbox.antt =====
-- The transactional outbox: apps/api/src/outbox. This file has what the writers of events call; its
-- children have what the worker calls.
pub mod Queue
pub mod Processor
pub mod Steps
pub mod Attempts
pub mod Drained
pub mod Poller
mod Tests
use pstu_final.Base.{◌≡◌, arith, ℕ, String, none, [], ◌∷◌, ◌++◌, any, ◌==◌}
use pstu_final.Store.Failure.{known, unique_constraint_violation}
use pstu_final.Store.Rows.{OutboxEvent, Fields}
use pstu_final.Store.Tx.{Db, ok, Tx, throw_if, gets, modify, ◌>>=◌, ◌>>◌}
use pstu_final.Platform.{Env, Draw, Reading}

pub record OutboxEventInput : Type 0 where
  pub aggregate_type : String
  pub aggregate_id : ℕ
  pub event_type : String
  pub payload : Fields

module _ (e : Env) where
  unfoldable pub new_event : Draw → OutboxEventInput → OutboxEvent
  new_event draw event = record {
    id = e.uuid draw;
    aggregate_type = event.aggregate_type;
    aggregate_id = event.aggregate_id;
    event_type = event.event_type;
    payload = event.payload;
    occurred_at = e.clock Reading.outbox_insert;
    processed_at = none;
    attempt_count = 0;
    last_error = none;
    next_attempt_at = e.clock Reading.outbox_insert;
  }

  unfoldable pub insert_event : Draw → OutboxEventInput → Tx (Unit {0})
  unfolding new_event
  insert_event draw event = do
    clash ← gets (λ s. any (λ (r : OutboxEvent). r.id == e.uuid draw) s.outbox)
    throw_if clash (known unique_constraint_violation none ("id" ∷ []))
    modify (λ s. record s { outbox = s.outbox ++ new_event draw event ∷ [] })

  pub insert_event-inv :
      (draw : Draw) (event : OutboxEventInput) (s : Db) (u : Unit {0}) (s' : Db)
      → insert_event draw event s ≡ (ok u, s')
      → s' ≡ record s { outbox = s.outbox ++ new_event draw event ∷ [] }
  unfolding insert_event ◌>>=◌
  insert_event-inv draw event s u s' h = ground arith
