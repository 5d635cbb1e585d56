-- ===== src/Outbox/Tests.antt =====
-- A queue of three events: one due, one processed, one out of attempts.
use pstu_final.Base.{
  ℕ, ◌≤◌, false, Option, none, some, [], ◌∷◌, ◌≡◌, refl, arith, find_where, find_where,
}
use pstu_final.Store.Rows.{OutboxEvent}
use pstu_final.Store.Tx.{Db, transaction, ◌>>=◌}
use pstu_final.Fixtures.{test_platform, test_env, test_db}
use pstu_final.Notifications.Repository.{insert_if_absent}
use pstu_final.Notifications.Consumer.{handle}
use pstu_final.Notifications.Sample.{language, received, text_of, read}
use pstu_final.Outbox.Queue.{claim_next, mark_processed}
use pstu_final.Outbox.Processor.{Step, idle, no_interruption, process_next, drain}
use pstu_final.Outbox.Steps.{Stepped, process_next-Stepped}
use pstu_final.Outbox.Attempts.{has_id, IsKeyed}
use pstu_final.Outbox.Drained.{
  IsBounded, drain-IsBounded, drain_final, drain_ends, stepped_by, IsBusy,
}
use pstu_final.Outbox.Poller.{
  IsSound, on_module_init, tick_begins, fires, starts, goes_on, Reach-IsSound,
}

abbrev event : ℕ → ℕ → Option ℕ → OutboxEvent
event id attempts at = record {
  id = id;
  aggregate_type = "transfer";
  aggregate_id = 9;
  event_type = "transfer.succeeded";
  payload = received.payload;
  occurred_at = id;
  processed_at = at;
  attempt_count = attempts;
  last_error = none;
  next_attempt_at = 0;
}

abbrev queue : Db
queue = record test_db { outbox = event 77 2 none ∷ event 78 0 (some 5) ∷ event 79 5 none ∷ [] }

abbrev step : ℕ → Step
step i = record {
  env = test_env 300;
  locked = λ id. false;
  interruption = no_interruption;
  message = λ failure. "failed";
  bookkeeping_fails = false;
  explain = λ payload. none;
}

process_next-Stepped_example :
    Stepped test_platform language
      (step 0)
      queue
      (process_next test_platform language (step 0) queue).1
      (process_next test_platform language (step 0) queue).0
process_next-Stepped_example = process_next-Stepped test_platform language (step 0) queue

drains_one : (drain test_platform language step 50 queue).0 ≡ 1
unfolding drain process_next claim_next handle insert_if_absent text_of read mark_processed
    transaction ◌>>=◌
drains_one = refl

drain-IsBounded_example :
    IsKeyed (drain test_platform language step 50 queue).1.outbox
    × IsBounded (drain test_platform language step 50 queue).1.outbox
drain-IsBounded_example =
    drain-IsBounded test_platform language step 50 queue (refl, (refl, (refl, tt))) (omega arith)

drain_final_example :
    find_where (has_id 79) (drain test_platform language step 50 queue).1.outbox
    ≡ some (event 79 5 none)
drain_final_example =
    drain_final test_platform language step 50 queue (event 79 5 none) (refl, (refl, (refl, tt)))
      refl refl

drain_ends_example :
    (k : ℕ) × (k ≤ 3)
    × IsBusy test_platform language step k 0 queue
    × (process_next test_platform language
          (step k)
          (stepped_by test_platform language step k 0 queue)
        ≡ (idle, (drain test_platform language step 50 queue).1))
drain_ends_example =
    drain_ends test_platform language step (λ i. refl) 50 queue (refl, (refl, (refl, tt)))
      (omega arith)

Reach-IsSound_example : IsSound (tick_begins 0 on_module_init)
unfolding on_module_init
Reach-IsSound_example = Reach-IsSound (goes_on starts (fires on_module_init 0 refl))
