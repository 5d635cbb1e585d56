-- ===== src/Outbox/Steps.antt =====
-- What one step of the worker does to the tables.
use pstu_final.Base.{
  String, true, ◌⊎◌, str_eq, subst, ℕ, Bool, Bool-cases, Option-cases, Option, none, some, List, [],
  ◌∷◌, ◌++◌, ◌≡◌, refl, inl, inr, arith, update_where, ◌==◌, if◌then◌else◌,
}
use pstu_final.Store.Failure.{Failure}
use pstu_final.Store.Rows.{OutboxEvent, RiskAssessment}
use pstu_final.Store.Tx.{settled, outbox_row, Db, Result, ok, err, transaction, rolled_back, ◌>>=◌}
use pstu_final.Store.Run.{>>=-ok, >>=-elim}
use pstu_final.Platform.{Platform, Env, Reading}
use pstu_final.MoneyRequests.Handlers.{OnlyLocked}
use pstu_final.Notifications.Repository.{CreateNotificationData, insert_if_absent}
use pstu_final.Notifications.Consumer.{Language, PlannedNotification, handle, plan, insert_all}
use pstu_final.Outbox.Queue.{
  ClaimedOutboxEvent, to_claimed, next_due, claim_next, mark_processed, processed_now, failed_now,
}
use pstu_final.Outbox.Processor.{
  Interruption, Step, Outcome, processed, failed, idle, no_interruption, claim_fails, later_fails,
  max_attempts, backoff_seconds, run_event, run_step, attempt, in_flight, conclude, charge,
  process_next, try_explain, set_explanation,
}

-- Only notifications have been added.
abbrev pub OnlyNotified : Db → Db → Type 0
OnlyNotified s s' = s' ≡ record s { notifications = s'.notifications }

module _ (p : Platform) (l : Language) (e : Env) where
  insert_if_absent-inv :
      (input : CreateNotificationData) (s : Db) (r : Result Bool) (s' : Db)
      → insert_if_absent p e input s ≡ (r, s')
      → OnlyNotified s s'
  unfolding insert_if_absent ◌>>=◌
  insert_if_absent-inv input s r s' h = ground arith

  insert_all-inv :
      (source : ℕ) (planned : List PlannedNotification) (s : Db) (u : Unit {0}) (s' : Db)
      → insert_all p e source planned s ≡ (ok u, s')
      → OnlyNotified s s'
  unfolding insert_all
  insert_all-inv source [] s u s' h = ground arith
  insert_all-inv source (x ∷ rest) s u s' h = >>=-elim _ _ s h λ b t first later.
      let one = insert_if_absent-inv _ s (ok b) t first in
      let others = insert_all-inv source rest t u s' later in ground arith

  plan-inv :
      (event : ClaimedOutboxEvent) (s : Db) (r : Result (List PlannedNotification)) (s' : Db)
      → plan l event s ≡ (r, s')
      → s' ≡ s
  unfolding plan ◌>>=◌
  plan-inv event s r s' h = ground arith

  pub handle-inv :
      (event : ClaimedOutboxEvent) (s : Db) (u : Unit {0}) (s' : Db)
      → handle p l e event s ≡ (ok u, s')
      → OnlyNotified s s'
  unfolding handle
  handle-inv event s u s' h = >>=-elim _ _ s h λ planned t first later.
      let same = plan-inv event s (ok planned) t first in
      let added = insert_all-inv event.id planned t u s' later in ground arith

module _ (p : Platform) (l : Language) (step : Step) where
  abbrev due_row : Db → Option OutboxEvent
  due_row s = next_due step.locked max_attempts (step.env.clock Reading.outbox_claim) s.outbox

  -- The assessments stay as they are, or the event was a flagged risk, the AI service had a sentence
  -- for it, and the assessment of its transfer has got this explanation and nothing else.
  abbrev pub Explains : OutboxEvent → List RiskAssessment → List RiskAssessment → Type 0
  Explains row before after =
      (after ≡ before)
      ⊎ ((str_eq row.event_type "transfer.risk_flagged" ≡ true)
          × (sentence : String) × (step.explain row.payload ≡ some sentence)
          × (after
              ≡ update_where (λ (a : RiskAssessment). a.transfer_id == row.aggregate_id)
                  (λ (a : RiskAssessment). record a { explanation = some sentence }) before))

  -- The three ways in which a step ends.
  pub data Stepped (s s' : Db) : Outcome → Type 0 where
    idles : OnlyLocked s s' → Stepped s s' idle
    -- nothing but the counters of the event, where they could be written
    fails :
        (row : OutboxEvent) (failure : Failure)
        → due_row s ≡ some row
        → s' ≡ record s {
          outbox =
              if step.bookkeeping_fails
              then s.outbox
              else update_where
                  (λ (r : OutboxEvent). r.id == row.id)
                  (failed_now step.env (step.message failure) (backoff_seconds row.attempt_count))
                  s.outbox;
          locks = [];
        }
        → Stepped s s' failed
    -- what its consumer wrote stands together with the mark
    processes :
        (row : OutboxEvent) (u t : Db)
        → due_row s ≡ some row
        → u ≡ record s { locks = u.locks }
        → handle p l step.env (to_claimed row) u ≡ (ok tt, t)
        → s' ≡ record s {
          outbox =
              update_where (λ (r : OutboxEvent). r.id == row.id) (processed_now step.env) s.outbox;
          notifications = t.notifications;
          assessments = s'.assessments;
          locks = [];
        }
        → Explains row s.assessments s'.assessments
        → Stepped s s' processed

  claim_next-none :
      (s : Db) → due_row s ≡ none → claim_next step.env step.locked max_attempts s ≡ (ok none, s)
  unfolding claim_next ◌>>=◌
  claim_next-none s empty = rw empty refl

  claim_next-some :
      (s : Db) (row : OutboxEvent)
      → due_row s ≡ some row
      → claim_next step.env step.locked max_attempts s
        ≡ (ok (some (to_claimed row)), record s { locks = s.locks ++ outbox_row row.id ∷ [] })
  unfolding claim_next ◌>>=◌
  claim_next-some s row found = rw found refl

  charge_lem :
      (s : Db) (row : OutboxEvent) (failure : Failure)
      → charge step (to_claimed row) failure (record s { locks = [] }) ≡ record s {
        outbox =
            if step.bookkeeping_fails
            then s.outbox
            else update_where
                (λ (r : OutboxEvent). r.id == row.id)
                (failed_now step.env (step.message failure) (backoff_seconds row.attempt_count))
                s.outbox;
        locks = [];
      }
  unfolding charge
  charge_lem s row failure = elim (Bool-cases step.bookkeeping_fails) [
    | inl b ↦ rw b refl
    | inr b ↦ rw b refl
  ]

  run_event-inv :
      (event : ClaimedOutboxEvent) (u : Db) (claimed : Option ClaimedOutboxEvent) (v : Db)
      → run_event p l step (some event) u ≡ (ok claimed, v)
      → (t : Db) × (handle p l step.env event u ≡ (ok tt, t))
        × (claimed ≡ some event)
        × (v ≡ record t {
          outbox =
              update_where
                (λ (r : OutboxEvent). r.id == event.id)
                (processed_now step.env)
                t.outbox;
        })
  unfolding run_event
  run_event-inv event u claimed v h = >>=-elim _ _ u h λ x w marked last.
      >>=-elim _ _ u marked
        λ y t handled mark. (t, handled, ground arith, marks t x w mark (ground arith))
    where
      marks :
          (t : Db) (x : Unit {0}) (w : Db)
          → mark_processed step.env event.id t ≡ (ok x, w)
          → w ≡ v
          → v ≡ record t {
            outbox =
                update_where
                  (λ (r : OutboxEvent). r.id == event.id)
                  (processed_now step.env)
                  t.outbox;
          }
      marks t x w mark same = unfold mark_processed ◌>>=◌ in ground arith

  -- The step, where the transaction has claimed a row.
  abbrev claims : Db → OutboxEvent → Db
  claims s row = record s { locks = [] ++ outbox_row row.id ∷ [] }

  run_step-some :
      (s : Db) (row : OutboxEvent)
      → due_row s ≡ some row
      → run_step p l step (record s { locks = [] })
        ≡ run_event p l step (some (to_claimed row)) (claims s row)
  unfolding run_step
  run_step-some s row found =
      >>=-ok (claim_next step.env step.locked max_attempts) (run_event p l step)
        (record s { locks = [] }) (some (to_claimed row)) (claims s row)
        (claim_next-some (record s { locks = [] }) row found)

  run_step-none :
      (s : Db)
      → due_row s ≡ none
      → run_step p l step (record s { locks = [] }) ≡ (ok none, record s { locks = [] })
  unfolding run_step
  run_step-none s empty =
      >>=-ok (claim_next step.env step.locked max_attempts) (run_event p l step)
        (record s { locks = [] }) none (record s { locks = [] })
        (claim_next-none (record s { locks = [] }) empty)

  try_explain-inv :
      (event : ClaimedOutboxEvent) (s : Db)
      → try_explain step event s ≡ record s { assessments = (try_explain step event s).assessments }
  unfolding try_explain
  try_explain-inv event s = ground arith

  try_explain-Explains :
      (row : OutboxEvent) (s : Db)
      → Explains row s.assessments (try_explain step (to_claimed row) s).assessments
  unfolding try_explain set_explanation
  try_explain-Explains row s = elim (Bool-cases (str_eq row.event_type "transfer.risk_flagged")) [
    | inr other ↦ rw other (inl refl)
    | inl flagged ↦ elim (Option-cases (step.explain row.payload)) [
      | inl silent ↦ rw (flagged, silent) (inl refl)
      | inr (sentence, said) ↦ rw (flagged, said) (inr (refl, sentence, refl, refl))
    ]
  ]

  concluded :
      (s : Db) (row : OutboxEvent) (x : Result (Option ClaimedOutboxEvent) × Db)
      → due_row s ≡ some row
      → run_event p l step (some (to_claimed row)) (claims s row) ≡ x
      → Stepped s
          (conclude step (some (to_claimed row)) (settled s x)).1
          (conclude step (some (to_claimed row)) (settled s x)).0
  unfolding conclude
  concluded s row (err failure, v) found ran = fails row failure found (charge_lem s row failure)
  concluded s row (ok claimed, v) found ran =
      let (t, handled, same, marked) =
        run_event-inv (to_claimed row) (claims s row) claimed v ran in
      let written = handle-inv p l step.env (to_claimed row) (claims s row) tt t handled in
      let said = try_explain-inv (to_claimed row) (record v { locks = [] }) in
      let explains = try_explain-Explains row (record v { locks = [] }) in
      let kept : v.assessments ≡ s.assessments = ground arith in
      rw same (
        processes row (claims s row) t found refl handled (ground arith) (
          subst
            (λ (before : List RiskAssessment).
              Explains row before
                (try_explain step (to_claimed row) (record v { locks = [] })).assessments)
            kept explains))

  attempt-settled :
      (s : Db)
      → attempt p l step no_interruption s ≡ settled s (run_step p l step (record s { locks = [] }))
  unfolding attempt transaction
  attempt-settled s = refl

  in_flight-some :
      (s : Db) (row : OutboxEvent)
      → due_row s ≡ some row
      → in_flight step no_interruption s ≡ some (to_claimed row)
  unfolding in_flight
  in_flight-some s row found = rw (claim_next-some s row found) refl

  uninterrupted :
      (s : Db)
      → Stepped s
          (conclude step (in_flight step no_interruption s) (attempt p l step no_interruption s)).1
          (conclude step (in_flight step no_interruption s) (attempt p l step no_interruption s)).0
  uninterrupted s = elim (Option-cases (due_row s)) [
    | inl empty ↦ rw (attempt-settled s, run_step-none s empty) (unfold conclude in idles refl)
    | inr (row, found) ↦
        rw (attempt-settled s, in_flight-some s row found, run_step-some s row found)
          (concluded s row (run_event p l step (some (to_claimed row)) (claims s row)) found refl)
  ]

  stepped :
      (i : Interruption) (s : Db)
      → Stepped s
          (conclude step (in_flight step i s) (attempt p l step i s)).1
          (conclude step (in_flight step i s) (attempt p l step i s)).0
  unfolding conclude in_flight attempt rolled_back
  stepped (claim_fails failure) s = idles refl
  stepped (later_fails failure) s = elim (Option-cases (due_row s)) [
    | inl empty ↦ rw (claim_next-none s empty) (idles refl)
    | inr (row, found) ↦
        rw (claim_next-some s row found) (fails row failure found (charge_lem s row failure))
  ]
  stepped no_interruption s = uninterrupted s

  -- A step claims an event that is due, unprocessed, short of its attempts and held by no other
  -- worker, and then has either written what the consumer wrote together with the mark that the
  -- event is processed, and besides these at most, for a flagged risk, the sentence of the AI service
  -- as the explanation of that transfer's assessment, or has changed nothing but the attempts, the
  -- error and the next time of that event, which it leaves too where they cannot be written; or it is
  -- idle and has changed no table.
  pub process_next-Stepped :
      (s : Db) → Stepped s (process_next p l step s).1 (process_next p l step s).0
  unfolding process_next
  process_next-Stepped s = stepped step.interruption s
