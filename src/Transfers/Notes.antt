-- ===== src/Transfers/Notes.antt =====
-- When the risk assessment, the events and the audit rows of a settlement are all written.
use pstu_final.Store.Run.{>>=-elim}
use pstu_final.Risk.{RiskEvaluation}
use pstu_final.Store.Failure.{Failure}
use pstu_final.Base.{Bool, ℕ, ◌≡◌, ◌≢◌, false, [], ◌∷◌, arith, any, any-append, ◌==◌}
use pstu_final.Store.Rows.{TransferSource, RiskAssessment, OutboxEvent, AuditEvent}
use pstu_final.Store.Dto.{RiskAssessmentDto}
use pstu_final.Store.Tx.{err, Db, ok, ◌>>=◌}
use pstu_final.Platform.{Platform, Env, Draw}
use pstu_final.Audit.{AuditEntry, record_audit, to_row}
use pstu_final.Outbox.{OutboxEventInput, insert_event, new_event}
use pstu_final.Transfers.Settle.{
  when, SettleInput, Parties, assess_risk, announce, insert_assessment, count_recent,
}

-- The ids that a settlement draws for its assessment, its events and its audit rows are those of no
-- row, and differ where two rows of a table need one.
pub record NotesFresh (e : Env) (s : Db) : Type 0 where
  pub assessment :
      any (λ (a : RiskAssessment). a.id == e.uuid Draw.assessment) s.assessments ≡ false
  pub unassessed :
      any (λ (a : RiskAssessment). a.transfer_id == e.uuid Draw.transfer) s.assessments ≡ false
  pub flagged_event : any (λ (r : OutboxEvent). r.id == e.uuid Draw.flagged_event) s.outbox ≡ false
  pub succeeded_event :
      any (λ (r : OutboxEvent). r.id == e.uuid Draw.succeeded_event) s.outbox ≡ false
  pub events : e.uuid Draw.flagged_event ≢ e.uuid Draw.succeeded_event
  pub flagged_audit : any (λ (r : AuditEvent). r.id == e.uuid Draw.flagged_audit) s.audit ≡ false
  pub succeeded_audit :
      any (λ (r : AuditEvent). r.id == e.uuid Draw.succeeded_audit) s.audit ≡ false
  pub audits : e.uuid Draw.flagged_audit ≢ e.uuid Draw.succeeded_audit

module _ (e : Env) where
  insert_event-safe :
      (draw : Draw) (event : OutboxEventInput) (s : Db) (g : Failure) (s' : Db)
      → any (λ (r : OutboxEvent). r.id == e.uuid draw) s.outbox ≡ false
      → insert_event e draw event s ≡ (err g, s')
      → ⊥
  unfolding insert_event ◌>>=◌
  insert_event-safe draw event s g s' fresh h = ground arith

  record_audit-safe :
      (draw : Draw) (entry : AuditEntry) (s : Db) (g : Failure) (s' : Db)
      → any (λ (r : AuditEvent). r.id == e.uuid draw) s.audit ≡ false
      → record_audit e draw entry s ≡ (err g, s')
      → ⊥
  unfolding record_audit ◌>>=◌
  record_audit-safe draw entry s g s' fresh h = ground arith

module _ (e : Env) where
  when_event-fresh :
      (p : Platform) (c : Bool) (event : OutboxEventInput) (s : Db) (u : Unit {0}) (s' : Db)
      → e.uuid Draw.flagged_event ≢ e.uuid Draw.succeeded_event
      → any (λ (r : OutboxEvent). r.id == e.uuid Draw.succeeded_event) s.outbox ≡ false
      → when p e c (insert_event e Draw.flagged_event event) s ≡ (ok u, s')
      → (any (λ (r : OutboxEvent). r.id == e.uuid Draw.succeeded_event) s'.outbox ≡ false)
        × (s'.audit ≡ s.audit)
  unfolding insert_event new_event ◌>>=◌
  when_event-fresh p c event s u s' apart fresh h =
      let grown =
        any-append (λ (r : OutboxEvent). r.id == e.uuid Draw.succeeded_event) s.outbox
          (new_event e Draw.flagged_event event ∷ []) in
      ground arith

  when_audit-fresh :
      (p : Platform) (c : Bool) (entry : AuditEntry) (s : Db) (u : Unit {0}) (s' : Db)
      → e.uuid Draw.flagged_audit ≢ e.uuid Draw.succeeded_audit
      → any (λ (r : AuditEvent). r.id == e.uuid Draw.succeeded_audit) s.audit ≡ false
      → when p e c (record_audit e Draw.flagged_audit entry) s ≡ (ok u, s')
      → (any (λ (r : AuditEvent). r.id == e.uuid Draw.succeeded_audit) s'.audit ≡ false)
        × (s'.outbox ≡ s.outbox)
  unfolding record_audit to_row ◌>>=◌
  when_audit-fresh p c entry s u s' apart fresh h =
      let grown =
        any-append (λ (r : AuditEvent). r.id == e.uuid Draw.succeeded_audit) s.audit
          (to_row e Draw.flagged_audit entry ∷ []) in
      ground arith

insert_assessment-outside :
    (p : Platform) (e : Env) (id : ℕ) (r : RiskEvaluation) (s : Db) (u : Unit {0}) (s' : Db)
    → insert_assessment p e id r s ≡ (ok u, s')
    → (s'.outbox ≡ s.outbox) × (s'.audit ≡ s.audit)
unfolding insert_assessment ◌>>=◌
insert_assessment-outside p e id r s u s' h = ground arith

module _ (p : Platform) (e : Env) (input : SettleInput) (source : TransferSource)
    (w : Parties) where
  pub assess_risk-safe :
      (s : Db) (g : Failure) (s' : Db)
      → NotesFresh e s
      → assess_risk p e input w (e.uuid Draw.transfer) s ≡ (err g, s')
      → ⊥
  unfolding assess_risk insert_assessment count_recent record_audit insert_event ◌>>=◌
  assess_risk-safe s g s' f h =
      let f1 = f.assessment in
      let f2 = f.unassessed in let f3 = f.flagged_event in let f4 = f.flagged_audit in ground arith

  -- The rows that the assessment may have added are not those that the rest will add.
  pub assess_risk-fresh :
      (s : Db) (a : RiskAssessmentDto) (s' : Db)
      → NotesFresh e s
      → assess_risk p e input w (e.uuid Draw.transfer) s ≡ (ok a, s')
      → (any (λ (r : OutboxEvent). r.id == e.uuid Draw.succeeded_event) s'.outbox ≡ false)
        × (any (λ (r : AuditEvent). r.id == e.uuid Draw.succeeded_audit) s'.audit ≡ false)
  unfolding assess_risk count_recent
  assess_risk-fresh s a s' f h = >>=-elim _ _ s h λ n s1 h1 r1. >>=-elim _ _ s1 r1 λ u2 s2 h2 r2.
      >>=-elim _ _ s2 r2 λ u3 s3 h3 r3. >>=-elim _ _ s3 r3 λ u4 s4 h4 r4.
        let f1 = f.succeeded_event in
        let f2 = f.succeeded_audit in
        let e2 = insert_assessment-outside p e _ _ s1 u2 s2 h2 in
        let audited = when_audit-fresh e p _ _ s2 u3 s3 f.audits (ground arith) h3 in
        let evented = when_event-fresh e p _ _ s3 u4 s4 f.events (ground arith) h4 in ground arith

  pub announce-safe :
      (id : ℕ) (s : Db) (g : Failure) (s' : Db)
      → any (λ (r : OutboxEvent). r.id == e.uuid Draw.succeeded_event) s.outbox ≡ false
      → any (λ (r : AuditEvent). r.id == e.uuid Draw.succeeded_audit) s.audit ≡ false
      → announce p e input source w id s ≡ (err g, s')
      → ⊥
  unfolding announce record_audit insert_event ◌>>=◌
  announce-safe id s g s' f1 f2 h = ground arith
