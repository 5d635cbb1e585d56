-- ===== src/Audit.antt =====
-- The audit trail: apps/api/src/audit/audit.service.ts.
use pstu_final.Base.{◌≡◌, arith, ℕ, String, Option, none, [], ◌∷◌, ◌++◌, any, ◌==◌}
use pstu_final.Store.Failure.{known, unique_constraint_violation}
use pstu_final.Store.Rows.{AuditAction, AuditEvent, Fields}
use pstu_final.Store.Tx.{Db, Tx, Result, ok, err, throw_if, gets, modify, ◌>>=◌, ◌>>◌}
use pstu_final.Platform.{Env, Draw, Reading}

pub record AuditEntry : Type 0 where
  pub actor_user_id : Option ℕ
  pub action : AuditAction
  pub resource_type : String
  pub resource_id : Option ℕ
  pub metadata : Fields

module _ (e : Env) where
  unfoldable pub to_row : Draw → AuditEntry → AuditEvent
  to_row draw entry = record {
    id = e.uuid draw;
    actor_user_id = entry.actor_user_id;
    action = entry.action;
    resource_type = entry.resource_type;
    resource_id = entry.resource_id;
    request_id = e.request_id;
    metadata = entry.metadata;
    created_at = e.clock Reading.audit_insert;
  }

  -- `record`: in the caller's transaction.
  unfoldable pub record_audit : Draw → AuditEntry → Tx (Unit {0})
  unfolding to_row
  record_audit draw entry = do
    clash ← gets (λ s. any (λ (r : AuditEvent). r.id == e.uuid draw) s.audit)
    throw_if clash (known unique_constraint_violation none ("id" ∷ []))
    modify (λ s. record s { audit = s.audit ++ to_row draw entry ∷ [] })

  abbrev swallow : Db → Result (Unit {0}) × Db → Result (Unit {0}) × Db
  swallow before (ok done, s) = (ok done, s)
  swallow before (err failure, s) = (ok tt, before)

  -- `recordDetached`: a statement of its own, whose failure is swallowed.
  unfoldable pub record_detached : Draw → AuditEntry → Tx (Unit {0})
  unfolding record_audit
  record_detached draw entry s = swallow s (record_audit draw entry s)

  pub record_audit-inv :
      (draw : Draw) (entry : AuditEntry) (s : Db) (u : Unit {0}) (s' : Db)
      → record_audit draw entry s ≡ (ok u, s')
      → s' ≡ record s { audit = s.audit ++ to_row draw entry ∷ [] }
  unfolding record_audit ◌>>=◌
  record_audit-inv draw entry s u s' h = ground arith

  pub record_detached-inv :
      (draw : Draw) (entry : AuditEntry) (s : Db) (r : Result (Unit {0})) (s' : Db)
      → record_detached draw entry s ≡ (r, s')
      → (r ≡ ok tt) × (s' ≡ record s { audit = s'.audit })
  unfolding record_detached record_audit ◌>>=◌
  record_detached-inv draw entry s r s' h = ground arith
