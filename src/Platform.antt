-- ===== src/Platform.antt =====
-- What the services take from outside the repository: the UUID and text conversions of PostgreSQL
-- and of the language, SHA-256, the configuration (apps/api/src/config/app-config.service.ts), and
-- what one run of a handler meets: its readings of the clocks and the ids that are drawn for it.
use pstu_final.Base.{ℕ, String, Option, List}
use pstu_final.Base.Int.{ℤ}

pub record Platform : Type 0 where
  -- the cast `text::uuid`, which fails on a text of another form
  pub uuid_in : String → Option ℕ
  -- the canonical text of an id, as every row that is read back shows it
  pub uuid_out : ℕ → String
  -- `Date.prototype.toISOString`
  pub iso : ℕ → String
  -- `String.prototype.trim`
  pub trim : String → String
  -- createHash('sha256').update(text).digest('hex')
  pub sha256 : List ℕ → String
  -- AppConfigService
  pub initial_wallet_balance_minor : ℤ
  pub daily_transfer_limit_minor : ℤ
  pub weekly_transfer_limit_minor : ℤ
  pub monthly_transfer_limit_minor : ℤ

-- The places at which a handler reads a clock, each with a reading of its own: the code compares
-- none of them with another, and the model does not suppose that they agree.
pub data Reading : Type 0 where
  claim ledger_insert transfer_insert transfer_completion : Reading
  limits risk outbox_insert audit_insert : Reading
  request_expiry request_insert request_resolution request_view : Reading
  outbox_claim outbox_processed outbox_failure notification_insert : Reading
  user_insert session_insert session_revocation session_check session_expiry : Reading
  notification_read verification : Reading

-- The rows for which a handler draws a fresh id.
pub data Draw : Type 0 where
  idempotency_record transfer debit_entry credit_entry assessment : Draw
  succeeded_event flagged_event succeeded_audit flagged_audit failed_audit : Draw
  money_request request_event request_audit notification : Draw
  user wallet session auth_audit verification_audit guard_audit : Draw

pub record Env : Type 0 where
  pub clock : Reading → ℕ
  pub uuid : Draw → ℕ
  -- the correlation id of the HTTP request (AsyncLocalStorage)
  pub request_id : Option String
