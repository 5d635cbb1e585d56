-- ===== src/Transfers/Settle.antt =====
-- The money movement that direct transfers and accepted requests share: `settle`, `assessRisk` and
-- the assertions of apps/api/src/transfers/transfer.service.ts, with the two queries of
-- apps/api/src/risk/risk.repository.ts. The steps (2) to (9) of the source stand in three parts.
use pstu_final.Base.{
  ℕ, ◌-◌, ◌*◌, String, Bool, true, false, not, Option, none, some, [], ◌∷◌, ◌++◌, any, count_where,
  leb, ◌==◌, str_eq, if◌then◌else◌,
}
use pstu_final.Base.Int.{ℤ, pos, ◌+ℤ◌, ◌-ℤ◌, leb_ℤ, ltb_ℤ}
use pstu_final.Store.Failure.{app, known, unique_constraint_violation, ErrorCode}
use pstu_final.Store.Rows.{
  UserStatus, WalletStatus, Transfer, TransferSource, LedgerDirection, RiskAssessment, RiskLevel,
  AuditAction, Value,
}
use pstu_final.Store.Dto.{TransferDto, RiskAssessmentDto}
use pstu_final.Store.Tx.{Tx, pure, throw_if, or_throw, gets, modify, ◌>>=◌, ◌>>◌}
use pstu_final.Platform.{Platform, Env, Draw, Reading}
use pstu_final.Risk.{RiskContext, RiskEvaluation, high_velocity_window_minutes, evaluate}
use pstu_final.Limits.{sent_since, assert_within_limits}
use pstu_final.Outbox.{insert_event}
use pstu_final.Audit.{record_audit}
use pstu_final.Transfers.Repository.{
  LockedWallet, find_wallet_by_user_id, find_wallet_by_user_text, lock_wallet_by_id,
  insert_pending_transfer, insert_ledger_entry, mark_succeeded, apply_balance_delta,
}

-- `receiver_user_id` is the text that the caller passes; the sender is always an id that a row or a
-- session has shown.
pub record SettleInput : Type 0 where
  pub sender_user_id : ℕ
  pub receiver_user_id : String
  pub amount_minor : ℤ
  pub currency : String
  pub note : Option String

-- The two wallets, locked.
pub record Parties : Type 0 where
  pub sender : LockedWallet
  pub receiver : LockedWallet

abbrev pub is_active_user : UserStatus → Bool
is_active_user UserStatus.active = true
is_active_user UserStatus.suspended = false
is_active_user UserStatus.closed = false

abbrev pub is_active_wallet : WalletStatus → Bool
is_active_wallet WalletStatus.active = true
is_active_wallet WalletStatus.frozen = false
is_active_wallet WalletStatus.closed = false

unfoldable pub assert_participants_active : Parties → Tx (Unit {0})
assert_participants_active w = do
  throw_if (not (is_active_user w.sender.owner_status)) (app 403 ErrorCode.forbidden)
  throw_if (not (is_active_user w.receiver.owner_status)) (app 404 ErrorCode.user_not_found)

unfoldable pub assert_wallets_spendable : Parties → Tx (Unit {0})
assert_wallets_spendable w = do
  throw_if (not (is_active_wallet w.sender.status)) (app 409 ErrorCode.wallet_unavailable)
  throw_if (not (is_active_wallet w.receiver.status)) (app 409 ErrorCode.wallet_unavailable)

unfoldable pub assert_amount_and_balance : ℤ → LockedWallet → Tx (Unit {0})
assert_amount_and_balance amount sender = do
  throw_if (leb_ℤ amount (pos 0)) (app 422 ErrorCode.invalid_transfer)
  throw_if (ltb_ℤ sender.balance_minor amount) (app 409 ErrorCode.insufficient_balance)

-- `first.id === senderProbe.id ? first : second`, and so for the receiver.
abbrev pub identify : ℕ → LockedWallet → LockedWallet → LockedWallet
identify probe first second = if first.id == probe then first else second

module _ (p : Platform) where
  -- (4): the lock of the lower id first. The canonical texts of ids sort as the ids do.
  unfoldable pub lock_both : ℕ → ℕ → Tx Parties
  lock_both sender_id receiver_id = do
    first ← lock_wallet_by_id p (if leb sender_id receiver_id then sender_id else receiver_id)
    second ← lock_wallet_by_id p (if leb sender_id receiver_id then receiver_id else sender_id)
    pure (record {
      sender = identify sender_id first second;
      receiver = identify receiver_id first second;
    })

abbrev pub source_type : TransferSource → String
source_type TransferSource.direct = "DIRECT"
source_type (TransferSource.money_request id) = "MONEY_REQUEST"

abbrev pub source_request_id : TransferSource → Value
source_request_id TransferSource.direct = Value.null
source_request_id (TransferSource.money_request id) = Value.uuid id

abbrev pub level_text : RiskLevel → String
level_text RiskLevel.low = "LOW"
level_text RiskLevel.medium = "MEDIUM"
level_text RiskLevel.high = "HIGH"

abbrev pub is_low : RiskLevel → Bool
is_low RiskLevel.low = true
is_low RiskLevel.medium = false
is_low RiskLevel.high = false

abbrev pub is_high : RiskLevel → Bool
is_high RiskLevel.high = true
is_high RiskLevel.low = false
is_high RiskLevel.medium = false

module _ (p : Platform) where
  abbrev pub to_transfer_dto : Transfer → Option ℤ → Option RiskAssessmentDto → TransferDto
  to_transfer_dto t balance_after risk = record {
    transfer_id = t.id;
    status = t.status;
    sender_user_id = t.sender_user_id;
    receiver_user_id = t.receiver_user_id;
    amount_minor = t.amount_minor;
    currency = p.trim t.currency;
    note = t.note;
    created_at = t.created_at;
    completed_at = t.completed_at;
    sender_balance_after_minor = balance_after;
    risk = risk;
  }

module _ (p : Platform) (e : Env) where
  -- (2) to (5b): nothing is written.
  unfoldable pub authorise : SettleInput → Tx Parties
  authorise input = do
    throw_if (str_eq input.receiver_user_id (p.uuid_out input.sender_user_id))
        (app 422 ErrorCode.invalid_transfer)
    found_sender ← find_wallet_by_user_id p input.sender_user_id
    found_receiver ← find_wallet_by_user_text p input.receiver_user_id
    sender_probe ← or_throw found_sender (app 500 ErrorCode.internal_error)
    receiver_probe ← or_throw found_receiver (app 404 ErrorCode.user_not_found)
    parties ← lock_both p sender_probe.id receiver_probe.id
    assert_participants_active parties
    assert_wallets_spendable parties
    assert_amount_and_balance input.amount_minor parties.sender
    assert_within_limits p e parties.sender.user_id input.amount_minor
    pure parties

  -- (6) to (8).
  unfoldable pub move_money : SettleInput → TransferSource → Parties → Tx Transfer
  move_money input source parties = do
    transfer ← insert_pending_transfer e (record {
      sender_user_id = parties.sender.user_id;
      receiver_user_id = parties.receiver.user_id;
      sender_wallet_id = parties.sender.id;
      receiver_wallet_id = parties.receiver.id;
      amount_minor = input.amount_minor;
      currency = input.currency;
      note = input.note;
      source = source;
    })
    insert_ledger_entry e Draw.debit_entry (record {
      transfer_id = transfer.id;
      wallet_id = parties.sender.id;
      direction = LedgerDirection.debit;
      amount_minor = input.amount_minor;
      signed_amount_minor = pos 0 -ℤ input.amount_minor;
      currency = input.currency;
      balance_after_minor = parties.sender.balance_minor -ℤ input.amount_minor;
    })
    insert_ledger_entry e Draw.credit_entry (record {
      transfer_id = transfer.id;
      wallet_id = parties.receiver.id;
      direction = LedgerDirection.credit;
      amount_minor = input.amount_minor;
      signed_amount_minor = input.amount_minor;
      currency = input.currency;
      balance_after_minor = parties.receiver.balance_minor +ℤ input.amount_minor;
    })
    apply_balance_delta parties.sender.id (pos 0 -ℤ input.amount_minor)
    apply_balance_delta parties.receiver.id input.amount_minor
    mark_succeeded e transfer.id

  unfoldable pub assessment_row : ℕ → RiskEvaluation → RiskAssessment
  assessment_row transfer_id r = record {
    id = e.uuid Draw.assessment;
    transfer_id = transfer_id;
    score = r.score;
    level = r.level;
    reasons = r.reasons;
    explanation = none;
  }

  -- With the primary key and the unique key on `transfer_id`.
  unfoldable pub insert_assessment : ℕ → RiskEvaluation → Tx (Unit {0})
  unfolding assessment_row
  insert_assessment transfer_id r = do
    clash ← gets (λ s. any (λ (a : RiskAssessment). a.id == e.uuid Draw.assessment) s.assessments)
    throw_if clash (known unique_constraint_violation none ("id" ∷ []))
    assessed ← gets (λ s. any (λ (a : RiskAssessment). a.transfer_id == transfer_id) s.assessments)
    throw_if assessed (known unique_constraint_violation none ("transfer_id" ∷ []))
    modify (λ s. record s { assessments = s.assessments ++ assessment_row transfer_id r ∷ [] })

  unfoldable pub risk_context : SettleInput → Parties → ℕ → RiskContext
  risk_context input parties recent = record {
    amount_minor = input.amount_minor;
    sender_balance_before_minor = parties.sender.balance_minor;
    sender_created_at = parties.sender.owner_created_at;
    receiver_created_at = parties.receiver.owner_created_at;
    sender_verification_status = parties.sender.owner_verification_status;
    sender_recent_transfer_count = recent;
    now = e.clock Reading.risk;
  }

  -- `riskRepository.countRecentTransfersFromSender` over the velocity window.
  unfoldable pub count_recent : ℕ → Tx ℕ
  count_recent sender =
      let since = e.clock Reading.risk - high_velocity_window_minutes * 60_000 in
      gets (λ s. count_where (sent_since sender since) s.transfers)

  abbrev pub when : Bool → Tx (Unit {0}) → Tx (Unit {0})
  when c m s = if c then m s else pure tt s

  unfoldable pub assess_risk : SettleInput → Parties → ℕ → Tx RiskAssessmentDto
  unfolding risk_context
  assess_risk input parties transfer_id = do
    recent ← count_recent parties.sender.user_id
    let r = evaluate (risk_context input parties recent)
    insert_assessment transfer_id r
    when (not (is_low r.level)) (
        record_audit e Draw.flagged_audit (record {
          actor_user_id = some parties.sender.user_id;
          action = AuditAction.transfer_risk_flagged;
          resource_type = "transfer";
          resource_id = some transfer_id;
          metadata =
              ("score", Value.number r.score)
              ∷ ("level", Value.text (level_text r.level))
              ∷ ("reasons", Value.joined r.reasons)
              ∷ [];
        }))
    when (is_high r.level) (
        insert_event e Draw.flagged_event (record {
          aggregate_type = "transfer";
          aggregate_id = transfer_id;
          event_type = "transfer.risk_flagged";
          payload =
              ("score", Value.number r.score)
              ∷ ("level", Value.text (level_text r.level))
              ∷ ("reasons", Value.texts r.reasons)
              ∷ [];
        }))
    pure (record { score = r.score; level = r.level; reasons = r.reasons; explanation = none })

  -- (9) and the audit row.
  unfoldable pub announce : SettleInput → TransferSource → Parties → ℕ → Tx (Unit {0})
  announce input source parties transfer_id = do
    insert_event e Draw.succeeded_event (record {
      aggregate_type = "transfer";
      aggregate_id = transfer_id;
      event_type = "transfer.succeeded";
      payload =
          ("transferId", Value.uuid transfer_id)
          ∷ ("senderUserId", Value.uuid parties.sender.user_id)
          ∷ ("receiverUserId", Value.uuid parties.receiver.user_id)
          ∷ ("amountMinor", Value.bigint input.amount_minor)
          ∷ ("currency", Value.text input.currency)
          ∷ ("sourceRequestId", source_request_id source)
          ∷ [];
    })
    record_audit e Draw.succeeded_audit (record {
      actor_user_id = some parties.sender.user_id;
      action = AuditAction.transfer_succeeded;
      resource_type = "transfer";
      resource_id = some transfer_id;
      metadata =
          ("receiverUserId", Value.uuid parties.receiver.user_id)
          ∷ ("amountMinor", Value.bigint input.amount_minor)
          ∷ ("currency", Value.text input.currency)
          ∷ ("sourceType", Value.text (source_type source))
          ∷ ("sourceRequestId", source_request_id source)
          ∷ [];
    })

  unfoldable pub settle : SettleInput → TransferSource → Tx TransferDto
  settle input source = do
    parties ← authorise input
    transfer ← move_money input source parties
    assessment ← assess_risk input parties transfer.id
    announce input source parties transfer.id
    pure (
        to_transfer_dto p transfer (some (parties.sender.balance_minor -ℤ input.amount_minor))
          (some assessment))
