-- ===== src/Transfers/Service.antt =====
-- `createDirectTransfer`, `runTransfer`, `settleMoneyRequest` and `canonicalPayload` of
-- apps/api/src/transfers/transfer.service.ts, and the read path of transfer-query.service.ts.
use pstu_final.Base.{
  ℕ, zero, suc, String, ◌||◌, not, Option, none, some, [], ◌∷◌, find_where, ◌==◌, if◌then◌else◌,
}
use pstu_final.Base.Int.{ℤ}
use pstu_final.Base.Text.{codes, matches_uuid_pattern}
use pstu_final.Store.Failure.{
  Failure, app, known, coded, plain, ErrorCode, is_retryable_transaction_error,
}
use pstu_final.Store.Rows.{Transfer, TransferSource, RiskAssessment, AuditAction, Value, Fields}
use pstu_final.Store.Dto.{Body, TransferDto, RiskAssessmentDto}
use pstu_final.Store.Tx.{
  Tx, ok, err, pure, throw, throw_if, or_throw, gets, transaction, rolled_back, ◌>>=◌, ◌>>◌,
}
use pstu_final.Platform.{Platform, Env, Draw}
use pstu_final.Audit.{record_detached}
use pstu_final.Idempotency.{BeginResult, claimed, replayed, begin, complete}
use pstu_final.Transfers.Settle.{settle, to_transfer_dto}

pub record CreateDirectTransferCommand : Type 0 where
  pub actor_user_id : ℕ
  pub receiver_user_id : String
  pub amount_minor : ℤ
  pub currency : String
  pub note : Option String
  pub idempotency_key : String

pub record SettleMoneyRequestCommand : Type 0 where
  pub payer_user_id : ℕ
  pub requester_user_id : ℕ
  pub amount_minor : ℤ
  pub currency : String
  pub note : Option String
  pub source_request_id : ℕ

-- One run of the transaction: what it draws and reads, or the error with which the database ends
-- it (a deadlock victim, a serialization failure, a timeout, a lost connection).
pub record Attempt : Type 0 where
  pub env : Env
  pub abort : Option Failure

abbrev pub route_key : String
route_key = "POST:/transfers"

abbrev pub max_transfer_attempts : ℕ
max_transfer_attempts = 3

abbrev pub note_value : Option String → Value
note_value none = Value.null
note_value (some note) = Value.text note

unfoldable pub canonical_payload : CreateDirectTransferCommand → Fields
canonical_payload command =
    ("receiverUserId", Value.text command.receiver_user_id)
    ∷ ("amountMinor", Value.bigint command.amount_minor)
    ∷ ("currency", Value.text command.currency)
    ∷ ("note", note_value command.note)
    ∷ []

-- `error instanceof AppException ? error.code : 'INTERNAL_ERROR'`
unfoldable pub failure_reason : Failure → String
failure_reason (app status ErrorCode.validation_error) = "VALIDATION_ERROR"
failure_reason (app status ErrorCode.unauthenticated) = "UNAUTHENTICATED"
failure_reason (app status ErrorCode.forbidden) = "FORBIDDEN"
failure_reason (app status ErrorCode.user_not_found) = "USER_NOT_FOUND"
failure_reason (app status ErrorCode.transfer_not_found) = "TRANSFER_NOT_FOUND"
failure_reason (app status ErrorCode.money_request_not_found) = "MONEY_REQUEST_NOT_FOUND"
failure_reason (app status ErrorCode.insufficient_balance) = "INSUFFICIENT_BALANCE"
failure_reason (app status ErrorCode.transfer_limit_exceeded) = "TRANSFER_LIMIT_EXCEEDED"
failure_reason (app status ErrorCode.request_already_resolved) = "REQUEST_ALREADY_RESOLVED"
failure_reason (app status ErrorCode.idempotency_key_reused) = "IDEMPOTENCY_KEY_REUSED"
failure_reason (app status ErrorCode.wallet_unavailable) = "WALLET_UNAVAILABLE"
failure_reason (app status ErrorCode.invalid_transfer) = "INVALID_TRANSFER"
failure_reason (app status ErrorCode.rate_limited) = "RATE_LIMITED"
failure_reason (app status ErrorCode.internal_error) = "INTERNAL_ERROR"
failure_reason (app status ErrorCode.service_unavailable) = "SERVICE_UNAVAILABLE"
failure_reason (app status ErrorCode.not_found) = "NOT_FOUND"
failure_reason (known code meta target) = "INTERNAL_ERROR"
failure_reason (coded code) = "INTERNAL_ERROR"
failure_reason (plain message) = "INTERNAL_ERROR"

module _ (p : Platform) where
  module _ (e : Env) where
    unfoldable pub settle_money_request : SettleMoneyRequestCommand → Tx TransferDto
    settle_money_request command =
        settle p e
          (record {
            sender_user_id = command.payer_user_id;
            receiver_user_id = p.uuid_out command.requester_user_id;
            amount_minor = command.amount_minor;
            currency = command.currency;
            note = command.note;
          })
          (TransferSource.money_request command.source_request_id)

    unfoldable pub settle_direct : CreateDirectTransferCommand → Tx TransferDto
    settle_direct command =
        settle p e
          (record {
            sender_user_id = command.actor_user_id;
            receiver_user_id = command.receiver_user_id;
            amount_minor = command.amount_minor;
            currency = command.currency;
            note = command.note;
          })
          TransferSource.direct

    -- After `begin`: the stored response, or the movement and then `complete`.
    unfoldable pub run_claimed : CreateDirectTransferCommand → BeginResult → Tx Body
    unfolding settle_direct
    run_claimed command (replayed status body) = pure body
    run_claimed command (claimed record_id) = do
      receipt ← settle_direct command
      complete (record {
        record_id = record_id;
        response_status = 201;
        response_body = Body.transfer receipt;
        resource_type = "transfer";
        resource_id = receipt.transfer_id;
      })
      pure (Body.transfer receipt)

    unfoldable pub run_transfer : CreateDirectTransferCommand → Tx Body
    unfolding run_claimed
    run_transfer command = do
      begun ← begin p e (record {
        actor_user_id = command.actor_user_id;
        route_key = route_key;
        idempotency_key = command.idempotency_key;
        payload = canonical_payload command;
      })
      run_claimed command begun

    -- The audit row of a failure, written outside the transaction, and the error thrown again.
    unfoldable pub give_up : CreateDirectTransferCommand → Failure → Tx Body
    give_up command failure = do
      record_detached e Draw.failed_audit (record {
        actor_user_id = some command.actor_user_id;
        action = AuditAction.transfer_failed;
        resource_type = "transfer";
        resource_id = none;
        metadata =
            ("receiverUserId", Value.text command.receiver_user_id)
            ∷ ("amountMinor", Value.bigint command.amount_minor)
            ∷ ("currency", Value.text command.currency)
            ∷ ("reason", Value.text (failure_reason failure))
            ∷ [];
      })
      throw failure

  unfoldable pub run_attempt : Attempt → CreateDirectTransferCommand → Tx Body
  unfolding run_transfer
  run_attempt a command = elim a.abort [
    | none ↦ transaction (run_transfer a.env command)
    | some failure ↦ rolled_back failure
  ]

  module _ (attempts : ℕ → Attempt) (command : CreateDirectTransferCommand) where
    -- The loop, with `left` retries after attempt number `n`.
    unfoldable pub attempt_loop : ℕ → ℕ → Tx Body
    unfolding give_up
    attempt_loop zero n s =
        let (r, s') = run_attempt (attempts n) command s in
        elim r [ ok body ↦ (ok body, s') | err f ↦ give_up (attempts n).env command f s' ]
    attempt_loop (suc left) n s =
        let (r, s') = run_attempt (attempts n) command s in
        let again = attempt_loop left (suc n) s' in
        elim r [
          | ok body ↦ (ok body, s')
          | err f ↦
              if is_retryable_transaction_error f
              then again
              else give_up (attempts n).env command f s'
        ]

    unfoldable pub create_direct_transfer : Tx Body
    unfolding attempt_loop
    create_direct_transfer = attempt_loop 2 1

  abbrev assessment_dto : Option RiskAssessment → Option RiskAssessmentDto
  assessment_dto none = none
  assessment_dto (some a) = some (record {
    score = a.score;
    level = a.level;
    reasons = a.reasons;
    explanation = a.explanation;
  })

  abbrev transfer_not_found : Failure
  transfer_not_found = app 404 ErrorCode.transfer_not_found

  -- TransferQueryService.getForParticipant, with the text of the path.
  unfoldable pub get_for_participant : String → ℕ → Tx TransferDto
  get_for_participant transfer_id user = do
    throw_if (not (matches_uuid_pattern (codes transfer_id))) transfer_not_found
    id ← or_throw (p.uuid_in transfer_id) (known "P2023" none [])
    found ← gets (λ s. find_where (λ (t : Transfer). t.id == id) s.transfers)
    transfer ← or_throw found transfer_not_found
    throw_if (not (transfer.sender_user_id == user || transfer.receiver_user_id == user))
        transfer_not_found
    assessment ← gets (λ s. find_where (λ (a : RiskAssessment). a.transfer_id == id) s.assessments)
    pure (to_transfer_dto p transfer none (assessment_dto assessment))
