-- ===== src/Store/Dto.antt =====
-- The responses that the services return and that an idempotency record stores:
-- apps/api/src/transfers/dto/transfer.dto.ts, apps/api/src/risk/dto/risk-assessment.dto.ts,
-- apps/api/src/money-requests/dto/money-request.dto.ts.
use pstu_final.Base.{ℕ, String, Option, List}
use pstu_final.Base.Int.{ℤ}
use pstu_final.Store.Rows.{TransferStatus, MoneyRequestStatus, RiskLevel, IdempotencyState}

pub record RiskAssessmentDto : Type 0 where
  pub score : ℕ
  pub level : RiskLevel
  pub reasons : List String
  pub explanation : Option String

pub record TransferDto : Type 0 where
  pub transfer_id : ℕ
  pub status : TransferStatus
  pub sender_user_id : ℕ
  pub receiver_user_id : ℕ
  pub amount_minor : ℤ
  pub currency : String
  pub note : Option String
  pub created_at : ℕ
  pub completed_at : Option ℕ
  pub sender_balance_after_minor : Option ℤ
  pub risk : Option RiskAssessmentDto

pub record MoneyRequestDto : Type 0 where
  pub request_id : ℕ
  pub status : MoneyRequestStatus
  pub requester_user_id : ℕ
  pub payer_user_id : ℕ
  pub amount_minor : ℤ
  pub currency : String
  pub note : Option String
  pub accepted_transfer_id : Option ℕ
  pub expires_at : Option ℕ
  pub created_at : ℕ
  pub resolved_at : Option ℕ

-- What the JSONB column `response_body` holds; a replay hands it back without looking at it.
pub data Body : Type 0 where
  absent : Body
  transfer : TransferDto → Body
  money_request : MoneyRequestDto → Body

pub record IdempotencyRecord : Type 0 where
  pub id : ℕ
  pub actor_user_id : ℕ
  pub route_key : String
  pub idempotency_key : String
  pub request_hash : String
  pub state : IdempotencyState
  pub response_status : Option ℕ
  pub response_body : Body
  pub resource_type : Option String
  pub resource_id : Option ℕ
  pub created_at : ℕ
  pub expires_at : ℕ
