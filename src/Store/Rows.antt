-- ===== src/Store/Rows.antt =====
-- The rows of the tables (database/prisma/schema.prisma), as the repositories of apps/api/src read
-- and write them. An id is a number, the value of the UUID; a time is a number of milliseconds.
use pstu_final.Base.{ℕ, String, Bool, Option, List}
use pstu_final.Base.Int.{ℤ}

pub data UserStatus : Type 0 where
  active suspended closed : UserStatus

pub data WalletStatus : Type 0 where
  active frozen closed : WalletStatus

pub data TransferStatus : Type 0 where
  pending succeeded failed : TransferStatus

pub data MoneyRequestStatus : Type 0 where
  pending accepted declined cancelled expired : MoneyRequestStatus

pub data LedgerDirection : Type 0 where
  debit credit : LedgerDirection

pub data IdempotencyState : Type 0 where
  processing completed failed : IdempotencyState

pub data VerificationStatus : Type 0 where
  unverified verified rejected : VerificationStatus

pub data RiskLevel : Type 0 where
  low medium high : RiskLevel

-- `type` and `requestId` of a TransferSource.
pub data TransferSource : Type 0 where
  direct : TransferSource
  money_request : ℕ → TransferSource

pub data AuditAction : Type 0 where
  user_registered login_succeeded login_failed logged_out session_refreshed : AuditAction
  refresh_reuse_detected account_blocked : AuditAction
  transfer_succeeded transfer_failed transfer_risk_flagged : AuditAction
  money_request_created money_request_accepted money_request_declined : AuditAction
  money_request_cancelled : AuditAction
  nid_verified nid_rejected : AuditAction

pub record User : Type 0 where
  pub id : ℕ
  pub email : String
  pub display_name : String
  pub password_hash : String
  pub status : UserStatus
  pub created_at : ℕ
  pub nid_hash : Option String
  pub nid_masked : Option String
  pub verification_status : VerificationStatus
  pub verified_at : Option ℕ

pub record Wallet : Type 0 where
  pub id : ℕ
  pub user_id : ℕ
  pub currency : String
  pub balance_minor : ℤ
  pub status : WalletStatus

pub record Transfer : Type 0 where
  pub id : ℕ
  pub sender_user_id : ℕ
  pub receiver_user_id : ℕ
  pub sender_wallet_id : ℕ
  pub receiver_wallet_id : ℕ
  pub amount_minor : ℤ
  pub currency : String
  pub status : TransferStatus
  pub note : Option String
  pub source : TransferSource
  pub created_at : ℕ
  pub completed_at : Option ℕ

pub record LedgerEntry : Type 0 where
  pub id : ℕ
  pub transfer_id : ℕ
  pub wallet_id : ℕ
  pub direction : LedgerDirection
  pub amount_minor : ℤ
  pub signed_amount_minor : ℤ
  pub currency : String
  pub balance_after_minor : ℤ
  pub created_at : ℕ

pub record RiskAssessment : Type 0 where
  pub id : ℕ
  pub transfer_id : ℕ
  pub score : ℕ
  pub level : RiskLevel
  pub reasons : List String
  pub explanation : Option String

pub record MoneyRequest : Type 0 where
  pub id : ℕ
  pub requester_user_id : ℕ
  pub payer_user_id : ℕ
  pub amount_minor : ℤ
  pub currency : String
  pub note : Option String
  pub status : MoneyRequestStatus
  pub accepted_transfer_id : Option ℕ
  pub expires_at : Option ℕ
  pub created_at : ℕ
  pub resolved_at : Option ℕ

-- The values that the program puts into JSON columns and into the payloads that it hashes. `uuid n`
-- is the text of an id, `bigint z` the decimal text of an amount, `date t` the ISO text of a time,
-- `joined ts` the texts joined by ' | '.
pub data Value : Type 0 where
  null : Value
  boolean : Bool → Value
  number : ℕ → Value
  text : String → Value
  uuid : ℕ → Value
  bigint : ℤ → Value
  date : ℕ → Value
  texts joined : List String → Value

abbrev pub Fields : Type 0
Fields = List (String × Value)

pub record OutboxEvent : Type 0 where
  pub id : ℕ
  pub aggregate_type : String
  pub aggregate_id : ℕ
  pub event_type : String
  pub payload : Fields
  pub occurred_at : ℕ
  pub processed_at : Option ℕ
  pub attempt_count : ℕ
  pub last_error : Option String
  pub next_attempt_at : ℕ

pub record AuditEvent : Type 0 where
  pub id : ℕ
  pub actor_user_id : Option ℕ
  pub action : AuditAction
  pub resource_type : String
  pub resource_id : Option ℕ
  pub request_id : Option String
  pub metadata : Fields
  pub created_at : ℕ

pub record Notification : Type 0 where
  pub id : ℕ
  pub user_id : ℕ
  pub type : String
  pub title : String
  pub body : List ℕ
  pub resource_type : String
  pub resource_id : ℕ
  pub read_at : Option ℕ
  pub created_at : ℕ
  pub source_event_id : ℕ

pub record AuthSession : Type 0 where
  pub id : ℕ
  pub user_id : ℕ
  pub refresh_token_hash : String
  pub user_agent : Option String
  pub created_at : ℕ
  pub expires_at : ℕ
  pub revoked_at : Option ℕ
