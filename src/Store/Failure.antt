-- ===== src/Store/Failure.antt =====
-- What a call throws: AppException with its catalogue code
-- (apps/api/src/common/exceptions/*.ts), the errors of the database client, and which of those the
-- services tell apart (apps/api/src/database/prisma-errors.util.ts).
use pstu_final.Base.{
  ℕ, String, Bool, true, false, ◌||◌, Option, none, some, List, str_eq, any, if◌then◌else◌,
}

pub data ErrorCode : Type 0 where
  validation_error unauthenticated forbidden user_not_found transfer_not_found : ErrorCode
  money_request_not_found insufficient_balance transfer_limit_exceeded : ErrorCode
  request_already_resolved idempotency_key_reused wallet_unavailable invalid_transfer : ErrorCode
  rate_limited internal_error service_unavailable not_found : ErrorCode

pub data Failure : Type 0 where
  -- an AppException: its HTTP status and its code
  app : ℕ → ErrorCode → Failure
  -- a PrismaClientKnownRequestError: `code`, `meta.code` and `meta.target`
  known : String → Option String → List String → Failure
  -- any other error that carries a `code`
  coded : String → Failure
  -- any other error
  plain : String → Failure

abbrev pub unique_constraint_violation : String
unique_constraint_violation = "P2002"

abbrev pub prisma_write_conflict : String
prisma_write_conflict = "P2034"

abbrev pub raw_query_failed : String
raw_query_failed = "P2010"

abbrev pub pg_serialization_failure : String
pg_serialization_failure = "40001"

abbrev pub pg_deadlock_detected : String
pg_deadlock_detected = "40P01"

abbrev is_pg_conflict : String → Bool
is_pg_conflict code = str_eq code pg_serialization_failure || str_eq code pg_deadlock_detected

abbrev is_pg_conflict? : Option String → Bool
is_pg_conflict? none = false
is_pg_conflict? (some code) = is_pg_conflict code

-- A known error other than these two falls through to the test of its own `code`.
unfoldable pub is_retryable_transaction_error : Failure → Bool
is_retryable_transaction_error (app status code) = false
is_retryable_transaction_error (known code meta target) =
    if str_eq code prisma_write_conflict
    then true
    else if str_eq code raw_query_failed
    then is_pg_conflict? meta
    else is_pg_conflict code
is_retryable_transaction_error (coded code) = is_pg_conflict code
is_retryable_transaction_error (plain message) = false

-- With the name of a field.
unfoldable pub is_unique_constraint_violation : Failure → String → Bool
is_unique_constraint_violation (known code meta target) field =
    if str_eq code unique_constraint_violation then any (λ t. str_eq t field) target else false
is_unique_constraint_violation (app status code) field = false
is_unique_constraint_violation (coded code) field = false
is_unique_constraint_violation (plain message) field = false
