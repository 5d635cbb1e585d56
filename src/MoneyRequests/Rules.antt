-- ===== src/MoneyRequests/Rules.antt =====
-- The commands, the assertions and the payloads of
-- apps/api/src/money-requests/money-request.service.ts.
use pstu_final.Base.{
  ℕ, String, Bool, false, ◌&&◌, not, Option, none, some, [], ◌∷◌, ◌==◌, if◌then◌else◌,
}
use pstu_final.Base.Int.{ℤ}
use pstu_final.Base.Text.{codes, matches_uuid_pattern}
use pstu_final.Store.Failure.{Failure, app, ErrorCode}
use pstu_final.Store.Rows.{MoneyRequest, AuditAction, Value, Fields}
use pstu_final.Store.Tx.{Tx, throw_if, ◌>>◌}
use pstu_final.Platform.{Platform}
use pstu_final.Transfers.Service.{note_value}
use pstu_final.MoneyRequests.Repository.{ParticipantRole, Target}

pub record CreateMoneyRequestCommand : Type 0 where
  pub actor_user_id : ℕ
  pub payer_user_id : String
  pub amount_minor : ℤ
  pub currency : String
  pub note : Option String
  pub expires_at : Option ℕ
  pub idempotency_key : String

pub record ResolveMoneyRequestCommand : Type 0 where
  pub actor_user_id : ℕ
  pub request_id : String
  pub idempotency_key : String

abbrev pub create_route : String
create_route = "POST:/money-requests"

abbrev pub accept_route : String
accept_route = "POST:/money-requests/accept"

abbrev pub route_of : Target → String
route_of Target.declined = "POST:/money-requests/decline"
route_of Target.cancelled = "POST:/money-requests/cancel"

abbrev pub role_of : Target → ParticipantRole
role_of Target.declined = ParticipantRole.payer
role_of Target.cancelled = ParticipantRole.requester

abbrev pub event_of : Target → String
event_of Target.declined = "money_request.declined"
event_of Target.cancelled = "money_request.cancelled"

abbrev pub action_of : Target → AuditAction
action_of Target.declined = AuditAction.money_request_declined
action_of Target.cancelled = AuditAction.money_request_cancelled

abbrev pub not_found : Failure
not_found = app 404 ErrorCode.money_request_not_found

abbrev pub already_resolved : Failure
already_resolved = app 409 ErrorCode.request_already_resolved

abbrev pub date_value : Option ℕ → Value
date_value none = Value.null
date_value (some t) = Value.date t

unfoldable pub create_payload : CreateMoneyRequestCommand → Fields
create_payload command =
    ("payerUserId", Value.text command.payer_user_id)
    ∷ ("amountMinor", Value.bigint command.amount_minor)
    ∷ ("currency", Value.text command.currency)
    ∷ ("note", note_value command.note)
    ∷ ("expiresAt", date_value command.expires_at)
    ∷ []

-- The actor plays the role that the action wants.
abbrev pub plays : MoneyRequest → ℕ → ParticipantRole → Bool
plays request actor ParticipantRole.payer = request.payer_user_id == actor
plays request actor ParticipantRole.requester =
    if request.payer_user_id == actor then false else request.requester_user_id == actor

unfoldable pub assert_actor_role : MoneyRequest → ℕ → ParticipantRole → Tx (Unit {0})
assert_actor_role request actor required = do
  throw_if (not (request.payer_user_id == actor) && not (request.requester_user_id == actor))
      not_found
  throw_if (not (plays request actor required)) (app 403 ErrorCode.forbidden)

unfoldable pub assert_request_id : String → Tx (Unit {0})
assert_request_id id = throw_if (not (matches_uuid_pattern (codes id))) not_found

module _ (p : Platform) where
  unfoldable pub event_payload : MoneyRequest → Fields
  event_payload request =
      ("requestId", Value.uuid request.id)
      ∷ ("payerUserId", Value.uuid request.payer_user_id)
      ∷ ("requesterUserId", Value.uuid request.requester_user_id)
      ∷ ("amountMinor", Value.bigint request.amount_minor)
      ∷ ("currency", Value.text (p.trim request.currency))
      ∷ []
