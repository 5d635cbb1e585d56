-- ===== src/MoneyRequests/Repository.antt =====
-- apps/api/src/money-requests/money-requests.repository.ts and money-request.mapper.ts, with the
-- CHECK constraints and the unique keys of the table `money_requests`.
use pstu_final.Base.{
  ℕ, String, Bool, true, false, ◌||◌, Option, none, some, [], ◌∷◌, ◌++◌, any, find_where,
  update_where, leb, ◌==◌, if◌then◌else◌,
}
use pstu_final.Base.Int.{ℤ, pos, leb_ℤ}
use pstu_final.Store.Failure.{known, plain, raw_query_failed, unique_constraint_violation}
use pstu_final.Store.Rows.{MoneyRequest, MoneyRequestStatus}
use pstu_final.Store.Dto.{MoneyRequestDto}
use pstu_final.Store.Tx.{
  Tx, money_request_row, pure, throw, throw_if, or_throw, gets, modify, ◌>>=◌, ◌>>◌,
}
use pstu_final.Platform.{Platform, Env, Draw, Reading}
use pstu_final.Transfers.Repository.{refused}

pub data ParticipantRole : Type 0 where
  payer requester : ParticipantRole

pub record CreateMoneyRequestData : Type 0 where
  pub requester_user_id : ℕ
  pub payer_user_id : ℕ
  pub amount_minor : ℤ
  pub currency : String
  pub note : Option String
  pub expires_at : Option ℕ

-- 'DECLINED' | 'CANCELLED'
pub data Target : Type 0 where
  declined cancelled : Target

abbrev pub target_status : Target → MoneyRequestStatus
target_status Target.declined = MoneyRequestStatus.declined
target_status Target.cancelled = MoneyRequestStatus.cancelled

abbrev pub is_pending : MoneyRequestStatus → Bool
is_pending MoneyRequestStatus.pending = true
is_pending MoneyRequestStatus.accepted = false
is_pending MoneyRequestStatus.declined = false
is_pending MoneyRequestStatus.cancelled = false
is_pending MoneyRequestStatus.expired = false

-- `expiresAt !== null && expiresAt.getTime() <= now.getTime()`
abbrev pub has_elapsed : Option ℕ → ℕ → Bool
has_elapsed none now = false
has_elapsed (some expires_at) now = leb expires_at now

unfoldable pub effective_status : MoneyRequestStatus → Option ℕ → ℕ → MoneyRequestStatus
effective_status MoneyRequestStatus.pending expires_at now =
    if has_elapsed expires_at now then MoneyRequestStatus.expired else MoneyRequestStatus.pending
effective_status MoneyRequestStatus.accepted expires_at now = MoneyRequestStatus.accepted
effective_status MoneyRequestStatus.declined expires_at now = MoneyRequestStatus.declined
effective_status MoneyRequestStatus.cancelled expires_at now = MoneyRequestStatus.cancelled
effective_status MoneyRequestStatus.expired expires_at now = MoneyRequestStatus.expired

abbrev pub accepts : Option ℕ → ℕ → Bool
accepts none transfer_id = false
accepts (some id) transfer_id = id == transfer_id

module _ (p : Platform) (e : Env) where
  unfoldable pub to_money_request_dto : MoneyRequest → MoneyRequestDto
  unfolding effective_status
  to_money_request_dto row = record {
    request_id = row.id;
    status = effective_status row.status row.expires_at (e.clock Reading.request_view);
    requester_user_id = row.requester_user_id;
    payer_user_id = row.payer_user_id;
    amount_minor = row.amount_minor;
    currency = p.trim row.currency;
    note = row.note;
    accepted_transfer_id = row.accepted_transfer_id;
    expires_at = row.expires_at;
    created_at = row.created_at;
    resolved_at = row.resolved_at;
  }

  unfoldable pub new_request : CreateMoneyRequestData → MoneyRequest
  new_request d = record {
    id = e.uuid Draw.money_request;
    requester_user_id = d.requester_user_id;
    payer_user_id = d.payer_user_id;
    amount_minor = d.amount_minor;
    currency = d.currency;
    note = d.note;
    status = MoneyRequestStatus.pending;
    accepted_transfer_id = none;
    expires_at = d.expires_at;
    created_at = e.clock Reading.request_insert;
    resolved_at = none;
  }

  -- With money_requests_amount_minor_positive and money_requests_distinct_parties.
  unfoldable pub create_row : CreateMoneyRequestData → Tx MoneyRequest
  unfolding new_request
  create_row d = do
    throw_if (leb_ℤ d.amount_minor (pos 0) || d.requester_user_id == d.payer_user_id)
        (plain refused)
    clash ← gets (λ s. any (λ (r : MoneyRequest). r.id == e.uuid Draw.money_request) s.requests)
    throw_if clash (known unique_constraint_violation none ("id" ∷ []))
    modify (λ s. record s { requests = s.requests ++ new_request d ∷ [] })
    pure (new_request d)

  abbrev lock_row : ℕ → Tx (Option MoneyRequest)
  lock_row id = do
    modify (λ s.
        if any (λ (r : MoneyRequest). r.id == id) s.requests
        then record s { locks = s.locks ++ money_request_row id ∷ [] }
        else s)
    gets (λ s. find_where (λ (r : MoneyRequest). r.id == id) s.requests)

  -- `lockById`, with the text of the path, which the statement casts.
  unfoldable pub lock_by_id : String → Tx (Option MoneyRequest)
  lock_by_id id = elim (p.uuid_in id) [
    | none ↦ throw (known raw_query_failed (some "22P02") [])
    | some request_id ↦ lock_row request_id
  ]

  -- An UPDATE by id that returns the row; the client throws where there is none.
  unfoldable pub update_row : ℕ → (MoneyRequest → MoneyRequest) → Tx MoneyRequest
  update_row id change = do
    modify (λ s. record s {
      requests = update_where (λ (r : MoneyRequest). r.id == id) change s.requests;
    })
    row ← gets (λ s. find_where (λ (r : MoneyRequest). r.id == id) s.requests)
    or_throw row (known "P2025" none [])

  -- With the unique key on `accepted_transfer_id`.
  unfoldable pub mark_accepted : ℕ → ℕ → Tx MoneyRequest
  unfolding update_row
  mark_accepted id transfer_id = do
    linked ←
        gets
          (λ s. any (λ (r : MoneyRequest). accepts r.accepted_transfer_id transfer_id) s.requests)
    throw_if linked (known unique_constraint_violation none ("accepted_transfer_id" ∷ []))
    update_row id (λ r. record r {
      status = MoneyRequestStatus.accepted;
      accepted_transfer_id = some transfer_id;
      resolved_at = some (e.clock Reading.request_resolution);
    })

  unfoldable pub mark_resolved : ℕ → Target → Tx MoneyRequest
  unfolding update_row
  mark_resolved id target = update_row id (λ r. record r {
    status = target_status target;
    resolved_at = some (e.clock Reading.request_resolution);
  })
