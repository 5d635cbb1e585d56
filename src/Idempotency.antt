-- ===== src/Idempotency.antt =====
-- Durable idempotency: apps/api/src/idempotency/idempotency.service.ts. Every call runs inside the
-- caller's transaction.
pub mod RequestHash
pub mod Order
pub mod Quoting
pub mod Replay
pub mod Claims
pub mod Stored
pub mod Tests
use pstu_final.Base.{
  ℕ, zero, suc, ◌+◌, ◌*◌, String, Bool, true, false, ◌&&◌, not, Option, none, some, [], ◌∷◌, ◌++◌,
  any, find_where, update_where, ◌==◌, str_eq, if◌then◌else◌,
}
use pstu_final.Store.Failure.{app, known, raw_query_failed, ErrorCode}
use pstu_final.Store.Rows.{IdempotencyState, Fields}
use pstu_final.Store.Dto.{Body, IdempotencyRecord}
use pstu_final.Store.Tx.{
  Tx, Lock, idempotency_row, pure, throw, throw_if, gets, modify, ◌>>=◌, ◌>>◌,
}
use pstu_final.Platform.{Platform, Env, Draw, Reading}
use RequestHash.{hash_request_payload}

-- RECORD_TTL, '24 hours'
abbrev pub record_ttl_ms : ℕ
record_ttl_ms = 24 * 60 * 60 * 1000

pub record BeginParams : Type 0 where
  pub actor_user_id : ℕ
  pub route_key : String
  pub idempotency_key : String
  pub payload : Fields

pub record CompleteParams : Type 0 where
  pub record_id : ℕ
  pub response_status : ℕ
  pub response_body : Body
  pub resource_type : String
  pub resource_id : ℕ

-- `{ replayed: false, recordId }` and `{ replayed: true, responseStatus, responseBody }`
pub data BeginResult : Type 0 where
  claimed : ℕ → BeginResult
  replayed : ℕ → Body → BeginResult

-- The columns of the unique index `idempotency_records_actor_route_key_key`.
abbrev pub same_key : BeginParams → IdempotencyRecord → Bool
same_key params r =
    r.actor_user_id == params.actor_user_id
    && str_eq r.route_key params.route_key
    && str_eq r.idempotency_key params.idempotency_key

abbrev is_completed : IdempotencyState → Bool
is_completed IdempotencyState.completed = true
is_completed IdempotencyState.processing = false
is_completed IdempotencyState.failed = false

abbrev pub status_or_ok : Option ℕ → ℕ
status_or_ok none = 200
status_or_ok (some status) = status

-- An UPDATE of one record by its id; the client throws where there is none.
update_record : ℕ → (IdempotencyRecord → IdempotencyRecord) → Tx (Unit {0})
update_record record_id change = do
  known_record ← gets (λ s. any (λ (r : IdempotencyRecord). r.id == record_id) s.records)
  throw_if (not known_record) (known "P2025" none [])
  modify (λ s. record s {
    records = update_where (λ (r : IdempotencyRecord). r.id == record_id) change s.records;
  })

unfoldable pub complete : CompleteParams → Tx (Unit {0})
unfolding update_record
complete params = update_record params.record_id (λ r. record r {
  state = IdempotencyState.completed;
  response_status = some params.response_status;
  response_body = params.response_body;
  resource_type = some params.resource_type;
  resource_id = some params.resource_id;
})

reclaim : ℕ → String → Tx (Unit {0})
unfolding update_record
reclaim record_id request_hash = update_record record_id (λ r. record r {
  state = IdempotencyState.processing;
  request_hash = request_hash;
  response_status = none;
  response_body = Body.absent;
})

-- SELECT … FOR UPDATE on the row with the key.
lock_existing : BeginParams → Tx (Option IdempotencyRecord)
lock_existing params = do
  existing ← gets (λ s. find_where (same_key params) s.records)
  elim existing [
    | none ↦ pure none
    | some r ↦ do
      modify (λ s. record s { locks = s.locks ++ idempotency_row r.id ∷ [] })
      pure (some r)
  ]

-- What `begin` does with the row that holds the key; without one it tries again.
resolve : Tx BeginResult → String → Option IdempotencyRecord → Tx BeginResult
unfolding reclaim
resolve retry request_hash none = retry
resolve retry request_hash (some existing) = do
  throw_if (not (str_eq existing.request_hash request_hash))
      (app 409 ErrorCode.idempotency_key_reused)
  if is_completed existing.state
      then pure (replayed (status_or_ok existing.response_status) existing.response_body)
      else do reclaim existing.id request_hash; pure (claimed existing.id)

module _ (p : Platform) (e : Env) where
  unfoldable pub new_record : BeginParams → String → IdempotencyRecord
  new_record params request_hash = record {
    id = e.uuid Draw.idempotency_record;
    actor_user_id = params.actor_user_id;
    route_key = params.route_key;
    idempotency_key = params.idempotency_key;
    request_hash = request_hash;
    state = IdempotencyState.processing;
    response_status = none;
    response_body = Body.absent;
    resource_type = none;
    resource_id = none;
    created_at = e.clock Reading.claim;
    expires_at = e.clock Reading.claim + record_ttl_ms;
  }

  -- INSERT … ON CONFLICT (the key) DO NOTHING RETURNING id
  pub try_claim : BeginParams → String → Tx (Option ℕ)
  unfolding new_record
  try_claim params request_hash = do
    taken ← gets (λ s. any (same_key params) s.records)
    if taken then pure none else do
      clash ←
          gets
            (λ s. any (λ (r : IdempotencyRecord). r.id == e.uuid Draw.idempotency_record) s.records)
      throw_if clash (known raw_query_failed (some "23505") [])
      modify (λ s. record s { records = s.records ++ new_record params request_hash ∷ [] })
      pure (some (e.uuid Draw.idempotency_record))

  after_claim : Tx BeginResult → BeginParams → String → Option ℕ → Tx BeginResult
  unfolding resolve lock_existing
  after_claim retry params request_hash (some record_id) = pure (claimed record_id)
  after_claim retry params request_hash none = do
    existing ← lock_existing params
    resolve retry request_hash existing

  -- `attempts` more rounds of the loop.
  begin_rounds : ℕ → BeginParams → String → Tx BeginResult
  unfolding after_claim try_claim
  begin_rounds zero params request_hash = throw (app 409 ErrorCode.idempotency_key_reused)
  begin_rounds (suc attempts) params request_hash =
      let retry = begin_rounds attempts params request_hash in
      do record_id ← try_claim params request_hash; after_claim retry params request_hash record_id

  unfoldable pub begin : BeginParams → Tx BeginResult
  unfolding begin_rounds
  begin params = begin_rounds 3 params (hash_request_payload p params.payload)
