-- ===== src/MoneyRequests/Service.antt =====
-- The handlers of apps/api/src/money-requests/money-request.service.ts: create, accept, decline and
-- cancel.
use pstu_final.Base.{
  ℕ, zero, suc, not, none, some, [], ◌∷◌, ◌++◌, find_where, ◌==◌, str_eq, if◌then◌else◌,
}
use pstu_final.Store.Failure.{app, known, ErrorCode, is_retryable_transaction_error}
use pstu_final.Store.Rows.{User, MoneyRequest, AuditAction, Value}
use pstu_final.Store.Dto.{Body}
use pstu_final.Store.Tx.{
  Tx, ok, err, pure, throw_if, or_throw, gets, transaction, rolled_back, ◌>>=◌, ◌>>◌,
}
use pstu_final.Platform.{Platform, Env, Draw, Reading}
use pstu_final.Audit.{record_audit}
use pstu_final.Outbox.{insert_event}
use pstu_final.Idempotency.{BeginResult, claimed, replayed, begin, complete}
use pstu_final.Transfers.Settle.{is_active_user}
use pstu_final.Transfers.Service.{Attempt, settle_money_request}
use pstu_final.MoneyRequests.Repository.{
  ParticipantRole, Target, is_pending, has_elapsed, to_money_request_dto, create_row, lock_by_id,
  mark_accepted, mark_resolved,
}
use pstu_final.MoneyRequests.Rules.{
  CreateMoneyRequestCommand, ResolveMoneyRequestCommand, create_route, accept_route, route_of,
  role_of, event_of, action_of, not_found, already_resolved, create_payload, assert_actor_role,
  assert_request_id, event_payload,
}

module _ (p : Platform) where
  module _ (e : Env) where
    abbrev complete_request : ℕ → ℕ → MoneyRequest → Tx Body
    complete_request record_id status row = do
      complete (record {
        record_id = record_id;
        response_status = status;
        response_body = Body.money_request (to_money_request_dto p e row);
        resource_type = "money_request";
        resource_id = row.id;
      })
      pure (Body.money_request (to_money_request_dto p e row))

    -- `this.users.findById(command.payerUserId, tx)` and the test of what it found.
    unfoldable pub find_payer : CreateMoneyRequestCommand → Tx ℕ
    find_payer command = do
      id ← or_throw (p.uuid_in command.payer_user_id) (known "P2023" none [])
      found ← gets (λ s. find_where (λ (u : User). u.id == id) s.users)
      user ← or_throw found (app 404 ErrorCode.user_not_found)
      throw_if (not (is_active_user user.status)) (app 404 ErrorCode.user_not_found)
      pure id

    unfoldable pub create_claimed : CreateMoneyRequestCommand → BeginResult → Tx Body
    create_claimed command (replayed status body) = pure body
    create_claimed command (claimed record_id) = do
      payer_user_id ← find_payer command
      row ← create_row p e (record {
        requester_user_id = command.actor_user_id;
        payer_user_id = payer_user_id;
        amount_minor = command.amount_minor;
        currency = command.currency;
        note = command.note;
        expires_at = command.expires_at;
      })
      insert_event e Draw.request_event (record {
        aggregate_type = "money_request";
        aggregate_id = row.id;
        event_type = "money_request.created";
        payload = event_payload p row;
      })
      record_audit e Draw.request_audit (record {
        actor_user_id = some command.actor_user_id;
        action = AuditAction.money_request_created;
        resource_type = "money_request";
        resource_id = some row.id;
        metadata =
            ("payerUserId", Value.uuid row.payer_user_id)
            ∷ ("amountMinor", Value.bigint row.amount_minor)
            ∷ ("currency", Value.text (p.trim row.currency))
            ∷ [];
      })
      complete_request record_id 201 row

    unfoldable pub run_create : CreateMoneyRequestCommand → Tx Body
    unfolding create_claimed
    run_create command = do
      begun ← begin p e (record {
        actor_user_id = command.actor_user_id;
        route_key = create_route;
        idempotency_key = command.idempotency_key;
        payload = create_payload command;
      })
      create_claimed command begun

    -- The row, locked and found, which `actor` may act on in this role, and which is pending.
    unfoldable pub lock_pending : ResolveMoneyRequestCommand → ParticipantRole → Tx MoneyRequest
    lock_pending command required = do
      found ← lock_by_id p e command.request_id
      request ← or_throw found not_found
      assert_actor_role request command.actor_user_id required
      throw_if (not (is_pending request.status)) already_resolved
      pure request

    -- (2) to (11) of `runAccept`.
    unfoldable pub settle_request : ResolveMoneyRequestCommand → Tx MoneyRequest
    settle_request command = do
      request ← lock_pending command ParticipantRole.payer
      throw_if (has_elapsed request.expires_at (e.clock Reading.request_expiry)) already_resolved
      transfer ← settle_money_request p e (record {
        payer_user_id = request.payer_user_id;
        requester_user_id = request.requester_user_id;
        amount_minor = request.amount_minor;
        currency = p.trim request.currency;
        note = request.note;
        source_request_id = request.id;
      })
      accepted ← mark_accepted p e request.id transfer.transfer_id
      insert_event e Draw.request_event (record {
        aggregate_type = "money_request";
        aggregate_id = request.id;
        event_type = "money_request.accepted";
        payload =
            event_payload p request ++ ("acceptedTransferId", Value.uuid transfer.transfer_id) ∷ [];
      })
      record_audit e Draw.request_audit (record {
        actor_user_id = some command.actor_user_id;
        action = AuditAction.money_request_accepted;
        resource_type = "money_request";
        resource_id = some request.id;
        metadata =
            ("acceptedTransferId", Value.uuid transfer.transfer_id)
            ∷ ("requesterUserId", Value.uuid request.requester_user_id)
            ∷ ("amountMinor", Value.bigint request.amount_minor)
            ∷ ("currency", Value.text (p.trim request.currency))
            ∷ [];
      })
      pure accepted

    -- (12)
    unfoldable pub accept_claimed : ResolveMoneyRequestCommand → BeginResult → Tx Body
    accept_claimed command (replayed status body) = pure body
    accept_claimed command (claimed record_id) = do
      accepted ← settle_request command
      complete_request record_id 200 accepted

    unfoldable pub run_accept : ResolveMoneyRequestCommand → Tx Body
    unfolding accept_claimed
    run_accept command = do
      begun ← begin p e (record {
        actor_user_id = command.actor_user_id;
        route_key = accept_route;
        idempotency_key = command.idempotency_key;
        payload = ("requestId", Value.text command.request_id) ∷ [];
      })
      accept_claimed command begun

    -- `resolvePending`, from the lock to the audit row.
    unfoldable pub close_request : ResolveMoneyRequestCommand → Target → Tx MoneyRequest
    close_request command target = do
      request ← lock_pending command (role_of target)
      resolved ← mark_resolved p e request.id target
      insert_event e Draw.request_event (record {
        aggregate_type = "money_request";
        aggregate_id = request.id;
        event_type = event_of target;
        payload = event_payload p request;
      })
      record_audit e Draw.request_audit (record {
        actor_user_id = some command.actor_user_id;
        action = action_of target;
        resource_type = "money_request";
        resource_id = some request.id;
        metadata =
            ("amountMinor", Value.bigint request.amount_minor)
            ∷ ("currency", Value.text (p.trim request.currency))
            ∷ [];
      })
      pure resolved

    unfoldable pub resolve_claimed : ResolveMoneyRequestCommand → Target → BeginResult → Tx Body
    resolve_claimed command target (replayed status body) = pure body
    resolve_claimed command target (claimed record_id) = do
      resolved ← close_request command target
      complete_request record_id 200 resolved

    unfoldable pub run_resolve : ResolveMoneyRequestCommand → Target → Tx Body
    unfolding resolve_claimed
    run_resolve command target = do
      begun ← begin p e (record {
        actor_user_id = command.actor_user_id;
        route_key = route_of target;
        idempotency_key = command.idempotency_key;
        payload = ("requestId", Value.text command.request_id) ∷ [];
      })
      resolve_claimed command target begun

  -- One transaction, or what the database makes of it.
  unfoldable pub in_transaction : Attempt → (Env → Tx Body) → Tx Body
  in_transaction a run = elim a.abort [
    | none ↦ transaction (run a.env)
    | some failure ↦ rolled_back failure
  ]

  unfoldable pub create : Attempt → CreateMoneyRequestCommand → Tx Body
  unfolding in_transaction run_create
  create a command = do
    throw_if (str_eq command.payer_user_id (p.uuid_out command.actor_user_id))
        (app 422 ErrorCode.validation_error)
    throw_if (has_elapsed command.expires_at (a.env.clock Reading.request_expiry))
        (app 400 ErrorCode.validation_error)
    in_transaction a (λ e. run_create e command)

  -- `resolvePending`
  unfoldable pub resolve_pending : Attempt → ResolveMoneyRequestCommand → Target → Tx Body
  unfolding in_transaction run_resolve
  resolve_pending a command target = do
    assert_request_id command.request_id
    in_transaction a (λ e. run_resolve e command target)

  unfoldable pub decline : Attempt → ResolveMoneyRequestCommand → Tx Body
  unfolding resolve_pending
  decline a command = resolve_pending a command Target.declined

  unfoldable pub cancel : Attempt → ResolveMoneyRequestCommand → Tx Body
  unfolding resolve_pending
  cancel a command = resolve_pending a command Target.cancelled

  module _ (attempts : ℕ → Attempt) (command : ResolveMoneyRequestCommand) where
    -- The loop, with `left` retries after attempt number `n`.
    unfoldable pub accept_loop : ℕ → ℕ → Tx Body
    unfolding in_transaction run_accept
    accept_loop zero n s = in_transaction (attempts n) (λ e. run_accept e command) s
    accept_loop (suc left) n s =
        let (r, s') = in_transaction (attempts n) (λ e. run_accept e command) s in
        let again = accept_loop left (suc n) s' in
        elim r [
          | ok body ↦ (ok body, s')
          | err f ↦ if is_retryable_transaction_error f then again else (err f, s')
        ]

    unfoldable pub accept : Tx Body
    unfolding accept_loop
    accept = do assert_request_id command.request_id; accept_loop 2 1
