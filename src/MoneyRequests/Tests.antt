-- ===== src/MoneyRequests/Tests.antt =====
-- Runs of the money request service on a small database.
use pstu_final.MoneyRequests.Creating.{Created, create-Created}
use pstu_final.Base.{Option, ℕ, ◌≡◌, refl, ap, some, none, [], ◌∷◌, arith}
use pstu_final.Base.Text.{matches_uuid_pattern, text_lt}
use pstu_final.Base.Int.{pos, ◌+ℤ◌, ◌-ℤ◌, ◌*ℤ◌}
use pstu_final.Store.Rows.{MoneyRequestStatus}
use pstu_final.Store.Tx.{Db, Result, ok, err, ◌>>=◌, transaction, rolled_back}
use pstu_final.Store.Failure.{app, ErrorCode, is_retryable_transaction_error}
use pstu_final.Store.Dto.{Body}
use pstu_final.Limits.{windows_since, sum_sent_by_window, assert_within_limits}
use pstu_final.Audit.{record_audit}
use pstu_final.Outbox.{insert_event}
use pstu_final.Risk.{
  evaluate, large_share, large_amount, young_sender, unverified_sender, young_receiver,
  round_amount, high_velocity,
}
use pstu_final.Idempotency.{begin, complete}
use pstu_final.Idempotency.RequestHash.{hash_request_payload}
use pstu_final.Transfers.Repository.{
  find_wallet_by_user_id, find_wallet_by_user_text, lock_wallet_by_id, insert_pending_transfer,
  insert_ledger_entry, mark_succeeded, apply_balance_delta,
}
use pstu_final.Transfers.Settle.{
  settle, authorise, lock_both, move_money, assess_risk, announce, count_recent, insert_assessment,
  assert_participants_active, assert_wallets_spendable, assert_amount_and_balance,
}
use pstu_final.Transfers.Service.{settle_money_request}
use pstu_final.Transfers.Wallets.{HasUniqueIds}
use pstu_final.MoneyRequests.Repository.{
  create_row, new_request, Target, lock_by_id, update_row, mark_accepted, mark_resolved,
  to_money_request_dto,
}
use pstu_final.MoneyRequests.Rules.{assert_request_id, assert_actor_role, event_payload}
use pstu_final.MoneyRequests.Service.{
  create, run_create, find_payer, accept, accept_loop, in_transaction, run_accept, resolve_pending,
  run_resolve, settle_request, close_request, lock_pending,
}
use pstu_final.MoneyRequests.Transitions.{request_of}
use pstu_final.MoneyRequests.Handlers.{Resolved, resolve_pending-Resolved}
use pstu_final.MoneyRequests.Final.{accept_final, resolve_pending_final}
use pstu_final.Fixtures.{
  bob_asks, alice, bob, test_platform, retried, direct, test_db, on_nine, declined_request,
}

unique : HasUniqueIds test_db.wallets
unique = (refl, (refl, tt))

abbrev nine : MoneyRequestStatus → Option ℕ → Body
nine status transfer_id = Body.money_request (record {
  request_id = 9;
  status = status;
  requester_user_id = 2;
  payer_user_id = 1;
  amount_minor = pos 700;
  currency = "BDT";
  note = none;
  accepted_transfer_id = transfer_id;
  expires_at = none;
  created_at = 5;
  resolved_at = some 1_700_000_000_000;
})

abbrev accepting : Result Body × Db
accepting = accept test_platform retried (on_nine "a") test_db

accepting-nine : accepting.0 ≡ ok (nine MoneyRequestStatus.accepted (some 104))
unfolding accept accept_loop in_transaction run_accept resolve_pending run_resolve assert_request_id
    matches_uuid_pattern settle_request settle_money_request close_request lock_pending lock_by_id
    assert_actor_role update_row mark_accepted mark_resolved to_money_request_dto event_payload
    begin complete settle hash_request_payload text_lt authorise move_money assess_risk announce
    find_wallet_by_user_id find_wallet_by_user_text lock_both lock_wallet_by_id
    assert_participants_active assert_wallets_spendable assert_amount_and_balance
    assert_within_limits insert_pending_transfer insert_ledger_entry apply_balance_delta
    mark_succeeded count_recent evaluate insert_assessment insert_event record_audit transaction
    rolled_back ◌>>=◌ ◌+ℤ◌ ◌-ℤ◌ ◌*ℤ◌ windows_since sum_sent_by_window is_retryable_transaction_error
    large_share large_amount young_sender unverified_sender young_receiver round_amount
    high_velocity
accepting-nine = refl

accepting-ok : accepting ≡ (ok (nine MoneyRequestStatus.accepted (some 104)), accepting.1)
accepting-ok = ap (λ (r : Result Body). (r, accepting.1)) accepting-nine

accept_final_example : request_of 8 accepting.1 ≡ some declined_request
accept_final_example =
    accept_final test_platform (on_nine "a") retried test_db
      (ok (nine MoneyRequestStatus.accepted (some 104))) accepting.1 declined_request unique
      accepting-ok refl (ground arith)

abbrev declining : Result Body × Db
declining = resolve_pending test_platform (direct 1) (on_nine "d") Target.declined test_db

declining-nine : declining.0 ≡ ok (nine MoneyRequestStatus.declined none)
unfolding accept accept_loop in_transaction run_accept resolve_pending run_resolve assert_request_id
    matches_uuid_pattern settle_request settle_money_request close_request lock_pending lock_by_id
    assert_actor_role update_row mark_accepted mark_resolved to_money_request_dto event_payload
    begin complete settle hash_request_payload text_lt authorise move_money assess_risk announce
    find_wallet_by_user_id find_wallet_by_user_text lock_both lock_wallet_by_id
    assert_participants_active assert_wallets_spendable assert_amount_and_balance
    assert_within_limits insert_pending_transfer insert_ledger_entry apply_balance_delta
    mark_succeeded count_recent evaluate insert_assessment insert_event record_audit transaction
    rolled_back ◌>>=◌ ◌+ℤ◌ ◌-ℤ◌ ◌*ℤ◌ windows_since sum_sent_by_window is_retryable_transaction_error
    large_share large_amount young_sender unverified_sender young_receiver round_amount
    high_velocity
declining-nine = refl

declining-ok : declining ≡ (ok (nine MoneyRequestStatus.declined none), declining.1)
declining-ok = ap (λ (r : Result Body). (r, declining.1)) declining-nine

resolve_pending-Resolved_example :
    Resolved test_platform
      (on_nine "d")
      Target.declined
      test_db
      declining.1
      (nine MoneyRequestStatus.declined none)
resolve_pending-Resolved_example =
    resolve_pending-Resolved test_platform (on_nine "d") (direct 1) Target.declined test_db
      (nine MoneyRequestStatus.declined none) declining.1 declining-ok

resolve_pending_final_example : request_of 8 declining.1 ≡ some declined_request
resolve_pending_final_example =
    resolve_pending_final test_platform (on_nine "d") (direct 1) Target.declined test_db
      (ok (nine MoneyRequestStatus.declined none)) declining.1 declined_request declining-ok refl
      (ground arith)

-- The payer is not the one who may cancel.
abbrev cancelling : Result Body × Db
cancelling = resolve_pending test_platform (direct 1) (on_nine "c") Target.cancelled test_db

cancelling-forbidden : cancelling.0 ≡ err (app 403 ErrorCode.forbidden)
unfolding accept accept_loop in_transaction run_accept resolve_pending run_resolve assert_request_id
    matches_uuid_pattern settle_request settle_money_request close_request lock_pending lock_by_id
    assert_actor_role update_row mark_accepted mark_resolved to_money_request_dto event_payload
    begin complete settle hash_request_payload text_lt authorise move_money assess_risk announce
    find_wallet_by_user_id find_wallet_by_user_text lock_both lock_wallet_by_id
    assert_participants_active assert_wallets_spendable assert_amount_and_balance
    assert_within_limits insert_pending_transfer insert_ledger_entry apply_balance_delta
    mark_succeeded count_recent evaluate insert_assessment insert_event record_audit transaction
    rolled_back ◌>>=◌ ◌+ℤ◌ ◌-ℤ◌ ◌*ℤ◌ windows_since sum_sent_by_window is_retryable_transaction_error
    large_share large_amount young_sender unverified_sender young_receiver round_amount
    high_velocity
cancelling-forbidden = refl

-- An accept of a request that has been declined.
abbrev declining_done : Db
declining_done = record test_db { requests = record declined_request { id = 9 } ∷ [] }

abbrev accepting_again : Result Body × Db
accepting_again = accept test_platform direct (on_nine "b") declining_done

accepting_again-resolved : accepting_again.0 ≡ err (app 409 ErrorCode.request_already_resolved)
unfolding accept accept_loop in_transaction run_accept resolve_pending run_resolve assert_request_id
    matches_uuid_pattern settle_request settle_money_request close_request lock_pending lock_by_id
    assert_actor_role update_row mark_accepted mark_resolved to_money_request_dto event_payload
    begin complete settle hash_request_payload text_lt authorise move_money assess_risk announce
    find_wallet_by_user_id find_wallet_by_user_text lock_both lock_wallet_by_id
    assert_participants_active assert_wallets_spendable assert_amount_and_balance
    assert_within_limits insert_pending_transfer insert_ledger_entry apply_balance_delta
    mark_succeeded count_recent evaluate insert_assessment insert_event record_audit transaction
    rolled_back ◌>>=◌ ◌+ℤ◌ ◌-ℤ◌ ◌*ℤ◌ windows_since sum_sent_by_window is_retryable_transaction_error
    large_share large_amount young_sender unverified_sender young_receiver round_amount
    high_velocity
accepting_again-resolved = refl

abbrev asked : Body
asked = Body.money_request (record {
  request_id = 211;
  status = MoneyRequestStatus.pending;
  requester_user_id = 2;
  payer_user_id = 1;
  amount_minor = pos 900;
  currency = "BDT";
  note = none;
  accepted_transfer_id = none;
  expires_at = none;
  created_at = 1_700_000_000_000;
  resolved_at = none;
})

abbrev asking : Result Body × Db
asking = create test_platform (direct 1) (bob_asks alice) test_db

asking-asked : asking.0 ≡ ok asked
unfolding create run_create find_payer in_transaction begin complete create_row new_request
    insert_event record_audit to_money_request_dto event_payload transaction ◌>>=◌
asking-asked = refl

create-Created_example : Created test_platform (bob_asks alice) test_db asking.1 asked
create-Created_example =
    create-Created test_platform (bob_asks alice) (direct 1) test_db asked asking.1
      (ap (λ (r : Result Body). (r, asking.1)) asking-asked)

abbrev asking_oneself : Result Body × Db
asking_oneself = create test_platform (direct 1) (bob_asks bob) test_db

asking_oneself-invalid : asking_oneself.0 ≡ err (app 422 ErrorCode.validation_error)
unfolding create ◌>>=◌
asking_oneself-invalid = refl
