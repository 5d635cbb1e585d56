-- ===== src/Transfers/Tests.antt =====
-- Runs of the transfer service on a small database.
use pstu_final.Transfers.Movement.{DrawsFresh}
use pstu_final.Transfers.Notes.{NotesFresh}
use pstu_final.Transfers.Returns.{create_direct_transfer_returns}
use pstu_final.Transfers.Success.{MaySettle}
use pstu_final.Base.Text.{text_lt, decimal_ℤ, codes, matches_uuid_pattern}
use pstu_final.Base.{
  ◌≢◌, ◌<◌, find_where, ◌==◌, true, str_eq, false, ap, ℕ, ◌≡◌, refl, some, none, [], ◌∷◌, arith,
  ◌⊎◌,
}
use pstu_final.Base.Int.{ℤ, pos, ◌+ℤ◌, ◌-ℤ◌, ◌*ℤ◌, ◌≤ℤ◌}
use pstu_final.Store.Rows.{
  WalletStatus, UserStatus, VerificationStatus, TransferStatus, RiskLevel, TransferSource, Transfer,
}
use pstu_final.Store.Tx.{wallet_row, Db, Result, ok, err, ◌>>=◌, transaction, rolled_back}
use pstu_final.Store.Failure.{Failure, app, ErrorCode, is_retryable_transaction_error}
use pstu_final.Store.Dto.{Body, TransferDto}
use pstu_final.Limits.{windows_since, sum_sent_by_window, assert_within_limits}
use pstu_final.Audit.{record_audit, record_detached}
use pstu_final.Outbox.{insert_event}
use pstu_final.Risk.{
  large_share, large_amount, young_sender, unverified_sender, young_receiver, round_amount,
  high_velocity, evaluate,
}
use pstu_final.Idempotency.{begin, complete}
use pstu_final.Idempotency.RequestHash.{hash_request_payload}
use pstu_final.Transfers.Repository.{
  bigint_max, LockedWallet, find_wallet_by_user_id, find_wallet_by_user_text, lock_wallet_by_id,
  insert_pending_transfer, insert_ledger_entry, mark_succeeded, apply_balance_delta,
}
use pstu_final.Transfers.Settle.{
  Parties, settle, authorise, lock_both, move_money, assess_risk, announce, count_recent,
  insert_assessment, assert_participants_active, assert_wallets_spendable,
  assert_amount_and_balance,
}
use pstu_final.Transfers.Service.{
  give_up, attempt_loop, run_attempt, create_direct_transfer, canonical_payload,
  get_for_participant,
}
use pstu_final.Transfers.Outcome.{OnlyAudited, direct_input}
use pstu_final.Transfers.Direct.{
  Paid, create_direct_transfer_pays, create_direct_transfer_atomic,
  create_direct_transfer_conserves,
}
use pstu_final.Idempotency.RequestHash.{stable_stringify, to_members, to_json}
use pstu_final.Transfers.Payload.{SamePayload, payload_text}
use pstu_final.Transfers.Once.{create_direct_transfer_once, create_direct_transfer_refuses}
use pstu_final.Transfers.Wallets.{HasUniqueIds, AreInRange, total}
use pstu_final.Transfers.Money.{Moved, settle_moves}
use pstu_final.Transfers.Guarantees.{settle_within_limits, authorise_locks}
use pstu_final.Transfers.Reading.{get_for_participant_sound}
use pstu_final.Fixtures.{request_nine, test_platform, test_env, retried, direct, test_db, pay_bob}

abbrev outcome : Result Body × Db
outcome = create_direct_transfer test_platform retried (pay_bob (pos 500)) test_db

abbrev receipt : Body
receipt = Body.transfer (record {
  transfer_id = 104;
  status = TransferStatus.succeeded;
  sender_user_id = 1;
  receiver_user_id = 2;
  amount_minor = pos 500;
  currency = "BDT";
  note = none;
  created_at = 1_700_000_000_000;
  completed_at = some 1_700_000_000_000;
  sender_balance_after_minor = some (pos 9_500);
  risk = some (record { score = 0; level = RiskLevel.low; reasons = []; explanation = none });
})

abbrev after : Db
after = outcome.1

outcome-receipt : outcome.0 ≡ ok receipt
unfolding create_direct_transfer attempt_loop run_attempt begin complete settle hash_request_payload
    canonical_payload authorise move_money assess_risk announce find_wallet_by_user_id
    find_wallet_by_user_text lock_both lock_wallet_by_id assert_participants_active
    assert_wallets_spendable assert_amount_and_balance assert_within_limits insert_pending_transfer
    insert_ledger_entry apply_balance_delta mark_succeeded count_recent evaluate insert_assessment
    insert_event record_audit transaction rolled_back ◌>>=◌ ◌+ℤ◌ ◌-ℤ◌ ◌*ℤ◌ windows_since
    sum_sent_by_window is_retryable_transaction_error large_share large_amount young_sender
    unverified_sender young_receiver round_amount high_velocity
outcome-receipt = refl

outcome-ok :
    create_direct_transfer test_platform retried (pay_bob (pos 500)) test_db ≡ (ok receipt, after)
outcome-ok = ap (λ (r : Result Body). (r, after)) outcome-receipt

in_range : AreInRange test_db.wallets
in_range = ground arith

unique : HasUniqueIds test_db.wallets
unique = (refl, (refl, tt))

create_direct_transfer_pays_example :
    Paid test_platform retried (pay_bob (pos 500)) test_db after receipt
create_direct_transfer_pays_example =
    create_direct_transfer_pays test_platform retried (pay_bob (pos 500)) test_db receipt after
      unique outcome-ok

create_direct_transfer_conserves_example :
    (total after.wallets ≡ total test_db.wallets) × HasUniqueIds after.wallets
create_direct_transfer_conserves_example =
    create_direct_transfer_conserves test_platform retried (pay_bob (pos 500)) test_db (ok receipt)
      after unique outcome-ok

create_direct_transfer_once_example :
    create_direct_transfer test_platform direct (pay_bob (pos 500)) after ≡ (ok receipt, after)
create_direct_transfer_once_example =
    create_direct_transfer_once test_platform (pay_bob (pos 500)) retried direct test_db receipt
      after outcome-ok refl

-- More than the balance.
abbrev refused : Result Body × Db
refused = create_direct_transfer test_platform direct (pay_bob (pos 20_000)) test_db

abbrev insufficient : Failure
insufficient = app 409 ErrorCode.insufficient_balance

refused-insufficient : refused.0 ≡ err insufficient
unfolding create_direct_transfer attempt_loop run_attempt begin complete settle hash_request_payload
    canonical_payload authorise move_money assess_risk announce find_wallet_by_user_id
    find_wallet_by_user_text lock_both lock_wallet_by_id assert_participants_active
    assert_wallets_spendable assert_amount_and_balance assert_within_limits insert_pending_transfer
    insert_ledger_entry apply_balance_delta mark_succeeded count_recent evaluate insert_assessment
    insert_event record_audit transaction rolled_back ◌>>=◌ ◌+ℤ◌ ◌-ℤ◌ ◌*ℤ◌ windows_since
    sum_sent_by_window record_detached give_up is_retryable_transaction_error large_share
    large_amount young_sender unverified_sender young_receiver round_amount high_velocity
refused-insufficient = refl

create_direct_transfer_atomic_example : OnlyAudited test_db refused.1
create_direct_transfer_atomic_example =
    create_direct_transfer_atomic test_platform direct (pay_bob (pos 20_000)) test_db insufficient
      refused.1 (ap (λ (r : Result Body). (r, refused.1)) refused-insufficient)

other_amount : SamePayload (pay_bob (pos 500)) (pay_bob (pos 60)) → ⊥
other_amount same = let no : pos 500 ≡ pos 60 = same.1 in ground arith

other_digest :
    str_eq
      (test_platform.sha256 (payload_text test_platform (pay_bob (pos 500))))
      (test_platform.sha256 (payload_text test_platform (pay_bob (pos 60))))
    ≡ false
unfolding stable_stringify to_members to_json canonical_payload text_lt decimal_ℤ
other_digest = refl

-- A digest that tells the two amounts apart by the length of the text.
create_direct_transfer_refuses_example :
    (t : Db) × (create_direct_transfer test_platform direct (pay_bob (pos 60)) after
      ≡ (err (app 409 ErrorCode.idempotency_key_reused), t))
    × OnlyAudited after t
create_direct_transfer_refuses_example =
    create_direct_transfer_refuses test_platform (pay_bob (pos 500)) (pay_bob (pos 60)) retried
      direct test_db receipt after outcome-ok refl refl other_amount (λ texts_differ. other_digest)
      refl

abbrev settling : Result TransferDto × Db
settling =
    settle test_platform (test_env 300) (direct_input (pay_bob (pos 500))) TransferSource.direct
      test_db

abbrev settled_dto : TransferDto
settled_dto = record {
  transfer_id = 302;
  status = TransferStatus.succeeded;
  sender_user_id = 1;
  receiver_user_id = 2;
  amount_minor = pos 500;
  currency = "BDT";
  note = none;
  created_at = 1_700_000_000_000;
  completed_at = some 1_700_000_000_000;
  sender_balance_after_minor = some (pos 9_500);
  risk = some (record { score = 0; level = RiskLevel.low; reasons = []; explanation = none });
}

settling-dto : settling.0 ≡ ok settled_dto
unfolding create_direct_transfer attempt_loop run_attempt begin complete settle hash_request_payload
    canonical_payload authorise move_money assess_risk announce find_wallet_by_user_id
    find_wallet_by_user_text lock_both lock_wallet_by_id assert_participants_active
    assert_wallets_spendable assert_amount_and_balance assert_within_limits insert_pending_transfer
    insert_ledger_entry apply_balance_delta mark_succeeded count_recent evaluate insert_assessment
    insert_event record_audit transaction rolled_back ◌>>=◌ ◌+ℤ◌ ◌-ℤ◌ ◌*ℤ◌ windows_since
    sum_sent_by_window is_retryable_transaction_error large_share large_amount young_sender
    unverified_sender young_receiver round_amount high_velocity
settling-dto = refl

settling-ok : settling ≡ (ok settled_dto, settling.1)
settling-ok = ap (λ (r : Result TransferDto). (r, settling.1)) settling-dto

settle_moves_example :
    Moved test_platform
      (test_env 300)
      (direct_input (pay_bob (pos 500)))
      TransferSource.direct
      test_db
      settling.1
settle_moves_example =
    settle_moves test_platform (test_env 300) (direct_input (pay_bob (pos 500)))
      TransferSource.direct test_db settled_dto settling.1 unique settling-ok

settle_within_limits_example :
    let sent = sum_sent_by_window 1 (windows_since 1_700_000_000_000) settling.1.transfers in
    (sent.daily_minor ≤ℤ pos 50_000)
    × (sent.weekly_minor ≤ℤ pos 100_000)
    × (sent.monthly_minor ≤ℤ pos 200_000)
settle_within_limits_example =
    settle_within_limits test_platform (test_env 300) (direct_input (pay_bob (pos 500)))
      TransferSource.direct test_db settled_dto settling.1 settling-ok

abbrev locking : Result Parties × Db
locking = authorise test_platform (test_env 300) (direct_input (pay_bob (pos 500))) test_db

abbrev row : ℕ → ℕ → ℤ → LockedWallet
row id user_id balance = record {
  id = id;
  user_id = user_id;
  balance_minor = balance;
  status = WalletStatus.active;
  currency = "BDT";
  owner_status = UserStatus.active;
  owner_created_at = 0;
  owner_verification_status = VerificationStatus.verified;
}

abbrev parties : Parties
parties = record { sender = row 22 1 (pos 10_000); receiver = row 11 2 (pos 300) }

locking-parties : locking.0 ≡ ok parties
unfolding create_direct_transfer attempt_loop run_attempt begin complete settle hash_request_payload
    canonical_payload authorise move_money assess_risk announce find_wallet_by_user_id
    find_wallet_by_user_text lock_both lock_wallet_by_id assert_participants_active
    assert_wallets_spendable assert_amount_and_balance assert_within_limits insert_pending_transfer
    insert_ledger_entry apply_balance_delta mark_succeeded count_recent evaluate insert_assessment
    insert_event record_audit transaction rolled_back ◌>>=◌ ◌+ℤ◌ ◌-ℤ◌ ◌*ℤ◌ windows_since
    sum_sent_by_window is_retryable_transaction_error large_share large_amount young_sender
    unverified_sender young_receiver round_amount high_velocity
locking-parties = refl

authorise_locks_example :
    (first : ℕ) × (second : ℕ) × (first < second)
    × (locking.1 ≡ record test_db { locks = wallet_row first ∷ wallet_row second ∷ [] })
    × (((first ≡ 22) × (second ≡ 11)) ⊎ ((first ≡ 11) × (second ≡ 22)))
authorise_locks_example =
    authorise_locks test_platform (test_env 300) (direct_input (pay_bob (pos 500)))
      TransferSource.direct test_db parties locking.1
      (ap (λ (r : Result Parties). (r, locking.1)) locking-parties) (ground arith)

abbrev transfer_nine : Transfer
transfer_nine = record {
  id = 9;
  sender_user_id = 1;
  receiver_user_id = 2;
  sender_wallet_id = 22;
  receiver_wallet_id = 11;
  amount_minor = pos 70;
  currency = "BDT";
  status = TransferStatus.succeeded;
  note = none;
  source = TransferSource.direct;
  created_at = 3;
  completed_at = some 4;
}

abbrev with_transfer : Db
with_transfer = record test_db { transfers = transfer_nine ∷ [] }

abbrev shown : TransferDto
shown = record {
  transfer_id = 9;
  status = TransferStatus.succeeded;
  sender_user_id = 1;
  receiver_user_id = 2;
  amount_minor = pos 70;
  currency = "BDT";
  note = none;
  created_at = 3;
  completed_at = some 4;
  sender_balance_after_minor = none;
  risk = none;
}

reading : get_for_participant test_platform request_nine 2 with_transfer ≡ (ok shown, with_transfer)
unfolding get_for_participant matches_uuid_pattern ◌>>=◌
reading = refl

get_for_participant_sound_example :
    (with_transfer ≡ with_transfer)
    × (shown.sender_balance_after_minor ≡ none)
    × (shown.sender_user_id ≡ 2 ⊎ shown.receiver_user_id ≡ 2)
    × ((id : ℕ) × (t : Transfer) × (test_platform.uuid_in request_nine ≡ some id)
        × (find_where (λ (x : Transfer). x.id == id) with_transfer.transfers ≡ some t)
        × (shown.amount_minor ≡ t.amount_minor)
        × (shown.sender_user_id ≡ t.sender_user_id)
        × (shown.receiver_user_id ≡ t.receiver_user_id))
get_for_participant_sound_example =
    get_for_participant_sound test_platform request_nine 2 with_transfer shown with_transfer reading

nine_is_an_id : matches_uuid_pattern (codes request_nine) ≡ true
unfolding matches_uuid_pattern
nine_is_an_id = refl

may_settle :
    (n : ℕ)
    → MaySettle test_platform
        (test_env n)
        (direct_input (pay_bob (pos 500)))
        (row 22 1 (pos 10_000))
        (row 11 2 (pos 300))
        test_db
unfolding windows_since sum_sent_by_window ◌+ℤ◌
may_settle n = record {
  other_text = refl;
  cast = refl;
  sender_probed = refl;
  receiver_probed = refl;
  apart = ground arith;
  sender_active = refl;
  receiver_active = refl;
  sender_wallet = refl;
  receiver_wallet = refl;
  positive = ground arith;
  covered = ground arith;
  daily = ground arith;
  weekly = ground arith;
  monthly = ground arith;
}

draws_fresh : DrawsFresh (test_env 200) test_db
draws_fresh = record { transfer = refl; debit = refl; credit = refl; entries = ground arith }

notes_fresh : NotesFresh (test_env 200) test_db
notes_fresh = record {
  assessment = refl;
  unassessed = refl;
  flagged_event = refl;
  succeeded_event = refl;
  events = ground arith;
  flagged_audit = refl;
  succeeded_audit = refl;
  audits = ground arith;
}

bob_has_room : pos 300 +ℤ pos 500 ≤ℤ bigint_max
unfolding ◌+ℤ◌
bob_has_room = ground arith

alice_and_bob : (row 22 1 (pos 10_000)).user_id ≢ (row 11 2 (pos 300)).user_id
alice_and_bob = ground arith

create_direct_transfer_returns_example :
    (body : Body) × (s' : Db) × (create_direct_transfer test_platform direct
        (pay_bob (pos 500))
        test_db
      ≡ (ok body, s'))
create_direct_transfer_returns_example =
    create_direct_transfer_returns test_platform (pay_bob (pos 500)) (row 22 1 (pos 10_000))
      (row 11 2 (pos 300)) direct test_db refl
      (record {
        unique = unique;
        in_range = in_range;
        checks = may_settle 200;
        draws = draws_fresh;
        notes = notes_fresh;
        users_apart = alice_and_bob;
        fits = bob_has_room;
        unused = refl;
        record_fresh = refl;
      })
