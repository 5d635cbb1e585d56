-- ===== src/Notifications/Tests.antt =====
-- One event handled twice, and one announced.
use pstu_final.Notifications.Repository.{insert_if_absent}
use pstu_final.Notifications.Sample.{language, reads_back, received, text_of, read}
use pstu_final.Base.{ℕ, none, [], ◌∷◌, ◌++◌, ◌≡◌, refl, ap}
use pstu_final.Base.Int.{pos}
use pstu_final.Store.Rows.{
  OutboxEvent, TransferSource, WalletStatus, UserStatus, VerificationStatus,
}
use pstu_final.Store.Tx.{Db, Result, ok, ◌>>=◌}
use pstu_final.Audit.{record_audit}
use pstu_final.Fixtures.{test_platform, test_env, test_db}
use pstu_final.Outbox.{insert_event}
use pstu_final.Outbox.Queue.{to_claimed}
use pstu_final.Transfers.Repository.{LockedWallet}
use pstu_final.Transfers.Settle.{SettleInput, Parties, announce}
use pstu_final.Notifications.Consumer.{handle, plan}
use pstu_final.Notifications.Redelivery.{handle_again}
use pstu_final.Notifications.Announced.{announce_tells, told_of}

abbrev handled : Result (Unit {0}) × Db
handled = handle test_platform language (test_env 300) received test_db

handled_once : handled.0 ≡ ok tt
unfolding handle insert_if_absent text_of read ◌>>=◌
handled_once = refl

handle_again_example :
    handle test_platform language (test_env 900) received handled.1 ≡ (ok tt, handled.1)
handle_again_example =
    handle_again test_platform language (test_env 300) (test_env 900) received test_db handled.1
      (ap (λ r. (r, handled.1)) handled_once)

abbrev wallet_of : ℕ → LockedWallet
wallet_of user_id = record {
  id = user_id;
  user_id = user_id;
  balance_minor = pos 1_000;
  status = WalletStatus.active;
  currency = "BDT";
  owner_status = UserStatus.active;
  owner_created_at = 0;
  owner_verification_status = VerificationStatus.verified;
}

abbrev parties : Parties
parties = record { sender = wallet_of 1; receiver = wallet_of 2 }

abbrev input : SettleInput
input = record {
  sender_user_id = 1;
  receiver_user_id = "00000000-0000-0000-0000-000000000002";
  amount_minor = pos 5;
  currency = "BDT";
  note = none;
}

abbrev announced : Result (Unit {0}) × Db
announced = announce test_platform (test_env 300) input TransferSource.direct parties 9 test_db

announced_once : announced.0 ≡ ok tt
unfolding announce insert_event record_audit ◌>>=◌
announced_once = refl

announce_tells_example :
    (event : OutboxEvent) × (announced.1.outbox ≡ test_db.outbox ++ event ∷ [])
    × (plan language (to_claimed event) test_db
        ≡ (ok (told_of test_platform input TransferSource.direct parties 9), test_db))
announce_tells_example =
    announce_tells test_platform language (test_env 300) reads_back input TransferSource.direct
      parties 9 test_db announced.1 test_db (ap (λ r. (r, announced.1)) announced_once)
