-- ===== src/Fixtures.antt =====
-- A small platform and a small database, on which the theorems are tried.
use pstu_final.MoneyRequests.Rules.{CreateMoneyRequestCommand, ResolveMoneyRequestCommand}
use pstu_final.Base.{ℕ, ◌+◌, ◌%◌, String, none, some, [], ◌∷◌, length, str_eq, ◌==◌, if◌then◌else◌}
use pstu_final.Base.Int.{ℤ, pos}
use pstu_final.Store.Failure.{known}
use pstu_final.Store.Rows.{
  User, UserStatus, Wallet, WalletStatus, VerificationStatus, MoneyRequest, MoneyRequestStatus,
}
use pstu_final.Store.Tx.{Db}
use pstu_final.Platform.{Platform, Env, Draw}
use pstu_final.Transfers.Service.{CreateDirectTransferCommand, Attempt}

abbrev pub alice : String
alice = "00000000-0000-0000-0000-000000000001"

abbrev pub bob : String
bob = "00000000-0000-0000-0000-000000000002"

abbrev pub request_nine : String
request_nine = "00000000-0000-0000-0000-000000000009"

-- A digest that tells a text of odd length from one of even length.
abbrev pub test_platform : Platform
test_platform = record {
  uuid_in = λ t.
      if str_eq t alice
      then some 1
      else if str_eq t bob
      then some 2
      else if str_eq t request_nine
      then some 9
      else none;
  uuid_out = λ n. if n == 1 then alice else if n == 2 then bob else request_nine;
  iso = λ n. "1970-01-01T00:00:00.000Z";
  trim = λ t. t;
  sha256 = λ codes. if length codes % 2 == 0 then "even" else "odd";
  initial_wallet_balance_minor = pos 100_000;
  daily_transfer_limit_minor = pos 50_000;
  weekly_transfer_limit_minor = pos 100_000;
  monthly_transfer_limit_minor = pos 200_000;
}

abbrev draw_number : Draw → ℕ
draw_number Draw.idempotency_record = 1
draw_number Draw.transfer = 2
draw_number Draw.debit_entry = 3
draw_number Draw.credit_entry = 4
draw_number Draw.assessment = 5
draw_number Draw.succeeded_event = 6
draw_number Draw.flagged_event = 7
draw_number Draw.succeeded_audit = 8
draw_number Draw.flagged_audit = 9
draw_number Draw.failed_audit = 10
draw_number Draw.money_request = 11
draw_number Draw.request_event = 12
draw_number Draw.request_audit = 13
draw_number Draw.notification = 14
draw_number Draw.user = 15
draw_number Draw.wallet = 16
draw_number Draw.session = 17
draw_number Draw.auth_audit = 18
draw_number Draw.verification_audit = 19
draw_number Draw.guard_audit = 20

abbrev pub test_env : ℕ → Env
test_env base = record {
  clock = λ r. 1_700_000_000_000;
  uuid = λ d. base + draw_number d;
  request_id = some "req-1";
}

-- The first attempt is the victim of a deadlock; the second goes through.
abbrev pub retried : ℕ → Attempt
retried n = record {
  env = test_env (100 + n);
  abort = if n == 1 then some (known "P2034" none []) else none;
}

abbrev pub direct : ℕ → Attempt
direct n = record { env = test_env 200; abort = none }

abbrev pub test_user : ℕ → User
test_user id = record {
  id = id;
  email = "someone@example.com";
  display_name = "Someone";
  password_hash = "hash";
  status = UserStatus.active;
  created_at = 0;
  nid_hash = none;
  nid_masked = none;
  verification_status = VerificationStatus.verified;
  verified_at = none;
}

abbrev wallet : ℕ → ℕ → ℤ → Wallet
wallet id user_id balance = record {
  id = id;
  user_id = user_id;
  currency = "BDT";
  balance_minor = balance;
  status = WalletStatus.active;
}

abbrev sample_request : ℕ → MoneyRequestStatus → MoneyRequest
sample_request id status = record {
  id = id;
  requester_user_id = 2;
  payer_user_id = 1;
  amount_minor = pos 700;
  currency = "BDT";
  note = none;
  status = status;
  accepted_transfer_id = none;
  expires_at = none;
  created_at = 5;
  resolved_at = none;
}

abbrev pub declined_request : MoneyRequest
declined_request = sample_request 8 MoneyRequestStatus.declined

-- Alice's wallet has the higher id.
abbrev pub test_db : Db
test_db = record {
  users = test_user 1 ∷ test_user 2 ∷ [];
  wallets = wallet 22 1 (pos 10_000) ∷ wallet 11 2 (pos 300) ∷ [];
  transfers = [];
  ledger = [];
  assessments = [];
  requests = sample_request 9 MoneyRequestStatus.pending ∷ declined_request ∷ [];
  records = [];
  outbox = [];
  audit = [];
  notifications = [];
  sessions = [];
  locks = [];
}

abbrev pub pay_bob : ℤ → CreateDirectTransferCommand
pay_bob amount = record {
  actor_user_id = 1;
  receiver_user_id = bob;
  amount_minor = amount;
  currency = "BDT";
  note = none;
  idempotency_key = "key-1";
}

-- The payer's calls on request 9.
abbrev pub on_nine : String → ResolveMoneyRequestCommand
on_nine key = record { actor_user_id = 1; request_id = request_nine; idempotency_key = key }

-- Bob asks for 900.
abbrev pub bob_asks : String → CreateMoneyRequestCommand
bob_asks payer = record {
  actor_user_id = 2;
  payer_user_id = payer;
  amount_minor = pos 900;
  currency = "BDT";
  note = none;
  expires_at = none;
  idempotency_key = "ask";
}
