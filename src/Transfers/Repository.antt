-- ===== src/Transfers/Repository.antt =====
-- The rows of a transfer and the balances: apps/api/src/transfers/transfers.repository.ts, with the
-- CHECK constraints and the unique keys of database/prisma/migrations that its statements meet.
use pstu_final.Base.{
  ℕ, ◌-◌, ◌^◌, String, Bool, ◌&&◌, ◌||◌, not, Option, none, some, List, [], ◌∷◌, ◌++◌, any,
  find_where, update_where, ◌==◌, if◌then◌else◌,
}
use pstu_final.Base.Int.{ℤ, pos, ◌+ℤ◌, ◌-ℤ◌, leb_ℤ, ltb_ℤ}
use pstu_final.Store.Failure.{known, plain, raw_query_failed, unique_constraint_violation}
use pstu_final.Store.Rows.{
  User, UserStatus, Wallet, WalletStatus, VerificationStatus, Transfer, TransferStatus,
  TransferSource, LedgerEntry, LedgerDirection,
}
use pstu_final.Store.Tx.{Tx, wallet_row, pure, throw, throw_if, or_throw, gets, modify, ◌>>=◌, ◌>>◌}
use pstu_final.Platform.{Platform, Env, Draw, Reading}

pub record LockedWallet : Type 0 where
  pub id : ℕ
  pub user_id : ℕ
  pub balance_minor : ℤ
  pub status : WalletStatus
  pub currency : String
  pub owner_status : UserStatus
  pub owner_created_at : ℕ
  pub owner_verification_status : VerificationStatus

pub record InsertTransferData : Type 0 where
  pub sender_user_id : ℕ
  pub receiver_user_id : ℕ
  pub sender_wallet_id : ℕ
  pub receiver_wallet_id : ℕ
  pub amount_minor : ℤ
  pub currency : String
  pub note : Option String
  pub source : TransferSource

pub record LedgerEntryData : Type 0 where
  pub transfer_id : ℕ
  pub wallet_id : ℕ
  pub direction : LedgerDirection
  pub amount_minor : ℤ
  pub signed_amount_minor : ℤ
  pub currency : String
  pub balance_after_minor : ℤ

-- The largest BIGINT.
abbrev pub bigint_max : ℤ
bigint_max = pos (2 ^ 63 - 1)

abbrev pub eqb_ℤ : ℤ → ℤ → Bool
eqb_ℤ a b = leb_ℤ a b && leb_ℤ b a

-- ledger_entries_signed_amount_matches_direction
abbrev pub signed_matches : LedgerDirection → ℤ → ℤ → Bool
signed_matches LedgerDirection.debit amount signed = eqb_ℤ signed (pos 0 -ℤ amount)
signed_matches LedgerDirection.credit amount signed = eqb_ℤ signed amount

-- An error of the client that carries no code: a CHECK constraint, a value out of range.
abbrev pub refused : String
refused = "PrismaClientUnknownRequestError"

module _ (p : Platform) where
  abbrev pub to_locked_wallet : Wallet → User → LockedWallet
  to_locked_wallet w u = record {
    id = w.id;
    user_id = w.user_id;
    balance_minor = w.balance_minor;
    status = w.status;
    currency = p.trim w.currency;
    owner_status = u.status;
    owner_created_at = u.created_at;
    owner_verification_status = u.verification_status;
  }

  -- FROM wallets w JOIN users u ON u.id = w.user_id
  abbrev pub joined : List User → List Wallet → List LockedWallet
  joined users [] = []
  joined users (w ∷ ws) = elim (find_where (λ u. u.id == w.user_id) users) [
    | none ↦ joined users ws
    | some u ↦ to_locked_wallet w u ∷ joined users ws
  ]

  unfoldable pub find_wallet_by_user_id : ℕ → Tx (Option LockedWallet)
  find_wallet_by_user_id user_id =
      gets (λ s. find_where (λ w. w.user_id == user_id) (joined s.users s.wallets))

  -- The same with the text that a client has sent, which the statement casts.
  unfoldable pub find_wallet_by_user_text : String → Tx (Option LockedWallet)
  unfolding find_wallet_by_user_id
  find_wallet_by_user_text user_id = elim (p.uuid_in user_id) [
    | none ↦ throw (known raw_query_failed (some "22P02") [])
    | some id ↦ find_wallet_by_user_id id
  ]

  unfoldable pub lock_wallet_by_id : ℕ → Tx LockedWallet
  lock_wallet_by_id wallet_id = do
    modify (λ s.
        if any (λ (w : Wallet). w.id == wallet_id) s.wallets
        then record s { locks = s.locks ++ wallet_row wallet_id ∷ [] }
        else s)
    row ← gets (λ s. find_where (λ w. w.id == wallet_id) (joined s.users s.wallets))
    or_throw row (plain "Wallet disappeared while locking")

module _ (e : Env) where
  unfoldable pub pending_transfer : InsertTransferData → Transfer
  pending_transfer d = record {
    id = e.uuid Draw.transfer;
    sender_user_id = d.sender_user_id;
    receiver_user_id = d.receiver_user_id;
    sender_wallet_id = d.sender_wallet_id;
    receiver_wallet_id = d.receiver_wallet_id;
    amount_minor = d.amount_minor;
    currency = d.currency;
    status = TransferStatus.pending;
    note = d.note;
    source = d.source;
    created_at = e.clock Reading.transfer_insert;
    completed_at = none;
  }

  -- With transfers_amount_minor_positive and transfers_distinct_parties.
  unfoldable pub insert_pending_transfer : InsertTransferData → Tx Transfer
  unfolding pending_transfer
  insert_pending_transfer d = do
    throw_if (leb_ℤ d.amount_minor (pos 0) || d.sender_user_id == d.receiver_user_id)
        (plain refused)
    clash ← gets (λ s. any (λ (t : Transfer). t.id == e.uuid Draw.transfer) s.transfers)
    throw_if clash (known unique_constraint_violation none ("id" ∷ []))
    modify (λ s. record s { transfers = s.transfers ++ pending_transfer d ∷ [] })
    pure (pending_transfer d)

  unfoldable pub ledger_entry : Draw → LedgerEntryData → LedgerEntry
  ledger_entry draw d = record {
    id = e.uuid draw;
    transfer_id = d.transfer_id;
    wallet_id = d.wallet_id;
    direction = d.direction;
    amount_minor = d.amount_minor;
    signed_amount_minor = d.signed_amount_minor;
    currency = d.currency;
    balance_after_minor = d.balance_after_minor;
    created_at = e.clock Reading.ledger_insert;
  }

  -- With ledger_entries_amount_minor_positive, the sign check, and the range of BIGINT.
  unfoldable pub insert_ledger_entry : Draw → LedgerEntryData → Tx (Unit {0})
  unfolding ledger_entry
  insert_ledger_entry draw d = do
    throw_if
        (leb_ℤ d.amount_minor (pos 0)
          || not (signed_matches d.direction d.amount_minor d.signed_amount_minor)
          || ltb_ℤ bigint_max d.balance_after_minor)
        (plain refused)
    clash ← gets (λ s. any (λ (r : LedgerEntry). r.id == e.uuid draw) s.ledger)
    throw_if clash (known unique_constraint_violation none ("id" ∷ []))
    modify (λ s. record s { ledger = s.ledger ++ ledger_entry draw d ∷ [] })

  -- `update` throws where there is no row of the id.
  unfoldable pub mark_succeeded : ℕ → Tx Transfer
  mark_succeeded transfer_id = do
    modify (λ s. record s {
      transfers =
          update_where (λ (t : Transfer). t.id == transfer_id)
            (λ t. record t {
              status = TransferStatus.succeeded;
              completed_at = some (e.clock Reading.transfer_completion);
            })
            s.transfers;
    })
    row ← gets (λ s. find_where (λ (t : Transfer). t.id == transfer_id) s.transfers)
    or_throw row (known "P2025" none [])

-- With wallets_balance_minor_check and the range of BIGINT.
abbrev pub out_of_bounds : ℤ → Bool
out_of_bounds balance = ltb_ℤ balance (pos 0) || ltb_ℤ bigint_max balance

unfoldable pub apply_balance_delta : ℕ → ℤ → Tx (Unit {0})
apply_balance_delta wallet_id delta = do
  refuse ← gets (λ s.
      any (λ (w : Wallet). w.id == wallet_id && out_of_bounds (w.balance_minor +ℤ delta)) s.wallets)
  throw_if refuse (known raw_query_failed (some "23514") [])
  modify (λ s. record s {
    wallets =
        update_where (λ (w : Wallet). w.id == wallet_id)
          (λ w. record w { balance_minor = w.balance_minor +ℤ delta }) s.wallets;
  })
