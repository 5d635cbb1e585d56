-- ===== src/Transfers/Moves.antt =====
-- What the movement itself writes: `move_money`, as one change of the state.
use pstu_final.Base.{
  ℕ, ◌≡◌, ◌≢◌, sym, ap, ◌∙◌, false, some, arith, ◌==◌, List, [], ◌∷◌, ◌++◌, any, update_where,
  update_where-last, find_where-append, ==_refl,
}
use pstu_final.Base.Int.{ℤ, pos, ◌≤ℤ◌, ◌+ℤ◌, ◌-ℤ◌}
use pstu_final.Store.Rows.{
  Transfer, TransferStatus, TransferSource, LedgerDirection, LedgerEntry, Wallet,
}
use pstu_final.Store.Run.{>>=-inv, >>=-exact}
use pstu_final.Store.Tx.{Db, Result, ok, ◌>>=◌}
use pstu_final.Platform.{Platform, Env, Draw, Reading}
use pstu_final.Transfers.Repository.{
  InsertTransferData, LedgerEntryData, pending_transfer, ledger_entry, insert_pending_transfer,
  insert_ledger_entry, mark_succeeded, apply_balance_delta,
}
use pstu_final.Transfers.Settle.{SettleInput, Parties, move_money}

-- The wallets after a delta on the wallet of an id.
abbrev pub credited : ℕ → ℤ → List Wallet → List Wallet
credited id delta =
    update_where (λ (w : Wallet). w.id == id)
      (λ w. record w { balance_minor = w.balance_minor +ℤ delta })

module _ (e : Env) where
  pub mark_succeeded-append :
      (s : Db) (t : Transfer)
      → any (λ (x : Transfer). x.id == t.id) s.transfers ≡ false
      → let done : Transfer = record t {
        status = TransferStatus.succeeded;
        completed_at = some (e.clock Reading.transfer_completion);
      } in
        mark_succeeded e t.id (record s { transfers = s.transfers ++ t ∷ [] })
        ≡ (ok done, record s { transfers = s.transfers ++ done ∷ [] })
  unfolding mark_succeeded ◌>>=◌
  mark_succeeded-append s t fresh = rw (update_where-last _ _ s.transfers t fresh (==_refl t.id)) (
      rw (
        find_where-append (λ (x : Transfer). x.id == t.id) s.transfers
          (record t {
            status = TransferStatus.succeeded;
            completed_at = some (e.clock Reading.transfer_completion);
          })
          fresh (==_refl t.id)))

  pub insert_pending_transfer-inv :
      (d : InsertTransferData) (s : Db) (t : Transfer) (s' : Db)
      → insert_pending_transfer e d s ≡ (ok t, s')
      → (t ≡ pending_transfer e d)
        × (s' ≡ record s { transfers = s.transfers ++ pending_transfer e d ∷ [] })
  unfolding insert_pending_transfer ◌>>=◌
  insert_pending_transfer-inv d s t s' h = ground arith

  pub insert_pending_transfer-checks :
      (d : InsertTransferData) (s : Db) {t : Transfer} {s' : Db}
      → insert_pending_transfer e d s ≡ (ok t, s')
      → (any (λ (x : Transfer). x.id == e.uuid Draw.transfer) s.transfers ≡ false)
        × (d.sender_user_id ≢ d.receiver_user_id)
        × (pos 1 ≤ℤ d.amount_minor)
  unfolding insert_pending_transfer ◌>>=◌
  insert_pending_transfer-checks d s h = ground arith

  pub insert_ledger_entry-inv :
      (draw : Draw) (d : LedgerEntryData) (s : Db) (u : Unit {0}) (s' : Db)
      → insert_ledger_entry e draw d s ≡ (ok u, s')
      → (u ≡ tt) × (s' ≡ record s { ledger = s.ledger ++ ledger_entry e draw d ∷ [] })
  unfolding insert_ledger_entry ◌>>=◌
  insert_ledger_entry-inv draw d s u s' h = ground arith

pub apply_balance_delta-inv :
    (id : ℕ) (delta : ℤ) (s : Db) (u : Unit {0}) (s' : Db)
    → apply_balance_delta id delta s ≡ (ok u, s')
    → (u ≡ tt) × (s' ≡ record s { wallets = credited id delta s.wallets })
unfolding apply_balance_delta ◌>>=◌
apply_balance_delta-inv id delta s u s' h = ground arith

module _ (p : Platform) (e : Env) where
  abbrev pub transfer_data : SettleInput → TransferSource → Parties → InsertTransferData
  transfer_data input source w = record {
    sender_user_id = w.sender.user_id;
    receiver_user_id = w.receiver.user_id;
    sender_wallet_id = w.sender.id;
    receiver_wallet_id = w.receiver.id;
    amount_minor = input.amount_minor;
    currency = input.currency;
    note = input.note;
    source = source;
  }

  abbrev pub succeeded_transfer : SettleInput → TransferSource → Parties → Transfer
  succeeded_transfer input source w = record (pending_transfer e (transfer_data input source w)) {
    status = TransferStatus.succeeded;
    completed_at = some (e.clock Reading.transfer_completion);
  }

  abbrev pub debit_data : SettleInput → Parties → LedgerEntryData
  debit_data input w = record {
    transfer_id = e.uuid Draw.transfer;
    wallet_id = w.sender.id;
    direction = LedgerDirection.debit;
    amount_minor = input.amount_minor;
    signed_amount_minor = pos 0 -ℤ input.amount_minor;
    currency = input.currency;
    balance_after_minor = w.sender.balance_minor -ℤ input.amount_minor;
  }

  abbrev pub credit_data : SettleInput → Parties → LedgerEntryData
  credit_data input w = record {
    transfer_id = e.uuid Draw.transfer;
    wallet_id = w.receiver.id;
    direction = LedgerDirection.credit;
    amount_minor = input.amount_minor;
    signed_amount_minor = input.amount_minor;
    currency = input.currency;
    balance_after_minor = w.receiver.balance_minor +ℤ input.amount_minor;
  }

  abbrev pub after_move : SettleInput → TransferSource → Parties → Db → Db
  after_move input source w s = record s {
    transfers = s.transfers ++ succeeded_transfer input source w ∷ [];
    ledger =
        (s.ledger ++ ledger_entry e Draw.debit_entry (debit_data input w) ∷ [])
        ++ ledger_entry e Draw.credit_entry (credit_data input w) ∷ [];
    wallets =
        credited w.receiver.id input.amount_minor
          (credited w.sender.id (pos 0 -ℤ input.amount_minor) s.wallets);
  }

  pub move_money-checks :
      (input : SettleInput) (source : TransferSource) (w : Parties) (s : Db) {t : Transfer}
      {s' : Db}
      → move_money p e input source w s ≡ (ok t, s')
      → (any (λ (x : Transfer). x.id == e.uuid Draw.transfer) s.transfers ≡ false)
        × (w.sender.user_id ≢ w.receiver.user_id)
        × (pos 1 ≤ℤ input.amount_minor)
  unfolding move_money
  move_money-checks input source w s h =
      let (t1, s1, h1, r1) = >>=-inv _ _ s h in
      insert_pending_transfer-checks e (transfer_data input source w) s h1

  -- The movement returns only the succeeded transfer, and leaves only this state.
  pub move_money-inv :
      (input : SettleInput) (source : TransferSource) (w : Parties) (s : Db) (t : Transfer)
      (s' : Db)
      → move_money p e input source w s ≡ (ok t, s')
      → (t ≡ succeeded_transfer input source w) × (s' ≡ after_move input source w s)
  unfolding move_money pending_transfer
  move_money-inv input source w s t s' h =
      let t1 : Transfer = pending_transfer e (transfer_data input source w) in
      let s1 : Db = record s { transfers = s.transfers ++ t1 ∷ [] } in
      let debit : LedgerEntry = ledger_entry e Draw.debit_entry (debit_data input w) in
      let credit : LedgerEntry = ledger_entry e Draw.credit_entry (credit_data input w) in
      let s2 : Db = record s1 { ledger = s.ledger ++ debit ∷ [] } in
      let s3 : Db = record s1 { ledger = (s.ledger ++ debit ∷ []) ++ credit ∷ [] } in
      let paid : List Wallet = credited w.sender.id (pos 0 -ℤ input.amount_minor) s.wallets in
      let s4 : Db = record s3 { wallets = paid } in
      let s5 : Db = record s3 { wallets = credited w.receiver.id input.amount_minor paid } in
      let r1 = >>=-exact _ _ s t1 s1 (insert_pending_transfer-inv e _ s) h in
      let r2 =
        >>=-exact _ _ s1 tt s2 (insert_ledger_entry-inv e Draw.debit_entry (debit_data input w) s1)
          r1 in
      let r3 =
        >>=-exact _ _ s2 tt s3
          (insert_ledger_entry-inv e Draw.credit_entry (credit_data input w) s2) r2 in
      let r4 = >>=-exact _ _ s3 tt s4 (apply_balance_delta-inv _ _ s3) r3 in
      let r5 = >>=-exact _ _ s4 tt s5 (apply_balance_delta-inv _ _ s4) r4 in
      let last =
        mark_succeeded-append e (record s5 { transfers = s.transfers }) t1
          (move_money-checks input source w s h).0 in
      let both = sym last ∙ r5 in (cc both, sym (ap (λ (x : Result Transfer × Db). x.1) both))
