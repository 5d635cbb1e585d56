-- ===== src/Transfers/Settled.antt =====
-- A settlement that returned: the parties that it found, and what it left in each table.
use pstu_final.Base.{refl, [], ◌∷◌, ◌++◌, ◌≡◌, ◌≢◌, some, false, arith, any, ◌==◌}
use pstu_final.Base.Int.{pos, ◌≤ℤ◌, ◌-ℤ◌}
use pstu_final.Store.Rows.{TransferStatus, Transfer, TransferSource}
use pstu_final.Store.Dto.{TransferDto, RiskAssessmentDto}
use pstu_final.Store.Tx.{Db, ok, pure}
use pstu_final.Store.Run.{>>=-elim}
use pstu_final.Platform.{Platform, Env, Draw}
use pstu_final.Transfers.Settle.{
  SettleInput, Parties, authorise, move_money, assess_risk, announce, to_transfer_dto, settle,
}
use pstu_final.Transfers.Repository.{pending_transfer}
use pstu_final.Transfers.Authorise.{authorise-tables}
use pstu_final.Transfers.Moves.{succeeded_transfer, after_move, move_money-inv, move_money-checks}
use pstu_final.Transfers.Annotations.{assess_risk-SameMoney, announce-SameMoney}

module _ (p : Platform) (e : Env) (input : SettleInput) (source : TransferSource) where
  pub record Settled (s : Db) (dto : TransferDto) (s' : Db) : Type 0 where
    pub parties : Parties
    pub locked : Db
    pub authorised : authorise p e input s ≡ (ok parties, locked)
    pub wallets : s'.wallets ≡ (after_move p e input source parties s).wallets
    pub ledger : s'.ledger ≡ (after_move p e input source parties s).ledger
    pub transfers : s'.transfers ≡ (after_move p e input source parties s).transfers
    pub users : s'.users ≡ s.users
    pub records : s'.records ≡ s.records
    pub requests : s'.requests ≡ s.requests
    pub fresh : any (λ (t : Transfer). t.id == e.uuid Draw.transfer) s.transfers ≡ false
    pub distinct : parties.sender.user_id ≢ parties.receiver.user_id
    pub positive : pos 1 ≤ℤ input.amount_minor
    pub receipt_id : dto.transfer_id ≡ e.uuid Draw.transfer
    pub receipt_sender : dto.sender_user_id ≡ parties.sender.user_id
    pub receipt_balance :
        dto.sender_balance_after_minor ≡ some (parties.sender.balance_minor -ℤ input.amount_minor)

  parts-Settled :
      (s : Db) (w : Parties) (u : Db) (t : Transfer) (v : Db) (a : RiskAssessmentDto) (x : Db)
      (d : Unit {0}) (y : Db) {dto : TransferDto} {s' : Db}
      → authorise p e input s ≡ (ok w, u)
      → move_money p e input source w u ≡ (ok t, v)
      → assess_risk p e input w t.id v ≡ (ok a, x)
      → announce p e input source w t.id x ≡ (ok d, y)
      → pure (to_transfer_dto p t (some (w.sender.balance_minor -ℤ input.amount_minor)) (some a)) y
        ≡ (ok dto, s')
      → Settled s dto s'
  unfolding pending_transfer
  parts-Settled s w u t v a x d y h1 h2 h3 h4 h5 =
      let e1 = authorise-tables p e input s h1 in
      let e2 = move_money-inv p e input source w u t v h2 in
      let checks = move_money-checks p e input source w u h2 in
      let e3 = assess_risk-SameMoney p e input w t.id v h3 in
      let e4 = announce-SameMoney p e input source w t.id x h4 in
      record {
        parties = w;
        locked = u;
        authorised = h1;
        wallets = ground arith;
        ledger = ground arith;
        transfers = ground arith;
        users = ground arith;
        records = ground arith;
        requests = ground arith;
        fresh = ground arith;
        distinct = checks.1;
        positive = checks.2;
        receipt_id = ground arith;
        receipt_sender = ground arith;
        receipt_balance = ground arith;
      }

  pub settle-Settled :
      (s : Db) {dto : TransferDto} {s' : Db}
      → settle p e input source s ≡ (ok dto, s')
      → Settled s dto s'
  unfolding settle
  settle-Settled s h = >>=-elim _ _ s h λ w u h1 r1. >>=-elim _ _ u r1 λ t v h2 r2.
      >>=-elim _ _ v r2
        λ a x h3 r3. >>=-elim _ _ x r3 λ d y h4 r4. parts-Settled s w u t v a x d y h1 h2 h3 h4 r4

  -- The transfer of a receipt stands last in the table, succeeded.
  pub record Recorded (s : Db) (dto : TransferDto) (s' : Db) : Type 0 where
    pub transfer : Transfer
    pub appended : s'.transfers ≡ s.transfers ++ transfer ∷ []
    pub named : dto.transfer_id ≡ transfer.id
    pub status : transfer.status ≡ TransferStatus.succeeded
    pub amount : transfer.amount_minor ≡ input.amount_minor
    pub origin : transfer.source ≡ source

  pub settle-Recorded :
      (s : Db) (dto : TransferDto) (s' : Db)
      → settle p e input source s ≡ (ok dto, s')
      → Recorded s dto s'
  unfolding pending_transfer
  settle-Recorded s dto s' h =
      let r = settle-Settled s h in
      record {
        transfer = succeeded_transfer p e input source r.parties;
        appended = r.transfers;
        named = r.receipt_id;
        status = refl;
        amount = refl;
        origin = refl;
      }

  pub Recorded-frame :
      (s t u v : Db) (dto : TransferDto)
      → s.transfers ≡ t.transfers
      → v.transfers ≡ u.transfers
      → Recorded t dto u
      → Recorded s dto v
  Recorded-frame s t u v dto start end r = record {
    transfer = r.transfer;
    appended = rw (start, end) r.appended;
    named = r.named;
    status = r.status;
    amount = r.amount;
    origin = r.origin;
  }
