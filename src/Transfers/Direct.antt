-- ===== src/Transfers/Direct.antt =====
-- What a call of `createDirectTransfer` that returns or throws has done.
use pstu_final.Transfers.Settled.{Recorded, Recorded-frame, settle-Recorded}
use pstu_final.Idempotency.{same_key}
use pstu_final.Base.{some, find_where, List, ℕ, ◌≡◌, ap, sym, [], arith}
use pstu_final.Store.Failure.{Failure}
use pstu_final.Store.Rows.{TransferSource}
use pstu_final.Store.Dto.{Body, TransferDto, IdempotencyRecord}
use pstu_final.Store.Tx.{Lock, Db, Result, ok, err}
use pstu_final.Platform.{Platform, Env}
use pstu_final.Idempotency.Replay.{SameOthers, begin-SameOthers, complete-SameOthers}
use pstu_final.Idempotency.Stored.{begin-Stored}
use pstu_final.Transfers.Service.{CreateDirectTransferCommand, Attempt, create_direct_transfer}
use pstu_final.Transfers.Wallets.{HasUniqueIds, total}
use pstu_final.Transfers.Money.{Moved, settle_moves}
use pstu_final.Transfers.Outcome.{
  OnlyAudited, begin_params, direct_input, Ran, replays, moves, Served, served, attempt_loop-err,
  create_direct_transfer-Served,
}

module _ (p : Platform) (attempts : ℕ → Attempt) (command : CreateDirectTransferCommand) where
  -- A request that throws, whatever its attempts met, leaves every table as it was but for the
  -- audit log.
  pub create_direct_transfer_atomic :
      (s : Db) (f : Failure) (s' : Db)
      → create_direct_transfer p attempts command s ≡ (err f, s')
      → OnlyAudited s s'
  unfolding create_direct_transfer
  create_direct_transfer_atomic s f s' h = attempt_loop-err p attempts command 2 1 s f s' h

  -- What a request that returns has done: given the stored response, or made one movement.
  pub data Paid (s s' : Db) : Body → Type 0 where
    repeated :
        (body : Body) (row : IdempotencyRecord)
        → find_where (same_key (begin_params command)) s.records ≡ some row
        → row.response_body ≡ body
        → s' ≡ record s { locks = s'.locks }
        → Paid s s' body
    paid :
        (e : Env) (dto : TransferDto)
        → Moved p e (direct_input command) TransferSource.direct s s'
        → Recorded p e (direct_input command) TransferSource.direct s dto s'
        → Paid s s' (Body.transfer dto)

  -- The records and the locks are no part of a movement.
  Moved-records :
      (e : Env) (s u : Db) (rs rs' : List IdempotencyRecord) (ls ls' : List Lock)
      → Moved p e
          (direct_input command)
          TransferSource.direct
          (record s { records = rs; locks = ls })
          u
      → Moved p e
          (direct_input command)
          TransferSource.direct
          s
          (record u { records = rs'; locks = ls' })
  Moved-records e s u rs rs' ls ls' m = record {
    sender = m.sender;
    receiver = m.receiver;
    sender_user = m.sender_user;
    receiver_user = m.receiver_user;
    apart = m.apart;
    sender_before = m.sender_before;
    receiver_before = m.receiver_before;
    covered = m.covered;
    sender_after = m.sender_after;
    receiver_after = m.receiver_after;
    others = m.others;
    conserved = m.conserved;
    still_unique = m.still_unique;
    ledger = m.ledger;
  }

  Moved-between :
      (e : Env) (s t u v : Db)
      → SameOthers (record s { locks = [] }) t
      → SameOthers u v
      → Moved p e (direct_input command) TransferSource.direct t u
      → Moved p e (direct_input command) TransferSource.direct s (record v { locks = [] })
  Moved-between e s t u v before after m =
      rw after (Moved-records e s u t.records v.records t.locks [] (rw before at m))

  Ran-Paid :
      (e : Env) (s t : Db) (body : Body)
      → HasUniqueIds s.wallets
      → Ran p e command (record s { locks = [] }) t body
      → Paid s (record t { locks = [] }) body
  Ran-Paid e s t _ unique (replays status body begun) =
      let stored = begin-Stored p e (begin_params command) _ status body t begun in
      let kept = stored.kept in
      repeated body stored.row stored.found stored.body_stored (ground arith)
  Ran-Paid e s t _ unique (moves id u v dto begun moved completed) =
      let before = begin-SameOthers p e (begin_params command) (record s { locks = [] }) begun in
      let after = complete-SameOthers _ v completed in
      let same_wallets : s.wallets ≡ u.wallets = ground arith in
      paid e dto
        (Moved-between e s u v t before after (
          settle_moves p e (direct_input command) TransferSource.direct u dto v
            (rw same_wallets at unique) moved))
        (Recorded-frame p e (direct_input command) TransferSource.direct s u v
          (record t { locks = [] }) dto (ground arith) (ground arith)
          (settle-Recorded p e (direct_input command) TransferSource.direct u dto v moved))

  Served-Paid :
      (s s' : Db) (body : Body)
      → HasUniqueIds s.wallets
      → Served p attempts command s s' body
      → Paid s s' body
  Served-Paid s s' body unique (served n t low high ran end) =
      rw end (Ran-Paid (attempts n).env s t body unique ran)

  -- From wallets with distinct ids, a request that returns has either returned the response that a
  -- record stores under its key, and changed no table, or it has made the movement of its amount
  -- between the two parties' wallets and returned the receipt of a transfer of that amount, which
  -- now stands last in the table, succeeded.
  pub create_direct_transfer_pays :
      (s : Db) (body : Body) (s' : Db)
      → HasUniqueIds s.wallets
      → create_direct_transfer p attempts command s ≡ (ok body, s')
      → Paid s s' body
  create_direct_transfer_pays s body s' unique h =
      Served-Paid s s' body unique (create_direct_transfer-Served p attempts command s body s' h)

  Paid-conserves :
      (s s' : Db) (body : Body)
      → HasUniqueIds s.wallets
      → Paid s s' body
      → (total s'.wallets ≡ total s.wallets) × HasUniqueIds s'.wallets
  Paid-conserves s s' body unique (repeated _ row found stored kept) =
      let same : s.wallets ≡ s'.wallets = ground arith in (ap total (sym same), rw same at unique)
  Paid-conserves s s' _ unique (paid e dto m recorded) = (m.conserved, m.still_unique)

  -- Whatever a request on wallets with distinct ids returns or throws, the sum of all balances is
  -- what it was, and the ids are still distinct.
  pub create_direct_transfer_conserves :
      (s : Db) (r : Result Body) (s' : Db)
      → HasUniqueIds s.wallets
      → create_direct_transfer p attempts command s ≡ (r, s')
      → (total s'.wallets ≡ total s.wallets) × HasUniqueIds s'.wallets
  create_direct_transfer_conserves s (ok body) s' unique h =
      Paid-conserves s s' body unique (create_direct_transfer_pays s body s' unique h)
  create_direct_transfer_conserves s (err f) s' unique h =
      let kept = create_direct_transfer_atomic s f s' h in
      let same : s.wallets ≡ s'.wallets = ground arith in (ap total (sym same), rw same at unique)
