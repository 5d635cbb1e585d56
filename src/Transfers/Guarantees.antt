-- ===== src/Transfers/Guarantees.antt =====
-- What holds of every settlement: the limits, the range of the balances, the order of the locks and
-- the rows that it announces.
use pstu_final.Base.{
  Bool-cases, ℕ, ◌≡◌, ◌≢◌, ◌<◌, refl, ◌⊎◌, inl, inr, Bool, List, [], ◌∷◌, ◌++◌, arith, leb,
  if◌then◌else◌,
}
use pstu_final.Base.Int.{ℤ, pos, ◌+ℤ◌, ◌≤ℤ◌, int_laws}
use pstu_final.Store.Rows.{Transfer, TransferSource}
use pstu_final.Store.Dto.{TransferDto}
use pstu_final.Store.Tx.{Db, ok, wallet_row}
use pstu_final.Platform.{Platform, Env, Reading}
use pstu_final.Limits.{sum_amounts, sum_sent_by_window, windows_since}
use pstu_final.Transfers.Repository.{pending_transfer}
use pstu_final.Transfers.Settle.{SettleInput, Parties, settle, authorise}
use pstu_final.Transfers.Authorise.{authorise-Cleared}
use pstu_final.Transfers.Moves.{succeeded_transfer}
use pstu_final.Transfers.Settled.{settle-Settled}

sum_amounts-append :
    (test : Transfer → Bool) (ts : List Transfer) (t : Transfer)
    → sum_amounts test (ts ++ t ∷ [])
      ≡ sum_amounts test ts +ℤ (if test t then t.amount_minor else pos 0)
sum_amounts-append test [] t = omega int_laws
sum_amounts-append test (x ∷ ts) t = rw (sum_amounts-append test ts t) (omega int_laws)

-- One more transfer takes a sum to at most its own amount more.
sum_below :
    (test : Transfer → Bool) (ts ts' : List Transfer) (t : Transfer) (limit : ℤ)
    → ts' ≡ ts ++ t ∷ []
    → pos 1 ≤ℤ t.amount_minor
    → sum_amounts test ts +ℤ t.amount_minor ≤ℤ limit
    → sum_amounts test ts' ≤ℤ limit
sum_below test ts ts' t limit grown positive below =
    rw (grown, sum_amounts-append test ts t)
      (elim (Bool-cases (test t)) [
        | inl counted ↦ rw counted below
        | inr missed ↦ rw missed (omega int_laws)
      ])

module _ (p : Platform) (e : Env) (input : SettleInput) (source : TransferSource) where
  -- A settlement that returns leaves what its sender has sent within each of the three windows at or
  -- below the limit, the new transfer counted in.
  pub settle_within_limits :
      (s : Db) (dto : TransferDto) (s' : Db)
      → settle p e input source s ≡ (ok dto, s')
      → let sent =
          sum_sent_by_window dto.sender_user_id
            (windows_since (e.clock Reading.limits))
            s'.transfers in
        (sent.daily_minor ≤ℤ p.daily_transfer_limit_minor)
        × (sent.weekly_minor ≤ℤ p.weekly_transfer_limit_minor)
        × (sent.monthly_minor ≤ℤ p.monthly_transfer_limit_minor)
  unfolding sum_sent_by_window pending_transfer
  settle_within_limits s dto s' done =
      let r = settle-Settled p e input source s done in
      let c = authorise-Cleared p e input s r.authorised in
      rw r.receipt_sender (
        sum_below _ s.transfers s'.transfers (succeeded_transfer p e input source r.parties)
            p.daily_transfer_limit_minor r.transfers r.positive c.daily,
        sum_below _ s.transfers s'.transfers (succeeded_transfer p e input source r.parties)
            p.weekly_transfer_limit_minor r.transfers r.positive c.weekly,
        sum_below _ s.transfers s'.transfers (succeeded_transfer p e input source r.parties)
            p.monthly_transfer_limit_minor r.transfers r.positive c.monthly,
      )

  -- The checks of a settlement that pass have changed no table and have taken the locks of the two
  -- wallets, where these differ, that of the lower id first.
  pub authorise_locks :
      (s : Db) (w : Parties) (s' : Db)
      → authorise p e input s ≡ (ok w, s')
      → w.sender.id ≢ w.receiver.id
      → (first : ℕ) × (second : ℕ) × (first < second)
        × (s' ≡ record s { locks = (s.locks ++ wallet_row first ∷ []) ++ wallet_row second ∷ [] })
        × (((first ≡ w.sender.id) × (second ≡ w.receiver.id))
            ⊎ ((first ≡ w.receiver.id) × (second ≡ w.sender.id)))
  authorise_locks s w s' done apart =
      let l = (authorise-Cleared p e input s done).locked in
      let a = l.sender_id in
      let b = l.receiver_id in
      let state = l.state in
      elim (Bool-cases (leb w.sender.id w.receiver.id)) [
        | inl up ↦ (w.sender.id, w.receiver.id, ground arith, ground arith, inl (refl, refl))
        | inr down ↦ (w.receiver.id, w.sender.id, ground arith, ground arith, inr (refl, refl))
      ]
