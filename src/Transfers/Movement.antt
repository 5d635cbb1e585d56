-- ===== src/Transfers/Movement.antt =====
-- When a settlement that has been cleared writes the transfer, the ledger pair and the balances.
use pstu_final.Store.Run.{>>=-throw}
use pstu_final.Store.Failure.{Failure}
use pstu_final.Base.{
  ==_refl, is_some, update_where, ℕ, ◌≡◌, ◌≢◌, refl, true, false, some, List, [], ◌∷◌, ◌++◌, arith,
  any, any-append, find_where, ◌==◌, ◌&&◌,
}
use pstu_final.Base.Int.{ℤ, pos, ◌+ℤ◌, ◌-ℤ◌, ◌≤ℤ◌, int_laws}
use pstu_final.Store.Rows.{
  TransferStatus, LedgerDirection, Transfer, TransferSource, LedgerEntry, Wallet,
}
use pstu_final.Store.Tx.{◌>>◌, err, Db, ok, ◌>>=◌}
use pstu_final.Platform.{Reading, Platform, Env, Draw}
use pstu_final.Transfers.Repository.{
  signed_matches, InsertTransferData, LedgerEntryData, pending_transfer, ledger_entry,
  insert_pending_transfer, insert_ledger_entry, mark_succeeded, apply_balance_delta, out_of_bounds,
  bigint_max,
}
use pstu_final.Transfers.Settle.{SettleInput, Parties, move_money}
use pstu_final.Transfers.Moves.{
  insert_pending_transfer-inv, insert_ledger_entry-inv, apply_balance_delta-inv, credited,
  transfer_data,
}
use pstu_final.Transfers.Wallets.{
  has_id, HasUniqueIds, balance_of, balance_of-credited, credited-HasUniqueIds,
}

-- The ids that a settlement draws are those of no row, and differ where two rows of a table need one.
pub record DrawsFresh (e : Env) (s : Db) : Type 0 where
  pub transfer : any (λ (t : Transfer). t.id == e.uuid Draw.transfer) s.transfers ≡ false
  pub debit : any (λ (r : LedgerEntry). r.id == e.uuid Draw.debit_entry) s.ledger ≡ false
  pub credit : any (λ (r : LedgerEntry). r.id == e.uuid Draw.credit_entry) s.ledger ≡ false
  pub entries : e.uuid Draw.debit_entry ≢ e.uuid Draw.credit_entry

absent_row :
    (id : ℕ) (delta : ℤ) (ws : List Wallet)
    → any (has_id id) ws ≡ false
    → any (λ (w : Wallet). w.id == id && out_of_bounds (w.balance_minor +ℤ delta)) ws ≡ false
absent_row id delta [] h = refl
absent_row id delta (w ∷ ws) h = ground (arith, absent_row id delta ws)

no_overflow :
    (id : ℕ) (delta b : ℤ) (ws : List Wallet)
    → HasUniqueIds ws
    → balance_of id ws ≡ some b
    → out_of_bounds (b +ℤ delta) ≡ false
    → any (λ (w : Wallet). w.id == id && out_of_bounds (w.balance_minor +ℤ delta)) ws ≡ false
no_overflow id delta b [] unique found fits = refl
no_overflow id delta b (w ∷ ws) unique found fits =
    ground (arith, no_overflow id delta b ws unique.1, absent_row id delta ws)

apply_balance_delta-ok :
    (id : ℕ) (delta b : ℤ) (s : Db)
    → HasUniqueIds s.wallets
    → balance_of id s.wallets ≡ some b
    → out_of_bounds (b +ℤ delta) ≡ false
    → apply_balance_delta id delta s ≡ (ok tt, record s { wallets = credited id delta s.wallets })
unfolding apply_balance_delta ◌>>=◌
apply_balance_delta-ok id delta b s unique found fits =
    let none_over = no_overflow id delta b s.wallets unique found fits in ground arith

module _ (e : Env) where
  insert_pending_transfer-ok :
      (d : InsertTransferData) (s : Db)
      → any (λ (t : Transfer). t.id == e.uuid Draw.transfer) s.transfers ≡ false
      → d.sender_user_id ≢ d.receiver_user_id
      → pos 1 ≤ℤ d.amount_minor
      → insert_pending_transfer e d s ≡ (
        ok (pending_transfer e d),
        record s { transfers = s.transfers ++ pending_transfer e d ∷ [] },
      )
  unfolding insert_pending_transfer ◌>>=◌
  insert_pending_transfer-ok d s fresh apart positive = ground arith

  insert_ledger_entry-safe :
      (draw : Draw) (d : LedgerEntryData) (s : Db) (g : Failure) (s' : Db)
      → any (λ (r : LedgerEntry). r.id == e.uuid draw) s.ledger ≡ false
      → pos 1 ≤ℤ d.amount_minor
      → signed_matches d.direction d.amount_minor d.signed_amount_minor ≡ true
      → d.balance_after_minor ≤ℤ bigint_max
      → insert_ledger_entry e draw d s ≡ (err g, s')
      → ⊥
  unfolding insert_ledger_entry ◌>>=◌
  insert_ledger_entry-safe draw d s g s' fresh positive signed fits h = ground arith

find_where-updated :
    (id : ℕ) (change : Transfer → Transfer) (ts : List Transfer)
    → ((t : Transfer) → (change t).id ≡ t.id)
    → any (λ (x : Transfer). x.id == id) ts ≡ true
    → is_some (
        find_where
          (λ (x : Transfer). x.id == id)
          (update_where (λ (x : Transfer). x.id == id) change ts))
      ≡ true
find_where-updated id change [] keeps h = ground arith
find_where-updated id change (t ∷ ts) keeps h =
    let same = keeps t in ground (arith, find_where-updated id change ts keeps)

mark_succeeded-safe :
    (e : Env) (id : ℕ) (s : Db) (g : Failure) (s' : Db)
    → any (λ (x : Transfer). x.id == id) s.transfers ≡ true
    → mark_succeeded e id s ≡ (err g, s')
    → ⊥
unfolding mark_succeeded ◌>>=◌
mark_succeeded-safe e id s g s' row h =
    let found =
      find_where-updated id
        (λ (t : Transfer). record t {
          status = TransferStatus.succeeded;
          completed_at = some (e.clock Reading.transfer_completion);
        })
        s.transfers (λ t. refl) row in
    ground arith

insert_ledger_entry-fresh :
    (e : Env) (d : LedgerEntryData) (s : Db) (u : Unit {0}) (s' : Db)
    → e.uuid Draw.debit_entry ≢ e.uuid Draw.credit_entry
    → any (λ (r : LedgerEntry). r.id == e.uuid Draw.credit_entry) s.ledger ≡ false
    → insert_ledger_entry e Draw.debit_entry d s ≡ (ok u, s')
    → any (λ (r : LedgerEntry). r.id == e.uuid Draw.credit_entry) s'.ledger ≡ false
unfolding insert_ledger_entry ledger_entry ◌>>=◌
insert_ledger_entry-fresh e d s u s' apart fresh h =
    let grown =
      any-append (λ (r : LedgerEntry). r.id == e.uuid Draw.credit_entry) s.ledger
        (ledger_entry e Draw.debit_entry d ∷ []) in
    ground arith

fits_debit :
    (a b : ℤ)
    → pos 1 ≤ℤ a
    → a ≤ℤ b
    → b ≤ℤ bigint_max
    → (b -ℤ a ≤ℤ bigint_max) × (out_of_bounds (b +ℤ (pos 0 -ℤ a)) ≡ false)
fits_debit a b positive covered fits = (omega int_laws, grind int_laws)

fits_credit :
    (a b : ℤ) → pos 1 ≤ℤ a → pos 0 ≤ℤ b → b +ℤ a ≤ℤ bigint_max → out_of_bounds (b +ℤ a) ≡ false
fits_credit a b positive nonneg fits = grind int_laws

signed_debit : (a : ℤ) → signed_matches LedgerDirection.debit a (pos 0 -ℤ a) ≡ true
signed_debit a = ground arith

signed_credit : (a : ℤ) → signed_matches LedgerDirection.credit a a ≡ true
signed_credit a = ground arith

module _ (p : Platform) (e : Env) (input : SettleInput) (source : TransferSource)
    (w : Parties) where
  -- What the two wallets must hold for the movement.
  pub record Affordable (s : Db) : Type 0 where
    pub apart : w.sender.id ≢ w.receiver.id
    pub users_apart : w.sender.user_id ≢ w.receiver.user_id
    pub sender_balance : balance_of w.sender.id s.wallets ≡ some w.sender.balance_minor
    pub receiver_balance : balance_of w.receiver.id s.wallets ≡ some w.receiver.balance_minor
    pub positive : pos 1 ≤ℤ input.amount_minor
    pub covered : input.amount_minor ≤ℤ w.sender.balance_minor
    pub sender_fits : w.sender.balance_minor ≤ℤ bigint_max
    pub receiver_fits : w.receiver.balance_minor +ℤ input.amount_minor ≤ℤ bigint_max
    pub receiver_nonneg : pos 0 ≤ℤ w.receiver.balance_minor

  Affordable-wallets : (s t : Db) → t.wallets ≡ s.wallets → Affordable s → Affordable t
  Affordable-wallets s t same m = record {
    apart = m.apart;
    users_apart = m.users_apart;
    sender_balance = rw same m.sender_balance;
    receiver_balance = rw same m.receiver_balance;
    positive = m.positive;
    covered = m.covered;
    sender_fits = m.sender_fits;
    receiver_fits = m.receiver_fits;
    receiver_nonneg = m.receiver_nonneg;
  }

  there :
      (s : Db) (t : Transfer) → any (λ (x : Transfer). x.id == t.id) (s.transfers ++ t ∷ []) ≡ true
  there s t =
      let grown = any-append (λ (x : Transfer). x.id == t.id) s.transfers (t ∷ []) in
      let own = ==_refl t.id in ground arith

  balances-safe :
      (id : ℕ) (s : Db) (g : Failure) (s' : Db)
      → HasUniqueIds s.wallets
      → Affordable s
      → any (λ (x : Transfer). x.id == id) s.transfers ≡ true
      → (apply_balance_delta w.sender.id (pos 0 -ℤ input.amount_minor)
            >> (apply_balance_delta w.receiver.id input.amount_minor >> mark_succeeded e id))
          s
        ≡ (err g, s')
      → ⊥
  balances-safe id s g s' unique m row h =
      let debit : ℤ = pos 0 -ℤ input.amount_minor in
      let (debit_fits, debit_bounds) =
        fits_debit input.amount_minor w.sender.balance_minor m.positive m.covered m.sender_fits in
      let credit_bounds =
        fits_credit input.amount_minor w.receiver.balance_minor m.positive m.receiver_nonneg
          m.receiver_fits in
      let paid =
        apply_balance_delta-ok w.sender.id debit w.sender.balance_minor s unique m.sender_balance
          debit_bounds in
      >>=-throw _ _ s h (λ e1. ground arith)
        λ u1 s1 h1 r1.
          let i1 = apply_balance_delta-inv w.sender.id debit s u1 s1 h1 in
          let wallets1 : s1.wallets ≡ credited w.sender.id debit s.wallets = ground arith in
          let before = m.receiver_balance in
          let apart = m.apart in
          let shift = balance_of-credited w.sender.id debit w.receiver.id s.wallets in
          let receiver_balance : balance_of w.receiver.id s1.wallets
              ≡ some w.receiver.balance_minor =
            rw wallets1 (ground arith) in
          let got =
            apply_balance_delta-ok w.receiver.id input.amount_minor w.receiver.balance_minor s1
              (rw wallets1 (credited-HasUniqueIds w.sender.id debit s.wallets unique))
              receiver_balance credit_bounds in
          >>=-throw _ _ s1 r1 (λ e2. ground arith)
            λ u2 s2 h2 r2.
              let i2 = apply_balance_delta-inv w.receiver.id input.amount_minor s1 u2 s2 h2 in
              let transfers2 : s2.transfers ≡ s.transfers = ground arith in
              mark_succeeded-safe e id s2 g s' (rw transfers2 row) r2

  pub move_money-safe :
      (s : Db) (g : Failure) (s' : Db)
      → HasUniqueIds s.wallets
      → DrawsFresh e s
      → Affordable s
      → move_money p e input source w s ≡ (err g, s')
      → ⊥
  unfolding move_money pending_transfer ledger_entry
  move_money-safe s g s' unique f m h =
      let d : InsertTransferData = transfer_data p e input source w in
      let t1 : Transfer = pending_transfer e d in
      let ready = insert_pending_transfer-ok e d s f.transfer m.users_apart m.positive in
      let (debit_fits, debit_bounds) =
        fits_debit input.amount_minor w.sender.balance_minor m.positive m.covered m.sender_fits in
      let credit_bounds =
        fits_credit input.amount_minor w.receiver.balance_minor m.positive m.receiver_nonneg
          m.receiver_fits in
      >>=-throw _ _ s h (λ e1. ground arith)
        λ t s1 h1 r1.
          let i1 = insert_pending_transfer-inv e d s t s1 h1 in
          let ledger1 : s1.ledger ≡ s.ledger = ground arith in
          >>=-throw _ _ s1 r1
            (insert_ledger_entry-safe e Draw.debit_entry _ s1 g s' (rw ledger1 f.debit) m.positive
              (signed_debit input.amount_minor) debit_fits)
            λ u2 s2 h2 r2.
              let i2 = insert_ledger_entry-inv e Draw.debit_entry _ s1 u2 s2 h2 in
              let credit_fresh =
                insert_ledger_entry-fresh e _ s1 u2 s2 f.entries (rw ledger1 f.credit) h2 in
              >>=-throw _ _ s2 r2
                (insert_ledger_entry-safe e Draw.credit_entry _ s2 g s' credit_fresh m.positive
                  (signed_credit input.amount_minor) m.receiver_fits)
                λ u3 s3 h3 r3.
                  let i3 = insert_ledger_entry-inv e Draw.credit_entry _ s2 u3 s3 h3 in
                  let kept : s3.wallets ≡ s.wallets = ground arith in
                  let is : t.id ≡ t1.id = ground arith in
                  let rows : s3.transfers ≡ s.transfers ++ t1 ∷ [] = ground arith in
                  balances-safe t.id s3 g s' (rw kept unique) (Affordable-wallets s s3 kept m)
                    (rw rows (rw is (there s t1))) r3
