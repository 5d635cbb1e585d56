-- ===== src/Transfers/Money.antt =====
-- What a settlement does to the balances and to the ledger.
use pstu_final.Base.{
  ℕ, ◌≡◌, ◌≢◌, sym, ap, ◌∙◌, Bool, true, some, List, [], ◌∷◌, ◌++◌, arith, ◌==◌, any, find_where,
  find_where_sound, if◌then◌else◌,
}
use pstu_final.Base.Int.{ℤ, pos, ◌+ℤ◌, ◌-ℤ◌, ◌≤ℤ◌, int_laws}
use pstu_final.Store.Rows.{LedgerEntry, TransferSource}
use pstu_final.Store.Dto.{TransferDto}
use pstu_final.Store.Tx.{Db, ok}
use pstu_final.Platform.{Platform, Env}
use pstu_final.Transfers.Repository.{joined, ledger_entry, LockedWallet}
use pstu_final.Transfers.Settle.{SettleInput, Parties, settle}
use pstu_final.Transfers.Authorise.{any-joined, RowOf, authorise-Cleared, Cleared}
use pstu_final.Transfers.Moves.{credited, after_move}
use pstu_final.Transfers.Wallets.{
  has_id, HasUniqueIds, total, balance_of, any-credited, credited-HasUniqueIds, total-credited,
  balance_of-credited, balance_of-joined, find_where-joined,
}
use pstu_final.Transfers.Settled.{settle-Settled}

-- What the ledger says that a wallet has gained.
abbrev pub signed_sum : ℕ → List LedgerEntry → ℤ
signed_sum id [] = pos 0
signed_sum id (r ∷ rs) =
    (if r.wallet_id == id then r.signed_amount_minor else pos 0) +ℤ signed_sum id rs

pub signed_sum-append :
    (id : ℕ) (rs : List LedgerEntry) (r : LedgerEntry)
    → signed_sum id (rs ++ r ∷ [])
      ≡ signed_sum id rs +ℤ (if r.wallet_id == id then r.signed_amount_minor else pos 0)
signed_sum-append id [] r = omega int_laws
signed_sum-append id (x ∷ rs) r = rw (signed_sum-append id rs r) (omega int_laws)

module _ (p : Platform) (e : Env) (input : SettleInput) (source : TransferSource) where
  pub record Moved (s s' : Db) : Type 0 where
    pub sender : LockedWallet
    pub receiver : LockedWallet
    pub sender_user : sender.user_id ≡ input.sender_user_id
    pub receiver_user : p.uuid_in input.receiver_user_id ≡ some receiver.user_id
    pub apart : sender.id ≢ receiver.id
    pub sender_before : balance_of sender.id s.wallets ≡ some sender.balance_minor
    pub receiver_before : balance_of receiver.id s.wallets ≡ some receiver.balance_minor
    pub covered : input.amount_minor ≤ℤ sender.balance_minor
    pub sender_after :
        balance_of sender.id s'.wallets
        ≡ some (sender.balance_minor +ℤ (pos 0 -ℤ input.amount_minor))
    pub receiver_after :
        balance_of receiver.id s'.wallets ≡ some (receiver.balance_minor +ℤ input.amount_minor)
    pub others :
        (k : ℕ) → k ≢ sender.id → k ≢ receiver.id → balance_of k s'.wallets ≡ balance_of k s.wallets
    pub conserved : total s'.wallets ≡ total s.wallets
    pub still_unique : HasUniqueIds s'.wallets
    pub ledger :
        (k : ℕ)
        → signed_sum k s'.ledger
          ≡ (signed_sum k s.ledger
              +ℤ (if sender.id == k then pos 0 -ℤ input.amount_minor else pos 0))
            +ℤ (if receiver.id == k then input.amount_minor else pos 0)

  -- The two wallets, out of the checks that were made.
  same_row :
      (test : LockedWallet → Bool) (s : Db) (x y : LockedWallet)
      → HasUniqueIds s.wallets
      → find_where test (joined p s.users s.wallets) ≡ some x
      → RowOf p x.id s y
      → y ≡ x
  same_row test s x y unique found row =
      let again = find_where-joined p test s.users s.wallets x unique found in cc (sym again ∙ row)

  distinct_ids :
      (s : Db) (x y : LockedWallet)
      → RowOf p x.id s x
      → RowOf p y.id s y
      → x.user_id ≢ y.user_id
      → x.id ≢ y.id
  distinct_ids s x y hx hy distinct same =
      let one =
        ap (λ (n : ℕ). find_where (λ (z : LockedWallet). z.id == n) (joined p s.users s.wallets))
          same in
      distinct (cc (sym hx ∙ one ∙ hy))

  parts-Moved :
      (s s' : Db) (w : Parties) (u : Db)
      → HasUniqueIds s.wallets
      → Cleared p e input s w u
      → w.sender.user_id ≢ w.receiver.user_id
      → s'.wallets ≡ (after_move p e input source w s).wallets
      → s'.ledger ≡ (after_move p e input source w s).ledger
      → Moved s s'
  unfolding ledger_entry
  parts-Moved s s' w u unique c distinct wallets ledger =
      let at_sender =
        same_row (λ x. x.user_id == input.sender_user_id) s c.sender_probe w.sender unique
          c.sender_probed c.locked.sender_row in
      let at_receiver =
        same_row (λ x. x.user_id == c.receiver_user) s c.receiver_probe w.receiver unique
          c.receiver_probed c.locked.receiver_row in
      let sender_row : RowOf p w.sender.id s w.sender =
        rw at_sender
          (find_where-joined p _ s.users s.wallets c.sender_probe unique c.sender_probed) in
      let receiver_row : RowOf p w.receiver.id s w.receiver =
        rw at_receiver
          (find_where-joined p _ s.users s.wallets c.receiver_probe unique c.receiver_probed) in
      let sender_user =
        find_where_sound (λ (x : LockedWallet). x.user_id == input.sender_user_id)
          (joined p s.users s.wallets) c.sender_probe c.sender_probed in
      let receiver_user =
        find_where_sound (λ (x : LockedWallet). x.user_id == c.receiver_user)
          (joined p s.users s.wallets) c.receiver_probe c.receiver_probed in
      let before = balance_of-joined p w.sender.id s.users s.wallets w.sender unique sender_row in
      let before' =
        balance_of-joined p w.receiver.id s.users s.wallets w.receiver unique receiver_row in
      let debit : ℤ = pos 0 -ℤ input.amount_minor in
      let paid = credited w.sender.id debit s.wallets in
      let paid_unique = credited-HasUniqueIds w.sender.id debit s.wallets unique in
      let has_sender = any-joined p w.sender.id s.users s.wallets w.sender sender_row in
      let has_receiver : any (has_id w.receiver.id) paid ≡ true =
        rw any-credited (any-joined p w.receiver.id s.users s.wallets w.receiver receiver_row) in
      let apart : w.sender.id ≢ w.receiver.id =
        distinct_ids s w.sender w.receiver sender_row receiver_row distinct in
      record {
        sender = w.sender;
        receiver = w.receiver;
        sender_user = ground arith;
        receiver_user = ground (arith, c.receiver_cast);
        apart = apart;
        sender_before = before;
        receiver_before = before';
        covered = c.covered;
        sender_after = rw wallets (
            ground (
              arith,
              before,
              balance_of-credited w.receiver.id input.amount_minor w.sender.id paid,
              balance_of-credited w.sender.id debit w.sender.id s.wallets,
            ));
        receiver_after = rw wallets (
            ground (
              arith,
              before',
              balance_of-credited w.receiver.id input.amount_minor w.receiver.id paid,
              balance_of-credited w.sender.id debit w.receiver.id s.wallets,
            ));
        others = λ k ks kr. rw wallets (
            ground (
              arith,
              balance_of-credited w.receiver.id input.amount_minor k paid,
              balance_of-credited w.sender.id debit k s.wallets,
            ));
        conserved =
            rw
              (
                wallets,
                total-credited w.receiver.id input.amount_minor paid paid_unique has_receiver,
                total-credited w.sender.id debit s.wallets unique has_sender,
              )
              (omega int_laws);
        still_unique = rw wallets (
            credited-HasUniqueIds w.receiver.id input.amount_minor paid
              (credited-HasUniqueIds w.sender.id debit s.wallets unique));
        ledger = λ k. rw (ledger, signed_sum-append, signed_sum-append);
      }

  -- From wallets with distinct ids, a settlement that returns has found the wallets of the two
  -- users, apart from one another, with the amount covered; it has lowered the sender's balance and
  -- raised the receiver's by the amount, left every other balance and the sum of all balances as
  -- they were, and added to the ledger's sum of each wallet what its balance has gained.
  pub settle_moves :
      (s : Db) (dto : TransferDto) (s' : Db)
      → HasUniqueIds s.wallets
      → settle p e input source s ≡ (ok dto, s')
      → Moved s s'
  settle_moves s dto s' unique done =
      let r = settle-Settled p e input source s done in
      parts-Moved s s' r.parties r.locked unique (authorise-Cleared p e input s r.authorised)
        r.distinct r.wallets r.ledger

  -- A movement is about the balances and the ledger alone.
  pub Moved-frame :
      (s t u v : Db)
      → s.wallets ≡ t.wallets
      → s.ledger ≡ t.ledger
      → v.wallets ≡ u.wallets
      → v.ledger ≡ u.ledger
      → Moved t u
      → Moved s v
  Moved-frame s t u v sw sl vw vl m = record {
    sender = m.sender;
    receiver = m.receiver;
    sender_user = m.sender_user;
    receiver_user = m.receiver_user;
    apart = m.apart;
    sender_before = rw sw m.sender_before;
    receiver_before = rw sw m.receiver_before;
    covered = m.covered;
    sender_after = rw vw m.sender_after;
    receiver_after = rw vw m.receiver_after;
    others = λ k a b. rw (sw, vw) (m.others k a b);
    conserved = rw (sw, vw) m.conserved;
    still_unique = rw vw m.still_unique;
    ledger = λ k. rw (sl, vl) (m.ledger k);
  }
