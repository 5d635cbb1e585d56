-- ===== src/Transfers/Success.antt =====
-- When a settlement returns.
use pstu_final.Store.Dto.{IdempotencyRecord, TransferDto}
use pstu_final.Transfers.Outcome.{result-cases}
use pstu_final.Transfers.Moves.{after_move, move_money-inv}
use pstu_final.Transfers.Movement.{Affordable, DrawsFresh, move_money-safe}
use pstu_final.Transfers.Notes.{NotesFresh, assess_risk-safe, assess_risk-fresh, announce-safe}
use pstu_final.Store.Run.{>>=-throw}
use pstu_final.Store.Failure.{Failure}
use pstu_final.Transfers.Wallets.{
  AreInRange, balance_of, balance_of-joined, HasUniqueIds, find_where-joined,
}
use pstu_final.Base.{
  List, Bool-cases, inl, inr, ℕ, ◌≡◌, ◌≢◌, refl, false, some, [], ◌∷◌, ◌++◌, arith, leb, str_eq,
}
use pstu_final.Base.Int.{ℤ, pos, ◌+ℤ◌, ◌-ℤ◌, ◌≤ℤ◌}
use pstu_final.Store.Rows.{Wallet, UserStatus, WalletStatus, TransferSource}
use pstu_final.Store.Tx.{Lock, pure, ◌>>◌, err, Db, Tx, ok, wallet_row, ◌>>=◌}
use pstu_final.Platform.{Platform, Env, Draw}
use pstu_final.Limits.{assert_within_limits}
use pstu_final.Transfers.Repository.{
  pending_transfer, bigint_max, LockedWallet, lock_wallet_by_id, find_wallet_by_user_id,
  find_wallet_by_user_text,
}
use pstu_final.Transfers.Settle.{
  move_money, assess_risk, announce, to_transfer_dto, SettleInput, Parties, settle, authorise,
  lock_both, assert_participants_active, assert_wallets_spendable, assert_amount_and_balance,
}
use pstu_final.Transfers.Authorise.{RowOf, any-joined, lower, higher, probe, totals}

>>=-ok :
    {A B : Type 0} (m : Tx A) (f : A → Tx B) (s : Db) (a : A) (t : Db)
    → m s ≡ (ok a, t)
    → (m >>= f) s ≡ f a t
unfolding ◌>>=◌
>>=-ok m f s a t h = ground arith

module _ (p : Platform) where
  lock_wallet_by_id-ok :
      (id : ℕ) (s : Db) (w : LockedWallet)
      → RowOf p id s w
      → lock_wallet_by_id p id s ≡ (ok w, record s { locks = s.locks ++ wallet_row id ∷ [] })
  unfolding lock_wallet_by_id ◌>>=◌
  lock_wallet_by_id-ok id s w row =
      let there = any-joined p id s.users s.wallets w row in ground arith

  -- The database with the locks of the two wallets.
  abbrev pub with_locks : Db → ℕ → ℕ → Db
  with_locks s a b = record s {
    locks = (s.locks ++ wallet_row (lower p a b) ∷ []) ++ wallet_row (higher p a b) ∷ [];
  }

  lock_both-ok :
      (s : Db) (x y : LockedWallet)
      → RowOf p x.id s x
      → RowOf p y.id s y
      → x.id ≢ y.id
      → lock_both p x.id y.id s ≡ (ok (record { sender = x; receiver = y }), with_locks s x.id y.id)
  unfolding lock_both ◌>>=◌
  lock_both-ok s x y hx hy apart = elim (Bool-cases (leb x.id y.id)) [
    | inl up ↦
        let first = lock_wallet_by_id-ok x.id s x hx in
        let second =
          lock_wallet_by_id-ok y.id (record s { locks = s.locks ++ wallet_row x.id ∷ [] }) y hy in
        rw up (ground arith)
    | inr down ↦
        let first = lock_wallet_by_id-ok y.id s y hy in
        let second =
          lock_wallet_by_id-ok x.id (record s { locks = s.locks ++ wallet_row y.id ∷ [] }) x hx in
        rw down (ground arith)
  ]

module _ (p : Platform) (e : Env) (input : SettleInput) (x y : LockedWallet) where
  pub record MaySettle (s : Db) : Type 0 where
    pub other_text : str_eq input.receiver_user_id (p.uuid_out input.sender_user_id) ≡ false
    pub cast : p.uuid_in input.receiver_user_id ≡ some y.user_id
    pub sender_probed : probe p e input input.sender_user_id s ≡ some x
    pub receiver_probed : probe p e input y.user_id s ≡ some y
    pub apart : x.id ≢ y.id
    pub sender_active : x.owner_status ≡ UserStatus.active
    pub receiver_active : y.owner_status ≡ UserStatus.active
    pub sender_wallet : x.status ≡ WalletStatus.active
    pub receiver_wallet : y.status ≡ WalletStatus.active
    pub positive : pos 1 ≤ℤ input.amount_minor
    pub covered : input.amount_minor ≤ℤ x.balance_minor
    pub daily :
        (totals p e input s x.user_id).daily_minor +ℤ input.amount_minor
        ≤ℤ p.daily_transfer_limit_minor
    pub weekly :
        (totals p e input s x.user_id).weekly_minor +ℤ input.amount_minor
        ≤ℤ p.weekly_transfer_limit_minor
    pub monthly :
        (totals p e input s x.user_id).monthly_minor +ℤ input.amount_minor
        ≤ℤ p.monthly_transfer_limit_minor

  pub MaySettle-frame :
      (s : Db) (rs : List IdempotencyRecord) (ls : List Lock)
      → MaySettle s
      → MaySettle (record s { records = rs; locks = ls })
  MaySettle-frame s rs ls m = record {
    other_text = m.other_text;
    cast = m.cast;
    sender_probed = m.sender_probed;
    receiver_probed = m.receiver_probed;
    apart = m.apart;
    sender_active = m.sender_active;
    receiver_active = m.receiver_active;
    sender_wallet = m.sender_wallet;
    receiver_wallet = m.receiver_wallet;
    positive = m.positive;
    covered = m.covered;
    daily = m.daily;
    weekly = m.weekly;
    monthly = m.monthly;
  }

  authorise-ok :
      (s : Db)
      → HasUniqueIds s.wallets
      → MaySettle s
      → authorise p e input s ≡ (ok (record { sender = x; receiver = y }), with_locks p s x.id y.id)
  unfolding authorise find_wallet_by_user_id find_wallet_by_user_text assert_participants_active
      assert_wallets_spendable assert_amount_and_balance assert_within_limits ◌>>=◌
  authorise-ok s unique m =
      let hx = find_where-joined p _ s.users s.wallets x unique m.sender_probed in
      let hy = find_where-joined p _ s.users s.wallets y unique m.receiver_probed in
      let locked = lock_both-ok p s x y hx hy m.apart in
      let c1 = m.other_text in
      let c2 = m.cast in
      let c3 = m.sender_probed in
      let c4 = m.receiver_probed in
      let c5 = m.sender_active in
      let c6 = m.receiver_active in
      let c7 = m.sender_wallet in
      let c8 = m.receiver_wallet in
      let c9 = m.positive in
      let c10 = m.covered in
      let c11 = m.daily in let c12 = m.weekly in let c13 = m.monthly in ground arith

balance-InRange :
    (id : ℕ) (b : ℤ) (ws : List Wallet)
    → AreInRange ws
    → balance_of id ws ≡ some b
    → (pos 0 ≤ℤ b) × (b ≤ℤ bigint_max)
balance-InRange id b [] r h = ground arith
balance-InRange id b (w ∷ ws) r h = ground (arith, balance-InRange id b ws)

module _ (p : Platform) (e : Env) (input : SettleInput) (source : TransferSource)
    (x y : LockedWallet) where
  affordable :
      (s u : Db)
      → HasUniqueIds s.wallets
      → AreInRange s.wallets
      → MaySettle p e input x y s
      → x.user_id ≢ y.user_id
      → y.balance_minor +ℤ input.amount_minor ≤ℤ bigint_max
      → u.wallets ≡ s.wallets
      → Affordable p e input source (record { sender = x; receiver = y }) u
  affordable s u unique in_range m users_apart fits same =
      let hx = find_where-joined p _ s.users s.wallets x unique m.sender_probed in
      let hy = find_where-joined p _ s.users s.wallets y unique m.receiver_probed in
      let bx = balance_of-joined p x.id s.users s.wallets x unique hx in
      let by = balance_of-joined p y.id s.users s.wallets y unique hy in
      record {
        apart = m.apart;
        users_apart = users_apart;
        sender_balance = rw same bx;
        receiver_balance = rw same by;
        positive = m.positive;
        covered = m.covered;
        sender_fits = (balance-InRange x.id x.balance_minor s.wallets in_range bx).1;
        receiver_fits = fits;
        receiver_nonneg = (balance-InRange y.id y.balance_minor s.wallets in_range by).0;
      }

  pub DrawsFresh-frame :
      (s : Db) (rs : List IdempotencyRecord) (ls : List Lock)
      → DrawsFresh e s
      → DrawsFresh e (record s { records = rs; locks = ls })
  DrawsFresh-frame s rs ls f = record {
    transfer = f.transfer;
    debit = f.debit;
    credit = f.credit;
    entries = f.entries;
  }

  pub NotesFresh-frame :
      (s : Db) (rs : List IdempotencyRecord) (ls : List Lock)
      → NotesFresh e s
      → NotesFresh e (record s { records = rs; locks = ls })
  NotesFresh-frame s rs ls n = record {
    assessment = n.assessment;
    unassessed = n.unassessed;
    flagged_event = n.flagged_event;
    succeeded_event = n.succeeded_event;
    events = n.events;
    flagged_audit = n.flagged_audit;
    succeeded_audit = n.succeeded_audit;
    audits = n.audits;
  }

  NotesFresh-move :
      (w : Parties) (s v : Db)
      → v ≡ after_move p e input source w s
      → NotesFresh e s
      → NotesFresh e v
  NotesFresh-move w s v moved n = record {
    assessment = rw moved n.assessment;
    unassessed = rw moved n.unassessed;
    flagged_event = rw moved n.flagged_event;
    succeeded_event = rw moved n.succeeded_event;
    events = n.events;
    flagged_audit = rw moved n.flagged_audit;
    succeeded_audit = rw moved n.succeeded_audit;
    audits = n.audits;
  }

  -- (6) to the end.
  rest-safe :
      (w : Parties) (u : Db) (g : Failure) (s' : Db)
      → HasUniqueIds u.wallets
      → Affordable p e input source w u
      → DrawsFresh e u
      → NotesFresh e u
      → (move_money p e input source w >>= λ transfer.
            assess_risk p e input w transfer.id >>= λ assessment.
            announce p e input source w transfer.id
            >> pure (
                to_transfer_dto p transfer
                  (some (w.sender.balance_minor -ℤ input.amount_minor))
                  (some assessment)))
          u
        ≡ (err g, s')
      → ⊥
  unfolding pending_transfer
  rest-safe w u g s' unique afford f n h =
      >>=-throw _ _ u h (move_money-safe p e input source w u g s' unique f afford) λ t v h1 r1.
        let (is, moved) = move_money-inv p e input source w u t v h1 in
        let own : t.id ≡ e.uuid Draw.transfer = ground arith in
        let notes = NotesFresh-move w u v moved n in
        >>=-throw _ _ v r1 (λ e2. assess_risk-safe p e input source w v g s' notes (rw own at e2))
          λ a z h2 r2.
            let (event_fresh, audit_fresh) =
              assess_risk-fresh p e input source w v a z notes (rw own at h2) in
            >>=-throw _ _ z r2
              (announce-safe p e input source w t.id z g s' event_fresh audit_fresh)
              λ d q h3 r3. ground arith

  pub settle-safe :
      (s : Db) (g : Failure) (s' : Db)
      → HasUniqueIds s.wallets
      → AreInRange s.wallets
      → MaySettle p e input x y s
      → DrawsFresh e s
      → NotesFresh e s
      → x.user_id ≢ y.user_id
      → y.balance_minor +ℤ input.amount_minor ≤ℤ bigint_max
      → settle p e input source s ≡ (err g, s')
      → ⊥
  unfolding settle
  settle-safe s g s' unique in_range m f n users_apart fits h =
      let cleared = authorise-ok p e input x y s unique m in
      >>=-throw _ _ s h (λ e1. ground arith)
        λ w u h1 r1.
          let is : w ≡ record { sender = x; receiver = y } = ground arith in
          let at : u ≡ with_locks p s x.id y.id = ground arith in
          let afford =
            affordable s (with_locks p s x.id y.id) unique in_range m users_apart fits refl in
          rest-safe w u g s' (rw at unique) (rw (at, is) afford)
            (rw at (DrawsFresh-frame s s.records (with_locks p s x.id y.id).locks f))
            (rw at (NotesFresh-frame s s.records (with_locks p s x.id y.id).locks n)) r1

  -- A settlement returns, and meets no error, where its checks hold, the wallets have distinct ids
  -- and balances in range, the two users differ, the receiver's balance stays within a BIGINT, and the
  -- ids that it draws are new.
  pub settle_returns :
      (s : Db)
      → HasUniqueIds s.wallets
      → AreInRange s.wallets
      → MaySettle p e input x y s
      → DrawsFresh e s
      → NotesFresh e s
      → x.user_id ≢ y.user_id
      → y.balance_minor +ℤ input.amount_minor ≤ℤ bigint_max
      → (dto : TransferDto) × (s' : Db) × (settle p e input source s ≡ (ok dto, s'))
  settle_returns s unique in_range m f n users_apart fits =
      elim (result-cases (settle p e input source s)) [
        | inl done ↦ done
        | inr (g, s', h) ↦ absurd (settle-safe s g s' unique in_range m f n users_apart fits h)
      ]
