-- ===== src/Transfers/Authorise.antt =====
-- What a transfer has been checked for before anything is written: `lock_both` and `authorise`.
use pstu_final.Base.{
  ℕ, ap, false, str_eq, Option, Option-cases, inl, inr, ◌≡◌, true, some, List, [], ◌∷◌, ◌++◌, arith,
  ◌==◌, leb, any, find_where, find_where_sound, if◌then◌else◌,
}
use pstu_final.Base.Int.{pos, ◌≤ℤ◌, ◌+ℤ◌}
use pstu_final.Store.Rows.{User, Wallet, UserStatus, WalletStatus}
use pstu_final.Store.Tx.{Db, ok, wallet_row, ◌>>=◌}
use pstu_final.Store.Run.{>>=-elim, throw_if-inv, or_throw-inv}
use pstu_final.Platform.{Platform, Env, Reading}
use pstu_final.Limits.{SentTotals, assert_within_limits, sum_sent_by_window, windows_since}
use pstu_final.Transfers.Repository.{
  LockedWallet, find_wallet_by_user_id, find_wallet_by_user_text, lock_wallet_by_id, joined,
}
use pstu_final.Transfers.Settle.{
  SettleInput, Parties, authorise, lock_both, assert_participants_active, assert_wallets_spendable,
  assert_amount_and_balance,
}

module _ (p : Platform) where
  -- The row that the SELECT of an id returns.
  abbrev pub RowOf : ℕ → Db → LockedWallet → Type 0
  RowOf id s w = find_where (λ (x : LockedWallet). x.id == id) (joined p s.users s.wallets) ≡ some w

  pub any-joined :
      (id : ℕ) (users : List User) (ws : List Wallet) (w : LockedWallet)
      → find_where (λ (x : LockedWallet). x.id == id) (joined p users ws) ≡ some w
      → any (λ (x : Wallet). x.id == id) ws ≡ true
  any-joined id users [] w h = ground arith
  any-joined id users (x ∷ ws) w h = ground (arith, any-joined id users ws w)

  pub lock_wallet_by_id-inv :
      (id : ℕ) (s : Db) (w : LockedWallet) (s' : Db)
      → lock_wallet_by_id p id s ≡ (ok w, s')
      → RowOf id s w × (w.id ≡ id) × (s' ≡ record s { locks = s.locks ++ wallet_row id ∷ [] })
  unfolding lock_wallet_by_id ◌>>=◌
  lock_wallet_by_id-inv id s w s' h = ground (
    arith,
    any-joined id s.users s.wallets w,
    find_where_sound (λ (x : LockedWallet). x.id == id) (joined p s.users s.wallets) w,
  )

  abbrev pub lower : ℕ → ℕ → ℕ
  lower a b = if leb a b then a else b

  abbrev pub higher : ℕ → ℕ → ℕ
  higher a b = if leb a b then b else a

  -- Both rows, as they stand under the locks; the lock of the lower id is taken first.
  pub record Locked (a b : ℕ) (s : Db) (w : Parties) (s' : Db) : Type 0 where
    pub sender_row : RowOf a s w.sender
    pub receiver_row : RowOf b s w.receiver
    pub sender_id : w.sender.id ≡ a
    pub receiver_id : w.receiver.id ≡ b
    pub state : s' ≡ record s {
      locks = (s.locks ++ wallet_row (lower a b) ∷ []) ++ wallet_row (higher a b) ∷ [];
    }

  pub lock_both-Locked :
      (a b : ℕ) (s : Db) {w : Parties} {s' : Db}
      → lock_both p a b s ≡ (ok w, s')
      → Locked a b s w s'
  unfolding lock_both
  lock_both-Locked a b s h = >>=-elim _ _ s h λ first t h1 r1. >>=-elim _ _ t r1 λ second u h2 r2.
      let i1 = lock_wallet_by_id-inv (lower a b) s first t h1 in
      let i2 = lock_wallet_by_id-inv (higher a b) t second u h2 in ground arith

module _ (p : Platform) (e : Env) (input : SettleInput) where
  abbrev pub probe : ℕ → Db → Option LockedWallet
  probe user s = find_where (λ (x : LockedWallet). x.user_id == user) (joined p s.users s.wallets)

  -- A sum of the sender's, in the window that begins `back` before now.
  abbrev pub totals : Db → ℕ → SentTotals
  totals s user = sum_sent_by_window user (windows_since (e.clock Reading.limits)) s.transfers

  pub record Cleared (s : Db) (w : Parties) (s' : Db) : Type 0 where
    pub other_text : str_eq input.receiver_user_id (p.uuid_out input.sender_user_id) ≡ false
    pub sender_probe : LockedWallet
    pub receiver_probe : LockedWallet
    pub receiver_user : ℕ
    pub receiver_cast : p.uuid_in input.receiver_user_id ≡ some receiver_user
    pub sender_probed : probe input.sender_user_id s ≡ some sender_probe
    pub receiver_probed : probe receiver_user s ≡ some receiver_probe
    pub locked : Locked p sender_probe.id receiver_probe.id s w s'
    pub sender_active : w.sender.owner_status ≡ UserStatus.active
    pub receiver_active : w.receiver.owner_status ≡ UserStatus.active
    pub sender_wallet : w.sender.status ≡ WalletStatus.active
    pub receiver_wallet : w.receiver.status ≡ WalletStatus.active
    pub positive : pos 1 ≤ℤ input.amount_minor
    pub covered : input.amount_minor ≤ℤ w.sender.balance_minor
    pub daily :
        (totals s w.sender.user_id).daily_minor +ℤ input.amount_minor
        ≤ℤ p.daily_transfer_limit_minor
    pub weekly :
        (totals s w.sender.user_id).weekly_minor +ℤ input.amount_minor
        ≤ℤ p.weekly_transfer_limit_minor
    pub monthly :
        (totals s w.sender.user_id).monthly_minor +ℤ input.amount_minor
        ≤ℤ p.monthly_transfer_limit_minor

  assert_participants_active-inv :
      (w : Parties) (s : Db) (u : Unit {0}) (s' : Db)
      → assert_participants_active w s ≡ (ok u, s')
      → (s' ≡ s)
        × (w.sender.owner_status ≡ UserStatus.active)
        × (w.receiver.owner_status ≡ UserStatus.active)
  unfolding assert_participants_active ◌>>=◌
  assert_participants_active-inv w s u s' h = ground arith

  assert_wallets_spendable-inv :
      (w : Parties) (s : Db) (u : Unit {0}) (s' : Db)
      → assert_wallets_spendable w s ≡ (ok u, s')
      → (s' ≡ s)
        × (w.sender.status ≡ WalletStatus.active)
        × (w.receiver.status ≡ WalletStatus.active)
  unfolding assert_wallets_spendable ◌>>=◌
  assert_wallets_spendable-inv w s u s' h = ground arith

  assert_amount_and_balance-inv :
      (w : LockedWallet) (s : Db) (u : Unit {0}) (s' : Db)
      → assert_amount_and_balance input.amount_minor w s ≡ (ok u, s')
      → (s' ≡ s) × (pos 1 ≤ℤ input.amount_minor) × (input.amount_minor ≤ℤ w.balance_minor)
  unfolding assert_amount_and_balance ◌>>=◌
  assert_amount_and_balance-inv w s u s' h = ground arith

  assert_within_limits-inv :
      (user : ℕ) (s : Db) (u : Unit {0}) (s' : Db)
      → assert_within_limits p e user input.amount_minor s ≡ (ok u, s')
      → (s' ≡ s)
        × ((totals s user).daily_minor +ℤ input.amount_minor ≤ℤ p.daily_transfer_limit_minor)
        × ((totals s user).weekly_minor +ℤ input.amount_minor ≤ℤ p.weekly_transfer_limit_minor)
        × ((totals s user).monthly_minor +ℤ input.amount_minor ≤ℤ p.monthly_transfer_limit_minor)
  unfolding assert_within_limits ◌>>=◌
  assert_within_limits-inv user s u s' h = ground arith

  find_wallet_by_user_text-inv :
      (s : Db) (o : Option LockedWallet) (s' : Db)
      → find_wallet_by_user_text p input.receiver_user_id s ≡ (ok o, s')
      → (s' ≡ s)
        × ((user : ℕ) × (p.uuid_in input.receiver_user_id ≡ some user) × (o ≡ probe user s))
  unfolding find_wallet_by_user_text
  find_wallet_by_user_text-inv s o s' h = elim (Option-cases (p.uuid_in input.receiver_user_id)) [
    | inl bad ↦ ground arith
    | inr (user, cast) ↦ (ground arith, (user, cast, ground arith))
  ]

  same-Locked :
      {a b : ℕ} {s t u v : Db} {w x : Parties}
      → s ≡ t
      → w ≡ x
      → u ≡ v
      → Locked p a b s w u
      → Locked p a b t x v
  same-Locked es ew eu l = rw (← es, ← ew, ← eu) l

  pub authorise-Cleared :
      (s : Db) {w : Parties} {s' : Db} → authorise p e input s ≡ (ok w, s') → Cleared s w s'
  unfolding authorise find_wallet_by_user_id
  authorise-Cleared s {w} {s'} h = >>=-elim _ _ s h λ u0 s0 h0 r0. >>=-elim _ _ s0 r0 λ o1 s1 h1 r1.
      >>=-elim _ _ s1 r1 λ o2 s2 h2 r2. >>=-elim _ _ s2 r2 λ sender_probe s3 h3 r3.
        >>=-elim _ _ s3 r3 λ receiver_probe s4 h4 r4. >>=-elim _ _ s4 r4 λ w5 s5 h5 r5.
          >>=-elim _ _ s5 r5 λ u6 s6 h6 r6. >>=-elim _ _ s6 r6 λ u7 s7 h7 r7.
            >>=-elim _ _ s7 r7 λ u8 s8 h8 r8. >>=-elim _ _ s8 r8 λ u9 s9 h9 r9.
              let e0 = throw_if-inv _ _ s h0 in
              let (e2, found) = find_wallet_by_user_text-inv s1 o2 s2 h2 in
              let (user, cast, e2') = found in
              let e6 = assert_participants_active-inv w5 s5 u6 s6 h6 in
              let e7 = assert_wallets_spendable-inv w5 s6 u7 s7 h7 in
              let e8 = assert_amount_and_balance-inv w5.sender s7 u8 s8 h8 in
              let e9 = assert_within_limits-inv w5.sender.user_id s8 u9 s9 h9 in
              let e3 = or_throw-inv o1 _ s2 h3 in
              let e4 = or_throw-inv o2 _ s3 h4 in
              let same_s4 : s4 ≡ s = ground arith in
              let same_w : w5 ≡ w = ground arith in
              let same_s' : s5 ≡ s' = ground arith in
              let rows = lock_both-Locked p _ _ s4 h5 in
              let kept = ap (λ (x : Db). x.transfers) rows.state in
              let same_sent : s8.transfers ≡ s.transfers = ground arith in
              record {
                other_text = e0.1;
                sender_probe = sender_probe;
                receiver_probe = receiver_probe;
                receiver_user = user;
                receiver_cast = cast;
                sender_probed = ground arith;
                receiver_probed = ground arith;
                locked = same-Locked same_s4 same_w same_s' rows;
                sender_active = ground arith;
                receiver_active = ground arith;
                sender_wallet = ground arith;
                receiver_wallet = ground arith;
                positive = ground arith;
                covered = ground arith;
                daily = rw (← same_sent, ← same_w) e9.1;
                weekly = rw (← same_sent, ← same_w) e9.2;
                monthly = rw (← same_sent, ← same_w) e9.3;
              }

  -- Nothing but locks has been written.
  pub authorise-tables :
      (s : Db) {w : Parties} {s' : Db}
      → authorise p e input s ≡ (ok w, s')
      → s' ≡ record s { locks = s'.locks }
  authorise-tables s h = let state = (authorise-Cleared s h).locked.state in ground arith
