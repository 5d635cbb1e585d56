-- ===== src/Auth/Opening.antt =====
-- What a registration writes.
use pstu_final.Base.{
  count_where-eq-zero, true, false, List, [], ◌∷◌, ◌++◌, ◌==◌, ◌≡◌, arith, any, All, All-append,
  count_where, count_where-append, str_eq, inl, inr,
}
use pstu_final.Store.Failure.{app, validation_error, is_unique_constraint_violation, Failure}
use pstu_final.Store.Rows.{User, Wallet}
use pstu_final.Store.Tx.{Db, Result, ok, err, transaction, ◌>>=◌}
use pstu_final.Store.Run.{>>=-elim, >>=-throw}
use pstu_final.Platform.{Platform, Env, Draw}
use pstu_final.Audit.{record_detached-inv}
use pstu_final.Transfers.Outcome.{transaction-inv, result-cases}
use pstu_final.MoneyRequests.Handlers.{OnlyLocked}
use pstu_final.Auth.Credentials.{Credentials}
use pstu_final.Auth.Accounts.{create_user, create_wallet, new_user, new_wallet}
use pstu_final.Auth.Service.{
  RegisterInput, Registered, create_account, run_register, register, email_taken,
}

module _ (p : Platform) (c : Credentials) (e : Env) (input : RegisterInput) where
  abbrev pub user_of : User
  user_of = new_user e (record {
    email = input.email;
    display_name = input.display_name;
    password_hash = c.argon2_hash input.password;
  })

  abbrev pub wallet_of : Wallet
  wallet_of =
      new_wallet e (record { user_id = user_of.id; balance_minor = p.initial_wallet_balance_minor })

  -- One user and that user's wallet, with the initial balance, stand behind all others.
  pub record Opened (s : Db) (r : Registered) (s' : Db) : Type 0 where
    pub answer : r ≡ record { user = user_of; wallet = wallet_of }
    pub new_id : any (λ (u : User). u.id == e.uuid Draw.user) s.users ≡ false
    pub new_email :
        any (λ (u : User). str_eq (c.citext u.email) (c.citext input.email)) s.users ≡ false
    pub new_owner : any (λ (w : Wallet). w.user_id == e.uuid Draw.user) s.wallets ≡ false
    pub after : s' ≡ record s {
      users = s.users ++ user_of ∷ [];
      wallets = s.wallets ++ wallet_of ∷ [];
      audit = s'.audit;
      locks = s'.locks;
    }

  create_account-Opened :
      (s : Db) (r : Registered) (s' : Db)
      → create_account p c e input s ≡ (ok r, s')
      → Opened s r s'
  unfolding create_account create_user create_wallet ◌>>=◌
  create_account-Opened s r s' h = record {
    answer = ground arith;
    new_id = ground arith;
    new_email = ground arith;
    new_owner = ground arith;
    after = ground arith;
  }

  run_register-Opened :
      (s : Db) (r : Registered) (s' : Db) → run_register p c e input s ≡ (ok r, s') → Opened s r s'
  unfolding run_register
  run_register-Opened s r s' h = >>=-elim _ _ s h λ x t opened rest.
      >>=-elim _ _ t rest λ v w audited last.
        let (y, ran, back) = transaction-inv (create_account p c e input) s opened in
        let made = create_account-Opened (record s { locks = [] }) x y ran in
        let trail = record_detached-inv e Draw.auth_audit _ t (ok v) w audited in
        record {
          answer = ground arith;
          new_id = made.new_id;
          new_email = made.new_email;
          new_owner = made.new_owner;
          after = ground arith;
        }

  transaction-err :
      (s : Db) (f : Failure) (s' : Db)
      → transaction (create_account p c e input) s ≡ (err f, s')
      → OnlyLocked s s'
  unfolding transaction
  transaction-err s f s' h = ground arith

  run_register-err :
      (s : Db) (f : Failure) (s' : Db) → run_register p c e input s ≡ (err f, s') → OnlyLocked s s'
  unfolding run_register
  run_register-err s f s' h = >>=-throw _ _ s h (transaction-err s f s') λ x t opened rest.
      >>=-throw _ _ t rest
        (λ thrown.
          let quiet = record_detached-inv e Draw.auth_audit _ t (err f) s' thrown in ground arith)
        λ v w audited last. ground arith

-- How a registration ends.
pub data Registration (p : Platform) (c : Credentials) (e : Env) (input : RegisterInput) (s s' : Db)
    : Result Registered → Type 0 where
  opened : (r : Registered) → Opened p c e input s r s' → Registration p c e input s s' (ok r)
  refused : (f : Failure) → OnlyLocked s s' → Registration p c e input s s' (err f)

-- Every user has one wallet.
abbrev pub EachHasWallet : Db → Type 0
EachHasWallet s = All (λ u. count_where (λ (w : Wallet). w.user_id == u.id) s.wallets ≡ 1) s.users

keep_wallets :
    (us : List User) (ws : List Wallet) (w : Wallet)
    → any (λ (u : User). u.id == w.user_id) us ≡ false
    → All (λ (u : User). count_where (λ (x : Wallet). x.user_id == u.id) ws ≡ 1) us
    → All (λ (u : User). count_where (λ (x : Wallet). x.user_id == u.id) (ws ++ w ∷ []) ≡ 1) us
keep_wallets [] ws w fresh each = tt
keep_wallets (u ∷ us) ws w fresh each =
    let grown = count_where-append (λ (x : Wallet). x.user_id == u.id) ws (w ∷ []) in
    let own : count_where (λ (x : Wallet). x.user_id == u.id) (ws ++ w ∷ []) ≡ 1 =
      let one = each.0 in ground arith in
    (own, keep_wallets us ws w (ground arith) each.1)

module _ (p : Platform) (c : Credentials) (e : Env) (input : RegisterInput) where
  Opened-EachHasWallet :
      (s : Db) (r : Registered) (s' : Db)
      → Opened p c e input s r s'
      → EachHasWallet s
      → EachHasWallet s'
  unfolding new_user new_wallet
  Opened-EachHasWallet s r s' o each =
      let none_yet =
        count_where-eq-zero (λ (w : Wallet). w.user_id == e.uuid Draw.user) s.wallets o.new_owner in
      let grown =
        count_where-append (λ (w : Wallet). w.user_id == e.uuid Draw.user) s.wallets
          (wallet_of p c e input ∷ []) in
      let one : count_where (λ (w : Wallet). w.user_id == e.uuid Draw.user)
            (s.wallets ++ wallet_of p c e input ∷ [])
          ≡ 1 =
        ground arith in
      let users : s'.users ≡ s.users ++ user_of p c e input ∷ [] = ground (arith, o.after) in
      let wallets : s'.wallets ≡ s.wallets ++ wallet_of p c e input ∷ [] =
        ground (arith, o.after) in
      rw (users, wallets)
        (All-append
          (λ (u : User).
            count_where (λ (x : Wallet). x.user_id == u.id)
              (s.wallets ++ wallet_of p c e input ∷ [])
            ≡ 1)
          s.users (user_of p c e input ∷ [])
          (keep_wallets s.users s.wallets (wallet_of p c e input) o.new_id each) (one, tt))

  -- A registration that returns has found the email taken by nobody and has added one active user
  -- with the data that it was given, and one wallet of that user with the initial balance, which are
  -- what it returns; one that throws has changed no table.
  pub register-Registration :
      (s : Db) (r : Result Registered) (s' : Db)
      → register p c e input s ≡ (r, s')
      → Registration p c e input s s' r
  unfolding register
  register-Registration s r s' h = elim (result-cases (run_register p c e input s)) [
    | inl (x, t, ran) ↦
        let same : ok x ≡ r = ground arith in
        let end : t ≡ s' = ground arith in
        rw (← same, ← end) (opened x (run_register-Opened p c e input s x t ran))
    | inr (f, t, ran) ↦
        let same : err (email_taken f) ≡ r = ground arith in
        let end : t ≡ s' = ground arith in
        rw (← same, ← end) (refused (email_taken f) (run_register-err p c e input s f t ran))
  ]

  ending :
      (s s' : Db) (r : Result Registered)
      → Registration p c e input s s' r
      → EachHasWallet s
      → EachHasWallet s'
  ending s s' _ (opened x o) each = Opened-EachHasWallet s x s' o each
  ending s s' _ (refused f same) each =
      let users : s'.users ≡ s.users = ground arith in
      let wallets : s'.wallets ≡ s.wallets = ground arith in rw (users, wallets) each

  -- Where every user has one wallet, that is so after a registration, whatever it returns or throws.
  pub register-EachHasWallet :
      (s : Db) (r : Result Registered) (s' : Db)
      → EachHasWallet s
      → register p c e input s ≡ (r, s')
      → EachHasWallet s'
  register-EachHasWallet s r s' each h = ending s s' r (register-Registration s r s' h) each

  -- An email that somebody has is refused with 409, and no table is changed, if the id that is drawn
  -- is new.
  pub register_taken :
      (s : Db)
      → any (λ (u : User). u.id == e.uuid Draw.user) s.users ≡ false
      → any (λ (u : User). str_eq (c.citext u.email) (c.citext input.email)) s.users ≡ true
      → register p c e input s ≡ (err (app 409 validation_error), record s { locks = [] })
  unfolding register transaction create_user is_unique_constraint_violation ◌>>=◌
  register_taken s new_id taken = ground arith
