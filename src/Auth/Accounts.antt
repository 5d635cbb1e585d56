-- ===== src/Auth/Accounts.antt =====
-- The rows of an account: apps/api/src/users/users.repository.ts and
-- apps/api/src/wallets/wallets.repository.ts, with the unique keys and the CHECK constraint of
-- database/prisma/migrations that their statements meet.
use pstu_final.Base.{ℕ, String, Option, none, [], ◌∷◌, ◌++◌, any, find_where, str_eq, ◌==◌}
use pstu_final.Base.Int.{ℤ, pos, ltb_ℤ}
use pstu_final.Store.Failure.{known, plain, unique_constraint_violation}
use pstu_final.Store.Rows.{User, UserStatus, Wallet, WalletStatus, VerificationStatus}
use pstu_final.Store.Tx.{Tx, pure, throw_if, gets, modify, ◌>>=◌, ◌>>◌}
use pstu_final.Platform.{Env, Draw, Reading}
use pstu_final.Auth.Credentials.{Credentials}

pub record CreateUserData : Type 0 where
  pub email : String
  pub display_name : String
  pub password_hash : String

pub record CreateWalletData : Type 0 where
  pub user_id : ℕ
  pub balance_minor : ℤ

module _ (c : Credentials) where
  unfoldable pub find_by_email : String → Tx (Option User)
  find_by_email email =
      gets λ s. find_where (λ (u : User). str_eq (c.citext u.email) (c.citext email)) s.users

module _ (e : Env) where
  unfoldable pub new_user : CreateUserData → User
  new_user input = record {
    id = e.uuid Draw.user;
    email = input.email;
    display_name = input.display_name;
    password_hash = input.password_hash;
    status = UserStatus.active;
    created_at = e.clock Reading.user_insert;
    nid_hash = none;
    nid_masked = none;
    verification_status = VerificationStatus.unverified;
    verified_at = none;
  }

module _ (c : Credentials) (e : Env) where
  unfoldable pub create_user : CreateUserData → Tx User
  unfolding new_user
  create_user input = do
    same_id ← gets (λ s. any (λ (u : User). u.id == e.uuid Draw.user) s.users)
    throw_if same_id (known unique_constraint_violation none ("id" ∷ []))
    same_email ←
        gets λ s. any (λ (u : User). str_eq (c.citext u.email) (c.citext input.email)) s.users
    throw_if same_email (known unique_constraint_violation none ("email" ∷ []))
    modify (λ s. record s { users = s.users ++ new_user e input ∷ [] })
    pure (new_user e input)

module _ (e : Env) where
  unfoldable pub new_wallet : CreateWalletData → Wallet
  new_wallet input = record {
    id = e.uuid Draw.wallet;
    user_id = input.user_id;
    currency = "BDT";
    balance_minor = input.balance_minor;
    status = WalletStatus.active;
  }

  unfoldable pub create_wallet : CreateWalletData → Tx Wallet
  unfolding new_wallet
  create_wallet input = do
    throw_if (ltb_ℤ input.balance_minor (pos 0)) (plain "wallets_balance_minor_check")
    same_id ← gets (λ s. any (λ (w : Wallet). w.id == e.uuid Draw.wallet) s.wallets)
    throw_if same_id (known unique_constraint_violation none ("id" ∷ []))
    same_user ← gets (λ s. any (λ (w : Wallet). w.user_id == input.user_id) s.wallets)
    throw_if same_user (known unique_constraint_violation none ("userId" ∷ []))
    modify (λ s. record s { wallets = s.wallets ++ new_wallet input ∷ [] })
    pure (new_wallet input)
