-- ===== src/Users.antt =====
-- What a user sees of an account: the profile and the masked email (apps/api/src/users), and the
-- wallet with the limits that are left (apps/api/src/wallets/wallets.service.ts).
mod Mask
mod Tests
use pstu_final.Base.{
  ℕ, zero, suc, String, Bool, true, false, Option, none, some, List, [], ◌∷◌, ◌++◌, find_where,
  ◌==◌, if◌then◌else◌,
}
use pstu_final.Base.Int.{ℤ}
use pstu_final.Base.Text.{Text, codes}
use pstu_final.Store.Failure.{app, internal_error, user_not_found}
use pstu_final.Store.Rows.{User, UserStatus, VerificationStatus, Wallet, WalletStatus}
use pstu_final.Store.Tx.{Tx, pure, or_throw, gets, ◌>>=◌}
use pstu_final.Platform.{Platform, Env}
use pstu_final.Limits.{LimitUsageDto, get_usage}
use pstu_final.Verification.{find_by_id}

pub record UserProfileDto : Type 0 where
  pub id : ℕ
  pub email : String
  pub display_name : String
  pub status : UserStatus
  pub created_at : String
  pub verification_status : VerificationStatus
  pub nid_masked : Option String

pub record WalletDto : Type 0 where
  pub wallet_id : ℕ
  pub currency : String
  pub balance_minor : ℤ
  pub status : WalletStatus
  pub limits : LimitUsageDto

-- `slice(indexOf('@'))`, with `none` for an index of -1.
unfoldable pub from_at : Text → Option Text
from_at [] = none
from_at (c ∷ t) = let rest = from_at t in if c == b'@' then some (c ∷ t) else rest

abbrev masked_with : ℕ → Text → Option Text → Text
masked_with first rest none = first ∷ rest
masked_with first rest (some domain) = first ∷ b'*' ∷ b'*' ∷ b'*' ∷ domain

-- An address without an @, or that begins with it, stays as it is.
unfoldable pub mask_email : Text → Text
unfolding from_at
mask_email [] = []
mask_email (c ∷ t) = let domain = from_at t in if c == b'@' then c ∷ t else masked_with c t domain

module _ (p : Platform) where
  unfoldable pub to_user_profile_dto : User → UserProfileDto
  to_user_profile_dto user = record {
    id = user.id;
    email = user.email;
    display_name = user.display_name;
    status = user.status;
    created_at = p.iso user.created_at;
    verification_status = user.verification_status;
    nid_masked = user.nid_masked;
  }

  unfoldable pub get_profile : ℕ → Tx UserProfileDto
  unfolding find_by_id to_user_profile_dto
  get_profile user_id = do
    found ← find_by_id user_id
    user ← or_throw found (app 404 user_not_found)
    pure (to_user_profile_dto user)

  -- Every user has a wallet from the registration on.
  unfoldable pub get_for_user : Env → ℕ → Tx WalletDto
  unfolding get_usage
  get_for_user e user_id = do
    found ← gets (λ s. find_where (λ (w : Wallet). w.user_id == user_id) s.wallets)
    wallet ← or_throw found (app 500 internal_error)
    limits ← get_usage p e user_id
    pure (record {
      wallet_id = wallet.id;
      currency = wallet.currency;
      balance_minor = wallet.balance_minor;
      status = wallet.status;
      limits = limits;
    })
