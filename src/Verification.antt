-- ===== src/Verification.antt =====
-- The simulated identity check: apps/api/src/verification/verification.service.ts and nid.util.ts,
-- with the statements of apps/api/src/users/users.repository.ts that they issue.
pub mod Final
mod Tests
use pstu_final.Base.{
  ℕ, zero, suc, ◌+◌, ◌-◌, ◌%◌, String, Bool, true, false, ◌&&◌, not, Option, none, some, List, [],
  ◌∷◌, ◌++◌, length, any, find_where, update_where, str_eq, ◌==◌, if◌then◌else◌,
}
use pstu_final.Base.Text.{Text}
use pstu_final.Store.Failure.{
  Failure, app, known, internal_error, validation_error, unique_constraint_violation,
  is_unique_constraint_violation,
}
use pstu_final.Store.Rows.{User, VerificationStatus, AuditAction, Value}
use pstu_final.Store.Tx.{
  Db, Tx, Result, ok, err, pure, throw, throw_if, or_throw, gets, modify, transaction, ◌>>=◌, ◌>>◌,
}
use pstu_final.Platform.{Platform, Env, Draw, Reading}
use pstu_final.Audit.{record_audit}

pub record VerificationStatusDto : Type 0 where
  pub verification_status : VerificationStatus
  pub nid_masked : Option String
  pub verified_at : Option String

-- The sum of the digits of a text of digits.
abbrev pub digit_sum : Text → ℕ
digit_sum [] = 0
digit_sum (c ∷ t) = (c - b'0') + digit_sum t

unfoldable pub simulate_nid_check : Text → Bool
simulate_nid_check nid = not (digit_sum nid % 10 == 0)

abbrev pub slice_from : ℕ → Text → Text
slice_from zero t = t
slice_from (suc n) [] = []
slice_from (suc n) (c ∷ t) = slice_from n t

abbrev dots : ℕ → Text
dots zero = []
dots (suc n) = 0x2022 ∷ dots n

-- `slice(-4)` behind as many dots as it leaves out.
unfoldable pub mask_nid : Text → Text
mask_nid nid =
    let visible = slice_from (length nid - 4) nid in dots (length nid - length visible) ++ visible

abbrev pub is_verified_status : VerificationStatus → Bool
is_verified_status VerificationStatus.verified = true
is_verified_status VerificationStatus.unverified = false
is_verified_status VerificationStatus.rejected = false

abbrev pub is_hash : Option String → String → Bool
is_hash none hash = false
is_hash (some h) hash = str_eq h hash

abbrev pub nid_taken : Failure
nid_taken = app 409 validation_error

abbrev refuse_other : Option User → ℕ → Bool
refuse_other none actor = false
refuse_other (some owner) actor = not (owner.id == actor)

-- The `catch` of `submitNid`.
unfoldable pub nid_failure : Failure → Failure
nid_failure failure =
    if is_unique_constraint_violation failure "nidHash" then nid_taken else failure

abbrev nid_caught : {A : Type 0} → Result A × Db → Result A × Db
nid_caught (ok a, s) = (ok a, s)
nid_caught (err failure, s) = (err (nid_failure failure), s)

unfoldable pub find_by_id : ℕ → Tx (Option User)
find_by_id id = gets (λ s. find_where (λ (u : User). u.id == id) s.users)

unfoldable pub find_by_nid_hash : String → Tx (Option User)
find_by_nid_hash hash = gets (λ s. find_where (λ (u : User). is_hash u.nid_hash hash) s.users)

-- `text_of` makes a text of the language from its characters.
module _ (p : Platform) (text_of : Text → String) (e : Env) where
  abbrev verified_at_text : Option ℕ → Option String
  verified_at_text none = none
  verified_at_text (some t) = some (p.iso t)

  unfoldable pub to_verification_status_dto : User → VerificationStatusDto
  to_verification_status_dto user = record {
    verification_status = user.verification_status;
    nid_masked = user.nid_masked;
    verified_at = verified_at_text user.verified_at;
  }

  abbrev pub verification_of : Text → User → User
  verification_of nid user = record user {
    nid_hash = some (p.sha256 nid);
    nid_masked = some (text_of (mask_nid nid));
    verification_status =
        if simulate_nid_check nid then VerificationStatus.verified else VerificationStatus.rejected;
    verified_at = if simulate_nid_check nid then some (e.clock Reading.verification) else none;
  }

  -- An `update` by the key, and the UNIQUE index on nid_hash.
  unfoldable pub set_verification : ℕ → Text → Tx User
  unfolding simulate_nid_check mask_nid
  set_verification user_id nid = do
    found ← gets (λ s. find_where (λ (u : User). u.id == user_id) s.users)
    user ← or_throw found (known "P2025" none [])
    clash ←
        gets λ s.
          any (λ (u : User). not (u.id == user_id) && is_hash u.nid_hash (p.sha256 nid)) s.users
    throw_if clash (known unique_constraint_violation none ("nidHash" ∷ []))
    modify λ s. record s {
      users = update_where (λ (u : User). u.id == user_id) (verification_of nid) s.users;
    }
    pure (verification_of nid user)

  unfoldable pub write_verification : ℕ → Text → Tx User
  unfolding set_verification
  write_verification actor nid = do
    row ← set_verification actor nid
    record_audit e Draw.verification_audit (record {
      actor_user_id = some actor;
      action =
          if simulate_nid_check nid then AuditAction.nid_verified else AuditAction.nid_rejected;
      resource_type = "user";
      resource_id = some actor;
      metadata = ("nidMasked", Value.text (text_of (mask_nid nid))) ∷ [];
    })
    pure row

  unfoldable pub attempt_verification : ℕ → Text → Tx VerificationStatusDto
  unfolding write_verification to_verification_status_dto nid_failure
  attempt_verification actor nid s = nid_caught (
      (transaction (write_verification actor nid) >>= λ row. pure (to_verification_status_dto row))
        s)

  unfoldable pub submit_unverified : ℕ → Text → Tx VerificationStatusDto
  unfolding attempt_verification find_by_nid_hash
  submit_unverified actor nid = do
    owner ← find_by_nid_hash (p.sha256 nid)
    throw_if (refuse_other owner actor) nid_taken
    attempt_verification actor nid

  unfoldable pub submit_nid : ℕ → Text → Tx VerificationStatusDto
  unfolding submit_unverified find_by_id
  submit_nid actor nid = do
    found ← find_by_id actor
    current ← or_throw found (app 500 internal_error)
    (if is_verified_status current.verification_status
        then (if is_hash current.nid_hash (p.sha256 nid)
            then pure (to_verification_status_dto current)
            else throw nid_taken)
        else submit_unverified actor nid)
