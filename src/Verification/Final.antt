-- ===== src/Verification/Final.antt =====
-- An account that is verified stays as it is.
use pstu_final.Base.{
  ℕ, String, Bool-cases, true, false, some, List, ◌≡◌, ◌⊎◌, refl, ap, ◌∙◌, inl, inr, arith,
  find_where, update_where, find_where-update_where_other, ◌==◌, ==_iff,
}
use pstu_final.Base.Text.{Text}
use pstu_final.Store.Rows.{User}
use pstu_final.Store.Tx.{Db, Result, transaction, ◌>>=◌}
use pstu_final.Platform.{Platform, Env}
use pstu_final.Audit.{record_audit}
use pstu_final.Verification.{
  VerificationStatusDto, is_verified_status, verification_of, set_verification,
  attempt_verification, submit_unverified, submit_nid, find_by_id,
}

module _ (p : Platform) (text_of : Text → String) (e : Env) where
  attempt_verification-users :
      (actor : ℕ) (nid : Text) (s : Db) (r : Result VerificationStatusDto) (t : Db)
      → attempt_verification p text_of e actor nid s ≡ (r, t)
      → (t.users ≡ s.users)
        ⊎ (t.users
            ≡ update_where (λ (u : User). u.id == actor) (verification_of p text_of e nid) s.users)
  unfolding attempt_verification transaction set_verification record_audit ◌>>=◌
  attempt_verification-users actor nid s r t h = ground arith

  submit_unverified-users :
      (actor : ℕ) (nid : Text) (s : Db) (r : Result VerificationStatusDto) (t : Db)
      → submit_unverified p text_of e actor nid s ≡ (r, t)
      → (t.users ≡ s.users)
        ⊎ (t.users
            ≡ update_where (λ (u : User). u.id == actor) (verification_of p text_of e nid) s.users)
  unfolding submit_unverified ◌>>=◌
  submit_unverified-users actor nid s r t h =
      ground (arith, attempt_verification-users actor nid s r t)

  other_user :
      (actor : ℕ) (nid : Text) (users : List User) (kept : User)
      → (actor == kept.id) ≡ false
      → find_where (λ (u : User). u.id == kept.id) users ≡ some kept
      → find_where
          (λ (u : User). u.id == kept.id)
          (update_where (λ (u : User). u.id == actor) (verification_of p text_of e nid) users)
        ≡ some kept
  other_user actor nid users kept apart stands =
      find_where-update_where_other (λ (u : User). u.id == kept.id) (λ (u : User). u.id == actor)
        (verification_of p text_of e nid) users (λ u. refl) (λ u meets. ground arith)
      ∙ stands

  own_call :
      (nid : Text) (s : Db) (kept : User)
      → find_where (λ (u : User). u.id == kept.id) s.users ≡ some kept
      → is_verified_status kept.verification_status ≡ true
      → (submit_nid p text_of e kept.id nid s).1 ≡ s
  unfolding submit_nid find_by_id ◌>>=◌
  own_call nid s kept stands verified = rw (stands, verified) (ground arith)

  submit_nid-users :
      (actor : ℕ) (nid : Text) (s : Db) (r : Result VerificationStatusDto) (t : Db)
      → submit_nid p text_of e actor nid s ≡ (r, t)
      → (t.users ≡ s.users)
        ⊎ (t.users
            ≡ update_where (λ (u : User). u.id == actor) (verification_of p text_of e nid) s.users)
  unfolding submit_nid find_by_id ◌>>=◌
  submit_nid-users actor nid s r t h = ground (arith, submit_unverified-users actor nid s r t)

  -- The row of a user who is verified stays as it is, whoever submits whatever number and whatever
  -- the call returns or throws.
  pub submit_nid_final :
      (actor : ℕ) (nid : Text) (s : Db) (kept : User)
      → find_where (λ (u : User). u.id == kept.id) s.users ≡ some kept
      → is_verified_status kept.verification_status ≡ true
      → find_where (λ (u : User). u.id == kept.id) (submit_nid p text_of e actor nid s).1.users
        ≡ some kept
  submit_nid_final actor nid s kept stands verified = elim (Bool-cases (actor == kept.id)) [
    | inl own ↦
        let same : actor ≡ kept.id = (==_iff actor kept.id).0 own in
        ap
          (λ (a : ℕ).
            find_where (λ (u : User). u.id == kept.id) (submit_nid p text_of e a nid s).1.users)
          same
        ∙ ap (λ (t : Db). find_where (λ (u : User). u.id == kept.id) t.users)
            (own_call nid s kept stands verified)
        ∙ stands
    | inr other ↦ elim (submit_nid-users actor nid s _ _ refl) [
      | inl same ↦ ap (find_where (λ (u : User). u.id == kept.id)) same ∙ stands
      | inr changed ↦
          ap (find_where (λ (u : User). u.id == kept.id)) changed
          ∙ other_user actor nid s.users kept other stands
    ]
  ]
