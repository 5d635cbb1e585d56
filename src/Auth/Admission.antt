-- ===== src/Auth/Admission.antt =====
-- What a login decides.
use pstu_final.Base.{
  refl, String, Bool, true, false, Option, Option-cases, none, some, ◌≡◌, ◌⊎◌, inl, inr, arith,
  find_where, str_eq, if◌then◌else◌,
}
use pstu_final.Store.Failure.{app, forbidden}
use pstu_final.Store.Rows.{User}
use pstu_final.Store.Tx.{Db, Result, ok, err, ◌>>=◌}
use pstu_final.Platform.{Env}
use pstu_final.Audit.{record_detached}
use pstu_final.Transfers.Outcome.{OnlyAudited}
use pstu_final.Auth.Credentials.{Credentials, verify}
use pstu_final.Auth.Accounts.{find_by_email}
use pstu_final.Auth.Service.{LoginInput, unauthorized, is_active, login}

-- The row that CITEXT finds under an email.
abbrev pub Account : Credentials → String → Db → Option User → Type 0
Account c email s found =
    find_where (λ (u : User). str_eq (c.citext u.email) (c.citext email)) s.users ≡ found

-- The three answers to a login.
pub data Answer (c : Credentials) (input : LoginInput) (s : Db) : Result User → Type 0 where
  admitted :
      (user : User)
      → Account c input.email s (some user)
      → verify c user.password_hash input.password ≡ true
      → is_active user.status ≡ true
      → Answer c input s (ok user)
  rejected :
      Account c input.email s none
        ⊎ ((user : User) × Account c input.email s (some user)
            × (verify c user.password_hash input.password ≡ false))
      → Answer c input s (err unauthorized)
  inactive :
      (user : User)
      → Account c input.email s (some user)
      → verify c user.password_hash input.password ≡ true
      → is_active user.status ≡ false
      → Answer c input s (err (app 403 forbidden))

module _ (c : Credentials) (e : Env) (input : LoginInput) (s : Db) where
  login-none :
      Account c input.email s none
      → ((login c e input s).0 ≡ err unauthorized) × OnlyAudited s (login c e input s).1
  unfolding login find_by_email record_detached ◌>>=◌
  login-none missing = rw missing (ground arith)

  login-some :
      (user : User)
      → Account c input.email s (some user)
      → ((login c e input s).0 ≡ (
          if verify c user.password_hash input.password
          then (if is_active user.status then ok user else err (app 403 forbidden))
          else err unauthorized))
        × OnlyAudited s (login c e input s).1
  unfolding login find_by_email record_detached ◌>>=◌
  login-some user found = rw found (ground arith)

  answer :
      (user : User) (r : Result User) (valid active : Bool)
      → verify c user.password_hash input.password ≡ valid
      → is_active user.status ≡ active
      → Account c input.email s (some user)
      → r ≡ (
          if valid then (if active then ok user else err (app 403 forbidden)) else err unauthorized)
      → Answer c input s r
  answer user r true true v a found e = rw e (admitted user found v a)
  answer user r true false v a found e = rw e (inactive user found v a)
  answer user r false true v a found e = rw e (rejected (inr (user, found, v)))
  answer user r false false v a found e = rw e (rejected (inr (user, found, v)))

  -- A login returns the user whose email and password were given, where the account is active; it
  -- answers alike to an email that nobody has and to a wrong password, with UNAUTHENTICATED, and
  -- says that an account is not active only to one who has its password. Nothing but the audit log
  -- is written.
  pub login-Answer : Answer c input s (login c e input s).0 × OnlyAudited s (login c e input s).1
  login-Answer =
      elim (Option-cases
        (find_where (λ (u : User). str_eq (c.citext u.email) (c.citext input.email)) s.users)) [
          | inl missing ↦
              let (refused, kept) = login-none missing in
              (rw refused (rejected (inl missing)), kept)
          | inr (user, found) ↦
              let (decided, kept) = login-some user found in
              (answer user _ _ _ refl refl found decided, kept)
        ]
