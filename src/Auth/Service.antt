-- ===== src/Auth/Service.antt =====
-- The operations of apps/api/src/auth/auth.service.ts.
use pstu_final.Base.{
  str_eq, ℕ, String, Bool, true, false, Option, none, some, [], ◌∷◌, ltb, is_some, if◌then◌else◌,
}
use pstu_final.Store.Failure.{
  Failure, app, validation_error, unauthenticated, forbidden, is_unique_constraint_violation,
}
use pstu_final.Store.Rows.{User, UserStatus, Wallet, AuthSession, AuditAction, Fields, Value}
use pstu_final.Store.Tx.{Db, Tx, Result, ok, err, pure, throw, or_throw, transaction, ◌>>=◌, ◌>>◌}
use pstu_final.Platform.{Platform, Env, Draw, Reading}
use pstu_final.Audit.{AuditEntry, record_detached}
use pstu_final.Auth.Credentials.{
  Credentials, verify, hash_refresh_token, generate_refresh_token, refresh_token_expiry_date,
}
use pstu_final.Auth.Accounts.{find_by_email, create_user, create_wallet}
use pstu_final.Auth.Sessions.{
  find_by_token_hash, create_session_row, revoke, revoke_all_active_for_user,
}

pub record IssuedSession : Type 0 where
  pub access_token : String
  pub refresh_token : String

pub record RegisterInput : Type 0 where
  pub email : String
  pub password : String
  pub display_name : String

pub record LoginInput : Type 0 where
  pub email : String
  pub password : String

pub record Registered : Type 0 where
  pub user : User
  pub wallet : Wallet

abbrev pub unauthorized : Failure
unauthorized = app 401 unauthenticated

-- `!presentedToken`: no cookie, or one with an empty text.
abbrev pub given : Option String → Option String
given none = none
given (some token) = if str_eq token "" then none else some token

-- `user?.passwordHash ?? dummyHash`
abbrev hash_to_verify : String → Option User → String
hash_to_verify dummy none = dummy
hash_to_verify dummy (some user) = user.password_hash

abbrev id_of : Option User → Option ℕ
id_of none = none
id_of (some user) = some user.id

abbrev reason : Option User → String
reason none = "unknown_account"
reason (some user) = "bad_password"

abbrev pub is_active : UserStatus → Bool
is_active UserStatus.active = true
is_active UserStatus.suspended = false
is_active UserStatus.closed = false

abbrev pub status_text : UserStatus → String
status_text UserStatus.active = "ACTIVE"
status_text UserStatus.suspended = "SUSPENDED"
status_text UserStatus.closed = "CLOSED"

-- An audit entry about a user, or about the account that a login names.
abbrev user_entry : Option ℕ → AuditAction → Fields → AuditEntry
user_entry id action metadata = record {
  actor_user_id = id;
  action = action;
  resource_type = "user";
  resource_id = id;
  metadata = metadata;
}

abbrev session_entry : AuthSession → AuditAction → Fields → AuditEntry
session_entry session action metadata = record {
  actor_user_id = some session.user_id;
  action = action;
  resource_type = "session";
  resource_id = some session.id;
  metadata = metadata;
}

-- The `catch` of `register`.
unfoldable pub email_taken : Failure → Failure
email_taken failure =
    if is_unique_constraint_violation failure "email" then app 409 validation_error else failure

abbrev caught : {A : Type 0} → Result A × Db → Result A × Db
caught (ok a, s) = (ok a, s)
caught (err failure, s) = (err (email_taken failure), s)

module _ (p : Platform) (c : Credentials) (e : Env) where
  unfoldable pub create_account : RegisterInput → Tx Registered
  create_account input = do
    user ← create_user c e (record {
      email = input.email;
      display_name = input.display_name;
      password_hash = c.argon2_hash input.password;
    })
    wallet ←
        create_wallet e
          (record { user_id = user.id; balance_minor = p.initial_wallet_balance_minor })
    pure (record { user = user; wallet = wallet })

  unfoldable pub run_register : RegisterInput → Tx Registered
  unfolding create_account
  run_register input = do
    created ← transaction (create_account input)
    record_detached e Draw.auth_audit (
        user_entry (some created.user.id) AuditAction.user_registered
          (("walletId", Value.uuid created.wallet.id) ∷ []))
    pure created

  unfoldable pub register : RegisterInput → Tx Registered
  unfolding run_register email_taken
  register input s = caught (run_register input s)

module _ (c : Credentials) (e : Env) where
  unfoldable pub reject_login : Option User → Tx User
  reject_login user = do
    record_detached e Draw.auth_audit (
        user_entry (id_of user) AuditAction.login_failed
          (("reason", Value.text (reason user)) ∷ []))
    throw unauthorized

  unfoldable pub admit : User → Tx User
  admit user =
      if is_active user.status
      then (do
        record_detached e Draw.auth_audit (user_entry (some user.id) AuditAction.login_succeeded [])
        pure user)
      else (do
        record_detached e Draw.auth_audit (
            user_entry (some user.id) AuditAction.login_failed (
              ("reason", Value.text "account_not_active")
              ∷ ("status", Value.text (status_text user.status))
              ∷ []))
        throw (app 403 forbidden))

  unfoldable pub decide_login : Option User → Bool → Tx User
  unfolding reject_login admit
  decide_login none valid = reject_login none
  decide_login (some user) valid = if valid then admit user else reject_login (some user)

  unfoldable pub login : LoginInput → Tx User
  unfolding decide_login
  login input = do
    user ← find_by_email c input.email
    decide_login user (verify c (hash_to_verify c.dummy_hash user) input.password)

module _ (p : Platform) (c : Credentials) (e : Env) where
  unfoldable pub create_session : ℕ → Option String → Tx IssuedSession
  create_session user_id user_agent = do
    create_session_row e (record {
      user_id = user_id;
      refresh_token_hash = (generate_refresh_token p c).hash;
      user_agent = user_agent;
      expires_at = refresh_token_expiry_date c e;
    })
    pure (record {
      access_token = c.sign_access_token user_id;
      refresh_token = (generate_refresh_token p c).token;
    })

  unfoldable pub reuse_detected : AuthSession → Tx IssuedSession
  reuse_detected session = do
    revoke_all_active_for_user e session.user_id
    record_detached e Draw.auth_audit (
        session_entry session AuditAction.refresh_reuse_detected
          (("allSessionsRevoked", Value.boolean true) ∷ []))
    throw unauthorized

  unfoldable pub rotate : AuthSession → Option String → Tx (Unit {0})
  rotate session user_agent = do
    revoke e session.id
    create_session_row e (record {
      user_id = session.user_id;
      refresh_token_hash = (generate_refresh_token p c).hash;
      user_agent = user_agent;
      expires_at = refresh_token_expiry_date c e;
    })
    pure tt

  unfoldable pub issue : AuthSession → Option String → Tx IssuedSession
  unfolding rotate
  issue session user_agent = do
    transaction (rotate session user_agent)
    record_detached e Draw.auth_audit (session_entry session AuditAction.session_refreshed [])
    pure (record {
      access_token = c.sign_access_token session.user_id;
      refresh_token = (generate_refresh_token p c).token;
    })

  -- The rest of `refresh` on the session that the presented token names.
  unfoldable pub refresh_session : AuthSession → Option String → Tx IssuedSession
  unfolding reuse_detected issue
  refresh_session session user_agent =
      if is_some session.revoked_at
      then reuse_detected session
      else if ltb session.expires_at (e.clock Reading.session_check)
      then throw unauthorized
      else issue session user_agent

  unfoldable pub refresh : Option String → Option String → Tx IssuedSession
  unfolding refresh_session
  refresh presented user_agent = do
    token ← or_throw (given presented) unauthorized
    found ← find_by_token_hash (hash_refresh_token p token)
    session ← or_throw found unauthorized
    refresh_session session user_agent

module _ (p : Platform) (e : Env) where
  unfoldable pub end_session : Option AuthSession → Tx (Unit {0})
  end_session none = pure tt
  end_session (some session) =
      if is_some session.revoked_at
      then pure tt
      else revoke e session.id
        >> record_detached e Draw.auth_audit (session_entry session AuditAction.logged_out [])

  unfoldable pub logout_given : Option String → Tx (Unit {0})
  unfolding end_session
  logout_given none = pure tt
  logout_given (some token) = do
    session ← find_by_token_hash (hash_refresh_token p token)
    end_session session

  unfoldable pub logout : Option String → Tx (Unit {0})
  unfolding logout_given
  logout presented = logout_given (given presented)
