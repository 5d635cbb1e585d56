-- ===== src/Auth/Sessions.antt =====
-- The rows of the sessions: apps/api/src/auth/auth-session.repository.ts.
use pstu_final.Base.{
  ℕ, String, Bool, ◌&&◌, not, Option, none, some, [], ◌∷◌, ◌++◌, any, find_where, update_where,
  is_some, str_eq, ◌==◌,
}
use pstu_final.Store.Failure.{known, unique_constraint_violation}
use pstu_final.Store.Rows.{AuthSession}
use pstu_final.Store.Tx.{Tx, pure, throw_if, gets, modify, ◌>>=◌, ◌>>◌}
use pstu_final.Platform.{Env, Draw, Reading}

pub record CreateAuthSessionData : Type 0 where
  pub user_id : ℕ
  pub refresh_token_hash : String
  pub user_agent : Option String
  pub expires_at : ℕ

-- userId = …, revokedAt = null
abbrev pub is_active_of : ℕ → AuthSession → Bool
is_active_of user_id session = session.user_id == user_id && not (is_some session.revoked_at)

unfoldable pub find_by_token_hash : String → Tx (Option AuthSession)
find_by_token_hash hash =
    gets λ s. find_where (λ (x : AuthSession). str_eq x.refresh_token_hash hash) s.sessions

module _ (e : Env) where
  unfoldable pub new_session : CreateAuthSessionData → AuthSession
  new_session input = record {
    id = e.uuid Draw.session;
    user_id = input.user_id;
    refresh_token_hash = input.refresh_token_hash;
    user_agent = input.user_agent;
    created_at = e.clock Reading.session_insert;
    expires_at = input.expires_at;
    revoked_at = none;
  }

  unfoldable pub create_session_row : CreateAuthSessionData → Tx AuthSession
  unfolding new_session
  create_session_row input = do
    same_id ← gets (λ s. any (λ (x : AuthSession). x.id == e.uuid Draw.session) s.sessions)
    throw_if same_id (known unique_constraint_violation none ("id" ∷ []))
    same_hash ← gets λ s.
        any (λ (x : AuthSession). str_eq x.refresh_token_hash input.refresh_token_hash) s.sessions
    throw_if same_hash (known unique_constraint_violation none ("refreshTokenHash" ∷ []))
    modify (λ s. record s { sessions = s.sessions ++ new_session input ∷ [] })
    pure (new_session input)

  abbrev pub revoked_now : AuthSession → AuthSession
  revoked_now session = record session { revoked_at = some (e.clock Reading.session_revocation) }

  -- An `update` of the client throws where no row has the id.
  unfoldable pub revoke : ℕ → Tx (Unit {0})
  revoke id = do
    found ← gets (λ s. any (λ (x : AuthSession). x.id == id) s.sessions)
    throw_if (not found) (known "P2025" none [])
    modify λ s. record s {
      sessions = update_where (λ (x : AuthSession). x.id == id) revoked_now s.sessions;
    }

  unfoldable pub revoke_all_active_for_user : ℕ → Tx (Unit {0})
  revoke_all_active_for_user user_id =
      modify λ s. record s { sessions = update_where (is_active_of user_id) revoked_now s.sessions }
