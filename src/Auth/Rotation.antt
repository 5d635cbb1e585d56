-- ===== src/Auth/Rotation.antt =====
-- What a refresh, a logout and a replayed token leave in the table of sessions.
use pstu_final.Base.{
  ℕ, String, Bool, false, Option, none, some, List, [], ◌∷◌, ◌++◌, find_where, update_where, str_eq,
  ◌==◌, ◌≡◌, arith, ltb, ltb,
}
use pstu_final.Store.Rows.{AuthSession}
use pstu_final.Store.Tx.{Db, ok, err, ◌>>=◌}
use pstu_final.Store.Run.{>>=-elim, or_throw-inv}
use pstu_final.Platform.{Draw, Platform, Env, Reading}
use pstu_final.Audit.{record_detached-inv, record_detached, record_detached}
use pstu_final.Transfers.Outcome.{transaction-inv}
use pstu_final.Auth.Credentials.{
  Credentials, generate_refresh_token, hash_refresh_token, refresh_token_expiry_date,
}
use pstu_final.Auth.Sessions.{
  find_by_token_hash, create_session_row, new_session, revoke, revoke_all_active_for_user,
  is_active_of, revoked_now,
}
use pstu_final.Auth.Service.{
  IssuedSession, unauthorized, given, rotate, issue, refresh, refresh_session, reuse_detected,
}

abbrev pub with_hash : String → AuthSession → Bool
with_hash hash x = str_eq x.refresh_token_hash hash

module _ (p : Platform) (c : Credentials) where
  -- What the rotation writes for a session.
  abbrev pub next_session : Env → AuthSession → Option String → AuthSession
  next_session e session user_agent = new_session e (record {
    user_id = session.user_id;
    refresh_token_hash = (generate_refresh_token p c).hash;
    user_agent = user_agent;
    expires_at = refresh_token_expiry_date c e;
  })

  abbrev pub rotated : Env → AuthSession → Option String → List AuthSession → List AuthSession
  rotated e session user_agent xs =
      update_where (λ (x : AuthSession). x.id == session.id) (revoked_now e) xs
      ++ next_session e session user_agent ∷ []

  rotate-inv :
      (e : Env) (session : AuthSession) (user_agent : Option String) (s : Db) (u : Unit {0})
      (s' : Db)
      → rotate p c e session user_agent s ≡ (ok u, s')
      → s' ≡ record s { sessions = rotated e session user_agent s.sessions }
  unfolding rotate revoke create_session_row ◌>>=◌
  rotate-inv e session user_agent s u s' h = ground arith

  pub issue-inv :
      (e : Env) (session : AuthSession) (user_agent : Option String) (s : Db) (i : IssuedSession)
      (s' : Db)
      → issue p c e session user_agent s ≡ (ok i, s')
      → s' ≡ record s {
        sessions = rotated e session user_agent s.sessions;
        audit = s'.audit;
        locks = [];
      }
  unfolding issue
  issue-inv e session user_agent s i s' h = >>=-elim _ _ s h λ u t begun rest.
      >>=-elim _ _ t rest λ v w audited last.
        let (x, ran, back) = transaction-inv (rotate p c e session user_agent) s begun in
        let moved = rotate-inv e session user_agent (record s { locks = [] }) u x ran in
        let trail = record_detached-inv e Draw.auth_audit _ t (ok v) w audited in ground arith

  -- A refresh that returns has found a session under the hash of the token, not revoked and not
  -- expired, and has rotated it.
  pub record Rotated (e : Env) (token : String) (user_agent : Option String) (s s' : Db)
      : Type 0 where
    pub session : AuthSession
    pub present : given (some token) ≡ some token
    pub found : find_where (with_hash (hash_refresh_token p token)) s.sessions ≡ some session
    pub live : session.revoked_at ≡ none
    pub in_time : ltb session.expires_at (e.clock Reading.session_check) ≡ false
    pub after : s' ≡ record s {
      sessions = rotated e session user_agent s.sessions;
      audit = s'.audit;
      locks = [];
    }

  pub refresh_session-inv :
      (e : Env) (session : AuthSession) (user_agent : Option String) (s : Db) (i : IssuedSession)
      (s' : Db)
      → refresh_session p c e session user_agent s ≡ (ok i, s')
      → (session.revoked_at ≡ none)
        × (ltb session.expires_at (e.clock Reading.session_check) ≡ false)
        × (issue p c e session user_agent s ≡ (ok i, s'))
  unfolding refresh_session reuse_detected revoke_all_active_for_user record_detached ◌>>=◌
  refresh_session-inv e session user_agent s i s' h = ground arith

  pub refresh-Rotated :
      (e : Env) (token : String) (user_agent : Option String) (s : Db) (i : IssuedSession) (s' : Db)
      → refresh p c e (some token) user_agent s ≡ (ok i, s')
      → Rotated e token user_agent s s'
  unfolding refresh find_by_token_hash
  refresh-Rotated e token user_agent s i s' h = >>=-elim _ _ s h λ t0 s1 h1 r1.
      >>=-elim _ _ s1 r1 λ o s2 h2 r2. >>=-elim _ _ s2 r2 λ session s3 h3 r3.
        let (k1, e1) = or_throw-inv (given (some token)) unauthorized s h1 in
        let (k3, e3) = or_throw-inv o unauthorized s2 h3 in
        let same : t0 ≡ token = ground arith in
        let start : s3 ≡ s = ground arith in
        let row : find_where (with_hash (hash_refresh_token p token)) s.sessions ≡ some session =
          ground arith in
        let (live, in_time, ran) =
          refresh_session-inv e session user_agent s i s' (rw start at r3) in
        record {
          session = session;
          present = ground arith;
          found = row;
          live = live;
          in_time = in_time;
          after = issue-inv e session user_agent s i s' ran;
        }

module _ (p : Platform) (c : Credentials) where
  -- A token whose session is revoked.
  pub reuse :
      (e : Env) (token : String) (user_agent : Option String) (session : AuthSession) (t : Db)
      (at : ℕ)
      → given (some token) ≡ some token
      → find_where (with_hash (hash_refresh_token p token)) t.sessions ≡ some session
      → session.revoked_at ≡ some at
      → ((refresh p c e (some token) user_agent t).0 ≡ err unauthorized)
        × ((refresh p c e (some token) user_agent t).1.sessions
            ≡ update_where (is_active_of session.user_id) (revoked_now e) t.sessions)
  unfolding refresh find_by_token_hash refresh_session reuse_detected revoke_all_active_for_user
      record_detached ◌>>=◌
  reuse e token user_agent session t at present found gone =
      rw (present, found, gone) (ground arith)
