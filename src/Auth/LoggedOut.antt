-- ===== src/Auth/LoggedOut.antt =====
-- What a logout leaves behind.
use pstu_final.Base.{
  subst, sym, ℕ, String, Option, Option-cases, none, some, ◌==◌, ==_refl, ◌≡◌, refl, ap, ◌∙◌, inl,
  inr, arith, find_where, update_where, any-of-found,
}
use pstu_final.Store.Rows.{AuthSession}
use pstu_final.Store.Tx.{Db, Result, ok, err, ◌>>=◌}
use pstu_final.Platform.{Platform, Env, Reading}
use pstu_final.Audit.{record_detached}
use pstu_final.Auth.Credentials.{Credentials, hash_refresh_token}
use pstu_final.Auth.Sessions.{find_by_token_hash, revoke, revoked_now}
use pstu_final.Auth.Service.{unauthorized, given, refresh, logout}
use pstu_final.Auth.Rotation.{with_hash, reuse}
use pstu_final.Auth.Once.{found_revoked}

-- The presented token, where there is one, and the session that it names.
abbrev Named : Platform → String → Db → Option AuthSession → Type 0
Named p token s found = find_where (with_hash (hash_refresh_token p token)) s.sessions ≡ found

module _ (p : Platform) (token : String) (present : given (some token) ≡ some token) where
  logout-unnamed :
      (e : Env) (s : Db) → Named p token s none → logout p e (some token) s ≡ (ok tt, s)
  unfolding logout find_by_token_hash ◌>>=◌
  logout-unnamed e s found = rw (present, found) refl

  logout-revoked :
      (e : Env) (s : Db) (session : AuthSession) (at : ℕ)
      → Named p token s (some session)
      → session.revoked_at ≡ some at
      → logout p e (some token) s ≡ (ok tt, s)
  unfolding logout find_by_token_hash ◌>>=◌
  logout-revoked e s session at found gone = rw (present, found) (ground arith)

  logout-live :
      (e : Env) (s : Db) (session : AuthSession)
      → Named p token s (some session)
      → session.revoked_at ≡ none
      → ((logout p e (some token) s).0 ≡ ok tt)
        × ((logout p e (some token) s).1.sessions
            ≡ update_where (λ (x : AuthSession). x.id == session.id) (revoked_now e) s.sessions)
  unfolding logout find_by_token_hash revoke record_detached ◌>>=◌
  logout-live e s session found live =
      let there =
        any-of-found (with_hash (hash_refresh_token p token))
          (λ (x : AuthSession). x.id == session.id) s.sessions session found (==_refl session.id) in
      rw (present, found) (ground arith)

  refresh-unnamed :
      (c : Credentials) (d : Env) (user_agent : Option String) (s : Db)
      → Named p token s none
      → (refresh p c d (some token) user_agent s).0 ≡ err unauthorized
  unfolding refresh find_by_token_hash ◌>>=◌
  refresh-unnamed c d user_agent s found = rw (present, found) refl

  abbrev Ended : Credentials → Env → Env → Option String → Db → Result (Unit {0}) × Db → Type 0
  Ended c d f user_agent s out =
      (out.0 ≡ ok tt)
      × ((refresh p c d (some token) user_agent out.1).0 ≡ err unauthorized)
      × ((logout p f (some token) out.1).1.sessions ≡ out.1.sessions)

  ends_revoked :
      (c : Credentials) (d f : Env) (user_agent : Option String) (s t : Db) (session : AuthSession)
      (at : ℕ)
      → Named p token t (some session)
      → session.revoked_at ≡ some at
      → Ended c d f user_agent s (ok tt, t)
  ends_revoked c d f user_agent s t session at found gone = (
    refl,
    (reuse p c d token user_agent session t at present found gone).0,
    ap (λ (x : Result (Unit {0}) × Db). x.1.sessions) (logout-revoked f t session at found gone),
  )

  ends_given :
      (c : Credentials) (e d f : Env) (user_agent : Option String) (s : Db)
      → Ended c d f user_agent s (logout p e (some token) s)
  ends_given c e d f user_agent s =
      elim (Option-cases (find_where (with_hash (hash_refresh_token p token)) s.sessions)) [
        | inl missing ↦ subst (Ended c d f user_agent s) (sym (logout-unnamed e s missing)) (
          refl,
          refresh-unnamed c d user_agent s missing,
          ap (λ (x : Result (Unit {0}) × Db). x.1.sessions) (logout-unnamed f s missing),
        )
        | inr (session, found) ↦ elim (Option-cases session.revoked_at) [
          | inl live ↦
              let (done, rows) = logout-live e s session found live in
              let again : Named p token (logout p e (some token) s).1
                  (some (revoked_now e session)) =
                ap (find_where (with_hash (hash_refresh_token p token))) rows
                ∙ found_revoked e (hash_refresh_token p token) s.sessions session found in
              let (_, refused, kept) =
                ends_revoked c d f user_agent s (logout p e (some token) s).1
                  (revoked_now e session) (e.clock Reading.session_revocation) again refl in
              (done, refused, kept)
          | inr (at, gone) ↦
              subst (Ended c d f user_agent s) (sym (logout-revoked e s session at found gone))
                (ends_revoked c d f user_agent s s session at found gone)
        ]
      ]

module _ (p : Platform) where
  -- A logout returns whatever it is given. The token that it was given is refused from then on, and
  -- a second logout with it leaves the sessions as they are.
  pub logout_ends :
      (c : Credentials) (e d f : Env) (presented user_agent : Option String) (s : Db)
      → ((logout p e presented s).0 ≡ ok tt)
        × ((refresh p c d presented user_agent (logout p e presented s).1).0 ≡ err unauthorized)
        × ((logout p f presented (logout p e presented s).1).1.sessions
            ≡ (logout p e presented s).1.sessions)
  unfolding logout refresh ◌>>=◌
  logout_ends c e d f none user_agent s = (refl, refl, refl)
  logout_ends c e d f (some token) user_agent s = elim (Option-cases (given (some token))) [
    | inl absent ↦ rw absent (refl, refl, refl)
    | inr (t, present) ↦
        let same : t ≡ token = ground arith in
        ends_given p token (rw same at present) c e d f user_agent s
  ]
