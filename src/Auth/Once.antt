-- ===== src/Auth/Once.antt =====
-- A refresh token is spent by its use: what a replay, a race and a logout meet.
use pstu_final.Base.{
  any-append, ◌≢◌, sym, ap, ◌∙◌, ◌∷◌, [], String, true, false, Option, none, some, List, ◌==◌,
  ==_refl, ◌≡◌, refl, arith, any, find_where, update_where, find_where-update_where,
  find_where_stays, any-update_where, any-update_where_all, ltb,
}
use text.Mathlib.TextPositions.{compare_refl}
use pstu_final.Store.Rows.{AuthSession}
use pstu_final.Store.Tx.{Db, Result, ok, err, transaction, ◌>>=◌}
use pstu_final.Platform.{Platform, Env, Reading, Draw}
use pstu_final.Audit.{record_detached}
use pstu_final.Auth.Credentials.{Credentials, generate_refresh_token, hash_refresh_token}
use pstu_final.Auth.Sessions.{create_session_row, new_session, revoke, is_active_of, revoked_now}
use pstu_final.Auth.Service.{IssuedSession, unauthorized, issue, refresh, refresh_session}
use pstu_final.Auth.Rotation.{next_session, with_hash, rotated, refresh-Rotated, reuse}

-- A session that an UPDATE by its id has revoked is still found under its hash, revoked.
pub found_revoked :
    (e : Env) (hash : String) (xs : List AuthSession) (session : AuthSession)
    → find_where (with_hash hash) xs ≡ some session
    → find_where
        (with_hash hash)
        (update_where (λ (x : AuthSession). x.id == session.id) (revoked_now e) xs)
      ≡ some (revoked_now e session)
found_revoked e hash xs session found =
    find_where-update_where (with_hash hash) (λ (x : AuthSession). x.id == session.id)
      (revoked_now e) xs session (λ y. refl) found (==_refl session.id)

module _ (p : Platform) (c : Credentials) where
  found_rotated :
      (e : Env) (hash : String) (xs : List AuthSession) (session : AuthSession)
      (user_agent : Option String) (ys : List AuthSession)
      → find_where (with_hash hash) xs ≡ some session
      → ys ≡ rotated p c e session user_agent xs
      → find_where (with_hash hash) ys ≡ some (revoked_now e session)
  found_rotated e hash xs session user_agent ys found after =
      ap (find_where (with_hash hash)) after
      ∙ find_where_stays (with_hash hash)
          (update_where (λ (x : AuthSession). x.id == session.id) (revoked_now e) xs)
          (next_session p c e session user_agent ∷ []) (revoked_now e session)
          (found_revoked e hash xs session found)

module _ (p : Platform) where
  -- A refresh token that has been used is refused when it comes again in the state that its use has
  -- left, whatever the clocks of the second call, and its second use revokes every session of the user, that of the first use included.
  pub refresh_once :
      (c c' : Credentials) (e d : Env) (token : String) (user_agent user_agent' : Option String)
      (s : Db) (i : IssuedSession) (t : Db)
      → refresh p c e (some token) user_agent s ≡ (ok i, t)
      → (session : AuthSession) × (find_where (with_hash (hash_refresh_token p token)) s.sessions
          ≡ some session)
        × (session.revoked_at ≡ none)
        × ((refresh p c' d (some token) user_agent' t).0 ≡ err unauthorized)
        × (any (is_active_of session.user_id) (refresh p c' d (some token) user_agent' t).1.sessions
            ≡ false)
  refresh_once c c' e d token user_agent user_agent' s i t h =
      let r = refresh-Rotated p c e token user_agent s i t h in
      let after : t.sessions ≡ rotated p c e r.session user_agent s.sessions =
        ground (arith, r.after) in
      let again =
        found_rotated p c e (hash_refresh_token p token) s.sessions r.session user_agent t.sessions
          r.found after in
      let (refused, swept) =
        reuse p c' d token user_agent' (revoked_now e r.session) t
          (e.clock Reading.session_revocation) r.present again refl in
      (
        r.session,
        r.found,
        r.live,
        refused,
        ap (any (is_active_of r.session.user_id)) swept
            ∙ any-update_where_all (is_active_of r.session.user_id) (revoked_now d) t.sessions
                (λ x. ground arith),
      )

module _ (p : Platform) (c : Credentials) where
  issue-returns :
      (e : Env) (session : AuthSession) (user_agent : Option String) (s : Db)
      → any (λ (x : AuthSession). x.id == session.id) s.sessions ≡ true
      → any (λ (x : AuthSession). x.id == e.uuid Draw.session) s.sessions ≡ false
      → any (with_hash (generate_refresh_token p c).hash) s.sessions ≡ false
      → ((issue p c e session user_agent s).0
          ≡ ok (record {
            access_token = c.sign_access_token session.user_id;
            refresh_token = c.random_token;
          }))
        × ((issue p c e session user_agent s).1.sessions
            ≡ rotated p c e session user_agent s.sessions)
  unfolding issue transaction revoke create_session_row record_detached generate_refresh_token ◌>>=◌
  issue-returns e session user_agent s there new_id new_hash =
      let id_kept =
        any-update_where (λ (x : AuthSession). x.id == e.uuid Draw.session)
          (λ (x : AuthSession). x.id == session.id) (revoked_now e) s.sessions (λ x. refl) in
      let hash_kept =
        any-update_where (with_hash (generate_refresh_token p c).hash)
          (λ (x : AuthSession). x.id == session.id) (revoked_now e) s.sessions (λ x. refl) in
      ground arith

  refresh_session-live :
      (e : Env) (session : AuthSession) (user_agent : Option String) (s : Db)
      → session.revoked_at ≡ none
      → ltb session.expires_at (e.clock Reading.session_check) ≡ false
      → refresh_session p c e session user_agent s ≡ issue p c e session user_agent s
  unfolding refresh_session
  refresh_session-live e session user_agent s live in_time = ground arith

  still_there :
      (e : Env) (session : AuthSession) (user_agent : Option String) (xs : List AuthSession)
      → any (λ (x : AuthSession). x.id == session.id) xs ≡ true
      → any (λ (x : AuthSession). x.id == session.id) (rotated p c e session user_agent xs) ≡ true
  still_there e session user_agent xs there =
      let test = λ (x : AuthSession). x.id == session.id in
      let grown =
        any-append test (update_where test (revoked_now e) xs)
          (next_session p c e session user_agent ∷ []) in
      let kept = any-update_where test test (revoked_now e) xs (λ x. refl) in ground arith

module _ (p : Platform) where
  -- The token that a rotation has written can be found under its hash.
  hash_there :
      (c : Credentials) (e : Env) (session : AuthSession) (user_agent : Option String)
      (xs : List AuthSession)
      → any (with_hash (generate_refresh_token p c).hash) (rotated p c e session user_agent xs)
        ≡ true
  unfolding new_session
  hash_there c e session user_agent xs =
      let hash = (generate_refresh_token p c).hash in
      let grown =
        any-append (with_hash hash)
          (update_where (λ (x : AuthSession). x.id == session.id) (revoked_now e) xs)
          (next_session p c e session user_agent ∷ []) in
      let own = compare_refl hash in ground arith

  hash_of_token :
      (c c' : Credentials)
      → c.random_token ≡ c'.random_token
      → (generate_refresh_token p c).hash ≡ (generate_refresh_token p c').hash
  unfolding generate_refresh_token
  hash_of_token c c' same = ap (hash_refresh_token p) same

  refresh_session-returns :
      (c : Credentials) (e : Env) (session : AuthSession) (user_agent : Option String) (s : Db)
      → any (λ (x : AuthSession). x.id == session.id) s.sessions ≡ true
      → session.revoked_at ≡ none
      → ltb session.expires_at (e.clock Reading.session_check) ≡ false
      → any (λ (x : AuthSession). x.id == e.uuid Draw.session) s.sessions ≡ false
      → any (with_hash (generate_refresh_token p c).hash) s.sessions ≡ false
      → ((refresh_session p c e session user_agent s).0
          ≡ ok (record {
            access_token = c.sign_access_token session.user_id;
            refresh_token = c.random_token;
          }))
        × ((refresh_session p c e session user_agent s).1.sessions
            ≡ rotated p c e session user_agent s.sessions)
  refresh_session-returns c e session user_agent s there live in_time new_id new_hash =
      let (issued, rows) = issue-returns p c e session user_agent s there new_id new_hash in
      let same = refresh_session-live p c e session user_agent s live in_time in
      (
        ap (λ (x : Result IssuedSession × Db). x.0) same ∙ issued,
        ap (λ (x : Result IssuedSession × Db). x.1.sessions) same ∙ rows,
      )

  -- Two refreshes that have both read one session, before either has rotated it, both return, the
  -- first and the second each with a token of its own, and the two tokens differ, though the token
  -- that they were given is the same: where the session stands in the table, has not been revoked
  -- when it is read and is in time for both, and the id and the hash of each new session are not in
  -- the table that its call meets.
  pub refresh_session_race :
      (c c' : Credentials) (e d : Env) (session : AuthSession)
      (user_agent user_agent' : Option String) (s t : Db)
      → t ≡ (refresh_session p c e session user_agent s).1
      → any (λ (x : AuthSession). x.id == session.id) s.sessions ≡ true
      → session.revoked_at ≡ none
      → ltb session.expires_at (e.clock Reading.session_check) ≡ false
      → ltb session.expires_at (d.clock Reading.session_check) ≡ false
      → any (λ (x : AuthSession). x.id == e.uuid Draw.session) s.sessions ≡ false
      → any (with_hash (generate_refresh_token p c).hash) s.sessions ≡ false
      → any (λ (x : AuthSession). x.id == d.uuid Draw.session) t.sessions ≡ false
      → any (with_hash (generate_refresh_token p c').hash) t.sessions ≡ false
      → ((refresh_session p c e session user_agent s).0
          ≡ ok (record {
            access_token = c.sign_access_token session.user_id;
            refresh_token = c.random_token;
          }))
        × ((refresh_session p c' d session user_agent' t).0
            ≡ ok (record {
              access_token = c'.sign_access_token session.user_id;
              refresh_token = c'.random_token;
            }))
        × (c.random_token ≢ c'.random_token)
        × ((refresh_session p c' d session user_agent' t).1.sessions
            ≡ rotated p c' d session user_agent' (rotated p c e session user_agent s.sessions))
  refresh_session_race c c' e d session user_agent user_agent' s t between there live in_time
        in_time' new_id new_hash new_id' new_hash' =
      let (first, written) =
        refresh_session-returns c e session user_agent s there live in_time new_id new_hash in
      let after : t.sessions ≡ rotated p c e session user_agent s.sessions =
        ap (λ (u : Db). u.sessions) between ∙ written in
      let still : any (λ (x : AuthSession). x.id == session.id) t.sessions ≡ true =
        ap (any (λ (x : AuthSession). x.id == session.id)) after
        ∙ still_there p c e session user_agent s.sessions there in
      let (second, rows) =
        refresh_session-returns c' d session user_agent' t still live in_time' new_id' new_hash' in
      (
        first,
        second,
        λ same.
            let there' =
              ap (any (with_hash (generate_refresh_token p c).hash)) after
              ∙ hash_there c e session user_agent s.sessions in
            let missing =
              ap (λ (h : String). any (with_hash h) t.sessions) (hash_of_token c c' same)
              ∙ new_hash' in
            let no : true ≡ false = sym there' ∙ missing in ground arith,
        rows ∙ ap (rotated p c' d session user_agent') after,
      )
