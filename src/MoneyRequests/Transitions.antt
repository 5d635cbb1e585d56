-- ===== src/MoneyRequests/Transitions.antt =====
-- The state machine of a money request: which calls move a request on, and from which state.
use pstu_final.Base.{
  ◌≢◌, ==_refl, find_where-update_where_other, ℕ, ◌≡◌, refl, inl, inr, Option, Option-cases, true,
  some, [], ◌∷◌, ◌++◌, arith, any, find_where, find_where_sound, find_where-update_where,
  any-of-find_where, ◌==◌, if◌then◌else◌, String,
}
use pstu_final.Store.Rows.{MoneyRequest, MoneyRequestStatus}
use pstu_final.Store.Tx.{Db, ok, money_request_row, ◌>>=◌}
use pstu_final.Store.Run.{>>=-elim, throw_if-inv, or_throw-inv}
use pstu_final.Platform.{Platform, Env, Reading}
use pstu_final.MoneyRequests.Repository.{
  ParticipantRole, Target, target_status, lock_by_id, update_row, mark_accepted, mark_resolved,
}
use pstu_final.MoneyRequests.Rules.{ResolveMoneyRequestCommand, assert_actor_role, plays}
use pstu_final.MoneyRequests.Service.{lock_pending}

abbrev pub request_of : ℕ → Db → Option MoneyRequest
request_of id s = find_where (λ (r : MoneyRequest). r.id == id) s.requests

module _ (p : Platform) (e : Env) where
  -- What a call has found out about a request before it moves it on.
  pub record Held (command : ResolveMoneyRequestCommand) (role : ParticipantRole) (s : Db)
      (r : MoneyRequest) (s' : Db) : Type 0 where
    pub cast : p.uuid_in command.request_id ≡ some r.id
    pub found : request_of r.id s ≡ some r
    pub pending : r.status ≡ MoneyRequestStatus.pending
    pub role_played : plays r command.actor_user_id role ≡ true
    pub state : s' ≡ record s { locks = s.locks ++ money_request_row r.id ∷ [] }

  lock_by_id-inv :
      (text : String) (s : Db) (o : Option MoneyRequest) (s' : Db)
      → lock_by_id p e text s ≡ (ok o, s')
      → (id : ℕ) × (p.uuid_in text ≡ some id)
        × (o ≡ request_of id s)
        × (s' ≡ (
            if any (λ (r : MoneyRequest). r.id == id) s.requests
            then record s { locks = s.locks ++ money_request_row id ∷ [] }
            else s))
  unfolding lock_by_id ◌>>=◌
  lock_by_id-inv text s o s' h = elim (Option-cases (p.uuid_in text)) [
    | inl bad ↦ ground arith
    | inr (id, cast) ↦ (id, cast, ground arith, ground arith)
  ]

  assert_actor_role-inv :
      (r : MoneyRequest) (actor : ℕ) (role : ParticipantRole) (s : Db) (u : Unit {0}) (s' : Db)
      → assert_actor_role r actor role s ≡ (ok u, s')
      → (s' ≡ s) × (plays r actor role ≡ true)
  unfolding assert_actor_role ◌>>=◌
  assert_actor_role-inv r actor role s u s' h = ground arith

  pub lock_pending-Held :
      (command : ResolveMoneyRequestCommand) (role : ParticipantRole) (s : Db) {r : MoneyRequest}
      {s' : Db}
      → lock_pending p e command role s ≡ (ok r, s')
      → Held command role s r s'
  unfolding lock_pending
  lock_pending-Held command role s {r} {s'} h = >>=-elim _ _ s h λ o s1 h1 r1.
      >>=-elim _ _ s1 r1 λ x s2 h2 r2. >>=-elim _ _ s2 r2 λ u3 s3 h3 r3.
        >>=-elim _ _ s3 r3 λ u4 s4 h4 r4.
          let (id, cast, found, locked) = lock_by_id-inv command.request_id s o s1 h1 in
          let e2 = or_throw-inv o _ s1 h2 in
          let e3 = assert_actor_role-inv x command.actor_user_id role s2 u3 s3 h3 in
          let same : x ≡ r = ground arith in
          let here : request_of id s ≡ some r = ground arith in
          let right = find_where_sound (λ (y : MoneyRequest). y.id == id) s.requests r here in
          let there = any-of-find_where (λ (y : MoneyRequest). y.id == id) s.requests r here in
          let same_id : id ≡ r.id = ground arith in
          record {
            cast = ground arith;
            found = rw same_id at here;
            pending = ground arith;
            role_played = rw same at e3.1;
            state = ground arith;
          }

-- What an UPDATE of one request leaves in the table.
pub record Updated (r r' : MoneyRequest) (s s' : Db) : Type 0 where
  pub after : request_of r.id s' ≡ some r'
  pub others : (k : ℕ) → k ≢ r.id → request_of k s' ≡ request_of k s
  pub tables : s' ≡ record s { requests = s'.requests }

update_row-Updated :
    (p : Platform) (e : Env) (change : MoneyRequest → MoneyRequest) (s : Db) (r : MoneyRequest)
    (r' : MoneyRequest) (s' : Db)
    → ((y : MoneyRequest) → (change y).id ≡ y.id)
    → request_of r.id s ≡ some r
    → update_row p e r.id change s ≡ (ok r', s')
    → Updated r r' s s' × (r' ≡ change r)
unfolding update_row ◌>>=◌
update_row-Updated p e change s r r' s' keeps found h =
    let changed =
      find_where-update_where (λ (y : MoneyRequest). y.id == r.id)
        (λ (y : MoneyRequest). y.id == r.id) change s.requests r
        (λ y. let same = keeps y in ground arith) found (==_refl r.id) in
    (
      record {
        after = ground arith;
        others = λ k apart.
            let same =
              find_where-update_where_other (λ (y : MoneyRequest). y.id == k)
                (λ (y : MoneyRequest). y.id == r.id) change s.requests
                (λ y. let same = keeps y in ground arith) (λ y e. ground arith) in
            ground arith;
        tables = ground arith;
      },
      ground arith,
    )

module _ (p : Platform) (e : Env) where
  pub mark_resolved-Updated :
      (target : Target) (s : Db) (r r' : MoneyRequest) (s' : Db)
      → request_of r.id s ≡ some r
      → mark_resolved p e r.id target s ≡ (ok r', s')
      → Updated r r' s s'
        × (r' ≡ record r {
          status = target_status target;
          resolved_at = some (e.clock Reading.request_resolution);
        })
  unfolding mark_resolved
  mark_resolved-Updated target s r r' s' found h =
      update_row-Updated p e _ s r r' s' (λ y. refl) found h

  pub mark_accepted-Updated :
      (transfer_id : ℕ) (s : Db) (r r' : MoneyRequest) (s' : Db)
      → request_of r.id s ≡ some r
      → mark_accepted p e r.id transfer_id s ≡ (ok r', s')
      → Updated r r' s s'
        × (r' ≡ record r {
          status = MoneyRequestStatus.accepted;
          accepted_transfer_id = some transfer_id;
          resolved_at = some (e.clock Reading.request_resolution);
        })
  unfolding mark_accepted
  mark_accepted-Updated transfer_id s r r' s' found h = >>=-elim _ _ s h λ linked s1 h1 r1.
      >>=-elim _ _ s1 r1 λ u s2 h2 r2.
        let e1 = throw_if-inv linked _ s1 h2 in
        let same : s2 ≡ s = ground arith in
        update_row-Updated p e _ s r r' s' (λ y. refl) found (rw same at r2)
