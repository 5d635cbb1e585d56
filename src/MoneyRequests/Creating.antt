-- ===== src/MoneyRequests/Creating.antt =====
-- What a create that returns or throws has done.
use pstu_final.Base.{
  ◌∙◌, find_where_sound, ℕ, ◌≡◌, ◌≢◌, sym, Option-cases, inl, inr, some, [], ◌∷◌, ◌++◌, arith,
  find_where, ◌==◌,
}
use pstu_final.Base.Int.{pos, ◌≤ℤ◌}
use pstu_final.Store.Failure.{Failure}
use pstu_final.Store.Rows.{User, UserStatus, MoneyRequest}
use pstu_final.Store.Dto.{Body}
use pstu_final.Store.Tx.{Db, ok, err, ◌>>=◌}
use pstu_final.Store.Run.{>>=-elim, throw_if-inv}
use pstu_final.Platform.{Platform, Env}
use pstu_final.Audit.{record_audit-inv}
use pstu_final.Outbox.{insert_event-inv}
use pstu_final.Idempotency.{BeginParams, BeginResult, claimed, replayed, begin}
use pstu_final.Idempotency.Replay.{SameOthers, begin-SameOthers, complete-SameOthers}
use pstu_final.Idempotency.Stored.{begin-Stored}
use pstu_final.Transfers.Service.{Attempt}
use pstu_final.MoneyRequests.Repository.{
  CreateMoneyRequestData, new_request, create_row, to_money_request_dto,
}
use pstu_final.MoneyRequests.Rules.{CreateMoneyRequestCommand}
use pstu_final.MoneyRequests.Service.{find_payer, create_claimed, run_create, create}
use pstu_final.MoneyRequests.Handlers.{OnlyLocked, in_transaction-err, in_transaction-ok}

module _ (p : Platform) (command : CreateMoneyRequestCommand) where
  abbrev data_for : ℕ → CreateMoneyRequestData
  data_for payer_user_id = record {
    requester_user_id = command.actor_user_id;
    payer_user_id = payer_user_id;
    amount_minor = command.amount_minor;
    currency = command.currency;
    note = command.note;
    expires_at = command.expires_at;
  }

  pub data Created (s s' : Db) : Body → Type 0 where
    repeated_create : (body : Body) → OnlyLocked s s' → Created s s' body
    created :
        (e : Env) (payer : User)
        → p.uuid_in command.payer_user_id ≡ some payer.id
        → find_where (λ (u : User). u.id == payer.id) s.users ≡ some payer
        → payer.status ≡ UserStatus.active
        → payer.id ≢ command.actor_user_id
        → pos 1 ≤ℤ command.amount_minor
        → s'.requests ≡ s.requests ++ new_request p e (data_for payer.id) ∷ []
        → s' ≡ record s {
          requests = s'.requests;
          records = s'.records;
          outbox = s'.outbox;
          audit = s'.audit;
          locks = s'.locks;
        }
        → Created s s'
            (Body.money_request (to_money_request_dto p e (new_request p e (data_for payer.id))))

  find_payer-inv :
      (e : Env) (s : Db) (id : ℕ) (s' : Db)
      → find_payer p e command s ≡ (ok id, s')
      → (s' ≡ s)
        × ((u : User) × (u.id ≡ id)
            × (p.uuid_in command.payer_user_id ≡ some id)
            × (find_where (λ (x : User). x.id == id) s.users ≡ some u)
            × (u.status ≡ UserStatus.active))
  unfolding find_payer ◌>>=◌
  find_payer-inv e s id s' h = elim (Option-cases (p.uuid_in command.payer_user_id)) [
    | inl bad ↦ ground arith
    | inr (n, cast) ↦ elim (Option-cases (find_where (λ (x : User). x.id == n) s.users)) [
      | inl missing ↦ ground arith
      | inr (u, found) ↦
          let own = find_where_sound (λ (x : User). x.id == n) s.users u found in
          let same : n ≡ id = ground arith in
          (ground arith, (u, ground arith, rw same at cast, rw same at found, ground arith))
    ]
  ]

  create_row-inv :
      (e : Env) (d : CreateMoneyRequestData) (s : Db) (r : MoneyRequest) (s' : Db)
      → create_row p e d s ≡ (ok r, s')
      → (r ≡ new_request p e d)
        × (s' ≡ record s { requests = s.requests ++ new_request p e d ∷ [] })
        × (d.requester_user_id ≢ d.payer_user_id)
        × (pos 1 ≤ℤ d.amount_minor)
  unfolding create_row ◌>>=◌
  create_row-inv e d s r s' h = ground arith

  row-Created :
      (e : Env) (s t s1 s2 s3 s4 v : Db) (u : User)
      → p.uuid_in command.payer_user_id ≡ some u.id
      → find_where (λ (x : User). x.id == u.id) s.users ≡ some u
      → u.status ≡ UserStatus.active
      → command.actor_user_id ≢ u.id
      → pos 1 ≤ℤ command.amount_minor
      → SameOthers (record s { locks = [] }) t
      → s1 ≡ t
      → s2 ≡ record s1 { requests = s1.requests ++ new_request p e (data_for u.id) ∷ [] }
      → s3 ≡ record s2 { outbox = s3.outbox }
      → s4 ≡ record s3 { audit = s4.audit }
      → SameOthers s4 v
      → Created s
          (record v { locks = [] })
          (Body.money_request (to_money_request_dto p e (new_request p e (data_for u.id))))
  row-Created e s t s1 s2 s3 s4 v u cast found active apart positive c1 c2 c3 c4 c5 c6 =
      created e u cast found active (λ same. apart (sym same)) positive (ground arith)
        (ground arith)

  create_claimed-Created :
      (e : Env) (params : BeginParams) (b : BeginResult) (s t : Db) (body : Body) (v : Db)
      → begin p e params (record s { locks = [] }) ≡ (ok b, t)
      → create_claimed p e command b t ≡ (ok body, v)
      → Created s (record v { locks = [] }) body
  unfolding create_claimed
  create_claimed-Created e params (replayed status body') s t body v begun h =
      let kept = (begin-Stored p e params _ status body' t begun).kept in
      repeated_create body (ground arith)
  create_claimed-Created e params (claimed id) s t body v begun h =
      >>=-elim _ _ t h λ payer s1 h1 r1. >>=-elim _ _ s1 r1 λ r s2 h2 r2.
        >>=-elim _ _ s2 r2 λ u3 s3 h3 r3. >>=-elim _ _ s3 r3 λ u4 s4 h4 r4.
          >>=-elim _ _ s4 r4 λ u5 s5 h5 r5.
            let before = begin-SameOthers p e params (record s { locks = [] }) begun in
            let (found_in, payer_row) = find_payer-inv e t payer s1 h1 in
            let (u, own, cast, found, active) = payer_row in
            let (is, added, apart, positive) = create_row-inv e (data_for payer) s1 r s2 h2 in
            let evented = insert_event-inv e _ _ s2 u3 s3 h3 in
            let audited = record_audit-inv e _ _ s3 u4 s4 h4 in
            let after = complete-SameOthers _ s4 h5 in
            let users : s.users ≡ t.users = ground arith in
            let end : s5 ≡ v = ground arith in
            let shown : Body.money_request (to_money_request_dto p e r) ≡ body = ground arith in
            rw (← end, ← shown, is, ← own)
              (row-Created e s t s1 s2 s3 s4 s5 u (rw (← own) at cast)
                (rw users (rw (← own) at found)) active (λ same. apart (same ∙ own)) positive before
                found_in (rw (← own) at added) (ground arith) (ground arith) after)

  run_create-Created :
      (e : Env) (s : Db) (body : Body) (v : Db)
      → run_create p e command (record s { locks = [] }) ≡ (ok body, v)
      → Created s (record v { locks = [] }) body
  unfolding run_create
  run_create-Created e s body v h =
      >>=-elim _ _ (record s { locks = [] }) h
        λ b t begun rest. create_claimed-Created e _ b s t body v begun rest

  -- Create: a call that returns has changed no table, or it has added
  -- one pending request, of a positive amount, from the actor to an active user who is not the
  -- actor, after all others, and has touched no user, wallet, transfer or ledger entry.
  pub create-Created :
      (a : Attempt) (s : Db) (body : Body) (s' : Db)
      → create p a command s ≡ (ok body, s')
      → Created s s' body
  unfolding create
  create-Created a s body s' h = >>=-elim _ _ s h λ u1 s1 h1 r1. >>=-elim _ _ s1 r1 λ u2 s2 h2 r2.
      let e1 = throw_if-inv _ _ s h1 in
      let e2 = throw_if-inv _ _ s1 h2 in
      let start : s2 ≡ s = ground arith in
      let (v, ran, end) =
        in_transaction-ok p a (λ e. run_create p e command) s body s' (rw start at r2) in
      rw end (run_create-Created a.env s body v ran)

  -- A create that throws changes no table.
  pub create_atomic :
      (a : Attempt) (s : Db) (f : Failure) (s' : Db)
      → create p a command s ≡ (err f, s')
      → OnlyLocked s s'
  unfolding create ◌>>=◌
  create_atomic a s f s' h =
      let back = in_transaction-err p a (λ e. run_create p e command) s f s' in ground arith
