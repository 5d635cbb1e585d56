-- ===== src/MoneyRequests/Handlers.antt =====
-- What a decline or a cancel that returns has done.
use pstu_final.Base.{ℕ, ◌≡◌, inl, inr, Option-cases, some, [], arith}
use pstu_final.Store.Failure.{Failure}
use pstu_final.Store.Rows.{MoneyRequest}
use pstu_final.Store.Dto.{Body}
use pstu_final.Store.Tx.{Db, Tx, ok, err, transaction, rolled_back}
use pstu_final.Store.Run.{>>=-elim, throw_if-inv}
use pstu_final.Platform.{Platform, Env, Reading}
use pstu_final.Idempotency.{BeginParams, BeginResult, claimed, replayed, begin}
use pstu_final.Idempotency.Replay.{SameOthers, begin-SameOthers, complete-SameOthers}
use pstu_final.Idempotency.Stored.{begin-Stored}
use pstu_final.Transfers.Service.{Attempt}
use pstu_final.Transfers.Outcome.{transaction-inv}
use pstu_final.MoneyRequests.Repository.{
  ParticipantRole, Target, target_status, to_money_request_dto,
}
use pstu_final.MoneyRequests.Rules.{ResolveMoneyRequestCommand, role_of, assert_request_id}
use pstu_final.MoneyRequests.Service.{in_transaction, run_resolve, resolve_claimed, resolve_pending}
use pstu_final.MoneyRequests.Lifecycle.{Transition, close_request-Closed}

-- No table has changed.
abbrev pub OnlyLocked : Db → Db → Type 0
OnlyLocked s s' = s' ≡ record s { locks = s'.locks }

module _ (p : Platform) where
  pub in_transaction-err :
      (a : Attempt) (run : Env → Tx Body) (s : Db) (f : Failure) (s' : Db)
      → in_transaction p a run s ≡ (err f, s')
      → s' ≡ record s { locks = [] }
  unfolding in_transaction transaction rolled_back
  in_transaction-err a run s f s' h = ground arith

  pub in_transaction-ok :
      (a : Attempt) (run : Env → Tx Body) (s : Db) (body : Body) (s' : Db)
      → in_transaction p a run s ≡ (ok body, s')
      → (t : Db) × (run a.env (record s { locks = [] }) ≡ (ok body, t))
        × (s' ≡ record t { locks = [] })
  unfolding in_transaction rolled_back
  in_transaction-ok a run s body s' h = elim (Option-cases a.abort) [
    | inl e ↦ transaction-inv (run a.env) s (ground arith)
    | inr (f, e) ↦ ground arith
  ]

  module _ (command : ResolveMoneyRequestCommand) where
    pub data Resolved (target : Target) (s s' : Db) : Body → Type 0 where
      repeated : (body : Body) → OnlyLocked s s' → Resolved target s s' body
      closed :
          (e : Env) (r r' : MoneyRequest)
          → p.uuid_in command.request_id ≡ some r.id
          → Transition command.actor_user_id (role_of target) r r' s s'
          → r' ≡ record r {
            status = target_status target;
            resolved_at = some (e.clock Reading.request_resolution);
          }
          → s' ≡ record s {
            requests = s'.requests;
            records = s'.records;
            outbox = s'.outbox;
            audit = s'.audit;
            locks = s'.locks;
          }
          → Resolved target s s' (Body.money_request (to_money_request_dto p e r'))

    -- The records and the locks are no part of a transition.
    pub same_requests :
        {actor : ℕ} {role : ParticipantRole} {r r' : MoneyRequest} (s t u v : Db)
        → SameOthers (record s { locks = [] }) t
        → SameOthers u v
        → Transition actor role r r' t u
        → Transition actor role r r' s (record v { locks = [] })
    same_requests s t u v before after m =
        let start : s.requests ≡ t.requests = ground arith in
        let end : v.requests ≡ u.requests = ground arith in
        record {
          before = rw start m.before;
          pending = m.pending;
          role_played = m.role_played;
          after = rw end m.after;
          others = λ k apart. rw (start, end) (m.others k apart);
        }

    resolve_claimed-Resolved :
        (e : Env) (target : Target) (params : BeginParams) (b : BeginResult) (s t : Db)
        (body : Body) (v : Db)
        → begin p e params (record s { locks = [] }) ≡ (ok b, t)
        → resolve_claimed p e command target b t ≡ (ok body, v)
        → Resolved target s (record v { locks = [] }) body
    unfolding resolve_claimed
    resolve_claimed-Resolved e target params (replayed status body') s t body v begun h =
        let kept = (begin-Stored p e params _ status body' t begun).kept in
        repeated body (ground arith)
    resolve_claimed-Resolved e target params (claimed id) s t body v begun h =
        >>=-elim _ _ t h λ r' u h1 r1. >>=-elim _ _ u r1 λ x w h2 r2.
          let c = close_request-Closed p e command target t h1 in
          let before = begin-SameOthers p e params (record s { locks = [] }) begun in
          let after = complete-SameOthers _ u h2 in
          let tables = c.tables in
          let same : Body.money_request (to_money_request_dto p e r') ≡ body = ground arith in
          let end : w ≡ v = ground arith in
          rw (← same, ← end)
            (closed e c.request r' c.named (same_requests s t u w before after c.moved_on) c.result
              (ground arith))

    run_resolve-Resolved :
        (e : Env) (target : Target) (s : Db) (body : Body) (v : Db)
        → run_resolve p e command target (record s { locks = [] }) ≡ (ok body, v)
        → Resolved target s (record v { locks = [] }) body
    unfolding run_resolve
    run_resolve-Resolved e target s body v h =
        >>=-elim _ _ (record s { locks = [] }) h
          λ b t begun rest. resolve_claimed-Resolved e target _ b s t body v begun rest

    -- Decline and cancel: a call that returns has changed no table,
    -- or it has moved the request that it names, pending and one that the actor may so resolve, to
    -- the target, has left every other request as it was, and has touched no user, wallet,
    -- transfer or ledger entry.
    pub resolve_pending-Resolved :
        (a : Attempt) (target : Target) (s : Db) (body : Body) (s' : Db)
        → resolve_pending p a command target s ≡ (ok body, s')
        → Resolved target s s' body
    unfolding resolve_pending assert_request_id
    resolve_pending-Resolved a target s body s' h = >>=-elim _ _ s h λ u t h1 r1.
        let e1 = throw_if-inv _ _ s h1 in
        let (v, ran, end) =
          in_transaction-ok a (λ e. run_resolve p e command target) s body s' (rw e1.0 at r1) in
        rw end (run_resolve-Resolved a.env target s body v ran)
