-- ===== src/MoneyRequests/Accepting.antt =====
-- What an accept that returns has done.
use pstu_final.Transfers.Settled.{Recorded, Recorded-frame, settle-Recorded}
use pstu_final.Base.{ℕ, zero, suc, ◌≡◌, refl, inl, inr, false, some, [], arith}
use pstu_final.Store.Rows.{MoneyRequest, MoneyRequestStatus, TransferSource}
use pstu_final.Store.Dto.{Body, TransferDto}
use pstu_final.Store.Tx.{Db, ok}
use pstu_final.Store.Run.{>>=-elim, throw_if-inv}
use pstu_final.Platform.{Platform, Env, Reading}
use pstu_final.Idempotency.{BeginParams, BeginResult, claimed, replayed, begin}
use pstu_final.Idempotency.Replay.{SameOthers, begin-SameOthers, complete-SameOthers}
use pstu_final.Idempotency.Stored.{begin-Stored}
use pstu_final.Transfers.Service.{Attempt}
use pstu_final.Transfers.Outcome.{result-cases}
use pstu_final.Transfers.Wallets.{HasUniqueIds}
use pstu_final.Transfers.Money.{Moved-frame, Moved, settle_moves}
use pstu_final.MoneyRequests.Repository.{ParticipantRole, has_elapsed, to_money_request_dto}
use pstu_final.MoneyRequests.Rules.{ResolveMoneyRequestCommand, assert_request_id}
use pstu_final.MoneyRequests.Service.{
  in_transaction, run_accept, accept_claimed, accept, accept_loop,
}
use pstu_final.MoneyRequests.Lifecycle.{
  Transition, Accepted, settle_request-Accepted, request_input,
}
use pstu_final.MoneyRequests.Handlers.{
  OnlyLocked, in_transaction-err, in_transaction-ok, same_requests,
}

module _ (p : Platform) where
  module _ (command : ResolveMoneyRequestCommand) where
    pub data AcceptedBy (s s' : Db) : Body → Type 0 where
      repeated_accept : (body : Body) → OnlyLocked s s' → AcceptedBy s s' body
      accepted :
          (e : Env) (r r' : MoneyRequest) (dto : TransferDto)
          → p.uuid_in command.request_id ≡ some r.id
          → Transition command.actor_user_id ParticipantRole.payer r r' s s'
          → has_elapsed r.expires_at (e.clock Reading.request_expiry) ≡ false
          → r' ≡ record r {
            status = MoneyRequestStatus.accepted;
            accepted_transfer_id = some dto.transfer_id;
            resolved_at = some (e.clock Reading.request_resolution);
          }
          → Moved p e (request_input p e command r) (TransferSource.money_request r.id) s s'
          → Recorded p e (request_input p e command r) (TransferSource.money_request r.id) s dto s'
          → AcceptedBy s s' (Body.money_request (to_money_request_dto p e r'))

    parts-AcceptedBy :
        (e : Env) (s t u v : Db) (r' : MoneyRequest)
        → HasUniqueIds s.wallets
        → SameOthers (record s { locks = [] }) t
        → Accepted p e command t r' u
        → SameOthers u v
        → AcceptedBy s (record v { locks = [] }) (Body.money_request (to_money_request_dto p e r'))
    parts-AcceptedBy e s t u v r' unique before c after =
        let lock = c.lock in
        let tables = c.tables in
        let same_wallets : s.wallets ≡ c.locked.wallets = ground arith in
        accepted e c.request r' c.transfer c.named
          (same_requests p command s t u v before after c.moved_on) c.in_time c.result
          (Moved-frame p e (request_input p e command c.request)
            (TransferSource.money_request c.request.id) s c.locked c.settled
            (record v { locks = [] }) same_wallets (ground arith) (ground arith) (ground arith)
            (settle_moves p e (request_input p e command c.request)
              (TransferSource.money_request c.request.id) c.locked c.transfer c.settled
              (rw same_wallets at unique) c.settlement))
          (Recorded-frame p e (request_input p e command c.request)
            (TransferSource.money_request c.request.id) s c.locked c.settled
            (record v { locks = [] }) c.transfer (ground arith) (ground arith)
            (settle-Recorded p e (request_input p e command c.request)
              (TransferSource.money_request c.request.id) c.locked c.transfer c.settled
              c.settlement))

    accept_claimed-AcceptedBy :
        (e : Env) (params : BeginParams) (b : BeginResult) (s t : Db) (body : Body) (v : Db)
        → HasUniqueIds s.wallets
        → begin p e params (record s { locks = [] }) ≡ (ok b, t)
        → accept_claimed p e command b t ≡ (ok body, v)
        → AcceptedBy s (record v { locks = [] }) body
    unfolding accept_claimed
    accept_claimed-AcceptedBy e params (replayed status body') s t body v unique begun h =
        let kept = (begin-Stored p e params _ status body' t begun).kept in
        repeated_accept body (ground arith)
    accept_claimed-AcceptedBy e params (claimed id) s t body v unique begun h =
        >>=-elim _ _ t h λ r' u h1 r1. >>=-elim _ _ u r1 λ x w h2 r2.
          let c = settle_request-Accepted p e command t h1 in
          let before = begin-SameOthers p e params (record s { locks = [] }) begun in
          let after = complete-SameOthers _ u h2 in
          let same : Body.money_request (to_money_request_dto p e r') ≡ body = ground arith in
          let end : w ≡ v = ground arith in
          rw (← same, ← end) (parts-AcceptedBy e s t u w r' unique before c after)

    run_accept-AcceptedBy :
        (e : Env) (s : Db) (body : Body) (v : Db)
        → HasUniqueIds s.wallets
        → run_accept p e command (record s { locks = [] }) ≡ (ok body, v)
        → AcceptedBy s (record v { locks = [] }) body
    unfolding run_accept
    run_accept-AcceptedBy e s body v unique h =
        >>=-elim _ _ (record s { locks = [] }) h
          λ b t begun rest. accept_claimed-AcceptedBy e _ b s t body v unique begun rest

    attempt-AcceptedBy :
        (a : Attempt) (s : Db) (body : Body) (s' : Db)
        → HasUniqueIds s.wallets
        → in_transaction p a (λ e. run_accept p e command) s ≡ (ok body, s')
        → AcceptedBy s s' body
    attempt-AcceptedBy a s body s' unique h =
        let (v, ran, end) = in_transaction-ok p a (λ e. run_accept p e command) s body s' h in
        rw end (run_accept-AcceptedBy a.env s body v unique ran)

    module _ (attempts : ℕ → Attempt) where
      unlocked_first :
          (s t : Db) (body : Body) (s' : Db)
          → t ≡ record s { locks = [] }
          → AcceptedBy t s' body
          → AcceptedBy s s' body
      unlocked_first s t body s' same (repeated_accept _ kept) = repeated_accept body (ground arith)
      unlocked_first s t _ s' same
            (accepted e r r' dto named moved_on in_time result moved recorded) =
          let start : s.requests ≡ t.requests = ground arith in
          accepted e r r' dto named
            (record {
              before = rw start moved_on.before;
              pending = moved_on.pending;
              role_played = moved_on.role_played;
              after = moved_on.after;
              others = λ k apart. rw start (moved_on.others k apart);
            })
            in_time result
            (Moved-frame p e (request_input p e command r) (TransferSource.money_request r.id) s t
              s' s' (ground arith) (ground arith) refl refl moved)
            (Recorded-frame p e (request_input p e command r) (TransferSource.money_request r.id) s
              t s' s' dto (ground arith) refl recorded)

      accept_loop-AcceptedBy :
          (left n : ℕ) (s : Db) (body : Body) (s' : Db)
          → HasUniqueIds s.wallets
          → accept_loop p attempts command left n s ≡ (ok body, s')
          → AcceptedBy s s' body
      unfolding accept_loop
      accept_loop-AcceptedBy zero n s body s' unique h =
          attempt-AcceptedBy (attempts n) s body s' unique h
      accept_loop-AcceptedBy (suc left) n s body s' unique h =
          elim (result-cases (in_transaction p (attempts n) (λ e. run_accept p e command) s)) [
            | inl (b, t, e) ↦ attempt-AcceptedBy (attempts n) s body s' unique (ground arith)
            | inr (f, t, e) ↦
                let back =
                  in_transaction-err p (attempts n) (λ e. run_accept p e command) s f t e in
                let same : s.wallets ≡ t.wallets = ground arith in
                unlocked_first s t body s' back
                  (accept_loop-AcceptedBy left (suc n) t body s' (rw same at unique) (ground arith))
          ]

      pub accept-AcceptedBy :
          (s : Db) (body : Body) (s' : Db)
          → HasUniqueIds s.wallets
          → accept p attempts command s ≡ (ok body, s')
          → AcceptedBy s s' body
      unfolding accept assert_request_id
      accept-AcceptedBy s body s' unique h = >>=-elim _ _ s h λ u t h1 r1.
          let e1 = throw_if-inv _ _ s h1 in
          accept_loop-AcceptedBy 2 1 s body s' unique (rw e1.0 at r1)
