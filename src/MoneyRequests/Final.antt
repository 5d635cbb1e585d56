-- ===== src/MoneyRequests/Final.antt =====
-- Money requests: what a call that throws leaves behind, and what becomes of a resolved request.
use pstu_final.MoneyRequests.Transitions.{request_of}
use pstu_final.Base.{ℕ, zero, suc, ◌≡◌, ◌≢◌, ap, ◌∙◌, inl, inr, some, arith}
use pstu_final.Store.Failure.{Failure}
use pstu_final.Store.Rows.{MoneyRequest, MoneyRequestStatus}
use pstu_final.Store.Dto.{Body}
use pstu_final.Store.Tx.{Db, Result, ok, err, ◌>>=◌}
use pstu_final.Platform.{Platform}
use pstu_final.Transfers.Service.{Attempt}
use pstu_final.Transfers.Outcome.{result-cases}
use pstu_final.Transfers.Wallets.{HasUniqueIds}
use pstu_final.MoneyRequests.Repository.{ParticipantRole, Target}
use pstu_final.MoneyRequests.Rules.{ResolveMoneyRequestCommand, role_of, assert_request_id}
use pstu_final.MoneyRequests.Service.{
  in_transaction, run_resolve, run_accept, resolve_pending, accept, accept_loop,
}
use pstu_final.MoneyRequests.Lifecycle.{Transition}
use pstu_final.MoneyRequests.Handlers.{
  OnlyLocked, in_transaction-err, Resolved, repeated, closed, resolve_pending-Resolved,
}
use pstu_final.MoneyRequests.Accepting.{AcceptedBy, repeated_accept, accepted, accept-AcceptedBy}

module _ (p : Platform) where
  module _ (command : ResolveMoneyRequestCommand) where
    module _ (attempts : ℕ → Attempt) where
      accept_loop-err :
          (left n : ℕ) (s : Db) (f : Failure) (s' : Db)
          → accept_loop p attempts command left n s ≡ (err f, s')
          → OnlyLocked s s'
      unfolding accept_loop
      accept_loop-err zero n s f s' h =
          let back = in_transaction-err p (attempts n) (λ e. run_accept p e command) s f s' h in
          ground arith
      accept_loop-err (suc left) n s f s' h =
          elim (result-cases (in_transaction p (attempts n) (λ e. run_accept p e command) s)) [
            | inl (b, t, e) ↦ ground arith
            | inr (g, t, e) ↦
                let back =
                  in_transaction-err p (attempts n) (λ e. run_accept p e command) s g t e in
                let later = accept_loop-err left (suc n) t f s' in ground arith
          ]

      -- An accept that throws changes no table.
      pub accept_atomic :
          (s : Db) (f : Failure) (s' : Db)
          → accept p attempts command s ≡ (err f, s')
          → OnlyLocked s s'
      unfolding accept assert_request_id ◌>>=◌
      accept_atomic s f s' h = let later = accept_loop-err 2 1 s f s' in ground arith

    -- A decline or a cancel that throws changes no table.
    pub resolve_pending_atomic :
        (a : Attempt) (target : Target) (s : Db) (f : Failure) (s' : Db)
        → resolve_pending p a command target s ≡ (err f, s')
        → OnlyLocked s s'
    unfolding resolve_pending assert_request_id ◌>>=◌
    resolve_pending_atomic a target s f s' h =
        let back = in_transaction-err p a (λ e. run_resolve p e command target) s f s' in
        ground arith

    Transition-final :
        (actor : ℕ) (role : ParticipantRole) (r r' x : MoneyRequest) (s s' : Db)
        → Transition actor role r r' s s'
        → request_of x.id s ≡ some x
        → x.status ≢ MoneyRequestStatus.pending
        → request_of x.id s' ≡ some x
    Transition-final actor role r r' x s s' m found resolved =
        let clash : x.id ≢ r.id = λ same.
          let e = ap (λ (k : ℕ). request_of k s) same in
          let before = m.before in
          let row : x ≡ r = ground arith in
          resolved (ap (λ (y : MoneyRequest). y.status) row ∙ m.pending) in
        m.others x.id clash ∙ found

    Resolved-final :
        (target : Target) (s s' : Db) (body : Body) (x : MoneyRequest)
        → Resolved p command target s s' body
        → request_of x.id s ≡ some x
        → x.status ≢ MoneyRequestStatus.pending
        → request_of x.id s' ≡ some x
    Resolved-final target s s' body x (repeated _ kept) found resolved = ground arith
    Resolved-final target s s' _ x (closed e r r' named m result tables) found resolved =
        Transition-final command.actor_user_id (role_of target) r r' x s s' m found resolved

    AcceptedBy-final :
        (s s' : Db) (body : Body) (x : MoneyRequest)
        → AcceptedBy p command s s' body
        → request_of x.id s ≡ some x
        → x.status ≢ MoneyRequestStatus.pending
        → request_of x.id s' ≡ some x
    AcceptedBy-final s s' body x (repeated_accept _ kept) found resolved = ground arith
    AcceptedBy-final s s' _ x (accepted e r r' dto named m in_time result moved recorded) found
          resolved =
        Transition-final command.actor_user_id ParticipantRole.payer r r' x s s' m found resolved

    -- A request that is not pending stays as it is, whatever a decline or a cancel of any request
    -- returns or throws.
    pub resolve_pending_final :
        (a : Attempt) (target : Target) (s : Db) (result : Result Body) (s' : Db) (x : MoneyRequest)
        → resolve_pending p a command target s ≡ (result, s')
        → request_of x.id s ≡ some x
        → x.status ≢ MoneyRequestStatus.pending
        → request_of x.id s' ≡ some x
    resolve_pending_final a target s (ok body) s' x h found resolved =
        Resolved-final target s s' body x (resolve_pending-Resolved p command a target s body s' h)
          found resolved
    resolve_pending_final a target s (err f) s' x h found resolved =
        let kept = resolve_pending_atomic a target s f s' h in ground arith

    -- A request that is not pending stays as it is, whatever an accept of any request returns or
    -- throws, on wallets with distinct ids.
    pub accept_final :
        (attempts : ℕ → Attempt) (s : Db) (result : Result Body) (s' : Db) (x : MoneyRequest)
        → HasUniqueIds s.wallets
        → accept p attempts command s ≡ (result, s')
        → request_of x.id s ≡ some x
        → x.status ≢ MoneyRequestStatus.pending
        → request_of x.id s' ≡ some x
    accept_final attempts s (ok body) s' x unique h found resolved =
        AcceptedBy-final s s' body x (accept-AcceptedBy p command attempts s body s' unique h) found
          resolved
    accept_final attempts s (err f) s' x unique h found resolved =
        let kept = accept_atomic attempts s f s' h in ground arith
