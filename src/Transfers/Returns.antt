-- ===== src/Transfers/Returns.antt =====
-- When `createDirectTransfer` returns on its first attempt.
use pstu_final.Base.{
  ℕ, ◌≡◌, ◌≢◌, ap, true, false, none, [], ◌∷◌, ◌++◌, arith, any, any-append, ◌==◌, ==_refl, inl,
  inr,
}
use pstu_final.Base.Int.{◌+ℤ◌, ◌≤ℤ◌}
use pstu_final.Store.Failure.{Failure}
use pstu_final.Store.Rows.{TransferSource}
use pstu_final.Store.Dto.{Body, IdempotencyRecord}
use pstu_final.Store.Tx.{Db, ok, err, transaction}
use pstu_final.Store.Run.{>>=-throw}
use pstu_final.Platform.{Platform, Env, Draw}
use pstu_final.Idempotency.{claimed, same_key, new_record}
use pstu_final.Idempotency.Claims.{begin_new, complete-safe}
use pstu_final.Idempotency.RequestHash.{hash_request_payload}
use pstu_final.Transfers.Repository.{LockedWallet, bigint_max}
use pstu_final.Transfers.Service.{
  CreateDirectTransferCommand, Attempt, create_direct_transfer, attempt_loop, run_attempt,
  run_transfer, run_claimed, settle_direct,
}
use pstu_final.Transfers.Outcome.{begin_params, direct_input, result-cases}
use pstu_final.Transfers.Settled.{settle-Settled}
use pstu_final.Transfers.Wallets.{HasUniqueIds, AreInRange}
use pstu_final.Transfers.Movement.{DrawsFresh}
use pstu_final.Transfers.Notes.{NotesFresh}
use pstu_final.Transfers.Success.{
  MaySettle, MaySettle-frame, DrawsFresh-frame, NotesFresh-frame, settle-safe,
}

module _ (p : Platform) (command : CreateDirectTransferCommand) (x y : LockedWallet) where
  -- What a request needs of the database: the settlement's checks, new ids and an unused key.
  pub record MayPay (e : Env) (s : Db) : Type 0 where
    pub unique : HasUniqueIds s.wallets
    pub in_range : AreInRange s.wallets
    pub checks : MaySettle p e (direct_input command) x y s
    pub draws : DrawsFresh e s
    pub notes : NotesFresh e s
    pub users_apart : x.user_id ≢ y.user_id
    pub fits : y.balance_minor +ℤ command.amount_minor ≤ℤ bigint_max
    pub unused : any (same_key (begin_params command)) s.records ≡ false
    pub record_fresh :
        any (λ (r : IdempotencyRecord). r.id == e.uuid Draw.idempotency_record) s.records ≡ false

  claimed_there :
      (e : Env) (s : Db)
      → any
          (λ (r : IdempotencyRecord). r.id == e.uuid Draw.idempotency_record)
          (s.records
            ++ new_record p e
                (begin_params command)
                (hash_request_payload p (begin_params command).payload)
              ∷ [])
        ≡ true
  unfolding new_record
  claimed_there e s =
      let grown =
        any-append (λ (r : IdempotencyRecord). r.id == e.uuid Draw.idempotency_record) s.records
          (new_record p e (begin_params command)
              (hash_request_payload p (begin_params command).payload)
            ∷ []) in
      let own = ==_refl (e.uuid Draw.idempotency_record) in ground arith

  claimed-safe :
      (e : Env) (s t : Db) (g : Failure) (s' : Db)
      → MayPay e s
      → t ≡ record s {
        records =
            s.records
            ++ new_record p e
                (begin_params command)
                (hash_request_payload p (begin_params command).payload)
              ∷ [];
        locks = [];
      }
      → run_claimed p e command (claimed (e.uuid Draw.idempotency_record)) t ≡ (err g, s')
      → ⊥
  unfolding run_claimed settle_direct
  claimed-safe e s t g s' m at h =
      let same : t.wallets ≡ s.wallets = ground arith in
      >>=-throw _ _ t h
        (settle-safe p e (direct_input command) TransferSource.direct x y t g s' (rw same m.unique)
          (rw same m.in_range)
          (rw at (MaySettle-frame p e (direct_input command) x y s _ [] m.checks))
          (rw at
            (DrawsFresh-frame p e (direct_input command) TransferSource.direct x y s _ [] m.draws))
          (rw at
            (NotesFresh-frame p e (direct_input command) TransferSource.direct x y s _ [] m.notes))
          m.users_apart m.fits)
        λ dto u h1 r1.
          let kept =
            (settle-Settled p e (direct_input command) TransferSource.direct t h1).records in
          let rows = ap (λ (z : Db). z.records) at in
          >>=-throw _ _ u r1 (complete-safe _ u g s' (rw (kept, rows) (claimed_there e s)))
            λ d v h2 r2. ground arith

  run_transfer-safe :
      (e : Env) (s : Db) (g : Failure) (s' : Db)
      → MayPay e s
      → run_transfer p e command (record s { locks = [] }) ≡ (err g, s')
      → ⊥
  unfolding run_transfer run_claimed settle_direct
  run_transfer-safe e s g s' m h =
      let started =
        begin_new p e (begin_params command) (record s { locks = [] }) m.unused m.record_fresh in
      >>=-throw _ _ (record s { locks = [] }) h (λ e1. ground arith)
        λ b t h1 r1.
          let is : b ≡ claimed (e.uuid Draw.idempotency_record) = ground arith in
          let at : t ≡ record s {
            records =
                s.records
                ++ new_record p e (begin_params command)
                    (hash_request_payload p (begin_params command).payload)
                  ∷ [];
            locks = [];
          } =
            ground arith in
          claimed-safe e s t g s' m at (rw is at r1)

  -- A request under a new key returns where the checks of the settlement hold, the wallets have
  -- distinct ids and balances in range, the two users differ, the ids that it draws are new, the
  -- receiver's balance stays within a BIGINT and the database does not end its first attempt.
  pub create_direct_transfer_returns :
      (attempts : ℕ → Attempt) (s : Db)
      → (attempts 1).abort ≡ none
      → MayPay (attempts 1).env s
      → (body : Body) × (s' : Db) × (create_direct_transfer p attempts command s ≡ (ok body, s'))
  unfolding create_direct_transfer attempt_loop run_attempt transaction
  create_direct_transfer_returns attempts s live m =
      elim (result-cases (run_transfer p (attempts 1).env command (record s { locks = [] }))) [
        | inl (body, t, e) ↦ (body, record t { locks = [] }, ground arith)
        | inr (g, t, e) ↦ absurd (run_transfer-safe (attempts 1).env s g t m e)
      ]
