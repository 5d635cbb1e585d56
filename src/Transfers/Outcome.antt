-- ===== src/Transfers/Outcome.antt =====
-- The runs of `createDirectTransfer`: the retry loop, the rollback and the two ways to return.
use pstu_final.Base.{
  ℕ, zero, suc, ◌+◌, ◌≤◌, Option-cases, ◌≡◌, refl, ap, sym, ◌∙◌, ◌⊎◌, inl, inr, none, [], arith,
}
use pstu_final.Store.Failure.{Failure}
use pstu_final.Store.Rows.{TransferSource}
use pstu_final.Store.Dto.{Body, TransferDto}
use pstu_final.Store.Tx.{Db, Tx, Result, ok, err, transaction, rolled_back, ◌>>=◌}
use pstu_final.Store.Run.{>>=-elim}
use pstu_final.Platform.{Platform, Env}
use pstu_final.Idempotency.{BeginParams, BeginResult, claimed, replayed, begin, complete}
use pstu_final.Audit.{record_detached, record_audit}
use pstu_final.Transfers.Settle.{SettleInput, settle}
use pstu_final.Transfers.Service.{
  CreateDirectTransferCommand, Attempt, run_attempt, attempt_loop, create_direct_transfer, give_up,
  run_transfer, max_transfer_attempts, run_claimed, settle_direct, canonical_payload, route_key,
}

-- `s'` differs from `s` in the audit log and the locks alone.
abbrev pub OnlyAudited : Db → Db → Type 0
OnlyAudited s s' = s' ≡ record s { audit = s'.audit; locks = s'.locks }

pub result-cases :
    {A : Type 0} (x : Result A × Db)
    → ((a : A) × (t : Db) × (x ≡ (ok a, t))) ⊎ ((f : Failure) × (t : Db) × (x ≡ (err f, t)))
result-cases (ok a, t) = inl (a, t, refl)
result-cases (err f, t) = inr (f, t, refl)

pub transaction-inv :
    {A : Type 0} (m : Tx A) (s : Db) {a : A} {s' : Db}
    → transaction m s ≡ (ok a, s')
    → (t : Db) × (m (record s { locks = [] }) ≡ (ok a, t)) × (s' ≡ record t { locks = [] })
unfolding transaction
transaction-inv m s {a} h = elim (result-cases (m (record s { locks = [] }))) [
  | inl (b, t, e) ↦ let same : b ≡ a = ground arith in (t, rw (← same) e, ground arith)
  | inr (f, t, e) ↦ ground arith
]

transaction-unlocked :
    {A : Type 0} (m : Tx A) (s : Db) → transaction m (record s { locks = [] }) ≡ transaction m s
unfolding transaction
transaction-unlocked m s = refl

abbrev pub begin_params : CreateDirectTransferCommand → BeginParams
begin_params command = record {
  actor_user_id = command.actor_user_id;
  route_key = route_key;
  idempotency_key = command.idempotency_key;
  payload = canonical_payload command;
}

abbrev pub direct_input : CreateDirectTransferCommand → SettleInput
direct_input command = record {
  sender_user_id = command.actor_user_id;
  receiver_user_id = command.receiver_user_id;
  amount_minor = command.amount_minor;
  currency = command.currency;
  note = command.note;
}

module _ (p : Platform) where
  -- The two ways in which `runTransfer` returns.
  pub data Ran (e : Env) (command : CreateDirectTransferCommand) (s : Db) (s' : Db)
      : Body → Type 0 where
    replays :
        (status : ℕ) (body : Body)
        → begin p e (begin_params command) s ≡ (ok (replayed status body), s')
        → Ran e command s s' body
    moves :
        (id : ℕ) (t u : Db) (dto : TransferDto)
        → begin p e (begin_params command) s ≡ (ok (claimed id), t)
        → settle p e (direct_input command) TransferSource.direct t ≡ (ok dto, u)
        → complete
            (record {
              record_id = id;
              response_status = 201;
              response_body = Body.transfer dto;
              resource_type = "transfer";
              resource_id = dto.transfer_id;
            })
            u
          ≡ (ok tt, s')
        → Ran e command s s' (Body.transfer dto)

  run_claimed-Ran :
      (e : Env) (command : CreateDirectTransferCommand) (b : BeginResult) (s t : Db) {body : Body}
      {s' : Db}
      → begin p e (begin_params command) s ≡ (ok b, t)
      → run_claimed p e command b t ≡ (ok body, s')
      → Ran e command s s' body
  unfolding run_claimed settle_direct
  run_claimed-Ran e command (replayed status body') s t {body} {s'} begun done =
      let same : body' ≡ body = ground arith in
      let kept : t ≡ s' = ground arith in rw (← same, ← kept) (replays status body' begun)
  run_claimed-Ran e command (claimed id) s t {body} {s'} begun done =
      >>=-elim _ _ t done λ dto u h1 r1. >>=-elim _ _ u r1 λ x v h2 r2.
        let same : Body.transfer dto ≡ body = ground arith in
        let kept : v ≡ s' = ground arith in rw (← same, ← kept) (moves id t u dto begun h1 h2)

  run_transfer-Ran :
      (e : Env) (command : CreateDirectTransferCommand) (s : Db) {body : Body} {s' : Db}
      → run_transfer p e command s ≡ (ok body, s')
      → Ran e command s s' body
  unfolding run_transfer
  run_transfer-Ran e command s done =
      >>=-elim _ _ s done λ b t begun rest. run_claimed-Ran e command b s t begun rest

  module _ (attempts : ℕ → Attempt) (command : CreateDirectTransferCommand) where
    pub give_up-inv :
        (e : Env) (f : Failure) (s : Db) (r : Result Body) (s' : Db)
        → give_up p e command f s ≡ (r, s')
        → OnlyAudited s s' × (r ≡ err f)
    unfolding give_up record_detached record_audit ◌>>=◌
    give_up-inv e f s r s' h = ground arith

    run_attempt-err :
        (a : Attempt) (s : Db) (f : Failure) (s' : Db)
        → run_attempt p a command s ≡ (err f, s')
        → s' ≡ record s { locks = [] }
    unfolding run_attempt transaction rolled_back
    run_attempt-err a s f s' h = ground arith

    tries :
        (n : ℕ) (s : Db)
        → ((body : Body) × (t : Db) × (run_attempt p (attempts n) command s ≡ (ok body, t)))
          ⊎ ((f : Failure) × (t : Db) × (run_attempt p (attempts n) command s ≡ (err f, t)))
    tries n s = result-cases (run_attempt p (attempts n) command s)

    -- A loop that throws has written nothing but audit rows.
    pub attempt_loop-err :
        (left n : ℕ) (s : Db) (f : Failure) (s' : Db)
        → attempt_loop p attempts command left n s ≡ (err f, s')
        → OnlyAudited s s'
    unfolding attempt_loop
    attempt_loop-err zero n s f s' h = elim (tries n s) [
      | inl (body, t, e) ↦ ground arith
      | inr (g, t, e) ↦
          let back = run_attempt-err (attempts n) s g t e in
          let end = give_up-inv (attempts n).env g t (err f) s' in ground arith
    ]
    attempt_loop-err (suc left) n s f s' h = elim (tries n s) [
      | inl (body, t, e) ↦ ground arith
      | inr (g, t, e) ↦
          let back = run_attempt-err (attempts n) s g t e in
          let end = give_up-inv (attempts n).env g t (err f) s' in
          let later = attempt_loop-err left (suc n) t f s' in ground arith
    ]

    run_attempt-ok :
        (a : Attempt) (s : Db) {body : Body} {s' : Db}
        → run_attempt p a command s ≡ (ok body, s')
        → (a.abort ≡ none) × (transaction (run_transfer p a.env command) s ≡ (ok body, s'))
    unfolding run_attempt rolled_back
    run_attempt-ok a s h = elim (Option-cases a.abort) [
      | inl e ↦ (e, ground arith)
      | inr (f, e) ↦ ground arith
    ]

    pub record Returned (first last : ℕ) (s : Db) (body : Body) (s' : Db) : Type 0 where
      pub attempt : ℕ
      pub live : (attempts attempt).abort ≡ none
      pub low : first ≤ attempt
      pub high : attempt ≤ last
      pub ran : transaction (run_transfer p (attempts attempt).env command) s ≡ (ok body, s')

    earlier :
        (left n : ℕ) (s t : Db) (body : Body) (s' : Db)
        → t ≡ record s { locks = [] }
        → Returned (suc n) (suc n + left) t body s'
        → Returned n (n + suc left) s body s'
    earlier left n s t body s' back r =
        let m = run_transfer p (attempts r.attempt).env command in
        let l = r.low in
        let h = r.high in
        record {
          attempt = r.attempt;
          live = r.live;
          low = omega arith;
          high = omega arith;
          ran = sym (transaction-unlocked m s) ∙ ap (transaction m) (sym back) ∙ r.ran;
        }

    once :
        (left n : ℕ) (s : Db) (body : Body) (s' : Db)
        → run_attempt p (attempts n) command s ≡ (ok body, s')
        → Returned n (n + left) s body s'
    once left n s body s' h =
        let (live, ran) = run_attempt-ok (attempts n) s h in
        record { attempt = n; live = live; low = omega arith; high = omega arith; ran = ran }

    -- A loop that returns has run the transaction of one of its attempts on the first state.
    pub attempt_loop-ok :
        (left n : ℕ) (s : Db) (body : Body) (s' : Db)
        → attempt_loop p attempts command left n s ≡ (ok body, s')
        → Returned n (n + left) s body s'
    unfolding attempt_loop
    attempt_loop-ok zero n s body s' h = elim (tries n s) [
      | inl (b, t, e) ↦ once 0 n s body s' (ground arith)
      | inr (g, t, e) ↦ let no_end = give_up-inv (attempts n).env g t (ok body) s' in ground arith
    ]
    attempt_loop-ok (suc left) n s body s' h = elim (tries n s) [
      | inl (b, t, e) ↦ once (suc left) n s body s' (ground arith)
      | inr (g, t, e) ↦
          let back = run_attempt-err (attempts n) s g t e in
          let no_end = give_up-inv (attempts n).env g t (ok body) s' in
          earlier left n s t body s' back (attempt_loop-ok left (suc n) t body s' (ground arith))
    ]

    -- What a request that returns has done.
    pub data Served (s : Db) (s' : Db) (body : Body) : Type 0 where
      served :
          (n : ℕ) (t : Db)
          → 1 ≤ n
          → n ≤ max_transfer_attempts
          → Ran (attempts n).env command (record s { locks = [] }) t body
          → s' ≡ record t { locks = [] }
          → Served s s' body

    pub create_direct_transfer-Served :
        (s : Db) (body : Body) (s' : Db)
        → create_direct_transfer p attempts command s ≡ (ok body, s')
        → Served s s' body
    unfolding create_direct_transfer
    create_direct_transfer-Served s body s' h =
        let r = attempt_loop-ok 2 1 s body s' h in
        let (t, ran, end) =
          transaction-inv (run_transfer p (attempts r.attempt).env command) s r.ran in
        served r.attempt t r.low r.high
          (run_transfer-Ran (attempts r.attempt).env command (record s { locks = [] }) ran) end
