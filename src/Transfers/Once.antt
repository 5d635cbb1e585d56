-- ===== src/Transfers/Once.antt =====
-- What `createDirectTransfer` does with a key that an earlier request has used.
use pstu_final.Base.{
  List, ℕ, String, ◌≡◌, ◌≢◌, refl, ap, sym, ◌∙◌, false, some, none, [], ◌∷◌, ◌++◌, arith,
  find_where, str_eq,
}
use pstu_final.Store.Failure.{app, ErrorCode, is_retryable_transaction_error}
use pstu_final.Store.Rows.{TransferSource, IdempotencyState}
use pstu_final.Store.Dto.{Body, IdempotencyRecord}
use pstu_final.Store.Tx.{Db, ok, err, transaction, idempotency_row, ◌>>=◌}
use pstu_final.Platform.{Platform, Env}
use pstu_final.Idempotency.{same_key}
use pstu_final.Idempotency.Replay.{begin_replays, begin_refuses}
use pstu_final.Idempotency.Claims.{begin-Claim, complete-Completed}
use pstu_final.Idempotency.Stored.{begin-Stored}
use pstu_final.Idempotency.RequestHash.{hash_request_payload}
use pstu_final.Transfers.Service.{
  CreateDirectTransferCommand, Attempt, attempt_loop, create_direct_transfer, run_transfer,
  run_attempt, run_claimed, canonical_payload, give_up,
}
use pstu_final.Transfers.Payload.{payload_text, SamePayload, payload_text-SamePayload}
use pstu_final.Transfers.Settled.{settle-Settled}
use pstu_final.Transfers.Outcome.{
  OnlyAudited, begin_params, direct_input, Ran, replays, moves, Served, served,
  create_direct_transfer-Served, give_up-inv,
}

module _ (p : Platform) (command : CreateDirectTransferCommand) where
  abbrev pub payload_hash : String
  payload_hash = hash_request_payload p (canonical_payload command)

  -- The record of the command's key, completed for its payload with this response.
  pub record Answered (body : Body) (rs : List IdempotencyRecord) : Type 0 where
    pub row : IdempotencyRecord
    pub found : find_where (same_key (begin_params command)) rs ≡ some row
    pub state : row.state ≡ IdempotencyState.completed
    pub row_hash : row.request_hash ≡ payload_hash
    pub row_body : row.response_body ≡ body

  Ran-Answered :
      (e : Env) (s t : Db) (body : Body) → Ran p e command s t body → Answered body t.records
  Ran-Answered e s t _ (replays status body begun) =
      let x = begin-Stored p e (begin_params command) s status body t begun in
      let kept = x.kept in
      record {
        row = x.row;
        found = let f = x.found in ground arith;
        state = x.state;
        row_hash = x.row_hash;
        row_body = x.body_stored;
      }
  Ran-Answered e s t _ (moves id u v dto begun moved completed) =
      let c = begin-Claim p e (begin_params command) s id begun in
      let same =
        (settle-Settled p e (direct_input command) TransferSource.direct u moved).records in
      let x =
        complete-Completed (begin_params command) payload_hash _ v
          (record {
            row = c.row;
            found = rw same c.found;
            row_id = c.row_id;
            row_hash = c.row_hash;
          })
          completed in
      record {
        row = x.row;
        found = x.found;
        state = x.state;
        row_hash = x.row_hash;
        row_body = x.body;
      }

  module _ (attempts : ℕ → Attempt) where
    answered :
        (s s' : Db) (body : Body)
        → Served p attempts command s s' body
        → Answered body s'.records × (s' ≡ record s' { locks = [] })
    answered s s' body (served n t low high ran end) =
        let x = Ran-Answered (attempts n).env (record s { locks = [] }) t body ran in
        (rw end x, ground arith)

    run_replays :
        (e : Env) (s : Db) (body : Body) (x : Answered body s.records)
        → run_transfer p e command s
          ≡ (ok body, record s { locks = s.locks ++ idempotency_row x.row.id ∷ [] })
    unfolding run_transfer run_claimed ◌>>=◌
    run_replays e s body x =
        let begun = begin_replays p e (begin_params command) s x.row x.found x.state x.row_hash in
        let stored = x.row_body in ground arith

    run_refuses :
        (e : Env) (s : Db) (row : IdempotencyRecord)
        → find_where (same_key (begin_params command)) s.records ≡ some row
        → str_eq row.request_hash payload_hash ≡ false
        → run_transfer p e command s ≡ (
          err (app 409 ErrorCode.idempotency_key_reused),
          record s { locks = s.locks ++ idempotency_row row.id ∷ [] },
        )
    unfolding run_transfer run_claimed ◌>>=◌
    run_refuses e s row found other =
        let begun = begin_refuses p e (begin_params command) s row found other in ground arith

    -- A request whose key has been answered for its payload, and whose first attempt the database
    -- does not end, returns the stored response and changes no table.
    pub create_direct_transfer_replays :
        (s : Db) (body : Body)
        → Answered body s.records
        → (attempts 1).abort ≡ none
        → create_direct_transfer p attempts command s ≡ (ok body, record s { locks = [] })
    unfolding create_direct_transfer attempt_loop run_attempt transaction
    create_direct_transfer_replays s body x live =
        let ran = run_replays (attempts 1).env (record s { locks = [] }) body x in ground arith

    refuses_stored :
        (s : Db) (row : IdempotencyRecord)
        → find_where (same_key (begin_params command)) s.records ≡ some row
        → str_eq row.request_hash payload_hash ≡ false
        → (attempts 1).abort ≡ none
        → (s' : Db) × (create_direct_transfer p attempts command s
            ≡ (err (app 409 ErrorCode.idempotency_key_reused), s'))
          × OnlyAudited s s'
    unfolding create_direct_transfer attempt_loop run_attempt transaction
        is_retryable_transaction_error give_up
    refuses_stored s row found other live =
        let ran = run_refuses (attempts 1).env (record s { locks = [] }) row found other in
        let end =
          give_up p (attempts 1).env command (app 409 ErrorCode.idempotency_key_reused)
            (record s { locks = [] }) in
        let inv =
          give_up-inv p attempts command (attempts 1).env (app 409 ErrorCode.idempotency_key_reused)
            (record s { locks = [] }) end.0 end.1 refl in
        (end.1, ground arith, ground arith)

  -- A request that has returned can be made again: the second time, with any clocks and draws and
  -- unless the database ends its first attempt, it returns the same body and leaves the database as
  -- the first left it.
  pub create_direct_transfer_once :
      (first second : ℕ → Attempt) (s : Db) (body : Body) (s' : Db)
      → create_direct_transfer p first command s ≡ (ok body, s')
      → (second 1).abort ≡ none
      → create_direct_transfer p second command s' ≡ (ok body, s')
  create_direct_transfer_once first second s body s' h live =
      let (x, unlocked) =
        answered first s s' body (create_direct_transfer-Served p first command s body s' h) in
      let again = create_direct_transfer_replays second s' body x live in
      cc (again ∙ ap (λ (u : Db). (ok body, u)) (sym unlocked))

module _ (p : Platform) (command other : CreateDirectTransferCommand) where
  -- The digests of two different canonical texts differ, where these are the texts of the commands.
  abbrev pub TellsApart : Type 0
  TellsApart =
      payload_text p command ≢ payload_text p other
      → str_eq (p.sha256 (payload_text p command)) (p.sha256 (payload_text p other)) ≡ false

  other_hash :
      TellsApart
      → (SamePayload command other → ⊥)
      → str_eq (payload_hash p command) (payload_hash p other) ≡ false
  unfolding hash_request_payload
  other_hash apart differ = apart (λ same. differ (payload_text-SamePayload p command other same))

  -- When a request has returned, another one of the same user under the same key that differs from
  -- it in the receiver, the amount, the currency or the note is refused with IDEMPOTENCY_KEY_REUSED
  -- and changes no table but the audit log, if SHA-256 tells the two canonical texts apart and the
  -- database does not end the first attempt.
  pub create_direct_transfer_refuses :
      (first second : ℕ → Attempt) (s : Db) (body : Body) (s' : Db)
      → create_direct_transfer p first command s ≡ (ok body, s')
      → other.actor_user_id ≡ command.actor_user_id
      → other.idempotency_key ≡ command.idempotency_key
      → (SamePayload command other → ⊥)
      → TellsApart
      → (second 1).abort ≡ none
      → (t : Db) × (create_direct_transfer p second other s'
          ≡ (err (app 409 ErrorCode.idempotency_key_reused), t))
        × OnlyAudited s' t
  create_direct_transfer_refuses first second s body s' h actor key differ apart live =
      let (x, unlocked) =
        answered p command first s s' body
          (create_direct_transfer-Served p first command s body s' h) in
      let found : find_where (same_key (begin_params other)) s'.records ≡ some x.row =
        ap
          (λ (a : ℕ).
            find_where
              (same_key (record (begin_params command) {
                actor_user_id = a;
                idempotency_key = other.idempotency_key;
              }))
              s'.records)
          actor
        ∙ ap
            (λ (k : String).
              find_where (same_key (record (begin_params command) { idempotency_key = k }))
                s'.records)
            key
        ∙ x.found in
      let hash =
        ap (λ (d : String). str_eq d (payload_hash p other)) x.row_hash ∙ other_hash apart differ in
      refuses_stored p other second s' x.row found hash live
