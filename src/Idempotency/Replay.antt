-- ===== src/Idempotency/Replay.antt =====
-- What `begin` returns for a key that is new, completed, or in use, and what it leaves alone.
use pstu_final.Base.{
  ℕ, zero, suc, String, ◌≡◌, refl, false, some, [], ◌∷◌, ◌++◌, arith, str_eq, eq_refl,
  any-of-find_where, find_where,
}
use pstu_final.Store.Failure.{app, ErrorCode}
use pstu_final.Store.Rows.{IdempotencyState}
use pstu_final.Store.Dto.{IdempotencyRecord}
use pstu_final.Store.Tx.{Db, ok, err, idempotency_row, ◌>>=◌}
use pstu_final.Platform.{Platform, Env}
use pstu_final.Idempotency.{
  BeginParams, CompleteParams, BeginResult, replayed, same_key, status_or_ok, begin, begin_rounds,
  complete, try_claim, after_claim, lock_existing, resolve, update_record, reclaim,
}
use pstu_final.Idempotency.RequestHash.{hash_request_payload}

-- `s'` differs from `s` in the idempotency records and the locks alone.
abbrev pub SameOthers : Db → Db → Type 0
SameOthers s s' = s' ≡ record s { records = s'.records; locks = s'.locks }

update_record-SameOthers :
    (id : ℕ) (change : IdempotencyRecord → IdempotencyRecord) (s : Db) {u : Unit {0}} {s' : Db}
    → update_record id change s ≡ (ok u, s')
    → SameOthers s s'
unfolding update_record ◌>>=◌
update_record-SameOthers id change s h = ground arith

pub complete-SameOthers :
    (params : CompleteParams) (s : Db) {u : Unit {0}} {s' : Db}
    → complete params s ≡ (ok u, s')
    → SameOthers s s'
unfolding complete
complete-SameOthers params s h = update_record-SameOthers params.record_id _ s h

module _ (p : Platform) (e : Env) where
  begin_rounds-SameOthers :
      (n : ℕ) (params : BeginParams) (hash : String) (s : Db) {b : BeginResult} {s' : Db}
      → begin_rounds p e n params hash s ≡ (ok b, s')
      → SameOthers s s'
  unfolding begin_rounds try_claim after_claim lock_existing resolve reclaim update_record ◌>>=◌
  begin_rounds-SameOthers zero params hash s h = cc
  begin_rounds-SameOthers (suc n) params hash s {b} {s'} h =
      ground (arith, begin_rounds-SameOthers n params hash s {b = b} {s' = s'})

  pub begin-SameOthers :
      (params : BeginParams) (s : Db) {b : BeginResult} {s' : Db}
      → begin p e params s ≡ (ok b, s')
      → SameOthers s s'
  unfolding begin
  begin-SameOthers params s h = begin_rounds-SameOthers 3 params _ s h

  -- A key that a record holds: what `begin` does with that record.
  begin-taken :
      (params : BeginParams) (s : Db) (r : IdempotencyRecord)
      → find_where (same_key params) s.records ≡ some r
      → begin p e params s
        ≡ resolve
            (begin_rounds p e 2 params (hash_request_payload p params.payload))
            (hash_request_payload p params.payload)
            (some r)
            (record s { locks = s.locks ++ idempotency_row r.id ∷ [] })
  unfolding begin try_claim after_claim lock_existing ◌>>=◌
  begin-taken params s r found =
      let taken = any-of-find_where (same_key params) s.records r found in ground arith

  pub begin_replays :
      (params : BeginParams) (s : Db) (r : IdempotencyRecord)
      → find_where (same_key params) s.records ≡ some r
      → r.state ≡ IdempotencyState.completed
      → r.request_hash ≡ hash_request_payload p params.payload
      → begin p e params s ≡ (
        ok (replayed (status_or_ok r.response_status) r.response_body),
        record s { locks = s.locks ++ idempotency_row r.id ∷ [] },
      )
  unfolding resolve ◌>>=◌
  begin_replays params s r found complete same =
      rw (begin-taken params s r found) (rw (same, eq_refl, complete) refl)

  pub begin_refuses :
      (params : BeginParams) (s : Db) (r : IdempotencyRecord)
      → find_where (same_key params) s.records ≡ some r
      → str_eq r.request_hash (hash_request_payload p params.payload) ≡ false
      → begin p e params s ≡ (
        err (app 409 ErrorCode.idempotency_key_reused),
        record s { locks = s.locks ++ idempotency_row r.id ∷ [] },
      )
  unfolding resolve ◌>>=◌
  begin_refuses params s r found other = rw (begin-taken params s r found) (ground arith)
