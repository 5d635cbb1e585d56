-- ===== src/Idempotency/Stored.antt =====
-- A response that `begin` returns stands in the record of the key.
use pstu_final.Base.{
  ℕ, zero, suc, String, ◌≡◌, some, none, [], ◌∷◌, ◌++◌, arith, find_where, eq_iff, Option-cases,
  inl, inr,
}
use pstu_final.Store.Rows.{IdempotencyState}
use pstu_final.Store.Dto.{IdempotencyRecord, Body}
use pstu_final.Store.Tx.{Db, Tx, ok, idempotency_row, ◌>>=◌}
use pstu_final.Store.Run.{>>=-elim}
use pstu_final.Platform.{Platform, Env}
use pstu_final.Idempotency.{
  BeginParams, BeginResult, replayed, same_key, begin, begin_rounds, after_claim, lock_existing,
  resolve, reclaim, update_record,
}
use pstu_final.Idempotency.Claims.{try_claim-inv}
use pstu_final.Idempotency.RequestHash.{hash_request_payload}

pub record Stored (params : BeginParams) (hash : String) (body : Body) (s s' : Db) : Type 0 where
  pub row : IdempotencyRecord
  pub found : find_where (same_key params) s.records ≡ some row
  pub state : row.state ≡ IdempotencyState.completed
  pub row_hash : row.request_hash ≡ hash
  pub body_stored : row.response_body ≡ body
  pub kept : s' ≡ record s { locks = s'.locks }

resolve-Stored :
    (retry : Tx BeginResult) (params : BeginParams) (hash : String) (r : IdempotencyRecord) (s : Db)
    (status : ℕ) (body : Body) (s' : Db)
    → find_where (same_key params) s.records ≡ some r
    → resolve retry hash (some r) s ≡ (ok (replayed status body), s')
    → Stored params hash body s s'
unfolding resolve reclaim update_record ◌>>=◌
resolve-Stored retry params hash r s status body s' found h = record {
  row = r;
  found = ground arith;
  state = ground arith;
  row_hash = ground (arith, eq_iff r.request_hash hash);
  body_stored = ground arith;
  kept = ground arith;
}

module _ (p : Platform) (e : Env) where
  after_claim-Stored :
      (retry : Tx BeginResult) (params : BeginParams) (hash : String) (s : Db) (status : ℕ)
      (body : Body) (s' : Db)
      → (retry s ≡ (ok (replayed status body), s') → Stored params hash body s s')
      → after_claim p e retry params hash none s ≡ (ok (replayed status body), s')
      → Stored params hash body s s'
  unfolding after_claim lock_existing ◌>>=◌
  after_claim-Stored retry params hash s status body s' again h =
      elim (Option-cases (find_where (same_key params) s.records)) [
        | inl missing ↦ again (ground arith)
        | inr (r, found) ↦
            let x =
              resolve-Stored retry params hash r
                (record s { locks = s.locks ++ idempotency_row r.id ∷ [] }) status body s' found
                (ground arith) in
            record {
              row = x.row;
              found = x.found;
              state = x.state;
              row_hash = x.row_hash;
              body_stored = x.body_stored;
              kept = x.kept;
            }
      ]

  no_claim :
      (retry : Tx BeginResult) (params : BeginParams) (hash : String) (drawn : ℕ) (t : Db)
      (status : ℕ) (body : Body) (s' : Db) {A : Type 0}
      → after_claim p e retry params hash (some drawn) t ≡ (ok (replayed status body), s')
      → A
  unfolding after_claim
  no_claim retry params hash drawn t status body s' h = ground arith

  begin_rounds-Stored :
      (n : ℕ) (params : BeginParams) (hash : String) (s : Db) (status : ℕ) (body : Body) (s' : Db)
      → begin_rounds p e n params hash s ≡ (ok (replayed status body), s')
      → Stored params hash body s s'
  unfolding begin_rounds
  begin_rounds-Stored zero params hash s status body s' h = ground arith
  begin_rounds-Stored (suc n) params hash s status body s' h = >>=-elim _ _ s h λ o t h1 r1.
      elim (try_claim-inv p e params hash s o t h1) [
        | inl (missed, same) ↦ rw (← same) (
            after_claim-Stored (begin_rounds p e n params hash) params hash t status body s'
              (begin_rounds-Stored n params hash t status body s') (rw missed at r1))
        | inr (drawn, free, added) ↦
            no_claim (begin_rounds p e n params hash) params hash _ t status body s'
              (rw drawn at r1)
      ]

  pub begin-Stored :
      (params : BeginParams) (s : Db) (status : ℕ) (body : Body) (s' : Db)
      → begin p e params s ≡ (ok (replayed status body), s')
      → Stored params (hash_request_payload p params.payload) body s s'
  unfolding begin
  begin-Stored params s status body s' h = begin_rounds-Stored 3 params _ s status body s' h
