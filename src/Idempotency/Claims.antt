-- ===== src/Idempotency/Claims.antt =====
-- The record of a key, from its claim by `begin` to its completion.
use pstu_final.Store.Failure.{Failure}
use pstu_final.Base.{
  Bool-cases, ℕ, zero, suc, String, ◌≡◌, ◌==◌, ==_refl, refl, true, false, some, none, [], ◌∷◌,
  ◌++◌, arith, any, find_where, eq_refl, find_where-append, find_where-update_where, Option,
  Option-cases, inl, inr, ◌⊎◌,
}
use pstu_final.Store.Rows.{IdempotencyState}
use pstu_final.Store.Dto.{IdempotencyRecord, Body}
use pstu_final.Store.Tx.{err, Db, Tx, ok, idempotency_row, ◌>>=◌}
use pstu_final.Store.Run.{>>=-elim}
use pstu_final.Platform.{Platform, Env, Draw}
use pstu_final.Idempotency.{
  BeginParams, CompleteParams, BeginResult, claimed, same_key, begin, begin_rounds, complete,
  try_claim, after_claim, lock_existing, resolve, update_record, reclaim, new_record,
}
use pstu_final.Idempotency.RequestHash.{hash_request_payload}

-- The record of a key, as a claim leaves it.
pub record Claim (params : BeginParams) (hash : String) (id : ℕ) (s : Db) : Type 0 where
  pub row : IdempotencyRecord
  pub found : find_where (same_key params) s.records ≡ some row
  pub row_id : row.id ≡ id
  pub row_hash : row.request_hash ≡ hash

pub record Completed (params : BeginParams) (hash : String) (done : CompleteParams) (s : Db)
    : Type 0 where
  pub row : IdempotencyRecord
  pub found : find_where (same_key params) s.records ≡ some row
  pub state : row.state ≡ IdempotencyState.completed
  pub row_hash : row.request_hash ≡ hash
  pub status : row.response_status ≡ some done.response_status
  pub body : row.response_body ≡ done.response_body

pub complete-Completed :
    (params : BeginParams) (hash : String) (done : CompleteParams) (s : Db) {s' : Db}
    → Claim params hash done.record_id s
    → complete done s ≡ (ok tt, s')
    → Completed params hash done s'
unfolding complete update_record ◌>>=◌
complete-Completed params hash done s {s'} c h =
    let id = c.row_id in
    let hit : (c.row.id == done.record_id) ≡ true = ground arith in
    record {
      row = record c.row {
        state = IdempotencyState.completed;
        response_status = some done.response_status;
        response_body = done.response_body;
        resource_type = some done.resource_type;
        resource_id = some done.resource_id;
      };
      found =
          let there =
            find_where-update_where (same_key params)
              (λ (r : IdempotencyRecord). r.id == done.record_id)
              (λ (r : IdempotencyRecord). record r {
                state = IdempotencyState.completed;
                response_status = some done.response_status;
                response_body = done.response_body;
                resource_type = some done.resource_type;
                resource_id = some done.resource_id;
              })
              s.records c.row (λ y. refl) c.found hit in
          ground arith;
      state = refl;
      row_hash = c.row_hash;
      status = refl;
      body = refl;
    }

-- A row that was locked is claimed again where it waits, or the retry claims it.
resolve-Claim :
    (retry : Tx BeginResult) (params : BeginParams) (hash : String) (r : IdempotencyRecord) (s : Db)
    (id : ℕ) {s' : Db}
    → find_where (same_key params) s.records ≡ some r
    → resolve retry hash (some r) s ≡ (ok (claimed id), s')
    → Claim params hash id s'
unfolding resolve reclaim update_record ◌>>=◌
resolve-Claim retry params hash r s id {s'} found h =
    let there =
      find_where-update_where (same_key params) (λ (x : IdempotencyRecord). x.id == r.id)
        (λ (x : IdempotencyRecord). record x {
          state = IdempotencyState.processing;
          request_hash = hash;
          response_status = none;
          response_body = Body.absent;
        })
        s.records r (λ y. refl) found (==_refl r.id) in
    record {
      row = record r {
        state = IdempotencyState.processing;
        request_hash = hash;
        response_status = none;
        response_body = Body.absent;
      };
      found = ground arith;
      row_id = ground arith;
      row_hash = refl;
    }

module _ (p : Platform) (e : Env) where
  insert-Claim :
      (params : BeginParams) (hash : String) (s : Db) (id : ℕ) {s' : Db}
      → any (same_key params) s.records ≡ false
      → s'.records ≡ s.records ++ new_record p e params hash ∷ []
      → e.uuid Draw.idempotency_record ≡ id
      → Claim params hash id s'
  unfolding new_record
  insert-Claim params hash s id free added drawn = record {
    row = new_record p e params hash;
    found = rw added (
        find_where-append (same_key params) s.records (new_record p e params hash) free
          (rw (==_refl, eq_refl params.route_key, eq_refl params.idempotency_key) refl));
    row_id = drawn;
    row_hash = refl;
  }

  pub try_claim-inv :
      (params : BeginParams) (hash : String) (s : Db) (o : Option ℕ) (t : Db)
      → try_claim p e params hash s ≡ (ok o, t)
      → ((o ≡ none) × (t ≡ s))
        ⊎ ((o ≡ some (e.uuid Draw.idempotency_record))
            × (any (same_key params) s.records ≡ false)
            × (t ≡ record s { records = s.records ++ new_record p e params hash ∷ [] }))
  unfolding try_claim ◌>>=◌
  try_claim-inv params hash s o t h = elim (Bool-cases (any (same_key params) s.records)) [
    | inl taken ↦ inl (ground arith, ground arith)
    | inr free ↦ inr (ground arith, free, ground arith)
  ]

  after_claim-Claim :
      (retry : Tx BeginResult) (params : BeginParams) (hash : String) (s : Db) (id : ℕ) {s' : Db}
      → (retry s ≡ (ok (claimed id), s') → Claim params hash id s')
      → after_claim p e retry params hash none s ≡ (ok (claimed id), s')
      → Claim params hash id s'
  unfolding after_claim lock_existing ◌>>=◌
  after_claim-Claim retry params hash s id {s'} again h =
      elim (Option-cases (find_where (same_key params) s.records)) [
        | inl missing ↦ again (ground arith)
        | inr (r, found) ↦
            resolve-Claim retry params hash r
              (record s { locks = s.locks ++ idempotency_row r.id ∷ [] }) id found (ground arith)
      ]

  claim_end :
      (retry : Tx BeginResult) (params : BeginParams) (hash : String) (drawn id : ℕ) (t : Db)
      {s' : Db}
      → after_claim p e retry params hash (some drawn) t ≡ (ok (claimed id), s')
      → (drawn ≡ id) × (t ≡ s')
  unfolding after_claim
  claim_end retry params hash drawn id t h = ground arith

  begin_rounds-Claim :
      (n : ℕ) (params : BeginParams) (hash : String) (s : Db) (id : ℕ) {s' : Db}
      → begin_rounds p e n params hash s ≡ (ok (claimed id), s')
      → Claim params hash id s'
  unfolding begin_rounds after_claim
  begin_rounds-Claim zero params hash s id h = ground arith
  begin_rounds-Claim (suc n) params hash s id h = >>=-elim _ _ s h λ o t h1 r1.
      elim (try_claim-inv params hash s o t h1) [
        | inl (missed, same) ↦
            after_claim-Claim (begin_rounds p e n params hash) params hash t id
              (begin_rounds-Claim n params hash t id) (rw missed at r1)
        | inr (drawn, free, added) ↦
            let end =
              claim_end (begin_rounds p e n params hash) params hash _ id t (rw drawn at r1) in
            insert-Claim params hash s id free (ground arith) end.0
      ]

  pub begin-Claim :
      (params : BeginParams) (s : Db) (id : ℕ) {s' : Db}
      → begin p e params s ≡ (ok (claimed id), s')
      → Claim params (hash_request_payload p params.payload) id s'
  unfolding begin
  begin-Claim params s id h = begin_rounds-Claim 3 params _ s id h

  -- A key that no record holds is claimed at once.
  pub begin_new :
      (params : BeginParams) (s : Db)
      → any (same_key params) s.records ≡ false
      → any (λ (r : IdempotencyRecord). r.id == e.uuid Draw.idempotency_record) s.records ≡ false
      → begin p e params s ≡ (
        ok (claimed (e.uuid Draw.idempotency_record)),
        record s {
          records = s.records ++ new_record p e params (hash_request_payload p params.payload) ∷ [];
        },
      )
  unfolding begin begin_rounds try_claim after_claim ◌>>=◌
  begin_new params s free fresh = ground arith

pub complete-safe :
    (done : CompleteParams) (s : Db) (g : Failure) (s' : Db)
    → any (λ (r : IdempotencyRecord). r.id == done.record_id) s.records ≡ true
    → complete done s ≡ (err g, s')
    → ⊥
unfolding complete update_record ◌>>=◌
complete-safe done s g s' there h = ground arith
