-- ===== src/MoneyRequests/Lifecycle.antt =====
-- What accept, decline and cancel do to a money request and to the money.
use pstu_final.Transfers.Settled.{settle-Settled}
use pstu_final.Base.{ℕ, ◌≡◌, ◌≢◌, true, false, some, arith}
use pstu_final.Store.Rows.{MoneyRequest, MoneyRequestStatus, TransferSource}
use pstu_final.Store.Dto.{TransferDto}
use pstu_final.Store.Tx.{Db, ok}
use pstu_final.Store.Run.{>>=-elim, throw_if-inv}
use pstu_final.Platform.{Platform, Env, Reading}
use pstu_final.Audit.{record_audit-inv}
use pstu_final.Outbox.{insert_event-inv}
use pstu_final.Transfers.Settle.{SettleInput, settle}
use pstu_final.Transfers.Service.{settle_money_request}
use pstu_final.MoneyRequests.Repository.{ParticipantRole, Target, target_status, has_elapsed}
use pstu_final.MoneyRequests.Rules.{ResolveMoneyRequestCommand, plays, role_of}
use pstu_final.MoneyRequests.Service.{close_request, settle_request}
use pstu_final.MoneyRequests.Transitions.{
  request_of, lock_pending-Held, mark_resolved-Updated, mark_accepted-Updated,
}

-- A pending request on which the actor may act in the role has changed, and no other.
pub record Transition (actor : ℕ) (role : ParticipantRole) (r r' : MoneyRequest) (s s' : Db)
    : Type 0 where
  pub before : request_of r.id s ≡ some r
  pub pending : r.status ≡ MoneyRequestStatus.pending
  pub role_played : plays r actor role ≡ true
  pub after : request_of r.id s' ≡ some r'
  pub others : (k : ℕ) → k ≢ r.id → request_of k s' ≡ request_of k s

module _ (p : Platform) (e : Env) (command : ResolveMoneyRequestCommand) where
  pub record Closed (target : Target) (s : Db) (r' : MoneyRequest) (s' : Db) : Type 0 where
    pub request : MoneyRequest
    pub named : p.uuid_in command.request_id ≡ some request.id
    pub moved_on : Transition command.actor_user_id (role_of target) request r' s s'
    pub result : r' ≡ record request {
      status = target_status target;
      resolved_at = some (e.clock Reading.request_resolution);
    }
    pub tables : s' ≡ record s {
      requests = s'.requests;
      outbox = s'.outbox;
      audit = s'.audit;
      locks = s'.locks;
    }

  pub close_request-Closed :
      (target : Target) (s : Db) {r' : MoneyRequest} {s' : Db}
      → close_request p e command target s ≡ (ok r', s')
      → Closed target s r' s'
  unfolding close_request
  close_request-Closed target s {r'} {s'} h = >>=-elim _ _ s h λ r t h1 r1.
      >>=-elim _ _ t r1 λ x u h2 r2. >>=-elim _ _ u r2 λ u3 v h3 r3. >>=-elim _ _ v r3 λ u4 w h4 r4.
        let held = lock_pending-Held p e command (role_of target) s h1 in
        let locked = held.state in
        let here : request_of r.id t ≡ some r = let f = held.found in ground arith in
        let (changed, is) = mark_resolved-Updated p e target t r x u here h2 in
        let evented = insert_event-inv e _ _ u u3 v h3 in
        let audited = record_audit-inv e _ _ v u4 w h4 in
        let same : x ≡ r' = ground arith in
        let kept = changed.tables in
        let end : s'.requests ≡ u.requests = ground arith in
        let start : s.requests ≡ t.requests = ground arith in
        record {
          request = r;
          named = held.cast;
          moved_on = record {
            before = held.found;
            pending = held.pending;
            role_played = held.role_played;
            after = rw (end, ← same) changed.after;
            others = λ k apart. rw (end, start) (changed.others k apart);
          };
          result = rw (← same) is;
          tables = ground arith;
        }

  -- The movement that an accepted request asks for.
  abbrev pub request_input : MoneyRequest → SettleInput
  request_input r = record {
    sender_user_id = r.payer_user_id;
    receiver_user_id = p.uuid_out r.requester_user_id;
    amount_minor = r.amount_minor;
    currency = p.trim r.currency;
    note = r.note;
  }

  pub record Accepted (s : Db) (r' : MoneyRequest) (s' : Db) : Type 0 where
    pub request : MoneyRequest
    pub named : p.uuid_in command.request_id ≡ some request.id
    pub moved_on : Transition command.actor_user_id ParticipantRole.payer request r' s s'
    pub in_time : has_elapsed request.expires_at (e.clock Reading.request_expiry) ≡ false
    pub transfer : TransferDto
    pub locked : Db
    pub settled : Db
    pub lock : locked ≡ record s { locks = locked.locks }
    pub settlement :
        settle p e (request_input request) (TransferSource.money_request request.id) locked
        ≡ (ok transfer, settled)
    pub result : r' ≡ record request {
      status = MoneyRequestStatus.accepted;
      accepted_transfer_id = some transfer.transfer_id;
      resolved_at = some (e.clock Reading.request_resolution);
    }
    pub tables :
        s' ≡ record settled { requests = s'.requests; outbox = s'.outbox; audit = s'.audit }

  pub settle_request-Accepted :
      (s : Db) {r' : MoneyRequest} {s' : Db}
      → settle_request p e command s ≡ (ok r', s')
      → Accepted s r' s'
  unfolding settle_request settle_money_request
  settle_request-Accepted s {r'} {s'} h = >>=-elim _ _ s h λ r t h1 r1.
      >>=-elim _ _ t r1 λ u2 t2 h2 r2. >>=-elim _ _ t2 r2 λ dto u h3 r3.
        >>=-elim _ _ u r3 λ x v h4 r4. >>=-elim _ _ v r4 λ u5 w h5 r5.
          >>=-elim _ _ w r5 λ u6 y h6 r6.
            let held = lock_pending-Held p e command ParticipantRole.payer s h1 in
            let locked = held.state in
            let in_time = throw_if-inv _ _ t h2 in
            let moved =
              settle-Settled p e (request_input r) (TransferSource.money_request r.id) t2 h3 in
            let unmoved = moved.requests in
            let start : s.requests ≡ u.requests = ground arith in
            let here : request_of r.id u ≡ some r = let f = held.found in ground arith in
            let (changed, is) = mark_accepted-Updated p e dto.transfer_id u r x v here h4 in
            let evented = insert_event-inv e _ _ v u5 w h5 in
            let audited = record_audit-inv e _ _ w u6 y h6 in
            let same : x ≡ r' = ground arith in
            let kept = changed.tables in
            let end : s'.requests ≡ v.requests = ground arith in
            record {
              request = r;
              named = held.cast;
              moved_on = record {
                before = held.found;
                pending = held.pending;
                role_played = held.role_played;
                after = rw (end, ← same) changed.after;
                others = λ k apart. rw (end, start) (changed.others k apart);
              };
              in_time = in_time.1;
              transfer = dto;
              locked = t2;
              settled = u;
              lock = ground arith;
              settlement = h3;
              result = rw (← same) is;
              tables = ground arith;
            }
