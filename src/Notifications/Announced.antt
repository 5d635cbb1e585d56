-- ===== src/Notifications/Announced.antt =====
-- From the event of a transfer to the notification of its receiver.
use pstu_final.Base.{ℕ, String, some, List, [], ◌∷◌, ◌++◌, ◌≡◌, refl, arith}
use pstu_final.Base.Int.{ℤ}
use pstu_final.Base.Text.{codes}
use pstu_final.Store.Rows.{Fields, OutboxEvent, TransferSource, Value}
use pstu_final.Store.Tx.{Db, ok, ◌>>=◌}
use pstu_final.Store.Run.{>>=-elim}
use pstu_final.Platform.{Platform, Env, Draw}
use pstu_final.Audit.{record_audit-inv}
use pstu_final.Money.Format.{format_minor_units}
use pstu_final.Outbox.{insert_event-inv, new_event}
use pstu_final.Outbox.Queue.{to_claimed}
use pstu_final.Transfers.Settle.{source_request_id, SettleInput, Parties, announce}
use pstu_final.Notifications.Consumer.{on_transfer_succeeded, Language, PlannedNotification, plan}

-- What the payloads hold can be read back: the text of an id, the decimal text of an amount, a text.
pub record ReadsBack (p : Platform) (l : Language) : Type 0 where
  pub ids : (n : ℕ) → l.string_of (some (Value.uuid n)) ≡ p.uuid_out n
  pub amounts : (z : ℤ) → l.big_int (l.string_of (some (Value.bigint z))) ≡ some z
  pub texts : (t : String) → l.string_of (some (Value.text t)) ≡ t

module _ (p : Platform) where
  abbrev pub money_received : SettleInput → Parties → ℕ → PlannedNotification
  money_received input parties transfer_id = record {
    user_id = p.uuid_out parties.receiver.user_id;
    type = "money_received";
    title = "Money received";
    body =
        codes "You received " ++ format_minor_units input.amount_minor input.currency ++ codes ".";
    resource_type = "transfer";
    resource_id = p.uuid_out transfer_id;
  }

  abbrev pub told_of : SettleInput → TransferSource → Parties → ℕ → List PlannedNotification
  told_of input TransferSource.direct parties id = money_received input parties id ∷ []
  told_of input (TransferSource.money_request r) parties id = []

module _ (p : Platform) (l : Language) (e : Env) (reads : ReadsBack p l) where
  abbrev payload_of : SettleInput → TransferSource → Parties → ℕ → Fields
  payload_of input source parties id =
      ("transferId", Value.uuid id)
      ∷ ("senderUserId", Value.uuid parties.sender.user_id)
      ∷ ("receiverUserId", Value.uuid parties.receiver.user_id)
      ∷ ("amountMinor", Value.bigint input.amount_minor)
      ∷ ("currency", Value.text input.currency)
      ∷ ("sourceRequestId", source_request_id source)
      ∷ []

  planned_of :
      (input : SettleInput) (source : TransferSource) (parties : Parties) (id : ℕ) (t : Db)
      → on_transfer_succeeded l (payload_of input source parties id) t
        ≡ (ok (told_of p input source parties id), t)
  unfolding on_transfer_succeeded ◌>>=◌
  planned_of input (TransferSource.money_request r) parties id t = refl
  planned_of input TransferSource.direct parties id t =
      rw
        (
          reads.ids parties.receiver.user_id,
          reads.ids id,
          reads.amounts input.amount_minor,
          reads.texts input.currency,
        )
        refl

  abbrev written_event : SettleInput → TransferSource → Parties → ℕ → OutboxEvent
  written_event input source parties id = new_event e Draw.succeeded_event (record {
    aggregate_type = "transfer";
    aggregate_id = id;
    event_type = "transfer.succeeded";
    payload = payload_of input source parties id;
  })

  event_planned :
      (input : SettleInput) (source : TransferSource) (parties : Parties) (id : ℕ) (t : Db)
      → plan l (to_claimed (written_event input source parties id)) t
        ≡ (ok (told_of p input source parties id), t)
  unfolding plan new_event
  event_planned = planned_of

  -- The announcement of a transfer adds one event to the outbox, of which the consumer tells the
  -- receiver the amount where the transfer is a direct one, and tells nobody where it pays a request,
  -- provided that the texts of ids, amounts and currencies are read back as what they are.
  pub announce_tells :
      (input : SettleInput) (source : TransferSource) (parties : Parties) (id : ℕ) (s s' t : Db)
      → announce p e input source parties id s ≡ (ok tt, s')
      → (event : OutboxEvent) × (s'.outbox ≡ s.outbox ++ event ∷ [])
        × (plan l (to_claimed event) t ≡ (ok (told_of p input source parties id), t))
  unfolding announce
  announce_tells input source parties id s s' t h = >>=-elim _ _ s h λ u v first later.
      let added = insert_event-inv e Draw.succeeded_event _ s u v first in
      let logged = record_audit-inv e Draw.succeeded_audit _ v tt s' later in
      (new_event e Draw.succeeded_event _, ground arith, event_planned input source parties id t)
