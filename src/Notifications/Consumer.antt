-- ===== src/Notifications/Consumer.antt =====
-- What the worker tells users about an event: apps/api/src/notifications/notification.consumer.ts.
use pstu_final.Base.{
  ℕ, String, Bool, true, false, Option, none, some, List, [], ◌∷◌, ◌++◌, str_eq, ◌==◌,
  if◌then◌else◌,
}
use pstu_final.Base.Int.{ℤ}
use pstu_final.Base.Text.{Text, codes}
use pstu_final.Store.Failure.{plain}
use pstu_final.Store.Rows.{Fields, Value}
use pstu_final.Store.Tx.{Tx, pure, or_throw, ◌>>=◌, ◌>>◌}
use pstu_final.Platform.{Platform, Env}
use pstu_final.Money.Format.{format_minor_units}
use pstu_final.Outbox.Queue.{ClaimedOutboxEvent}
use pstu_final.Notifications.Repository.{insert_if_absent}

-- How the language reads a member of a payload.
pub record Language : Type 0 where
  -- String(value); `none` is undefined
  pub string_of : Option Value → String
  -- BigInt(text), which throws on a text of another form
  pub big_int : String → Option ℤ

pub record PlannedNotification : Type 0 where
  pub user_id : String
  pub type : String
  pub title : String
  pub body : Text
  pub resource_type : String
  pub resource_id : String

-- payload[name]
abbrev pub member : String → Fields → Option Value
member name [] = none
member name ((key, value) ∷ rest) = if str_eq key name then some value else member name rest

-- `value ?? other`
abbrev or_else : Option Value → Value → Value
or_else none other = other
or_else (some Value.null) other = other
or_else (some value) other = value

-- `if (value)`
abbrev pub is_truthy : Option Value → Bool
is_truthy none = false
is_truthy (some Value.null) = false
is_truthy (some (Value.boolean b)) = b
is_truthy (some (Value.number n)) = if n == 0 then false else true
is_truthy (some (Value.text t)) = if str_eq t "" then false else true
is_truthy (some value) = true

module _ (l : Language) where
  unfoldable pub amount : Fields → Tx Text
  amount payload = do
    n ← or_throw (l.big_int (l.string_of (member "amountMinor" payload))) (plain "SyntaxError")
    pure (
        format_minor_units n
          (l.string_of (some (or_else (member "currency" payload) (Value.text "BDT")))))

  -- One notification to the user that a member of the payload names, about the transfer or the
  -- request that another names; its body has the amount between two texts.
  unfoldable pub notify :
      String
      → String
      → String
      → String
      → String
      → String
      → String
      → Fields
      → Tx (List PlannedNotification)
  unfolding amount
  notify recipient type title before after resource_type resource payload = do
    text ← amount payload
    pure (
        record {
          user_id = l.string_of (member recipient payload);
          type = type;
          title = title;
          body = codes before ++ text ++ codes after;
          resource_type = resource_type;
          resource_id = l.string_of (member resource payload);
        }
        ∷ [])

  unfoldable pub on_transfer_succeeded : Fields → Tx (List PlannedNotification)
  unfolding notify
  on_transfer_succeeded payload =
      if is_truthy (member "sourceRequestId" payload)
      then pure []
      else notify "receiverUserId" "money_received" "Money received" "You received " "." "transfer"
          "transferId" payload

  unfoldable pub on_request_created : Fields → Tx (List PlannedNotification)
  unfolding notify
  on_request_created =
      notify "payerUserId" "money_request_received" "Money requested" "Someone requested "
        " from you." "money_request" "requestId"

  unfoldable pub on_request_accepted : Fields → Tx (List PlannedNotification)
  unfolding notify
  on_request_accepted =
      notify "requesterUserId" "money_request_accepted" "Request accepted" "Your request for "
        " was accepted and paid." "money_request" "requestId"

  unfoldable pub on_request_declined : Fields → Tx (List PlannedNotification)
  unfolding notify
  on_request_declined =
      notify "requesterUserId" "money_request_declined" "Request declined" "Your request for "
        " was declined." "money_request" "requestId"

  unfoldable pub on_request_cancelled : Fields → Tx (List PlannedNotification)
  unfolding notify
  on_request_cancelled =
      notify "payerUserId" "money_request_cancelled" "Request cancelled" "A request for "
        " was cancelled." "money_request" "requestId"

  unfoldable pub plan : ClaimedOutboxEvent → Tx (List PlannedNotification)
  unfolding on_transfer_succeeded on_request_created on_request_accepted on_request_declined
      on_request_cancelled
  plan event =
      if str_eq event.event_type "transfer.succeeded"
      then on_transfer_succeeded event.payload
      else if str_eq event.event_type "money_request.created"
      then on_request_created event.payload
      else if str_eq event.event_type "money_request.accepted"
      then on_request_accepted event.payload
      else if str_eq event.event_type "money_request.declined"
      then on_request_declined event.payload
      else if str_eq event.event_type "money_request.cancelled"
      then on_request_cancelled event.payload
      else pure []

module _ (p : Platform) (e : Env) where
  unfoldable pub insert_all : ℕ → List PlannedNotification → Tx (Unit {0})
  insert_all source [] = pure tt
  insert_all source (planned ∷ rest) =
      insert_if_absent p e (record {
        user_id = planned.user_id;
        type = planned.type;
        title = planned.title;
        body = planned.body;
        resource_type = planned.resource_type;
        resource_id = planned.resource_id;
        source_event_id = source;
      })
      >> insert_all source rest

module _ (p : Platform) (l : Language) (e : Env) where
  unfoldable pub handle : ClaimedOutboxEvent → Tx (Unit {0})
  unfolding insert_all plan
  handle event = plan l event >>= λ planned. insert_all p e event.id planned
