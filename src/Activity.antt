-- ===== src/Activity.antt =====
-- The activity of a user, transfers and money requests in one list:
-- apps/api/src/activity/activity.repository.ts and activity-query.service.ts.
use pstu_final.Base.{
  ℕ, String, Bool, true, false, ◌||◌, Option, none, some, List, ◌++◌, map, find_where, select_where,
  str_eq, ◌==◌, if◌then◌else◌,
}
use pstu_final.Base.Int.{ℤ}
use pstu_final.Base.Text.{Text, codes}
use pstu_final.Store.Rows.{
  User, Transfer, TransferStatus, TransferSource, MoneyRequest, MoneyRequestStatus,
}
use pstu_final.Store.Tx.{Tx, pure, gets, ◌>>=◌}
use pstu_final.Platform.{Platform, Env, Reading}
use pstu_final.MoneyRequests.Repository.{effective_status}
use pstu_final.Pagination.Keyset.{KeysetCursor, page_of}
use pstu_final.Pagination.Cursor.{Encoding}
use pstu_final.Pagination.Lists.{Listed, decode_cursor, cursor_text}

pub data ActivityKind : Type 0 where
  transfer money_request : ActivityKind

pub data ActivityDirection : Type 0 where
  incoming outgoing request : ActivityDirection

-- The text of a status, of whichever of the two enumerations.
pub data ActivityStatus : Type 0 where
  of_transfer : TransferStatus → ActivityStatus
  of_request : MoneyRequestStatus → ActivityStatus

pub record ActivityRow : Type 0 where
  pub kind : ActivityKind
  pub reference_id : ℕ
  pub created_at : ℕ
  pub direction : ActivityDirection
  pub amount_minor : ℤ
  pub currency : String
  pub status : ActivityStatus
  pub expires_at : Option ℕ
  pub counterparty_id : ℕ
  pub related_request_id : Option ℕ
  pub related_transfer_id : Option ℕ

pub record ActivityCounterparty : Type 0 where
  pub user_id : ℕ
  pub display_name : String

-- `activityId` is made of `type` and `reference_id`.
pub record ActivityItemDto : Type 0 where
  pub activity_id : Text
  pub reference_id : ℕ
  pub type : ActivityKind
  pub direction : ActivityDirection
  pub amount_minor : ℤ
  pub currency : String
  pub status : ActivityStatus
  pub counterparty : Option ActivityCounterparty
  pub created_at : String
  pub related_request_id : Option ℕ
  pub related_transfer_id : Option ℕ

pub record ListActivityQuery : Type 0 where
  pub type : Option ActivityKind
  pub cursor : Option String
  pub limit : ℕ

abbrev source_request : TransferSource → Option ℕ
source_request TransferSource.direct = none
source_request (TransferSource.money_request id) = some id

abbrev pub activity_key : ActivityRow → KeysetCursor
activity_key row = record { created_at = row.created_at; id = row.reference_id }

module _ (p : Platform) (user_id : ℕ) where
  abbrev transfer_row : Transfer → ActivityRow
  transfer_row t = record {
    kind = ActivityKind.transfer;
    reference_id = t.id;
    created_at = t.created_at;
    direction =
        if t.sender_user_id == user_id
        then ActivityDirection.outgoing
        else ActivityDirection.incoming;
    amount_minor = t.amount_minor;
    currency = p.trim t.currency;
    status = of_transfer t.status;
    expires_at = none;
    counterparty_id = if t.sender_user_id == user_id then t.receiver_user_id else t.sender_user_id;
    related_request_id = source_request t.source;
    related_transfer_id = none;
  }

  abbrev request_row : MoneyRequest → ActivityRow
  request_row r = record {
    kind = ActivityKind.money_request;
    reference_id = r.id;
    created_at = r.created_at;
    direction = ActivityDirection.request;
    amount_minor = r.amount_minor;
    currency = p.trim r.currency;
    status = of_request r.status;
    expires_at = r.expires_at;
    counterparty_id =
        if r.requester_user_id == user_id then r.payer_user_id else r.requester_user_id;
    related_request_id = some r.id;
    related_transfer_id = r.accepted_transfer_id;
  }

  -- UNION ALL
  unfoldable pub activity_rows : List Transfer → List MoneyRequest → List ActivityRow
  activity_rows transfers requests =
      map transfer_row
        (select_where (λ t. t.sender_user_id == user_id || t.receiver_user_id == user_id) transfers)
      ++ map request_row (
          select_where (λ r. r.requester_user_id == user_id || r.payer_user_id == user_id) requests)

abbrev pub same_kind : ActivityKind → ActivityKind → Bool
same_kind ActivityKind.transfer ActivityKind.transfer = true
same_kind ActivityKind.money_request ActivityKind.money_request = true
same_kind a b = false

abbrev pub is_kind : Option ActivityKind → ActivityRow → Bool
is_kind none row = true
is_kind (some kind) row = same_kind row.kind kind

-- A user without a row, or without a name, is no counterparty to show.
abbrev pub counterparty_of : List User → ℕ → Option ActivityCounterparty
counterparty_of users id = elim (find_where (λ (u : User). u.id == id) users) [
  | none ↦ none
  | some user ↦
      if str_eq user.display_name ""
      then none
      else some (record { user_id = id; display_name = user.display_name })
]

-- A request past its deadline reads as expired.
abbrev shown_status : ActivityStatus → Option ℕ → ℕ → ActivityStatus
shown_status (of_transfer status) expires_at now = of_transfer status
shown_status (of_request status) expires_at now =
    of_request (effective_status status expires_at now)

abbrev kind_prefix : ActivityKind → String
kind_prefix ActivityKind.transfer = "transfer:"
kind_prefix ActivityKind.money_request = "request:"

module _ (p : Platform) (n : Encoding) (e : Env) where
  unfoldable pub to_activity_item : List User → ActivityRow → ActivityItemDto
  to_activity_item users row = record {
    activity_id = codes (kind_prefix row.kind) ++ n.uuid_text row.reference_id;
    reference_id = row.reference_id;
    type = row.kind;
    direction = row.direction;
    amount_minor = row.amount_minor;
    currency = row.currency;
    status = shown_status row.status row.expires_at (e.clock Reading.request_view);
    counterparty = counterparty_of users row.counterparty_id;
    created_at = p.iso row.created_at;
    related_request_id = row.related_request_id;
    related_transfer_id = row.related_transfer_id;
  }

  unfoldable pub list_activity : ℕ → ListActivityQuery → Tx (Listed ActivityItemDto)
  unfolding activity_rows to_activity_item
  list_activity user_id query = do
    cursor ← decode_cursor n query.cursor
    page ← gets λ s.
        page_of activity_key (is_kind query.type) cursor query.limit
          (activity_rows p user_id s.transfers s.requests)
    users ← gets (λ s. s.users)
    pure (record {
      items = map (to_activity_item users) page.items;
      next_cursor = cursor_text n page.next_cursor;
    })
