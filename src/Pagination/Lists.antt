-- ===== src/Pagination/Lists.antt =====
-- The lists that are read in pages: the notifications of a user
-- (apps/api/src/notifications/notifications.service.ts), the requests to and from a user
-- (apps/api/src/money-requests/money-request-query.service.ts) and the activity of a user
-- (apps/api/src/activity), with one request read by a participant.
use pstu_final.MoneyRequests.Rules.{not_found}
use pstu_final.Base.{
  ℕ, String, Bool, true, false, ◌&&◌, ◌||◌, not, Option, none, some, List, [], map, find_where,
  is_some, ◌==◌,
}
use pstu_final.Base.Text.{codes, matches_uuid_pattern}
use pstu_final.Store.Failure.{Failure, app, known, raw_query_failed, validation_error}
use pstu_final.Store.Rows.{MoneyRequest, MoneyRequestStatus, Notification}
use pstu_final.Store.Dto.{MoneyRequestDto}
use pstu_final.Store.Tx.{Tx, pure, throw_if, or_throw, gets, ◌>>=◌, ◌>>◌}
use pstu_final.Platform.{Platform, Env}
use pstu_final.MoneyRequests.Repository.{ParticipantRole, to_money_request_dto}
use pstu_final.Notifications.Service.{NotificationDto, to_notification_dto}
use pstu_final.Pagination.Keyset.{KeysetCursor, page_of}
use pstu_final.Pagination.Cursor.{Encoding, encode_keyset_cursor, decode_keyset_cursor}

abbrev pub invalid_cursor : Failure
invalid_cursor = app 400 validation_error

-- The page that a client gets: its items and the text of the next cursor.
pub record Listed (D : Type 0) : Type 0 where
  pub items : List D
  pub next_cursor : Option String

module _ (n : Encoding) where
  -- The id of a decoded cursor has the form of a UUID; the query casts it.
  unfoldable pub decode_cursor : Option String → Tx (Option KeysetCursor)
  decode_cursor none = pure none
  decode_cursor (some raw) = do
    anchor ← or_throw (decode_keyset_cursor n raw) invalid_cursor
    id ← or_throw (n.uuid_of anchor.id) (known raw_query_failed (some "22P02") [])
    pure (some (record { created_at = anchor.created_at; id = id }))

  abbrev pub cursor_text : Option KeysetCursor → Option String
  cursor_text none = none
  cursor_text (some key) =
      some
        (encode_keyset_cursor n (record { created_at = key.created_at; id = n.uuid_text key.id }))

-- GET /notifications
pub record ListNotificationsQuery : Type 0 where
  pub unread_only : Bool
  pub cursor : Option String
  pub limit : ℕ

abbrev pub notification_key : Notification → KeysetCursor
notification_key row = record { created_at = row.created_at; id = row.id }

abbrev pub shown_to : ℕ → Bool → Notification → Bool
shown_to user_id unread_only row =
    row.user_id == user_id && (not unread_only || not (is_some row.read_at))

-- GET /money-requests/incoming and /outgoing
pub record ListMoneyRequestsQuery : Type 0 where
  pub status : Option MoneyRequestStatus
  pub cursor : Option String
  pub limit : ℕ

abbrev pub request_key : MoneyRequest → KeysetCursor
request_key row = record { created_at = row.created_at; id = row.id }

abbrev pub owned_by : ParticipantRole → ℕ → MoneyRequest → Bool
owned_by ParticipantRole.payer user_id row = row.payer_user_id == user_id
owned_by ParticipantRole.requester user_id row = row.requester_user_id == user_id

abbrev pub same_status : MoneyRequestStatus → MoneyRequestStatus → Bool
same_status MoneyRequestStatus.pending MoneyRequestStatus.pending = true
same_status MoneyRequestStatus.accepted MoneyRequestStatus.accepted = true
same_status MoneyRequestStatus.declined MoneyRequestStatus.declined = true
same_status MoneyRequestStatus.cancelled MoneyRequestStatus.cancelled = true
same_status MoneyRequestStatus.expired MoneyRequestStatus.expired = true
same_status a b = false

-- The filter is on the stored status, not on the one that is shown.
abbrev pub has_status : Option MoneyRequestStatus → MoneyRequest → Bool
has_status none row = true
has_status (some status) row = same_status row.status status

module _ (p : Platform) (n : Encoding) where
  unfoldable pub list_notifications : ℕ → ListNotificationsQuery → Tx (Listed NotificationDto)
  unfolding decode_cursor
  list_notifications user_id query = do
    cursor ← decode_cursor n query.cursor
    page ← gets λ s.
        page_of notification_key (shown_to user_id query.unread_only) cursor query.limit
          s.notifications
    pure (record {
      items = map (to_notification_dto p) page.items;
      next_cursor = cursor_text n page.next_cursor;
    })

  -- `list` of MoneyRequestQueryService; listIncoming is for the payer, listOutgoing for the requester.
  unfoldable pub list_requests :
      Env → ParticipantRole → ℕ → ListMoneyRequestsQuery → Tx (Listed MoneyRequestDto)
  unfolding decode_cursor
  list_requests e role user_id query = do
    cursor ← decode_cursor n query.cursor
    page ← gets λ s.
        page_of request_key (λ r. owned_by role user_id r && has_status query.status r) cursor
          query.limit s.requests
    pure (record {
      items = map (to_money_request_dto p e) page.items;
      next_cursor = cursor_text n page.next_cursor;
    })

  unfoldable pub get_request_for_participant : Env → String → ℕ → Tx MoneyRequestDto
  get_request_for_participant e request_id user_id = do
    throw_if (not (matches_uuid_pattern (codes request_id))) not_found
    id ← or_throw (p.uuid_in request_id) (known "P2023" none [])
    found ← gets (λ s. find_where (λ (r : MoneyRequest). r.id == id) s.requests)
    request ← or_throw found not_found
    throw_if (not (request.requester_user_id == user_id || request.payer_user_id == user_id))
        not_found
    pure (to_money_request_dto p e request)
