-- ===== src/Notifications/Repository.antt =====
-- The statements of apps/api/src/notifications/notifications.repository.ts on one notification.
use pstu_final.Base.{
  ℕ, String, Bool, true, false, ◌&&◌, not, Option, none, some, [], ◌∷◌, ◌++◌, any, find_where,
  update_where, count_where, is_some, ltb, ◌==◌, if◌then◌else◌,
}
use pstu_final.Base.Text.{Text}
use pstu_final.Store.Failure.{known, raw_query_failed}
use pstu_final.Store.Rows.{Notification}
use pstu_final.Store.Tx.{Tx, pure, gets, modify, throw_if, or_throw, ◌>>=◌, ◌>>◌}
use pstu_final.Platform.{Platform, Env, Draw, Reading}

-- The ids of the user and of the resource are texts, which the statement casts.
pub record CreateNotificationData : Type 0 where
  pub user_id : String
  pub type : String
  pub title : String
  pub body : Text
  pub resource_type : String
  pub resource_id : String
  pub source_event_id : ℕ

-- The UNIQUE index (source_event_id, user_id).
abbrev pub same_source : ℕ → ℕ → Notification → Bool
same_source source_event_id user_id row =
    row.source_event_id == source_event_id && row.user_id == user_id

module _ (p : Platform) (e : Env) where
  unfoldable pub new_notification : CreateNotificationData → ℕ → ℕ → Notification
  new_notification input user_id resource_id = record {
    id = e.uuid Draw.notification;
    user_id = user_id;
    type = input.type;
    title = input.title;
    body = input.body;
    resource_type = input.resource_type;
    resource_id = resource_id;
    read_at = none;
    created_at = e.clock Reading.notification_insert;
    source_event_id = input.source_event_id;
  }

  unfoldable pub insert_new : CreateNotificationData → ℕ → ℕ → Tx Bool
  unfolding new_notification
  insert_new input user_id resource_id = do
    same_id ←
        gets (λ s. any (λ (r : Notification). r.id == e.uuid Draw.notification) s.notifications)
    throw_if same_id (known raw_query_failed (some "23505") [])
    modify λ s. record s {
      notifications = s.notifications ++ new_notification input user_id resource_id ∷ [];
    }
    pure true

  unfoldable pub insert_if_absent : CreateNotificationData → Tx Bool
  unfolding insert_new
  insert_if_absent input = do
    user_id ← or_throw (p.uuid_in input.user_id) (known raw_query_failed (some "22P02") [])
    resource_id ← or_throw (p.uuid_in input.resource_id) (known raw_query_failed (some "22P02") [])
    there ← gets (λ s. any (same_source input.source_event_id user_id) s.notifications)
    (if there then pure false else insert_new input user_id resource_id)

abbrev pub unread_of : ℕ → ℕ → Notification → Bool
unread_of id user_id row = row.id == id && row.user_id == user_id && not (is_some row.read_at)

module _ (e : Env) where
  abbrev pub read_now : Notification → Notification
  read_now row = record row { read_at = some (e.clock Reading.notification_read) }

  unfoldable pub mark_read_for_owner : ℕ → ℕ → Tx Bool
  mark_read_for_owner id user_id = do
    count ← gets (λ s. count_where (unread_of id user_id) s.notifications)
    modify λ s. record s {
      notifications = update_where (unread_of id user_id) read_now s.notifications;
    }
    pure (ltb 0 count)

unfoldable pub find_owned_by_id : ℕ → ℕ → Tx (Option Notification)
find_owned_by_id id user_id =
    gets λ s. find_where (λ (r : Notification). r.id == id && r.user_id == user_id) s.notifications
