-- ===== src/Notifications/Service.antt =====
-- markRead of apps/api/src/notifications/notifications.service.ts, with the mapper.
use pstu_final.Base.{[], ℕ, String, not, Option, none, some}
use pstu_final.Base.Text.{Text, codes, matches_uuid_pattern}
use pstu_final.Store.Failure.{known, Failure, app, not_found}
use pstu_final.Store.Rows.{Notification}
use pstu_final.Store.Tx.{Tx, pure, throw_if, or_throw, ◌>>=◌, ◌>>◌}
use pstu_final.Platform.{Platform, Env}
use pstu_final.Notifications.Repository.{mark_read_for_owner, find_owned_by_id}

pub record NotificationDto : Type 0 where
  pub notification_id : ℕ
  pub type : String
  pub title : String
  pub body : Text
  pub resource_type : String
  pub resource_id : ℕ
  pub read_at : Option String
  pub created_at : String

abbrev pub notification_not_found : Failure
notification_not_found = app 404 not_found

module _ (p : Platform) where
  abbrev iso_of : Option ℕ → Option String
  iso_of none = none
  iso_of (some t) = some (p.iso t)

  unfoldable pub to_notification_dto : Notification → NotificationDto
  to_notification_dto row = record {
    notification_id = row.id;
    type = row.type;
    title = row.title;
    body = row.body;
    resource_type = row.resource_type;
    resource_id = row.resource_id;
    read_at = iso_of row.read_at;
    created_at = p.iso row.created_at;
  }

  -- A text that the pattern lets through is a UUID; the cast is the database's.
  unfoldable pub mark_read : Env → String → ℕ → Tx NotificationDto
  unfolding to_notification_dto
  mark_read e notification_id user_id = do
    throw_if (not (matches_uuid_pattern (codes notification_id))) notification_not_found
    id ← or_throw (p.uuid_in notification_id) (known "P2023" none [])
    mark_read_for_owner e id user_id
    found ← find_owned_by_id id user_id
    row ← or_throw found notification_not_found
    pure (to_notification_dto row)
