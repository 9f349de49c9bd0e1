-- ===== src/Notifications.antt =====
-- backend/src/notifications/notifications.service.ts: the notifications of a user.
pub mod Private
use socialhub.Prelude.{ℕ, String, Bool, true, false, Option, none, some, ◌==◌, ◌&&◌, if◌then◌else◌}
use socialhub.Schema.{RowId, Millis}
use socialhub.Database.{Table}

-- NotificationType.
pub data NotificationType : Type 0 where
  publish_succeeded publish_failed invite_accepted : NotificationType
  approval_requested approval_approved approval_rejected : NotificationType

pub record Notification : Type 0 where
  pub user_id : RowId
  pub notification_type : NotificationType
  pub title : String
  pub body : String
  pub link_path : Option String
  pub read_at : Option Millis

-- The parameters of `create`.
pub record Params : Type 0 where
  pub user_id : RowId
  pub notification_type : NotificationType
  pub title : String
  pub body : String
  pub link_path : Option String

abbrev pub new_notification : Params → Notification
new_notification p = record {
  user_id = p.user_id;
  notification_type = p.notification_type;
  title = p.title;
  body = p.body;
  link_path = p.link_path;
  read_at = none;
}

abbrev pub is_unread : Notification → Bool
is_unread n = elim n.read_at [ none ↦ true | some _ ↦ false ]

abbrev pub unread_of : RowId → Notification → Bool
unread_of user_id n = (n.user_id == user_id) && is_unread n

abbrev pub read_by : Millis → Notification → Notification
read_by now n = record n { read_at = some now }

module _ (notifications : Table Notification) where
  unfoldable pub create : Params → notifications.State → RowId × notifications.State
  create p s = notifications.create s (new_notification p)

  -- A failure is logged, and nothing is written. `written` is whether the write goes through.
  unfoldable pub notify_safe : (written : Bool) → Params → notifications.State → notifications.State
  notify_safe written p s = if written then (create p s).1 else s

  unfoldable pub unread_count : RowId → notifications.State → ℕ
  unread_count user_id s = notifications.count s (unread_of user_id)

  unfoldable pub mark_read :
      (id user_id : RowId) (now : Millis) → notifications.State → notifications.State
  mark_read id user_id now s = (notifications.update_many s id (unread_of user_id) (read_by now)).1

  unfoldable pub mark_all_read :
      (user_id : RowId) (now : Millis) → notifications.State → notifications.State
  mark_all_read user_id now s = notifications.update_all s (unread_of user_id) (read_by now)

  unfoldable pub deleted :
      (id user_id : RowId) → notifications.State → Option Notification → notifications.State
  deleted id user_id s none = s
  deleted id user_id s (some n) = if n.user_id == user_id then notifications.delete s id else s

  -- deleteMany({ where: { id, userId } })
  unfoldable pub delete : (id user_id : RowId) → notifications.State → notifications.State
  delete id user_id s = deleted id user_id s (notifications.find s id)
