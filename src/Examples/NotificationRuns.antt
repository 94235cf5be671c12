-- ===== src/Examples/NotificationRuns.antt =====
-- Runs of the notification outbox.
use mathlib.Core.Option
use hermes_managed_network.Prelude.{◌≡◌, ◌==◌, none, [], ◌∷◌, if◌then◌else◌}
use hermes_managed_network.Json.{end}
use hermes_managed_network.Table.{lookup}
use hermes_managed_network.Schema.{Notification, Store, now, new_store}
use hermes_managed_network.Notifications.{notification_key, mark_notification_delivered}
use hermes_managed_network.Notifications.Delivery.{delivered, mark_notification_delivered_outcome}
use hermes_managed_network.Examples.{host}

abbrev waiting_card : Notification
waiting_card = record {
  notification_id = "notif_1";
  channel = "telegram";
  subject_type = "approval";
  subject_id = "appr_1";
  status = "pending";
  payload = end;
  created_at = 30;
  delivered_at = none;
}

abbrev outbox : Store
outbox = record new_store { notifications = waiting_card ∷ [] }

mark_notification_delivered_outcome_example :
    ((mark_notification_delivered host outbox "notif_1").1
      ≡ Option.map
          (delivered (now host outbox))
          (lookup notification_key "notif_1" outbox.notifications))
    × (lookup notification_key "notif_1"
          (mark_notification_delivered host outbox "notif_1").0.notifications
        ≡ (if "notif_1" == "notif_1"
            then Option.map
                (delivered (now host outbox))
                (lookup notification_key "notif_1" outbox.notifications)
            else lookup notification_key "notif_1" outbox.notifications))
mark_notification_delivered_outcome_example =
    mark_notification_delivered_outcome host outbox "notif_1" "notif_1"
