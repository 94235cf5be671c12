-- ===== src/Notifications.antt =====
-- The notification outbox: the operations of SQLiteStore on the table notifications
-- (src/hermes_managed_network/storage.py).
pub mod Delivery
use Prim.Native.String.{◌++◌ as join}
use hermes_managed_network.Prelude.{String, Option, none, some, List, leb, ◌==◌, if◌then◌else◌}
use hermes_managed_network.Json.{Fields}
use hermes_managed_network.Table.{lookup, insert, select, update, order_by}
use hermes_managed_network.Schema.{
  Notification, Store, Env, Result, ok, raised, integrity_error, now, read_clock, draw_id,
}

abbrev pub notification_key : Notification → String
notification_key n = n.notification_id

-- the clause WHERE status = ?, if a status is given
abbrev of_status : Option String → List Notification → List Notification
of_status none rows = rows
of_status (some status) rows = if status == "" then rows else select (λ n. n.status == status) rows

unfoldable pub list_notifications : Store → Option String → List Notification
list_notifications s status =
    order_by (λ a b. leb b.created_at a.created_at) (of_status status s.notifications)

module _ (env : Env) where
  unfoldable pub queued :
      Store → Notification → Option (List Notification) → Store × Result Notification
  queued s n none = (s, raised integrity_error)
  queued s n (some rows) = (record s { notifications = rows }, ok n)

  unfoldable pub enqueue_notification :
      Store → String → String → String → Fields → Store × Result Notification
  unfolding queued
  enqueue_notification s channel subject_type subject_id payload =
      let n : Notification = record {
        notification_id = join "notif_" (env.hex12 s.draws);
        channel = channel;
        subject_type = subject_type;
        subject_id = subject_id;
        status = "pending";
        payload = payload;
        created_at = now env s;
        delivered_at = none;
      } in
      queued (read_clock (draw_id s)) n (insert notification_key n s.notifications)

  unfoldable pub mark_found : Store → String → Option Notification → Store × Option Notification
  mark_found s id none = (s, none)
  mark_found s id (some row) =
      let at = now env s in
      let rows =
        update (λ n. n.notification_id == id)
          (λ n. record n { status = "delivered"; delivered_at = some at }) s.notifications in
      (record (read_clock s) { notifications = rows }, lookup notification_key id rows)

  unfoldable pub mark_notification_delivered : Store → String → Store × Option Notification
  unfolding mark_found
  mark_notification_delivered s id = mark_found s id (lookup notification_key id s.notifications)
