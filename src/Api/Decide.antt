-- ===== src/Api/Decide.antt =====
-- The handlers of api.py that decide on approvals and serve the approval gateway.
pub mod Decision
use Prim.Native.String.{◌++◌ as join}
use hermes_managed_network.Prelude.{
  String, Bool, true, false, Option, none, some, List, ◌==◌, ◌||◌, not, if◌then◌else◌, ℕ,
}
use hermes_managed_network.Table.{select}
use hermes_managed_network.Schema.{
  ApprovalRequest, Notification, Store, Env, Error, Result, ok, raised,
}
use hermes_managed_network.ApprovalTable.{load_approval_request}
use hermes_managed_network.Notifications.{list_notifications, mark_notification_delivered}
use hermes_managed_network.Approvals.{resolve_approval_request}
use hermes_managed_network.NetworkAcl.{Host, World}
use hermes_managed_network.Telegram.{
  TelegramApprovalCallbackResult, Dispatched, dispatched, no_task, no_component, no_acl, acl_failed,
  dispatch_raised, with_store, dispatch_resolved, handle_telegram_approval_callback,
}
use hermes_managed_network.Api.{Reply, answer, http, crash}
use hermes_managed_network.Api.Work.{StatusResponse}

pub record ApprovalDecisionRequest : Type 0 where
  pub decided_by : String

pub record ApprovalDecisionResponse : Type 0 where
  pub approval_id : String
  pub status : String
  pub dispatched_task_id : Option String

pub record TelegramCallbackRequest : Type 0 where
  pub callback_data : String
  pub decided_by : String

pub record ApprovalGatewayCallbackRequest : Type 0 where
  pub client : String
  pub callback_data : String
  pub decided_by : String

-- What the handler of a callback gives. Where it refuses, the detail holds the whole result.
pub data CallbackReply : Type 0 where
  called_back : TelegramApprovalCallbackResult → CallbackReply
  not_called_back : ℕ → TelegramApprovalCallbackResult → CallbackReply
  unsupported : ℕ → String → CallbackReply
  callback_crash : Error → CallbackReply

-- status in {"approved", "rejected"}
abbrev is_settled : Option String → Bool
is_settled none = false
is_settled (some status) = status == "approved" || status == "rejected"

module _ (env : Env) where
  unfoldable pub delivered_reply : Store × Option Notification → Store × Reply StatusResponse
  delivered_reply (s, none) = (s, http 404 "notification not found")
  delivered_reply (s, some n) = (s, answer (record { id = n.notification_id; status = n.status }))

  unfoldable pub gateway_notification_delivered : Store → String → Store × Reply StatusResponse
  gateway_notification_delivered s notification_id =
      delivered_reply (mark_notification_delivered env s notification_id)

  unfoldable pub gateway_notifications : Store → String → List Notification
  gateway_notifications s client =
      select (λ n. n.channel == client) (list_notifications s (some "pending"))

  module _ (host : Host) where
    unfoldable pub decision_reply :
        ApprovalRequest → World × Dispatched → World × Reply ApprovalDecisionResponse
    decision_reply approval (w, dispatched task_id) = (
      w,
      answer (record {
        approval_id = approval.approval_id;
        status = approval.status;
        dispatched_task_id = task_id;
      }),
    )
    decision_reply approval (w, dispatch_raised e) = (w, crash e)
    decision_reply approval (w, acl_failed text) = (w, http 422 text)
    decision_reply approval (w, no_task) = (w, http 422 "approval cannot be dispatched")
    decision_reply approval (w, no_component) = (w, http 422 "approval cannot be dispatched")
    decision_reply approval (w, no_acl) = (w, http 422 "approval cannot be dispatched")

    unfoldable pub decide_resolved :
        World
        → Bool
        → Store × Result (Option ApprovalRequest)
        → World × Reply ApprovalDecisionResponse
    decide_resolved w approved (s, raised e) = (with_store w s, crash e)
    decide_resolved w approved (s, ok none) = (with_store w s, http 404 "approval not found")
    decide_resolved w approved (s, ok (some approval)) =
        decision_reply approval (dispatch_resolved env host (with_store w s) approved approval)

    unfoldable pub decide_existing :
        World
        → String
        → String
        → ApprovalDecisionRequest
        → Option ApprovalRequest
        → World × Reply ApprovalDecisionResponse
    decide_existing w approval_id status request none = (w, http 404 "approval not found")
    decide_existing w approval_id status request (some existing) =
        if not (existing.status == "pending")
        then (w, http 409 (join "approval is " existing.status))
        else decide_resolved w (status == "approved")
            (resolve_approval_request env w.store approval_id status request.decided_by)

    unfoldable pub resolve_approval :
        World → String → String → ApprovalDecisionRequest → World × Reply ApprovalDecisionResponse
    resolve_approval w approval_id status request =
        decide_existing w approval_id status request (load_approval_request w.store approval_id)

    unfoldable pub approve_approval :
        World → String → ApprovalDecisionRequest → World × Reply ApprovalDecisionResponse
    approve_approval w approval_id request = resolve_approval w approval_id "approved" request

    unfoldable pub reject_approval :
        World → String → ApprovalDecisionRequest → World × Reply ApprovalDecisionResponse
    reject_approval w approval_id request = resolve_approval w approval_id "rejected" request

    unfoldable pub callback_reply :
        World × Result TelegramApprovalCallbackResult → World × CallbackReply
    callback_reply (w, raised e) = (w, callback_crash e)
    callback_reply (w, ok result) = (
      w,
      if not result.is_ok
          then not_called_back (if is_settled result.status then 409 else 400) result
          else called_back result,
    )

    unfoldable pub gateway_callback : World → String → String → World × CallbackReply
    gateway_callback w callback_data decided_by =
        callback_reply (handle_telegram_approval_callback env host w callback_data decided_by)

    unfoldable pub approval_gateway_callback :
        World → ApprovalGatewayCallbackRequest → World × CallbackReply
    approval_gateway_callback w request =
        if not (request.client == "telegram")
        then (w, unsupported 400 "unsupported approval gateway client")
        else gateway_callback w request.callback_data request.decided_by

    unfoldable pub telegram_callback : World → TelegramCallbackRequest → World × CallbackReply
    telegram_callback w request = gateway_callback w request.callback_data request.decided_by
