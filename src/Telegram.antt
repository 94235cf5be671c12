-- ===== src/Telegram.antt =====
-- Decisions over Telegram: src/hermes_managed_network/approval_telegram_flow.py. The three dispatches that
-- follow a decision are the same calls in _resolve_approval of src/hermes_managed_network/api.py.
pub mod Dispatches
pub mod Callbacks
use Prim.Native.String.{◌++◌ as join}
use hermes_managed_network.Prelude.{
  String, Bool, true, false, Option, none, some, ◌==◌, ◌&&◌, not, starts_with, if◌then◌else◌,
}
use hermes_managed_network.Json.{Json, string, get, is_truthy}
use hermes_managed_network.Schema.{
  ApprovalRequest, ComponentRun, Task, Store, Env, Error, Result, ok, raised, value_error,
  network_provider_error, str,
}
use hermes_managed_network.ApprovalTable.{load_approval_request}
use hermes_managed_network.TaskDispatch.{dispatch_approved_task_request}
use hermes_managed_network.ComponentDispatch.{dispatch_approved_component_action, component_prefix}
use hermes_managed_network.Approvals.{resolve_approval_request}
use hermes_managed_network.NetworkAcl.{Host, World, dispatch_approved_network_acl_apply}
use hermes_managed_network.Cards.{
  ApprovalCard, Callback, build_approval_card, parse_approval_callback,
}

pub record PendingApprovalNotification : Type 0 where
  pub approval_id : String
  pub status : String
  pub delivery_hint : String
  pub card : ApprovalCard

pub record TelegramApprovalCallbackResult : Type 0 where
  pub is_ok : Bool
  pub message : String
  pub approval_id : Option String
  pub status : Option String
  pub dispatched_task_id : Option Json

-- how the dispatches after a decision end
pub data Dispatched : Type 0 where
  dispatched : Option String → Dispatched
  no_task no_component no_acl : Dispatched
  acl_failed : String → Dispatched
  dispatch_raised : Error → Dispatched

-- except NetworkProviderError as exc
abbrev of_acl_error : Error → Dispatched
of_acl_error (network_provider_error text) = acl_failed text
of_acl_error e = dispatch_raised e

-- "approved" if decision == "approve" else "rejected"
abbrev pub target_status : String → String
target_status decision = if decision == "approve" then "approved" else "rejected"

-- a world with another store
abbrev pub with_store : World → Store → World
with_store w s = record w { store = s }

module _ (env : Env) where
  unfoldable pub notification_for : Option ApprovalRequest → Result PendingApprovalNotification
  notification_for none = raised value_error
  notification_for (some approval) = ok (record {
    approval_id = approval.approval_id;
    status = approval.status;
    delivery_hint = "telegram";
    card = build_approval_card env approval;
  })

  unfoldable pub build_pending_approval_notification :
      Store → String → Result PendingApprovalNotification
  build_pending_approval_notification s approval_id =
      notification_for (load_approval_request s approval_id)

  module _ (host : Host) where
    unfoldable pub after_acl : Option String → World × Result Bool → World × Dispatched
    after_acl task_id (w, raised e) = (w, of_acl_error e)
    after_acl task_id (w, ok b) = (w, if b then dispatched task_id else no_acl)

    -- if ... resolved.subject_type == "network_acl" and resolved.action == "network.acl.apply"
    unfoldable pub dispatch_acl_of :
        World → Bool → ApprovalRequest → Option String → World × Dispatched
    dispatch_acl_of w approved resolved task_id =
        if approved
          && resolved.subject_type == "network_acl"
          && resolved.action == "network.acl.apply"
        then after_acl task_id (dispatch_approved_network_acl_apply env host w resolved.approval_id)
        else (w, dispatched task_id)

    unfoldable pub after_component_of :
        World
        → Bool
        → ApprovalRequest
        → Option String
        → Store × Result (Option ComponentRun)
        → World × Dispatched
    after_component_of w approved resolved task_id (s, raised e) =
        (with_store w s, dispatch_raised e)
    after_component_of w approved resolved task_id (s, ok none) = (with_store w s, no_component)
    after_component_of w approved resolved task_id (s, ok (some run)) =
        dispatch_acl_of (with_store w s) approved resolved task_id

    -- if ... resolved.subject_type == "component_run" and resolved.action.startswith("component.")
    unfoldable pub dispatch_component_of :
        World → Bool → ApprovalRequest → Option String → World × Dispatched
    dispatch_component_of w approved resolved task_id =
        if approved
          && resolved.subject_type == "component_run"
          && starts_with resolved.action component_prefix
        then after_component_of w approved resolved task_id
            (dispatch_approved_component_action env w.store resolved.approval_id)
        else dispatch_acl_of w approved resolved task_id

    unfoldable pub after_task_of :
        World → Bool → ApprovalRequest → Store × Result (Option Task) → World × Dispatched
    after_task_of w approved resolved (s, raised e) = (with_store w s, dispatch_raised e)
    after_task_of w approved resolved (s, ok none) = (with_store w s, no_task)
    after_task_of w approved resolved (s, ok (some task)) =
        dispatch_component_of (with_store w s) approved resolved (some task.task_id)

    -- the three dispatches, in their order
    unfoldable pub dispatch_resolved : World → Bool → ApprovalRequest → World × Dispatched
    dispatch_resolved w approved resolved =
        if approved && resolved.subject_type == "task" && resolved.action == "task.run"
        then after_task_of w approved resolved
            (dispatch_approved_task_request env w.store resolved.approval_id)
        else dispatch_component_of w approved resolved none

    -- a failure after the decision
    unfoldable pub undispatched : ApprovalRequest → String → TelegramApprovalCallbackResult
    undispatched resolved message = record {
      is_ok = false;
      message = message;
      approval_id = some resolved.approval_id;
      status = some resolved.status;
      dispatched_task_id = none;
    }

    -- " 已创建任务: ...", if there is a task
    abbrev created_suffix : Option String → String
    created_suffix none = ""
    created_suffix (some task_id) = if task_id == "" then "" else join " 已创建任务: " task_id

    abbrev id_json : Option String → Option Json
    id_json none = none
    id_json (some task_id) = some (string task_id)

    unfoldable pub result_of :
        ApprovalRequest → Bool → World × Dispatched → World × Result TelegramApprovalCallbackResult
    result_of resolved approved (w, dispatch_raised e) = (w, raised e)
    result_of resolved approved (w, no_task) =
        (w, ok (undispatched resolved "已批准，但任务创建失败：审批详情缺少 node_id/command。"))
    result_of resolved approved (w, no_component) =
        (w, ok (undispatched resolved "已批准，但组件操作执行失败：审批详情不完整或动作不可调度。"))
    result_of resolved approved (w, no_acl) =
        (w, ok (undispatched resolved "已批准，但 Headscale ACL 应用失败：审批详情不完整或文件不可用。"))
    result_of resolved approved (w, acl_failed text) =
        (w, ok (undispatched resolved (join "已批准，但 Headscale ACL 应用失败：" text)))
    result_of resolved approved (w, dispatched task_id) = (
      w,
      ok (record {
        is_ok = true;
        message = if approved then join "已批准。" (created_suffix task_id) else "已拒绝。不会创建任务。";
        approval_id = some resolved.approval_id;
        status = some resolved.status;
        dispatched_task_id = id_json task_id;
      }),
    )

    unfoldable pub after_resolve :
        World
        → Bool
        → ApprovalRequest
        → Store × Result (Option ApprovalRequest)
        → World × Result TelegramApprovalCallbackResult
    after_resolve w approved approval (s, raised e) = (with_store w s, raised e)
    after_resolve w approved approval (s, ok none) = (
      with_store w s,
      ok (record {
        is_ok = false;
        message = "审批处理失败。";
        approval_id = some approval.approval_id;
        status = none;
        dispatched_task_id = none;
      }),
    )
    after_resolve w approved approval (s, ok (some resolved)) =
        result_of resolved approved (dispatch_resolved (with_store w s) approved resolved)

    unfoldable pub handle_found :
        World
        → Callback
        → String
        → Option ApprovalRequest
        → World × Result TelegramApprovalCallbackResult
    handle_found w c decided_by none = (
      w,
      ok (record {
        is_ok = false;
        message = "审批不存在或已清理。";
        approval_id = some c.approval_id;
        status = none;
        dispatched_task_id = none;
      }),
    )
    handle_found w c decided_by (some approval) =
        if not (approval.status == "pending")
        then (
          w,
          ok (record {
            is_ok = false;
            message = join "审批已处理：" approval.status;
            approval_id = some approval.approval_id;
            status = some approval.status;
            dispatched_task_id = get "dispatched_task_id" approval.details;
          }),
        )
        else after_resolve w (target_status c.decision == "approved") approval (
            resolve_approval_request env w.store approval.approval_id (target_status c.decision)
              decided_by)

    unfoldable pub handle_parsed :
        World → Option Callback → String → World × Result TelegramApprovalCallbackResult
    handle_parsed w none decided_by = (
      w,
      ok (record {
        is_ok = false;
        message = "无效的审批回调。";
        approval_id = none;
        status = none;
        dispatched_task_id = none;
      }),
    )
    handle_parsed w (some c) decided_by =
        handle_found w c decided_by (load_approval_request w.store c.approval_id)

    unfoldable pub handle_telegram_approval_callback :
        World → String → String → World × Result TelegramApprovalCallbackResult
    handle_telegram_approval_callback w callback_data decided_by =
        handle_parsed w (parse_approval_callback callback_data) decided_by
