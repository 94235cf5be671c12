-- ===== src/Approvals.antt =====
-- Deciding an approval request: resolve_approval_request of SQLiteStore
-- (src/hermes_managed_network/storage.py), which saves the decision, writes it to the audit log and
-- starts the dispatch of what was approved, each in a transaction of its own.
pub mod Decision
pub mod Rejection
use Prim.Native.String.{◌++◌ as join}
use hermes_managed_network.Prelude.{
  String, Bool, true, false, Option, none, some, ◌==◌, ◌&&◌, ◌||◌, not, starts_with, if◌then◌else◌,
}
use hermes_managed_network.Json.{string, field, end}
use hermes_managed_network.Schema.{
  ApprovalRequest, Task, ComponentRun, Store, Env, Error, Result, ok, raised, value_error, now,
  read_clock,
}
use hermes_managed_network.Audit.{record_audit}
use hermes_managed_network.ApprovalTable.{load_approval_request, save_approval_request}
use hermes_managed_network.TaskDispatch.{dispatch_approved_task_request}
use hermes_managed_network.ComponentDispatch.{dispatch_approved_component_action, component_prefix}

-- status in {"approved", "rejected"}
abbrev pub is_decision : String → Bool
is_decision status = status == "approved" || status == "rejected"

module _ (env : Env) where
  -- the request with the decision
  abbrev pub decided : Store → ApprovalRequest → String → String → ApprovalRequest
  decided s approval status decided_by = record approval {
    status = status;
    decided_by = decided_by;
    decided_at = some (now env s);
  }

  -- the decision, saved and written to the audit log
  unfoldable pub save_decision : Store → ApprovalRequest → Store
  save_decision s approval =
      record_audit env (save_approval_request (read_clock s) approval) "approval"
        approval.subject_type approval.approval_id (join "approval/" approval.status)
        approval.status
        (field "subject_id" (string approval.subject_id) (
          field "risk" (string approval.risk)
            (field "decided_by" (string approval.decided_by) end)))

  unfoldable pub dispatch_approved_component_apply :
      Store → String → Store × Result (Option ComponentRun)
  dispatch_approved_component_apply s approval_id =
      dispatch_approved_component_action env s approval_id

  -- if status == "approved" and subject_type == "component_run" and ...
  unfoldable pub dispatch_component : Store → ApprovalRequest → Store × Result (Option ComponentRun)
  dispatch_component s approval =
      if approval.status == "approved"
        && approval.subject_type == "component_run"
        && starts_with approval.action component_prefix
      then dispatch_approved_component_action env s approval.approval_id
      else (s, ok none)

  -- what follows the dispatch of the component, if that did not raise
  unfoldable pub after_component :
      ApprovalRequest
      → Store × Result (Option ComponentRun)
      → Store × Result (Option ApprovalRequest)
  after_component approval (s, raised e) = (s, raised e)
  after_component approval (s, ok _) = (s, ok (some approval))

  -- what follows the dispatch of the task, if that did not raise
  unfoldable pub after_task :
      ApprovalRequest → Store × Result (Option Task) → Store × Result (Option ApprovalRequest)
  after_task approval (s, raised e) = (s, raised e)
  after_task approval (s, ok _) = after_component approval (dispatch_component s approval)

  -- if status == "approved" and subject_type == "task" and action == "task.run"
  unfoldable pub dispatch_task : Store → ApprovalRequest → Store × Result (Option Task)
  dispatch_task s approval =
      if approval.status == "approved"
        && approval.subject_type == "task"
        && approval.action == "task.run"
      then dispatch_approved_task_request env s approval.approval_id
      else (s, ok none)

  unfoldable pub resolve_pending : Store → ApprovalRequest → Store × Result (Option ApprovalRequest)
  resolve_pending s approval =
      after_task approval (dispatch_task (save_decision s approval) approval)

  unfoldable pub resolve_loaded :
      Store → Option ApprovalRequest → String → String → Store × Result (Option ApprovalRequest)
  resolve_loaded s none status decided_by = (s, ok none)
  resolve_loaded s (some approval) status decided_by =
      if not (approval.status == "pending")
      then (s, ok (some approval))
      else resolve_pending s (decided s approval status decided_by)

  unfoldable pub resolve_approval_request :
      Store → String → String → String → Store × Result (Option ApprovalRequest)
  resolve_approval_request s approval_id status decided_by =
      if not (is_decision status)
      then (s, raised value_error)
      else resolve_loaded s (load_approval_request s approval_id) status decided_by
