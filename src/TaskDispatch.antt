-- ===== src/TaskDispatch.antt =====
-- dispatch_approved_task_request of SQLiteStore (src/hermes_managed_network/storage.py): the transaction
-- that turns an approved request into a task.
pub mod Outcomes
pub mod Safety
pub mod Once
pub mod Created
use hermes_managed_network.Prelude.{
  String, Bool, true, false, Option, none, some, List, [], ◌∷◌, ◌==◌, ◌||◌, not, if◌then◌else◌,
}
use hermes_managed_network.Json.{
  Json, Fields, Items, nil, cons, string, arr, field, end, get, put, is_truthy,
}
use hermes_managed_network.Table.{update, insert}
use hermes_managed_network.Schema.{
  ApprovalRequest, Task, Store, Env, Result, ok, raised, integrity_error, now, str, str_or,
  read_clock, draw_id,
}
use hermes_managed_network.Audit.{event, insert_audit_event, task_dispatch_block_reason}
use hermes_managed_network.Nodes.{load_node, is_managed}
use hermes_managed_network.Tasks.{task_key, load_task, pending_task, new_task_id}
use hermes_managed_network.ApprovalTable.{load_approval_request}

-- bool(d.get(key))
abbrev pub is_set : Option Json → Bool
is_set none = false
is_set (some v) = is_truthy v

abbrev pub has : String → Fields → Bool
has key d = is_set (get key d)

-- [key for key in ("node_id", "command") if not details.get(key)]
abbrev pub missing_keys : Fields → Items
missing_keys d =
    let rest = if has "command" d then nil else cons (string "command") nil in
    if has "node_id" d then rest else cons (string "node_id") rest

module _ (env : Env) where
  -- str(d[key]) of a key that is there
  abbrev pub text_of : Option Json → String
  text_of none = ""
  text_of (some v) = str env v

  abbrev pub text_at : String → Fields → String
  text_at key d = text_of (get key d)

  -- the audit row of a dispatch that fails
  unfoldable pub dispatch_failed : Store → ApprovalRequest → Fields → Store
  unfolding insert_audit_event
  dispatch_failed s approval details = insert_audit_event (read_clock s) (
      event "approval" "task" approval.approval_id "approval/dispatch" "failed" details (now env s))

  -- the task that the request asks for
  unfoldable pub requested_task : Store → ApprovalRequest → Task
  requested_task s approval =
      pending_task (new_task_id env s) (text_at "node_id" approval.details)
        (text_at "command" approval.details) approval.risk
        (str_or env "created_by" approval.details approval.requested_by) (now env s)
        (str_or env "executor" approval.details "worker")

  -- UPDATE approval_requests SET details_json, and the two audit rows
  unfoldable pub record_dispatch : Store → ApprovalRequest → Task → Store
  unfolding insert_audit_event
  record_dispatch s approval task =
      let details' = put "dispatched_task_id" (string task.task_id) approval.details in
      let s' = record s {
        approval_requests =
            update (λ a. a.approval_id == approval.approval_id)
              (λ a. record a { details = details' }) s.approval_requests;
      } in
      let s'' = insert_audit_event (read_clock (read_clock s')) (
        event "task" "task" task.task_id "create" "ok"
          (field "node_id" (string task.node_id) (
            field "command" (string task.command)
              (field "risk" (string task.risk) (field "executor" (string task.executor) end))))
          (now env s')) in
      insert_audit_event s'' (
        event "approval" "task" approval.approval_id "approval/dispatch" "ok"
          (field "subject_id" (string approval.subject_id) (
            field "task_id" (string task.task_id) (
              field "node_id" (string task.node_id) (
                field "command" (string task.command) (
                  field "risk" (string task.risk) (
                    field "executor" (string task.executor)
                      (field "created_by" (string task.created_by) end)))))))
          (now env (read_clock s')))

  -- what follows INSERT INTO tasks; a taken id raises, and the transaction is rolled back
  unfoldable pub inserted :
      Store → ApprovalRequest → Task → Option (List Task) → Store × Result (Option Task)
  inserted s approval task none = (s, raised integrity_error)
  inserted s approval task (some tasks') =
      (record_dispatch (record s { tasks = tasks' }) approval task, ok (some task))

  -- if dispatch_block_reason: ...
  unfoldable pub unless_blocked :
      Store → ApprovalRequest → Task → Option String → Store × Result (Option Task)
  unless_blocked s approval task (some reason) = (
    dispatch_failed s approval
        (field "reason" (string reason) (field "node_id" (string task.node_id) end)),
    ok none,
  )
  unless_blocked s approval task none = inserted s approval task (insert task_key task s.tasks)

  unfoldable pub dispatch_checked : Store → ApprovalRequest → Task → Store × Result (Option Task)
  dispatch_checked s approval task =
      if not (is_managed (load_node s task.node_id))
      then (
        dispatch_failed s approval (
            field "reason" (string "node not managed") (field "node_id" (string task.node_id) end)),
        ok none,
      )
      else unless_blocked s approval task (task_dispatch_block_reason env s task.node_id)

  unfoldable pub dispatch_loaded : Store → Option ApprovalRequest → Store × Result (Option Task)
  dispatch_loaded s none = (s, ok none)
  dispatch_loaded s (some approval) =
      if not (approval.status == "approved")
      then (s, ok none)
      else if not (approval.subject_type == "task") || not (approval.action == "task.run")
      then (s, ok none)
      else if has "dispatched_task_id" approval.details
      then (s, ok (load_task s (text_at "dispatched_task_id" approval.details)))
      else if not (has "node_id" approval.details) || not (has "command" approval.details)
      then (
        dispatch_failed s approval (
            field "missing" (arr (missing_keys approval.details))
              (field "subject_id" (string approval.subject_id) end)),
        ok none,
      )
      else dispatch_checked (read_clock (draw_id s)) approval (requested_task s approval)

  unfoldable pub dispatch_approved_task_request : Store → String → Store × Result (Option Task)
  dispatch_approved_task_request s approval_id =
      dispatch_loaded s (load_approval_request s approval_id)
