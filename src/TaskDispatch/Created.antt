-- ===== src/TaskDispatch/Created.antt =====
-- The dispatch of a request that meets all conditions.
use hermes_managed_network.Prelude.{
  String, ◌≡◌, refl, ◌∙◌, none, some, ◌∷◌, [], ◌++◌, eq_refl, path→eq,
}
use hermes_managed_network.Table.{insert}
use hermes_managed_network.Table.Laws.{insert-none}
use hermes_managed_network.Schema.{ApprovalRequest, Task, Store, Env, ok, read_clock, draw_id}
use hermes_managed_network.Audit.{
  task_dispatch_block_reason, latest_node_heartbeat_facts, latest_node_heartbeat_event,
}
use hermes_managed_network.Nodes.{load_node}
use hermes_managed_network.Tasks.{task_key, load_task}
use hermes_managed_network.ApprovalTable.{load_approval_request}
use hermes_managed_network.TaskDispatch.{
  requested_task, record_dispatch, inserted, unless_blocked, dispatch_checked, dispatch_loaded,
  dispatch_approved_task_request,
}
use hermes_managed_network.TaskDispatch.Outcomes.{IsDispatchable}
use hermes_managed_network.TaskDispatch.Safety.{load-created}

module _ (env : Env) where
  module _ (s : Store) (a : ApprovalRequest) (can : IsDispatchable env s a)
      (free : load_task s (requested_task env s a).task_id ≡ none) where
    abbrev task : Task
    task = requested_task env s a

    abbrev with_row : Store
    with_row = record (read_clock (draw_id s)) { tasks = s.tasks ++ task ∷ [] }

    insert_free : insert task_key task s.tasks ≡ some (s.tasks ++ task ∷ [])
    unfolding load_task
    insert_free = insert-none task_key task s.tasks free

    created_of_checked :
        dispatch_checked env (read_clock (draw_id s)) a task
        ≡ (record_dispatch env with_row a task, ok (some task))
    unfolding dispatch_checked unless_blocked inserted load_node task_dispatch_block_reason
        latest_node_heartbeat_facts latest_node_heartbeat_event
    created_of_checked = rw (can.managed, can.unblocked, insert_free)

    created_of_loaded :
        dispatch_loaded env s (some a) ≡ (record_dispatch env with_row a task, ok (some task))
    unfolding dispatch_loaded
    created_of_loaded =
        rw
          (
            path→eq a.status "approved" can.approval.approved,
            path→eq a.subject_type "task" can.approval.of_task,
            path→eq a.action "task.run" can.approval.to_run,
            can.first,
            can.has_node,
            can.has_command,
          )
          created_of_checked

  -- A request that is approved, asks to run a task, names a node and a command, was not dispatched
  -- before, and whose node is managed and not blocked by its last heartbeat, is dispatched: if the
  -- drawn id is not taken, the dispatch returns the requested task and the table holds it.
  pub dispatch_creates :
      (s : Store) (approval_id : String) (a : ApprovalRequest)
      → load_approval_request s approval_id ≡ some a
      → IsDispatchable env s a
      → load_task s (requested_task env s a).task_id ≡ none
      → let r = dispatch_approved_task_request env s approval_id in
        (r.1 ≡ ok (some (requested_task env s a)))
        × (load_task r.0 (requested_task env s a).task_id ≡ some (requested_task env s a))
  unfolding dispatch_approved_task_request
  dispatch_creates s approval_id a there can free =
      rw (there, created_of_loaded s a can free)
        (
          refl,
          load-created env s a (requested_task env s a) (s.tasks ++ requested_task env s a ∷ [])
                (requested_task env s a).task_id (insert_free s a can free)
              ∙ rw (free, eq_refl),
        )
