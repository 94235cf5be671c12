-- ===== src/TaskDispatch/Outcomes.antt =====
-- The ways in which a dispatch of an approved task request can end, one for each path of the code.
use hermes_managed_network.Prelude.{
  String, ◌≡◌, refl, true, false, Option, none, some, List, ◌==◌, ◌||◌, not, arith, eq→path,
  Bool-cases, Option-cases, inl, inr,
}
use hermes_managed_network.Json.{Fields}
use hermes_managed_network.Table.{insert}
use hermes_managed_network.Schema.{
  ApprovalRequest, Task, Store, Env, Result, ok, raised, integrity_error, read_clock, draw_id,
}
use hermes_managed_network.Audit.{
  task_dispatch_block_reason, latest_node_heartbeat_facts, latest_node_heartbeat_event,
}
use hermes_managed_network.Nodes.{load_node, is_managed}
use hermes_managed_network.Tasks.{task_key, load_task}
use hermes_managed_network.ApprovalTable.{load_approval_request}
use hermes_managed_network.TaskDispatch.{
  has, text_at, dispatch_failed, requested_task, record_dispatch, inserted, unless_blocked,
  dispatch_checked, dispatch_loaded, dispatch_approved_task_request,
}

-- an approved request to run a task
pub record IsApproved (a : ApprovalRequest) : Type 0 where
  pub approved : a.status ≡ "approved"
  pub of_task : a.subject_type ≡ "task"
  pub to_run : a.action ≡ "task.run"

module _ (env : Env) where
  -- what a request must meet for its task to be created
  pub record IsDispatchable (s : Store) (a : ApprovalRequest) : Type 0 where
    pub approval : IsApproved a
    pub first : has "dispatched_task_id" a.details ≡ false
    pub has_node : has "node_id" a.details ≡ true
    pub has_command : has "command" a.details ≡ true
    pub managed : is_managed (load_node s (requested_task env s a).node_id) ≡ true
    pub unblocked : task_dispatch_block_reason env s (requested_task env s a).node_id ≡ none

  pub data Outcome (s : Store) (o : Option ApprovalRequest) (r : Store × Result (Option Task))
      : Type 0 where
    skipped : r ≡ (s, ok none) → Outcome s o r
    again :
        (a : ApprovalRequest)
        → o ≡ some a
        → IsApproved a
        → has "dispatched_task_id" a.details ≡ true
        → r ≡ (s, ok (load_task s (text_at env "dispatched_task_id" a.details)))
        → Outcome s o r
    incomplete :
        (a : ApprovalRequest) (d : Fields)
        → o ≡ some a
        → r ≡ (dispatch_failed env s a d, ok none)
        → Outcome s o r
    blocked :
        (a : ApprovalRequest) (d : Fields)
        → o ≡ some a
        → r ≡ (dispatch_failed env (read_clock (draw_id s)) a d, ok none)
        → Outcome s o r
    collided : r ≡ (read_clock (draw_id s), raised integrity_error) → Outcome s o r
    created :
        (a : ApprovalRequest) (tasks' : List Task)
        → o ≡ some a
        → IsDispatchable s a
        → insert task_key (requested_task env s a) s.tasks ≡ some tasks'
        → r ≡ (
          record_dispatch env
              (record (read_clock (draw_id s)) { tasks = tasks' })
              a
              (requested_task env s a),
          ok (some (requested_task env s a)),
        )
        → Outcome s o r

  module _ (s : Store) (a : ApprovalRequest) where
    abbrev after : Store
    after = read_clock (draw_id s)

    abbrev task : Task
    task = requested_task env s a

    same_node : load_node after task.node_id ≡ load_node s task.node_id
    unfolding load_node
    same_node = refl

    same_reason :
        task_dispatch_block_reason env after task.node_id
        ≡ task_dispatch_block_reason env s task.node_id
    unfolding task_dispatch_block_reason latest_node_heartbeat_facts latest_node_heartbeat_event
    same_reason = refl

    of_insert :
        IsDispatchable s a
        → Outcome s (some a) (inserted env after a task (insert task_key task s.tasks))
    unfolding inserted
    of_insert can = elim (Option-cases (insert task_key task s.tasks)) [
      | inl taken ↦ rw taken (collided refl)
      | inr (tasks', free) ↦ rw free (created a tasks' refl can free refl)
    ]

    of_reason :
        (o : Option String)
        → (o ≡ none → IsDispatchable s a)
        → Outcome s (some a) (unless_blocked env after a task o)
    unfolding unless_blocked
    of_reason none can = of_insert (can refl)
    of_reason (some reason) can = blocked a _ refl refl

    of_checked :
        IsApproved a
        → has "dispatched_task_id" a.details ≡ false
        → has "node_id" a.details ≡ true
        → has "command" a.details ≡ true
        → Outcome s (some a) (dispatch_checked env after a task)
    unfolding dispatch_checked
    of_checked approval first has_node has_command =
        elim (Bool-cases (is_managed (load_node s task.node_id))) [
          | inl managed ↦
              rw (same_node, managed, same_reason)
                (of_reason (task_dispatch_block_reason env s task.node_id) (λ e. record {
                  approval = approval;
                  first = first;
                  has_node = has_node;
                  has_command = has_command;
                  managed = managed;
                  unblocked = e;
                }))
          | inr unmanaged ↦ rw (same_node, unmanaged) (blocked a _ refl refl)
        ]

    of_loaded : Outcome s (some a) (dispatch_loaded env s (some a))
    unfolding dispatch_loaded
    of_loaded = elim (Bool-cases (a.status == "approved")) [
      | inr e ↦ rw e (skipped refl)
      | inl approved ↦
          elim (Bool-cases (not (a.subject_type == "task") || not (a.action == "task.run"))) [
            | inl e ↦ rw (approved, e) (skipped refl)
            | inr for_task ↦ elim (Bool-cases (has "dispatched_task_id" a.details)) [
              | inl e ↦
                  rw (approved, for_task, e) (again a refl (is_approved approved for_task) e refl)
              | inr first ↦
                  elim (Bool-cases
                    (not (has "node_id" a.details) || not (has "command" a.details))) [
                      | inl e ↦ rw (approved, for_task, first, e) (incomplete a _ refl refl)
                      | inr both ↦
                          rw (approved, for_task, first, both)
                            (of_checked (is_approved approved for_task) first (ground arith)
                              (ground arith))
                    ]
            ]
          ]
    ]
      where
        is_approved :
            (a.status == "approved") ≡ true
            → (not (a.subject_type == "task") || not (a.action == "task.run")) ≡ false
            → IsApproved a
        is_approved e f = record {
          approved = eq→path a.status "approved" e;
          of_task = eq→path a.subject_type "task" (ground arith);
          to_run = eq→path a.action "task.run" (ground arith);
        }

  -- Every dispatch ends in one of these ways.
  pub dispatch_Outcome :
      (s : Store) (approval_id : String)
      → Outcome s
          (load_approval_request s approval_id)
          (dispatch_approved_task_request env s approval_id)
  unfolding dispatch_approved_task_request
  dispatch_Outcome s approval_id = of_approval (load_approval_request s approval_id)
    where
      of_approval : (o : Option ApprovalRequest) → Outcome s o (dispatch_loaded env s o)
      of_approval none = skipped (unfold dispatch_loaded in refl)
      of_approval (some a) = of_loaded s a
