-- ===== src/Examples/TaskDispatchRuns.antt =====
-- Runs of the dispatch of an approved task.
use hermes_managed_network.Text.{normal_is}
use hermes_managed_network.Audit.{
  task_dispatch_block_reason, facts_block_reason, latest_node_heartbeat_facts,
  latest_node_heartbeat_event,
}
use hermes_managed_network.Nodes.{load_node}
use hermes_managed_network.Json.{get, is_truthy}
use hermes_managed_network.Prelude.{◌≡◌, refl, none, some}
use hermes_managed_network.Table.{lookup, order_by, select}
use hermes_managed_network.Schema.{ApprovalRequest, Task, Store, ok, str, str_or}
use hermes_managed_network.Tasks.{load_task}
use hermes_managed_network.ApprovalTable.{load_approval_request}
use hermes_managed_network.TaskDispatch.{requested_task, dispatch_approved_task_request}
use hermes_managed_network.TaskDispatch.Outcomes.{IsDispatchable}
use hermes_managed_network.TaskDispatch.Safety.{dispatch_adds_approved}
use hermes_managed_network.TaskDispatch.Once.{dispatch_once}
use hermes_managed_network.TaskDispatch.Created.{dispatch_creates}
use hermes_managed_network.Examples.{host, granted, granted_store}

abbrev dispatched_store : Store
dispatched_store = (dispatch_approved_task_request host granted_store "appr_1").0

abbrev reboot : Task
reboot = requested_task host granted_store granted

holds_granted : load_approval_request granted_store "appr_1" ≡ some granted
unfolding load_approval_request lookup
holds_granted = refl

can_dispatch : IsDispatchable host granted_store granted
unfolding get is_truthy load_node lookup requested_task str task_dispatch_block_reason
    facts_block_reason latest_node_heartbeat_facts latest_node_heartbeat_event select order_by
    normal_is str_or
can_dispatch = record {
  approval = record { approved = refl; of_task = refl; to_run = refl };
  first = refl;
  has_node = refl;
  has_command = refl;
  managed = refl;
  unblocked = refl;
}

no_reboot : load_task granted_store reboot.task_id ≡ none
unfolding load_task lookup requested_task
no_reboot = refl

dispatch_creates_example :
    ((dispatch_approved_task_request host granted_store "appr_1").1 ≡ ok (some reboot))
    × (load_task (dispatch_approved_task_request host granted_store "appr_1").0 reboot.task_id
        ≡ some reboot)
dispatch_creates_example =
    dispatch_creates host granted_store "appr_1" granted holds_granted can_dispatch no_reboot

returns_reboot : (dispatch_approved_task_request host granted_store "appr_1").1 ≡ ok (some reboot)
returns_reboot =
    (dispatch_creates host granted_store "appr_1" granted holds_granted can_dispatch no_reboot).0

holds_reboot : load_task dispatched_store reboot.task_id ≡ some reboot
holds_reboot =
    (dispatch_creates host granted_store "appr_1" granted holds_granted can_dispatch no_reboot).1

dispatch_adds_approved_example :
    (a : ApprovalRequest) × (load_approval_request granted_store "appr_1" ≡ some a)
    × IsDispatchable host granted_store a
    × (reboot ≡ requested_task host granted_store a)
dispatch_adds_approved_example =
    dispatch_adds_approved host granted_store "appr_1" reboot.task_id reboot no_reboot holds_reboot

dispatch_once_example :
    dispatch_approved_task_request host dispatched_store "appr_1"
    ≡ (dispatched_store, ok (some reboot))
dispatch_once_example = dispatch_once host granted_store "appr_1" reboot returns_reboot
