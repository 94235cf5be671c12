-- ===== src/Examples/ApiRuns.antt =====
-- Runs of the HTTP handlers.
use hermes_managed_network.Prelude.{String, ◌≡◌, refl, some, [], ◌∷◌, true}
use hermes_managed_network.Json.{pos}
use hermes_managed_network.Table.{lookup, find, order_by, select, update, IsKeyed}
use hermes_managed_network.Text.{join_with, split, is_char, before_first}
use hermes_managed_network.Signing.{sign_task_payload}
use hermes_managed_network.Audit.{insert_audit_event}
use hermes_managed_network.Nodes.{load_node}
use hermes_managed_network.Tasks.{
  task_key, expire_stuck_tasks, expire_stuck_tasks_at, stuck_rows, expire_rows, expire_row,
  next_waiting, claim_found, claim_row,
}
use hermes_managed_network.Schema.{Store}
use hermes_managed_network.Tasks.{load_task, claim_next_task}
use hermes_managed_network.Version.{worker_protocol_version, is_worker_compatible, major_minor}
use hermes_managed_network.Api.{answer, managed_caller}
use hermes_managed_network.Api.Join.{JoinRequest, join}
use hermes_managed_network.Api.Join.Admission.{Joining, join-Joining}
use hermes_managed_network.Api.Work.{
  NodeAuthRequest, TaskResponse, TaskResultRequest, next_task, next_task_by, hand_out, task_result,
}
use hermes_managed_network.Api.Work.Handing.{Assigned, next_task-Assigned}
use hermes_managed_network.Api.Work.Results.{Reported, task_result-Reported}
use hermes_managed_network.Examples.{host, tokens_store, tasks_store}

abbrev asking : JoinRequest
asking = record {
  token = "j_a";
  fingerprint = "fp7";
  hostname = "attic";
  addresses = "10.0.0.7" ∷ [];
  auto_confirm = true;
}

join-Joining_example : Joining host tokens_store asking (join host tokens_store asking)
join-Joining_example = join-Joining host tokens_store asking

-- a code of the payload that keeps both of its parts
abbrev code : String → String → String
code key message = message

abbrev polling : NodeAuthRequest
polling = record { fingerprint = "fp1"; worker_version = some worker_protocol_version }

abbrev handed : TaskResponse
handed = record {
  task_id = "task_1";
  command = "uptime";
  risk = "low";
  signature = sign_task_payload code "fp1" "task_1" "uptime" "low";
}

unique_tasks : IsKeyed task_key tasks_store.tasks
unfolding lookup
unique_tasks = (refl, (refl, tt))

gets_first : (next_task host code tasks_store "n1" polling).1 ≡ answer (some handed)
unfolding next_task next_task_by managed_caller load_node lookup is_worker_compatible major_minor
    join_with hand_out claim_next_task expire_stuck_tasks expire_rows order_by select next_waiting
    update before_first is_char split claim_found claim_row expire_row expire_stuck_tasks_at
    stuck_rows find insert_audit_event
gets_first = refl

next_task-Assigned_example :
    Assigned host code tasks_store "n1" polling
      (next_task host code tasks_store "n1" polling).0
      handed
next_task-Assigned_example =
    next_task-Assigned host code tasks_store "n1" polling unique_tasks handed gets_first

abbrev running_store : Store
running_store = (claim_next_task host tasks_store "n1" "worker" 300).0

abbrev finished_well : TaskResultRequest
finished_well = record { fingerprint = "fp1"; exit_code = pos 0; out = "up"; err = "" }

task_result-Reported_example :
    Reported host running_store "task_1" finished_well
      (load_task running_store "task_1")
      (task_result host running_store "task_1" finished_well)
task_result-Reported_example = task_result-Reported host running_store "task_1" finished_well
