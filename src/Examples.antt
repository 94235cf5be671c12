-- ===== src/Examples.antt =====
-- A small network to run the model on: what the operations take from outside, and rows of each table.
pub mod TokenRuns
pub mod NodeRuns
pub mod TaskRuns
pub mod TaskDispatchRuns
pub mod ComponentRuns
pub mod DecisionRuns
pub mod NotificationRuns
pub mod SshRuns
pub mod ApiRuns
pub mod CardRuns
pub mod OrchestratorRuns
pub mod GatewayRuns
pub mod ServiceRuns
pub mod SessionRuns
pub mod PlaybookRuns
use hermes_managed_network.Prelude.{ℕ, zero, suc, ◌+◌, String, true, none, some, List, [], ◌∷◌}
use hermes_managed_network.Json.{Fields, bool, string, obj, field, end}
use hermes_managed_network.Schema.{
  JoinToken, Node, Task, ApprovalRequest, AuditEvent, ComponentRun, Store, Env, new_store,
}
use hermes_managed_network.Nodes.{pending_node}
use hermes_managed_network.Tasks.{pending_task}
use hermes_managed_network.Audit.{event}

abbrev hex_of : ℕ → String
hex_of zero = "00000000000a"
hex_of (suc _) = "00000000000b"

abbrev pub host : Env
host = record {
  now = λ n. n + 1000;
  hex12 = hex_of;
  isoformat = λ _. "2026-01-01T00:00:00+00:00";
  repr = λ _. "{}";
}

abbrev pub open_token : JoinToken
open_token = record {
  value = "j_a";
  trust_level = "B";
  labels = [];
  expires_at = 5000;
  status = "pending";
  created_at = 10;
  used_at = none;
  node_fingerprint = none;
}

abbrev pub old_token : JoinToken
old_token = record open_token { value = "j_b"; expires_at = 500 }

abbrev pub tokens_store : Store
tokens_store = record new_store { join_tokens = open_token ∷ old_token ∷ [] }

abbrev pub edge : Node
edge = record (pending_node "n1" "fp1" "edge" [] "B" []) { status = "managed" }

abbrev pub first_task : Task
first_task = pending_task "task_1" "n1" "uptime" "low" "ops" 10 "worker"

abbrev pub second_task : Task
second_task = pending_task "task_2" "n1" "df" "low" "ops" 20 "worker"

abbrev pub tasks_store : Store
tasks_store = record new_store { nodes = edge ∷ []; tasks = second_task ∷ first_task ∷ [] }

-- a heartbeat of a node that takes tasks
abbrev heartbeat : AuditEvent
heartbeat =
    event "node" "node" "n1" "heartbeat" "ok"
      (field "facts" (obj (field "exec_enabled" (bool true) end)) end) 50

abbrev pub asked : ApprovalRequest
asked = record {
  approval_id = "appr_1";
  subject_type = "task";
  subject_id = "n1";
  action = "task.run";
  risk = "high";
  status = "pending";
  requested_by = "ops";
  details = field "node_id" (string "n1") (field "command" (string "reboot") end);
  created_at = 30;
  decided_by = "";
  decided_at = none;
}

abbrev pub granted : ApprovalRequest
granted = record asked { status = "approved"; decided_by = "admin"; decided_at = some 40 }

abbrev pub asked_store : Store
asked_store = record tasks_store { approval_requests = asked ∷ []; audit_events = heartbeat ∷ [] }

abbrev pub granted_store : Store
granted_store = record asked_store { approval_requests = granted ∷ [] }

abbrev pub waiting_run : ComponentRun
waiting_run = record {
  run_id = "crun_1";
  component_id = "node-exporter";
  node_id = "n1";
  action = "apply";
  risk = "medium";
  status = "pending_approval";
  plan = end;
  result = end;
  created_by = "ops";
  created_at = 20;
  completed_at = none;
}

abbrev pub granted_run : ApprovalRequest
granted_run = record {
  approval_id = "appr_2";
  subject_type = "component_run";
  subject_id = "crun_1";
  action = "component.apply";
  risk = "medium";
  status = "approved";
  requested_by = "ops";
  details = field "run_id" (string "crun_1") (
      field "component_id" (string "node-exporter")
        (field "node_id" (string "n1") (field "action" (string "apply") end)));
  created_at = 30;
  decided_by = "admin";
  decided_at = some 40;
}

abbrev pub components_store : Store
components_store = record tasks_store {
  approval_requests = granted_run ∷ [];
  component_runs = waiting_run ∷ [];
}
