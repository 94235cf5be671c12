-- ===== src/Audit.antt =====
-- The audit log of SQLiteStore (src/hermes_managed_network/storage.py): record_audit, the rows that the
-- transactions write themselves, and the queries on heartbeats.
use mathlib.Core.List.{head?}
use hermes_managed_network.Prelude.{
  ℕ, String, Bool, true, false, Option, none, some, List, [], ◌∷◌, ◌++◌, ◌&&◌, ◌==◌, leb,
  if◌then◌else◌,
}
use hermes_managed_network.Json.{Json, Fields, bool, obj, end, get, is_truthy}
use hermes_managed_network.Text.{normal_is}
use hermes_managed_network.Table.{select, order_by, lookup}
use hermes_managed_network.Schema.{Node, AuditEvent, Store, Env, now, str_or, read_clock}

-- the tuple of the source's keyword arguments, in their order
abbrev pub event : String → String → String → String → String → Fields → ℕ → AuditEvent
event event_type subject_type subject_id action outcome details created_at = record {
  event_type = event_type;
  subject_type = subject_type;
  subject_id = subject_id;
  action = action;
  outcome = outcome;
  details = details;
  created_at = created_at;
}

-- INSERT INTO audit_events; the id column is the position
unfoldable pub insert_audit_event : Store → AuditEvent → Store
insert_audit_event s e = record s { audit_events = s.audit_events ++ e ∷ [] }

-- ORDER BY created_at DESC, id DESC: the later row of two that are alike comes first, so the rows
-- are taken from the last
newer_first : List AuditEvent → List AuditEvent → List AuditEvent
newer_first acc [] = order_by (λ a b. leb b.created_at a.created_at) acc
newer_first acc (e ∷ es) = newer_first (e ∷ acc) es

-- SELECT ... ORDER BY id
unfoldable pub list_audit_events : Store → List AuditEvent
list_audit_events s = s.audit_events

is_heartbeat : String → AuditEvent → Bool
is_heartbeat node_id e =
    e.event_type == "node"
    && e.subject_type == "node"
    && e.subject_id == node_id
    && e.action == "heartbeat"

unfoldable pub latest_node_heartbeat_event : Store → String → Option AuditEvent
unfolding newer_first is_heartbeat
latest_node_heartbeat_event s node_id =
    head? (newer_first [] (select (is_heartbeat node_id) s.audit_events))

some_row : List AuditEvent → Bool
some_row [] = false
some_row (_ ∷ _) = true

unfoldable pub has_successful_node_heartbeat : Store → String → Bool
unfolding is_heartbeat some_row
has_successful_node_heartbeat s node_id =
    some_row (select (λ e. is_heartbeat node_id e && e.outcome == "ok") s.audit_events)

facts_of : Option Json → Fields
facts_of (some (obj facts)) = facts
facts_of _ = end

facts_of_event : Option AuditEvent → Fields
facts_of_event none = end
facts_of_event (some e) = facts_of (get "facts" e.details)

unfoldable pub latest_node_heartbeat_facts : Store → String → Fields
unfolding facts_of facts_of_event
latest_node_heartbeat_facts s node_id = facts_of_event (latest_node_heartbeat_event s node_id)

-- value is False
is_false : Option Json → Bool
is_false (some (bool false)) = true
is_false _ = false

module _ (env : Env) where
  unfoldable pub record_audit : Store → String → String → String → String → String → Fields → Store
  unfolding insert_audit_event
  record_audit s event_type subject_type subject_id action outcome details =
      insert_audit_event (read_clock s)
        (event event_type subject_type subject_id action outcome details (now env s))

  -- the tests on the facts of the last heartbeat
  unfoldable pub facts_block_reason : Fields → Option String
  unfolding is_false
  facts_block_reason facts =
      if is_truthy (obj facts)
      then (if normal_is (str_or env "worker_mode" facts "") "beacon"
          then some "node is beacon-only"
          else if normal_is (str_or env "task_policy" facts "") "heartbeat-only"
          then some "node heartbeat-only policy blocks task dispatch"
          else if is_false (get "can_poll_tasks" facts)
          then some "node cannot poll tasks"
          else if is_false (get "exec_enabled" facts)
          then some "node execution disabled"
          else none)
      else none

  block_reason_of : Store → String → Option Node → Option String
  block_reason_of s node_id none = some "node not found"
  block_reason_of s node_id (some node) =
      if node.status == "managed"
      then facts_block_reason (latest_node_heartbeat_facts s node_id)
      else some "node not managed"

  unfoldable pub task_dispatch_block_reason : Store → String → Option String
  unfolding block_reason_of
  task_dispatch_block_reason s node_id =
      block_reason_of s node_id (lookup (λ n. n.node_id) node_id s.nodes)
