-- ===== src/Tasks.antt =====
-- The task queue: the operations of SQLiteStore on the table tasks
-- (src/hermes_managed_network/storage.py). Each operation below a BEGIN IMMEDIATE is one transaction.
-- A `timedelta` is counted in microseconds.
pub mod Output
pub mod Rows
pub mod Report
pub mod Claim
pub mod Watchdog
pub mod Lifecycle
pub mod Keys
pub mod AtMostOnce
use mathlib.Core.List.{head?}
use Prim.Native.String.{◌++◌ as join}
use hermes_managed_network.Prelude.{
  ℕ, zero, suc, ◌+◌, ◌*◌, String, Bool, true, false, Option, none, some, List, [], ◌∷◌, not, ◌==◌,
  ◌&&◌, leb, map, if◌then◌else◌,
}
use hermes_managed_network.Json.{ℤ, pos, is_zero, Json, null, num, string, Fields, field, end}
use hermes_managed_network.Table.{lookup, upsert, select, update, rowcount, order_by}
use hermes_managed_network.Schema.{Node, Task, Store, Env, now, read_clock, draw_id}
use hermes_managed_network.Audit.{event, insert_audit_event, record_audit}
use hermes_managed_network.Nodes.{load_node, is_managed}
use hermes_managed_network.Tasks.Output.{cap_task_output}

abbrev pub task_key : Task → String
task_key t = t.task_id

abbrev pub second : ℕ
second = 1_000_000

unfoldable pub save_task : Store → Task → Store
save_task s task = record s { tasks = upsert task_key task s.tasks }

unfoldable pub load_task : Store → String → Option Task
load_task s task_id = lookup task_key task_id s.tasks

unfoldable pub list_tasks : Store → List Task
list_tasks s = order_by (λ a b. leb b.created_at a.created_at) s.tasks

-- Task(...) with the defaults of the dataclass
abbrev pub pending_task : String → String → String → String → String → ℕ → String → Task
pending_task task_id node_id command risk created_by created_at executor = record {
  task_id = task_id;
  node_id = node_id;
  command = command;
  risk = risk;
  status = "pending";
  created_by = created_by;
  created_at = created_at;
  executor = executor;
  started_at = none;
  completed_at = none;
  exit_code = none;
  stdout = "";
  stderr = "";
  claimed_at = none;
  lease_expires_at = none;
  attempt_count = 0;
  failure_reason = "";
}

-- "task_" + uuid4().hex[:12]
abbrev pub new_task_id : Env → Store → String
new_task_id env s = join "task_" (env.hex12 s.draws)

-- COALESCE(value, at)
abbrev pub coalesce : Option ℕ → ℕ → Option ℕ
coalesce none at = some at
coalesce (some t) at = some t

-- the columns that a claim, an expiry and a result set
abbrev pub claimed : ℕ → ℕ → Task → Task
claimed at lease_expires_at t = record t {
  status = "running";
  started_at = coalesce t.started_at at;
  claimed_at = some at;
  lease_expires_at = some lease_expires_at;
  attempt_count = t.attempt_count + 1;
}

abbrev pub lease_expired : ℕ → Task → Task
lease_expired at t = record t {
  status = "failed";
  completed_at = some at;
  failure_reason = "worker_lease_expired";
}

abbrev pub result_status : ℤ → String
result_status exit_code = if is_zero exit_code then "succeeded" else "failed"

abbrev pub completed : ℕ → ℤ → String → String → Task → Task
completed at exit_code stdout stderr t = record t {
  status = result_status exit_code;
  completed_at = some at;
  exit_code = some exit_code;
  stdout = cap_task_output stdout;
  stderr = cap_task_output stderr;
  failure_reason = if is_zero exit_code then "" else "exit_code_nonzero";
}

-- node_id = ? AND executor = ? AND status = 'pending'
abbrev pub is_waiting : String → String → Task → Bool
is_waiting node_id executor t =
    t.node_id == node_id && t.executor == executor && t.status == "pending"

-- lease_expires_at IS NOT NULL AND lease_expires_at <= at - older_than
abbrev pub lease_over : ℕ → ℕ → Option ℕ → Bool
lease_over at older_than none = false
lease_over at older_than (some lease) = leb (lease + older_than) at

-- status = 'running' AND executor = 'worker' AND the lease is over
abbrev pub is_stuck : ℕ → ℕ → Task → Bool
is_stuck at older_than t =
    t.status == "running" && t.executor == "worker" && lease_over at older_than t.lease_expires_at

-- ORDER BY lease_expires_at, created_at; a NULL comes first
abbrev lease_le : Option ℕ → Option ℕ → ℕ → ℕ → Bool
lease_le none none c d = leb c d
lease_le none (some l) c d = true
lease_le (some k) none c d = false
lease_le (some k) (some l) c d = if leb l k then (if leb k l then leb c d else false) else true

-- conn.total_changes == 0
abbrev is_none : ℕ → Bool
is_none zero = true
is_none (suc n) = false

module _ (env : Env) where
  unfoldable pub create_task : Store → String → String → String → String → String → Store × Task
  unfolding save_task record_audit
  create_task s node_id command risk created_by executor =
      let task =
        pending_task (new_task_id env s) node_id command risk created_by (now env s) executor in
      (
        record_audit env (save_task (read_clock (draw_id s)) task) "task" "task" task.task_id
            "create" "ok"
            (field "node_id" (string node_id) (
              field "command" (string command)
                (field "risk" (string risk) (field "executor" (string executor) end)))),
        task,
      )

  -- the row that the SELECT of claim_next_task found is updated and read again
  unfoldable pub claim_row : Store → String → String → ℕ → ℕ → Task → Store × Option Task
  unfolding insert_audit_event
  claim_row s node_id executor lease_seconds at row =
      let lease_expires_at = at + lease_seconds * second in
      let tasks' =
        update (λ t. t.task_id == row.task_id && t.status == "pending")
          (claimed at lease_expires_at) s.tasks in
      (
        insert_audit_event (record s { tasks = tasks' })
            (event "task" "task" row.task_id "dispatch" "ok"
              (field "node_id" (string node_id) (
                field "executor" (string executor)
                  (field "lease_seconds" (num (pos lease_seconds)) end)))
              at),
        lookup task_key row.task_id tasks',
      )

  -- SELECT ... ORDER BY created_at LIMIT 1
  unfoldable pub next_waiting : Store → String → String → Option Task
  next_waiting s node_id executor = head? (
      order_by (λ a b. leb a.created_at b.created_at)
        (select (is_waiting node_id executor) s.tasks))

  unfoldable pub claim_found : Store → String → String → ℕ → ℕ → Option Task → Store × Option Task
  unfolding claim_row
  claim_found s node_id executor lease_seconds at none = (s, none)
  claim_found s node_id executor lease_seconds at (some row) =
      claim_row s node_id executor lease_seconds at row

  unfoldable pub claim_next_task : Store → String → String → ℕ → Store × Option Task
  unfolding claim_found
  claim_next_task s node_id executor lease_seconds =
      let s' = read_clock s in
      if is_managed (load_node s' node_id)
      then claim_found s' node_id executor lease_seconds (now env s)
          (next_waiting s' node_id executor)
      else (s', none)

  -- lease_expires_at as the column holds it
  lease_text : Option ℕ → Json
  lease_text none = null
  lease_text (some lease) = string (env.isoformat lease)

  unfoldable pub expire_row : ℕ → Store → Task → Store
  unfolding insert_audit_event lease_text
  expire_row at s row =
      insert_audit_event
        (record s {
          tasks =
              update (λ t. t.task_id == row.task_id && t.status == "running") (lease_expired at)
                s.tasks;
        })
        (event "task" "task" row.task_id "watchdog/expire" "failed"
          (field "node_id" (string row.node_id)
            (field "lease_expires_at" (lease_text row.lease_expires_at) end))
          at)

  unfoldable pub expire_rows : ℕ → List Task → Store → Store
  expire_rows at [] s = s
  expire_rows at (row ∷ rows) s = expire_rows at rows (expire_row at s row)

  unfoldable pub stuck_rows : ℕ → ℕ → Store → List Task
  stuck_rows at older_than s =
      order_by (λ a b. lease_le a.lease_expires_at b.lease_expires_at a.created_at b.created_at)
        (select (is_stuck at older_than) s.tasks)

  -- expire_stuck_tasks(older_than_seconds=..., now=at); no `older_than_seconds` is 0
  unfoldable pub expire_stuck_tasks_at : ℕ → ℕ → Store → Store × List String
  unfolding stuck_rows
  expire_stuck_tasks_at at older_than_seconds s =
      let rows = stuck_rows at (older_than_seconds * second) s in
      (expire_rows at rows s, map task_key rows)

  unfoldable pub expire_stuck_tasks : ℕ → Store → Store × List String
  unfolding expire_stuck_tasks_at
  expire_stuck_tasks older_than_seconds s =
      expire_stuck_tasks_at (now env s) older_than_seconds (read_clock s)

  unfoldable pub complete_found :
      Store → String → ℕ → ℤ → String → String → Option Task → Store × Option Task
  unfolding insert_audit_event
  complete_found s task_id at exit_code stdout stderr none = (s, none)
  complete_found s task_id at exit_code stdout stderr (some row) =
      let here = λ (t : Task). t.task_id == task_id && t.status == "running" in
      let tasks' = update here (completed at exit_code stdout stderr) s.tasks in
      if not (row.status == "running")
      then (s, none)
      else if is_none (rowcount here s.tasks)
      then (s, none)
      else (
        insert_audit_event (record s { tasks = tasks' })
            (event "task" "task" task_id "task_result" (result_status exit_code)
              (field "node_id" (string row.node_id) (field "exit_code" (num exit_code) end)) at),
        lookup task_key task_id tasks',
      )

  unfoldable pub complete_task : Store → String → ℤ → String → String → Store × Option Task
  unfolding complete_found load_task
  complete_task s task_id exit_code stdout stderr =
      complete_found (read_clock s) task_id (now env s) exit_code stdout stderr
        (load_task s task_id)
