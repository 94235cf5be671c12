-- ===== src/Orchestrator.antt =====
-- The orchestrator, OrchestratorService of src/hermes_managed_network/orchestrator.py: the queue of its
-- tasks, its workers, their leases and its reports. The bridge adapter is a parameter: what `dispatch`
-- raises for a task and a worker, if it raises. A `timedelta` is counted in
-- microseconds. The table of the worktrees, which only the calls of git read and write, is not part of
-- the state.
pub mod Workers
pub mod Tick
pub mod Snapshot
pub mod Sweep
pub mod Priority
pub mod Outcomes
pub mod Choosing
pub mod Leases
pub mod Runs
use mathlib.Core.List.{head?, take}
use Prim.Native.String.{◌++◌ as join}
use hermes_managed_network.Prelude.{
  ℕ, zero, suc, ◌+◌, ◌*◌, String, Bool, true, false, Option, none, some, List, [], ◌∷◌, ◌==◌, ◌&&◌,
  not, map, leb, ltb, text_le, if◌then◌else◌,
}
use hermes_managed_network.Json.{
  ℤ, pos, negsuc, Json, Fields, num, string, field, end, get, is_truthy,
}
use hermes_managed_network.Table.{lookup, upsert, insert, select, update, order_by}
use hermes_managed_network.Schema.{
  AuditEvent, Store, Env, Result, ok, raised, integrity_error, now, str, read_clock, draw_id,
}
use hermes_managed_network.Audit.{record_audit, list_audit_events}
use hermes_managed_network.Tasks.{second}

-- a row of orchestrator_tasks
pub record OrchestratorTask : Type 0 where
  pub task_id : String
  pub title : String
  pub scope : String
  pub risk : String
  pub priority : ℤ
  pub status : String
  pub worker_hint : String
  pub source : String
  pub created_at : ℕ
  pub updated_at : ℕ
  pub attempts : ℕ

-- a row of orchestrator_workers
pub record Worker : Type 0 where
  pub worker_id : String
  pub transport : String
  pub status : String
  pub labels : List String
  pub registered_at : ℕ
  pub updated_at : ℕ

-- a row of orchestrator_assignments
pub record Assignment : Type 0 where
  pub assignment_id : String
  pub task_id : String
  pub worker_id : String
  pub status : String
  pub leased_at : ℕ
  pub updated_at : ℕ

-- a row of orchestrator_reports
pub record Report : Type 0 where
  pub report_id : String
  pub task_id : String
  pub status : String
  pub summary : String
  pub created_at : ℕ

-- the tables of the orchestrator beside the others of the store
pub record Board : Type 0 where
  pub store : Store
  pub tasks : List OrchestratorTask
  pub workers : List Worker
  pub assignments : List Assignment
  pub reports : List Report

abbrev pub task_key : OrchestratorTask → String
task_key t = t.task_id

abbrev pub worker_key : Worker → String
worker_key w = w.worker_id

abbrev pub assignment_key : Assignment → String
assignment_key a = a.assignment_id

abbrev pub report_key : Report → String
report_key r = r.report_id

-- a <= b
unfoldable pub int_leb : ℤ → ℤ → Bool
int_leb (pos a) (pos b) = leb a b
int_leb (pos a) (negsuc b) = false
int_leb (negsuc a) (pos b) = true
int_leb (negsuc a) (negsuc b) = leb b a

-- ORDER BY priority DESC, created_at ASC, task_id ASC
unfoldable pub ahead : OrchestratorTask → OrchestratorTask → Bool
ahead a b =
    if not (int_leb a.priority b.priority)
    then true
    else if not (int_leb b.priority a.priority)
    then false
    else if ltb a.created_at b.created_at
    then true
    else if ltb b.created_at a.created_at
    then false
    else text_le a.task_id b.task_id

-- ORDER BY updated_at DESC, worker_id ASC
unfoldable pub fresher : Worker → Worker → Bool
fresher a b =
    if ltb b.updated_at a.updated_at
    then true
    else if ltb a.updated_at b.updated_at
    then false
    else text_le a.worker_id b.worker_id

-- what `dispatch` of the adapter raises, if there is an adapter and it raises
abbrev pub Adapter : Type 0
Adapter = OrchestratorTask → Worker → Option String

pub record Blocked : Type 0 where
  pub task_id : String
  pub reason : String
  pub attempt : Option ℕ

pub record TickResult : Type 0 where
  pub dispatched : List (String × String)
  pub blocked : List Blocked
  pub next : String

abbrev pub on_store : Board → (Store → Store) → Board
on_store b f = record b { store = f b.store }

-- WHERE status = 'queued' AND risk = 'low'
abbrev pub is_ready : OrchestratorTask → Bool
is_ready t = t.status == "queued" && t.risk == "low"

-- WHERE status = 'online' AND transport = 'bridge'
abbrev pub is_bridge : Worker → Bool
is_bridge w = w.status == "online" && w.transport == "bridge"

abbrev pub is_leased : Option OrchestratorTask → Bool
is_leased none = false
is_leased (some t) = t.status == "leased"

-- the rows of assignments that the JOIN selects
abbrev pub leased_rows : Board → List Assignment
leased_rows b =
    select (λ a. a.status == "leased" && is_leased (lookup task_key a.task_id b.tasks))
      b.assignments

-- the two UPDATE statements of a lease that timed out
unfoldable pub expire_lease : ℕ → String → Board → Board
expire_lease at task_id b = record b {
  assignments =
      update (λ a. a.task_id == task_id) (λ a. record a { status = "expired"; updated_at = at })
        b.assignments;
  tasks =
      update (λ t. t.task_id == task_id) (λ t. record t { status = "queued"; updated_at = at })
        b.tasks;
}

-- for leased in leased_rows
unfoldable pub expire_leases : ℕ → ℕ → List Assignment → Board → Board
expire_leases at timeout [] b = b
expire_leases at timeout (a ∷ rest) b =
    expire_leases at timeout rest
      (if ltb (a.leased_at + timeout * second) at then expire_lease at a.task_id b else b)

-- the two SELECT ... LIMIT 1
unfoldable pub next_ready : Board → Option OrchestratorTask
next_ready b = head? (order_by ahead (select is_ready b.tasks))

unfoldable pub next_worker : Board → Option Worker
next_worker b = head? (order_by fresher (select is_bridge b.workers))

module _ (env : Env) where
  abbrev pub new_report : Board → String → String → String → ℕ → Report
  new_report b task_id status summary at = record {
    report_id = join "orch_rep_" (env.hex12 b.store.draws);
    task_id = task_id;
    status = status;
    summary = summary;
    created_at = at;
  }

  unfoldable pub audit : String → String → String → Fields → Board → Board
  audit subject_id action outcome details b =
      on_store b (λ s.
        record_audit env s "orchestrator" "orchestrator_task" subject_id action outcome details)

  unfoldable pub enqueued :
      Board → OrchestratorTask → Option (List OrchestratorTask) → Board × Result String
  enqueued b t none = (b, raised integrity_error)
  enqueued b t (some tasks') = (
    audit t.task_id "enqueue" "queued"
        (field "title" (string t.title) (
          field "scope" (string t.scope) (
            field "risk" (string t.risk) (
              field "priority" (num t.priority) (
                field "worker_hint" (string t.worker_hint)
                  (field "source" (string t.source) end))))))
        (record b { tasks = tasks' }),
    ok t.task_id,
  )

  abbrev pub new_task : Board → String → String → String → ℤ → String → String → OrchestratorTask
  new_task b title scope risk priority worker_hint source = record {
    task_id = join "orch_" (env.hex12 b.store.draws);
    title = title;
    scope = scope;
    risk = risk;
    priority = priority;
    status = "queued";
    worker_hint = worker_hint;
    source = source;
    created_at = now env b.store;
    updated_at = now env b.store;
    attempts = 0;
  }

  unfoldable pub enqueue :
      Board → String → String → String → ℤ → String → String → Board × Result String
  enqueue b title scope risk priority worker_hint source =
      let t = new_task b title scope risk priority worker_hint source in
      enqueued (on_store b (λ s. read_clock (draw_id s))) t (insert task_key t b.tasks)
