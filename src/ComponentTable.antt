-- ===== src/ComponentTable.antt =====
-- The tables node_components and component_runs of SQLiteStore
-- (src/hermes_managed_network/storage.py).
pub mod Items
use Prim.Native.String.{◌++◌ as join}
use hermes_managed_network.Prelude.{
  ℕ, String, Bool, true, false, Option, none, some, List, leb, ◌==◌, ◌&&◌, text_le, if◌then◌else◌,
}
use hermes_managed_network.Json.{Fields, string, field, end}
use hermes_managed_network.Table.{lookup, find, upsert_where, update, insert, select, order_by}
use hermes_managed_network.Schema.{
  NodeComponent, ComponentRun, Store, Env, Result, ok, raised, integrity_error, now, read_clock,
  draw_id,
}
use hermes_managed_network.Audit.{record_audit}

abbrev pub run_key : ComponentRun → String
run_key r = r.run_id

-- node_id = ? AND component_id = ?
abbrev pub is_item : String → String → NodeComponent → Bool
is_item node_id component_id c = c.node_id == node_id && c.component_id == component_id

unfoldable pub save_node_component : Store → NodeComponent → Store
save_node_component s item = record s {
  node_components = upsert_where (is_item item.node_id item.component_id) item s.node_components;
}

unfoldable pub set_node_component :
    Store
    → String
    → String
    → String
    → String
    → Fields
    → String
    → String
    → String
    → String
    → Option ℕ
    → Store × NodeComponent
unfolding save_node_component
set_node_component s node_id component_id desired_state current_state config installed_version
      driver last_plan_id last_run_id last_verified_at =
    let item : NodeComponent = record {
      node_id = node_id;
      component_id = component_id;
      desired_state = desired_state;
      current_state = current_state;
      config = config;
      installed_version = installed_version;
      driver = driver;
      last_plan_id = last_plan_id;
      last_run_id = last_run_id;
      last_verified_at = last_verified_at;
    } in
    (save_node_component s item, item)

unfoldable pub find_node_component : Store → String → String → Option NodeComponent
find_node_component s node_id component_id = find (is_item node_id component_id) s.node_components

-- ORDER BY node_id, component_id
item_le : NodeComponent → NodeComponent → Bool
item_le a b =
    if a.node_id == b.node_id
    then text_le a.component_id b.component_id
    else text_le a.node_id b.node_id

unfoldable pub list_node_components : Store → Option String → List NodeComponent
unfolding item_le
list_node_components s none = order_by item_le s.node_components
list_node_components s (some node_id) =
    if node_id == ""
    then order_by item_le s.node_components
    else order_by (λ a b. text_le a.component_id b.component_id)
        (select (λ c. c.node_id == node_id) s.node_components)

unfoldable pub load_component_run : Store → String → Option ComponentRun
load_component_run s run_id = lookup run_key run_id s.component_runs

unfoldable pub list_component_runs : Store → List ComponentRun
list_component_runs s = order_by (λ a b. leb b.created_at a.created_at) s.component_runs

-- the columns that an UPDATE of a run sets
abbrev pub with_progress : ComponentRun → ComponentRun → ComponentRun
with_progress new old = record old {
  status = new.status;
  plan = new.plan;
  result = new.result;
  completed_at = new.completed_at;
}

unfoldable pub save_component_run : Store → ComponentRun → Store
save_component_run s run = record s {
  component_runs = update (λ r. r.run_id == run.run_id) (with_progress run) s.component_runs;
}

module _ (env : Env) where
  -- the run is inserted in a transaction of its own; the audit row follows
  run_inserted : Store → ComponentRun → Option (List ComponentRun) → Store × Result ComponentRun
  run_inserted s run none = (s, raised integrity_error)
  run_inserted s run (some runs) = (
    record_audit env (record s { component_runs = runs }) "component" "component" run.component_id
        run.action run.status
        (field "node_id" (string run.node_id)
          (field "run_id" (string run.run_id) (field "risk" (string run.risk) end))),
    ok run,
  )

  unfoldable pub record_component_run :
      Store
      → String
      → String
      → String
      → String
      → String
      → Fields
      → Fields
      → String
      → Store × Result ComponentRun
  unfolding run_inserted
  record_component_run s component_id node_id action risk status plan result created_by =
      let run : ComponentRun = record {
        run_id = join "crun_" (env.hex12 s.draws);
        component_id = component_id;
        node_id = node_id;
        action = action;
        risk = risk;
        status = status;
        plan = plan;
        result = result;
        created_by = created_by;
        created_at = now env s;
        completed_at = none;
      } in
      run_inserted (read_clock (draw_id s)) run (insert run_key run s.component_runs)
