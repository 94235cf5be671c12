-- ===== src/ComponentDispatch.antt =====
-- dispatch_approved_component_action of SQLiteStore (src/hermes_managed_network/storage.py): the
-- transaction that records an approved change of a component.
pub mod Outcomes
pub mod Effects
pub mod Once
pub mod Recorded
use hermes_managed_network.Prelude.{
  ℕ, String, Bool, true, false, Option, none, some, List, [], ◌∷◌, ◌==◌, ◌&&◌, ◌||◌, not, text_le,
  starts_with, if◌then◌else◌,
}
use hermes_managed_network.Json.{
  Json, Fields, Items, nil, cons, bool, string, arr, obj, field, end, get, merge, texts,
}
use hermes_managed_network.Text.{remove_prefix}
use hermes_managed_network.Table.{update, rowcount, order_by}
use hermes_managed_network.Schema.{
  ApprovalRequest, NodeComponent, ComponentRun, Store, Env, Result, ok, now, str_or, read_clock,
}
use hermes_managed_network.Audit.{event, insert_audit_event}
use hermes_managed_network.ApprovalTable.{load_approval_request}
use hermes_managed_network.ComponentTable.{
  find_node_component, save_node_component, load_component_run, with_progress,
}

abbrev pub component_prefix : String
component_prefix = "component."

-- approval.action.removeprefix("component.")
abbrev pub approval_action : ApprovalRequest → String
approval_action approval = remove_prefix approval.action component_prefix

-- a value or, if it is empty, the other
abbrev or_text : String → String → String
or_text a b = if a == "" then b else a

-- config if isinstance(config, dict) else {}
config_of : Option Json → Fields
config_of (some (obj config)) = config
config_of _ = end

abbrev pub is_zero_rows : ℕ → Bool
is_zero_rows n = elim n [ ℕ.zero ↦ true | ℕ.suc m ↦ false ]

-- action not in {"apply", "uninstall"}
abbrev not_dispatchable : String → Bool
not_dispatchable action = not (action == "apply" || action == "uninstall")

-- bool(names)
abbrev is_nonempty : List String → Bool
is_nonempty [] = false
is_nonempty (_ ∷ _) = true

-- name, if the two differ
abbrev differ : String → String → String → List String → List String
differ name observed expected rest = if observed == expected then rest else name ∷ rest

-- run_id = ? AND status != 'state_recorded'
abbrev pub not_recorded : String → ComponentRun → Bool
not_recorded run_id r = r.run_id == run_id && not (r.status == "state_recorded")

module _ (env : Env) where
  -- the action that the details of the request name
  unfoldable pub requested_action : ApprovalRequest → ComponentRun → String
  requested_action approval run =
      str_or env "action" approval.details (or_text (approval_action approval) run.action)

  -- where the request and the run do not agree
  unfoldable pub mismatches : ApprovalRequest → ComponentRun → List String
  mismatches approval run = differ "approval.action" (approval_action approval) run.action (
      differ "run_id" (str_or env "run_id" approval.details approval.subject_id) run.run_id (
        differ "component_id" (str_or env "component_id" approval.details "") run.component_id (
          differ "node_id" (str_or env "node_id" approval.details "") run.node_id (
            differ "action" (requested_action approval run) run.action
              (differ "risk" approval.risk run.risk [])))))

  unfoldable pub record_component_dispatch_failure :
      Store → ApprovalRequest → String → Fields → Store
  record_component_dispatch_failure s approval reason details = insert_audit_event (read_clock s) (
      event "approval" "component_run" approval.approval_id "approval/dispatch" "failed"
        (merge
          (field "subject_id" (string approval.subject_id) (field "reason" (string reason) end))
          details)
        (now env s))

  -- the row of node_components that an apply writes
  applied_item : ApprovalRequest → ComponentRun → NodeComponent
  applied_item approval run = record {
    node_id = run.node_id;
    component_id = run.component_id;
    desired_state = "enabled";
    current_state = "planned";
    config = config_of (get "config" approval.details);
    installed_version = str_or env "version" approval.details "";
    driver = str_or env "driver" approval.details "";
    last_plan_id = "";
    last_run_id = run.run_id;
    last_verified_at = none;
  }

  -- the row that an uninstall writes: the configuration, version and driver of the existing row stay
  uninstalled_item : ApprovalRequest → ComponentRun → Option NodeComponent → NodeComponent
  uninstalled_item approval run none = record (applied_item approval run) {
    desired_state = "absent";
  }
  uninstalled_item approval run (some existing) = record (applied_item approval run) {
    desired_state = "absent";
    config = existing.config;
    installed_version = existing.installed_version;
    driver = existing.driver;
  }

  unfoldable pub target_item : Store → ApprovalRequest → ComponentRun → NodeComponent
  unfolding applied_item uninstalled_item config_of
  target_item s approval run =
      if requested_action approval run == "uninstall"
      then uninstalled_item approval run (find_node_component s run.node_id run.component_id)
      else applied_item approval run

  unfoldable pub recorded_run : Store → ApprovalRequest → ComponentRun → ComponentRun
  recorded_run s approval run = record run {
    status = "state_recorded";
    result = merge run.result (
        field "machine_changed" (bool false) (
          field "state_closed_loop" (bool true) (
            field "remote_execution" (string "not_enabled") (
              field "approval_id" (string approval.approval_id)
                (field "approved_by" (string approval.decided_by) end)))));
    completed_at = some (now env s);
  }

  -- the store with the item, the run and the audit row of a dispatch that succeeds
  unfoldable pub state_recorded : Store → ApprovalRequest → ComponentRun → Store
  state_recorded s approval run =
      let saved = save_node_component s (target_item s approval run) in
      let s' = record (read_clock saved) {
        component_runs =
            update (not_recorded run.run_id) (with_progress (recorded_run s approval run))
              saved.component_runs;
      } in
      insert_audit_event (read_clock s') (
        event "component" "component" run.component_id (requested_action approval run)
          "state_recorded"
          (field "node_id" (string run.node_id) (
            field "run_id" (string run.run_id) (
              field "risk" (string run.risk)
                (field "approval_id" (string approval.approval_id) end))))
          (now env s'))

  -- UPDATE component_runs ... WHERE run_id = ? AND status != 'state_recorded'. If it changes no row,
  -- the run is read again and given back, without an audit row; the row of the component stays written.
  unfoldable pub record_state :
      Store → ApprovalRequest → ComponentRun → Store × Result (Option ComponentRun)
  record_state s approval run =
      let saved = save_node_component s (target_item s approval run) in
      if is_zero_rows (rowcount (not_recorded run.run_id) saved.component_runs)
      then (read_clock saved, ok (load_component_run saved run.run_id))
      else (state_recorded s approval run, ok (some (recorded_run s approval run)))

  unfoldable pub dispatch_run :
      Store → ApprovalRequest → ComponentRun → Store × Result (Option ComponentRun)
  dispatch_run s approval run =
      let names = mismatches approval run in
      if is_nonempty names
      then (
        record_component_dispatch_failure s approval "component approval details mismatch" (
            field "mismatched" (arr (texts (order_by text_le names)))
              (field "run_id" (string run.run_id) end)),
        ok none,
      )
      else if not (run.status == "pending_approval")
      then (
        record_component_dispatch_failure s approval "component run is not pending approval"
            (field "run_id" (string run.run_id) (field "run_status" (string run.status) end)),
        ok none,
      )
      else if not_dispatchable (requested_action approval run)
      then (
        record_component_dispatch_failure s approval "component action is not dispatchable" (
            field "run_id" (string run.run_id)
              (field "component_action" (string (requested_action approval run)) end)),
        ok none,
      )
      else record_state s approval run

  unfoldable pub dispatch_found :
      Store → ApprovalRequest → Option ComponentRun → Store × Result (Option ComponentRun)
  dispatch_found s approval none = (s, ok none)
  dispatch_found s approval (some run) =
      if run.status == "state_recorded" then (s, ok (some run)) else dispatch_run s approval run

  unfoldable pub dispatch_request :
      Store → Option ApprovalRequest → Store × Result (Option ComponentRun)
  dispatch_request s none = (s, ok none)
  dispatch_request s (some approval) =
      if not (approval.status == "approved")
      then (s, ok none)
      else if not (approval.subject_type == "component_run")
          || not (starts_with approval.action component_prefix)
      then (s, ok none)
      else dispatch_found s approval (load_component_run s approval.subject_id)

  unfoldable pub dispatch_approved_component_action :
      Store → String → Store × Result (Option ComponentRun)
  dispatch_approved_component_action s approval_id =
      dispatch_request s (load_approval_request s approval_id)
