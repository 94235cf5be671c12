-- ===== src/Examples/ComponentRuns.antt =====
-- Runs of the dispatch of an approved component action.
use hermes_managed_network.Json.{get, is_truthy}
use hermes_managed_network.Text.{remove_prefix}
use hermes_managed_network.Table.{lookup}
use hermes_managed_network.Prelude.{◌≡◌, refl, some, inl}
use hermes_managed_network.Schema.{ok, Store, str_or, str}
use hermes_managed_network.ApprovalTable.{load_approval_request}
use hermes_managed_network.ComponentTable.{load_component_run}
use hermes_managed_network.ComponentDispatch.{
  recorded_run, dispatch_approved_component_action, mismatches, requested_action,
}
use hermes_managed_network.ComponentDispatch.Outcomes.{IsApplicable}
use hermes_managed_network.ComponentDispatch.Effects.{Effect, component_dispatch-Effect}
use hermes_managed_network.ComponentDispatch.Recorded.{component_dispatch_records}
use hermes_managed_network.ComponentDispatch.Once.{component_dispatch_once}
use hermes_managed_network.Examples.{host, granted_run, waiting_run, components_store}

abbrev recorded_store : Store
recorded_store = (dispatch_approved_component_action host components_store "appr_2").0

holds_request : load_approval_request components_store "appr_2" ≡ some granted_run
unfolding load_approval_request lookup
holds_request = refl

can_apply : IsApplicable host components_store granted_run waiting_run
unfolding load_component_run lookup mismatches remove_prefix str_or get is_truthy str
    requested_action
can_apply = record {
  approval = record { approved = refl; of_run = refl; of_component = refl };
  there = refl;
  agree = refl;
  waiting = refl;
  action = inl refl;
}

component_dispatch-Effect_example :
    Effect host components_store
      (load_approval_request components_store "appr_2")
      recorded_store
      "n1"
      "node-exporter"
component_dispatch-Effect_example =
    component_dispatch-Effect host components_store "appr_2" "n1" "node-exporter"

component_dispatch_records_example :
    ((dispatch_approved_component_action host components_store "appr_2").1
      ≡ ok (some (recorded_run host components_store granted_run waiting_run)))
    × (load_component_run
          (dispatch_approved_component_action host components_store "appr_2").0
          "crun_1"
        ≡ some (recorded_run host components_store granted_run waiting_run))
component_dispatch_records_example =
    component_dispatch_records host components_store "appr_2" granted_run waiting_run holds_request
      can_apply

returns_run :
    (dispatch_approved_component_action host components_store "appr_2").1
    ≡ ok (some (recorded_run host components_store granted_run waiting_run))
returns_run =
    (component_dispatch_records host components_store "appr_2" granted_run waiting_run holds_request
      can_apply).0

component_dispatch_once_example :
    dispatch_approved_component_action host recorded_store "appr_2"
    ≡ (recorded_store, ok (some (recorded_run host components_store granted_run waiting_run)))
component_dispatch_once_example =
    component_dispatch_once host components_store "appr_2"
      (recorded_run host components_store granted_run waiting_run) returns_run
