-- ===== src/ComponentDispatch/Recorded.antt =====
-- The dispatch of a component request that meets all conditions.
use hermes_managed_network.Prelude.{
  String, ◌≡◌, refl, ap, true, false, some, ◌==◌, inl, inr, path→eq,
}
use hermes_managed_network.Schema.{ApprovalRequest, ComponentRun, Store, Env, ok}
use hermes_managed_network.ApprovalTable.{load_approval_request}
use hermes_managed_network.ComponentTable.{save_node_component, load_component_run}
use hermes_managed_network.ComponentDispatch.{
  requested_action, state_recorded, recorded_run, record_state, dispatch_run, dispatch_found,
  dispatch_request, dispatch_approved_component_action, not_dispatchable,
}
use hermes_managed_network.ComponentDispatch.Outcomes.{IsApplicable, found_row}
use hermes_managed_network.ComponentDispatch.Once.{load-state_recorded}

module _ (env : Env) where
  module _ (s : Store) (a : ApprovalRequest) (run : ComponentRun)
      (can : IsApplicable env s a run) where
    dispatchable : not_dispatchable (requested_action env a run) ≡ false
    dispatchable = elim can.action [
      | inl e ↦ rw (path→eq (requested_action env a run) "apply" e)
      | inr e ↦ rw e
    ]

    is_waiting : (run.status == "pending_approval") ≡ true
    is_waiting = path→eq run.status "pending_approval" can.waiting

    recorded_of_run :
        dispatch_run env s a run
        ≡ (state_recorded env s a run, ok (some (recorded_run env s a run)))
    unfolding dispatch_run record_state save_node_component
    recorded_of_run =
        rw (can.agree, is_waiting, dispatchable, found_row env s a run can.there is_waiting)

    recorded_of_request :
        dispatch_request env s (some a)
        ≡ (state_recorded env s a run, ok (some (recorded_run env s a run)))
    unfolding dispatch_request dispatch_found
    recorded_of_request =
        rw
          (
            path→eq a.status "approved" can.approval.approved,
            path→eq a.subject_type "component_run" can.approval.of_run,
            can.approval.of_component,
            can.there,
            ap (λ t. t == "state_recorded") can.waiting,
          )
          recorded_of_run

  -- An approved request whose run waits for approval and agrees with it in every field, for an apply
  -- or an uninstall, is dispatched: the dispatch returns the run as recorded, and the table holds that.
  pub component_dispatch_records :
      (s : Store) (approval_id : String) (a : ApprovalRequest) (run : ComponentRun)
      → load_approval_request s approval_id ≡ some a
      → IsApplicable env s a run
      → let r = dispatch_approved_component_action env s approval_id in
        (r.1 ≡ ok (some (recorded_run env s a run)))
        × (load_component_run r.0 a.subject_id ≡ some (recorded_run env s a run))
  unfolding dispatch_approved_component_action
  component_dispatch_records s approval_id a run there can =
      rw (there, recorded_of_request s a run can)
        (refl, load-state_recorded env s a run can.there can.waiting)
