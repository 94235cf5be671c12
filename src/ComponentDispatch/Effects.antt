-- ===== src/ComponentDispatch/Effects.antt =====
-- The row of a component on a node before and after a dispatch.
use hermes_managed_network.Prelude.{
  String, ◌≡◌, refl, ap, ◌∙◌, ◌⊎◌, inl, inr, Option, some, if◌then◌else◌,
}
use hermes_managed_network.Json.{Fields}
use hermes_managed_network.Schema.{ApprovalRequest, ComponentRun, Store, Env, Result}
use hermes_managed_network.Audit.{insert_audit_event}
use hermes_managed_network.ApprovalTable.{load_approval_request}
use hermes_managed_network.ComponentTable.{is_item, find_node_component, save_node_component}
use hermes_managed_network.ComponentTable.Items.{find-save_node_component}
use hermes_managed_network.ComponentDispatch.{
  target_item, state_recorded, record_component_dispatch_failure,
  dispatch_approved_component_action,
}
use hermes_managed_network.ComponentDispatch.Outcomes.{Outcome, IsApplicable, dispatch_Outcome}

module _ (env : Env) where
  find-failure :
      (s : Store) (a : ApprovalRequest) (reason : String) (d : Fields) (n c : String)
      → find_node_component (record_component_dispatch_failure env s a reason d) n c
        ≡ find_node_component s n c
  unfolding find_node_component record_component_dispatch_failure insert_audit_event
  find-failure s a reason d n c = refl

  find-state_recorded :
      (s : Store) (a : ApprovalRequest) (run : ComponentRun) (n c : String)
      → find_node_component (state_recorded env s a run) n c
        ≡ find_node_component (save_node_component s (target_item env s a run)) n c
  unfolding find_node_component state_recorded insert_audit_event save_node_component
  find-state_recorded s a run n c = refl

  -- what a dispatch does to the row of a component on a node
  abbrev pub Effect : Store → Option ApprovalRequest → Store → String → String → Type 0
  Effect s o s' n c =
      (find_node_component s' n c ≡ find_node_component s n c)
      ⊎ ((a : ApprovalRequest) × (run : ComponentRun) × (o ≡ some a)
          × IsApplicable env s a run
          × (find_node_component s' n c ≡ (
              if is_item n c (target_item env s a run)
              then some (target_item env s a run)
              else find_node_component s n c)))

  Effect-of_Outcome :
      (s : Store) (o : Option ApprovalRequest) (r : Store × Result (Option ComponentRun))
      (n c : String)
      → Outcome env s o r
      → Effect s o r.0 n c
  Effect-of_Outcome s o r n c (Outcome.skipped e) = inl (ap (λ x. find_node_component x.0 n c) e)
  Effect-of_Outcome s o r n c (Outcome.already a run p q h w e) =
      inl (ap (λ x. find_node_component x.0 n c) e)
  Effect-of_Outcome s o r n c (Outcome.refused a reason d p e) =
      inl (ap (λ x. find_node_component x.0 n c) e ∙ find-failure s a reason d n c)
  Effect-of_Outcome s o r n c (Outcome.recorded a run p can e) = inr (
    a,
    run,
    p,
    can,
    ap (λ x. find_node_component x.0 n c) e
        ∙ find-state_recorded s a run n c
        ∙ find-save_node_component s n c (target_item env s a run),
  )

  -- A dispatch leaves the state of every component on every node as it was, unless the request is
  -- approved, its run waits for approval and agrees with the request in its id, component, node,
  -- action and risk, and the action is an apply or an uninstall; then it stores the planned state of
  -- that run's component on that run's node, and leaves every other as it was.
  pub component_dispatch-Effect :
      (s : Store) (approval_id n c : String)
      → Effect s
          (load_approval_request s approval_id)
          (dispatch_approved_component_action env s approval_id).0
          n
          c
  component_dispatch-Effect s approval_id n c =
      Effect-of_Outcome s (load_approval_request s approval_id)
        (dispatch_approved_component_action env s approval_id) n c
        (dispatch_Outcome env s approval_id)
