-- ===== src/Telegram/Dispatches.antt =====
-- The dispatches after a decision keep the decision.
use mathlib.Core.Option
use hermes_managed_network.Prelude.{
  String, ◌≡◌, refl, ap, ◌∙◌, Bool, false, Option, none, some, ◌==◌, ◌&&◌, inl, inr, Bool-cases,
  starts_with,
}
use hermes_managed_network.Table.{lookup}
use hermes_managed_network.Schema.{
  ApprovalRequest, ComponentRun, Task, Store, Env, Result, ok, raised,
}
use hermes_managed_network.ApprovalTable.{approval_key, load_approval_request}
use hermes_managed_network.TaskDispatch.Outcomes as TaskOutcomes
use hermes_managed_network.ComponentDispatch.{component_prefix}
use hermes_managed_network.ComponentDispatch.Outcomes as ComponentOutcomes
use hermes_managed_network.Approvals.Decision.{
  decision, decision_on, of_task_Outcome, of_component_Outcome,
}
use hermes_managed_network.NetworkAcl.{Host, World, dispatch_approved_network_acl_apply}
use hermes_managed_network.NetworkAcl.Rows.{approvals-dispatch_approved_network_acl_apply}
use hermes_managed_network.Telegram.{
  Dispatched, dispatched, no_task, no_component, no_acl, acl_failed, dispatch_raised, with_store,
  after_acl, dispatch_acl_of, after_component_of, dispatch_component_of, after_task_of,
  dispatch_resolved, result_of, after_resolve,
}

module _ (env : Env) (host : Host) where
  world-after_acl :
      (task_id : Option String) (r : World × Result Bool) → (after_acl env host task_id r).0 ≡ r.0
  unfolding after_acl
  world-after_acl task_id (w, raised e) = refl
  world-after_acl task_id (w, ok b) = refl

  decision-dispatch_acl_of :
      (w : World) (b : Bool) (a : ApprovalRequest) (t : Option String) (id : String)
      → decision_on (dispatch_acl_of env host w b a t).0.store id ≡ decision_on w.store id
  unfolding dispatch_acl_of load_approval_request
  decision-dispatch_acl_of w b a t id =
      elim (Bool-cases (b && a.subject_type == "network_acl" && a.action == "network.acl.apply")) [
        | inl e ↦ rw e (
            rw (world-after_acl t (dispatch_approved_network_acl_apply env host w a.approval_id)) (
              ap (λ rows. Option.map decision (lookup approval_key id rows))
                (approvals-dispatch_approved_network_acl_apply env host w a.approval_id)))
        | inr e ↦ rw e
      ]

  decision-after_component_of :
      (w : World) (b : Bool) (a : ApprovalRequest) (t : Option String) (id : String)
      (r : Store × Result (Option ComponentRun))
      → decision_on (after_component_of env host w b a t r).0.store id ≡ decision_on r.0 id
  unfolding after_component_of
  decision-after_component_of w b a t id (s, raised e) = refl
  decision-after_component_of w b a t id (s, ok none) = refl
  decision-after_component_of w b a t id (s, ok (some run)) =
      decision-dispatch_acl_of (with_store w s) b a t id

  decision-dispatch_component_of :
      (w : World) (b : Bool) (a : ApprovalRequest) (t : Option String) (id : String)
      → decision_on (dispatch_component_of env host w b a t).0.store id ≡ decision_on w.store id
  unfolding dispatch_component_of load_approval_request
  decision-dispatch_component_of w b a t id =
      elim (Bool-cases
        (b && a.subject_type == "component_run" && starts_with a.action component_prefix)) [
          | inl e ↦ rw e (
              decision-after_component_of w b a t id _
              ∙ ap (λ rows. Option.map decision (lookup approval_key id rows))
                  (of_component_Outcome env w.store _ _
                    (ComponentOutcomes.dispatch_Outcome env w.store a.approval_id)))
          | inr e ↦ rw e (decision-dispatch_acl_of w b a t id)
        ]

  decision-after_task_of :
      (w : World) (b : Bool) (a : ApprovalRequest) (id : String) (r : Store × Result (Option Task))
      → decision_on (after_task_of env host w b a r).0.store id ≡ decision_on r.0 id
  unfolding after_task_of
  decision-after_task_of w b a id (s, raised e) = refl
  decision-after_task_of w b a id (s, ok none) = refl
  decision-after_task_of w b a id (s, ok (some task)) =
      decision-dispatch_component_of (with_store w s) b a (some task.task_id) id

  pub decision-dispatch_resolved :
      (w : World) (b : Bool) (a : ApprovalRequest) (id : String)
      → decision_on (dispatch_resolved env host w b a).0.store id ≡ decision_on w.store id
  unfolding dispatch_resolved
  decision-dispatch_resolved w b a id =
      elim (Bool-cases (b && a.subject_type == "task" && a.action == "task.run")) [
        | inl e ↦ rw e (
            decision-after_task_of w b a id _
            ∙ of_task_Outcome env w.store _ _ id
                (TaskOutcomes.dispatch_Outcome env w.store a.approval_id))
        | inr e ↦ rw e (decision-dispatch_component_of w b a none id)
      ]

  pub world-result_of :
      (a : ApprovalRequest) (b : Bool) (x : World × Dispatched) → (result_of env host a b x).0 ≡ x.0
  unfolding result_of
  world-result_of a b (w, dispatched t) = refl
  world-result_of a b (w, no_task) = refl
  world-result_of a b (w, no_component) = refl
  world-result_of a b (w, no_acl) = refl
  world-result_of a b (w, acl_failed text) = refl
  world-result_of a b (w, dispatch_raised e) = refl

  pub decision-after_resolve :
      (w : World) (b : Bool) (a : ApprovalRequest) (id : String)
      (r : Store × Result (Option ApprovalRequest))
      → decision_on (after_resolve env host w b a r).0.store id ≡ decision_on r.0 id
  unfolding after_resolve
  decision-after_resolve w b a id (s, raised e) = refl
  decision-after_resolve w b a id (s, ok none) = refl
  decision-after_resolve w b a id (s, ok (some x)) =
      rw (world-result_of x b (dispatch_resolved env host (with_store w s) b x))
        (decision-dispatch_resolved (with_store w s) b x id)

  -- a decision other than an approval starts none of the dispatches
  pub undecided :
      (w : World) (a : ApprovalRequest)
      → dispatch_resolved env host w false a ≡ (w, dispatched none)
  unfolding dispatch_resolved dispatch_component_of dispatch_acl_of
  undecided w a = refl

  pub world-rejected :
      (w : World) (a : ApprovalRequest) (r : Store × Result (Option ApprovalRequest))
      → (after_resolve env host w false a r).0 ≡ with_store w r.0
  unfolding after_resolve
  world-rejected w a (s, raised e) = refl
  world-rejected w a (s, ok none) = refl
  world-rejected w a (s, ok (some x)) = rw (
    world-result_of x false (dispatch_resolved env host (with_store w s) false x),
    undecided (with_store w s) x,
  )
