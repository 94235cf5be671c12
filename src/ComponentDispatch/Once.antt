-- ===== src/ComponentDispatch/Once.antt =====
-- The second dispatch of a component request, after the first has recorded its run.
use mathlib.Core.Path.{subst}
use hermes_managed_network.Prelude.{
  String, ◌≡◌, refl, sym, ap, ◌∙◌, true, some, not, ◌==◌, path→eq, Bool,
}
use hermes_managed_network.Table.Laws.{lookup-update_key, key-lookup}
use hermes_managed_network.Schema.{ApprovalRequest, ComponentRun, Store, Env, ok}
use hermes_managed_network.Audit.{insert_audit_event}
use hermes_managed_network.ApprovalTable.{load_approval_request}
use hermes_managed_network.ComponentTable.{
  run_key, load_component_run, save_node_component, with_progress,
}
use hermes_managed_network.ComponentDispatch.{
  state_recorded, recorded_run, dispatch_found, dispatch_request,
  dispatch_approved_component_action,
}
use hermes_managed_network.ComponentDispatch.Outcomes.{Outcome, IsApproved, dispatch_Outcome}

abbrev open_run : ComponentRun → Bool
open_run r = not (r.status == "state_recorded")

module _ (env : Env) where
  pub load-state_recorded :
      (s : Store) (a : ApprovalRequest) (run : ComponentRun)
      → load_component_run s a.subject_id ≡ some run
      → run.status ≡ "pending_approval"
      → load_component_run (state_recorded env s a run) a.subject_id
        ≡ some (recorded_run env s a run)
  unfolding state_recorded load_component_run recorded_run insert_audit_event save_node_component
  load-state_recorded s a run there waiting =
      let own_id = key-lookup run_key a.subject_id s.component_runs run there in
      let open_now : open_run run ≡ true = rw waiting in
      lookup-update_key run_key a.subject_id run.run_id open_run
        (with_progress (recorded_run env s a run)) (λ _. refl) s.component_runs
      ∙ rw (path→eq run.run_id a.subject_id own_id, there, open_now)

  approvals-state_recorded :
      (s : Store) (a : ApprovalRequest) (run : ComponentRun) (id : String)
      → load_approval_request (state_recorded env s a run) id ≡ load_approval_request s id
  unfolding state_recorded load_approval_request insert_audit_event save_node_component
  approvals-state_recorded s a run id = refl

  again_of :
      (s : Store) (id : String) (a : ApprovalRequest) (run : ComponentRun)
      → load_approval_request s id ≡ some a
      → IsApproved a
      → load_component_run s a.subject_id ≡ some run
      → run.status ≡ "state_recorded"
      → dispatch_approved_component_action env s id ≡ (s, ok (some run))
  unfolding dispatch_approved_component_action dispatch_request dispatch_found
  again_of s id a run p ready there done =
      rw (p, ready.approved, ready.of_run, ready.of_component, there, done)

  same_again :
      (s : Store) (id : String) (run : ComponentRun) (s' : Store)
      → (dispatch_approved_component_action env s id).0 ≡ s'
      → dispatch_approved_component_action env s' id ≡ (s', ok (some run))
      → dispatch_approved_component_action env (dispatch_approved_component_action env s id).0 id
        ≡ ((dispatch_approved_component_action env s id).0, ok (some run))
  same_again s id run s' e h =
      subst (λ z. dispatch_approved_component_action env z id ≡ (z, ok (some run))) (sym e) h

  once_of_Outcome :
      (s : Store) (id : String) (run : ComponentRun)
      → Outcome env s (load_approval_request s id) (dispatch_approved_component_action env s id)
      → (dispatch_approved_component_action env s id).1 ≡ ok (some run)
      → dispatch_approved_component_action env (dispatch_approved_component_action env s id).0 id
        ≡ ((dispatch_approved_component_action env s id).0, ok (some run))
  once_of_Outcome s id run (Outcome.skipped e) h = cc (ap (λ r. r.1) e)
  once_of_Outcome s id run (Outcome.refused a reason d p e) h = cc (ap (λ r. r.1) e)
  once_of_Outcome s id run (Outcome.already a run' p ready there done e) h =
      same_again s id run s (ap (λ r. r.0) e) (e ∙ ap (λ o. (s, o)) (sym (ap (λ r. r.1) e) ∙ h))
  once_of_Outcome s id run (Outcome.recorded a run' p can e) h =
      let s' = state_recorded env s a run' in
      same_again s id run s' (ap (λ r. r.0) e) (
        again_of s' id a (recorded_run env s a run') (approvals-state_recorded s a run' id ∙ p)
          can.approval (load-state_recorded s a run' can.there can.waiting)
          (unfold recorded_run in refl)
        ∙ ap (λ o. (s', o)) (sym (ap (λ r. r.1) e) ∙ h))

  -- When a dispatch has returned a run, dispatching the same request again returns that run and
  -- leaves the store exactly as it is.
  pub component_dispatch_once :
      (s : Store) (approval_id : String) (run : ComponentRun)
      → (dispatch_approved_component_action env s approval_id).1 ≡ ok (some run)
      → dispatch_approved_component_action env
          (dispatch_approved_component_action env s approval_id).0
          approval_id
        ≡ ((dispatch_approved_component_action env s approval_id).0, ok (some run))
  component_dispatch_once s approval_id run h =
      once_of_Outcome s approval_id run (dispatch_Outcome env s approval_id) h
