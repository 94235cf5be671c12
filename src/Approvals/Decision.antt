-- ===== src/Approvals/Decision.antt =====
-- The decision on an approval request, through resolve_approval_request and the dispatches that follow.
use mathlib.Core.Option
use hermes_managed_network.Prelude.{
  String, ◌≡◌, refl, sym, ap, ◌∙◌, inl, inr, Bool, true, Bool-cases, Option, none, some, List, ◌==◌,
  ◌&&◌, eq_refl, path→eq, starts_with, if◌then◌else◌,
}
use hermes_managed_network.Json.{Fields, string, put}
use hermes_managed_network.Table.{lookup}
use hermes_managed_network.Table.Laws.{lookup-upsert, lookup-update, key-lookup}
use hermes_managed_network.Schema.{
  ApprovalRequest, Task, ComponentRun, Store, Env, Result, ok, raised, read_clock, draw_id,
}
use hermes_managed_network.Audit.{insert_audit_event, record_audit}
use hermes_managed_network.ApprovalTable.{
  approval_key, load_approval_request, save_approval_request,
}
use hermes_managed_network.TaskDispatch.{dispatch_failed, requested_task, record_dispatch}
use hermes_managed_network.TaskDispatch.Outcomes as TaskOutcomes
use hermes_managed_network.ComponentTable.{save_node_component}
use hermes_managed_network.ComponentDispatch.{
  state_recorded, record_component_dispatch_failure, component_prefix,
}
use hermes_managed_network.ComponentDispatch.Outcomes as ComponentOutcomes
use hermes_managed_network.Approvals.{
  is_decision, decided, save_decision, dispatch_component, after_component, after_task,
  dispatch_task, resolve_pending, resolve_loaded, resolve_approval_request,
}

-- what was decided, and by whom
abbrev pub decision : ApprovalRequest → String × String
decision a = (a.status, a.decided_by)

-- the decision on the request with an id
abbrev pub decision_on : Store → String → Option (String × String)
decision_on s id = Option.map decision (load_approval_request s id)

-- the UPDATE of a dispatch
abbrev marked : ApprovalRequest → Task → ApprovalRequest → ApprovalRequest
marked a t x = record x { details = put "dispatched_task_id" (string t.task_id) a.details }

decision_of_marked :
    (p : ApprovalRequest → Bool) (f : ApprovalRequest → ApprovalRequest)
    → ((x : ApprovalRequest) → decision (f x) ≡ decision x)
    → (o : Option ApprovalRequest)
    → Option.map decision (Option.map (λ x. if p x then f x else x) o) ≡ Option.map decision o
decision_of_marked p f same none = refl
decision_of_marked p f same (some x) = elim (Bool-cases (p x)) [
  | inl e ↦ rw e (ap (λ d. some d) (same x))
  | inr e ↦ rw e
]

module _ (env : Env) where
  decision-record_dispatch :
      (s : Store) (a : ApprovalRequest) (t : Task) (id : String)
      → decision_on (record_dispatch env s a t) id ≡ decision_on s id
  unfolding load_approval_request record_dispatch
  decision-record_dispatch s a t id =
      ap (λ o. Option.map decision o)
        (lookup-update approval_key id (λ x. x.approval_id == a.approval_id) (marked a t)
          (λ _. refl) s.approval_requests)
      ∙ decision_of_marked (λ x. x.approval_id == a.approval_id) (marked a t) (λ _. refl)
          (load_approval_request s id)

  decision-dispatch_failed :
      (s : Store) (a : ApprovalRequest) (d : Fields) (id : String)
      → decision_on (dispatch_failed env s a d) id ≡ decision_on s id
  unfolding load_approval_request dispatch_failed
  decision-dispatch_failed s a d id = refl

  decision-drawn :
      (s : Store) (id : String) → decision_on (read_clock (draw_id s)) id ≡ decision_on s id
  unfolding load_approval_request
  decision-drawn s id = refl

  decision-with_tasks :
      (s : Store) (tasks' : List Task) (id : String)
      → decision_on (record (read_clock (draw_id s)) { tasks = tasks' }) id ≡ decision_on s id
  unfolding load_approval_request
  decision-with_tasks s tasks' id = refl

  pub of_task_Outcome :
      (s : Store) (o : Option ApprovalRequest) (r : Store × Result (Option Task)) (id : String)
      → TaskOutcomes.Outcome env s o r
      → decision_on r.0 id ≡ decision_on s id
  of_task_Outcome s o r id (TaskOutcomes.Outcome.skipped e) = ap (λ x. decision_on x.0 id) e
  of_task_Outcome s o r id (TaskOutcomes.Outcome.again a p q h e) = ap (λ x. decision_on x.0 id) e
  of_task_Outcome s o r id (TaskOutcomes.Outcome.incomplete a d p e) =
      ap (λ x. decision_on x.0 id) e ∙ decision-dispatch_failed s a d id
  of_task_Outcome s o r id (TaskOutcomes.Outcome.blocked a d p e) =
      ap (λ x. decision_on x.0 id) e
      ∙ decision-dispatch_failed (read_clock (draw_id s)) a d id
      ∙ decision-drawn s id
  of_task_Outcome s o r id (TaskOutcomes.Outcome.collided e) =
      ap (λ x. decision_on x.0 id) e ∙ decision-drawn s id
  of_task_Outcome s o r id (TaskOutcomes.Outcome.created a tasks' p can free e) =
      ap (λ x. decision_on x.0 id) e
      ∙ decision-record_dispatch _ a (requested_task env s a) id
      ∙ decision-with_tasks s tasks' id

  approvals-state_recorded :
      (s : Store) (a : ApprovalRequest) (run : ComponentRun)
      → (state_recorded env s a run).approval_requests ≡ s.approval_requests
  unfolding state_recorded insert_audit_event save_node_component
  approvals-state_recorded s a run = refl

  approvals-failure :
      (s : Store) (a : ApprovalRequest) (reason : String) (d : Fields)
      → (record_component_dispatch_failure env s a reason d).approval_requests ≡ s.approval_requests
  unfolding record_component_dispatch_failure insert_audit_event
  approvals-failure s a reason d = refl

  pub of_component_Outcome :
      (s : Store) (o : Option ApprovalRequest) (r : Store × Result (Option ComponentRun))
      → ComponentOutcomes.Outcome env s o r
      → r.0.approval_requests ≡ s.approval_requests
  of_component_Outcome s o r (ComponentOutcomes.Outcome.skipped e) =
      ap (λ x. x.0.approval_requests) e
  of_component_Outcome s o r (ComponentOutcomes.Outcome.already a run p q h w e) =
      ap (λ x. x.0.approval_requests) e
  of_component_Outcome s o r (ComponentOutcomes.Outcome.refused a reason d p e) =
      ap (λ x. x.0.approval_requests) e ∙ approvals-failure s a reason d
  of_component_Outcome s o r (ComponentOutcomes.Outcome.recorded a run p can e) =
      ap (λ x. x.0.approval_requests) e ∙ approvals-state_recorded s a run

  decision-dispatch_component :
      (s : Store) (a : ApprovalRequest) (id : String)
      → decision_on (dispatch_component env s a).0 id ≡ decision_on s id
  unfolding dispatch_component load_approval_request
  decision-dispatch_component s a id =
      elim (Bool-cases (
        a.status == "approved"
        && a.subject_type == "component_run"
        && starts_with a.action component_prefix)) [
          | inl e ↦ rw e (
              ap (λ rows. Option.map decision (lookup approval_key id rows))
                (of_component_Outcome s _ _
                  (ComponentOutcomes.dispatch_Outcome env s a.approval_id)))
          | inr e ↦ rw e
        ]

  decision-dispatch_task :
      (s : Store) (a : ApprovalRequest) (id : String)
      → decision_on (dispatch_task env s a).0 id ≡ decision_on s id
  unfolding dispatch_task
  decision-dispatch_task s a id =
      elim (Bool-cases
        (a.status == "approved" && a.subject_type == "task" && a.action == "task.run")) [
          | inl e ↦
              rw e (of_task_Outcome s _ _ id (TaskOutcomes.dispatch_Outcome env s a.approval_id))
          | inr e ↦ rw e
        ]

  decision-after_component :
      (a : ApprovalRequest) (r : Store × Result (Option ComponentRun)) (id : String)
      → decision_on (after_component env a r).0 id ≡ decision_on r.0 id
  unfolding after_component
  decision-after_component a (s, raised e) id = refl
  decision-after_component a (s, ok run) id = refl

  decision-after_task :
      (a : ApprovalRequest) (r : Store × Result (Option Task)) (id : String)
      → decision_on (after_task env a r).0 id ≡ decision_on r.0 id
  unfolding after_task
  decision-after_task a (s, raised e) id = refl
  decision-after_task a (s, ok t) id =
      decision-after_component a (dispatch_component env s a) id
      ∙ decision-dispatch_component s a id

  decision-save_decision :
      (s : Store) (a : ApprovalRequest)
      → decision_on (save_decision env s a) a.approval_id ≡ some (decision a)
  unfolding save_decision load_approval_request record_audit save_approval_request
  decision-save_decision s a =
      rw (lookup-upsert approval_key a.approval_id a s.approval_requests, eq_refl)

  decision-resolve_pending :
      (s : Store) (a : ApprovalRequest)
      → decision_on (resolve_pending env s a).0 a.approval_id ≡ some (decision a)
  unfolding resolve_pending
  decision-resolve_pending s a =
      decision-after_task a (dispatch_task env (save_decision env s a) a) a.approval_id
      ∙ decision-dispatch_task (save_decision env s a) a a.approval_id
      ∙ decision-save_decision s a

  pub own_id :
      (s : Store) (id : String) (a : ApprovalRequest)
      → load_approval_request s id ≡ some a
      → a.approval_id ≡ id
  unfolding load_approval_request
  own_id s id a there = key-lookup approval_key id s.approval_requests a there

  -- Resolving a pending request with "approved" or "rejected" leaves it in the store with that status
  -- and with the name of who decided, also when the dispatch of what was approved fails or raises.
  pub resolve_records_decision :
      (s : Store) (id status decided_by : String) (a : ApprovalRequest)
      → is_decision status ≡ true
      → load_approval_request s id ≡ some a
      → a.status ≡ "pending"
      → decision_on (resolve_approval_request env s id status decided_by).0 id
        ≡ some (status, decided_by)
  unfolding resolve_approval_request resolve_loaded
  resolve_records_decision s id status decided_by a valid there waiting =
      rw (valid, there, path→eq a.status "pending" waiting)
        (ap (λ k. decision_on (resolve_pending env s (decided env s a status decided_by)).0 k)
            (sym (own_id s id a there))
          ∙ decision-resolve_pending s (decided env s a status decided_by))
