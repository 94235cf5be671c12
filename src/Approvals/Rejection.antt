-- ===== src/Approvals/Rejection.antt =====
-- Second decisions on an approval request, and decisions other than an approval.
use mathlib.Core.Option
use mathlib.Core.Path.{subst}
use mathlib.Core.Option.{some-injective}
use hermes_managed_network.Prelude.{
  String, ◌≡◌, refl, sym, ap, ◌∙◌, inl, inr, true, false, Option, none, some, ◌==◌, ◌&&◌,
  Bool-cases, eq→path, starts_with, if◌then◌else◌,
}
use hermes_managed_network.Schema.{ApprovalRequest, Store, Env, ok}
use hermes_managed_network.Audit.{insert_audit_event, record_audit}
use hermes_managed_network.ApprovalTable.{load_approval_request, save_approval_request}
use hermes_managed_network.TaskDispatch.{dispatch_approved_task_request}
use hermes_managed_network.ComponentDispatch.{dispatch_approved_component_action, component_prefix}
use hermes_managed_network.Approvals.{
  is_decision, decided, save_decision, dispatch_component, after_component, after_task,
  dispatch_task, resolve_pending, resolve_loaded, resolve_approval_request,
}
use hermes_managed_network.Approvals.Decision.{decision, decision_on, resolve_records_decision}

is_decision-ne-pending :
    (status : String) → is_decision status ≡ true → (status == "pending") ≡ false
is_decision-ne-pending status valid = elim (Bool-cases (status == "approved")) [
  | inl e ↦ rw (eq→path status "approved" e)
  | inr e ↦ rw (eq→path status "rejected" (rw e at valid))
]

module _ (env : Env) where
  settled_of :
      (s : Store) (o : Option ApprovalRequest) (status decided_by first by : String)
      → Option.map decision o ≡ some (first, by)
      → (first == "pending") ≡ false
      → (resolve_loaded env s o status decided_by).0 ≡ s
  unfolding resolve_loaded
  settled_of s none status decided_by first by h settled = refl
  settled_of s (some a) status decided_by first by h settled =
      let same : a.status ≡ first = ap (λ d. d.0) (some-injective (decision a) (first, by) h) in
      rw (ap (λ k. k == "pending") same ∙ settled)

  settled :
      (s : Store) (id status decided_by first by : String)
      → decision_on s id ≡ some (first, by)
      → (first == "pending") ≡ false
      → (resolve_approval_request env s id status decided_by).0 ≡ s
  unfolding resolve_approval_request
  settled s id status decided_by first by h final = elim (Bool-cases (is_decision status)) [
    | inl e ↦ rw e (settled_of s (load_approval_request s id) status decided_by first by h final)
    | inr e ↦ rw e
  ]

  -- Once a pending request was resolved with "approved" or "rejected", resolving it again changes
  -- nothing at all, whatever the second decision is and whoever makes it.
  pub second_decision_changes_nothing :
      (s : Store) (id status decided_by status' decided_by' : String) (a : ApprovalRequest)
      → is_decision status ≡ true
      → load_approval_request s id ≡ some a
      → a.status ≡ "pending"
      → (resolve_approval_request env
          (resolve_approval_request env s id status decided_by).0
          id
          status'
          decided_by').0
        ≡ (resolve_approval_request env s id status decided_by).0
  second_decision_changes_nothing s id status decided_by status' decided_by' a valid there waiting =
      settled (resolve_approval_request env s id status decided_by).0 id status' decided_by' status
        decided_by (resolve_records_decision env s id status decided_by a valid there waiting)
        (is_decision-ne-pending status valid)

  -- the rows that a decision may start work in
  abbrev pub SameWork : Store → Store → Type 0
  SameWork s s' =
      (s'.tasks ≡ s.tasks)
      × (s'.node_components ≡ s.node_components)
      × (s'.component_runs ≡ s.component_runs)

  work-save_decision : (s : Store) (a : ApprovalRequest) → SameWork s (save_decision env s a)
  unfolding save_decision record_audit save_approval_request insert_audit_event
  work-save_decision s a = (refl, refl, refl)

  only_saved :
      (s : Store) (a : ApprovalRequest)
      → (a.status == "approved") ≡ false
      → (resolve_pending env s a).0 ≡ save_decision env s a
  unfolding resolve_pending dispatch_task after_task after_component dispatch_component
  only_saved s a other =
      ap
        (λ b.
          (after_task env a (
            if b && a.subject_type == "task" && a.action == "task.run"
            then dispatch_approved_task_request env (save_decision env s a) a.approval_id
            else (save_decision env s a, ok none))).0)
        other
      ∙ ap
          (λ b.
            (after_component env a (
              if b && a.subject_type == "component_run" && starts_with a.action component_prefix
              then dispatch_approved_component_action env (save_decision env s a) a.approval_id
              else (save_decision env s a, ok none))).0)
          other

  work-resolve_pending :
      (s : Store) (a : ApprovalRequest)
      → (a.status == "approved") ≡ false
      → SameWork s (resolve_pending env s a).0
  work-resolve_pending s a other =
      subst (λ s'. SameWork s s') (sym (only_saved s a other)) (work-save_decision s a)

  work-resolve_loaded :
      (s : Store) (o : Option ApprovalRequest) (status decided_by : String)
      → (status == "approved") ≡ false
      → SameWork s (resolve_loaded env s o status decided_by).0
  unfolding resolve_loaded
  work-resolve_loaded s none status decided_by other = (refl, refl, refl)
  work-resolve_loaded s (some a) status decided_by other =
      elim (Bool-cases (a.status == "pending")) [
        | inl e ↦ rw e (work-resolve_pending s (decided env s a status decided_by) other)
        | inr e ↦ rw e (refl, refl, refl)
      ]

  -- Resolving a request with any status other than "approved" leaves the tasks, the components and the
  -- component runs as they are.
  pub rejection_starts_nothing :
      (s : Store) (id status decided_by : String)
      → (status == "approved") ≡ false
      → SameWork s (resolve_approval_request env s id status decided_by).0
  unfolding resolve_approval_request
  rejection_starts_nothing s id status decided_by other = elim (Bool-cases (is_decision status)) [
    | inl e ↦ rw e (work-resolve_loaded s (load_approval_request s id) status decided_by other)
    | inr e ↦ rw e (refl, refl, refl)
  ]
