-- ===== src/ComponentDispatch/Outcomes.antt =====
-- The ways in which a dispatch of an approved component action can end, one for each path of the code.
use hermes_managed_network.Prelude.{
  String, ◌≡◌, refl, ap, ◌∙◌, ◌⊎◌, true, false, Option, none, some, List, [], ◌∷◌, ◌==◌, ◌||◌, not,
  starts_with, arith, eq→path, Bool-cases, inl, inr,
}
use hermes_managed_network.Json.{Fields}
use hermes_managed_network.Schema.{ApprovalRequest, ComponentRun, Store, Env, Result, ok}
use hermes_managed_network.Table.{rowcount, lookup}
use hermes_managed_network.Table.Laws.{rowcount-suc, key-lookup}
use hermes_managed_network.ApprovalTable.{load_approval_request}
use hermes_managed_network.ComponentTable.{save_node_component, run_key, load_component_run}
use hermes_managed_network.ComponentDispatch.{
  component_prefix, mismatches, is_nonempty, requested_action, not_dispatchable, not_recorded,
  is_zero_rows, state_recorded, recorded_run, record_state, record_component_dispatch_failure,
  dispatch_run, dispatch_found, dispatch_request, dispatch_approved_component_action,
}

-- an approved request to change a component
pub record IsApproved (a : ApprovalRequest) : Type 0 where
  pub approved : a.status ≡ "approved"
  pub of_run : a.subject_type ≡ "component_run"
  pub of_component : starts_with a.action component_prefix ≡ true

module _ (env : Env) where
  -- the request and the run agree in every field, and the run waits for this approval
  pub record IsApplicable (s : Store) (a : ApprovalRequest) (run : ComponentRun) : Type 0 where
    pub approval : IsApproved a
    pub there : load_component_run s a.subject_id ≡ some run
    pub agree : mismatches env a run ≡ []
    pub waiting : run.status ≡ "pending_approval"
    pub action : (requested_action env a run ≡ "apply") ⊎ (requested_action env a run ≡ "uninstall")

  pub data Outcome (s : Store) (o : Option ApprovalRequest)
      (r : Store × Result (Option ComponentRun)) : Type 0 where
    skipped : r ≡ (s, ok none) → Outcome s o r
    already :
        (a : ApprovalRequest) (run : ComponentRun)
        → o ≡ some a
        → IsApproved a
        → load_component_run s a.subject_id ≡ some run
        → run.status ≡ "state_recorded"
        → r ≡ (s, ok (some run))
        → Outcome s o r
    refused :
        (a : ApprovalRequest) (reason : String) (d : Fields)
        → o ≡ some a
        → r ≡ (record_component_dispatch_failure env s a reason d, ok none)
        → Outcome s o r
    recorded :
        (a : ApprovalRequest) (run : ComponentRun)
        → o ≡ some a
        → IsApplicable s a run
        → r ≡ (state_recorded env s a run, ok (some (recorded_run env s a run)))
        → Outcome s o r

  is_nonempty-false : (names : List String) → is_nonempty names ≡ false → names ≡ []
  is_nonempty-false [] h = refl
  is_nonempty-false (n ∷ ns) h = cc

  -- the UPDATE of the run finds its row
  pub found_row :
      (s : Store) (a : ApprovalRequest) (run : ComponentRun)
      → load_component_run s a.subject_id ≡ some run
      → (run.status == "pending_approval") ≡ true
      → is_zero_rows (rowcount (not_recorded run.run_id) s.component_runs) ≡ false
  unfolding load_component_run
  found_row s a run there waits =
      let own_id = key-lookup run_key a.subject_id s.component_runs run there in
      let (n, e) =
        rowcount-suc run_key run.run_id (λ r. not (r.status == "state_recorded")) s.component_runs
          run (ap (λ k. lookup run_key k s.component_runs) own_id ∙ there)
          (ap (λ t. not (t == "state_recorded")) (eq→path run.status "pending_approval" waits)) in
      rw e

  module _ (s : Store) (a : ApprovalRequest) (ready : IsApproved a) where
    of_run :
        (run : ComponentRun)
        → load_component_run s a.subject_id ≡ some run
        → Outcome s (some a) (dispatch_run env s a run)
    unfolding dispatch_run record_state save_node_component
    of_run run there = elim (Bool-cases (is_nonempty (mismatches env a run))) [
      | inl e ↦ rw e (refused a _ _ refl refl)
      | inr same ↦ elim (Bool-cases (run.status == "pending_approval")) [
        | inr e ↦ rw (same, e) (refused a _ _ refl refl)
        | inl waits ↦ elim (Bool-cases (not_dispatchable (requested_action env a run))) [
          | inl e ↦ rw (same, waits, e) (refused a _ _ refl refl)
          | inr known ↦
              rw (same, waits, known, found_row s a run there waits)
                (recorded a run refl
                  (record {
                    approval = ready;
                    there = there;
                    agree = is_nonempty-false (mismatches env a run) same;
                    waiting = eq→path run.status "pending_approval" waits;
                    action = of_action (requested_action env a run) known;
                  })
                  refl)
        ]
      ]
    ]
      where
        of_action :
            (action : String)
            → not_dispatchable action ≡ false
            → (action ≡ "apply") ⊎ (action ≡ "uninstall")
        of_action action h = elim (Bool-cases (action == "apply")) [
          | inl e ↦ inl (eq→path action "apply" e)
          | inr e ↦ inr (eq→path action "uninstall" (ground arith))
        ]

    of_found :
        (o : Option ComponentRun)
        → load_component_run s a.subject_id ≡ o
        → Outcome s (some a) (dispatch_found env s a o)
    unfolding dispatch_found
    of_found none there = skipped refl
    of_found (some run) there = elim (Bool-cases (run.status == "state_recorded")) [
      | inl e ↦ rw e (already a run refl ready there (eq→path run.status "state_recorded" e) refl)
      | inr e ↦ rw e (of_run run there)
    ]

  of_request : (s : Store) (o : Option ApprovalRequest) → Outcome s o (dispatch_request env s o)
  unfolding dispatch_request
  of_request s none = skipped refl
  of_request s (some a) = elim (Bool-cases (a.status == "approved")) [
    | inr e ↦ rw e (skipped refl)
    | inl approved ↦
        elim (Bool-cases (
          not (a.subject_type == "component_run") || not (starts_with a.action component_prefix))) [
            | inl e ↦ rw (approved, e) (skipped refl)
            | inr for_run ↦
                rw (approved, for_run)
                  (of_found s a
                    (record {
                      approved = eq→path a.status "approved" approved;
                      of_run = eq→path a.subject_type "component_run" (ground arith);
                      of_component = ground arith;
                    })
                    (load_component_run s a.subject_id) refl)
          ]
  ]

  -- Every dispatch ends in one of these ways.
  pub dispatch_Outcome :
      (s : Store) (approval_id : String)
      → Outcome s
          (load_approval_request s approval_id)
          (dispatch_approved_component_action env s approval_id)
  unfolding dispatch_approved_component_action
  dispatch_Outcome s approval_id = of_request s (load_approval_request s approval_id)
