-- ===== src/Playbooks/Stops.antt =====
-- What a run of a playbook does to the machine.
use hermes_managed_network.Prelude.{
  ℕ, String, ◌≡◌, refl, Bool, false, Option, none, some, List, [], ◌∷◌, ◌++◌, inl, inr, Bool-cases,
}
use hermes_managed_network.Json.{is_zero}
use hermes_managed_network.Table.{contains}
use hermes_managed_network.Schema.{Error, permission_error, value_error, timeout_expired}
use hermes_managed_network.Executor.{Completed, allowed_risks}
use hermes_managed_network.Playbooks.{
  Playbook, CommandResult, Ended, finished, command_failed, raises, Progress, going, stopped,
  render_phase, required_inputs_given, all_supported, selected_of, run_command, run_rendered,
  run_phases, ended, run,
}
use hermes_managed_network.Playbooks.Plan.{
  plan, Trace, Went, all_ran, one_failed, one_hung, went, run_phases-flat,
}

module _ {M : Type 0} (shell : M → String → M × Option Completed) (dry_run : Bool) where
  -- why a run does not start
  pub data Refusal (playbook : Playbook) (values : List (String × String))
      (phases allow_risk : List String) : Error → Type 0 where
    risk_not_allowed :
        contains (allowed_risks allow_risk) playbook.risk ≡ false
        → Refusal playbook values phases allow_risk permission_error
    phase_not_supported :
        all_supported (selected_of phases) ≡ false
        → Refusal playbook values phases allow_risk value_error
    input_missing :
        required_inputs_given playbook.inputs values ≡ false
        → Refusal playbook values phases allow_risk value_error

  -- how a run ends and what it does to the machine, where `cs` is its plan
  pub data Executed (at : ℕ) (m : M) (playbook : Playbook) (values : List (String × String))
      (phases allow_risk : List String) (cs : List (String × String)) (x : M × Ended) : Type 0 where
    refused :
        (e : Error)
        → Refusal playbook values phases allow_risk e
        → x ≡ (m, raises e)
        → Executed at m playbook values phases allow_risk cs x
    completed :
        (m' : M) (rs : List CommandResult)
        → Trace shell dry_run m cs rs m'
        → x ≡ (m', finished (record { playbook_id = playbook.id; started_at = at; results = rs }))
        → Executed at m playbook values phases allow_risk cs x
    failed :
        (before after : List (String × String)) (phase command : String) (rs : List CommandResult)
        (m1 m' : M) (r : CommandResult)
        → cs ≡ before ++ (phase, command) ∷ after
        → Trace shell dry_run m before rs m1
        → run_command shell dry_run m1 phase command ≡ (m', some r)
        → is_zero r.exit_code ≡ false
        → x ≡ (m', command_failed r)
        → Executed at m playbook values phases allow_risk cs x
    hung :
        (before after : List (String × String)) (phase command : String) (rs : List CommandResult)
        (m1 m' : M)
        → cs ≡ before ++ (phase, command) ∷ after
        → Trace shell dry_run m before rs m1
        → run_command shell dry_run m1 phase command ≡ (m', none)
        → x ≡ (m', raises timeout_expired)
        → Executed at m playbook values phases allow_risk cs x

  module _ (at : ℕ) (m : M) (playbook : Playbook) (values : List (String × String))
      (phases allow_risk : List String) where
    of_went :
        (cs : List (String × String)) (x : M × Progress)
        → Went shell dry_run m [] cs x
        → Executed at m playbook values phases allow_risk cs (ended shell dry_run playbook at x)
    unfolding ended
    of_went cs x (all_ran m' rs t k) = rw k (completed m' rs t refl)
    of_went cs x (one_failed before after p c rs m1 m' r split t step bad k) =
        rw k (failed before after p c rs m1 m' r split t step bad refl)
    of_went cs x (one_hung before after p c rs m1 m' split t step k) =
        rw k (hung before after p c rs m1 m' split t step refl)

    stays :
        (rest : List String) (e : Ended)
        → run_phases shell dry_run playbook values rest (m, stopped e) ≡ (m, stopped e)
    unfolding run_phases
    stays [] e = refl
    stays (p ∷ rest) e = refl

    missing :
        (phase : String) (rest : List String)
        → required_inputs_given playbook.inputs values ≡ false
        → run_phases shell dry_run playbook values (phase ∷ rest) (m, going [])
          ≡ (m, stopped (raises value_error))
    unfolding run_phases render_phase run_rendered
    missing phase rest e = rw e (stays rest (raises value_error))

    missing_selected :
        required_inputs_given playbook.inputs values ≡ false
        → run_phases shell dry_run playbook values (selected_of phases) (m, going [])
          ≡ (m, stopped (raises value_error))
    missing_selected e =
        elim phases
          as (λ l.
            run_phases shell dry_run playbook values (selected_of l) (m, going [])
            ≡ (m, stopped (raises value_error))) [
              | [] ↦ missing "precheck" _ e
              | p ∷ rest ↦ missing p rest e
            ]

    -- A run of a playbook is refused, with the machine as it was and the error of its reason: a risk that
    -- is not allowed, a phase that is not supported, a required input that is missing. Or it runs the
    -- rendered commands of its phases in their order: all of them, each ending with 0, and returns their
    -- results; or up to the first that ends otherwise, or does not end, and raises, and runs none after it.
    pub run-Executed :
        Executed at m playbook values phases allow_risk
          (plan playbook values (selected_of phases))
          (run shell dry_run at m playbook values phases allow_risk)
    unfolding run
    run-Executed = elim (Bool-cases (contains (allowed_risks allow_risk) playbook.risk)) [
      | inr a ↦ rw a (refused permission_error (risk_not_allowed a) refl)
      | inl a ↦ elim (Bool-cases (all_supported (selected_of phases))) [
        | inr b ↦ rw (a, b) (refused value_error (phase_not_supported b) refl)
        | inl b ↦ elim (Bool-cases (required_inputs_given playbook.inputs values)) [
          | inr c ↦
              rw (a, b, missing_selected c)
                (refused value_error (input_missing c) (unfold ended in refl))
          | inl c ↦
              rw
                (
                  a,
                  b,
                  run_phases-flat shell dry_run playbook values (selected_of phases) (m, going [])
                      c,
                )
                (of_went _ _ (went shell dry_run (plan playbook values (selected_of phases)) m []))
        ]
      ]
    ]
