-- ===== src/Playbooks/Plan.antt =====
-- The commands of a playbook as one list, and how they go one after the other.
use hermes_managed_network.Prelude.{
  String, ◌≡◌, refl, sym, ap, ◌∙◌, Bool, true, false, Option, none, some, List, [], ◌∷◌, ◌++◌, map,
  inl, inr, Bool-cases, append_assoc, append-nil,
}
use hermes_managed_network.Json.{is_zero}
use hermes_managed_network.Schema.{timeout_expired}
use hermes_managed_network.Executor.{Completed}
use hermes_managed_network.Playbooks.{
  Playbook, CommandResult, Ended, command_failed, raises, Progress, going, stopped, render,
  render_phase, commands_of, required_inputs_given, run_command, append_result, run_commands,
  run_rendered, run_phases,
}

-- the commands of the phases, in their order
abbrev pub plan : Playbook → List (String × String) → List String → List (String × String)
plan playbook values [] = []
plan playbook values (phase ∷ rest) =
    map (λ command. (phase, render command values)) (commands_of playbook phase)
    ++ plan playbook values rest

module _ {M : Type 0} (shell : M → String → M × Option Completed) (dry_run : Bool) where
  -- commands that ran one after the other and all ended with 0
  pub data Trace : M → List (String × String) → List CommandResult → M → Type 0 where
    no_more : {m : M} → Trace m [] [] m
    then_ran :
        {m m' m'' : M} {phase command : String} {r : CommandResult} {cs : List (String × String)}
        {rs : List CommandResult}
        → run_command shell dry_run m phase command ≡ (m', some r)
        → is_zero r.exit_code ≡ true
        → Trace m' cs rs m''
        → Trace m ((phase, command) ∷ cs) (r ∷ rs) m''

  -- how the commands of a plan go, after the results `acc`
  pub data Went (m : M) (acc : List CommandResult) (cs : List (String × String)) (x : M × Progress)
      : Type 0 where
    all_ran :
        (m' : M) (rs : List CommandResult)
        → Trace m cs rs m'
        → x ≡ (m', going (acc ++ rs))
        → Went m acc cs x
    one_failed :
        (before after : List (String × String)) (phase command : String) (rs : List CommandResult)
        (m1 m' : M) (r : CommandResult)
        → cs ≡ before ++ (phase, command) ∷ after
        → Trace m before rs m1
        → run_command shell dry_run m1 phase command ≡ (m', some r)
        → is_zero r.exit_code ≡ false
        → x ≡ (m', stopped (command_failed r))
        → Went m acc cs x
    one_hung :
        (before after : List (String × String)) (phase command : String) (rs : List CommandResult)
        (m1 m' : M)
        → cs ≡ before ++ (phase, command) ∷ after
        → Trace m before rs m1
        → run_command shell dry_run m1 phase command ≡ (m', none)
        → x ≡ (m', stopped (raises timeout_expired))
        → Went m acc cs x

  -- the plan, run as one list
  pub flat : List (String × String) → M × Progress → M × Progress
  flat [] x = x
  flat ((phase, command) ∷ rest) (m, stopped e) = (m, stopped e)
  flat ((phase, command) ∷ rest) (m, going acc) =
      flat rest (append_result shell dry_run acc (run_command shell dry_run m phase command))

  flat_stopped :
      (cs : List (String × String)) (m : M) (e : Ended) → flat cs (m, stopped e) ≡ (m, stopped e)
  unfolding flat
  flat_stopped [] m e = refl
  flat_stopped (c ∷ cs) m e = refl

  flat-append :
      (cs ds : List (String × String)) (x : M × Progress) → flat (cs ++ ds) x ≡ flat ds (flat cs x)
  unfolding flat
  flat-append [] ds x = refl
  flat-append (c ∷ cs) ds (m, stopped e) = sym (flat_stopped ds m e)
  flat-append ((phase, command) ∷ cs) ds (m, going acc) = flat-append cs ds _

  flat-map :
      (playbook : Playbook) (values : List (String × String)) (phase : String) (cs : List String)
      (x : M × Progress)
      → run_commands shell dry_run phase (map (λ c. render c values) cs) x
        ≡ flat (map (λ c. (phase, render c values)) cs) x
  unfolding flat run_commands
  flat-map playbook values phase [] x = refl
  flat-map playbook values phase (c ∷ cs) (m, stopped e) = refl
  flat-map playbook values phase (c ∷ cs) (m, going acc) = flat-map playbook values phase cs _

  pub run_phases-flat :
      (playbook : Playbook) (values : List (String × String)) (phases : List String)
      (x : M × Progress)
      → required_inputs_given playbook.inputs values ≡ true
      → run_phases shell dry_run playbook values phases x ≡ flat (plan playbook values phases) x
  unfolding run_phases run_rendered render_phase
  run_phases-flat playbook values [] x given = unfold flat in refl
  run_phases-flat playbook values (phase ∷ rest) (m, stopped e) given =
      sym (flat_stopped (plan playbook values (phase ∷ rest)) m e)
  run_phases-flat playbook values (phase ∷ rest) (m, going acc) given =
      rw (given, flat-map playbook values phase (commands_of playbook phase) (m, going acc))
        (run_phases-flat playbook values rest _ given
          ∙ sym (
              flat-append (map (λ c. (phase, render c values)) (commands_of playbook phase))
                (plan playbook values rest) (m, going acc)))

  after_one :
      {m m' : M} {acc : List CommandResult} {phase command : String} {r : CommandResult}
      {cs : List (String × String)} {x : M × Progress}
      → run_command shell dry_run m phase command ≡ (m', some r)
      → is_zero r.exit_code ≡ true
      → Went m' (acc ++ r ∷ []) cs x
      → Went m acc ((phase, command) ∷ cs) x
  after_one {acc = acc} {r = r} e z (all_ran m2 rs t k) =
      all_ran m2 (r ∷ rs) (then_ran e z t)
        (k ∙ ap (λ l. (m2, going l)) (append_assoc acc (r ∷ []) rs))
  after_one {phase = phase} {command = command} {r = r} e z
        (one_failed before after p c rs m1 m2 r2 split t step bad k) =
      one_failed ((phase, command) ∷ before) after p c (r ∷ rs) m1 m2 r2
        (ap (λ l. (phase, command) ∷ l) split) (then_ran e z t) step bad k
  after_one {phase = phase} {command = command} {r = r} e z
        (one_hung before after p c rs m1 m2 split t step k) =
      one_hung ((phase, command) ∷ before) after p c (r ∷ rs) m1 m2
        (ap (λ l. (phase, command) ∷ l) split) (then_ran e z t) step k

  Went-after :
      (cs : List (String × String))
      → ((m : M) (acc : List CommandResult) → Went m acc cs (flat cs (m, going acc)))
      → (m : M) (acc : List CommandResult) (phase command : String) (o : M × Option CommandResult)
      → run_command shell dry_run m phase command ≡ o
      → Went m acc ((phase, command) ∷ cs) (flat cs (append_result shell dry_run acc o))
  unfolding append_result
  Went-after cs others m acc phase command (m', none) e =
      one_hung [] cs phase command [] m m' refl no_more e (flat_stopped cs m' _)
  Went-after cs others m acc phase command (m', some r) e =
      elim (Bool-cases (is_zero r.exit_code)) [
        | inl z ↦ rw z (after_one e z (others m' (acc ++ r ∷ [])))
        | inr z ↦
            rw z (one_failed [] cs phase command [] m m' r refl no_more e z (flat_stopped cs m' _))
      ]

  -- A plan goes in one of these ways from any machine and any results so far.
  pub went :
      (cs : List (String × String)) (m : M) (acc : List CommandResult)
      → Went m acc cs (flat cs (m, going acc))
  unfolding flat
  went [] m acc = all_ran m [] no_more (ap (λ l. (m, going l)) (sym (append-nil acc)))
  went ((phase, command) ∷ cs) m acc =
      Went-after cs (went cs) m acc phase command (run_command shell dry_run m phase command) refl
